-- ===== src/TcpSocket/Send.antt =====
-- `send` of src/tcp_socket.cpp: what it accepts, and what it queues.
use lowlatency_cpp.Base.{
  leb, Bool-cases, if◌then◌else◌, ℕ, ◌+◌, ◌≤◌, ◌<◌, ◌≡◌, refl, sym, ◌∙◌, List, [], ◌∷◌, ◌++◌,
  length, arith, Option, some, none, true, false, ◌⊎◌, inl, inr, take-length, append-nil,
}
use native.Mathlib.Nat.{le_refl}
use lowlatency_cpp.TcpSocket.{TcpSocket, tcp_buffer_size, copy_to, send}
use lowlatency_cpp.TcpSocket.Buffer.{queued, received, IsValid, length-copy_to, take-copy_to}

send_empty : (s : TcpSocket) (d : Option (List ℕ)) → send s d 0 ≡ (true, s)
unfolding send
send_empty s d = refl

-- The socket after `d` is copied behind what is queued.
abbrev appended : TcpSocket → List ℕ → TcpSocket
appended s d = record s {
  send_buffer = copy_to s.send_buffer s.next_send_valid_index d;
  next_send_valid_index = s.next_send_valid_index + length d;
}

send-appended :
    (s : TcpSocket) (d : List ℕ)
    → 0 < length d
    → s.next_send_valid_index + length d ≤ tcp_buffer_size
    → send s (some d) (length d) ≡ (true, appended s d)
unfolding send
send-appended s d pos h = ground (arith, take-length (length d) d (le_refl (length d)))

appended-IsValid :
    (s : TcpSocket) (d : List ℕ)
    → IsValid s
    → s.next_send_valid_index + length d ≤ tcp_buffer_size
    → IsValid (appended s d)
appended-IsValid s d v h = record {
  send_size =
      length-copy_to s.send_buffer s.next_send_valid_index d (omega (arith, v.send_size))
      ∙ v.send_size;
  send_in = h;
  rcv_size = v.rcv_size;
  rcv_in = v.rcv_in;
}

-- A message that fits, also an empty one, is queued whole behind what is there; the socket stays
-- valid, and keeps what it has received.
pub send_fits :
    (s : TcpSocket) (d : List ℕ)
    → IsValid s
    → s.next_send_valid_index + length d ≤ tcp_buffer_size
    → (s' : TcpSocket) × (send s (some d) (length d) ≡ (true, s'))
      × (queued s' ≡ queued s ++ d)
      × (received s' ≡ received s)
      × IsValid s'
send_fits s [] v h = (s, send_empty s (some []), sym (append-nil (queued s)), refl, v)
send_fits s (b ∷ d) v h = (
  appended s (b ∷ d),
  send-appended s (b ∷ d) (omega arith) h,
  take-copy_to s.send_buffer s.next_send_valid_index (b ∷ d) (omega (arith, v.send_size)),
  refl,
  appended-IsValid s (b ∷ d) v h,
)

-- A message that is too long for the room left, or a null pointer, is refused whole, and the socket
-- does not change.
pub send_refuses :
    (s : TcpSocket) (d : Option (List ℕ)) (len : ℕ)
    → IsValid s
    → 0 < len
    → (d ≡ none) ⊎ (tcp_buffer_size < s.next_send_valid_index + len)
    → send s d len ≡ (false, s)
unfolding send
send_refuses s none len v pos why = ground arith
send_refuses s (some d) len v pos (inl null) = cc
send_refuses s (some d) len v pos (inr long) = ground (arith, v.send_in)

-- `send` of a message takes it exactly if it fits into the room left, and then queues all of it behind
-- what is there; else nothing of it. The socket stays valid, and keeps what it has received.
pub send_lem :
    (s : TcpSocket) (d : List ℕ)
    → IsValid s
    → (s' : TcpSocket) × (send s (some d) (length d)
        ≡ (leb (s.next_send_valid_index + length d) tcp_buffer_size, s'))
      × (queued s' ≡ (
          if leb (s.next_send_valid_index + length d) tcp_buffer_size
          then queued s ++ d
          else queued s))
      × (received s' ≡ received s)
      × IsValid s'
send_lem s d v = elim (Bool-cases (leb (s.next_send_valid_index + length d) tcp_buffer_size)) [
  | inl fits ↦ rw fits (send_fits s d v (ground (arith, fits)))
  | inr long ↦
      let some_bytes : 0 < length d = ground (arith, long, v.send_in) in
      rw long (
        s,
        send_refuses s (some d) (length d) v some_bytes (inr (ground (arith, long))),
        refl,
        refl,
        v,
      )
]
