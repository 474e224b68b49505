-- ===== src/TcpSocket/Turn.antt =====
-- One turn of the event loop on one socket: `sendAndRecv` of src/tcp_socket.cpp with a callback that
-- may queue a reply.
use native.Mathlib.Decide.{dec_lt}
use lowlatency_cpp.Base.{
  ℕ, ◌+◌, ◌-◌, ◌≤◌, ◌<◌, ◌≡◌, ◌⊎◌, inl, inr, refl, sym, ap, ap₂, ◌∙◌, List, [], ◌∷◌, ◌++◌, length,
  arith, Option, some, none, true, false, leb, if◌then◌else◌, append-nil, Option-cases, Bool-cases,
}
use lowlatency_cpp.Kernel.{would_block}
use lowlatency_cpp.TimeUtils.{Nanos}
use lowlatency_cpp.TcpSocket.{
  TcpSocket, tcp_buffer_size, Kernel, Callback, Cmsg, Exchange, RecvReply, bytes, recv_error,
  receive, kernel_time, addressed, send_and_recv,
}
use lowlatency_cpp.TcpSocket.Buffer.{queued, IsValid}
use lowlatency_cpp.TcpSocket.Receive.{
  IsHonest, Keeps, send_and_recv-Idle, send_and_recv-Flushes, delivered, delivered-IsValid,
  addressed-IsValid,
}

-- What a callback appends to the queue, by the socket that it is called on and the time stamp.
abbrev pub Said : Type 0
Said = TcpSocket → Nanos → List ℕ

-- The callback only appends to the queue, and what it appends is `said`.
abbrev pub Sends : Callback → Said → Type 0
Sends callback said =
    (s : TcpSocket) (time : Nanos) → IsValid s → queued (callback s time) ≡ queued s ++ said s time

-- What a callback says when `recvmsg` replies: it is called if bytes have arrived.
pub said_to : Said → TcpSocket → RecvReply → List ℕ
unfolding kernel_time
said_to said s (bytes [] cs) = []
said_to said s (bytes (b ∷ bs) cs) = said (delivered s (b ∷ bs)) (kernel_time cs)
said_to said s (recv_error e) = []

said_on : Said → TcpSocket → Kernel → Option ℕ → List ℕ
unfolding said_to
said_on said s k none = []
said_on said s k (some fd) =
    if leb tcp_buffer_size s.next_rcv_valid_index
    then []
    else said_to said (addressed k s) (k.recvmsg (tcp_buffer_size - s.next_rcv_valid_index))

-- What a callback says in a turn: nothing if the socket is closed or has no room to receive.
unfoldable pub said_in : Said → TcpSocket → Kernel → List ℕ
unfolding said_on
said_in said s k = said_on said s k s.fd

receive-queued :
    (callback : Callback) (said : Said) (s : TcpSocket) (reply : RecvReply)
    → Sends callback said
    → IsValid s
    → ((bs : List ℕ) (cs : List Cmsg)
        → reply ≡ bytes bs cs
        → s.next_rcv_valid_index + length bs ≤ tcp_buffer_size)
    → queued (receive callback s reply) ≡ queued s ++ said_to said s reply
unfolding receive said_to
receive-queued callback said s (bytes [] cs) sends v room = sym (append-nil (queued s))
receive-queued callback said s (bytes (b ∷ bs) cs) sends v room =
    sends (delivered s (b ∷ bs)) (kernel_time cs)
      (delivered-IsValid s (b ∷ bs) v (room (b ∷ bs) cs refl))
receive-queued callback said s (recv_error e) sends v room = elim (Bool-cases (would_block e)) [
  | inl again ↦ rw again (sym (append-nil (queued s)))
  | inr broken ↦ rw broken (sym (append-nil (queued s)))
]

-- One call of `sendAndRecv`, on whatever branch: what goes out and what stays is what was queued and
-- what the callback has said.
unfoldable pub Turns : Callback → Said → TcpSocket → Kernel → Type 0
Turns callback said s k =
    (x : Exchange) × (send_and_recv k callback s ≡ some x)
    × IsValid x.socket
    × (x.wire ++ queued x.socket ≡ queued s ++ said_in said s k)

said_in-idle :
    (said : Said) (s : TcpSocket) (k : Kernel) (fd : Option ℕ)
    → (fd ≡ none) ⊎ (tcp_buffer_size ≤ s.next_rcv_valid_index)
    → said_on said s k fd ≡ []
unfolding said_on
said_in-idle said s k none why = refl
said_in-idle said s k (some fd) (inl closed) = cc
said_in-idle said s k (some fd) (inr full) =
    let test : leb tcp_buffer_size s.next_rcv_valid_index ≡ true = ground arith in rw test

idle-Turns :
    (callback : Callback) (said : Said) (s : TcpSocket) (k : Kernel)
    → IsValid s
    → (s.fd ≡ none) ⊎ (tcp_buffer_size ≤ s.next_rcv_valid_index)
    → Turns callback said s k
unfolding Turns said_in
idle-Turns callback said s k v why =
    let (x, e, idle) = send_and_recv-Idle k callback s why in
    (
      x,
      e,
      idle.still_valid v,
      ap₂ ◌++◌ idle.no_wire idle.same_queue
          ∙ sym (append-nil (queued s))
          ∙ ap (◌++◌ (queued s)) (sym (said_in-idle said s k s.fd why)),
    )

said_in-live :
    (said : Said) (s : TcpSocket) (k : Kernel) (fd : ℕ)
    → s.fd ≡ some fd
    → s.next_rcv_valid_index < tcp_buffer_size
    → said_in said s k
      ≡ said_to said (addressed k s) (k.recvmsg (tcp_buffer_size - s.next_rcv_valid_index))
unfolding said_in said_on
said_in-live said s k fd is_open h =
    let room : leb tcp_buffer_size s.next_rcv_valid_index ≡ false = ground arith in
    ap (said_on said s k) is_open ∙ rw room

said_to-silent :
    (said : Said)
    → ((d : TcpSocket) (time : Nanos) → said d time ≡ [])
    → (s : TcpSocket) (reply : RecvReply) → said_to said s reply ≡ []
unfolding said_to
said_to-silent said quiet s (bytes [] cs) = refl
said_to-silent said quiet s (bytes (b ∷ bs) cs) = quiet (delivered s (b ∷ bs)) (kernel_time cs)
said_to-silent said quiet s (recv_error e) = refl

said_on-silent :
    (said : Said)
    → ((d : TcpSocket) (time : Nanos) → said d time ≡ [])
    → (s : TcpSocket) (k : Kernel) (fd : Option ℕ) → said_on said s k fd ≡ []
unfolding said_on
said_on-silent said quiet s k none = refl
said_on-silent said quiet s k (some fd) =
    let n = tcp_buffer_size - s.next_rcv_valid_index in
    let rest = said_to-silent said quiet (addressed k s) (k.recvmsg n) in
    elim (Bool-cases (leb tcp_buffer_size s.next_rcv_valid_index)) [
      | inl full ↦ rw full
      | inr room ↦ rw room rest
    ]

-- A callback that never says anything says nothing in a turn.
pub said_in-silent :
    (said : Said)
    → ((d : TcpSocket) (time : Nanos) → said d time ≡ [])
    → (s : TcpSocket) (k : Kernel) → said_in said s k ≡ []
unfolding said_in
said_in-silent said quiet s k = said_on-silent said quiet s k s.fd

module _ (callback : Callback) (said : Said) (keeps : Keeps callback)
    (sends : Sends callback said) where
  pub turn-Turns : (s : TcpSocket) (k : Kernel) → IsHonest k → IsValid s → Turns callback said s k
  unfolding Turns
  turn-Turns s k honest v = elim (Option-cases s.fd) [
    | inl closed ↦ idle-Turns callback said s k v (inl closed)
    | inr (fd, is_open) ↦ elim (dec_lt s.next_rcv_valid_index tcp_buffer_size) [
      | yes room ↦
          let n = tcp_buffer_size - s.next_rcv_valid_index in
          let (x, e, result, f) =
            send_and_recv-Flushes k callback s fd honest keeps v is_open room in
          (
            x,
            e,
            f.valid,
            f.stream
                ∙ receive-queued callback said (addressed k s) (k.recvmsg n) sends
                    (addressed-IsValid k s v) (λ bs cs is. omega (arith, honest.gives n bs cs is))
                ∙ ap (◌++◌ (queued s)) (sym (said_in-live said s k fd is_open room)),
          )
      | no full ↦ idle-Turns callback said s k v (inr (omega arith))
    ]
  ]
