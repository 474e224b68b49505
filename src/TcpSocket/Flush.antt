-- ===== src/TcpSocket/Flush.antt =====
-- The sending part of `sendAndRecv` (src/tcp_socket.cpp): the loop over `::send`, and the move of
-- the unsent bytes to the front of the buffer.
use mathlib.Core.Option
use lowlatency_cpp.Base.{
  true, false, ℕ, suc, ◌-◌, ◌≤◌, ◌≡◌, ◌⊎◌, inl, inr, refl, sym, ap, ap₂, ◌∙◌, List, [], ◌++◌,
  length, take, drop, arith, some, Bool, not, ◌||◌, ltb, Bool-cases, ltb→le,
}
use lowlatency_cpp.Kernel.{Errno, eagain, ewouldblock, einprogress, eintr, other, would_block}
use lowlatency_cpp.TcpSocket.{
  TcpSocket, copy_to, SendReply, sent, send_error, Flushed, keep_unsent, flush, Exchange,
}
use lowlatency_cpp.TcpSocket.Buffer.{queued, received, IsValid, length-copy_to, take-copy_to_front}
use lowlatency_cpp.TcpSocket.SendLoop.{TakesOffered, rest, Stopped, length-rest, send_loop-Sends}

queued-rest : (s : TcpSocket) → queued s ≡ rest s.send_buffer s.next_send_valid_index 0
queued-rest s = ap (λ (k : ℕ). take k s.send_buffer) (omega arith)

-- After the loop the queue is what the kernel did not take.
queued-keep_unsent :
    (s : TcpSocket) (r : Flushed)
    → IsValid s
    → r.total_sent ≤ s.next_send_valid_index
    → queued (keep_unsent s r) ≡ rest s.send_buffer s.next_send_valid_index r.total_sent
unfolding keep_unsent
queued-keep_unsent s r v h = elim (Bool-cases (ltb 0 r.total_sent)) [
  | inr nothing ↦ rw nothing (
      queued-rest s
      ∙ ap (rest s.send_buffer s.next_send_valid_index) {x = 0}
          (omega (arith, ltb→le 0 r.total_sent nothing)))
  | inl some_sent ↦ rw some_sent (elim (Bool-cases (ltb 0 unsent)) [
    | inl more ↦ rw more (
        ap (λ (k : ℕ). take k (copy_to s.send_buffer 0 kept)) (sym len)
        ∙ take-copy_to_front s.send_buffer kept (omega (arith, len, v.send_size, v.send_in)))
    | inr all ↦
        let z : unsent ≡ 0 = omega (arith, ltb→le 0 unsent all) in
        rw all (
          ap (λ (k : ℕ). take k s.send_buffer) z
          ∙ sym (ap (λ (k : ℕ). take k (drop r.total_sent s.send_buffer)) z))
  ])
]
  where
    unsent : ℕ
    unsent = s.next_send_valid_index - r.total_sent

    kept : List ℕ
    kept = rest s.send_buffer s.next_send_valid_index r.total_sent

    len : length kept ≡ unsent
    len =
        length-rest s.send_buffer s.next_send_valid_index r.total_sent
          (omega (arith, v.send_size, v.send_in))

keep_unsent-IsValid :
    (s : TcpSocket) (r : Flushed)
    → IsValid s
    → r.total_sent ≤ s.next_send_valid_index
    → IsValid (keep_unsent s r)
unfolding keep_unsent
keep_unsent-IsValid s r v h = ground (
  arith,
  length-copy_to s.send_buffer 0 (rest s.send_buffer s.next_send_valid_index r.total_sent),
  length-rest s.send_buffer s.next_send_valid_index r.total_sent,
)

received-keep_unsent : (s : TcpSocket) (r : Flushed) → received (keep_unsent s r) ≡ received s
unfolding keep_unsent
received-keep_unsent s r = ground arith

send_disconnected-keep_unsent :
    (s : TcpSocket) (r : Flushed)
    → (keep_unsent s r).send_disconnected ≡ (r.broken || s.send_disconnected)
unfolding keep_unsent
send_disconnected-keep_unsent s r = ground arith

-- The errors of `recvmsg` and `::send` that end a connection: all but "try again".
abbrev pub breaks : Errno → Bool
breaks eagain = false
breaks ewouldblock = false
breaks einprogress = false
breaks eintr = true
breaks (other n) = true

breaks-would_block : (e : Errno) → not (would_block e) ≡ breaks e
breaks-would_block eagain = refl
breaks-would_block ewouldblock = refl
breaks-would_block einprogress = refl
breaks-would_block eintr = refl
breaks-would_block (other n) = refl

-- Why bytes stay queued, and what becomes of the flag: nothing stays; or the kernel took nothing of
-- what stays; or it failed on it, and the flag is set unless the error means "try again".
abbrev pub Why : (ℕ → List ℕ → SendReply) → TcpSocket → TcpSocket → Type 0
Why kernel_send s s' =
    ((queued s' ≡ []) × (s'.send_disconnected ≡ s.send_disconnected))
    ⊎ ((kernel_send (s.next_send_valid_index - length (queued s')) (queued s') ≡ sent 0)
        × (s'.send_disconnected ≡ s.send_disconnected))
    ⊎ ((e : Errno) × (kernel_send (s.next_send_valid_index - length (queued s')) (queued s')
          ≡ send_error e)
        × (s'.send_disconnected ≡ (breaks e || s.send_disconnected)))

module _ (kernel_send : ℕ → List ℕ → SendReply) (s : TcpSocket) (r : Flushed) (v : IsValid s)
    (h : r.total_sent ≤ s.next_send_valid_index) where
  kept : queued (keep_unsent s r) ≡ rest s.send_buffer s.next_send_valid_index r.total_sent
  kept = queued-keep_unsent s r v h

  place : s.next_send_valid_index - length (queued (keep_unsent s r)) ≡ r.total_sent
  place = omega (
    arith,
    ap length kept,
    length-rest s.send_buffer s.next_send_valid_index r.total_sent
        (omega (arith, v.send_size, v.send_in)),
  )

  flag :
      {b : Bool} → r.broken ≡ b → (keep_unsent s r).send_disconnected ≡ (b || s.send_disconnected)
  flag e = send_disconnected-keep_unsent s r ∙ ap (λ b. b || s.send_disconnected) e

  Stopped-Why :
      Stopped kernel_send s.send_buffer s.next_send_valid_index r
      → Why kernel_send s (keep_unsent s r)
  Stopped-Why (inl (all, fine)) = inl (
    kept ∙ ap (λ (k : ℕ). take k (drop r.total_sent s.send_buffer)) {y = 0} (omega arith),
    flag fine,
  )
  Stopped-Why (inr (inl (none_taken, fine))) =
      inr (inl (ap₂ kernel_send place kept ∙ none_taken, flag fine))
  Stopped-Why (inr (inr (e, failed, broke))) =
      inr (inr (e, ap₂ kernel_send place kept ∙ failed, flag (broke ∙ breaks-would_block e)))

-- What the sending part of `sendAndRecv` leaves behind.
pub record Flushes (kernel_send : ℕ → List ℕ → SendReply) (s : TcpSocket) (x : Exchange)
    : Type 0 where
  pub stream : x.wire ++ queued x.socket ≡ queued s
  pub valid : IsValid x.socket
  pub same_received : received x.socket ≡ received s
  pub why : Why kernel_send s x.socket

-- The loop ends. The bytes that went out, followed by those still queued, are the queue as it was,
-- so no byte is lost, repeated or moved; the socket stays valid. Bytes stay queued only if the
-- kernel took nothing or failed on them, and only an error that is not "try again" marks the socket.
pub flush_lem :
    (kernel_send : ℕ → List ℕ → SendReply) (result : Bool) (s : TcpSocket)
    → TakesOffered kernel_send
    → IsValid s
    → (x : Exchange) × (flush kernel_send result s ≡ some x)
      × (x.result ≡ result)
      × Flushes kernel_send s x
unfolding flush
flush_lem kernel_send result s takes v =
    let (r, run, sends) =
      send_loop-Sends kernel_send takes s.send_buffer s.next_send_valid_index
        (omega (arith, v.send_size, v.send_in)) (suc s.next_send_valid_index) 0 (omega arith)
        (omega arith) in
    let kept = queued-keep_unsent s r v sends.within in
    (
      record { result = result; socket = keep_unsent s r; wire = r.wire },
      rw (run, Option.map),
      refl,
      record {
        stream = ap (◌++◌ r.wire) kept ∙ sends.stream ∙ sym (queued-rest s);
        valid = keep_unsent-IsValid s r v sends.within;
        same_received = received-keep_unsent s r;
        why = Stopped-Why kernel_send s r v sends.within sends.stopped;
      },
    )
