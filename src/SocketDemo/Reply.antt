-- ===== src/SocketDemo/Reply.antt =====
-- The server of src/socket_demo.cpp answers: its callback on top of `sendAndRecv`.
use lowlatency_cpp.Base.{
  ℕ, ◌+◌, ◌-◌, ◌≤◌, ◌<◌, ◌≡◌, inl, inr, refl, sym, ap, ap₂, ◌∙◌, List, [], ◌∷◌, ◌++◌, length, arith,
  some, true, leb, Bool-cases, if◌then◌else◌, append-nil, length-take, Text,
}
use lowlatency_cpp.TcpSocket.{
  TcpSocket, tcp_buffer_size, Kernel, Cmsg, bytes, Exchange, send, send_and_recv, receive,
  kernel_time, got_bytes, addressed,
}
use lowlatency_cpp.TimeUtils.{Nanos}
use lowlatency_cpp.TcpSocket.Buffer.{queued, received, IsValid}
use lowlatency_cpp.TcpSocket.Send.{send_fits, send_refuses}
use lowlatency_cpp.TcpSocket.Receive.{
  IsHonest, Keeps, receive_bytes, addressed-IsValid, send_and_recv-Flushes,
}
use lowlatency_cpp.TcpSocket.Turn.{Sends}
use lowlatency_cpp.SocketDemo.{reply, after_reply, log_and_consume, server_recv_callback}

-- The answer to a message, if there is room for it behind what is queued; else nothing.
pub answer : List ℕ → Text → Text
answer queue message =
    if leb (length queue + length (reply message)) tcp_buffer_size then reply message else []

length-queued : (s : TcpSocket) → IsValid s → length (queued s) ≡ s.next_send_valid_index
length-queued s v =
    omega (arith, length-take s.next_send_valid_index s.send_buffer, v.send_size, v.send_in)

log_and_consume-IsValid :
    (s : TcpSocket) (rx_time : Nanos) → IsValid s → IsValid (log_and_consume s rx_time)
log_and_consume-IsValid s rx_time v = record {
  send_size = v.send_size;
  send_in = v.send_in;
  rcv_size = v.rcv_size;
  rcv_in = omega arith;
}

-- What the server's callback leaves behind.
record Answered (s t : TcpSocket) : Type 0 where
  pub queue : queued t ≡ queued s ++ answer (queued s) (received s)
  pub all_consumed : received t ≡ []
  pub valid : IsValid t

after_reply-Answered :
    (s : TcpSocket) (rx_time : Nanos)
    → IsValid s
    → Answered s (
        after_reply (
          send
            (log_and_consume s rx_time)
            (some (reply (received s)))
            (length (reply (received s)))))
unfolding answer
after_reply-Answered s rx_time v =
    elim (Bool-cases (leb (length (queued s) + length (reply (received s))) tcp_buffer_size)) [
      | inl fits ↦
          let (t, sends, queue, same, w) =
            send_fits (log_and_consume s rx_time) (reply (received s))
              (log_and_consume-IsValid s rx_time v) (ground (arith, fits, length-queued s v)) in
          let whole : answer (queued s) (received s) ≡ reply (received s) = rw fits in
          rw sends (record {
            queue = queue ∙ ap (◌++◌ (queued s)) (sym whole);
            all_consumed = same;
            valid = w;
          })
      | inr long ↦
          let refused =
            send_refuses (log_and_consume s rx_time) (some (reply (received s)))
              (length (reply (received s))) (log_and_consume-IsValid s rx_time v)
              (ground (arith, long, v.send_in, length-queued s v))
              (inr (ground (arith, long, length-queued s v))) in
          let nothing : answer (queued s) (received s) ≡ [] = rw long in
          let w = log_and_consume-IsValid s rx_time v in
          rw refused (record {
            queue = sym (append-nil (queued s)) ∙ ap (◌++◌ (queued s)) (sym nothing);
            all_consumed = refl;
            valid = record {
              send_size = w.send_size;
              send_in = w.send_in;
              rcv_size = w.rcv_size;
              rcv_in = w.rcv_in;
            };
          })
    ]

server_recv_callback-Answered :
    (s : TcpSocket) (rx_time : Nanos) → IsValid s → Answered s (server_recv_callback s rx_time)
unfolding server_recv_callback
server_recv_callback-Answered s rx_time v = after_reply-Answered s rx_time v

pub server_recv_callback-Keeps : Keeps server_recv_callback
server_recv_callback-Keeps s rx_time v = (server_recv_callback-Answered s rx_time v).valid

pub server_recv_callback-Sends :
    Sends server_recv_callback (λ (s : TcpSocket) (rx_time : Nanos). answer (queued s) (received s))
server_recv_callback-Sends s rx_time v = (server_recv_callback-Answered s rx_time v).queue

-- When bytes arrive at an open valid socket of the demonstration server with room to receive,
-- `sendAndRecv` returns true and consumes them; what goes out, followed by what stays queued, is
-- what was queued and then the reply, "SERVER RECEIVED: " and all bytes not consumed before; a
-- reply that does not fit behind the queue is left out whole. The kernel never takes or gives more
-- bytes than it was offered room for, and its time stamps fit in 64 bits.
pub replies :
    (k : Kernel) (s : TcpSocket) (fd b : ℕ) (bs : List ℕ) (cs : List Cmsg)
    → IsHonest k
    → IsValid s
    → s.fd ≡ some fd
    → s.next_rcv_valid_index < tcp_buffer_size
    → k.recvmsg (tcp_buffer_size - s.next_rcv_valid_index) ≡ bytes (b ∷ bs) cs
    → (x : Exchange) × (send_and_recv k server_recv_callback s ≡ some x)
      × (x.result ≡ true)
      × (x.wire ++ queued x.socket ≡ queued s ++ answer (queued s) (received s ++ b ∷ bs))
      × (received x.socket ≡ [])
      × IsValid x.socket
replies k s fd b bs cs honest v open_at room arrived =
    let given : s.next_rcv_valid_index + length (b ∷ bs) ≤ tcp_buffer_size =
      omega (arith, honest.gives (tcp_buffer_size - s.next_rcv_valid_index) (b ∷ bs) cs arrived) in
    let (x, run, result, flushes) =
      send_and_recv-Flushes k server_recv_callback s fd honest server_recv_callback-Keeps v open_at
        room in
    let (s', called, bytes_in, queue, w) =
      receive_bytes server_recv_callback (addressed k s) b bs cs (addressed-IsValid k s v) given in
    let after = server_recv_callback-Answered s' (kernel_time cs) w in
    let is = ap (receive server_recv_callback (addressed k s)) arrived ∙ called in
    (
      x,
      run,
      result ∙ ap got_bytes arrived ∙ ground arith,
      flushes.stream ∙ ap queued is ∙ after.queue ∙ ap₂ (λ q m. q ++ answer q m) queue bytes_in,
      flushes.same_received ∙ ap received is ∙ after.all_consumed,
      flushes.valid,
    )
