-- ===== src/TcpSocket/Tests.antt =====
-- Concrete sockets and kernels, and the theorems at inputs that meet their hypotheses.
use lowlatency_cpp.Base.{
  pos, leb, ◌+◌, if◌then◌else◌, ℕ, zero, suc, ◌≡◌, inl, refl, List, [], ◌∷◌, ◌++◌, arith, some,
  none, false,
}
use lowlatency_cpp.Kernel.{eagain}
use lowlatency_cpp.TcpSocket.{
  tcp_buffer_size, TcpSocket, Kernel, Callback, Exchange, scm_timestamp, other_cmsg, RecvReply,
  bytes, recv_error, SendReply, sent, send_error, kernel_time, flush, send, send_and_recv,
  send_loop,
}
use lowlatency_cpp.TcpSocket.Buffer.{queued, received, IsValid}
use lowlatency_cpp.TcpSocket.Samples.{blank, length-memory}
use lowlatency_cpp.TcpSocket.Send.{send_lem}
use lowlatency_cpp.TcpSocket.Flush.{Flushes, flush_lem}
use lowlatency_cpp.TcpSocket.SendLoop.{TakesOffered}
use lowlatency_cpp.TcpSocket.Receive.{IsHonest, Idle, send_and_recv-Idle}

-- An open socket with nothing in its buffers.
abbrev idle : TcpSocket
idle = blank (some 7)

-- Ten bytes wait to be sent, twenty are received.
abbrev busy : TcpSocket
busy = record idle { next_send_valid_index = 10; next_rcv_valid_index = 20 }

busy-IsValid : IsValid busy
busy-IsValid = record {
  send_size = length-memory;
  send_in = omega arith;
  rcv_size = length-memory;
  rcv_in = omega arith;
}

-- Takes one byte at a time for two calls and then asks to try again.
abbrev slow_send : ℕ → List ℕ → SendReply
slow_send zero [] = sent 0
slow_send zero (b ∷ bs) = sent 1
slow_send (suc total) offered = send_error eagain

slow_send-TakesOffered : TakesOffered slow_send
slow_send-TakesOffered zero [] n e = ground arith
slow_send-TakesOffered zero (b ∷ bs) n e = ground arith
slow_send-TakesOffered (suc total) offered n e = cc

abbrev kernel : Kernel
kernel = record { recvmsg = λ room. recv_error eagain; msg_name = λ a. a; send_some = slow_send }

kernel-IsHonest : IsHonest kernel
kernel-IsHonest = record {
  takes = slow_send-TakesOffered;
  gives = λ room bs cs e. cc;
  stamps = λ room bs cs e. cc;
}

-- The application takes everything that it gets.
abbrev consume_all : Callback
consume_all s time = record s { next_rcv_valid_index = 0 }

two_bytes_sent :
    send_loop (λ total offered. sent 1) (1 ∷ 2 ∷ 3 ∷ []) 2 5 0
    ≡ some (record { total_sent = 2; broken = false; wire = 1 ∷ 2 ∷ [] })
unfolding send_loop
two_bytes_sent = refl

first_timestamp :
    kernel_time (other_cmsg ∷ scm_timestamp (pos 3) (pos 5) ∷ scm_timestamp (pos 9) (pos 9) ∷ [])
    ≡ pos 3000005000
unfolding kernel_time
first_timestamp = refl

send_lem_example :
    (s : TcpSocket) × (send busy (some (4 ∷ 5 ∷ [])) 2 ≡ (leb (10 + 2) tcp_buffer_size, s))
    × (queued s ≡ (if leb (10 + 2) tcp_buffer_size then queued busy ++ 4 ∷ 5 ∷ [] else queued busy))
    × (received s ≡ received busy)
    × IsValid s
send_lem_example = send_lem busy (4 ∷ 5 ∷ []) busy-IsValid

flush_lem_example :
    (x : Exchange) × (flush slow_send false busy ≡ some x)
    × (x.result ≡ false)
    × Flushes slow_send busy x
flush_lem_example = flush_lem slow_send false busy slow_send-TakesOffered busy-IsValid

send_and_recv-Idle_example :
    (x : Exchange) × (send_and_recv kernel consume_all (record busy { fd = none }) ≡ some x)
    × Idle (record busy { fd = none }) none x
send_and_recv-Idle_example =
    send_and_recv-Idle kernel consume_all (record busy { fd = none }) (inl refl)

-- Two bytes arrive, with a time stamp.
abbrev two_bytes : ℕ → RecvReply
two_bytes room =
    if leb 2 room
    then bytes (104 ∷ 105 ∷ []) (other_cmsg ∷ scm_timestamp (pos 3) (pos 5) ∷ [])
    else recv_error eagain

abbrev speaking : Kernel
speaking = record { recvmsg = two_bytes; msg_name = λ a. a; send_some = slow_send }
