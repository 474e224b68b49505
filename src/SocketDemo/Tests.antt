-- ===== src/SocketDemo/Tests.antt =====
-- Runs of the callbacks of src/socket_demo.cpp.
use lowlatency_cpp.Base.{
  ℕ, pos, ◌≡◌, refl, List, [], ◌∷◌, ◌++◌, length, arith, some, true, leb, if◌then◌else◌,
}
use lowlatency_cpp.Kernel.{eagain}
use lowlatency_cpp.TcpSocket.{
  Kernel, Exchange, time_fits, RecvReply, bytes, recv_error, SendReply, sent, send_and_recv,
}
use lowlatency_cpp.TcpSocket.Buffer.{queued, received, IsValid}
use lowlatency_cpp.TcpSocket.Samples.{blank, blank-IsValid}
use lowlatency_cpp.TcpSocket.Receive.{IsHonest}
use lowlatency_cpp.TcpSocket.Turn.{Said}
use lowlatency_cpp.TcpSocket.Stream.{Event, message, turn, Session, run, run_stream}
use lowlatency_cpp.Logger.Messages.{codes}
use lowlatency_cpp.SocketDemo.{reply, server_recv_callback, client_recv_callback}
use lowlatency_cpp.SocketDemo.Reply.{
  answer, replies, server_recv_callback-Keeps, server_recv_callback-Sends,
}

-- Two bytes arrive, and every byte that is sent is taken.
abbrev greeting : ℕ → RecvReply
greeting room = if leb 2 room then bytes (b'h' ∷ b'i' ∷ []) [] else recv_error eagain

abbrev all_taken : ℕ → List ℕ → SendReply
all_taken total offered = sent (length offered)

abbrev network : Kernel
network = record { recvmsg = greeting; msg_name = λ a. a; send_some = all_taken }

no_stamp_fits : time_fits [] ≡ true
unfolding time_fits
no_stamp_fits = refl

network-IsHonest : IsHonest network
network-IsHonest = record {
  takes = λ total offered n e. ground (arith, e);
  gives = λ room bs cs e. ground (arith, e);
  stamps = λ room bs cs e. ground (arith, e, no_stamp_fits);
}

reply_hi : reply (b'h' ∷ b'i' ∷ []) ≡ codes "SERVER RECEIVED: hi"
unfolding reply codes
reply_hi = refl

client_consumes : received (client_recv_callback (blank (some 7)) (pos 0)) ≡ []
unfolding client_recv_callback
client_consumes = refl

replies_example :
    (x : Exchange) × (send_and_recv network server_recv_callback (blank (some 7)) ≡ some x)
    × (x.result ≡ true)
    × (x.wire ++ queued x.socket ≡ [] ++ answer [] ([] ++ b'h' ∷ b'i' ∷ []))
    × (received x.socket ≡ [])
    × IsValid x.socket
replies_example =
    replies network (blank (some 7)) 7 b'h' (b'i' ∷ []) [] network-IsHonest (blank-IsValid (some 7))
      refl (omega arith) refl

-- The server's callback answers.
abbrev answers : Said
answers s rx_time = answer (queued s) (received s)

-- The application sends three bytes, two arrive and are answered, and it sends another.
abbrev events : List Event
events = message (1 ∷ 2 ∷ 3 ∷ []) ∷ turn network ∷ message (4 ∷ []) ∷ []

run_stream_example :
    (c : Session) × (run server_recv_callback answers events
        (record { socket = blank (some 7); accepted = []; wire = [] })
      ≡ some c)
    × (c.wire ++ queued c.socket ≡ c.accepted)
    × IsValid c.socket
run_stream_example =
    run_stream server_recv_callback answers server_recv_callback-Keeps server_recv_callback-Sends
      events (blank (some 7)) (network-IsHonest, tt) (blank-IsValid (some 7)) refl
