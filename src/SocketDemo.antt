-- ===== src/SocketDemo.antt =====
-- src/socket_demo.cpp: the callbacks of its server and of its clients. The server answers every
-- message with a copy of it.
pub mod Reply
pub mod Main
mod Tests
use lowlatency_cpp.Base.{ℕ, Bool, true, false, List, some, ◌∷◌, ◌++◌, length, take, Text}
use lowlatency_cpp.TimeUtils.{Nanos}
use lowlatency_cpp.TcpSocket.{
  TcpSocket, Callback, send, demo_server_recv, demo_client_recv, demo_reply_refused,
}
use lowlatency_cpp.Logger.Messages.{Message, codes, demo_round_complete}

pub reply : Text → Text
unfolding codes
reply message = codes "SERVER RECEIVED: " ++ message

-- What follows from the result of `send`.
abbrev pub after_reply : Bool × TcpSocket → TcpSocket
after_reply (true, s) = s
after_reply (false, s) = record s { logged = demo_reply_refused s.fd ∷ s.logged }

-- The socket after its bytes are logged and consumed.
abbrev pub log_and_consume : TcpSocket → Nanos → TcpSocket
log_and_consume s rx_time = record s {
  logged = demo_server_recv s.fd rx_time (take s.next_rcv_valid_index s.rcv_buffer) ∷ s.logged;
  next_rcv_valid_index = 0;
}

pub server_recv_callback : Callback
unfolding reply send
server_recv_callback s rx_time =
    let answer = reply (take s.next_rcv_valid_index s.rcv_buffer) in
    after_reply (send (log_and_consume s rx_time) (some answer) (length answer))

pub server_recv_finished_callback : List Message → List Message
server_recv_finished_callback messages = demo_round_complete ∷ messages

pub client_recv_callback : Callback
client_recv_callback s rx_time = record s {
  logged = demo_client_recv s.fd rx_time (take s.next_rcv_valid_index s.rcv_buffer) ∷ s.logged;
  next_rcv_valid_index = 0;
}
