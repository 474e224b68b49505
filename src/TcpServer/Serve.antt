-- ===== src/TcpServer/Serve.antt =====
-- `sendAndRecv` of src/tcp_server.cpp.
use native.Mathlib.Decide.{dec_lt}
use lowlatency_cpp.Base.{ℕ, ◌≡◌, inl, inr, sym, some, arith, subst, Option-cases}
use lowlatency_cpp.TcpSocket
use lowlatency_cpp.TcpSocket.{TcpSocket, Callback, Kernel, Exchange, tcp_buffer_size}
use lowlatency_cpp.TcpSocket.Buffer as Buffer
use lowlatency_cpp.TcpSocket.Receive.{IsHonest, Keeps, send_and_recv-Flushes, send_and_recv-Idle}
use lowlatency_cpp.TcpServer.{TcpServer}
use lowlatency_cpp.SocketHeap.{store, listener}
use lowlatency_cpp.TcpServer.Lists.{lookup-store}
use lowlatency_cpp.TcpServer.Valid.{Live, IsValid, AllLive-store, Live-store}

pub stored-IsValid :
    (s : TcpServer) (p : ℕ) (y : TcpSocket)
    → IsValid s
    → Live s.heap p
    → Buffer.IsValid y
    → IsValid (record s { heap = store s.heap p y })
unfolding Live
stored-IsValid s p y v l good = record {
  sockets_live = AllLive-store s.heap s.sockets p y v.sockets_live;
  receive_live = AllLive-store s.heap s.receive_sockets p y v.receive_live;
  send_live = AllLive-store s.heap s.send_sockets p y v.send_live;
  disconnected_live = AllLive-store s.heap s.disconnected_sockets p y v.disconnected_live;
  watched_live = AllLive-store s.heap s.watched p y v.watched_live;
  listener_live = Live-store s.heap p listener y v.listener_live;
  listener_apart = v.listener_apart;
  sockets_once = v.sockets_once;
  receive_once = v.receive_once;
  send_once = v.send_once;
  disconnected_once = v.disconnected_once;
  owned = λ q m. elim (lookup-store s.heap p q y m.0 m.1) [
    | inl (same, _) ↦ v.owned q (subst (λ r. Live s.heap r) (sym same) l)
    | inr (ne, old) ↦ v.owned q (m.0, old)
  ];
  buffers = λ q z e. elim (lookup-store s.heap p q y z e) [
    | inl (_, same) ↦ subst (λ (w : TcpSocket). Buffer.IsValid w) same good
    | inr (ne, old) ↦ v.buffers q z old
  ];
}

-- `TCPSocket::sendAndRecv` returns on every well-formed socket.
pub exchange-total :
    (k : Kernel) (callback : Callback) (x : TcpSocket)
    → IsHonest k
    → Keeps callback
    → Buffer.IsValid x
    → (y : Exchange) × (TcpSocket.send_and_recv k callback x ≡ some y) × Buffer.IsValid y.socket
exchange-total k callback x honest keeps v = elim (Option-cases x.fd) [
  | inl closed ↦
      let (y, run, idle) = send_and_recv-Idle k callback x (inl closed) in
      (y, run, idle.still_valid v)
  | inr (fd, e) ↦ elim (dec_lt x.next_rcv_valid_index tcp_buffer_size) [
    | yes room ↦
        let (y, run, result, flushes) =
          send_and_recv-Flushes k callback x fd honest keeps v e room in
        (y, run, flushes.valid)
    | no full ↦
        let (y, run, idle) = send_and_recv-Idle k callback x (inr (omega arith)) in
        (y, run, idle.still_valid v)
  ]
]
