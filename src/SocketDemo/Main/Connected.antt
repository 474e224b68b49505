-- ===== src/SocketDemo/Main/Connected.antt =====
-- The part of `main` of src/socket_demo.cpp in which the clients connect.
use lowlatency_cpp.Base.{
  ℕ, zero, suc, ◌*◌, ◌≡◌, refl, ◌∙◌, Bool, true, false, ◌&&◌, Option, none, some, [], ◌∷◌, ◌++◌,
  length, done, Bool-cases, inl, inr,
}
use lowlatency_cpp.TcpSocket
use lowlatency_cpp.TcpSocket.{TcpSocket, Kernel, tcp_buffer_size}
use lowlatency_cpp.TcpSocket.Buffer as Buffer
use lowlatency_cpp.TcpSocket.Buffer.{connect-IsValid, connect_empty}
use lowlatency_cpp.TcpSocket.Receive.{IsHonest}
use lowlatency_cpp.SocketHeap.{Heap, lookup}
use lowlatency_cpp.TcpServer.{TcpServer}
use lowlatency_cpp.TcpServer.Valid.{IsValid}
use lowlatency_cpp.TcpServer.Events.{IsEpoll}
use lowlatency_cpp.TcpServer.Poll.{poll-IsValid}
use lowlatency_cpp.TcpServer.Listen.{is_some}
use lowlatency_cpp.Logger.Messages.{demo_connecting}
use lowlatency_cpp.SocketDemo.Main.{
  World, Client, Demo, blank_socket, poll_at, polls, on_connected, connect_client, connect_clients,
  port, ip, iface,
}
use lowlatency_cpp.SocketDemo.Main.Clients.{IsNew, AllNew, AllNew-append}

-- What is trusted: `new` gives addresses that are not in use and buffers of their size, epoll
-- reports at most 1024 events, of registered pointers only, and no count is larger than what was offered.
pub record IsTrusted (w : World) : Type 0 where
  pub is_fresh : (h : Heap) → lookup h (w.new_at h) ≡ none
  pub sized : (i : ℕ) → length (w.memory i) ≡ tcp_buffer_size
  pub reports : (t : ℕ) → IsEpoll (w.epoll_wait t)
  pub honest_server : (t p : ℕ) (x : TcpSocket) → IsHonest (w.server_kernel t p x)
  pub honest_clients : (t i : ℕ) → IsHonest (w.client_kernel t i)

-- The next `n` clients get a socket.
abbrev pub all_connect : World → ℕ → ℕ → Bool
all_connect w zero i = true
all_connect w (suc n) i = is_some (w.connected i) && all_connect w n (suc i)

-- The state before the clients speak, with what the part of `main` so far has answered.
pub record Opened (b : Bool) (r : Bool × Demo) : Type 0 where
  pub answer : r.0 ≡ b
  pub server : IsValid r.1.server
  pub clients : AllNew r.1.clients

module _ (w : World) (trusted : IsTrusted w) where
  pub blank_socket-IsValid : (i : ℕ) → Buffer.IsValid (blank_socket w i)
  blank_socket-IsValid i =
      Buffer.create-IsValid (w.memory i) (w.memory i) (trusted.sized i) (trusted.sized i)

  pub poll_at-IsValid :
      (t : ℕ) (s : TcpServer)
      → IsValid s
      → (s' : TcpServer) × (poll_at w t s ≡ done s') × IsValid s'
  poll_at-IsValid t s v =
      poll-IsValid w.new_at (blank_socket w 0) trusted.is_fresh (blank_socket-IsValid 0)
        (w.epoll_wait t) s (w.pending t) (trusted.reports t) v

  polls-IsValid :
      (n t : ℕ) (s : TcpServer)
      → IsValid s
      → (s' : TcpServer) × (polls w n t s ≡ done s') × IsValid s'
  unfolding polls
  polls-IsValid zero t s v = (s, refl, v)
  polls-IsValid (suc n) t s v =
      let (m, e, x) = poll_at-IsValid t s v in
      let (s', f, y) = polls-IsValid n (suc t) m x in (s', rw (e, f), y)

  on_connected-Opened :
      (d : Demo) (i : ℕ) (x : TcpSocket) (created : Option ℕ)
      → IsValid d.server
      → AllNew d.clients
      → IsNew (record { socket = x; wire = [] })
      → (r : Bool × Demo) × (on_connected w d i (x, created) ≡ done r) × Opened (is_some created) r
  on_connected-Opened d i x none v a new =
      ((false, d), refl, record { answer = refl; server = v; clients = a })
  on_connected-Opened d i x (some fd) v a new =
      let (s, e, y) = polls-IsValid 5 (5 * i) d.server v in
      let c : Client = record { socket = x; wire = [] } in
      (
        (true, record d { server = s; clients = d.clients ++ c ∷ [] }),
        rw e,
        record { answer = refl; server = y; clients = AllNew-append d.clients c a new },
      )

  connect_client-Opened :
      (d : Demo) (i : ℕ)
      → IsValid d.server
      → AllNew d.clients
      → (r : Bool × Demo) × (connect_client w d i ≡ done r) × Opened (is_some (w.connected i)) r
  unfolding connect_client TcpSocket.connect
  connect_client-Opened d i v a =
      let x = (TcpSocket.connect w.htons (blank_socket w (suc i)) (w.connected i) port).0 in
      on_connected-Opened (record d { logged = demo_connecting i ip iface port ∷ d.logged }) i x
        (w.connected i) v a
        (record {
          valid =
              connect-IsValid w.htons (blank_socket w (suc i)) (w.connected i) port
                (blank_socket-IsValid (suc i));
          empty = connect_empty w.htons (blank_socket w (suc i)) (w.connected i) port;
          silent = refl;
        })

  pub connect_clients-Opened :
      (n i : ℕ) (d : Demo)
      → IsValid d.server
      → AllNew d.clients
      → (r : Bool × Demo) × (connect_clients w n i d ≡ done r) × Opened (all_connect w n i) r
  unfolding connect_clients
  connect_clients-Opened zero i d v a =
      ((true, d), refl, record { answer = refl; server = v; clients = a })
  connect_clients-Opened (suc n) i d v a =
      let (r, e, o) = connect_client-Opened d i v a in
      elim (Bool-cases (is_some (w.connected i))) [
        | inl good ↦
            let (r', f, o') = connect_clients-Opened n (suc i) r.1 o.server o.clients in
            (r', rw (e, o.answer, good) f, rw good o')
        | inr bad ↦ (
          r,
          rw (e, o.answer, bad),
          rw bad (record { answer = o.answer ∙ bad; server = o.server; clients = o.clients }),
        )
      ]
