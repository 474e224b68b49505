-- ===== src/SocketDemo/Main.antt =====
-- `main` of src/socket_demo.cpp: a server and three clients that take turns in one thread. What the
-- system answers is a `World`: to the t-th `poll`, in the t-th turn of a client and of the server.
-- A client's history is the bytes that it has sent. A call of the logger is a message; its thread
-- and its destructor are in Logger/Threads. What is printed is left out.
pub mod Clients
pub mod Connected
pub mod Ends
mod Tests
use lowlatency_cpp.Base.{
  ℕ, zero, suc, ◌+◌, ◌*◌, Bool, true, false, ◌&&◌, Option, none, some, List, [], ◌∷◌, ◌++◌, length,
  Text, if◌then◌else◌, Outcome, done, fault, ◌>>=◌,
}
use lowlatency_cpp.TcpSocket
use lowlatency_cpp.TcpSocket.{TcpSocket, Kernel, Exchange}
use lowlatency_cpp.SocketHeap.{Heap}
use lowlatency_cpp.TcpServer
use lowlatency_cpp.TcpServer.{TcpServer}
use lowlatency_cpp.TcpServer.Polling.{EpollEvent, Accepted, poll}
use lowlatency_cpp.Logger.Messages.{
  Message, codes, demo_creating_server, demo_connecting, demo_sending,
}
use lowlatency_cpp.SocketDemo.{
  server_recv_callback, server_recv_finished_callback, client_recv_callback,
}

abbrev pub client_count : ℕ
client_count = 3

abbrev pub port : ℕ
port = 12345

ip : Text
unfolding codes
ip = codes "127.0.0.1"

iface : Text
unfolding codes
iface = codes "lo"

-- What the demonstration meets: whether the constructor of the logger opens its file and starts its
-- thread, and what the system answers later. `memory` is what the buffers of a new socket hold:
-- those of the server's sockets at 0, and those of client i at i + 1.
pub record World : Type 0 where
  pub log_is_open : Bool
  pub thread_starts : Bool
  pub htons : ℕ → ℕ
  pub new_at : Heap → ℕ
  pub memory : ℕ → List ℕ
  pub epfd : Option ℕ
  pub created : Option ℕ
  pub is_added : Bool
  pub connected : ℕ → Option ℕ
  pub epoll_wait : ℕ → List ℕ → Option (List EpollEvent)
  pub pending : ℕ → List Accepted
  pub server_kernel : ℕ → ℕ → TcpSocket → Kernel
  pub client_kernel : ℕ → ℕ → Kernel

pub record Client : Type 0 where
  pub socket : TcpSocket
  pub wire : Text

pub record Demo : Type 0 where
  pub server : TcpServer
  pub clients : List Client
  pub logged : List Message

-- After the destructors, with the exit code and the descriptors that the clients have closed.
pub record Ended : Type 0 where
  pub code : ℕ
  pub server : TcpServer
  pub clients : List Client
  pub closed : List (Option ℕ)
  pub logged : List Message

-- The number is below 10, so `std::to_string` gives one digit.
pub client_message : ℕ → Text
unfolding codes
client_message i = codes "CLIENT-[" ++ ((b'0' + i) ∷ codes "] says hello")

pub close_clients : List Client → List Client × List (Option ℕ)
unfolding TcpSocket.destroy
close_clients [] = ([], [])
close_clients (c ∷ cs) =
    let rest = close_clients cs in
    let (s, fd) = TcpSocket.destroy c.socket in (record c { socket = s } ∷ rest.0, fd ∷ rest.1)

-- The end of `main`: the clients go first, then the server.
pub finish : ℕ → Demo → Outcome Ended
unfolding close_clients
finish code d =
    let clients = close_clients d.clients in
    TcpServer.destroy d.server >>= λ s.
    done (record {
      code = code;
      server = s;
      clients = clients.0;
      closed = clients.1;
      logged = d.logged;
    })

module _ (w : World) where
  abbrev pub blank_socket : ℕ → TcpSocket
  blank_socket i = TcpSocket.create (w.memory i) (w.memory i)

  abbrev pub poll_at : ℕ → TcpServer → Outcome TcpServer
  poll_at t s = poll w.new_at (blank_socket 0) (w.epoll_wait t) s (w.pending t)

  pub polls : ℕ → ℕ → TcpServer → Outcome TcpServer
  polls zero t s = done s
  polls (suc n) t s = poll_at t s >>= λ s'. polls n (suc t) s'

  -- After `connect`: the client is kept, and the server gets five chances to accept it.
  abbrev pub on_connected : Demo → ℕ → TcpSocket × Option ℕ → Outcome (Bool × Demo)
  on_connected d i (x, none) = done (false, d)
  on_connected d i (x, some fd) = polls 5 (5 * i) d.server >>= λ s.
      done (
        true,
        record d { server = s; clients = d.clients ++ record { socket = x; wire = [] } ∷ [] },
      )

  pub connect_client : Demo → ℕ → Outcome (Bool × Demo)
  unfolding polls ip iface TcpSocket.connect
  connect_client d i =
      on_connected (record d { logged = demo_connecting i ip iface port ∷ d.logged }) i
        (TcpSocket.connect w.htons (blank_socket (suc i)) (w.connected i) port)

  pub connect_clients : ℕ → ℕ → Demo → Outcome (Bool × Demo)
  unfolding connect_client
  connect_clients zero i d = done (true, d)
  connect_clients (suc n) i d =
      connect_client d i >>= λ r. if r.0 then connect_clients n (suc i) r.1 else done r

  abbrev pub turned : Client → Option Exchange → Outcome Client
  turned c none = fault
  turned c (some x) = done (record { socket = x.socket; wire = c.wire ++ x.wire })

  -- `sendAndRecv` of client i.
  pub take_turn : ℕ → ℕ → Client → Outcome Client
  unfolding TcpSocket.send_and_recv
  take_turn t i c =
      turned c (TcpSocket.send_and_recv (w.client_kernel t i) client_recv_callback c.socket)

  abbrev pub after_hello : ℕ → Client → Bool × TcpSocket → Outcome (Bool × Client)
  after_hello i c (false, s) = done (false, record c { socket = s })
  after_hello i c (true, s) = take_turn 0 i (record c { socket = s }) >>= λ c'. done (true, c')

  pub say_hello : ℕ → Client → Outcome (Bool × Client)
  unfolding take_turn client_message TcpSocket.send
  say_hello i c =
      after_hello i c
        (TcpSocket.send c.socket (some (client_message i)) (length (client_message i)))

  -- The loop that sends, with the log.
  pub say_hellos : ℕ → List Client → List Message → Outcome (Bool × List Client × List Message)
  unfolding say_hello
  say_hellos i [] messages = done (true, [], messages)
  say_hellos i (c ∷ cs) messages =
      let logged = demo_sending i (client_message i) ∷ messages in
      say_hello i c >>= λ r.
      if r.0
      then (say_hellos (suc i) cs logged >>= λ u. done (u.0, r.1 ∷ u.1, u.2))
      else done (false, r.1 ∷ cs, logged)

  pub take_turns : ℕ → ℕ → List Client → Outcome (List Client)
  unfolding take_turn
  take_turns t i [] = done []
  take_turns t i (c ∷ cs) =
      take_turn t i c >>= λ c'. take_turns t (suc i) cs >>= λ cs'. done (c' ∷ cs')

  -- The event loop.
  pub iterate : ℕ → ℕ → TcpServer → List Client → Outcome (TcpServer × List Client)
  unfolding take_turns
  iterate zero t s cs = done (s, cs)
  iterate (suc n) t s cs = poll_at (5 * client_count + t) s >>= λ a.
      TcpServer.send_and_recv (w.server_kernel t) (λ p. server_recv_callback)
        server_recv_finished_callback a
      >>= λ r. take_turns (suc t) 0 cs >>= λ cs'. iterate n (suc t) r.1 cs'

  abbrev pub loop : Demo → Outcome Ended
  loop d =
      iterate 100 0 d.server d.clients >>= λ x. finish 0 (record d { server = x.0; clients = x.1 })

  abbrev pub greet : Demo → Outcome Ended
  greet d = say_hellos 0 d.clients d.logged >>= λ u.
      let d' = record d { clients = u.1; logged = u.2 } in if u.0 then loop d' else finish 1 d'

  abbrev pub connect_all : Demo → Outcome Ended
  connect_all d = connect_clients client_count 0 d >>= λ r. if r.0 then greet r.1 else finish 1 r.1

  -- `main` from the creation of the server on.
  pub serve_clients : Outcome Ended
  unfolding iface connect_clients say_hellos iterate finish
  serve_clients =
      TcpServer.listen w.htons (TcpServer.create (blank_socket 0)) w.epfd w.created iface port
        w.is_added
      >>= λ r.
          let d : Demo = record {
            server = r.1;
            clients = [];
            logged = demo_creating_server iface port ∷ [];
          } in
          if r.0 then connect_all d else finish 1 d

  -- The logger comes first. Its constructor throws if the log file is not open or the background
  -- thread does not start; nothing catches the exception, so the program dies: `none`.
  pub main : Outcome (Option Ended)
  unfolding serve_clients
  main =
      if w.log_is_open && w.thread_starts then (serve_clients >>= λ r. done (some r)) else done none
