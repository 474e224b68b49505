-- ===== src/SocketDemo/Main/Ends.antt =====
-- `main` of src/socket_demo.cpp ends, whatever the system answers.
use lowlatency_cpp.Base.{
  ℕ, zero, suc, ◌+◌, ◌*◌, ◌≡◌, refl, Bool, ◌&&◌, Option, none, some, List, [], ◌∷◌, done,
  if◌then◌else◌, Bool-cases, inl, inr,
}
use lowlatency_cpp.SocketHeap.{listener}
use lowlatency_cpp.TcpServer
use lowlatency_cpp.TcpServer.{TcpServer}
use lowlatency_cpp.TcpServer.Valid.{Live, IsValid}
use lowlatency_cpp.TcpServer.Destroy.{new-IsValid, destroy-IsValid}
use lowlatency_cpp.TcpServer.Rounds.{send_and_recv-IsValid}
use lowlatency_cpp.TcpServer.Listen.{listen-Listened, Listened-IsValid, Listened-answer, succeeds}
use lowlatency_cpp.Logger.Messages.{demo_creating_server}
use lowlatency_cpp.SocketDemo.{server_recv_callback, server_recv_finished_callback}
use lowlatency_cpp.SocketDemo.Reply.{server_recv_callback-Keeps}
use lowlatency_cpp.SocketDemo.Main.{
  World, Client, Demo, Ended, client_count, close_clients, finish, blank_socket, iterate, greet,
  connect_all, serve_clients, main, port, iface,
}
use lowlatency_cpp.SocketDemo.Main.Clients.{
  AllNew, AllSay, AllHaveSent, AllNew-AllHaveSent, AllSay-AllHaveSent, close_clients-AllHaveSent,
  say_hellos-AllSay, take_turns-AllSay,
}
use lowlatency_cpp.SocketDemo.Main.Connected.{
  IsTrusted, all_connect, blank_socket-IsValid, poll_at-IsValid, connect_clients-Opened,
}

-- The server listens and every client gets a socket.
abbrev pub is_served : World → Bool
is_served w = succeeds w.epfd w.created w.is_added && all_connect w client_count 0

-- What `main` leaves behind.
pub record EndsWith (code : ℕ) (r : Ended) : Type 0 where
  pub exits : r.code ≡ code
  pub only_listener : (q : ℕ) → Live r.server.heap q → q ≡ listener
  pub epoll_closed : r.server.efd ≡ none
  pub have_sent : AllHaveSent 0 r.clients

-- `none` stands for the death of the program by an exception that nothing catches.
abbrev pub exit_code : World → Option ℕ
exit_code w = if w.log_is_open && w.thread_starts then some (if is_served w then 0 else 1) else none

abbrev pub EndsAs : Option ℕ → Option Ended → Type 0
EndsAs none r = r ≡ none
EndsAs (some code) none = ⊥
EndsAs (some code) (some r) = EndsWith code r

finish-EndsWith :
    (code : ℕ) (d : Demo)
    → IsValid d.server
    → AllHaveSent 0 d.clients
    → (r : Ended) × (finish code d ≡ done r) × EndsWith code r
unfolding finish
finish-EndsWith code d v sent =
    let (s, e, valid, only, shut) = destroy-IsValid d.server v in
    (
      record {
        code = code;
        server = s;
        clients = (close_clients d.clients).0;
        closed = (close_clients d.clients).1;
        logged = d.logged;
      },
      rw e,
      record {
        exits = refl;
        only_listener = only;
        epoll_closed = shut;
        have_sent = close_clients-AllHaveSent 0 d.clients sent;
      },
    )

module _ (w : World) (trusted : IsTrusted w) where
  iterate-IsValid :
      (n t : ℕ) (s : TcpServer) (cs : List Client)
      → IsValid s
      → AllSay 0 cs
      → (x : TcpServer × List Client) × (iterate w n t s cs ≡ done x) × IsValid x.0 × AllSay 0 x.1
  unfolding iterate
  iterate-IsValid zero t s cs v a = ((s, cs), refl, v, a)
  iterate-IsValid (suc n) t s cs v a =
      let (m, e, x) = poll_at-IsValid w trusted (5 * client_count + t) s v in
      let (r, f, y) =
        send_and_recv-IsValid (w.server_kernel t) (λ p. server_recv_callback)
          (trusted.honest_server t) (λ p. server_recv_callback-Keeps) server_recv_finished_callback
          m x in
      let (cs', g, b) = take_turns-AllSay w trusted.honest_clients (suc t) 0 cs a in
      let (z, h, valid, say) = iterate-IsValid n (suc t) r.1 cs' y b in
      (z, rw (e, f, g, h), valid, say)

  greet-EndsWith :
      (d : Demo)
      → IsValid d.server
      → AllNew d.clients
      → (r : Ended) × (greet w d ≡ done r) × EndsWith 0 r
  greet-EndsWith d v a =
      let (u, e, good, say) = say_hellos-AllSay w trusted.honest_clients 0 d.clients d.logged a in
      let (x, f, valid, said) = iterate-IsValid 100 0 d.server u.1 v say in
      let (r, g, ends) =
        finish-EndsWith 0 (record { server = x.0; clients = x.1; logged = u.2 }) valid
          (AllSay-AllHaveSent 0 x.1 said) in
      (r, rw (e, good, f, g), ends)

  connect_all-EndsWith :
      (d : Demo)
      → IsValid d.server
      → AllNew d.clients
      → (r : Ended) × (connect_all w d ≡ done r)
        × EndsWith (if all_connect w client_count 0 then 0 else 1) r
  connect_all-EndsWith d v a =
      let (m, e, o) = connect_clients-Opened w trusted client_count 0 d v a in
      elim (Bool-cases (all_connect w client_count 0)) [
        | inl good ↦
            let (r, f, ends) = greet-EndsWith m.1 o.server o.clients in
            (r, rw (e, o.answer, good) f, rw good ends)
        | inr bad ↦
            let (r, f, ends) =
              finish-EndsWith 1 m.1 o.server (AllNew-AllHaveSent 0 m.1.clients o.clients) in
            (r, rw (e, o.answer, bad) f, rw bad ends)
      ]

serve_clients-EndsWith :
    (w : World)
    → IsTrusted w
    → (r : Ended) × (serve_clients w ≡ done r) × EndsWith (if is_served w then 0 else 1) r
unfolding serve_clients
serve_clients-EndsWith w trusted =
    let (m, e, how) =
      listen-Listened w.htons (TcpServer.create (blank_socket w 0)) w.epfd w.created iface port
        w.is_added (new-IsValid (blank_socket w 0) (blank_socket-IsValid w trusted 0)) in
    let v = Listened-IsValid w.epfd w.created w.is_added m how in
    let answer = Listened-answer w.epfd w.created w.is_added m how in
    let d : Demo = record {
      server = m.1;
      clients = [];
      logged = demo_creating_server iface port ∷ [];
    } in
    elim (Bool-cases (succeeds w.epfd w.created w.is_added)) [
      | inl good ↦
          let (r, f, ends) = connect_all-EndsWith w trusted d v tt in
          (r, rw (e, answer, good) f, rw good ends)
      | inr bad ↦
          let (r, f, ends) = finish-EndsWith 1 d v tt in (r, rw (e, answer, bad) f, rw bad ends)
    ]

-- Whatever the system answers, main of the socket demonstration ends without a use of a deleted
-- socket. If the log file is not open or the thread of the logger does not start, it dies of the
-- exception that the constructor of the logger throws. Else its exit code is 0 exactly if the
-- server listens and all three clients get a socket, and otherwise 1; in both cases no accepted
-- socket is left, epoll is closed, and each client has sent a beginning of its message, in order.
-- new gives addresses that are not in use and buffers of their size, epoll reports at most 1024
-- events, of registered pointers only, the kernel never takes or gives more bytes than it was
-- offered room for, and its time stamps fit in 64 bits.
pub main_lem :
    (w : World) → IsTrusted w → (r : Option Ended) × (main w ≡ done r) × EndsAs (exit_code w) r
unfolding main
main_lem w trusted = elim (Bool-cases (w.log_is_open && w.thread_starts)) [
  | inl good ↦
      let (r, e, ends) = serve_clients-EndsWith w trusted in (some r, rw (good, e), rw good ends)
  | inr bad ↦ (none, rw bad, rw bad)
]
