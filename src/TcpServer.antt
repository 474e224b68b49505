-- ===== src/TcpServer.antt =====
-- include/tcp_server.hpp and src/tcp_server.cpp: an epoll server that owns a listener and the
-- sockets that it has accepted. A pointer is an address in a heap of sockets; the listener, a member
-- of the server, stands at an address of its own. A use or a deletion of a dead pointer is `fault`.
pub mod Lists
pub mod Valid
pub mod Delete
pub mod Destroy
pub mod Polling
pub mod Accept
pub mod Events
pub mod Poll
pub mod Serve
pub mod Effect
pub mod Rounds
pub mod Listen
pub mod Marked
pub mod Broken
pub mod Lifetime
pub mod Clients
pub mod Attended
pub mod Samples
mod Tests
use lowlatency_cpp.Base.{
  ℕ, Bool, true, false, not, ◌||◌, ◌&&◌, Option, none, some, List, [], ◌∷◌, ◌++◌, ◌==◌, Text,
  if◌then◌else◌, Outcome, done, fault, ◌>>=◌,
}
use lowlatency_cpp.TcpSocket
use lowlatency_cpp.TcpSocket.{TcpSocket, Callback, Kernel, Exchange, server_recv}
use lowlatency_cpp.Logger.Messages.{
  Message, round_finished, epoll_create_failed, listener_failed, listener_not_added,
}
use lowlatency_cpp.SocketHeap.{
  nullptr, listener, Heap, lookup, erase, store, has, add_unique, remove, not_in, delete_socket,
  delete_all,
}

-- `watched` are the pointers registered with epoll. A deletion closes the descriptor, which takes it
-- out of that set.
pub record TcpServer : Type 0 where
  pub efd : Option ℕ
  pub heap : Heap
  pub sockets : List ℕ
  pub receive_sockets : List ℕ
  pub send_sockets : List ℕ
  pub disconnected_sockets : List ℕ
  pub watched : List ℕ
  pub logged : List Message

-- The constructor; `s` is the new listener socket.
pub create : TcpSocket → TcpServer
create s = record {
  efd = none;
  heap = (listener, s) ∷ [];
  sockets = [];
  receive_sockets = [];
  send_sockets = [];
  disconnected_sockets = [];
  watched = [];
  logged = [];
}

abbrev close_all : TcpServer → Heap → Option TcpSocket → Outcome TcpServer
close_all s h none = fault
close_all s h (some x) = done (record {
  efd = none;
  heap = store h listener (TcpSocket.destroy x).0;
  sockets = [];
  receive_sockets = [];
  send_sockets = [];
  disconnected_sockets = [];
  watched = [];
  logged = s.logged;
})

-- `destroy`
pub destroy : TcpServer → Outcome TcpServer
unfolding delete_all lookup TcpSocket.destroy
destroy s = delete_all s.heap s.sockets >>= λ h. close_all s h (lookup h listener)

-- The server with an epoll descriptor and a connected listener.
abbrev pub opened : TcpServer → ℕ → TcpSocket → TcpServer
opened s e y = record s { efd = some e; heap = store s.heap listener y }

-- `epollAdd`; `is_added` is whether `epoll_ctl` succeeds.
epoll_add_on : TcpServer → Option ℕ → ℕ → Option TcpSocket → Bool → Outcome (Bool × TcpServer)
epoll_add_on s none p x is_added = done (false, s)
epoll_add_on s (some efd) p none is_added = fault
epoll_add_on s (some efd) p (some x) is_added = elim (x.fd) [
  | none ↦ done (false, s)
  | some fd ↦
      if is_added
      then done (true, record s { watched = add_unique s.watched p })
      else done (false, s)
]

pub epoll_add : TcpServer → ℕ → Bool → Outcome (Bool × TcpServer)
unfolding epoll_add_on lookup add_unique
epoll_add s p is_added =
    if p == nullptr then done (false, s) else epoll_add_on s s.efd p (lookup s.heap p) is_added

-- `epollDel`; `epoll_ctl` succeeds for a registered pointer.
epoll_del_on : TcpServer → Option ℕ → ℕ → Option TcpSocket → Outcome (Bool × TcpServer)
unfolding has remove
epoll_del_on s none p x = done (false, s)
epoll_del_on s (some efd) p none = fault
epoll_del_on s (some efd) p (some x) = elim (x.fd) [
  | none ↦ done (false, s)
  | some fd ↦ done (has s.watched p, record s { watched = remove s.watched p })
]

pub epoll_del : TcpServer → ℕ → Outcome (Bool × TcpServer)
unfolding epoll_del_on lookup
epoll_del s p = if p == nullptr then done (false, s) else epoll_del_on s s.efd p (lookup s.heap p)

-- `del` after `epollDel`.
abbrev after_epoll_del : TcpServer → ℕ → Outcome TcpServer
after_epoll_del s p = delete_socket s.heap p >>= λ h. done (record s {
  heap = h;
  sockets = remove s.sockets p;
  receive_sockets = remove s.receive_sockets p;
  send_sockets = remove s.send_sockets p;
  disconnected_sockets = remove s.disconnected_sockets p;
  watched = remove s.watched p;
})

-- `del`
pub del : TcpServer → ℕ → Outcome TcpServer
unfolding epoll_del delete_socket remove
del s p =
    if p == nullptr || p == listener then done s else (epoll_del s p >>= λ r. after_epoll_del r.1 p)

pub del_all : TcpServer → List ℕ → Outcome TcpServer
unfolding del
del_all s [] = done s
del_all s (p ∷ ps) = del s p >>= λ s'. del_all s' ps

-- The first part of `poll`.
pub drop_disconnected : TcpServer → Outcome TcpServer
unfolding del_all
drop_disconnected s = del_all (record s { disconnected_sockets = [] }) s.disconnected_sockets

abbrev when : Bool → List ℕ → ℕ → List ℕ
when true ps p = add_unique ps p
when false ps p = ps

abbrev pub log_message : TcpServer → Message → TcpServer
log_message s m = record s { logged = m ∷ s.logged }

-- The server after the listener's `connect`; `y` is the listener then, and `created` its descriptor.
abbrev register :
    TcpServer → ℕ → TcpSocket × Option ℕ → Text → ℕ → Bool → Outcome (Bool × TcpServer)
register s e (y, none) iface port is_added =
    destroy (log_message (opened s e y) (listener_failed iface port)) >>= λ t. done (false, t)
register s e (y, some fd) iface port is_added = epoll_add (opened s e y) listener is_added >>= λ r.
    if r.0
    then done (true, r.1)
    else (destroy (log_message r.1 listener_not_added) >>= λ t. done (false, t))

listen_on :
    TcpServer
    → Option ℕ
    → Option TcpSocket
    → (TcpSocket → TcpSocket × Option ℕ)
    → Text
    → ℕ
    → Bool
    → Outcome (Bool × TcpServer)
unfolding destroy epoll_add
listen_on s none x connect iface port is_added =
    done (false, log_message (record s { efd = none }) epoll_create_failed)
listen_on s (some e) none connect iface port is_added = fault
listen_on s (some e) (some x) connect iface port is_added =
    register s e (connect x) iface port is_added

-- `listen`: `epfd` is what `epoll_create1` returns, `created` what `createSocket` returns for the
-- listener, and `is_added` whether `epoll_ctl` succeeds.
pub listen :
    (htons : ℕ → ℕ) → TcpServer → Option ℕ → Option ℕ → Text → ℕ → Bool → Outcome (Bool × TcpServer)
unfolding listen_on destroy lookup TcpSocket.connect
listen htons s epfd created iface port is_added = destroy s >>= λ s'.
    listen_on s' epfd (lookup s'.heap listener) (λ x. TcpSocket.connect htons x created port) iface
      port is_added

-- The callbacks that the constructor sets.
pub default_recv_callback : Callback
default_recv_callback x rx_time = record x {
  logged = server_recv x.fd x.next_rcv_valid_index rx_time ∷ x.logged;
}

pub default_finished_callback : List Message → List Message
default_finished_callback messages = round_finished ∷ messages

abbrev is_broken : TcpSocket → Bool
is_broken x = x.recv_disconnected || x.send_disconnected

module _ (kernel : ℕ → TcpSocket → Kernel) (callback : ℕ → Callback) where
  abbrev after_exchange : Bool × TcpServer → ℕ → Exchange → Bool × TcpServer
  after_exchange (received_anything, s) p x = (
    x.result || received_anything,
    record s {
      heap = store s.heap p x.socket;
      disconnected_sockets = when (is_broken x.socket) s.disconnected_sockets p;
    },
  )

  abbrev answered : Bool × TcpServer → ℕ → Option Exchange → Outcome (Bool × TcpServer)
  answered r p none = fault
  answered r p (some y) = done (after_exchange r p y)

  abbrev exchange_on : Bool × TcpServer → ℕ → Option TcpSocket → Outcome (Bool × TcpServer)
  exchange_on r p none = fault
  exchange_on r p (some x) = answered r p (TcpSocket.send_and_recv (kernel p x) (callback p) x)

  -- One round of the loops: the socket's `sendAndRecv`, and what follows from its flags.
  pub serve : Bool × TcpServer → ℕ → Outcome (Bool × TcpServer)
  unfolding lookup erase add_unique TcpSocket.send_and_recv
  serve r p = if p == nullptr then done r else exchange_on r p (lookup r.1.heap p)

  pub serve_all : Bool × TcpServer → List ℕ → Outcome (Bool × TcpServer)
  unfolding serve
  serve_all r [] = done r
  serve_all r (p ∷ ps) = serve r p >>= λ r'. serve_all r' ps

  -- The end of the receive round, where `recv_finished_callback_` may log.
  abbrev round_over : (List Message → List Message) → Bool × TcpServer → Bool × TcpServer
  round_over finished r =
      (r.0, record r.1 { logged = if r.0 then finished r.1.logged else r.1.logged })

  send_and_recv_on :
      (List Message → List Message) → TcpServer → Option ℕ → Outcome (Bool × TcpServer)
  unfolding serve_all not_in
  send_and_recv_on finished s none = done (false, s)
  send_and_recv_on finished s (some efd) = serve_all (false, s) s.receive_sockets >>= λ r.
      serve_all (round_over finished r) (not_in s.receive_sockets s.send_sockets) >>= λ t.
      done (r.0, t.1)

  -- `sendAndRecv`, which returns nothing: the Boolean is its local `received_anything`, which the
  -- proofs read. `finished` is what `recv_finished_callback_` makes of the log.
  pub send_and_recv : (List Message → List Message) → TcpServer → Outcome (Bool × TcpServer)
  unfolding send_and_recv_on
  send_and_recv finished s = send_and_recv_on finished s s.efd
