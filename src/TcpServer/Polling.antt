-- ===== src/TcpServer/Polling.antt =====
-- `poll` of src/tcp_server.cpp: the events and the accept loop.
use lowlatency_cpp.Base.{
  ℕ, Bool, true, false, not, ◌&&◌, Option, none, some, List, [], ◌∷◌, ◌==◌, if◌then◌else◌, ltb,
  length, fault, Outcome, done, ◌>>=◌,
}
use lowlatency_cpp.TcpSocket.{TcpSocket}
use lowlatency_cpp.SocketHeap.{nullptr, listener, Heap, erase, store, add_unique, delete_socket}
use lowlatency_cpp.TcpServer.{TcpServer, when, drop_disconnected, epoll_add}

-- The size of the array `events_`, and the bound that `epoll_wait` is given.
abbrev pub max_epoll_events : ℕ
max_epoll_events = 1024

-- An `epoll_event`: its pointer and the flags that are tested.
pub record EpollEvent : Type 0 where
  pub ptr : ℕ
  pub err_or_hup : Bool
  pub readable : Bool
  pub writable : Bool

-- A connection that `accept` returns: whether it can be configured, and whether epoll takes it.
pub record Accepted : Type 0 where
  pub client_fd : ℕ
  pub is_configured : Bool
  pub is_added : Bool

-- One round of the loop over the events, with `have_new_connection`.
unfoldable pub on_event : Bool × TcpServer → EpollEvent → Bool × TcpServer
unfolding add_unique
on_event (fresh, s) e =
    if e.ptr == nullptr
    then (fresh, s)
    else (if e.err_or_hup
        then (
          fresh,
          record s {
            disconnected_sockets = when (not (e.ptr == listener)) s.disconnected_sockets e.ptr;
          },
        )
        else (if e.readable && e.ptr == listener then (true, s) else (
          fresh,
          record s {
            receive_sockets = when e.readable s.receive_sockets e.ptr;
            send_sockets = when e.writable s.send_sockets e.ptr;
          },
        )))

unfoldable pub on_events : Bool × TcpServer → List EpollEvent → Bool × TcpServer
unfolding on_event
on_events r [] = r
on_events r (e ∷ es) = on_events (on_event r e) es

module _ (new_at : Heap → ℕ) (fresh_socket : TcpSocket) where
  -- `new TCPSocket`, with the accepted descriptor.
  abbrev pub accepted_socket : TcpServer → ℕ → Accepted → TcpServer
  accepted_socket s p a = record s {
    heap = store s.heap p (record fresh_socket { fd = some a.client_fd });
  }

  -- After `epollAdd`: the pointer goes into two lists, or the socket is deleted.
  abbrev pub after_add : ℕ → Bool × TcpServer → Outcome TcpServer
  after_add p (true, s) = done (record s {
    sockets = add_unique s.sockets p;
    receive_sockets = add_unique s.receive_sockets p;
  })
  after_add p (false, s) = delete_socket s.heap p >>= λ h. done (record s { heap = h })

  -- One round of the accept loop. A descriptor that cannot be configured is closed.
  unfoldable pub accept_one : TcpServer → Accepted → Outcome TcpServer
  unfolding add_unique erase delete_socket epoll_add
  accept_one s a =
      if a.is_configured
      then epoll_add (accepted_socket s (new_at s.heap) a) (new_at s.heap) a.is_added
        >>= after_add (new_at s.heap)
      else done s

  -- The loop, over the connections that `accept` returns before it fails.
  unfoldable pub accept_all : TcpServer → List Accepted → Outcome TcpServer
  unfolding accept_one
  accept_all s [] = done s
  accept_all s (a ∷ later) = accept_one s a >>= λ t. accept_all t later

  abbrev pub accept_pending : Bool × TcpServer → List Accepted → Outcome TcpServer
  accept_pending (true, s) pending = accept_all s pending
  accept_pending (false, s) pending = done s

  -- The loop over the events reads the array `events_`, out of range if there are more than fit.
  abbrev pub on_wait : TcpServer → Option (List EpollEvent) → List Accepted → Outcome TcpServer
  on_wait s none pending = done s
  on_wait s (some es) pending =
      if ltb max_epoll_events (length es)
      then fault
      else accept_pending (on_events (false, s) es) pending

  unfoldable pub poll_on :
      (List ℕ → Option (List EpollEvent)) → TcpServer → Option ℕ → List Accepted → Outcome TcpServer
  unfolding drop_disconnected on_events accept_all
  poll_on epoll_wait s none pending = done s
  poll_on epoll_wait s (some efd) pending =
      drop_disconnected s >>= λ s'. on_wait s' (epoll_wait s'.watched) pending

  -- `poll`; `epoll_wait` gives the events for the registered pointers, `none` if it fails.
  unfoldable pub poll :
      (List ℕ → Option (List EpollEvent)) → TcpServer → List Accepted → Outcome TcpServer
  unfolding poll_on
  poll epoll_wait s pending = poll_on epoll_wait s s.efd pending
