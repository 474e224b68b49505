-- ===== src/TcpServer/Clients.antt =====
-- The lists of a `TCPServer` (src/tcp_server.cpp): the sockets that it owns are all read in every round.
use lowlatency_cpp.Base.{
  done_inj, fault≢done, ltb, length, ℕ, ◌≡◌, ◌∙◌, Bool, true, false, ◌&&◌, ◌||◌, subst, List, [],
  ◌∷◌, Option, some, none, done, >>=-eq-done, ◌==◌, Bool-cases, inl, inr, arith, ap,
}
use lowlatency_cpp.TcpSocket.{TcpSocket}
use lowlatency_cpp.SocketHeap.{nullptr, listener, Heap, has, remove, add_unique, delete_socket}
use lowlatency_cpp.TcpServer.{
  TcpServer, when, epoll_del, after_epoll_del, del, del_all, drop_disconnected, epoll_add,
}
use lowlatency_cpp.TcpServer.Polling.{
  EpollEvent, Accepted, on_event, on_events, on_wait, accept_pending, poll, poll_on,
  max_epoll_events, accepted_socket, after_add, accept_one, accept_all,
}
use lowlatency_cpp.TcpServer.Events.{on_event-same}
use lowlatency_cpp.TcpServer.Lists.{
  has-add_unique, has-add_unique_old, has-add_unique_self, has-remove, has-remove_ne,
}

-- Every socket that the server owns is in the receive list.
unfoldable pub Served : TcpServer → Type 0
Served s = (p : ℕ) → has s.sockets p ≡ true → has s.receive_sockets p ≡ true

-- The same, decided.
unfoldable pub all_in : List ℕ → List ℕ → Bool
all_in [] qs = true
all_in (p ∷ ps) qs = has qs p && all_in ps qs

Served-remove :
    (s t : TcpServer) (p : ℕ)
    → t.sockets ≡ remove s.sockets p
    → t.receive_sockets ≡ remove s.receive_sockets p
    → Served s
    → Served t
unfolding Served
Served-remove s t p owned read served q mine =
    let (other, before) = has-remove s.sockets p q (rw owned at mine) in
    rw read (has-remove_ne s.receive_sockets p q other (served q before))

epoll_del-lists :
    (s : TcpServer) (p : ℕ) {r : Bool × TcpServer}
    → epoll_del s p ≡ done r
    → (r.1.sockets ≡ s.sockets) × (r.1.receive_sockets ≡ s.receive_sockets)
unfolding epoll_del
epoll_del-lists s p e = ground (arith, e)

after_epoll_del-lists :
    (s : TcpServer) (p : ℕ) {t : TcpServer}
    → after_epoll_del s p ≡ done t
    → (t.sockets ≡ remove s.sockets p) × (t.receive_sockets ≡ remove s.receive_sockets p)
unfolding delete_socket
after_epoll_del-lists s p e = ground (arith, e)

del-Served : (s : TcpServer) (p : ℕ) {t : TcpServer} → del s p ≡ done t → Served s → Served t
unfolding del
del-Served s p e served = elim (Bool-cases (p == nullptr || p == listener)) [
  | inl skip ↦ let same : done s ≡ done _ = rw skip at e in subst Served (done_inj same) served
  | inr found ↦
      let (r, e₀, e₁) = >>=-eq-done (epoll_del s p) (λ r. after_epoll_del r.1 p) (rw found at e) in
      let (owned, read) = epoll_del-lists s p e₀ in
      let (owned', read') = after_epoll_del-lists r.1 p e₁ in
      Served-remove s _ p (owned' ∙ ap (λ ps. remove ps p) owned)
        (read' ∙ ap (λ ps. remove ps p) read) served
]

del_all-Served :
    (s : TcpServer) (ps : List ℕ) {t : TcpServer} → del_all s ps ≡ done t → Served s → Served t
unfolding del_all
del_all-Served s [] e served = subst Served (done_inj e) served
del_all-Served s (p ∷ ps) e served =
    let (m, e₀, e₁) = >>=-eq-done (del s p) (λ m. del_all m ps) e in
    del_all-Served m ps e₁ (del-Served s p e₀ served)

drop_disconnected-Served :
    (s : TcpServer) {t : TcpServer} → drop_disconnected s ≡ done t → Served s → Served t
unfolding drop_disconnected Served
drop_disconnected-Served s e served =
    del_all-Served (record s { disconnected_sockets = [] }) s.disconnected_sockets e served

has-when : (b : Bool) (ps : List ℕ) (p q : ℕ) → has ps q ≡ true → has (when b ps p) q ≡ true
has-when true ps p q h = has-add_unique_old ps p q h
has-when false ps p q h = h

on_event-read :
    (r : Bool × TcpServer) (e : EpollEvent) (q : ℕ)
    → has r.1.receive_sockets q ≡ true
    → has (on_event r e).1.receive_sockets q ≡ true
unfolding on_event
on_event-read (fresh, s) e q h = ground (arith, has-when e.readable s.receive_sockets e.ptr q h)

on_event-Served : (r : Bool × TcpServer) (e : EpollEvent) → Served r.1 → Served (on_event r e).1
unfolding Served
on_event-Served r e served q mine =
    on_event-read r e q (served q (rw (on_event-same r e).1 at mine))

on_events-Served :
    (r : Bool × TcpServer) (es : List EpollEvent) → Served r.1 → Served (on_events r es).1
unfolding on_events
on_events-Served r [] served = served
on_events-Served r (e ∷ es) served = on_events-Served (on_event r e) es (on_event-Served r e served)

-- The lists that matter are the same.
Served-same :
    (s t : TcpServer)
    → t.sockets ≡ s.sockets
    → t.receive_sockets ≡ s.receive_sockets
    → Served s
    → Served t
unfolding Served
Served-same s t owned read served q mine = rw read (served q (rw owned at mine))

pub epoll_add-Served :
    (s : TcpServer) (p : ℕ) (is_added : Bool) {r : Bool × TcpServer}
    → epoll_add s p is_added ≡ done r
    → Served s
    → Served r.1
unfolding epoll_add
epoll_add-Served s p is_added e served =
    Served-same s _ (ground (arith, e)) (ground (arith, e)) served

add_both-Served :
    (s : TcpServer) (p : ℕ)
    → Served s
    → Served (record s {
      sockets = add_unique s.sockets p;
      receive_sockets = add_unique s.receive_sockets p;
    })
unfolding Served
add_both-Served s p served q mine = elim (has-add_unique s.sockets p q mine) [
  | inl new ↦ rw new (has-add_unique_self s.receive_sockets p)
  | inr old ↦ has-add_unique_old s.receive_sockets p q (served q old)
]

module _ (new_at : Heap → ℕ) (fresh_socket : TcpSocket) where
  after_add-Served :
      (p : ℕ) (r : Bool × TcpServer) {t : TcpServer}
      → after_add new_at fresh_socket p r ≡ done t
      → Served r.1
      → Served t
  unfolding Served
  after_add-Served p (true, s) e served = subst Served (done_inj e) (add_both-Served s p served)
  after_add-Served p (false, s) e served =
      let (h, e₀, e₁) =
        >>=-eq-done (delete_socket s.heap p) (λ h. done (record s { heap = h })) e in
      subst Served (done_inj e₁) served

  accept_one-Served :
      (s : TcpServer) (a : Accepted) {t : TcpServer}
      → accept_one new_at fresh_socket s a ≡ done t
      → Served s
      → Served t
  unfolding accept_one Served
  accept_one-Served s a e served = elim (Bool-cases a.is_configured) [
    | inl configured ↦
        let p = new_at s.heap in
        let m = accepted_socket new_at fresh_socket s p a in
        let (r, e₀, e₁) =
          >>=-eq-done (epoll_add m p a.is_added) (after_add new_at fresh_socket p)
            (rw configured at e) in
        after_add-Served p r e₁ (epoll_add-Served m p a.is_added e₀ served)
    | inr skipped ↦
        let same : done s ≡ done _ = rw skipped at e in subst Served (done_inj same) served
  ]

  accept_all-Served :
      (s : TcpServer) (pending : List Accepted) {t : TcpServer}
      → accept_all new_at fresh_socket s pending ≡ done t
      → Served s
      → Served t
  unfolding accept_all
  accept_all-Served s [] e served = subst Served (done_inj e) served
  accept_all-Served s (a ∷ pending) e served =
      let (m, e₀, e₁) =
        >>=-eq-done (accept_one new_at fresh_socket s a)
          (λ m. accept_all new_at fresh_socket m pending) e in
      accept_all-Served m pending e₁ (accept_one-Served s a e₀ served)

  accept_pending-Served :
      (r : Bool × TcpServer) (pending : List Accepted) {t : TcpServer}
      → accept_pending new_at fresh_socket r pending ≡ done t
      → Served r.1
      → Served t
  accept_pending-Served (true, s) pending e served = accept_all-Served s pending e served
  accept_pending-Served (false, s) pending e served = subst Served (done_inj e) served

  on_wait-Served :
      (s : TcpServer) (events : Option (List EpollEvent)) (pending : List Accepted) {t : TcpServer}
      → on_wait new_at fresh_socket s events pending ≡ done t
      → Served s
      → Served t
  on_wait-Served s none pending e served = subst Served (done_inj e) served
  on_wait-Served s (some es) pending e served =
      elim (Bool-cases (ltb max_epoll_events (length es))) [
        | inl over ↦ absurd (fault≢done (rw over at e))
        | inr fits ↦
            accept_pending-Served (on_events (false, s) es) pending (rw fits at e)
              (on_events-Served (false, s) es served)
      ]

  poll_on-Served :
      (epoll_wait : List ℕ → Option (List EpollEvent)) (s : TcpServer) (efd : Option ℕ)
      (pending : List Accepted) {t : TcpServer}
      → poll_on new_at fresh_socket epoll_wait s efd pending ≡ done t
      → Served s
      → Served t
  unfolding poll_on
  poll_on-Served epoll_wait s none pending e served = subst Served (done_inj e) served
  poll_on-Served epoll_wait s (some efd) pending e served =
      let (m, e₀, e₁) =
        >>=-eq-done (drop_disconnected s)
          (λ m. on_wait new_at fresh_socket m (epoll_wait m.watched) pending) e in
      on_wait-Served m (epoll_wait m.watched) pending e₁ (drop_disconnected-Served s e₀ served)

  pub poll-Served :
      (epoll_wait : List ℕ → Option (List EpollEvent)) (s : TcpServer) (pending : List Accepted)
      {t : TcpServer}
      → poll new_at fresh_socket epoll_wait s pending ≡ done t
      → Served s
      → Served t
  unfolding poll
  poll-Served epoll_wait s pending e served = poll_on-Served epoll_wait s s.efd pending e served
