-- ===== src/TcpServer/Poll.antt =====
-- `poll` as a whole, in src/tcp_server.cpp.
use lowlatency_cpp.Base.{
  arith, ltb, length, ◌≤◌, ℕ, ◌≡◌, ◌⊎◌, inl, inr, refl, ap, subst, Bool, true, false, List, Option,
  some, none, done,
}
use lowlatency_cpp.TcpSocket.{TcpSocket}
use lowlatency_cpp.TcpSocket.Buffer as Buffer
use lowlatency_cpp.TcpServer.{TcpServer}
use lowlatency_cpp.TcpServer.Polling.{
  EpollEvent, Accepted, max_epoll_events, on_events, on_wait, accept_pending, poll, poll_on,
}
use lowlatency_cpp.SocketHeap.{Heap, lookup, has}
use lowlatency_cpp.TcpServer.Valid.{IsValid}
use lowlatency_cpp.TcpServer.Accept.{accept_all-Grows, Grows}
use lowlatency_cpp.TcpServer.Delete.{drop_disconnected-Deletes, kept}
use lowlatency_cpp.TcpServer.Events.{Reported, IsEpoll, Watches, on_events-Watches, on_events-same}

-- What `poll` has done at an address, where `before` says what it holds after the deletions: the
-- socket is as it was, or the address was free and a socket was accepted there.
abbrev pub PolledAt : Option TcpSocket → TcpServer → ℕ → Type 0
PolledAt before t q = (lookup t.heap q ≡ before) ⊎ ((before ≡ none) × (has t.sockets q ≡ true))

-- What an address holds after the deletions that an open server starts with.
abbrev pub after_deletions : Option ℕ → TcpServer → ℕ → Option TcpSocket
after_deletions none s q = lookup s.heap q
after_deletions (some efd) s q = kept s.disconnected_sockets s q

module _ (new_at : Heap → ℕ) (fresh_socket : TcpSocket)
    (is_fresh : (h : Heap) → lookup h (new_at h) ≡ none)
    (well_made : Buffer.IsValid fresh_socket) where
  PolledAt-Grows :
      (s t : TcpServer) (q : ℕ)
      → Grows new_at fresh_socket is_fresh well_made s t q
      → PolledAt (lookup s.heap q) t q
  PolledAt-Grows s t q (inl (same, _)) = inl same
  PolledAt-Grows s t q (inr new) = inr new

  accept_pending-PolledAt :
      (r : Bool × TcpServer) (pending : List Accepted)
      → IsValid r.1
      → (t : TcpServer) × (accept_pending new_at fresh_socket r pending ≡ done t)
        × IsValid t
        × ((q : ℕ) → PolledAt (lookup r.1.heap q) t q)
  accept_pending-PolledAt (true, t) pending v =
      let (u, e, w, g) = accept_all-Grows new_at fresh_socket is_fresh well_made t pending v in
      (u, e, w, λ q. PolledAt-Grows t u q (g q))
  accept_pending-PolledAt (false, t) pending v = (t, refl, v, λ q. inl refl)

  pub on_wait-PolledAt :
      (s : TcpServer) (events : Option (List EpollEvent)) (pending : List Accepted)
      → IsValid s
      → ((es : List EpollEvent)
          → events ≡ some es
          → (length es ≤ max_epoll_events) × Reported s.watched es)
      → (t : TcpServer) × (on_wait new_at fresh_socket s events pending ≡ done t)
        × IsValid t
        × ((q : ℕ) → PolledAt (lookup s.heap q) t q)
  unfolding Watches
  on_wait-PolledAt s none pending v known = (s, refl, v, λ q. inl refl)
  on_wait-PolledAt s (some es) pending v known =
      let w = on_events-Watches s.watched (false, s) es (known es refl).1 (v, refl) in
      let same = (on_events-same (false, s) es).0 in
      let (t, e, x, g) = accept_pending-PolledAt (on_events (false, s) es) pending w.0 in
      let in_range : ltb max_epoll_events (length es) ≡ false = ground (arith, (known es refl).0) in
      (t, rw in_range e, x, λ q. subst (λ o. PolledAt o t q) (ap (λ h. lookup h q) same) (g q))

  poll_on-PolledAt :
      (epoll_wait : List ℕ → Option (List EpollEvent)) (s : TcpServer) (efd : Option ℕ)
      (pending : List Accepted)
      → IsEpoll epoll_wait
      → IsValid s
      → (t : TcpServer) × (poll_on new_at fresh_socket epoll_wait s efd pending ≡ done t)
        × IsValid t
        × ((q : ℕ) → PolledAt (after_deletions efd s q) t q)
  unfolding poll_on
  poll_on-PolledAt epoll_wait s none pending honest v = (s, refl, v, λ q. inl refl)
  poll_on-PolledAt epoll_wait s (some efd) pending honest v =
      let (m, e, x) = drop_disconnected-Deletes s v in
      let (t, f, y, g) =
        on_wait-PolledAt m (epoll_wait m.watched) pending x.valid (honest m.watched) in
      (t, rw (e, f), y, λ q. subst (λ o. PolledAt o t q) (x.heap q) (g q))

  -- `poll` of a valid server returns without a use or a deletion of a dead socket, and the server is
  -- valid again, whatever the events and the connections are. If epoll is open, each socket marked as
  -- disconnected, but the listener, is deleted first; every other socket stays as it was; a socket is
  -- accepted only at an address that is free then, and the server owns it. epoll reports at
  -- most 1024 events, of registered pointers only, `new` gives addresses that are not in use, and a
  -- new socket is well formed.
  pub poll-PolledAt :
      (epoll_wait : List ℕ → Option (List EpollEvent)) (s : TcpServer) (pending : List Accepted)
      → IsEpoll epoll_wait
      → IsValid s
      → (t : TcpServer) × (poll new_at fresh_socket epoll_wait s pending ≡ done t)
        × IsValid t
        × ((q : ℕ) → PolledAt (after_deletions s.efd s q) t q)
  unfolding poll
  poll-PolledAt epoll_wait s pending honest v = poll_on-PolledAt epoll_wait s s.efd pending honest v

  pub poll-IsValid :
      (epoll_wait : List ℕ → Option (List EpollEvent)) (s : TcpServer) (pending : List Accepted)
      → IsEpoll epoll_wait
      → IsValid s
      → (t : TcpServer) × (poll new_at fresh_socket epoll_wait s pending ≡ done t) × IsValid t
  poll-IsValid epoll_wait s pending honest v =
      let (t, e, w, _) = poll-PolledAt epoll_wait s pending honest v in (t, e, w)
