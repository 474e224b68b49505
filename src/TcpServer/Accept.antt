-- ===== src/TcpServer/Accept.antt =====
-- The accept loop of `poll` in src/tcp_server.cpp.
use mathlib.Core.Bool.{false≢true}
use lowlatency_cpp.Base.{
  ℕ, ◌≡◌, ◌≢◌, ◌⊎◌, inl, inr, refl, sym, ap, ◌∙◌, Bool, true, false, List, [], ◌∷◌, ◌==◌, some,
  none, arith, Bool-cases, Option-cases, subst, done,
}
use lowlatency_cpp.TcpSocket.{TcpSocket}
use lowlatency_cpp.TcpSocket.Buffer as Buffer
use native.Mathlib.Decide.{ℕ_discrete}
use lowlatency_cpp.TcpServer.{TcpServer, epoll_add, epoll_add_on}
use lowlatency_cpp.TcpServer.Polling.{Accepted, accept_one, accept_all}
use lowlatency_cpp.SocketHeap.{
  delete_socket, Heap, lookup, store, has, add_unique, listener, nullptr,
}
use lowlatency_cpp.TcpServer.Lists.{
  Distinct-add_unique, has-add_unique, has-add_unique_old, has-add_unique_self, lookup-store,
  lookup-store_self, lookup-store_ne, delete_socket-done, erase-store,
}
use lowlatency_cpp.TcpServer.Valid.{
  Live, AllLive, IsValid, AllLive-add_unique, AllLive-store, Live-store, Live-store_self,
}

-- `epollAdd` of a live socket: nothing happens, or the pointer is registered.
epoll_add-answers :
    (s : TcpServer) (p : ℕ) (is_added : Bool) (x : TcpSocket)
    → lookup s.heap p ≡ some x
    → (epoll_add s p is_added ≡ done (false, s))
      ⊎ (epoll_add s p is_added ≡ done (true, record s { watched = add_unique s.watched p }))
unfolding epoll_add epoll_add_on
epoll_add-answers s p is_added x live = elim (Bool-cases (p == nullptr)) [
  | inl null ↦ inl (rw null)
  | inr real ↦ elim (Option-cases s.efd) [
    | inl shut ↦ inl (rw (real, shut))
    | inr (e, open_at) ↦ elim (Option-cases x.fd) [
      | inl closed ↦ inl (rw (real, open_at, live, closed))
      | inr (fd, is) ↦ elim (Bool-cases is_added) [
        | inl good ↦ inr (rw (real, open_at, live, is, good))
        | inr bad ↦ inl (rw (real, open_at, live, is, bad))
      ]
    ]
  ]
]

-- The server with a new socket that epoll knows and that is in two lists.
abbrev pub take_socket : TcpSocket → TcpServer → ℕ → Accepted → TcpServer
take_socket fresh_socket s p a = record s {
  heap = store s.heap p (record fresh_socket { fd = some a.client_fd });
  sockets = add_unique s.sockets p;
  receive_sockets = add_unique s.receive_sockets p;
  watched = add_unique s.watched p;
}

module _ (new_at : Heap → ℕ) (fresh_socket : TcpSocket)
    (is_fresh : (h : Heap) → lookup h (new_at h) ≡ none)
    (well_made : Buffer.IsValid fresh_socket) where
  -- A live socket is not where a new one goes.
  apart : (h : Heap) (p : ℕ) → Live h p → p ≢ new_at h
  unfolding Live
  apart h p (x, e) same = ground (arith, is_fresh h)

  pub take_socket-IsValid :
      (s : TcpServer) (a : Accepted)
      → IsValid s
      → IsValid (take_socket fresh_socket s (new_at s.heap) a)
  unfolding AllLive
  take_socket-IsValid s a v =
      let p = new_at s.heap in
      let x = record fresh_socket { fd = some a.client_fd } in
      let l = Live-store_self s.heap p x in
      record {
        sockets_live =
            AllLive-add_unique (store s.heap p x) s.sockets p
              (AllLive-store s.heap s.sockets p x v.sockets_live) l;
        receive_live =
            AllLive-add_unique (store s.heap p x) s.receive_sockets p
              (AllLive-store s.heap s.receive_sockets p x v.receive_live) l;
        send_live = AllLive-store s.heap s.send_sockets p x v.send_live;
        disconnected_live = AllLive-store s.heap s.disconnected_sockets p x v.disconnected_live;
        watched_live =
            AllLive-add_unique (store s.heap p x) s.watched p
              (AllLive-store s.heap s.watched p x v.watched_live) l;
        listener_live = Live-store s.heap p listener x v.listener_live;
        listener_apart = elim (Bool-cases (has (add_unique s.sockets p) listener)) [
          | inr out ↦ out
          | inl there ↦ elim (has-add_unique s.sockets p listener there) [
            | inl same ↦ absurd (apart s.heap listener v.listener_live same)
            | inr old ↦ absurd (false≢true (sym v.listener_apart ∙ old))
          ]
        ];
        sockets_once = Distinct-add_unique s.sockets p v.sockets_once;
        receive_once = Distinct-add_unique s.receive_sockets p v.receive_once;
        send_once = v.send_once;
        disconnected_once = v.disconnected_once;
        owned = λ q m. elim (lookup-store s.heap p q x m.0 m.1) [
          | inl (same, _) ↦ inr (
              subst (λ r. has (add_unique s.sockets p) r ≡ true) (sym same)
                (has-add_unique_self s.sockets p))
          | inr (ne, old) ↦ elim (v.owned q (m.0, old)) [
            | inl is ↦ inl is
            | inr there ↦ inr (has-add_unique_old s.sockets p q there)
          ]
        ];
        buffers = λ q y e. elim (lookup-store s.heap p q x y e) [
          | inl (_, same) ↦
              subst (λ (z : TcpSocket). Buffer.IsValid z) same
                (record {
                  send_size = well_made.send_size;
                  send_in = well_made.send_in;
                  rcv_size = well_made.rcv_size;
                  rcv_in = well_made.rcv_in;
                })
          | inr (ne, old) ↦ v.buffers q y old
        ];
      }

  new_socket-deleted :
      (h : Heap) (x : TcpSocket) → delete_socket (store h (new_at h) x) (new_at h) ≡ done h
  new_socket-deleted h x =
      delete_socket-done (store h (new_at h) x) (new_at h) x (lookup-store_self h (new_at h) x)
      ∙ ap done (erase-store h (new_at h) x (is_fresh h))

  -- A round of the accept loop takes the socket, or leaves the server as it was.
  accept_one_cases :
      (s : TcpServer) (a : Accepted)
      → (accept_one new_at fresh_socket s a ≡ done s)
        ⊎ (accept_one new_at fresh_socket s a ≡ done (take_socket fresh_socket s (new_at s.heap) a))
  unfolding accept_one
  accept_one_cases s a = elim (Bool-cases a.is_configured) [
    | inr bad ↦ inl (rw bad)
    | inl good ↦
        let p = new_at s.heap in
        let x = record fresh_socket { fd = some a.client_fd } in
        elim (epoll_add-answers (record s { heap = store s.heap p x }) p a.is_added x
          (lookup-store_self s.heap p x)) [
            | inl refused ↦ inl (rw (good, refused, new_socket-deleted s.heap x))
            | inr added ↦ inr (rw (good, added))
          ]
  ]

  -- The loop adds sockets at free addresses, which the server owns, and changes no other.
  abbrev pub Grows : TcpServer → TcpServer → ℕ → Type 0
  Grows s t q =
      ((lookup t.heap q ≡ lookup s.heap q) × (has s.sockets q ≡ true → has t.sockets q ≡ true))
      ⊎ ((lookup s.heap q ≡ none) × (has t.sockets q ≡ true))

  Grows-then : (s m t : TcpServer) (q : ℕ) → Grows s m q → Grows m t q → Grows s t q
  Grows-then s m t q (inl (e, f)) (inl (g, h)) = inl (g ∙ e, λ k. h (f k))
  Grows-then s m t q (inl (e, f)) (inr (g, h)) = inr (sym e ∙ g, h)
  Grows-then s m t q (inr (e, f)) (inl (g, h)) = inr (e, h f)
  Grows-then s m t q (inr (e, f)) (inr (g, h)) = inr (e, h)

  take_socket-Grows :
      (s : TcpServer) (a : Accepted) (q : ℕ)
      → Grows s (take_socket fresh_socket s (new_at s.heap) a) q
  take_socket-Grows s a q = elim (ℕ_discrete q (new_at s.heap)) [
    | yes here ↦ inr (
      ap (lookup s.heap) here ∙ is_fresh s.heap,
      ap (has (add_unique s.sockets (new_at s.heap))) here
          ∙ has-add_unique_self s.sockets (new_at s.heap),
    )
    | no ne ↦ inl (
      lookup-store_ne s.heap (new_at s.heap) q (record fresh_socket { fd = some a.client_fd }) ne,
      has-add_unique_old s.sockets (new_at s.heap) q,
    )
  ]

  accept_one-Grows :
      (s : TcpServer) (a : Accepted)
      → IsValid s
      → (t : TcpServer) × (accept_one new_at fresh_socket s a ≡ done t)
        × IsValid t
        × ((q : ℕ) → Grows s t q)
  accept_one-Grows s a v = elim (accept_one_cases s a) [
    | inl left ↦ (s, left, v, λ q. inl (refl, λ h. h))
    | inr taken ↦ (
      take_socket fresh_socket s (new_at s.heap) a,
      taken,
      take_socket-IsValid s a v,
      take_socket-Grows s a,
    )
  ]

  pub accept_all-Grows :
      (s : TcpServer) (pending : List Accepted)
      → IsValid s
      → (t : TcpServer) × (accept_all new_at fresh_socket s pending ≡ done t)
        × IsValid t
        × ((q : ℕ) → Grows s t q)
  unfolding accept_all
  accept_all-Grows s [] v = (s, refl, v, λ q. inl (refl, λ h. h))
  accept_all-Grows s (a ∷ later) v =
      let (t, e, w, x) = accept_one-Grows s a v in
      let (u, f, y, z) = accept_all-Grows t later w in
      (u, rw (e, f), y, λ q. Grows-then s t u q (x q) (z q))
