-- ===== src/TcpServer/Delete.antt =====
-- `del` of src/tcp_server.cpp, and the clean-up that `poll` starts with.
use native.Mathlib.Decide.{ℕ_discrete}
use lowlatency_cpp.Base.{
  ℕ, ◌≡◌, ◌≢◌, ◌⊎◌, inl, inr, refl, sym, ◌∙◌, ap, not, ◌&&◌, ◌>>=◌, ◌==◌, Bool, true, false, List,
  [], ◌∷◌, Option, some, none, arith, if◌then◌else◌, Option-cases, Bool-cases, done,
}
use lowlatency_cpp.TcpSocket.{TcpSocket}
use lowlatency_cpp.TcpServer.{
  TcpServer, epoll_del, epoll_del_on, after_epoll_del, del, del_all, drop_disconnected,
}
use lowlatency_cpp.SocketHeap.{Heap, lookup, erase, has, remove, listener, nullptr}
use lowlatency_cpp.TcpServer.Lists.{
  delete_socket-done, remove_idem, Distinct, Distinct-remove, has-remove_ne, has-remove_none,
  lookup-erase, lookup-erase_self, lookup-erase_ne,
}
use lowlatency_cpp.TcpServer.Valid.{Live, AllLive, IsValid, AllLive-nil, Live-erase, AllLive-remove}

abbrev without : TcpServer → ℕ → TcpServer
without s p = record s {
  heap = erase s.heap p;
  sockets = remove s.sockets p;
  receive_sockets = remove s.receive_sockets p;
  send_sockets = remove s.send_sockets p;
  disconnected_sockets = remove s.disconnected_sockets p;
  watched = remove s.watched p;
}

Live-unerase : (h : Heap) (p q : ℕ) → Live (erase h p) q → (q ≢ p) × Live h q
unfolding Live
Live-unerase h p q (x, e) = let (ne, old) = lookup-erase h p q x e in (ne, (x, old))

without-IsValid : (s : TcpServer) (p : ℕ) → IsValid s → p ≢ listener → IsValid (without s p)
without-IsValid s p v ne = record {
  sockets_live = AllLive-remove s.heap s.sockets p v.sockets_live;
  receive_live = AllLive-remove s.heap s.receive_sockets p v.receive_live;
  send_live = AllLive-remove s.heap s.send_sockets p v.send_live;
  disconnected_live = AllLive-remove s.heap s.disconnected_sockets p v.disconnected_live;
  watched_live = AllLive-remove s.heap s.watched p v.watched_live;
  listener_live = Live-erase s.heap p listener (λ e. ne (sym e)) v.listener_live;
  listener_apart = has-remove_none s.sockets p listener v.listener_apart;
  sockets_once = Distinct-remove s.sockets p v.sockets_once;
  receive_once = Distinct-remove s.receive_sockets p v.receive_once;
  send_once = Distinct-remove s.send_sockets p v.send_once;
  disconnected_once = Distinct-remove s.disconnected_sockets p v.disconnected_once;
  owned = λ q l.
      let (other, old) = Live-unerase s.heap p q l in
      elim (v.owned q old) [
        | inl same ↦ inl same
        | inr there ↦ inr (has-remove_ne s.sockets p q other there)
      ];
  buffers = λ q x e. v.buffers q x (lookup-erase s.heap p q x e).1;
}

-- What the deletion of the pointers `ps` does: nobody else's socket goes.
-- What an address holds after the pointers at `ps` are deleted; `del` skips two of them.
abbrev pub kept : List ℕ → TcpServer → ℕ → Option TcpSocket
kept ps s q =
    if has ps q && not (q == nullptr) && not (q == listener) then none else lookup s.heap q

pub record Deletes (ps : List ℕ) (s t : TcpServer) : Type 0 where
  pub heap : (q : ℕ) → lookup t.heap q ≡ kept ps s q
  pub valid : IsValid t
  pub others : (q : ℕ) → has ps q ≡ false → Live s.heap q → Live t.heap q
  pub gone : (q : ℕ) → has ps q ≡ true → q ≢ listener → q ≢ nullptr → ¬ Live t.heap q
  pub no_new : (q : ℕ) → Live t.heap q → Live s.heap q

del-skip : (s : TcpServer) (p : ℕ) → (p ≡ nullptr) ⊎ (p ≡ listener) → del s p ≡ done s
unfolding del
del-skip s p why = ground arith

-- `epollDel` of a live socket: nothing happens, or the pointer is no longer registered.
epoll_del-answers :
    (s : TcpServer) (p : ℕ) (x : TcpSocket)
    → lookup s.heap p ≡ some x
    → (b : Bool) × ((epoll_del s p ≡ done (b, s))
        ⊎ (epoll_del s p ≡ done (b, record s { watched = remove s.watched p })))
unfolding epoll_del epoll_del_on
epoll_del-answers s p x live = elim (Bool-cases (p == nullptr)) [
  | inl null ↦ (false, inl (rw null))
  | inr real ↦ elim (Option-cases s.efd) [
    | inl shut ↦ (false, inl (rw (real, shut)))
    | inr (e, open_at) ↦ elim (Option-cases x.fd) [
      | inl closed ↦ (false, inl (rw (real, open_at, live, closed)))
      | inr (fd, is) ↦ (has s.watched p, inr (rw (real, open_at, live, is)))
    ]
  ]
]

del-Live :
    (s : TcpServer) (p : ℕ) (x : TcpSocket)
    → p ≢ nullptr
    → p ≢ listener
    → lookup s.heap p ≡ some x
    → del s p ≡ done (without s p)
unfolding del
del-Live s p x nn nl e =
    let deleted = delete_socket-done s.heap p x e in
    let (b, why) = epoll_del-answers s p x e in
    let goes_on : del s p ≡ (epoll_del s p >>= λ r. after_epoll_del r.1 p) = ground arith in
    elim why [
      | inl same ↦ rw (goes_on, same, deleted)
      | inr gone ↦ rw (goes_on, gone, deleted, remove_idem s.watched p)
    ]

-- A pointer that is live, or not to be deleted at all.
pub del-Deletes :
    (s : TcpServer) (p : ℕ)
    → IsValid s
    → Live s.heap p
    → (t : TcpServer) × (del s p ≡ done t) × Deletes (p ∷ []) s t
unfolding Live has
del-Deletes s p v l = elim (ℕ_discrete p nullptr) [
  | yes null ↦ (
    s,
    del-skip s p (inl null),
    record {
      valid = v;
      heap = λ q. ground (arith, null);
      others = λ q h l'. l';
      gone = λ q h nl nn. absurd (nn (ground (arith, h, null)));
      no_new = λ q l'. l';
    },
  )
  | no nn ↦ elim (ℕ_discrete p listener) [
    | yes same ↦ (
      s,
      del-skip s p (inr same),
      record {
        valid = v;
        heap = λ q. ground (arith, same);
        others = λ q h l'. l';
        gone = λ q h nl nn. absurd (nl (ground (arith, h, same)));
        no_new = λ q l'. l';
      },
    )
    | no nl ↦ (
      without s p,
      del-Live s p l.0 nn nl l.1,
      record {
        valid = without-IsValid s p v nl;
        heap = λ q. elim (ℕ_discrete q p) [
          | yes here ↦
              ground (arith, here, ap (lookup (erase s.heap p)) here ∙ lookup-erase_self s.heap p)
          | no ne ↦ ground (arith, lookup-erase_ne s.heap p q ne)
        ];
        others = λ q h l'. Live-erase s.heap p q (ground (arith, h)) l';
        gone = λ q h nl nn l'. (Live-unerase s.heap p q l').0 (ground (arith, h));
        no_new = λ q l'. (Live-unerase s.heap p q l').1;
      },
    )
  ]
]

del_all-Deletes :
    (s : TcpServer) (ps : List ℕ)
    → IsValid s
    → AllLive s.heap ps
    → Distinct ps
    → (t : TcpServer) × (del_all s ps ≡ done t) × Deletes ps s t
unfolding del_all Distinct AllLive has
del_all-Deletes s [] v a d = (
  s,
  refl,
  record {
    valid = v;
    heap = λ q. refl;
    others = λ q h l. l;
    gone = λ q h. ground arith;
    no_new = λ q l. l;
  },
)
del_all-Deletes s (p ∷ ps) v a d =
    let (m, e, x) = del-Deletes s p v (a p (ground arith)) in
    let rest : AllLive m.heap ps =
      λ q h. x.others q (ground (arith, h, d.0)) (a q (ground (arith, h))) in
    let (t, f, y) = del_all-Deletes m ps x.valid rest d.1 in
    (
      t,
      rw e f,
      record {
        valid = y.valid;
        heap = λ q. ground (arith, y.heap q, x.heap q);
        others = λ q h l. y.others q (ground (arith, h)) (x.others q (ground (arith, h)) l);
        gone = λ q h nl nn l. elim (Bool-cases (has ps q)) [
          | inl there ↦ y.gone q there nl nn l
          | inr here ↦ x.gone q (ground (arith, h, here)) nl nn (y.no_new q l)
        ];
        no_new = λ q l. x.no_new q (y.no_new q l);
      },
    )

-- `poll` starts by deleting each socket marked disconnected once, and no other; the listener stays.
-- The lists and epoll then hold no pointer to a deleted socket.
pub drop_disconnected-Deletes :
    (s : TcpServer)
    → IsValid s
    → (t : TcpServer) × (drop_disconnected s ≡ done t) × Deletes s.disconnected_sockets s t
unfolding drop_disconnected Distinct
drop_disconnected-Deletes s v =
    let s' = record s { disconnected_sockets = [] } in
    let (t, e, x) =
      del_all-Deletes s' s.disconnected_sockets
        (record {
          sockets_live = v.sockets_live;
          receive_live = v.receive_live;
          send_live = v.send_live;
          disconnected_live = AllLive-nil s.heap;
          watched_live = v.watched_live;
          listener_live = v.listener_live;
          listener_apart = v.listener_apart;
          sockets_once = v.sockets_once;
          receive_once = v.receive_once;
          send_once = v.send_once;
          disconnected_once = record {};
          owned = v.owned;
          buffers = v.buffers;
        })
        v.disconnected_live v.disconnected_once in
    (
      t,
      e,
      record {
        valid = x.valid;
        heap = x.heap;
        others = x.others;
        gone = x.gone;
        no_new = x.no_new;
      },
    )
