-- ===== src/TcpServer/Destroy.antt =====
-- The constructor and `destroy` of src/tcp_server.cpp.
use mathlib.Core.Bool.{false≢true}
use lowlatency_cpp.Base.{
  ℕ, ◌≡◌, inl, inr, refl, sym, ◌∙◌, List, [], ◌∷◌, Option, some, none, arith, Bool-cases, subst,
  done, if◌then◌else◌,
}
use lowlatency_cpp.TcpSocket
use lowlatency_cpp.TcpSocket.{TcpSocket}
use lowlatency_cpp.TcpSocket.Buffer as Buffer
use lowlatency_cpp.TcpServer.{TcpServer, close_all, destroy, create}
use lowlatency_cpp.SocketHeap.{Heap, lookup, erase, store, has, listener, delete_all}
use lowlatency_cpp.TcpServer.Lists.{
  delete_socket-done, Distinct, lookup-erase_self, lookup-erase_ne, lookup-store,
}
use lowlatency_cpp.TcpServer.Valid.{
  Live, AllLive, IsValid, AllLive-nil, Live-erase, Live-store_self,
}

delete_all-Live :
    (h : Heap) (ps : List ℕ)
    → AllLive h ps
    → Distinct ps
    → (h' : Heap) × (delete_all h ps ≡ done h')
      × ((q : ℕ) → lookup h' q ≡ (if has ps q then none else lookup h q))
unfolding delete_all Distinct AllLive Live has
delete_all-Live h [] a d = (h, refl, λ q. refl)
delete_all-Live h (p ∷ ps) a d =
    let l = a p (ground arith) in
    let (h', e, frees) =
      delete_all-Live (erase h p) ps
        (λ q m. Live-erase h p q (ground (arith, m, d.0)) (a q (ground (arith, m)))) d.1 in
    (
      h',
      rw (delete_socket-done h p l.0 l.1) e,
      λ q. ground (arith, frees q, lookup-erase_self h p, lookup-erase_ne h p q),
    )

closed-IsValid :
    (s : TcpServer) (h : Heap) (x : TcpSocket)
    → ((q : ℕ) → Live h q → q ≡ listener)
    → Buffer.IsValid x
    → (t : TcpServer) × (close_all s h (some x) ≡ done t)
      × IsValid t
      × ((q : ℕ) → Live t.heap q → q ≡ listener)
      × (t.efd ≡ none)
unfolding Live TcpSocket.destroy has Distinct
closed-IsValid s h x only v =
    let y = (TcpSocket.destroy x).0 in
    let alone : (q : ℕ) → Live (store h listener y) q → q ≡ listener = λ q m.
      elim (lookup-store h listener q y m.0 m.1) [
        | inl (same, _) ↦ same
        | inr (ne, old) ↦ only q (m.0, old)
      ] in
    (
      record {
        efd = none;
        heap = store h listener y;
        sockets = [];
        receive_sockets = [];
        send_sockets = [];
        disconnected_sockets = [];
        watched = [];
        logged = s.logged;
      },
      refl,
      record {
        sockets_live = AllLive-nil (store h listener y);
        receive_live = AllLive-nil (store h listener y);
        send_live = AllLive-nil (store h listener y);
        disconnected_live = AllLive-nil (store h listener y);
        watched_live = AllLive-nil (store h listener y);
        listener_live = Live-store_self h listener y;
        listener_apart = refl;
        sockets_once = record {};
        receive_once = record {};
        send_once = record {};
        disconnected_once = record {};
        owned = λ q m. inl (alone q m);
        buffers = λ q z e. elim (lookup-store h listener q y z e) [
          | inl (_, same) ↦
              subst (λ (w : TcpSocket). Buffer.IsValid w) same
                (record {
                  send_size = v.send_size;
                  send_in = omega arith;
                  rcv_size = v.rcv_size;
                  rcv_in = omega arith;
                })
          | inr (ne, old) ↦ absurd (ne (only q (z, old)))
        ];
      },
      alone,
      refl,
    )

-- `destroy` of a valid server deletes every accepted socket, each once: the listener is the only
-- socket left, epoll is closed, and the server is valid and can be used again.
pub destroy-IsValid :
    (s : TcpServer)
    → IsValid s
    → (t : TcpServer) × (destroy s ≡ done t)
      × IsValid t
      × ((q : ℕ) → Live t.heap q → q ≡ listener)
      × (t.efd ≡ none)
unfolding destroy Live
destroy-IsValid s v =
    let (h, e, frees) = delete_all-Live s.heap s.sockets v.sockets_live v.sockets_once in
    let (x, at) = v.listener_live in
    let here : lookup h listener ≡ some x = frees listener ∙ rw v.listener_apart at in
    let (t, f, valid, only, shut) =
      closed-IsValid s h x
        (λ q m. elim (Bool-cases (has s.sockets q)) [
          | inl there ↦ ground (arith, frees q, m.1)
          | inr out ↦ elim (v.owned q (m.0, sym (frees q ∙ rw out) ∙ m.1)) [
            | inl same ↦ same
            | inr there ↦ absurd (false≢true (sym out ∙ there))
          ]
        ])
        (v.buffers listener x at) in
    (t, rw (e, here) f, valid, only, shut)

-- A new server is valid, also with an epoll descriptor.
pub create-IsValid :
    (x : TcpSocket) (efd : Option ℕ) → Buffer.IsValid x → IsValid (record (create x) { efd = efd })
unfolding create AllLive Live lookup has Distinct
create-IsValid x efd v =
    let h : Heap = (listener, x) ∷ [] in
    record {
      sockets_live = AllLive-nil h;
      receive_live = AllLive-nil h;
      send_live = AllLive-nil h;
      disconnected_live = AllLive-nil h;
      watched_live = AllLive-nil h;
      listener_live = (x, refl);
      listener_apart = refl;
      sockets_once = record {};
      receive_once = record {};
      send_once = record {};
      disconnected_once = record {};
      owned = λ q m. ground (arith, m.1);
      buffers = λ q z e. subst (λ (w : TcpSocket). Buffer.IsValid w) (ground (arith, e)) v;
    }

pub new-IsValid : (x : TcpSocket) → Buffer.IsValid x → IsValid (create x)
unfolding create
new-IsValid x v = create-IsValid x none v
