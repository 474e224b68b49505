-- ===== src/TcpServer/Rounds.antt =====
-- What a round of `sendAndRecv` in src/tcp_server.cpp does to each socket.
use lowlatency_cpp.Base.{
  ℕ, ◌≡◌, inl, inr, refl, ◌∙◌, ap, Bool, false, ◌||◌, List, [], ◌∷◌, ◌==◌, Option, some, none,
  arith, Bool-cases, done,
}
use lowlatency_cpp.TcpSocket.{TcpSocket, Callback, Kernel}
use lowlatency_cpp.TcpSocket.Receive.{IsHonest, Keeps}
use lowlatency_cpp.Logger.Messages.{Message}
use lowlatency_cpp.TcpServer.{
  TcpServer, is_broken, after_exchange, answered, round_over, serve, serve_all, send_and_recv,
  send_and_recv_on,
}
use lowlatency_cpp.SocketHeap.{store, has, nullptr, not_in}
use lowlatency_cpp.TcpServer.Lists.{Distinct, has-not_in}
use lowlatency_cpp.TcpServer.Valid.{
  same_sockets-IsValid, Live, AllLive, IsValid, Live-store, Live-store_self,
}
use lowlatency_cpp.TcpServer.Serve.{exchange-total, stored-IsValid}
use lowlatency_cpp.TcpServer.Events.{marked-IsValid}
use lowlatency_cpp.TcpServer.Effect.{
  result_of, any_received, any_received_same, Effect, Effect-then, Effect-same, null-Effect,
  after_exchange-Effect, elsewhere, Distinct-not_in,
}

module _ (kernel : ℕ → TcpSocket → Kernel) (callback : ℕ → Callback) where
  -- What the loops have done after they served the sockets at `ps`.
  pub record Served (ps : List ℕ) (r t : Bool × TcpServer) : Type 0 where
    pub valid : IsValid t.1
    pub stays : (q : ℕ) → Live r.1.heap q → Live t.1.heap q
    pub effect : (q : ℕ) → Effect kernel callback (has ps q) r.1 t.1 q
    pub answer : t.0 ≡ any_received kernel callback r.1.heap ps || r.0

  Served-then :
      (p : ℕ) (ps : List ℕ) (r m t : Bool × TcpServer)
      → has ps p ≡ false
      → Served (p ∷ []) r m
      → Served ps m t
      → Served (p ∷ ps) r t
  unfolding has any_received
  Served-then p ps r m t once x y = record {
    valid = y.valid;
    stays = λ q n. y.stays q (x.stays q n);
    effect = λ q.
        Effect-same kernel callback (has (p ∷ []) q || has ps q) (has (p ∷ ps) q) r.1 t.1 q
          (ground arith)
          (Effect-then kernel callback (has (p ∷ []) q) (has ps q) r.1 m.1 t.1 q
            (ground (arith, once)) (x.effect q) (y.effect q));
    answer =
        y.answer
        ∙ ground (
          arith,
          x.answer,
          any_received_same kernel callback r.1.heap m.1.heap ps (λ q there.
              elsewhere kernel callback p q r.1 m.1 (ground (arith, there, once)) (x.effect q)),
        );
  }

  -- Whether the round serves the pointer.
  abbrev pub is_served : Option ℕ → TcpServer → ℕ → Bool
  is_served none s q = false
  is_served (some efd) s q = has s.receive_sockets q || has s.send_sockets q

  abbrev pub answer_of : Option ℕ → TcpServer → Bool
  answer_of none s = false
  answer_of (some efd) s = any_received kernel callback s.heap s.receive_sockets

  pub record Round (efd : Option ℕ) (s : TcpServer) (t : Bool × TcpServer) : Type 0 where
    pub valid : IsValid t.1
    pub effect : (q : ℕ) → Effect kernel callback (is_served efd s q) s t.1 q
    pub answer : t.0 ≡ answer_of efd s

  module _ (honest : (p : ℕ) (x : TcpSocket) → IsHonest (kernel p x))
      (keeps : (p : ℕ) → Keeps (callback p)) where
    serve-Served :
        (r : Bool × TcpServer) (p : ℕ)
        → IsValid r.1
        → Live r.1.heap p
        → (t : Bool × TcpServer) × (serve kernel callback r p ≡ done t) × Served (p ∷ []) r t
    unfolding serve Live any_received has
    serve-Served r p v l = elim (Bool-cases (p == nullptr)) [
      | inl null ↦ (
        r,
        rw null,
        record {
          valid = v;
          stays = λ q m. m;
          effect = λ q.
              Effect-same kernel callback (p == q) (has (p ∷ []) q) r.1 r.1 q (ground arith)
                (null-Effect kernel callback r p q null);
          answer = rw null refl;
        },
      )
      | inr real ↦
          let (y, run, good) =
            exchange-total (kernel p l.0) (callback p) l.0 (honest p l.0) (keeps p)
              (v.buffers p l.0 l.1) in
          let s = record r.1 { heap = store r.1.heap p y.socket } in
          (
            after_exchange kernel callback r p y,
            rw (real, l.1) (ap (answered kernel callback r p) run),
            record {
              valid =
                  marked-IsValid s (is_broken y.socket) p (stored-IsValid r.1 p y.socket v l good)
                    (Live-store_self r.1.heap p y.socket);
              stays = λ q m. Live-store r.1.heap p q y.socket m;
              effect = λ q.
                  Effect-same kernel callback (p == q) (has (p ∷ []) q) r.1
                    (after_exchange kernel callback r p y).1 q (ground arith)
                    (after_exchange-Effect kernel callback r p l.0 y q real l.1 run);
              answer = rw (real, l.1) (ground (arith, ap result_of run));
            },
          )
    ]

    nothing-Served : (r : Bool × TcpServer) → IsValid r.1 → Served [] r r
    unfolding any_received has
    nothing-Served r v = record {
      valid = v;
      stays = λ q m. m;
      effect = λ q. record { socket = refl; dropped = ground arith };
      answer = refl;
    }

    serve_all-Served :
        (r : Bool × TcpServer) (ps : List ℕ)
        → IsValid r.1
        → AllLive r.1.heap ps
        → Distinct ps
        → (t : Bool × TcpServer) × (serve_all kernel callback r ps ≡ done t) × Served ps r t
    unfolding serve_all AllLive has Distinct any_received
    serve_all-Served r [] v a d = (r, refl, nothing-Served r v)
    serve_all-Served r (p ∷ ps) v a d =
        let (m, e, x) = serve-Served r p v (a p (ground arith)) in
        let (t, f, y) =
          serve_all-Served m ps x.valid (λ q h. x.stays q (a q (ground (arith, h)))) d.1 in
        (t, rw e f, Served-then p ps r m t d.0 x y)

    send_and_recv_on-Round :
        (finished : List Message → List Message) (s : TcpServer) (efd : Option ℕ)
        → IsValid s
        → (t : Bool × TcpServer) × (send_and_recv_on kernel callback finished s efd ≡ done t)
          × Round efd s t
    unfolding send_and_recv_on AllLive
    send_and_recv_on-Round finished s none v = (
      (false, s),
      refl,
      record {
        valid = v;
        effect = λ q. record { socket = refl; dropped = ground arith };
        answer = refl;
      },
    )
    send_and_recv_on-Round finished s (some efd) v =
        let (m, e, x) =
          serve_all-Served (false, s) s.receive_sockets v v.receive_live v.receive_once in
        let rest = not_in s.receive_sockets s.send_sockets in
        let n = round_over kernel callback finished m in
        let (t, f, y) =
          serve_all-Served n rest (same_sockets-IsValid m.1 m.1.efd n.1.logged x.valid)
            (λ q h.
              x.stays q
                (v.send_live q (ground (arith, h, has-not_in s.receive_sockets s.send_sockets q))))
            (Distinct-not_in s.receive_sockets s.send_sockets v.send_once) in
        (
          (m.0, t.1),
          rw (e, f),
          record {
            valid = y.valid;
            effect = λ q.
                Effect-same kernel callback (has s.receive_sockets q || has rest q)
                  (is_served (some efd) s q) s t.1 q
                  (ground (arith, has-not_in s.receive_sockets s.send_sockets q))
                  (Effect-then kernel callback (has s.receive_sockets q) (has rest q) s n.1 t.1 q
                    (ground (arith, has-not_in s.receive_sockets s.send_sockets q))
                    (record { socket = (x.effect q).socket; dropped = (x.effect q).dropped })
                    (y.effect q));
            answer = ground (arith, x.answer);
          },
        )

    -- A round of a valid server never uses a dead socket and leaves the server valid. A socket
    -- whose pointer is in the receive or the send list makes one `sendAndRecv`, on the state that
    -- it had before the round, also if it is in both; a pointer is marked as disconnected if it was
    -- before, or if its socket made one and is broken afterwards; no other socket changes. The
    -- answer is whether a socket of the receive list received bytes. Without an epoll descriptor
    -- nothing happens. The kernel never takes or gives more bytes than it was offered room for, its
    -- time stamps fit in 64 bits, and the callbacks keep a socket well formed.
    pub send_and_recv-Round :
        (finished : List Message → List Message) (s : TcpServer)
        → IsValid s
        → (t : Bool × TcpServer) × (send_and_recv kernel callback finished s ≡ done t)
          × Round s.efd s t
    unfolding send_and_recv
    send_and_recv-Round finished s v = send_and_recv_on-Round finished s s.efd v

    pub send_and_recv-IsValid :
        (finished : List Message → List Message) (s : TcpServer)
        → IsValid s
        → (t : Bool × TcpServer) × (send_and_recv kernel callback finished s ≡ done t) × IsValid t.1
    send_and_recv-IsValid finished s v =
        let (t, e, x) = send_and_recv-Round finished s v in (t, e, x.valid)
