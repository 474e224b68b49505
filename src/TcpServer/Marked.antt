-- ===== src/TcpServer/Marked.antt =====
-- `sendAndRecv` of src/tcp_server.cpp puts a connection that has broken on the list of
-- disconnected sockets.
use native.Mathlib.Decide.{ℕ_discrete}
use lowlatency_cpp.Base.{
  ℕ, ◌≡◌, ◌≢◌, ◌⊎◌, inl, inr, sym, ap, ◌∙◌, subst, Bool, true, false, List, [], ◌∷◌, ◌==◌, some,
  arith, Bool-cases, Option-cases, ==→eq, done, >>=-eq-done, ◌>>=◌,
}
use lowlatency_cpp.TcpSocket
use lowlatency_cpp.TcpSocket.{TcpSocket, Callback, Kernel, Exchange}
use lowlatency_cpp.Logger.Messages.{Message}
use lowlatency_cpp.TcpServer.{
  TcpServer, when, is_broken, after_exchange, answered, round_over, serve, serve_all, send_and_recv,
  send_and_recv_on,
}
use lowlatency_cpp.SocketHeap.{lookup, has, nullptr, not_in}
use lowlatency_cpp.TcpServer.Lists.{
  lookup-store_self, lookup-store_ne, has-add_unique_self, has-add_unique_old,
}

-- If the connection at `p` has broken, it is on the list.
unfoldable pub Marked : TcpServer → ℕ → Type 0
Marked s p =
    (x : TcpSocket)
    → lookup s.heap p ≡ some x
    → is_broken x ≡ true
    → has s.disconnected_sockets p ≡ true

has-when_old : (b : Bool) (ps : List ℕ) (p q : ℕ) → has ps q ≡ true → has (when b ps p) q ≡ true
has-when_old true ps p q h = has-add_unique_old ps p q h
has-when_old false ps p q h = h

has-not_in_new :
    (ps qs : List ℕ) (q : ℕ) → has qs q ≡ true → has ps q ≡ false → has (not_in ps qs) q ≡ true
unfolding has not_in
has-not_in_new ps [] q h k = h
has-not_in_new ps (r ∷ qs) q h k = ground (arith, has-not_in_new ps qs q)

module _ (kernel : ℕ → TcpSocket → Kernel) (callback : ℕ → Callback) where
  -- A socket is skipped, or its `sendAndRecv` is followed by the test of its flags.
  pub serve-eq-done :
      (r t : Bool × TcpServer) (p : ℕ)
      → serve kernel callback r p ≡ done t
      → ((p ≡ nullptr) × (r ≡ t)) ⊎ ((y : Exchange) × (after_exchange kernel callback r p y ≡ t))
  unfolding serve
  serve-eq-done r t p e = elim (Bool-cases (p == nullptr)) [
    | inl null ↦ inl (==→eq p nullptr null, ground (arith, e, null))
    | inr real ↦ elim (Option-cases (lookup r.1.heap p)) [
      | inl dead ↦ absurd (ground (arith, e, real, dead))
      | inr (x, live) ↦ replied x live (ground (arith, e, real, live))
    ]
  ]
    where
      replied :
          (x : TcpSocket)
          → lookup r.1.heap p ≡ some x
          → answered kernel callback r p (TcpSocket.send_and_recv (kernel p x) (callback p) x)
            ≡ done t
          → ((p ≡ nullptr) × (r ≡ t))
            ⊎ ((y : Exchange) × (after_exchange kernel callback r p y ≡ t))
      replied x live f = elim (Option-cases (TcpSocket.send_and_recv (kernel p x) (callback p) x)) [
        | inl out ↦ absurd (cc (ap (answered kernel callback r p) out))
        | inr (y, run) ↦ inr (y, cc (ap (answered kernel callback r p) run))
      ]

  after_exchange-Marked :
      (r : Bool × TcpServer) (p : ℕ) (y : Exchange)
      → Marked (after_exchange kernel callback r p y).1 p
  unfolding Marked
  after_exchange-Marked r p y x e broken =
      let same : y.socket ≡ x = ground (arith, e, lookup-store_self r.1.heap p y.socket) in
      rw (same, broken) (has-add_unique_self r.1.disconnected_sockets p)

  after_exchange-keeps :
      (r : Bool × TcpServer) (p q : ℕ) (y : Exchange)
      → q ≢ p
      → Marked r.1 q
      → Marked (after_exchange kernel callback r p y).1 q
  unfolding Marked
  after_exchange-keeps r p q y ne m x e broken =
      has-when_old (is_broken y.socket) r.1.disconnected_sockets p q
        (m x (sym (lookup-store_ne r.1.heap p q y.socket ne) ∙ e) broken)

  serve-Marked :
      (r t : Bool × TcpServer) (p q : ℕ)
      → q ≢ nullptr
      → serve kernel callback r p ≡ done t
      → (p ≡ q) ⊎ Marked r.1 q
      → Marked t.1 q
  serve-Marked r t p q real e why = elim (serve-eq-done r t p e) [
    | inl (null, same) ↦ elim why [
      | inl is ↦ absurd (real (sym is ∙ null))
      | inr m ↦ subst (λ (u : Bool × TcpServer). Marked u.1 q) same m
    ]
    | inr (y, same) ↦
        subst (λ (u : Bool × TcpServer). Marked u.1 q) same
          (elim (ℕ_discrete q p) [
            | yes is ↦
                subst (λ (k : ℕ). Marked (after_exchange kernel callback r p y).1 k) (sym is)
                  (after_exchange-Marked r p y)
            | no ne ↦ elim why [
              | inl is ↦ absurd (ne (sym is))
              | inr m ↦ after_exchange-keeps r p q y ne m
            ]
          ])
  ]

  serve_all-Marked :
      (r t : Bool × TcpServer) (ps : List ℕ) (q : ℕ)
      → q ≢ nullptr
      → serve_all kernel callback r ps ≡ done t
      → (has ps q ≡ true) ⊎ Marked r.1 q
      → Marked t.1 q
  unfolding serve_all has
  serve_all-Marked r t [] q real e (inl h) = absurd (cc)
  serve_all-Marked r t [] q real e (inr m) =
      let same : r ≡ t = cc in subst (λ (u : Bool × TcpServer). Marked u.1 q) same m
  serve_all-Marked r t (p ∷ ps) q real e why =
      let (m, f, g) =
        >>=-eq-done (serve kernel callback r p) (λ u. serve_all kernel callback u ps) e in
      serve_all-Marked m t ps q real g (elim (ℕ_discrete p q) [
        | yes is ↦ inr (serve-Marked r m p q real f (inl is))
        | no ne ↦ later m f why ne
      ])
    where
      later :
          (m : Bool × TcpServer)
          → serve kernel callback r p ≡ done m
          → (has (p ∷ ps) q ≡ true) ⊎ Marked r.1 q
          → p ≢ q
          → (has ps q ≡ true) ⊎ Marked m.1 q
      later m f (inl h) ne = inl (ground (arith, h, ne))
      later m f (inr marked) ne = inr (serve-Marked r m p q real f (inr marked))

  -- The two loops, one after the other.
  loops-Marked :
      (finished : List Message → List Message) (s : TcpServer) (t : Bool × TcpServer) (efd q : ℕ)
      → q ≢ nullptr
      → send_and_recv_on kernel callback finished s (some efd) ≡ done t
      → (has s.receive_sockets q ≡ true) ⊎ (has (not_in s.receive_sockets s.send_sockets) q ≡ true)
      → Marked t.1 q
  unfolding send_and_recv_on Marked
  loops-Marked finished s t efd q real e why =
      let rest = not_in s.receive_sockets s.send_sockets in
      let (m, f, g) =
        >>=-eq-done (serve_all kernel callback (false, s) s.receive_sockets)
          (λ r. serve_all kernel callback (round_over kernel callback finished r) rest >>= λ u.
            done (r.0, u.1))
          e in
      let (u, h, k) =
        >>=-eq-done (serve_all kernel callback (round_over kernel callback finished m) rest)
          (λ u. done (m.0, u.1)) g in
      let same : u.1 ≡ t.1 = cc in
      subst (λ (x : TcpServer). Marked x q) same
        (serve_all-Marked (round_over kernel callback finished m) u rest q real h (first why m f))
    where
      first :
          (has s.receive_sockets q ≡ true)
            ⊎ (has (not_in s.receive_sockets s.send_sockets) q ≡ true)
          → (m : Bool × TcpServer) → serve_all kernel callback (false, s) s.receive_sockets ≡ done m
          → (has (not_in s.receive_sockets s.send_sockets) q ≡ true) ⊎ Marked m.1 q
      first (inl there) m f =
          inr (serve_all-Marked (false, s) m s.receive_sockets q real f (inl there))
      first (inr there) m f = inl there

  listed :
      (s : TcpServer) (q : ℕ)
      → (has s.receive_sockets q ≡ true) ⊎ (has s.send_sockets q ≡ true)
      → (has s.receive_sockets q ≡ true) ⊎ (has (not_in s.receive_sockets s.send_sockets) q ≡ true)
  listed s q (inl there) = inl there
  listed s q (inr there) = elim (Bool-cases (has s.receive_sockets q)) [
    | inl both ↦ inl both
    | inr out ↦ inr (has-not_in_new s.receive_sockets s.send_sockets q there out)
  ]

  pub both-Marked :
      (finished : List Message → List Message) (s : TcpServer) (t : Bool × TcpServer) (efd q : ℕ)
      → s.efd ≡ some efd
      → q ≢ nullptr
      → send_and_recv kernel callback finished s ≡ done t
      → (has s.receive_sockets q ≡ true) ⊎ (has s.send_sockets q ≡ true)
      → Marked t.1 q
  unfolding send_and_recv
  both-Marked finished s t efd q open_at real e why =
      loops-Marked finished s t efd q real
        (ap (send_and_recv_on kernel callback finished s) (sym open_at) ∙ e) (listed s q why)
