-- ===== src/TcpServer/Effect.antt =====
-- The effect of the loops of `sendAndRecv` in src/tcp_server.cpp on one socket.
use lowlatency_cpp.Base.{
  ℕ, ◌≡◌, inl, inr, refl, sym, ◌∙◌, ap, Bool, true, false, not, ◌||◌, ◌&&◌, List, [], ◌∷◌, ◌==◌,
  Option, some, none, arith, Bool-cases, subst, ==_refl, if◌then◌else◌,
}
use native.Mathlib.Decide.{ℕ_discrete}
use lowlatency_cpp.TcpSocket
use lowlatency_cpp.TcpSocket.{TcpSocket, Callback, Kernel, Exchange}
use lowlatency_cpp.TcpServer.{TcpServer, is_broken, when, after_exchange}
use lowlatency_cpp.SocketHeap.{Heap, lookup, has, nullptr, not_in}
use lowlatency_cpp.TcpServer.Lists.{
  Distinct, has-not_in, lookup-store_self, lookup-store_ne, has-add_unique, has-add_unique_old,
  has-add_unique_self,
}

pub Distinct-not_in : (ps qs : List ℕ) → Distinct qs → Distinct (not_in ps qs)
unfolding Distinct not_in
Distinct-not_in ps [] d = d
Distinct-not_in ps (r ∷ qs) d = elim (Bool-cases (has ps r)) [
  | inl there ↦ rw there (Distinct-not_in ps qs d.1)
  | inr new ↦ rw new (ground (arith, has-not_in ps qs r, d.0), Distinct-not_in ps qs d.1)
]

has-when : (b : Bool) (ps : List ℕ) (p q : ℕ) → has (when b ps p) q ≡ has ps q || (b && (q == p))
unfolding has
has-when true ps p q =
    ground (arith, has-add_unique ps p q, has-add_unique_old ps p q, has-add_unique_self ps p)
has-when false ps p q = ground arith

abbrev pub socket_of : Option Exchange → Option TcpSocket
socket_of none = none
socket_of (some y) = some y.socket

abbrev pub result_of : Option Exchange → Bool
result_of none = false
result_of (some y) = y.result

module _ (kernel : ℕ → TcpSocket → Kernel) (callback : ℕ → Callback) where
  -- The socket at a pointer after its `TCPSocket::sendAndRecv`.
  abbrev pub exchanged : ℕ → Option TcpSocket → Option TcpSocket
  exchanged q none = none
  exchanged q (some x) = socket_of (TcpSocket.send_and_recv (kernel q x) (callback q) x)

  abbrev pub is_broken_at : Option TcpSocket → Bool
  is_broken_at none = false
  is_broken_at (some x) = x.recv_disconnected || x.send_disconnected

  -- The pointer `q` after the round, if it is `served` in it: its socket, and whether it is marked as
  -- disconnected.
  abbrev pub socket_after : Bool → TcpServer → ℕ → Option TcpSocket
  socket_after served s q =
      if served && not (q == nullptr) then exchanged q (lookup s.heap q) else lookup s.heap q

  abbrev pub is_dropped_after : Bool → TcpServer → ℕ → Bool
  is_dropped_after served s q =
      has s.disconnected_sockets q
      || (served && not (q == nullptr) && is_broken_at (exchanged q (lookup s.heap q)))

  pub record Effect (served : Bool) (s t : TcpServer) (q : ℕ) : Type 0 where
    pub socket : lookup t.heap q ≡ socket_after served s q
    pub dropped : has t.disconnected_sockets q ≡ is_dropped_after served s q

  pub Effect-then :
      (b c : Bool) (s m t : TcpServer) (q : ℕ)
      → b && c ≡ false
      → Effect b s m q
      → Effect c m t q
      → Effect (b || c) s t q
  Effect-then true true s m t q once e f = absurd (ground arith)
  Effect-then true false s m t q once e f = record {
    socket = f.socket ∙ e.socket;
    dropped = ground (arith, f.dropped, e.dropped);
  }
  Effect-then false c s m t q once e f = record {
    socket = rw (sym e.socket) f.socket;
    dropped = ground (arith, f.dropped, e.dropped, e.socket);
  }

  -- Whether a socket's `sendAndRecv` says that bytes were received.
  abbrev pub received_at : ℕ → Option TcpSocket → Bool
  received_at q none = false
  received_at q (some x) = result_of (TcpSocket.send_and_recv (kernel q x) (callback q) x)

  -- Whether one of the sockets at `ps` receives bytes.
  unfoldable pub any_received : Heap → List ℕ → Bool
  unfolding lookup
  any_received h [] = false
  any_received h (p ∷ ps) = (not (p == nullptr) && received_at p (lookup h p)) || any_received h ps

  pub any_received_same :
      (h k : Heap) (ps : List ℕ)
      → ((q : ℕ) → has ps q ≡ true → lookup k q ≡ lookup h q)
      → any_received k ps ≡ any_received h ps
  unfolding any_received has
  any_received_same h k [] same = refl
  any_received_same h k (p ∷ ps) same =
      rw (any_received_same h k ps (λ q there. same q (ground (arith, there))))
        (rw (same p (ground arith)) refl)

  pub Effect-same : (b c : Bool) (s t : TcpServer) (q : ℕ) → b ≡ c → Effect b s t q → Effect c s t q
  Effect-same b c s t q same e = subst (λ d. Effect d s t q) same e

  pub null-Effect :
      (r : Bool × TcpServer) (p q : ℕ) → p == nullptr ≡ true → Effect (p == q) r.1 r.1 q
  null-Effect r p q null = record { socket = ground arith; dropped = ground arith }

  pub after_exchange-Effect :
      (r : Bool × TcpServer) (p : ℕ) (x : TcpSocket) (y : Exchange) (q : ℕ)
      → p == nullptr ≡ false
      → lookup r.1.heap p ≡ some x
      → TcpSocket.send_and_recv (kernel p x) (callback p) x ≡ some y
      → Effect (p == q) r.1 (after_exchange kernel callback r p y).1 q
  after_exchange-Effect r p x y q real live run = elim (ℕ_discrete q p) [
    | yes same ↦
        subst (λ o. Effect (p == o) r.1 (after_exchange kernel callback r p y).1 o) (sym same)
          (record {
            socket =
                rw (==_refl p, real, live)
                  (lookup-store_self r.1.heap p y.socket ∙ sym (ap socket_of run));
            dropped =
                rw (==_refl p, real, live)
                  (ground (
                    arith,
                    ap socket_of run,
                    has-when (is_broken y.socket) r.1.disconnected_sockets p p,
                  ));
          })
    | no ne ↦ record {
      socket = ground (arith, lookup-store_ne r.1.heap p q y.socket ne);
      dropped = ground (arith, has-when (is_broken y.socket) r.1.disconnected_sockets p q);
    }
  ]

  pub elsewhere :
      (p q : ℕ) (s t : TcpServer)
      → p == q ≡ false
      → Effect (has (p ∷ []) q) s t q
      → lookup t.heap q ≡ lookup s.heap q
  unfolding has
  elsewhere p q s t other e = (Effect-same (has (p ∷ []) q) false s t q (ground arith) e).socket
