-- ===== src/SocketUtils/Requirements.antt =====
-- What a trace of system calls must show for a descriptor that `createSocket` (src/socket_utils.cpp)
-- returns, as its options ask for.
use lowlatency_cpp.Base.{ℕ, Bool, true, not, ◌&&◌, List, [], ◌∷◌, ◌≡◌, inl, inr, ◌⊎◌}
use Prim.Native.Nat.{bit_or}
use lowlatency_cpp.SocketUtils.{
  Syscall, get_flags, set_flags, setsockopt, socket, connect, bind, listen, Reply, ok, Trace, M,
  Candidate, SocketOptions, tcp_nodelay, so_timestamp, so_reuseaddr, max_tcp_server_backlog,
  o_nonblock, is_started, has_nonblock,
}

-- The call was made, with that reply.
abbrev pub In : Syscall × Reply → Trace → Type 0
In x [] = ⊥
In x (y ∷ t) = (x ≡ y) ⊎ In x t

-- Later traces hold the calls of earlier ones.
abbrev pub Extends : Trace → Trace → Type 0
Extends t t' = (x : Syscall × Reply) → In x t → In x t'

-- What a step is to achieve: `connect` may be under way, and O_NONBLOCK may have been set before.
pub data Requirement : Type 0 where
  succeeded : Syscall → Requirement
  started : ℕ → ℕ → Requirement
  non_blocking : ℕ → Requirement

abbrev pub Holds : Requirement → Trace → Type 0
Holds (succeeded c) t = (n : ℕ) × In (c, ok n) t
Holds (started fd addr) t = (r : Reply) × In (connect fd addr, r) t × (is_started r ≡ true)
Holds (non_blocking fd) t =
    ((flags : ℕ) × In (get_flags fd, ok flags) t × (has_nonblock flags ≡ true))
    ⊎ ((flags n : ℕ) × In (set_flags fd (bit_or flags o_nonblock), ok n) t)

pub Holds-Extends : (q : Requirement) (t t' : Trace) → Extends t t' → Holds q t → Holds q t'
Holds-Extends (succeeded c) t t' e (n, h) = (n, e _ h)
Holds-Extends (started fd addr) t t' e (r, h, s) = (r, e _ h, s)
Holds-Extends (non_blocking fd) t t' e (inl (flags, h, set)) = inl (flags, e _ h, set)
Holds-Extends (non_blocking fd) t t' e (inr (flags, n, h)) = inr (flags, n, e _ h)

abbrev HoldsIf : Bool × Requirement → Trace → Type 0
HoldsIf (needed, q) t = needed ≡ true → Holds q t

-- The requirements of the options, for an address and a descriptor.
abbrev pub required : SocketOptions → Candidate → ℕ → List (Bool × Requirement)
required o c fd =
    (not o.is_blocking, non_blocking fd)
    ∷ (not o.is_udp, succeeded (setsockopt fd tcp_nodelay))
    ∷ (not o.is_listening, started fd c.addr)
    ∷ (o.is_listening, succeeded (setsockopt fd so_reuseaddr))
    ∷ (o.is_listening, succeeded (bind fd c.addr))
    ∷ (o.is_listening && not o.is_udp, succeeded (listen fd max_tcp_server_backlog))
    ∷ (o.needs_so_timestamp, succeeded (setsockopt fd so_timestamp))
    ∷ []

abbrev pub HoldAll : List (Bool × Requirement) → Trace → Type 0
HoldAll [] t = Unit {0}
HoldAll (q ∷ qs) t = HoldsIf q t × HoldAll qs t

HoldAll-Extends :
    (qs : List (Bool × Requirement)) (t t' : Trace) → Extends t t' → HoldAll qs t → HoldAll qs t'
HoldAll-Extends [] t t' e h = tt
HoldAll-Extends ((b, q) ∷ qs) t t' e h =
    (λ needed. Holds-Extends q t t' e (h.0 needed), HoldAll-Extends qs t t' e h.1)

-- A step that extends the trace, and meets its requirement when it succeeds.
pub record Meets (m : M Bool) (q : Bool × Requirement) : Type 0 where
  pub grows : (t : Trace) → Extends t (m t).1
  pub meets : (t : Trace) → (m t).0 ≡ true → HoldsIf q (m t).1

abbrev pub AllMeet : List (M Bool) → List (Bool × Requirement) → Type 0
AllMeet [] [] = Unit {0}
AllMeet (m ∷ ms) (q ∷ qs) = Meets m q × AllMeet ms qs
AllMeet [] (q ∷ qs) = ⊥
AllMeet (m ∷ ms) [] = ⊥

-- The descriptor comes from `socket` for that address, and every required step has succeeded.
unfoldable pub Ready : SocketOptions → Candidate → ℕ → Trace → Type 0
Ready o c fd t = In (socket c.family c.kind c.protocol, ok fd) t × HoldAll (required o c fd) t

abbrev pub Among : Candidate → List Candidate → Type 0
Among c [] = ⊥
Among c (d ∷ ds) = (c ≡ d) ⊎ Among c ds

-- One of the addresses has been set up.
unfoldable pub SomeReady : SocketOptions → List Candidate → ℕ → Trace → Type 0
SomeReady o cs fd t = (c : Candidate) × Among c cs × Ready o c fd t
