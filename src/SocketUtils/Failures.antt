-- ===== src/SocketUtils/Failures.antt =====
-- What a trace of system calls must show for an address that `createSocket` (src/socket_utils.cpp) gives
-- up, and the steps that fail.
use lowlatency_cpp.Base.{
  ℕ, Bool, true, false, not, ◌&&◌, List, [], ◌∷◌, ◌≡◌, ◌⊎◌, refl, sym, inl, inr, ap, ◌==◌,
  Bool-cases, arith,
}
use Prim.Native.Nat.{bit_or}
use mathlib.Core.Bool.{true≢false}
use lowlatency_cpp.Kernel.{Errno, would_block}
use lowlatency_cpp.SocketUtils.{
  Syscall, get_flags, set_flags, setsockopt, socket, connect, bind, listen, Reply, ok, failed,
  Trace, M, Candidate, SocketOptions, succeeds, on_flags, set_non_blocking, set_no_delay,
  set_so_timestamp, start_connect, if_needed, all_of, set_up, is_started, tcp_nodelay, so_timestamp,
  so_reuseaddr, max_tcp_server_backlog, o_nonblock, is_ok, has_nonblock,
}
use lowlatency_cpp.SocketUtils.Requirements.{In, Extends}

-- The call is a step for that address and descriptor, and fails it with that error.
pub fails : Candidate → ℕ → Syscall → Errno → Bool
fails c fd (get_flags f) e = f == fd
fails c fd (set_flags f flags) e = f == fd
fails c fd (setsockopt f option) e = f == fd
fails c fd (connect f addr) e = f == fd && (addr == c.addr && not (would_block e))
fails c fd (bind f addr) e = f == fd && addr == c.addr
fails c fd (listen f backlog) e = f == fd
fails c fd x e = false

-- A step for the address and the descriptor has failed.
abbrev pub StepFailed : Candidate → ℕ → Trace → Type 0
StepFailed c fd t = (x : Syscall) × (e : Errno) × In (x, failed e) t × (fails c fd x e ≡ true)

-- The address was tried, and there was no socket for it, or a step failed for the one that it got.
abbrev pub Failed : Candidate → Trace → Type 0
Failed c t =
    ((e : Errno) × In (socket c.family c.kind c.protocol, failed e) t)
    ⊎ ((fd : ℕ) × In (socket c.family c.kind c.protocol, ok fd) t × StepFailed c fd t)

abbrev pub AllFailed : List Candidate → Trace → Type 0
AllFailed [] t = Unit {0}
AllFailed (c ∷ cs) t = Failed c t × AllFailed cs t

pub Failed-Extends : (c : Candidate) (t t' : Trace) → Extends t t' → Failed c t → Failed c t'
Failed-Extends c t t' more (inl (e, h)) = inl (e, more _ h)
Failed-Extends c t t' more (inr (fd, h, (x, e, i, f))) = inr (fd, more _ h, (x, e, more _ i, f))

-- A step that fails leaves the failed call in the trace.
abbrev pub Fails : Candidate → ℕ → M Bool → Type 0
Fails c fd m = (t : Trace) → (m t).0 ≡ false → StepFailed c fd (m t).1

abbrev AllFail : Candidate → ℕ → List (M Bool) → Type 0
AllFail c fd [] = Unit {0}
AllFail c fd (m ∷ ms) = Fails c fd m × AllFail c fd ms

failed_reply : (r : Reply) → is_ok r ≡ false → (e : Errno) × (r ≡ failed e)
failed_reply (ok n) h = cc
failed_reply (failed e) h = (e, refl)

not_started :
    (r : Reply) → is_started r ≡ false → (e : Errno) × (r ≡ failed e) × (would_block e ≡ false)
not_started (ok n) h = cc
not_started (failed e) h = (e, refl, h)

module _ (os : Trace → Syscall → Reply) (c : Candidate) (fd : ℕ) where
  succeeds-Fails :
      (x : Syscall) → ((e : Errno) → fails c fd x e ≡ true) → Fails c fd (succeeds os x)
  unfolding succeeds
  succeeds-Fails x step t bad =
      let (e, r) = failed_reply (os t x) bad in (x, e, inl (ap (λ r. (x, r)) (sym r)), step e)

  start_connect-Fails : Fails c fd (start_connect os fd c.addr)
  unfolding start_connect fails
  start_connect-Fails t bad =
      let (e, r, hard) = not_started (os t (connect fd c.addr)) bad in
      (connect fd c.addr, e, inl (ap (λ r. (connect fd c.addr, r)) (sym r)), ground (arith, hard))

  on_flags-Fails :
      (r : Reply) (t : Trace)
      → In (get_flags fd, r) t
      → (on_flags os fd r t).0 ≡ false
      → StepFailed c fd (on_flags os fd r t).1
  unfolding fails
  on_flags-Fails (failed e) t asked bad = (get_flags fd, e, asked, ground arith)
  on_flags-Fails (ok flags) t asked bad = elim (Bool-cases (has_nonblock flags)) [
    | inl set ↦ absurd (true≢false (rw set at bad))
    | inr unset ↦ rw unset (
        succeeds-Fails (set_flags fd (bit_or flags o_nonblock)) (λ e. ground arith) t
          (rw unset at bad))
  ]

  set_non_blocking-Fails : Fails c fd (set_non_blocking os fd)
  unfolding set_non_blocking
  set_non_blocking-Fails t bad =
      on_flags-Fails (os t (get_flags fd)) ((get_flags fd, os t (get_flags fd)) ∷ t) (inl refl) bad

  if_needed-Fails : (b : Bool) (m : M Bool) → Fails c fd m → Fails c fd (if_needed os b m)
  if_needed-Fails true m h t bad = h t bad
  if_needed-Fails false m h t bad = absurd (true≢false bad)

  call_if-Fails :
      (b : Bool) (x : Syscall)
      → ((e : Errno) → fails c fd x e ≡ true)
      → Fails c fd (if_needed os b (succeeds os x))
  call_if-Fails b x step = if_needed-Fails b (succeeds os x) (succeeds-Fails x step)

  all_of-Fails : (ms : List (M Bool)) → AllFail c fd ms → Fails c fd (all_of os ms)
  unfolding all_of
  all_of-Fails [] h t bad = absurd (true≢false bad)
  all_of-Fails (m ∷ ms) h t bad = elim (Bool-cases (m t).0) [
    | inl good ↦ rw good (all_of-Fails ms h.1 (m t).1 (rw good at bad))
    | inr here ↦ rw here (h.0 t here)
  ]

  pub set_up-Fails : (o : SocketOptions) → Fails c fd (all_of os (set_up os o c fd))
  unfolding fails set_no_delay set_so_timestamp
  set_up-Fails o = all_of-Fails (set_up os o c fd) (
    if_needed-Fails (not o.is_blocking) (set_non_blocking os fd) set_non_blocking-Fails,
    (
      call_if-Fails (not o.is_udp) (setsockopt fd tcp_nodelay) (λ e. ground arith),
      (
        if_needed-Fails (not o.is_listening) (start_connect os fd c.addr) start_connect-Fails,
        (
          call_if-Fails o.is_listening (setsockopt fd so_reuseaddr) (λ e. ground arith),
          (
            call_if-Fails o.is_listening (bind fd c.addr) (λ e. ground arith),
            (
              call_if-Fails (o.is_listening && not o.is_udp) (listen fd max_tcp_server_backlog)
                  (λ e. ground arith),
              (
                call_if-Fails o.needs_so_timestamp (setsockopt fd so_timestamp) (λ e. ground arith),
                tt,
              ),
            ),
          ),
        ),
      ),
    ),
  )
