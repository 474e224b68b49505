-- ===== src/SocketUtils/Configured.antt =====
-- A descriptor that `createSocket` (src/socket_utils.cpp) returns has been set up as asked.
use lowlatency_cpp.Base.{
  ℕ, Bool, true, false, not, ◌&&◌, Option, none, some, List, [], ◌∷◌, ◌≡◌, refl, subst,
  if◌then◌else◌, Bool-cases, inl, inr,
}
use Prim.Native.Nat.{bit_or}
use mathlib.Core.Bool.{false≢true}
use lowlatency_cpp.SocketUtils.{
  Text, Interface, Syscall, get_flags, set_flags, setsockopt, socket, connect, bind, listen, Reply,
  ok, failed, Hints, hints, Resolved, addresses, unresolved, Trace, M, Candidate, SocketOptions,
  call, succeeds, on_flags, set_non_blocking, set_no_delay, set_so_timestamp, start_connect,
  if_needed, all_of, set_up, keep_or_close, with_socket, try_candidate, or_else, first_socket,
  tcp_nodelay, so_timestamp, so_reuseaddr, max_tcp_server_backlog, on_resolved, o_nonblock,
  create_socket, get_iface_ip, is_empty, is_ok, has_nonblock,
}
use lowlatency_cpp.SocketUtils.Requirements.{
  In, Extends, Requirement, succeeded, started, non_blocking, Holds, Holds-Extends, required,
  HoldAll, Meets, AllMeet, Ready, SomeReady,
}

module _ (os : Trace → Syscall → Reply) where
  succeeds-ok :
      (c : Syscall) (r : Reply) (t : Trace) → is_ok r ≡ true → Holds (succeeded c) ((c, r) ∷ t)
  succeeds-ok c (ok n) t h = (n, inl refl)
  succeeds-ok c (failed e) t h = cc

  succeeds-Meets : (c : Syscall) → Meets (succeeds os c) (true, succeeded c)
  unfolding succeeds
  succeeds-Meets c = record {
    grows = λ t x h. inr h;
    meets = λ t good needed. succeeds-ok c (os t c) t good;
  }

  start_connect-Meets : (fd addr : ℕ) → Meets (start_connect os fd addr) (true, started fd addr)
  unfolding start_connect
  start_connect-Meets fd addr = record {
    grows = λ t x h. inr h;
    meets = λ t good needed. (os t (connect fd addr), inl refl, good);
  }

  on_flags-Meets :
      (fd : ℕ) (r : Reply) (t : Trace)
      → Extends t (on_flags os fd r t).1
        × ((on_flags os fd r t).0 ≡ true
            → In (get_flags fd, r) t
            → Holds (non_blocking fd) (on_flags os fd r t).1)
  on_flags-Meets fd (failed e) t = (λ x h. h, λ good. cc)
  on_flags-Meets fd (ok flags) t = elim (Bool-cases (has_nonblock flags)) [
    | inl set ↦ rw set (λ x h. h, λ good asked. inl (flags, asked, set))
    | inr unset ↦ rw unset (
        let m = succeeds-Meets (set_flags fd (bit_or flags o_nonblock)) in
        (m.grows t, λ good asked. let (n, h) = m.meets t good refl in inr (flags, n, h)))
  ]

  set_non_blocking-Meets : (fd : ℕ) → Meets (set_non_blocking os fd) (true, non_blocking fd)
  unfolding set_non_blocking
  set_non_blocking-Meets fd = record {
    grows = λ t x h.
        (on_flags-Meets fd (os t (get_flags fd)) ((get_flags fd, os t (get_flags fd)) ∷ t)).0 x
          (inr h);
    meets = λ t good needed.
        (on_flags-Meets fd (os t (get_flags fd)) ((get_flags fd, os t (get_flags fd)) ∷ t)).1 good
          (inl refl);
  }

  if_needed-Meets :
      (b : Bool) (m : M Bool) (q : Requirement)
      → Meets m (true, q)
      → Meets (if_needed os b m) (b, q)
  if_needed-Meets true m q h = h
  if_needed-Meets false m q h = record { grows = λ t x i. i; meets = λ t good needed. cc }

  call_if : (b : Bool) (c : Syscall) → Meets (if_needed os b (succeeds os c)) (b, succeeded c)
  call_if b c = if_needed-Meets b (succeeds os c) (succeeded c) (succeeds-Meets c)

  pub all_of-Extends :
      (ms : List (M Bool)) (qs : List (Bool × Requirement))
      → AllMeet ms qs
      → (t : Trace) → Extends t (all_of os ms t).1
  unfolding all_of
  all_of-Extends [] [] h t x i = i
  all_of-Extends (m ∷ ms) (q ∷ qs) h t x i = elim (Bool-cases (m t).0) [
    | inl good ↦ rw good (all_of-Extends ms qs h.1 (m t).1 x (h.0.grows t x i))
    | inr bad ↦ rw bad (h.0.grows t x i)
  ]
  all_of-Extends [] (q ∷ qs) h t x i = absurd h
  all_of-Extends (m ∷ ms) [] h t x i = absurd h

  all_of-HoldAll :
      (ms : List (M Bool)) (qs : List (Bool × Requirement))
      → AllMeet ms qs
      → (t : Trace) → (all_of os ms t).0 ≡ true
      → HoldAll qs (all_of os ms t).1
  unfolding all_of
  all_of-HoldAll [] [] h t good = tt
  all_of-HoldAll (m ∷ ms) ((b, q) ∷ qs) h t good = elim (Bool-cases (m t).0) [
    | inl here ↦ rw here (
      λ needed.
          Holds-Extends q (m t).1 (all_of os ms (m t).1).1 (all_of-Extends ms qs h.1 (m t).1)
            (h.0.meets t here needed),
      all_of-HoldAll ms qs h.1 (m t).1 (rw here at good),
    )
    | inr bad ↦ absurd (false≢true (rw bad at good))
  ]
  all_of-HoldAll [] (q ∷ qs) h t good = absurd h
  all_of-HoldAll (m ∷ ms) [] h t good = absurd h

  pub set_up-AllMeet :
      (o : SocketOptions) (c : Candidate) (fd : ℕ) → AllMeet (set_up os o c fd) (required o c fd)
  unfolding set_no_delay set_so_timestamp
  set_up-AllMeet o c fd = (
    if_needed-Meets (not o.is_blocking) (set_non_blocking os fd) _ (set_non_blocking-Meets fd),
    (
      call_if (not o.is_udp) (setsockopt fd tcp_nodelay),
      (
        if_needed-Meets (not o.is_listening) (start_connect os fd c.addr) _
            (start_connect-Meets fd c.addr),
        (
          call_if o.is_listening (setsockopt fd so_reuseaddr),
          (
            call_if o.is_listening (bind fd c.addr),
            (
              call_if (o.is_listening && not o.is_udp) (listen fd max_tcp_server_backlog),
              (call_if o.needs_so_timestamp (setsockopt fd so_timestamp), tt),
            ),
          ),
        ),
      ),
    ),
  )

  keep_or_close-some :
      (fd : ℕ) (good : Bool) (t : Trace) (kept : ℕ)
      → (keep_or_close os fd good t).0 ≡ some kept
      → (good ≡ true) × (fd ≡ kept) × (t ≡ (keep_or_close os fd good t).1)
  keep_or_close-some fd true t kept e = (refl, cc, refl)
  keep_or_close-some fd false t kept e = cc

  with_socket-Ready :
      (o : SocketOptions) (c : Candidate) (r : Reply) (t : Trace) (kept : ℕ)
      → In (socket c.family c.kind c.protocol, r) t
      → (with_socket os o c r t).0 ≡ some kept
      → Ready o c kept (with_socket os o c r t).1
  unfolding Ready
  with_socket-Ready o c (failed e) t kept i h = cc
  with_socket-Ready o c (ok fd) t kept i h =
      let (good, same, trace) =
        keep_or_close-some fd (all_of os (set_up os o c fd) t).0 (all_of os (set_up os o c fd) t).1
          kept h in
      subst (Ready o c kept) trace (
        subst (λ n. Ready o c n (all_of os (set_up os o c fd) t).1) same
          (
            all_of-Extends (set_up os o c fd) (required o c fd) (set_up-AllMeet o c fd) t _ i,
            all_of-HoldAll (set_up os o c fd) (required o c fd) (set_up-AllMeet o c fd) t good,
          ))

  pub try_candidate-Ready :
      (o : SocketOptions) (c : Candidate) (t : Trace) (kept : ℕ)
      → (try_candidate os o c t).0 ≡ some kept
      → Ready o c kept (try_candidate os o c t).1
  unfolding try_candidate call
  try_candidate-Ready o c t kept h =
      with_socket-Ready o c (os t (socket c.family c.kind c.protocol)) _ kept (inl refl) h

  or_else-SomeReady :
      (o : SocketOptions) (c : Candidate) (cs : List Candidate) (r : Option ℕ) (t : Trace)
      (kept : ℕ)
      → (r ≡ some kept → Ready o c kept t)
      → ((first_socket os o cs t).0 ≡ some kept → SomeReady o cs kept (first_socket os o cs t).1)
      → (or_else os r (first_socket os o cs) t).0 ≡ some kept
      → SomeReady o (c ∷ cs) kept (or_else os r (first_socket os o cs) t).1
  unfolding SomeReady
  or_else-SomeReady o c cs none t kept here there h =
      let (d, among, ready) = there h in (d, inr among, ready)
  or_else-SomeReady o c cs (some fd) t kept here there h = (c, inl refl, here h)

  first_socket-SomeReady :
      (o : SocketOptions) (cs : List Candidate) (t : Trace) (kept : ℕ)
      → (first_socket os o cs t).0 ≡ some kept
      → SomeReady o cs kept (first_socket os o cs t).1
  unfolding first_socket
  first_socket-SomeReady o [] t kept h = cc
  first_socket-SomeReady o (c ∷ cs) t kept h =
      or_else-SomeReady o c cs (try_candidate os o c t).0 (try_candidate os o c t).1 kept
        (try_candidate-Ready o c t kept)
        (first_socket-SomeReady o cs (try_candidate os o c t).1 kept) h

  on_resolved-SomeReady :
      (o : SocketOptions) (found : Resolved) (t : Trace) (kept : ℕ)
      → (on_resolved os o found t).0 ≡ some kept
      → (cs : List Candidate) × (found ≡ addresses cs)
        × SomeReady o cs kept (on_resolved os o found t).1
  on_resolved-SomeReady o (unresolved reason) t kept h = cc
  on_resolved-SomeReady o (addresses cs) t kept h = (cs, refl, first_socket-SomeReady o cs t kept h)

  -- A descriptor that `createSocket` returns belongs to one of the addresses found, and each step that
  -- the options ask for has succeeded on it: not blocking, no delay, a connection started or address
  -- reuse, bind and listen, time stamps.
  create_socket-SomeReady :
      (interfaces : Option (List Interface)) (getaddrinfo : Text → ℕ → Hints → Resolved)
      (target_ip iface : Text) (port : ℕ) (o : SocketOptions) (t : Trace) (fd : ℕ)
      → (create_socket os interfaces getaddrinfo target_ip iface port o t).0 ≡ some fd
      → (ip : Text) × (cs : List Candidate) × (getaddrinfo ip port (hints o) ≡ addresses cs)
        × SomeReady o cs fd (create_socket os interfaces getaddrinfo target_ip iface port o t).1
  unfolding create_socket
  create_socket-SomeReady interfaces getaddrinfo target_ip iface port o t fd h =
      elim (Bool-cases (is_empty ip)) [
        | inl missing ↦ absurd (none_some fd (rw missing at h))
        | inr present ↦ rw present (
            let (cs, found, ready) =
              on_resolved-SomeReady o (getaddrinfo ip port (hints o)) t fd (rw present at h) in
            (ip, cs, found, ready))
      ]
    where
      ip : Text
      ip = if is_empty target_ip then get_iface_ip interfaces iface else target_ip

      none_some : (n : ℕ) → ¬ (none ≡ some n)
      none_some n e = cc
