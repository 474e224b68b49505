-- ===== src/SocketUtils/Answer.antt =====
-- What `createSocket` of src/socket_utils.cpp answers, on every branch.
use lowlatency_cpp.Base.{
  ℕ, Bool, true, false, Option, none, some, List, [], ◌∷◌, ◌++◌, ◌≡◌, refl, inl, inr, ap,
  if◌then◌else◌, Bool-cases, Option-cases,
}
use lowlatency_cpp.SocketUtils.{
  Text, Interface, Syscall, socket, Reply, ok, failed, Hints, hints, Resolved, addresses,
  unresolved, Trace, M, Candidate, SocketOptions, call, all_of, set_up, keep_or_close, with_socket,
  try_candidate, or_else, first_socket, on_resolved, create_socket, get_iface_ip, is_empty,
}
use lowlatency_cpp.SocketUtils.Requirements.{In, Extends, Ready}
use lowlatency_cpp.SocketUtils.Configured.{all_of-Extends, set_up-AllMeet, try_candidate-Ready}
use lowlatency_cpp.SocketUtils.Requirements.{required}
use lowlatency_cpp.SocketUtils.Failures.{Failed, AllFailed, Failed-Extends, set_up-Fails}

-- The descriptor is for the first address that works: those before it were tried and have failed.
-- Without a descriptor all have failed.
pub data Settled (o : SocketOptions) (cs : List Candidate) (t : Trace) : Option ℕ → Type 0 where
  settled_on :
      (before : List Candidate) (c : Candidate) (after : List Candidate) (fd : ℕ)
      → cs ≡ before ++ c ∷ after
      → AllFailed before t
      → Ready o c fd t
      → Settled o cs t (some fd)
  all_failed : AllFailed cs t → Settled o cs t none

Settled-cons :
    (o : SocketOptions) (c : Candidate) (cs : List Candidate) (t : Trace) (r : Option ℕ)
    → Failed c t
    → Settled o cs t r
    → Settled o (c ∷ cs) t r
Settled-cons o c cs t r here (settled_on before d after fd e earlier ready) =
    settled_on (c ∷ before) d after fd (ap (◌∷◌ c) e) (here, earlier) ready
Settled-cons o c cs t r here (all_failed later) = all_failed (here, later)

-- The address that is asked for, or that of the interface.
abbrev pub asked_ip : Option (List Interface) → (target_ip iface : Text) → Text
asked_ip interfaces target_ip iface =
    if is_empty target_ip then get_iface_ip interfaces iface else target_ip

-- The answer, and the calls made.
pub data Answered (o : SocketOptions) (ip : Text) (found : Resolved) (t : Trace)
    : Option ℕ → Type 0 where
  no_ip : is_empty ip ≡ true → Answered o ip found t none
  not_found : (reason : Text) → found ≡ unresolved reason → Answered o ip found t none
  tried :
      (cs : List Candidate) (r : Option ℕ)
      → found ≡ addresses cs
      → Settled o cs t r
      → Answered o ip found t r

module _ (os : Trace → Syscall → Reply) (o : SocketOptions) where
  keep_or_close-Extends :
      (fd : ℕ) (good : Bool) (t : Trace) → Extends t (keep_or_close os fd good t).1
  unfolding call
  keep_or_close-Extends fd true t x h = h
  keep_or_close-Extends fd false t x h = inr h

  with_socket-Extends :
      (c : Candidate) (r : Reply) (t : Trace) → Extends t (with_socket os o c r t).1
  with_socket-Extends c (failed e) t x h = h
  with_socket-Extends c (ok fd) t x h =
      let s = all_of os (set_up os o c fd) t in
      keep_or_close-Extends fd s.0 s.1 x
        (all_of-Extends os (set_up os o c fd) (required o c fd) (set_up-AllMeet os o c fd) t x h)

  or_else-Extends :
      (r : Option ℕ) (m : M (Option ℕ)) (t : Trace)
      → Extends t (m t).1
      → Extends t (or_else os r m t).1
  or_else-Extends none m t more x h = more x h
  or_else-Extends (some fd) m t more x h = h

  first_socket-Extends : (cs : List Candidate) (t : Trace) → Extends t (first_socket os o cs t).1
  unfolding first_socket try_candidate call
  first_socket-Extends [] t x h = h
  first_socket-Extends (c ∷ cs) t x h =
      let r = try_candidate os o c t in
      or_else-Extends r.0 (first_socket os o cs) r.1 (first_socket-Extends cs r.1) x
        (with_socket-Extends c (os t (socket c.family c.kind c.protocol)) _ x (inr h))

  keep_or_close-none :
      (fd : ℕ) (good : Bool) (t : Trace) → (keep_or_close os fd good t).0 ≡ none → good ≡ false
  keep_or_close-none fd true t e = cc
  keep_or_close-none fd false t e = refl

  with_socket-Failed :
      (c : Candidate) (r : Reply) (t : Trace)
      → In (socket c.family c.kind c.protocol, r) t
      → (with_socket os o c r t).0 ≡ none
      → Failed c (with_socket os o c r t).1
  with_socket-Failed c (failed e) t made h = inl (e, made)
  with_socket-Failed c (ok fd) t made h =
      let s = all_of os (set_up os o c fd) t in
      let grown =
        all_of-Extends os (set_up os o c fd) (required o c fd) (set_up-AllMeet os o c fd) t in
      Failed-Extends c s.1 (keep_or_close os fd s.0 s.1).1 (keep_or_close-Extends fd s.0 s.1)
        (inr (fd, grown _ made, set_up-Fails os c fd o t (keep_or_close-none fd s.0 s.1 h)))

  try_candidate-Failed :
      (c : Candidate) (t : Trace)
      → (try_candidate os o c t).0 ≡ none
      → Failed c (try_candidate os o c t).1
  unfolding try_candidate call
  try_candidate-Failed c t h =
      with_socket-Failed c (os t (socket c.family c.kind c.protocol)) _ (inl refl) h

  first_socket-Settled :
      (cs : List Candidate) (t : Trace)
      → Settled o cs (first_socket os o cs t).1 (first_socket os o cs t).0
  unfolding first_socket
  first_socket-Settled [] t = all_failed tt
  first_socket-Settled (c ∷ cs) t = elim (Option-cases (try_candidate os o c t).0) [
    | inl gave_up ↦
        let m = (try_candidate os o c t).1 in
        rw gave_up (
          Settled-cons o c cs (first_socket os o cs m).1 (first_socket os o cs m).0
            (Failed-Extends c m (first_socket os o cs m).1 (first_socket-Extends cs m)
              (try_candidate-Failed c t gave_up))
            (first_socket-Settled cs m))
    | inr (fd, works) ↦
        rw works (settled_on [] c cs fd refl tt (try_candidate-Ready os o c t fd works))
  ]

  on_resolved-Answered :
      (ip : Text) (found : Resolved) (t : Trace)
      → Answered o ip found (on_resolved os o found t).1 (on_resolved os o found t).0
  on_resolved-Answered ip (unresolved reason) t = not_found reason refl
  on_resolved-Answered ip (addresses cs) t =
      tried cs (first_socket os o cs t).0 refl (first_socket-Settled cs t)

  -- `createSocket` returns a descriptor for the first address that works: every step that the options
  -- ask for has succeeded on it, and for each address before it there was no socket or a step has
  -- failed. It returns none only if there is no address to ask for, if that is not found, or if all
  -- the addresses found have failed in this way.
  pub create_socket-Answered :
      (interfaces : Option (List Interface)) (getaddrinfo : Text → ℕ → Hints → Resolved)
      (target_ip iface : Text) (port : ℕ)
      → Answered o
          (asked_ip interfaces target_ip iface)
          (getaddrinfo (asked_ip interfaces target_ip iface) port (hints o))
          (create_socket os interfaces getaddrinfo target_ip iface port o []).1
          (create_socket os interfaces getaddrinfo target_ip iface port o []).0
  unfolding create_socket
  create_socket-Answered interfaces getaddrinfo target_ip iface port =
      let ip = asked_ip interfaces target_ip iface in
      elim (Bool-cases (is_empty ip)) [
        | inl missing ↦ rw missing (no_ip missing)
        | inr present ↦ rw present (on_resolved-Answered ip (getaddrinfo ip port (hints o)) [])
      ]
