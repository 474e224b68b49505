-- ===== src/SocketUtils/NoLeak.antt =====
-- `createSocket` (src/socket_utils.cpp) leaves no descriptor open but the one that it returns.
use lowlatency_cpp.Base.{
  ℕ, Bool, true, false, not, ◌&&◌, Option, none, some, List, [], ◌∷◌, ◌++◌, ◌==◌, ◌≡◌, refl, ap,
  ◌∙◌, if◌then◌else◌, ==_refl, Bool-cases, inl, inr,
}
use lowlatency_cpp.SocketUtils.{
  Text, Interface, Syscall, get_flags, set_flags, setsockopt, socket, bind, listen, close, Reply,
  ok, failed, Hints, hints, Resolved, addresses, unresolved, Trace, M, Candidate, SocketOptions,
  call, succeeds, on_flags, set_non_blocking, set_no_delay, set_so_timestamp, start_connect,
  if_needed, all_of, set_up, keep_or_close, with_socket, try_candidate, or_else, first_socket,
  tcp_nodelay, so_timestamp, so_reuseaddr, max_tcp_server_backlog, on_resolved, create_socket,
  get_iface_ip, is_empty, has_nonblock,
}

pub remove : ℕ → List ℕ → List ℕ
remove fd [] = []
remove fd (x ∷ xs) = if fd == x then xs else x ∷ remove fd xs

abbrev pub after : Syscall → Reply → List ℕ → List ℕ
after (socket family kind protocol) (ok fd) fds = fd ∷ fds
after (close fd) r fds = remove fd fds
after _ _ fds = fds

-- The descriptors that a trace has opened and not closed.
abbrev pub open_fds : Trace → List ℕ
open_fds [] = []
open_fds ((c, r) ∷ t) = after c r (open_fds t)

-- Opens and closes nothing.
abbrev IsQuiet : {A : Type 0} → M A → Type 0
IsQuiet m = (t : Trace) → open_fds (m t).1 ≡ open_fds t

abbrev pub returned : Option ℕ → List ℕ
returned none = []
returned (some fd) = fd ∷ []

-- Opens what it returns, and nothing else.
abbrev pub OpensResult : M (Option ℕ) → Type 0
OpensResult m = (t : Trace) → open_fds (m t).1 ≡ returned (m t).0 ++ open_fds t

abbrev AllQuiet : List (M Bool) → Type 0
AllQuiet [] = Unit {0}
AllQuiet (m ∷ ms) = IsQuiet m × AllQuiet ms

module _ (os : Trace → Syscall → Reply) where
  succeeds-IsQuiet :
      (c : Syscall) → ((r : Reply) (fds : List ℕ) → after c r fds ≡ fds) → IsQuiet (succeeds os c)
  unfolding succeeds
  succeeds-IsQuiet c h t = h (os t c) (open_fds t)

  on_flags-IsQuiet : (fd : ℕ) (r : Reply) → IsQuiet (on_flags os fd r)
  on_flags-IsQuiet fd (failed e) t = refl
  on_flags-IsQuiet fd (ok flags) t = elim (Bool-cases (has_nonblock flags)) [
    | inl set ↦ rw set
    | inr unset ↦ rw unset (succeeds-IsQuiet (set_flags fd _) (λ r fds. refl) t)
  ]

  set_non_blocking-IsQuiet : (fd : ℕ) → IsQuiet (set_non_blocking os fd)
  unfolding set_non_blocking
  set_non_blocking-IsQuiet fd t =
      on_flags-IsQuiet fd (os t (get_flags fd)) ((get_flags fd, os t (get_flags fd)) ∷ t)

  start_connect-IsQuiet : (fd addr : ℕ) → IsQuiet (start_connect os fd addr)
  unfolding start_connect
  start_connect-IsQuiet fd addr t = refl

  if_needed-IsQuiet : (b : Bool) (m : M Bool) → IsQuiet m → IsQuiet (if_needed os b m)
  if_needed-IsQuiet true m q t = q t
  if_needed-IsQuiet false m q t = refl

  only_if :
      (b : Bool) (c : Syscall)
      → ((r : Reply) (fds : List ℕ) → after c r fds ≡ fds)
      → IsQuiet (if_needed os b (succeeds os c))
  only_if b c h = if_needed-IsQuiet b (succeeds os c) (succeeds-IsQuiet c h)

  all_of-IsQuiet : (ms : List (M Bool)) → AllQuiet ms → IsQuiet (all_of os ms)
  unfolding all_of
  all_of-IsQuiet [] q t = refl
  all_of-IsQuiet (m ∷ ms) q t = elim (Bool-cases (m t).0) [
    | inl good ↦ rw good (all_of-IsQuiet ms q.1 (m t).1 ∙ q.0 t)
    | inr bad ↦ rw bad (q.0 t)
  ]

  set_up-AllQuiet : (o : SocketOptions) (c : Candidate) (fd : ℕ) → AllQuiet (set_up os o c fd)
  unfolding set_no_delay set_so_timestamp
  set_up-AllQuiet o c fd = (
    if_needed-IsQuiet (not o.is_blocking) (set_non_blocking os fd) (set_non_blocking-IsQuiet fd),
    (
      only_if (not o.is_udp) (setsockopt fd tcp_nodelay) (λ r fds. refl),
      (
        if_needed-IsQuiet (not o.is_listening) (start_connect os fd c.addr)
            (start_connect-IsQuiet fd c.addr),
        (
          only_if o.is_listening (setsockopt fd so_reuseaddr) (λ r fds. refl),
          (
            only_if o.is_listening (bind fd c.addr) (λ r fds. refl),
            (
              only_if (o.is_listening && not o.is_udp) (listen fd max_tcp_server_backlog)
                  (λ r fds. refl),
              (only_if o.needs_so_timestamp (setsockopt fd so_timestamp) (λ r fds. refl), tt),
            ),
          ),
        ),
      ),
    ),
  )

  keep_or_close-opens :
      (fd : ℕ) (good : Bool) (t : Trace) (fds : List ℕ)
      → open_fds t ≡ fd ∷ fds
      → open_fds (keep_or_close os fd good t).1 ≡ returned (keep_or_close os fd good t).0 ++ fds
  unfolding call remove
  keep_or_close-opens fd true t fds e = e
  keep_or_close-opens fd false t fds e = rw (e, ==_refl fd)

  with_socket-opens :
      (o : SocketOptions) (c : Candidate) (r : Reply) (t : Trace)
      → let t' = (socket c.family c.kind c.protocol, r) ∷ t in
        open_fds (with_socket os o c r t').1 ≡ returned (with_socket os o c r t').0 ++ open_fds t
  with_socket-opens o c (failed e) t = refl
  with_socket-opens o c (ok fd) t =
      let t' : Trace = (socket c.family c.kind c.protocol, ok fd) ∷ t in
      keep_or_close-opens fd _ (all_of os (set_up os o c fd) t').1 (open_fds t)
        (all_of-IsQuiet (set_up os o c fd) (set_up-AllQuiet o c fd) t')

  try_candidate-OpensResult :
      (o : SocketOptions) (c : Candidate) → OpensResult (try_candidate os o c)
  unfolding try_candidate call
  try_candidate-OpensResult o c t =
      with_socket-opens o c (os t (socket c.family c.kind c.protocol)) t

  or_else-opens :
      (r : Option ℕ) (m : M (Option ℕ)) (t t' : Trace)
      → OpensResult m
      → open_fds t' ≡ returned r ++ open_fds t
      → open_fds (or_else os r m t').1 ≡ returned (or_else os r m t').0 ++ open_fds t
  or_else-opens none m t t' h e = h t' ∙ ap (◌++◌ (returned (m t').0)) e
  or_else-opens (some fd) m t t' h e = e

  first_socket-OpensResult :
      (o : SocketOptions) (cs : List Candidate) → OpensResult (first_socket os o cs)
  unfolding first_socket
  first_socket-OpensResult o [] t = refl
  first_socket-OpensResult o (c ∷ cs) t =
      or_else-opens (try_candidate os o c t).0 (first_socket os o cs) t (try_candidate os o c t).1
        (first_socket-OpensResult o cs) (try_candidate-OpensResult o c t)

  on_resolved-OpensResult :
      (o : SocketOptions) (found : Resolved) → OpensResult (on_resolved os o found)
  unfolding call
  on_resolved-OpensResult o (unresolved reason) t = refl
  on_resolved-OpensResult o (addresses cs) t = first_socket-OpensResult o cs t

  -- Whatever the kernel replies, and whichever steps fail for which addresses, the descriptors open
  -- after `createSocket` are those open before it and the one that it returns.
  pub create_socket-OpensResult :
      (interfaces : Option (List Interface)) (getaddrinfo : Text → ℕ → Hints → Resolved)
      (target_ip iface : Text) (port : ℕ) (o : SocketOptions)
      → OpensResult (create_socket os interfaces getaddrinfo target_ip iface port o)
  unfolding create_socket call
  create_socket-OpensResult interfaces getaddrinfo target_ip iface port o t =
      elim (Bool-cases (is_empty ip)) [
        | inl missing ↦ rw missing
        | inr present ↦ rw present (on_resolved-OpensResult o (getaddrinfo ip port (hints o)) t)
      ]
    where
      ip : Text
      ip = if is_empty target_ip then get_iface_ip interfaces iface else target_ip
