-- ===== src/SocketUtils.antt =====
-- src/socket_utils.cpp: the interface lookup, the socket options and `createSocket`.
-- The kernel is a parameter: the reply to a system call, given all calls and replies before it (the
-- last one first), so each run is a trace; the calls of the logger are in it too. What getifaddrs,
-- getnameinfo and getaddrinfo find is a parameter. A text is the list of its bytes.
pub mod Lookup
pub mod NoLeak
pub mod Requirements
pub mod Configured
pub mod Failures
pub mod Answer
mod Tests
use Prim.Native.Nat.{bit_and, bit_or}
use lowlatency_cpp.Base.{
  ℕ, zero, suc, Bool, true, false, not, ◌&&◌, ◌||◌, Option, none, some, List, [], ◌∷◌, ◌==◌,
  if◌then◌else◌,
}
pub use lowlatency_cpp.Base.{Text}
use lowlatency_cpp.Kernel.{Errno, would_block}
use lowlatency_cpp.Logger.Messages.{Message, no_address, getaddrinfo_failed}

abbrev pub is_empty : Text → Bool
is_empty [] = true
is_empty (c ∷ cs) = false

pub same_text : Text → Text → Bool
same_text [] [] = true
same_text [] (d ∷ ds) = false
same_text (c ∷ cs) [] = false
same_text (c ∷ cs) (d ∷ ds) = c == d && same_text cs ds

-- `ifaddrs`: an entry with no address has `family` `none`. AF_INET is 2.
pub record Interface : Type 0 where
  pub name : Text
  pub family : Option ℕ
  pub numeric : Option Text

abbrev pub is_ipv4 : Option ℕ → Bool
is_ipv4 none = false
is_ipv4 (some family) = family == 2

abbrev text_or_empty : Option Text → Text
text_or_empty none = []
text_or_empty (some t) = t

-- The loop of `getIfaceIP`; `numeric` is what getnameinfo gives for the entry, `none` if it fails.
pub find_interface : Text → List Interface → Text
find_interface iface [] = []
find_interface iface (i ∷ is) =
    if is_ipv4 i.family && same_text iface i.name
    then text_or_empty i.numeric
    else find_interface iface is

abbrev search_interfaces : Text → Option (List Interface) → Text
search_interfaces iface none = []
search_interfaces iface (some is) = find_interface iface is

-- `getIfaceIP`, given what getifaddrs returns.
pub get_iface_ip : Option (List Interface) → Text → Text
unfolding find_interface
get_iface_ip found iface = if is_empty iface then [] else search_interfaces iface found

pub data SockOption : Type 0 where
  tcp_nodelay so_timestamp so_reuseaddr : SockOption

pub data Syscall : Type 0 where
  get_flags : ℕ → Syscall
  set_flags : ℕ → ℕ → Syscall
  setsockopt : ℕ → SockOption → Syscall
  socket : (family kind protocol : ℕ) → Syscall
  connect : ℕ → ℕ → Syscall
  bind : ℕ → ℕ → Syscall
  listen : ℕ → ℕ → Syscall
  close : ℕ → Syscall
  write_log : Message → Syscall

pub data Reply : Type 0 where
  ok : ℕ → Reply
  failed : Errno → Reply

abbrev pub Trace : Type 0
Trace = List (Syscall × Reply)

-- A computation that makes system calls.
abbrev pub M : Type 0 → Type 0
M A = Trace → A × Trace

abbrev pub pure : {A : Type 0} → A → M A
pure a t = (a, t)

infixl 5 ◌>>=◌
abbrev pub ◌>>=◌ : {A B : Type 0} → M A → (A → M B) → M B
◌>>=◌ m f t = f (m t).0 (m t).1

-- An address that `getaddrinfo` finds; `addr` stands for `ai_addr` with its length.
pub record Candidate : Type 0 where
  pub family : ℕ
  pub kind : ℕ
  pub protocol : ℕ
  pub addr : ℕ

-- What `getaddrinfo` returns: the addresses, or the text of its error.
pub data Resolved : Type 0 where
  addresses : List Candidate → Resolved
  unresolved : Text → Resolved

pub record SocketOptions : Type 0 where
  pub is_udp : Bool
  pub is_blocking : Bool
  pub is_listening : Bool
  pub needs_so_timestamp : Bool

-- The `hints` for `getaddrinfo`, with the constants of Linux.
pub record Hints : Type 0 where
  pub ai_family : ℕ
  pub ai_socktype : ℕ
  pub ai_protocol : ℕ
  pub ai_flags : ℕ

-- AF_INET; SOCK_DGRAM or SOCK_STREAM; IPPROTO_UDP or IPPROTO_TCP; AI_PASSIVE, AI_NUMERICSERV.
abbrev pub hints : SocketOptions → Hints
hints o = record {
  ai_family = 2;
  ai_socktype = if o.is_udp then 2 else 1;
  ai_protocol = if o.is_udp then 17 else 6;
  ai_flags = bit_or (if o.is_listening then 1 else 0) 0x400;
}

abbrev pub max_tcp_server_backlog : ℕ
max_tcp_server_backlog = 1024

-- O_NONBLOCK on Linux, and the tests on it.
abbrev pub o_nonblock : ℕ
o_nonblock = 0o4000

abbrev pub has_nonblock : ℕ → Bool
has_nonblock flags = not (bit_and flags o_nonblock == 0)

abbrev pub is_ok : Reply → Bool
is_ok (ok n) = true
is_ok (failed e) = false

-- A started connection: `connect` succeeded, or will be told later.
abbrev pub is_started : Reply → Bool
is_started (ok n) = true
is_started (failed e) = would_block e

module _ (os : Trace → Syscall → Reply) where
  pub call : Syscall → M Reply
  call c t = (os t c, (c, os t c) ∷ t)

  pub succeeds : Syscall → M Bool
  unfolding call
  succeeds c = call c >>= λ r. pure (is_ok r)

  abbrev pub on_flags : ℕ → Reply → M Bool
  on_flags fd (failed e) = pure false
  on_flags fd (ok flags) =
      if has_nonblock flags then pure true else succeeds (set_flags fd (bit_or flags o_nonblock))

  pub set_non_blocking : ℕ → M Bool
  unfolding call succeeds
  set_non_blocking fd = call (get_flags fd) >>= on_flags fd

  pub set_no_delay : ℕ → M Bool
  unfolding succeeds
  set_no_delay fd = succeeds (setsockopt fd tcp_nodelay)

  pub set_so_timestamp : ℕ → M Bool
  unfolding succeeds
  set_so_timestamp fd = succeeds (setsockopt fd so_timestamp)

  pub start_connect : ℕ → ℕ → M Bool
  unfolding call
  start_connect fd addr = call (connect fd addr) >>= λ r. pure (is_started r)

  -- A step that is made only if it is needed.
  abbrev pub if_needed : Bool → M Bool → M Bool
  if_needed true m = m
  if_needed false m = pure true

  -- The steps in order, up to the first that fails.
  pub all_of : List (M Bool) → M Bool
  all_of [] = pure true
  all_of (m ∷ ms) = m >>= λ good. if good then all_of ms else pure false

  -- The steps of the loop's body after `socket`. Each that fails closes the descriptor and goes on
  -- with the next candidate.
  abbrev pub set_up : SocketOptions → Candidate → ℕ → List (M Bool)
  set_up o c fd =
      if_needed (not o.is_blocking) (set_non_blocking fd)
      ∷ if_needed (not o.is_udp) (set_no_delay fd)
      ∷ if_needed (not o.is_listening) (start_connect fd c.addr)
      ∷ if_needed o.is_listening (succeeds (setsockopt fd so_reuseaddr))
      ∷ if_needed o.is_listening (succeeds (bind fd c.addr))
      ∷ if_needed (o.is_listening && not o.is_udp) (succeeds (listen fd max_tcp_server_backlog))
      ∷ if_needed o.needs_so_timestamp (set_so_timestamp fd)
      ∷ []

  abbrev pub keep_or_close : ℕ → Bool → M (Option ℕ)
  keep_or_close fd true = pure (some fd)
  keep_or_close fd false = call (close fd) >>= λ r. pure none

  abbrev pub with_socket : SocketOptions → Candidate → Reply → M (Option ℕ)
  with_socket o c (failed e) = pure none
  with_socket o c (ok fd) = all_of (set_up o c fd) >>= keep_or_close fd

  -- One round of the loop: the descriptor, if every step succeeded.
  pub try_candidate : SocketOptions → Candidate → M (Option ℕ)
  try_candidate o c = call (socket c.family c.kind c.protocol) >>= with_socket o c

  abbrev pub or_else : Option ℕ → M (Option ℕ) → M (Option ℕ)
  or_else none m = m
  or_else (some fd) m = pure (some fd)

  -- The loop over the addresses.
  pub first_socket : SocketOptions → List Candidate → M (Option ℕ)
  unfolding try_candidate
  first_socket o [] = pure none
  first_socket o (c ∷ cs) =
      let rest = first_socket o cs in try_candidate o c >>= λ r. or_else r rest

  abbrev pub log_failure : Message → M (Option ℕ)
  log_failure m = call (write_log m) >>= λ r. pure none

  abbrev on_resolved : SocketOptions → Resolved → M (Option ℕ)
  on_resolved o (unresolved reason) = log_failure (getaddrinfo_failed reason)
  on_resolved o (addresses cs) = first_socket o cs

  -- `createSocket`. `interfaces` is what getifaddrs returns, and `getaddrinfo` what that call returns
  -- for the address, the port and the hints.
  pub create_socket :
      Option (List Interface)
      → (Text → ℕ → Hints → Resolved)
      → (target_ip iface : Text) (port : ℕ) → SocketOptions
      → M (Option ℕ)
  unfolding get_iface_ip first_socket call
  create_socket interfaces getaddrinfo target_ip iface port o =
      let ip = if is_empty target_ip then get_iface_ip interfaces iface else target_ip in
      if is_empty ip
      then log_failure (no_address iface)
      else on_resolved o (getaddrinfo ip port (hints o))
