-- ===== src/SocketUtils/Tests.antt =====
-- Concrete kernels, and the theorems of `createSocket` at inputs that meet their hypotheses.
use lowlatency_cpp.Base.{
  ℕ, zero, suc, true, false, Option, none, some, List, [], ◌∷◌, ◌++◌, ◌≡◌, refl,
}
use lowlatency_cpp.Kernel.{other}
use lowlatency_cpp.SocketUtils.{
  Text, Interface, Syscall, get_flags, socket, bind, Reply, ok, failed, Hints, hints, Resolved,
  addresses, Trace, Candidate, SocketOptions, create_socket, get_iface_ip, call, succeeds,
  set_non_blocking, set_no_delay, set_so_timestamp, all_of, try_candidate, first_socket, same_text,
}
use lowlatency_cpp.SocketUtils.NoLeak.{open_fds, returned, create_socket-OpensResult}
use lowlatency_cpp.SocketUtils.Answer.{asked_ip, Answered, create_socket-Answered}
use lowlatency_cpp.SocketUtils.Lookup.{FirstAnswer, get_iface_ip-FirstAnswer}

-- A kernel that gives descriptor 5, refuses to bind address 1, and lets all else pass.
os : Trace → Syscall → Reply
os t (socket family kind protocol) = ok 5
os t (bind fd (suc zero)) = failed (other 98)
os t (get_flags fd) = ok 2
os t c = ok 0

abbrev listener : SocketOptions
listener = record {
  is_udp = false;
  is_blocking = false;
  is_listening = true;
  needs_so_timestamp = true;
}

abbrev address : ℕ → Candidate
address n = record { family = 2; kind = 1; protocol = 6; addr = n }

abbrev resolve : Text → ℕ → Hints → Resolved
resolve ip port h = addresses (address 1 ∷ address 2 ∷ [])

abbrev interfaces : List Interface
interfaces =
    record { name = b'e' ∷ []; family = none; numeric = none }
    ∷ record { name = b'l' ∷ b'o' ∷ []; family = some 10; numeric = some (b'6' ∷ []) }
    ∷ record { name = b'l' ∷ b'o' ∷ []; family = some 2; numeric = some (b'4' ∷ []) }
    ∷ []

lo_is_ipv4 : get_iface_ip (some interfaces) (b'l' ∷ b'o' ∷ []) ≡ b'4' ∷ []
unfolding get_iface_ip same_text
lo_is_ipv4 = refl

abbrev made : Option ℕ × Trace
made = create_socket os (some interfaces) resolve [] (b'l' ∷ b'o' ∷ []) 8080 listener []

second_address_is_taken : made.0 ≡ some 5
unfolding create_socket get_iface_ip same_text call succeeds set_non_blocking set_no_delay
    set_so_timestamp all_of try_candidate first_socket os
second_address_is_taken = refl

hints_of_listener :
    hints listener ≡ record { ai_family = 2; ai_socktype = 1; ai_protocol = 6; ai_flags = 1025 }
hints_of_listener = refl

create_socket-OpensResult_example : open_fds made.1 ≡ returned made.0 ++ []
create_socket-OpensResult_example =
    create_socket-OpensResult os (some interfaces) resolve [] (b'l' ∷ b'o' ∷ []) 8080 listener []

create_socket-Answered_example :
    Answered listener
      (asked_ip (some interfaces) [] (b'l' ∷ b'o' ∷ []))
      (resolve (asked_ip (some interfaces) [] (b'l' ∷ b'o' ∷ [])) 8080 (hints listener))
      made.1
      made.0
create_socket-Answered_example =
    create_socket-Answered os listener (some interfaces) resolve [] (b'l' ∷ b'o' ∷ []) 8080

get_iface_ip-FirstAnswer_example :
    FirstAnswer (b'l' ∷ b'o' ∷ []) interfaces (get_iface_ip (some interfaces) (b'l' ∷ b'o' ∷ []))
get_iface_ip-FirstAnswer_example = get_iface_ip-FirstAnswer interfaces (b'l' ∷ b'o' ∷ []) (λ e. cc)
