-- ===== src/SocketDemo/Main/Tests.antt =====
-- `main` of src/socket_demo.cpp at concrete answers of the system.
use lowlatency_cpp.Base.{
  ℕ, ◌≡◌, ◌==◌, refl, true, false, Option, some, none, [], ◌∷◌, done, if◌then◌else◌,
}
use lowlatency_cpp.TcpSocket.Samples.{memory, length-memory}
use lowlatency_cpp.TcpServer.Samples.{
  new_at, new_at-fresh, first_readable, first_readable-IsEpoll, stuck, stuck-IsHonest,
}
use lowlatency_cpp.Logger.Messages.{codes}
use lowlatency_cpp.TcpSocket.Samples.{blank}
use lowlatency_cpp.SocketDemo.Main.{World, Ended, client_message, main}
use lowlatency_cpp.SocketDemo.Main.Connected.{IsTrusted}
use lowlatency_cpp.SocketDemo.Main.Ends.{EndsAs, exit_code, is_served, main_lem}

last_message : client_message 2 ≡ codes "CLIENT-[2] says hello"
unfolding client_message codes
last_message = refl

-- The last client gets no socket.
abbrev one_refused : ℕ → Option ℕ
one_refused i = if i == 2 then none else some 7

abbrev world : (ℕ → Option ℕ) → World
world connected = record {
  log_is_open = true;
  thread_starts = true;
  htons = λ n. n;
  new_at = new_at;
  memory = λ i. memory;
  epfd = some 3;
  created = some 4;
  is_added = true;
  connected = connected;
  epoll_wait = λ t. first_readable;
  pending = λ t. record { client_fd = 9; is_configured = true; is_added = true } ∷ [];
  server_kernel = λ t. stuck;
  client_kernel = λ t i. stuck i (blank none);
}

world-IsTrusted : (connected : ℕ → Option ℕ) → IsTrusted (world connected)
world-IsTrusted connected = record {
  is_fresh = new_at-fresh;
  sized = λ i. length-memory;
  reports = λ t. first_readable-IsEpoll;
  honest_server = λ t. stuck-IsHonest;
  honest_clients = λ t i. stuck-IsHonest i (blank none);
}

all_served : is_served (world (λ i. some 7)) ≡ true
all_served = refl

one_not_served : is_served (world one_refused) ≡ false
one_not_served = refl

no_log_file : main (record (world (λ i. some 7)) { log_is_open = false }) ≡ done none
unfolding main
no_log_file = refl

main_lem_example :
    (r : Option Ended) × (main (world (λ i. some 7)) ≡ done r)
    × EndsAs (exit_code (world (λ i. some 7))) r
main_lem_example = main_lem (world (λ i. some 7)) (world-IsTrusted (λ i. some 7))
