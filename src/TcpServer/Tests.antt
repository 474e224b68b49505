-- ===== src/TcpServer/Tests.antt =====
-- Concrete servers, and the theorems at inputs that meet their hypotheses.
use lowlatency_cpp.Base.{
  ℕ, ◌≡◌, inl, refl, Bool, true, false, List, [], ◌∷◌, arith, some, none, done,
}
use lowlatency_cpp.Kernel.{eagain, other}
use lowlatency_cpp.TcpSocket
use lowlatency_cpp.TcpSocket.{
  TcpSocket, tcp_buffer_size, Kernel, Callback, recv_error, send_error, no_addr,
}
use lowlatency_cpp.TcpSocket.Receive.{IsHonest, Keeps}
use lowlatency_cpp.TcpSocket.Samples.{blank, blank-IsValid}
use lowlatency_cpp.TcpServer.{
  TcpServer, create, when, drop_disconnected, destroy, listen, send_and_recv,
  default_finished_callback,
}
use lowlatency_cpp.TcpServer.Polling.{Accepted, poll}
use lowlatency_cpp.SocketHeap.{lookup, erase, store, has, add_unique, listener}
use lowlatency_cpp.TcpServer.Valid.{Live, AllLive, IsValid}
use lowlatency_cpp.TcpServer.Destroy.{destroy-IsValid, create-IsValid}
use lowlatency_cpp.TcpServer.Accept.{take_socket, take_socket-IsValid}
use lowlatency_cpp.TcpServer.Events.{marked-IsValid}
use lowlatency_cpp.TcpServer.Poll.{poll-PolledAt, PolledAt, after_deletions}
use lowlatency_cpp.TcpServer.Listen.{Listened, listen-Listened}
use lowlatency_cpp.TcpServer.Samples.{
  new_at, new_at-fresh, first_readable, first_readable-IsEpoll, stuck, stuck-IsHonest,
}
use lowlatency_cpp.TcpServer.Clients.{all_in}
use lowlatency_cpp.TcpServer.Attended.{attended}
use lowlatency_cpp.TcpServer.Lifetime.{
  Operation, to_listen, to_poll, to_send_and_recv, to_destroy, run, lifetime,
}
use lowlatency_cpp.TcpServer.Broken.{Drops, broken_deleted}
use lowlatency_cpp.TcpServer.Rounds.{send_and_recv-Round, Round}

abbrev new_socket : TcpSocket
new_socket = blank none

-- A server that listens.
abbrev listening : TcpServer
listening = record (create new_socket) { efd = some 3 }

listening-IsValid : IsValid listening
listening-IsValid = create-IsValid new_socket (some 3) (blank-IsValid none)

abbrev client : Accepted
client = record { client_fd = 9; is_configured = true; is_added = true }

-- It has accepted a client, whose connection has broken.
abbrev broken : TcpServer
broken =
    let s = take_socket new_socket listening (new_at listening.heap) client in
    record s { disconnected_sockets = when true s.disconnected_sockets (new_at listening.heap) }

taken-IsValid : IsValid (take_socket new_socket listening (new_at listening.heap) client)
taken-IsValid =
    take_socket-IsValid new_at new_socket new_at-fresh (blank-IsValid none) listening client
      listening-IsValid

broken-IsValid : IsValid broken
unfolding Live AllLive has add_unique create new_at
broken-IsValid =
    let s = take_socket new_socket listening (new_at listening.heap) client in
    marked-IsValid s true (new_at listening.heap) taken-IsValid
      (taken-IsValid.sockets_live (new_at listening.heap) refl)

consume_all : ℕ → Callback
consume_all p x time = record x { next_rcv_valid_index = 0 }

consume_all-Keeps : (p : ℕ) → Keeps (consume_all p)
unfolding consume_all
consume_all-Keeps p x time v = record {
  send_size = v.send_size;
  send_in = v.send_in;
  rcv_size = v.rcv_size;
  rcv_in = omega arith;
}

poll-PolledAt_example :
    (t : TcpServer) × (poll new_at new_socket first_readable broken (client ∷ []) ≡ done t)
    × IsValid t
    × ((q : ℕ) → PolledAt (after_deletions (some 3) broken q) t q)
poll-PolledAt_example =
    poll-PolledAt new_at new_socket new_at-fresh (blank-IsValid none) first_readable broken
      (client ∷ []) first_readable-IsEpoll broken-IsValid

send_and_recv-Round_example :
    (t : Bool × TcpServer) × (send_and_recv stuck consume_all default_finished_callback broken
      ≡ done t)
    × Round stuck consume_all (some 3) broken t
send_and_recv-Round_example =
    send_and_recv-Round stuck consume_all stuck-IsHonest consume_all-Keeps default_finished_callback
      broken broken-IsValid

destroy-IsValid_example :
    (t : TcpServer) × (destroy broken ≡ done t)
    × IsValid t
    × ((q : ℕ) → Live t.heap q → q ≡ listener)
    × (t.efd ≡ none)
destroy-IsValid_example = destroy-IsValid broken broken-IsValid

-- A port on a machine whose byte order is the network's.
abbrev same_order : ℕ → ℕ
same_order n = n

listen-Listened_example :
    (r : Bool × TcpServer) × (listen same_order broken (some 4) (some 5) [] 8080 true ≡ done r)
    × Listened (some 4) (some 5) true r
listen-Listened_example =
    listen-Listened same_order broken (some 4) (some 5) [] 8080 true broken-IsValid

-- A listening server with one client, whose connection breaks in the next round.
abbrev serving : TcpServer
serving = take_socket new_socket listening (new_at listening.heap) client

reset : ℕ → TcpSocket → Kernel
reset p x = record {
  recvmsg = λ room. recv_error (other 104);
  msg_name = λ a. a;
  send_some = λ total offered. send_error eagain;
}

reset-IsHonest : (p : ℕ) (x : TcpSocket) → IsHonest (reset p x)
unfolding reset
reset-IsHonest p x = record {
  takes = λ total offered n e. ground arith;
  gives = λ room bs cs e. ground arith;
  stamps = λ room bs cs e. ground arith;
}

abbrev hung_up : TcpSocket
hung_up = record new_socket { fd = some 9; recv_disconnected = true }

abbrev served : TcpServer
served = record serving { heap = store serving.heap 2 hung_up; disconnected_sockets = 2 ∷ [] }

serving-served :
    send_and_recv reset consume_all default_finished_callback serving ≡ done (false, served)
unfolding send_and_recv new_at create has add_unique erase reset TcpSocket.send_and_recv
serving-served = refl

abbrev cleaned : TcpServer
cleaned = record listening { heap = (listener, new_socket) ∷ [] }

served-cleaned : drop_disconnected served ≡ done cleaned
unfolding drop_disconnected new_at create has add_unique erase
served-cleaned = refl

broken_deleted_example : Drops new_at new_socket first_readable served (client ∷ []) 2
unfolding new_at create has add_unique lookup
broken_deleted_example =
    broken_deleted new_at new_socket new_at-fresh (blank-IsValid none) reset consume_all
      default_finished_callback first_readable serving (false, served) (client ∷ []) 3 2 hung_up
      reset-IsHonest consume_all-Keeps first_readable-IsEpoll taken-IsValid refl (inl refl)
      (omega arith) (omega arith) serving-served refl (inl refl)

-- It listens, accepts a client, serves it, and is destroyed and used again.
abbrev operations : List Operation
operations =
    to_listen (some 3) (some 4) [] 8080 true
    ∷ to_poll first_readable (client ∷ [])
    ∷ to_send_and_recv reset
    ∷ to_poll first_readable []
    ∷ to_destroy
    ∷ to_listen (some 3) none [] 8080 true
    ∷ []

lifetime_example :
    (t u : TcpServer) × (run same_order new_at new_socket consume_all default_finished_callback
        operations
        (create new_socket)
      ≡ done t)
    × (destroy t ≡ done u)
    × ((q : ℕ) → Live u.heap q → q ≡ listener)
lifetime_example =
    lifetime same_order new_at new_socket consume_all default_finished_callback new_at-fresh
      (blank-IsValid none) consume_all-Keeps operations new_socket
      (first_readable-IsEpoll, (reset-IsHonest, (first_readable-IsEpoll, tt))) (blank-IsValid none)

attended_example :
    (t : TcpServer) × (run same_order new_at new_socket consume_all default_finished_callback
        operations
        (create new_socket)
      ≡ done t)
    × (all_in t.sockets t.receive_sockets ≡ true)
attended_example =
    attended same_order new_at new_socket consume_all default_finished_callback new_at-fresh
      (blank-IsValid none) consume_all-Keeps operations new_socket
      (first_readable-IsEpoll, (reset-IsHonest, (first_readable-IsEpoll, tt))) (blank-IsValid none)
