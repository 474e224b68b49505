-- ===== src/Logger/Messages.antt =====
-- The messages that the network parts log: src/tcp_socket.cpp, src/socket_utils.cpp,
-- src/tcp_server.cpp and the callbacks of src/socket_demo.cpp, each with its format and its arguments.
use Prim.Native.Char.{code}
use Prim.Native.String.{String}
use lowlatency_cpp.Base.{
  ℕ, ℤ, pos, negsuc, ◌-◌, ◌^◌, ◌≡◌, refl, Option, none, some, List, [], ◌∷◌, ◌++◌, length, Text,
  done,
}
use lowlatency_cpp.TimeUtils.{Nanos}
use lowlatency_cpp.TcpSocket.{
  LogMessage, receive_buffer_full, default_recv, server_recv, demo_server_recv, demo_client_recv,
  demo_reply_refused,
}
use lowlatency_cpp.Logger.{
  integer, long_integer, unsigned_long_integer, LogElement, Value, number, c_string, std_string,
  log_all,
}
use lowlatency_cpp.Logger.Arity.{wants, log-wants}

-- The bytes of an ASCII literal.
unfoldable pub codes : String → Text
codes String.[] = []
codes (String.◌∷◌ c s) = code c ∷ codes s

pub data Message : Type 0 where
  from_socket : LogMessage → Message
  no_address : (iface : Text) → Message
  getaddrinfo_failed : (reason : Text) → Message
  round_finished : Message
  demo_round_complete : Message
  demo_creating_server : (iface : Text) (port : ℕ) → Message
  demo_connecting : (client : ℕ) (ip iface : Text) (port : ℕ) → Message
  demo_sending : (client : ℕ) (message : Text) → Message
  epoll_create_failed : Message
  listener_failed : (iface : Text) (port : ℕ) → Message
  listener_not_added : Message

-- The bits of a descriptor, an `int`; `none` is -1.
abbrev fd_bits : Option ℕ → ℕ
fd_bits none = 2 ^ 32 - 1
fd_bits (some fd) = fd

abbrev int : ℕ → Value
int n = number integer n

-- The bits of an `int64_t`.
abbrev int64_bits : ℤ → ℕ
int64_bits (pos n) = n
int64_bits (negsuc n) = 2 ^ 64 - 1 - n

abbrev long : ℤ → Value
long n = number long_integer (int64_bits n)

-- A call of `log`: its format and its arguments. First those of src/tcp_socket.cpp.
log_default_recv : Option ℕ → ℕ → Nanos → Text × List Value
unfolding codes
log_default_recv fd len rx_time = (
  codes "Default recv callback socket:% len:% rx:%\n",
  int (fd_bits fd) ∷ number unsigned_long_integer len ∷ long rx_time ∷ [],
)

log_receive_buffer_full : ℕ → Text × List Value
unfolding codes
log_receive_buffer_full fd = (codes "Receive buffer full socket:%\n", int fd ∷ [])

-- Those of `createSocket` in src/socket_utils.cpp.
log_no_address : Text → Text × List Value
unfolding codes
log_no_address iface =
    (codes "Could not find IPv4 address for interface:%\n", std_string iface ∷ [])

log_getaddrinfo_failed : Text → Text × List Value
unfolding codes
log_getaddrinfo_failed reason = (codes "getaddrinfo failed:%\n", c_string reason ∷ [])

-- Those of the callbacks that the constructor of `TCPServer` sets, in src/tcp_server.cpp.
log_server_recv : Option ℕ → ℕ → Nanos → Text × List Value
unfolding codes
log_server_recv fd len rx_time = (
  codes "TCPServer recv socket:% len:% rx:%\n",
  int (fd_bits fd) ∷ number unsigned_long_integer len ∷ long rx_time ∷ [],
)

log_round_finished : Text × List Value
unfolding codes
log_round_finished = (codes "TCPServer receive round finished\n", [])

-- Those of `listen` in src/tcp_server.cpp.
log_epoll_create_failed : Text × List Value
unfolding codes
log_epoll_create_failed = (codes "TCPServer epoll_create1 failed\n", [])

log_listener_failed : Text → ℕ → Text × List Value
unfolding codes
log_listener_failed iface port =
    (codes "TCPServer failed to create listener iface:% port:%\n", std_string iface ∷ int port ∷ [])

log_listener_not_added : Text × List Value
unfolding codes
log_listener_not_added = (codes "TCPServer failed to add listener to epoll\n", [])

-- Those of src/socket_demo.cpp.
log_demo_server_recv : Option ℕ → Nanos → Text → Text × List Value
unfolding codes
log_demo_server_recv fd rx_time message = (
  codes "SERVER received socket:% rx:% msg:%\n",
  int (fd_bits fd) ∷ long rx_time ∷ std_string message ∷ [],
)

log_demo_reply_refused : Option ℕ → Text × List Value
unfolding codes
log_demo_reply_refused fd = (codes "SERVER send buffer full socket:%\n", int (fd_bits fd) ∷ [])

log_demo_round_complete : Text × List Value
unfolding codes
log_demo_round_complete = (codes "SERVER receive round complete\n", [])

log_demo_client_recv : Option ℕ → Nanos → Text → Text × List Value
unfolding codes
log_demo_client_recv fd rx_time message = (
  codes "CLIENT received socket:% rx:% msg:%\n",
  int (fd_bits fd) ∷ long rx_time ∷ std_string message ∷ [],
)

log_demo_creating_server : Text → ℕ → Text × List Value
unfolding codes
log_demo_creating_server iface port =
    (codes "Creating TCPServer on iface:% port:%\n", std_string iface ∷ int port ∷ [])

log_demo_connecting : ℕ → Text → Text → ℕ → Text × List Value
unfolding codes
log_demo_connecting client ip iface port = (
  codes "Connecting client:% ip:% iface:% port:%\n",
  number unsigned_long_integer client ∷ std_string ip ∷ std_string iface ∷ int port ∷ [],
)

log_demo_sending : ℕ → Text → Text × List Value
unfolding codes
log_demo_sending client message = (
  codes "Sending client:% msg:%\n",
  number unsigned_long_integer client ∷ std_string message ∷ [],
)

-- The call that a message stands for.
pub call : Message → Text × List Value
unfolding log_default_recv log_receive_buffer_full log_no_address log_getaddrinfo_failed
    log_server_recv log_round_finished log_epoll_create_failed log_listener_failed
    log_listener_not_added log_demo_server_recv log_demo_reply_refused log_demo_round_complete
    log_demo_client_recv log_demo_creating_server log_demo_connecting log_demo_sending
call (from_socket (default_recv fd len rx_time)) = log_default_recv fd len rx_time
call (from_socket (receive_buffer_full fd)) = log_receive_buffer_full fd
call (from_socket (server_recv fd len rx_time)) = log_server_recv fd len rx_time
call (from_socket (demo_server_recv fd rx_time message)) = log_demo_server_recv fd rx_time message
call (from_socket (demo_client_recv fd rx_time message)) = log_demo_client_recv fd rx_time message
call (from_socket (demo_reply_refused fd)) = log_demo_reply_refused fd
call (no_address iface) = log_no_address iface
call (getaddrinfo_failed reason) = log_getaddrinfo_failed reason
call round_finished = log_round_finished
call demo_round_complete = log_demo_round_complete
call (demo_creating_server iface port) = log_demo_creating_server iface port
call (demo_connecting client ip iface port) = log_demo_connecting client ip iface port
call (demo_sending client message) = log_demo_sending client message
call epoll_create_failed = log_epoll_create_failed
call (listener_failed iface port) = log_listener_failed iface port
call listener_not_added = log_listener_not_added

pub calls : List Message → List (Text × List Value)
unfolding call
calls [] = []
calls (m ∷ ms) = call m ∷ calls ms

call-wants : (m : Message) → length (call m).1 ≡ wants (call m).0
unfolding call wants
call-wants (from_socket (default_recv fd len rx_time)) = refl
call-wants (from_socket (receive_buffer_full fd)) = refl
call-wants (no_address iface) = refl
call-wants (getaddrinfo_failed reason) = refl
call-wants (from_socket (server_recv fd len rx_time)) = refl
call-wants (from_socket (demo_server_recv fd rx_time message)) = refl
call-wants (from_socket (demo_client_recv fd rx_time message)) = refl
call-wants (from_socket (demo_reply_refused fd)) = refl
call-wants round_finished = refl
call-wants demo_round_complete = refl
call-wants (demo_creating_server iface port) = refl
call-wants (demo_connecting client ip iface port) = refl
call-wants (demo_sending client message) = refl
call-wants epoll_create_failed = refl
call-wants (listener_failed iface port) = refl
call-wants listener_not_added = refl

-- No sequence of these messages fails an assertion of `log`: every call has as many arguments as its
-- format takes.
pub calls_logged : (ms : List Message) → (es : List LogElement) × (log_all (calls ms) ≡ done es)
unfolding log_all calls
calls_logged [] = ([], refl)
calls_logged (m ∷ ms) =
    let (es, e) = (log-wants (call m).0 (call m).1).1 (call-wants m) in
    let (fs, f) = calls_logged ms in (es ++ fs, rw (e, f))
