-- ===== src/TcpSocket.antt =====
-- include/tcp_socket.hpp and src/tcp_socket.cpp: one TCP socket with its two fixed buffers.
-- The kernel is a parameter: what `recvmsg` returns for the room offered, and what `send` returns
-- for the bytes offered once `total_sent` of the queue are gone.
pub mod Buffer
pub mod Send
pub mod SendLoop
pub mod Flush
pub mod Receive
pub mod Replies
pub mod Turn
pub mod Stream
pub mod Samples
mod Tests
use mathlib.Core.Option
use lowlatency_cpp.Base.{
  ℕ, zero, suc, ◌+◌, ◌-◌, ◌*◌, Bool, true, false, not, ◌||◌, ◌&&◌, ℤ, pos, scale, ◌+ℤ◌, is_int64,
  Option, none, some, List, [], ◌∷◌, ◌++◌, length, take, drop, replicate, ltb, leb, ◌==◌,
  if◌then◌else◌,
}
use lowlatency_cpp.TimeUtils.{Nanos, nanos_to_micros, nanos_to_secs}
use lowlatency_cpp.Kernel.{Errno, would_block}

abbrev pub tcp_buffer_size : ℕ
tcp_buffer_size = 64 * 1024

-- `sockaddr_in`.
pub record SockAddr : Type 0 where
  pub family : ℕ
  pub port : ℕ
  pub addr : ℕ

abbrev pub no_addr : SockAddr
no_addr = record { family = 0; port = 0; addr = 0 }

-- A control message: the one with SOL_SOCKET and SCM_TIMESTAMP holds a `timeval`.
pub data Cmsg : Type 0 where
  scm_timestamp : (tv_sec tv_usec : ℤ) → Cmsg
  other_cmsg : Cmsg

-- What `recvmsg` returns: the bytes (their number is `received`) and the control messages, or -1.
pub data RecvReply : Type 0 where
  bytes : List ℕ → List Cmsg → RecvReply
  recv_error : Errno → RecvReply

pub data SendReply : Type 0 where
  sent : ℕ → SendReply
  send_error : Errno → SendReply

-- The messages of a socket, and of the callbacks in src/tcp_server.cpp and src/socket_demo.cpp.
pub data LogMessage : Type 0 where
  receive_buffer_full : ℕ → LogMessage
  default_recv : Option ℕ → ℕ → Nanos → LogMessage
  server_recv : Option ℕ → ℕ → Nanos → LogMessage
  demo_server_recv demo_client_recv : Option ℕ → Nanos → List ℕ → LogMessage
  demo_reply_refused : Option ℕ → LogMessage

-- `fd` is `none` for -1. `logged` are the messages given to the logger, the last one first.
pub record TcpSocket : Type 0 where
  pub fd : Option ℕ
  pub send_buffer : List ℕ
  pub next_send_valid_index : ℕ
  pub rcv_buffer : List ℕ
  pub next_rcv_valid_index : ℕ
  pub send_disconnected : Bool
  pub recv_disconnected : Bool
  pub in_addr : SockAddr
  pub logged : List LogMessage

-- `recv_callback_`, which may change the socket.
abbrev pub Callback : Type 0
Callback = TcpSocket → Nanos → TcpSocket

-- `msg_name` is what `recvmsg` makes of the socket's address, which it may write.
pub record Kernel : Type 0 where
  pub recvmsg : ℕ → RecvReply
  pub msg_name : SockAddr → SockAddr
  pub send_some : ℕ → List ℕ → SendReply

-- `memcpy(buffer + offset, data, length)`. A copy that does not fit makes the list longer.
abbrev pub copy_to : List ℕ → ℕ → List ℕ → List ℕ
copy_to buffer offset chunk = take offset buffer ++ (chunk ++ drop (offset + length chunk) buffer)

-- The constructor, with what the two new buffers happen to hold.
pub create : List ℕ → List ℕ → TcpSocket
create send_memory rcv_memory = record {
  fd = none;
  send_buffer = send_memory;
  next_send_valid_index = 0;
  rcv_buffer = rcv_memory;
  next_rcv_valid_index = 0;
  send_disconnected = false;
  recv_disconnected = false;
  in_addr = no_addr;
  logged = [];
}

-- The callback that the constructor sets.
pub default_callback : Callback
default_callback s rx_time = record s {
  logged = default_recv s.fd s.next_rcv_valid_index rx_time ∷ s.logged;
  next_rcv_valid_index = 0;
}

-- `destroy`, with the descriptors that it closes.
unfoldable pub destroy : TcpSocket → TcpSocket × Option ℕ
destroy s = (
  record s {
    fd = none;
    next_send_valid_index = 0;
    next_rcv_valid_index = 0;
    send_disconnected = false;
    recv_disconnected = false;
    in_addr = no_addr;
  },
  s.fd,
)

-- `connect`; `created` is what `createSocket` returns, and `AF_INET` is 2, `INADDR_ANY` 0.
unfoldable pub connect : (htons : ℕ → ℕ) → TcpSocket → Option ℕ → ℕ → TcpSocket × Option ℕ
unfolding destroy
connect htons s created port = (
  record (destroy s).0 {
    fd = created;
    in_addr = record { family = 2; port = htons port; addr = 0 };
  },
  created,
)

append_to_send : TcpSocket → Option (List ℕ) → ℕ → Bool × TcpSocket
append_to_send s none len = (false, s)
append_to_send s (some d) len =
    if ltb tcp_buffer_size s.next_send_valid_index
      || ltb (tcp_buffer_size - s.next_send_valid_index) len
    then (false, s)
    else (
      true,
      record s {
        send_buffer = copy_to s.send_buffer s.next_send_valid_index (take len d);
        next_send_valid_index = s.next_send_valid_index + len;
      },
    )

-- `send`; the pointer `d` is `none` for `nullptr`.
unfoldable pub send : TcpSocket → Option (List ℕ) → ℕ → Bool × TcpSocket
unfolding append_to_send
send s d len = if len == 0 then (true, s) else append_to_send s d len

-- The walk through the control messages: the first timestamp, in nanoseconds, or 0.
pub kernel_time : List Cmsg → Nanos
kernel_time [] = pos 0
kernel_time (scm_timestamp tv_sec tv_usec ∷ cs) =
    scale tv_sec nanos_to_secs +ℤ scale tv_usec nanos_to_micros
kernel_time (other_cmsg ∷ cs) = kernel_time cs

-- Both products of the walk and their sum are values of `int64_t`.
unfoldable pub time_fits : List Cmsg → Bool
time_fits [] = true
time_fits (scm_timestamp tv_sec tv_usec ∷ cs) =
    is_int64 (scale tv_sec nanos_to_secs)
    && (is_int64 (scale tv_usec nanos_to_micros)
        && is_int64 (scale tv_sec nanos_to_secs +ℤ scale tv_usec nanos_to_micros))
time_fits (other_cmsg ∷ cs) = time_fits cs

-- What is done with the result of `recvmsg`, on the socket with its address as `recvmsg` left it.
pub receive : Callback → TcpSocket → RecvReply → TcpSocket
receive callback s (bytes [] cs) = record s { recv_disconnected = true }
receive callback s (bytes (b ∷ bs) cs) =
    callback
      (record s {
        rcv_buffer = copy_to s.rcv_buffer s.next_rcv_valid_index (b ∷ bs);
        next_rcv_valid_index = s.next_rcv_valid_index + length (b ∷ bs);
      })
      (kernel_time cs)
receive callback s (recv_error e) =
    if would_block e then s else record s { recv_disconnected = true }

-- How the sending loop ends: the bytes that the kernel took, in order, and whether an error broke
-- the connection.
pub record Flushed : Type 0 where
  pub total_sent : ℕ
  pub broken : Bool
  pub wire : List ℕ

abbrev pub prepend : List ℕ → Flushed → Flushed
prepend taken r = record r { wire = taken ++ r.wire }

-- What one `send` of the bytes `offered` leads to; `more` is the rest of the loop.
abbrev pub after_send : (ℕ → Option Flushed) → ℕ → List ℕ → SendReply → Option Flushed
after_send more total offered (send_error e) =
    some (record { total_sent = total; broken = not (would_block e); wire = [] })
after_send more total offered (sent zero) =
    some (record { total_sent = total; broken = false; wire = [] })
after_send more total offered (sent (suc n)) =
    Option.map (prepend (take (suc n) offered)) (more (total + suc n))

-- The `while` loop of `sendAndRecv` over the queue `buffer[0 .. limit)`. `none`: out of fuel. Counts
-- are plain numbers, since a kernel that takes no more than it is offered keeps them below `limit`.
pub send_loop : (ℕ → List ℕ → SendReply) → List ℕ → ℕ → ℕ → ℕ → Option Flushed
send_loop kernel_send buffer limit zero total = none
send_loop kernel_send buffer limit (suc fuel) total =
    if ltb total limit
    then after_send (send_loop kernel_send buffer limit fuel) total
        (take (limit - total) (drop total buffer))
        (kernel_send total (take (limit - total) (drop total buffer)))
    else some (record { total_sent = total; broken = false; wire = [] })

-- After the loop: the unsent bytes move to the front.
pub keep_unsent : TcpSocket → Flushed → TcpSocket
keep_unsent s r =
    if ltb 0 r.total_sent
    then record s {
      send_buffer =
          if ltb 0 (s.next_send_valid_index - r.total_sent)
          then copy_to s.send_buffer 0
              (take (s.next_send_valid_index - r.total_sent) (drop r.total_sent s.send_buffer))
          else s.send_buffer;
      next_send_valid_index = s.next_send_valid_index - r.total_sent;
      send_disconnected = r.broken || s.send_disconnected;
    }
    else record s { send_disconnected = r.broken || s.send_disconnected }

-- The outcome of `sendAndRecv`: its result, the socket, and the bytes that went out.
pub record Exchange : Type 0 where
  pub result : Bool
  pub socket : TcpSocket
  pub wire : List ℕ

-- The sending part of `sendAndRecv`. Every round sends a byte, so one more round than there are
-- bytes is enough.
pub flush : (ℕ → List ℕ → SendReply) → Bool → TcpSocket → Option Exchange
unfolding send_loop keep_unsent
flush kernel_send result s =
    Option.map {A = Flushed}
      (λ r. record { result = result; socket = keep_unsent s r; wire = r.wire })
      (send_loop kernel_send s.send_buffer s.next_send_valid_index (suc s.next_send_valid_index) 0)

-- `received > 0`.
abbrev pub got_bytes : RecvReply → Bool
got_bytes (bytes bs cs) = ltb 0 (length bs)
got_bytes (recv_error e) = false

-- The timestamp is computed only if bytes have arrived.
is_timed : RecvReply → Bool
unfolding time_fits
is_timed (bytes [] cs) = true
is_timed (bytes (b ∷ bs) cs) = time_fits cs
is_timed (recv_error e) = true

abbrev pub addressed : Kernel → TcpSocket → TcpSocket
addressed k s = record s { in_addr = k.msg_name s.in_addr }

-- A timestamp that overflows is undefined behaviour: `none`.
exchange : Kernel → Callback → TcpSocket → RecvReply → Option Exchange
unfolding receive flush is_timed
exchange k callback s reply =
    if is_timed reply
    then flush k.send_some (got_bytes reply) (receive callback (addressed k s) reply)
    else none

send_and_recv_on : Kernel → Callback → TcpSocket → Option ℕ → Option Exchange
unfolding exchange
send_and_recv_on k callback s none = some (record { result = false; socket = s; wire = [] })
send_and_recv_on k callback s (some fd) =
    if leb tcp_buffer_size s.next_rcv_valid_index
    then some (record {
      result = false;
      socket = record s { recv_disconnected = true; logged = receive_buffer_full fd ∷ s.logged };
      wire = [];
    })
    else exchange k callback s (k.recvmsg (tcp_buffer_size - s.next_rcv_valid_index))

-- `sendAndRecv`.
unfoldable pub send_and_recv : Kernel → Callback → TcpSocket → Option Exchange
unfolding send_and_recv_on
send_and_recv k callback s = send_and_recv_on k callback s s.fd
