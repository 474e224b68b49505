-- ===== src/TcpSocket/Receive.antt =====
-- `sendAndRecv` of src/tcp_socket.cpp as a whole: what arrives, what the callback sees, the result.
use lowlatency_cpp.Base.{
  ℕ, ◌+◌, ◌-◌, ◌≤◌, ◌<◌, ◌≡◌, ◌⊎◌, inl, inr, refl, ap, ◌∙◌, List, [], ◌∷◌, ◌++◌, length, arith,
  Option, some, none, true, false, leb,
}
use lowlatency_cpp.TcpSocket.{
  TcpSocket, tcp_buffer_size, copy_to, Cmsg, RecvReply, bytes, recv_error, Kernel, Callback,
  kernel_time, time_fits, is_timed, addressed, exchange, receive, got_bytes, Exchange,
  receive_buffer_full, send_and_recv, send_and_recv_on, flush,
}
use lowlatency_cpp.TimeUtils.{Nanos}
use lowlatency_cpp.TcpSocket.Buffer.{queued, received, IsValid, length-copy_to, take-copy_to}
use lowlatency_cpp.TcpSocket.Flush.{Flushes, flush_lem}
use lowlatency_cpp.TcpSocket.SendLoop.{TakesOffered}

-- `recvmsg` never returns more bytes than there is room for, nor `::send` takes more than offered,
-- and a time stamp, in nanoseconds, is a value of `int64_t`.
pub record IsHonest (k : Kernel) : Type 0 where
  pub takes : TakesOffered k.send_some
  pub gives :
      (room : ℕ) (bs : List ℕ) (cs : List Cmsg) → k.recvmsg room ≡ bytes bs cs → length bs ≤ room
  pub stamps :
      (room : ℕ) (bs : List ℕ) (cs : List Cmsg) → k.recvmsg room ≡ bytes bs cs → time_fits cs ≡ true

-- The callback leaves the socket valid.
abbrev pub Keeps : Callback → Type 0
Keeps callback = (s : TcpSocket) (time : Nanos) → IsValid s → IsValid (callback s time)

-- The socket as the callback finds it.
abbrev pub delivered : TcpSocket → List ℕ → TcpSocket
delivered s bs = record s {
  rcv_buffer = copy_to s.rcv_buffer s.next_rcv_valid_index bs;
  next_rcv_valid_index = s.next_rcv_valid_index + length bs;
}

pub delivered-IsValid :
    (s : TcpSocket) (bs : List ℕ)
    → IsValid s
    → s.next_rcv_valid_index + length bs ≤ tcp_buffer_size
    → IsValid (delivered s bs)
delivered-IsValid s bs v h = record {
  send_size = v.send_size;
  send_in = v.send_in;
  rcv_size =
      length-copy_to s.rcv_buffer s.next_rcv_valid_index bs (omega (arith, v.rcv_size))
      ∙ v.rcv_size;
  rcv_in = h;
}

-- Bytes that arrive are appended to those not yet consumed, inside the buffer, and the callback is
-- called once on the result, with the kernel's time stamp.
pub receive_bytes :
    (callback : Callback) (s : TcpSocket) (b : ℕ) (bs : List ℕ) (cs : List Cmsg)
    → IsValid s
    → s.next_rcv_valid_index + length (b ∷ bs) ≤ tcp_buffer_size
    → (s' : TcpSocket) × (receive callback s (bytes (b ∷ bs) cs) ≡ callback s' (kernel_time cs))
      × (received s' ≡ received s ++ b ∷ bs)
      × (queued s' ≡ queued s)
      × IsValid s'
unfolding receive
receive_bytes callback s b bs cs v h = (
  delivered s (b ∷ bs),
  refl,
  take-copy_to s.rcv_buffer s.next_rcv_valid_index (b ∷ bs) (omega (arith, v.rcv_size)),
  refl,
  delivered-IsValid s (b ∷ bs) v h,
)

receive-IsValid :
    (callback : Callback) (s : TcpSocket) (reply : RecvReply)
    → Keeps callback
    → IsValid s
    → ((bs : List ℕ) (cs : List Cmsg)
        → reply ≡ bytes bs cs
        → s.next_rcv_valid_index + length bs ≤ tcp_buffer_size)
    → IsValid (receive callback s reply)
unfolding receive
receive-IsValid callback s (bytes [] cs) keeps v room = ground (arith, v.send_size, v.rcv_size)
receive-IsValid callback s (bytes (b ∷ bs) cs) keeps v room =
    keeps (delivered s (b ∷ bs)) (kernel_time cs)
      (delivered-IsValid s (b ∷ bs) v (room (b ∷ bs) cs refl))
receive-IsValid callback s (recv_error e) keeps v room = ground (arith, v.send_size, v.rcv_size)

-- What `sendAndRecv` leaves when it does no input or output.
pub record Idle (s : TcpSocket) (fd : Option ℕ) (x : Exchange) : Type 0 where
  pub no_result : x.result ≡ false
  pub no_wire : x.wire ≡ []
  pub same_queue : queued x.socket ≡ queued s
  pub same_received : received x.socket ≡ received s
  pub still_valid : IsValid s → IsValid x.socket
  pub marked : (fd ≡ none) ⊎ (x.socket.recv_disconnected ≡ true)

send_and_recv_on-Idle :
    (k : Kernel) (callback : Callback) (s : TcpSocket) (fd : Option ℕ)
    → (fd ≡ none) ⊎ (tcp_buffer_size ≤ s.next_rcv_valid_index)
    → (x : Exchange) × (send_and_recv_on k callback s fd ≡ some x) × Idle s fd x
unfolding send_and_recv_on
send_and_recv_on-Idle k callback s none why = (
  record { result = false; socket = s; wire = [] },
  refl,
  record {
    no_result = refl;
    no_wire = refl;
    same_queue = refl;
    same_received = refl;
    still_valid = λ v. v;
    marked = inl refl;
  },
)
send_and_recv_on-Idle k callback s (some fd) (inl closed) = cc
send_and_recv_on-Idle k callback s (some fd) (inr full) =
    let test : leb tcp_buffer_size s.next_rcv_valid_index ≡ true = ground arith in
    (
      record {
        result = false;
        socket = record s { recv_disconnected = true; logged = receive_buffer_full fd ∷ s.logged };
        wire = [];
      },
      rw test,
      record {
        no_result = refl;
        no_wire = refl;
        same_queue = refl;
        same_received = refl;
        still_valid = λ v. record {
          send_size = v.send_size;
          send_in = v.send_in;
          rcv_size = v.rcv_size;
          rcv_in = v.rcv_in;
        };
        marked = inr refl;
      },
    )

-- A closed socket, and one whose receive buffer is full, does no input or output: `sendAndRecv`
-- returns false, sends nothing, and leaves what is queued and what is received. An open socket with
-- a full buffer is marked disconnected.
pub send_and_recv-Idle :
    (k : Kernel) (callback : Callback) (s : TcpSocket)
    → (s.fd ≡ none) ⊎ (tcp_buffer_size ≤ s.next_rcv_valid_index)
    → (x : Exchange) × (send_and_recv k callback s ≡ some x) × Idle s s.fd x
unfolding send_and_recv
send_and_recv-Idle k callback s why = send_and_recv_on-Idle k callback s s.fd why

pub addressed-IsValid : (k : Kernel) (s : TcpSocket) → IsValid s → IsValid (addressed k s)
addressed-IsValid k s v = record {
  send_size = v.send_size;
  send_in = v.send_in;
  rcv_size = v.rcv_size;
  rcv_in = v.rcv_in;
}

timed :
    (reply : RecvReply)
    → ((bs : List ℕ) (cs : List Cmsg) → reply ≡ bytes bs cs → time_fits cs ≡ true)
    → is_timed reply ≡ true
unfolding is_timed
timed (bytes [] cs) fits = refl
timed (bytes (b ∷ bs) cs) fits = fits (b ∷ bs) cs refl
timed (recv_error e) fits = refl

exchange-flush :
    (k : Kernel) (callback : Callback) (s : TcpSocket) (reply : RecvReply)
    → is_timed reply ≡ true
    → exchange k callback s reply
      ≡ flush k.send_some (got_bytes reply) (receive callback (addressed k s) reply)
unfolding exchange
exchange-flush k callback s reply fits = rw fits

send_and_recv-live :
    (k : Kernel) (callback : Callback) (s : TcpSocket) (fd : ℕ)
    → s.fd ≡ some fd
    → s.next_rcv_valid_index < tcp_buffer_size
    → send_and_recv k callback s
      ≡ exchange k callback s (k.recvmsg (tcp_buffer_size - s.next_rcv_valid_index))
unfolding send_and_recv
send_and_recv-live k callback s fd e h =
    let room : leb tcp_buffer_size s.next_rcv_valid_index ≡ false = ground arith in
    ap (send_and_recv_on k callback s) e ∙ rw room

-- On an open socket with room, `recvmsg` is followed by the sending part.
pub send_and_recv-Flushes :
    (k : Kernel) (callback : Callback) (s : TcpSocket) (fd : ℕ)
    → IsHonest k
    → Keeps callback
    → IsValid s
    → s.fd ≡ some fd
    → s.next_rcv_valid_index < tcp_buffer_size
    → let reply = k.recvmsg (tcp_buffer_size - s.next_rcv_valid_index) in
      (x : Exchange) × (send_and_recv k callback s ≡ some x)
      × (x.result ≡ got_bytes reply)
      × Flushes k.send_some (receive callback (addressed k s) reply) x
send_and_recv-Flushes k callback s fd honest keeps v e h =
    let room = tcp_buffer_size - s.next_rcv_valid_index in
    let reply = k.recvmsg room in
    let fits : is_timed reply ≡ true = timed reply (λ bs cs is. honest.stamps room bs cs is) in
    let (x, run, result, flushes) =
      flush_lem k.send_some (got_bytes reply) (receive callback (addressed k s) reply) honest.takes
        (receive-IsValid callback (addressed k s) reply keeps (addressed-IsValid k s v)
          (λ bs cs is. omega (arith, honest.gives room bs cs is))) in
    (
      x,
      send_and_recv-live k callback s fd e h ∙ exchange-flush k callback s reply fits ∙ run,
      result,
      flushes,
    )
