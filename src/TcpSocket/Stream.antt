-- ===== src/TcpSocket/Stream.antt =====
-- A connection over time: messages that the application sends and turns of the event loop.
use mathlib.Core.Option
use native.Mathlib.Decide.{dec_lt}
use lowlatency_cpp.Base.{
  ℕ, ◌+◌, ◌≡◌, inr, refl, sym, ap, ◌∙◌, List, [], ◌∷◌, ◌++◌, length, take, arith, Option, some,
  none, Bool, true, if◌then◌else◌, append_assoc,
}
use lowlatency_cpp.TcpSocket.{
  TcpSocket, tcp_buffer_size, Kernel, Callback, Exchange, send, send_and_recv,
}
use lowlatency_cpp.TcpSocket.Buffer.{queued, IsValid}
use lowlatency_cpp.TcpSocket.Send.{send_fits, send_refuses}
use lowlatency_cpp.TcpSocket.Turn.{Said, Sends, said_in, Turns, turn-Turns}
use lowlatency_cpp.TcpSocket.Receive.{IsHonest, Keeps}

-- The application sends a message, or the event loop calls `sendAndRecv` with the kernel as it is.
pub data Event : Type 0 where
  message : List ℕ → Event
  turn : Kernel → Event

-- The socket, and since the start: the messages that `send` accepted with what the callback
-- queued, in the order of the calls, and the bytes that went out.
pub record Session : Type 0 where
  pub socket : TcpSocket
  pub accepted : List ℕ
  pub wire : List ℕ

abbrev book_message : Session → List ℕ → Bool × TcpSocket → Session
book_message c d (sent, s) = record c {
  socket = s;
  accepted = if sent then c.accepted ++ d else c.accepted;
}

abbrev book_turn : Session → List ℕ → Exchange → Session
book_turn c replies x = record {
  socket = x.socket;
  accepted = c.accepted ++ replies;
  wire = c.wire ++ x.wire;
}

pub step : Callback → Said → Session → Event → Option Session
unfolding said_in
step callback said c (message d) = some (book_message c d (send c.socket (some d) (length d)))
step callback said c (turn k) =
    Option.map (book_turn c (said_in said c.socket k)) (send_and_recv k callback c.socket)

abbrev run_on : (Session → Option Session) → Option Session → Option Session
run_on rest none = none
run_on rest (some c) = rest c

pub run : Callback → Said → List Event → Session → Option Session
run callback said [] c = some c
run callback said (e ∷ es) c = run_on (run callback said es) (step callback said c e)

abbrev pub AllHonest : List Event → Type 0
AllHonest [] = Unit {0}
AllHonest (message d ∷ es) = AllHonest es
AllHonest (turn k ∷ es) = IsHonest k × AllHonest es

-- What went out and what is queued is what was accepted.
pub record InStep (c : Session) : Type 0 where
  pub valid : IsValid c.socket
  pub stream : c.wire ++ queued c.socket ≡ c.accepted

message-InStep :
    (callback : Callback) (said : Said) (c : Session) (d : List ℕ)
    → InStep c
    → (c' : Session) × (step callback said c (message d) ≡ some c') × InStep c'
unfolding step
message-InStep callback said c d v =
    elim (dec_lt tcp_buffer_size (c.socket.next_send_valid_index + length d)) [
      | yes long ↦ (
        c,
        rw (
            send_refuses c.socket (some d) (length d) v.valid (omega (arith, v.valid.send_in))
              (inr long)),
        v,
      )
      | no short ↦
          let (s, e, queue, same, w) = send_fits c.socket d v.valid (omega arith) in
          (
            book_message c d (true, s),
            rw e,
            record {
              valid = w;
              stream =
                  ap (◌++◌ c.wire) queue
                  ∙ sym (append_assoc c.wire (queued c.socket) d)
                  ∙ ap (λ l. l ++ d) v.stream;
            },
          )
    ]

module _ (callback : Callback) (said : Said) (keeps : Keeps callback)
    (sends : Sends callback said) where
  turn-InStep :
      (c : Session) (k : Kernel)
      → IsHonest k
      → InStep c
      → (c' : Session) × (step callback said c (turn k) ≡ some c') × InStep c'
  unfolding step Turns
  turn-InStep c k honest v =
      let (x, e, w, stream) = turn-Turns callback said keeps sends c.socket k honest v.valid in
      let more = said_in said c.socket k in
      (
        book_turn c more x,
        rw (e, Option.map),
        record {
          valid = w;
          stream =
              append_assoc c.wire x.wire (queued x.socket)
              ∙ ap (◌++◌ c.wire) stream
              ∙ sym (append_assoc c.wire (queued c.socket) more)
              ∙ ap (λ l. l ++ more) v.stream;
        },
      )

  run-InStep :
      (es : List Event) (c : Session)
      → AllHonest es
      → InStep c
      → (c' : Session) × (run callback said es c ≡ some c') × InStep c'
  unfolding run
  run-InStep [] c h v = (c, refl, v)
  run-InStep (message d ∷ es) c h v =
      let (m, here, vm) = message-InStep callback said c d v in
      let (c', there, v') = run-InStep es m h vm in (c', rw here there, v')
  run-InStep (turn k ∷ es) c h v =
      let (m, here, vm) = turn-InStep c k h.0 v in
      let (c', there, v') = run-InStep es m h.1 vm in (c', rw here there, v')

  -- From a valid socket with nothing queued, over any sequence of messages that the application
  -- sends and turns of the event loop, whatever the kernel takes and wherever it fails, every call
  -- returns, the socket stays valid, and the bytes that went out, followed by those still queued,
  -- are exactly the messages that send accepted and what the callback has queued, in the order in
  -- which they were queued. The kernel never takes or gives more bytes than it was offered room for
  -- and its time stamps fit in 64 bits; the callback keeps a valid socket valid, and changes the
  -- queue of a valid socket only by appending to it.
  pub run_stream :
      (es : List Event) (s : TcpSocket)
      → AllHonest es
      → IsValid s
      → s.next_send_valid_index ≡ 0
      → (c : Session) × (run callback said es (record { socket = s; accepted = []; wire = [] })
          ≡ some c)
        × (c.wire ++ queued c.socket ≡ c.accepted)
        × IsValid c.socket
  run_stream es s h v empty =
      let (c, e, w) =
        run-InStep es (record { socket = s; accepted = []; wire = [] }) h
          (record { valid = v; stream = ap (λ (n : ℕ). take n s.send_buffer) empty }) in
      (c, e, w.stream, w.valid)
