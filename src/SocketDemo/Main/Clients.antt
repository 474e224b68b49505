-- ===== src/SocketDemo/Main/Clients.antt =====
-- The clients of `main` in src/socket_demo.cpp: what they send.
use lowlatency_cpp.Base.{
  ℕ, suc, ◌≡◌, refl, ap, ◌∙◌, Bool, true, List, [], ◌∷◌, ◌++◌, length, take, arith, done,
  append_assoc, append-nil, sym,
}
use lowlatency_cpp.TcpSocket.{TcpSocket, Kernel}
use lowlatency_cpp.TcpSocket.Buffer.{queued, IsValid}
use lowlatency_cpp.TcpSocket.Receive.{IsHonest, Keeps}
use lowlatency_cpp.TcpSocket.Send.{send_fits}
use lowlatency_cpp.TcpSocket.Turn.{Said, Sends, Turns, turn-Turns, said_in, said_in-silent}
use lowlatency_cpp.Logger.Messages.{Message, demo_sending}
use lowlatency_cpp.SocketDemo.{client_recv_callback}
use lowlatency_cpp.SocketDemo.Main.{
  World, Client, client_message, take_turn, say_hello, say_hellos, take_turns, close_clients,
}

client_recv_callback-Keeps : Keeps client_recv_callback
unfolding client_recv_callback
client_recv_callback-Keeps s time v = record {
  send_size = v.send_size;
  send_in = v.send_in;
  rcv_size = v.rcv_size;
  rcv_in = omega arith;
}

abbrev silence : Said
silence s time = []

client_recv_callback-Sends : Sends client_recv_callback silence
unfolding client_recv_callback
client_recv_callback-Sends s time v = sym (append-nil (queued s))

silent_turn : (s : TcpSocket) (k : Kernel) → queued s ++ said_in silence s k ≡ queued s
silent_turn s k =
    ap (◌++◌ (queued s)) (said_in-silent silence (λ d time. refl) s k) ∙ append-nil (queued s)

-- Connected, and nothing said yet.
pub record IsNew (c : Client) : Type 0 where
  pub valid : IsValid c.socket
  pub empty : c.socket.next_send_valid_index ≡ 0
  pub silent : c.wire ≡ []

-- What went out and what is queued is the message.
pub record Says (m : List ℕ) (c : Client) : Type 0 where
  pub valid : IsValid c.socket
  pub stream : c.wire ++ queued c.socket ≡ m

-- What went out is the beginning of the message.
abbrev pub HasSent : List ℕ → Client → Type 0
HasSent m c = (rest : List ℕ) × (c.wire ++ rest ≡ m)

abbrev pub AllNew : List Client → Type 0
AllNew [] = Unit {0}
AllNew (c ∷ cs) = IsNew c × AllNew cs

-- The client at place k says the message of number i + k.
abbrev pub AllSay : ℕ → List Client → Type 0
AllSay i [] = Unit {0}
AllSay i (c ∷ cs) = Says (client_message i) c × AllSay (suc i) cs

abbrev pub AllHaveSent : ℕ → List Client → Type 0
AllHaveSent i [] = Unit {0}
AllHaveSent i (c ∷ cs) = HasSent (client_message i) c × AllHaveSent (suc i) cs

pub AllNew-append : (cs : List Client) (c : Client) → AllNew cs → IsNew c → AllNew (cs ++ c ∷ [])
AllNew-append [] c a n = (n, tt)
AllNew-append (b ∷ cs) c a n = (a.0, AllNew-append cs c a.1 n)

pub AllNew-AllHaveSent : (i : ℕ) (cs : List Client) → AllNew cs → AllHaveSent i cs
AllNew-AllHaveSent i [] a = tt
AllNew-AllHaveSent i (c ∷ cs) a = (
  (client_message i, ap (λ l. l ++ client_message i) a.0.silent),
  AllNew-AllHaveSent (suc i) cs a.1,
)

pub AllSay-AllHaveSent : (i : ℕ) (cs : List Client) → AllSay i cs → AllHaveSent i cs
AllSay-AllHaveSent i [] a = tt
AllSay-AllHaveSent i (c ∷ cs) a = ((queued c.socket, a.0.stream), AllSay-AllHaveSent (suc i) cs a.1)

-- The destructors do not change what was sent.
pub close_clients-AllHaveSent :
    (i : ℕ) (cs : List Client) → AllHaveSent i cs → AllHaveSent i (close_clients cs).0
unfolding close_clients
close_clients-AllHaveSent i [] a = tt
close_clients-AllHaveSent i (c ∷ cs) a = (a.0, close_clients-AllHaveSent (suc i) cs a.1)

length-client_message : (i : ℕ) → length (client_message i) ≡ 21
unfolding client_message
length-client_message i = refl

module _ (w : World) (honest : (t i : ℕ) → IsHonest (w.client_kernel t i)) where
  take_turn-Says :
      (t i : ℕ) (m : List ℕ) (c : Client)
      → Says m c
      → (c' : Client) × (take_turn w t i c ≡ done c') × Says m c'
  unfolding take_turn Turns
  take_turn-Says t i m c s =
      let (x, e, v, stream) =
        turn-Turns client_recv_callback silence client_recv_callback-Keeps
          client_recv_callback-Sends c.socket (w.client_kernel t i) (honest t i) s.valid in
      (
        record { socket = x.socket; wire = c.wire ++ x.wire },
        rw e,
        record {
          valid = v;
          stream =
              append_assoc c.wire x.wire (queued x.socket)
              ∙ ap (◌++◌ c.wire) (stream ∙ silent_turn c.socket (w.client_kernel t i))
              ∙ s.stream;
        },
      )

  -- The message always fits, so nothing is refused.
  say_hello-Says :
      (i : ℕ) (c : Client)
      → IsNew c
      → (c' : Client) × (say_hello w i c ≡ done (true, c')) × Says (client_message i) c'
  unfolding say_hello
  say_hello-Says i c new =
      let (s, e, queue, same, v) =
        send_fits c.socket (client_message i) new.valid
          (omega (arith, new.empty, length-client_message i)) in
      let (c', f, says) =
        take_turn-Says 0 i (client_message i) (record c { socket = s })
          (record {
            valid = v;
            stream =
                ap (λ l. l ++ queued s) new.silent
                ∙ queue
                ∙ ap (λ (n : ℕ). take n c.socket.send_buffer ++ client_message i) new.empty;
          }) in
      (c', rw (e, f), says)

  pub say_hellos-AllSay :
      (i : ℕ) (cs : List Client) (messages : List Message)
      → AllNew cs
      → (u : Bool × List Client × List Message) × (say_hellos w i cs messages ≡ done u)
        × (u.0 ≡ true)
        × AllSay i u.1
  unfolding say_hellos
  say_hellos-AllSay i [] messages a = ((true, [], messages), refl, refl, tt)
  say_hellos-AllSay i (c ∷ cs) messages a =
      let (c', e, says) = say_hello-Says i c a.0 in
      let (u, f, good, rest) =
        say_hellos-AllSay (suc i) cs (demo_sending i (client_message i) ∷ messages) a.1 in
      ((u.0, c' ∷ u.1, u.2), rw (e, f), good, (says, rest))

  pub take_turns-AllSay :
      (t i : ℕ) (cs : List Client)
      → AllSay i cs
      → (cs' : List Client) × (take_turns w t i cs ≡ done cs') × AllSay i cs'
  unfolding take_turns
  take_turns-AllSay t i [] a = ([], refl, tt)
  take_turns-AllSay t i (c ∷ cs) a =
      let (c', e, says) = take_turn-Says t i (client_message i) c a.0 in
      let (cs', f, rest) = take_turns-AllSay t (suc i) cs a.1 in (c' ∷ cs', rw (e, f), (says, rest))
