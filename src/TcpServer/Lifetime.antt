-- ===== src/TcpServer/Lifetime.antt =====
-- The life of a `TCPServer` of src/tcp_server.cpp: the constructor, any calls, the destructor.
use lowlatency_cpp.Base.{
  ℕ, ◌≡◌, refl, Bool, List, [], ◌∷◌, Option, none, Text, Outcome, done, ◌>>=◌,
}
use lowlatency_cpp.TcpSocket.{TcpSocket, Kernel, Callback}
use lowlatency_cpp.TcpSocket.Buffer as Buffer
use lowlatency_cpp.TcpSocket.Receive.{IsHonest, Keeps}
use lowlatency_cpp.SocketHeap.{Heap, lookup, listener}
use lowlatency_cpp.Logger.Messages.{Message}
use lowlatency_cpp.TcpServer.{TcpServer, create, destroy, listen, send_and_recv}
use lowlatency_cpp.TcpServer.Polling.{EpollEvent, Accepted, poll}
use lowlatency_cpp.TcpServer.Valid.{Live, IsValid}
use lowlatency_cpp.TcpServer.Destroy.{new-IsValid, destroy-IsValid}
use lowlatency_cpp.TcpServer.Events.{IsEpoll}
use lowlatency_cpp.TcpServer.Poll.{poll-IsValid}
use lowlatency_cpp.TcpServer.Rounds.{send_and_recv-IsValid}
use lowlatency_cpp.TcpServer.Listen.{listen-Listened, Listened-IsValid}

-- A call, with what the system answers in it.
pub data Operation : Type 0 where
  to_listen : (epfd created : Option ℕ) (iface : Text) (port : ℕ) (is_added : Bool) → Operation
  to_poll : (List ℕ → Option (List EpollEvent)) → List Accepted → Operation
  to_send_and_recv : (ℕ → TcpSocket → Kernel) → Operation
  to_destroy : Operation

-- What the answers are trusted for.
abbrev pub AllTrusted : List Operation → Type 0
AllTrusted [] = Unit {0}
AllTrusted (to_listen epfd created iface port is_added ∷ os) = AllTrusted os
AllTrusted (to_poll epoll_wait pending ∷ os) = IsEpoll epoll_wait × AllTrusted os
AllTrusted (to_send_and_recv kernel ∷ os) =
    ((p : ℕ) (x : TcpSocket) → IsHonest (kernel p x)) × AllTrusted os
AllTrusted (to_destroy ∷ os) = AllTrusted os

module _ (htons : ℕ → ℕ) (new_at : Heap → ℕ) (fresh_socket : TcpSocket) (callback : ℕ → Callback)
    (finished : List Message → List Message) where
  unfoldable pub step : TcpServer → Operation → Outcome TcpServer
  step s (to_listen epfd created iface port is_added) =
      listen htons s epfd created iface port is_added >>= λ r. done r.1
  step s (to_poll epoll_wait pending) = poll new_at fresh_socket epoll_wait s pending
  step s (to_send_and_recv kernel) = send_and_recv kernel callback finished s >>= λ r. done r.1
  step s to_destroy = destroy s

  unfoldable pub run : List Operation → TcpServer → Outcome TcpServer
  unfolding step
  run [] s = done s
  run (o ∷ os) s = step s o >>= run os

module _ (htons : ℕ → ℕ) (new_at : Heap → ℕ) (fresh_socket : TcpSocket) (callback : ℕ → Callback)
    (finished : List Message → List Message) (is_fresh : (h : Heap) → lookup h (new_at h) ≡ none)
    (well_made : Buffer.IsValid fresh_socket) (keeps : (p : ℕ) → Keeps (callback p)) where
  Runs : TcpServer → List Operation → Type 0
  Runs s os =
      (t : TcpServer) × (run htons new_at fresh_socket callback finished os s ≡ done t) × IsValid t

  run-Runs : (os : List Operation) (s : TcpServer) → AllTrusted os → IsValid s → Runs s os
  unfolding Runs run step
  run-Runs [] s trusted v = (s, refl, v)
  run-Runs (to_listen epfd created iface port is_added ∷ os) s trusted v =
      let (r, e, how) = listen-Listened htons s epfd created iface port is_added v in
      let (t, f, x) = run-Runs os r.1 trusted (Listened-IsValid epfd created is_added r how) in
      (t, rw e f, x)
  run-Runs (to_poll epoll_wait pending ∷ os) s trusted v =
      let (m, e, w) =
        poll-IsValid new_at fresh_socket is_fresh well_made epoll_wait s pending trusted.0 v in
      let (t, f, x) = run-Runs os m trusted.1 w in (t, rw e f, x)
  run-Runs (to_send_and_recv kernel ∷ os) s trusted v =
      let (r, e, w) = send_and_recv-IsValid kernel callback trusted.0 keeps finished s v in
      let (t, f, x) = run-Runs os r.1 trusted.1 w in (t, rw e f, x)
  run-Runs (to_destroy ∷ os) s trusted v =
      let (m, e, w, only, shut) = destroy-IsValid s v in
      let (t, f, x) = run-Runs os m trusted w in (t, rw e f, x)

  -- From its constructor a server takes any sequence of listen, poll, `sendAndRecv` and destroy
  -- without a use or a second deletion of a deleted socket, and its destructor then leaves none of
  -- the sockets it has accepted; epoll reports at most 1024 events, of registered pointers only,
  -- the kernel never takes or gives more bytes than it was offered room for and its time stamps fit
  -- in 64 bits, new gives addresses that are not in use and well-formed sockets, and the callbacks
  -- keep a socket well formed.
  pub lifetime :
      (os : List Operation) (x : TcpSocket)
      → AllTrusted os
      → Buffer.IsValid x
      → (t u : TcpServer) × (run htons new_at fresh_socket callback finished os (create x) ≡ done t)
        × (destroy t ≡ done u)
        × ((q : ℕ) → Live u.heap q → q ≡ listener)
  unfolding Runs
  lifetime os x trusted made =
      let (t, e, v) = run-Runs os (create x) trusted (new-IsValid x made) in
      let (u, f, w, only, shut) = destroy-IsValid t v in (t, u, e, f, only)
