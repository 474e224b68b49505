-- ===== src/TcpServer/Attended.antt =====
-- Every accepted socket of a `TCPServer` (src/tcp_server.cpp) is attended to: whatever calls are made,
-- it stays in the list of those that are read in each round.
use lowlatency_cpp.Base.{
  done_inj, fault≢done, ℕ, ◌≡◌, refl, Bool, true, false, List, [], ◌∷◌, Option, some, none, Text,
  done, ◌>>=◌, >>=-eq-done, ◌==◌, Bool-cases, inl, inr, arith, subst,
}
use lowlatency_cpp.TcpSocket.{TcpSocket, Kernel, Callback}
use lowlatency_cpp.TcpSocket as TcpSocket
use lowlatency_cpp.TcpSocket.Buffer as Buffer
use lowlatency_cpp.TcpSocket.Receive.{Keeps}
use lowlatency_cpp.Logger.Messages.{Message}
use lowlatency_cpp.SocketHeap.{nullptr, listener, Heap, has, lookup, delete_all, not_in}
use lowlatency_cpp.TcpServer.{
  TcpServer, create, destroy, close_all, register, opened, listen, listen_on, epoll_add, serve,
  serve_all, exchange_on, answered, round_over, send_and_recv, send_and_recv_on,
}
use lowlatency_cpp.TcpServer.Clients.{Served, all_in, epoll_add-Served, poll-Served}
use lowlatency_cpp.TcpServer.Lifetime.{
  Operation, to_listen, to_poll, to_send_and_recv, to_destroy, AllTrusted, step, run, lifetime,
}

abbrev Answer : Type 0
Answer = Bool × TcpServer

none_owned : (s : TcpServer) → s.sockets ≡ [] → Served s
unfolding Served has
none_owned s nothing q mine = ground (arith, nothing, mine)

close_all-Served :
    (s : TcpServer) (h : Heap) (x : Option TcpSocket) {t : TcpServer}
    → close_all s h x ≡ done t
    → Served t
close_all-Served s h none e = absurd (fault≢done e)
close_all-Served s h (some x) e = subst Served (done_inj e) (none_owned _ refl)

destroy-Served : (s : TcpServer) {t : TcpServer} → destroy s ≡ done t → Served t
unfolding destroy
destroy-Served s e =
    let (h, _, e₁) =
      >>=-eq-done (delete_all s.heap s.sockets) (λ h. close_all s h (lookup h listener)) e in
    close_all-Served s h (lookup h listener) e₁

given_up-Served :
    (s : TcpServer) {r : Answer} → (destroy s >>= λ t. done (false, t)) ≡ done r → Served r.1
given_up-Served s e =
    let (t, e₀, e₁) = >>=-eq-done (destroy s) (λ t. done (false, t)) e in
    subst (λ r. Served r.1) (done_inj e₁) (destroy-Served s e₀)

register-Served :
    (s : TcpServer) (e : ℕ) (c : TcpSocket × Option ℕ) (iface : Text) (port : ℕ) (is_added : Bool)
    {r : Answer}
    → register s e c iface port is_added ≡ done r
    → Served s
    → Served r.1
unfolding Served
register-Served s e (y, none) iface port is_added h served = given_up-Served _ h
register-Served s e (y, some fd) iface port is_added h served =
    let (r, e₀, e₁) = >>=-eq-done (epoll_add (opened s e y) listener is_added) _ h in
    elim (Bool-cases r.0) [
      | inl added ↦
          subst (λ r. Served r.1) (done_inj (rw added at e₁))
            (epoll_add-Served (opened s e y) listener is_added e₀ served)
      | inr refused ↦ given_up-Served _ (rw refused at e₁)
    ]

listen_on-Served :
    (s : TcpServer) (epfd : Option ℕ) (x : Option TcpSocket)
    (connect : TcpSocket → TcpSocket × Option ℕ) (iface : Text) (port : ℕ) (is_added : Bool)
    {r : Answer}
    → listen_on s epfd x connect iface port is_added ≡ done r
    → Served s
    → Served r.1
unfolding listen_on Served
listen_on-Served s none x connect iface port is_added h served =
    subst (λ r. Served r.1) (done_inj h) served
listen_on-Served s (some e) none connect iface port is_added h served = absurd (fault≢done h)
listen_on-Served s (some e) (some x) connect iface port is_added h served =
    register-Served s e (connect x) iface port is_added h served

listen-Served :
    (htons : ℕ → ℕ) (s : TcpServer) (epfd created : Option ℕ) (iface : Text) (port : ℕ)
    (is_added : Bool) {r : Answer}
    → listen htons s epfd created iface port is_added ≡ done r
    → Served r.1
unfolding listen
listen-Served htons s epfd created iface port is_added e =
    let (m, e₀, e₁) = >>=-eq-done (destroy s) _ e in
    listen_on-Served m epfd (lookup m.heap listener) _ iface port is_added e₁ (destroy-Served s e₀)

module _ (kernel : ℕ → TcpSocket → Kernel) (callback : ℕ → Callback) where
  answered-Served :
      (r : Answer) (p : ℕ) (x : Option TcpSocket.Exchange) {t : Answer}
      → answered kernel callback r p x ≡ done t
      → Served r.1
      → Served t.1
  unfolding Served
  answered-Served r p none e served = absurd (fault≢done e)
  answered-Served r p (some x) e served = subst (λ t. Served t.1) (done_inj e) served

  exchange_on-Served :
      (r : Answer) (p : ℕ) (x : Option TcpSocket) {t : Answer}
      → exchange_on kernel callback r p x ≡ done t
      → Served r.1
      → Served t.1
  exchange_on-Served r p none e served = absurd (fault≢done e)
  exchange_on-Served r p (some x) e served = answered-Served r p _ e served

  serve-Served :
      (r : Answer) (p : ℕ) {t : Answer}
      → serve kernel callback r p ≡ done t
      → Served r.1
      → Served t.1
  unfolding serve
  serve-Served r p e served = elim (Bool-cases (p == nullptr)) [
    | inl null ↦
        let same : done r ≡ done _ = rw null at e in subst (λ t. Served t.1) (done_inj same) served
    | inr found ↦ exchange_on-Served r p (lookup r.1.heap p) (rw found at e) served
  ]

  serve_all-Served :
      (r : Answer) (ps : List ℕ) {t : Answer}
      → serve_all kernel callback r ps ≡ done t
      → Served r.1
      → Served t.1
  unfolding serve_all
  serve_all-Served r [] e served = subst (λ t. Served t.1) (done_inj e) served
  serve_all-Served r (p ∷ ps) e served =
      let (m, e₀, e₁) =
        >>=-eq-done (serve kernel callback r p) (λ m. serve_all kernel callback m ps) e in
      serve_all-Served m ps e₁ (serve-Served r p e₀ served)

  send_and_recv_on-Served :
      (finished : List Message → List Message) (s : TcpServer) (efd : Option ℕ) {t : Answer}
      → send_and_recv_on kernel callback finished s efd ≡ done t
      → Served s
      → Served t.1
  unfolding send_and_recv_on Served
  send_and_recv_on-Served finished s none e served = subst (λ t. Served t.1) (done_inj e) served
  send_and_recv_on-Served finished s (some efd) e served =
      let (r, e₀, e₁) = >>=-eq-done (serve_all kernel callback (false, s) s.receive_sockets) _ e in
      let (m, e₂, e₃) =
        >>=-eq-done
          (serve_all kernel callback (round_over kernel callback finished r)
            (not_in s.receive_sockets s.send_sockets))
          _ e₁ in
      subst (λ t. Served t.1) (done_inj e₃)
        (serve_all-Served (round_over kernel callback finished r)
          (not_in s.receive_sockets s.send_sockets) e₂
          (serve_all-Served (false, s) s.receive_sockets e₀ served))

  send_and_recv-Served :
      (finished : List Message → List Message) (s : TcpServer) {t : Answer}
      → send_and_recv kernel callback finished s ≡ done t
      → Served s
      → Served t.1
  unfolding send_and_recv
  send_and_recv-Served finished s e served = send_and_recv_on-Served finished s s.efd e served

all_in-of : (ps qs : List ℕ) → ((p : ℕ) → has ps p ≡ true → has qs p ≡ true) → all_in ps qs ≡ true
unfolding all_in has
all_in-of [] qs h = refl
all_in-of (p ∷ ps) qs h =
    let head : has qs p ≡ true = h p (ground arith) in
    let tail : all_in ps qs ≡ true = all_in-of ps qs (λ q m. h q (ground (arith, m))) in
    rw (head, tail) refl

module _ (htons : ℕ → ℕ) (new_at : Heap → ℕ) (fresh_socket : TcpSocket) (callback : ℕ → Callback)
    (finished : List Message → List Message) where
  step-Served :
      (s : TcpServer) (o : Operation) {t : TcpServer}
      → step htons new_at fresh_socket callback finished s o ≡ done t
      → Served s
      → Served t
  unfolding step
  step-Served s (to_listen epfd created iface port is_added) e served =
      let (r, e₀, e₁) = >>=-eq-done (listen htons s epfd created iface port is_added) _ e in
      subst Served (done_inj e₁) (listen-Served htons s epfd created iface port is_added e₀)
  step-Served s (to_poll epoll_wait pending) e served =
      poll-Served new_at fresh_socket epoll_wait s pending e served
  step-Served s (to_send_and_recv kernel) e served =
      let (r, e₀, e₁) = >>=-eq-done (send_and_recv kernel callback finished s) _ e in
      subst Served (done_inj e₁) (send_and_recv-Served kernel callback finished s e₀ served)
  step-Served s to_destroy e served = destroy-Served s e

  run-Served :
      (os : List Operation) (s : TcpServer) {t : TcpServer}
      → run htons new_at fresh_socket callback finished os s ≡ done t
      → Served s
      → Served t
  unfolding run
  run-Served [] s e served = subst Served (done_inj e) served
  run-Served (o ∷ os) s e served =
      let (m, e₀, e₁) =
        >>=-eq-done (step htons new_at fresh_socket callback finished s o)
          (run htons new_at fresh_socket callback finished os) e in
      run-Served os m e₁ (step-Served s o e₀ served)

module _ (htons : ℕ → ℕ) (new_at : Heap → ℕ) (fresh_socket : TcpSocket) (callback : ℕ → Callback)
    (finished : List Message → List Message) (is_fresh : (h : Heap) → lookup h (new_at h) ≡ none)
    (well_made : Buffer.IsValid fresh_socket) (keeps : (p : ℕ) → Keeps (callback p)) where
  -- After any sequence of listen, poll, `sendAndRecv` and destroy, every socket that the server
  -- owns is in the list of those that the next round reads, so no accepted client is forgotten.
  -- Epoll reports at most 1024 events, of registered pointers only, the kernel never takes or gives
  -- more bytes than it was offered room for and its time stamps fit in 64 bits, new gives addresses
  -- that are not in use and well-formed sockets, and the callbacks keep a socket well formed.
  pub attended :
      (os : List Operation) (x : TcpSocket)
      → AllTrusted os
      → Buffer.IsValid x
      → (t : TcpServer) × (run htons new_at fresh_socket callback finished os (create x) ≡ done t)
        × (all_in t.sockets t.receive_sockets ≡ true)
  unfolding create Served
  attended os x trusted made =
      let (t, u, e, shut, only) =
        lifetime htons new_at fresh_socket callback finished is_fresh well_made keeps os x trusted
          made in
      let served =
        run-Served htons new_at fresh_socket callback finished os (create x) e
          (none_owned (create x) refl) in
      (t, e, all_in-of t.sockets t.receive_sockets served)
