-- ===== src/TcpServer/Broken.antt =====
-- From `sendAndRecv` to the next `poll` of src/tcp_server.cpp: a connection that has broken is deleted.
use lowlatency_cpp.Base.{
  ℕ, ◌≡◌, ◌≢◌, ◌⊎◌, inl, inr, sym, ap, ◌∙◌, subst, Bool, true, false, List, [], ◌∷◌, some, none,
  arith, Option-cases, Option, done, done_inj, >>=-eq-done, ◌>>=◌,
}
use lowlatency_cpp.TcpSocket.{TcpSocket, Callback, Kernel}
use lowlatency_cpp.TcpSocket.Receive.{IsHonest, Keeps}
use lowlatency_cpp.Logger.Messages.{Message}
use lowlatency_cpp.TcpServer.{
  TcpServer, is_broken, round_over, serve, serve_all, send_and_recv, send_and_recv_on,
  drop_disconnected,
}
use lowlatency_cpp.SocketHeap.{Heap, lookup, has, listener, nullptr, not_in}
use lowlatency_cpp.TcpServer.Marked.{Marked, serve-eq-done, both-Marked}
use lowlatency_cpp.TcpSocket.Buffer as Buffer
use lowlatency_cpp.TcpServer.Polling.{EpollEvent, Accepted, poll, poll_on, on_wait}
use lowlatency_cpp.TcpServer.Events.{IsEpoll}
use lowlatency_cpp.TcpServer.Poll.{on_wait-PolledAt}
use lowlatency_cpp.TcpServer.Valid.{Live, IsValid}
use lowlatency_cpp.TcpServer.Delete.{drop_disconnected-Deletes}
use lowlatency_cpp.TcpServer.Rounds.{send_and_recv-IsValid}

module _ (kernel : ℕ → TcpSocket → Kernel) (callback : ℕ → Callback) where
  serve-efd :
      (r t : Bool × TcpServer) (p : ℕ) → serve kernel callback r p ≡ done t → t.1.efd ≡ r.1.efd
  serve-efd r t p e = elim (serve-eq-done kernel callback r t p e) [
    | inl (null, same) ↦ ap (λ (u : Bool × TcpServer). u.1.efd) (sym same)
    | inr (y, same) ↦ ap (λ (u : Bool × TcpServer). u.1.efd) (sym same)
  ]

  serve_all-efd :
      (r t : Bool × TcpServer) (ps : List ℕ)
      → serve_all kernel callback r ps ≡ done t
      → t.1.efd ≡ r.1.efd
  unfolding serve_all
  serve_all-efd r t [] e = cc
  serve_all-efd r t (p ∷ ps) e =
      let (m, f, g) =
        >>=-eq-done (serve kernel callback r p) (λ u. serve_all kernel callback u ps) e in
      serve_all-efd m t ps g ∙ serve-efd r m p f

  -- Neither loop closes epoll.
  send_and_recv_on-efd :
      (finished : List Message → List Message) (s : TcpServer) (t : Bool × TcpServer)
      (efd : Option ℕ)
      → send_and_recv_on kernel callback finished s efd ≡ done t
      → t.1.efd ≡ s.efd
  unfolding send_and_recv_on
  send_and_recv_on-efd finished s t none e =
      ap (λ (u : Bool × TcpServer). u.1.efd) (done_inj (sym e))
  send_and_recv_on-efd finished s t (some efd) e =
      let rest = not_in s.receive_sockets s.send_sockets in
      let (m, f, g) =
        >>=-eq-done (serve_all kernel callback (false, s) s.receive_sockets)
          (λ r. serve_all kernel callback (round_over kernel callback finished r) rest >>= λ u.
            done (r.0, u.1))
          e in
      let (u, h, k) =
        >>=-eq-done (serve_all kernel callback (round_over kernel callback finished m) rest)
          (λ u. done (m.0, u.1)) g in
      ap (λ (w : Bool × TcpServer). w.1.efd) (done_inj (sym k))
      ∙ serve_all-efd (round_over kernel callback finished m) u rest h
      ∙ serve_all-efd (false, s) m s.receive_sockets f

  send_and_recv-efd :
      (finished : List Message → List Message) (s : TcpServer) (t : Bool × TcpServer)
      → send_and_recv kernel callback finished s ≡ done t
      → t.1.efd ≡ s.efd
  unfolding send_and_recv
  send_and_recv-efd finished s t e = send_and_recv_on-efd finished s t s.efd e

-- What `poll` does at the pointer `q` of a broken connection: the state `u` after the deletions
-- holds nothing there, and events and new connections are handled on `u`.
pub record Drops (new_at : Heap → ℕ) (fresh_socket : TcpSocket)
    (epoll_wait : List ℕ → Option (List EpollEvent)) (s : TcpServer) (pending : List Accepted)
    (q : ℕ) : Type 0 where
  pub u : TcpServer
  pub deletions : drop_disconnected s ≡ done u
  pub gone : lookup u.heap q ≡ none
  pub v : TcpServer
  pub polled : poll new_at fresh_socket epoll_wait s pending ≡ done v
  pub then_waits : on_wait new_at fresh_socket u (epoll_wait u.watched) pending ≡ done v

module _ (new_at : Heap → ℕ) (fresh_socket : TcpSocket)
    (is_fresh : (h : Heap) → lookup h (new_at h) ≡ none)
    (well_made : Buffer.IsValid fresh_socket) where
  -- `poll` on an open server with `q` on the list of disconnected sockets.
  listed-Drops :
      (epoll_wait : List ℕ → Option (List EpollEvent)) (s : TcpServer) (pending : List Accepted)
      (efd q : ℕ)
      → IsEpoll epoll_wait
      → IsValid s
      → s.efd ≡ some efd
      → has s.disconnected_sockets q ≡ true
      → q ≢ nullptr
      → q ≢ listener
      → Drops new_at fresh_socket epoll_wait s pending q
  unfolding poll poll_on Live
  listed-Drops epoll_wait s pending efd q reports v open_at on_list real client =
      let (u, dropped, deletes) = drop_disconnected-Deletes s v in
      let (t, waited, w, places) =
        on_wait-PolledAt new_at fresh_socket is_fresh well_made u (epoll_wait u.watched) pending
          deletes.valid (reports u.watched) in
      record {
        u = u;
        deletions = dropped;
        gone = elim (Option-cases (lookup u.heap q)) [
          | inl none_left ↦ none_left
          | inr left ↦ absurd (deletes.gone q on_list client real left)
        ];
        v = t;
        polled =
            ap (λ o. poll_on new_at fresh_socket epoll_wait s o pending) open_at
            ∙ rw (dropped, waited);
        then_waits = waited;
      }

  -- A client that is served in a round of a valid listening server, and is marked as disconnected
  -- for receiving or for sending after it, is deleted by the next poll, which returns: its
  -- deletions leave nothing at the pointer of the client, and it handles the events and the new
  -- connections on the state that they leave. epoll reports at most 1024 events, of registered
  -- pointers only, the kernel never takes or gives more bytes than it was offered room for and its
  -- time stamps fit in 64 bits, new gives addresses that are not in use and well-formed sockets,
  -- and the callbacks keep a socket well formed.
  pub broken_deleted :
      (kernel : ℕ → TcpSocket → Kernel) (callback : ℕ → Callback)
      (finished : List Message → List Message) (epoll_wait : List ℕ → Option (List EpollEvent))
      (s : TcpServer) (t : Bool × TcpServer) (pending : List Accepted) (efd q : ℕ) (x : TcpSocket)
      → ((p : ℕ) (y : TcpSocket) → IsHonest (kernel p y))
      → ((p : ℕ) → Keeps (callback p))
      → IsEpoll epoll_wait
      → IsValid s
      → s.efd ≡ some efd
      → (has s.receive_sockets q ≡ true) ⊎ (has s.send_sockets q ≡ true)
      → q ≢ nullptr
      → q ≢ listener
      → send_and_recv kernel callback finished s ≡ done t
      → lookup t.1.heap q ≡ some x
      → (x.recv_disconnected ≡ true) ⊎ (x.send_disconnected ≡ true)
      → Drops new_at fresh_socket epoll_wait t.1 pending q
  unfolding Marked
  broken_deleted kernel callback finished epoll_wait s t pending efd q x honest keeps reports v
        open_at why real client served at broken =
      let (t', e, valid) = send_and_recv-IsValid kernel callback honest keeps finished s v in
      let same : t' ≡ t = cc in
      let w : IsValid t.1 = subst (λ (r : Bool × TcpServer). IsValid r.1) same valid in
      let marked : is_broken x ≡ true = ground arith in
      listed-Drops epoll_wait t.1 pending efd q reports w
        (send_and_recv-efd kernel callback finished s t served ∙ open_at)
        (both-Marked kernel callback finished s t efd q open_at real served why x at marked) real
        client
