-- ===== src/TcpServer/Listen.antt =====
-- `listen` of src/tcp_server.cpp, with the listener's `connect` and `epollAdd`.
use lowlatency_cpp.Base.{
  ◌∷◌, ◌>>=◌, Text, ℕ, ◌≡◌, ◌⊎◌, inl, inr, refl, Bool, true, false, ◌&&◌, Option, some, none, done,
}
use lowlatency_cpp.TcpSocket
use lowlatency_cpp.TcpSocket.{TcpSocket}
use lowlatency_cpp.TcpSocket.Buffer.{connect-IsValid}
use lowlatency_cpp.Logger.Messages.{
  Message, epoll_create_failed, listener_failed, listener_not_added,
}
use lowlatency_cpp.TcpServer.{destroy, opened, log_message, TcpServer, epoll_add, listen, listen_on}
use lowlatency_cpp.SocketHeap.{lookup, store, has, add_unique, listener}
use lowlatency_cpp.TcpServer.Lists.{has-add_unique_self}
use lowlatency_cpp.TcpServer.Valid.{same_sockets-IsValid, Live, IsValid, AllLive-add_unique}
use lowlatency_cpp.TcpServer.Destroy.{destroy-IsValid}
use lowlatency_cpp.TcpServer.Serve.{stored-IsValid}

abbrev connected : (ℕ → ℕ) → TcpSocket → Option ℕ → ℕ → TcpSocket
connected htons x created port = (TcpSocket.connect htons x created port).0

watching-IsValid :
    (s : TcpServer) (p : ℕ)
    → IsValid s
    → Live s.heap p
    → IsValid (record s { watched = add_unique s.watched p })
watching-IsValid s p v l = record {
  sockets_live = v.sockets_live;
  receive_live = v.receive_live;
  send_live = v.send_live;
  disconnected_live = v.disconnected_live;
  watched_live = AllLive-add_unique s.heap s.watched p v.watched_live l;
  listener_live = v.listener_live;
  listener_apart = v.listener_apart;
  sockets_once = v.sockets_once;
  receive_once = v.receive_once;
  send_once = v.send_once;
  disconnected_once = v.disconnected_once;
  owned = v.owned;
  buffers = v.buffers;
}

opened-IsValid :
    (htons : ℕ → ℕ) (s : TcpServer) (e : ℕ) (created : Option ℕ) (port : ℕ) (x : TcpSocket)
    → IsValid s
    → lookup s.heap listener ≡ some x
    → IsValid (opened s e (connected htons x created port))
unfolding Live
opened-IsValid htons s e created port x v at =
    let y = connected htons x created port in
    same_sockets-IsValid (record s { heap = store s.heap listener y }) (some e) s.logged
      (stored-IsValid s listener y v (x, at)
        (connect-IsValid htons x created port (v.buffers listener x at)))

abbrev pub is_some : Option ℕ → Bool
is_some none = false
is_some (some n) = true

-- The three steps that can fail: the epoll instance, the listener's socket, its registration.
abbrev pub succeeds : Option ℕ → Option ℕ → Bool → Bool
succeeds epfd created is_added = is_some epfd && (is_some created && is_added)

-- The answer is whether every step succeeded. Either nothing is left open, or the listener is
-- registered with the new epoll instance.
pub Listened : Option ℕ → Option ℕ → Bool → Bool × TcpServer → Type 0
Listened epfd created is_added r =
    IsValid r.1
    × (r.0 ≡ succeeds epfd created is_added)
    × (((r.0 ≡ false) × (r.1.efd ≡ none))
        ⊎ ((r.0 ≡ true) × (r.1.efd ≡ epfd) × (has r.1.watched listener ≡ true)))

module _ (epfd created : Option ℕ) (is_added : Bool) (r : Bool × TcpServer)
    (how : Listened epfd created is_added r) where
  pub Listened-IsValid : IsValid r.1
  unfolding Listened
  Listened-IsValid = how.0

  pub Listened-answer : r.0 ≡ succeeds epfd created is_added
  unfolding Listened
  Listened-answer = how.1

-- A failure after the listener has connected: the message, and the clean-up.
failed-Listened :
    (s : TcpServer) (epfd created : Option ℕ) (is_added : Bool) (m : Message)
    → false ≡ succeeds epfd created is_added
    → IsValid s
    → (r : Bool × TcpServer) × ((destroy (log_message s m) >>= λ t. done (false, t)) ≡ done r)
      × Listened epfd created is_added r
unfolding Listened
failed-Listened s epfd created is_added m why v =
    let (t, f, valid, only, shut) =
      destroy-IsValid (log_message s m) (same_sockets-IsValid s s.efd (m ∷ s.logged) v) in
    ((false, t), rw f, (valid, why, inl (refl, shut)))

listen_on-Listened :
    (htons : ℕ → ℕ) (s : TcpServer) (epfd created : Option ℕ) (iface : Text) (port : ℕ)
    (is_added : Bool) (x : TcpSocket)
    → IsValid s
    → lookup s.heap listener ≡ some x
    → (r : Bool × TcpServer) × (listen_on s epfd
          (some x)
          (λ z. TcpSocket.connect htons z created port)
          iface
          port
          is_added
        ≡ done r)
      × Listened epfd created is_added r
unfolding listen_on Listened Live TcpSocket.connect epoll_add lookup
listen_on-Listened htons s none created iface port is_added x v at = (
  (false, log_message (record s { efd = none }) epoll_create_failed),
  refl,
  (same_sockets-IsValid s none (epoll_create_failed ∷ s.logged) v, refl, inl (refl, refl)),
)
listen_on-Listened htons s (some e) none iface port is_added x v at =
    failed-Listened (opened s e (connected htons x none port)) (some e) none is_added
      (listener_failed iface port) refl (opened-IsValid htons s e none port x v at)
listen_on-Listened htons s (some e) (some fd) iface port true x v at =
    let m = opened s e (connected htons x (some fd) port) in
    let w = opened-IsValid htons s e (some fd) port x v at in
    (
      (true, record m { watched = add_unique m.watched listener }),
      refl,
      (
        watching-IsValid m listener w w.listener_live,
        refl,
        inr (refl, refl, has-add_unique_self m.watched listener),
      ),
    )
listen_on-Listened htons s (some e) (some fd) iface port false x v at =
    failed-Listened (opened s e (connected htons x (some fd) port)) (some e) (some fd) false
      listener_not_added refl (opened-IsValid htons s e (some fd) port x v at)

-- `listen` of a valid server, also of one in use, returns and leaves a valid server. It answers
-- whether the epoll instance, the listener's socket and its registration have all succeeded. Where
-- one fails epoll is closed; else the listener is registered with the new epoll.
pub listen-Listened :
    (htons : ℕ → ℕ) (s : TcpServer) (epfd created : Option ℕ) (iface : Text) (port : ℕ)
    (is_added : Bool)
    → IsValid s
    → (r : Bool × TcpServer) × (listen htons s epfd created iface port is_added ≡ done r)
      × Listened epfd created is_added r
unfolding listen Live
listen-Listened htons s epfd created iface port is_added v =
    let (t, e, valid, only, shut) = destroy-IsValid s v in
    let (x, at) = valid.listener_live in
    let (r, f, done_well) =
      listen_on-Listened htons t epfd created iface port is_added x valid at in
    (r, rw (e, at) f, done_well)
