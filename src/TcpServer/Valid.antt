-- ===== src/TcpServer/Valid.antt =====
-- Who owns what in a `TCPServer`: the invariant of src/tcp_server.cpp.
use lowlatency_cpp.Base.{
  ℕ, ◌≡◌, ◌≢◌, ◌⊎◌, inl, inr, sym, ◌∙◌, true, false, List, [], Option, some, arith, subst, ap,
}
use native.Mathlib.Decide.{ℕ_discrete}
use lowlatency_cpp.TcpSocket.{TcpSocket}
use lowlatency_cpp.TcpSocket.Buffer as Buffer
use lowlatency_cpp.Logger.Messages.{Message}
use lowlatency_cpp.TcpServer.{TcpServer}
use lowlatency_cpp.SocketHeap.{Heap, lookup, erase, store, has, add_unique, remove, listener}
use lowlatency_cpp.TcpServer.Lists.{
  Distinct, has-add_unique, has-remove, lookup-erase_ne, lookup-store_self, lookup-store_ne,
}

-- The pointer may be used.
unfoldable pub Live : Heap → ℕ → Type 0
Live h p = (x : TcpSocket) × (lookup h p ≡ some x)

unfoldable pub AllLive : Heap → List ℕ → Type 0
unfolding Live
AllLive h ps = (p : ℕ) → has ps p ≡ true → Live h p

-- No list, and not epoll, holds a pointer to a deleted socket; no vector holds a pointer twice; the
-- server owns each live socket but the listener; every live socket is well formed.
pub record IsValid (s : TcpServer) : Type 0 where
  pub sockets_live : AllLive s.heap s.sockets
  pub receive_live : AllLive s.heap s.receive_sockets
  pub send_live : AllLive s.heap s.send_sockets
  pub disconnected_live : AllLive s.heap s.disconnected_sockets
  pub watched_live : AllLive s.heap s.watched
  pub listener_live : Live s.heap listener
  pub listener_apart : has s.sockets listener ≡ false
  pub sockets_once : Distinct s.sockets
  pub receive_once : Distinct s.receive_sockets
  pub send_once : Distinct s.send_sockets
  pub disconnected_once : Distinct s.disconnected_sockets
  pub owned : (p : ℕ) → Live s.heap p → (p ≡ listener) ⊎ (has s.sockets p ≡ true)
  pub buffers : (p : ℕ) (x : TcpSocket) → lookup s.heap p ≡ some x → Buffer.IsValid x

pub AllLive-nil : (h : Heap) → AllLive h []
unfolding AllLive has
AllLive-nil h p e = ground arith

pub Live-erase : (h : Heap) (p q : ℕ) → q ≢ p → Live h q → Live (erase h p) q
unfolding Live
Live-erase h p q ne (x, e) = (x, lookup-erase_ne h p q ne ∙ e)

pub AllLive-remove :
    (h : Heap) (ps : List ℕ) (p : ℕ) → AllLive h ps → AllLive (erase h p) (remove ps p)
unfolding AllLive
AllLive-remove h ps p a q there =
    let (ne, old) = has-remove ps p q there in Live-erase h p q ne (a q old)

pub AllLive-add_unique :
    (h : Heap) (ps : List ℕ) (p : ℕ) → AllLive h ps → Live h p → AllLive h (add_unique ps p)
unfolding AllLive
AllLive-add_unique h ps p a l q there = elim (has-add_unique ps p q there) [
  | inl same ↦ subst (λ r. Live h r) (sym same) l
  | inr old ↦ a q old
]

pub Live-store : (h : Heap) (p q : ℕ) (x : TcpSocket) → Live h q → Live (store h p x) q
unfolding Live
Live-store h p q x (y, e) = elim (ℕ_discrete q p) [
  | yes same ↦ (x, ap (lookup (store h p x)) same ∙ lookup-store_self h p x)
  | no ne ↦ (y, lookup-store_ne h p q x ne ∙ e)
]

pub Live-store_self : (h : Heap) (p : ℕ) (x : TcpSocket) → Live (store h p x) p
unfolding Live
Live-store_self h p x = (x, lookup-store_self h p x)

pub AllLive-store :
    (h : Heap) (ps : List ℕ) (p : ℕ) (x : TcpSocket) → AllLive h ps → AllLive (store h p x) ps
unfolding AllLive
AllLive-store h ps p x a q there = Live-store h p q x (a q there)

-- The ownership of sockets depends neither on epoll's descriptor nor on the log.
pub same_sockets-IsValid :
    (s : TcpServer) (efd : Option ℕ) (messages : List Message)
    → IsValid s
    → IsValid (record s { efd = efd; logged = messages })
same_sockets-IsValid s efd messages v = record {
  sockets_live = v.sockets_live;
  receive_live = v.receive_live;
  send_live = v.send_live;
  disconnected_live = v.disconnected_live;
  watched_live = v.watched_live;
  listener_live = v.listener_live;
  listener_apart = v.listener_apart;
  sockets_once = v.sockets_once;
  receive_once = v.receive_once;
  send_once = v.send_once;
  disconnected_once = v.disconnected_once;
  owned = v.owned;
  buffers = v.buffers;
}
