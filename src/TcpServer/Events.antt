-- ===== src/TcpServer/Events.antt =====
-- The loop over the events of `poll` in src/tcp_server.cpp.
use lowlatency_cpp.Base.{
  ℕ, length, ◌≤◌, ◌≡◌, inl, inr, refl, ◌∙◌, Bool, true, false, not, ◌&&◌, List, [], ◌∷◌, ◌==◌,
  Option, some, arith, Bool-cases,
}
use lowlatency_cpp.TcpServer.{TcpServer, when}
use lowlatency_cpp.TcpServer.Polling.{EpollEvent, max_epoll_events, on_event, on_events}
use lowlatency_cpp.SocketHeap.{Heap, has, listener, nullptr}
use lowlatency_cpp.TcpServer.Lists.{Distinct, Distinct-add_unique}
use lowlatency_cpp.TcpServer.Valid.{Live, AllLive, IsValid, AllLive-add_unique}

-- The events are about registered pointers.
unfoldable pub Reported : List ℕ → List EpollEvent → Type 0
Reported ws [] = Unit {0}
Reported ws (e ∷ es) = (has ws e.ptr ≡ true) × Reported ws es

-- `epoll_wait` reports registered pointers only, and at most as many events as it is asked for.
abbrev pub IsEpoll : (List ℕ → Option (List EpollEvent)) → Type 0
IsEpoll epoll_wait =
    (ws : List ℕ) (es : List EpollEvent)
    → epoll_wait ws ≡ some es
    → (length es ≤ max_epoll_events) × Reported ws es

pub when-AllLive :
    (b : Bool) (h : Heap) (ps : List ℕ) (p : ℕ) → AllLive h ps → Live h p → AllLive h (when b ps p)
when-AllLive true h ps p a l = AllLive-add_unique h ps p a l
when-AllLive false h ps p a l = a

pub when-Distinct : (b : Bool) (ps : List ℕ) (p : ℕ) → Distinct ps → Distinct (when b ps p)
when-Distinct true ps p d = Distinct-add_unique ps p d
when-Distinct false ps p d = d

pub marked-IsValid :
    (s : TcpServer) (b : Bool) (p : ℕ)
    → IsValid s
    → Live s.heap p
    → IsValid (record s { disconnected_sockets = when b s.disconnected_sockets p })
marked-IsValid s b p v l = record {
  sockets_live = v.sockets_live;
  receive_live = v.receive_live;
  send_live = v.send_live;
  disconnected_live = when-AllLive b s.heap s.disconnected_sockets p v.disconnected_live l;
  watched_live = v.watched_live;
  listener_live = v.listener_live;
  listener_apart = v.listener_apart;
  sockets_once = v.sockets_once;
  receive_once = v.receive_once;
  send_once = v.send_once;
  disconnected_once = when-Distinct b s.disconnected_sockets p v.disconnected_once;
  owned = v.owned;
  buffers = v.buffers;
}

ready-IsValid :
    (s : TcpServer) (b c : Bool) (p : ℕ)
    → IsValid s
    → Live s.heap p
    → IsValid (record s {
      receive_sockets = when b s.receive_sockets p;
      send_sockets = when c s.send_sockets p;
    })
ready-IsValid s b c p v l = record {
  sockets_live = v.sockets_live;
  receive_live = when-AllLive b s.heap s.receive_sockets p v.receive_live l;
  send_live = when-AllLive c s.heap s.send_sockets p v.send_live l;
  disconnected_live = v.disconnected_live;
  watched_live = v.watched_live;
  listener_live = v.listener_live;
  listener_apart = v.listener_apart;
  sockets_once = v.sockets_once;
  receive_once = when-Distinct b s.receive_sockets p v.receive_once;
  send_once = when-Distinct c s.send_sockets p v.send_once;
  disconnected_once = v.disconnected_once;
  owned = v.owned;
  buffers = v.buffers;
}

-- Still valid, with the same registered pointers.
unfoldable pub Watches : List ℕ → TcpServer → Type 0
Watches ws s = IsValid s × (s.watched ≡ ws)

on_event-Watches :
    (ws : List ℕ) (s : TcpServer) (fresh : Bool) (e : EpollEvent)
    → has ws e.ptr ≡ true
    → Watches ws s
    → Watches ws (on_event (fresh, s) e).1
unfolding on_event Watches AllLive
on_event-Watches ws s fresh e known (v, same) =
    let l : Live s.heap e.ptr = v.watched_live e.ptr (rw same known) in
    elim (Bool-cases (e.ptr == nullptr)) [
      | inl null ↦ rw null (v, same)
      | inr real ↦ elim (Bool-cases e.err_or_hup) [
        | inl bad ↦ rw (real, bad) (marked-IsValid s (not (e.ptr == listener)) e.ptr v l, same)
        | inr good ↦ elim (Bool-cases (e.readable && e.ptr == listener)) [
          | inl new ↦ rw (real, good, new) (v, same)
          | inr old ↦ rw (real, good, old) (ready-IsValid s e.readable e.writable e.ptr v l, same)
        ]
      ]
    ]

pub on_events-Watches :
    (ws : List ℕ) (r : Bool × TcpServer) (es : List EpollEvent)
    → Reported ws es
    → Watches ws r.1
    → Watches ws (on_events r es).1
unfolding on_events Reported
on_events-Watches ws r [] known w = w
on_events-Watches ws r (e ∷ es) known w =
    on_events-Watches ws (on_event r e) es known.1 (on_event-Watches ws r.1 r.0 e known.0 w)

-- The events change no socket, and not what the server owns.
pub on_event-same :
    (r : Bool × TcpServer) (e : EpollEvent)
    → ((on_event r e).1.heap ≡ r.1.heap) × ((on_event r e).1.sockets ≡ r.1.sockets)
unfolding on_event
on_event-same r e = ground arith

pub on_events-same :
    (r : Bool × TcpServer) (es : List EpollEvent)
    → ((on_events r es).1.heap ≡ r.1.heap) × ((on_events r es).1.sockets ≡ r.1.sockets)
unfolding on_events
on_events-same r [] = (refl, refl)
on_events-same r (e ∷ es) =
    let (h, s) = on_event-same r e in
    let (i, t) = on_events-same (on_event r e) es in (i ∙ h, t ∙ s)
