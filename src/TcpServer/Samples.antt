-- ===== src/TcpServer/Samples.antt =====
-- An allocator, an epoll and a kernel, for the runs at concrete inputs.
use lowlatency_cpp.Base.{
  length, ◌≤◌, ℕ, ◌+◌, ◌≤◌, ◌≡◌, refl, subst, false, true, List, [], ◌∷◌, arith, some, none, Option,
  ltb, if◌then◌else◌,
}
use lowlatency_cpp.Kernel.{eagain}
use lowlatency_cpp.TcpSocket.{TcpSocket, Kernel, recv_error, send_error}
use lowlatency_cpp.TcpSocket.Receive.{IsHonest}
use lowlatency_cpp.SocketHeap.{Heap, lookup, has}
use lowlatency_cpp.TcpServer.Polling.{max_epoll_events, EpollEvent}
use lowlatency_cpp.TcpServer.Events.{IsEpoll, Reported}

-- An allocator: past all addresses in use.
unfoldable pub new_at : Heap → ℕ
new_at [] = 2
new_at ((q, x) ∷ h) = let rest = new_at h in if ltb q rest then rest else q + 1

lookup-past : (h : Heap) (p : ℕ) → new_at h ≤ p → lookup h p ≡ none
unfolding new_at lookup
lookup-past [] p le = refl
lookup-past ((q, x) ∷ h) p le = ground (arith, lookup-past h p)

pub new_at-fresh : (h : Heap) → lookup h (new_at h) ≡ none
new_at-fresh h = lookup-past h (new_at h) (omega arith)

abbrev pub readable_at : ℕ → EpollEvent
readable_at p = record { ptr = p; err_or_hup = false; readable = true; writable = false }

-- The first registered pointer is readable.
pub first_readable : List ℕ → Option (List EpollEvent)
first_readable [] = some []
first_readable (p ∷ ps) = some (readable_at p ∷ [])

pub first_readable-IsEpoll : IsEpoll first_readable
unfolding first_readable Reported has
first_readable-IsEpoll [] es e =
    let same : [] ≡ es = ground (arith, e) in
    subst (λ (l : List EpollEvent). (length l ≤ max_epoll_events) × Reported [] l) same
      (omega arith, record {})
first_readable-IsEpoll (p ∷ ps) es e =
    let same : readable_at p ∷ [] ≡ es = ground (arith, e) in
    subst (λ (l : List EpollEvent). (length l ≤ max_epoll_events) × Reported (p ∷ ps) l) same
      (omega arith, (ground arith, record {}))

-- The kernel has nothing to read, and its send queue is full.
pub stuck : ℕ → TcpSocket → Kernel
stuck p x = record {
  recvmsg = λ room. recv_error eagain;
  msg_name = λ a. a;
  send_some = λ total offered. send_error eagain;
}

pub stuck-IsHonest : (p : ℕ) (x : TcpSocket) → IsHonest (stuck p x)
unfolding stuck
stuck-IsHonest p x = record {
  takes = λ total offered n e. ground arith;
  gives = λ room bs cs e. ground arith;
  stamps = λ room bs cs e. ground arith;
}
