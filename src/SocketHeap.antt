-- ===== src/SocketHeap.antt =====
-- The pointers of src/tcp_server.cpp: an address in a heap of sockets, and the vectors of pointers.
-- The deletion of a dead pointer is `fault`.
use lowlatency_cpp.Base.{
  ℕ, Bool, true, false, Option, none, some, List, [], ◌∷◌, ◌++◌, ◌==◌, if◌then◌else◌, Outcome, done,
  fault, ◌>>=◌,
}
use lowlatency_cpp.TcpSocket.{TcpSocket}

abbrev pub nullptr : ℕ
nullptr = 0

-- `&listener_socket_`
abbrev pub listener : ℕ
listener = 1

abbrev pub Heap : Type 0
Heap = List (ℕ × TcpSocket)

unfoldable pub lookup : Heap → ℕ → Option TcpSocket
lookup [] p = none
lookup ((q, x) ∷ h) p = if q == p then some x else lookup h p

unfoldable pub erase : Heap → ℕ → Heap
erase [] p = []
erase ((q, x) ∷ h) p = if q == p then erase h p else (q, x) ∷ erase h p

abbrev pub store : Heap → ℕ → TcpSocket → Heap
store h p x = (p, x) ∷ erase h p

-- `std::find(…) != end`
unfoldable pub has : List ℕ → ℕ → Bool
has [] p = false
has (q ∷ qs) p = if q == p then true else has qs p

-- `addUnique`
unfoldable pub add_unique : List ℕ → ℕ → List ℕ
unfolding has
add_unique ps p = if has ps p then ps else ps ++ p ∷ []

-- `erase(remove(…))`
unfoldable pub remove : List ℕ → ℕ → List ℕ
remove [] p = []
remove (q ∷ qs) p = if q == p then remove qs p else q ∷ remove qs p

-- The sockets that the second loop does not skip.
unfoldable pub not_in : List ℕ → List ℕ → List ℕ
unfolding has
not_in ps [] = []
not_in ps (q ∷ qs) = if has ps q then not_in ps qs else q ∷ not_in ps qs

-- `delete socket`
unfoldable pub delete_socket : Heap → ℕ → Outcome Heap
unfolding lookup erase
delete_socket h p = elim (lookup h p) [ none ↦ fault | some x ↦ done (erase h p) ]

unfoldable pub delete_all : Heap → List ℕ → Outcome Heap
unfolding delete_socket
delete_all h [] = done h
delete_all h (p ∷ ps) = delete_socket h p >>= λ h'. delete_all h' ps
