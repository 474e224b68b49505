-- ===== src/TcpServer/Lists.antt =====
-- The lists of pointers and the heap of src/tcp_server.cpp: membership, `addUnique`, removal, lookup.
use lowlatency_cpp.Base.{
  ℕ, ◌≡◌, ◌≢◌, ◌⊎◌, inl, inr, refl, ap, done, true, false, not, ◌||◌, ◌&&◌, List, [], ◌∷◌, ◌++◌,
  ◌==◌, some, none, arith, Bool-cases,
}
use lowlatency_cpp.TcpSocket.{TcpSocket}
use lowlatency_cpp.SocketHeap.{
  delete_socket, Heap, lookup, erase, store, has, add_unique, remove, not_in,
}

-- No pointer stands twice in the list.
unfoldable pub Distinct : List ℕ → Type 0
Distinct [] = Unit
Distinct (p ∷ ps) = (has ps p ≡ false) × Distinct ps

has-append : (ps : List ℕ) (p q : ℕ) → has (ps ++ p ∷ []) q ≡ has ps q || (p == q)
unfolding has
has-append [] p q = ground arith
has-append (r ∷ ps) p q = ground (arith, has-append ps p q)

pub has-add_unique :
    (ps : List ℕ) (p q : ℕ) → has (add_unique ps p) q ≡ true → (q ≡ p) ⊎ (has ps q ≡ true)
unfolding add_unique
has-add_unique ps p q h = ground (arith, has-append ps p q)

pub has-add_unique_old : (ps : List ℕ) (p q : ℕ) → has ps q ≡ true → has (add_unique ps p) q ≡ true
unfolding add_unique
has-add_unique_old ps p q h = ground (arith, has-append ps p q)

pub has-add_unique_self : (ps : List ℕ) (p : ℕ) → has (add_unique ps p) p ≡ true
unfolding add_unique
has-add_unique_self ps p = ground (arith, has-append ps p p)

pub has-remove : (ps : List ℕ) (p q : ℕ) → has (remove ps p) q ≡ true → (q ≢ p) × (has ps q ≡ true)
unfolding has remove
has-remove [] p q h = ground arith
has-remove (r ∷ ps) p q h = ground (arith, has-remove ps p q)

pub has-remove_ne : (ps : List ℕ) (p q : ℕ) → q ≢ p → has ps q ≡ true → has (remove ps p) q ≡ true
unfolding has remove
has-remove_ne [] p q ne h = h
has-remove_ne (r ∷ ps) p q ne h = ground (arith, has-remove_ne ps p q ne)

pub has-remove_none : (ps : List ℕ) (p q : ℕ) → has ps q ≡ false → has (remove ps p) q ≡ false
unfolding has remove
has-remove_none [] p q h = h
has-remove_none (r ∷ ps) p q h = ground (arith, has-remove_none ps p q)

pub remove_idem : (ps : List ℕ) (p : ℕ) → remove (remove ps p) p ≡ remove ps p
unfolding remove
remove_idem [] p = refl
remove_idem (r ∷ ps) p = ground (arith, remove_idem ps p)

pub has-not_in : (ps qs : List ℕ) (q : ℕ) → has (not_in ps qs) q ≡ has qs q && not (has ps q)
unfolding has not_in
has-not_in ps [] q = refl
has-not_in ps (r ∷ qs) q = ground (arith, has-not_in ps qs q)

Distinct-append : (ps : List ℕ) (p : ℕ) → Distinct ps → has ps p ≡ false → Distinct (ps ++ p ∷ [])
unfolding Distinct has
Distinct-append [] p d h = (refl, d)
Distinct-append (r ∷ ps) p d h =
    (ground (arith, has-append ps p r, d.0), Distinct-append ps p d.1 (ground arith))

pub Distinct-add_unique : (ps : List ℕ) (p : ℕ) → Distinct ps → Distinct (add_unique ps p)
unfolding add_unique
Distinct-add_unique ps p d = elim (Bool-cases (has ps p)) [
  | inl there ↦ rw there d
  | inr new ↦ rw new (Distinct-append ps p d new)
]

pub Distinct-remove : (ps : List ℕ) (p : ℕ) → Distinct ps → Distinct (remove ps p)
unfolding Distinct remove
Distinct-remove [] p d = d
Distinct-remove (r ∷ ps) p d = elim (Bool-cases (r == p)) [
  | inl same ↦ rw same (Distinct-remove ps p d.1)
  | inr other ↦ rw other (has-remove_none ps p r d.0, Distinct-remove ps p d.1)
]

pub lookup-erase_self : (h : Heap) (p : ℕ) → lookup (erase h p) p ≡ none
unfolding lookup erase
lookup-erase_self [] p = refl
lookup-erase_self ((q, x) ∷ h) p = ground (arith, lookup-erase_self h p)

pub lookup-erase_ne : (h : Heap) (p q : ℕ) → q ≢ p → lookup (erase h p) q ≡ lookup h q
unfolding lookup erase
lookup-erase_ne [] p q ne = refl
lookup-erase_ne ((r, x) ∷ h) p q ne = ground (arith, lookup-erase_ne h p q ne)

pub lookup-erase :
    (h : Heap) (p q : ℕ) (x : TcpSocket)
    → lookup (erase h p) q ≡ some x
    → (q ≢ p) × (lookup h q ≡ some x)
unfolding lookup erase
lookup-erase [] p q x e = ground arith
lookup-erase ((r, y) ∷ h) p q x e = ground (arith, lookup-erase h p q x)

-- What a write to the heap leads to, at the address and elsewhere.
pub lookup-store :
    (h : Heap) (p q : ℕ) (x y : TcpSocket)
    → lookup (store h p x) q ≡ some y
    → ((q ≡ p) × (x ≡ y)) ⊎ ((q ≢ p) × (lookup h q ≡ some y))
unfolding lookup
lookup-store h p q x y e = ground (arith, lookup-erase h p q y)

pub lookup-store_self : (h : Heap) (p : ℕ) (x : TcpSocket) → lookup (store h p x) p ≡ some x
unfolding lookup
lookup-store_self h p x = ground arith

pub lookup-store_ne :
    (h : Heap) (p q : ℕ) (x : TcpSocket) → q ≢ p → lookup (store h p x) q ≡ lookup h q
unfolding lookup
lookup-store_ne h p q x ne = ground (arith, lookup-erase_ne h p q ne)

erase-absent : (h : Heap) (p : ℕ) → lookup h p ≡ none → erase h p ≡ h
unfolding lookup erase
erase-absent [] p e = refl
erase-absent ((q, x) ∷ h) p e = ground (arith, erase-absent h p)

-- A new socket that is deleted again leaves the heap as it was.
pub erase-store : (h : Heap) (p : ℕ) (x : TcpSocket) → lookup h p ≡ none → erase (store h p x) p ≡ h
unfolding erase
erase-store h p x e = ground (arith, erase-absent h p, ap (λ k. erase k p) (erase-absent h p e))

pub delete_socket-done :
    (h : Heap) (p : ℕ) (x : TcpSocket) → lookup h p ≡ some x → delete_socket h p ≡ done (erase h p)
unfolding delete_socket
delete_socket-done h p x e = ground (arith, e)
