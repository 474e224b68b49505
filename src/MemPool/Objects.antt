-- ===== src/MemPool/Objects.antt =====
-- The abstract view of a pool of include/mem_pool.hpp: which object lives at which address.
use lowlatency_cpp.Base.{
  ℕ, ◌≡◌, ◌≢◌, inl, inr, refl, sym, ◌∙◌, false, Option, none, some, length, set, get_elem?, ◌==◌,
  if◌then◌else◌, arith, get_elem?-set_ne, get_elem?-set_self, get_elem?-exists, get_elem?-past,
  Bool-cases, Option-cases,
}
use lowlatency_cpp.MemPool.{
  ObjectBlock, MemPool, fresh_pool, address, find_slot, vacate, empty_block,
}
use lowlatency_cpp.MemPool.Valid.{IsValid, FreeAt, get_elem?-replicate}
use lowlatency_cpp.MemPool.Allocate.{Allocated}
use lowlatency_cpp.MemPool.FindSlot.{address_inj, find_slot_sound, Occupied}
use lowlatency_cpp.MemPool.Deallocate.{find_slot-Occupied, not-Occupied-vacate, deallocate_cases}

module _ {ℓ} {T : Type ℓ} where
  storage_of : Option (ObjectBlock T) → Option T
  storage_of none = none
  storage_of (some b) = b.storage

  -- The object at an address, if one lives there.
  pub object_at : MemPool T → ℕ → Option T
  unfolding storage_of
  object_at p a = storage_of (get_elem? p.store (find_slot p a (length p.store) 0))

  pub object_at-Occupied :
      (p : MemPool T) (a i : ℕ) (v : IsValid p) (o : Occupied p a i) → object_at p a ≡ (o.0).storage
  unfolding object_at
  object_at-Occupied p a i v (b, e, used, at) =
      rw (find_slot-Occupied p a i v (b, e, used, at), e) refl

  pub object_at-none :
      (p : MemPool T) (a : ℕ) → IsValid p → ((i : ℕ) → ¬ Occupied p a i) → object_at p a ≡ none
  unfolding object_at
  object_at-none p a v nowhere = elim (find_slot_sound p a (length p.store) 0) [
    | inl past ↦
        let missing : find_slot p a (length p.store) 0 ≡ length p.store = omega (arith, past) in
        rw (missing, get_elem?-past p.store) refl
    | inr (lt, at) ↦
        let i = find_slot p a (length p.store) 0 in
        let (b, e) = get_elem?-exists p.store i (omega arith) in
        elim (Bool-cases b.is_free) [
          | inl vacant ↦ rw e ((v.lifetimes i b e).0 vacant)
          | inr used ↦ absurd (nowhere i (b, e, used, at))
        ]
  ]

  pub object_at-fresh :
      (n base stride a : ℕ)
      → IsValid (fresh_pool {T = T} n base stride)
      → object_at (fresh_pool {T = T} n base stride) a ≡ none
  object_at-fresh n base stride a v =
      object_at-none (fresh_pool n base stride) a v
        (λ i (b, e, used, at). ground (arith, used, get_elem?-replicate n i empty_block b e))

  -- In an occupied slot an object lives.
  pub Occupied-object :
      (p : MemPool T) (a i : ℕ) → IsValid p → Occupied p a i → (x : T) × (object_at p a ≡ some x)
  Occupied-object p a i v (b, e, used, at) = elim (Option-cases b.storage) [
    | inl dead ↦ absurd ((v.lifetimes i b e).1 used dead)
    | inr (x, alive) ↦ (x, object_at-Occupied p a i v (b, e, used, at) ∙ alive)
  ]

  -- A write to the slot `k` changes nothing at other addresses.
  object_at-elsewhere :
      (p q : MemPool T) (k a : ℕ) (c : ObjectBlock T)
      → IsValid p
      → IsValid q
      → q.store ≡ set p.store k c
      → q.base ≡ p.base
      → q.stride ≡ p.stride
      → a ≢ address p k
      → object_at q a ≡ object_at p a
  object_at-elsewhere p q k a c v w written base stride other =
      let same : (i : ℕ) → address q i ≡ a → get_elem? q.store i ≡ get_elem? p.store i = λ i at.
        rw written
          (get_elem?-set_ne p.store k i c (λ e. other (sym at ∙ rw (base, stride, ← e) refl))) in
      elim (deallocate_cases p a v) [
        | inl (i, (b, e, used, at)) ↦
            let there : address q i ≡ a = rw (base, stride) at in
            object_at-Occupied q a i w (b, same i there ∙ e, used, there)
            ∙ sym (object_at-Occupied p a i v (b, e, used, at))
        | inr nowhere ↦
            object_at-none q a w
              (λ i o. nowhere i (o.0, sym (same i o.3) ∙ o.1, o.2, rw (← base, ← stride) o.3))
            ∙ sym (object_at-none p a v nowhere)
      ]

  -- The slot that `allocate` takes has no object before.
  pub object_at-next :
      (p : MemPool T)
      → IsValid p
      → FreeAt p.store p.next_free_index
      → object_at p (address p p.next_free_index) ≡ none
  object_at-next p v (b, e, vacant) =
      object_at-none p (address p p.next_free_index) v (λ i (c, e', used, at).
        let same : i ≡ p.next_free_index =
          address_inj p.base p.stride i p.next_free_index v.stride_set at in
        let here : get_elem? p.store p.next_free_index ≡ some c = rw (← same) e' in ground arith)

  pub object_at-Allocated :
      (p : MemPool T) (x : T) (q : MemPool T) (a : ℕ)
      → IsValid p
      → IsValid q
      → Allocated p x q
      → object_at q a ≡ (if a == address p p.next_free_index then some x else object_at p a)
  object_at-Allocated p x q a v w did = elim (Bool-cases (a == address p p.next_free_index)) [
    | inl here ↦
        let at : a ≡ address p p.next_free_index = ground (arith, here) in
        rw (here, at)
          (object_at-Occupied q (address p p.next_free_index) p.next_free_index w (
            record { storage = some x; is_free = false },
            rw did.written (get_elem?-set_self p.store p.next_free_index _ v.next_in),
            refl,
            rw (did.same_base, did.same_stride) refl,
          ))
    | inr away ↦ rw away (
        object_at-elsewhere p q p.next_free_index a (record { storage = some x; is_free = false }) v
          w did.written did.same_base did.same_stride (ground (arith, away)))
  ]

  pub object_at-vacate :
      (p : MemPool T) (elem i a : ℕ)
      → IsValid p
      → IsValid (vacate p i)
      → Occupied p elem i
      → object_at (vacate p i) a ≡ (if a == elem then none else object_at p a)
  object_at-vacate p elem i a v w o = elim (Bool-cases (a == elem)) [
    | inl here ↦
        let at : a ≡ elem = ground (arith, here) in
        rw (here, at) (object_at-none (vacate p i) elem w (not-Occupied-vacate p elem i v o))
    | inr away ↦ rw away (
        object_at-elsewhere p (vacate p i) i a empty_block v w refl refl refl
          (λ at. ground (arith, away, o.3, at)))
  ]
