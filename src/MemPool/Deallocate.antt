-- ===== src/MemPool/Deallocate.antt =====
-- `deallocate` of include/mem_pool.hpp on a valid pool.
use native.Mathlib.Decide.{ℕ_discrete}
use lowlatency_cpp.Base.{
  ℕ, ◌+◌, ◌<◌, ◌≡◌, ◌≢◌, ◌⊎◌, inl, inr, refl, sym, ap, ◌∙◌, true, false, some, length, get_elem?,
  arith, get_elem?-set_self, get_elem?-set_ne, length-set, get_elem?-lt, get_elem?-exists, done,
  Bool-cases, Option-cases,
}
use lowlatency_cpp.MemPool.{
  ObjectBlock, MemPool, address, vacate, empty_block, find_slot, deallocate, allocate,
}
use lowlatency_cpp.MemPool.Valid.{IsValid, count_free, count_free-set, count_free-le, set-Coherent}
use lowlatency_cpp.MemPool.Allocate.{Allocated, allocate_lem}
use lowlatency_cpp.MemPool.FindSlot.{address_inj, find_slot-hit, find_slot_sound, Occupied}

module _ {ℓ} {T : Type ℓ} where
  module _ (p : MemPool T) (elem i : ℕ) (b : ObjectBlock T) where
    deallocate-found :
        (x : T)
        → elem ≢ 0
        → find_slot p elem (length p.store) 0 ≡ i
        → get_elem? p.store i ≡ some b
        → b.is_free ≡ false
        → b.storage ≡ some x
        → deallocate p elem ≡ done (true, vacate p i)
    unfolding deallocate
    deallocate-found x ne found e used alive = ground (arith, get_elem?-lt p.store i b e)

    deallocate-free :
        find_slot p elem (length p.store) 0 ≡ i
        → get_elem? p.store i ≡ some b
        → b.is_free ≡ true
        → deallocate p elem ≡ done (false, p)
    unfolding deallocate
    deallocate-free found e vacant = ground arith

  deallocate-missing :
      (p : MemPool T) (elem : ℕ)
      → find_slot p elem (length p.store) 0 ≡ length p.store
      → deallocate p elem ≡ done (false, p)
  unfolding deallocate
  deallocate-missing p elem missing = ground arith

  pub find_slot-Occupied :
      (p : MemPool T) (elem i : ℕ)
      → IsValid p
      → Occupied p elem i
      → find_slot p elem (length p.store) 0 ≡ i
  find_slot-Occupied p elem i v (b, e, used, at) = rw (← at) (
      find_slot-hit p i (length p.store) 0 v.stride_set (omega arith)
        (omega (arith, get_elem?-lt p.store i b e)))

  -- Given the address of a slot that holds an object, `deallocate` destroys it, marks the slot free,
  -- makes it the next to be used, and changes no other slot.
  pub deallocate-Occupied :
      (p : MemPool T) (elem i : ℕ)
      → IsValid p
      → Occupied p elem i
      → deallocate p elem ≡ done (true, vacate p i)
  deallocate-Occupied p elem i v (b, e, used, at) = elim (Option-cases b.storage) [
    | inl dead ↦ absurd ((v.lifetimes i b e).1 used dead)
    | inr (x, alive) ↦
        deallocate-found p elem i b x (omega (arith, v.base_set))
          (find_slot-Occupied p elem i v (b, e, used, at)) e used alive
  ]

  count_free-vacate :
      (p : MemPool T) (elem i : ℕ)
      → Occupied p elem i
      → count_free (vacate p i).store ≡ count_free p.store + 1
  count_free-vacate p elem i (b, e, used, at) =
      ground (arith, count_free-set p.store i b empty_block e)

  -- The counter does not wrap.
  pub num_free-vacate :
      (p : MemPool T) (elem i : ℕ)
      → IsValid p
      → Occupied p elem i
      → (vacate p i).num_free ≡ p.num_free + 1
  num_free-vacate p elem i v o = omega (
    arith,
    v.counted,
    v.sized,
    count_free-vacate p elem i o,
    count_free-le (vacate p i).store,
    length-set p.store i empty_block,
  )

  pub vacate-IsValid :
      (p : MemPool T) (elem i : ℕ) → IsValid p → Occupied p elem i → IsValid (vacate p i)
  vacate-IsValid p elem i v (b, e, used, at) = record {
    nonempty = omega (arith, v.nonempty, length-set p.store i empty_block);
    sized = omega (arith, v.sized, length-set p.store i empty_block);
    next_in = omega (arith, length-set p.store i empty_block, get_elem?-lt p.store i b e);
    counted =
        num_free-vacate p elem i v (b, e, used, at)
        ∙ omega (arith, v.counted, count_free-vacate p elem i (b, e, used, at));
    ready = λ _.
        (empty_block, get_elem?-set_self p.store i empty_block (get_elem?-lt p.store i b e), refl);
    lifetimes = set-Coherent p.store i empty_block (λ _. refl, λ h. cc) v.lifetimes;
    base_set = v.base_set;
    stride_set = v.stride_set;
  }

  -- Anything else is refused: `nullptr`, a pointer into the middle of a slot or from elsewhere, and
  -- a slot that is free already. Nothing changes.
  pub deallocate_refuses :
      (p : MemPool T) (elem : ℕ)
      → IsValid p
      → ((i : ℕ) → ¬ Occupied p elem i)
      → deallocate p elem ≡ done (false, p)
  deallocate_refuses p elem v h = elim (find_slot_sound p elem (length p.store) 0) [
    | inl past ↦ deallocate-missing p elem (omega arith)
    | inr (lt, at) ↦
        let i = find_slot p elem (length p.store) 0 in
        let (b, e) = get_elem?-exists p.store i (omega arith) in
        elim (Bool-cases b.is_free) [
          | inl vacant ↦ deallocate-free p elem i b refl e vacant
          | inr used ↦ absurd (h i (b, e, used, at))
        ]
  ]

  Allocated-Occupied :
      (p : MemPool T) (x : T) (q : MemPool T)
      → IsValid p
      → Allocated p x q
      → Occupied q (address p p.next_free_index) p.next_free_index
  Allocated-Occupied p x q v a = (
    record { storage = some x; is_free = false },
    rw a.written (get_elem?-set_self p.store p.next_free_index _ v.next_in),
    refl,
    rw (a.same_base, a.same_stride),
  )

  pub not-Occupied-vacate :
      (p : MemPool T) (elem i : ℕ)
      → IsValid p
      → Occupied p elem i
      → (j : ℕ) → ¬ Occupied (vacate p i) elem j
  not-Occupied-vacate p elem i v (b, e, used, at) j (c, e', used', at') = elim (ℕ_discrete j i) [
    | yes same ↦
        ground (arith, get_elem?-set_self p.store i empty_block (get_elem?-lt p.store i b e))
    | no other ↦ other (address_inj p.base p.stride j i v.stride_set (at' ∙ sym at))
  ]

  free_there :
      (p : MemPool T) (elem i j : ℕ) (b : ObjectBlock T)
      → IsValid p
      → Occupied p elem j
      → i ≡ j
      → get_elem? p.store i ≡ some b
      → ¬ (b.is_free ≡ true)
  free_there p elem i j b v (c, e', used, at) same e vacant =
      let e2 : get_elem? p.store j ≡ some b = rw (← same) e in ground arith

  -- Either some slot is occupied at the address, or none is.
  pub deallocate_cases :
      (p : MemPool T) (elem : ℕ)
      → IsValid p
      → ((i : ℕ) × Occupied p elem i) ⊎ ((i : ℕ) → ¬ Occupied p elem i)
  deallocate_cases p elem v = elim (find_slot_sound p elem (length p.store) 0) [
    | inl past ↦
        inr λ i o. omega (arith, find_slot-Occupied p elem i v o, get_elem?-lt p.store i o.0 o.1)
    | inr (lt, at) ↦
        let i = find_slot p elem (length p.store) 0 in
        let (b, e) = get_elem?-exists p.store i (omega arith) in
        elim (Bool-cases b.is_free) [
          | inl vacant ↦
              inr λ j o. free_there p elem i j b v o (find_slot-Occupied p elem j v o) e vacant
          | inr used ↦ inl (i, (b, e, used, at))
        ]
  ]

  -- What `allocate` returns can be given back: the pool then has the same objects in the same slots
  -- and as many free slots as before, and will use the same slot next.
  pub deallocate-allocate :
      (p : MemPool T) (x : T)
      → IsValid p
      → 0 < p.num_free
      → (q r : MemPool T) × (allocate p x ≡ done (address p p.next_free_index, q))
        × (deallocate q (address p p.next_free_index) ≡ done (true, r))
        × ((i : ℕ) → i ≢ p.next_free_index → get_elem? r.store i ≡ get_elem? p.store i)
        × (get_elem? r.store p.next_free_index ≡ some empty_block)
        × (r.num_free ≡ p.num_free)
        × (r.next_free_index ≡ p.next_free_index)
  deallocate-allocate p x v h =
      let (q, run, w, a) = allocate_lem p x v h in
      (
        q,
        vacate q p.next_free_index,
        run,
        deallocate-Occupied q _ p.next_free_index w (Allocated-Occupied p x q v a),
        (λ i ne.
            get_elem?-set_ne q.store p.next_free_index i empty_block (λ e. ne (sym e))
            ∙ rw a.written (get_elem?-set_ne p.store p.next_free_index i _ (λ e. ne (sym e)))),
        get_elem?-set_self q.store p.next_free_index empty_block
            (get_elem?-lt q.store p.next_free_index _ (Allocated-Occupied p x q v a).1),
        omega (arith, a.taken, v.counted, count_free-le p.store, v.sized),
        refl,
      )

  -- A pointer is given back once: the second time it is refused.
  deallocate_twice :
      (p : MemPool T) (elem i : ℕ)
      → IsValid p
      → Occupied p elem i
      → deallocate (vacate p i) elem ≡ done (false, vacate p i)
  deallocate_twice p elem i v o =
      deallocate_refuses (vacate p i) elem (vacate-IsValid p elem i v o)
        (not-Occupied-vacate p elem i v o)

  -- The slot that was given back last is the one that the next `allocate` uses.
  allocate-deallocate :
      (p : MemPool T) (elem i : ℕ) (x : T)
      → IsValid p
      → Occupied p elem i
      → (q : MemPool T) × (allocate (vacate p i) x ≡ done (elem, q)) × IsValid q × Occupied q elem i
  allocate-deallocate p elem i x v o =
      let (q, run, w, a) =
        allocate_lem (vacate p i) x (vacate-IsValid p elem i v o)
          (omega (arith, num_free-vacate p elem i v o)) in
      let (b, e, used, at) = Allocated-Occupied (vacate p i) x q (vacate-IsValid p elem i v o) a in
      (q, run ∙ ap (λ pointer. done (pointer, q)) o.3, w, (b, e, used, at ∙ o.3))
