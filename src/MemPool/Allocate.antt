-- ===== src/MemPool/Allocate.antt =====
-- `allocate` of include/mem_pool.hpp on a valid pool.
use native.Mathlib.Decide.{dec_lt}
use native.Mathlib.Nat.{mod-lt}
use lowlatency_cpp.Base.{
  ℕ, ◌+◌, ◌-◌, ◌<◌, ◌≡◌, refl, false, some, length, set, arith, length-set, done,
}
use lowlatency_cpp.MemPool.{MemPool, nullptr, address, occupy, update_next_free_index, allocate}
use lowlatency_cpp.MemPool.Valid.{
  FreeAt, IsValid, count_free, count_free-set, set-Coherent, FreeAt-of_count,
}
use lowlatency_cpp.MemPool.Search.{around, update_next_free_index-Nearest}

module _ {ℓ} {T : Type ℓ} where
  -- What a successful `allocate` of `x` does to the pool: it constructs `x` in the slot that was
  -- next, which was free, and touches no other slot.
  pub record Allocated (p : MemPool T) (x : T) (q : MemPool T) : Type ℓ where
    pub was_free : FreeAt p.store p.next_free_index
    pub written :
        q.store ≡ set p.store p.next_free_index (record { storage = some x; is_free = false })
    pub taken : q.num_free + 1 ≡ p.num_free
    pub same_base : q.base ≡ p.base
    pub same_stride : q.stride ≡ p.stride

  module _ (p : MemPool T) (x : T) (v : IsValid p) (some_free : 0 < p.num_free) where
    abbrev mid : MemPool T
    mid = occupy p p.next_free_index x

    count-mid : count_free mid.store + 1 ≡ count_free p.store
    count-mid =
        let (b, e, f) = v.ready some_free in
        ground (
          arith,
          count_free-set p.store p.next_free_index b (record { storage = some x; is_free = false })
              e,
        )

    -- `mid` with the index anywhere in range at a free slot, if there is one.
    mid-IsValid :
        (j : ℕ)
        → j < length p.store
        → (0 < p.num_free - 1 → FreeAt mid.store j)
        → IsValid (record mid { next_free_index = j })
    mid-IsValid j hj free = record {
      nonempty = omega (
        arith,
        v.nonempty,
        length-set p.store p.next_free_index (record { storage = some x; is_free = false }),
      );
      sized = omega (
        arith,
        v.sized,
        length-set p.store p.next_free_index (record { storage = some x; is_free = false }),
      );
      next_in = omega (
        arith,
        length-set p.store p.next_free_index (record { storage = some x; is_free = false }),
      );
      counted = omega (arith, count-mid, v.counted);
      ready = free;
      lifetimes = set-Coherent p.store p.next_free_index _ (λ h. cc, λ h e. cc) v.lifetimes;
      base_set = v.base_set;
      stride_set = v.stride_set;
    }

    mid-Allocated : (j : ℕ) → Allocated p x (record mid { next_free_index = j })
    mid-Allocated j = record {
      was_free = v.ready some_free;
      written = refl;
      taken = omega arith;
      same_base = refl;
      same_stride = refl;
    }

  allocate-more :
      (p q : MemPool T) (x : T)
      → FreeAt p.store p.next_free_index
      → 0 < p.num_free
      → 0 < p.num_free - 1
      → update_next_free_index (occupy p p.next_free_index x) ≡ done q
      → allocate p x ≡ done (address p p.next_free_index, q)
  unfolding allocate
  allocate-more p q x (b, e, f) h more run = ground arith

  allocate-last :
      (p : MemPool T) (x : T)
      → FreeAt p.store p.next_free_index
      → p.num_free ≡ 1
      → allocate p x ≡ done (address p p.next_free_index, occupy p p.next_free_index x)
  unfolding allocate
  allocate-last p x (b, e, f) h = ground arith

  -- While a slot is free, `allocate` returns the address of a slot that was free, constructs the
  -- object there and nowhere else, and leaves a valid pool with one free slot less.
  pub allocate_lem :
      (p : MemPool T) (x : T)
      → IsValid p
      → 0 < p.num_free
      → (q : MemPool T) × (allocate p x ≡ done (address p p.next_free_index, q))
        × IsValid q
        × Allocated p x q
  allocate_lem p x v h = elim (dec_lt 0 (p.num_free - 1)) [
    | yes more ↦
        let len =
          length-set p.store p.next_free_index (record { storage = some x; is_free = false }) in
        let (k, lt, at) =
          FreeAt-of_count (mid p x v h).store (omega (arith, count-mid p x v h, v.counted)) in
        let (d, le, near, run) =
          update_next_free_index-Nearest (mid p x v h) k (omega (arith, v.sized))
            (omega (arith, v.next_in)) at in
        let j = around (length (mid p x v h).store) p.next_free_index d in
        (
          record (mid p x v h) { next_free_index = j },
          allocate-more p _ x (v.ready h) h more run,
          mid-IsValid p x v h j
              (omega (
                arith,
                mod-lt (p.next_free_index + d) {m = length (mid p x v h).store},
                v.nonempty,
              ))
              (λ _. near.free),
          mid-Allocated p x v h j,
        )
    | no last ↦ (
      mid p x v h,
      allocate-last p x (v.ready h) (omega arith),
      mid-IsValid p x v h p.next_free_index v.next_in (λ e. absurd (last e)),
      mid-Allocated p x v h p.next_free_index,
    )
  ]

  -- A pool with no free slot refuses: `nullptr`, and nothing changes.
  pub allocate_full :
      (p : MemPool T) (x : T)
      → IsValid p
      → count_free p.store ≡ 0
      → allocate p x ≡ done (nullptr, p)
  unfolding allocate
  allocate_full p x v h = ground (arith, v.counted)
