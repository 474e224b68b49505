-- ===== src/MemPool/Run.antt =====
-- Any sequence of calls on a pool of include/mem_pool.hpp, and its destructor at the end.
use native.Mathlib.Decide.{dec_lt}
use lowlatency_cpp.Base.{
  ℕ, suc, ◌+◌, ◌^◌, ◌<◌, ◌≡◌, inl, inr, refl, ap, Bool, true, false, some, List, [], ◌∷◌, length,
  get_elem?, arith, length-set, ◌==◌, if◌then◌else◌, Outcome, done, ◌>>=◌, Bool-cases, Option-cases,
}
use lowlatency_cpp.MemPool.{
  ObjectBlock, MemPool, nullptr, address, vacate, create, allocate, deallocate, empty_block,
  destroy_blocks, destroy,
}
use lowlatency_cpp.MemPool.Valid.{IsValid, Coherent, count_free, create-IsValid}
use lowlatency_cpp.MemPool.Allocate.{allocate_lem, allocate_full}
use lowlatency_cpp.MemPool.Deallocate.{
  deallocate-Occupied, deallocate_refuses, deallocate_cases, vacate-IsValid, num_free-vacate,
}

pub data Call {ℓ} (T : Type ℓ) : Type ℓ where
  alloc : T → Call T
  dealloc : ℕ → Call T

-- A pool with the numbers of objects that were constructed in it and destroyed so far.
pub record Ledger {ℓ} (T : Type ℓ) : Type ℓ where
  pub pool : MemPool T
  pub built : ℕ
  pub destroyed : ℕ

module _ {ℓ} {T : Type ℓ} where
  abbrev book_alloc : Ledger T → ℕ × MemPool T → Ledger T
  book_alloc l (pointer, q) = record l {
    pool = q;
    built = if pointer == nullptr then l.built else l.built + 1;
  }

  abbrev book_dealloc : Ledger T → Bool × MemPool T → Ledger T
  book_dealloc l (freed, q) = record l {
    pool = q;
    destroyed = if freed then l.destroyed + 1 else l.destroyed;
  }

  -- One call, booked.
  pub step : Ledger T → Call T → Outcome (Ledger T)
  step l (alloc x) = allocate l.pool x >>= λ r. done (book_alloc l r)
  step l (dealloc pointer) = deallocate l.pool pointer >>= λ r. done (book_dealloc l r)

  pub run : Ledger T → List (Call T) → Outcome (Ledger T)
  run l [] = done l
  run l (c ∷ cs) = step l c >>= λ l'. run l' cs

  -- The pool is valid, and what was constructed and not destroyed is what occupies the slots.
  pub record Balanced (l : Ledger T) : Type ℓ where
    pub valid : IsValid l.pool
    pub books : l.built + l.pool.num_free ≡ l.destroyed + length l.pool.store

  step-alloc :
      (l : Ledger T) (x : T)
      → Balanced l
      → (l' : Ledger T) × (step l (alloc x) ≡ done l') × Balanced l'
  unfolding step
  step-alloc l x b = elim (dec_lt 0 l.pool.num_free) [
    | yes h ↦
        let (q, run, w, a) = allocate_lem l.pool x b.valid h in
        (
          book_alloc l (address l.pool l.pool.next_free_index, q),
          rw (run, ◌>>=◌),
          record {
            valid = w;
            books = ground (
              arith,
              b.books,
              a.taken,
              b.valid.base_set,
              ap length a.written,
              length-set l.pool.store l.pool.next_free_index
                  (record { storage = some x; is_free = false }),
            );
          },
        )
    | no h ↦ (l, rw (allocate_full l.pool x b.valid (omega (arith, b.valid.counted)), ◌>>=◌), b)
  ]

  step-dealloc :
      (l : Ledger T) (e : ℕ)
      → Balanced l
      → (l' : Ledger T) × (step l (dealloc e) ≡ done l') × Balanced l'
  unfolding step
  step-dealloc l e b = elim (deallocate_cases l.pool e b.valid) [
    | inl (i, o) ↦ (
      book_dealloc l (true, vacate l.pool i),
      rw (deallocate-Occupied l.pool e i b.valid o, ◌>>=◌),
      record {
        valid = vacate-IsValid l.pool e i b.valid o;
        books = omega (
          arith,
          b.books,
          num_free-vacate l.pool e i b.valid o,
          length-set l.pool.store i empty_block,
        );
      },
    )
    | inr none_there ↦ (l, rw (deallocate_refuses l.pool e b.valid none_there, ◌>>=◌), b)
  ]

  step-Balanced :
      (l : Ledger T) (c : Call T)
      → Balanced l
      → (l' : Ledger T) × (step l c ≡ done l') × Balanced l'
  step-Balanced l (alloc x) b = step-alloc l x b
  step-Balanced l (dealloc e) b = step-dealloc l e b

  run-Balanced :
      (l : Ledger T) (cs : List (Call T))
      → Balanced l
      → (l' : Ledger T) × (run l cs ≡ done l') × Balanced l'
  unfolding run
  run-Balanced l [] b = (l, refl, b)
  run-Balanced l (c ∷ cs) b =
      let (m, here, bm) = step-Balanced l c b in
      let (l', there, b') = run-Balanced m cs bm in (l', rw (here, ◌>>=◌) there, b')

  destroy_blocks-length :
      (bs : List (ObjectBlock T))
      → ((i : ℕ) (b : ObjectBlock T) → get_elem? bs i ≡ some b → Coherent b)
      → (xs : List T) × (destroy_blocks bs ≡ done xs) × (length xs + count_free bs ≡ length bs)
  unfolding destroy_blocks
  destroy_blocks-length [] h = ([], refl, refl)
  destroy_blocks-length (b ∷ bs) h =
      let (xs, e, n) = destroy_blocks-length bs (λ i. h (suc i)) in
      elim (Bool-cases b.is_free) [
        | inl vacant ↦ (xs, ground arith, ground arith)
        | inr used ↦ elim (Option-cases b.storage) [
          | inl dead ↦ absurd ((h 0 b refl).1 used dead)
          | inr (x, alive) ↦ (x ∷ xs, ground arith, ground arith)
        ]
      ]

  -- A pool of `n` slots takes any sequence of calls without undefined behaviour, and its destructor
  -- then destroys as many objects as were constructed and not given back.
  pub run-destroy :
      (n base stride : ℕ) (p : MemPool T) (cs : List (Call T))
      → n < 2 ^ 64
      → 0 < base
      → 0 < stride
      → create n base stride ≡ done p
      → (l : Ledger T) × (xs : List T) × (run (record { pool = p; built = 0; destroyed = 0 }) cs
          ≡ done l)
        × (destroy l.pool ≡ done xs)
        × (l.built ≡ l.destroyed + length xs)
  unfolding destroy
  run-destroy n base stride p cs small hb hs e =
      let (v, count, len) = create-IsValid n base stride small hb hs e in
      let (l, r, b) =
        run-Balanced (record { pool = p; built = 0; destroyed = 0 }) cs
          (record { valid = v; books = omega (arith, count, len) }) in
      let (xs, d, live) = destroy_blocks-length l.pool.store b.valid.lifetimes in
      (l, xs, r, d, omega (arith, b.books, b.valid.counted, live))
