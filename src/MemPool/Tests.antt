-- ===== src/MemPool/Tests.antt =====
-- Concrete pools: tests of the definitions, and the theorems at inputs that meet their hypotheses.
use lowlatency_cpp.Base.{
  ℕ, ◌+◌, ◌≡◌, ◌≢◌, refl, true, false, some, List, [], ◌∷◌, length, get_elem?, arith, Outcome, done,
  ◌>>=◌, sym, subst, ◌∙◌, zero, suc,
}
use lowlatency_cpp.MemPool.{
  nullptr, ObjectBlock, MemPool, fresh_pool, occupy, vacate, empty_block, create, allocate,
  deallocate, update_next_free_index, destroy, search_free,
}
use lowlatency_cpp.MemPool.Valid.{IsValid, Coherent, fresh_pool-IsValid}
use lowlatency_cpp.MemPool.Allocate.{Allocated, allocate_lem}
use lowlatency_cpp.MemPool.Deallocate.{deallocate-allocate}
use lowlatency_cpp.MemPool.Refines.{Reply, gave, freed, Runs, empty_heap, view, answers, calls_heap}
use lowlatency_cpp.MemPool.Run.{Call, Ledger, alloc, dealloc, run, run-destroy}

-- Three slots of 16 bytes at address 4096.
abbrev pool : MemPool ℕ
pool = fresh_pool 3 4096 16

-- Slot 0 holds 7.
abbrev one_used : MemPool ℕ
one_used = record (occupy pool 0 7) { next_free_index = 1 }

pool-IsValid : IsValid pool
pool-IsValid = fresh_pool-IsValid 3 4096 16 (omega arith) (omega arith) (omega arith) (omega arith)

allocate_first : allocate pool 7 ≡ done (4096, one_used)
unfolding allocate update_next_free_index search_free
allocate_first = refl

deallocate_first : deallocate one_used 4096 ≡ done (true, vacate one_used 0)
unfolding deallocate
deallocate_first = refl

deallocate_inside : deallocate one_used 4100 ≡ done (false, one_used)
unfolding deallocate
deallocate_inside = refl

destroy_one : destroy one_used ≡ done (7 ∷ [])
unfolding destroy
destroy_one = refl

pool_of :
    (a b : ℕ) (p q : MemPool ℕ)
    → ◌≡◌ {A = Outcome (ℕ × MemPool ℕ)} (done (a, p)) (done (b, q))
    → p ≡ q
pool_of a b p q h = ground arith

one_used-IsValid : IsValid one_used
one_used-IsValid =
    let (q, e, v, a) = allocate_lem pool 7 pool-IsValid (omega arith) in
    subst IsValid (pool_of 4096 4096 q one_used (sym e ∙ allocate_first)) v

-- One slot, occupied.
abbrev full : MemPool ℕ
full = occupy (fresh_pool 1 4096 16) 0 5

full-IsValid : IsValid full
full-IsValid = record {
  nonempty = omega arith;
  sized = omega arith;
  next_in = omega arith;
  counted = refl;
  ready = λ h. absurd (omega arith);
  lifetimes = lifetimes;
  base_set = omega arith;
  stride_set = omega arith;
}
  where
    lifetimes : (i : ℕ) (b : ObjectBlock ℕ) → get_elem? full.store i ≡ some b → Coherent b
    lifetimes zero b e = ground arith
    lifetimes (suc i) b e = cc

allocate_lem_example :
    (q : MemPool ℕ) × (allocate pool 7 ≡ done (4096, q)) × IsValid q × Allocated pool 7 q
allocate_lem_example = allocate_lem pool 7 pool-IsValid (omega arith)

deallocate-allocate_example :
    (q r : MemPool ℕ) × (allocate pool 7 ≡ done (4096, q))
    × (deallocate q 4096 ≡ done (true, r))
    × ((i : ℕ) → i ≢ 0 → get_elem? r.store i ≡ get_elem? pool.store i)
    × (get_elem? r.store 0 ≡ some empty_block)
    × (r.num_free ≡ 3)
    × (r.next_free_index ≡ 0)
deallocate-allocate_example = deallocate-allocate pool 7 pool-IsValid (omega arith)

abbrev calls : List (Call ℕ)
calls = alloc 1 ∷ alloc 2 ∷ dealloc 4096 ∷ dealloc 4096 ∷ []

run-destroy_example :
    (l : Ledger ℕ) × (xs : List ℕ) × (run (record { pool = pool; built = 0; destroyed = 0 }) calls
      ≡ done l)
    × (destroy l.pool ≡ done xs)
    × (l.built ≡ l.destroyed + length xs)
unfolding create
run-destroy_example =
    run-destroy 3 4096 16 pool calls (omega arith) (omega arith) (omega arith) refl

calls_heap_example :
    (rs : List Reply) × (q : MemPool ℕ) × ((create 3 4096 16 >>= λ new. answers new calls)
      ≡ done (rs, q))
    × Runs (empty_heap 3) calls rs (view q)
calls_heap_example =
    calls_heap 3 4096 16 calls (omega arith) (omega arith) (omega arith) (omega arith)

calls_answered :
    (create 3 4096 16 >>= λ new. answers new calls)
    ≡ done (
      gave 4096 ∷ gave 4112 ∷ freed true ∷ freed false ∷ [],
      record {
        store = empty_block ∷ record { storage = some 2; is_free = false } ∷ empty_block ∷ [];
        next_free_index = 0;
        num_free = 2;
        base = 4096;
        stride = 16;
      },
    )
unfolding create answers allocate deallocate
calls_answered = refl

-- The calls of tests/memory_pool_test.cpp on a pool of two slots: it is full after two objects, a slot
-- is given back once and used again, and the destructor destroys the object that is left.
abbrev tested : List (Call ℕ)
tested =
    alloc 101 ∷ alloc 202 ∷ alloc 303 ∷ dealloc 4096 ∷ dealloc 4096 ∷ alloc 303 ∷ dealloc 4096 ∷ []

abbrev tested_replies : List Reply
tested_replies =
    gave 4096 ∷ gave 4112 ∷ gave nullptr ∷ freed true ∷ freed false ∷ gave 4096 ∷ freed true ∷ []

abbrev after_calls : List Reply × MemPool ℕ → Outcome (List Reply × List ℕ)
after_calls (rs, q) = destroy q >>= λ xs. done (rs, xs)

tested_passes :
    (create 2 4096 16 >>= λ new. answers new tested >>= after_calls)
    ≡ done (tested_replies, 202 ∷ [])
unfolding create answers allocate deallocate destroy
tested_passes = refl
