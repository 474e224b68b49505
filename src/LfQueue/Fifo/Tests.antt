-- ===== src/LfQueue/Fifo/Tests.antt =====
-- Concrete queues and schedules, and the theorems at inputs that meet their hypotheses.
use lowlatency_cpp.Base.{ℕ, ◌≡◌, refl, none, some, [], ◌∷◌, arith, done, ◌>>=◌, List, true, false}
use lowlatency_cpp.LfQueue.{LfQueue, create, get_next_to_write_to}
use native.Mathlib.Nat.{ℕ_set}
use lowlatency_cpp.LfQueue.Fifo.{push, pop, Contains}
use lowlatency_cpp.LfQueue.Fifo.Calls.{
  Call, to_push, to_pop, Reply, pushed, popped, run, run_list, calls_fifo,
}
use lowlatency_cpp.LfQueue.Fifo.Histories.{Contents, Bounded, Contents-Bounded}

-- One of two slots is used, the second one.
abbrev holding : LfQueue ℕ
holding = record { store = 9 ∷ 4 ∷ []; next_write_index = 0; next_read_index = 1; num_elements = 1 }

abbrev full : LfQueue ℕ
full = record { store = 8 ∷ 4 ∷ []; next_write_index = 1; next_read_index = 1; num_elements = 2 }

-- Four calls of a new queue of one slot; the second value finds no room.
abbrev calls : List (Call ℕ)
calls = to_push 5 ∷ to_push 6 ∷ to_pop ∷ to_pop ∷ []

abbrev given : List (Reply ℕ)
given = pushed true ∷ pushed false ∷ popped (some 5) ∷ popped none ∷ []

calls_give : (run_list 1 [] calls).0 ≡ given
unfolding run_list
calls_give = refl

calls_fifo_example :
    (q : LfQueue ℕ) × ((create 1 0 >>= λ new. run new calls) ≡ done ((run_list 1 [] calls).0, q))
    × Contains 1 q (run_list 1 [] calls).1
calls_fifo_example = calls_fifo 1 0 calls (omega arith) (omega arith)

Contents-Bounded_example : Contents {T = ℕ} 4 0 ≡ Bounded ℕ 4
Contents-Bounded_example = Contents-Bounded ℕ_set 4 0 (omega arith) (omega arith)

push_round_the_end : push holding 8 ≡ some full
unfolding push
push_round_the_end = refl

full_gives_no_slot : get_next_to_write_to full ≡ none
unfolding get_next_to_write_to
full_gives_no_slot = refl

-- `testCapacityAndReuse` of tests/lf_queue_test.cpp: two slots, a third value is refused, the first
-- slot is reused, and the queue is empty at the end.
abbrev capacity_and_reuse : List (Call ℕ)
capacity_and_reuse =
    to_push 101 ∷ to_push 202 ∷ to_push 0 ∷ to_pop ∷ to_push 303 ∷ to_pop ∷ to_pop ∷ to_pop ∷ []

capacity_and_reuse_passes :
    (create 2 0 >>= λ new. run new capacity_and_reuse)
    ≡ done (
      pushed true
          ∷ pushed true
          ∷ pushed false
          ∷ popped (some 101)
          ∷ pushed true
          ∷ popped (some 202)
          ∷ popped (some 303)
          ∷ popped none
          ∷ [],
      record {
        store = 303 ∷ 202 ∷ [];
        next_write_index = 1;
        next_read_index = 1;
        num_elements = 0;
      },
    )
unfolding create run push pop
capacity_and_reuse_passes = refl
