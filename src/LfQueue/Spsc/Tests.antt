-- ===== src/LfQueue/Spsc/Tests.antt =====
-- Concrete queues and schedules, and the theorems at inputs that meet their hypotheses.
use lowlatency_cpp.Base.{
  some, rounds, ℕ, ◌≡◌, ◌≢◌, refl, true, false, List, [], ◌∷◌, ◌++◌, length, drop, arith, Bool,
}
use lowlatency_cpp.LfQueue.{LfQueue, create, blank_queue}
use lowlatency_cpp.LfQueue.Fifo.{push}
use lowlatency_cpp.LfQueue.Spsc.{produce, consume, step, System, run, start}
use lowlatency_cpp.LfQueue.Spsc.Safety.{Reached, fifo, no_race}
use lowlatency_cpp.LfQueue.Spsc.Progress.{delivers}

abbrev two_slots : LfQueue ℕ
two_slots = blank_queue 2 0

abbrev values : List ℕ
values = 5 ∷ 6 ∷ 7 ∷ []

-- The producer writes 5 and takes the slot of 6, while the consumer takes the slot of 5.
abbrev overlapping : List Bool
overlapping = true ∷ true ∷ true ∷ true ∷ true ∷ true ∷ true ∷ true ∷ false ∷ false ∷ []

abbrev both_hold : System ℕ
both_hold = run (start two_slots values) overlapping

both_hold-Reached : Reached 2 values both_hold
unfolding create
both_hold-Reached = record {
  blank = 0;
  queue = two_slots;
  schedule = overlapping;
  made = refl;
  small = omega arith;
  ran = refl;
}

-- The producer writes 5 and publishes it.
abbrev one_write : List Bool
one_write = true ∷ true ∷ true ∷ true ∷ true ∷ true ∷ []

abbrev published_one : System ℕ
published_one = run (start two_slots values) one_write

published_one-Reached : Reached 2 values published_one
unfolding create
published_one-Reached = record {
  blank = 0;
  queue = two_slots;
  schedule = one_write;
  made = refl;
  small = omega arith;
  ran = refl;
}

fifo_example :
    (both_hold.consumed ++ drop (length both_hold.consumed) both_hold.produced) ++ both_hold.inputs
    ≡ values
fifo_example = fifo both_hold-Reached

no_race_example : ◌≢◌ {A = ℕ} 1 0
unfolding run start step produce consume
no_race_example = no_race both_hold-Reached refl refl

delivers_example : (run (start two_slots values) (rounds 40)).consumed ≡ values
delivers_example = delivers 2 0 values 40 (omega arith) (omega arith) (omega arith)

abbrev one_stored : LfQueue ℕ
one_stored = record {
  store = 5 ∷ 0 ∷ [];
  next_write_index = 1;
  next_read_index = 0;
  num_elements = 1;
}

push_first : push two_slots 5 ≡ some one_stored
unfolding push
push_first = refl
