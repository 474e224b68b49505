-- ===== src/LfQueue/Spsc.antt =====
-- One producer thread and one consumer thread on an `LFQueue` (include/lf_queue.hpp), interleaved at
-- each access to shared memory (the atomics are sequentially consistent).
pub mod Invariant
pub mod Steps
pub mod Safety
pub mod Progress
pub mod Client
mod Tests
use lowlatency_cpp.Base.{
  ℕ, ◌+◌, ◌-◌, ◌%◌, ◌^◌, Bool, true, false, Option, none, some, List, [], ◌∷◌, ◌++◌, length, set,
  get_elem?, ◌==◌, if◌then◌else◌, add_size,
}
use lowlatency_cpp.LfQueue.{LfQueue}

-- Where the producer stands: before the load of `num_elements_` in `getNextToWriteTo`; before the
-- load of `next_write_index_` there; holding the slot; after its write; in `updateWriteIndex` with
-- the index loaded; before the increment of `num_elements_`.
pub data Producer : Type 0 where
  p_idle : Producer
  p_checked : Producer
  p_slot : ℕ → Producer
  p_wrote : Producer
  p_loaded : ℕ → Producer
  p_stored : Producer

-- The same for the consumer, in `getNextToRead` and `updateReadIndex`. `c_failed` is a failed
-- assertion, or a read outside the store.
pub data Consumer : Type 0 where
  c_idle : Consumer
  c_checked : Consumer
  c_slot : ℕ → Consumer
  c_used : Consumer
  c_asserted : Consumer
  c_loaded : ℕ → Consumer
  c_stored : Consumer
  c_failed : Consumer

-- `inputs` are the values that the producer has still to write. The last four fields are the
-- history: the values written and read so far, and how many were published and released.
pub record System {ℓ} (T : Type ℓ) : Type ℓ where
  pub queue : LfQueue T
  pub producer : Producer
  pub consumer : Consumer
  pub inputs : List T
  pub produced : List T
  pub consumed : List T
  pub published : ℕ
  pub released : ℕ

module _ {ℓ} {T : Type ℓ} where
  abbrev pub write_next : System T → ℕ → List T → System T
  write_next s w [] = s
  write_next s w (v ∷ vs) = record s {
    queue = record s.queue { store = set s.queue.store w v };
    producer = p_wrote;
    inputs = vs;
    produced = s.produced ++ v ∷ [];
  }

  -- One step of the producer. It asks for a slot only if it has a value to write.
  unfoldable pub produce : System T → Producer → List T → System T
  produce s p_idle [] = s
  produce s p_idle (v ∷ vs) =
      if s.queue.num_elements == length s.queue.store then s else record s { producer = p_checked }
  produce s p_checked vs = record s { producer = p_slot s.queue.next_write_index }
  produce s (p_slot w) vs = write_next s w vs
  produce s p_wrote vs = record s { producer = p_loaded s.queue.next_write_index }
  produce s (p_loaded i) vs = record s {
    queue = record s.queue { next_write_index = add_size i 1 % length s.queue.store };
    producer = p_stored;
  }
  produce s p_stored vs = record s {
    queue = record s.queue { num_elements = add_size s.queue.num_elements 1 };
    producer = p_idle;
    published = s.published + 1;
  }

  abbrev pub take_item : System T → Option T → System T
  take_item s none = record s { consumer = c_failed }
  take_item s (some v) = record s { consumer = c_used; consumed = s.consumed ++ v ∷ [] }

  -- One step of the consumer.
  pub consume : System T → Consumer → System T
  consume s c_idle = if s.queue.num_elements == 0 then s else record s { consumer = c_checked }
  consume s c_checked = record s { consumer = c_slot s.queue.next_read_index }
  consume s (c_slot r) = take_item s (get_elem? s.queue.store r)
  consume s c_used =
      if s.queue.num_elements == 0
      then record s { consumer = c_failed }
      else record s { consumer = c_asserted }
  consume s c_asserted = record s { consumer = c_loaded s.queue.next_read_index }
  consume s (c_loaded i) = record s {
    queue = record s.queue { next_read_index = add_size i 1 % length s.queue.store };
    consumer = c_stored;
  }
  consume s c_stored = record s {
    queue = record s.queue { num_elements = (s.queue.num_elements + 2 ^ 64 - 1) % 2 ^ 64 };
    consumer = c_idle;
    released = s.released + 1;
  }
  consume s c_failed = s

  -- The scheduler picks the thread that moves: `true` for the producer.
  unfoldable pub step : System T → Bool → System T
  unfolding produce consume
  step s true = produce s s.producer s.inputs
  step s false = consume s s.consumer

  pub run : System T → List Bool → System T
  run s [] = s
  run s (t ∷ ts) = run (step s t) ts

  unfoldable pub start : LfQueue T → List T → System T
  start q inputs = record {
    queue = q;
    producer = p_idle;
    consumer = c_idle;
    inputs = inputs;
    produced = [];
    consumed = [];
    published = 0;
    released = 0;
  }
