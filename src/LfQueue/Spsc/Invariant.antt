-- ===== src/LfQueue/Spsc/Invariant.antt =====
-- What holds between any two steps of the producer and the consumer.
use lowlatency_cpp.Base.{ℕ, ◌+◌, ◌%◌, ◌^◌, ◌≤◌, ◌<◌, ◌≡◌, length, take, get_elem?}
use lowlatency_cpp.LfQueue.Spsc.{
  Producer, p_idle, p_checked, p_slot, p_loaded, p_stored, Consumer, c_idle, c_checked, c_slot,
  c_loaded, c_stored, c_failed, System,
}

-- 1 while the producer has been granted a slot that it has not published.
abbrev pub granted : Producer → ℕ
granted p_idle = 0
granted _ = 1

-- 1 while a value is written and not published.
abbrev pub pending : Producer → ℕ
pending p_idle = 0
pending p_checked = 0
pending (p_slot w) = 0
pending _ = 1

-- 1 while the write index is ahead of the count.
abbrev pub advanced : Producer → ℕ
advanced p_stored = 1
advanced _ = 0

-- 1 while the producer has a value in hand that it has not written.
abbrev pub in_hand : Producer → ℕ
in_hand p_checked = 1
in_hand (p_slot w) = 1
in_hand _ = 0

abbrev pub borrowed : Consumer → ℕ
borrowed c_idle = 0
borrowed _ = 1

abbrev pub used : Consumer → ℕ
used c_idle = 0
used c_checked = 0
used (c_slot r) = 0
used _ = 1

abbrev pub passed : Consumer → ℕ
passed c_stored = 1
passed _ = 0

-- The indices that a thread has loaded are those of its next item.
abbrev pub Holds : Producer → ℕ → Type 0
Holds (p_slot w) here = w ≡ here
Holds (p_loaded i) here = i ≡ here
Holds _ here = Unit {0}

abbrev pub Reads : Consumer → ℕ → Type 0
Reads (c_slot r) here = r ≡ here
Reads (c_loaded i) here = i ≡ here
Reads c_failed here = ⊥
Reads _ here = Unit {0}

pub record Inv {ℓ} {T : Type ℓ} (n : ℕ) (s : System T) : Type ℓ where
  pub nonempty : 0 < n
  pub small : n < 2 ^ 64
  pub sized : length s.queue.store ≡ n
  pub counted : s.queue.num_elements + s.released ≡ s.published
  pub room : s.queue.num_elements + granted s.producer ≤ n
  pub available : borrowed s.consumer ≤ s.queue.num_elements
  pub write_at : s.queue.next_write_index ≡ (s.published + advanced s.producer) % n
  pub read_at : s.queue.next_read_index ≡ (s.released + passed s.consumer) % n
  pub wrote : length s.produced ≡ s.published + pending s.producer
  pub read : length s.consumed ≡ s.released + used s.consumer
  pub holds : Holds s.producer (s.published % n)
  pub reads : Reads s.consumer (s.released % n)
  pub supplied : in_hand s.producer ≤ length s.inputs
  pub slots :
      (k : ℕ)
      → s.released ≤ k
      → k < length s.produced
      → get_elem? s.queue.store (k % n) ≡ get_elem? s.produced k
  pub in_order : s.consumed ≡ take (length s.consumed) s.produced
