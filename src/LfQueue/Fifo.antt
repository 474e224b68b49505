-- ===== src/LfQueue/Fifo.antt =====
-- The calls of include/lf_queue.hpp one after another: an `LFQueue` is a bounded first-in first-out
-- queue. `push` and `pop` are the protocols of the two sides, each run without interruption.
mod Tests
pub mod Calls
pub mod Histories
use native.Mathlib.Nat.{mod-add-mod, mod-eq_of_lt, add-zero, mod-lt}
use native.Mathlib.Decide.{ℕ_discrete}
use lowlatency_cpp.Base.{
  ℕ, zero, suc, ◌+◌, ◌-◌, ◌%◌, ◌^◌, ◌≤◌, ◌<◌, ◌≡◌, ◌≢◌, refl, sym, ap, ap₂, ◌∙◌, List, [], ◌∷◌,
  ◌++◌, length, get_elem?, set, Option, some, none, Bool, true, false, arith, add_size,
  add_size-mod, mod-ne, length-set, get_elem?-set_self, get_elem?-set_ne, get_elem?-exists,
  get_elem?-append_length, get_elem?-append_lt, length-append, Outcome, done, fault, Option-cases,
  get_or, get_or-set_self, get_or-set_ne, get_elem?-eq-get_or, length-replicate,
}
use lowlatency_cpp.LfQueue.{
  LfQueue, blank_queue, get_next_to_write_to, write_slot, update_write_index, get_next_to_read,
  read_slot, update_read_index, size,
}

module _ {ℓ} {T : Type ℓ} where
  push_at : LfQueue T → Option ℕ → T → Option (LfQueue T)
  push_at q none value = none
  push_at q (some slot) value = some (update_write_index (write_slot q slot value))

  -- The producer's protocol: `none` if the queue is full.
  unfoldable pub push : LfQueue T → T → Option (LfQueue T)
  unfolding push_at get_next_to_write_to write_slot update_write_index
  push q value = push_at q (get_next_to_write_to q) value

  pop_at : LfQueue T → Option ℕ → Outcome (Option T × LfQueue T)
  pop_at q none = done (none, q)
  pop_at q (some slot) = elim (update_read_index q) [
    | done q' ↦ done (read_slot q slot, q')
    | fault ↦ fault
  ]

  -- The consumer's protocol: no value if the queue is empty.
  unfoldable pub pop : LfQueue T → Outcome (Option T × LfQueue T)
  unfolding pop_at get_next_to_read read_slot update_read_index
  pop q = pop_at q (get_next_to_read q)

  -- The queue of `n` slots holds the values `xs`, oldest first, from the read index on.
  pub record Contains (n : ℕ) (q : LfQueue T) (xs : List T) : Type ℓ where
    pub nonempty : 0 < n
    pub small : n < 2 ^ 64
    pub sized : length q.store ≡ n
    pub read_in : q.next_read_index < n
    pub counted : q.num_elements ≡ length xs
    pub fits : length xs ≤ n
    pub write_at : q.next_write_index ≡ (q.next_read_index + length xs) % n
    pub slots :
        (k : ℕ) → k < length xs → get_elem? q.store ((q.next_read_index + k) % n) ≡ get_elem? xs k

  pub blank-Contains :
      (n : ℕ) (blank : T) → 0 < n → n < 2 ^ 64 → Contains n (blank_queue n blank) []
  blank-Contains n blank nonempty small = record {
    nonempty = nonempty;
    small = small;
    sized = length-replicate n blank;
    read_in = nonempty;
    counted = refl;
    fits = omega arith;
    write_at = sym (mod-eq_of_lt nonempty);
    slots = λ k lt. absurd (omega arith);
  }

  -- A full queue gives the producer no slot.
  pub push_full :
      (n : ℕ) (q : LfQueue T) (xs : List T) (x : T)
      → Contains n q xs
      → length xs ≡ n
      → push q x ≡ none
  unfolding push
  push_full n q xs x c full = ground (arith, c.counted, c.sized)

  -- An empty queue gives the consumer no value, and does not change.
  pub pop_empty : (n : ℕ) (q : LfQueue T) → Contains n q [] → pop q ≡ done (none, q)
  unfolding pop
  pop_empty n q c = ground (arith, c.counted)

  module _ (n : ℕ) (q : LfQueue T) (xs : List T) (x : T) (c : Contains n q xs)
      (room : length xs < n) where
    pushed : LfQueue T
    pushed = record {
      store = set q.store q.next_write_index x;
      next_write_index = add_size q.next_write_index 1 % length (set q.store q.next_write_index x);
      next_read_index = q.next_read_index;
      num_elements = add_size q.num_elements 1;
    }

    in_store : q.next_write_index < length q.store
    in_store = omega (arith, c.sized, c.write_at, mod-lt (q.next_read_index + length xs) c.nonempty)

    pushed-slots :
        (k : ℕ)
        → k < length (xs ++ x ∷ [])
        → get_elem? (set q.store q.next_write_index x) ((q.next_read_index + k) % n)
          ≡ get_elem? (xs ++ x ∷ []) k
    pushed-slots k hi = elim (ℕ_discrete k (length xs)) [
      | yes last ↦
          rw (last, get_elem?-append_length xs x, ← c.write_at)
            (get_elem?-set_self q.store q.next_write_index x in_store)
      | no before ↦
          let lt : k < length xs = omega (arith, length-append xs (x ∷ [])) in
          get_elem?-set_ne q.store q.next_write_index _ x (λ same.
            mod-ne n (q.next_read_index + k) (q.next_read_index + length xs) (omega arith)
              (omega arith) (sym same ∙ c.write_at))
          ∙ c.slots k lt
          ∙ sym (get_elem?-append_lt xs (x ∷ []) k lt)
    ]

    pushed-Contains : Contains n pushed (xs ++ x ∷ [])
    unfolding pushed
    pushed-Contains = record {
      nonempty = c.nonempty;
      small = c.small;
      sized = length-set q.store q.next_write_index x ∙ c.sized;
      read_in = c.read_in;
      counted = omega (arith, c.counted, c.small, length-append xs (x ∷ []));
      fits = omega (arith, length-append xs (x ∷ []));
      write_at =
          rw (length-set q.store q.next_write_index x, c.sized, c.write_at)
            (add_size-mod n (q.next_read_index + length xs) c.nonempty c.small
              ∙ ap (λ (k : ℕ). k % n) {x = q.next_read_index + length xs + 1}
                  (omega (arith, length-append xs (x ∷ []))));
      slots = pushed-slots;
    }

    -- While there is room, the producer gets a slot, and what it publishes goes to the end of the
    -- queue; the values that were there stay.
    pub push-Contains : (q' : LfQueue T) × (push q x ≡ some q') × Contains n q' (xs ++ x ∷ [])
    unfolding push pushed
    push-Contains = (pushed, ground (arith, c.counted, c.sized), pushed-Contains)

  module _ (n : ℕ) (q : LfQueue T) (xs : List T) (x : T) (c : Contains n q (x ∷ xs)) where
    popped : LfQueue T
    popped = record q {
      next_read_index = add_size q.next_read_index 1 % length q.store;
      num_elements = (q.num_elements + 2 ^ 64 - 1) % 2 ^ 64;
    }

    next_read : add_size q.next_read_index 1 % length q.store ≡ (q.next_read_index + 1) % n
    next_read =
        let small_step : add_size q.next_read_index 1 ≡ q.next_read_index + 1 =
          omega (arith, c.read_in, c.small) in
        rw (c.sized, small_step)

    after : (k : ℕ) → ((q.next_read_index + 1) % n + k) % n ≡ (q.next_read_index + suc k) % n
    after k =
        mod-add-mod (q.next_read_index + 1) n k
        ∙ ap (λ (m : ℕ). m % n) {x = q.next_read_index + 1 + k} (omega arith)

    first : get_elem? q.store q.next_read_index ≡ some x
    first =
        let here : (q.next_read_index + 0) % n ≡ q.next_read_index =
          rw add-zero (mod-eq_of_lt c.read_in) in
        rw here at (c.slots 0 (omega arith))

    popped-Contains : Contains n popped xs
    unfolding popped
    popped-Contains = record {
      nonempty = c.nonempty;
      small = c.small;
      sized = c.sized;
      read_in = omega (arith, next_read, mod-lt (q.next_read_index + 1) c.nonempty);
      counted = omega (arith, c.counted, c.small, c.fits);
      fits = omega (arith, c.fits);
      write_at = rw next_read (c.write_at ∙ sym (after (length xs)));
      slots = λ k lt. rw (next_read, after k) (c.slots (suc k) (omega arith));
    }

    -- From a queue that is not empty the consumer gets the oldest value, and releases its slot; the
    -- other values stay. No assertion fails.
    pub pop-Contains : (q' : LfQueue T) × (pop q ≡ done (some x, q')) × Contains n q' xs
    unfolding pop popped
    pop-Contains = (popped, ground (arith, c.counted, first), popped-Contains)
