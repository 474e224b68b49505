-- ===== src/LfQueue/Spsc/Client.antt =====
-- What a program that runs the two threads relies on: the effect of one step of either, and when a
-- step gets on. A client uses these laws and leaves the steps shut.
use lowlatency_cpp.Base.{
  ℕ, ◌+◌, ◌≡◌, ◌⊎◌, inl, inr, refl, sym, ap, ◌∙◌, List, [], ◌∷◌, ◌++◌, length, get_elem?, Option,
  some, none, Bool, true, false, arith, Option-cases, append-nil,
}
use lowlatency_cpp.LfQueue.{LfQueue}
use lowlatency_cpp.LfQueue.Spsc.{
  Producer, p_idle, Consumer, c_idle, c_checked, c_slot, c_used, c_asserted, c_loaded, c_stored,
  c_failed, System, consume, produce, step, run,
}
use lowlatency_cpp.LfQueue.Spsc.Invariant.{Inv, borrowed}
use lowlatency_cpp.LfQueue.Spsc.Safety.{run-inputs}
use lowlatency_cpp.LfQueue.Spsc.Progress.{
  made, produce-made, produce-blocked, consume-made, nil_of_length, all_read,
}

idle_of_borrowed : (c : Consumer) → borrowed c ≡ 0 → c ≡ c_idle
idle_of_borrowed c_idle h = refl
idle_of_borrowed c h = absurd (ground arith)

module _ {ℓ} {T : Type ℓ} where
  -- What the consumer's next step takes from the queue.
  abbrev pub held : Option T → List T
  held none = []
  held (some v) = v ∷ []

  abbrev pub taken : LfQueue T → Consumer → List T
  taken q (c_slot r) = held (get_elem? q.store r)
  taken q c = []

  consume-taken :
      (s : System T) (c : Consumer) → (consume s c).consumed ≡ s.consumed ++ taken s.queue c
  unfolding consume
  consume-taken s (c_slot r) = elim (Option-cases (get_elem? s.queue.store r)) [
    | inl e ↦ rw e (sym (append-nil s.consumed))
    | inr (v, e) ↦ rw e
  ]
  consume-taken s c_idle = ground (arith, append-nil s.consumed)
  consume-taken s c_checked = sym (append-nil s.consumed)
  consume-taken s c_used = ground (arith, append-nil s.consumed)
  consume-taken s c_asserted = sym (append-nil s.consumed)
  consume-taken s (c_loaded i) = sym (append-nil s.consumed)
  consume-taken s c_stored = sym (append-nil s.consumed)
  consume-taken s c_failed = sym (append-nil s.consumed)

  pub step-taken : (s : System T) → (step s false).consumed ≡ s.consumed ++ taken s.queue s.consumer
  unfolding step
  step-taken s = consume-taken s s.consumer

  consume-keeps :
      (s : System T) (c : Consumer)
      → ((consume s c).producer ≡ s.producer) × ((consume s c).inputs ≡ s.inputs)
  unfolding consume
  consume-keeps s (c_slot r) = ground arith
  consume-keeps s c_idle = ground arith
  consume-keeps s c = ground arith

  -- The consumer leaves the producer where it is.
  pub step-keeps :
      (s : System T) → ((step s false).producer ≡ s.producer) × ((step s false).inputs ≡ s.inputs)
  unfolding step
  step-keeps s = consume-keeps s s.consumer

  consume-keeps_written :
      (s : System T) (c : Consumer)
      → ((consume s c).queue.store ≡ s.queue.store) × ((consume s c).produced ≡ s.produced)
  unfolding consume
  consume-keeps_written s (c_slot r) = ground arith
  consume-keeps_written s c_idle = ground arith
  consume-keeps_written s c = ground arith

  -- The consumer leaves what is written as it is.
  pub step-keeps_written :
      (s : System T)
      → ((step s false).queue.store ≡ s.queue.store) × ((step s false).produced ≡ s.produced)
  unfolding step
  step-keeps_written s = consume-keeps_written s s.consumer

  -- The producer leaves the consumer where it is.
  pub produce-keeps :
      (s : System T) (p : Producer) (vs : List T)
      → ((produce s p vs).consumer ≡ s.consumer) × ((produce s p vs).released ≡ s.released)
  unfolding produce
  produce-keeps s p [] = ground arith
  produce-keeps s p (v ∷ vs) = ground arith

  -- The producer reads nothing.
  produce-reads_nothing :
      (s : System T) (p : Producer) (vs : List T) → (produce s p vs).consumed ≡ s.consumed
  unfolding produce
  produce-reads_nothing s p [] = ground arith
  produce-reads_nothing s p (v ∷ vs) = ground arith

  pub step-reads_nothing : (s : System T) → (step s true).consumed ≡ s.consumed
  unfolding step
  step-reads_nothing s = produce-reads_nothing s s.producer s.inputs

  -- No step makes up a value, or loses one.
  pub step-inputs :
      (s : System T) (t : Bool) → (step s t).produced ++ (step s t).inputs ≡ s.produced ++ s.inputs
  unfolding run
  step-inputs s t = run-inputs s (t ∷ [])

  -- The producer gets on, unless it has nothing to write or the queue is full.
  pub step-producer :
      (n : ℕ) (s : System T)
      → Inv n s
      → (made (step s true) ≡ made s + 1)
        ⊎ ((step s true ≡ s)
            × (s.producer ≡ p_idle)
            × ((s.inputs ≡ []) ⊎ (s.queue.num_elements ≡ n)))
  unfolding step
  step-producer n s v = elim (produce-made n s s.producer s.inputs refl refl v) [
    | inl on ↦ inl on
    | inr (idle, why) ↦ inr (
      ap (λ (p : Producer). produce s p s.inputs) idle ∙ produce-blocked n s s.inputs v why,
      idle,
      blocked why,
    )
  ]
    where
      blocked :
          (length s.inputs ≡ 0) ⊎ (s.queue.num_elements ≡ n)
          → (s.inputs ≡ []) ⊎ (s.queue.num_elements ≡ n)
      blocked (inl e) = inl (nil_of_length s.inputs e)
      blocked (inr e) = inr e

  -- The consumer gets on, unless the queue is empty.
  pub step-consumer :
      (n : ℕ) (s : System T)
      → Inv n s
      → (made (step s false) ≡ made s + 1) ⊎ ((s.consumer ≡ c_idle) × (s.queue.num_elements ≡ 0))
  unfolding step
  step-consumer n s v = consume-made n s s.consumer refl v

  -- On an empty queue the consumer waits.
  pub waits_on_empty :
      (n : ℕ) (s : System T) → Inv n s → s.queue.num_elements ≡ 0 → s.consumer ≡ c_idle
  waits_on_empty n s v empty = idle_of_borrowed s.consumer (omega (arith, v.available))

  -- When the producer is done and the queue is empty, every value has been read.
  pub all_read_on_empty :
      (n : ℕ) (s : System T)
      → Inv n s
      → s.producer ≡ p_idle
      → s.inputs ≡ []
      → s.queue.num_elements ≡ 0
      → s.consumed ≡ s.produced ++ s.inputs
  all_read_on_empty n s v idle none_left empty = all_read n s v (record {
    no_inputs = none_left;
    p_done = idle;
    c_done = waits_on_empty n s v empty;
    empty = empty;
    drained = omega (arith, v.counted);
  })
