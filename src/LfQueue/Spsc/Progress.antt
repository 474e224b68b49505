-- ===== src/LfQueue/Spsc/Progress.antt =====
-- Scheduled in turn, the two threads deliver every value.
use lowlatency_cpp.Base.{
  rounds, ℕ, zero, suc, ◌+◌, ◌*◌, ◌^◌, ◌≤◌, ◌<◌, ◌≡◌, ◌⊎◌, inl, inr, refl, sym, ap, ◌∙◌, List, [],
  ◌∷◌, ◌++◌, length, true, false, arith, subst, ap₂, ==_refl, length-append, append-nil,
  take-length,
}
use lowlatency_cpp.LfQueue.{blank_queue}
use lowlatency_cpp.LfQueue.Spsc.{
  Producer, p_idle, p_checked, p_slot, p_wrote, p_loaded, p_stored, Consumer, c_idle, c_checked,
  c_slot, c_used, c_asserted, c_loaded, c_stored, c_failed, System, produce, consume, step, run,
  start,
}
use lowlatency_cpp.LfQueue.Spsc.Invariant.{Inv, in_hand, pending, borrowed}
use lowlatency_cpp.LfQueue.Spsc.Steps.{step-Inv, stored}
use native.Mathlib.Nat.{le_refl}
use lowlatency_cpp.LfQueue.Spsc.Safety.{run-Inv, blank_queue-Inv, run-inputs}

-- Steps that the producer has made of the six of a write, and the consumer of the seven of a read.
abbrev p_made : Producer → ℕ
p_made p_idle = 0
p_made p_checked = 1
p_made (p_slot w) = 2
p_made p_wrote = 3
p_made (p_loaded i) = 4
p_made p_stored = 5

abbrev c_made : Consumer → ℕ
c_made c_idle = 0
c_made c_checked = 1
c_made (c_slot r) = 2
c_made c_used = 3
c_made c_asserted = 4
c_made (c_loaded i) = 5
c_made c_stored = 6
c_made c_failed = 0

p_made-le : (p : Producer) → p_made p ≤ 6 * (in_hand p + pending p)
p_made-le p_idle = omega arith
p_made-le p = ground arith

c_made-le : (c : Consumer) → c_made c ≤ 7 * borrowed c
c_made-le c_idle = omega arith
c_made-le c = ground arith

module _ {ℓ} {T : Type ℓ} where
  -- The steps that were made, for `total` values in all.
  abbrev pub made : System T → ℕ
  made s = 6 * s.published + p_made s.producer + 7 * s.released + c_made s.consumer

  -- Nothing is left to do.
  pub record Finished (s : System T) : Type ℓ where
    pub no_inputs : s.inputs ≡ []
    pub p_done : s.producer ≡ p_idle
    pub c_done : s.consumer ≡ c_idle
    pub empty : s.queue.num_elements ≡ 0
    pub drained : s.published ≡ s.released

  pub produce-made :
      (n : ℕ) (s : System T) (p : Producer) (vs : List T)
      → s.producer ≡ p
      → s.inputs ≡ vs
      → Inv n s
      → (made (produce s p vs) ≡ made s + 1)
        ⊎ ((p ≡ p_idle) × ((length vs ≡ 0) ⊎ (s.queue.num_elements ≡ n)))
  unfolding produce
  produce-made n s p_idle [] e f v = inr (refl, inl refl)
  produce-made n s p_idle (x ∷ vs) e f v = ground (arith, v.sized)
  produce-made n s (p_slot w) [] e f v = absurd (ground (arith, v.supplied))
  produce-made n s (p_slot w) (x ∷ vs) e f v = ground arith
  produce-made n s p vs e f v = ground arith

  pub produce-blocked :
      (n : ℕ) (s : System T) (vs : List T)
      → Inv n s
      → (length vs ≡ 0) ⊎ (s.queue.num_elements ≡ n)
      → produce s p_idle vs ≡ s
  unfolding produce
  produce-blocked n s [] v b = refl
  produce-blocked n s (x ∷ vs) v (inl b) = absurd (omega arith)
  produce-blocked n s (x ∷ vs) v (inr b) = rw (b, v.sized, ==_refl n)

  pub consume-made :
      (n : ℕ) (s : System T) (c : Consumer)
      → s.consumer ≡ c
      → Inv n s
      → (made (consume s c) ≡ made s + 1) ⊎ ((c ≡ c_idle) × (s.queue.num_elements ≡ 0))
  unfolding consume
  consume-made n s c_idle e v = ground arith
  consume-made n s (c_slot r) e v = let (a, at) = stored n s r e v in rw at (ground arith)
  consume-made n s c_used e v = ground (arith, v.available)
  consume-made n s c_failed e v = absurd (ground (arith, v.reads))
  consume-made n s c e v = ground arith

  consume-blocked : (s : System T) → s.queue.num_elements ≡ 0 → consume s c_idle ≡ s
  unfolding consume
  consume-blocked s b = rw b

  pub consume-le :
      (n : ℕ) (s : System T) (c : Consumer) → s.consumer ≡ c → Inv n s → made s ≤ made (consume s c)
  consume-le n s c e v = elim (consume-made n s c e v) [
    | inl on ↦ omega arith
    | inr (idle, empty) ↦ rw (idle, consume-blocked s empty) (le_refl (made s))
  ]

  pub nil_of_length : (xs : List T) → length xs ≡ 0 → xs ≡ []
  nil_of_length [] h = refl
  nil_of_length (x ∷ xs) h = absurd (omega arith)

  idle-consume :
      (n : ℕ) (s : System T)
      → Inv n s
      → s.producer ≡ p_idle
      → (length s.inputs ≡ 0) ⊎ (s.queue.num_elements ≡ n)
      → Finished s ⊎ (made s < made (consume s s.consumer))
  idle-consume n s v idle why = elim (consume-made n s s.consumer refl v) [
    | inl on ↦ inr (omega arith)
    | inr (waits, empty) ↦ inl (record {
      no_inputs = nil_of_length s.inputs (omega (arith, v.nonempty));
      p_done = idle;
      c_done = waits;
      empty = empty;
      drained = omega (arith, v.counted);
    })
  ]

  -- A round gives each thread one step. Unless all is done, one of the steps gets on.
  round : (n : ℕ) (s : System T) → Inv n s → Finished s ⊎ (made s < made (step (step s true) false))
  round n s v = elim (produce-made n s s.producer s.inputs refl refl v) [
    | inl on ↦ inr (
        unfold step in
        omega
          (arith, on, consume-le n (step s true) (step s true).consumer refl (step-Inv n s true v)))
    | inr (idle, why) ↦
        unfold step in
        subst (λ t. Finished s ⊎ (made s < made (consume t t.consumer)))
          (sym (ap (λ p. produce s p s.inputs) idle ∙ produce-blocked n s s.inputs v why))
          (idle-consume n s v idle why)
  ]

  pub made-le :
      (n : ℕ) (s : System T) → Inv n s → made s ≤ 13 * (length s.produced + length s.inputs)
  made-le n s v = omega (
    arith,
    p_made-le s.producer,
    c_made-le s.consumer,
    v.counted,
    v.available,
    v.wrote,
    v.supplied,
  )

  Finished-run : (s : System T) (k : ℕ) → Finished s → run s (rounds k) ≡ s
  unfolding run step produce consume
  Finished-run s zero f = refl
  Finished-run s (suc k) f =
      subst (λ t. run (step t false) (rounds k) ≡ s) (sym (ap₂ (produce s) f.p_done f.no_inputs))
        (subst (λ t. run t (rounds k) ≡ s)
          (sym (ap (consume s) f.c_done ∙ consume-blocked s f.empty)) (Finished-run s k f))

  drains :
      (n : ℕ) (s : System T) (k : ℕ)
      → Inv n s
      → 13 * length (s.produced ++ s.inputs) < made s + k
      → Finished (run s (rounds k))
  unfolding run
  drains n s zero v h = absurd (omega (arith, made-le n s v, length-append s.produced s.inputs))
  drains n s (suc k) v h = elim (round n s v) [
    | inl f ↦ subst Finished (sym (Finished-run s (suc k) f)) f
    | inr on ↦
        drains n (step (step s true) false) k (step-Inv n (step s true) false (step-Inv n s true v))
          (omega (arith, ap length (run-inputs s (true ∷ false ∷ []))))
  ]

  pub all_read : (n : ℕ) (s : System T) → Inv n s → Finished s → s.consumed ≡ s.produced ++ s.inputs
  all_read n s v f =
      v.in_order
      ∙ take-length (length s.consumed) s.produced (ground (arith, v.wrote, v.read))
      ∙ sym (append-nil s.produced)
      ∙ ap (◌++◌ s.produced) (sym f.no_inputs)

  -- From a new queue of any size, with the two threads scheduled in turn for long enough, the
  -- consumer reads exactly the producer's values, in order.
  pub delivers :
      (n : ℕ) (blank : T) (inputs : List T) (k : ℕ)
      → 0 < n
      → n < 2 ^ 64
      → 13 * length inputs < k
      → (run (start (blank_queue n blank) inputs) (rounds k)).consumed ≡ inputs
  unfolding start
  delivers n blank inputs k pos small enough =
      let s = start (blank_queue n blank) inputs in
      let v = blank_queue-Inv n blank inputs pos small in
      all_read n (run s (rounds k)) (run-Inv n s (rounds k) v) (drains n s k v (omega arith))
      ∙ run-inputs s (rounds k)
