-- ===== src/LfQueue/Spsc/Safety.antt =====
-- What any interleaving of one producer and one consumer guarantees.
use lowlatency_cpp.Base.{
  ℕ, ◌+◌, ◌%◌, ◌^◌, ◌≤◌, ◌<◌, ◌≡◌, ◌≢◌, refl, sym, ap, ◌∙◌, List, [], ◌∷◌, ◌++◌, length, drop, Bool,
  true, false, arith, mod-ne, length-replicate, done, take-append-drop, append_assoc, subst,
}
use lowlatency_cpp.LfQueue.{LfQueue, blank_queue, create, size}
use lowlatency_cpp.LfQueue.Spsc.{
  Producer, p_idle, p_slot, Consumer, c_idle, c_slot, c_failed, System, produce, consume, step, run,
  start,
}
use lowlatency_cpp.LfQueue.Spsc.Invariant.{Inv}
use lowlatency_cpp.LfQueue.Spsc.Steps.{step-Inv}

module _ {ℓ} {T : Type ℓ} where
  -- A state that a run reaches from a queue that the constructor made of `n` slots.
  pub record Reached (n : ℕ) (inputs : List T) (s : System T) : Type ℓ where
    pub blank : T
    pub queue : LfQueue T
    pub schedule : List Bool
    pub made : create n blank ≡ done queue
    pub small : n < 2 ^ 64
    pub ran : run (start queue inputs) schedule ≡ s

  pub blank_queue-Inv :
      (n : ℕ) (blank : T) (inputs : List T)
      → 0 < n
      → n < 2 ^ 64
      → Inv n (start (blank_queue n blank) inputs)
  unfolding start
  blank_queue-Inv n blank inputs pos small = record {
    nonempty = pos;
    small = small;
    sized = length-replicate n blank;
    counted = refl;
    room = omega arith;
    available = omega arith;
    write_at = omega arith;
    read_at = omega arith;
    wrote = refl;
    read = refl;
    holds = tt;
    reads = tt;
    supplied = omega arith;
    slots = λ k lo hi. absurd (omega arith);
    in_order = refl;
  }

  pub start-Inv :
      (n : ℕ) (blank : T) (q : LfQueue T) (inputs : List T)
      → create n blank ≡ done q
      → n < 2 ^ 64
      → Inv n (start q inputs)
  unfolding create
  start-Inv n blank q inputs e small = ground (arith, blank_queue-Inv n blank inputs)

  pub run-Inv : (n : ℕ) (s : System T) (ts : List Bool) → Inv n s → Inv n (run s ts)
  unfolding run
  run-Inv n s [] v = v
  run-Inv n s (t ∷ ts) v = run-Inv n (step s t) ts (step-Inv n s t v)

  pub Reached-Inv : {n : ℕ} {inputs : List T} {s : System T} → Reached n inputs s → Inv n s
  Reached-Inv {n} {inputs} r =
      subst (Inv n) r.ran
        (run-Inv n _ r.schedule (start-Inv n r.blank r.queue inputs r.made r.small))

  -- No step makes a value up or loses one on its way into the queue.
  pub produce-inputs :
      (s : System T) (p : Producer) (vs : List T)
      → s.inputs ≡ vs
      → (produce s p vs).produced ++ (produce s p vs).inputs ≡ s.produced ++ s.inputs
  unfolding produce
  produce-inputs s (p_slot w) (x ∷ vs) e =
      append_assoc s.produced (x ∷ []) vs ∙ ap (◌++◌ s.produced) (sym e)
  produce-inputs s p vs e = ground arith

  consume-inputs :
      (s : System T) (c : Consumer)
      → (consume s c).produced ++ (consume s c).inputs ≡ s.produced ++ s.inputs
  unfolding consume
  consume-inputs s c_idle = ground arith
  consume-inputs s c = ground arith

  pub run-inputs :
      (s : System T) (ts : List Bool)
      → (run s ts).produced ++ (run s ts).inputs ≡ s.produced ++ s.inputs
  unfolding run step
  run-inputs s [] = refl
  run-inputs s (true ∷ ts) =
      run-inputs (produce s s.producer s.inputs) ts ∙ produce-inputs s s.producer s.inputs refl
  run-inputs s (false ∷ ts) = run-inputs (consume s s.consumer) ts ∙ consume-inputs s s.consumer

  -- However the steps of the two threads interleave, the values read so far, then those written and
  -- not yet read, then those still to be written are the producer's values, each once and in order.
  pub fifo :
      {n : ℕ} {inputs : List T} {s : System T}
      → Reached n inputs s
      → (s.consumed ++ drop (length s.consumed) s.produced) ++ s.inputs ≡ inputs
  unfolding start
  fifo {inputs = inputs} {s = s} r =
      ap (λ (l : List T). (l ++ drop (length s.consumed) s.produced) ++ s.inputs)
        (Reached-Inv r).in_order
      ∙ ap (λ (l : List T). l ++ s.inputs) (take-append-drop (length s.consumed) s.produced)
      ∙ subst (λ t. t.produced ++ t.inputs ≡ inputs) r.ran
          (run-inputs (start r.queue inputs) r.schedule)

  -- While the producer may write to its slot, the consumer does not read that slot.
  pub no_race :
      {n : ℕ} {inputs : List T} {s : System T} {w r : ℕ}
      → Reached n inputs s
      → s.producer ≡ p_slot w
      → s.consumer ≡ c_slot r
      → w ≢ r
  no_race {n} {s = s} {w = w} {r = r} h ew er =
      let v = Reached-Inv h in
      let writes : w ≡ s.published % n = ground (arith, v.holds) in
      let reads : r ≡ s.released % n = ground (arith, v.reads) in
      let unread : 1 ≤ s.queue.num_elements = ground (arith, v.available) in
      let room : s.queue.num_elements + 1 ≤ n = ground (arith, v.room) in
      λ same.
        mod-ne n s.released s.published (omega (arith, v.counted)) (omega (arith, v.counted))
          (sym reads ∙ sym same ∙ writes)

  -- However the two threads interleave, no assertion of the consumer fails, and no read leaves the
  -- store.
  never_fails :
      {n : ℕ} {inputs : List T} {s : System T} → Reached n inputs s → s.consumer ≢ c_failed
  never_fails {s} h e = ground (arith, (Reached-Inv h).reads)

  -- With both threads between calls `size` is the number of values written and not yet read.
  size-unread :
      {n : ℕ} {inputs : List T} {s : System T}
      → Reached n inputs s
      → s.producer ≡ p_idle
      → s.consumer ≡ c_idle
      → size s.queue + length s.consumed ≡ length s.produced
  unfolding size
  size-unread h ep ec =
      ground (arith, (Reached-Inv h).wrote, (Reached-Inv h).read, (Reached-Inv h).counted)
