-- ===== src/LfQueue/Fifo/Histories.antt =====
-- The abstract view of a queue of include/lf_queue.hpp: histories of calls, up to what later calls can
-- tell. It forgets in which slots the values lie.
use mathlib.Core.HLevel.{Σ_prop_path}
use mathlib.Core.List
use mathlib.Core.List.{map}
use mathlib.Core.Quot
use mathlib.Core.Quot.{Quot, Quot-set}
use native.Mathlib.Bridge.{le_prop}
use std.Univalence.{iso_to_path}
use lowlatency_cpp.Base.{
  ℕ, suc, zero, ◌+◌, ◌≡◌, ◌≤◌, ◌<◌, ◌^◌, refl, ap, ◌∙◌, sym, List, [], ◌∷◌, ◌++◌, length, replicate,
  ◌==◌, append_assoc, append-nil, arith, Outcome, done, ◌>>=◌, length-append, false, >>=-eq-done,
}
use lowlatency_cpp.LfQueue.{create}
use lowlatency_cpp.LfQueue.Fifo.Calls.{
  Call, to_push, to_pop, Reply, run, run_list, run_lem, calls_fifo,
}

abbrev pub Bounded {ℓ} : Type ℓ → ℕ → Type ℓ
Bounded T n = (xs : List T) × (length xs ≤ n)

module _ {ℓ} {T : Type ℓ} where
  -- The replies to the calls `later`, made on a new queue of `n` slots after the calls `before`.
  pub later_replies : (n : ℕ) (blank : T) (before later : List (Call T)) → Outcome (List (Reply T))
  later_replies n blank before later =
      create n blank >>= λ new. run new before >>= λ r. run r.1 later >>= λ s. done s.0

  -- No later calls can tell the two histories apart.
  abbrev pub Alike : (n : ℕ) (blank : T) (before before' : List (Call T)) → Type ℓ
  Alike n blank before before' =
      (later : List (Call T))
      → later_replies n blank before later ≡ later_replies n blank before' later

  -- What the calls so far have made of the queue, as far as its user can see.
  abbrev pub Contents : ℕ → T → Type ℓ
  Contents n blank = Quot (Alike n blank)

  -- As many pops as the lists are long tell two lists apart.
  same_drained :
      (n m : ℕ) (xs ys : List T)
      → length xs ≤ m
      → length ys ≤ m
      → (run_list n xs (replicate m to_pop)).0 ≡ (run_list n ys (replicate m to_pop)).0
      → xs ≡ ys
  unfolding run_list
  same_drained n m [] [] le le' same = refl
  same_drained n zero (x ∷ xs) ys le le' same = absurd (omega arith)
  same_drained n zero [] (y ∷ ys) le le' same = absurd (omega arith)
  same_drained n (suc m) [] (y ∷ ys) le le' same = absurd (cc)
  same_drained n (suc m) (x ∷ xs) [] le le' same = absurd (cc)
  same_drained n (suc m) (x ∷ xs) (y ∷ ys) le le' same =
      let first : x ≡ y = cc in
      let rest : (run_list n xs (replicate m to_pop)).0 ≡ (run_list n ys (replicate m to_pop)).0 =
        cc in
      rw (first, same_drained n m xs ys (omega arith) (omega arith) rest) refl

  -- Pushes alone, as many as there is room for, all go to the end.
  filled :
      (n : ℕ) (ys xs : List T)
      → length ys + length xs ≤ n
      → (run_list n ys (map to_push xs)).1 ≡ ys ++ xs
  unfolding run_list
  filled n ys [] le = sym (append-nil ys)
  filled n ys (x ∷ xs) le =
      let room : (length ys == n) ≡ false = ground arith in
      rw (run_list, room)
        (filled n (ys ++ x ∷ []) xs (omega (arith, length-append ys (x ∷ [])))
          ∙ append_assoc ys (x ∷ []) xs)

  module _ (T-set : IsSet T) (n : ℕ) (blank : T) (nonempty : 0 < n) (small : n < 2 ^ 64) where
    -- A new queue, after the calls `before`, answers the later calls as the list that the calls leave.
    later_replies_lem :
        (before later : List (Call T))
        → later_replies n blank before later ≡ done (run_list n (run_list n [] before).1 later).0
    unfolding later_replies
    later_replies_lem before later =
        let (q, e, holds) = calls_fifo n blank before nonempty small in
        let (q', e', _) = run_lem n later q (run_list n [] before).1 holds in
        let (new, e₀, e₁) = >>=-eq-done (create n blank) (λ new. run new before) e in
        rw (e₀, e₁, e') refl

    Bounded-set : IsSet (Bounded T n)
    Bounded-set = hlevel (List.is_set T-set, le_prop)

    left_by : List (Call T) → Bounded T n
    left_by before = ((run_list n [] before).1, (calls_fifo n blank before nonempty small).2.fits)

    left_by-Alike :
        (before before' : List (Call T))
        → Alike n blank before before'
        → left_by before ≡ left_by before'
    unfolding left_by
    left_by-Alike before before' alike =
        let drain : List (Call T) = replicate n to_pop in
        let same =
          sym (later_replies_lem before drain) ∙ alike drain ∙ later_replies_lem before' drain in
        Σ_prop_path (λ xs. le_prop)
          (same_drained n n (left_by before).0 (left_by before').0 (left_by before).1
            (left_by before').1 (ground (arith, same)))

    contents : Contents n blank → Bounded T n
    contents = Quot.lift Bounded-set left_by left_by-Alike

    history : Bounded T n → Contents n blank
    history (xs, fits) = Quot.mk (map to_push xs)

    contents-history : (b : Bounded T n) → contents (history b) ≡ b
    unfolding contents history left_by
    contents-history (xs, fits) = Σ_prop_path (λ ys. le_prop) (filled n [] xs (omega arith))

    history-contents : (c : Contents n blank) → history (contents c) ≡ c
    unfolding contents history left_by
    history-contents =
        Quot.ind (λ c. Quot-set _ _)
          (λ before. Quot.sound (λ later.
            later_replies_lem (map to_push (left_by before).0) later
            ∙ ap (λ (xs : List T). done (run_list n xs later).0)
                (filled n [] (left_by before).0 (omega (arith, (left_by before).1)))
            ∙ sym (later_replies_lem before later)))

    -- The histories of calls of a new queue of n slots, those that no later calls tell apart being
    -- equal, are exactly the lists of at most n values, where 0 < n < 2 ^ 64 and the values form a
    -- set.
    pub Contents-Bounded : Contents n blank ≡ Bounded T n
    Contents-Bounded =
        iso_to_path (record {
          fun = contents;
          inv = history;
          rinv = contents-history;
          linv = history-contents;
        })
