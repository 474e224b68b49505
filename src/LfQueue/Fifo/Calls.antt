-- ===== src/LfQueue/Fifo/Calls.antt =====
-- Sequences of calls of the two sides of include/lf_queue.hpp, each call run without interruption, and
-- the bounded first-in first-out queue that they are to be.
use lowlatency_cpp.Base.{
  ℕ, ◌≡◌, ◌<◌, ◌^◌, refl, Bool, true, false, Option, none, some, List, [], ◌∷◌, ◌++◌, length, ◌==◌,
  if◌then◌else◌, inl, inr, Bool-cases, arith, Outcome, done, ◌>>=◌,
}
use lowlatency_cpp.LfQueue.{LfQueue, create}
use lowlatency_cpp.LfQueue.Fifo.{
  push, pop, Contains, push_full, pop_empty, push-Contains, pop-Contains, blank-Contains,
}

pub data Call {ℓ} (T : Type ℓ) : Type ℓ where
  to_push : T → Call T
  to_pop : Call T

-- What the side that calls learns: whether there was room, or the value if there was one.
pub data Reply {ℓ} (T : Type ℓ) : Type ℓ where
  pushed : Bool → Reply T
  popped : Option T → Reply T

module _ {ℓ} {T : Type ℓ} where
  abbrev after_push : LfQueue T → Option (LfQueue T) → Reply T × LfQueue T
  after_push q none = (pushed false, q)
  after_push q (some q') = (pushed true, q')

  abbrev call : LfQueue T → Call T → Outcome (Reply T × LfQueue T)
  call q (to_push x) = done (after_push q (push q x))
  call q to_pop = pop q >>= λ r. done (popped r.0, r.1)

  unfoldable pub run : LfQueue T → List (Call T) → Outcome (List (Reply T) × LfQueue T)
  run q [] = done ([], q)
  run q (c ∷ cs) = call q c >>= λ r. run r.1 cs >>= λ rest. done (r.0 ∷ rest.0, rest.1)

  -- The queue of at most `n` values as a list, oldest first.
  abbrev fifo_call : ℕ → List T → Call T → Reply T × List T
  fifo_call n xs (to_push x) =
      if length xs == n then (pushed false, xs) else (pushed true, xs ++ x ∷ [])
  fifo_call n [] to_pop = (popped none, [])
  fifo_call n (x ∷ xs) to_pop = (popped (some x), xs)

  unfoldable pub run_list : ℕ → List T → List (Call T) → List (Reply T) × List T
  run_list n xs [] = ([], xs)
  run_list n xs (c ∷ cs) =
      let r = fifo_call n xs c in let rest = run_list n r.1 cs in (r.0 ∷ rest.0, rest.1)

  abbrev Called : ℕ → LfQueue T → List T → Call T → Type ℓ
  Called n q xs c =
      (q' : LfQueue T) × (call q c ≡ done ((fifo_call n xs c).0, q'))
      × Contains n q' (fifo_call n xs c).1

  call-Called :
      (n : ℕ) (q : LfQueue T) (xs : List T) (c : Call T) → Contains n q xs → Called n q xs c
  call-Called n q xs (to_push x) holds = elim (Bool-cases (length xs == n)) [
    | inl full ↦ (q, rw (full, push_full n q xs x holds (ground (arith, full))) refl, rw full holds)
    | inr room ↦
        let (q', e, holds') = push-Contains n q xs x holds (ground (arith, room, holds.fits)) in
        (q', rw (room, e) refl, rw room holds')
  ]
  call-Called n q [] to_pop holds = (q, rw (pop_empty n q holds) refl, holds)
  call-Called n q (x ∷ xs) to_pop holds =
      let (q', e, holds') = pop-Contains n q xs x holds in (q', rw e refl, holds')

  -- From a queue that holds `xs` the calls reply as the list does, and the queue then holds what the
  -- list is.
  pub run_lem :
      (n : ℕ) (cs : List (Call T)) (q : LfQueue T) (xs : List T)
      → Contains n q xs
      → (q' : LfQueue T) × (run q cs ≡ done ((run_list n xs cs).0, q'))
        × Contains n q' (run_list n xs cs).1
  unfolding run run_list
  run_lem n [] q xs holds = (q, refl, holds)
  run_lem n (c ∷ cs) q xs holds =
      let (q', e, holds') = call-Called n q xs c holds in
      let (q'', e', holds'') = run_lem n cs q' (fifo_call n xs c).1 holds' in
      (q'', rw (e, e') refl, holds'')

  -- A new queue of n slots, with 0 < n < 2 ^ 64, takes any sequence of calls without a failed
  -- assertion, and replies as a first-in first-out queue of at most n values does: a value is
  -- refused only if n are there.
  pub calls_fifo :
      (n : ℕ) (blank : T) (cs : List (Call T))
      → 0 < n
      → n < 2 ^ 64
      → (q : LfQueue T) × ((create n blank >>= λ new. run new cs) ≡ done ((run_list n [] cs).0, q))
        × Contains n q (run_list n [] cs).1
  unfolding create
  calls_fifo n blank cs nonempty small =
      let not_empty : (n == 0) ≡ false = ground arith in
      rw not_empty (run_lem n cs _ [] (blank-Contains n blank nonempty small))
