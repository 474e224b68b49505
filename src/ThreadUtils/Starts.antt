-- ===== src/ThreadUtils/Starts.antt =====
-- Scheduled in turn, the creator gets out of the wait.
use lowlatency_cpp.Base.{
  rounds, ℕ, zero, suc, ◌≤◌, ◌<◌, ◌≡◌, ◌⊎◌, inl, inr, refl, ◌∙◌, Bool, true, false, Option, List,
  [], ◌∷◌, arith, if◌then◌else◌,
}
use lowlatency_cpp.ThreadUtils.{
  Worker, starting, failing, ready, gave_up, Creator, loads_running, loads_failed, checks, joins,
  returned, thrown, Start, start, work, wait, step, run,
}
use lowlatency_cpp.ThreadUtils.Handshake.{may_start, Inv, step-Inv, run-Inv, reached-Inv}

-- Rounds until the creator leaves, once `running` is set, and once `failed` is.
abbrev after_running : Creator → ℕ
after_running loads_failed = 3
after_running loads_running = 2
after_running checks = 1
after_running c = 0

abbrev after_failed : Creator → ℕ
after_failed loads_running = 4
after_failed loads_failed = 3
after_failed checks = 2
after_failed joins = 1
after_failed c = 0

left_at : Worker → Creator → ℕ
left_at starting c = 6
left_at failing c = 5
left_at ready c = 5
left_at gave_up c = after_failed c
left_at w c = after_running c

pub left : Start → ℕ
unfolding left_at
left s = left_at s.worker s.creator

-- The new thread has not set a flag yet.
abbrev pub is_early : Worker → Bool
is_early starting = true
is_early failing = true
is_early ready = true
is_early w = false

module _ (set_affinity : ℕ → Bool) (core_id : Option ℕ) where
  -- The creator's step gets on, unless it is out, or the new thread has not set a flag.
  pub wait-left :
      (s : Start) (c : Creator)
      → s.creator ≡ c
      → Inv set_affinity core_id s
      → (left s ≡ 0)
        ⊎ (left (wait set_affinity s c) < left s)
        ⊎ ((left (wait set_affinity s c) ≡ left s) × (is_early s.worker ≡ true))
  unfolding left wait
  wait-left s loads_running e v = ground (arith, e, v.saw, v.knows)
  wait-left s c e v = ground (arith, e, v.saw, v.knows)

  pub work-left :
      (s : Start) (w : Worker)
      → s.worker ≡ w
      → Inv set_affinity core_id s
      → (left (work set_affinity s w) ≤ left s)
        × ((is_early w ≡ false) ⊎ (left (work set_affinity s w) < left s))
  unfolding left work
  work-left s starting e v = ground (arith, e, v.saw, v.knows)
  work-left s w e v = ground (arith, e, v.saw, v.knows)

  pub wait-worker : (s : Start) (c : Creator) → (wait set_affinity s c).worker ≡ s.worker
  unfolding wait
  wait-worker s loads_running = ground arith
  wait-worker s c = ground arith

  pub work-creator : (t : Start) (w : Worker) → (work set_affinity t w).creator ≡ t.creator
  unfolding work
  work-creator t starting = ground arith
  work-creator t w = ground arith

  -- In a round each thread makes a step.
  pub round :
      (s : Start)
      → Inv set_affinity core_id s
      → (left s ≡ 0) ⊎ (left (step set_affinity (step set_affinity s true) false) < left s)
  unfolding step
  round s v =
      let t = wait set_affinity s s.creator in
      let u : Inv set_affinity core_id t = unfold step in step-Inv set_affinity core_id s true v in
      let (le, early) = work-left t t.worker refl u in
      elim (wait-left s s.creator refl v) [
        | inl out ↦ inl out
        | inr (inl on) ↦ inr (omega arith)
        | inr (inr (same, is)) ↦ elim early [
          | inl late ↦ absurd (cc (wait-worker s s.creator))
          | inr on ↦ inr (omega arith)
        ]
      ]

  pub out_of_left :
      (s : Start)
      → Inv set_affinity core_id s
      → left s ≡ 0
      → (s.creator ≡ returned) ⊎ (s.creator ≡ thrown)
  unfolding left
  out_of_left s v h = ground (arith, h, v.saw, v.knows)

  pub stays_out :
      (s : Start) (t : Bool)
      → (s.creator ≡ returned) ⊎ (s.creator ≡ thrown)
      → (step set_affinity s t).creator ≡ s.creator
  unfolding step wait work
  stays_out s true out = ground (arith, out)
  stays_out s false out = ground (arith, out)

  abbrev IsOut : Start → Type 0
  IsOut s = (s.creator ≡ returned) ⊎ (s.creator ≡ thrown)

  IsOut-step : (s : Start) (t : Bool) → IsOut s → IsOut (step set_affinity s t)
  IsOut-step s t (inl e) = inl (stays_out s t (inl e) ∙ e)
  IsOut-step s t (inr e) = inr (stays_out s t (inr e) ∙ e)

  IsOut-run : (s : Start) (ts : List Bool) → IsOut s → IsOut (run set_affinity s ts)
  unfolding run
  IsOut-run s [] out = out
  IsOut-run s (t ∷ ts) out = IsOut-run (step set_affinity s t) ts (IsOut-step s t out)

  gets-IsOut :
      (s : Start) (k : ℕ)
      → Inv set_affinity core_id s
      → left s ≤ k
      → IsOut (run set_affinity s (rounds k))
  unfolding run
  gets-IsOut s zero v h = out_of_left s v (omega arith)
  gets-IsOut s (suc k) v h = elim (round s v) [
    | inl none_left ↦ IsOut-run s (rounds (suc k)) (out_of_left s v none_left)
    | inr on ↦
        gets-IsOut (step set_affinity (step set_affinity s true) false) k
          (step-Inv set_affinity core_id (step set_affinity s true) false
            (step-Inv set_affinity core_id s true v))
          (omega arith)
  ]

  pub left-le : (s : Start) → left s ≤ 6
  unfolding left
  left-le s = ground arith

  decided :
      (s : Start)
      → Inv set_affinity core_id s
      → IsOut s
      → s.creator ≡ (if may_start set_affinity core_id then returned else thrown)
  decided s v out = ground (arith, out, v.saw, v.knows)

-- Whatever the two threads have done so far, six rounds in which each makes a step are enough for
-- `createAndStartThread` to return if the new thread may start, and to throw if not.
pub starts :
    (set_affinity : ℕ → Bool) (core_id : Option ℕ) (ts : List Bool) (k : ℕ)
    → 6 ≤ k
    → (run set_affinity (run set_affinity (start core_id) ts) (rounds k)).creator
      ≡ (if may_start set_affinity core_id then returned else thrown)
starts set_affinity core_id ts k enough =
    let s = run set_affinity (start core_id) ts in
    let v = reached-Inv set_affinity core_id ts in
    decided set_affinity core_id (run set_affinity s (rounds k))
      (run-Inv set_affinity core_id s (rounds k) v)
      (gets-IsOut set_affinity core_id s k v (omega (arith, left-le set_affinity core_id s)))
