-- ===== src/ThreadUtils/Handshake.antt =====
-- The handshake of `createAndStartThread`: what each thread knows of the other.
use lowlatency_cpp.Base.{
  ℕ, ◌≡◌, ◌≢◌, ◌⊎◌, inl, inr, refl, Bool, true, false, not, ◌||◌, Option, List, [], ◌∷◌, arith,
}
use lowlatency_cpp.ThreadUtils.{
  set_thread_core, Worker, starting, failing, ready, in_task, finished, gave_up, dangling, Creator,
  loads_running, loads_failed, checks, joins, returned, thrown, Start, start, needs_pin, work, wait,
  step, run,
}

-- Whether the new thread may run its task: no core is asked for, or it can be pinned.
unfoldable pub may_start : (ℕ → Bool) → Option ℕ → Bool
unfolding set_thread_core
may_start set_affinity core_id = not (needs_pin core_id) || set_thread_core set_affinity core_id

-- The flags that the new thread has set, and that its way is the right one.
abbrev pub Knows : Bool → Worker → Bool → Bool → Type 0
Knows may starting running failed = (running ≡ false) × (failed ≡ false)
Knows may failing running failed = (running ≡ false) × (failed ≡ false) × (may ≡ false)
Knows may ready running failed = (running ≡ false) × (failed ≡ false) × (may ≡ true)
Knows may in_task running failed = (running ≡ true) × (failed ≡ false) × (may ≡ true)
Knows may finished running failed = (running ≡ true) × (failed ≡ false) × (may ≡ true)
Knows may gave_up running failed = (running ≡ false) × (failed ≡ true) × (may ≡ false)
Knows may dangling running failed = ⊥

-- Past the wait one of the flags is set. The flags live until the creator leaves.
abbrev pub Saw : Creator → Bool → Bool → Bool → Type 0
Saw loads_running running failed live = live ≡ true
Saw loads_failed running failed live = live ≡ true
Saw checks running failed live = (live ≡ true) × ((running ≡ true) ⊎ (failed ≡ true))
Saw joins running failed live = (live ≡ true) × (failed ≡ true)
Saw returned running failed live = (running ≡ true) × (failed ≡ false)
Saw thrown running failed live = failed ≡ true

pub record Inv (set_affinity : ℕ → Bool) (core_id : Option ℕ) (s : Start) : Type 0 where
  pub same_core : s.core_id ≡ core_id
  pub knows : Knows (may_start set_affinity core_id) s.worker s.running s.failed
  pub saw : Saw s.creator s.running s.failed s.flags_live

module _ (set_affinity : ℕ → Bool) (core_id : Option ℕ) where
  pub start-Inv : Inv set_affinity core_id (start core_id)
  unfolding start
  start-Inv = record { same_core = refl; knows = (refl, refl); saw = refl }

  pub work-Inv :
      (s : Start) (w : Worker)
      → s.worker ≡ w
      → Inv set_affinity core_id s
      → Inv set_affinity core_id (work set_affinity s w)
  unfolding work may_start
  work-Inv s starting e v = ground (arith, e, v.same_core, v.knows, v.saw)
  work-Inv s w e v = ground (arith, e, v.same_core, v.knows, v.saw)

  pub wait-Inv :
      (s : Start) (c : Creator)
      → s.creator ≡ c
      → Inv set_affinity core_id s
      → Inv set_affinity core_id (wait set_affinity s c)
  unfolding wait
  wait-Inv s loads_running e v = ground (arith, e, v.saw)
  wait-Inv s c e v = ground (arith, e, v.knows, v.saw)

  -- A step of either thread keeps the invariant.
  pub step-Inv :
      (s : Start) (t : Bool)
      → Inv set_affinity core_id s
      → Inv set_affinity core_id (step set_affinity s t)
  unfolding step
  step-Inv s true v = wait-Inv s s.creator refl v
  step-Inv s false v = work-Inv s s.worker refl v

  pub run-Inv :
      (s : Start) (ts : List Bool)
      → Inv set_affinity core_id s
      → Inv set_affinity core_id (run set_affinity s ts)
  unfolding run
  run-Inv s [] v = v
  run-Inv s (t ∷ ts) v = run-Inv (step set_affinity s t) ts (step-Inv s t v)

  pub reached-Inv :
      (ts : List Bool) → Inv set_affinity core_id (run set_affinity (start core_id) ts)
  reached-Inv ts = run-Inv (start core_id) ts start-Inv

-- However the two threads interleave, the new thread never stores to a flag after the creator's frame
-- is gone.
pub no_dangling :
    (set_affinity : ℕ → Bool) (core_id : Option ℕ) (ts : List Bool)
    → (run set_affinity (start core_id) ts).worker ≢ dangling
no_dangling set_affinity core_id ts e =
    ground (arith, e, (reached-Inv set_affinity core_id ts).knows)

-- Once `createAndStartThread` is left: if it returned, the new thread was allowed to start and has
-- started its task; if it threw, the new thread could not be pinned and has ended without the task.
pub left_lem :
    (set_affinity : ℕ → Bool) (core_id : Option ℕ) (ts : List Bool)
    → ((run set_affinity (start core_id) ts).creator ≡ returned)
      ⊎ ((run set_affinity (start core_id) ts).creator ≡ thrown)
    → let s = run set_affinity (start core_id) ts in
      ((s.creator ≡ returned)
        × (may_start set_affinity core_id ≡ true)
        × ((s.worker ≡ in_task) ⊎ (s.worker ≡ finished)))
      ⊎ ((s.creator ≡ thrown) × (may_start set_affinity core_id ≡ false) × (s.worker ≡ gave_up))
left_lem set_affinity core_id ts (inl e) =
    let v = reached-Inv set_affinity core_id ts in inl (ground (arith, e, v.saw, v.knows))
left_lem set_affinity core_id ts (inr e) =
    let v = reached-Inv set_affinity core_id ts in inr (ground (arith, e, v.saw, v.knows))
