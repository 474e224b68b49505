-- ===== src/ThreadUtils.antt =====
-- include/thread_utils.hpp: `setThreadCore` and `createAndStartThread`, with the new thread and its
-- creator interleaved at each access to the two flags, which live on the creator's stack. A negative
-- core number is `none`. Whether the system pins a thread to a core is a parameter.
pub mod Handshake
pub mod Starts
mod Tests
use lowlatency_cpp.Base.{
  ℕ, Bool, true, false, Option, none, some, List, [], ◌∷◌, leb, if◌then◌else◌,
}

-- CPU_SETSIZE on Linux.
abbrev pub cpu_setsize : ℕ
cpu_setsize = 1024

-- `setThreadCore`; `set_affinity` is whether `pthread_setaffinity_np` succeeds.
unfoldable pub set_thread_core : (ℕ → Bool) → Option ℕ → Bool
set_thread_core set_affinity none = false
set_thread_core set_affinity (some core_id) =
    if leb cpu_setsize core_id then false else set_affinity core_id

-- The new thread: before it pins itself; before `failed.store(true)`; before `running.store(true)`;
-- in the task; after the task; returned without the task. `dangling`: a store to a dead flag.
pub data Worker : Type 0 where
  starting failing ready in_task finished gave_up dangling : Worker

-- The creator: before `running.load()` and `failed.load()` of the wait, and before the last
-- `failed.load()`; in `join`; returned with the thread; after the exception.
pub data Creator : Type 0 where
  loads_running loads_failed checks joins returned thrown : Creator

-- `flags_live`: the creator's frame, with both flags, is still there.
pub record Start : Type 0 where
  pub core_id : Option ℕ
  pub running : Bool
  pub failed : Bool
  pub flags_live : Bool
  pub worker : Worker
  pub creator : Creator

unfoldable pub start : Option ℕ → Start
start core_id = record {
  core_id = core_id;
  running = false;
  failed = false;
  flags_live = true;
  worker = starting;
  creator = loads_running;
}

abbrev pub needs_pin : Option ℕ → Bool
needs_pin none = false
needs_pin (some core_id) = true

abbrev pub has_ended : Worker → Bool
has_ended finished = true
has_ended gave_up = true
has_ended dangling = true
has_ended w = false

module _ (set_affinity : ℕ → Bool) where
  -- The body of the new thread, one step at a time.
  unfoldable pub work : Start → Worker → Start
  unfolding set_thread_core
  work s starting =
      if needs_pin s.core_id
      then (if set_thread_core set_affinity s.core_id
          then record s { worker = ready }
          else record s { worker = failing })
      else record s { worker = ready }
  work s failing =
      if s.flags_live
      then record s { failed = true; worker = gave_up }
      else record s { worker = dangling }
  work s ready =
      if s.flags_live
      then record s { running = true; worker = in_task }
      else record s { worker = dangling }
  work s in_task = record s { worker = finished }
  work s w = s

  -- `createAndStartThread` after the thread is made, one step at a time.
  pub wait : Start → Creator → Start
  wait s loads_running =
      if s.running then record s { creator = checks } else record s { creator = loads_failed }
  wait s loads_failed =
      if s.failed then record s { creator = checks } else record s { creator = loads_running }
  wait s checks =
      if s.failed
      then record s { creator = joins }
      else record s { creator = returned; flags_live = false }
  wait s joins = if has_ended s.worker then record s { creator = thrown; flags_live = false } else s
  wait s c = s

  -- The scheduler picks the thread that moves: `true` for the creator.
  unfoldable pub step : Start → Bool → Start
  unfolding work wait
  step s true = wait s s.creator
  step s false = work s s.worker

  pub run : Start → List Bool → Start
  unfolding step
  run s [] = s
  run s (t ∷ ts) = run (step s t) ts
