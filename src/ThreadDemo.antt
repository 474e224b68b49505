-- ===== src/ThreadDemo.antt =====
-- src/thread_demo.cpp: main starts a thread on its own CPU, one that is not pinned, joins both, and
-- tries a third on a CPU that does not exist. Main and the new threads are interleaved at each access
-- to the flags of `createAndStartThread`; a thread that has not been made is `none`.
pub mod Invariant
pub mod Threads
pub mod Calls
pub mod MainSteps
pub mod Ends
pub mod Rounds
pub mod Gain
pub mod Progress
mod Tests
use lowlatency_cpp.Base.{
  ℕ, Bool, true, false, Option, none, some, List, [], ◌∷◌, ◌++◌, if◌then◌else◌,
}
use lowlatency_cpp.ThreadUtils as ThreadUtils
use lowlatency_cpp.ThreadUtils.{
  cpu_setsize, Worker, in_task, Creator, returned, thrown, Start, has_ended,
}

-- The three calls of `createAndStartThread`.
pub data Which : Type 0 where
  pinned normal invalid : Which

-- The id that the thread prints.
pub id : Which → ℕ
id pinned = 10
id normal = 20
id invalid = 30

-- Where main stands: in a call of `createAndStartThread`; in a `join`; returned with an exit code;
-- after an exception that nobody catches.
pub data Main : Type 0 where
  starts : Which → Main
  joins : Which → Main
  ended : ℕ → Main
  terminated : Main

-- `printed` are the ids that the threads have printed; `was_caught` is whether main has printed the
-- expected error.
pub record Demo : Type 0 where
  pub pinned_thread : Option Start
  pub normal_thread : Option Start
  pub invalid_thread : Option Start
  pub main : Main
  pub printed : List ℕ
  pub was_caught : Bool

pub thread : Demo → Which → Option Start
thread s pinned = s.pinned_thread
thread s normal = s.normal_thread
thread s invalid = s.invalid_thread

pub set_thread : Demo → Which → Start → Demo
set_thread s pinned t = record s { pinned_thread = some t }
set_thread s normal t = record s { normal_thread = some t }
set_thread s invalid t = record s { invalid_thread = some t }

-- `main` up to its first thread; `current_cpu` is what `sched_getcpu` returns.
pub start : Option ℕ → Demo
unfolding ThreadUtils.start
start none = record {
  pinned_thread = none;
  normal_thread = none;
  invalid_thread = none;
  main = ended 1;
  printed = [];
  was_caught = false;
}
start (some current_cpu) = record {
  pinned_thread = some (ThreadUtils.start (some current_cpu));
  normal_thread = none;
  invalid_thread = none;
  main = starts pinned;
  printed = [];
  was_caught = false;
}

-- Main after `createAndStartThread` has returned.
pub after_return : Demo → Which → Demo
unfolding ThreadUtils.start
after_return s pinned = record s {
  normal_thread = some (ThreadUtils.start none);
  main = starts normal;
}
after_return s normal = record s { main = joins pinned }
after_return s invalid = record s { main = joins invalid }

-- Main after an exception: only the last call stands in a `try`.
pub after_throw : Demo → Which → Demo
after_throw s invalid = record s { main = ended 0; was_caught = true }
after_throw s w = record s { main = terminated }

pub after_join : Demo → Which → Demo
unfolding ThreadUtils.start
after_join s pinned = record s { main = joins normal }
after_join s normal = record s {
  invalid_thread = some (ThreadUtils.start (some cpu_setsize));
  main = starts invalid;
}
after_join s invalid = record s { main = ended 0 }

abbrev pub after_wait : Demo → Which → Creator → Demo
after_wait s w returned = after_return s w
after_wait s w thrown = after_throw s w
after_wait s w c = s

module _ (set_affinity : ℕ → Bool) where
  pub starting_step : Demo → Which → Option Start → Demo
  unfolding set_thread after_return after_throw ThreadUtils.step
  starting_step s w none = s
  starting_step s w (some t) =
      let u = ThreadUtils.step set_affinity t true in after_wait (set_thread s w u) w u.creator

  pub joining_step : Demo → Which → Option Start → Demo
  unfolding after_join
  joining_step s w none = s
  joining_step s w (some t) = if has_ended t.worker then after_join s w else s

  pub main_step : Demo → Main → Demo
  unfolding starting_step joining_step thread
  main_step s (starts w) = starting_step s w (thread s w)
  main_step s (joins w) = joining_step s w (thread s w)
  main_step s m = s

  -- The task prints the thread's id.
  abbrev pub print_id : Demo → Which → Worker → Demo
  print_id s w in_task = record s { printed = s.printed ++ id w ∷ [] }
  print_id s w other = s

  pub thread_step : Demo → Which → Option Start → Demo
  unfolding set_thread id ThreadUtils.step
  thread_step s w none = s
  thread_step s w (some t) =
      set_thread (print_id s w t.worker) w (ThreadUtils.step set_affinity t false)

  -- The scheduler picks what moves: `none` is main.
  pub step : Demo → Option Which → Demo
  unfolding main_step thread_step
  step s none = main_step s s.main
  step s (some w) = thread_step s w (thread s w)

  pub run : Demo → List (Option Which) → Demo
  unfolding step
  run s [] = s
  run s (t ∷ ts) = run (step s t) ts
