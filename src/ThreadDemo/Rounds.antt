-- ===== src/ThreadDemo/Rounds.antt =====
-- The thread demonstration, src/thread_demo.cpp, in rounds, and a bound on those that are left.
use lowlatency_cpp.Base.{
  ℕ, zero, suc, ◌+◌, ◌≡◌, refl, ◌∙◌, ap₂, Bool, true, false, Option, none, some, List, [], ◌∷◌,
}
use lowlatency_cpp.ThreadUtils as ThreadUtils
use lowlatency_cpp.ThreadUtils.{
  set_thread_core, cpu_setsize, Worker, in_task, finished, Creator, returned, thrown, Start,
  has_ended,
}
use lowlatency_cpp.ThreadUtils.Starts.{left}
use lowlatency_cpp.ThreadDemo.{
  Which, pinned, normal, invalid, Main, starts, joins, ended, terminated, Demo, set_thread, thread,
  print_id, thread_step, step, run,
}
use lowlatency_cpp.ThreadDemo.Invariant.{has_finished}

-- Rounds in which main and each of the threads make a step.
abbrev pub fair : ℕ → List (Option Which)
fair zero = []
fair (suc k) = none ∷ some pinned ∷ some normal ∷ some invalid ∷ fair k

-- Rounds until a call of `createAndStartThread` is left, and until a thread in its task has ended.
abbrev pub to_leave : Option Start → ℕ
to_leave none = 6
to_leave (some t) = left t

unfoldable pub to_end_at : Bool → ℕ
to_end_at true = 0
to_end_at false = 1

abbrev pub to_end : Option Start → ℕ
to_end o = to_end_at (has_finished o)

-- A bound on the rounds that are left.
unfoldable pub rounds_left : Main → Option Start → Option Start → Option Start → ℕ
unfolding to_end_at
rounds_left (starts pinned) p n i = 20 + to_leave p
rounds_left (starts normal) p n i = 13 + to_leave n
rounds_left (joins pinned) p n i = 11 + to_end p
rounds_left (joins normal) p n i = 9 + to_end n
rounds_left (starts invalid) p n i = 1 + to_leave i
rounds_left m p n i = 0

abbrev pub left_at : Demo → ℕ
left_at s = rounds_left s.main s.pinned_thread s.normal_thread s.invalid_thread

abbrev pub is_over : Main → Bool
is_over (ended code) = true
is_over terminated = true
is_over m = false

module _ (set_affinity : ℕ → Bool) where
  abbrev pub worked : Option Start → Option Start
  worked none = none
  worked (some t) = some (ThreadUtils.work set_affinity t t.worker)

  pub print_id-fields :
      (s : Demo) (w : Which) (k : Worker)
      → let d = print_id set_affinity s w k in
        (d.main ≡ s.main)
        × (d.pinned_thread ≡ s.pinned_thread)
        × (d.normal_thread ≡ s.normal_thread)
        × (d.invalid_thread ≡ s.invalid_thread)
  print_id-fields s w in_task = (refl, refl, refl, refl)
  print_id-fields s w k = (refl, refl, refl, refl)

  -- Main and the three threads, where they stand.
  record At (s : Demo) (m : Main) (p n i : Option Start) : Type 0 where
    at_main : s.main ≡ m
    at_pinned : s.pinned_thread ≡ p
    at_normal : s.normal_thread ≡ n
    at_invalid : s.invalid_thread ≡ i

  pinned_step-At :
      (s : Demo) (m : Main) (o p n i : Option Start)
      → s.pinned_thread ≡ o
      → At s m p n i
      → At (thread_step set_affinity s pinned o) m (worked o) n i
  unfolding thread_step set_thread ThreadUtils.step
  pinned_step-At s m none p n i e a = record {
    at_main = a.at_main;
    at_pinned = e;
    at_normal = a.at_normal;
    at_invalid = a.at_invalid;
  }
  pinned_step-At s m (some t) p n i e a =
      let (same_main, _, same_n, same_i) = print_id-fields s pinned t.worker in
      record {
        at_main = same_main ∙ a.at_main;
        at_pinned = refl;
        at_normal = same_n ∙ a.at_normal;
        at_invalid = same_i ∙ a.at_invalid;
      }

  normal_step-At :
      (s : Demo) (m : Main) (o p n i : Option Start)
      → s.normal_thread ≡ o
      → At s m p n i
      → At (thread_step set_affinity s normal o) m p (worked o) i
  unfolding thread_step set_thread ThreadUtils.step
  normal_step-At s m none p n i e a = record {
    at_main = a.at_main;
    at_pinned = a.at_pinned;
    at_normal = e;
    at_invalid = a.at_invalid;
  }
  normal_step-At s m (some t) p n i e a =
      let (same_main, same_p, _, same_i) = print_id-fields s normal t.worker in
      record {
        at_main = same_main ∙ a.at_main;
        at_pinned = same_p ∙ a.at_pinned;
        at_normal = refl;
        at_invalid = same_i ∙ a.at_invalid;
      }

  invalid_step-At :
      (s : Demo) (m : Main) (o p n i : Option Start)
      → s.invalid_thread ≡ o
      → At s m p n i
      → At (thread_step set_affinity s invalid o) m p n (worked o)
  unfolding thread_step set_thread ThreadUtils.step
  invalid_step-At s m none p n i e a = record {
    at_main = a.at_main;
    at_pinned = a.at_pinned;
    at_normal = a.at_normal;
    at_invalid = e;
  }
  invalid_step-At s m (some t) p n i e a =
      let (same_main, same_p, same_n, _) = print_id-fields s invalid t.worker in
      record {
        at_main = same_main ∙ a.at_main;
        at_pinned = same_p ∙ a.at_pinned;
        at_normal = same_n ∙ a.at_normal;
        at_invalid = refl;
      }

  -- What a round makes of the threads, after the step of main.
  abbrev pub threads_round : Demo → Demo
  threads_round s = run set_affinity s (some pinned ∷ some normal ∷ some invalid ∷ [])

  pub threads_round-left :
      (s : Demo)
      → left_at (threads_round s)
        ≡ rounds_left s.main
            (worked s.pinned_thread)
            (worked s.normal_thread)
            (worked s.invalid_thread)
  unfolding run step thread
  threads_round-left s =
      let a : At s s.main s.pinned_thread s.normal_thread s.invalid_thread = record {
        at_main = refl;
        at_pinned = refl;
        at_normal = refl;
        at_invalid = refl;
      } in
      let s1 = thread_step set_affinity s pinned s.pinned_thread in
      let b =
        pinned_step-At s s.main s.pinned_thread s.pinned_thread s.normal_thread s.invalid_thread
          refl a in
      let s2 = thread_step set_affinity s1 normal s1.normal_thread in
      let c =
        normal_step-At s1 s.main s1.normal_thread (worked s.pinned_thread) s.normal_thread
          s.invalid_thread refl b in
      let s3 = thread_step set_affinity s2 invalid s2.invalid_thread in
      let d =
        invalid_step-At s2 s.main s2.invalid_thread (worked s.pinned_thread)
          (worked s1.normal_thread) s.invalid_thread refl c in
      rw (d.at_main, d.at_pinned, d.at_normal, d.at_invalid)
        (ap₂ (λ x y. rounds_left s.main (worked s.pinned_thread) (worked x) (worked y)) b.at_normal
          c.at_invalid)
