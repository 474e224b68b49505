-- ===== src/ThreadDemo/Progress.antt =====
-- The thread demonstration, src/thread_demo.cpp, comes to its end.
use lowlatency_cpp.Base.{
  ℕ, zero, suc, ◌≤◌, ◌<◌, ◌≡◌, ◌⊎◌, inl, inr, refl, ◌∙◌, ap, Bool, true, false, Option, none, some,
  List, [], ◌∷◌, arith,
}
use lowlatency_cpp.ThreadUtils.{set_thread_core, Start}
use lowlatency_cpp.ThreadDemo.{
  Which, pinned, normal, invalid, Main, ended, terminated, Demo, start, set_thread, thread,
  main_step, thread_step, step, run,
}
use lowlatency_cpp.ThreadDemo.Invariant.{Inv}
use lowlatency_cpp.ThreadDemo.MainSteps.{main_step-Inv}
use lowlatency_cpp.ThreadDemo.Ends.{run-Inv, reached-Inv, returns, terminates}
use lowlatency_cpp.ThreadDemo.Rounds.{
  fair, rounds_left, left_at, is_over, print_id-fields, threads_round, threads_round-left,
}
use lowlatency_cpp.ThreadDemo.Gain.{to_leave-le, to_end-le, Progresses, main_progress}

module _ (set_affinity : ℕ → Bool) where
  module _ (current_cpu : ℕ) where
    rounds_left-le : (s : Demo) → left_at s ≤ 26
    unfolding rounds_left
    rounds_left-le s = ground (
      arith,
      to_leave-le set_affinity s.pinned_thread,
      to_leave-le set_affinity s.normal_thread,
      to_leave-le set_affinity s.invalid_thread,
      to_end-le set_affinity s.pinned_thread,
      to_end-le set_affinity s.normal_thread,
    )

    thread_step-main :
        (s : Demo) (w : Which) (o : Option Start) → (thread_step set_affinity s w o).main ≡ s.main
    unfolding thread_step set_thread
    thread_step-main s w none = refl
    thread_step-main s pinned (some t) = (print_id-fields set_affinity s pinned t.worker).0
    thread_step-main s normal (some t) = (print_id-fields set_affinity s normal t.worker).0
    thread_step-main s invalid (some t) = (print_id-fields set_affinity s invalid t.worker).0

    main_step-over :
        (s : Demo) (m : Main)
        → s.main ≡ m
        → is_over m ≡ true
        → is_over (main_step set_affinity s m).main ≡ true
    unfolding main_step
    main_step-over s (ended code) e h = ap is_over e
    main_step-over s terminated e h = ap is_over e
    main_step-over s m e h = absurd (ground arith)

    over-run :
        (s : Demo) (ts : List (Option Which))
        → is_over s.main ≡ true
        → is_over (run set_affinity s ts).main ≡ true
    unfolding run step
    over-run s [] h = h
    over-run s (none ∷ ts) h =
        over-run (main_step set_affinity s s.main) ts (main_step-over s s.main refl h)
    over-run s (some w ∷ ts) h =
        over-run (thread_step set_affinity s w (thread s w)) ts
          (ap is_over (thread_step-main s w (thread s w)) ∙ h)

    gets_over :
        (s : Demo) (k : ℕ)
        → Inv set_affinity current_cpu s
        → left_at s < k
        → is_over (run set_affinity s (fair k)).main ≡ true
    unfolding run step Progresses
    gets_over s zero v h = absurd (omega arith)
    gets_over s (suc k) v h =
        let t = main_step set_affinity s s.main in
        elim (main_progress set_affinity current_cpu s s.main refl v) [
          | inl over ↦ over-run s (fair (suc k)) over
          | inr on ↦
              gets_over (threads_round set_affinity t) k
                (run-Inv set_affinity current_cpu t (some pinned ∷ some normal ∷ some invalid ∷ [])
                  (main_step-Inv set_affinity current_cpu s s.main refl v))
                (omega (arith, threads_round-left set_affinity t, on))
        ]

over-cases : (m : Main) → is_over m ≡ true → ((code : ℕ) × (m ≡ ended code)) ⊎ (m ≡ terminated)
over-cases (ended code) e = inl (code, refl)
over-cases terminated e = inr refl
over-cases m e = absurd (ground arith)

-- Whatever main and its threads have done so far, after 27 rounds in which each makes a step main has
-- ended. If the first thread could be put on the CPU that main ran on, main has returned 0, each of
-- the first two threads has printed its id once, in one order or the other, the third has printed
-- nothing, and main has printed the expected error. If it could not, main has died of the exception.
pub main_ends :
    (set_affinity : ℕ → Bool) (current_cpu : ℕ) (ts : List (Option Which)) (k : ℕ)
    → 27 ≤ k
    → let s = run set_affinity (run set_affinity (start (some current_cpu)) ts) (fair k) in
      ((set_thread_core set_affinity (some current_cpu) ≡ true)
        × (s.main ≡ ended 0)
        × ((s.printed ≡ 10 ∷ 20 ∷ []) ⊎ (s.printed ≡ 20 ∷ 10 ∷ []))
        × (s.was_caught ≡ true))
      ⊎ ((set_thread_core set_affinity (some current_cpu) ≡ false) × (s.main ≡ terminated))
main_ends set_affinity current_cpu ts k enough =
    let r = run set_affinity (start (some current_cpu)) ts in
    let s = run set_affinity r (fair k) in
    let u = reached-Inv set_affinity current_cpu ts in
    let v = run-Inv set_affinity current_cpu r (fair k) u in
    elim (over-cases s.main (
      gets_over set_affinity current_cpu r k u
        (omega (arith, rounds_left-le set_affinity current_cpu r)))) [
          | inl (code, e) ↦ inl (returns set_affinity current_cpu s code v e)
          | inr e ↦ inr (terminates set_affinity current_cpu s v e, e)
        ]
