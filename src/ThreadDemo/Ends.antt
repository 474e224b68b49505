-- ===== src/ThreadDemo/Ends.antt =====
-- What the thread demonstration, src/thread_demo.cpp, has done when main ends.
use lowlatency_cpp.Base.{
  ℕ, zero, suc, ◌≡◌, ◌⊎◌, refl, Bool, true, false, Option, none, some, List, [], ◌∷◌, arith, subst,
}
use lowlatency_cpp.ThreadUtils.{set_thread_core, Creator, returned, thrown, Start}
use lowlatency_cpp.ThreadUtils.Handshake.{may_start}
use lowlatency_cpp.ThreadDemo.{
  Which, ended, terminated, Demo, start, thread, main_step, thread_step, step, run,
}
use lowlatency_cpp.ThreadDemo.Invariant.{
  has_finished, creator_of, Printed, IsSound, Inv, returned-may_start, thrown-may_start, start-Inv,
}
use lowlatency_cpp.ThreadDemo.Threads.{thread_step-Inv}
use lowlatency_cpp.ThreadDemo.Calls.{known}
use lowlatency_cpp.ThreadDemo.MainSteps.{main_step-Inv}

module _ (set_affinity : ℕ → Bool) (current_cpu : ℕ) where
  pub run-Inv :
      (s : Demo) (ts : List (Option Which))
      → Inv set_affinity current_cpu s
      → Inv set_affinity current_cpu (run set_affinity s ts)
  unfolding run step
  run-Inv s [] v = v
  run-Inv s (none ∷ ts) v =
      run-Inv (main_step set_affinity s s.main) ts
        (main_step-Inv set_affinity current_cpu s s.main refl v)
  run-Inv s (some w ∷ ts) v =
      run-Inv (thread_step set_affinity s w (thread s w)) ts
        (thread_step-Inv set_affinity current_cpu s w (thread s w) refl v)

  pub reached-Inv :
      (ts : List (Option Which))
      → Inv set_affinity current_cpu (run set_affinity (start (some current_cpu)) ts)
  reached-Inv ts = run-Inv (start (some current_cpu)) ts (start-Inv set_affinity current_cpu)

  -- The creator of the first thread got out of `createAndStartThread` as the CPU allowed it.
  pinned-decides :
      (o : Option Start) (c : Creator)
      → creator_of o ≡ some c
      → IsSound set_affinity (some current_cpu) o
      → ((c ≡ returned) → set_thread_core set_affinity (some current_cpu) ≡ true)
        × ((c ≡ thrown) → set_thread_core set_affinity (some current_cpu) ≡ false)
  unfolding may_start
  pinned-decides none c e v = absurd (ground (arith, e))
  pinned-decides (some t) c e v = (
    λ f. returned-may_start set_affinity (some current_cpu) t v (ground (arith, e, f)),
    λ f. thrown-may_start set_affinity (some current_cpu) t v (ground (arith, e, f)),
  )

  -- If main returns, the exit code is 0, and both threads have printed their ids.
  pub returns :
      (s : Demo) (code : ℕ)
      → Inv set_affinity current_cpu s
      → s.main ≡ ended code
      → (set_thread_core set_affinity (some current_cpu) ≡ true)
        × (s.main ≡ ended 0)
        × ((s.printed ≡ 10 ∷ 20 ∷ []) ⊎ (s.printed ≡ 20 ∷ 10 ∷ []))
        × (s.was_caught ≡ true)
  returns s zero v e =
      let (ret, first, second, caught) = known set_affinity current_cpu s (ended 0) e v in
      (
        (pinned-decides s.pinned_thread returned ret v.pinned_sound).0 refl,
        e,
        subst (λ b. Printed b true s.printed) first
            (subst (λ b. Printed (has_finished s.pinned_thread) b s.printed) second v.shown),
        caught,
      )
  returns s (suc code) v e = absurd (known set_affinity current_cpu s (ended (suc code)) e v)

  pub terminates :
      (s : Demo)
      → Inv set_affinity current_cpu s
      → s.main ≡ terminated
      → set_thread_core set_affinity (some current_cpu) ≡ false
  terminates s v e =
      (pinned-decides s.pinned_thread thrown (known set_affinity current_cpu s terminated e v)
          v.pinned_sound).1
        refl
