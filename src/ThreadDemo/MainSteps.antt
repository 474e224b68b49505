-- ===== src/ThreadDemo/MainSteps.antt =====
-- A step of main in src/thread_demo.cpp keeps the invariant.
use lowlatency_cpp.Base.{
  ℕ, ◌≡◌, inl, inr, refl, ◌∙◌, ap, Bool, Option, none, some, arith, Bool-cases, subst,
}
use lowlatency_cpp.ThreadUtils as ThreadUtils
use lowlatency_cpp.ThreadUtils.{
  set_thread_core, cpu_setsize, Worker, in_task, finished, Creator, returned, thrown, Start,
  has_ended,
}
use lowlatency_cpp.ThreadUtils.Handshake as Handshake
use lowlatency_cpp.ThreadUtils.Handshake.{may_start}
use lowlatency_cpp.ThreadDemo.{
  Which, pinned, normal, invalid, Main, starts, joins, Demo, after_join, thread, starting_step,
  joining_step, main_step,
}
use lowlatency_cpp.ThreadDemo.Invariant.{
  has_finished, IsSound, Inv, returned-may_start, ended-finished,
}
use lowlatency_cpp.ThreadDemo.Calls.{
  known, starts_pinned-Inv, starts_normal-Inv, starts_invalid-Inv,
}

module _ (set_affinity : ℕ → Bool) (current_cpu : ℕ) where
  joins_pinned-Inv :
      (s : Demo) (t : Start)
      → s.main ≡ joins pinned
      → s.pinned_thread ≡ some t
      → Inv set_affinity current_cpu s
      → Inv set_affinity current_cpu (joining_step set_affinity s pinned (some t))
  unfolding joining_step after_join
  joins_pinned-Inv s t m e v = elim (Bool-cases (has_ended t.worker)) [
    | inr busy ↦ rw busy v
    | inl over ↦
        let (ret, second) = known set_affinity current_cpu s (joins pinned) m v in
        let sound = subst (IsSound set_affinity (some current_cpu)) e v.pinned_sound in
        let out : t.creator ≡ returned = ground (arith, e, ret) in
        let may = returned-may_start set_affinity (some current_cpu) t sound out in
        rw over (record {
          pinned_sound = v.pinned_sound;
          normal_sound = v.normal_sound;
          invalid_sound = v.invalid_sound;
          knows = (
            ret,
            second,
            ap has_finished e ∙ ended-finished set_affinity (some current_cpu) t sound may over,
          );
          shown = v.shown;
        })
  ]

  joins_normal-Inv :
      (s : Demo) (t : Start)
      → s.main ≡ joins normal
      → s.normal_thread ≡ some t
      → Inv set_affinity current_cpu s
      → Inv set_affinity current_cpu (joining_step set_affinity s normal (some t))
  unfolding joining_step after_join ThreadUtils.start may_start
  joins_normal-Inv s t m e v = elim (Bool-cases (has_ended t.worker)) [
    | inr busy ↦ rw busy v
    | inl over ↦
        let (ret, _, first) = known set_affinity current_cpu s (joins normal) m v in
        let sound = subst (IsSound set_affinity none) e v.normal_sound in
        rw over (record {
          pinned_sound = v.pinned_sound;
          normal_sound = v.normal_sound;
          invalid_sound = Handshake.start-Inv set_affinity (some cpu_setsize);
          knows = (
            ret,
            first,
            ap has_finished e ∙ ended-finished set_affinity none t sound refl over,
            record {},
          );
          shown = v.shown;
        })
  ]

  starting_step-Inv :
      (s : Demo) (w : Which) (o : Option Start)
      → s.main ≡ starts w
      → thread s w ≡ o
      → Inv set_affinity current_cpu s
      → Inv set_affinity current_cpu (starting_step set_affinity s w o)
  unfolding thread starting_step ThreadUtils.step
  starting_step-Inv s w none m e v = v
  starting_step-Inv s pinned (some t) m e v =
      starts_pinned-Inv set_affinity current_cpu s t
        (ThreadUtils.wait set_affinity t t.creator).creator m e v refl
  starting_step-Inv s normal (some t) m e v =
      starts_normal-Inv set_affinity current_cpu s t
        (ThreadUtils.wait set_affinity t t.creator).creator m e v refl
  starting_step-Inv s invalid (some t) m e v =
      starts_invalid-Inv set_affinity current_cpu s t
        (ThreadUtils.wait set_affinity t t.creator).creator m e v refl

  joining_step-Inv :
      (s : Demo) (w : Which) (o : Option Start)
      → s.main ≡ joins w
      → thread s w ≡ o
      → Inv set_affinity current_cpu s
      → Inv set_affinity current_cpu (joining_step set_affinity s w o)
  unfolding thread joining_step
  joining_step-Inv s w none m e v = v
  joining_step-Inv s pinned (some t) m e v = joins_pinned-Inv s t m e v
  joining_step-Inv s normal (some t) m e v = joins_normal-Inv s t m e v
  joining_step-Inv s invalid (some t) m e v =
      absurd (known set_affinity current_cpu s (joins invalid) m v)

  pub main_step-Inv :
      (s : Demo) (m : Main)
      → s.main ≡ m
      → Inv set_affinity current_cpu s
      → Inv set_affinity current_cpu (main_step set_affinity s m)
  unfolding main_step
  main_step-Inv s (starts w) e v = starting_step-Inv s w (thread s w) e refl v
  main_step-Inv s (joins w) e v = joining_step-Inv s w (thread s w) e refl v
  main_step-Inv s m e v = v
