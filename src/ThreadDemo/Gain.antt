-- ===== src/ThreadDemo/Gain.antt =====
-- The thread demonstration, src/thread_demo.cpp, gets on in every round.
use lowlatency_cpp.Base.{
  ℕ, ◌≤◌, ◌<◌, ◌≡◌, ◌⊎◌, inl, inr, refl, ◌∙◌, Bool, true, Option, none, some, arith, Bool-cases,
  subst,
}
use lowlatency_cpp.ThreadUtils as ThreadUtils
use lowlatency_cpp.ThreadUtils.{
  set_thread_core, cpu_setsize, Worker, in_task, finished, Creator, returned, thrown, Start,
  has_ended,
}
use lowlatency_cpp.ThreadUtils.Handshake as Handshake
use lowlatency_cpp.ThreadUtils.Handshake.{may_start}
use lowlatency_cpp.ThreadUtils.Starts as Starts
use lowlatency_cpp.ThreadUtils.Starts.{left, left-le, out_of_left, stays_out, work-left}
use lowlatency_cpp.ThreadDemo.{
  Which, pinned, normal, invalid, Main, starts, joins, Demo, after_wait, after_return, after_throw,
  after_join, set_thread, thread, starting_step, joining_step, main_step,
}
use lowlatency_cpp.ThreadDemo.Invariant.{is_finished, IsSound, Inv}
use lowlatency_cpp.ThreadDemo.Calls.{known}
use lowlatency_cpp.ThreadDemo.Rounds.{
  to_leave, to_end_at, to_end, rounds_left, left_at, is_over, worked,
}

module _ (set_affinity : ℕ → Bool) where
  pub to_leave-le : (o : Option Start) → to_leave o ≤ 6
  to_leave-le none = omega arith
  to_leave-le (some t) = left-le set_affinity none t

  pub to_end-le : (o : Option Start) → to_end o ≤ 1
  unfolding to_end_at
  to_end-le o = ground arith

  -- A round of a call of `createAndStartThread`: it is left, or it gets on.
  call_round :
      (core_id : Option ℕ) (t : Start)
      → Handshake.Inv set_affinity core_id t
      → let u = ThreadUtils.wait set_affinity t t.creator in
        (u.creator ≡ returned)
        ⊎ (u.creator ≡ thrown)
        ⊎ (to_leave (worked set_affinity (some u)) < left t)
  unfolding ThreadUtils.step
  call_round core_id t v = elim (Starts.round set_affinity core_id t v) [
    | inr on ↦ inr (inr on)
    | inl none_left ↦ elim (out_of_left set_affinity core_id t v none_left) [
      | inl e ↦ inl (stays_out set_affinity core_id t true (inl e) ∙ e)
      | inr e ↦ inr (inl (stays_out set_affinity core_id t true (inr e) ∙ e))
    ]
  ]

  join_round_at :
      (core_id : Option ℕ) (t : Start) (w : Worker)
      → t.worker ≡ w
      → Handshake.Inv set_affinity core_id t
      → t.creator ≡ returned
      → (has_ended w ≡ true)
        ⊎ (to_end_at (is_finished (ThreadUtils.work set_affinity t w).worker)
            < to_end_at (is_finished w))
  unfolding to_end_at ThreadUtils.work
  join_round_at core_id t in_task f v e = inr (omega arith)
  join_round_at core_id t finished f v e = inl refl
  join_round_at core_id t ThreadUtils.gave_up f v e = inl refl
  join_round_at core_id t ThreadUtils.dangling f v e = inl refl
  join_round_at core_id t w f v e = absurd (ground (arith, e, f, v.saw, v.knows))

  -- A thread whose creator has returned ends with its next step, if it has not ended.
  join_round :
      (core_id : Option ℕ) (t : Start)
      → Handshake.Inv set_affinity core_id t
      → t.creator ≡ returned
      → (has_ended t.worker ≡ true) ⊎ (to_end (worked set_affinity (some t)) < to_end (some t))
  join_round core_id t v e = join_round_at core_id t t.worker refl v e

  module _ (current_cpu : ℕ) where
    -- A step of main, followed by one of each thread: main is over, or fewer rounds are left.
    unfoldable pub Progresses : Demo → Demo → Type 0
    Progresses s t =
        rounds_left t.main (worked set_affinity t.pinned_thread)
          (worked set_affinity t.normal_thread) (worked set_affinity t.invalid_thread)
        < left_at s

    calls_pinned :
        (s : Demo) (t : Start) (c : Creator)
        → s.main ≡ starts pinned
        → s.pinned_thread ≡ some t
        → let u = ThreadUtils.wait set_affinity t t.creator in
          u.creator ≡ c
          → (c ≡ returned) ⊎ (c ≡ thrown) ⊎ (to_leave (worked set_affinity (some u)) < left t)
          → Progresses s (after_wait (set_thread s pinned u) pinned c)
    unfolding Progresses rounds_left set_thread after_return after_throw
    calls_pinned s t returned m e f w =
        rw (m, e) (omega (arith, to_leave-le (worked set_affinity (some (ThreadUtils.start none)))))
    calls_pinned s t thrown m e f w = rw (m, e) (omega arith)
    calls_pinned s t c m e f (inl out) = absurd (ground (arith, out))
    calls_pinned s t c m e f (inr (inl out)) = absurd (ground (arith, out))
    calls_pinned s t c m e f (inr (inr on)) = rw (m, e) (omega (arith, on))

    calls_normal :
        (s : Demo) (t : Start) (c : Creator)
        → s.main ≡ starts normal
        → s.normal_thread ≡ some t
        → let u = ThreadUtils.wait set_affinity t t.creator in
          u.creator ≡ c
          → (c ≡ returned) ⊎ (c ≡ thrown) ⊎ (to_leave (worked set_affinity (some u)) < left t)
          → Progresses s (after_wait (set_thread s normal u) normal c)
    unfolding Progresses rounds_left set_thread after_return after_throw
    calls_normal s t returned m e f w =
        rw (m, e) (omega (arith, to_end-le (worked set_affinity s.pinned_thread)))
    calls_normal s t thrown m e f w = rw (m, e) (omega arith)
    calls_normal s t c m e f (inl out) = absurd (ground (arith, out))
    calls_normal s t c m e f (inr (inl out)) = absurd (ground (arith, out))
    calls_normal s t c m e f (inr (inr on)) = rw (m, e) (omega (arith, on))

    calls_invalid :
        (s : Demo) (t : Start) (c : Creator)
        → s.main ≡ starts invalid
        → s.invalid_thread ≡ some t
        → let u = ThreadUtils.wait set_affinity t t.creator in
          u.creator ≡ c
          → (c ≡ returned) ⊎ (c ≡ thrown) ⊎ (to_leave (worked set_affinity (some u)) < left t)
          → Progresses s (after_wait (set_thread s invalid u) invalid c)
    unfolding Progresses rounds_left set_thread after_return after_throw
    calls_invalid s t returned m e f w = rw (m, e) (omega arith)
    calls_invalid s t thrown m e f w = rw (m, e) (omega arith)
    calls_invalid s t c m e f (inl out) = absurd (ground (arith, out))
    calls_invalid s t c m e f (inr (inl out)) = absurd (ground (arith, out))
    calls_invalid s t c m e f (inr (inr on)) = rw (m, e) (omega (arith, on))

    joins_pinned :
        (s : Demo) (t : Start)
        → s.main ≡ joins pinned
        → s.pinned_thread ≡ some t
        → (has_ended t.worker ≡ true) ⊎ (to_end (worked set_affinity (some t)) < to_end (some t))
        → Progresses s (joining_step set_affinity s pinned (some t))
    unfolding Progresses rounds_left joining_step after_join
    joins_pinned s t m e h = elim (Bool-cases (has_ended t.worker)) [
      | inl over ↦ rw (over, m, e) (omega (arith, to_end-le (worked set_affinity s.normal_thread)))
      | inr busy ↦ elim h [
        | inl over ↦ absurd (ground (arith, busy, over))
        | inr on ↦ rw (busy, m, e) (omega (arith, on))
      ]
    ]

    joins_normal :
        (s : Demo) (t : Start)
        → s.main ≡ joins normal
        → s.normal_thread ≡ some t
        → (has_ended t.worker ≡ true) ⊎ (to_end (worked set_affinity (some t)) < to_end (some t))
        → Progresses s (joining_step set_affinity s normal (some t))
    unfolding Progresses rounds_left joining_step after_join
    joins_normal s t m e h = elim (Bool-cases (has_ended t.worker)) [
      | inl over ↦
          rw (over, m, e)
            (omega (
              arith,
              to_leave-le (worked set_affinity (some (ThreadUtils.start (some cpu_setsize)))),
            ))
      | inr busy ↦ elim h [
        | inl over ↦ absurd (ground (arith, busy, over))
        | inr on ↦ rw (busy, m, e) (omega (arith, on))
      ]
    ]

    starting_progress :
        (s : Demo) (w : Which) (o : Option Start)
        → s.main ≡ starts w
        → thread s w ≡ o
        → Inv set_affinity current_cpu s
        → Progresses s (starting_step set_affinity s w o)
    unfolding thread starting_step ThreadUtils.step
    starting_progress s pinned none m e v =
        absurd (ground (arith, e, known set_affinity current_cpu s (starts pinned) m v))
    starting_progress s normal none m e v =
        absurd (ground (arith, e, known set_affinity current_cpu s (starts normal) m v))
    starting_progress s invalid none m e v =
        absurd (ground (arith, e, known set_affinity current_cpu s (starts invalid) m v))
    starting_progress s pinned (some t) m e v =
        calls_pinned s t (ThreadUtils.wait set_affinity t t.creator).creator m e refl (
          call_round (some current_cpu) t
            (subst (IsSound set_affinity (some current_cpu)) e v.pinned_sound))
    starting_progress s normal (some t) m e v =
        calls_normal s t (ThreadUtils.wait set_affinity t t.creator).creator m e refl
          (call_round none t (subst (IsSound set_affinity none) e v.normal_sound))
    starting_progress s invalid (some t) m e v =
        calls_invalid s t (ThreadUtils.wait set_affinity t t.creator).creator m e refl (
          call_round (some cpu_setsize) t
            (subst (IsSound set_affinity (some cpu_setsize)) e v.invalid_sound))

    joining_progress :
        (s : Demo) (w : Which) (o : Option Start)
        → s.main ≡ joins w
        → thread s w ≡ o
        → Inv set_affinity current_cpu s
        → Progresses s (joining_step set_affinity s w o)
    unfolding thread joining_step
    joining_progress s invalid o m e v =
        absurd (known set_affinity current_cpu s (joins invalid) m v)
    joining_progress s pinned none m e v =
        absurd (ground (arith, e, known set_affinity current_cpu s (joins pinned) m v))
    joining_progress s normal none m e v =
        absurd (ground (arith, e, known set_affinity current_cpu s (joins normal) m v))
    joining_progress s pinned (some t) m e v = joins_pinned s t m e (
        join_round (some current_cpu) t
          (subst (IsSound set_affinity (some current_cpu)) e v.pinned_sound)
          (ground (arith, e, known set_affinity current_cpu s (joins pinned) m v)))
    joining_progress s normal (some t) m e v = joins_normal s t m e (
        join_round none t (subst (IsSound set_affinity none) e v.normal_sound)
          (ground (arith, e, known set_affinity current_cpu s (joins normal) m v)))

    pub main_progress :
        (s : Demo) (m : Main)
        → s.main ≡ m
        → Inv set_affinity current_cpu s
        → (is_over m ≡ true) ⊎ Progresses s (main_step set_affinity s m)
    unfolding main_step
    main_progress s (starts w) e v = inr (starting_progress s w (thread s w) e refl v)
    main_progress s (joins w) e v = inr (joining_progress s w (thread s w) e refl v)
    main_progress s m e v = inl refl
