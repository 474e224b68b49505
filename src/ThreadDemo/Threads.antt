-- ===== src/ThreadDemo/Threads.antt =====
-- A step of one of the threads of src/thread_demo.cpp keeps the invariant.
use lowlatency_cpp.Base.{
  ℕ, zero, suc, ◌≡◌, ◌≢◌, ◌⊎◌, inl, inr, refl, sym, ◌∙◌, ap, Bool, true, false, Option, none, some,
  List, [], ◌∷◌, ◌++◌, arith, subst,
}
use lowlatency_cpp.ThreadUtils as ThreadUtils
use lowlatency_cpp.ThreadUtils.{
  set_thread_core, cpu_setsize, Worker, in_task, finished, Creator, returned, thrown, Start,
  has_ended,
}
use lowlatency_cpp.ThreadUtils.Handshake as Handshake
use lowlatency_cpp.ThreadUtils.Handshake.{may_start}
use lowlatency_cpp.ThreadUtils.Starts.{work-creator}
use lowlatency_cpp.ThreadDemo.{
  Which, pinned, normal, invalid, Main, starts, joins, ended, terminated, Demo, set_thread, id,
  thread, print_id, thread_step,
}
use lowlatency_cpp.ThreadDemo.Invariant.{
  is_finished, has_finished, creator_of, Printed, Knows, IsSound, Inv, idle_if_not,
}

module _ (set_affinity : ℕ → Bool) where
  module _ (current_cpu : ℕ) where
    Knows-ends :
        (m : Main) (p n i : Option Creator) (fp fq fn fo caught : Bool)
        → (fp ≡ true → fq ≡ true)
        → (fn ≡ true → fo ≡ true)
        → Knows m p n i fp fn caught
        → Knows m p n i fq fo caught
    Knows-ends (joins normal) p n i fp fq fn fo caught f g (k, l, a) = (k, l, f a)
    Knows-ends (starts invalid) p n i fp fq fn fo caught f g (k, a, b, l) = (k, f a, g b, l)
    Knows-ends (ended zero) p n i fp fq fn fo caught f g (k, a, b, l) = (k, f a, g b, l)
    Knows-ends (starts pinned) p n i fp fq fn fo caught f g k = k
    Knows-ends (starts normal) p n i fp fq fn fo caught f g k = k
    Knows-ends (joins pinned) p n i fp fq fn fo caught f g k = k
    Knows-ends (joins invalid) p n i fp fq fn fo caught f g k = k
    Knows-ends (ended (suc code)) p n i fp fq fn fo caught f g k = k
    Knows-ends terminated p n i fp fq fn fo caught f g k = k

    Knows-moved :
        (m : Main) (p q n o i j : Option Creator) (fp fq fn fo caught : Bool)
        → q ≡ p
        → o ≡ n
        → j ≡ i
        → (fp ≡ true → fq ≡ true)
        → (fn ≡ true → fo ≡ true)
        → Knows m p n i fp fn caught
        → Knows m q o j fq fo caught
    Knows-moved m p q n o i j fp fq fn fo caught c d e f g k =
        subst (λ x. Knows m x o j fq fo caught) (sym c)
          (subst (λ x. Knows m p x j fq fo caught) (sym d)
            (subst (λ x. Knows m p n x fq fo caught) (sym e)
              (Knows-ends m p n i fp fq fn fo caught f g k)))

    -- A step of a thread ends it, prints its id, or does neither.
    work-finished :
        (t : Start) (w : Worker)
        → t.worker ≡ w
        → ((w ≡ in_task) × (is_finished (ThreadUtils.work set_affinity t w).worker ≡ true))
          ⊎ ((w ≢ in_task)
              × (is_finished (ThreadUtils.work set_affinity t w).worker ≡ is_finished w))
    unfolding ThreadUtils.work
    work-finished t in_task e = inl (refl, refl)
    work-finished t w e = inr ((λ f. ground arith), ground (arith, e))

    shown-pinned : (n : Bool) (ids : List ℕ) → Printed false n ids → Printed true n (ids ++ 10 ∷ [])
    shown-pinned false ids h = ap (λ (l : List ℕ). l ++ 10 ∷ []) h
    shown-pinned true ids h = inr (ap (λ (l : List ℕ). l ++ 10 ∷ []) h)

    shown-normal : (p : Bool) (ids : List ℕ) → Printed p false ids → Printed p true (ids ++ 20 ∷ [])
    shown-normal false ids h = ap (λ (l : List ℕ). l ++ 20 ∷ []) h
    shown-normal true ids h = inl (ap (λ (l : List ℕ). l ++ 20 ∷ []) h)

    print_id-other :
        (s : Demo) (which : Which) (w : Worker) → w ≢ in_task → print_id set_affinity s which w ≡ s
    print_id-other s which in_task ne = absurd (ne refl)
    print_id-other s which w ne = refl

    -- The invariant with the first two threads, and what they have printed, replaced.
    moved-Inv :
        (s : Demo) (q o : Option Start) (ids : List ℕ)
        → Inv set_affinity current_cpu s
        → IsSound set_affinity (some current_cpu) q
        → IsSound set_affinity none o
        → creator_of q ≡ creator_of s.pinned_thread
        → (has_finished s.pinned_thread ≡ true → has_finished q ≡ true)
        → creator_of o ≡ creator_of s.normal_thread
        → (has_finished s.normal_thread ≡ true → has_finished o ≡ true)
        → Printed (has_finished q) (has_finished o) ids
        → Inv set_affinity current_cpu
            (record s { pinned_thread = q; normal_thread = o; printed = ids })
    moved-Inv s q o ids v a b c f g h p = record {
      pinned_sound = a;
      normal_sound = b;
      invalid_sound = v.invalid_sound;
      knows =
          Knows-moved s.main (creator_of s.pinned_thread) (creator_of q)
            (creator_of s.normal_thread) (creator_of o) (creator_of s.invalid_thread)
            (creator_of s.invalid_thread) (has_finished s.pinned_thread) (has_finished q)
            (has_finished s.normal_thread) (has_finished o) s.was_caught c g refl f h v.knows;
      shown = p;
    }

    pinned_step-Inv :
        (s : Demo) (t : Start)
        → s.pinned_thread ≡ some t
        → Inv set_affinity current_cpu s
        → Inv set_affinity current_cpu (thread_step set_affinity s pinned (some t))
    unfolding thread_step ThreadUtils.step set_thread id
    pinned_step-Inv s t e v =
        let u = ThreadUtils.work set_affinity t t.worker in
        let sound : Handshake.Inv set_affinity (some current_cpu) t =
          subst (IsSound set_affinity (some current_cpu)) e v.pinned_sound in
        let next = Handshake.work-Inv set_affinity (some current_cpu) t t.worker refl sound in
        let creator : some u.creator ≡ creator_of s.pinned_thread =
          ap some (work-creator set_affinity (some current_cpu) t t.worker)
          ∙ sym (ap creator_of e) in
        let shown : Printed (is_finished t.worker) (has_finished s.normal_thread) s.printed =
          subst (λ p. Printed (has_finished p) (has_finished s.normal_thread) s.printed) e
            v.shown in
        elim (work-finished t t.worker refl) [
          | inl (task, over) ↦
              subst
                (λ w.
                  Inv set_affinity current_cpu
                    (set_thread (print_id set_affinity s pinned w) pinned u))
                (sym task)
                (moved-Inv s (some u) s.normal_thread (s.printed ++ 10 ∷ []) v next v.normal_sound
                  creator (λ _. over) refl (λ n. n)
                  (subst (λ b. Printed b (has_finished s.normal_thread) (s.printed ++ 10 ∷ []))
                    (sym over)
                    (shown-pinned (has_finished s.normal_thread) s.printed (
                      subst (λ w. Printed (is_finished w) (has_finished s.normal_thread) s.printed)
                        task shown))))
          | inr (other, same) ↦
              subst (λ d. Inv set_affinity current_cpu (set_thread d pinned u))
                (sym (print_id-other s pinned t.worker other))
                (moved-Inv s (some u) s.normal_thread s.printed v next v.normal_sound creator
                  (λ f. same ∙ sym (ap has_finished e) ∙ f) refl (λ n. n)
                  (subst (λ b. Printed b (has_finished s.normal_thread) s.printed) (sym same)
                    shown))
        ]

    normal_step-Inv :
        (s : Demo) (t : Start)
        → s.normal_thread ≡ some t
        → Inv set_affinity current_cpu s
        → Inv set_affinity current_cpu (thread_step set_affinity s normal (some t))
    unfolding thread_step ThreadUtils.step set_thread id
    normal_step-Inv s t e v =
        let u = ThreadUtils.work set_affinity t t.worker in
        let sound : Handshake.Inv set_affinity none t =
          subst (IsSound set_affinity none) e v.normal_sound in
        let next = Handshake.work-Inv set_affinity none t t.worker refl sound in
        let made : some u.creator ≡ creator_of s.normal_thread =
          ap some (work-creator set_affinity none t t.worker) ∙ sym (ap creator_of e) in
        let shown : Printed (has_finished s.pinned_thread) (is_finished t.worker) s.printed =
          subst (λ n. Printed (has_finished s.pinned_thread) (has_finished n) s.printed) e
            v.shown in
        elim (work-finished t t.worker refl) [
          | inl (task, over) ↦
              subst
                (λ w.
                  Inv set_affinity current_cpu
                    (set_thread (print_id set_affinity s normal w) normal u))
                (sym task)
                (moved-Inv s s.pinned_thread (some u) (s.printed ++ 20 ∷ []) v v.pinned_sound next
                  refl (λ f. f) made (λ _. over)
                  (subst (λ b. Printed (has_finished s.pinned_thread) b (s.printed ++ 20 ∷ []))
                    (sym over)
                    (shown-normal (has_finished s.pinned_thread) s.printed (
                      subst (λ w. Printed (has_finished s.pinned_thread) (is_finished w) s.printed)
                        task shown))))
          | inr (other, same) ↦
              subst (λ d. Inv set_affinity current_cpu (set_thread d normal u))
                (sym (print_id-other s normal t.worker other))
                (moved-Inv s s.pinned_thread (some u) s.printed v v.pinned_sound next refl (λ f. f)
                  made (λ f. same ∙ sym (ap has_finished e) ∙ f)
                  (subst (λ b. Printed (has_finished s.pinned_thread) b s.printed) (sym same)
                    shown))
        ]

    -- The third thread never runs its task.
    invalid_step-Inv :
        (s : Demo) (t : Start)
        → s.invalid_thread ≡ some t
        → Inv set_affinity current_cpu s
        → Inv set_affinity current_cpu (thread_step set_affinity s invalid (some t))
    unfolding thread_step ThreadUtils.step set_thread id may_start set_thread_core
    invalid_step-Inv s t e v =
        let u = ThreadUtils.work set_affinity t t.worker in
        let sound : Handshake.Inv set_affinity (some cpu_setsize) t =
          subst (IsSound set_affinity (some cpu_setsize)) e v.invalid_sound in
        let creator : some u.creator ≡ creator_of s.invalid_thread =
          ap some (work-creator set_affinity (some cpu_setsize) t t.worker)
          ∙ sym (ap creator_of e) in
        let (idle, _) = idle_if_not set_affinity (some cpu_setsize) t sound refl in
        subst (λ d. Inv set_affinity current_cpu (set_thread d invalid u))
          (sym (print_id-other s invalid t.worker idle))
          (record {
            pinned_sound = v.pinned_sound;
            normal_sound = v.normal_sound;
            invalid_sound =
                Handshake.work-Inv set_affinity (some cpu_setsize) t t.worker refl sound;
            knows =
                subst
                  (λ c.
                    Knows s.main (creator_of s.pinned_thread) (creator_of s.normal_thread) c
                      (has_finished s.pinned_thread) (has_finished s.normal_thread) s.was_caught)
                  (sym creator) v.knows;
            shown = v.shown;
          })

    pub thread_step-Inv :
        (s : Demo) (w : Which) (t : Option Start)
        → thread s w ≡ t
        → Inv set_affinity current_cpu s
        → Inv set_affinity current_cpu (thread_step set_affinity s w t)
    unfolding thread thread_step
    thread_step-Inv s w none e v = v
    thread_step-Inv s pinned (some t) e v = pinned_step-Inv s t e v
    thread_step-Inv s normal (some t) e v = normal_step-Inv s t e v
    thread_step-Inv s invalid (some t) e v = invalid_step-Inv s t e v
