-- ===== src/QueueDemo/Progress.antt =====
-- The queue demonstration, src/lf_queue_demo.cpp, comes to its end.
use lowlatency_cpp.Base.{
  rounds, ℕ, zero, suc, ◌+◌, ◌*◌, ◌^◌, ◌<◌, ◌≤◌, ◌≡◌, ◌⊎◌, inl, inr, refl, sym, ◌∙◌, ap, Bool, true,
  false, none, List, [], ◌∷◌, arith, Bool-cases, subst,
}
use lowlatency_cpp.LfQueue.Spsc as Spsc
use lowlatency_cpp.LfQueue.Spsc.Progress.{consume-le, consume-made}
use lowlatency_cpp.ThreadUtils.{Worker, in_task, finished, returned, Start}
use lowlatency_cpp.ThreadUtils as ThreadUtils
use lowlatency_cpp.ThreadUtils.Handshake as Handshake
use lowlatency_cpp.ThreadUtils.Starts.{left-le, work-left, is_early}
use lowlatency_cpp.QueueDemo.{
  orders_from, m_ended, Program, start, is_done, main_step, consumer_step, step, run,
}
use lowlatency_cpp.QueueDemo.Invariant.{Inv}
use lowlatency_cpp.QueueDemo.Steps.{reached-Inv, step-Inv, run-Inv}
use lowlatency_cpp.QueueDemo.Ends.{Inv-ended}
use lowlatency_cpp.QueueDemo.Gain.{worker_rank, gain, gain-le, Rests, no_deadlock, main_step-gain}

module _ (set_affinity : ℕ → Bool) (count size : ℕ) where
  -- The end of the task, and what follows it.
  task-rank :
      (t : Start)
      → (t.worker ≡ in_task) ⊎ (t.worker ≡ finished)
      → worker_rank (ThreadUtils.work set_affinity t t.worker).worker ≡ 1
  unfolding ThreadUtils.work
  task-rank t (inl e) =
      subst (λ w. worker_rank (ThreadUtils.work set_affinity t w).worker ≡ 1) (sym e) refl
  task-rank t (inr e) =
      subst (λ w. worker_rank (ThreadUtils.work set_affinity t w).worker ≡ 1) (sym e)
        (ap worker_rank e)

  -- A thread that is not pinned neither gives up nor stores to a dead flag.
  never_stops :
      (t : Start) (w : Worker)
      → t.worker ≡ w
      → Handshake.Inv set_affinity none t
      → ((w ≡ ThreadUtils.gave_up) ⊎ (w ≡ ThreadUtils.dangling))
      → ⊥
  unfolding Handshake.may_start
  never_stops t w e v (inl f) = ground (arith, e, f, v.knows)
  never_stops t w e v (inr f) = ground (arith, e, f, v.knows)

  consumer_step-main :
      (s : Program) (w : Worker) → (consumer_step set_affinity count s w).main ≡ s.main
  unfolding consumer_step
  consumer_step-main s in_task = ground arith
  consumer_step-main s w = ground arith

  -- Before its task the new thread gets on.
  early-gain :
      (s : Program) (w : Worker)
      → s.thread.worker ≡ w
      → is_early w ≡ true
      → Inv set_affinity count size s
      → gain s < gain (record s { thread = ThreadUtils.step set_affinity s.thread false })
  unfolding gain ThreadUtils.step
  early-gain s w e early v =
      let small = left-le set_affinity none s.thread in
      let (le, why) = work-left set_affinity none s.thread s.thread.worker refl v.thread in
      elim why [
        | inl late ↦ absurd (ground (arith, e, early, late))
        | inr on ↦
            let no_rank : worker_rank s.thread.worker ≡ 0 = ground (arith, e, early) in omega arith
      ]

  -- A step of the new thread gets on, or it rests.
  consumer_step-gain :
      (s : Program) (w : Worker)
      → s.thread.worker ≡ w
      → Inv set_affinity count size s
      → let t = consumer_step set_affinity count s w in
        (gain s < gain t) ⊎ ((gain s ≤ gain t) × Rests count s)
  unfolding consumer_step gain ThreadUtils.step Spsc.step
  consumer_step-gain s in_task e v =
      let (le, _) = work-left set_affinity none s.thread s.thread.worker refl v.thread in
      elim (Bool-cases (is_done count s.queue.consumer s.queue.released)) [
        | inl over ↦ rw over (inl (omega (arith, task-rank s.thread (inl e), ap worker_rank e)))
        | inr more ↦ rw more (elim (consume-made size s.queue s.queue.consumer refl v.queue) [
          | inl on ↦ inl (omega (arith, on))
          | inr (waits, empty) ↦ inr (
            omega (arith, consume-le size s.queue s.queue.consumer refl v.queue),
            inr (e, refl, waits, empty),
          )
        ])
      ]
  consumer_step-gain s finished e v =
      let (le, _) = work-left set_affinity none s.thread s.thread.worker refl v.thread in
      inr (omega (arith, task-rank s.thread (inr e), ap worker_rank e), inl e)
  consumer_step-gain s ThreadUtils.starting e v = inl (early-gain s ThreadUtils.starting e refl v)
  consumer_step-gain s ThreadUtils.failing e v = inl (early-gain s ThreadUtils.failing e refl v)
  consumer_step-gain s ThreadUtils.ready e v = inl (early-gain s ThreadUtils.ready e refl v)
  consumer_step-gain s ThreadUtils.gave_up e v =
      absurd (never_stops s.thread ThreadUtils.gave_up e v.thread (inl refl))
  consumer_step-gain s ThreadUtils.dangling e v =
      absurd (never_stops s.thread ThreadUtils.dangling e v.thread (inr refl))

  round :
      (s : Program)
      → Inv set_affinity count size s
      → (s.main ≡ m_ended)
        ⊎ (gain s < gain (step set_affinity count (step set_affinity count s true) false))
  unfolding step
  round s v =
      let t = main_step set_affinity count s s.main in
      let u : Inv set_affinity count size t =
        unfold step in step-Inv set_affinity count size s true v in
      elim (main_step-gain set_affinity count size s s.main refl v) [
        | inl out ↦ inl out
        | inr (inl on) ↦ elim (consumer_step-gain t t.thread.worker refl u) [
          | inl more ↦ inr (omega arith)
          | inr (le, _) ↦ inr (omega arith)
        ]
        | inr (inr (le, waits)) ↦ elim (consumer_step-gain t t.thread.worker refl u) [
          | inl more ↦ inr (omega arith)
          | inr (_, rests) ↦ absurd (no_deadlock set_affinity count size t u waits rests)
        ]
      ]

  ended-step :
      (s : Program) (t : Bool) → s.main ≡ m_ended → (step set_affinity count s t).main ≡ m_ended
  unfolding step main_step consumer_step
  ended-step s true e = subst (λ m. (main_step set_affinity count s m).main ≡ m_ended) (sym e) e
  ended-step s false e = consumer_step-main s s.thread.worker ∙ e

  ended-run :
      (s : Program) (ts : List Bool)
      → s.main ≡ m_ended
      → (run set_affinity count s ts).main ≡ m_ended
  unfolding run
  ended-run s [] e = e
  ended-run s (t ∷ ts) e = ended-run (step set_affinity count s t) ts (ended-step s t e)

  gets_to_end :
      (s : Program) (k : ℕ)
      → Inv set_affinity count size s
      → 14 * count + 10 < gain s + k
      → (run set_affinity count s (rounds k)).main ≡ m_ended
  unfolding run
  gets_to_end s zero v h = absurd (omega (arith, gain-le set_affinity count size s v))
  gets_to_end s (suc k) v h = elim (round s v) [
    | inl out ↦ ended-run s (rounds (suc k)) out
    | inr on ↦
        gets_to_end (step set_affinity count (step set_affinity count s true) false) k
          (step-Inv set_affinity count size (step set_affinity count s true) false
            (step-Inv set_affinity count size s true v))
          (omega arith)
  ]

-- Whatever main and the consumer thread have done so far, after 14 * count + 11 rounds in which each
-- makes a step main has returned, each order was read once, in order, and main has printed the same
-- orders.
pub ends :
    (set_affinity : ℕ → Bool) (count size : ℕ) (ts : List Bool) (k : ℕ)
    → 0 < size
    → size < 2 ^ 64
    → 14 * count + 11 ≤ k
    → let s = run set_affinity count (run set_affinity count (start size count) ts) (rounds k) in
      (s.main ≡ m_ended)
      × (s.queue.consumed ≡ orders_from 0 count)
      × (s.printed ≡ orders_from 0 count)
ends set_affinity count size ts k pos small enough =
    let s = run set_affinity count (start size count) ts in
    let v = reached-Inv set_affinity count size ts pos small in
    let out = gets_to_end set_affinity count size s k v (omega arith) in
    let (consumed, printed, _, _) =
      Inv-ended set_affinity count size (run set_affinity count s (rounds k))
        (run-Inv set_affinity count size s (rounds k) v) out in
    (out, consumed, printed)
