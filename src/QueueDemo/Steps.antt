-- ===== src/QueueDemo/Steps.antt =====
-- Every step keeps the invariant of the queue demonstration, src/lf_queue_demo.cpp.
use lowlatency_cpp.Base.{
  ℕ, ◌^◌, ◌<◌, ◌≡◌, inl, inr, refl, sym, ◌∙◌, Bool, true, false, none, List, [], ◌∷◌, arith,
  Bool-cases, subst,
}
use lowlatency_cpp.LfQueue.Spsc.{Producer, Consumer, c_idle, System}
use lowlatency_cpp.LfQueue.Spsc as Spsc
use lowlatency_cpp.LfQueue.Spsc.Steps as SpscSteps
use lowlatency_cpp.ThreadUtils.{Worker, in_task, finished, Creator, Start}
use lowlatency_cpp.ThreadUtils as ThreadUtils
use lowlatency_cpp.ThreadUtils.Handshake as Handshake
use lowlatency_cpp.ThreadUtils.Starts.{work-creator}
use lowlatency_cpp.QueueDemo.{
  Order, Main, m_ended, Program, start, is_done, consumer_step, step, run,
}
use lowlatency_cpp.QueueDemo.Invariant.{is_unprinted, Shown, Knows, HasRead, Inv, start-Inv}
use lowlatency_cpp.LfQueue.Spsc.Client.{step-keeps, step-keeps_written}
use lowlatency_cpp.QueueDemo.MainSteps.{main_step-Inv}

Shown-same :
    (b : Bool) (order : ℕ) (q r : System Order) (printed : List Order)
    → r.queue.store ≡ q.queue.store
    → r.produced ≡ q.produced
    → Shown b order q printed
    → Shown b order r printed
Shown-same false order q r printed e f h = h ∙ sym f
Shown-same true order q r printed e f (x, at, written) = (x, rw e at, f ∙ written)

module _ (set_affinity : ℕ → Bool) (count size : ℕ) where
  is_done-means :
      (c : Consumer) (released : ℕ)
      → is_done count c released ≡ true
      → (c ≡ c_idle) × (released ≡ count)
  is_done-means c_idle released e = ground (arith, e)
  is_done-means c released e = absurd (ground arith)

  work-HasRead :
      (t : Start) (w : Worker) (c : Consumer) (released : ℕ)
      → t.worker ≡ w
      → (w ≡ in_task → is_done count c released ≡ true)
      → HasRead count w c released
      → HasRead count (ThreadUtils.work set_affinity t w).worker c released
  unfolding ThreadUtils.work
  work-HasRead t in_task c released e over h = is_done-means c released (over refl)
  work-HasRead t finished c released e over h = rw e h
  work-HasRead t w c released e over h = ground (arith, e)

  work-Knows :
      (m : Main) (t : Start) (w : Worker) (c : Creator) (p : Producer) (vs : List Order)
      → t.worker ≡ w
      → Knows m c p vs w
      → Knows m c p vs (ThreadUtils.work set_affinity t w).worker
  unfolding ThreadUtils.work
  work-Knows m_ended t w c p vs e (out, idle, none_left, over) = (
    out,
    idle,
    none_left,
    subst (λ o. (ThreadUtils.work set_affinity t o).worker ≡ finished) (sym over) (e ∙ over),
  )
  work-Knows m t w c p vs e h = h

  -- A step of the new thread that is not one of `consumeOrders`.
  thread_step-Inv :
      (s : Program)
      → (s.thread.worker ≡ in_task → is_done count s.queue.consumer s.queue.released ≡ true)
      → Inv set_affinity count size s
      → Inv set_affinity count size
          (record s { thread = ThreadUtils.step set_affinity s.thread false })
  unfolding ThreadUtils.step
  thread_step-Inv s over v = record {
    thread = Handshake.step-Inv set_affinity none s.thread false v.thread;
    queue = v.queue;
    orders = v.orders;
    shown = v.shown;
    knows = rw (work-creator set_affinity none s.thread s.thread.worker) (
        work-Knows s.main s.thread s.thread.worker s.thread.creator s.queue.producer s.queue.inputs
          refl v.knows);
    has_read =
        work-HasRead s.thread s.thread.worker s.queue.consumer s.queue.released refl over
          v.has_read;
  }

  consumer_step-Inv :
      (s : Program) (w : Worker)
      → s.thread.worker ≡ w
      → Inv set_affinity count size s
      → Inv set_affinity count size (consumer_step set_affinity count s w)
  unfolding consumer_step
  consumer_step-Inv s in_task e v =
      elim (Bool-cases (is_done count s.queue.consumer s.queue.released)) [
        | inl over ↦ rw over (thread_step-Inv s (λ _. over) v)
        | inr more ↦
            let (same_producer, same_inputs) = step-keeps s.queue in
            let (same_store, same_produced) = step-keeps_written s.queue in
            rw more (record {
              thread = v.thread;
              queue = SpscSteps.step-Inv size s.queue false v.queue;
              orders = rw (same_produced, same_inputs) v.orders;
              shown =
                  subst
                    (λ p. Shown (is_unprinted s.main p) s.order (Spsc.step s.queue false) s.printed)
                    (sym same_producer)
                    (Shown-same (is_unprinted s.main s.queue.producer) s.order s.queue
                      (Spsc.step s.queue false) s.printed same_store same_produced v.shown);
              knows = rw (same_producer, same_inputs) v.knows;
              has_read = rw e (record {});
            })
      ]
  consumer_step-Inv s w e v = thread_step-Inv s (λ f. absurd (ground (arith, e, f))) v

  pub step-Inv :
      (s : Program) (t : Bool)
      → Inv set_affinity count size s
      → Inv set_affinity count size (step set_affinity count s t)
  unfolding step
  step-Inv s true v = main_step-Inv set_affinity count size s s.main refl v
  step-Inv s false v = consumer_step-Inv s s.thread.worker refl v

  pub run-Inv :
      (s : Program) (ts : List Bool)
      → Inv set_affinity count size s
      → Inv set_affinity count size (run set_affinity count s ts)
  unfolding run
  run-Inv s [] v = v
  run-Inv s (t ∷ ts) v = run-Inv (step set_affinity count s t) ts (step-Inv s t v)

  pub reached-Inv :
      (ts : List Bool)
      → 0 < size
      → size < 2 ^ 64
      → Inv set_affinity count size (run set_affinity count (start size count) ts)
  reached-Inv ts pos small =
      run-Inv (start size count) ts (start-Inv set_affinity count size pos small)
