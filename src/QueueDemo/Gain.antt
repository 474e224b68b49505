-- ===== src/QueueDemo/Gain.antt =====
-- How far the queue demonstration, src/lf_queue_demo.cpp, has come, and how main gets on.
use lowlatency_cpp.Base.{
  ℕ, ◌+◌, ◌*◌, ◌-◌, ◌<◌, ◌≤◌, ◌≡◌, ◌⊎◌, inl, inr, refl, ap, Bool, true, false, none, List, [], ◌∷◌,
  length, length-append, arith, Bool-cases, subst,
}
use lowlatency_cpp.LfQueue.Spsc.{Producer, p_idle, c_idle, System}
use lowlatency_cpp.LfQueue.Spsc.Progress.{made, made-le, produce-made, produce-blocked}
use lowlatency_cpp.ThreadUtils.{Worker, in_task, finished, returned, has_ended}
use lowlatency_cpp.ThreadUtils as ThreadUtils
use lowlatency_cpp.ThreadUtils.Starts.{left, left-le, out_of_left, wait-worker, wait-left, is_early}
use lowlatency_cpp.QueueDemo.{
  Order, Main, m_starting, m_writing, m_printing, m_joining, m_ended, Program, write_orders,
  is_done, main_step,
}
use lowlatency_cpp.QueueDemo.Invariant.{Inv, Shown, is_unprinted, known}
use lowlatency_cpp.QueueDemo.Ends.{accounted, has_read_at}

abbrev main_rank : Main → ℕ
main_rank m_starting = 0
main_rank m_writing = 1
main_rank m_printing = 1
main_rank m_joining = 2
main_rank m_ended = 3
main_rank m = 0

abbrev pub worker_rank : Worker → ℕ
worker_rank finished = 1
worker_rank w = 0

-- The steps made so far.
unfoldable pub gain : Program → ℕ
gain s =
    (6 - left s.thread)
    + made s.queue
    + length s.printed
    + main_rank s.main
    + worker_rank s.thread.worker

-- What main waits for.
abbrev pub Waits : Program → ℕ → Type 0
Waits s size =
    (is_early s.thread.worker ≡ true)
    ⊎ ((s.queue.queue.num_elements ≡ size) × (0 < length s.queue.inputs))
    ⊎ ((s.main ≡ m_joining) × (has_ended s.thread.worker ≡ false))

-- Why the new thread does not get on.
abbrev pub Rests : ℕ → Program → Type 0
Rests count s =
    (s.thread.worker ≡ finished)
    ⊎ ((s.thread.worker ≡ in_task)
        × (is_done count s.queue.consumer s.queue.released ≡ false)
        × (s.queue.consumer ≡ c_idle)
        × (s.queue.queue.num_elements ≡ 0))

Shown-length :
    (b : Bool) (order : ℕ) (q : System Order) (printed : List Order)
    → Shown b order q printed
    → length printed ≤ length q.produced
Shown-length false order q printed h = omega (arith, ap length h)
Shown-length true order q printed (x, at, written) =
    omega (arith, ap length written, length-append printed (x ∷ []))

main_rank-le : (m : Main) → main_rank m ≤ 3
main_rank-le m = ground arith

worker_rank-le : (w : Worker) → worker_rank w ≤ 1
worker_rank-le w = ground arith

module _ (set_affinity : ℕ → Bool) (count size : ℕ) where
  pub gain-le : (s : Program) → Inv set_affinity count size s → gain s ≤ 14 * count + 10
  unfolding gain
  gain-le s v = omega (
    arith,
    accounted set_affinity count size s v,
    made-le size s.queue v.queue,
    Shown-length (is_unprinted s.main s.queue.producer) s.order s.queue s.printed v.shown,
    main_rank-le s.main,
    worker_rank-le s.thread.worker,
  )

  -- Main and the new thread do not wait for each other.
  pub no_deadlock : (s : Program) → Inv set_affinity count size s → Waits s size → ¬ Rests count s
  no_deadlock s v (inl early) (inl e) = ground (arith, early, e)
  no_deadlock s v (inl early) (inr (e, busy, waits, empty)) = ground (arith, early, e)
  no_deadlock s v (inr (inl (full, more))) (inl e) =
      let (waits, all) = has_read_at set_affinity count size s v e in
      omega (
        arith,
        accounted set_affinity count size s v,
        v.queue.wrote,
        v.queue.counted,
        v.queue.nonempty,
        all,
      )
  no_deadlock s v (inr (inl (full, more))) (inr (e, busy, waits, empty)) =
      omega (arith, v.queue.nonempty)
  no_deadlock s v (inr (inr (joins, e))) (inl f) = ground (arith, e, f)
  no_deadlock s v (inr (inr (joins, e))) (inr (f, busy, waits, empty)) =
      let (_, idle, none_left) = known set_affinity count size s m_joining joins v in
      let all : s.queue.released ≡ count = ground (
        arith,
        accounted set_affinity count size s v,
        v.queue.wrote,
        v.queue.counted,
        idle,
        none_left,
        empty,
      ) in
      ground (arith, busy, waits, all)

  -- A step of main gets on, or main has returned, or it waits.
  abbrev pub MainGain : Program → Program → Type 0
  MainGain s t = (s.main ≡ m_ended) ⊎ (gain s < gain t) ⊎ ((gain s ≤ gain t) × Waits t size)

  starting-gain :
      (s : Program)
      → s.main ≡ m_starting
      → Inv set_affinity count size s
      → MainGain s (main_step set_affinity count s m_starting)
  unfolding main_step ThreadUtils.step gain
  starting-gain s e v =
      let t = ThreadUtils.wait set_affinity s.thread s.thread.creator in
      let same_worker = wait-worker set_affinity none s.thread s.thread.creator in
      let (inside, _) = known set_affinity count size s m_starting e v in
      let small = left-le set_affinity none s.thread in
      elim (wait-left set_affinity none s.thread s.thread.creator refl v.thread) [
        | inl out ↦ absurd (elim (out_of_left set_affinity none s.thread v.thread out) [
          | inl f ↦ ground (arith, inside, f)
          | inr f ↦ ground (arith, inside, f)
        ])
        | inr (inl on) ↦ inr (inl (omega (arith, ap worker_rank same_worker, ap main_rank e)))
        | inr (inr (same, early)) ↦ inr (
            inr (
              omega (arith, ap worker_rank same_worker, ap main_rank e),
              inl (rw same_worker early),
            ))
      ]

  write_orders-gain :
      (s : Program) (p : Producer) (vs : List Order)
      → s.main ≡ m_writing
      → s.queue.producer ≡ p
      → s.queue.inputs ≡ vs
      → Inv set_affinity count size s
      → MainGain s (write_orders s p vs)
  unfolding gain
  write_orders-gain s p_idle [] e f g v = inr (inl (omega (arith, ap main_rank e)))
  write_orders-gain s p_idle (x ∷ vs) e f g v =
      elim (produce-made size s.queue p_idle (x ∷ vs) f g v.queue) [
        | inl on ↦ inr (inl (omega (arith, on)))
        | inr (idle, why) ↦
            rw (produce-blocked size s.queue (x ∷ vs) v.queue why)
              (inr (inr (omega arith, inr (inl (ground (arith, why), omega (arith, ap length g))))))
      ]
  write_orders-gain s p vs e f g v = elim (produce-made size s.queue p vs f g v.queue) [
    | inl on ↦ inr (inl (omega (arith, on, ap main_rank e)))
    | inr (idle, why) ↦ absurd (ground (arith, idle))
  ]

  printing-gain :
      (s : Program)
      → s.main ≡ m_printing
      → Inv set_affinity count size s
      → MainGain s (main_step set_affinity count s m_printing)
  unfolding main_step gain
  printing-gain s e v =
      let (x, at, written) =
        subst (λ m. Shown (is_unprinted m s.queue.producer) s.order s.queue s.printed) e v.shown in
      rw at (inr (inl (omega (arith, ap main_rank e, length-append s.printed (x ∷ [])))))

  joining-gain :
      (s : Program)
      → s.main ≡ m_joining
      → Inv set_affinity count size s
      → MainGain s (main_step set_affinity count s m_joining)
  unfolding main_step gain
  joining-gain s e v = elim (Bool-cases (has_ended s.thread.worker)) [
    | inl over ↦ rw over (inr (inl (omega (arith, ap main_rank e))))
    | inr busy ↦ rw busy (inr (inr (omega arith, inr (inr (e, busy)))))
  ]

  pub main_step-gain :
      (s : Program) (m : Main)
      → s.main ≡ m
      → Inv set_affinity count size s
      → MainGain s (main_step set_affinity count s m)
  unfolding main_step
  main_step-gain s m_starting e v = starting-gain s e v
  main_step-gain s m_writing e v = write_orders-gain s s.queue.producer s.queue.inputs e refl refl v
  main_step-gain s m_printing e v = printing-gain s e v
  main_step-gain s m_joining e v = joining-gain s e v
  main_step-gain s m_ended e v = inl e
  main_step-gain s m e v = absurd (known set_affinity count size s m e v)
