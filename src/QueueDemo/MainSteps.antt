-- ===== src/QueueDemo/MainSteps.antt =====
-- Every step of main keeps the invariant of the queue demonstration, src/lf_queue_demo.cpp.
use lowlatency_cpp.Base.{
  ℕ, ◌<◌, ◌≡◌, inl, inr, refl, sym, ◌∙◌, ap, Bool, true, none, List, [], ◌∷◌, ◌++◌, length,
  get_elem?-set_self, arith, Bool-cases, subst,
}
use lowlatency_cpp.LfQueue.Spsc.{Producer, p_idle, p_slot, produce}
use lowlatency_cpp.LfQueue.Spsc.Invariant as Queue
use lowlatency_cpp.ThreadUtils.{finished, Start, has_ended}
use lowlatency_cpp.ThreadUtils.Handshake as Handshake
use lowlatency_cpp.QueueDemo.{
  Order, Main, m_starting, m_writing, m_printing, m_joining, Program, write_orders, main_step,
}
use lowlatency_cpp.QueueDemo.Invariant.{is_unprinted, Shown, Knows, Inv, known, starting-Inv}
use lowlatency_cpp.LfQueue.Spsc.Steps.{produce-Inv}
use lowlatency_cpp.LfQueue.Spsc.Safety.{produce-inputs}
use native.Mathlib.Nat.{mod-lt}
use lowlatency_cpp.LfQueue.Spsc.Client.{produce-keeps}

-- Main after a step of its loop.
module _ (s : Program) (e : s.main ≡ m_writing) where
  after_write-Shown :
      (size : ℕ) (p : Producer) (vs : List Order)
      → s.queue.producer ≡ p
      → s.queue.inputs ≡ vs
      → Queue.Inv size s.queue
      → Shown (is_unprinted s.main s.queue.producer) s.order s.queue s.printed
      → let t = write_orders s p vs in
        Shown (is_unprinted t.main t.queue.producer) t.order t.queue t.printed
  unfolding produce
  after_write-Shown size p_idle [] f g q h = ground (arith, e, f, h)
  after_write-Shown size p_idle (x ∷ vs) f g q h = ground (arith, e, f, h)
  after_write-Shown size (p_slot w) [] f g q h = absurd (ground (arith, f, g, q.supplied))
  after_write-Shown size (p_slot w) (x ∷ vs) f g q h =
      let shown : s.printed ≡ s.queue.produced = ground (arith, e, f, h) in
      let inside : w < length s.queue.queue.store =
        ground (arith, f, q.holds, q.sized, mod-lt s.queue.published q.nonempty) in
      rw e (
        x,
        get_elem?-set_self s.queue.queue.store w x inside,
        ap (λ (l : List Order). l ++ x ∷ []) (sym shown),
      )
  after_write-Shown size p vs f g q h = ground (arith, e, f, h)

  after_write-Knows :
      (p : Producer) (vs : List Order)
      → s.queue.producer ≡ p
      → s.queue.inputs ≡ vs
      → Knows s.main s.thread.creator s.queue.producer s.queue.inputs s.thread.worker
      → let t = write_orders s p vs in
        Knows t.main t.thread.creator t.queue.producer t.queue.inputs t.thread.worker
  unfolding produce
  after_write-Knows p_idle [] f g h = ground (arith, e, f, g, h)
  after_write-Knows p vs f g h = ground (arith, e, f, g, h)

module _ (set_affinity : ℕ → Bool) (count size : ℕ) where
  write_orders-Inv :
      (s : Program) (p : Producer) (vs : List Order)
      → s.main ≡ m_writing
      → s.queue.producer ≡ p
      → s.queue.inputs ≡ vs
      → Inv set_affinity count size s
      → Inv set_affinity count size (write_orders s p vs)
  write_orders-Inv s p_idle [] e f g v = record {
    thread = v.thread;
    queue = v.queue;
    orders = v.orders;
    shown = after_write-Shown s e size p_idle [] f g v.queue v.shown;
    knows = after_write-Knows s e p_idle [] f g v.knows;
    has_read = v.has_read;
  }
  write_orders-Inv s p vs e f g v =
      let (same_consumer, same_released) = produce-keeps s.queue p vs in
      record {
        thread = v.thread;
        queue = produce-Inv size s.queue p vs f g v.queue;
        orders = produce-inputs s.queue p vs g ∙ v.orders;
        shown = after_write-Shown s e size p vs f g v.queue v.shown;
        knows = after_write-Knows s e p vs f g v.knows;
        has_read = rw (same_consumer, same_released) v.has_read;
      }

  printing-Inv :
      (s : Program)
      → s.main ≡ m_printing
      → Inv set_affinity count size s
      → Inv set_affinity count size (main_step set_affinity count s m_printing)
  unfolding main_step
  printing-Inv s e v =
      let (x, at, produced) : Shown true s.order s.queue s.printed =
        subst (λ m. Shown (is_unprinted m s.queue.producer) s.order s.queue s.printed) e v.shown in
      let (out, idle) : Knows m_printing s.thread.creator s.queue.producer s.queue.inputs
          s.thread.worker =
        known set_affinity count size s m_printing e v in
      rw at (record {
        thread = v.thread;
        queue = v.queue;
        orders = v.orders;
        shown = rw idle (sym produced);
        knows = out;
        has_read = v.has_read;
      })

  -- A thread that is not pinned ends after its task only.
  finishes :
      (t : Start)
      → Handshake.Inv set_affinity none t
      → has_ended t.worker ≡ true
      → t.worker ≡ finished
  unfolding Handshake.may_start
  finishes t v over = ground (arith, over, v.knows)

  joining-Inv :
      (s : Program)
      → s.main ≡ m_joining
      → Inv set_affinity count size s
      → Inv set_affinity count size (main_step set_affinity count s m_joining)
  unfolding main_step
  joining-Inv s e v = elim (Bool-cases (has_ended s.thread.worker)) [
    | inr busy ↦ rw busy v
    | inl over ↦
        let k : Knows m_joining s.thread.creator s.queue.producer s.queue.inputs s.thread.worker =
          known set_affinity count size s m_joining e v in
        rw over (record {
          thread = v.thread;
          queue = v.queue;
          orders = v.orders;
          shown = ground (arith, e, v.shown, v.knows);
          knows =
              let (out, idle, none_left) = k in
              (out, idle, none_left, finishes s.thread v.thread over);
          has_read = v.has_read;
        })
  ]

  pub main_step-Inv :
      (s : Program) (m : Main)
      → s.main ≡ m
      → Inv set_affinity count size s
      → Inv set_affinity count size (main_step set_affinity count s m)
  unfolding main_step
  main_step-Inv s m_starting e v = starting-Inv set_affinity count size s e v
  main_step-Inv s m_writing e v = write_orders-Inv s s.queue.producer s.queue.inputs e refl refl v
  main_step-Inv s m_printing e v = printing-Inv s e v
  main_step-Inv s m_joining e v = joining-Inv s e v
  main_step-Inv s m e v = v
