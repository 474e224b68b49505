-- ===== src/QueueDemo/Ends.antt =====
-- What the queue demonstration, src/lf_queue_demo.cpp, has done when main returns.
use lowlatency_cpp.Base.{
  ℕ, zero, suc, ◌+◌, ◌^◌, ◌<◌, ◌≡◌, ◌≢◌, refl, sym, ◌∙◌, ap, Bool, List, ◌++◌, length,
  length-append, append-nil, arith, subst,
}
use lowlatency_cpp.LfQueue.Spsc.{c_idle, c_failed}
use lowlatency_cpp.LfQueue.Spsc.Client.{all_read_on_empty}
use lowlatency_cpp.ThreadUtils.{finished}
use lowlatency_cpp.ThreadUtils as ThreadUtils
use lowlatency_cpp.QueueDemo.{orders_from, m_ended, m_threw, m_failed, Program, start, run}
use lowlatency_cpp.QueueDemo.Invariant.{Inv, HasRead, known}
use lowlatency_cpp.QueueDemo.Steps.{reached-Inv}

length-orders_from : (i count : ℕ) → length (orders_from i count) ≡ count
unfolding orders_from
length-orders_from i zero = refl
length-orders_from i (suc count) = ap suc (length-orders_from (i + 1) count)

module _ (set_affinity : ℕ → Bool) (count size : ℕ) where
  -- Every order is written, or still to be written.
  pub accounted :
      (s : Program)
      → Inv set_affinity count size s
      → length s.queue.produced + length s.queue.inputs ≡ count
  accounted s v =
      sym (length-append s.queue.produced s.queue.inputs)
      ∙ ap length v.orders
      ∙ length-orders_from 0 count

  pub has_read_at :
      (s : Program)
      → Inv set_affinity count size s
      → s.thread.worker ≡ finished
      → (s.queue.consumer ≡ c_idle) × (s.queue.released ≡ count)
  has_read_at s v e = subst (λ w. HasRead count w s.queue.consumer s.queue.released) e v.has_read

  pub Inv-ended :
      (s : Program)
      → Inv set_affinity count size s
      → s.main ≡ m_ended
      → (s.queue.consumed ≡ orders_from 0 count)
        × (s.printed ≡ orders_from 0 count)
        × (s.queue.queue.num_elements ≡ 0)
        × (s.thread.worker ≡ finished)
  Inv-ended s v e =
      let (_, idle, none_left, over) = known set_affinity count size s m_ended e v in
      let (waits, all) = has_read_at s v over in
      let q = v.queue in
      let empty : s.queue.queue.num_elements ≡ 0 =
        ground (arith, accounted s v, q.wrote, q.counted, idle, none_left, all) in
      let shown : s.printed ≡ s.queue.produced = ground (arith, e, idle, v.shown) in
      (
        all_read_on_empty size s.queue q idle none_left empty ∙ v.orders,
        shown
            ∙ sym (append-nil s.queue.produced)
            ∙ ap (◌++◌ s.queue.produced) (sym none_left)
            ∙ v.orders,
        empty,
        over,
      )

-- However main and the consumer thread interleave, when main returns, each order that it wrote was
-- read once, in order, by the consumer, main has printed the same orders, the queue is empty, and the
-- consumer thread has ended.
pub ended_lem :
    (set_affinity : ℕ → Bool) (count size : ℕ) (ts : List Bool)
    → 0 < size
    → size < 2 ^ 64
    → (run set_affinity count (start size count) ts).main ≡ m_ended
    → let s = run set_affinity count (start size count) ts in
      (s.queue.consumed ≡ orders_from 0 count)
      × (s.printed ≡ orders_from 0 count)
      × (s.queue.queue.num_elements ≡ 0)
      × (s.thread.worker ≡ finished)
ended_lem set_affinity count size ts pos small e =
    Inv-ended set_affinity count size (run set_affinity count (start size count) ts)
      (reached-Inv set_affinity count size ts pos small) e

-- At no time does main leave by an exception or print an order from outside the queue, does an
-- assertion of the queue fail, or does the new thread store to a flag of `createAndStartThread` that
-- is gone.
never_fails :
    (set_affinity : ℕ → Bool) (count size : ℕ) (ts : List Bool)
    → 0 < size
    → size < 2 ^ 64
    → let s = run set_affinity count (start size count) ts in
      (s.main ≢ m_threw)
      × (s.main ≢ m_failed)
      × (s.queue.consumer ≢ c_failed)
      × (s.thread.worker ≢ ThreadUtils.dangling)
never_fails set_affinity count size ts pos small =
    let s = run set_affinity count (start size count) ts in
    let v = reached-Inv set_affinity count size ts pos small in
    (
      λ e. known set_affinity count size s m_threw e v,
      λ e. known set_affinity count size s m_failed e v,
      λ e. ground (arith, e, v.queue.reads),
      λ e. ground (arith, e, v.thread.knows),
    )
