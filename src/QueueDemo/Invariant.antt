-- ===== src/QueueDemo/Invariant.antt =====
-- What holds between any two steps of the queue demonstration, src/lf_queue_demo.cpp.
use lowlatency_cpp.Base.{
  ℕ, ◌^◌, ◌<◌, ◌≡◌, ◌≢◌, refl, sym, Bool, true, false, none, some, List, [], ◌∷◌, ◌++◌, get_elem?,
  arith, subst,
}
use lowlatency_cpp.LfQueue.Spsc.{
  Producer, p_idle, p_wrote, p_loaded, p_stored, Consumer, c_idle, System,
}
use lowlatency_cpp.LfQueue.Spsc as Spsc
use lowlatency_cpp.LfQueue.Spsc.Invariant as Queue
use lowlatency_cpp.LfQueue.Spsc.Safety.{blank_queue-Inv}
use lowlatency_cpp.ThreadUtils.{Worker, finished, Creator, returned, thrown, Start}
use lowlatency_cpp.ThreadUtils as ThreadUtils
use lowlatency_cpp.ThreadUtils.Starts.{wait-worker}
use lowlatency_cpp.ThreadUtils.Handshake as Handshake
use lowlatency_cpp.QueueDemo.{
  Order, blank_order, orders_from, Main, m_starting, m_writing, m_printing, m_joining, m_ended,
  m_threw, m_failed, Program, start, after_start, main_step,
}

-- Whether main has written an order that it has not printed.
abbrev pub is_unprinted : Main → Producer → Bool
is_unprinted m_printing p = true
is_unprinted m p_wrote = true
is_unprinted m (p_loaded i) = true
is_unprinted m p_stored = true
is_unprinted m p = false

-- Main has printed what it has written, but for the order in its slot, if there is one.
abbrev pub Shown : Bool → ℕ → System Order → List Order → Type 0
Shown false order q printed = printed ≡ q.produced
Shown true order q printed =
    (v : Order) × (get_elem? q.queue.store order ≡ some v) × (q.produced ≡ printed ++ v ∷ [])

abbrev pub is_out : Creator → Bool
is_out returned = true
is_out thrown = true
is_out c = false

-- What main knows of the thread and of its own loop.
abbrev pub Knows : Main → Creator → Producer → List Order → Worker → Type 0
Knows m_starting c p vs w = (is_out c ≡ false) × (p ≡ p_idle)
Knows m_writing c p vs w = c ≡ returned
Knows m_printing c p vs w = (c ≡ returned) × (p ≡ p_idle)
Knows m_joining c p vs w = (c ≡ returned) × (p ≡ p_idle) × (vs ≡ [])
Knows m_ended c p vs w = (c ≡ returned) × (p ≡ p_idle) × (vs ≡ []) × (w ≡ finished)
Knows m_threw c p vs w = ⊥
Knows m_failed c p vs w = ⊥

-- A consumer that has ended has read every order.
abbrev pub HasRead : ℕ → Worker → Consumer → ℕ → Type 0
HasRead count finished c released = (c ≡ c_idle) × (released ≡ count)
HasRead count w c released = Unit {0}

pub record Inv (set_affinity : ℕ → Bool) (count size : ℕ) (s : Program) : Type 0 where
  pub thread : Handshake.Inv set_affinity none s.thread
  pub queue : Queue.Inv size s.queue
  pub orders : s.queue.produced ++ s.queue.inputs ≡ orders_from 0 count
  pub shown : Shown (is_unprinted s.main s.queue.producer) s.order s.queue s.printed
  pub knows : Knows s.main s.thread.creator s.queue.producer s.queue.inputs s.thread.worker
  pub has_read : HasRead count s.thread.worker s.queue.consumer s.queue.released

module _ (set_affinity : ℕ → Bool) (count size : ℕ) where
  -- What main knows at the point where it stands.
  pub known :
      (s : Program) (m : Main)
      → s.main ≡ m
      → Inv set_affinity count size s
      → Knows m s.thread.creator s.queue.producer s.queue.inputs s.thread.worker
  known s m e v =
      subst (λ m'. Knows m' s.thread.creator s.queue.producer s.queue.inputs s.thread.worker) e
        v.knows

  pub start-Inv : 0 < size → size < 2 ^ 64 → Inv set_affinity count size (start size count)
  unfolding start ThreadUtils.start Spsc.start
  start-Inv pos small = record {
    thread = Handshake.start-Inv set_affinity none;
    queue = blank_queue-Inv size blank_order (orders_from 0 count) pos small;
    orders = refl;
    shown = refl;
    knows = (refl, refl);
    has_read = record {};
  }

  -- The creator does not throw: a thread that is not pinned may start.
  never_thrown : (t : Start) → Handshake.Inv set_affinity none t → t.creator ≢ thrown
  unfolding Handshake.may_start
  never_thrown t v e = ground (arith, e, v.saw, v.knows)

  after_start-Knows :
      (s : Program) (t : Start) (c : Creator)
      → t.creator ≡ c
      → Handshake.Inv set_affinity none t
      → s.queue.producer ≡ p_idle
      → Knows (after_start c) t.creator s.queue.producer s.queue.inputs t.worker
  after_start-Knows s t returned e v idle = e
  after_start-Knows s t thrown e v idle = never_thrown t v e
  after_start-Knows s t c e v idle = ground (arith, e)

  after_start-Shown :
      (s : Program) (c : Creator)
      → s.queue.producer ≡ p_idle
      → Shown (is_unprinted m_starting s.queue.producer) s.order s.queue s.printed
      → Shown (is_unprinted (after_start c) s.queue.producer) s.order s.queue s.printed
  after_start-Shown s returned idle h = h
  after_start-Shown s thrown idle h = h
  after_start-Shown s c idle h = h

  pub starting-Inv :
      (s : Program)
      → s.main ≡ m_starting
      → Inv set_affinity count size s
      → Inv set_affinity count size (main_step set_affinity count s m_starting)
  unfolding main_step ThreadUtils.step
  starting-Inv s e v =
      let t = ThreadUtils.step set_affinity s.thread true in
      let u = Handshake.step-Inv set_affinity none s.thread true v.thread in
      let idle : s.queue.producer ≡ p_idle = ground (arith, e, v.knows) in
      record {
        thread = u;
        queue = v.queue;
        orders = v.orders;
        shown = after_start-Shown s t.creator idle (rw (sym e) v.shown);
        knows = after_start-Knows s t t.creator refl u idle;
        has_read =
            subst (λ w. HasRead count w s.queue.consumer s.queue.released)
              (sym (wait-worker set_affinity none s.thread s.thread.creator)) v.has_read;
      }
