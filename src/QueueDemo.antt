-- ===== src/QueueDemo.antt =====
-- src/lf_queue_demo.cpp: main starts a consumer thread by `createAndStartThread`, writes orders to an
-- `LFQueue`, and joins. The two threads are interleaved at each access to what they share. The
-- number of orders and the size of the queue, 5 and 10 there, are parameters.
pub mod Invariant
pub mod MainSteps
pub mod Steps
pub mod Ends
pub mod Gain
pub mod Progress
mod Tests
use lowlatency_cpp.Base.{
  ℕ, zero, suc, ◌+◌, Bool, true, false, Option, none, some, List, [], ◌∷◌, ◌++◌, get_elem?, ◌==◌,
  if◌then◌else◌,
}
use lowlatency_cpp.LfQueue.{blank_queue}
use lowlatency_cpp.LfQueue.Spsc.{
  Producer, p_idle, p_slot, p_stored, Consumer, c_idle, System, produce,
}
use lowlatency_cpp.LfQueue.Spsc as Spsc
use lowlatency_cpp.ThreadUtils.{Worker, in_task, Creator, returned, thrown, Start, has_ended}
use lowlatency_cpp.ThreadUtils as ThreadUtils

-- The prices, 100.0 and up, are whole numbers, which a `double` holds exactly.
pub record Order : Type 0 where
  pub id : ℕ
  pub price : ℕ

abbrev pub blank_order : Order
blank_order = record { id = 0; price = 0 }

-- The orders that the loop of main writes, from its `i` on.
unfoldable pub orders_from : ℕ → ℕ → List Order
orders_from i zero = []
orders_from i (suc count) = record { id = i; price = 100 + i } ∷ orders_from (i + 1) count

-- Where main stands: in `createAndStartThread`; in the loop, up to the end of `updateWriteIndex`;
-- before it prints the order; in `join`; returned. `m_threw` is an exception that nobody catches,
-- and `m_failed` a read outside the queue's store.
pub data Main : Type 0 where
  m_starting m_writing m_printing m_joining m_ended m_threw m_failed : Main

-- `order` is main's pointer to the slot; `printed` are the orders in main's output. The consumer
-- prints an order when it reads it.
pub record Program : Type 0 where
  pub thread : Start
  pub queue : System Order
  pub main : Main
  pub order : ℕ
  pub printed : List Order

unfoldable pub start : ℕ → ℕ → Program
unfolding orders_from Spsc.start ThreadUtils.start
start size count = record {
  thread = ThreadUtils.start none;
  queue = Spsc.start (blank_queue size blank_order) (orders_from 0 count);
  main = m_starting;
  order = 0;
  printed = [];
}

abbrev pub after_start : Creator → Main
after_start returned = m_writing
after_start thrown = m_threw
after_start c = m_starting

abbrev pub print_order : Program → Option Order → Program
print_order s none = record s { main = m_failed }
print_order s (some v) = record s { main = m_writing; printed = s.printed ++ v ∷ [] }

-- A step of the loop. Its end is where the producer is between two calls with nothing to write.
abbrev pub write_orders : Program → Producer → List Order → Program
write_orders s p_idle [] = record s { main = m_joining }
write_orders s (p_slot w) vs = record s { queue = produce s.queue (p_slot w) vs; order = w }
write_orders s p_stored vs = record s { queue = produce s.queue p_stored vs; main = m_printing }
write_orders s p vs = record s { queue = produce s.queue p vs }

-- Whether the loop of `consumeOrders` is at its end; `released` is its `i`.
abbrev pub is_done : ℕ → Consumer → ℕ → Bool
is_done count c_idle released = released == count
is_done count c released = false

module _ (set_affinity : ℕ → Bool) (count : ℕ) where
  pub main_step : Program → Main → Program
  unfolding ThreadUtils.step Spsc.step produce
  main_step s m_starting =
      let t = ThreadUtils.step set_affinity s.thread true in
      record s { thread = t; main = after_start t.creator }
  main_step s m_writing = write_orders s s.queue.producer s.queue.inputs
  main_step s m_printing = print_order s (get_elem? s.queue.queue.store s.order)
  main_step s m_joining = if has_ended s.thread.worker then record s { main = m_ended } else s
  main_step s m = s

  -- The new thread: `consumeOrders` is its task.
  pub consumer_step : Program → Worker → Program
  consumer_step s in_task =
      if is_done count s.queue.consumer s.queue.released
      then record s { thread = ThreadUtils.step set_affinity s.thread false }
      else record s { queue = Spsc.step s.queue false }
  consumer_step s w = record s { thread = ThreadUtils.step set_affinity s.thread false }

  -- The scheduler picks the thread that moves: `true` for main.
  pub step : Program → Bool → Program
  unfolding main_step consumer_step
  step s true = main_step s s.main
  step s false = consumer_step s s.thread.worker

  pub run : Program → List Bool → Program
  unfolding step
  run s [] = s
  run s (t ∷ ts) = run (step s t) ts
