-- ===== src/Logger/Threads.antt =====
-- The two threads of a `Logger` (src/logger.cpp): the owner, which logs and then runs the destructor,
-- and the background thread in `flushQueue`. They are interleaved at each access to shared memory;
-- the accesses to the queue are those of LfQueue/Spsc.antt. `pushValue(element)` waits for a slot and
-- publishes the element, which is what the producer there does with its inputs.
pub mod Steps
pub mod Closed
pub mod Progress
pub mod Closes
mod Tests
use lowlatency_cpp.Base.{
  ℕ, ◌≡◌, Bool, true, false, ◌&&◌, Option, none, some, List, [], ◌∷◌, ◌++◌, get_elem?, Text, ◌==◌,
  if◌then◌else◌, Outcome, done, ◌>>=◌,
}
use lowlatency_cpp.LfQueue
use lowlatency_cpp.LfQueue.{LfQueue}
use lowlatency_cpp.LfQueue.Spsc
use lowlatency_cpp.LfQueue.Spsc.{System, Producer, p_idle, Consumer, c_idle, c_slot}
use lowlatency_cpp.Logger.{LogElement, blank_element, Ostream, write_element}

-- The owner: in `log`; in the destructor before each test of `size()`; before `running_ = false`; in
-- `join`; after the file is closed.
pub data Owner : Type 0 where
  logging waiting stopping joining closed : Owner

-- The background thread: before the test of `running_`; in the inner loop of `flushQueue`; returned.
pub data Writer : Type 0 where
  at_running draining returned : Writer

-- The channel's inputs are the elements that the calls of `log` still have to push.
pub record Logger : Type 0 where
  pub channel : System LogElement
  pub running : Bool
  pub file : Text
  pub owner : Owner
  pub writer : Writer

abbrev pub open_logger : LfQueue LogElement → List LogElement → Logger
open_logger queue elements = record {
  channel = Spsc.start queue elements;
  running = true;
  file = [];
  owner = logging;
  writer = at_running;
}

-- The constructor, with the elements that will be pushed: `none` if the file cannot be opened.
pub create : Bool → ℕ → List LogElement → Outcome (Option Logger)
create false queue_size elements = done none
create true queue_size elements =
    LfQueue.create queue_size blank_element >>= λ queue. done (some (open_logger queue elements))

-- The owner is in a call of `log`, or has one to make.
abbrev pub is_busy : Producer → List LogElement → Bool
is_busy p_idle [] = false
is_busy p es = true

abbrev pub has_returned : Writer → Bool
has_returned returned = true
has_returned w = false

abbrev pub is_waiting : Consumer → Bool
is_waiting c_idle = true
is_waiting c = false

-- One step of the owner.
pub own : Logger → Owner → Logger
own s logging =
    if is_busy s.channel.producer s.channel.inputs
    then record s { channel = Spsc.step s.channel true }
    else record s { owner = waiting }
own s waiting = if LfQueue.size s.channel.queue == 0 then record s { owner = stopping } else s
own s stopping = record s { running = false; owner = joining }
own s joining = if has_returned s.writer then record s { owner = closed } else s
own s closed = s

module _ (file : Ostream) where
  abbrev print : Option LogElement → Text
  print none = []
  print (some e) = write_element file e

  -- What the background thread's next step writes: the element in the slot that it holds.
  abbrev pub printed : LfQueue LogElement → Consumer → Text
  printed queue (c_slot r) = print (get_elem? queue.store r)
  printed queue c = []

  -- One step of the background thread. When the queue is empty it sleeps and tests `running_`.
  pub write_step : Logger → Writer → Logger
  write_step s at_running =
      if s.running then record s { writer = draining } else record s { writer = returned }
  write_step s draining =
      if is_waiting s.channel.consumer && s.channel.queue.num_elements == 0
      then record s { writer = at_running }
      else record s {
        channel = Spsc.step s.channel false;
        file = s.file ++ printed s.channel.queue s.channel.consumer;
      }
  write_step s returned = s

  -- The scheduler picks the thread that moves: `true` for the owner.
  pub step : Logger → Bool → Logger
  unfolding own write_step
  step s true = own s s.owner
  step s false = write_step s s.writer

  pub run : Logger → List Bool → Logger
  unfolding step
  run s [] = s
  run s (t ∷ ts) = run (step s t) ts
