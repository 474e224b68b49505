-- ===== src/LfQueue.antt =====
-- include/lf_queue.hpp: `LFQueue<T>`, a ring of slots for one producer and one consumer.
-- A pointer to a slot is the slot's index; `nullptr` is `none`.
pub mod Fifo
pub mod Spsc
use lowlatency_cpp.Base.{
  ℕ, ◌+◌, ◌-◌, ◌%◌, ◌^◌, Option, none, some, List, length, set, get_elem?, replicate, ◌==◌,
  if◌then◌else◌, add_size, Outcome, done, fault,
}

pub record LfQueue {ℓ} (T : Type ℓ) : Type ℓ where
  pub store : List T
  pub next_write_index : ℕ
  pub next_read_index : ℕ
  pub num_elements : ℕ

module _ {ℓ} {T : Type ℓ} where
  abbrev pub blank_queue : ℕ → T → LfQueue T
  blank_queue num_elems blank = record {
    store = replicate num_elems blank;
    next_write_index = 0;
    next_read_index = 0;
    num_elements = 0;
  }

  -- The constructor; `assert(num_elems > 0)`. `blank` is the default value of T.
  unfoldable pub create : ℕ → T → Outcome (LfQueue T)
  create num_elems blank = if num_elems == 0 then fault else done (blank_queue num_elems blank)

  pub get_next_to_write_to : LfQueue T → Option ℕ
  get_next_to_write_to q =
      if q.num_elements == length q.store then none else some q.next_write_index

  -- What the producer does with the pointer: `*slot = value`.
  pub write_slot : LfQueue T → ℕ → T → LfQueue T
  write_slot q slot value = record q { store = set q.store slot value }

  pub update_write_index : LfQueue T → LfQueue T
  update_write_index q = record q {
    next_write_index = add_size q.next_write_index 1 % length q.store;
    num_elements = add_size q.num_elements 1;
  }

  pub get_next_to_read : LfQueue T → Option ℕ
  get_next_to_read q = if q.num_elements == 0 then none else some q.next_read_index

  -- What the consumer does with the pointer: `*next`.
  pub read_slot : LfQueue T → ℕ → Option T
  read_slot q slot = get_elem? q.store slot

  -- `assert(num_elements_ != 0)`, and `--num_elements_`, which wraps.
  pub update_read_index : LfQueue T → Outcome (LfQueue T)
  update_read_index q =
      if q.num_elements == 0
      then fault
      else done (record q {
        next_read_index = add_size q.next_read_index 1 % length q.store;
        num_elements = (q.num_elements + 2 ^ 64 - 1) % 2 ^ 64;
      })

  unfoldable pub size : LfQueue T → ℕ
  size q = q.num_elements
