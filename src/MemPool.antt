-- ===== src/MemPool.antt =====
-- include/mem_pool.hpp: `MemPool<T>`, a fixed set of memory slots that are handed out and taken back.
-- A slot holds the object that is alive in its `storage_`, if any. `base` and `stride` are the
-- address of the first slot and `sizeof(ObjectBlock)`, so a pointer is a number and `nullptr` is 0.
pub mod Valid
pub mod Search
pub mod Allocate
pub mod FindSlot
pub mod Deallocate
pub mod Run
pub mod Objects
pub mod Refines
mod Tests
use lowlatency_cpp.Base.{
  add_size, ℕ, zero, suc, ◌+◌, ◌-◌, ◌*◌, ◌%◌, ◌^◌, Bool, true, false, not, Option, none, some, List,
  [], ◌∷◌, ◌++◌, length, get_elem?, set, replicate, ltb, ◌==◌, if◌then◌else◌, Outcome, done, fault,
  ◌>>=◌,
}

abbrev pub nullptr : ℕ
nullptr = 0

pub record ObjectBlock {ℓ} (T : Type ℓ) : Type ℓ where
  pub storage : Option T
  pub is_free : Bool

pub record MemPool {ℓ} (T : Type ℓ) : Type ℓ where
  pub store : List (ObjectBlock T)
  pub next_free_index : ℕ
  pub num_free : ℕ
  pub base : ℕ
  pub stride : ℕ

-- `++next_free_index_`, and back to 0 at the end of the store.
abbrev pub next_index : ℕ → ℕ → ℕ
next_index size i = if add_size i 1 == size then 0 else add_size i 1

module _ {ℓ} {T : Type ℓ} where
  abbrev pub empty_block : ObjectBlock T
  empty_block = record { storage = none; is_free = true }

  -- `&store_[i].storage_`
  abbrev pub address : MemPool T → ℕ → ℕ
  address p i = p.base + i * p.stride

  abbrev pub fresh_pool : ℕ → ℕ → ℕ → MemPool T
  fresh_pool num_elems base stride = record {
    store = replicate num_elems empty_block;
    next_free_index = 0;
    num_free = num_elems;
    base = base;
    stride = stride;
  }

  -- The constructor; `assert(num_elems > 0)`.
  unfoldable pub create : ℕ → ℕ → ℕ → Outcome (MemPool T)
  create num_elems base stride =
      if num_elems == 0 then fault else done (fresh_pool num_elems base stride)

  -- The `do … while` of `updateNextFreeIndex`, with the rounds that it may still make. It fails if
  -- it comes back to `start`, or if the rounds run out.
  pub search_free : List (ObjectBlock T) → ℕ → ℕ → ℕ → Outcome ℕ
  search_free bs start zero i = fault
  search_free bs start (suc rounds) i = elim (get_elem? bs (next_index (length bs) i)) [
    | none ↦ fault
    | some b ↦ elim (b.is_free) [
      | true ↦ done (next_index (length bs) i)
      | false ↦ elim (next_index (length bs) i == start) [
        | true ↦ fault
        | false ↦ search_free bs start rounds (next_index (length bs) i)
      ]
    ]
  ]

  pub update_next_free_index : MemPool T → Outcome (MemPool T)
  unfolding search_free
  update_next_free_index p = do
    j ← search_free p.store p.next_free_index (length p.store) p.next_free_index
    done (record p { next_free_index = j })

  -- The slot `i` after the constructor of `x` has run in it.
  abbrev pub occupy : MemPool T → ℕ → T → MemPool T
  occupy p i x = record p {
    store = set p.store i (record { storage = some x; is_free = false });
    num_free = p.num_free - 1;
  }

  allocate_in : MemPool T → Option (ObjectBlock T) → T → Outcome (ℕ × MemPool T)
  unfolding update_next_free_index
  allocate_in p none x = fault
  allocate_in p (some b) x =
      if b.is_free
      then (if ltb 0 (p.num_free - 1)
          then (update_next_free_index (occupy p p.next_free_index x) >>= λ q.
              done (address p p.next_free_index, q))
          else done (address p p.next_free_index, occupy p p.next_free_index x))
      else fault

  -- `x` is the object that T's constructor makes of the arguments. The result is the pointer.
  unfoldable pub allocate : MemPool T → T → Outcome (ℕ × MemPool T)
  unfolding allocate_in
  allocate p x =
      if p.num_free == 0
      then done (nullptr, p)
      else allocate_in p (get_elem? p.store p.next_free_index) x

  -- The `for` loop of `deallocate`: the first slot from `i` on at the address, or the size.
  pub find_slot : MemPool T → ℕ → ℕ → ℕ → ℕ
  find_slot p elem zero i = i
  find_slot p elem (suc rounds) i =
      let rest = find_slot p elem rounds (i + 1) in if address p i == elem then i else rest

  abbrev pub vacate : MemPool T → ℕ → MemPool T
  vacate p i = record p {
    store = set p.store i empty_block;
    num_free = add_size p.num_free 1;
    next_free_index = i;
  }

  -- `std::destroy_at` wants a live object.
  deallocate_in : MemPool T → ℕ → Option (ObjectBlock T) → Outcome (Bool × MemPool T)
  deallocate_in p i none = fault
  deallocate_in p i (some b) =
      if b.is_free
      then done (false, p)
      else elim (b.storage) [ none ↦ fault | some x ↦ done (true, vacate p i) ]

  unfoldable pub deallocate : MemPool T → ℕ → Outcome (Bool × MemPool T)
  unfolding deallocate_in find_slot
  deallocate p elem =
      if elem == nullptr
      then done (false, p)
      else (if find_slot p elem (length p.store) 0 == length p.store
          then done (false, p)
          else deallocate_in p (find_slot p elem (length p.store) 0)
              (get_elem? p.store (find_slot p elem (length p.store) 0)))

  -- The destructor: the objects that it destroys, in order.
  pub destroy_blocks : List (ObjectBlock T) → Outcome (List T)
  destroy_blocks [] = done []
  destroy_blocks (b ∷ bs) =
      if b.is_free
      then destroy_blocks bs
      else elim (b.storage) [ none ↦ fault | some x ↦ (destroy_blocks bs >>= λ xs. done (x ∷ xs)) ]

  unfoldable pub destroy : MemPool T → Outcome (List T)
  unfolding destroy_blocks
  destroy p = destroy_blocks p.store
