-- ===== src/MemPool/Refines.antt =====
-- A pool of include/mem_pool.hpp is a heap for a bounded number of objects.
use mathlib.Core.Path.{fun_ext}
use native.Mathlib.Decide.{dec_lt}
use lowlatency_cpp.Base.{
  ℕ, ◌+◌, ◌^◌, ◌<◌, ◌≡◌, ◌≢◌, inl, inr, refl, sym, Bool, true, false, Option, none, some, List, [],
  ◌∷◌, ◌==◌, if◌then◌else◌, arith, Outcome, done, ◌>>=◌,
}
use lowlatency_cpp.MemPool.{
  MemPool, nullptr, address, vacate, create, allocate, deallocate, fresh_pool,
}
use lowlatency_cpp.MemPool.Valid.{IsValid, fresh_pool-IsValid}
use lowlatency_cpp.MemPool.Allocate.{allocate_lem, allocate_full}
use lowlatency_cpp.MemPool.Deallocate.{
  deallocate-Occupied, deallocate_refuses, deallocate_cases, vacate-IsValid, num_free-vacate,
}
use lowlatency_cpp.MemPool.Run.{Call, alloc, dealloc}
use lowlatency_cpp.MemPool.Objects.{
  object_at, object_at-none, object_at-fresh, Occupied-object, object_at-next, object_at-Allocated,
  object_at-vacate,
}

-- The heap: the object at each address, and for how many more objects there is room.
pub record Heap {ℓ} (T : Type ℓ) : Type ℓ where
  pub objects : ℕ → Option T
  pub room : ℕ

pub data Reply : Type 0 where
  gave : ℕ → Reply
  freed : Bool → Reply

module _ {ℓ} {T : Type ℓ} where
  abbrev pub with_object : Heap T → ℕ → Option T → ℕ → Option T
  with_object h a o b = if b == a then o else h.objects b

  -- A call of the heap gives a reply and leaves a heap. A new object gets an address that is not in
  -- use, while there is room; an address where an object lives can be given back, no other.
  pub data Does (h : Heap T) : Call T → Reply → Heap T → Type ℓ where
    places :
        (x : T) (a : ℕ) (h' : Heap T)
        → a ≢ nullptr
        → h.objects a ≡ none
        → ((b : ℕ) → h'.objects b ≡ with_object h a (some x) b)
        → h.room ≡ h'.room + 1
        → Does h (alloc x) (gave a) h'
    is_full : (x : T) → h.room ≡ 0 → Does h (alloc x) (gave nullptr) h
    frees :
        (x : T) (a : ℕ) (h' : Heap T)
        → h.objects a ≡ some x
        → ((b : ℕ) → h'.objects b ≡ with_object h a none b)
        → h'.room ≡ h.room + 1
        → Does h (dealloc a) (freed true) h'
    refuses : (a : ℕ) → h.objects a ≡ none → Does h (dealloc a) (freed false) h

  pub data Runs : Heap T → List (Call T) → List Reply → Heap T → Type ℓ where
    ends : (h : Heap T) → Runs h [] [] h
    goes_on :
        (h m h' : Heap T) (c : Call T) (r : Reply) (cs : List (Call T)) (rs : List Reply)
        → Does h c r m
        → Runs m cs rs h'
        → Runs h (c ∷ cs) (r ∷ rs) h'

  abbrev pub empty_heap : ℕ → Heap T
  empty_heap n = record { objects = λ a. none; room = n }

  abbrev pub view : MemPool T → Heap T
  view p = record { objects = object_at p; room = p.num_free }

  abbrev pub answer : MemPool T → Call T → Outcome (Reply × MemPool T)
  answer p (alloc x) = allocate p x >>= λ r. done (gave r.0, r.1)
  answer p (dealloc a) = deallocate p a >>= λ r. done (freed r.0, r.1)

  unfoldable pub answers : MemPool T → List (Call T) → Outcome (List Reply × MemPool T)
  answers p [] = done ([], p)
  answers p (c ∷ cs) = answer p c >>= λ r. answers r.1 cs >>= λ rest. done (r.0 ∷ rest.0, rest.1)

  abbrev Answered : MemPool T → Call T → Type ℓ
  Answered p c =
      (r : Reply) × (q : MemPool T) × (answer p c ≡ done (r, q))
      × IsValid q
      × Does (view p) c r (view q)

  answer-alloc : (p : MemPool T) (x : T) → IsValid p → Answered p (alloc x)
  answer-alloc p x v = elim (dec_lt 0 p.num_free) [
    | yes room ↦
        let (q, e, w, did) = allocate_lem p x v room in
        let a = address p p.next_free_index in
        (
          gave a,
          q,
          rw e refl,
          w,
          places x a (view q) (omega (arith, v.base_set)) (object_at-next p v did.was_free)
              (λ b. object_at-Allocated p x q b v w did) (sym did.taken),
        )
    | no full ↦
        let none_free : p.num_free ≡ 0 = omega arith in
        (
          gave nullptr,
          p,
          rw (allocate_full p x v (omega (arith, v.counted))) refl,
          v,
          is_full x none_free,
        )
  ]

  answer-dealloc : (p : MemPool T) (a : ℕ) → IsValid p → Answered p (dealloc a)
  answer-dealloc p a v = elim (deallocate_cases p a v) [
    | inl (i, o) ↦
        let w = vacate-IsValid p a i v o in
        let (x, lives) = Occupied-object p a i v o in
        (
          freed true,
          vacate p i,
          rw (deallocate-Occupied p a i v o) refl,
          w,
          frees x a (view (vacate p i)) lives (λ b. object_at-vacate p a i b v w o)
              (num_free-vacate p a i v o),
        )
    | inr nowhere ↦ (
      freed false,
      p,
      rw (deallocate_refuses p a v nowhere) refl,
      v,
      refuses a (object_at-none p a v nowhere),
    )
  ]

  answer-Answered : (p : MemPool T) (c : Call T) → IsValid p → Answered p c
  answer-Answered p (alloc x) v = answer-alloc p x v
  answer-Answered p (dealloc a) v = answer-dealloc p a v

  answers-Runs :
      (p : MemPool T) (cs : List (Call T))
      → IsValid p
      → (rs : List Reply) × (q : MemPool T) × (answers p cs ≡ done (rs, q))
        × Runs (view p) cs rs (view q)
  unfolding answers
  answers-Runs p [] v = ([], p, refl, ends (view p))
  answers-Runs p (c ∷ cs) v =
      let (r, m, e, w, does) = answer-Answered p c v in
      let (rs, q, e', runs) = answers-Runs m cs w in
      (r ∷ rs, q, rw (e, e') refl, goes_on (view p) (view m) (view q) c r cs rs does runs)

  -- A new pool of n slots, with 0 < n < 2 ^ 64, at an address that is not nullptr and with slots
  -- that are not empty, answers any sequence of calls, without undefined behaviour, as a heap with
  -- room for n objects may: allocate puts the object at an address that is not in use and is not
  -- nullptr, and fails only if no room is left; deallocate destroys the object at the address, and
  -- is refused exactly if none lives there; no call touches an object at another address.
  pub calls_heap :
      (n base stride : ℕ) (cs : List (Call T))
      → 0 < n
      → n < 2 ^ 64
      → 0 < base
      → 0 < stride
      → (rs : List Reply) × (q : MemPool T) × ((create n base stride >>= λ new. answers new cs)
          ≡ done (rs, q))
        × Runs (empty_heap n) cs rs (view q)
  unfolding create
  calls_heap n base stride cs nonempty small base_set stride_set =
      let not_empty : (n == 0) ≡ false = ground arith in
      let new : MemPool T = fresh_pool n base stride in
      let v = fresh_pool-IsValid n base stride nonempty small base_set stride_set in
      let (rs, q, e, runs) = answers-Runs new cs v in
      let blank = fun_ext (λ a. object_at-fresh n base stride a v) in
      let same : view new ≡ empty_heap n = λ i. record { objects = blank i; room = n } in
      (rs, q, rw not_empty e, rw same at runs)
