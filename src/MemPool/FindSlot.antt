-- ===== src/MemPool/FindSlot.antt =====
-- The search for the slot of a pointer in `deallocate` (include/mem_pool.hpp).
use native.Mathlib.Decide.{ℕ_discrete}
use native.Mathlib.Nat.{eq_of_mul-eq-mul_right}
use lowlatency_cpp.Base.{
  ℕ, zero, suc, ◌+◌, ◌*◌, ◌≤◌, ◌<◌, ◌≡◌, ◌⊎◌, inl, ap, false, some, get_elem?, arith,
}
use lowlatency_cpp.MemPool.{ObjectBlock, MemPool, address, find_slot}

pub address_inj : (b s i j : ℕ) → 0 < s → b + i * s ≡ b + j * s → i ≡ j
address_inj b s i j h e = eq_of_mul-eq-mul_right s h i j (omega arith)

module _ {ℓ} {T : Type ℓ} where
  pub find_slot-hit :
      (p : MemPool T) (i rounds from : ℕ)
      → 0 < p.stride
      → from ≤ i
      → i < from + rounds
      → find_slot p (address p i) rounds from ≡ i
  unfolding find_slot
  find_slot-hit p i zero from hs lo hi = absurd (omega arith)
  find_slot-hit p i (suc rounds) from hs lo hi = elim (ℕ_discrete from i) [
    | yes same ↦ ground (arith, ap (address p) same)
    | no other ↦
        ground
          (arith, find_slot-hit p i rounds (from + 1) hs, address_inj p.base p.stride from i hs)
  ]

  -- The result is past the end, or a slot at the address.
  pub find_slot_sound :
      (p : MemPool T) (elem rounds from : ℕ)
      → (find_slot p elem rounds from ≡ from + rounds)
        ⊎ ((find_slot p elem rounds from < from + rounds)
            × (address p (find_slot p elem rounds from) ≡ elem))
  unfolding find_slot
  find_slot_sound p elem zero from = inl (omega arith)
  find_slot_sound p elem (suc rounds) from =
      ground (arith, find_slot_sound p elem rounds (from + 1))

  -- A slot that holds a live object, at the address.
  abbrev pub Occupied : MemPool T → ℕ → ℕ → Type ℓ
  Occupied p elem i =
      (b : ObjectBlock T) × (get_elem? p.store i ≡ some b)
      × (b.is_free ≡ false)
      × (address p i ≡ elem)
