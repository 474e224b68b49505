-- ===== src/Base/Modular.antt =====
-- Indices that go round a ring of `n` places.
use Prim.Native.Nat.{ℕ, ◌+◌, ◌-◌, ◌%◌, ◌^◌, ◌<◌}
use mathlib.Core.Path.{◌≡◌, sym, ◌∙◌, ap}
use mathlib.Core.Logic.{◌≢◌}
use native.Mathlib.Decide.{dec_lt}
use native.Mathlib.Nat.{mod-add-mod, mod-eq_of_lt, mod-eq-sub-mod, mod-lt}
use native.Mathlib.Omega.{arith}

-- Fewer than `n` steps do not come back to the start.
pub mod-add-ne : (n start d : ℕ) → start < n → 0 < d → d < n → (start + d) % n ≢ start
mod-add-ne n start d hs hd hn = elim (dec_lt (start + d) n) [
  | yes p ↦ omega (arith, mod-eq_of_lt p)
  | no p ↦ omega (
    arith,
    mod-eq-sub-mod {n = start + d} {m = n} (omega arith),
    mod-eq_of_lt {n = start + d - n} {m = n} (omega arith),
  )
]

-- Two counts less than `n` apart stand at different places.
pub mod-ne : (n j k : ℕ) → j < k → k < j + n → j % n ≢ k % n
mod-ne n j k h hn e =
    mod-add-ne n (j % n) (k - j) (mod-lt j (omega arith)) (omega arith) (omega arith)
      (mod-add-mod j n (k - j) ∙ ap (λ (m : ℕ). m % n) back ∙ sym e)
  where
    back : j + (k - j) ≡ k
    back = omega arith

-- The next place, computed with `size_t` addition from a place in range.
pub add_size-mod : (n k : ℕ) → 0 < n → n < 2 ^ 64 → (k % n + 1) % 2 ^ 64 % n ≡ (k + 1) % n
add_size-mod n k pos small = ap (λ (m : ℕ). m % n) (omega (arith, mod-lt k pos)) ∙ mod-add-mod k n 1
