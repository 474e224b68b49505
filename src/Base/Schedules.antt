-- ===== src/Base/Schedules.antt =====
-- Schedules of two threads: `true` picks the first, `false` the second.
use Prim.Native.Nat.{ℕ, zero, suc}
use mathlib.Core.Bool.{Bool, true, false}
use mathlib.Core.List.{List, [], ◌∷◌}

-- The two in turn.
abbrev pub rounds : ℕ → List Bool
rounds zero = []
rounds (suc k) = true ∷ false ∷ rounds k
