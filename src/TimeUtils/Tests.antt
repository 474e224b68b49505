-- ===== src/TimeUtils/Tests.antt =====
-- A concrete `strftime`, and a time stamp.
use lowlatency_cpp.Base.{
  pos, negsuc, ◌+ℤ◌, ◌*◌, done, ℕ, ◌+◌, ◌≡◌, refl, Bool, true, false, some, [], ◌∷◌, length, Text,
  ltb, if◌then◌else◌, arith, Bool-cases, inl, inr, take-length,
}
use native.Mathlib.Nat.{le_refl}
use lowlatency_cpp.TimeUtils.Elapsed.{Near, elapsed}
use lowlatency_cpp.TimeUtils.{
  Clock, Nanos, get_current_nanos, get_steady_nanos, Tm, get_current_time_str,
}
use lowlatency_cpp.TimeUtils.Stamp.{stamp, IsStrftime, get_current_time_str_lem}

abbrev decimal : ℕ → Text
decimal n = b'2' ∷ b'0' ∷ b'2' ∷ (b'0' + n) ∷ []

abbrev choose : Bool → Text → Text → ℕ × Text
choose true text buffer = (length text, text)
choose false text buffer = (0, buffer)

abbrev strftime : Text → Tm → ℕ × Text
strftime buffer t = choose (ltb (length (stamp decimal t)) (length buffer)) (stamp decimal t) buffer

strftime-IsStrftime : IsStrftime decimal strftime
strftime-IsStrftime = record {
  fits = λ buffer t h. elim (Bool-cases (ltb (length (stamp decimal t)) (length buffer))) [
    | inl yes_it ↦ rw yes_it (
      refl,
      take-length (length (stamp decimal t)) (stamp decimal t) (le_refl (length (stamp decimal t))),
    )
    | inr not_it ↦ absurd (ground (arith, not_it))
  ];
  too_long = λ buffer t h. ground arith;
}

abbrev new_year : Tm
new_year = record { year = 6; month = 1; day = 1; hour = 0; minute = 0; second = 0 }

get_current_time_str_lem_example :
    get_current_time_str (λ now. some new_year) strftime 0
    ≡ (if ltb (length (decimal 6)) 5 then stamp decimal new_year else [])
get_current_time_str_lem_example =
    get_current_time_str_lem decimal (λ now. some new_year) strftime 0 strftime-IsStrftime

-- A clock of three ticks in a microsecond, which has not yet reached its epoch.
abbrev thirds : Clock
thirds = record { num = 1000; den = 3 }

elapsed_example :
    (a : Nanos) × (e : ℕ) × (get_steady_nanos thirds (negsuc 3) ≡ done a)
    × (get_steady_nanos thirds (negsuc 3 +ℤ pos 9) ≡ done (a +ℤ pos e))
    × Near 3 (9 * 1000) e
elapsed_example = elapsed thirds (omega arith) (negsuc 3) 9 refl refl

before_the_epoch : get_current_nanos thirds (negsuc 3) ≡ done (negsuc 1332)
unfolding get_current_nanos
before_the_epoch = refl
