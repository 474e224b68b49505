-- ===== src/TimeUtils/Elapsed.antt =====
-- Durations that are measured by two calls of `getSteadyNanos` of include/time_utils.hpp.
use native.Mathlib.Nat.{
  div-mul-le_self, lt-div-mul-add, le-div_iff_mul-le, zero-div, div-one, add-mul,
}
use lowlatency_cpp.Base.{
  ℕ, zero, suc, ◌+◌, ◌-◌, ◌*◌, ◌/◌, ◌<◌, ◌≤◌, ◌≡◌, ℤ, pos, negsuc, ◌+ℤ◌, scale, truncate, is_int64,
  true, done, arith, refl, sub_ℕ, ap, sym, inl, inr, Bool-cases, leb,
}
use lowlatency_cpp.TimeUtils.{Clock, Nanos, get_steady_nanos}

-- `e` is `t` / `d` if `d` is 1, and else differs from it by less than two.
abbrev pub Near : (d t e : ℕ) → Type 0
Near zero t e = ⊥
Near (suc zero) t e = e ≡ t
Near (suc (suc d)) t e = (e * suc (suc d) < t + suc (suc d)) × (t < (e + 2) * suc (suc d))

Near-of : (d t e : ℕ) → 0 < d → (d ≡ 1 → e ≡ t) → e * d < t + d → t < (e + 2) * d → Near d t e
Near-of zero t e positive exact below above = absurd (omega arith)
Near-of (suc zero) t e positive exact below above = exact refl
Near-of (suc (suc d)) t e positive exact below above = (below, above)

floor : (n d : ℕ) → 0 < d → (n / d * d ≤ n) × (n < n / d * d + d)
floor n d positive = (div-mul-le_self n d, lt-div-mul-add positive)

whole : (n d : ℕ) → d ≡ 1 → n / d ≡ n
whole n d one = rw one (div-one n)

difference : (x t d : ℕ) → 0 < d → (e : ℕ) × ((x + t) / d ≡ x / d + e) × Near d t e
difference x t d positive =
    let low = floor x d positive in
    let high = floor (x + t) d positive in
    let le : x / d ≤ (x + t) / d = (le-div_iff_mul-le positive).1 (omega (arith, low.0)) in
    let e : ℕ = (x + t) / d - x / d in
    let apart : (x + t) / d ≡ x / d + e = omega (arith, le) in
    let times : (x + t) / d * d ≡ (x / d + e) * d = ap (λ n. n * d) apart in
    (
      e,
      apart,
      Near-of d t e positive (λ one. omega (arith, apart, whole x d one, whole (x + t) d one))
          (omega (arith, low.0, low.1, high.0, high.1, times))
          (omega (arith, low.0, low.1, high.0, high.1, times)),
    )

span : (x y d : ℕ) → 0 < d → Near d (x + y) (x / d + y / d)
span x y d positive =
    let a = floor x d positive in
    let b = floor y d positive in
    Near-of d (x + y) (x / d + y / d) positive (λ one. omega (arith, whole x d one, whole y d one))
      (omega (arith, a.0, b.0)) (omega (arith, a.1, b.1))

truncate-sub : (m d : ℕ) → truncate (sub_ℕ 0 m) d ≡ sub_ℕ 0 (m / d)
truncate-sub zero d = rw (zero-div d) refl
truncate-sub (suc m) d = let same : suc (suc m - 1) ≡ suc m = omega arith in ground (arith, same)

sub-suc : (m : ℕ) → sub_ℕ 0 (suc m) ≡ negsuc m
sub-suc m = ground arith

truncate-scale : (m k d : ℕ) → truncate (scale (sub_ℕ 0 m) k) d ≡ sub_ℕ 0 (m * k / d)
truncate-scale zero k d =
    let none_there : 0 * k ≡ 0 = omega arith in rw (none_there, zero-div d) refl
truncate-scale (suc m) k d = rw (sub-suc m) (truncate-sub (suc m * k) d)

sub-add : (x e : ℕ) → sub_ℕ 0 (x + e) +ℤ pos e ≡ sub_ℕ 0 x
sub-add x e = ground arith

sub-pos : (x y : ℕ) → sub_ℕ 0 x +ℤ pos (x + y) ≡ pos y
sub-pos x y = ground arith

-- The readings at `start`, and `t` ticks later, differ by `e` nanoseconds.
Apart : Clock → (start : ℤ) (t e : ℕ) → Type 0
Apart c start t e =
    truncate (scale (start +ℤ pos t) c.num) c.den ≡ truncate (scale start c.num) c.den +ℤ pos e

module _ (c : Clock) (positive : 0 < c.den) where
  after_epoch : (n t : ℕ) → (e : ℕ) × Apart c (pos n) t e × Near c.den (t * c.num) e
  unfolding Apart
  after_epoch n t =
      let (e, apart, near) = difference (n * c.num) (t * c.num) c.den positive in
      let sum : (n + t) * c.num ≡ n * c.num + t * c.num = omega arith in
      (e, ground (arith, apart, sum), near)

  -- Both readings are before the epoch, the later one by `m` ticks.
  before_epoch : (m t : ℕ) → (e : ℕ) × Apart c (sub_ℕ 0 (m + t)) t e × Near c.den (t * c.num) e
  unfolding Apart
  before_epoch m t =
      let (e, apart, near) = difference (m * c.num) (t * c.num) c.den positive in
      let sum : (m + t) * c.num ≡ m * c.num + t * c.num = omega arith in
      (
        e,
        rw
            (
              sub-add m t,
              truncate-scale m c.num c.den,
              truncate-scale (m + t) c.num c.den,
              sum,
              apart,
            )
            (sym (sub-add (m * c.num / c.den) e)),
        near,
      )

  -- The epoch is between the readings, `m` ticks after the first and `n` ticks before the second.
  across_epoch :
      (m n : ℕ) → (e : ℕ) × Apart c (sub_ℕ 0 m) (m + n) e × Near c.den ((m + n) * c.num) e
  unfolding Apart
  across_epoch m n =
      let near = span (m * c.num) (n * c.num) c.den positive in
      (
        m * c.num / c.den + n * c.num / c.den,
        rw (sub-pos m n, truncate-scale m c.num c.den)
            (sym (sub-pos (m * c.num / c.den) (n * c.num / c.den))),
        rw (add-mul m n c.num) near,
      )

  apart_lem : (start : ℤ) (t : ℕ) → (e : ℕ) × Apart c start t e × Near c.den (t * c.num) e
  apart_lem (pos n) t = after_epoch n t
  apart_lem (negsuc n) t = elim (Bool-cases (leb t (suc n))) [
    | inl early ↦
        let start : sub_ℕ 0 (suc n - t + t) ≡ negsuc n = ground (arith, early) in
        rw start at (before_epoch (suc n - t) t)
    | inr late ↦
        let all : suc n + (t - suc n) ≡ t = ground (arith, late) in
        rw (all, sub-suc n) at (across_epoch (suc n) (t - suc n))
  ]

  -- Of two calls of getSteadyNanos, the second t ticks of the clock after the first, both with
  -- counts that fit, the second gives what the first does and a number of nanoseconds that is not
  -- negative: exactly the time between the calls if a tick is a whole number of nanoseconds, and
  -- else less than two off. The length of a tick is a ratio with a positive denominator.
  pub elapsed :
      (start : ℤ) (t : ℕ)
      → is_int64 (scale start c.num) ≡ true
      → is_int64 (scale (start +ℤ pos t) c.num) ≡ true
      → (a : Nanos) × (e : ℕ) × (get_steady_nanos c start ≡ done a)
        × (get_steady_nanos c (start +ℤ pos t) ≡ done (a +ℤ pos e))
        × Near c.den (t * c.num) e
  unfolding get_steady_nanos Apart
  elapsed start t fits fits' =
      let (e, apart, near) = apart_lem start t in
      (truncate (scale start c.num) c.den, e, rw fits refl, rw (fits', apart) refl, near)
