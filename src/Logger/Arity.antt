-- ===== src/Logger/Arity.antt =====
-- How many arguments a format takes, and that `log` fails exactly on any other number.
use lowlatency_cpp.Base.{
  ℕ, suc, ◌≡◌, ◌≢◌, ◌↔◌, refl, sym, ap, ◌∙◌, subst, false, List, [], ◌∷◌, length, Text, ◌==◌,
  if◌then◌else◌, done, arith,
}
use lowlatency_cpp.Logger.{LogElement, Value, percent, log, Ostream}
use lowlatency_cpp.Logger.Format.{Head, stop, other, two, one, head, log-Expands}
use lowlatency_cpp.Logger.Language.{
  Expands, ended, terminated, plain, doubled, hole, starts_percent,
}

-- The number of single percent signs before the end of the format.
unfoldable pub wants : Text → ℕ
wants [] = 0
wants (c ∷ []) = if c == percent then 1 else 0
wants (c ∷ d ∷ s) =
    let skipped = wants s in
    let next = wants (d ∷ s) in
    if c == 0
    then 0
    else (if c == percent then (if d == percent then skipped else suc next) else next)

wants-stop : (c : ℕ) (s : Text) → c ≡ 0 → wants (c ∷ s) ≡ 0
unfolding wants
wants-stop c [] z = ground arith
wants-stop c (d ∷ s) z = ground arith

wants-other : (c : ℕ) (s : Text) → c ≢ 0 → c ≢ percent → wants (c ∷ s) ≡ wants s
unfolding wants
wants-other c [] z p = ground arith
wants-other c (d ∷ s) z p = ground arith

wants-two : (c d : ℕ) (s : Text) → c ≡ percent → d ≡ percent → wants (c ∷ d ∷ s) ≡ wants s
unfolding wants
wants-two c d s p q = ground arith

wants-one :
    (c : ℕ) (s : Text) → c ≡ percent → starts_percent s ≡ false → wants (c ∷ s) ≡ suc (wants s)
unfolding wants starts_percent
wants-one c [] p q = ground arith
wants-one c (d ∷ s) p q = ground arith

module _ (file : Ostream) where
  Expands-wants :
      {s : Text} {vs : List Value} {t : Text} → Expands file s vs t → length vs ≡ wants s
  unfolding wants
  Expands-wants ended = refl
  Expands-wants (terminated {c} {s} z) = sym (wants-stop c s z)
  Expands-wants (plain {c} {s} nz np x) = Expands-wants x ∙ sym (wants-other c s nz np)
  Expands-wants (doubled {c} {d} {s} p q x) = Expands-wants x ∙ sym (wants-two c d s p q)
  Expands-wants (hole {c} {s} p q x) = ap suc (Expands-wants x) ∙ sym (wants-one c s p q)

  abbrev Fits : Text → Type 0
  Fits s = (vs : List Value) → length vs ≡ wants s → (t : Text) × Expands file s vs t

  stop-Fits : (c : ℕ) (s : Text) → c ≡ 0 → Fits (c ∷ s)
  stop-Fits c s z [] h = ([], terminated z)
  stop-Fits c s z (v ∷ vs) h = absurd (omega (arith, wants-stop c s z))

  hole-Fits : (c : ℕ) (s : Text) → c ≡ percent → starts_percent s ≡ false → Fits s → Fits (c ∷ s)
  hole-Fits c s p q fits [] h = absurd (omega (arith, wants-one c s p q))
  hole-Fits c s p q fits (v ∷ vs) h =
      let (t, x) = fits vs (omega (arith, wants-one c s p q)) in (_, hole p q x)

  cons-Fits :
      (c : ℕ) (s : Text)
      → Head c s
      → Fits s
      → ((d : ℕ) (r : Text) → s ≡ d ∷ r → Fits r)
      → Fits (c ∷ s)
  cons-Fits c s (stop z) rest later = stop-Fits c s z
  cons-Fits c s (other nz np) rest later =
      λ vs h. let (t, x) = rest vs (h ∙ wants-other c s nz np) in (_, plain nz np x)
  cons-Fits c _ (two {d = d} {s = r} p q) rest later =
      λ vs h. let (t, x) = later d r refl vs (h ∙ wants-two c d r p q) in (_, doubled p q x)
  cons-Fits c s (one p q) rest later = hole-Fits c s p q rest

  nil-Fits : Fits []
  unfolding wants
  nil-Fits [] h = ([], ended)
  nil-Fits (v ∷ vs) h = absurd (omega arith)

  wants-Expands : (s : Text) → Fits s
  wants-Expands [] = nil-Fits
  wants-Expands (c ∷ []) = cons-Fits c [] (head c []) nil-Fits (λ d r e. cc)
  wants-Expands (c ∷ d ∷ s) =
      cons-Fits c (d ∷ s) (head c (d ∷ s)) (wants-Expands (d ∷ s))
        (λ d' r e. subst Fits (ground (arith, e)) (wants-Expands s))

abbrev pub bytes_only : Ostream
bytes_only = record {
  put_char = λ c. c ∷ [];
  put_int = λ c. c ∷ [];
  put_long = λ c. c ∷ [];
  put_long_long = λ c. c ∷ [];
  put_unsigned = λ c. c ∷ [];
  put_unsigned_long = λ c. c ∷ [];
  put_unsigned_long_long = λ c. c ∷ [];
  put_float = λ c. c ∷ [];
  put_double = λ c. c ∷ [];
}

-- `log` queues a message exactly when there are as many arguments as the format takes; with fewer or
-- more, an assertion fails.
pub log-wants :
    (s : Text) (vs : List Value)
    → ((es : List LogElement) × (log s vs ≡ done es)) ↔ (length vs ≡ wants s)
log-wants s vs = (
  λ x. Expands-wants bytes_only ((log-Expands bytes_only (λ c. refl) s vs _).1 (x.0, x.1, refl)),
  λ h.
      let (t, x) = wants-Expands bytes_only s vs h in
      let (es, e, f) = (log-Expands bytes_only (λ c. refl) s vs t).0 x in (es, e),
)
