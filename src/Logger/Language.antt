-- ===== src/Logger/Language.antt =====
-- The language of the formats of `log` (src/logger.cpp), described apart from the code.
use lowlatency_cpp.Base.{ℕ, ◌≡◌, ◌≢◌, Bool, false, List, [], ◌∷◌, ◌++◌, Text, ◌==◌, if◌then◌else◌}
use lowlatency_cpp.Logger.{Value, number, c_string, std_string, percent, Ostream, write_as}

-- A byte is written as it is.
abbrev pub WritesChars : Ostream → Type 0
WritesChars file = (c : ℕ) → file.put_char c ≡ c ∷ []

-- The bytes of a C string before its end.
unfoldable pub c_str : Text → Text
c_str [] = []
c_str (c ∷ cs) = if c == 0 then [] else c ∷ c_str cs

-- What an argument looks like in the file.
unfoldable pub shown : Ostream → Value → Text
unfolding c_str
shown file (number kind bits) = write_as file kind bits
shown file (c_string s) = c_str s
shown file (std_string s) = c_str s

-- The next character is a percent sign.
unfoldable pub starts_percent : Text → Bool
starts_percent [] = false
starts_percent (d ∷ s) = d == percent

-- The format, its arguments and the text: each single percent sign stands for the next argument, two
-- for a percent sign, and all other bytes for themselves.
pub data Expands (file : Ostream) : Text → List Value → Text → Type 0 where
  ended : Expands file [] [] []
  terminated : {c : ℕ} {s : Text} → c ≡ 0 → Expands file (c ∷ s) [] []
  plain :
      {c : ℕ} {s : Text} {vs : List Value} {t : Text}
      → c ≢ 0
      → c ≢ percent
      → Expands file s vs t
      → Expands file (c ∷ s) vs (c ∷ t)
  doubled :
      {c d : ℕ} {s : Text} {vs : List Value} {t : Text}
      → c ≡ percent
      → d ≡ percent
      → Expands file s vs t
      → Expands file (c ∷ d ∷ s) vs (percent ∷ t)
  hole :
      {c : ℕ} {s : Text} {v : Value} {vs : List Value} {t : Text}
      → c ≡ percent
      → starts_percent s ≡ false
      → Expands file s vs t
      → Expands file (c ∷ s) (v ∷ vs) (shown file v ++ t)

-- The branches of `log`.
