-- ===== src/Logger.antt =====
-- include/logger.hpp and src/logger.cpp: how a message becomes queue elements, and the elements text.
-- A C string is the list of its bytes; it ends at a byte 0, or at the end of the list. What
-- `std::ofstream` writes for a value is a parameter.
pub mod Language
pub mod Format
pub mod Arity
pub mod Messages
pub mod Threads
use lowlatency_cpp.Base.{
  ℕ, zero, suc, ◌*◌, ◌≡◌, Bool, true, false, List, [], ◌∷◌, ◌++◌, Text, ◌==◌, if◌then◌else◌,
  Outcome, done, fault, ◌>>=◌,
}

abbrev pub log_queue_size : ℕ
log_queue_size = 64 * 1024

pub data LogType : Type 0 where
  char integer long_integer long_long_integer : LogType
  unsigned_integer unsigned_long_integer unsigned_long_long_integer : LogType
  float double : LogType

-- `value` are the bits of the union's member that `kind` selects.
pub record LogElement : Type 0 where
  pub kind : LogType
  pub value : ℕ

abbrev pub blank_element : LogElement
blank_element = record { kind = char; value = 0 }

-- An argument of `log`. Numbers are given by their bits.
pub data Value : Type 0 where
  number : LogType → ℕ → Value
  c_string std_string : Text → Value

-- The overload for `const char*`.
pub push_c_string : Text → List LogElement
push_c_string [] = []
push_c_string (c ∷ cs) = if c == 0 then [] else record { kind = char; value = c } ∷ push_c_string cs

-- The overloads of `pushValue`: the elements that are queued.
pub push_value : Value → List LogElement
unfolding push_c_string
push_value (number kind bits) = record { kind = kind; value = bits } ∷ []
push_value (c_string s) = push_c_string s
push_value (std_string s) = push_c_string s

abbrev pub percent : ℕ
percent = b'%'

abbrev pub emit : List LogElement → Outcome (List LogElement) → Outcome (List LogElement)
emit es rest = rest >>= λ fs. done (es ++ fs)

abbrev pub push_char : ℕ → Outcome (List LogElement) → Outcome (List LogElement)
push_char c rest = emit (push_value (number char c)) rest

-- At the end of the format an argument may not be left.
abbrev pub at_end : List Value → Outcome (List LogElement)
at_end [] = done []
at_end (v ∷ vs) = fault

-- At a single percent sign an argument must be left.
abbrev pub on_value :
    List Value → (List Value → Outcome (List LogElement)) → Outcome (List LogElement)
on_value [] k = fault
on_value (v ∷ vs) k = emit (push_value v) (k vs)

-- Both forms of `log`, in a build with assertions: the elements that are queued, or a failed
-- assertion.
pub log : Text → List Value → Outcome (List LogElement)
unfolding push_value
log [] vs = at_end vs
log (c ∷ []) vs =
    if c == 0
    then at_end vs
    else (if c == percent then on_value vs (λ us. log [] us) else push_char c (log [] vs))
log (c ∷ d ∷ s) vs =
    let doubled = push_char percent (log s vs) in
    let plain = push_char c (log (d ∷ s) vs) in
    if c == 0
    then at_end vs
    else (if c == percent
        then (if d == percent then doubled else on_value vs (λ us. log (d ∷ s) us))
        else plain)

-- A sequence of calls, each with its format and its arguments.
unfoldable pub log_all : List (Text × List Value) → Outcome (List LogElement)
unfolding log
log_all [] = done []
log_all ((s, vs) ∷ calls) = log s vs >>= λ es. emit es (log_all calls)

-- What `file_ <<` writes, for each type of value.
pub record Ostream : Type 0 where
  pub put_char : ℕ → Text
  pub put_int : ℕ → Text
  pub put_long : ℕ → Text
  pub put_long_long : ℕ → Text
  pub put_unsigned : ℕ → Text
  pub put_unsigned_long : ℕ → Text
  pub put_unsigned_long_long : ℕ → Text
  pub put_float : ℕ → Text
  pub put_double : ℕ → Text

module _ (file : Ostream) where
  -- The `switch` of `flushQueue`.
  pub write_as : LogType → ℕ → Text
  write_as char value = file.put_char value
  write_as integer value = file.put_int value
  write_as long_integer value = file.put_long value
  write_as long_long_integer value = file.put_long_long value
  write_as unsigned_integer value = file.put_unsigned value
  write_as unsigned_long_integer value = file.put_unsigned_long value
  write_as unsigned_long_long_integer value = file.put_unsigned_long_long value
  write_as float value = file.put_float value
  write_as double value = file.put_double value

  pub write_element : LogElement → Text
  unfolding write_as
  write_element e = write_as e.kind e.value

  unfoldable pub write_all : List LogElement → Text
  unfolding write_element
  write_all [] = []
  write_all (e ∷ es) = write_element e ++ write_all es
