-- ===== src/TimeUtils/Stamp.antt =====
-- The text that `getCurrentTimeStr` gives: "YYYY-MM-DD HH:MM:SS", or nothing.
use lowlatency_cpp.Base.{
  ℕ, ◌+◌, ◌/◌, ◌%◌, ◌≤◌, ◌<◌, ◌≡◌, Option, none, some, [], ◌∷◌, ◌++◌, length, take, replicate, Text,
  ltb, ◌==◌, if◌then◌else◌, Bool-cases, Option-cases, ltb→lt, ltb→le, inl, inr, arith,
  length-append, false,
}
use lowlatency_cpp.TimeUtils.{Tm, buffer_size, formatted, get_current_time_str}

pub two_digits : ℕ → Text
two_digits n = (b'0' + n / 10) ∷ (b'0' + n % 10) ∷ []

-- What "%Y-%m-%d %H:%M:%S" stands for; `%Y` is the year in decimal, however long it is.
pub stamp : (ℕ → Text) → Tm → Text
unfolding two_digits
stamp decimal t =
    decimal t.year
    ++ (b'-' ∷ two_digits t.month
        ++ (b'-' ∷ two_digits t.day
            ++ (b' ' ∷ two_digits t.hour
                ++ (b':' ∷ two_digits t.minute ++ (b':' ∷ two_digits t.second)))))

-- `strftime` writes the text if it fits into the buffer with a null byte, and else returns 0.
pub record IsStrftime (decimal : ℕ → Text) (strftime : Text → Tm → ℕ × Text) : Type 0 where
  pub fits :
      (buffer : Text) (t : Tm)
      → length (stamp decimal t) < length buffer
      → ((strftime buffer t).0 ≡ length (stamp decimal t))
        × (take (length (stamp decimal t)) (strftime buffer t).1 ≡ stamp decimal t)
  pub too_long :
      (buffer : Text) (t : Tm)
      → length buffer ≤ length (stamp decimal t)
      → (strftime buffer t).0 ≡ 0

length-stamp :
    (decimal : ℕ → Text) (t : Tm) → length (stamp decimal t) ≡ length (decimal t.year) + 15
unfolding stamp
length-stamp decimal t = length-append (decimal t.year) _

formatted_lem :
    (decimal : ℕ → Text) (strftime : Text → Tm → ℕ × Text) (t : Tm)
    → IsStrftime decimal strftime
    → formatted strftime (some t)
      ≡ (if ltb (length (decimal t.year)) 5 then stamp decimal t else [])
formatted_lem decimal strftime t is =
    let buffer : Text = replicate buffer_size 0 in
    elim (Bool-cases (ltb (length (decimal t.year)) 5)) [
      | inl short ↦
          let (count, text) =
            is.fits buffer t
              (omega (arith, length-stamp decimal t, ltb→lt (length (decimal t.year)) 5 short)) in
          let some_text : (length (stamp decimal t) == 0) ≡ false =
            ground (arith, length-stamp decimal t) in
          rw (short, count, some_text) text
      | inr long ↦
          let count =
            is.too_long buffer t
              (omega (arith, length-stamp decimal t, ltb→le (length (decimal t.year)) 5 long)) in
          rw (long, count)
    ]

-- With a year of at most four digits the result of `getCurrentTimeStr` is the date and time; with a
-- longer one the buffer is too small and the result is empty, as it is when `localtime_r` fails;
-- `strftime` is taken to behave as documented.
pub get_current_time_str_lem :
    (decimal : ℕ → Text) (localtime_r : ℕ → Option Tm) (strftime : Text → Tm → ℕ × Text) (now : ℕ)
    → IsStrftime decimal strftime
    → get_current_time_str localtime_r strftime now ≡ elim (localtime_r now) [
      | none ↦ []
      | some t ↦ if ltb (length (decimal t.year)) 5 then stamp decimal t else []
    ]
unfolding get_current_time_str
get_current_time_str_lem decimal localtime_r strftime now is =
    elim (Option-cases (localtime_r now)) [
      | inl none_there ↦ rw none_there
      | inr (t, there) ↦ rw there (formatted_lem decimal strftime t is)
    ]
