-- ===== src/TimeUtils.antt =====
-- include/time_utils.hpp: the unit constants, the two clocks and `getCurrentTimeStr`. What the clocks
-- read, `localtime_r` and `strftime` are parameters.
pub mod Stamp
pub mod Elapsed
mod Tests
use lowlatency_cpp.Base.{
  ℕ, ◌*◌, Option, none, some, List, [], Text, take, replicate, ◌==◌, if◌then◌else◌, ℤ, scale,
  truncate, is_int64, Outcome, done, fault,
}

abbrev pub Nanos : Type 0
Nanos = ℤ

abbrev pub nanos_to_micros : ℕ
nanos_to_micros = 1000

abbrev pub micros_to_millis : ℕ
micros_to_millis = 1000

abbrev pub millis_to_secs : ℕ
millis_to_secs = 1000

abbrev pub nanos_to_millis : ℕ
nanos_to_millis = nanos_to_micros * micros_to_millis

abbrev pub nanos_to_secs : ℕ
nanos_to_secs = nanos_to_millis * millis_to_secs

-- A clock of <chrono>: each tick lasts num / den nanoseconds.
pub record Clock : Type 0 where
  pub num : ℕ
  pub den : ℕ

-- `duration_cast<nanoseconds>` of a count of ticks: a product that is no `int64_t` is undefined
-- behaviour, and the division rounds toward zero.
abbrev pub nanos_of : Clock → ℤ → Outcome Nanos
nanos_of c ticks =
    if is_int64 (scale ticks c.num) then done (truncate (scale ticks c.num) c.den) else fault

-- `getCurrentNanos`, when `system_clock::now()` reads `now` ticks since the epoch.
unfoldable pub get_current_nanos : (system_clock : Clock) (now : ℤ) → Outcome Nanos
get_current_nanos system_clock now = nanos_of system_clock now

-- `getSteadyNanos`, when `steady_clock::now()` reads `now` ticks since the epoch.
unfoldable pub get_steady_nanos : (steady_clock : Clock) (now : ℤ) → Outcome Nanos
get_steady_nanos steady_clock now = nanos_of steady_clock now

-- `std::tm`, as far as the format reads it; the year and the month as they are written.
pub record Tm : Type 0 where
  pub year : ℕ
  pub month : ℕ
  pub day : ℕ
  pub hour : ℕ
  pub minute : ℕ
  pub second : ℕ

abbrev pub buffer_size : ℕ
buffer_size = 20

abbrev assigned : ℕ × Text → Text
assigned (characters_written, buffer) =
    if characters_written == 0 then [] else take characters_written buffer

abbrev formatted : (Text → Tm → ℕ × Text) → Option Tm → Text
formatted strftime none = []
formatted strftime (some local_time) = assigned (strftime (replicate buffer_size 0) local_time)

-- `getCurrentTimeStr` at the time `now`. `strftime` returns the number of characters, and the buffer.
pub get_current_time_str :
    (localtime_r : ℕ → Option Tm) (strftime : Text → Tm → ℕ × Text) → ℕ → Text
get_current_time_str localtime_r strftime now = formatted strftime (localtime_r now)
