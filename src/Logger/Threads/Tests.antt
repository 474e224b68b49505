-- ===== src/Logger/Threads/Tests.antt =====
-- Concrete messages and runs, and the theorems of the logger at inputs that meet their hypotheses.
use lowlatency_cpp.Base.{
  rounds, ℕ, ◌≡◌, ◌↔◌, refl, true, List, [], ◌∷◌, ◌++◌, Text, some, done, arith,
}
use lowlatency_cpp.LfQueue
use lowlatency_cpp.LfQueue.{LfQueue}
use lowlatency_cpp.Logger.{
  char, integer, LogElement, blank_element, Value, number, c_string, std_string, log, log_all,
  write_all,
}
use lowlatency_cpp.Logger.Format.{log-Expands}
use lowlatency_cpp.Logger.Language.{Expands}
use lowlatency_cpp.Logger.Messages
use lowlatency_cpp.Logger.Messages.{round_finished, listener_failed, calls_logged}
use lowlatency_cpp.Logger.Arity.{bytes_only}
use lowlatency_cpp.Logger.Threads.{Logger, closed, returned, create, open_logger, run}
use lowlatency_cpp.Logger.Threads.Closed.{ExpandsAll, Reached, closed_file, file_is_prefix}
use lowlatency_cpp.Logger.Threads.Closes.{closes}

-- `log("%:7%%", "ok")` and `log("%", 42)`, the second with a decimal stream.
abbrev format : Text
format = b'%' ∷ b':' ∷ b'7' ∷ b'%' ∷ b'%' ∷ []

abbrev calls : List (Text × List Value)
calls = (format, c_string (b'o' ∷ b'k' ∷ []) ∷ []) ∷ (b'%' ∷ [], number integer 42 ∷ []) ∷ []

abbrev byte : ℕ → LogElement
byte c = record { kind = char; value = c }

abbrev elements : List LogElement
elements =
    byte b'o'
    ∷ byte b'k'
    ∷ byte b':'
    ∷ byte b'7'
    ∷ byte b'%'
    ∷ record { kind = integer; value = 42 }
    ∷ []

calls_queue : log_all calls ≡ done elements
unfolding log_all
calls_queue = refl

-- A null byte in a `std::string` ends it.
truncated : log (b'%' ∷ []) (std_string (b'a' ∷ 0 ∷ b'b' ∷ []) ∷ []) ≡ done (byte b'a' ∷ [])
unfolding log
truncated = refl

log-Expands_example :
    Expands bytes_only format (c_string (b'o' ∷ []) ∷ []) (b'o' ∷ b':' ∷ b'7' ∷ b'%' ∷ []) ↔ (
      (es : List LogElement) × (log format (c_string (b'o' ∷ []) ∷ []) ≡ done es)
      × (write_all bytes_only es ≡ b'o' ∷ b':' ∷ b'7' ∷ b'%' ∷ []))
log-Expands_example =
    log-Expands bytes_only (λ c. refl) format (c_string (b'o' ∷ []) ∷ [])
      (b'o' ∷ b':' ∷ b'7' ∷ b'%' ∷ [])

two_slots : LfQueue LogElement
two_slots = LfQueue.blank_queue 2 blank_element

-- A queue that is too small for the messages: `pushValue` waits.
first : Logger
unfolding two_slots
first = open_logger two_slots elements

first_made : create true 2 elements ≡ done (some first)
unfolding create first LfQueue.create
first_made = refl

closes_example :
    ((run bytes_only first (rounds 200)).owner ≡ closed)
    × (t : Text) × ExpandsAll bytes_only calls t
    × ((run bytes_only first (rounds 200)).file ≡ t)
closes_example =
    closes bytes_only 2 calls elements first 200 (λ c. refl) calls_queue first_made (omega arith)
      (omega arith)

after : (k : ℕ) → Reached bytes_only 2 calls (run bytes_only first (rounds k))
after k = record {
  elements = elements;
  first = first;
  schedule = rounds k;
  queued = calls_queue;
  made = first_made;
  small = omega arith;
  ran = refl;
}

closed_file_example :
    (t : Text) × ExpandsAll bytes_only calls t
    × ((run bytes_only first (rounds 200)).file ≡ t)
    × ((run bytes_only first (rounds 200)).writer ≡ returned)
closed_file_example = closed_file (λ c. refl) (after 200) closes_example.0

file_is_prefix_example :
    (t rest : Text) × ExpandsAll bytes_only calls t
    × ((run bytes_only first (rounds 20)).file ++ rest ≡ t)
file_is_prefix_example = file_is_prefix (λ c. refl) (after 20)

calls_logged_example :
    (es : List LogElement) × (log_all
        (Messages.calls (round_finished ∷ listener_failed (b'l' ∷ b'o' ∷ []) 8080 ∷ []))
      ≡ done es)
calls_logged_example = calls_logged (round_finished ∷ listener_failed (b'l' ∷ b'o' ∷ []) 8080 ∷ [])
