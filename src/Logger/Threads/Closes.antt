-- ===== src/Logger/Threads/Closes.antt =====
-- Scheduled in turn, the two threads of a logger come to an end.
use lowlatency_cpp.Base.{
  rounds, ℕ, zero, suc, ◌+◌, ◌*◌, ◌<◌, ◌^◌, ◌≡◌, inl, inr, refl, ap, ◌∙◌, true, false, List, length,
  arith, some, done, Text,
}
use lowlatency_cpp.LfQueue.Spsc.Progress.{made}
use lowlatency_cpp.Logger.{LogElement, Value, log_all, Ostream}
use lowlatency_cpp.Logger.Language.{WritesChars}
use lowlatency_cpp.Logger.Threads.{
  closed, Writer, at_running, draining, returned, Logger, create, own, write_step, step, run,
}
use lowlatency_cpp.Logger.Threads.Closed.{create-Inv, ExpandsAll, Reached, closed_file}
use lowlatency_cpp.Logger.Threads.Steps.{Inv, logger_step-Inv}
use lowlatency_cpp.Logger.Threads.Progress.{progress, round, progress-le}

module _ (file : Ostream) (n : ℕ) (elements : List LogElement) where
  closed_writer :
      (s : Logger) (w : Writer) → s.owner ≡ closed → (write_step file s w).owner ≡ closed
  unfolding write_step
  closed_writer s at_running e = ground (arith, e)
  closed_writer s draining e = ground (arith, e)
  closed_writer s returned e = e

  -- The destructor stays returned.
  closed_run : (s : Logger) (k : ℕ) → s.owner ≡ closed → (run file s (rounds k)).owner ≡ closed
  unfolding run step own
  closed_run s zero e = e
  closed_run s (suc k) e =
      closed_run (write_step file (own s s.owner) (own s s.owner).writer) k
        (closed_writer (own s s.owner) (own s s.owner).writer (ap (λ o. (own s o).owner) e ∙ e))

  gets_closed :
      (s : Logger) (k : ℕ)
      → Inv file n elements s
      → 26 * length elements + 10 < progress s + k
      → (run file s (rounds k)).owner ≡ closed
  unfolding run
  gets_closed s zero v h = absurd (omega (arith, progress-le file n elements s v))
  gets_closed s (suc k) v h = elim (round file n elements s v) [
    | inl over ↦ closed_run s (suc k) over
    | inr on ↦
        gets_closed (step file (step file s true) false) k
          (logger_step-Inv file n elements (step file s true) false
            (logger_step-Inv file n elements s true v))
          (omega arith)
  ]

-- With the two threads scheduled in turn for long enough, every call of `log` returns, although the
-- queue may be full on the way, so does the destructor, and the file holds the text of every message.
pub closes :
    (file : Ostream) (n : ℕ) (calls : List (Text × List Value)) (elements : List LogElement)
    (s : Logger) (k : ℕ)
    → WritesChars file
    → log_all calls ≡ done elements
    → create true n elements ≡ done (some s)
    → n < 2 ^ 64
    → 26 * length elements + 10 < k
    → ((run file s (rounds k)).owner ≡ closed)
      × (t : Text) × ExpandsAll file calls t
      × ((run file s (rounds k)).file ≡ t)
closes file n calls elements s k chars queued made small enough =
    let over =
      gets_closed file n elements s k (create-Inv file n elements s made small) (omega arith) in
    let r : Reached file n calls (run file s (rounds k)) = record {
      elements = elements;
      first = s;
      schedule = rounds k;
      queued = queued;
      made = made;
      small = small;
      ran = refl;
    } in
    let (t, is, whole, left) = closed_file chars r over in (over, t, is, whole)
