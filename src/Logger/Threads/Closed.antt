-- ===== src/Logger/Threads/Closed.antt =====
-- What the file holds: always the beginning of the messages, and all of them after the destructor.
use lowlatency_cpp.Base.{
  ℕ, ◌<◌, ◌^◌, ◌≡◌, refl, sym, ap, ◌∙◌, subst, Bool, true, List, [], ◌∷◌, ◌++◌, length, drop, some,
  Text, done, >>=-eq-done, take-append-drop, append_assoc,
}
use lowlatency_cpp.LfQueue
use lowlatency_cpp.LfQueue.Spsc
use lowlatency_cpp.LfQueue.Spsc.{System, Producer, p_idle}
use lowlatency_cpp.LfQueue.Spsc.Safety.{start-Inv}
use lowlatency_cpp.LfQueue.Spsc.Client.{all_read_on_empty}
use lowlatency_cpp.Logger.{LogElement, Value, blank_element, log, log_all, emit, Ostream, write_all}
use lowlatency_cpp.Logger.Format.{log-Expands, emit-eq-done, write_all-append}
use lowlatency_cpp.Logger.Language.{WritesChars, Expands}
use lowlatency_cpp.Logger.Threads.{closed, returned, Logger, create, open_logger, run}
use lowlatency_cpp.Logger.Threads.Steps.{Quiet, Joined, Inv, run-Inv}

-- The text of a sequence of calls.
pub data ExpandsAll (file : Ostream) : List (Text × List Value) → Text → Type 0 where
  no_calls : ExpandsAll file [] []
  call :
      {s : Text} {vs : List Value} {t u : Text} {calls : List (Text × List Value)}
      → Expands file s vs t
      → ExpandsAll file calls u
      → ExpandsAll file ((s, vs) ∷ calls) (t ++ u)

log_all-ExpandsAll :
    (file : Ostream) (calls : List (Text × List Value)) (es : List LogElement)
    → WritesChars file
    → log_all calls ≡ done es
    → ExpandsAll file calls (write_all file es)
unfolding log_all write_all
log_all-ExpandsAll file [] [] chars h = no_calls
log_all-ExpandsAll file [] (e ∷ es) chars h = cc
log_all-ExpandsAll file ((s, vs) ∷ calls) es chars h =
    let (fs, e, g) = >>=-eq-done (log s vs) (λ fs. emit fs (log_all calls)) h in
    let (gs, e', same) = emit-eq-done fs (log_all calls) es g in
    subst (λ (t : Text). ExpandsAll file ((s, vs) ∷ calls) t)
      (sym (write_all-append file fs gs) ∙ ap (write_all file) same)
      (call ((log-Expands file chars s vs (write_all file fs)).1 (fs, e, refl))
        (log_all-ExpandsAll file calls gs chars e'))

-- A state that a run reaches from a new logger with `n` slots, where `calls` are the calls of `log`.
pub record Reached (file : Ostream) (n : ℕ) (calls : List (Text × List Value)) (s : Logger)
    : Type 0 where
  pub elements : List LogElement
  pub first : Logger
  pub schedule : List Bool
  pub queued : log_all calls ≡ done elements
  pub made : create true n elements ≡ done (some first)
  pub small : n < 2 ^ 64
  pub ran : run file first schedule ≡ s

open_logger-Inv :
    (file : Ostream) (n : ℕ) (elements : List LogElement) (q : LfQueue.LfQueue LogElement)
    → LfQueue.create n blank_element ≡ done q
    → n < 2 ^ 64
    → Inv file n elements (open_logger q elements)
unfolding write_all Spsc.start
open_logger-Inv file n elements q e small = record {
  channel = start-Inv n blank_element q elements e small;
  sent = refl;
  output = refl;
  quiet = tt;
  flag = refl;
  left = tt;
  joined = tt;
}

pub create-Inv :
    (file : Ostream) (n : ℕ) (elements : List LogElement) (s : Logger)
    → create true n elements ≡ done (some s)
    → n < 2 ^ 64
    → Inv file n elements s
unfolding create
create-Inv file n elements s e small =
    let (q, f, g) =
      >>=-eq-done (LfQueue.create n blank_element) (λ q. done (some (open_logger q elements))) e in
    subst (Inv file n elements) (cc) (open_logger-Inv file n elements q f small)

pub Reached-Inv :
    {file : Ostream} {n : ℕ} {calls : List (Text × List Value)} {s : Logger}
    → (r : Reached file n calls s) → Inv file n r.elements s
Reached-Inv {file} {n} r = subst (Inv file n r.elements) r.ran (
    run-Inv file n r.elements r.first r.schedule
      (create-Inv file n r.elements r.first r.made r.small))

-- When the owner is past the wait, every element has been written.
complete :
    (file : Ostream) (n : ℕ) (elements : List LogElement) (s : Logger)
    → Inv file n elements s
    → s.owner ≡ closed
    → (s.file ≡ write_all file elements) × (s.writer ≡ returned)
complete file n elements s v e =
    let over : Quiet closed s.channel = subst (λ o. Quiet o s.channel) e v.quiet in
    (
      v.output
          ∙ ap (write_all file)
              (all_read_on_empty n s.channel v.channel over.0 over.1 over.2 ∙ v.sent),
      subst (λ o. Joined o s.writer) e v.joined,
    )

-- What the file then holds, element by element.
pub closed_elements :
    {file : Ostream} {n : ℕ} {calls : List (Text × List Value)} {s : Logger}
    (r : Reached file n calls s)
    → s.owner ≡ closed
    → s.file ≡ write_all file r.elements
closed_elements {file = file} {n = n} {s = s} r e =
    (complete file n r.elements s (Reached-Inv r) e).0

-- However the threads interleave, when the destructor has returned the background thread has too, and
-- the file holds the text of every message, in order and complete. A byte is written as it is.
pub closed_file :
    {file : Ostream} {n : ℕ} {calls : List (Text × List Value)} {s : Logger}
    → WritesChars file
    → Reached file n calls s
    → s.owner ≡ closed
    → (t : Text) × ExpandsAll file calls t × (s.file ≡ t) × (s.writer ≡ returned)
closed_file {file = file} {n = n} {calls = calls} {s = s} chars r e =
    let (whole, left) = complete file n r.elements s (Reached-Inv r) e in
    (
      write_all file r.elements,
      log_all-ExpandsAll file calls r.elements chars r.queued,
      whole,
      left,
    )

-- At any time the file holds a beginning of that text, so no byte is written twice or out of order.
pub file_is_prefix :
    {file : Ostream} {n : ℕ} {calls : List (Text × List Value)} {s : Logger}
    → WritesChars file
    → Reached file n calls s
    → (t rest : Text) × ExpandsAll file calls t × (s.file ++ rest ≡ t)
file_is_prefix {file = file} {calls = calls} {s = s} chars r =
    let v = Reached-Inv r in
    let ahead = drop (length s.channel.consumed) s.channel.produced ++ s.channel.inputs in
    let whole : s.channel.consumed ++ ahead ≡ r.elements =
      sym (append_assoc s.channel.consumed _ s.channel.inputs)
      ∙ ap
          (λ (l : List LogElement).
            (l ++ drop (length s.channel.consumed) s.channel.produced) ++ s.channel.inputs)
          v.channel.in_order
      ∙ ap (λ (l : List LogElement). l ++ s.channel.inputs)
          (take-append-drop (length s.channel.consumed) s.channel.produced)
      ∙ v.sent in
    (
      write_all file r.elements,
      write_all file ahead,
      log_all-ExpandsAll file calls r.elements chars r.queued,
      ap (λ (t : Text). t ++ write_all file ahead) v.output
          ∙ sym (write_all-append file s.channel.consumed ahead)
          ∙ ap (write_all file) whole,
    )
