-- ===== src/Logger/Threads/Steps.antt =====
-- Every step of the owner or of the background thread keeps the logger's invariant.
use lowlatency_cpp.Base.{
  ℕ, ◌≡◌, ◌⊎◌, inl, inr, refl, sym, ap, ◌∙◌, Bool, true, false, ◌&&◌, List, [], ◌∷◌, ◌++◌,
  get_elem?, Text, ◌==◌, arith, append-nil, Bool-cases, Option-cases,
}
use lowlatency_cpp.LfQueue.{LfQueue, size}
use lowlatency_cpp.LfQueue.Spsc
use lowlatency_cpp.LfQueue.Spsc.{System, Producer, p_idle, Consumer, c_idle, c_slot}
use lowlatency_cpp.LfQueue.Spsc.Invariant as Channel
use lowlatency_cpp.LfQueue.Spsc.Steps.{step-Inv}
use lowlatency_cpp.LfQueue.Spsc.Client.{
  taken, step-taken, step-keeps, step-reads_nothing, step-inputs, waits_on_empty,
}
use lowlatency_cpp.Logger.{LogElement, Ostream, write_element, write_all}
use lowlatency_cpp.Logger.Format.{write_all-append}
use lowlatency_cpp.Logger.Threads.{
  Owner, logging, waiting, stopping, joining, closed, Writer, at_running, draining, returned,
  Logger, is_busy, is_waiting, own, printed, write_step, step, run,
}

-- The owner has made all its calls.
abbrev pub Quiet : Owner → System LogElement → Type 0
Quiet logging c = Unit {0}
Quiet waiting c = (c.producer ≡ p_idle) × (c.inputs ≡ [])
Quiet o c = (c.producer ≡ p_idle) × (c.inputs ≡ []) × (c.queue.num_elements ≡ 0)

-- What `running_` is.
abbrev pub running_at : Owner → Bool
running_at joining = false
running_at closed = false
running_at o = true

abbrev pub Left : Writer → Bool → Type 0
Left returned running = running ≡ false
Left w running = Unit {0}

abbrev pub Joined : Owner → Writer → Type 0
Joined closed w = w ≡ returned
Joined o w = Unit {0}

pub record Inv (file : Ostream) (n : ℕ) (elements : List LogElement) (s : Logger) : Type 0 where
  pub channel : Channel.Inv n s.channel
  pub sent : s.channel.produced ++ s.channel.inputs ≡ elements
  pub output : s.file ≡ write_all file s.channel.consumed
  pub quiet : Quiet s.owner s.channel
  pub flag : s.running ≡ running_at s.owner
  pub left : Left s.writer s.running
  pub joined : Joined s.owner s.writer

idle_of_is_busy :
    (p : Producer) (es : List LogElement) → is_busy p es ≡ false → (p ≡ p_idle) × (es ≡ [])
idle_of_is_busy p_idle [] h = (refl, refl)
idle_of_is_busy p_idle (e ∷ es) h = cc
idle_of_is_busy p es h = absurd (ground arith)

module _ (file : Ostream) (n : ℕ) (elements : List LogElement) where
  own-Inv :
      (s : Logger) (o : Owner) → s.owner ≡ o → Inv file n elements s → Inv file n elements (own s o)
  unfolding own size
  own-Inv s logging e v = elim (Bool-cases (is_busy s.channel.producer s.channel.inputs)) [
    | inl busy ↦ rw busy (record {
      channel = step-Inv n s.channel true v.channel;
      sent = step-inputs s.channel true ∙ v.sent;
      output = v.output ∙ sym (ap (write_all file) (step-reads_nothing s.channel));
      quiet = ground (arith, e);
      flag = v.flag;
      left = v.left;
      joined = ground (arith, e);
    })
    | inr over ↦
        let (idle, none_left) = idle_of_is_busy s.channel.producer s.channel.inputs over in
        rw over (record {
          channel = v.channel;
          sent = v.sent;
          output = v.output;
          quiet = (idle, none_left);
          flag = ground (arith, e, v.flag);
          left = v.left;
          joined = tt;
        })
  ]
  own-Inv s waiting e v = ground (arith, e, v.quiet, v.flag)
  own-Inv s stopping e v = record {
    channel = v.channel;
    sent = v.sent;
    output = v.output;
    quiet = ground (arith, e, v.quiet);
    flag = refl;
    left = ground (arith, e, v.flag, v.left);
    joined = tt;
  }
  own-Inv s joining e v = ground (arith, e, v.quiet, v.flag)
  own-Inv s closed e v = v

  -- What the step writes is what it takes from the queue.
  printed-taken :
      (q : LfQueue LogElement) (c : Consumer) → printed file q c ≡ write_all file (taken q c)
  unfolding write_all
  printed-taken q (c_slot r) = elim (Option-cases (get_elem? q.store r)) [
    | inl none_there ↦ rw none_there
    | inr (e, there) ↦ rw there (sym (append-nil (write_element file e)))
  ]
  printed-taken q c_idle = refl
  printed-taken q c = refl

  step-output :
      (s : Logger)
      → Inv file n elements s
      → s.file ++ printed file s.channel.queue s.channel.consumer
        ≡ write_all file (Spsc.step s.channel false).consumed
  step-output s v =
      ap (λ (t : Text). t ++ printed file s.channel.queue s.channel.consumer) v.output
      ∙ ap (λ (t : Text). write_all file s.channel.consumed ++ t)
          (printed-taken s.channel.queue s.channel.consumer)
      ∙ sym (write_all-append file s.channel.consumed (taken s.channel.queue s.channel.consumer))
      ∙ sym (ap (write_all file) (step-taken s.channel))

  -- The background thread gets past an empty queue only while the owner may still push.
  still_open :
      (o : Owner) (c : System LogElement)
      → Quiet o c
      → Channel.Inv n c
      → (is_waiting c.consumer && c.queue.num_elements == 0) ≡ false
      → (o ≡ logging) ⊎ (o ≡ waiting)
  still_open logging c q v h = inl refl
  still_open waiting c q v h = inr refl
  still_open o c q v h = absurd (ground (arith, waits_on_empty n c v))

  Quiet-step :
      (o : Owner) (c : System LogElement)
      → (o ≡ logging) ⊎ (o ≡ waiting)
      → Quiet o c
      → Quiet o (Spsc.step c false)
  Quiet-step logging c why q = tt
  Quiet-step waiting c why q = ((step-keeps c).0 ∙ q.0, (step-keeps c).1 ∙ q.1)
  Quiet-step o c why q = absurd (ground arith)

  write_step-Inv :
      (s : Logger) (w : Writer)
      → s.writer ≡ w
      → Inv file n elements s
      → Inv file n elements (write_step file s w)
  unfolding write_step
  write_step-Inv s at_running e v = ground (arith, e, v.joined)
  write_step-Inv s returned e v = v
  write_step-Inv s draining e v =
      elim (Bool-cases (is_waiting s.channel.consumer && s.channel.queue.num_elements == 0)) [
        | inl empty ↦ rw empty (record {
          channel = v.channel;
          sent = v.sent;
          output = v.output;
          quiet = v.quiet;
          flag = v.flag;
          left = tt;
          joined = ground (arith, e, v.joined);
        })
        | inr more ↦ rw more (record {
          channel = step-Inv n s.channel false v.channel;
          sent = step-inputs s.channel false ∙ v.sent;
          output = step-output s v;
          quiet =
              Quiet-step s.owner s.channel (still_open s.owner s.channel v.quiet v.channel more)
                v.quiet;
          flag = v.flag;
          left = v.left;
          joined = v.joined;
        })
      ]

  -- A step of either thread keeps the invariant.
  pub logger_step-Inv :
      (s : Logger) (t : Bool) → Inv file n elements s → Inv file n elements (step file s t)
  unfolding step
  logger_step-Inv s true v = own-Inv s s.owner refl v
  logger_step-Inv s false v = write_step-Inv s s.writer refl v

  pub run-Inv :
      (s : Logger) (ts : List Bool) → Inv file n elements s → Inv file n elements (run file s ts)
  unfolding run
  run-Inv s [] v = v
  run-Inv s (t ∷ ts) v = run-Inv (step file s t) ts (logger_step-Inv s t v)
