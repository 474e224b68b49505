-- ===== src/Logger/Threads/Progress.antt =====
-- Scheduled in turn, the two threads of a logger get on in every round.
use lowlatency_cpp.Base.{
  ℕ, ◌+◌, ◌*◌, ◌≤◌, ◌<◌, ◌≡◌, ◌≢◌, ◌⊎◌, inl, inr, refl, sym, ap, ◌∙◌, subst, Bool, true, false,
  ◌&&◌, List, length, ◌==◌, arith, Bool-cases, length-append,
}
use lowlatency_cpp.LfQueue.{size}
use lowlatency_cpp.LfQueue.Spsc.Progress.{made, made-le}
use lowlatency_cpp.LfQueue.Spsc.Client.{step-producer, step-consumer}
use lowlatency_cpp.Logger.{LogElement, Ostream}
use lowlatency_cpp.Logger.Threads.{
  Owner, logging, waiting, stopping, joining, closed, Writer, at_running, draining, returned,
  Logger, is_busy, is_waiting, has_returned, own, write_step, step,
}
use lowlatency_cpp.Logger.Threads.Steps.{running_at, Inv, logger_step-Inv}

-- How far a thread has come.
abbrev owner_at : Owner → ℕ
owner_at logging = 0
owner_at waiting = 1
owner_at stopping = 2
owner_at joining = 3
owner_at closed = 4

-- Before `running_` is cleared the background thread makes for the queue, and then for the exit.
abbrev writer_at : Bool → Writer → ℕ
writer_at true draining = 1
writer_at true w = 0
writer_at false draining = 0
writer_at false at_running = 1
writer_at false returned = 2

-- Each round makes this grow.
pub progress : Logger → ℕ
progress s = 2 * made s.channel + 2 * owner_at s.owner + writer_at s.running s.writer

writer_at-le : (b : Bool) (w : Writer) → writer_at b w ≤ 2
writer_at-le true at_running = omega arith
writer_at-le true draining = omega arith
writer_at-le true returned = omega arith
writer_at-le false at_running = omega arith
writer_at-le false draining = omega arith
writer_at-le false returned = omega arith

module _ (file : Ostream) (n : ℕ) (elements : List LogElement) where
  -- Why the owner does not move.
  abbrev Blocked : Logger → Type 0
  Blocked s =
      (s.owner ≡ closed)
      ⊎ ((s.owner ≡ joining) × (s.writer ≢ returned))
      ⊎ ((s.running ≡ true) × (0 < s.channel.queue.num_elements))

  abbrev OwnerMoves : Logger → Logger → Type 0
  OwnerMoves s t =
      (progress s + 2 ≤ progress t)
      ⊎ ((progress s + 1 ≤ progress t) × (t.running ≡ false))
      ⊎ ((t ≡ s) × Blocked s)

  own-moves :
      (s : Logger) (o : Owner) → s.owner ≡ o → Inv file n elements s → OwnerMoves s (own s o)
  unfolding own progress size
  own-moves s logging e v = elim (Bool-cases (is_busy s.channel.producer s.channel.inputs)) [
    | inr over ↦ rw over (inl (ground (arith, e)))
    | inl busy ↦ elim (step-producer n s.channel v.channel) [
      | inl on ↦ rw busy (inl (omega (arith, on)))
      | inr (same, idle, inl none_left) ↦ absurd (ground (arith, idle, none_left, busy))
      | inr (same, idle, inr full) ↦ rw busy (
          inr (
            inr (
              rw same,
              inr (inr (v.flag ∙ ap running_at e, omega (arith, full, v.channel.nonempty))),
            )))
    ]
  ]
  own-moves s waiting e v = elim (Bool-cases (s.channel.queue.num_elements == 0)) [
    | inl empty ↦ rw empty (inl (ground (arith, e)))
    | inr more ↦
        rw more (inr (inr (refl, inr (inr (v.flag ∙ ap running_at e, ground (arith, more))))))
  ]
  own-moves s stopping e v =
      let on : s.running ≡ true = v.flag ∙ ap running_at e in inr (inl (stopped s.writer on, refl))
    where
      stopped :
          (w : Writer)
          → s.running ≡ true
          → 2 * made s.channel + 2 * owner_at s.owner + writer_at s.running w + 1
            ≤ 2 * made s.channel + 2 * 3 + writer_at false w
      stopped at_running on = rw (on, e) (omega arith)
      stopped draining on = rw (on, e) (omega arith)
      stopped returned on = rw (on, e) (omega arith)
  own-moves s joining e v = elim (Bool-cases (has_returned s.writer)) [
    | inl over ↦ rw over (inl (ground (arith, e)))
    | inr more ↦ rw more (inr (inr (refl, inr (inl (e, λ w. ground (arith, more, w))))))
  ]
  own-moves s closed e v = inr (inr (refl, inl e))

  -- A step of the background thread.
  record WriterMoves (s t : Logger) : Type 0 where
    at_most_back : progress s ≤ progress t + 1
    not_back : s.running ≡ false → progress s ≤ progress t
    to_exit : s.running ≡ false → s.writer ≢ returned → progress s < progress t
    to_queue : s.running ≡ true → 0 < s.channel.queue.num_elements → progress s < progress t

  write-moves :
      (s : Logger) (w : Writer)
      → s.writer ≡ w
      → Inv file n elements s
      → WriterMoves s (write_step file s w)
  unfolding write_step progress
  write-moves s at_running e v = elim (Bool-cases s.running) [
    | inl on ↦ rw on (record {
      at_most_back = ground (arith, e);
      not_back = λ off. cc;
      to_exit = λ off. cc;
      to_queue = λ r more. ground (arith, e);
    })
    | inr off ↦ rw off (record {
      at_most_back = ground (arith, e);
      not_back = λ r. ground (arith, e);
      to_exit = λ r l. ground (arith, e);
      to_queue = λ on. cc;
    })
  ]
  write-moves s draining e v =
      elim (Bool-cases (is_waiting s.channel.consumer && s.channel.queue.num_elements == 0)) [
        | inl empty ↦ rw empty (record {
          at_most_back = ground (arith, e);
          not_back = λ off. ground (arith, e, off);
          to_exit = λ off l. ground (arith, e, off);
          to_queue = λ on more. absurd (ground (arith, empty, more));
        })
        | inr more ↦ elim (step-consumer n s.channel v.channel) [
          | inr (idle, none_there) ↦ absurd (ground (arith, idle, none_there, more))
          | inl gets ↦ rw more (record {
            at_most_back = omega (arith, gets);
            not_back = λ off. omega (arith, gets);
            to_exit = λ off l. omega (arith, gets);
            to_queue = λ on l. omega (arith, gets);
          })
        ]
      ]
  write-moves s returned e v = record {
    at_most_back = omega arith;
    not_back = λ off. omega arith;
    to_exit = λ off l. absurd (l e);
    to_queue = λ on more. absurd (ground (arith, v.left, e, on));
  }

  -- In a round each thread makes a step. Unless the destructor has returned, the round gets on.
  pub round :
      (s : Logger)
      → Inv file n elements s
      → (s.owner ≡ closed) ⊎ (progress s < progress (step file (step file s true) false))
  unfolding step
  round s v =
      let t = own s s.owner in
      let u : Inv file n elements t = unfold step in logger_step-Inv file n elements s true v in
      let w = write-moves t t.writer refl u in
      elim (own-moves s s.owner refl v) [
        | inl on ↦ inr (omega (arith, w.at_most_back))
        | inr (inl (on, off)) ↦ inr (omega (arith, w.not_back off))
        | inr (inr (same, inl over)) ↦ inl over
        | inr (inr (same, inr (inl (at, l)))) ↦ inr (
            subst (λ x. progress s < progress (write_step file x x.writer)) (sym same)
              ((write-moves s s.writer refl v).to_exit (v.flag ∙ ap running_at at) l))
        | inr (inr (same, inr (inr (on, more)))) ↦ inr (
            subst (λ x. progress s < progress (write_step file x x.writer)) (sym same)
              ((write-moves s s.writer refl v).to_queue on more))
      ]

  owner_at-le : (o : Owner) → owner_at o ≤ 4
  owner_at-le logging = omega arith
  owner_at-le waiting = omega arith
  owner_at-le o = ground arith

  pub progress-le : (s : Logger) → Inv file n elements s → progress s ≤ 26 * length elements + 10
  unfolding progress
  progress-le s v = omega (
    arith,
    made-le n s.channel v.channel,
    ap length v.sent,
    length-append s.channel.produced s.channel.inputs,
    owner_at-le s.owner,
    writer_at-le s.running s.writer,
  )
