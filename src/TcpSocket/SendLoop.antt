-- ===== src/TcpSocket/SendLoop.antt =====
-- The loop over `::send` in `sendAndRecv` (src/tcp_socket.cpp): what it has sent when it ends.
use mathlib.Core.Option
use native.Mathlib.Nat.{le_refl}
use lowlatency_cpp.Base.{
  ℕ, zero, suc, ◌+◌, ◌-◌, ◌≤◌, ◌<◌, ◌≡◌, ◌⊎◌, inl, inr, refl, sym, ap, ap₂, ◌∙◌, List, [], ◌∷◌,
  ◌++◌, length, take, drop, arith, some, true, false, not, append_assoc, length-take, length-drop,
  take_add, drop_add, ltb, Bool-cases, ltb→lt,
}
use lowlatency_cpp.Kernel.{Errno, would_block}
use lowlatency_cpp.TcpSocket.{SendReply, sent, send_error, Flushed, prepend, after_send, send_loop}

-- `::send` never takes more bytes than it is offered.
abbrev pub TakesOffered : (ℕ → List ℕ → SendReply) → Type 0
TakesOffered kernel_send =
    (total : ℕ) (offered : List ℕ) (n : ℕ) → kernel_send total offered ≡ sent n → n ≤ length offered

-- The bytes of the queue `buffer[0 .. limit)` from `total` on.
abbrev pub rest : List ℕ → ℕ → ℕ → List ℕ
rest buffer limit total = take (limit - total) (drop total buffer)

-- Why the loop stopped: all is sent, the kernel took nothing, or it failed.
abbrev pub Stopped : (ℕ → List ℕ → SendReply) → List ℕ → ℕ → Flushed → Type 0
Stopped kernel_send buffer limit r =
    ((r.total_sent ≡ limit) × (r.broken ≡ false))
    ⊎ ((kernel_send r.total_sent (rest buffer limit r.total_sent) ≡ sent 0) × (r.broken ≡ false))
    ⊎ ((e : Errno) × (kernel_send r.total_sent (rest buffer limit r.total_sent) ≡ send_error e)
        × (r.broken ≡ not (would_block e)))

take-take : (n m : ℕ) (xs : List ℕ) → take n (take (n + m) xs) ≡ take n xs
take-take zero m xs = refl
take-take (suc n) m [] = let e : suc n + m ≡ suc (n + m) = omega arith in rw e
take-take (suc n) m (x ∷ xs) =
    let e : suc n + m ≡ suc (n + m) = omega arith in rw e (ap (◌∷◌ x) (take-take n m xs))

pub length-rest :
    (buffer : List ℕ) (limit total : ℕ)
    → limit ≤ length buffer
    → length (rest buffer limit total) ≡ limit - total
length-rest buffer limit total h =
    omega (arith, length-take (limit - total) (drop total buffer), length-drop total buffer)

rest-split :
    (buffer : List ℕ) (limit total n : ℕ)
    → total + n ≤ limit
    → take n (rest buffer limit total) ++ rest buffer limit (total + n) ≡ rest buffer limit total
rest-split buffer limit total n h =
    ap₂ ◌++◌
      (ap (λ (k : ℕ). take n (take k (drop total buffer))) parts
        ∙ take-take n (limit - (total + n)) (drop total buffer))
      (ap (take (limit - (total + n))) (sym (drop_add total n buffer)))
    ∙ sym (take_add n (limit - (total + n)) (drop total buffer))
    ∙ ap (λ (k : ℕ). take k (drop total buffer)) (sym parts)
  where
    parts : limit - total ≡ n + (limit - (total + n))
    parts = omega arith

module _ (kernel_send : ℕ → List ℕ → SendReply) (takes : TakesOffered kernel_send) (buffer : List ℕ)
    (limit : ℕ) (fits : limit ≤ length buffer) where
  -- What the loop has done when it stops, started at `total`.
  pub record Sends (total : ℕ) (r : Flushed) : Type 0 where
    pub forward : total ≤ r.total_sent
    pub within : r.total_sent ≤ limit
    pub stream : r.wire ++ rest buffer limit r.total_sent ≡ rest buffer limit total
    pub stopped : Stopped kernel_send buffer limit r

  abbrev pub Loops : ℕ → ℕ → Type 0
  Loops fuel total =
      (r : Flushed) × (send_loop kernel_send buffer limit fuel total ≡ some r) × Sends total r

  after_send-Sends :
      (fuel total : ℕ) (reply : SendReply)
      → total < limit
      → kernel_send total (rest buffer limit total) ≡ reply
      → ((n : ℕ) → total + suc n ≤ limit → Loops fuel (total + suc n))
      → (r : Flushed) × (after_send
            (send_loop kernel_send buffer limit fuel)
            total
            (rest buffer limit total)
            reply
          ≡ some r)
        × Sends total r
  after_send-Sends fuel total (send_error e) lt k more = (
    _,
    refl,
    record {
      forward = le_refl total;
      within = omega arith;
      stream = refl;
      stopped = inr (inr (e, k, refl));
    },
  )
  after_send-Sends fuel total (sent zero) lt k more = (
    _,
    refl,
    record {
      forward = le_refl total;
      within = omega arith;
      stream = refl;
      stopped = inr (inl (k, refl));
    },
  )
  after_send-Sends fuel total (sent (suc n)) lt k more =
      let hn : total + suc n ≤ limit = omega (
        arith,
        takes total (rest buffer limit total) (suc n) k,
        length-rest buffer limit total fits,
      ) in
      let (r, run, s) = more n hn in
      (
        prepend (take (suc n) (rest buffer limit total)) r,
        rw (run, Option.map),
        record {
          forward = omega (arith, s.forward);
          within = s.within;
          stream =
              append_assoc (take (suc n) (rest buffer limit total)) r.wire _
              ∙ ap (◌++◌ (take (suc n) (rest buffer limit total))) s.stream
              ∙ rest-split buffer limit total (suc n) hn;
          stopped = s.stopped;
        },
      )

  send_loop-more :
      (fuel total : ℕ)
      → ltb total limit ≡ true
      → send_loop kernel_send buffer limit (suc fuel) total
        ≡ after_send
            (send_loop kernel_send buffer limit fuel)
            total
            (rest buffer limit total)
            (kernel_send total (rest buffer limit total))
  unfolding send_loop
  send_loop-more fuel total more = rw more

  send_loop-all :
      (fuel total : ℕ)
      → ltb total limit ≡ false
      → send_loop kernel_send buffer limit (suc fuel) total
        ≡ some (record { total_sent = total; broken = false; wire = [] })
  unfolding send_loop
  send_loop-all fuel total all = rw all

  pub send_loop-Sends : (fuel total : ℕ) → total ≤ limit → limit - total < fuel → Loops fuel total
  send_loop-Sends zero total h f = elim f [ ]
  send_loop-Sends (suc fuel) total h f = elim (Bool-cases (ltb total limit)) [
    | inl more ↦
        let (r, run, s) =
          after_send-Sends fuel total (kernel_send total (rest buffer limit total))
            (ltb→lt total limit more) refl
            (λ n hn. send_loop-Sends fuel (total + suc n) hn (omega arith)) in
        (r, send_loop-more fuel total more ∙ run, s)
    | inr all ↦ (
      record { total_sent = total; broken = false; wire = [] },
      send_loop-all fuel total all,
      record {
        forward = le_refl total;
        within = h;
        stream = refl;
        stopped = inl (ground arith, refl);
      },
    )
  ]
