-- ===== src/LfQueue/Spsc/Steps.antt =====
-- Every step of either thread keeps the invariant.
use lowlatency_cpp.Base.{
  ℕ, suc, ◌+◌, ◌%◌, ◌≤◌, ◌<◌, ◌≡◌, ◌≢◌, refl, sym, ap, ◌∙◌, List, [], ◌∷◌, ◌++◌, length, take,
  get_elem?, set, Bool, true, false, arith, add_size-mod, mod-ne, length-append, length-set,
  take-append_le, get_elem?-set_self, get_elem?-set_ne, get_elem?-append_lt,
  get_elem?-append_length, take-suc, get_elem?-exists, some,
}
use native.Mathlib.Decide.{ℕ_discrete}
use native.Mathlib.Nat.{le_refl, mod-lt}
use lowlatency_cpp.LfQueue.Spsc.{
  Producer, p_idle, p_checked, p_slot, p_wrote, p_loaded, p_stored, Consumer, c_idle, c_checked,
  c_slot, c_used, c_asserted, c_loaded, c_stored, c_failed, System, produce, consume, step,
}
use lowlatency_cpp.LfQueue.Spsc.Invariant.{Inv, borrowed, used}

used-le-borrowed : (c : Consumer) → used c ≤ borrowed c
used-le-borrowed c_idle = omega arith
used-le-borrowed c = ground arith

module _ {ℓ} {T : Type ℓ} where
  -- The write goes to a slot that holds no unread value.
  module _ (n : ℕ) (s : System T) (w : ℕ) (x : T) (vs : List T) (e : s.producer ≡ p_slot w)
      (v : Inv n s) where
    here : w ≡ s.published % n
    here = ground (arith, v.holds)

    len : length s.produced ≡ s.published
    len = ground (arith, v.wrote)

    space : s.queue.num_elements + 1 ≤ n
    space = ground (arith, v.room)

    write-slots :
        (k : ℕ)
        → s.released ≤ k
        → k < length (s.produced ++ x ∷ [])
        → get_elem? (set s.queue.store w x) (k % n) ≡ get_elem? (s.produced ++ x ∷ []) k
    write-slots k lo hi = elim (ℕ_discrete k (length s.produced)) [
      | yes last ↦
          rw (last, get_elem?-append_length s.produced x, len, ← here)
            (get_elem?-set_self s.queue.store w x
              (omega (arith, here, v.sized, mod-lt s.published v.nonempty)))
      | no before ↦
          let lt : k < length s.produced = omega (arith, length-append s.produced (x ∷ [])) in
          let apart : w ≢ k % n = λ q.
            mod-ne n k s.published (omega (arith, len)) (omega (arith, space, v.counted))
              (sym q ∙ here) in
          get_elem?-set_ne s.queue.store w (k % n) x apart
          ∙ v.slots k lo lt
          ∙ sym (get_elem?-append_lt s.produced (x ∷ []) k lt)
    ]

    write-in_order : s.consumed ≡ take (length s.consumed) (s.produced ++ x ∷ [])
    write-in_order =
        v.in_order
        ∙ sym (
            take-append_le (length s.consumed) s.produced (x ∷ [])
              (omega (arith, v.read, v.wrote, v.counted, v.available, used-le-borrowed s.consumer)))

    write-Inv : Inv n (record s {
      queue = record s.queue { store = set s.queue.store w x };
      producer = p_wrote;
      inputs = vs;
      produced = s.produced ++ x ∷ [];
    })
    write-Inv = record {
      nonempty = v.nonempty;
      small = v.small;
      sized = length-set s.queue.store w x ∙ v.sized;
      counted = v.counted;
      room = ground (arith, v.room);
      available = v.available;
      write_at = ground (arith, v.write_at);
      read_at = v.read_at;
      wrote = omega (arith, len, length-append s.produced (x ∷ []));
      read = v.read;
      holds = tt;
      reads = v.reads;
      supplied = omega arith;
      slots = write-slots;
      in_order = write-in_order;
    }

  pub produce-Inv :
      (n : ℕ) (s : System T) (p : Producer) (vs : List T)
      → s.producer ≡ p
      → s.inputs ≡ vs
      → Inv n s
      → Inv n (produce s p vs)
  unfolding produce
  produce-Inv n s p_idle [] e f v = v
  produce-Inv n s p_idle (x ∷ vs) e f v = ground arith
  produce-Inv n s p_checked vs e f v = ground (arith, v.write_at)
  produce-Inv n s (p_slot w) [] e f v = v
  produce-Inv n s (p_slot w) (x ∷ vs) e f v = write-Inv n s w x vs e v
  produce-Inv n s p_wrote vs e f v = ground arith
  produce-Inv n s (p_loaded i) vs e f v = ground (arith, add_size-mod n s.published)
  produce-Inv n s p_stored vs e f v = ground arith

  module _ (n : ℕ) (s : System T) (r : ℕ) (e : s.consumer ≡ c_slot r) (v : Inv n s) where
    holding : r ≡ s.released % n
    holding = ground (arith, v.reads)

    unread : s.released < length s.produced
    unread = ground (arith, v.available, v.wrote, v.counted)

    so_far : length s.consumed ≡ s.released
    so_far = ground (arith, v.read)

    there :
        (a : T) × (get_elem? s.produced s.released ≡ some a) × (get_elem? s.queue.store r ≡ some a)
    there =
        let (a, at) = get_elem?-exists s.produced s.released unread in
        (a, at, rw holding (v.slots s.released (le_refl s.released) unread ∙ at))

    read-Inv :
        (a : T)
        → get_elem? s.produced s.released ≡ some a
        → Inv n (record s { consumer = c_used; consumed = s.consumed ++ a ∷ [] })
    read-Inv a at = record {
      nonempty = v.nonempty;
      small = v.small;
      sized = v.sized;
      counted = v.counted;
      room = v.room;
      available = ground (arith, v.available);
      write_at = v.write_at;
      read_at = ground (arith, v.read_at);
      wrote = v.wrote;
      read = ground (arith, v.read, length-append s.consumed (a ∷ []));
      holds = v.holds;
      reads = tt;
      supplied = v.supplied;
      slots = v.slots;
      in_order =
          ap (λ (l : List T). l ++ a ∷ []) (v.in_order ∙ ap (λ (m : ℕ). take m s.produced) so_far)
          ∙ sym (take-suc s.produced s.released a at)
          ∙ ap (λ (m : ℕ). take m s.produced) {x = suc s.released}
              (omega (arith, so_far, length-append s.consumed (a ∷ [])));
    }

  consume-Inv :
      (n : ℕ) (s : System T) (c : Consumer) → s.consumer ≡ c → Inv n s → Inv n (consume s c)
  unfolding consume
  consume-Inv n s c_idle e v = ground arith
  consume-Inv n s c_checked e v = ground (arith, v.read_at)
  consume-Inv n s (c_slot r) e v =
      let (a, at, stored) = there n s r e v in rw stored (read-Inv n s r e v a at)
  consume-Inv n s c_used e v = ground arith
  consume-Inv n s c_asserted e v = ground arith
  consume-Inv n s (c_loaded i) e v = ground (arith, add_size-mod n s.released)
  consume-Inv n s c_stored e v = record {
    nonempty = v.nonempty;
    small = v.small;
    sized = v.sized;
    counted = ground (arith, v.counted, v.available, v.room);
    room = ground (arith, v.available, v.room);
    available = omega arith;
    write_at = v.write_at;
    read_at = ground (arith, v.read_at);
    wrote = v.wrote;
    read = ground (arith, v.read);
    holds = v.holds;
    reads = tt;
    supplied = v.supplied;
    slots = λ k lo hi. v.slots k (omega arith) hi;
    in_order = v.in_order;
  }
  consume-Inv n s c_failed e v = v

  -- A step of either thread keeps the invariant.
  pub step-Inv : (n : ℕ) (s : System T) (t : Bool) → Inv n s → Inv n (step s t)
  unfolding step
  step-Inv n s true v = produce-Inv n s s.producer s.inputs refl refl v
  step-Inv n s false v = consume-Inv n s s.consumer refl v

  -- The slot that the consumer holds can be read.
  pub stored :
      (n : ℕ) (s : System T) (r : ℕ)
      → s.consumer ≡ c_slot r
      → Inv n s
      → (a : T) × (get_elem? s.queue.store r ≡ some a)
  stored n s r e v = let (a, at, here) = there n s r e v in (a, here)
