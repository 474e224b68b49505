-- ===== src/Logger/Format.antt =====
-- What `log` makes of a format and its arguments, against a description of the format language.
use lowlatency_cpp.Base.{
  ℕ, ◌≡◌, ◌≢◌, ◌↔◌, inl, inr, refl, sym, ap, ◌∙◌, subst, false, List, [], ◌∷◌, ◌++◌, Text, ◌==◌,
  Outcome, done, fault, arith, Bool-cases, ==→eq, ==→ne, append_assoc, append-nil,
}
use lowlatency_cpp.Logger.{
  char, LogElement, Value, number, c_string, std_string, push_c_string, push_value, percent, emit,
  push_char, at_end, on_value, log, Ostream, write_as, write_element, write_all,
}
use lowlatency_cpp.Logger.Language.{
  WritesChars, c_str, shown, starts_percent, Expands, ended, terminated, plain, doubled, hole,
}

log-end : (c : ℕ) (s : Text) (vs : List Value) → c ≡ 0 → log (c ∷ s) vs ≡ at_end vs
unfolding log
log-end c [] vs z = ground arith
log-end c (d ∷ s) vs z = ground arith

log-plain :
    (c : ℕ) (s : Text) (vs : List Value)
    → c ≢ 0
    → c ≢ percent
    → log (c ∷ s) vs ≡ push_char c (log s vs)
unfolding log
log-plain c [] vs z p = ground arith
log-plain c (d ∷ s) vs z p = ground arith

log-doubled :
    (c d : ℕ) (s : Text) (vs : List Value)
    → c ≡ percent
    → d ≡ percent
    → log (c ∷ d ∷ s) vs ≡ push_char percent (log s vs)
unfolding log
log-doubled c d s vs p q = ground arith

log-hole :
    (c : ℕ) (s : Text) (vs : List Value)
    → c ≡ percent
    → starts_percent s ≡ false
    → log (c ∷ s) vs ≡ on_value vs (λ us. log s us)
unfolding log starts_percent
log-hole c [] vs p q = ground arith
log-hole c (d ∷ s) vs p q = ground arith

-- Which branch is taken.
pub data Head : ℕ → Text → Type 0 where
  stop : {c : ℕ} {s : Text} → c ≡ 0 → Head c s
  other : {c : ℕ} {s : Text} → c ≢ 0 → c ≢ percent → Head c s
  two : {c d : ℕ} {s : Text} → c ≡ percent → d ≡ percent → Head c (d ∷ s)
  one : {c : ℕ} {s : Text} → c ≡ percent → starts_percent s ≡ false → Head c s

pub head : (c : ℕ) (s : Text) → Head c s
unfolding starts_percent
head c s = elim (Bool-cases (c == 0)) [
  | inl z ↦ stop (==→eq c 0 z)
  | inr nz ↦ elim (Bool-cases (c == percent)) [
    | inr np ↦ other (==→ne c 0 nz) (==→ne c percent np)
    | inl p ↦ after (==→eq c percent p) s
  ]
]
  where
    after : c ≡ percent → (r : Text) → Head c r
    after p [] = one p refl
    after p (d ∷ r) = elim (Bool-cases (d == percent)) [
      | inl q ↦ two p (==→eq d percent q)
      | inr nq ↦ one p nq
    ]

pub emit-eq-done :
    (es : List LogElement) (r : Outcome (List LogElement)) (fs : List LogElement)
    → emit es r ≡ done fs
    → (gs : List LogElement) × (r ≡ done gs) × (es ++ gs ≡ fs)
emit-eq-done es (done gs) fs h = (gs, refl, cc)
emit-eq-done es fault fs h = cc

module _ (file : Ostream) where
  pub write_all-append :
      (es fs : List LogElement) → write_all file (es ++ fs) ≡ write_all file es ++ write_all file fs
  unfolding write_all
  write_all-append [] fs = refl
  write_all-append (e ∷ es) fs =
      ap (λ (t : Text). write_element file e ++ t) (write_all-append es fs)
      ∙ sym (append_assoc (write_element file e) (write_all file es) (write_all file fs))

  module _ (chars : WritesChars file) where
    write_all-push_c_string : (s : Text) → write_all file (push_c_string s) ≡ c_str s
    unfolding write_all push_c_string c_str
    write_all-push_c_string [] = refl
    write_all-push_c_string (c ∷ s) = elim (Bool-cases (c == 0)) [
      | inl z ↦ rw z
      | inr nz ↦ rw (nz, chars c, write_all-push_c_string s)
    ]

    write_all-push_value : (v : Value) → write_all file (push_value v) ≡ shown file v
    unfolding write_all push_value shown
    write_all-push_value (number kind bits) = append-nil (write_as file kind bits)
    write_all-push_value (c_string s) = write_all-push_c_string s
    write_all-push_value (std_string s) = write_all-push_c_string s

    -- What is in the queue when `v` and then `gs` have been pushed.
    written :
        (v : Value) (gs es : List LogElement)
        → push_value v ++ gs ≡ es
        → shown file v ++ write_all file gs ≡ write_all file es
    written v gs es e =
        ap (λ (t : Text). t ++ write_all file gs) (sym (write_all-push_value v))
        ∙ sym (write_all-append (push_value v) gs)
        ∙ ap (write_all file) e

    written_char :
        (c : ℕ) (gs es : List LogElement)
        → push_value (number char c) ++ gs ≡ es
        → c ∷ write_all file gs ≡ write_all file es
    unfolding shown write_all
    written_char c gs es e =
        ap (λ (t : Text). t ++ write_all file gs) (sym (chars c)) ∙ written (number char c) gs es e

    abbrev Sound : Text → Type 0
    Sound s =
        (vs : List Value) (es : List LogElement)
        → log s vs ≡ done es
        → Expands file s vs (write_all file es)

    end-Expands :
        (c : ℕ) (s : Text) (vs : List Value) (es : List LogElement)
        → c ≡ 0
        → at_end vs ≡ done es
        → Expands file (c ∷ s) vs (write_all file es)
    unfolding write_all
    end-Expands c s [] [] z h = terminated z
    end-Expands c s [] (e ∷ es) z h = cc
    end-Expands c s (v ∷ vs) es z h = cc

    hole-Expands :
        (c : ℕ) (s : Text) (vs : List Value) (es : List LogElement)
        → c ≡ percent
        → starts_percent s ≡ false
        → Sound s
        → on_value vs (λ us. log s us) ≡ done es
        → Expands file (c ∷ s) vs (write_all file es)
    hole-Expands c s [] es p q sound h = cc
    hole-Expands c s (v ∷ vs) es p q sound h =
        let (gs, e, f) = emit-eq-done (push_value v) (log s vs) es h in
        subst (λ (t : Text). Expands file (c ∷ s) (v ∷ vs) t) (written v gs es f)
          (hole p q (sound vs gs e))

    -- One round of the loop, given the rest of the format, and what stands behind its first byte.
    cons-Sound :
        (c : ℕ) (s : Text)
        → Head c s
        → Sound s
        → ((d : ℕ) (r : Text) → s ≡ d ∷ r → Sound r)
        → Sound (c ∷ s)
    cons-Sound c s (stop z) rest later vs es h =
        end-Expands c s vs es z (sym (log-end c s vs z) ∙ h)
    cons-Sound c s (other nz np) rest later vs es h =
        let (gs, e, f) =
          emit-eq-done (push_value (number char c)) (log s vs) es
            (sym (log-plain c s vs nz np) ∙ h) in
        subst (λ (t : Text). Expands file (c ∷ s) vs t) (written_char c gs es f)
          (plain nz np (rest vs gs e))
    cons-Sound c _ (two {d = d} {s = r} p q) rest later vs es h =
        let (gs, e, f) =
          emit-eq-done (push_value (number char percent)) (log r vs) es
            (sym (log-doubled c d r vs p q) ∙ h) in
        subst (λ (t : Text). Expands file (c ∷ d ∷ r) vs t) (written_char percent gs es f)
          (doubled p q (later d r refl vs gs e))
    cons-Sound c s (one p q) rest later vs es h =
        hole-Expands c s vs es p q rest (sym (log-hole c s vs p q) ∙ h)

    nil-Sound : Sound []
    unfolding log write_all
    nil-Sound [] [] h = ended
    nil-Sound [] (e ∷ es) h = cc
    nil-Sound (v ∷ vs) es h = cc

    log-Sound : (s : Text) → Sound s
    log-Sound [] = nil-Sound
    log-Sound (c ∷ []) = cons-Sound c [] (head c []) nil-Sound (λ d r e. cc)
    log-Sound (c ∷ d ∷ s) =
        cons-Sound c (d ∷ s) (head c (d ∷ s)) (log-Sound (d ∷ s))
          (λ d' r e. subst Sound (ground (arith, e)) (log-Sound s))

    log_complete :
        {s : Text} {vs : List Value} {t : Text}
        → Expands file s vs t
        → (es : List LogElement) × (log s vs ≡ done es) × (write_all file es ≡ t)
    unfolding log write_all
    log_complete ended = ([], refl, refl)
    log_complete (terminated {c} {s} z) = ([], log-end c s [] z, refl)
    log_complete (plain {c} {s} {vs} {t} nz np x) =
        let (gs, e, f) = log_complete x in
        (
          push_value (number char c) ++ gs,
          log-plain c s vs nz np ∙ rw e,
          sym (written_char c gs (push_value (number char c) ++ gs) refl) ∙ ap (◌∷◌ c) f,
        )
    log_complete (doubled {c} {d} {s} {vs} {t} p q x) =
        let (gs, e, f) = log_complete x in
        (
          push_value (number char percent) ++ gs,
          log-doubled c d s vs p q ∙ rw e,
          sym (written_char percent gs (push_value (number char percent) ++ gs) refl)
              ∙ ap (◌∷◌ percent) f,
        )
    log_complete (hole {c} {s} {v} {vs} {t} p q x) =
        let (gs, e, f) = log_complete x in
        (
          push_value v ++ gs,
          log-hole c s (v ∷ vs) p q ∙ rw e,
          sym (written v gs (push_value v ++ gs) refl) ∙ ap (λ (r : Text). shown file v ++ r) f,
        )

    -- `log` queues elements that are written as a text exactly when the format with these arguments
    -- stands for that text, by the description of the format language; where it stands for nothing,
    -- an assertion fails.
    pub log-Expands :
        (s : Text) (vs : List Value) (t : Text)
        → Expands file s vs t
          ↔ ((es : List LogElement) × (log s vs ≡ done es) × (write_all file es ≡ t))
    log-Expands s vs t =
        (log_complete, λ x. subst (λ (r : Text). Expands file s vs r) x.2 (log-Sound s vs x.0 x.1))
