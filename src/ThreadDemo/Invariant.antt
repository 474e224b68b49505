-- ===== src/ThreadDemo/Invariant.antt =====
-- What holds between any two steps of the thread demonstration, src/thread_demo.cpp.
use lowlatency_cpp.Base.{
  ℕ, zero, suc, ◌≡◌, ◌≢◌, ◌⊎◌, refl, Bool, true, false, Option, none, some, List, [], ◌∷◌, arith,
}
use lowlatency_cpp.ThreadUtils as ThreadUtils
use lowlatency_cpp.ThreadUtils.{
  set_thread_core, cpu_setsize, Worker, in_task, finished, Creator, returned, thrown, Start,
  has_ended,
}
use lowlatency_cpp.ThreadUtils.Handshake as Handshake
use lowlatency_cpp.ThreadUtils.Handshake.{may_start}
use lowlatency_cpp.ThreadDemo.{
  pinned, normal, invalid, Main, starts, joins, ended, terminated, Demo, start,
}

abbrev pub is_finished : Worker → Bool
is_finished finished = true
is_finished w = false

abbrev pub has_finished : Option Start → Bool
has_finished none = false
has_finished (some t) = is_finished t.worker

abbrev pub creator_of : Option Start → Option Creator
creator_of none = none
creator_of (some t) = some t.creator

-- The ids printed, by which of the first two threads have ended.
abbrev pub Printed : Bool → Bool → List ℕ → Type 0
Printed false false ids = ids ≡ []
Printed true false ids = ids ≡ 10 ∷ []
Printed false true ids = ids ≡ 20 ∷ []
Printed true true ids = (ids ≡ 10 ∷ 20 ∷ []) ⊎ (ids ≡ 20 ∷ 10 ∷ [])

abbrev pub IsMade : Option Creator → Type 0
IsMade none = ⊥
IsMade (some c) = Unit {0}

-- What main knows of its calls of `createAndStartThread`, and of the ends of the first two threads.
abbrev pub Knows :
    Main → Option Creator → Option Creator → Option Creator → Bool → Bool → Bool → Type 0
Knows (starts pinned) p n i fp fn caught = IsMade p × (n ≡ none)
Knows (starts normal) p n i fp fn caught = (p ≡ some returned) × IsMade n
Knows (joins pinned) p n i fp fn caught = (p ≡ some returned) × (n ≡ some returned)
Knows (joins normal) p n i fp fn caught = (p ≡ some returned) × (n ≡ some returned) × (fp ≡ true)
Knows (starts invalid) p n i fp fn caught =
    (p ≡ some returned) × (fp ≡ true) × (fn ≡ true) × IsMade i
Knows (joins invalid) p n i fp fn caught = ⊥
Knows (ended zero) p n i fp fn caught =
    (p ≡ some returned) × (fp ≡ true) × (fn ≡ true) × (caught ≡ true)
Knows (ended (suc code)) p n i fp fn caught = ⊥
Knows terminated p n i fp fn caught = p ≡ some thrown

-- What main knows at a point.
abbrev pub KnowsAt : Main → Demo → Type 0
KnowsAt m s =
    Knows m (creator_of s.pinned_thread) (creator_of s.normal_thread) (creator_of s.invalid_thread)
      (has_finished s.pinned_thread) (has_finished s.normal_thread) s.was_caught

module _ (set_affinity : ℕ → Bool) where
  -- The thread, once it is made, keeps the handshake's invariant.
  abbrev pub IsSound : Option ℕ → Option Start → Type 0
  IsSound core_id none = Unit {0}
  IsSound core_id (some t) = Handshake.Inv set_affinity core_id t

  pub record Inv (current_cpu : ℕ) (s : Demo) : Type 0 where
    pub pinned_sound : IsSound (some current_cpu) s.pinned_thread
    pub normal_sound : IsSound none s.normal_thread
    pub invalid_sound : IsSound (some cpu_setsize) s.invalid_thread
    pub knows : KnowsAt s.main s
    pub shown : Printed (has_finished s.pinned_thread) (has_finished s.normal_thread) s.printed

  module _ (core_id : Option ℕ) (t : Start) (v : Handshake.Inv set_affinity core_id t) where
    pub returned-may_start : t.creator ≡ returned → may_start set_affinity core_id ≡ true
    returned-may_start e = ground (arith, e, v.knows, v.saw)

    pub thrown-may_start : t.creator ≡ thrown → may_start set_affinity core_id ≡ false
    thrown-may_start e = ground (arith, e, v.knows, v.saw)

    pub ended-finished :
        may_start set_affinity core_id ≡ true
        → has_ended t.worker ≡ true
        → is_finished t.worker ≡ true
    ended-finished may over = ground (arith, may, over, v.knows)

    pub idle_if_not :
        may_start set_affinity core_id ≡ false
        → (t.worker ≢ in_task) × (is_finished t.worker ≡ false)
    idle_if_not may = (λ e. ground (arith, e, may, v.knows), ground (arith, may, v.knows))

  module _ (current_cpu : ℕ) where
    pub start-Inv : Inv current_cpu (start (some current_cpu))
    unfolding start ThreadUtils.start
    start-Inv = record {
      pinned_sound = Handshake.start-Inv set_affinity (some current_cpu);
      normal_sound = record {};
      invalid_sound = record {};
      knows = (record {}, refl);
      shown = refl;
    }
