-- ===== src/ThreadUtils/Tests.antt =====
-- Concrete starts of a thread, and the theorems at inputs that meet their hypotheses.
use lowlatency_cpp.Base.{
  rounds, ℕ, ◌≡◌, ◌≢◌, ◌⊎◌, inr, refl, Bool, true, false, some, none, [], ◌∷◌, arith, ltb,
  if◌then◌else◌,
}
use lowlatency_cpp.ThreadUtils.{
  set_thread_core, in_task, finished, gave_up, dangling, returned, thrown, start, run,
}
use lowlatency_cpp.ThreadUtils.Handshake.{may_start, no_dangling, left_lem}
use lowlatency_cpp.ThreadUtils.Starts.{starts}

-- A machine with four cores.
abbrev four_cores : ℕ → Bool
four_cores core_id = ltb core_id 4

-- The core number of the demonstration program's failing call.
out_of_range : set_thread_core four_cores (some 1024) ≡ false
unfolding set_thread_core
out_of_range = refl

no_dangling_example : (run four_cores (start (some 2)) (true ∷ false ∷ [])).worker ≢ dangling
no_dangling_example = no_dangling four_cores (some 2) (true ∷ false ∷ [])

good_start : (run four_cores (start (some 2)) (rounds 6)).creator ≡ returned
unfolding run start
good_start = refl

bad_start : (run four_cores (start (some 9)) (rounds 6)).creator ≡ thrown
unfolding run start
bad_start = refl

left_lem_example :
    let s = run four_cores (start (some 9)) (rounds 6) in
    ((s.creator ≡ returned)
      × (may_start four_cores (some 9) ≡ true)
      × ((s.worker ≡ in_task) ⊎ (s.worker ≡ finished)))
    ⊎ ((s.creator ≡ thrown) × (may_start four_cores (some 9) ≡ false) × (s.worker ≡ gave_up))
left_lem_example = left_lem four_cores (some 9) (rounds 6) (inr bad_start)

starts_example :
    (run four_cores (run four_cores (start none) (true ∷ true ∷ [])) (rounds 7)).creator
    ≡ (if may_start four_cores none then returned else thrown)
starts_example = starts four_cores none (true ∷ true ∷ []) 7 (omega arith)
