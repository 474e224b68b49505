-- ===== src/ThreadDemo/Tests.antt =====
-- The thread demonstration on concrete machines and schedules.
use lowlatency_cpp.Base.{
  ℕ, zero, suc, ◌≡◌, ◌⊎◌, refl, Bool, true, false, Option, none, some, List, [], ◌∷◌, ltb, arith,
}
use lowlatency_cpp.ThreadUtils.{set_thread_core}
use lowlatency_cpp.ThreadDemo.Rounds.{fair}
use lowlatency_cpp.ThreadDemo.Progress.{main_ends}
use lowlatency_cpp.ThreadDemo.{Which, pinned, normal, invalid, ended, terminated, start, run}

abbrev four_cores : ℕ → Bool
four_cores core_id = ltb core_id 4

in_turn : ℕ → List (Option Which)
in_turn zero = []
in_turn (suc k) = none ∷ some normal ∷ some pinned ∷ some invalid ∷ in_turn k

ends_well : (run four_cores (start (some 2)) (in_turn 20)).main ≡ ended 0
unfolding run start in_turn
ends_well = refl

prints_two : (run four_cores (start (some 2)) (in_turn 20)).printed ≡ 10 ∷ 20 ∷ []
unfolding run start in_turn
prints_two = refl

-- The process may run on a CPU that it may not pin a thread to.
not_allowed : (run (λ core_id. false) (start (some 2)) (in_turn 20)).main ≡ terminated
unfolding run start in_turn
not_allowed = refl

main_ends_example :
    let s = run four_cores (run four_cores (start (some 2)) (none ∷ none ∷ [])) (fair 30) in
    ((set_thread_core four_cores (some 2) ≡ true)
      × (s.main ≡ ended 0)
      × ((s.printed ≡ 10 ∷ 20 ∷ []) ⊎ (s.printed ≡ 20 ∷ 10 ∷ []))
      × (s.was_caught ≡ true))
    ⊎ ((set_thread_core four_cores (some 2) ≡ false) × (s.main ≡ terminated))
main_ends_example = main_ends four_cores 2 (none ∷ none ∷ []) 30 (omega arith)
