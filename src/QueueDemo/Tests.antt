-- ===== src/QueueDemo/Tests.antt =====
-- The queue demonstration on concrete schedules.
use lowlatency_cpp.Base.{rounds, ℕ, ◌≡◌, refl, Bool, true, [], ◌∷◌, arith}
use lowlatency_cpp.ThreadUtils.{finished}
use lowlatency_cpp.QueueDemo.{start, run, orders_from, m_ended}
use lowlatency_cpp.QueueDemo.Ends.{ended_lem}
use lowlatency_cpp.QueueDemo.Progress.{ends}

abbrev any_core : ℕ → Bool
any_core core_id = true

ends_soon : (run any_core 2 (start 10 2) (rounds 40)).main ≡ m_ended
unfolding run start
ends_soon = refl

reads_all : (run any_core 2 (start 10 2) (rounds 40)).queue.consumed ≡ orders_from 0 2
unfolding run start
reads_all = refl

-- A queue with room for a single order.
prints_all : (run any_core 2 (start 1 2) (rounds 40)).printed ≡ orders_from 0 2
unfolding run start
prints_all = refl

ended_lem_example :
    let s = run any_core 2 (start 10 2) (rounds 40) in
    (s.queue.consumed ≡ orders_from 0 2)
    × (s.printed ≡ orders_from 0 2)
    × (s.queue.queue.num_elements ≡ 0)
    × (s.thread.worker ≡ finished)
ended_lem_example = ended_lem any_core 2 10 (rounds 40) (omega arith) (omega arith) ends_soon

-- The program's own numbers.
ends_example :
    let s = run any_core 5 (run any_core 5 (start 10 5) (true ∷ true ∷ [])) (rounds 81) in
    (s.main ≡ m_ended) × (s.queue.consumed ≡ orders_from 0 5) × (s.printed ≡ orders_from 0 5)
ends_example = ends any_core 5 10 (true ∷ true ∷ []) 81 (omega arith) (omega arith) (omega arith)
