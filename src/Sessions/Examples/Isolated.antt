-- ===== src/Sessions/Examples/Isolated.antt =====
-- The theorems about histories of calls on a session manager, as one session sees them, at two histories.
use session_affinity_engine.Base.{◌≡◌, refl, true, none, List, [], ◌∷◌}
use session_affinity_engine.Text.{Bytes, codes}
use session_affinity_engine.FiveTuple.{FiveTuple, to_key}
use session_affinity_engine.Sessions.{new, route_request}
use session_affinity_engine.Sessions.Routing.{lookup}
use session_affinity_engine.Sessions.History.{Op, route, block, cleanup, run}
use session_affinity_engine.Sessions.Cells.{answer, cell_answer}
use session_affinity_engine.Sessions.Isolation.{run_cell, run-new-cell}
use session_affinity_engine.Sessions.Interference.{concerning, sessions_isolated}
use session_affinity_engine.Sessions.Examples.{program, two, client, noon}

abbrev neighbour : FiveTuple
neighbour = record client { src_ip = codes "10.0.0.9" }

-- The neighbour comes first, and is blocked.
abbrev shared : List Op
shared =
    route two neighbour none 1 2 noon
    ∷ route two client none 3 4 noon
    ∷ block (to_key neighbour) true
    ∷ cleanup (λ i. 5)
    ∷ []

abbrev alone : List Op
alone = route two client none 3 4 noon ∷ cleanup (λ i. 5) ∷ []

same_calls : concerning (to_key client) shared ≡ concerning (to_key client) alone
unfolding program concerning to_key
same_calls = refl

run-new-cell_example :
    ((key : Bytes) → lookup (run (new 300) shared) key ≡ run_cell 300 key shared none)
    × (answer (route_request (run (new 300) shared) two client none 7 8 noon)
        ≡ cell_answer 300 two client none 8 (run_cell 300 (to_key client) shared none))
run-new-cell_example =
    run-new-cell 300 shared two client none 7 8 noon (tt, (tt, (tt, ((λ i. refl), tt))))

sessions_isolated_example :
    answer (route_request (run (new 300) shared) two client none 7 8 noon)
    ≡ answer (route_request (run (new 300) alone) two client none 7 8 noon)
sessions_isolated_example =
    sessions_isolated 300 shared alone two client none 7 8 noon (tt, (tt, (tt, ((λ i. refl), tt))))
      (tt, ((λ i. refl), tt)) same_calls
