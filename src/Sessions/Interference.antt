-- ===== src/Sessions/Interference.antt =====
-- What one client's calls on a SessionManager do to another's: nothing.
use session_affinity_engine.Base.{
  ℕ, ◌≡◌, refl, sym, ap, ◌∙◌, Bool, true, false, Option, none, List, [], ◌∷◌, All, arith,
  if◌then◌else◌, Bool-cases, inl, inr,
}
use session_affinity_engine.Text.{Bytes, str_eq}
use session_affinity_engine.FiveTuple.{FiveTuple, to_key}
use session_affinity_engine.Ring.{ConsistentHashRing}
use session_affinity_engine.Sessions.{new, route_request}
use session_affinity_engine.Sessions.History.{
  Op, route, reassign, block, set_expiry, server_down, cleanup, run,
}
use session_affinity_engine.Sessions.Cells.{Cell, cell_answer, answer}
use session_affinity_engine.Sessions.Isolation.{cell_step, run_cell, IsInstant, run-new-cell}

-- The calls that speak of a key: those for its tuple or its name, and the passes through the table.
pub concerns : Bytes → Op → Bool
concerns key (route ring ft assigned now later stamp) = str_eq (to_key ft) key
concerns key (reassign ring k now stamp) = str_eq k key
concerns key (block k b) = str_eq k key
concerns key (set_expiry k timeout) = str_eq k key
concerns key (server_down ring server clock wall) = true
concerns key (cleanup clock) = true

unfoldable pub concerning : Bytes → List Op → List Op
unfolding concerns
concerning key [] = []
concerning key (op ∷ ops) =
    let rest = concerning key ops in if concerns key op then op ∷ rest else rest

cell_step-other :
    (default : ℕ) (key : Bytes) (op : Op) (cell : Cell)
    → concerns key op ≡ false
    → cell_step default key op cell ≡ cell
unfolding cell_step concerns
cell_step-other default key (route ring ft assigned now later stamp) cell e = rw e refl
cell_step-other default key (reassign ring k now stamp) cell e = rw e refl
cell_step-other default key (block k b) cell e = rw e refl
cell_step-other default key (set_expiry k timeout) cell e = rw e refl
cell_step-other default key (server_down ring server clock wall) cell e = absurd (ground arith)
cell_step-other default key (cleanup clock) cell e = absurd (ground arith)

run_cell-concerning :
    (default : ℕ) (key : Bytes) (ops : List Op) (cell : Cell)
    → run_cell default key ops cell ≡ run_cell default key (concerning key ops) cell
unfolding run_cell concerning
run_cell-concerning default key [] cell = refl
run_cell-concerning default key (op ∷ ops) cell = elim (Bool-cases (concerns key op)) [
  | inl own ↦
      rw (own, concerning) (run_cell-concerning default key ops (cell_step default key op cell))
  | inr other ↦
      rw (other, concerning)
        (ap (run_cell default key ops) (cell_step-other default key op cell other)
          ∙ run_cell-concerning default key ops cell)
]

-- Sessions do not interfere. After two histories of calls on new managers with the same calls that speak of
-- a tuple's key, in which the passes through the table take no time, a request of the tuple gets the same
-- answer, whatever the other calls of the two were.
pub sessions_isolated :
    (timeout : ℕ) (ops others : List Op) (ring : ConsistentHashRing) (ft : FiveTuple)
    (assigned : Option ℕ) (now later : ℕ) (stamp : Bytes)
    → All IsInstant ops
    → All IsInstant others
    → concerning (to_key ft) ops ≡ concerning (to_key ft) others
    → answer (route_request (run (new timeout) ops) ring ft assigned now later stamp)
      ≡ answer (route_request (run (new timeout) others) ring ft assigned now later stamp)
sessions_isolated timeout ops others ring ft assigned now later stamp i j same =
    let key = to_key ft in
    (run-new-cell timeout ops ring ft assigned now later stamp i).1
    ∙ ap (cell_answer timeout ring ft assigned later) (
        run_cell-concerning timeout key ops none
        ∙ ap (λ l. run_cell timeout key l none) same
        ∙ sym (run_cell-concerning timeout key others none))
    ∙ sym (run-new-cell timeout others ring ft assigned now later stamp j).1
