-- ===== src/Sessions/Isolation.antt =====
-- Any history of calls on a SessionManager as each of its sessions sees it.
use session_affinity_engine.Base.{
  ℕ, ◌≡◌, refl, ap, subst, ◌∙◌, Option, none, List, [], ◌∷◌, All, arith, if◌then◌else◌, Bool-cases,
  Option-cases, inl, inr,
}
use session_affinity_engine.Text.{Bytes, str_eq, str_eq→eq}
use session_affinity_engine.Dict.{find, HasUniqueKeys}
use session_affinity_engine.FiveTuple.{FiveTuple, to_key}
use session_affinity_engine.Ring.{ConsistentHashRing}
use session_affinity_engine.Sessions.{
  SessionManager, new, route_request, other_backend, force_reassign, block_session,
  set_session_expiry,
}
use session_affinity_engine.Sessions.Passes.{
  cleanup_expired, redistribute_entry, handle_server_down,
}
use session_affinity_engine.Sessions.Routing.{lookup}
use session_affinity_engine.Sessions.Frame.{route_request_frame}
use session_affinity_engine.Sessions.Audit.{IsAudited}
use session_affinity_engine.Sessions.History.{
  Op, route, reassign, block, set_expiry, server_down, cleanup, step, run, step-IsAudited,
}
use session_affinity_engine.Sessions.Cells.{
  Cell, routed_cell, cell_answer, answer, route_request-cell,
}
use session_affinity_engine.Sessions.Updates.{
  update, forced, swept, reassign-cell, block-cell, set_expiry-cell, server_down-cell, cleanup-cell,
}

-- What a call does to the session of `key`, as a machine of its own.
unfoldable pub cell_step : ℕ → Bytes → Op → Cell → Cell
cell_step default key (route ring ft assigned now later stamp) cell =
    if str_eq (to_key ft) key then routed_cell default ring ft now later stamp cell else cell
cell_step default key (reassign ring k now stamp) cell =
    if str_eq k key then update (forced ring k now stamp) cell else cell
cell_step default key (block k b) cell =
    if str_eq k key then update (λ entry. record entry { blocked = b }) cell else cell
cell_step default key (set_expiry k timeout) cell =
    if str_eq k key then update (λ entry. record entry { custom_timeout = timeout }) cell else cell
cell_step default key (server_down ring server clock wall) cell =
    update (λ entry. redistribute_entry default ring server key entry (clock 0) (clock 0) (wall 0))
      cell
cell_step default key (cleanup clock) cell = swept default (clock 0) cell

unfoldable pub run_cell : ℕ → Bytes → List Op → Cell → Cell
run_cell default key [] cell = cell
run_cell default key (op ∷ ops) cell = run_cell default key ops (cell_step default key op cell)

-- A pass through the table during which the clocks stand still.
abbrev pub IsInstant : Op → Type 0
IsInstant (server_down ring server clock wall) = (i : ℕ) → (clock i ≡ clock 0) × (wall i ≡ wall 0)
IsInstant (cleanup clock) = (i : ℕ) → clock i ≡ clock 0
IsInstant (route ring ft assigned now later stamp) = Unit {0}
IsInstant (reassign ring k now stamp) = Unit {0}
IsInstant (block k b) = Unit {0}
IsInstant (set_expiry k timeout) = Unit {0}

module _ (m : SessionManager) where
  route-cell :
      (ring : ConsistentHashRing) (ft : FiveTuple) (assigned : Option ℕ) (now later : ℕ)
      (stamp key : Bytes)
      → lookup (route_request m ring ft assigned now later stamp).0 key ≡ (
          if str_eq (to_key ft) key
          then routed_cell m.default_timeout_sec ring ft now later stamp (lookup m key)
          else lookup m key)
  route-cell ring ft assigned now later stamp key = elim (Bool-cases (str_eq (to_key ft) key)) [
    | inl same ↦ rw same (
        subst
          (λ k.
            lookup (route_request m ring ft assigned now later stamp).0 k
            ≡ routed_cell m.default_timeout_sec ring ft now later stamp (lookup m k))
          (str_eq→eq (to_key ft) key same)
          (route_request-cell m ring ft assigned now later stamp).0)
    | inr other ↦ rw other (route_request_frame m ring ft assigned now later stamp key other).0
  ]

  step-cell :
      (op : Op) (key : Bytes)
      → HasUniqueKeys m.sessions
      → IsInstant op
      → lookup (step m op) key ≡ cell_step m.default_timeout_sec key op (lookup m key)
  unfolding step cell_step
  step-cell (route ring ft assigned now later stamp) key u i =
      route-cell ring ft assigned now later stamp key
  step-cell (reassign ring k now stamp) key u i = reassign-cell m ring k key now stamp
  step-cell (block k b) key u i = block-cell m k key b
  step-cell (set_expiry k timeout) key u i = set_expiry-cell m k key timeout
  step-cell (server_down ring server clock wall) key u i =
      server_down-cell m ring server clock wall key i
  step-cell (cleanup clock) key u i = cleanup-cell m clock key u i

  step_timeout : (op : Op) → (step m op).default_timeout_sec ≡ m.default_timeout_sec
  unfolding step route_request force_reassign block_session set_session_expiry handle_server_down
      cleanup_expired
  step_timeout (route ring ft assigned now later stamp) = refl
  step_timeout (reassign ring k now stamp) = elim (Option-cases (find k m.sessions)) [
    | inl gone ↦ rw (gone, step, force_reassign) refl
    | inr (entry, here) ↦ elim (Option-cases (other_backend ring k entry.backend_id)) [
      | inl stuck ↦ rw (here, stuck, step, force_reassign) refl
      | inr (b, found) ↦ rw (here, found, step, force_reassign) refl
    ]
  ]
  step_timeout (block k b) = elim (Option-cases (find k m.sessions)) [
    | inl gone ↦ rw (gone, step, block_session) refl
    | inr (entry, here) ↦ rw (here, step, block_session) refl
  ]
  step_timeout (set_expiry k timeout) = elim (Option-cases (find k m.sessions)) [
    | inl gone ↦ rw (gone, step, set_session_expiry) refl
    | inr (entry, here) ↦ rw (here, step, set_session_expiry) refl
  ]
  step_timeout (server_down ring server clock wall) = refl
  step_timeout (cleanup clock) = refl

run_timeout :
    (m : SessionManager) (ops : List Op) → (run m ops).default_timeout_sec ≡ m.default_timeout_sec
unfolding run
run_timeout m [] = refl
run_timeout m (op ∷ ops) = run_timeout (step m op) ops ∙ step_timeout m op

new-IsAudited : (timeout : ℕ) → IsAudited (new timeout).sessions
unfolding find
new-IsAudited timeout = record { sound = λ k e here. absurd (ground arith); unique = tt }

run-cell :
    (m : SessionManager) (ops : List Op) (key : Bytes)
    → IsAudited m.sessions
    → All IsInstant ops
    → lookup (run m ops) key ≡ run_cell m.default_timeout_sec key ops (lookup m key)
unfolding run run_cell
run-cell m [] key a i = refl
run-cell m (op ∷ ops) key a i =
    run-cell (step m op) ops key (step-IsAudited m op a) i.1
    ∙ ap (λ d. run_cell d key ops (lookup (step m op) key)) (step_timeout m op)
    ∙ ap (run_cell m.default_timeout_sec key ops) (step-cell m op key a.unique i.0)

-- The session manager refines a family of independent one-session machines. After any history of calls on a
-- new manager, in which each pass through the whole table takes no time, every key's session is the state
-- of its own machine, and a request is answered from the state of the machine of its own tuple: the order
-- and the other entries of the table do not matter.
pub run-new-cell :
    (timeout : ℕ) (ops : List Op) (ring : ConsistentHashRing) (ft : FiveTuple) (assigned : Option ℕ)
    (now later : ℕ) (stamp : Bytes)
    → All IsInstant ops
    → ((key : Bytes) → lookup (run (new timeout) ops) key ≡ run_cell timeout key ops none)
      × (answer (route_request (run (new timeout) ops) ring ft assigned now later stamp)
          ≡ cell_answer timeout ring ft assigned later (run_cell timeout (to_key ft) ops none))
unfolding find
run-new-cell timeout ops ring ft assigned now later stamp instant =
    let m = run (new timeout) ops in
    let a = new-IsAudited timeout in
    let cell = λ (key : Bytes). run-cell (new timeout) ops key a instant in
    (
      cell,
      (route_request-cell m ring ft assigned now later stamp).1
          ∙ ap (λ d. cell_answer d ring ft assigned later (lookup m (to_key ft)))
              (run_timeout (new timeout) ops)
          ∙ ap (cell_answer timeout ring ft assigned later) (cell (to_key ft)),
    )
