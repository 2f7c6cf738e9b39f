-- ===== src/Sessions/Cells.antt =====
-- The session manager as a family of one-session machines: what a key's session is, and what a request is
-- answered, depends on that session alone and not on the rest of the table or on its order.
use session_affinity_engine.Base.{
  ℕ, ◌≡◌, refl, ◌∙◌, Option, none, some, arith, if◌then◌else◌, contains, Option-cases, inl, inr,
}
use session_affinity_engine.Text.{Bytes, str_eq_refl}
use session_affinity_engine.Dict.{Dict, find, erase, find-assign_self, find-erase}
use session_affinity_engine.FiveTuple.{
  FiveTuple, to_key, RequestStatus, success, reassigned, server_down, session_blocked,
}
use session_affinity_engine.Ring.{ConsistentHashRing, get_server}
use session_affinity_engine.Sessions.{
  SessionEntry, SessionManager, is_expired, moved, fresh_entry, failover_reason, create, fail_over,
  existing, route_table, route_request,
}
use session_affinity_engine.Sessions.Routing.{lookup}

-- The session of one key.
abbrev pub Cell : Type 0
Cell = Option SessionEntry

fresh_cell : ConsistentHashRing → FiveTuple → ℕ → Bytes → Cell
fresh_cell ring ft now stamp = elim (get_server ring (to_key ft)) [
  | none ↦ none
  | some backend ↦ some (fresh_entry ft backend now stamp)
]

failed_over : ConsistentHashRing → FiveTuple → SessionEntry → ℕ → Bytes → Cell
failed_over ring ft entry now stamp = elim (get_server ring (to_key ft)) [
  | none ↦ some entry
  | some backend ↦ some (moved entry backend now stamp (failover_reason entry.backend_id))
]

-- A request of the session's own tuple.
pub routed_cell : ℕ → ConsistentHashRing → FiveTuple → ℕ → ℕ → Bytes → Cell → Cell
unfolding fresh_cell failed_over
routed_cell default ring ft now later stamp none = fresh_cell ring ft now stamp
routed_cell default ring ft now later stamp (some entry) =
    if entry.blocked
    then some entry
    else if is_expired default entry later
    then fresh_cell ring ft now stamp
    else if contains ring.active_servers entry.backend_id
    then some (record entry { last_access = now })
    else failed_over ring ft entry now stamp

answer_by : ConsistentHashRing → FiveTuple → RequestStatus → Option ℕ → RequestStatus × Option ℕ
answer_by ring ft status assigned = elim (get_server ring (to_key ft)) [
  | none ↦ (server_down, assigned)
  | some backend ↦ (status, some backend)
]

-- What it is answered: the status, and the backend.
pub cell_answer :
    ℕ → ConsistentHashRing → FiveTuple → Option ℕ → ℕ → Cell → RequestStatus × Option ℕ
unfolding answer_by
cell_answer default ring ft assigned later none = answer_by ring ft success assigned
cell_answer default ring ft assigned later (some entry) =
    if entry.blocked
    then (session_blocked, assigned)
    else if is_expired default entry later
    then answer_by ring ft success assigned
    else if contains ring.active_servers entry.backend_id
    then (success, some entry.backend_id)
    else answer_by ring ft reassigned assigned

-- The status and the backend of a result.
abbrev pub answer {ℓ} : {A : Type ℓ} → A × RequestStatus × Option ℕ → RequestStatus × Option ℕ
answer r = (r.1, r.2)

module _ (ring : ConsistentHashRing) (ft : FiveTuple) (assigned : Option ℕ) (now : ℕ)
    (stamp : Bytes) where
  create-cell :
      (table : Dict SessionEntry)
      → find (to_key ft) table ≡ none
      → (find (to_key ft) (create table ring ft assigned now stamp).0
          ≡ fresh_cell ring ft now stamp)
        × (answer (create table ring ft assigned now stamp) ≡ answer_by ring ft success assigned)
  unfolding create fresh_cell answer_by
  create-cell table gone = elim (Option-cases (get_server ring (to_key ft))) [
    | inl e ↦ rw (e, create, fresh_cell, answer_by) (gone, refl)
    | inr (b, e) ↦
        rw (e, create, fresh_cell, answer_by)
          (find-assign_self (to_key ft) (fresh_entry ft b now stamp) table, refl)
  ]

  fail_over-cell :
      (table : Dict SessionEntry) (entry : SessionEntry)
      → find (to_key ft) table ≡ some entry
      → (find (to_key ft) (fail_over table ring (to_key ft) entry assigned now stamp).0
          ≡ failed_over ring ft entry now stamp)
        × (answer (fail_over table ring (to_key ft) entry assigned now stamp)
            ≡ answer_by ring ft reassigned assigned)
  unfolding fail_over failed_over answer_by
  fail_over-cell table entry here = elim (Option-cases (get_server ring (to_key ft))) [
    | inl e ↦ rw (e, fail_over, failed_over, answer_by) (here, refl)
    | inr (b, e) ↦
        rw (e, fail_over, failed_over, answer_by)
          (
            find-assign_self (to_key ft)
                (moved entry b now stamp (failover_reason entry.backend_id)) table,
            refl,
          )
  ]

  route_table-cell :
      (default later : ℕ) (table : Dict SessionEntry)
      → (find (to_key ft) (route_table default table ring ft assigned now later stamp).0
          ≡ routed_cell default ring ft now later stamp (find (to_key ft) table))
        × (answer (route_table default table ring ft assigned now later stamp)
            ≡ cell_answer default ring ft assigned later (find (to_key ft) table))
  unfolding route_table existing routed_cell cell_answer
  route_table-cell default later table = elim (Option-cases (find (to_key ft) table)) [
    | inl fresh ↦ rw (fresh, route_table, routed_cell, cell_answer) (create-cell table fresh)
    | inr (entry, here) ↦
        let gone : find (to_key ft) (erase (to_key ft) table) ≡ none =
          find-erase (to_key ft) (to_key ft) table ∙ rw (str_eq_refl (to_key ft)) refl in
        let cut = create-cell (erase (to_key ft) table) gone in
        let over = fail_over-cell table entry here in
        let kept = find-assign_self (to_key ft) (record entry { last_access = now }) table in
        rw (here, route_table, existing, routed_cell, cell_answer)
          (ground (arith, here, cut.0, over.0, kept), ground (arith, cut.1, over.1))
  ]

-- One request of a tuple, as its own session sees it.
pub route_request-cell :
    (m : SessionManager) (ring : ConsistentHashRing) (ft : FiveTuple) (assigned : Option ℕ)
    (now later : ℕ) (stamp : Bytes)
    → let r = route_request m ring ft assigned now later stamp in
      (lookup r.0 (to_key ft)
        ≡ routed_cell m.default_timeout_sec ring ft now later stamp (lookup m (to_key ft)))
      × (answer r ≡ cell_answer m.default_timeout_sec ring ft assigned later (lookup m (to_key ft)))
unfolding route_request
route_request-cell m ring ft assigned now later stamp =
    route_table-cell ring ft assigned now stamp m.default_timeout_sec later m.sessions
