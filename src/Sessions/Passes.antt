-- ===== src/Sessions/Passes.antt =====
-- The methods of src/session_manager.cpp that go through the whole table. `clock` and
-- `wall` give the readings of the clocks: each round of a loop has readings of its own.
use session_affinity_engine.Base.{
  ℕ, ◌+◌, not, ◌&&◌, none, some, List, [], ◌∷◌, ◌++◌, ◌==◌, if◌then◌else◌,
}
use session_affinity_engine.Text.{Bytes, codes, em_dash}
use session_affinity_engine.Text.Decimal.{to_string}
use session_affinity_engine.Dict.{Dict}
use session_affinity_engine.Ring.{ConsistentHashRing, get_server}
use session_affinity_engine.Sessions.{SessionEntry, SessionManager, is_expired, moved}

module _ (default : ℕ) (clock : ℕ → ℕ) where
  unfoldable pub count_active : ℕ → Dict SessionEntry → ℕ
  count_active i [] = 0
  count_active i ((key, entry) ∷ table) =
      (if not (is_expired default entry (clock i)) then 1 else 0) + count_active (i + 1) table

  unfoldable pub list_active : ℕ → Dict SessionEntry → List (Bytes × ℕ)
  list_active i [] = []
  list_active i ((key, entry) ∷ table) =
      let rest = list_active (i + 1) table in
      if not (is_expired default entry (clock i)) then (key, entry.backend_id) ∷ rest else rest

  -- The table that is left, and the number of entries removed.
  unfoldable pub sweep : ℕ → Dict SessionEntry → Dict SessionEntry × ℕ
  sweep i [] = ([], 0)
  sweep i ((key, entry) ∷ table) =
      let (rest, removed) = sweep (i + 1) table in
      if is_expired default entry (clock i)
      then (rest, removed + 1)
      else ((key, entry) ∷ rest, removed)

unfoldable pub active_session_count : SessionManager → (ℕ → ℕ) → ℕ
active_session_count m clock = count_active m.default_timeout_sec clock 0 m.sessions

unfoldable pub get_all_sessions : SessionManager → (ℕ → ℕ) → List (Bytes × ℕ)
get_all_sessions m clock = list_active m.default_timeout_sec clock 0 m.sessions

unfoldable pub cleanup_expired : SessionManager → (ℕ → ℕ) → SessionManager × ℕ
cleanup_expired m clock =
    let (table, removed) = sweep m.default_timeout_sec clock 0 m.sessions in
    (record m { sessions = table }, removed)

pub down_reason : ℕ → Bytes
down_reason old =
    codes "Server "
    ++ (to_string old ++ (codes " went down " ++ (em_dash ++ codes " redistributed")))

module _ (default : ℕ) (ring : ConsistentHashRing) (server : ℕ) where
  -- One round of the loop: the expiry is tested at `checked`, and a session that moves is stamped
  -- with `now` and `stamp`.
  unfoldable pub redistribute_entry : Bytes → SessionEntry → ℕ → ℕ → Bytes → SessionEntry
  unfolding down_reason
  redistribute_entry key entry checked now stamp =
      if entry.backend_id == server && not (is_expired default entry checked)
      then elim (get_server ring key) [
        | none ↦ entry
        | some backend ↦
            if not (backend == server)
            then moved entry backend now stamp (down_reason entry.backend_id)
            else entry
      ]
      else entry

  unfoldable pub redistribute : (ℕ → ℕ) → (ℕ → Bytes) → ℕ → Dict SessionEntry → Dict SessionEntry
  redistribute clock wall i [] = []
  redistribute clock wall i ((key, entry) ∷ table) =
      (key, redistribute_entry key entry (clock i) (clock (i + 1)) (wall i))
      ∷ redistribute clock wall (i + 2) table

unfoldable pub handle_server_down :
    SessionManager → ConsistentHashRing → ℕ → (ℕ → ℕ) → (ℕ → Bytes) → SessionManager
handle_server_down m ring server clock wall = record m {
  sessions = redistribute m.default_timeout_sec ring server clock wall 0 m.sessions;
}
