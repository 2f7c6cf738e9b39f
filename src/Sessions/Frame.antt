-- ===== src/Sessions/Frame.antt =====
-- What one call of SessionManager::routeRequest leaves alone.
use session_affinity_engine.Base.{ℕ, ◌≡◌, inl, inr, refl, false, Option, arith, Option-cases}
use session_affinity_engine.Text.{Bytes, str_eq}
use session_affinity_engine.Dict.{Dict, find, erase, find-assign, find-erase}
use session_affinity_engine.FiveTuple.{FiveTuple, to_key}
use session_affinity_engine.Ring.{ConsistentHashRing, get_server}
use session_affinity_engine.Sessions.{
  SessionEntry, SessionManager, moved, fresh_entry, failover_reason, create, fail_over, existing,
  route_table, route_request,
}
use session_affinity_engine.Sessions.Routing.{lookup}

create_frame :
    (table : Dict SessionEntry) (ring : ConsistentHashRing) (ft : FiveTuple) (assigned : Option ℕ)
    (now : ℕ) (stamp key : Bytes)
    → str_eq (to_key ft) key ≡ false
    → find key (create table ring ft assigned now stamp).0 ≡ find key table
unfolding create
create_frame table ring ft assigned now stamp key other =
    elim (Option-cases (get_server ring (to_key ft))) [
      | inl gone ↦ rw (gone, create)
      | inr (b, found) ↦
          rw (found, create, find-assign key (to_key ft) (fresh_entry ft b now stamp) table, other)
    ]

fail_over_frame :
    (table : Dict SessionEntry) (ring : ConsistentHashRing) (own : Bytes) (entry : SessionEntry)
    (assigned : Option ℕ) (now : ℕ) (stamp key : Bytes)
    → str_eq own key ≡ false
    → find key (fail_over table ring own entry assigned now stamp).0 ≡ find key table
unfolding fail_over
fail_over_frame table ring own entry assigned now stamp key other =
    elim (Option-cases (get_server ring own)) [
      | inl gone ↦ rw (gone, fail_over)
      | inr (b, found) ↦ rw (
        found,
        fail_over,
        find-assign key own (moved entry b now stamp (failover_reason entry.backend_id)) table,
        other,
      )
    ]

route_table_frame :
    (default : ℕ) (table : Dict SessionEntry) (ring : ConsistentHashRing) (ft : FiveTuple)
    (assigned : Option ℕ) (now later : ℕ) (stamp key : Bytes)
    → str_eq (to_key ft) key ≡ false
    → find key (route_table default table ring ft assigned now later stamp).0 ≡ find key table
unfolding route_table existing
route_table_frame default table ring ft assigned now later stamp key other =
    elim (Option-cases (find (to_key ft) table)) [
      | inl fresh ↦
          rw (fresh, route_table) (create_frame table ring ft assigned now stamp key other)
      | inr (entry, here) ↦
          let kept : SessionEntry = record entry { last_access = now } in
          ground (
            arith,
            here,
            create_frame (erase (to_key ft) table) ring ft assigned now stamp key other,
            find-erase key (to_key ft) table,
            find-assign key (to_key ft) kept table,
            fail_over_frame table ring (to_key ft) entry assigned now stamp key other,
          )
    ]

-- A call leaves the sessions of all other keys as they are.
pub route_request_frame :
    (m : SessionManager) (ring : ConsistentHashRing) (ft : FiveTuple) (assigned : Option ℕ)
    (now later : ℕ) (stamp : Bytes) (key : Bytes)
    → str_eq (to_key ft) key ≡ false
    → (lookup (route_request m ring ft assigned now later stamp).0 key ≡ lookup m key)
      × ((route_request m ring ft assigned now later stamp).0.default_timeout_sec
          ≡ m.default_timeout_sec)
unfolding route_request
route_request_frame m ring ft assigned now later stamp key other = (
  route_table_frame m.default_timeout_sec m.sessions ring ft assigned now later stamp key other,
  refl,
)
