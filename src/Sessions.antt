-- ===== src/Sessions.antt =====
-- src/session_manager.{h,cpp}. The hash ring that the manager refers to is an argument of the methods
-- that read it. What a method reads from the clocks is an argument too, one for each reading: `now` and
-- `later` of the steady clock, `stamp` of the wall clock, and functions of the round in the loops.
pub mod Passes
pub mod Routing
pub mod Frame
pub mod Stickiness
pub mod Audit
pub mod History
pub mod Cells
pub mod Updates
pub mod Isolation
pub mod Interference
pub mod Expiry
pub mod Blocking
pub mod Reassign
pub mod Handover
pub mod Examples
use session_affinity_engine.Base.{
  ℕ, zero, suc, ◌+◌, ◌-◌, ◌≡◌, Bool, true, false, not, ◌&&◌, Option, none, some, ℤ, pos, negsuc,
  List, [], ◌∷◌, ◌++◌, ltb, leb, ◌==◌, if◌then◌else◌, length, contains,
}
use session_affinity_engine.Text.{Bytes, codes, em_dash}
use session_affinity_engine.Text.Decimal.{to_string}
use session_affinity_engine.Dict.{Dict, find, assign, erase}
use session_affinity_engine.Window.{seconds}
use session_affinity_engine.FiveTuple.{
  FiveTuple, to_key, PathHistoryEntry, RequestStatus, success, server_down, session_blocked,
  reassigned,
}
use session_affinity_engine.Ring.{ConsistentHashRing, get_server}

pub record SessionEntry : Type 0 where
  pub tuple : FiveTuple
  pub backend_id : ℕ
  pub blocked : Bool
  pub custom_timeout : ℤ
  pub created_at : ℕ
  pub last_access : ℕ
  pub path_history : List PathHistoryEntry

pub record SessionManager : Type 0 where
  pub default_timeout_sec : ℕ
  pub sessions : Dict SessionEntry

abbrev pub new : ℕ → SessionManager
new timeout = record { default_timeout_sec = timeout; sessions = [] }

-- `custom_timeout >= 0 ? custom_timeout : default_timeout_sec_`
abbrev pub timeout_of : ℕ → ℤ → ℕ
timeout_of default (pos n) = n
timeout_of default (negsuc n) = default

unfoldable pub is_expired : ℕ → SessionEntry → ℕ → Bool
is_expired default entry now =
    ltb (seconds (timeout_of default entry.custom_timeout)) (now - entry.last_access)

-- The entry moved to another backend, with its line in the audit trail.
abbrev pub moved : SessionEntry → ℕ → ℕ → Bytes → Bytes → SessionEntry
moved entry backend now stamp reason = record entry {
  backend_id = backend;
  last_access = now;
  path_history =
      entry.path_history
      ++ record { backend_id = backend; timestamp = stamp; reason = reason } ∷ [];
}

failover_reason : ℕ → Bytes
failover_reason old = codes "Failover from backend " ++ (to_string old ++ codes " (server down)")

abbrev pub fresh_entry : FiveTuple → ℕ → ℕ → Bytes → SessionEntry
fresh_entry ft backend now stamp = record {
  tuple = ft;
  backend_id = backend;
  blocked = false;
  custom_timeout = negsuc 0;
  created_at = now;
  last_access = now;
  path_history =
      record { backend_id = backend; timestamp = stamp; reason = codes "Initial assignment" } ∷ [];
}

-- The table, the status, and the out-parameter `assigned_backend`, where -1 is `none`.
abbrev pub Routed : Type 0
Routed = Dict SessionEntry × RequestStatus × Option ℕ

-- Case 2 of `routeRequest`: a new session.
create : Dict SessionEntry → ConsistentHashRing → FiveTuple → Option ℕ → ℕ → Bytes → Routed
create table ring ft assigned now stamp = elim (get_server ring (to_key ft)) [
  | none ↦ (table, server_down, assigned)
  | some backend ↦
      (assign (to_key ft) (fresh_entry ft backend now stamp) table, success, some backend)
]

-- Case 1 where the session's backend is not on the ring.
fail_over :
    Dict SessionEntry → ConsistentHashRing → Bytes → SessionEntry → Option ℕ → ℕ → Bytes → Routed
unfolding failover_reason
fail_over table ring key entry assigned now stamp = elim (get_server ring key) [
  | none ↦ (table, server_down, assigned)
  | some backend ↦ (
    assign key (moved entry backend now stamp (failover_reason entry.backend_id)) table,
    reassigned,
    some backend,
  )
]

-- Case 1 of `routeRequest`: the table has an entry for the key.
existing :
    ℕ
    → Dict SessionEntry
    → ConsistentHashRing
    → FiveTuple
    → SessionEntry
    → Option ℕ
    → ℕ
    → ℕ
    → Bytes
    → Routed
unfolding create fail_over
existing default table ring ft entry assigned now later stamp =
    if entry.blocked
    then (table, session_blocked, assigned)
    else if is_expired default entry later
    then create (erase (to_key ft) table) ring ft assigned now stamp
    else if contains ring.active_servers entry.backend_id
    then (
      assign (to_key ft) (record entry { last_access = now }) table,
      success,
      some entry.backend_id,
    )
    else fail_over table ring (to_key ft) entry assigned now stamp

route_table :
    ℕ → Dict SessionEntry → ConsistentHashRing → FiveTuple → Option ℕ → ℕ → ℕ → Bytes → Routed
unfolding existing
route_table default table ring ft assigned now later stamp = elim (find (to_key ft) table) [
  | none ↦ create table ring ft assigned now stamp
  | some entry ↦ existing default table ring ft entry assigned now later stamp
]

unfoldable pub route_request :
    SessionManager
    → ConsistentHashRing
    → FiveTuple
    → Option ℕ
    → ℕ
    → ℕ
    → Bytes
    → SessionManager × RequestStatus × Option ℕ
unfolding route_table
route_request m ring ft assigned now later stamp =
    let (table, status, backend) =
      route_table m.default_timeout_sec m.sessions ring ft assigned now later stamp in
    (record m { sessions = table }, status, backend)

-- `for (int s : servers) if (s != old_backend) { new_backend = s; break; }`
unfoldable pub next_server : ℕ → List ℕ → ℕ
next_server old [] = old
next_server old (s ∷ servers) = let rest = next_server old servers in if s == old then rest else s

-- Another backend for a session, or `none` where `forceReassign` gives up.
unfoldable pub other_backend : ConsistentHashRing → Bytes → ℕ → Option ℕ
other_backend ring key old = elim (get_server ring key) [
  | none ↦ none
  | some backend ↦
      if backend == old
      then (if leb (length ring.active_servers) 1
          then none
          else some (next_server old ring.active_servers))
      else some backend
]

forced_reason : ℕ → Bytes
forced_reason old = codes "Forced reassignment from backend " ++ to_string old

unfoldable pub force_reassign :
    SessionManager → ConsistentHashRing → Bytes → ℕ → Bytes → SessionManager × Bool
unfolding forced_reason
force_reassign m ring key now stamp = elim (find key m.sessions) [
  | none ↦ (m, false)
  | some entry ↦ elim (other_backend ring key entry.backend_id) [
    | none ↦ (m, false)
    | some backend ↦ (
      record m {
        sessions =
            assign key (moved entry backend now stamp (forced_reason entry.backend_id)) m.sessions;
      },
      true,
    )
  ]
]

unfoldable pub block_session : SessionManager → Bytes → Bool → SessionManager × Bool
block_session m key block = elim (find key m.sessions) [
  | none ↦ (m, false)
  | some entry ↦
      (record m { sessions = assign key (record entry { blocked = block }) m.sessions }, true)
]

unfoldable pub set_session_expiry : SessionManager → Bytes → ℤ → SessionManager × Bool
set_session_expiry m key timeout_sec = elim (find key m.sessions) [
  | none ↦ (m, false)
  | some entry ↦ (
    record m { sessions = assign key (record entry { custom_timeout = timeout_sec }) m.sessions },
    true,
  )
]

unfoldable pub get_path_history : SessionManager → Bytes → List PathHistoryEntry
get_path_history m key = elim (find key m.sessions) [ none ↦ [] | some entry ↦ entry.path_history ]
