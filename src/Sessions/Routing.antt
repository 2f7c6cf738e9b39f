-- ===== src/Sessions/Routing.antt =====
-- What one call of SessionManager::routeRequest does, branch by branch.
use session_affinity_engine.Base.{
  ℕ, ◌≡◌, ◌⊎◌, inl, inr, refl, sym, subst, true, false, Option, none, some, arith, contains,
  Bool-cases, Option-cases,
}
use session_affinity_engine.Text.{Bytes}
use session_affinity_engine.Dict.{Dict, find, assign, erase, find-assign_self}
use session_affinity_engine.FiveTuple.{
  FiveTuple, to_key, RequestStatus, success, server_down, session_blocked, reassigned,
}
use session_affinity_engine.Ring.{ConsistentHashRing, get_server}
use session_affinity_engine.Ring.Invariant.{RingInv, get_server_clockwise}
use session_affinity_engine.Sessions.{
  SessionEntry, SessionManager, is_expired, moved, fresh_entry, failover_reason, create, fail_over,
  existing, route_table, route_request, Routed,
}

-- The reading of `find` that `routeRequest` goes by.
abbrev pub lookup : SessionManager → Bytes → Option SessionEntry
lookup m key = find key m.sessions

-- An entry that `routeRequest` keeps to: neither blocked nor expired when it is looked at.
abbrev pub IsLive : ℕ → SessionEntry → ℕ → Type 0
IsLive default entry later = (entry.blocked ≡ false) × (is_expired default entry later ≡ false)

-- A blocked session is refused, whatever its age and its backend, and nothing changes.
pub route_blocked :
    (m : SessionManager) (ring : ConsistentHashRing) (ft : FiveTuple) (assigned : Option ℕ)
    (now later : ℕ) (stamp : Bytes) (entry : SessionEntry)
    → lookup m (to_key ft) ≡ some entry
    → entry.blocked ≡ true
    → route_request m ring ft assigned now later stamp ≡ (m, session_blocked, assigned)
unfolding route_request
route_blocked m ring ft assigned now later stamp entry here b = ground arith

-- A live session whose backend is active keeps it; only its time of access changes.
pub route_kept :
    (m : SessionManager) (ring : ConsistentHashRing) (ft : FiveTuple) (assigned : Option ℕ)
    (now later : ℕ) (stamp : Bytes) (entry : SessionEntry)
    → lookup m (to_key ft) ≡ some entry
    → IsLive m.default_timeout_sec entry later
    → contains ring.active_servers entry.backend_id ≡ true
    → route_request m ring ft assigned now later stamp ≡ (
      record m { sessions = assign (to_key ft) (record entry { last_access = now }) m.sessions },
      success,
      some entry.backend_id,
    )
unfolding route_request
route_kept m ring ft assigned now later stamp entry here live up = ground arith

-- A request was routed to the backend `b`: it is active, and the session in the table has it.
pub record Served (ring : ConsistentHashRing) (key : Bytes) (now b : ℕ) (m : SessionManager)
    : Type 0 where
  pub session : SessionEntry
  pub stored : lookup m key ≡ some session
  pub backend : session.backend_id ≡ b
  pub active : contains ring.active_servers b ≡ true
  pub unblocked : session.blocked ≡ false
  pub accessed : session.last_access ≡ now

-- What a call answers: a backend, no backend, or a refusal.
pub data Answer (m : SessionManager) (ring : ConsistentHashRing) (key : Bytes) (assigned : Option ℕ)
    (now : ℕ) (r : SessionManager × RequestStatus × Option ℕ) : Type 0 where
  served :
      (b : ℕ)
      → (r.1 ≡ success) ⊎ (r.1 ≡ reassigned)
      → r.2 ≡ some b
      → Served ring key now b r.0
      → Answer m ring key assigned now r
  down :
      r.1 ≡ server_down
      → r.2 ≡ assigned
      → get_server ring key ≡ none
      → Answer m ring key assigned now r
  refused :
      (entry : SessionEntry)
      → r ≡ (m, session_blocked, assigned)
      → lookup m key ≡ some entry
      → entry.blocked ≡ true
      → Answer m ring key assigned now r

create-Answer :
    (m : SessionManager) (table : Dict SessionEntry) (ring : ConsistentHashRing) (ft : FiveTuple)
    (assigned : Option ℕ) (now : ℕ) (stamp : Bytes)
    → RingInv ring
    → let (table', status, out) = create table ring ft assigned now stamp in
      Answer m ring (to_key ft) assigned now (record m { sessions = table' }, status, out)
unfolding create
create-Answer m table ring ft assigned now stamp i =
    elim (Option-cases (get_server ring (to_key ft))) [
      | inl gone ↦ rw (gone, create) (down refl refl gone)
      | inr (b, found) ↦
          rw (found, create)
            (served b (inl refl) refl (record {
              session = fresh_entry ft b now stamp;
              stored = find-assign_self (to_key ft) (fresh_entry ft b now stamp) table;
              backend = refl;
              active = (get_server_clockwise ring (to_key ft) b i found).1;
              unblocked = refl;
              accessed = refl;
            }))
    ]

fail_over-Answer :
    (m : SessionManager) (ring : ConsistentHashRing) (key : Bytes) (entry : SessionEntry)
    (assigned : Option ℕ) (now : ℕ) (stamp : Bytes)
    → RingInv ring
    → entry.blocked ≡ false
    → let (table', status, out) = fail_over m.sessions ring key entry assigned now stamp in
      Answer m ring key assigned now (record m { sessions = table' }, status, out)
unfolding fail_over
fail_over-Answer m ring key entry assigned now stamp i open_ =
    elim (Option-cases (get_server ring key)) [
      | inl gone ↦ rw (gone, fail_over) (down refl refl gone)
      | inr (b, found) ↦
          let entry' = moved entry b now stamp (failover_reason entry.backend_id) in
          rw (found, fail_over)
            (served b (inr refl) refl (record {
              session = entry';
              stored = find-assign_self key entry' m.sessions;
              backend = refl;
              active = (get_server_clockwise ring key b i found).1;
              unblocked = open_;
              accessed = refl;
            }))
    ]

existing-Answer :
    (m : SessionManager) (ring : ConsistentHashRing) (ft : FiveTuple) (entry : SessionEntry)
    (assigned : Option ℕ) (now later : ℕ) (stamp : Bytes)
    → RingInv ring
    → lookup m (to_key ft) ≡ some entry
    → let (table', status, out) =
        existing m.default_timeout_sec m.sessions ring ft entry assigned now later stamp in
      Answer m ring (to_key ft) assigned now (record m { sessions = table' }, status, out)
unfolding existing
existing-Answer m ring ft entry assigned now later stamp i here = elim (Bool-cases entry.blocked) [
  | inl shut ↦ from (ground arith) (refused entry refl here shut)
  | inr open_ ↦ elim (Bool-cases (is_expired m.default_timeout_sec entry later)) [
    | inl old ↦
        from (ground arith)
          (create-Answer m (erase (to_key ft) m.sessions) ring ft assigned now stamp i)
    | inr young ↦ elim (Bool-cases (contains ring.active_servers entry.backend_id)) [
      | inl up ↦
          let entry' : SessionEntry = record entry { last_access = now } in
          from {q = (assign (to_key ft) entry' m.sessions, success, some entry.backend_id)}
            (ground arith)
            (served entry.backend_id (inl refl) refl (record {
              session = entry';
              stored = find-assign_self (to_key ft) entry' m.sessions;
              backend = refl;
              active = up;
              unblocked = open_;
              accessed = refl;
            }))
      | inr lost ↦
          from (ground arith) (fail_over-Answer m ring (to_key ft) entry assigned now stamp i open_)
    ]
  ]
]
  where
    from :
        {q : Routed}
        → existing m.default_timeout_sec m.sessions ring ft entry assigned now later stamp ≡ q
        → Answer m ring (to_key ft) assigned now (record m { sessions = q.0 }, q.1, q.2)
        → let (table', status, out) =
            existing m.default_timeout_sec m.sessions ring ft entry assigned now later stamp in
          Answer m ring (to_key ft) assigned now (record m { sessions = table' }, status, out)
    from e a =
        subst
          (λ (r : Routed).
            Answer m ring (to_key ft) assigned now (record m { sessions = r.0 }, r.1, r.2))
          (sym e) a

-- On a ring that satisfies the invariant every call has one of three outcomes. A request that is served,
-- as a success or a reassignment, gets a backend that is active, and the table holds a session for it
-- with that backend, unblocked and accessed now. It is answered that the servers are down only if the
-- ring has none, and then the out-parameter keeps its value. It is refused only if its session is
-- blocked, and then nothing changes.
pub route_request-Answer :
    (m : SessionManager) (ring : ConsistentHashRing) (ft : FiveTuple) (assigned : Option ℕ)
    (now later : ℕ) (stamp : Bytes)
    → RingInv ring
    → Answer m ring (to_key ft) assigned now (route_request m ring ft assigned now later stamp)
unfolding route_request route_table
route_request-Answer m ring ft assigned now later stamp i =
    elim (Option-cases (lookup m (to_key ft))) [
      | inl fresh ↦
          rw (fresh, route_table) (create-Answer m m.sessions ring ft assigned now stamp i)
      | inr (entry, here) ↦
          rw (here, route_table) (existing-Answer m ring ft entry assigned now later stamp i here)
    ]
