-- ===== src/Sessions/Blocking.antt =====
-- Blocking a session, and what becomes of the block.
use session_affinity_engine.Base.{
  ℕ, ◌≤◌, ◌≡◌, ◌⊎◌, refl, true, false, Option, none, some, Option-cases, inl, inr,
}
use session_affinity_engine.Text.{Bytes}
use session_affinity_engine.Dict.{assign, find-assign_self, HasUniqueKeys}
use session_affinity_engine.FiveTuple.{FiveTuple, to_key, RequestStatus, success, session_blocked}
use session_affinity_engine.Ring.{ConsistentHashRing, get_server}
use session_affinity_engine.Sessions.{
  SessionEntry, SessionManager, is_expired, fresh_entry, route_request, route_table, create,
  block_session,
}
use session_affinity_engine.Sessions.Passes.{cleanup_expired}
use session_affinity_engine.Sessions.Routing.{lookup, route_blocked}
use session_affinity_engine.Sessions.Expiry.{cleanup_expired_sound}

-- Once `blockSession` has found a session, every request for it is refused, whatever the time and the
-- ring, and the table stays as it is. If there is no such session nothing happens.
pub block_session_refuses :
    (m : SessionManager) (ring : ConsistentHashRing) (ft : FiveTuple) (assigned : Option ℕ)
    (now later : ℕ) (stamp : Bytes)
    → let (m', found) = block_session m (to_key ft) true in
      ((found ≡ true)
        × (route_request m' ring ft assigned now later stamp ≡ (m', session_blocked, assigned)))
      ⊎ ((found ≡ false) × (lookup m (to_key ft) ≡ none) × (m' ≡ m))
unfolding block_session
block_session_refuses m ring ft assigned now later stamp =
    elim (Option-cases (lookup m (to_key ft))) [
      | inl gone ↦ rw (gone, block_session) (inr (refl, refl, refl))
      | inr (entry, here) ↦
          let entry' : SessionEntry = record entry { blocked = true } in
          let m' : SessionManager = record m { sessions = assign (to_key ft) entry' m.sessions } in
          rw (here, block_session)
            (inl (
              refl,
              route_blocked m' ring ft assigned now later stamp entry'
                  (find-assign_self (to_key ft) entry' m.sessions) refl,
            ))
    ]

-- The table with a new session, on the backend `b`.
abbrev pub opened :
    SessionManager → FiveTuple → ℕ → Bytes → ℕ → SessionManager × RequestStatus × Option ℕ
opened m ft now stamp b = (
  record m { sessions = assign (to_key ft) (fresh_entry ft b now stamp) m.sessions },
  success,
  some b,
)

route_unknown :
    (m : SessionManager) (ring : ConsistentHashRing) (ft : FiveTuple) (assigned : Option ℕ)
    (now later : ℕ) (stamp : Bytes) (b : ℕ)
    → lookup m (to_key ft) ≡ none
    → get_server ring (to_key ft) ≡ some b
    → route_request m ring ft assigned now later stamp ≡ opened m ft now stamp b
unfolding route_request route_table create
route_unknown m ring ft assigned now later stamp b unknown up =
    rw (unknown, up, route_request, route_table, create)

-- The cleanup pass forgets the blocks of the sessions that it removes: in a table that holds no key
-- twice, a blocked session that had expired when the pass began is refused before the pass, and after it
-- a request with the same tuple is answered with success and opens a new session, unblocked and on the
-- ring's server, if the ring has one.
pub cleanup_expired_unblocks :
    (m : SessionManager) (clock : ℕ → ℕ) (lo hi : ℕ) (ring : ConsistentHashRing) (ft : FiveTuple)
    (assigned : Option ℕ) (now later : ℕ) (stamp : Bytes) (entry : SessionEntry) (b : ℕ)
    → HasUniqueKeys m.sessions
    → ((i : ℕ) → (lo ≤ clock i) × (clock i ≤ hi))
    → lookup m (to_key ft) ≡ some entry
    → entry.blocked ≡ true
    → is_expired m.default_timeout_sec entry lo ≡ true
    → get_server ring (to_key ft) ≡ some b
    → let m' = (cleanup_expired m clock).0 in
      (route_request m ring ft assigned now later stamp ≡ (m, session_blocked, assigned))
      × (route_request m' ring ft assigned now later stamp ≡ opened m' ft now stamp b)
cleanup_expired_unblocks m clock lo hi ring ft assigned now later stamp entry b u within here shut
      old up =
    let swept = cleanup_expired_sound m clock lo hi (to_key ft) u within in
    let gone = (swept.0 entry here).0 old in
    (
      route_blocked m ring ft assigned now later stamp entry here shut,
      route_unknown (cleanup_expired m clock).0 ring ft assigned now later stamp b gone up,
    )
