-- ===== src/Sessions/Reassign.antt =====
-- Moving sessions: SessionManager::forceReassign and SessionManager::handleServerDown.
use session_affinity_engine.Base.{
  ℕ, ◌+◌, ◌≤◌, ◌<◌, ◌≡◌, ◌≢◌, ◌⊎◌, Bool, true, false, none, some, List, [], ◌∷◌, arith, leb, ◌==◌,
  length, contains, Distinct, Bool-cases, Option-cases, inl, inr,
}
use session_affinity_engine.Text.{Bytes, str_eq, str_eq→eq}
use session_affinity_engine.Dict.{Dict, find, assign}
use session_affinity_engine.Ring.{ConsistentHashRing, get_server}
use session_affinity_engine.Ring.Invariant.{RingInv, get_server_clockwise}
use session_affinity_engine.Sessions.{
  SessionEntry, SessionManager, is_expired, moved, forced_reason, next_server, other_backend,
  force_reassign,
}
use session_affinity_engine.Sessions.Passes.{
  down_reason, redistribute_entry, redistribute, handle_server_down,
}
use session_affinity_engine.Sessions.Routing.{lookup}

-- The loop finds another server in a list that has one.
next_server_other :
    (old : ℕ) (servers : List ℕ)
    → Distinct servers
    → 1 < length servers
    → (next_server old servers ≢ old) × (contains servers (next_server old servers) ≡ true)
unfolding next_server contains
next_server_other old [] d h = absurd (omega arith)
next_server_other old (s ∷ []) d h = absurd (omega arith)
next_server_other old (s ∷ t ∷ servers) d h = (ground arith, ground arith)

other_backend_active :
    (ring : ConsistentHashRing) (key : Bytes) (old b : ℕ)
    → RingInv ring
    → other_backend ring key old ≡ some b
    → (b ≢ old) × (contains ring.active_servers b ≡ true)
unfolding other_backend
other_backend_active ring key old b i e = elim (Option-cases (get_server ring key)) [
  | inl gone ↦ absurd (ground arith)
  | inr (c, found) ↦
      let up = (get_server_clockwise ring key c i found).1 in
      let next = next_server_other old ring.active_servers i.distinct in
      elim (Bool-cases (leb (length ring.active_servers) 1)) [
        | inl alone ↦ (ground arith, ground arith)
        | inr others ↦ let n = next (ground arith) in (ground arith, ground arith)
      ]
]

other_backend-none :
    (ring : ConsistentHashRing) (key : Bytes) (old : ℕ)
    → other_backend ring key old ≡ none
    → (get_server ring key ≡ none)
      ⊎ ((get_server ring key ≡ some old) × (length ring.active_servers ≤ 1))
unfolding other_backend
other_backend-none ring key old e = elim (Option-cases (get_server ring key)) [
  | inl gone ↦ inl gone
  | inr (c, found) ↦ inr (ground arith, ground arith)
]

-- What a call of `forceReassign` comes to.
pub data Reassignment (m : SessionManager) (ring : ConsistentHashRing) (key : Bytes) (now : ℕ)
    (stamp : Bytes) (r : SessionManager × Bool) : Type 0 where
  moved_away :
      (entry : SessionEntry) (b : ℕ) (reason : Bytes)
      → lookup m key ≡ some entry
      → b ≢ entry.backend_id
      → contains ring.active_servers b ≡ true
      → r ≡ (record m { sessions = assign key (moved entry b now stamp reason) m.sessions }, true)
      → Reassignment m ring key now stamp r
  unknown : lookup m key ≡ none → r ≡ (m, false) → Reassignment m ring key now stamp r
  no_server : get_server ring key ≡ none → r ≡ (m, false) → Reassignment m ring key now stamp r
  only_server :
      (entry : SessionEntry)
      → lookup m key ≡ some entry
      → get_server ring key ≡ some entry.backend_id
      → length ring.active_servers ≤ 1
      → r ≡ (m, false)
      → Reassignment m ring key now stamp r

-- On a ring that satisfies the invariant, a reassignment that succeeds moves the session to another
-- backend, which is active, and adds a line for it to the end of the path history. One that fails
-- changes nothing, and fails only if there is no such session, if the ring has no server for it, or if
-- that server is the session's own and no other is active.
pub force_reassign_moves :
    (m : SessionManager) (ring : ConsistentHashRing) (key : Bytes) (now : ℕ) (stamp : Bytes)
    → RingInv ring
    → Reassignment m ring key now stamp (force_reassign m ring key now stamp)
unfolding force_reassign
force_reassign_moves m ring key now stamp i = elim (Option-cases (lookup m key)) [
  | inl gone ↦ unknown gone (rw (gone, force_reassign))
  | inr (entry, here) ↦ elim (Option-cases (other_backend ring key entry.backend_id)) [
    | inl stuck ↦
        let same : force_reassign m ring key now stamp ≡ (m, false) = ground arith in
        elim (other_backend-none ring key entry.backend_id stuck) [
          | inl none_left ↦ no_server none_left same
          | inr (own, alone) ↦ only_server entry here own alone same
        ]
    | inr (b, found) ↦
        let (other, up) = other_backend_active ring key entry.backend_id b i found in
        moved_away entry b (forced_reason entry.backend_id) here other up
          (rw (here, found, force_reassign))
  ]
]

module _ (default : ℕ) (ring : ConsistentHashRing) (server : ℕ) (clock : ℕ → ℕ)
    (wall : ℕ → Bytes) where
  -- Each entry goes through one round of the loop, with that round's readings.
  pub find-redistribute :
      (i : ℕ) (key : Bytes) (table : Dict SessionEntry) (entry : SessionEntry)
      → find key table ≡ some entry
      → (j : ℕ) × (find key (redistribute default ring server clock wall i table)
          ≡ some
              (redistribute_entry default ring server key entry (clock j) (clock (j + 1)) (wall j)))
  unfolding redistribute find
  find-redistribute i key [] entry e = cc
  find-redistribute i key ((k, x) ∷ table) entry e = elim (Bool-cases (str_eq k key)) [
    | inl same ↦ (i, ground (arith, str_eq→eq k key))
    | inr other ↦
        let (j, ih) = find-redistribute (i + 2) key table entry (ground arith) in
        (j, ground (arith, ih))
  ]

-- What the loop does with a session that it looks at when the clock reads `checked`, and moves, if it
-- does, at `now` and `stamp`.
pub data Fate (default : ℕ) (ring : ConsistentHashRing) (server : ℕ) (key : Bytes)
    (entry : SessionEntry) (checked now : ℕ) (stamp : Bytes) (after : SessionEntry) : Type 0 where
  elsewhere :
      entry.backend_id ≢ server
      → after ≡ entry
      → Fate default ring server key entry checked now stamp after
  lapsed :
      is_expired default entry checked ≡ true
      → after ≡ entry
      → Fate default ring server key entry checked now stamp after
  stranded :
      entry.backend_id ≡ server
      → is_expired default entry checked ≡ false
      → get_server ring key ≡ none
      → after ≡ entry
      → Fate default ring server key entry checked now stamp after
  relocated :
      (b : ℕ) (reason : Bytes)
      → entry.backend_id ≡ server
      → is_expired default entry checked ≡ false
      → get_server ring key ≡ some b
      → b ≢ server
      → contains ring.active_servers b ≡ true
      → after ≡ moved entry b now stamp reason
      → Fate default ring server key entry checked now stamp after

redistribute_entry-Fate :
    (default : ℕ) (ring : ConsistentHashRing) (server : ℕ) (key : Bytes) (entry : SessionEntry)
    (checked now : ℕ) (stamp : Bytes)
    → RingInv ring
    → contains ring.active_servers server ≡ false
    → Fate default ring server key entry checked now stamp
        (redistribute_entry default ring server key entry checked now stamp)
unfolding redistribute_entry
redistribute_entry-Fate default ring server key entry checked now stamp i gone =
    elim (Bool-cases (entry.backend_id == server)) [
      | inr away ↦ elsewhere (ground arith) (ground arith)
      | inl own ↦ elim (Bool-cases (is_expired default entry checked)) [
        | inl old ↦ lapsed old (ground arith)
        | inr young ↦ elim (Option-cases (get_server ring key)) [
          | inl empty ↦ stranded (ground arith) young empty (ground arith)
          | inr (b, to) ↦
              let up = (get_server_clockwise ring key b i to).1 in
              let other : b ≢ server = ground arith in
              relocated b (down_reason entry.backend_id) (ground arith) young to other up
                (ground arith)
        ]
      ]
    ]

-- When a server goes down that is not on the ring, which satisfies the invariant, each session fares by
-- itself: one on another backend is not touched, nor is one that had expired when it was looked at; a
-- live one on the server moves to the active backend that the ring gives for its key, which is not the
-- server, with a line at the end of its path history; and only if the ring has no server does it stay
-- where it is.
pub handle_server_down_evacuates :
    (m : SessionManager) (ring : ConsistentHashRing) (server : ℕ) (clock : ℕ → ℕ) (wall : ℕ → Bytes)
    (key : Bytes) (entry : SessionEntry)
    → RingInv ring
    → contains ring.active_servers server ≡ false
    → lookup m key ≡ some entry
    → (j : ℕ) × (after : SessionEntry) × (lookup (handle_server_down m ring server clock wall) key
        ≡ some after)
      × Fate m.default_timeout_sec ring server key entry (clock j) (clock (j + 1)) (wall j) after
unfolding handle_server_down
handle_server_down_evacuates m ring server clock wall key entry i gone here =
    let default = m.default_timeout_sec in
    let (j, found) = find-redistribute default ring server clock wall 0 key m.sessions entry here in
    (
      j,
      redistribute_entry default ring server key entry (clock j) (clock (j + 1)) (wall j),
      found,
      redistribute_entry-Fate default ring server key entry (clock j) (clock (j + 1)) (wall j) i
          gone,
    )
