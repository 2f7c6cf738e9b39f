-- ===== src/Sessions/Updates.antt =====
-- What each method of a SessionManager but routeRequest does to the session of a key, where the passes
-- through the table take no time.
use session_affinity_engine.Base.{
  ℕ, ℤ, ◌+◌, ◌≡◌, refl, sym, subst, Bool, none, some, arith, if◌then◌else◌, Bool-cases,
  Option-cases, inl, inr,
}
use session_affinity_engine.Text.{Bytes, str_eq, str_eq→eq}
use session_affinity_engine.Dict.{Dict, find, assign, find-assign, HasUniqueKeys}
use session_affinity_engine.Ring.{ConsistentHashRing}
use session_affinity_engine.Sessions.{
  SessionEntry, SessionManager, is_expired, moved, other_backend, forced_reason, force_reassign,
  block_session, set_session_expiry,
}
use session_affinity_engine.Sessions.Passes.{
  cleanup_expired, redistribute_entry, handle_server_down,
}
use session_affinity_engine.Sessions.Routing.{lookup}
use session_affinity_engine.Sessions.Expiry.{sweep-none, sweep-some}
use session_affinity_engine.Sessions.Reassign.{find-redistribute}
use session_affinity_engine.Sessions.History.{redistribute-none}
use session_affinity_engine.Sessions.Cells.{Cell}

-- The entry changed by a function, if there is one.
unfoldable pub update : (SessionEntry → SessionEntry) → Cell → Cell
update f none = none
update f (some entry) = some (f entry)

unfoldable pub forced : ConsistentHashRing → Bytes → ℕ → Bytes → SessionEntry → SessionEntry
unfolding forced_reason
forced ring key now stamp entry = elim (other_backend ring key entry.backend_id) [
  | none ↦ entry
  | some backend ↦ moved entry backend now stamp (forced_reason entry.backend_id)
]

unfoldable pub swept : ℕ → ℕ → Cell → Cell
swept default now none = none
swept default now (some entry) = if is_expired default entry now then none else some entry

module _ (k key : Bytes) (f : SessionEntry → SessionEntry) (table : Dict SessionEntry) where
  -- The session of `k` is changed by `f`, where there is one.
  assign-cell :
      (entry : SessionEntry)
      → find k table ≡ some entry
      → find key (assign k (f entry) table)
        ≡ (if str_eq k key then update f (find key table) else find key table)
  unfolding update
  assign-cell entry here = ground (arith, find-assign key k (f entry) table, str_eq→eq k key, here)

  same-cell :
      update f (find k table) ≡ find k table
      → find key table ≡ (if str_eq k key then update f (find key table) else find key table)
  same-cell e = elim (Bool-cases (str_eq k key)) [
    | inl same ↦
        rw same (subst (λ j. find j table ≡ update f (find j table)) (str_eq→eq k key same) (sym e))
    | inr other ↦ rw other refl
  ]

  unknown-cell :
      find k table ≡ none
      → find key table ≡ (if str_eq k key then update f (find key table) else find key table)
  unfolding update
  unknown-cell gone = same-cell (rw (gone, update) refl)

pub reassign-cell :
    (m : SessionManager) (ring : ConsistentHashRing) (k key : Bytes) (now : ℕ) (stamp : Bytes)
    → lookup (force_reassign m ring k now stamp).0 key
      ≡ (if str_eq k key then update (forced ring k now stamp) (lookup m key) else lookup m key)
unfolding force_reassign update forced
reassign-cell m ring k key now stamp =
    let f = forced ring k now stamp in
    elim (Option-cases (find k m.sessions)) [
      | inl gone ↦ rw (gone, force_reassign) (unknown-cell k key f m.sessions gone)
      | inr (entry, here) ↦ elim (Option-cases (other_backend ring k entry.backend_id)) [
        | inl stuck ↦
            rw (here, stuck, force_reassign)
              (same-cell k key f m.sessions (rw (here, update, forced, stuck) refl))
        | inr (b, found) ↦
            let to : f entry ≡ moved entry b now stamp (forced_reason entry.backend_id) =
              rw (found, forced) refl in
            rw (here, found, force_reassign)
              (subst
                (λ v.
                  find key (assign k v m.sessions)
                  ≡ (if str_eq k key then update f (find key m.sessions) else find key m.sessions))
                to (assign-cell k key f m.sessions entry here))
      ]
    ]

pub block-cell :
    (m : SessionManager) (k key : Bytes) (b : Bool)
    → lookup (block_session m k b).0 key ≡ (
        if str_eq k key
        then update (λ entry. record entry { blocked = b }) (lookup m key)
        else lookup m key)
unfolding block_session
block-cell m k key b = elim (Option-cases (find k m.sessions)) [
  | inl gone ↦ rw (gone, block_session) (unknown-cell k key _ m.sessions gone)
  | inr (entry, here) ↦
      rw (here, block_session)
        (assign-cell k key (λ x. record x { blocked = b }) m.sessions entry here)
]

pub set_expiry-cell :
    (m : SessionManager) (k key : Bytes) (timeout : ℤ)
    → lookup (set_session_expiry m k timeout).0 key ≡ (
        if str_eq k key
        then update (λ entry. record entry { custom_timeout = timeout }) (lookup m key)
        else lookup m key)
unfolding set_session_expiry
set_expiry-cell m k key timeout = elim (Option-cases (find k m.sessions)) [
  | inl gone ↦ rw (gone, set_session_expiry) (unknown-cell k key _ m.sessions gone)
  | inr (entry, here) ↦
      rw (here, set_session_expiry)
        (assign-cell k key (λ x. record x { custom_timeout = timeout }) m.sessions entry here)
]

pub server_down-cell :
    (m : SessionManager) (ring : ConsistentHashRing) (server : ℕ) (clock : ℕ → ℕ) (wall : ℕ → Bytes)
    (key : Bytes)
    → ((i : ℕ) → (clock i ≡ clock 0) × (wall i ≡ wall 0))
    → lookup (handle_server_down m ring server clock wall) key
      ≡ update
          (λ entry.
            redistribute_entry m.default_timeout_sec ring server key entry
              (clock 0)
              (clock 0)
              (wall 0))
          (lookup m key)
unfolding handle_server_down update
server_down-cell m ring server clock wall key still = elim (Option-cases (find key m.sessions)) [
  | inl gone ↦
      rw (gone, update)
        (redistribute-none m.default_timeout_sec ring server clock wall 0 key m.sessions gone)
  | inr (entry, here) ↦
      let (j, now) =
        find-redistribute m.default_timeout_sec ring server clock wall 0 key m.sessions entry
          here in
      rw (here, update) (rw ((still j).0, (still (j + 1)).0, (still j).1) at now)
]

pub cleanup-cell :
    (m : SessionManager) (clock : ℕ → ℕ) (key : Bytes)
    → HasUniqueKeys m.sessions
    → ((i : ℕ) → clock i ≡ clock 0)
    → lookup (cleanup_expired m clock).0 key ≡ swept m.default_timeout_sec (clock 0) (lookup m key)
unfolding cleanup_expired swept
cleanup-cell m clock key unique still = elim (Option-cases (find key m.sessions)) [
  | inl gone ↦ rw (gone, swept) (sweep-none m.default_timeout_sec clock 0 key m.sessions gone)
  | inr (entry, here) ↦
      let (j, left) = sweep-some m.default_timeout_sec clock 0 key m.sessions entry unique here in
      rw (here, swept) (rw (still j) at left)
]
