-- ===== src/Sessions/History.antt =====
-- Histories of calls of the methods of a SessionManager, and the soundness of its table.
use session_affinity_engine.Base.{
  ℕ, ℤ, ◌+◌, ◌≡◌, refl, subst, Bool, not, ◌&&◌, Option, none, some, List, [], ◌∷◌, arith, ◌==◌,
  if_intro, Bool-cases, Option-cases, inl, inr,
}
use session_affinity_engine.Text.{Bytes, str_eq→eq}
use session_affinity_engine.Dict.{Dict, find, HasUniqueKeys}
use session_affinity_engine.FiveTuple.{FiveTuple}
use session_affinity_engine.Ring.{ConsistentHashRing, get_server}
use session_affinity_engine.Sessions.{
  SessionEntry, SessionManager, new, is_expired, moved, route_request, other_backend, forced_reason,
  force_reassign, block_session, set_session_expiry,
}
use session_affinity_engine.Sessions.Passes.{
  sweep, cleanup_expired, redistribute_entry, redistribute, handle_server_down, down_reason,
}
use session_affinity_engine.Sessions.Expiry.{sweep-none}
use session_affinity_engine.Sessions.Reassign.{find-redistribute}
use session_affinity_engine.Sessions.Audit.{
  IsSound, IsAudited, moved-IsSound, assign-IsAudited, route_request-IsAudited,
}

find_swept :
    (default : ℕ) (clock : ℕ → ℕ) (i : ℕ) (key : Bytes) (table : Dict SessionEntry)
    (entry : SessionEntry)
    → HasUniqueKeys table
    → find key (sweep default clock i table).0 ≡ some entry
    → find key table ≡ some entry
unfolding sweep find
find_swept default clock i key [] entry u e = e
find_swept default clock i key ((k, x) ∷ table) entry u e = ground (
  arith,
  find_swept default clock (i + 1) key table entry u.1,
  sweep-none default clock (i + 1) k table u.0,
  str_eq→eq k key,
)

sweep-HasUniqueKeys :
    (default : ℕ) (clock : ℕ → ℕ) (i : ℕ) (table : Dict SessionEntry)
    → HasUniqueKeys table
    → HasUniqueKeys (sweep default clock i table).0
unfolding sweep
sweep-HasUniqueKeys default clock i [] u = tt
sweep-HasUniqueKeys default clock i ((k, x) ∷ table) u =
    let rest = sweep-HasUniqueKeys default clock (i + 1) table u.1 in
    let free = sweep-none default clock (i + 1) k table u.0 in
    elim (Bool-cases (is_expired default x (clock i))) [
      | inl old ↦ rw (old, sweep) rest
      | inr young ↦ rw (young, sweep) (free, rest)
    ]

cleanup_expired-IsAudited :
    (m : SessionManager) (clock : ℕ → ℕ)
    → IsAudited m.sessions
    → IsAudited (cleanup_expired m clock).0.sessions
unfolding cleanup_expired
cleanup_expired-IsAudited m clock a = record {
  sound = λ k e here.
      a.sound k e (find_swept m.default_timeout_sec clock 0 k m.sessions e a.unique here);
  unique = sweep-HasUniqueKeys m.default_timeout_sec clock 0 m.sessions a.unique;
}

module _ (default : ℕ) (ring : ConsistentHashRing) (server : ℕ) (clock : ℕ → ℕ)
    (wall : ℕ → Bytes) where
  redistribute_entry-IsSound :
      (key : Bytes) (entry : SessionEntry) (checked now : ℕ) (stamp : Bytes)
      → IsSound key entry
      → IsSound key (redistribute_entry default ring server key entry checked now stamp)
  unfolding redistribute_entry
  redistribute_entry-IsSound key entry checked now stamp s =
      let cond = entry.backend_id == server && not (is_expired default entry checked) in
      elim (Option-cases (get_server ring key)) [
        | inl gone ↦ rw (gone, redistribute_entry) (if_intro (IsSound key) cond entry entry s s)
        | inr (b, found) ↦
            let to = moved entry b now stamp (down_reason entry.backend_id) in
            rw (found, redistribute_entry)
              (if_intro (IsSound key) cond _ entry
                (if_intro (IsSound key) (not (b == server)) to entry
                  (moved-IsSound key entry b now stamp (down_reason entry.backend_id) s) s)
                s)
      ]

  pub redistribute-none :
      (i : ℕ) (key : Bytes) (table : Dict SessionEntry)
      → find key table ≡ none
      → find key (redistribute default ring server clock wall i table) ≡ none
  unfolding redistribute find
  redistribute-none i key [] e = refl
  redistribute-none i key ((k, x) ∷ table) e = ground (arith, redistribute-none (i + 2) key table)

  redistribute-HasUniqueKeys :
      (i : ℕ) (table : Dict SessionEntry)
      → HasUniqueKeys table
      → HasUniqueKeys (redistribute default ring server clock wall i table)
  unfolding redistribute
  redistribute-HasUniqueKeys i [] u = tt
  redistribute-HasUniqueKeys i ((k, x) ∷ table) u =
      (redistribute-none (i + 2) k table u.0, redistribute-HasUniqueKeys (i + 2) table u.1)

  redistribute-IsAudited :
      (i : ℕ) (table : Dict SessionEntry)
      → IsAudited table
      → IsAudited (redistribute default ring server clock wall i table)
  redistribute-IsAudited i table a = record {
    sound = λ k e here. elim (Option-cases (find k table)) [
      | inl gone ↦ absurd (ground (arith, redistribute-none i k table))
      | inr (before, was) ↦
          let (j, now) = find-redistribute default ring server clock wall i k table before was in
          let same : redistribute_entry default ring server k before (clock j) (clock (j + 1))
                (wall j)
              ≡ e =
            ground arith in
          subst (λ (x : SessionEntry). IsSound k x) same
            (redistribute_entry-IsSound k before (clock j) (clock (j + 1)) (wall j)
              (a.sound k before was))
    ];
    unique = redistribute-HasUniqueKeys i table a.unique;
  }

-- A call of one of the methods, with the ring as it stands at that time.
pub data Op : Type 0 where
  route : ConsistentHashRing → FiveTuple → Option ℕ → ℕ → ℕ → Bytes → Op
  reassign : ConsistentHashRing → Bytes → ℕ → Bytes → Op
  block : Bytes → Bool → Op
  set_expiry : Bytes → ℤ → Op
  server_down : ConsistentHashRing → ℕ → (ℕ → ℕ) → (ℕ → Bytes) → Op
  cleanup : (ℕ → ℕ) → Op

unfoldable pub step : SessionManager → Op → SessionManager
step m (route ring ft assigned now later stamp) =
    (route_request m ring ft assigned now later stamp).0
step m (reassign ring key now stamp) = (force_reassign m ring key now stamp).0
step m (block key b) = (block_session m key b).0
step m (set_expiry key timeout) = (set_session_expiry m key timeout).0
step m (server_down ring server clock wall) = handle_server_down m ring server clock wall
step m (cleanup clock) = (cleanup_expired m clock).0

unfoldable pub run : SessionManager → List Op → SessionManager
run m [] = m
run m (op ∷ ops) = run (step m op) ops

force_reassign-IsAudited :
    (m : SessionManager) (ring : ConsistentHashRing) (key : Bytes) (now : ℕ) (stamp : Bytes)
    → IsAudited m.sessions
    → IsAudited (force_reassign m ring key now stamp).0.sessions
unfolding force_reassign
force_reassign-IsAudited m ring key now stamp a = elim (Option-cases (find key m.sessions)) [
  | inl gone ↦ rw (gone, force_reassign) a
  | inr (entry, here) ↦ elim (Option-cases (other_backend ring key entry.backend_id)) [
    | inl stuck ↦ rw (here, stuck, force_reassign) a
    | inr (b, found) ↦
        rw (here, found, force_reassign)
          (assign-IsAudited m.sessions key _ a (
            moved-IsSound key entry b now stamp (forced_reason entry.backend_id)
              (a.sound key entry here)))
  ]
]

block_session-IsAudited :
    (m : SessionManager) (key : Bytes) (b : Bool)
    → IsAudited m.sessions
    → IsAudited (block_session m key b).0.sessions
unfolding block_session
block_session-IsAudited m key b a = elim (Option-cases (find key m.sessions)) [
  | inl gone ↦ rw (gone, block_session) a
  | inr (entry, here) ↦
      let s = a.sound key entry here in
      rw (here, block_session)
        (assign-IsAudited m.sessions key _ a (record { own = s.own; trail = s.trail }))
]

set_session_expiry-IsAudited :
    (m : SessionManager) (key : Bytes) (timeout : ℤ)
    → IsAudited m.sessions
    → IsAudited (set_session_expiry m key timeout).0.sessions
unfolding set_session_expiry
set_session_expiry-IsAudited m key timeout a = elim (Option-cases (find key m.sessions)) [
  | inl gone ↦ rw (gone, set_session_expiry) a
  | inr (entry, here) ↦
      let s = a.sound key entry here in
      rw (here, set_session_expiry)
        (assign-IsAudited m.sessions key _ a (record { own = s.own; trail = s.trail }))
]

pub step-IsAudited :
    (m : SessionManager) (op : Op) → IsAudited m.sessions → IsAudited (step m op).sessions
unfolding step handle_server_down
step-IsAudited m (route ring ft assigned now later stamp) a =
    route_request-IsAudited m ring ft assigned now later stamp a
step-IsAudited m (reassign ring key now stamp) a = force_reassign-IsAudited m ring key now stamp a
step-IsAudited m (block key b) a = block_session-IsAudited m key b a
step-IsAudited m (set_expiry key timeout) a = set_session_expiry-IsAudited m key timeout a
step-IsAudited m (server_down ring server clock wall) a =
    redistribute-IsAudited m.default_timeout_sec ring server clock wall 0 m.sessions a
step-IsAudited m (cleanup clock) a = cleanup_expired-IsAudited m clock a

run-IsAudited :
    (m : SessionManager) (ops : List Op) → IsAudited m.sessions → IsAudited (run m ops).sessions
unfolding run
run-IsAudited m [] a = a
run-IsAudited m (op ∷ ops) a = run-IsAudited (step m op) ops (step-IsAudited m op a)

-- After any history of calls on a new manager, no key stands twice in the table, each entry stands under
-- the key of its own tuple, and its path history is not empty and ends at its current backend.
pub run-new-IsAudited : (timeout : ℕ) (ops : List Op) → IsAudited (run (new timeout) ops).sessions
unfolding find
run-new-IsAudited timeout ops =
    run-IsAudited (new timeout) ops
      (record { sound = λ k e here. absurd (ground arith); unique = tt })
