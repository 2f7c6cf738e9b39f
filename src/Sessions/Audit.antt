-- ===== src/Sessions/Audit.antt =====
-- The table of sessions over any history of calls: whose session an entry is, and its audit trail.
use session_affinity_engine.Base.{
  ℕ, ◌≡◌, refl, sym, subst, Option, none, some, List, [], ◌∷◌, ◌++◌, arith, contains, if_intro,
  Bool-cases, Option-cases, inl, inr,
}
use session_affinity_engine.Text.{Bytes, str_eq, str_eq→eq}
use session_affinity_engine.Dict.{
  Dict, find, assign, erase, find-assign, find-erase, HasUniqueKeys, assign-HasUniqueKeys,
  erase-HasUniqueKeys,
}
use session_affinity_engine.FiveTuple.{FiveTuple, to_key, PathHistoryEntry}
use session_affinity_engine.Ring.{ConsistentHashRing, get_server}
use session_affinity_engine.Sessions.{
  SessionEntry, SessionManager, is_expired, moved, fresh_entry, failover_reason, Routed, create,
  fail_over, existing, route_table, route_request,
}

-- The backend of the last line of a path history.
unfoldable pub last_backend : List PathHistoryEntry → Option ℕ
last_backend [] = none
last_backend (x ∷ []) = some x.backend_id
last_backend (x ∷ y ∷ history) = last_backend (y ∷ history)

last_backend-append :
    (history : List PathHistoryEntry) (x : PathHistoryEntry)
    → last_backend (history ++ x ∷ []) ≡ some x.backend_id
unfolding last_backend
last_backend-append [] x = refl
last_backend-append (y ∷ []) x = refl
last_backend-append (y ∷ z ∷ history) x = last_backend-append (z ∷ history) x

-- An entry is the session of the tuple that it names, and its audit trail ends at its backend.
pub record IsSound (key : Bytes) (entry : SessionEntry) : Type 0 where
  pub own : to_key entry.tuple ≡ key
  pub trail : last_backend entry.path_history ≡ some entry.backend_id

abbrev pub AllSound : Dict SessionEntry → Type 0
AllSound table =
    (key : Bytes) (entry : SessionEntry) → find key table ≡ some entry → IsSound key entry

pub record IsAudited (table : Dict SessionEntry) : Type 0 where
  pub sound : AllSound table
  pub unique : HasUniqueKeys table

pub moved-IsSound :
    (key : Bytes) (entry : SessionEntry) (b now : ℕ) (stamp reason : Bytes)
    → IsSound key entry
    → IsSound key (moved entry b now stamp reason)
moved-IsSound key entry b now stamp reason s = record {
  own = s.own;
  trail = last_backend-append entry.path_history _;
}

fresh-IsSound :
    (ft : FiveTuple) (b now : ℕ) (stamp : Bytes) → IsSound (to_key ft) (fresh_entry ft b now stamp)
unfolding last_backend
fresh-IsSound ft b now stamp = record { own = refl; trail = refl }

pub assign-IsAudited :
    (table : Dict SessionEntry) (key : Bytes) (entry : SessionEntry)
    → IsAudited table
    → IsSound key entry
    → IsAudited (assign key entry table)
assign-IsAudited table key entry a s = record {
  sound = λ k e here. elim (Bool-cases (str_eq key k)) [
    | inl same ↦
        let this : e ≡ entry = ground (arith, find-assign k key entry table) in
        subst (λ (x : SessionEntry). IsSound k x) (sym this)
          (subst (λ (j : Bytes). IsSound j entry) (str_eq→eq key k same) s)
    | inr other ↦ a.sound k e (ground (arith, find-assign k key entry table))
  ];
  unique = assign-HasUniqueKeys key entry table a.unique;
}

erase-IsAudited :
    (table : Dict SessionEntry) (key : Bytes) → IsAudited table → IsAudited (erase key table)
erase-IsAudited table key a = record {
  sound = λ k e here. a.sound k e (ground (arith, find-erase k key table));
  unique = erase-HasUniqueKeys key table a.unique;
}

create-IsAudited :
    (table : Dict SessionEntry) (ring : ConsistentHashRing) (ft : FiveTuple) (assigned : Option ℕ)
    (now : ℕ) (stamp : Bytes)
    → IsAudited table
    → IsAudited (create table ring ft assigned now stamp).0
unfolding create
create-IsAudited table ring ft assigned now stamp a =
    elim (Option-cases (get_server ring (to_key ft))) [
      | inl gone ↦ rw (gone, create) a
      | inr (b, found) ↦
          rw (found, create)
            (assign-IsAudited table (to_key ft) (fresh_entry ft b now stamp) a
              (fresh-IsSound ft b now stamp))
    ]

fail_over-IsAudited :
    (table : Dict SessionEntry) (ring : ConsistentHashRing) (key : Bytes) (entry : SessionEntry)
    (assigned : Option ℕ) (now : ℕ) (stamp : Bytes)
    → IsAudited table
    → IsSound key entry
    → IsAudited (fail_over table ring key entry assigned now stamp).0
unfolding fail_over
fail_over-IsAudited table ring key entry assigned now stamp a s =
    elim (Option-cases (get_server ring key)) [
      | inl gone ↦ rw (gone, fail_over) a
      | inr (b, found) ↦
          rw (found, fail_over)
            (assign-IsAudited table key _ a
              (moved-IsSound key entry b now stamp (failover_reason entry.backend_id) s))
    ]

existing-IsAudited :
    (default : ℕ) (table : Dict SessionEntry) (ring : ConsistentHashRing) (ft : FiveTuple)
    (entry : SessionEntry) (assigned : Option ℕ) (now later : ℕ) (stamp : Bytes)
    → IsAudited table
    → IsSound (to_key ft) entry
    → IsAudited (existing default table ring ft entry assigned now later stamp).0
unfolding existing
existing-IsAudited default table ring ft entry assigned now later stamp a s =
    let kept : SessionEntry = record entry { last_access = now } in
    let audited = λ (r : Routed). IsAudited r.0 in
    if_intro audited entry.blocked _ _ a (
      if_intro audited (is_expired default entry later) _ _
        (create-IsAudited (erase (to_key ft) table) ring ft assigned now stamp
          (erase-IsAudited table (to_key ft) a))
        (if_intro audited (contains ring.active_servers entry.backend_id) _ _
          (assign-IsAudited table (to_key ft) kept a (record { own = s.own; trail = s.trail }))
          (fail_over-IsAudited table ring (to_key ft) entry assigned now stamp a s)))

pub route_request-IsAudited :
    (m : SessionManager) (ring : ConsistentHashRing) (ft : FiveTuple) (assigned : Option ℕ)
    (now later : ℕ) (stamp : Bytes)
    → IsAudited m.sessions
    → IsAudited (route_request m ring ft assigned now later stamp).0.sessions
unfolding route_request route_table
route_request-IsAudited m ring ft assigned now later stamp a =
    elim (Option-cases (find (to_key ft) m.sessions)) [
      | inl fresh ↦
          rw (fresh, route_table) (create-IsAudited m.sessions ring ft assigned now stamp a)
      | inr (entry, here) ↦
          rw (here, route_table)
            (existing-IsAudited m.default_timeout_sec m.sessions ring ft entry assigned now later
              stamp a (a.sound (to_key ft) entry here))
    ]
