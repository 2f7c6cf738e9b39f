-- ===== src/Sessions/Expiry.antt =====
-- Expiry, and the cleanup pass of src/session_manager.cpp.
use session_affinity_engine.Base.{
  ℕ, ◌+◌, ◌≤◌, ◌≡◌, refl, ◌∙◌, true, false, none, some, [], ◌∷◌, map, arith, if◌then◌else◌, length,
  Bool-cases, inl, inr,
}
use session_affinity_engine.Text.{Bytes, str_eq, str_eq→eq}
use session_affinity_engine.Dict.{Dict, find, HasUniqueKeys}
use session_affinity_engine.Sessions.{SessionEntry, SessionManager, is_expired}
use session_affinity_engine.Sessions.Passes.{
  count_active, list_active, sweep, active_session_count, get_all_sessions, cleanup_expired,
}
use session_affinity_engine.Sessions.Routing.{lookup}

pub is_expired_mono :
    (default : ℕ) (entry : SessionEntry) (s t : ℕ)
    → s ≤ t
    → is_expired default entry s ≡ true
    → is_expired default entry t ≡ true
unfolding is_expired
is_expired_mono default entry s t h e = ground arith

module _ (default : ℕ) (clock : ℕ → ℕ) where
  pub sweep-none :
      (i : ℕ) (key : Bytes) (table : Dict SessionEntry)
      → find key table ≡ none
      → find key (sweep default clock i table).0 ≡ none
  unfolding sweep find
  sweep-none i key [] e = refl
  sweep-none i key ((k, entry) ∷ table) e = ground (arith, sweep-none (i + 1) key table)

  -- Each entry is kept or removed by the clock's reading in its own round.
  pub sweep-some :
      (i : ℕ) (key : Bytes) (table : Dict SessionEntry) (entry : SessionEntry)
      → HasUniqueKeys table
      → find key table ≡ some entry
      → (j : ℕ) × (find key (sweep default clock i table).0
          ≡ (if is_expired default entry (clock j) then none else some entry))
  unfolding sweep find
  sweep-some i key [] entry u e = cc
  sweep-some i key ((k, x) ∷ table) entry u e = elim (Bool-cases (str_eq k key)) [
    | inl same ↦ (i, ground (arith, str_eq→eq k key, sweep-none (i + 1) k table u.0))
    | inr other ↦
        let (j, ih) = sweep-some (i + 1) key table entry u.1 (ground arith) in
        (j, ground (arith, ih))
  ]

  sweep-length :
      (i : ℕ) (table : Dict SessionEntry)
      → (sweep default clock i table).1 + length (sweep default clock i table).0 ≡ length table
  unfolding sweep
  sweep-length i [] = refl
  sweep-length i ((k, x) ∷ table) = ground (arith, sweep-length (i + 1) table)

  count_active-sweep :
      (i : ℕ) (table : Dict SessionEntry)
      → count_active default clock i table ≡ length (sweep default clock i table).0
  unfolding sweep count_active
  count_active-sweep i [] = refl
  count_active-sweep i ((k, x) ∷ table) = ground (arith, count_active-sweep (i + 1) table)

  list_active-sweep :
      (i : ℕ) (table : Dict SessionEntry)
      → list_active default clock i table
        ≡ map (λ e. (e.0, e.1.backend_id)) (sweep default clock i table).0
  unfolding sweep list_active
  list_active-sweep i [] = refl
  list_active-sweep i ((k, x) ∷ table) = ground (arith, list_active-sweep (i + 1) table)

-- With clock readings between `lo` and `hi`, in a table that holds no key twice, the pass removes every
-- session that had expired by `lo`, keeps as it is every one that has not by `hi`, brings in none, and
-- returns how many it removed.
pub cleanup_expired_sound :
    (m : SessionManager) (clock : ℕ → ℕ) (lo hi : ℕ) (key : Bytes)
    → HasUniqueKeys m.sessions
    → ((i : ℕ) → (lo ≤ clock i) × (clock i ≤ hi))
    → let (m', removed) = cleanup_expired m clock in
      ((entry : SessionEntry)
        → lookup m key ≡ some entry
        → (is_expired m.default_timeout_sec entry lo ≡ true → lookup m' key ≡ none)
          × (is_expired m.default_timeout_sec entry hi ≡ false → lookup m' key ≡ some entry))
      × (lookup m key ≡ none → lookup m' key ≡ none)
      × (removed + length m'.sessions ≡ length m.sessions)
unfolding cleanup_expired
cleanup_expired_sound m clock lo hi key u within = (
  λ entry here.
      let default = m.default_timeout_sec in
      let (j, kept) = sweep-some default clock 0 key m.sessions entry u here in
      let (after, before) = within j in
      (
        λ old. kept ∙ rw (is_expired_mono default entry lo (clock j) after old),
        λ young. kept ∙ ground (arith, is_expired_mono default entry (clock j) hi),
      ),
  sweep-none m.default_timeout_sec clock 0 key m.sessions,
  sweep-length m.default_timeout_sec clock 0 m.sessions,
)

-- At the same clock readings, the number and the list of active sessions are those that the cleanup
-- pass would leave in the table.
pub active_sessions-cleanup_expired :
    (m : SessionManager) (clock : ℕ → ℕ)
    → let left = (cleanup_expired m clock).0.sessions in
      (active_session_count m clock ≡ length left)
      × (get_all_sessions m clock ≡ map (λ e. (e.0, e.1.backend_id)) left)
unfolding active_session_count get_all_sessions cleanup_expired
active_sessions-cleanup_expired m clock = (
  count_active-sweep m.default_timeout_sec clock 0 m.sessions,
  list_active-sweep m.default_timeout_sec clock 0 m.sessions,
)
