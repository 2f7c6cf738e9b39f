-- ===== src/Security/Spoofing.antt =====
-- Security::checkSpoofing.
use session_affinity_engine.Base.{
  ℕ, ◌≡◌, ◌≢◌, refl, ap, ◌∙◌, Bool, false, ◌||◌, List, [], ◌∷◌, ◌++◌, arith, leb, if◌then◌else◌,
  length, Bool-cases, inl, inr,
}
use session_affinity_engine.Config.{spoof_detection_threshold, spoof_detection_window_sec}
use session_affinity_engine.Text.{Bytes, str_eq, str_eq_iff, str_eq_refl}
use session_affinity_engine.Dict.{find-assign}
use session_affinity_engine.Window.{seconds, recent, IsRising, evict-eq-recent}
use session_affinity_engine.Security.{
  Security, SubnetTracker, get_subnet, member, unique_ips, tracker_of, tracked, check_spoofing,
}

-- The addresses of a list are distinct.
abbrev pub DistinctIps : List Bytes → Type 0
DistinctIps [] = Unit {0}
DistinctIps (x ∷ xs) = (member x xs ≡ false) × DistinctIps xs

-- An entry of the tracker has the address.
unfoldable pub seen : Bytes → SubnetTracker → Bool
seen ip [] = false
seen ip ((t, x) ∷ entries) = str_eq x ip || seen ip entries

unique_ips_distinct :
    (entries : SubnetTracker) (ips : List Bytes)
    → DistinctIps ips
    → DistinctIps (unique_ips entries ips)
unfolding unique_ips
unique_ips_distinct [] ips d = d
unique_ips_distinct ((t, ip) ∷ entries) ips d = elim (Bool-cases (member ip ips)) [
  | inl old ↦ rw (old, unique_ips) (unique_ips_distinct entries ips d)
  | inr fresh ↦ rw (fresh, unique_ips) (unique_ips_distinct entries (ip ∷ ips) (fresh, d))
]

unique_ips-seen :
    (entries : SubnetTracker) (ips : List Bytes) (a : Bytes)
    → member a (unique_ips entries ips) ≡ (seen a entries || member a ips)
unfolding unique_ips seen member
unique_ips-seen [] ips a = refl
unique_ips-seen ((t, ip) ∷ entries) ips a = elim (Bool-cases (member ip ips)) [
  | inl old ↦
      rw (old, unique_ips) (ground (arith, unique_ips-seen entries ips a, str_eq_iff ip a, old))
  | inr fresh ↦ rw (fresh, unique_ips) (ground (arith, unique_ips-seen entries (ip ∷ ips) a))
]

-- The time of an entry.
abbrev pub time : ℕ × Bytes → ℕ
time e = e.0

tracked-recent :
    (s : Security) (src_ip : Bytes) (now : ℕ)
    → IsRising time (tracker_of s (get_subnet src_ip))
    → tracked s src_ip now
      ≡ recent time now (seconds spoof_detection_window_sec) (tracker_of s (get_subnet src_ip))
        ++ (now, src_ip) ∷ []
unfolding tracked
tracked-recent s src_ip now rising =
    ap (λ q. q ++ (now, src_ip) ∷ [])
      (evict-eq-recent time now (seconds spoof_detection_window_sec)
        (tracker_of s (get_subnet src_ip)) rising)

check_spoofing_trackers :
    (s : Security) (src_ip : Bytes) (now : ℕ) (subnet : Bytes)
    → tracker_of (check_spoofing s src_ip now).0 subnet
      ≡ (if str_eq (get_subnet src_ip) subnet then tracked s src_ip now else tracker_of s subnet)
unfolding check_spoofing
check_spoofing_trackers s src_ip now subnet =
    ground (arith, find-assign subnet (get_subnet src_ip) (tracked s src_ip now) s.subnet_trackers)

check_spoofing_valid :
    (s : Security) (src_ip : Bytes) (now : ℕ)
    → (check_spoofing s src_ip now).1.valid
      ≡ leb (length (unique_ips (tracked s src_ip now) [])) spoof_detection_threshold
unfolding check_spoofing
check_spoofing_valid s src_ip now = ground arith

-- What the check leaves in the tracker of the address's subnet is the entries no older than the window
-- and the new one, whether the check passes or not. It passes exactly when the addresses of
-- those entries, each counted once, are at most as many as the threshold. The other subnets' trackers
-- are unchanged. The subnet's entries are to be in order of time.
pub check_spoofing_decision :
    (s : Security) (src_ip : Bytes) (now : ℕ)
    → IsRising time (tracker_of s (get_subnet src_ip))
    → let subnet = get_subnet src_ip in
      let entries =
        recent time now (seconds spoof_detection_window_sec) (tracker_of s subnet)
        ++ (now, src_ip) ∷ [] in
      let after = check_spoofing s src_ip now in
      (tracker_of after.0 subnet ≡ entries)
      × ((ips : List Bytes) × DistinctIps ips
          × ((a : Bytes) → member a ips ≡ seen a entries)
          × (after.1.valid ≡ leb (length ips) spoof_detection_threshold))
      × ((other : Bytes) → other ≢ subnet → tracker_of after.0 other ≡ tracker_of s other)
unfolding member
check_spoofing_decision s src_ip now rising =
    let subnet = get_subnet src_ip in
    let kept = tracked-recent s src_ip now rising in
    (
      check_spoofing_trackers s src_ip now subnet ∙ rw (str_eq_refl subnet) kept,
      (
        unique_ips (tracked s src_ip now) [],
        unique_ips_distinct (tracked s src_ip now) [] tt,
        λ a. unique_ips-seen (tracked s src_ip now) [] a ∙ ground (arith, ap (seen a) kept),
        check_spoofing_valid s src_ip now,
      ),
      λ other ne.
          check_spoofing_trackers s src_ip now other ∙ ground (arith, str_eq_iff subnet other),
    )
