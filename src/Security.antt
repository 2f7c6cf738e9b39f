-- ===== src/Security.antt =====
-- src/security.{h,cpp}. The reading of the steady clock is an argument of the checks that make one.
pub mod Octet
pub mod Ipv4
pub mod Tuples
pub mod Spoofing
pub mod Full
pub mod Examples
use session_affinity_engine.Base.{
  ℕ, zero, suc, ◌+◌, ◌≡◌, Bool, true, false, not, ◌&&◌, ◌||◌, Option, none, some, ℤ, pos, negsuc,
  List, [], ◌∷◌, ◌++◌, map, ltb, leb, ◌==◌, if◌then◌else◌, length,
}
use session_affinity_engine.Config.{
  max_payload_size, spoof_detection_threshold, spoof_detection_window_sec,
}
use session_affinity_engine.Text.{Bytes, codes, str_eq, is_digit, to_upper}
use session_affinity_engine.Text.Decimal.{to_string, stoi}
use session_affinity_engine.Text.Split.{getlines}
use session_affinity_engine.Dict.{Dict, find, assign, get_or}
use session_affinity_engine.Window.{seconds, evict}
use session_affinity_engine.FiveTuple.{FiveTuple}

pub record ValidationResult : Type 0 where
  pub valid : Bool
  pub error_message : Bytes

abbrev pub passed : ValidationResult
passed = record { valid = true; error_message = [] }

abbrev pub failed : Bytes → ValidationResult
failed message = record { valid = false; error_message = message }

all_digits : Bytes → Bool
all_digits [] = true
all_digits (c ∷ s) = is_digit c && all_digits s

leading_zero : Bytes → Bool
leading_zero [] = false
leading_zero (c ∷ s) = ltb 1 (length (c ∷ s)) && c == b'0'

in_byte : Option ℤ → Bool
in_byte none = false
in_byte (some (negsuc n)) = false
in_byte (some (pos n)) = leb n 255

-- The body of the loop over the octets: `false` where it returns.
pub octet_valid : Bytes → Bool
unfolding all_digits leading_zero in_byte
octet_valid octet =
    if length octet == 0 || ltb 3 (length octet)
    then false
    else if not (all_digits octet)
    then false
    else if leading_zero octet
    then false
    else in_byte (stoi octet)

-- The loop, with the number of octets so far.
pub octets_valid : List Bytes → ℕ → Bool
octets_valid [] count = count == 4
octets_valid (octet ∷ octets) count =
    let rest = octets_valid octets (count + 1) in if octet_valid octet then rest else false

unfoldable pub is_valid_ipv4 : Bytes → Bool
unfolding octet_valid octets_valid
is_valid_ipv4 ip = if length ip == 0 then false else octets_valid (getlines b'.' ip) 0

-- What stands before the last dot, if there is one.
before_last_dot : Bytes → Option Bytes
before_last_dot [] = none
before_last_dot (c ∷ s) = elim (before_last_dot s) [
  | some p ↦ some (c ∷ p)
  | none ↦ if c == b'.' then some [] else none
]

unfoldable pub get_subnet : Bytes → Bytes
unfolding before_last_dot
get_subnet ip = get_or (before_last_dot ip) ip

unfoldable pub validate_tuple : FiveTuple → ValidationResult
validate_tuple ft =
    if not (is_valid_ipv4 ft.src_ip)
    then failed (codes "Invalid source IP: " ++ ft.src_ip)
    else if not (is_valid_ipv4 ft.dst_ip)
    then failed (codes "Invalid destination IP: " ++ ft.dst_ip)
    else if ft.src_port == 0
    then failed (codes "Invalid source port: 0 (must be 1-65535)")
    else if ft.dst_port == 0
    then failed (codes "Invalid destination port: 0 (must be 1-65535)")
    else if not (str_eq (map to_upper ft.protocol) (codes "TCP"))
        && not (str_eq (map to_upper ft.protocol) (codes "UDP"))
    then failed (codes "Invalid protocol: " ++ (ft.protocol ++ codes " (must be TCP or UDP)"))
    else passed

unfoldable pub validate_payload_size : Bytes → ℕ → ValidationResult
validate_payload_size payload max_size =
    if ltb max_size (length payload)
    then failed (
        codes "Payload too large: "
        ++ (to_string (length payload)
            ++ (codes " bytes (max " ++ (to_string max_size ++ codes ")"))))
    else if length payload == 0
    then failed (codes "Empty payload")
    else passed

-- `entries` of a tracker, oldest first.
abbrev pub SubnetTracker : Type 0
SubnetTracker = List (ℕ × Bytes)

pub record Security : Type 0 where
  pub subnet_trackers : Dict SubnetTracker

abbrev pub new : Security
new = record { subnet_trackers = [] }

unfoldable pub member : Bytes → List Bytes → Bool
member ip [] = false
member ip (x ∷ xs) = str_eq x ip || member ip xs

-- `unique_ips.insert(entry.second)` for each entry, into a std::set.
unfoldable pub unique_ips : SubnetTracker → List Bytes → List Bytes
unique_ips [] ips = ips
unique_ips ((t, ip) ∷ entries) ips = unique_ips entries (if member ip ips then ips else ip ∷ ips)

abbrev pub tracker_of : Security → Bytes → SubnetTracker
tracker_of s subnet = get_or (find subnet s.subnet_trackers) []

-- The entries of the address's subnet after the old ones have left and this one has come.
unfoldable pub tracked : Security → Bytes → ℕ → SubnetTracker
tracked s src_ip now =
    evict (λ e. e.0) now (seconds spoof_detection_window_sec) (tracker_of s (get_subnet src_ip))
    ++ (now, src_ip) ∷ []

unfoldable pub check_spoofing : Security → Bytes → ℕ → Security × ValidationResult
unfolding tracked
check_spoofing s src_ip now =
    let entries = tracked s src_ip now in
    let count = length (unique_ips entries []) in
    (
      record { subnet_trackers = assign (get_subnet src_ip) entries s.subnet_trackers },
      if ltb spoof_detection_threshold count
          then failed (
              codes "Potential IP spoofing detected from subnet "
              ++ (get_subnet src_ip
                  ++ (codes ".0/24 (" ++ (to_string count ++ codes " unique source IPs)"))))
          else passed,
    )

unfoldable pub full_validation : Security → FiveTuple → Bytes → ℕ → Security × ValidationResult
full_validation s ft payload now =
    let r1 = validate_payload_size payload max_payload_size in
    let r2 = validate_tuple ft in
    let (s', r3) = check_spoofing s ft.src_ip now in
    if not r1.valid
    then (s, r1)
    else if not r2.valid
    then (s, r2)
    else if not r3.valid
    then (s', r3)
    else (s', passed)
