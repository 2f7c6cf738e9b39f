-- ===== src/Security/Examples.antt =====
-- Tests of src/security.cpp, and the theorems about it at concrete requests.
use session_affinity_engine.Base.{
  ◌≡◌, ◌≢◌, ◌↔◌, refl, true, false, List, [], ◌∷◌, ◌++◌, leb, length,
}
use session_affinity_engine.Config.{spoof_detection_threshold, spoof_detection_window_sec}
use session_affinity_engine.Text.{Bytes, codes, str_eq, is_digit, to_upper}
use session_affinity_engine.Text.Decimal.{to_string, stoi}
use session_affinity_engine.Text.Split.{getlines}
use session_affinity_engine.Dict.{find, assign}
use session_affinity_engine.Window.{seconds, evict, recent}
use session_affinity_engine.FiveTuple.{FiveTuple}
use session_affinity_engine.Security.{
  new, is_valid_ipv4, get_subnet, validate_tuple, validate_payload_size, member, unique_ips,
  tracker_of, tracked, check_spoofing, full_validation,
}
use session_affinity_engine.Security.Ipv4.{IsIpv4, is_valid_ipv4_iff}
use session_affinity_engine.Security.Tuples.{to_key-validate_tuple_inj}
use session_affinity_engine.Security.Spoofing.{DistinctIps, seen, time, check_spoofing_decision}

program : Unit {0}
unfolding str_eq is_digit to_upper to_string stoi getlines find assign evict is_valid_ipv4
    get_subnet validate_tuple validate_payload_size unique_ips tracked check_spoofing
    full_validation recent member
program = tt

plain_address : is_valid_ipv4 (codes "192.168.1.10") ≡ true
unfolding program
plain_address = refl

big_octet : is_valid_ipv4 (codes "192.168.1.256") ≡ false
unfolding program
big_octet = refl

zero_padded : is_valid_ipv4 (codes "192.168.01.1") ≡ false
unfolding program
zero_padded = refl

three_octets : is_valid_ipv4 (codes "192.168.1") ≡ false
unfolding program
three_octets = refl

-- A dot at the end goes unnoticed.
trailing_dot : is_valid_ipv4 (codes "192.168.1.10.") ≡ true
unfolding program
trailing_dot = refl

subnet : get_subnet (codes "192.168.1.10") ≡ codes "192.168.1"
unfolding program
subnet = refl

abbrev request : FiveTuple
request = record {
  src_ip = codes "192.168.1.10";
  src_port = 1234;
  dst_ip = codes "10.0.0.1";
  dst_port = 80;
  protocol = codes "tcp";
}

request_passes : (full_validation new request (codes "hello") 7).1.valid ≡ true
unfolding program
request_passes = refl

port_zero : (validate_tuple (record request { src_port = 0 })).valid ≡ false
unfolding program
port_zero = refl

request_valid : (validate_tuple request).valid ≡ true
unfolding program
request_valid = refl

is_valid_ipv4_iff_example : (is_valid_ipv4 (codes "1.2.3.4.") ≡ true) ↔ IsIpv4 (codes "1.2.3.4.")
is_valid_ipv4_iff_example = is_valid_ipv4_iff (codes "1.2.3.4.")

to_key-validate_tuple_inj_example : request ≡ request
to_key-validate_tuple_inj_example =
    to_key-validate_tuple_inj request request request_valid request_valid refl

check_spoofing_decision_example :
    let entries =
      recent time 7
        (seconds spoof_detection_window_sec)
        (tracker_of new (get_subnet request.src_ip))
      ++ (7, request.src_ip) ∷ [] in
    let after = check_spoofing new request.src_ip 7 in
    (tracker_of after.0 (get_subnet request.src_ip) ≡ entries)
    × ((ips : List Bytes) × DistinctIps ips
        × ((a : Bytes) → member a ips ≡ seen a entries)
        × (after.1.valid ≡ leb (length ips) spoof_detection_threshold))
    × ((other : Bytes)
        → other ≢ get_subnet request.src_ip
        → tracker_of after.0 other ≡ tracker_of new other)
check_spoofing_decision_example = check_spoofing_decision new request.src_ip 7 (unfold find in tt)
