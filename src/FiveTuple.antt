-- ===== src/FiveTuple.antt =====
-- src/common.h: the session key, its two printed forms, and the status of a request.
pub mod RoundTrip
pub mod Key
pub mod Examples
use session_affinity_engine.Base.{
  ℕ, ◌≡◌, refl, Bool, true, false, ◌&&◌, ◌||◌, Option, none, some, ℤ, pos, negsuc, List, [], ◌∷◌,
  ◌++◌, ltb, ◌==◌, if◌then◌else◌,
}
use session_affinity_engine.Text.{Bytes, codes, str_eq}
use session_affinity_engine.Text.Decimal.{to_string, stoi}
use session_affinity_engine.Text.Split.{getlines}

-- The ports are `uint16_t`: the operations that write them keep them below 2 ^ 16.
pub record FiveTuple : Type 0 where
  pub src_ip : Bytes
  pub src_port : ℕ
  pub dst_ip : Bytes
  pub dst_port : ℕ
  pub protocol : Bytes

-- "src_ip:src_port->dst_ip:dst_port/protocol"
unfoldable pub to_key : FiveTuple → Bytes
to_key ft =
    ft.src_ip
    ++ (b':'
        ∷ (to_string ft.src_port
            ++ (b'-'
                ∷ b'>'
                ∷ (ft.dst_ip ++ (b':' ∷ (to_string ft.dst_port ++ (b'/' ∷ ft.protocol)))))))

-- "src_ip|src_port|dst_ip|dst_port|protocol"
unfoldable pub serialize : FiveTuple → Bytes
serialize ft =
    ft.src_ip
    ++ (b'|'
        ∷ (to_string ft.src_port
            ++ (b'|' ∷ (ft.dst_ip ++ (b'|' ∷ (to_string ft.dst_port ++ (b'|' ∷ ft.protocol)))))))

-- The `try` block: an exception of `stoi` (`none`) and a port out of range are refused.
store_ports : Option ℤ → Option ℤ → FiveTuple → Bool × FiveTuple
store_ports (some (pos sp)) (some (pos dp)) out =
    if ltb 65535 sp || ltb 65535 dp
    then (false, out)
    else (true, record out { src_port = sp; dst_port = dp })
store_ports sp dp out = (false, out)

-- The three texts are written before the ports are read, and stay written on a failure.
store_tokens : List Bytes → FiveTuple → Bool × FiveTuple
unfolding store_ports
store_tokens (t0 ∷ t1 ∷ t2 ∷ t3 ∷ t4 ∷ more) out =
    store_ports (stoi t1) (stoi t3) (record out { src_ip = t0; dst_ip = t2; protocol = t4 })
store_tokens tokens out = (false, out)

-- The result and the out-parameter.
unfoldable pub deserialize : Bytes → FiveTuple → Bool × FiveTuple
unfolding store_tokens
deserialize text out = store_tokens (getlines b'|' text) out

-- `operator==`
unfoldable pub tuple_eq : FiveTuple → FiveTuple → Bool
tuple_eq a b =
    str_eq a.src_ip b.src_ip
    && a.src_port == b.src_port
    && str_eq a.dst_ip b.dst_ip
    && a.dst_port == b.dst_port
    && str_eq a.protocol b.protocol

pub data RequestStatus : Type 0 where
  success rate_limited invalid_input server_down session_blocked : RequestStatus
  reassigned lb_failover unknown_error : RequestStatus

unfoldable pub status_to_string : RequestStatus → Bytes
status_to_string success = codes "SUCCESS"
status_to_string rate_limited = codes "RATE_LIMITED"
status_to_string invalid_input = codes "INVALID_INPUT"
status_to_string server_down = codes "SERVER_DOWN"
status_to_string session_blocked = codes "SESSION_BLOCKED"
status_to_string reassigned = codes "REASSIGNED"
status_to_string lb_failover = codes "LB_FAILOVER"
status_to_string unknown_error = codes "UNKNOWN_ERROR"

-- The number behind each name of the enumeration.
abbrev status_code : RequestStatus → ℕ
status_code success = 0
status_code rate_limited = 1
status_code invalid_input = 2
status_code server_down = 3
status_code session_blocked = 4
status_code reassigned = 5
status_code lb_failover = 6
status_code unknown_error = 7

abbrev pub status_eq : RequestStatus → RequestStatus → Bool
status_eq a b = status_code a == status_code b

-- One assignment of a session to a backend, for the audit trail.
pub record PathHistoryEntry : Type 0 where
  pub backend_id : ℕ
  pub timestamp : Bytes
  pub reason : Bytes
