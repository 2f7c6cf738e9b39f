-- ===== src/RequestHandler.antt =====
-- src/request_handler.{h,cpp}: a backend server. Its counters are C++ `int`s, taken here as numbers
-- that do not run out: 2 ^ 31 requests to one backend are not modelled.
pub mod Counts
pub mod Examples
use session_affinity_engine.Base.{
  ℕ, ◌+◌, Bool, true, false, not, none, some, List, [], ◌∷◌, ◌++◌, if◌then◌else◌,
}
use session_affinity_engine.Config.{backend_base_port}
use session_affinity_engine.Text.{Bytes, codes}
use session_affinity_engine.Text.Decimal.{to_string}
use session_affinity_engine.Dict.{Dict, find, assign, get_or}
use session_affinity_engine.FiveTuple.{FiveTuple, to_key}

pub record SessionData : Type 0 where
  pub tuple_key : Bytes
  pub request_count : ℕ
  pub last_request_time : Bytes
  pub metadata : Bytes

pub record RequestHandler : Type 0 where
  pub id : ℕ
  pub online : Bool
  pub local_data : Dict SessionData
  pub total_requests : ℕ

abbrev pub new : ℕ → RequestHandler
new id = record { id = id; online = true; local_data = []; total_requests = 0 }

-- What `local_data_[key]` creates.
abbrev pub blank : SessionData
blank = record { tuple_key = []; request_count = 0; last_request_time = []; metadata = [] }

abbrev pub data_of : RequestHandler → Bytes → SessionData
data_of h key = get_or (find key h.local_data) blank

-- The handler's data on the tuple after one more request.
abbrev pub counted : RequestHandler → Bytes → Bytes → SessionData
counted h key stamp = record {
  tuple_key = key;
  request_count = (data_of h key).request_count + 1;
  last_request_time = stamp;
  metadata = codes "Processed by backend " ++ to_string h.id;
}

unfoldable pub offline_reply : ℕ → Bytes
offline_reply id = codes "ERROR: Server " ++ (to_string id ++ codes " is offline")

unfoldable pub success_reply : ℕ → ℕ → Bytes
success_reply id count =
    codes "SUCCESS: Processed by backend "
    ++ (to_string id ++ (codes " (request #" ++ (to_string count ++ codes " for this session)")))

-- The handler and the reply; `stamp` is what the call reads from the wall clock.
unfoldable pub process_request : RequestHandler → FiveTuple → Bytes → RequestHandler × Bytes
process_request h ft stamp = if not h.online then (h, offline_reply h.id) else (
  record h {
    total_requests = h.total_requests + 1;
    local_data = assign (to_key ft) (counted h (to_key ft) stamp) h.local_data;
  },
  success_reply h.id (counted h (to_key ft) stamp).request_count,
)

abbrev pub start : RequestHandler → RequestHandler
start h = record h { online = true }

abbrev pub stop : RequestHandler → RequestHandler
stop h = record h { online = false }

unfoldable pub get_port : RequestHandler → ℕ
get_port h = backend_base_port + h.id
