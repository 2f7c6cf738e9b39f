-- ===== src/RateLimiter.antt =====
-- src/rate_limiter.{h,cpp}. The reading of the steady clock and the wall-clock text that a call
-- makes are its arguments. The limits are given as numbers: the program passes positive constants.
pub mod Decision
pub mod Guarantee
pub mod Starvation
pub mod Stateless
pub mod Verdicts
pub mod Examples
use session_affinity_engine.Base.{
  ℕ, ◌≡◌, Bool, true, false, none, some, List, [], ◌∷◌, ◌++◌, leb, if◌then◌else◌, length,
}
use session_affinity_engine.Text.{Bytes, codes}
use session_affinity_engine.Text.Decimal.{to_string}
use session_affinity_engine.Dict.{Dict, find, assign, get_or}
use session_affinity_engine.Window.{seconds, evict}

pub record RequestRecord : Type 0 where
  pub timestamp : ℕ
  pub status : Bytes
  pub reason : Bytes
  pub wall_time : Bytes

pub record RateLimiter : Type 0 where
  pub window_seconds : ℕ
  pub max_requests : ℕ
  pub client_queues : Dict (List RequestRecord)

unfoldable pub new : ℕ → ℕ → RateLimiter
new window limit = record { window_seconds = window; max_requests = limit; client_queues = [] }

unfoldable pub evict_expired : RateLimiter → List RequestRecord → ℕ → List RequestRecord
evict_expired r q now = evict (λ x. x.timestamp) now (seconds r.window_seconds) q

pub rejected : RateLimiter → ℕ → Bytes → RequestRecord
rejected r now wall = record {
  timestamp = now;
  status = codes "REJECTED";
  reason =
      codes "Rate limit exceeded ("
      ++ (to_string r.max_requests
          ++ (codes " req/" ++ (to_string r.window_seconds ++ codes "s)")));
  wall_time = wall;
}

pub allowed : ℕ → Bytes → RequestRecord
allowed now wall = record {
  timestamp = now;
  status = codes "ALLOWED";
  reason = [];
  wall_time = wall;
}

-- `client_queues_[client_key]`, which is created empty when it is not there.
abbrev pub queue_of : RateLimiter → Bytes → List RequestRecord
queue_of r key = get_or (find key r.client_queues) []

unfoldable pub allow_request : RateLimiter → Bytes → ℕ → Bytes → RateLimiter × Bool
unfolding rejected allowed
allow_request r key now wall =
    let q = evict_expired r (queue_of r key) now in
    if leb r.max_requests (length q)
    then (
      record r { client_queues = assign key (q ++ rejected r now wall ∷ []) r.client_queues },
      false,
    )
    else (
      record r { client_queues = assign key (q ++ allowed now wall ∷ []) r.client_queues },
      true,
    )

unfoldable pub get_history : RateLimiter → Bytes → List RequestRecord
get_history r key = elim (find key r.client_queues) [ none ↦ [] | some q ↦ q ]

unfoldable pub current_count : RateLimiter → Bytes → ℕ
current_count r key = elim (find key r.client_queues) [ none ↦ 0 | some q ↦ length q ]

unfoldable pub reset : RateLimiter → RateLimiter
reset r = record r { client_queues = [] }
