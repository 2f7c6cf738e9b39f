-- ===== src/LoadBalancer.antt =====
-- src/load_balancer.{h,cpp}. Both load balancers hold references to the same manager, ring, limiter,
-- security module and backends: that shared state is a `System`, which each call takes and returns. A
-- result of `none` is a read outside the vector of backends, which the source leaves undefined.
pub mod Backends
pub mod Gate
pub mod Pipeline
pub mod Safety
pub mod Recovery
pub mod Settled
pub mod Affinity
pub mod Interleaving
pub mod Examples
use session_affinity_engine.Base.{
  ℕ, ◌-◌, Bool, true, false, not, Option, none, some, ℤ, pos, negsuc, List, ◌++◌, ltb, ◌==◌, ◌/◌,
  if◌then◌else◌, get_elem?, set,
}
use session_affinity_engine.Config.{
  lb_primary_port, lb_standby_port, lb_failover_threshold_ms, rate_limit_max_requests,
  rate_limit_window_sec,
}
use session_affinity_engine.Text.{Bytes, codes, em_dash}
use session_affinity_engine.Text.Decimal.{to_string}
use session_affinity_engine.FiveTuple.{
  FiveTuple, to_key, RequestStatus, status_eq, server_down, session_blocked, reassigned,
}
use session_affinity_engine.Ring.{ConsistentHashRing, add_server, remove_server}
use session_affinity_engine.RateLimiter.{RateLimiter, allow_request}
use session_affinity_engine.Security.{Security, full_validation}
use session_affinity_engine.Sessions.{SessionManager, route_request}
use session_affinity_engine.Sessions.Passes.{handle_server_down}
use session_affinity_engine.RequestHandler.{RequestHandler, process_request, start, stop}

pub data LbRole : Type 0 where
  primary standby : LbRole

pub record LoadBalancer : Type 0 where
  pub role : LbRole
  pub active : Bool
  pub last_heartbeat : ℕ

pub record System : Type 0 where
  pub sessions : SessionManager
  pub ring : ConsistentHashRing
  pub limiter : RateLimiter
  pub security : Security
  pub backends : List RequestHandler

-- What one call of `handleRequest` reads from the clocks, in the order in which it may do so.
pub record Readings : Type 0 where
  pub spoof_now : ℕ
  pub limit_now : ℕ
  pub limit_wall : Bytes
  pub route_now : ℕ
  pub route_later : ℕ
  pub route_stamp : Bytes
  pub down_clock : ℕ → ℕ
  pub down_wall : ℕ → Bytes
  pub retry_now : ℕ
  pub retry_later : ℕ
  pub retry_stamp : Bytes
  pub process_stamp : Bytes

abbrev pub is_primary : LbRole → Bool
is_primary primary = true
is_primary standby = false

abbrev pub new : LbRole → ℕ → LoadBalancer
new role now = record { role = role; active = is_primary role; last_heartbeat = now }

abbrev pub role_str : LbRole → Bytes
role_str primary = codes "PRIMARY"
role_str standby = codes "STANDBY"

unfoldable pub inactive_reply : LbRole → Bytes
inactive_reply role = codes "ERROR: Load balancer [" ++ (role_str role ++ codes "] is not active")

unfoldable pub invalid_reply : Bytes → Bytes
invalid_reply message =
    codes "ERROR: Security validation failed " ++ (em_dash ++ (codes " " ++ message))

unfoldable pub limited_reply : Bytes → Bytes
limited_reply key =
    codes "ERROR: Rate limit exceeded for session "
    ++ (key
        ++ (codes ". Max "
            ++ (to_string rate_limit_max_requests
                ++ (codes " requests per "
                    ++ (to_string rate_limit_window_sec ++ codes "s window.")))))

unfoldable pub blocked_reply : Bytes → Bytes
blocked_reply key = codes "ERROR: Session " ++ (key ++ codes " is blocked by administrator policy")

unfoldable pub no_server_reply : Bytes
no_server_reply = codes "ERROR: No backend servers available to handle request"

unfoldable pub invalid_backend_reply : Bytes
invalid_backend_reply =
    codes "ERROR: Internal routing error " ++ (em_dash ++ codes " invalid backend ID")

unfoldable pub reassigned_note : RequestStatus → Bytes → Bytes
reassigned_note status response =
    if status_eq status reassigned
    then response ++ (codes " [REASSIGNED " ++ (em_dash ++ codes " previous backend was down]"))
    else response

-- The end of `handleRequest`: the backend processes the request.
unfoldable pub finish :
    System → FiveTuple → ℕ → RequestHandler → RequestStatus → Bytes → System × Bytes
finish s ft backend handler status stamp =
    let (handler', response) = process_request handler ft stamp in
    (record s { backends = set s.backends backend handler' }, reassigned_note status response)

-- Step 5 where the backend has gone offline, once it is off the ring and its sessions have moved.
retry : System → FiveTuple → ℕ → Readings → Option (System × Bytes)
retry s ft backend r =
    let (m, status, assigned) =
      route_request s.sessions s.ring ft (some backend) r.retry_now r.retry_later r.retry_stamp in
    let s' : System = record s { sessions = m } in
    if status_eq status server_down
    then some (s', codes "ERROR: No backend servers available after failover")
    else elim assigned [
      | none ↦ some (s', codes "ERROR: No backend servers available after failover")
      | some b ↦ elim (get_elem? s.backends b) [
        | none ↦ none
        | some handler ↦
            if not handler.online
            then some (s', codes "ERROR: Failover target also unavailable")
            else some (finish s' ft b handler status r.process_stamp)
      ]
    ]

-- `removeServer` and `handleServerDown` for a backend.
unfoldable pub evacuate : System → ℕ → (ℕ → ℕ) → (ℕ → Bytes) → System
evacuate s backend clock wall =
    let ring = remove_server s.ring backend in
    record s { ring = ring; sessions = handle_server_down s.sessions ring backend clock wall }

-- Step 5.
forward : System → FiveTuple → ℕ → RequestStatus → Readings → Option (System × Bytes)
unfolding retry
forward s ft backend status r = elim (get_elem? s.backends backend) [
  | none ↦ some (s, invalid_backend_reply)
  | some handler ↦
      if not handler.online
      then retry (evacuate s backend r.down_clock r.down_wall) ft backend r
      else some (finish s ft backend handler status r.process_stamp)
]

-- Step 4 and what follows.
unfoldable pub dispatch : System → FiveTuple → Readings → Option (System × Bytes)
unfolding forward
dispatch s ft r =
    let (m, status, assigned) =
      route_request s.sessions s.ring ft none r.route_now r.route_later r.route_stamp in
    let s' : System = record s { sessions = m } in
    if status_eq status session_blocked
    then some (s', blocked_reply (to_key ft))
    else if status_eq status server_down
    then some (s', no_server_reply)
    else elim assigned [
      | none ↦ some (s', invalid_backend_reply)
      | some backend ↦ forward s' ft backend status r
    ]

unfoldable pub handle_request :
    LoadBalancer → System → FiveTuple → Bytes → Readings → Option (System × Bytes)
handle_request lb s ft payload r =
    let (security, validation) = full_validation s.security ft payload r.spoof_now in
    let (limiter, allowed) = allow_request s.limiter (to_key ft) r.limit_now r.limit_wall in
    if not lb.active
    then some (s, inactive_reply lb.role)
    else if not validation.valid
    then some (record s { security = security }, invalid_reply validation.error_message)
    else if not allowed
    then some (record s { security = security; limiter = limiter }, limited_reply (to_key ft))
    else dispatch (record s { security = security; limiter = limiter }) ft r

abbrev pub send_heartbeat : LoadBalancer → ℕ → LoadBalancer
send_heartbeat lb now = record lb { last_heartbeat = now }

-- The nanoseconds since the heartbeat, as whole milliseconds.
unfoldable pub should_takeover : ℕ → ℕ → Bool
should_takeover primary_last_hb now =
    ltb lb_failover_threshold_ms ((now - primary_last_hb) / 1000000)

abbrev pub activate : LoadBalancer → LoadBalancer
activate lb = record lb { active = true }

abbrev pub deactivate : LoadBalancer → LoadBalancer
deactivate lb = record lb { active = false }

abbrev pub get_port : LoadBalancer → ℕ
get_port lb = if is_primary lb.role then lb_primary_port else lb_standby_port

-- A server id that is negative or past the backends is ignored.
unfoldable pub take_backend_offline : System → ℤ → (ℕ → ℕ) → (ℕ → Bytes) → System
take_backend_offline s (negsuc n) clock wall = s
take_backend_offline s (pos n) clock wall = elim (get_elem? s.backends n) [
  | none ↦ s
  | some handler ↦ evacuate (record s { backends = set s.backends n (stop handler) }) n clock wall
]

unfoldable pub bring_backend_online : System → ℤ → System
bring_backend_online s (negsuc n) = s
bring_backend_online s (pos n) = elim (get_elem? s.backends n) [
  | none ↦ s
  | some handler ↦ record s {
    backends = set s.backends n (start handler);
    ring = add_server s.ring n;
  }
]
