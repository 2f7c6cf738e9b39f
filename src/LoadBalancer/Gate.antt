-- ===== src/LoadBalancer/Gate.antt =====
-- Steps 1 to 3 of LoadBalancer::handleRequest: what a request must pass to be routed at all.
use session_affinity_engine.Base.{
  ℕ, ◌≤◌, ◌<◌, ◌≡◌, ◌≢◌, ◌↔◌, true, false, Option, some, arith, ltb, ltb→lt, ltb-false→le, length,
  Bool-cases, inl, inr,
}
use session_affinity_engine.Config.{max_payload_size}
use session_affinity_engine.Text.{Bytes}
use session_affinity_engine.Window.{seconds, recent, IsRising}
use session_affinity_engine.FiveTuple.{FiveTuple, to_key}
use session_affinity_engine.RateLimiter.{allow_request, get_history, queue_of}
use session_affinity_engine.RateLimiter.Decision.{time, allow_request_decision}
use session_affinity_engine.Security.{Security, full_validation, check_spoofing}
use session_affinity_engine.Security.Tuples.{IsValidTuple}
use session_affinity_engine.Security.Full.{full_validation_iff}
use session_affinity_engine.LoadBalancer.{
  LoadBalancer, System, Readings, inactive_reply, invalid_reply, limited_reply, dispatch,
  handle_request,
}

-- The client's records that the limiter counts.
abbrev pub in_force : System → FiveTuple → Readings → ℕ
in_force s ft r =
    length (
      recent time r.limit_now (seconds s.limiter.window_seconds)
        (get_history s.limiter (to_key ft)))

abbrev pub checked : System → FiveTuple → Bytes → Readings → Security
checked s ft payload r = (full_validation s.security ft payload r.spoof_now).0

-- The system past the three steps: the trackers and the client's queue have changed.
abbrev pub admitted : System → FiveTuple → Bytes → Readings → System
admitted s ft payload r = record s {
  security = checked s ft payload r;
  limiter = (allow_request s.limiter (to_key ft) r.limit_now r.limit_wall).0;
}

pub record IsWelcome (s : System) (ft : FiveTuple) (payload : Bytes) (r : Readings) : Type 0 where
  pub given : length payload ≢ 0
  pub small : length payload ≤ max_payload_size
  pub tuple : IsValidTuple ft
  pub not_spoofed : (check_spoofing s.security ft.src_ip r.spoof_now).1.valid ≡ true

-- What becomes of a request at the first three steps.
pub data Gated (lb : LoadBalancer) (s : System) (ft : FiveTuple) (payload : Bytes) (r : Readings)
    (result : Option (System × Bytes)) : Type 0 where
  passive :
      lb.active ≡ false → result ≡ some (s, inactive_reply lb.role) → Gated lb s ft payload r result
  unwelcome :
      (message : Bytes)
      → lb.active ≡ true
      → ¬ IsWelcome s ft payload r
      → result ≡ some (record s { security = checked s ft payload r }, invalid_reply message)
      → Gated lb s ft payload r result
  limited :
      lb.active ≡ true
      → IsWelcome s ft payload r
      → s.limiter.max_requests ≤ in_force s ft r
      → result ≡ some (admitted s ft payload r, limited_reply (to_key ft))
      → Gated lb s ft payload r result
  let_in :
      lb.active ≡ true
      → IsWelcome s ft payload r
      → in_force s ft r < s.limiter.max_requests
      → result ≡ dispatch (admitted s ft payload r) ft r
      → Gated lb s ft payload r result

IsWelcome-iff :
    (s : System) (ft : FiveTuple) (payload : Bytes) (r : Readings)
    → ((full_validation s.security ft payload r.spoof_now).1.valid ≡ true)
      ↔ IsWelcome s ft payload r
IsWelcome-iff s ft payload r =
    let both = full_validation_iff s.security ft payload r.spoof_now in
    (
      λ h.
          let (given, small, tuple, spoof) = both.0 h in
          record { given = given; small = small; tuple = tuple; not_spoofed = spoof },
      λ w. both.1 (w.given, w.small, w.tuple, w.not_spoofed),
    )

-- A passive load balancer changes nothing. An active one routes a request exactly when its payload has
-- from 1 to 1024 bytes, its tuple is valid, its source is not suspected of spoofing, and fewer records
-- of the session than the limit are in the limiter's window; else the sessions, the ring and the
-- backends are as they were, and the limiter too where validation failed. The limiter's queue of the
-- session is to be in order of time.
pub handle_request_gate :
    (lb : LoadBalancer) (s : System) (ft : FiveTuple) (payload : Bytes) (r : Readings)
    → IsRising time (queue_of s.limiter (to_key ft))
    → Gated lb s ft payload r (handle_request lb s ft payload r)
unfolding handle_request
handle_request_gate lb s ft payload r rising =
    let (in_, out) = IsWelcome-iff s ft payload r in
    let verdict =
      (allow_request_decision s.limiter (to_key ft) r.limit_now r.limit_wall rising).0 in
    elim (Bool-cases lb.active) [
      | inr off ↦ passive off (ground arith)
      | inl on ↦ elim (Bool-cases (full_validation s.security ft payload r.spoof_now).1.valid) [
        | inr bad ↦
            unwelcome (full_validation s.security ft payload r.spoof_now).1.error_message on
              (λ w. ground (arith, out w)) (ground arith)
        | inl good ↦ elim (Bool-cases (ltb (in_force s ft r) s.limiter.max_requests)) [
          | inl few ↦ let_in on (in_ good) (ltb→lt _ _ few) (ground arith)
          | inr many ↦ limited on (in_ good) (ltb-false→le _ _ many) (ground arith)
        ]
      ]
    ]
