-- ===== src/LoadBalancer/Safety.antt =====
-- LoadBalancer::handleRequest as a whole.
use session_affinity_engine.Base.{◌≡◌, refl, true, not, Option, some, if_intro}
use session_affinity_engine.Text.{Bytes}
use session_affinity_engine.FiveTuple.{FiveTuple, to_key}
use session_affinity_engine.RateLimiter.{allow_request}
use session_affinity_engine.Security.{full_validation}
use session_affinity_engine.LoadBalancer.{
  LoadBalancer, System, Readings, dispatch, handle_request, inactive_reply, invalid_reply,
  limited_reply,
}
use session_affinity_engine.LoadBalancer.Backends.{SystemInv}
use session_affinity_engine.LoadBalancer.Gate.{admitted}
use session_affinity_engine.LoadBalancer.Pipeline.{delivered, shut, no_server, dispatch_outcome}

-- The call returns, and the system that it leaves agrees with itself.
abbrev pub IsSafe : Option (System × Bytes) → Type 0
IsSafe result = (s : System) × (reply : Bytes) × (result ≡ some (s, reply)) × SystemInv s

dispatch-IsSafe :
    (s : System) (ft : FiveTuple) (r : Readings) → SystemInv s → IsSafe (dispatch s ft r)
dispatch-IsSafe s ft r i = elim (dispatch_outcome s ft r i) [
  | delivered s' status b n st e d ↦ (s', _, e, d.inv)
  | shut entry here closed e ↦ (s, _, e, i)
  | no_server m gone e ↦ (_, _, e, record { ring = i.ring; agrees = i.agrees; named = i.named })
]

-- In a system that agrees with itself, whatever the request and the role: the call never reads outside
-- the vector of backends, it gives a reply, and the ring still agrees with the backends online.
pub handle_request-IsSafe :
    (lb : LoadBalancer) (s : System) (ft : FiveTuple) (payload : Bytes) (r : Readings)
    → SystemInv s
    → IsSafe (handle_request lb s ft payload r)
unfolding handle_request
handle_request-IsSafe lb s ft payload r i =
    let (security, validation) = full_validation s.security ft payload r.spoof_now in
    let same : SystemInv (record s { security = security }) = record {
      ring = i.ring;
      agrees = i.agrees;
      named = i.named;
    } in
    let past : SystemInv (admitted s ft payload r) = record {
      ring = i.ring;
      agrees = i.agrees;
      named = i.named;
    } in
    if_intro IsSafe (not lb.active) _ _ (s, inactive_reply lb.role, refl, i)
      (if_intro IsSafe (not validation.valid) _ _
        (_, invalid_reply validation.error_message, refl, same)
        (if_intro IsSafe (not (allow_request s.limiter (to_key ft) r.limit_now r.limit_wall).1) _ _
          (_, limited_reply (to_key ft), refl, past)
          (dispatch-IsSafe (admitted s ft payload r) ft r past)))

-- The two load balancers share all that a request depends on: whichever of them is active, it leaves the
-- same system and gives the same reply.
pub handle_request_takeover :
    (primary standby : LoadBalancer) (s : System) (ft : FiveTuple) (payload : Bytes) (r : Readings)
    → primary.active ≡ true
    → standby.active ≡ true
    → handle_request standby s ft payload r ≡ handle_request primary s ft payload r
unfolding handle_request
handle_request_takeover primary standby s ft payload r p q = rw (p, q)
