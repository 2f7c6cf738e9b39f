-- ===== src/LoadBalancer/Affinity.antt =====
-- Two requests of one session in a row through LoadBalancer::handleRequest.
use session_affinity_engine.Base.{ℕ, ◌+◌, ◌≤◌, ◌≡◌, ◌∙◌, true, some, arith}
use session_affinity_engine.Text.{Bytes}
use session_affinity_engine.Window.{seconds}
use session_affinity_engine.FiveTuple.{FiveTuple, to_key}
use session_affinity_engine.RateLimiter.{allow_request}
use session_affinity_engine.Security.{full_validation}
use session_affinity_engine.Sessions.{timeout_of}
use session_affinity_engine.RequestHandler.{success_reply}
use session_affinity_engine.LoadBalancer.{LoadBalancer, System, Readings, dispatch, handle_request}
use session_affinity_engine.LoadBalancer.Gate.{admitted}
use session_affinity_engine.LoadBalancer.Pipeline.{Delivered}
use session_affinity_engine.LoadBalancer.Settled.{Delivered-IsSettled, dispatch-IsSettled}

pub past_gate :
    (lb : LoadBalancer) (s : System) (ft : FiveTuple) (payload : Bytes) (r : Readings)
    → lb.active ≡ true
    → (full_validation s.security ft payload r.spoof_now).1.valid ≡ true
    → (allow_request s.limiter (to_key ft) r.limit_now r.limit_wall).1 ≡ true
    → handle_request lb s ft payload r ≡ dispatch (admitted s ft payload r) ft r
unfolding handle_request
past_gate lb s ft payload r on valid under = ground arith

-- After a request was processed by a backend as number `n` of its session, let the session's next request
-- come with no other in between, to a load balancer that is active, pass the validation and the limiter,
-- and be routed within the session's timeout. It is processed by the same backend as number `n + 1`, and
-- the reply says so.
pub handle_request-Delivered :
    (lb : LoadBalancer) (s : System) (ft : FiveTuple) (payload : Bytes) (now b n : ℕ) (s' : System)
    (d : Delivered s (to_key ft) now b n s') (r : Readings)
    → lb.active ≡ true
    → (full_validation s'.security ft payload r.spoof_now).1.valid ≡ true
    → (allow_request s'.limiter (to_key ft) r.limit_now r.limit_wall).1 ≡ true
    → r.route_later
      ≤ now + seconds (timeout_of s'.sessions.default_timeout_sec d.routed.session.custom_timeout)
    → (s'' : System) × (handle_request lb s' ft payload r ≡ some (s'', success_reply b (n + 1)))
      × Delivered (admitted s' ft payload r) (to_key ft) r.route_now b (n + 1) s''
handle_request-Delivered lb s ft payload now b n s' d r on valid under prompt =
    let ready : Delivered s (to_key ft) now b n (admitted s' ft payload r) = record {
      handler = d.handler;
      before = d.before;
      online = d.online;
      routed = d.routed;
      number = d.number;
      after = d.after;
      stored = d.stored;
      counted = d.counted;
      total = d.total;
      others = d.others;
      same_ring = d.same_ring;
      inv = record { ring = d.inv.ring; agrees = d.inv.agrees; named = d.inv.named };
    } in
    let (s'', reply, next) =
      dispatch-IsSettled ft now b n d.routed.session (admitted s' ft payload r)
        (Delivered-IsSettled ready) r prompt in
    (s'', past_gate lb s' ft payload r on valid under ∙ reply, next)
