-- ===== src/LoadBalancer/Examples/Sequel.antt =====
-- The theorems about src/load_balancer.cpp where a backend has stopped and where a request follows another.
use session_affinity_engine.Base.{
  ℕ, zero, suc, ◌+◌, ◌≤◌, ◌≢◌, ◌≡◌, refl, true, none, false, some, List, [], ◌∷◌, arith, contains,
  get_elem?,
}
use session_affinity_engine.Text.{codes, str_eq}
use session_affinity_engine.Window.{seconds}
use session_affinity_engine.FiveTuple.{to_key, success}
use session_affinity_engine.RateLimiter.{allow_request}
use session_affinity_engine.Security.{full_validation}
use session_affinity_engine.Sessions.{SessionManager, timeout_of, fresh_entry}
use session_affinity_engine.RequestHandler.{
  RequestHandler, process_request, offline_reply, success_reply, stop,
}
use session_affinity_engine.LoadBalancer.{
  System, primary, standby, activate, new, finish, dispatch, handle_request,
}
use session_affinity_engine.LoadBalancer.Backends.{finish-SystemInv}
use session_affinity_engine.LoadBalancer.Gate.{admitted}
use session_affinity_engine.LoadBalancer.Pipeline.{routed, Delivered}
use session_affinity_engine.LoadBalancer.Interleaving.{Request, run_requests, handle_request-sequel}
use session_affinity_engine.LoadBalancer.Recovery.{IsStaffed, Recovered, dispatch-Recovered}
use session_affinity_engine.LoadBalancer.Examples.{
  program, system, client, readings, two-RingInv, system-SystemInv,
}

-- Backend 0 has stopped behind the ring's back.
abbrev stale : System
stale = record system {
  backends =
      stop (session_affinity_engine.RequestHandler.new 0)
      ∷ session_affinity_engine.RequestHandler.new 1
      ∷ [];
}

stale-IsStaffed : IsStaffed stale
unfolding program
stale-IsStaffed = record { ring = two-RingInv; staffed = two_staffed }
  where
    two_staffed :
        (b : ℕ)
        → contains (0 ∷ 1 ∷ []) b ≡ true
        → (h : RequestHandler) × (get_elem? stale.backends b ≡ some h) × (h.id ≡ b)
    two_staffed zero up = (stop (session_affinity_engine.RequestHandler.new 0), refl, refl)
    two_staffed (suc zero) up = (session_affinity_engine.RequestHandler.new 1, refl, refl)
    two_staffed (suc (suc b)) up = absurd (ground arith)

stale_choice : (routed stale client readings).2 ≡ some 0
unfolding program
stale_choice = refl

dispatch-Recovered_example : Recovered stale client readings 0 (dispatch stale client readings)
dispatch-Recovered_example =
    dispatch-Recovered stale client readings 0 (stop (session_affinity_engine.RequestHandler.new 0))
      stale-IsStaffed stale_choice refl refl

-- The system after the first request of the client, and the delivery of that request.
abbrev table : SessionManager
table = (routed system client readings).0

abbrev served_once : System
served_once =
    (finish (record system { sessions = table }) client 0
      (session_affinity_engine.RequestHandler.new 0) success (codes "12:00")).0

found_zero : get_elem? system.backends 0 ≡ some (session_affinity_engine.RequestHandler.new 0)
found_zero = refl

delivery : Delivered system (to_key client) 3 0 1 served_once
unfolding program
delivery = record {
  handler = session_affinity_engine.RequestHandler.new 0;
  before = refl;
  online = refl;
  routed = record {
    session = fresh_entry client 0 3 (codes "12:00");
    stored = refl;
    backend = refl;
    active = refl;
    unblocked = refl;
    accessed = refl;
  };
  number = refl;
  after = (process_request (session_affinity_engine.RequestHandler.new 0) client (codes "12:00")).0;
  stored = refl;
  counted = refl;
  total = refl;
  others = not_zero;
  same_ring = refl;
  inv =
      finish-SystemInv (record system { sessions = table }) client 0
        (session_affinity_engine.RequestHandler.new 0) success (codes "12:00") found_zero
        (record {
          ring = system-SystemInv.ring;
          agrees = system-SystemInv.agrees;
          named = system-SystemInv.named;
        });
}
  where
    not_zero : (c : ℕ) → c ≢ 0 → get_elem? served_once.backends c ≡ get_elem? system.backends c
    not_zero zero apart = absurd (apart refl)
    not_zero (suc c) apart = refl

-- Another client's request comes in between, to a standby that has taken over.
abbrev in_between : List Request
in_between =
    record {
      lb = activate (new standby 0);
      tuple = record client { src_ip = codes "10.0.0.9" };
      payload = codes "hello";
      readings = readings;
    }
    ∷ []

abbrev later : System
later = elim (run_requests served_once in_between) [ none ↦ served_once | some t ↦ t ]

ran : run_requests served_once in_between ≡ some later
unfolding program run_requests
ran = refl

other_client : str_eq (to_key (record client { src_ip = codes "10.0.0.9" })) (to_key client) ≡ false
unfolding program
other_client = refl

valid_request : (full_validation later.security client (codes "hello") 1).1.valid ≡ true
unfolding program run_requests
valid_request = refl

under_limit : (allow_request later.limiter (to_key client) 2 (codes "12:00")).1 ≡ true
unfolding program run_requests
under_limit = refl

in_time :
    4
    ≤ 3
      + seconds
          (timeout_of later.sessions.default_timeout_sec delivery.routed.session.custom_timeout)
unfolding program delivery run_requests
in_time = omega arith

handle_request-sequel_example :
    (t' : System) × (handle_request (new primary 0) later client (codes "hello") readings
      ≡ some (t', success_reply 0 2))
    × Delivered (admitted later client (codes "hello") readings) (to_key client) 3 0 2 t'
handle_request-sequel_example =
    handle_request-sequel system client 3 0 1 served_once delivery in_between later (new primary 0)
      (codes "hello") readings (other_client, tt) ran refl valid_request under_limit in_time
