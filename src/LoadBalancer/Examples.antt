-- ===== src/LoadBalancer/Examples.antt =====
-- Tests of src/load_balancer.cpp, and the theorems about it in a system of two backends.
mod Sequel
use session_affinity_engine.Base.{
  ℕ, zero, suc, ◌+◌, ◌≤◌, ◌≢◌, ◌≡◌, refl, true, false, none, some, pos, [], ◌∷◌, ◌++◌, arith,
  contains, get_elem?,
}
use session_affinity_engine.Text.{Bytes, codes, str_eq, em_dash, is_digit, to_upper}
use session_affinity_engine.Text.Decimal.{to_string, stoi}
use session_affinity_engine.Text.Split.{getlines}
use session_affinity_engine.Dict.{find, assign, erase}
use session_affinity_engine.Window.{seconds, evict, IsRising}
use session_affinity_engine.FiveTuple.{FiveTuple, to_key, success}
use session_affinity_engine.Ring.OrderedMap.{insert, lower_bound}
use session_affinity_engine.Ring.Hash.{hash_key, vnode_hash}
use session_affinity_engine.Ring.Invariant.{RingInv, new-RingInv, add_server-RingInv}
use session_affinity_engine.Ring.{
  ConsistentHashRing, add_vnodes, add_server, remove_id, remove_vnodes, remove_server, get_server,
}
use session_affinity_engine.RateLimiter.{evict_expired, allow_request, queue_of}
use session_affinity_engine.RateLimiter.Decision.{time}
use session_affinity_engine.Security.{
  is_valid_ipv4, get_subnet, validate_tuple, validate_payload_size, member, unique_ips,
  check_spoofing, full_validation,
}
use session_affinity_engine.Sessions.{
  SessionManager, timeout_of, fresh_entry, is_expired, route_request,
}
use session_affinity_engine.Sessions.Passes.{redistribute_entry, redistribute, handle_server_down}
use session_affinity_engine.RequestHandler.{
  RequestHandler, process_request, offline_reply, success_reply, stop,
}
use session_affinity_engine.LoadBalancer.{
  System, Readings, primary, standby, new, finish, evacuate, dispatch, handle_request,
  should_takeover, get_port, take_backend_offline, bring_backend_online, invalid_reply,
  limited_reply, reassigned_note,
}
use session_affinity_engine.LoadBalancer.Backends.{
  SystemInv, is_up, finish-SystemInv, backends-SystemInv,
}
use session_affinity_engine.LoadBalancer.Gate.{admitted, Gated, handle_request_gate}
use session_affinity_engine.LoadBalancer.Pipeline.{routed, Delivered, Dispatched, dispatch_outcome}
use session_affinity_engine.LoadBalancer.Affinity.{handle_request-Delivered}
use session_affinity_engine.LoadBalancer.Recovery.{IsStaffed, Recovered, dispatch-Recovered}
use session_affinity_engine.LoadBalancer.Safety.{IsSafe, handle_request-IsSafe}

program : Unit {0}
unfolding str_eq is_digit to_upper to_key to_string stoi getlines find assign erase evict hash_key
    vnode_hash insert lower_bound session_affinity_engine.Ring.OrderedMap.erase contains add_vnodes
    session_affinity_engine.Ring.new add_server remove_id remove_vnodes remove_server get_server
    session_affinity_engine.RateLimiter.new evict_expired allow_request is_valid_ipv4 get_subnet
    validate_tuple validate_payload_size member unique_ips check_spoofing full_validation is_expired
    route_request redistribute_entry redistribute handle_server_down process_request offline_reply
    success_reply finish evacuate dispatch handle_request should_takeover take_backend_offline
    bring_backend_online invalid_reply limited_reply reassigned_note
program = tt

abbrev two : ConsistentHashRing
two = add_server (add_server (session_affinity_engine.Ring.new 2) 0) 1

abbrev system : System
system = record {
  sessions = session_affinity_engine.Sessions.new 300;
  ring = two;
  limiter = session_affinity_engine.RateLimiter.new 60 100;
  security = session_affinity_engine.Security.new;
  backends =
      session_affinity_engine.RequestHandler.new 0
      ∷ session_affinity_engine.RequestHandler.new 1
      ∷ [];
}

abbrev client : FiveTuple
client = record {
  src_ip = codes "10.0.0.1";
  src_port = 1;
  dst_ip = codes "10.0.0.2";
  dst_port = 2;
  protocol = codes "TCP";
}

abbrev readings : Readings
readings = record {
  spoof_now = 1;
  limit_now = 2;
  limit_wall = codes "12:00";
  route_now = 3;
  route_later = 4;
  route_stamp = codes "12:00";
  down_clock = λ i. 5;
  down_wall = λ i. codes "12:00";
  retry_now = 6;
  retry_later = 7;
  retry_stamp = codes "12:00";
  process_stamp = codes "12:00";
}

abbrev reply_to : System → FiveTuple → Bytes → Bytes
reply_to s ft payload = elim (handle_request (new primary 0) s ft payload readings) [
  | none ↦ []
  | some (s', reply) ↦ reply
]

first_reply :
    reply_to system client (codes "hello")
    ≡ codes "SUCCESS: Processed by backend 0 (request #1 for this session)"
unfolding program
first_reply = refl

-- With backend 0 taken offline the other one serves.
second_choice :
    reply_to (take_backend_offline system (pos 0) (λ i. 5) (λ i. [])) client (codes "hello")
    ≡ codes "SUCCESS: Processed by backend 1 (request #1 for this session)"
unfolding program
second_choice = refl

-- Backend 0 has stopped and is still on the ring: the failover inside the call finds the other one. The
-- reply has no note of it.
inner_failover :
    reply_to
      (record system {
        backends =
            stop (session_affinity_engine.RequestHandler.new 0)
            ∷ session_affinity_engine.RequestHandler.new 1
            ∷ [];
      })
      client
      (codes "hello")
    ≡ codes "SUCCESS: Processed by backend 1 (request #1 for this session)"
unfolding program
inner_failover = refl

empty_payload :
    reply_to system client []
    ≡ codes "ERROR: Security validation failed " ++ (em_dash ++ codes " Empty payload")
unfolding program
empty_payload = refl

takeover_threshold : should_takeover 0 3000999999 ≡ false
unfolding program
takeover_threshold = refl

standby_port : get_port (new standby 0) ≡ 9001
standby_port = refl

two-RingInv : RingInv two
two-RingInv = add_server-RingInv _ 1 (add_server-RingInv _ 0 (new-RingInv 2))

system-SystemInv : SystemInv system
unfolding program
system-SystemInv = record { ring = two-RingInv; agrees = two_online; named = two_named }
  where
    two_online : (b : ℕ) → contains (0 ∷ 1 ∷ []) b ≡ is_up system.backends b
    two_online zero = refl
    two_online (suc zero) = refl
    two_online (suc (suc b)) = ground arith

    two_named : (b : ℕ) (h : RequestHandler) → get_elem? system.backends b ≡ some h → h.id ≡ b
    two_named zero h e = ground arith
    two_named (suc zero) h e = ground arith
    two_named (suc (suc b)) h e = cc

dispatch_outcome_example : Dispatched system client readings (dispatch system client readings)
dispatch_outcome_example = dispatch_outcome system client readings system-SystemInv

nothing-IsRising : IsRising time (queue_of system.limiter (to_key client))
unfolding program
nothing-IsRising = tt

handle_request_gate_example :
    Gated
      (new primary 0)
      system
      client
      (codes "hello")
      readings
      (handle_request (new primary 0) system client (codes "hello") readings)
handle_request_gate_example =
    handle_request_gate (new primary 0) system client (codes "hello") readings nothing-IsRising

backends-SystemInv_example :
    SystemInv (take_backend_offline system (pos 1) (λ i. 5) (λ i. []))
    × SystemInv (bring_backend_online system (pos 1))
backends-SystemInv_example = backends-SystemInv system (pos 1) (λ i. 5) (λ i. []) system-SystemInv
