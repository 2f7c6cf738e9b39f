-- ===== src/Simulation/Policies.antt =====
-- Tests 5 to 8 of runSimulation in src/main.cpp: malformed input, the rate limit, blocked sessions, and
-- sessions that are moved by force.
use session_affinity_engine.Base.{ℕ, ◌+◌, Bool, true, false, none, some, [], ◌∷◌, ◌++◌}
use session_affinity_engine.Config.{session_timeout_sec, max_payload_size}
use session_affinity_engine.Text.{Bytes, codes, em_dash}
use session_affinity_engine.Text.Decimal.{to_string}
use session_affinity_engine.FiveTuple.{FiveTuple, PathHistoryEntry, to_key}
use session_affinity_engine.Sessions.{get_path_history, block_session, force_reassign}
use session_affinity_engine.LoadBalancer.{
  LoadBalancer, System, Readings, LbRole, primary, standby, take_backend_offline,
  bring_backend_online, activate, deactivate, should_takeover, send_heartbeat,
}
use session_affinity_engine.Simulation.{
  Run, ◌>>=◌, ◌>>◌, print, print_all, change, for_each, for_range, timed, request_with, end_line,
  repeated, print_sub_separator,
}
use session_affinity_engine.Sessions.{SessionManager}
use session_affinity_engine.RateLimiter.{RateLimiter}
use session_affinity_engine.Simulation.Clients.{primary_of, path_history, send_and_print}

-- A tuple to the first server's web port.
abbrev pub to_server : Bytes → ℕ → Bytes → FiveTuple
to_server src_ip src_port protocol = record {
  src_ip = src_ip;
  src_port = src_port;
  dst_ip = codes "10.0.0.1";
  dst_port = 80;
  protocol = protocol;
}

-- The run of another load balancer, which has a session manager and a rate limiter of its own and shares
-- the rest of the components.
unfoldable pub with_own : {A : Type 0} → SessionManager → RateLimiter → Run A → Run A
with_own sessions limiter m w =
    elim (m (record w { system = record w.system { sessions = sessions; limiter = limiter } })) [
      | none ↦ none
      | some (a, w') ↦ some (
        a,
        record w' {
          system = record w'.system { sessions = w.system.sessions; limiter = w.system.limiter };
        },
      )
    ]

unfoldable pub print_reason : PathHistoryEntry → Run (Unit {0})
print_reason h =
    print_all (
      codes "  Backend: " ∷ to_string h.backend_id ∷ codes " | Reason: " ∷ h.reason ∷ end_line ∷ [])

unfoldable pub block : FiveTuple → Bool → Run (Unit {0})
block ft blocked = change (λ w. record w {
  system = record w.system { sessions = (block_session w.system.sessions (to_key ft) blocked).0 };
})

module _ (clock : ℕ → Readings) where
  unfoldable pub malformed_input : Run (Unit {0})
  malformed_input = do
    print_sub_separator
        (codes "TEST 5: Security " ++ (em_dash ++ codes " Malformed Input Rejection"))
    send_and_print clock (codes "Invalid IP:       ") primary_of
        (to_server (codes "999.999.999.999") 12345 (codes "TCP"))
    send_and_print clock (codes "Invalid port:     ") primary_of
        (to_server (codes "192.168.1.1") 0 (codes "TCP"))
    send_and_print clock (codes "Invalid protocol: ") primary_of
        (to_server (codes "192.168.1.1") 12345 (codes "ICMP"))
    response ←
        request_with clock primary_of (to_server (codes "192.168.1.1") 12345 (codes "TCP"))
          (repeated (max_payload_size + 100) b'X')
    print_all (codes "Oversized payload:" ∷ response ∷ end_line ∷ [])

  unfoldable pub new_lb : Run LoadBalancer
  new_lb =
      timed clock (λ r w. some (session_affinity_engine.LoadBalancer.new primary r.route_now, w))

  unfoldable pub rate_limiting : Run (Unit {0})
  rate_limiting = do
    print_sub_separator (codes "TEST 6: Rate Limiting")
    test_lb ← new_lb
    print (codes "Sending 8 rapid requests (limit: 5 per 60s):\n\n")
    with_own (session_affinity_engine.Sessions.new session_timeout_sec)
        (session_affinity_engine.RateLimiter.new 60 5)
        (for_range 1 8 (λ i.
          send_and_print clock (codes "  Request " ++ (to_string i ++ codes ": ")) (λ w. test_lb)
            (to_server (codes "172.16.0.1") 20000 (codes "TCP"))))

  unfoldable pub session_blocking : Run (Unit {0})
  session_blocking = do
    let block_ft = to_server (codes "10.10.10.1") 30000 (codes "TCP")
    print_sub_separator (codes "TEST 7: Dynamic Session Blocking")
    send_and_print clock (codes "Before block: ") primary_of block_ft
    block block_ft true
    send_and_print clock (codes "After block:  ") primary_of block_ft
    block block_ft false
    send_and_print clock (codes "After unblock:") primary_of block_ft

  unfoldable pub reassign : FiveTuple → Run (Unit {0})
  reassign ft = timed clock (λ r w. some (
    tt,
    record w {
      system = record w.system {
        sessions =
            (force_reassign w.system.sessions w.system.ring (to_key ft) r.route_now
              r.route_stamp).0;
      };
    },
  ))

  unfoldable pub forced_reassignment : Run (Unit {0})
  forced_reassignment = do
    let reassign_ft = to_server (codes "10.20.30.1") 40000 (codes "TCP")
    print_sub_separator (codes "TEST 8: Force Reassignment")
    send_and_print clock (codes "Initial assignment: ") primary_of reassign_ft
    reassign reassign_ft
    send_and_print clock (codes "After reassignment: ") primary_of reassign_ft
    history ← path_history reassign_ft
    print (codes "\nPath history:\n")
    for_each history print_reason
