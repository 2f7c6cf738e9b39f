-- ===== src/Simulation/Clients.antt =====
-- Tests 1 to 4 of runSimulation in src/main.cpp: sticky sessions, their audit trail, a backend that fails,
-- and the failover between the load balancers.
use session_affinity_engine.Base.{ℕ, ◌+◌, Bool, some, pos, List, [], ◌∷◌, ◌++◌, if◌then◌else◌}
use session_affinity_engine.Text.{Bytes, codes, em_dash}
use session_affinity_engine.Text.Decimal.{to_string}
use session_affinity_engine.FiveTuple.{FiveTuple, PathHistoryEntry, to_key}
use session_affinity_engine.Window.{seconds}
use session_affinity_engine.Ring.{server_count}
use session_affinity_engine.Sessions.{get_path_history}
use session_affinity_engine.Sessions.Passes.{active_session_count, get_all_sessions}
use session_affinity_engine.LoadBalancer.{
  LoadBalancer, Readings, take_backend_offline, bring_backend_online, activate, deactivate,
  should_takeover, send_heartbeat,
}
use session_affinity_engine.Simulation.{
  World, Run, pure, ◌>>=◌, ◌>>◌, print, print_all, gets, at, change, for_each, for_range, timed,
  request, end_line, repeated, column, print_sub_separator,
}

abbrev pub primary_of : World → LoadBalancer
primary_of w = w.primary_lb

abbrev pub standby_of : World → LoadBalancer
standby_of w = w.standby_lb

unfoldable pub count_servers : Run Bytes
count_servers = gets (λ w. to_string (server_count w.system.ring))

unfoldable pub path_history : FiveTuple → Run (List PathHistoryEntry)
path_history ft = gets (λ w. get_path_history w.system.sessions (to_key ft))

-- One line of an audit trail, with the time.
unfoldable pub print_step : PathHistoryEntry → Run (Unit {0})
print_step h = print_all (
    codes "  Backend: "
    ∷ to_string h.backend_id
    ∷ codes " | Time: "
    ∷ h.timestamp
    ∷ codes " | Reason: "
    ∷ h.reason
    ∷ end_line
    ∷ [])

unfoldable pub print_activity : Bytes → Bool → Run (Unit {0})
print_activity label active =
    print_all (label ∷ (if active then codes "ACTIVE" else codes "PASSIVE") ∷ end_line ∷ [])

unfoldable pub show_history : List FiveTuple → Run (Unit {0})
show_history tuples = do
  print_sub_separator (codes "TEST 2: Path History for First Session")
  first ← at tuples 0
  history ← path_history first
  for_each history print_step

unfoldable pub announce_takeover : Run (Unit {0})
announce_takeover = do
  print_all (codes "Standby detected primary timeout " ∷ em_dash ∷ codes " TAKING OVER!\n" ∷ [])
  change (λ w. record w { standby_lb = activate w.standby_lb })

module _ (clock : ℕ → Readings) where
  -- `handleRequest` with the serialized tuple, and a line that ends with the reply.
  unfoldable pub send_and_print : Bytes → (World → LoadBalancer) → FiveTuple → Run (Unit {0})
  send_and_print label which ft = do
    response ← request clock which ft
    print_all (label ∷ response ∷ end_line ∷ [])

  unfoldable pub count_sessions : Run Bytes
  count_sessions =
      timed clock (λ r w. some (to_string (active_session_count w.system.sessions r.down_clock), w))

  unfoldable pub sticky_sessions : List FiveTuple → Run (Unit {0})
  sticky_sessions tuples = do
    print_sub_separator (codes "TEST 1: Sticky Session Routing")
    print (codes "Sending 10 unique clients, each with 3 requests...\n\n")
    print_all
        (column 45 (codes "5-TUPLE") ∷ column 12 (codes "REQ #") ∷ codes "RESPONSE" ∷ end_line ∷ [])
    print_all (repeated 90 b'-' ∷ end_line ∷ [])
    for_each tuples (λ ft. for_range 0 3 (λ r.
        send_and_print (column 45 (to_key ft) ++ column 12 (to_string (r + 1))) primary_of ft))
    active ← count_sessions
    print_all (codes "\nActive sessions: " ∷ active ∷ end_line ∷ [])

  -- `getAllSessions`, whose result is not used.
  unfoldable pub read_sessions : Run (List (Bytes × ℕ))
  read_sessions = timed clock (λ r w. some (get_all_sessions w.system.sessions r.down_clock, w))

  unfoldable pub backend_failure : List FiveTuple → Run (Unit {0})
  backend_failure tuples = do
    print_sub_separator (codes "TEST 3: Backend Failure & Redistribution")
    all_sessions ← read_sessions
    print_all (codes "Taking backend " ∷ to_string 0 ∷ codes " offline...\n" ∷ [])
    timed clock (λ r w.
        some (
          tt,
          record w { system = take_backend_offline w.system (pos 0) r.down_clock r.down_wall },
        ))
    left ← count_servers
    print_all (codes "Active backends after failure: " ∷ left ∷ end_line ∷ [])
    print (codes "\nSending requests from same clients (should be redistributed if affected):\n\n")
    print_all (column 45 (codes "5-TUPLE") ∷ codes "RESPONSE" ∷ end_line ∷ [])
    print_all (repeated 90 b'-' ∷ end_line ∷ [])
    for_each tuples (λ ft. send_and_print (column 45 (to_key ft)) primary_of ft)
    print (codes "\nPath history for first session after failover:\n")
    first ← at tuples 0
    history ← path_history first
    for_each history print_step
    print_all (codes "\nBringing backend " ∷ to_string 0 ∷ codes " back online...\n" ∷ [])
    change (λ w. record w { system = bring_backend_online w.system (pos 0) })
    back ← count_servers
    print_all (codes "Active backends: " ∷ back ∷ end_line ∷ [])

  -- The heartbeat that the standby is given lies ten seconds before the reading of the clock: the clock
  -- reading in `shouldTakeover` is ten seconds further from it.
  unfoldable pub stale_heartbeat : Run Bool
  stale_heartbeat =
      timed clock (λ r w. some (should_takeover r.route_now (r.route_later + seconds 10), w))

  unfoldable pub take_over : Run (Unit {0})
  take_over = do timed_out ← stale_heartbeat; if timed_out then announce_takeover else pure tt

  unfoldable pub lb_failover : List FiveTuple → Run (Unit {0})
  lb_failover tuples = do
    print_sub_separator (codes "TEST 4: Load Balancer Failover")
    p0 ← gets (λ w. w.primary_lb.active)
    print_activity (codes "Primary LB is currently: ") p0
    s0 ← gets (λ w. w.standby_lb.active)
    print_activity (codes "Standby LB is currently: ") s0
    print (codes "\nSimulating primary LB failure...\n")
    change (λ w. record w { primary_lb = deactivate w.primary_lb })
    first ← at tuples 0
    send_and_print (codes "Request via PRIMARY: ") primary_of first
    take_over
    send_and_print (codes "Request via STANDBY: ") standby_of first
    print (codes "\nRestoring primary LB...\n")
    change
        (λ w. record w { primary_lb = activate w.primary_lb; standby_lb = deactivate w.standby_lb })
    timed clock
        (λ r w. some (tt, record w { primary_lb = send_heartbeat w.primary_lb r.route_now }))
    p1 ← gets (λ w. w.primary_lb.active)
    print_activity (codes "Primary: ") p1
    s1 ← gets (λ w. w.standby_lb.active)
    print_activity (codes "Standby: ") s1
