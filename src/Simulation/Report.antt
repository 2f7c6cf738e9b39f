-- ===== src/Simulation/Report.antt =====
-- The configuration that runSimulation of src/main.cpp prints, its tests 9 and 10, and its last lines.
use session_affinity_engine.Base.{List, ℕ, Bool, [], ◌∷◌, ◌++◌, if◌then◌else◌, length}
use session_affinity_engine.Config.{num_backend_servers, session_timeout_sec}
use session_affinity_engine.Text.{Bytes, codes}
use session_affinity_engine.Text.Decimal.{to_string}
use session_affinity_engine.RequestHandler.{RequestHandler}
use session_affinity_engine.FiveTuple.{FiveTuple, serialize, deserialize, tuple_eq}
use session_affinity_engine.LoadBalancer.{Readings}
use session_affinity_engine.Simulation.{
  Run, pure, ◌>>=◌, ◌>>◌, print, print_all, gets, at, for_each, for_range, request, end_line,
  repeated, column, print_separator, print_sub_separator,
}
use session_affinity_engine.Simulation.Traffic.{generate_test_tuples}
use session_affinity_engine.Config.{
  rate_limit_max_requests, rate_limit_window_sec, consistent_hash_vnodes, lb_primary_port,
  lb_standby_port, lb_heartbeat_interval_ms, lb_failover_threshold_ms,
}
use session_affinity_engine.Simulation.Clients.{primary_of, count_servers, count_sessions}

unfoldable pub print_setting : Bytes → ℕ → Bytes → Run (Unit {0})
print_setting label n unit = print_all (label ∷ to_string n ∷ unit ∷ end_line ∷ [])

unfoldable pub print_configuration : Run (Unit {0})
print_configuration = do
  print (codes "Configuration:\n")
  print_setting (codes "  Backend servers:     ") num_backend_servers []
  print_setting (codes "  Session timeout:     ") session_timeout_sec (codes "s")
  print_setting (codes "  Rate limit:          ") rate_limit_max_requests
      (codes " req/" ++ (to_string rate_limit_window_sec ++ codes "s"))
  print_setting (codes "  Hash ring vnodes:    ") consistent_hash_vnodes []
  print_setting (codes "  LB Primary port:     ") lb_primary_port []
  print_setting (codes "  LB Standby port:     ") lb_standby_port []
  print_setting (codes "  Heartbeat interval:  ") lb_heartbeat_interval_ms (codes "ms")
  print_setting (codes "  Failover threshold:  ") lb_failover_threshold_ms (codes "ms\n")

-- The row of one backend: its requests, and the sessions that it has data of.
abbrev pub backend_row : ℕ → RequestHandler → List Bytes
backend_row i handler =
    column 15 (codes "Backend " ++ to_string i)
    ∷ column 15 (to_string handler.total_requests)
    ∷ to_string (length handler.local_data)
    ∷ end_line
    ∷ []

unfoldable pub print_backend : ℕ → Run (Unit {0})
print_backend i = do
  backends ← gets (λ w. w.system.backends)
  handler ← at backends i
  print_all (backend_row i handler)

module _ (clock : ℕ → Readings) where
  -- A request whose reply is dropped.
  unfoldable pub send : FiveTuple → Run (Unit {0})
  send ft = do response ← request clock primary_of ft; pure tt

  unfoldable pub load_distribution : Run (Unit {0})
  load_distribution = do
    print_sub_separator (codes "TEST 9: Load Distribution Across Backends")
    for_each (generate_test_tuples 100) send
    print_all (
        codes "Distribution of 100 sessions across "
        ∷ to_string num_backend_servers
        ∷ codes " backends:\n\n"
        ∷ [])
    print_all (
        column 15 (codes "BACKEND")
        ∷ column 15 (codes "REQUESTS")
        ∷ codes "SESSIONS"
        ∷ end_line
        ∷ [])
    print_all (repeated 45 b'-' ∷ end_line ∷ [])
    for_range 0 num_backend_servers print_backend

  unfoldable pub summary : Run (Unit {0})
  summary = do
    print_separator (codes "SIMULATION COMPLETE")
    active ← count_sessions clock
    print_all (codes "Total active sessions: " ∷ active ∷ end_line ∷ [])
    servers ← count_servers
    print_all (codes "Active backends:       " ∷ servers ∷ end_line ∷ [])
    print (codes "\nCheck logs/ directory for detailed request and system logs.\n")

abbrev pub sample_tuple : FiveTuple
sample_tuple = record {
  src_ip = codes "192.168.1.100";
  src_port = 54321;
  dst_ip = codes "10.0.0.5";
  dst_port = 443;
  protocol = codes "TCP";
}

-- A tuple by its default constructor, whose numbers are not set and read by nothing.
abbrev pub unset : FiveTuple
unset = record { src_ip = []; src_port = 0; dst_ip = []; dst_port = 0; protocol = [] }

unfoldable pub yes_no : Bool → Bytes
yes_no b = if b then codes "YES" else codes "NO"

unfoldable pub tuple_round_trip : Run (Unit {0})
tuple_round_trip = do
  let serialized = serialize sample_tuple
  let result = deserialize serialized unset
  print_sub_separator (codes "TEST 10: 5-Tuple Serialization")
  print_all (codes "Serialized: " ∷ serialized ∷ end_line ∷ [])
  print_all (codes "Deserialized OK: " ∷ yes_no result.0 ∷ end_line ∷ [])
  print_all (codes "Match: " ∷ yes_no (tuple_eq sample_tuple result.1) ∷ end_line ∷ [])
