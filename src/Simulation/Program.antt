-- ===== src/Simulation/Program.antt =====
-- runSimulation and main of src/main.cpp. What the modules write to the log during the simulation is left
-- out: the log has the lines that main writes itself. No exception is modelled, so that main's handler
-- never runs.
use session_affinity_engine.Base.{ℕ, true, false, Option, none, some, List, [], ◌++◌, if◌then◌else◌}
use session_affinity_engine.Config.{num_backend_servers}
use session_affinity_engine.Text.{Bytes, codes, str_eq, em_dash}
use session_affinity_engine.Logger.{Logger, Disk, init, log_system, shutdown, info}
use session_affinity_engine.LoadBalancer.{Readings, primary, standby}
use session_affinity_engine.Server.{add_backends, empty_system}
use session_affinity_engine.Simulation.{World, Run, ◌>>◌, timed, change, print_separator}
use session_affinity_engine.Simulation.Arguments.{CliArgs, Parsed, run_with, exits, parse_args}
use session_affinity_engine.Simulation.Traffic.{generate_test_tuples}
use session_affinity_engine.Simulation.Clients.{
  sticky_sessions, show_history, backend_failure, lb_failover,
}
use session_affinity_engine.Simulation.Policies.{
  malformed_input, rate_limiting, session_blocking, forced_reassignment,
}
use session_affinity_engine.Simulation.Report.{
  print_configuration, load_distribution, tuple_round_trip, summary,
}

-- The ring, the limiter, the security module, the session manager, and the backends.
unfoldable pub create_components : Run (Unit {0})
create_components =
    change (λ w. record w { system = add_backends 0 num_backend_servers empty_system })

module _ (clock : ℕ → Readings) where
  unfoldable pub create_lbs : Run (Unit {0})
  create_lbs = do
    timed clock (λ r w. some (
      tt,
      record w { primary_lb = session_affinity_engine.LoadBalancer.new primary r.route_now },
    ))
    timed clock (λ r w. some (
      tt,
      record w { standby_lb = session_affinity_engine.LoadBalancer.new standby r.route_now },
    ))

  unfoldable pub run_simulation : Run (Unit {0})
  run_simulation = do
    let tuples = generate_test_tuples 10
    print_separator (codes "SESSION AFFINITY ENGINE " ++ (em_dash ++ codes " SIMULATION"))
    print_configuration
    create_components
    create_lbs
    sticky_sessions clock tuples
    show_history tuples
    backend_failure clock tuples
    lb_failover clock tuples
    malformed_input clock
    rate_limiting clock
    session_blocking clock
    forced_reassignment clock
    load_distribution clock
    tuple_round_trip
    summary clock

-- What the program leaves: its exit code, its standard output, and the log.
pub record Outcome : Type 0 where
  pub code : ℕ
  pub output : Bytes
  pub log : Logger

unfoldable pub help_text : Bytes
help_text =
    codes "Session Affinity Engine\n"
    ++ (codes "Usage: ./session_engine [OPTIONS]\n"
        ++ (codes "  --logging on|off    Enable/disable logging (default: on)\n"
            ++ (codes "  --mode sim|test     Run simulation or tests (default: sim)\n"
                ++ codes "  --help              Show this help message\n")))

unfoldable pub test_mode_text : Bytes
test_mode_text =
    codes "Running in TEST mode "
    ++ (em_dash
        ++ (codes " see tests/test_all.cpp\n"
            ++ codes "Build and run tests with: make test && ./run_tests\n"))

unfoldable pub start_message : CliArgs → Bytes
start_message args =
    codes "Session Affinity Engine starting "
    ++ (em_dash
        ++ (codes " mode: "
            ++ (args.mode
                ++ (codes ", logging: "
                    ++ (if args.logging_enabled then codes "ON" else codes "OFF")))))

-- The environment of a run: the clocks, the file system, the wall clock's texts in the log lines, and
-- what memory holds before the components are created.
pub record Environment : Type 0 where
  pub clock : ℕ → Readings
  pub disk : Disk
  pub stamps : ℕ → Bytes
  pub memory : World

-- What `main` prints after the logger has started.
unfoldable pub run_mode : Environment → CliArgs → Option Bytes
run_mode env args = elim (str_eq args.mode (codes "test")) [
  | true ↦ some test_mode_text
  | false ↦ elim (run_simulation env.clock (record env.memory { calls = 0; output = [] })) [
    | none ↦ none
    | some (_, w) ↦ some w.output
  ]
]

-- The last `shutdown` is that of the logger's destructor.
unfoldable pub main_with : Environment → Logger → CliArgs → Option Outcome
main_with env log args =
    let (log', started) = init log args.logging_enabled env.disk (env.stamps 0) in
    elim started [
      | false ↦ some (record { code = 1; output = []; log = shutdown log' (env.stamps 3) })
      | true ↦ elim (run_mode env args) [
        | none ↦ none
        | some output ↦ some (record {
          code = 0;
          output = output;
          log =
              shutdown
                (shutdown (log_system log' (env.stamps 1) info (start_message args)) (env.stamps 2))
                (env.stamps 3);
        })
      ]
    ]

-- What `main` does with what came of the arguments.
unfoldable pub act : Environment → Logger → Option Parsed → Option Outcome
act env log none = none
act env log (some exits) =
    some (record { code = 0; output = help_text; log = shutdown log (env.stamps 3) })
act env log (some (run_with args)) = main_with env log args

unfoldable pub main : Environment → Logger → List Bytes → Option Outcome
main env log argv = act env log (parse_args argv)
