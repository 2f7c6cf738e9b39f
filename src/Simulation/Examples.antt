-- ===== src/Simulation/Examples.antt =====
-- Tests of src/main.cpp, and the theorems about it at command lines and runs.
use session_affinity_engine.Base.{
  ℕ, ◌+◌, ◌≡◌, ◌≢◌, refl, true, false, some, List, [], ◌∷◌, arith, get_elem?,
}
use session_affinity_engine.Config.{num_backend_servers}
use session_affinity_engine.Text.{Bytes, codes, str_eq}
use session_affinity_engine.Text.Decimal.{to_string, digits}
use session_affinity_engine.FiveTuple.{FiveTuple, to_key}
use session_affinity_engine.Logger
use session_affinity_engine.Logger.{Logger, Disk, init, open_files, open_system, log_system}
use session_affinity_engine.LoadBalancer.{Readings, primary, standby}
use session_affinity_engine.LoadBalancer
use session_affinity_engine.Server.{empty_system}
use session_affinity_engine.Server.Examples.{readings}
use session_affinity_engine.Simulation.{World, column}
use session_affinity_engine.Simulation.Twister.{seeded, draw}
use session_affinity_engine.Simulation.Traffic.{generate_test_tuples, generate_test_tuples-distinct}
use session_affinity_engine.Simulation.Arguments.{
  run_with, parse_loop, parse_args, read_args, defaults, parse_args-read_args,
}
use session_affinity_engine.Simulation.Stages.{Stage}
use session_affinity_engine.Simulation.Completion.{run_simulation-completes}
use session_affinity_engine.Simulation.Program.{Environment, Outcome, run_simulation, main}
use session_affinity_engine.Simulation.Exit.{exit_code, all_open, main_returns}

program : Unit {0}
unfolding str_eq parse_loop parse_args read_args seeded draw generate_test_tuples to_string digits
    column
program = tt

-- The first two words of std::mt19937 with the seed 42.
first_word : (draw (seeded 42)).1 ≡ 1608637542
unfolding program
first_word = refl

second_word : (draw (draw (seeded 42)).0).1 ≡ 3421126067
unfolding program
second_word = refl

abbrev first_client : FiveTuple
first_client = record {
  src_ip = codes "192.168.1.1";
  src_port = 10000 + 52542;
  dst_ip = codes "10.0.0.1";
  dst_port = 80;
  protocol = codes "UDP";
}

first_client_there : get_elem? (generate_test_tuples 10) 0 ≡ some first_client
unfolding program
first_client_there = refl

abbrev second_client : FiveTuple
second_client = record {
  src_ip = codes "192.168.1.2";
  src_port = 10000 + 16067;
  dst_ip = codes "10.0.0.2";
  dst_port = 80;
  protocol = codes "TCP";
}

second_client_there : get_elem? (generate_test_tuples 10) 1 ≡ some second_client
unfolding program
second_client_there = refl

padded : column 6 (codes "abc") ≡ codes "abc   "
unfolding program
padded = refl

generate_test_tuples-distinct_example : to_key first_client ≢ to_key second_client
generate_test_tuples-distinct_example =
    generate_test_tuples-distinct 10 0 1 first_client second_client (omega arith) (omega arith)
      first_client_there second_client_there

abbrev quiet_run : List Bytes
quiet_run = codes "--logging" ∷ codes "off" ∷ codes "--verbose" ∷ codes "--mode" ∷ codes "test" ∷ []

quiet_run_read :
    read_args quiet_run defaults
    ≡ run_with (record { logging_enabled = false; mode = codes "test" })
unfolding program
quiet_run_read = refl

-- An option without its value is skipped.
mode_missing : read_args (codes "--mode" ∷ []) defaults ≡ run_with defaults
unfolding program
mode_missing = refl

-- What looks like the help is the value of the option before it.
help_as_value :
    read_args (codes "--mode" ∷ codes "--help" ∷ []) defaults
    ≡ run_with (record defaults { mode = codes "--help" })
unfolding program
help_as_value = refl

parse_args-read_args_example :
    parse_args (codes "./session_engine" ∷ quiet_run) ≡ some (read_args quiet_run defaults)
parse_args-read_args_example = parse_args-read_args (codes "./session_engine") quiet_run

abbrev memory : World
memory = record {
  system = empty_system;
  primary_lb = session_affinity_engine.LoadBalancer.new primary 0;
  standby_lb = session_affinity_engine.LoadBalancer.new standby 0;
  calls = 0;
  output = [];
}

abbrev ticking : ℕ → Readings
ticking n = record readings { route_now = n; route_later = n }

run_simulation-completes_example :
    (w' : World) × (run_simulation ticking memory ≡ some (tt, w'))
    × Stage num_backend_servers true false w'
run_simulation-completes_example = run_simulation-completes ticking memory

abbrev no_disk : Environment
no_disk = record {
  clock = ticking;
  disk = record { directory_made = false; request_opens = false; system_opens = false };
  stamps = λ i. codes "12:00";
  memory = memory;
}

abbrev fresh_log : Logger
fresh_log = session_affinity_engine.Logger.new [] []

-- Without a directory for the log the program gives up, unless it is told not to log.
gives_up : exit_code no_disk.disk (read_args [] defaults) ≡ 1
unfolding program exit_code all_open
gives_up = refl

runs_quietly : exit_code no_disk.disk (read_args quiet_run defaults) ≡ 0
unfolding program exit_code all_open
runs_quietly = refl

main_returns_example :
    (o : Outcome) × ((main no_disk fresh_log (codes "./session_engine" ∷ quiet_run) ≡ some o)
      × (o.code ≡ exit_code no_disk.disk (read_args quiet_run defaults)))
main_returns_example = main_returns no_disk [] [] (codes "./session_engine") quiet_run
