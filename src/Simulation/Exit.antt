-- ===== src/Simulation/Exit.antt =====
-- main of src/main.cpp: how the program ends.
use session_affinity_engine.Base.{
  Bool, not, ◌&&◌, arith, Bool-cases, inl, inr, ℕ, ◌≡◌, refl, ap, ◌∙◌, some, List, [], ◌∷◌,
  if◌then◌else◌,
}
use session_affinity_engine.Text.{Bytes, codes, str_eq}
use session_affinity_engine.Logger
use session_affinity_engine.Logger.{Disk, init, open_file, open_files, open_system}
use session_affinity_engine.Simulation.Arguments.{
  CliArgs, Parsed, run_with, exits, read_args, defaults, parse_args-read_args,
}
use session_affinity_engine.Simulation.Program.{
  Environment, Outcome, test_mode_text, run_mode, main_with, act, main,
}
use session_affinity_engine.Simulation.Completion.{run_simulation-completes}

-- Whether the file system gives the logger all that it asks for.
unfoldable pub all_open : Disk → Bool
all_open disk = disk.directory_made && disk.request_opens && disk.system_opens

-- The exit code: 1 if logging is enabled and the file system refuses the directory or a log file, else 0.
unfoldable pub exit_code : Disk → Parsed → ℕ
exit_code disk exits = 0
exit_code disk (run_with args) = if args.logging_enabled && not (all_open disk) then 1 else 0

-- A new logger starts if it is not to log, or if the file system gives it all.
init-starts :
    (requests systems : Bytes) (enabled : Bool) (disk : Disk) (stamp : Bytes)
    → (init (session_affinity_engine.Logger.new requests systems) enabled disk stamp).1
      ≡ not (enabled && not (all_open disk))
unfolding init open_files open_system open_file all_open
init-starts requests systems enabled disk stamp = ground arith

run_mode-some :
    (env : Environment) (args : CliArgs) → (output : Bytes) × (run_mode env args ≡ some output)
unfolding run_mode
run_mode-some env args =
    let (w', e, stage) =
      run_simulation-completes env.clock (record env.memory { calls = 0; output = [] }) in
    elim (Bool-cases (str_eq args.mode (codes "test"))) [
      | inl test ↦ (test_mode_text, rw (test, run_mode) refl)
      | inr sim ↦ (w'.output, rw (sim, e, run_mode) refl)
    ]

module _ (env : Environment) (requests systems : Bytes) where
  main_with-returns :
      (args : CliArgs)
      → (o : Outcome) × ((main_with env (session_affinity_engine.Logger.new requests systems) args
            ≡ some o)
          × (o.code ≡ exit_code env.disk (run_with args)))
  unfolding main_with exit_code
  main_with-returns args =
      let log = session_affinity_engine.Logger.new requests systems in
      let (output, e) = run_mode-some env args in
      let starts = init-starts requests systems args.logging_enabled env.disk (env.stamps 0) in
      elim (Bool-cases (args.logging_enabled && not (all_open env.disk))) [
        | inr fine ↦ rw (starts, fine, e, main_with, exit_code) (_, (refl, refl))
        | inl refused ↦ rw (starts, refused, main_with, exit_code) (_, (refl, refl))
      ]

  act-returns :
      (parsed : Parsed)
      → (o : Outcome) × ((act env
              (session_affinity_engine.Logger.new requests systems)
              (some parsed)
            ≡ some o)
          × (o.code ≡ exit_code env.disk parsed))
  unfolding act exit_code
  act-returns exits = (_, (refl, refl))
  act-returns (run_with args) = main_with-returns args

  -- Whatever the command line, the file system and the clocks: the program, with a new logger, ends with an
  -- exit code. It is 1 if the arguments, read one after another, leave logging enabled, as it is when they
  -- do not say, and the file system refuses the directory or one of the two log files. In every other case,
  -- the help and a run without logging among them, it is 0.
  pub main_returns :
      (program : Bytes) (arguments : List Bytes)
      → (o : Outcome) × ((main env
              (session_affinity_engine.Logger.new requests systems)
              (program ∷ arguments)
            ≡ some o)
          × (o.code ≡ exit_code env.disk (read_args arguments defaults)))
  unfolding main
  main_returns program arguments =
      let (o, e) = act-returns (read_args arguments defaults) in
      (
        o,
        (
          ap (act env (session_affinity_engine.Logger.new requests systems))
                (parse_args-read_args program arguments)
              ∙ e.0,
          e.1,
        ),
      )
