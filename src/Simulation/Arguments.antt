-- ===== src/Simulation/Arguments.antt =====
-- parseArgs of src/main.cpp, and the same reading of the arguments by recursion on them.
use session_affinity_engine.Base.{
  ℕ, zero, suc, ◌+◌, ◌<◌, ◌≡◌, refl, ◌∙◌, ap, Bool, true, false, ◌&&◌, ◌||◌, Option, none, some,
  List, [], ◌∷◌, arith, ltb, if◌then◌else◌, length, get_elem?,
}
use session_affinity_engine.Text.{Bytes, codes, str_eq}

pub record CliArgs : Type 0 where
  pub logging_enabled : Bool
  pub mode : Bytes

abbrev pub defaults : CliArgs
defaults = record { logging_enabled = true; mode = codes "sim" }

-- What comes of the arguments: the settings, or the help text and `exit(0)`.
pub data Parsed : Type 0 where
  run_with : CliArgs → Parsed
  exits : Parsed

abbrev pub is_help : Bytes → Bool
is_help arg = str_eq arg (codes "--help") || str_eq arg (codes "-h")

-- The loop from index `i` on; `none` is a read past the arguments, or fuel that has run out.
unfoldable pub parse_loop : ℕ → List Bytes → ℕ → CliArgs → Option Parsed
parse_loop zero argv i args = none
parse_loop (suc fuel) argv i args = elim (ltb i (length argv)) [
  | false ↦ some (run_with args)
  | true ↦ elim (get_elem? argv i) [
    | none ↦ none
    | some arg ↦ elim (str_eq arg (codes "--logging") && ltb (i + 1) (length argv)) [
      | true ↦ elim (get_elem? argv (i + 1)) [
        | none ↦ none
        | some value ↦
            parse_loop fuel argv (i + 2)
              (record args { logging_enabled = str_eq value (codes "on") })
      ]
      | false ↦ elim (str_eq arg (codes "--mode") && ltb (i + 1) (length argv)) [
        | true ↦ elim (get_elem? argv (i + 1)) [
          | none ↦ none
          | some value ↦ parse_loop fuel argv (i + 2) (record args { mode = value })
        ]
        | false ↦ elim (is_help arg) [
          | true ↦ some exits
          | false ↦ parse_loop fuel argv (i + 1) args
        ]
      ]
    ]
  ]
]

-- `argv` with the program's name at its head: as many rounds as arguments are enough.
unfoldable pub parse_args : List Bytes → Option Parsed
parse_args argv = parse_loop (length argv + 1) argv 1 defaults

-- The arguments read one after another: an option with its value, the help, or a text that is skipped. An
-- option at the very end has no value, and is skipped too.
unfoldable pub read_args : List Bytes → CliArgs → Parsed
read_args [] args = run_with args
read_args (arg ∷ []) args = if is_help arg then exits else run_with args
read_args (arg ∷ value ∷ rest) args = elim (str_eq arg (codes "--logging")) [
  | true ↦ read_args rest (record args { logging_enabled = str_eq value (codes "on") })
  | false ↦ elim (str_eq arg (codes "--mode")) [
    | true ↦ read_args rest (record args { mode = value })
    | false ↦ elim (is_help arg) [ true ↦ exits | false ↦ read_args (value ∷ rest) args ]
  ]
]

-- The arguments from index `i` on are `rest`.
record Ahead (argv : List Bytes) (i : ℕ) (rest : List Bytes) : Type 0 where
  left : length argv ≡ i + length rest
  elem : (k : ℕ) → get_elem? argv (i + k) ≡ get_elem? rest k

same_elem : (argv : List Bytes) (i j : ℕ) → i ≡ j → get_elem? argv i ≡ get_elem? argv j
same_elem argv i j e = ap (get_elem? argv) e

Ahead-next :
    (argv : List Bytes) (i j : ℕ) (a : Bytes) (rest : List Bytes)
    → j ≡ i + 1
    → Ahead argv i (a ∷ rest)
    → Ahead argv j rest
Ahead-next argv i j a rest e h = record {
  left = ground (arith, e, h.left);
  elem = λ k. same_elem argv (j + k) (i + suc k) (omega arith) ∙ h.elem (suc k);
}

Ahead-here :
    (argv : List Bytes) (i : ℕ) (a : Bytes) (rest : List Bytes)
    → Ahead argv i (a ∷ rest)
    → (i < length argv) × (get_elem? argv i ≡ some a)
Ahead-here argv i a rest h =
    (ground (arith, h.left), same_elem argv i (i + 0) (omega arith) ∙ h.elem 0)

parse_loop-read_args :
    (fuel : ℕ) (argv : List Bytes) (i : ℕ) (rest : List Bytes) (args : CliArgs)
    → Ahead argv i rest
    → length rest < fuel
    → parse_loop fuel argv i args ≡ some (read_args rest args)
unfolding parse_loop read_args
parse_loop-read_args zero argv i rest args h b = absurd (omega arith)
parse_loop-read_args (suc f) argv i [] args h b = ground (arith, h.left)
parse_loop-read_args (suc f) argv i (a ∷ []) args h b = ground (
  arith,
  h.left,
  (Ahead-here argv i a [] h).0,
  (Ahead-here argv i a [] h).1,
  parse_loop-read_args f argv (i + 1) [] args (Ahead-next argv i (i + 1) a [] refl h)
      (ground arith),
)
parse_loop-read_args (suc f) argv i (a ∷ value ∷ rest) args h b =
    let here = Ahead-here argv i a (value ∷ rest) h in
    let h1 = Ahead-next argv i (i + 1) a (value ∷ rest) refl h in
    let there = Ahead-here argv (i + 1) value rest h1 in
    let h2 = Ahead-next argv (i + 1) (i + 2) value rest (omega arith) h1 in
    ground (
      arith,
      here.0,
      here.1,
      there.0,
      there.1,
      parse_loop-read_args f argv (i + 1) (value ∷ rest) args h1 (ground arith),
      parse_loop-read_args f argv (i + 2) rest
          (record args { logging_enabled = str_eq value (codes "on") }) h2 (ground arith),
      parse_loop-read_args f argv (i + 2) rest (record args { mode = value }) h2 (ground arith),
    )

-- The command line is read in as many rounds as it has texts, without a read past its end, and the loop
-- over indices reads it as one pass over the arguments behind the program's name does.
pub parse_args-read_args :
    (program : Bytes) (arguments : List Bytes)
    → parse_args (program ∷ arguments) ≡ some (read_args arguments defaults)
unfolding parse_args
parse_args-read_args program arguments =
    parse_loop-read_args _ (program ∷ arguments) 1 arguments defaults
      (record {
        left = omega arith;
        elem = λ k. same_elem (program ∷ arguments) (1 + k) (suc k) (omega arith);
      })
      (omega arith)
