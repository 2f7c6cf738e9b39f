-- ===== src/Logger/Journal.antt =====
-- The two log files over any history of calls of the Logger.
use session_affinity_engine.Base.{
  ◌≡◌, ◌≢◌, ◌⊎◌, inl, inr, refl, sym, ap, ◌∙◌, Bool, true, false, List, [], ◌∷◌, ◌++◌, append_assoc,
  append-nil, arith, All, All-append,
}
use session_affinity_engine.Text.{Bytes, codes, Lacks}
use session_affinity_engine.Text.Split.{getlines, getlines_token}
use session_affinity_engine.Logger.{
  LogLevel, info, LogFile, Logger, Disk, new, append_line, field, request_line, system_line,
  end_line, log_request, log_system, init, shutdown, open_file, open_files, open_system,
}

-- A call of one of the two logging methods, with the wall clock's text.
pub data Event : Type 0 where
  request : Bytes → Bytes → Bytes → Bytes → Bytes → Event
  system : Bytes → LogLevel → Bytes → Event

unfoldable pub record_event : Logger → Event → Logger
record_event l (request stamp key action status details) =
    log_request l stamp key action status details
record_event l (system stamp level message) = log_system l stamp level message

unfoldable pub record_all : Logger → List Event → Logger
record_all l [] = l
record_all l (e ∷ es) = record_all (record_event l e) es

-- What the files are to hold: the lines of the calls of either kind, in the order of the calls.
abbrev pub request_lines : List Event → List Bytes
request_lines [] = []
request_lines (request stamp key action status details ∷ es) =
    request_line stamp key action status details ∷ request_lines es
request_lines (system stamp level message ∷ es) = request_lines es

abbrev pub system_lines : List Event → List Bytes
system_lines [] = []
system_lines (request stamp key action status details ∷ es) = system_lines es
system_lines (system stamp level message ∷ es) = system_line stamp level message ∷ system_lines es

abbrev pub text_of : List Bytes → Bytes
text_of [] = []
text_of (line ∷ lines) = line ++ b'\n' ∷ text_of lines

abbrev ready : Bytes → LogFile
ready text = record { is_open = true; failed = false; text = text }

abbrev running : Bytes → Bytes → Logger
running requests systems = record {
  enabled = true;
  request_file = ready requests;
  system_file = ready systems;
}

line_after :
    (text line : Bytes) (lines : List Bytes)
    → (text ++ (line ++ end_line)) ++ text_of lines ≡ text ++ text_of (line ∷ lines)
line_after text line lines =
    append_assoc text (line ++ end_line) (text_of lines)
    ∙ ap (λ t. text ++ t) (append_assoc line end_line (text_of lines))

record_all-running :
    (requests systems : Bytes) (es : List Event)
    → record_all (running requests systems) es
      ≡ running (requests ++ text_of (request_lines es)) (systems ++ text_of (system_lines es))
unfolding record_all record_event log_request log_system append_line
record_all-running requests systems [] = rw (append-nil requests, append-nil systems)
record_all-running requests systems (request stamp key action status details ∷ es) =
    let line = request_line stamp key action status details in
    record_all-running (requests ++ (line ++ end_line)) systems es
    ∙ ap (λ (t : Bytes). running t (systems ++ text_of (system_lines es)))
        (line_after requests line (request_lines es))
record_all-running requests systems (system stamp level message ∷ es) =
    let line = system_line stamp level message in
    record_all-running requests (systems ++ (line ++ end_line)) es
    ∙ ap (λ (t : Bytes). running (requests ++ text_of (request_lines es)) t)
        (line_after systems line (system_lines es))

record_all-disabled :
    (requests systems : Bytes) (es : List Event)
    → record_all (new requests systems) es ≡ new requests systems
unfolding record_all record_event log_request log_system
record_all-disabled requests systems [] = refl
record_all-disabled requests systems (request stamp key action status details ∷ es) =
    record_all-disabled requests systems es
record_all-disabled requests systems (system stamp level message ∷ es) =
    record_all-disabled requests systems es

abbrev start_line : Bytes → Bytes
start_line stamp = system_line stamp info (codes "Logger initialized successfully.")

abbrev stop_line : Bytes → Bytes
stop_line stamp = system_line stamp info (codes "Logger shutting down.")

init-running :
    (requests systems stamp : Bytes) (directory requests_open systems_open : Bool)
    → let disk : Disk = record {
      directory_made = directory;
      request_opens = requests_open;
      system_opens = systems_open;
    } in
      (init (new requests systems) true disk stamp).1 ≡ true
      → (init (new requests systems) true disk stamp).0
        ≡ running requests (systems ++ (start_line stamp ++ end_line))
unfolding init open_files open_system open_file log_system append_line
init-running requests systems stamp false r s ok = cc
init-running requests systems stamp true false s ok = cc
init-running requests systems stamp true true false ok = cc
init-running requests systems stamp true true true ok = refl

text_of-append : (xs ys : List Bytes) → text_of (xs ++ ys) ≡ text_of xs ++ text_of ys
text_of-append [] ys = refl
text_of-append (x ∷ xs) ys =
    ap (λ t. x ++ b'\n' ∷ t) (text_of-append xs ys)
    ∙ sym (append_assoc x (b'\n' ∷ text_of xs) (text_of ys))

-- What the two files hold after a session of logging.
pub record Journal (requests systems : Bytes) (es : List Event) (s0 s1 : Bytes) (l : Logger)
    : Type 0 where
  pub request_text : l.request_file.text ≡ requests ++ text_of (request_lines es)
  pub system_text :
      l.system_file.text
      ≡ systems ++ text_of (start_line s0 ∷ (system_lines es ++ stop_line s1 ∷ []))

shutdown-running :
    (requests systems s1 s2 : Bytes)
    → let l = shutdown (shutdown (running requests systems) s1) s2 in
      (l.request_file.text ≡ requests)
      × (l.system_file.text ≡ systems ++ (stop_line s1 ++ end_line))
unfolding shutdown log_system append_line
shutdown-running requests systems s1 s2 = (refl, refl)

-- A logger whose `init` has succeeded, any calls of its logging methods, and then `shutdown`, which the
-- destructor repeats. With logging on, the request log has grown by one line for each request event and
-- the system log by the first line, one line for each system event and the last line, all in the order of the
-- calls. With logging off nothing has changed.
pub journal :
    (requests systems : Bytes) (enabled : Bool) (disk : Disk) (es : List Event) (s0 s1 s2 : Bytes)
    → (init (new requests systems) enabled disk s0).1 ≡ true
    → let l = (init (new requests systems) enabled disk s0).0 in
      let end = shutdown (shutdown (record_all l es) s1) s2 in
      ((enabled ≡ true) × Journal requests systems es s0 s1 end)
      ⊎ ((enabled ≡ false) × (end ≡ new requests systems))
unfolding init shutdown
journal requests systems false disk es s0 s1 s2 ok =
    inr (refl, ap (λ l. shutdown (shutdown l s1) s2) (record_all-disabled requests systems es))
journal requests systems true disk es s0 s1 s2 ok =
    let first = systems ++ (start_line s0 ++ end_line) in
    let logged : record_all (init (new requests systems) true disk s0).0 es
        ≡ running (requests ++ text_of (request_lines es)) (first ++ text_of (system_lines es)) =
      ap (λ l. record_all l es)
        (init-running requests systems s0 disk.directory_made disk.request_opens disk.system_opens
          ok)
      ∙ record_all-running requests first es in
    let ended = ap (λ l. shutdown (shutdown l s1) s2) logged in
    let (requests_end, systems_end) =
      shutdown-running (requests ++ text_of (request_lines es)) (first ++ text_of (system_lines es))
        s1 s2 in
    inl (
      refl,
      record {
        request_text = ap (λ l. l.request_file.text) ended ∙ requests_end;
        system_text =
            ap (λ l. l.system_file.text) ended
            ∙ systems_end
            ∙ ap (λ t. t ++ (stop_line s1 ++ end_line))
                (line_after systems (start_line s0) (system_lines es))
            ∙ append_assoc systems (text_of (start_line s0 ∷ system_lines es))
                (stop_line s1 ++ end_line)
            ∙ ap (λ t. systems ++ t)
                (sym (text_of-append (start_line s0 ∷ system_lines es) (stop_line s1 ∷ [])));
      },
    )

-- The texts of a request event hold no end of line.
abbrev pub IsOneLine : Event → Type 0
IsOneLine (request stamp key action status details) =
    Lacks b'\n' stamp
    × Lacks b'\n' key
    × Lacks b'\n' action
    × Lacks b'\n' status
    × Lacks b'\n' details
IsOneLine (system stamp level message) = Unit {0}

field-Lacks :
    (text rest : Bytes) → Lacks b'\n' text → Lacks b'\n' rest → Lacks b'\n' (field text rest)
field-Lacks text rest h k = (
  ground arith,
  All-append (λ c. c ≢ b'\n') text (b']' ∷ b' ' ∷ rest) h (ground arith, (ground arith, k)),
)

getlines-request_lines :
    (es : List Event)
    → All IsOneLine es
    → getlines b'\n' (text_of (request_lines es)) ≡ request_lines es
unfolding getlines
getlines-request_lines [] clean = refl
getlines-request_lines (request stamp key action status details ∷ es) clean =
    let ((a, b, c, d, e), rest) = clean in
    getlines_token b'\n' (request_line stamp key action status details) (text_of (request_lines es))
      (field-Lacks stamp _ a
        (field-Lacks key _ b (field-Lacks action _ c (field-Lacks status details d e))))
    ∙ ap (λ ls. request_line stamp key action status details ∷ ls) (getlines-request_lines es rest)
getlines-request_lines (system stamp level message ∷ es) clean = getlines-request_lines es clean.1

-- If no text of a request event holds an end of line, the request log, empty at first and with logging on,
-- splits at its ends of line into exactly the lines of the request events, in the order of the calls.
pub getlines-journal :
    (systems : Bytes) (disk : Disk) (es : List Event) (s0 s1 s2 : Bytes)
    → (init (new [] systems) true disk s0).1 ≡ true
    → All IsOneLine es
    → let l = (init (new [] systems) true disk s0).0 in
      let end = shutdown (shutdown (record_all l es) s1) s2 in
      getlines b'\n' end.request_file.text ≡ request_lines es
getlines-journal systems disk es s0 s1 s2 ok clean =
    elim (journal [] systems true disk es s0 s1 s2 ok) [
      | inl (on, j) ↦ ap (getlines b'\n') j.request_text ∙ getlines-request_lines es clean
      | inr (off, same) ↦ absurd (ground arith)
    ]
