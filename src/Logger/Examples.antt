-- ===== src/Logger/Examples.antt =====
-- Tests of src/logger.cpp, and the theorems about it at a short session of logging.
use session_affinity_engine.Base.{◌≡◌, ◌⊎◌, refl, Bool, true, false, List, [], ◌∷◌, All, arith}
use session_affinity_engine.Text.{Bytes, codes}
use session_affinity_engine.Text.Split.{getlines}
use session_affinity_engine.Logger.{
  Disk, warning, new, open_file, append_line, level_to_string, system_line, log_request, log_system,
  open_system, open_files, init, shutdown,
}
use session_affinity_engine.Logger.Journal.{
  Event, request, system, record_event, record_all, request_lines, Journal, journal, IsOneLine,
  getlines-journal,
}

program : Unit {0}
unfolding open_file append_line level_to_string system_line log_request log_system open_system
    open_files init shutdown record_event record_all
program = tt

abbrev disk : Disk
disk = record { directory_made = true; request_opens = true; system_opens = true }

abbrev noon : Bytes
noon = codes "12:00"

abbrev events : List Event
events =
    request noon (codes "k") (codes "ROUTE") (codes "SUCCESS") (codes "Sticky")
    ∷ system noon warning (codes "down")
    ∷ []

granted : (init (new [] []) true disk noon).1 ≡ true
unfolding program
granted = refl

request_text :
    (record_all (init (new [] []) true disk noon).0 events).request_file.text
    ≡ codes "[12:00] [k] [ROUTE] [SUCCESS] Sticky\n"
unfolding program
request_text = refl

-- Where the second file does not open, the first stays open and logging stays on.
half_open :
    let (l, ok) = init (new [] []) true (record disk { system_opens = false }) noon in
    (ok ≡ false) × (l.enabled ≡ true) × (l.request_file.is_open ≡ true)
unfolding program
half_open = (refl, refl, refl)

clean : All IsOneLine events
clean = ground arith

journal_example :
    let l = (init (new [] []) true disk noon).0 in
    let end = shutdown (shutdown (record_all l events) noon) noon in
    ((◌≡◌ {A = Bool} true true) × Journal [] [] events noon noon end)
    ⊎ ((true ≡ false) × (end ≡ new [] []))
journal_example = journal [] [] true disk events noon noon noon granted

getlines-journal_example :
    let l = (init (new [] []) true disk noon).0 in
    let end = shutdown (shutdown (record_all l events) noon) noon in
    getlines b'\n' end.request_file.text ≡ request_lines events
getlines-journal_example = getlines-journal [] disk events noon noon noon granted clean
