-- ===== src/RequestHandler/Examples.antt =====
-- Tests of src/request_handler.cpp, and the theorems about it at concrete histories.
use session_affinity_engine.Base.{◌≡◌, refl, [], ◌∷◌}
use session_affinity_engine.Text.{codes, str_eq}
use session_affinity_engine.Text.Decimal.{to_string}
use session_affinity_engine.Dict.{find, assign}
use session_affinity_engine.FiveTuple.{FiveTuple, to_key}
use session_affinity_engine.RequestHandler.{
  RequestHandler, new, process_request, stop, offline_reply, success_reply, get_port,
}
use session_affinity_engine.RequestHandler.Counts.{
  IsCounted, process, starting, stopping, step, run, run-new-IsCounted,
}

program : Unit {0}
unfolding str_eq to_key to_string find assign process_request offline_reply success_reply get_port
    step run
program = tt

abbrev client : FiveTuple
client = record {
  src_ip = codes "10.0.0.1";
  src_port = 1;
  dst_ip = codes "10.0.0.2";
  dst_port = 2;
  protocol = codes "TCP";
}

abbrev twice : RequestHandler
twice = run (new 3) (process client [] ∷ process client [] ∷ [])

third_reply :
    (process_request twice client []).1
    ≡ codes "SUCCESS: Processed by backend 3 (request #3 for this session)"
unfolding program
third_reply = refl

offline_answer : (process_request (stop twice) client []).1 ≡ codes "ERROR: Server 3 is offline"
unfolding program
offline_answer = refl

port : get_port (new 7) ≡ 8008
unfolding program
port = refl

run-new-IsCounted_example :
    IsCounted (run (new 3) (process client [] ∷ stopping ∷ process client [] ∷ starting ∷ []))
run-new-IsCounted_example =
    run-new-IsCounted 3 (process client [] ∷ stopping ∷ process client [] ∷ starting ∷ [])
