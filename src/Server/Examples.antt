-- ===== src/Server/Examples.antt =====
-- Tests of src/main1.cpp, and the theorems about it at a server that has just started.
use session_affinity_engine.Base.{
  ◌+◌, ◌≤◌, ◌≡◌, ◌&&◌, ◌++◌, refl, true, false, some, List, [], ◌∷◌, arith, length,
}
use session_affinity_engine.Text.{Bytes, codes, str_eq}
use session_affinity_engine.LoadBalancer.{Readings, handle_request, activate, should_takeover}
use session_affinity_engine.Server.{
  Server, Packet, c_string, tuple_of, boot, put_back, watched, by_standby, route_traffic, serve,
  no_lb_reply,
}
use session_affinity_engine.Server.Safety.{ServerInv, Round, run, run-boot-ServerInv}
use session_affinity_engine.Server.Failover.{
  IsTraffic, takeover_after, Watched, serve_takeover, serve_exclusive, serve-kill_continues,
}
use session_affinity_engine.Server.Liveness.{
  IsHandled, run-boot-IsHandled, last_heard, follow_all, follow,
}
use session_affinity_engine.Server.Process.{
  Loop, Received, arrived, failed, Network, listening, launch, listen, initializing_text,
  listening_text,
}
use session_affinity_engine.Server.Replies.{IsLaunch, launch-IsLaunch, all_succeed}
use session_affinity_engine.Logger
use session_affinity_engine.Logger.{
  Logger, Disk, init, log_system, open_files, open_file, open_system, info,
}
use session_affinity_engine.Text.Decimal.{to_string}

program : Unit {0}
unfolding str_eq c_string boot should_takeover watched by_standby route_traffic serve
program = tt

abbrev pub readings : Readings
readings = record {
  spoof_now = 1;
  limit_now = 2;
  limit_wall = codes "12:00";
  route_now = 3;
  route_later = 4;
  route_stamp = codes "12:00";
  down_clock = λ i. 5;
  down_wall = λ i. codes "12:00";
  retry_now = 6;
  retry_later = 7;
  retry_stamp = codes "12:00";
  process_stamp = codes "12:00";
}

abbrev packet : Bytes → Packet
packet text = record { src_ip = codes "10.0.0.1"; src_port = 1; buffer = text }

abbrev hello : Packet
hello = packet (codes "hello")

abbrev kill : Packet
kill = packet (codes "CMD:KILL_PRIMARY")

-- What follows a 0 in the packet is not read.
cut_off : c_string (104 ∷ 105 ∷ 0 ∷ 106 ∷ []) ≡ codes "hi"
unfolding program
cut_off = refl

hello-IsTraffic : IsTraffic hello
unfolding program
hello-IsTraffic = record { no_kill = refl; no_revive = refl }

abbrev killed : Server
killed = record (boot 7) { primary_lb = record (boot 7).primary_lb { active = false } }

killed_inactive : killed.primary_lb.active ≡ false
killed_inactive = refl

-- Between the kill and the takeover nobody answers.
nobody : serve killed hello 9 readings ≡ some (killed, no_lb_reply)
unfolding program
nobody = refl

booted_active : (boot 7).primary_lb.active ≡ true
unfolding program
booted_active = refl

in_time : (boot 7).last_primary_heartbeat + takeover_after ≤ takeover_after + 7
unfolding program
in_time = omega arith

kill_text : c_string kill.buffer ≡ codes "CMD:KILL_PRIMARY"
unfolding program
kill_text = refl

abbrev rounds : List Round
rounds =
    record { packet = hello; now = 8; readings = readings }
    ∷ record { packet = kill; now = 9; readings = readings }
    ∷ []

run-boot-ServerInv_example :
    (last : Server) × (replies : List Bytes) × (run (boot 7) rounds ≡ some (last, replies))
    × (length replies ≡ 2)
    × ServerInv last
run-boot-ServerInv_example = run-boot-ServerInv 7 rounds

serve_takeover_example :
    Watched killed
      (tuple_of hello)
      (c_string hello.buffer)
      9
      readings
      (serve killed hello 9 readings)
serve_takeover_example = serve_takeover killed hello 9 readings hello-IsTraffic killed_inactive

serve_exclusive_example : (killed.primary_lb.active && killed.standby_lb.active) ≡ false
serve_exclusive_example =
    serve_exclusive killed hello 9 readings killed no_lb_reply hello-IsTraffic nobody

serve-kill_continues_example :
    (after_kill : Server) × (reply : Bytes) × (serve (boot 7) kill 8 readings
      ≡ some (after_kill, reply))
    × (serve after_kill hello (takeover_after + 7) readings
        ≡ put_back
            (record after_kill { standby_lb = activate (boot 7).standby_lb })
            (handle_request
              (boot 7).primary_lb
              (boot 7).system
              (tuple_of hello)
              (c_string hello.buffer)
              readings))
serve-kill_continues_example =
    serve-kill_continues (boot 7) kill hello 8 (takeover_after + 7) readings readings kill_text
      hello-IsTraffic booted_active in_time

-- A packet that arrives during the outage is answered with an error.
abbrev outage_rounds : List Round
outage_rounds =
    record { packet = kill; now = 9; readings = readings }
    ∷ record { packet = hello; now = 20; readings = readings }
    ∷ []

run-outage_rounds :
    run (boot 7) outage_rounds
    ≡ some (killed, codes "CMD_ACK: Primary LB Killed." ∷ no_lb_reply ∷ [])
unfolding program run
run-outage_rounds = refl

heard_at_start : last_heard 7 outage_rounds ≡ 7
unfolding last_heard follow_all follow program
heard_at_start = refl

run-boot-IsHandled_example :
    IsHandled killed hello
      (takeover_after + 7)
      readings
      (serve killed hello (takeover_after + 7) readings)
run-boot-IsHandled_example =
    run-boot-IsHandled 7 outage_rounds killed
      (codes "CMD_ACK: Primary LB Killed." ∷ no_lb_reply ∷ []) hello (takeover_after + 7) readings
      run-outage_rounds hello-IsTraffic (omega (arith, heard_at_start))

-- A hello, a receive that fails, and the end of the primary.
abbrev received : List Received
received = arrived hello 8 readings [] ∷ failed ∷ arrived kill 9 readings [] ∷ []

abbrev disk : Disk
disk = record { directory_made = true; request_opens = true; system_opens = true }

abbrev network : Network
network = record { socket_opens = true; bind_succeeds = true }

abbrev start_log : Logger
start_log = session_affinity_engine.Logger.new [] []

abbrev launched : Loop
launched = record {
  server = boot 7;
  sent = [];
  output = initializing_text ++ listening_text;
  log = log_system (init start_log true disk []).0 [] info (codes "Listening on UDP port 9000");
}

launch-launched : launch disk network start_log (λ i. []) 7 ≡ listening launched
unfolding launch listen init open_files to_string open_file open_system
launch-launched = refl

launch-IsLaunch_example : IsLaunch true 7 received (launch disk network start_log (λ i. []) 7)
unfolding all_succeed
launch-IsLaunch_example = launch-IsLaunch disk network [] [] (λ i. []) 7 received
