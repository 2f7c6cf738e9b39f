-- ===== src/Server/Process.antt =====
-- The rest of src/main1.cpp: how the program starts, and its loop with what it sends, prints and logs. The
-- calls of the socket are outside the model: what they answer is an argument.
use session_affinity_engine.Base.{
  ℕ, Bool, true, not, ◌&&◌, ◌||◌, Option, none, some, List, [], ◌∷◌, ◌++◌, if◌then◌else◌,
}
use session_affinity_engine.Config.{lb_primary_port}
use session_affinity_engine.Text.{Bytes, codes, str_eq}
use session_affinity_engine.Text.Decimal.{to_string}
use session_affinity_engine.FiveTuple.{to_key}
use session_affinity_engine.Logger.{Logger, Disk, init, log_system, shutdown, info, warning}
use session_affinity_engine.LoadBalancer.{Readings, should_takeover}
use session_affinity_engine.Server.{Server, Packet, c_string, tuple_of, boot, serve}

-- Where a reply goes.
pub record Address : Type 0 where
  pub ip : Bytes
  pub port : ℕ

abbrev pub sender : Packet → Address
sender p = record { ip = p.src_ip; port = p.src_port }

-- The loop: the server, the replies that are sent, the standard output, and the log, with
-- the messages that main1.cpp writes itself.
pub record Loop : Type 0 where
  pub server : Server
  pub sent : List (Address × Bytes)
  pub output : Bytes
  pub log : Logger

-- What `recvfrom` gives, with what the round then reads from the clocks: the steady clock, the load
-- balancer's readings, and the text in a line of the log.
pub data Received : Type 0 where
  failed : Received
  arrived : Packet → ℕ → Readings → Bytes → Received

-- What a round announces of the hand-over between the load balancers.
pub data Notice : Type 0 where
  recovered taken_over : Notice

abbrev pub is_command : Bytes → Bool
is_command payload =
    str_eq payload (codes "CMD:KILL_PRIMARY") || str_eq payload (codes "CMD:REVIVE_PRIMARY")

unfoldable pub notice : Server → Bytes → ℕ → Option Notice
notice server payload now =
    if is_command payload
    then none
    else if server.primary_lb.active
    then (if server.standby_lb.active then some recovered else none)
    else if not server.standby_lb.active && should_takeover server.last_primary_heartbeat now
    then some taken_over
    else none

-- The marks that the console's lines begin with, in UTF-8.
abbrev pub check_mark : Bytes
check_mark = 0xe2 ∷ 0x9c ∷ 0x85 ∷ []

abbrev pub warning_sign : Bytes
warning_sign = 0xe2 ∷ 0x9a ∷ 0xa0 ∷ 0xef ∷ 0xb8 ∷ 0x8f ∷ []

unfoldable pub announce : Loop → Bytes → Option Notice → Loop
announce st stamp none = st
announce st stamp (some recovered) = record st {
  log = log_system st.log stamp info (codes "Primary LB recovered. Standby yielding control.");
  output =
      st.output
      ++ (codes "\n"
          ++ (check_mark ++ codes " PRIMARY LB RECOVERED & RESUMED TRAFFIC. Standby yielded.\n"));
}
announce st stamp (some taken_over) = record st {
  log = log_system st.log stamp warning (codes "Standby LB taking over traffic routing!");
  output =
      st.output
      ++ (codes "\n"
          ++ (warning_sign
              ++ (codes " STANDBY LB HAS TAKEN OVER TRAFFIC " ++ (warning_sign ++ codes "\n"))));
}

unfoldable pub traffic_line : Packet → Bytes → Bytes
traffic_line p reply =
    codes "[TRAFFIC] " ++ (to_key (tuple_of p) ++ (codes " -> " ++ (reply ++ codes "\n")))

-- The reply is sent, and shown on the console.
unfoldable pub answer : Loop → Packet → Server → Bytes → Loop
answer st p server' reply = record st {
  server = server';
  sent = st.sent ++ (sender p, reply) ∷ [];
  output = st.output ++ traffic_line p reply;
}

-- One round; `none` is undefined behaviour. A receive that fails is tried again.
unfoldable pub loop_round : Loop → Received → Option Loop
loop_round st failed = some st
loop_round st (arrived p now r stamp) = elim (serve st.server p now r) [
  | none ↦ none
  | some (server', reply) ↦
      some (answer (announce st stamp (notice st.server (c_string p.buffer) now)) p server' reply)
]

unfoldable pub loop_rounds : Loop → List Received → Option Loop
loop_rounds st [] = some st
loop_rounds st (x ∷ xs) = elim (loop_round st x) [ none ↦ none | some st' ↦ loop_rounds st' xs ]

-- What the network answers at the start.
pub record Network : Type 0 where
  pub socket_opens : Bool
  pub bind_succeeds : Bool

-- The program ends with an exit code, its standard output and its log before its loop, or it enters the loop and never leaves it.
pub data Launched : Type 0 where
  gives_up : ℕ → Bytes → Logger → Launched
  listening : Loop → Launched

abbrev pub initializing_text : Bytes
initializing_text = codes "Initializing Session Affinity Engine (Docker Mode)...\n"

abbrev pub listening_text : Bytes
listening_text =
    check_mark
    ++ (codes " Server listening on UDP port " ++ (to_string lb_primary_port ++ codes "...\n"))

-- `runUDPServer` up to its loop. The last `shutdown` of a program that ends is that of the logger's
-- destructor.
unfoldable pub listen : Network → Logger → (ℕ → Bytes) → ℕ → Launched
listen network log stamps now =
    if not network.socket_opens
    then gives_up 1 initializing_text (shutdown log (stamps 2))
    else if not network.bind_succeeds
    then gives_up 1 initializing_text (shutdown log (stamps 2))
    else listening (record {
      server = boot now;
      sent = [];
      output = initializing_text ++ listening_text;
      log =
          log_system log (stamps 1) info
            (codes "Listening on UDP port " ++ to_string lb_primary_port);
    })

-- `main`
unfoldable pub launch : Disk → Network → Logger → (ℕ → Bytes) → ℕ → Launched
launch disk network log stamps now =
    let (log', started) = init log true disk (stamps 0) in
    if not started then gives_up 1 [] (shutdown log' (stamps 2)) else listen network log' stamps now
