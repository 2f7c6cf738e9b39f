-- ===== src/Server/Replies.antt =====
-- src/main1.cpp from its start: what its loop sends for the packets that arrive.
use session_affinity_engine.Base.{
  ℕ, Bool, true, false, ◌&&◌, ◌≡◌, refl, sym, ap, ◌∙◌, Option, none, some, List, [], ◌∷◌, ◌++◌,
  append_assoc, arith, append-nil,
}
use session_affinity_engine.Text.{Bytes}
use session_affinity_engine.Logger
use session_affinity_engine.Logger.{Logger, Disk, init, open_files, open_file, open_system}
use session_affinity_engine.LoadBalancer.{Readings}
use session_affinity_engine.Server.{Server, Packet, c_string, serve, boot}
use session_affinity_engine.Server.Safety.{ServerInv, Round, run, serve-Answered, boot-ServerInv}
use session_affinity_engine.Server.Process.{
  Address, sender, Loop, Received, failed, arrived, Notice, recovered, taken_over, notice, announce,
  answer, Network, Launched, gives_up, launch, listening, listen, loop_round, loop_rounds,
}

-- The packets that have arrived, as rounds of the server.
rounds_of : List Received → List Round
rounds_of [] = []
rounds_of (failed ∷ xs) = rounds_of xs
rounds_of (arrived p now r stamp ∷ xs) =
    record { packet = p; now = now; readings = r } ∷ rounds_of xs

-- The replies, each with the sender of its packet.
addressed : List Round → List Bytes → List (Address × Bytes)
addressed [] replies = []
addressed (x ∷ rounds) [] = []
addressed (x ∷ rounds) (reply ∷ replies) = (sender x.packet, reply) ∷ addressed rounds replies

announce-sent :
    (st : Loop) (stamp : Bytes) (n : Option Notice) → (announce st stamp n).sent ≡ st.sent
unfolding announce
announce-sent st stamp none = refl
announce-sent st stamp (some recovered) = refl
announce-sent st stamp (some taken_over) = refl

loop_round-failed : (st : Loop) → loop_round st failed ≡ some st
unfolding loop_round
loop_round-failed st = refl

loop_round-arrived :
    (st : Loop) (p : Packet) (now : ℕ) (r : Readings) (stamp : Bytes) (server' : Server)
    (reply : Bytes)
    → serve st.server p now r ≡ some (server', reply)
    → loop_round st (arrived p now r stamp)
      ≡ some (answer (announce st stamp (notice st.server (c_string p.buffer) now)) p server' reply)
unfolding loop_round
loop_round-arrived st p now r stamp server' reply e = rw (e, loop_round)

answer-sent :
    (st : Loop) (stamp : Bytes) (n : Option Notice) (p : Packet) (server' : Server) (reply : Bytes)
    → (answer (announce st stamp n) p server' reply).sent ≡ st.sent ++ (sender p, reply) ∷ []
unfolding answer
answer-sent st stamp n p server' reply =
    ap (λ past. past ++ (sender p, reply) ∷ []) (announce-sent st stamp n)

answer-server :
    (st : Loop) (p : Packet) (server' : Server) (reply : Bytes)
    → (answer st p server' reply).server ≡ server'
unfolding answer
answer-server st p server' reply = refl

-- The loop from a server that satisfies its invariant.
loop_rounds-run :
    (st : Loop) (server : Server) (xs : List Received)
    → st.server ≡ server
    → ServerInv server
    → (st' : Loop) × (replies : List Bytes) × (loop_rounds st xs ≡ some st')
      × (run server (rounds_of xs) ≡ some (st'.server, replies))
      × (st'.sent ≡ st.sent ++ addressed (rounds_of xs) replies)
unfolding loop_rounds run rounds_of addressed
loop_rounds-run st server [] same i =
    (st, [], refl, ap (λ last. some (last, [])) (sym same), sym (append-nil st.sent))
loop_rounds-run st server (failed ∷ xs) same i =
    let (st', replies, goes, runs, sends) = loop_rounds-run st server xs same i in
    (st', replies, rw (loop_rounds, loop_round-failed st, goes), runs, sends)
loop_rounds-run st server (arrived p now r stamp ∷ xs) same i =
    let (server', reply, e, i') = serve-Answered server p now r i in
    let told = announce st stamp (notice st.server (c_string p.buffer) now) in
    let next = answer told p server' reply in
    let step =
      loop_round-arrived st p now r stamp server' reply (ap (λ s. serve s p now r) same ∙ e) in
    let (st', replies, goes, runs, sends) =
      loop_rounds-run next server' xs (answer-server told p server' reply) i' in
    (
      st',
      reply ∷ replies,
      rw (loop_rounds, step, goes),
      rw (e, runs),
      sends
          ∙ ap (λ past. past ++ addressed (rounds_of xs) replies)
              (answer-sent st stamp _ p server' reply)
          ∙ append_assoc st.sent _ _,
    )

launch-boot :
    (disk : Disk) (network : Network) (log : Logger) (stamps : ℕ → Bytes) (now : ℕ) (st : Loop)
    → launch disk network log stamps now ≡ listening st
    → (st.server ≡ boot now) × (st.sent ≡ [])
unfolding launch listen
launch-boot disk network log stamps now st e = ground arith

-- The loop of a program that started at clock reading `now` serves what is received.
Served : ℕ → List Received → Loop → Type 0
Served now xs st =
    (st' : Loop) × (replies : List Bytes) × (loop_rounds st xs ≡ some st')
    × (run (boot now) (rounds_of xs) ≡ some (st'.server, replies))
    × (st'.sent ≡ addressed (rounds_of xs) replies)

launch-Served :
    (disk : Disk) (network : Network) (log : Logger) (stamps : ℕ → Bytes) (now : ℕ) (st : Loop)
    (xs : List Received)
    → launch disk network log stamps now ≡ listening st
    → Served now xs st
unfolding Served
launch-Served disk network log stamps now st xs e =
    let (booted, silent) = launch-boot disk network log stamps now st e in
    let (st', replies, goes, runs, sends) =
      loop_rounds-run st (boot now) xs booted (boot-ServerInv now) in
    (st', replies, goes, runs, sends ∙ ap (λ past. past ++ addressed (rounds_of xs) replies) silent)

-- Whether everything succeeds that the program asks of the file system and the network at its start.
unfoldable pub all_succeed : Disk → Network → Bool
all_succeed disk network =
    disk.directory_made && disk.request_opens && disk.system_opens && network.socket_opens
    && network.bind_succeeds

pub IsLaunch : Bool → ℕ → List Received → Launched → Type 0
IsLaunch succeeds now xs (gives_up code output log) = (succeeds ≡ false) × (code ≡ 1)
IsLaunch succeeds now xs (listening st) = (succeeds ≡ true) × Served now xs st

launch_cases :
    (directory requests_open systems_open socket bind : Bool) (requests systems : Bytes)
    (stamps : ℕ → Bytes) (now : ℕ) (xs : List Received)
    → let disk : Disk = record {
      directory_made = directory;
      request_opens = requests_open;
      system_opens = systems_open;
    } in
      let network : Network = record { socket_opens = socket; bind_succeeds = bind } in
      IsLaunch
        (all_succeed disk network)
        now
        xs
        (launch disk network (session_affinity_engine.Logger.new requests systems) stamps now)
unfolding IsLaunch all_succeed launch listen init open_files open_file open_system
launch_cases false r d s b requests systems stamps now xs = (refl, refl)
launch_cases true false d s b requests systems stamps now xs = (refl, refl)
launch_cases true true false s b requests systems stamps now xs = (refl, refl)
launch_cases true true true false b requests systems stamps now xs = (refl, refl)
launch_cases true true true true false requests systems stamps now xs = (refl, refl)
launch_cases true true true true true requests systems stamps now xs = (
  refl,
  launch-Served (record { directory_made = true; request_opens = true; system_opens = true })
      (record { socket_opens = true; bind_succeeds = true })
      (session_affinity_engine.Logger.new requests systems) stamps now _ xs refl,
)

-- The program with a new logger gets to its loop exactly if everything succeeds at its start; otherwise it
-- ends with exit code 1. From its loop on, for whatever is received: the loop goes on without undefined
-- behaviour, and sends exactly the replies of the server's rounds from its start for the packets that have
-- arrived, each to the sender of its packet, in the order of arrival. A receive that fails sends
-- nothing and leaves the server as it is.
pub launch-IsLaunch :
    (disk : Disk) (network : Network) (requests systems : Bytes) (stamps : ℕ → Bytes) (now : ℕ)
    (xs : List Received)
    → IsLaunch
        (all_succeed disk network)
        now
        xs
        (launch disk network (session_affinity_engine.Logger.new requests systems) stamps now)
launch-IsLaunch disk network requests systems stamps now xs =
    launch_cases disk.directory_made disk.request_opens disk.system_opens network.socket_opens
      network.bind_succeeds requests systems stamps now xs
