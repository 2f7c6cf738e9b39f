-- ===== src/Server/Safety.antt =====
-- The server of src/main1.cpp over any history of packets.
use session_affinity_engine.Base.{
  ℕ, zero, suc, ◌+◌, ◌≡◌, refl, ap, Option, some, List, [], ◌∷◌, ◌++◌, arith, ◌==◌, if◌then◌else◌,
  if_intro, ◌>>=◌, length, get_elem?, contains,
}
use session_affinity_engine.Config.{num_backend_servers, consistent_hash_vnodes}
use session_affinity_engine.Text.{Bytes, codes, str_eq}
use session_affinity_engine.FiveTuple.{FiveTuple}
use session_affinity_engine.Ring.{ConsistentHashRing, add_server}
use session_affinity_engine.Ring.Invariant.{new-RingInv, add_server-RingInv}
use session_affinity_engine.RequestHandler.{RequestHandler}
use session_affinity_engine.LoadBalancer.{
  System, Readings, primary, standby, handle_request, deactivate,
}
use session_affinity_engine.LoadBalancer.Backends.{SystemInv, contains-add_server}
use session_affinity_engine.LoadBalancer.Safety.{IsSafe, handle_request-IsSafe}
use session_affinity_engine.Server.{
  Server, Packet, c_string, tuple_of, add_backends, empty_system, boot, put_back, no_lb_reply,
  by_primary, watched, by_standby, route_traffic, serve,
}

append_elem :
    (xs : List RequestHandler) (y : RequestHandler) (j : ℕ)
    → get_elem? (xs ++ y ∷ []) j ≡ (if j == length xs then some y else get_elem? xs j)
append_elem [] y zero = refl
append_elem [] y (suc j) = ground arith
append_elem (x ∷ xs) y zero = ground arith
append_elem (x ∷ xs) y (suc j) = ground (arith, append_elem xs y j)

length-snoc :
    (xs : List RequestHandler) (y : RequestHandler) → length (xs ++ y ∷ []) ≡ length xs + 1
length-snoc [] y = refl
length-snoc (x ∷ xs) y = omega (arith, length-snoc xs y)

pub add_backends-SystemInv :
    (i rounds : ℕ) (s : System)
    → length s.backends ≡ i
    → SystemInv s
    → SystemInv (add_backends i rounds s) × (length (add_backends i rounds s).backends ≡ i + rounds)
unfolding add_backends
add_backends-SystemInv i zero s l inv = (inv, omega (arith, l))
add_backends-SystemInv i (suc rounds) s l inv =
    let h = session_affinity_engine.RequestHandler.new i in
    let s' : System = record s { backends = s.backends ++ h ∷ []; ring = add_server s.ring i } in
    let l' : length s'.backends ≡ i + 1 = omega (arith, l, length-snoc s.backends h) in
    let inv' : SystemInv s' = record {
      ring = add_server-RingInv s.ring i inv.ring;
      agrees = λ b.
          ground (arith, append_elem s.backends h b, contains-add_server s.ring i b, inv.agrees b);
      named = λ b x here. ground (arith, append_elem s.backends h b, inv.named b x);
    } in
    let (done, count) = add_backends-SystemInv (i + 1) rounds s' l' inv' in
    (done, omega (arith, count))

-- What holds of the server before and after every round.
pub record ServerInv (server : Server) : Type 0 where
  pub system : SystemInv server.system
  pub primary_role : server.primary_lb.role ≡ primary
  pub standby_role : server.standby_lb.role ≡ standby

pub empty_system-SystemInv : SystemInv empty_system
unfolding empty_system contains session_affinity_engine.Ring.new
empty_system-SystemInv = record {
  ring = new-RingInv consistent_hash_vnodes;
  agrees = λ b. refl;
  named = λ b h e. absurd (ground arith);
}

pub boot-ServerInv : (now : ℕ) → ServerInv (boot now)
unfolding boot empty_system
boot-ServerInv now = record {
  system =
      (add_backends-SystemInv 0 num_backend_servers empty_system refl empty_system-SystemInv).0;
  primary_role = refl;
  standby_role = refl;
}

-- A round that replies, and leaves the server with its invariant.
abbrev pub Answered : Option (Server × Bytes) → Type 0
Answered result =
    (server : Server) × (reply : Bytes) × (result ≡ some (server, reply)) × ServerInv server

put_back-Answered :
    (server : Server) (result : Option (System × Bytes))
    → ServerInv server
    → IsSafe result
    → Answered (put_back server result)
put_back-Answered server result i (s, reply, e, inv) = (
  record server { system = s },
  reply,
  ap (put_back server) e,
  record { system = inv; primary_role = i.primary_role; standby_role = i.standby_role },
)

watched-role : (server : Server) (now : ℕ) → ServerInv server → (watched server now).role ≡ standby
unfolding watched
watched-role server now i = ground (arith, i.standby_role)

by_primary-Answered :
    (server : Server) (ft : FiveTuple) (payload : Bytes) (now : ℕ) (r : Readings)
    → ServerInv server
    → Answered (by_primary server ft payload now r)
unfolding by_primary
by_primary-Answered server ft payload now r i =
    let standby' =
      if server.standby_lb.active then deactivate server.standby_lb else server.standby_lb in
    let server' : Server = record server { last_primary_heartbeat = now; standby_lb = standby' } in
    put_back-Answered server' (handle_request server.primary_lb server.system ft payload r)
      (record {
        system = i.system;
        primary_role = i.primary_role;
        standby_role = ground (arith, i.standby_role);
      })
      (handle_request-IsSafe server.primary_lb server.system ft payload r i.system)

by_standby-Answered :
    (server : Server) (ft : FiveTuple) (payload : Bytes) (now : ℕ) (r : Readings)
    → ServerInv server
    → Answered (by_standby server ft payload now r)
unfolding by_standby
by_standby-Answered server ft payload now r i =
    let standby' = watched server now in
    let server' : Server = record server { standby_lb = standby' } in
    let i' : ServerInv server' = record {
      system = i.system;
      primary_role = i.primary_role;
      standby_role = watched-role server now i;
    } in
    if_intro Answered standby'.active _ _
      (put_back-Answered server' (handle_request standby' server.system ft payload r) i'
        (handle_request-IsSafe standby' server.system ft payload r i.system))
      (server', no_lb_reply, refl, i')

pub serve-Answered :
    (server : Server) (p : Packet) (now : ℕ) (r : Readings)
    → ServerInv server
    → Answered (serve server p now r)
unfolding serve route_traffic
serve-Answered server p now r i =
    let payload = c_string p.buffer in
    if_intro Answered (str_eq payload (codes "CMD:KILL_PRIMARY")) _ _
      (
        _,
        _,
        refl,
        record { system = i.system; primary_role = i.primary_role; standby_role = i.standby_role },
      )
      (if_intro Answered (str_eq payload (codes "CMD:REVIVE_PRIMARY")) _ _
        (
          _,
          _,
          refl,
          record {
            system = i.system;
            primary_role = i.primary_role;
            standby_role = i.standby_role;
          },
        )
        (if_intro Answered server.primary_lb.active _ _
          (by_primary-Answered server (tuple_of p) payload now r i)
          (by_standby-Answered server (tuple_of p) payload now r i)))

-- A round of the loop: a packet, and what its handling reads from the clocks.
pub record Round : Type 0 where
  pub packet : Packet
  pub now : ℕ
  pub readings : Readings

-- The rounds one after another, with the replies that are sent.
unfoldable pub run : Server → List Round → Option (Server × List Bytes)
run server [] = some (server, [])
run server (x ∷ rounds) = do
  (server', reply) ← serve server x.packet x.now x.readings
  (last, replies) ← run server' rounds
  some (last, reply ∷ replies)

run-answered :
    (server : Server) (rounds : List Round)
    → ServerInv server
    → (last : Server) × (replies : List Bytes) × (run server rounds ≡ some (last, replies))
      × (length replies ≡ length rounds)
      × ServerInv last
unfolding run
run-answered server [] i = (server, [], refl, refl, i)
run-answered server (x ∷ rounds) i =
    let (server', reply, e, i') = serve-Answered server x.packet x.now x.readings i in
    let (last, replies, e', l, i'') = run-answered server' rounds i' in
    (last, reply ∷ replies, rw (e, run, e'), omega (arith, l), i'')

-- From its start, whatever packets arrive and whatever the clocks read, the server never reads outside
-- the vector of backends and sends one reply for each packet. After them the servers on the ring are the
-- backends that are online, and the load balancers have kept their roles.
pub run-boot-ServerInv :
    (now : ℕ) (rounds : List Round)
    → (last : Server) × (replies : List Bytes) × (run (boot now) rounds ≡ some (last, replies))
      × (length replies ≡ length rounds)
      × ServerInv last
run-boot-ServerInv now rounds = run-answered (boot now) rounds (boot-ServerInv now)
