-- ===== src/Server.antt =====
-- src/main1.cpp: the UDP server with its two load balancers. The socket, which delivers the packets and
-- their senders' addresses, is outside the model: a packet is an argument, as what the round reads from
-- the clocks is.
pub mod Safety
pub mod Failover
pub mod Liveness
pub mod Process
pub mod Replies
pub mod Examples
use session_affinity_engine.Base.{
  ℕ, zero, suc, ◌+◌, Bool, true, false, not, ◌&&◌, Option, none, some, List, [], ◌∷◌, ◌++◌, ◌==◌,
  if◌then◌else◌,
}
use session_affinity_engine.Config.{
  num_backend_servers, lb_primary_port, session_timeout_sec, rate_limit_window_sec,
  rate_limit_max_requests, consistent_hash_vnodes,
}
use session_affinity_engine.Text.{Bytes, codes, str_eq}
use session_affinity_engine.FiveTuple.{FiveTuple}
use session_affinity_engine.Ring.{add_server}
use session_affinity_engine.RequestHandler
use session_affinity_engine.LoadBalancer.{
  LoadBalancer, System, Readings, LbRole, primary, standby, handle_request, should_takeover,
  activate, deactivate,
}

pub record Server : Type 0 where
  pub system : System
  pub primary_lb : LoadBalancer
  pub standby_lb : LoadBalancer
  pub last_primary_heartbeat : ℕ

-- A packet of the socket: the sender's address and port, and the bytes in the buffer.
pub record Packet : Type 0 where
  pub src_ip : Bytes
  pub src_port : ℕ
  pub buffer : Bytes

-- `std::string payload(buffer)`, with the 0 that the server writes behind the packet.
unfoldable pub c_string : Bytes → Bytes
c_string [] = []
c_string (c ∷ text) = let rest = c_string text in if c == 0 then [] else c ∷ rest

abbrev pub tuple_of : Packet → FiveTuple
tuple_of p = record {
  src_ip = p.src_ip;
  src_port = p.src_port;
  dst_ip = codes "0.0.0.0";
  dst_port = lb_primary_port;
  protocol = codes "UDP";
}

-- The loop that creates the backends, from number `i` on.
unfoldable pub add_backends : ℕ → ℕ → System → System
add_backends i zero s = s
add_backends i (suc rounds) s = add_backends (i + 1) rounds (record s {
  backends = s.backends ++ session_affinity_engine.RequestHandler.new i ∷ [];
  ring = add_server s.ring i;
})

-- The components before the loop.
unfoldable pub empty_system : System
empty_system = record {
  sessions = session_affinity_engine.Sessions.new session_timeout_sec;
  ring = session_affinity_engine.Ring.new consistent_hash_vnodes;
  limiter = session_affinity_engine.RateLimiter.new rate_limit_window_sec rate_limit_max_requests;
  security = session_affinity_engine.Security.new;
  backends = [];
}

unfoldable pub boot : ℕ → Server
boot now = record {
  system = add_backends 0 num_backend_servers empty_system;
  primary_lb = session_affinity_engine.LoadBalancer.new primary now;
  standby_lb = session_affinity_engine.LoadBalancer.new standby now;
  last_primary_heartbeat = now;
}

-- The system after a request and the reply, put back into the server.
abbrev pub put_back : Server → Option (System × Bytes) → Option (Server × Bytes)
put_back server none = none
put_back server (some (s, reply)) = some (record server { system = s }, reply)

unfoldable pub no_lb_reply : Bytes
no_lb_reply = codes "ERROR: No active Load Balancer available."

-- Normal traffic at clock reading `now` while the primary is active: a standby that is active yields.
unfoldable pub by_primary : Server → FiveTuple → Bytes → ℕ → Readings → Option (Server × Bytes)
by_primary server ft payload now r =
    put_back
      (record server {
        last_primary_heartbeat = now;
        standby_lb =
            if server.standby_lb.active then deactivate server.standby_lb else server.standby_lb;
      })
      (handle_request server.primary_lb server.system ft payload r)

-- The standby as it stands once it has looked for the primary's heartbeat.
unfoldable pub watched : Server → ℕ → LoadBalancer
watched server now =
    if not server.standby_lb.active && should_takeover server.last_primary_heartbeat now
    then activate server.standby_lb
    else server.standby_lb

-- Normal traffic while the primary is not active.
unfoldable pub by_standby : Server → FiveTuple → Bytes → ℕ → Readings → Option (Server × Bytes)
by_standby server ft payload now r =
    let standby' = watched server now in
    let server' : Server = record server { standby_lb = standby' } in
    if standby'.active
    then put_back server' (handle_request standby' server.system ft payload r)
    else some (server', no_lb_reply)

unfoldable pub route_traffic : Server → FiveTuple → Bytes → ℕ → Readings → Option (Server × Bytes)
route_traffic server ft payload now r =
    if server.primary_lb.active
    then by_primary server ft payload now r
    else by_standby server ft payload now r

-- One round of the server's loop: the reply that is sent, or `none` for undefined behaviour.
unfoldable pub serve : Server → Packet → ℕ → Readings → Option (Server × Bytes)
serve server p now r =
    let payload = c_string p.buffer in
    if str_eq payload (codes "CMD:KILL_PRIMARY")
    then some (
      record server { primary_lb = deactivate server.primary_lb },
      codes "CMD_ACK: Primary LB Killed.",
    )
    else if str_eq payload (codes "CMD:REVIVE_PRIMARY")
    then some (
      record server { primary_lb = activate server.primary_lb },
      codes "CMD_ACK: Primary LB Revived.",
    )
    else route_traffic server (tuple_of p) payload now r
