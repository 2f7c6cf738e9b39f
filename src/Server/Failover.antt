-- ===== src/Server/Failover.antt =====
-- The hand-over between the two load balancers of src/main1.cpp.
use session_affinity_engine.Base.{
  ℕ, ◌+◌, ◌≤◌, ◌<◌, ◌≡◌, ◌⊎◌, refl, sym, ap, subst, ◌∙◌, Bool, true, false, ◌&&◌, Option, none,
  some, arith, if◌then◌else◌, if_intro, Bool-cases, inl, inr,
}
use session_affinity_engine.Text.{Bytes, codes, str_eq, str_eq_iff}
use session_affinity_engine.FiveTuple.{FiveTuple}
use session_affinity_engine.LoadBalancer.{
  LoadBalancer, System, Readings, handle_request, should_takeover, activate, deactivate,
}
use session_affinity_engine.LoadBalancer.Safety.{handle_request_takeover}
use session_affinity_engine.Server.{
  Server, Packet, c_string, tuple_of, put_back, no_lb_reply, by_primary, watched, by_standby,
  route_traffic, serve,
}

-- A packet that is none of the two commands.
pub record IsTraffic (p : Packet) : Type 0 where
  pub no_kill : str_eq (c_string p.buffer) (codes "CMD:KILL_PRIMARY") ≡ false
  pub no_revive : str_eq (c_string p.buffer) (codes "CMD:REVIVE_PRIMARY") ≡ false

-- 3001 milliseconds in ticks of the clock.
abbrev pub takeover_after : ℕ
takeover_after = 3_001_000_000

should_takeover_lem :
    (last now : ℕ)
    → ((should_takeover last now ≡ true) × (last + takeover_after ≤ now))
      ⊎ ((should_takeover last now ≡ false) × (now < last + takeover_after))
unfolding should_takeover
should_takeover_lem last now = ground arith

activate_active : (lb : LoadBalancer) → lb.active ≡ true → activate lb ≡ lb
activate_active lb e = ap (λ (b : Bool). record lb { active = b }) (sym e)

-- What a packet comes to while the primary is not active.
pub data Watched (server : Server) (ft : FiveTuple) (payload : Bytes) (now : ℕ) (r : Readings)
    (result : Option (Server × Bytes)) : Type 0 where
  taken_over :
      (server.standby_lb.active ≡ true) ⊎ (server.last_primary_heartbeat + takeover_after ≤ now)
      → result
        ≡ put_back
            (record server { standby_lb = activate server.standby_lb })
            (handle_request (activate server.standby_lb) server.system ft payload r)
      → Watched server ft payload now r result
  waiting :
      server.standby_lb.active ≡ false
      → now < server.last_primary_heartbeat + takeover_after
      → result ≡ some (server, no_lb_reply)
      → Watched server ft payload now r result

by_standby_taken :
    (server : Server) (ft : FiveTuple) (payload : Bytes) (now : ℕ) (r : Readings)
    → watched server now ≡ activate server.standby_lb
    → by_standby server ft payload now r
      ≡ put_back
          (record server { standby_lb = activate server.standby_lb })
          (handle_request (activate server.standby_lb) server.system ft payload r)
unfolding by_standby
by_standby_taken server ft payload now r e = rw e

by_standby_waiting :
    (server : Server) (ft : FiveTuple) (payload : Bytes) (now : ℕ) (r : Readings)
    → server.standby_lb.active ≡ false
    → should_takeover server.last_primary_heartbeat now ≡ false
    → by_standby server ft payload now r ≡ some (server, no_lb_reply)
unfolding by_standby watched
by_standby_waiting server ft payload now r off early = ground arith

pub by_standby_lem :
    (server : Server) (ft : FiveTuple) (payload : Bytes) (now : ℕ) (r : Readings)
    → Watched server ft payload now r (by_standby server ft payload now r)
unfolding watched
by_standby_lem server ft payload now r = elim (Bool-cases server.standby_lb.active) [
  | inl on ↦
      let same : watched server now ≡ activate server.standby_lb =
        ground (arith, activate_active server.standby_lb on) in
      taken_over (inl on) (by_standby_taken server ft payload now r same)
  | inr off ↦ elim (should_takeover_lem server.last_primary_heartbeat now) [
    | inl (due, late) ↦
        taken_over (inr late) (by_standby_taken server ft payload now r (ground arith))
    | inr (early, before) ↦
        waiting off before (by_standby_waiting server ft payload now r off early)
  ]
]

pub serve_traffic :
    (server : Server) (p : Packet) (now : ℕ) (r : Readings)
    → IsTraffic p
    → serve server p now r ≡ route_traffic server (tuple_of p) (c_string p.buffer) now r
unfolding serve
serve_traffic server p now r t = rw (t.no_kill, t.no_revive)

pub route_passive :
    (server : Server) (ft : FiveTuple) (payload : Bytes) (now : ℕ) (r : Readings)
    → server.primary_lb.active ≡ false
    → route_traffic server ft payload now r ≡ by_standby server ft payload now r
unfolding route_traffic
route_passive server ft payload now r off = ground arith

pub route_active :
    (server : Server) (ft : FiveTuple) (payload : Bytes) (now : ℕ) (r : Readings)
    → server.primary_lb.active ≡ true
    → route_traffic server ft payload now r ≡ by_primary server ft payload now r
unfolding route_traffic
route_active server ft payload now r on = ground arith

-- While the primary is not active, the standby handles a packet that is no command if it is active
-- already or if 3001 milliseconds have passed since the primary's last heartbeat, and is active
-- afterwards. Before that the packet is answered with an error and nothing changes.
pub serve_takeover :
    (server : Server) (p : Packet) (now : ℕ) (r : Readings)
    → IsTraffic p
    → server.primary_lb.active ≡ false
    → Watched server (tuple_of p) (c_string p.buffer) now r (serve server p now r)
serve_takeover server p now r t off =
    subst (λ (x : Option (Server × Bytes)). Watched server (tuple_of p) (c_string p.buffer) now r x)
      (sym (
        serve_traffic server p now r t
        ∙ route_passive server (tuple_of p) (c_string p.buffer) now r off))
      (by_standby_lem server (tuple_of p) (c_string p.buffer) now r)

-- Whatever server the result holds, at most one of its load balancers is active.
abbrev Exclusive : Option (Server × Bytes) → Type 0
Exclusive none = Unit {0}
Exclusive (some (server, reply)) = (server.primary_lb.active && server.standby_lb.active) ≡ false

put_back-Exclusive :
    (server : Server) (result : Option (System × Bytes))
    → (server.primary_lb.active && server.standby_lb.active) ≡ false
    → Exclusive (put_back server result)
put_back-Exclusive server none h = tt
put_back-Exclusive server (some (s, reply)) h = h

by_primary-Exclusive :
    (server : Server) (ft : FiveTuple) (payload : Bytes) (now : ℕ) (r : Readings)
    → Exclusive (by_primary server ft payload now r)
unfolding by_primary
by_primary-Exclusive server ft payload now r =
    let standby' =
      if server.standby_lb.active then deactivate server.standby_lb else server.standby_lb in
    put_back-Exclusive (record server { last_primary_heartbeat = now; standby_lb = standby' })
      (handle_request server.primary_lb server.system ft payload r) (ground arith)

by_standby-Exclusive :
    (server : Server) (ft : FiveTuple) (payload : Bytes) (now : ℕ) (r : Readings)
    → server.primary_lb.active ≡ false
    → Exclusive (by_standby server ft payload now r)
unfolding by_standby
by_standby-Exclusive server ft payload now r off =
    if_intro Exclusive (watched server now).active _ _
      (put_back-Exclusive (record server { standby_lb = watched server now })
        (handle_request (watched server now) server.system ft payload r) (ground arith))
      (ground arith)

-- The two load balancers are not both active after a packet that is no command, even if they were
-- before.
pub serve_exclusive :
    (server : Server) (p : Packet) (now : ℕ) (r : Readings) (server' : Server) (reply : Bytes)
    → IsTraffic p
    → serve server p now r ≡ some (server', reply)
    → (server'.primary_lb.active && server'.standby_lb.active) ≡ false
serve_exclusive server p now r server' reply t e =
    let payload = c_string p.buffer in
    let to = serve_traffic server p now r t in
    subst Exclusive e (elim (Bool-cases server.primary_lb.active) [
      | inl on ↦
          subst Exclusive (sym (to ∙ route_active server (tuple_of p) payload now r on))
            (by_primary-Exclusive server (tuple_of p) payload now r)
      | inr off ↦
          subst Exclusive (sym (to ∙ route_passive server (tuple_of p) payload now r off))
            (by_standby-Exclusive server (tuple_of p) payload now r off)
    ])

serve_kill :
    (server : Server) (kill : Packet) (kill_time : ℕ) (r : Readings)
    → c_string kill.buffer ≡ codes "CMD:KILL_PRIMARY"
    → serve server kill kill_time r
      ≡ some (
        record server { primary_lb = deactivate server.primary_lb },
        codes "CMD_ACK: Primary LB Killed.",
      )
unfolding serve
serve_kill server kill kill_time r k =
    let is_kill : str_eq (c_string kill.buffer) (codes "CMD:KILL_PRIMARY") ≡ true =
      ground (arith, str_eq_iff (c_string kill.buffer) (codes "CMD:KILL_PRIMARY")) in
    rw is_kill

-- Once the command has stopped an active primary and 3001 milliseconds have passed since its last
-- heartbeat, the next packet that is no command leaves the system, and gets the reply, that the primary
-- would have given.
pub serve-kill_continues :
    (server : Server) (kill p : Packet) (kill_time now : ℕ) (r0 r : Readings)
    → c_string kill.buffer ≡ codes "CMD:KILL_PRIMARY"
    → IsTraffic p
    → server.primary_lb.active ≡ true
    → server.last_primary_heartbeat + takeover_after ≤ now
    → (killed : Server) × (reply : Bytes) × (serve server kill kill_time r0 ≡ some (killed, reply))
      × (serve killed p now r
          ≡ put_back
              (record killed { standby_lb = activate server.standby_lb })
              (handle_request server.primary_lb server.system (tuple_of p) (c_string p.buffer) r))
serve-kill_continues server kill p kill_time now r0 r k t on late =
    let killed : Server = record server { primary_lb = deactivate server.primary_lb } in
    let ft = tuple_of p in
    let payload = c_string p.buffer in
    (
      killed,
      codes "CMD_ACK: Primary LB Killed.",
      serve_kill server kill kill_time r0 k,
      elim (serve_takeover killed p now r t refl) [
        | waiting off early e ↦ absurd (omega arith)
        | taken_over due e ↦
            e
            ∙ ap (put_back (record killed { standby_lb = activate server.standby_lb })) (
                handle_request_takeover server.primary_lb (activate server.standby_lb) server.system
                  ft payload r on refl)
      ],
    )
