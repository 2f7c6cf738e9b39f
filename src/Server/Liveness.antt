-- ===== src/Server/Liveness.antt =====
-- An outage of the primary ends by itself, whatever traffic arrives meanwhile: the server of src/main1.cpp
-- hands every packet to a load balancer that is active once the takeover time has gone by.
use session_affinity_engine.Base.{
  ℕ, ◌+◌, ◌≤◌, ◌≡◌, refl, subst, ap, ◌∙◌, Bool, true, false, Option, none, some, List, [], ◌∷◌,
  arith, if◌then◌else◌, if_intro, Bool-cases, Option-cases, inl, inr,
}
use session_affinity_engine.Text.{Bytes, codes, str_eq}
use session_affinity_engine.LoadBalancer.{System, Readings, handle_request, activate, deactivate}
use session_affinity_engine.Server.{
  Server, Packet, c_string, tuple_of, boot, put_back, by_primary, watched, by_standby,
  route_traffic, serve,
}
use session_affinity_engine.Server.Safety.{Round, run}
use session_affinity_engine.Server.Failover.{
  IsTraffic, takeover_after, taken_over, waiting, serve_takeover, serve_traffic, route_active,
}

-- What an onlooker knows from the packets alone: whether the primary is up, which the last command says,
-- and when it last had a packet.
pub record Watch : Type 0 where
  pub up : Bool
  pub heard : ℕ

unfoldable pub follow : Watch → Round → Watch
follow w x =
    if str_eq (c_string x.packet.buffer) (codes "CMD:KILL_PRIMARY")
    then record w { up = false }
    else if str_eq (c_string x.packet.buffer) (codes "CMD:REVIVE_PRIMARY")
    then record w { up = true }
    else if w.up
    then record w { heard = x.now }
    else w

unfoldable pub follow_all : Watch → List Round → Watch
follow_all w [] = w
follow_all w (x ∷ rounds) = follow_all (follow w x) rounds

-- The primary is up at the start, and the start counts as its first packet.
unfoldable pub last_heard : ℕ → List Round → ℕ
last_heard start rounds = (follow_all (record { up = true; heard = start }) rounds).heard

abbrev watch_of : Server → Watch
watch_of server = record { up = server.primary_lb.active; heard = server.last_primary_heartbeat }

-- The server that results, if any, knows what the onlooker knows.
abbrev Matches {ℓ} : {A : Type ℓ} → Watch → Option (Server × A) → Type 0
Matches w none = Unit {0}
Matches w (some (server, x)) = watch_of server ≡ w

put_back-Matches :
    (w : Watch) (server : Server) (result : Option (System × Bytes))
    → watch_of server ≡ w
    → Matches w (put_back server result)
put_back-Matches w server none h = tt
put_back-Matches w server (some (s, reply)) h = h

-- The server once the primary has had a packet.
abbrev pub yielded : Server → ℕ → Server
yielded server now = record server {
  last_primary_heartbeat = now;
  standby_lb = if server.standby_lb.active then deactivate server.standby_lb else server.standby_lb;
}

by_standby-Matches :
    (server : Server) (p : Packet) (now : ℕ) (r : Readings)
    → Matches (watch_of server) (by_standby server (tuple_of p) (c_string p.buffer) now r)
unfolding by_standby
by_standby-Matches server p now r =
    if_intro (Matches (watch_of server)) (watched server now).active _ _
      (put_back-Matches (watch_of server) (record server { standby_lb = watched server now })
        (handle_request (watched server now) server.system (tuple_of p) (c_string p.buffer) r) refl)
      refl

by_primary-Matches :
    (server : Server) (p : Packet) (now : ℕ) (r : Readings)
    → Matches
        (record { up = server.primary_lb.active; heard = now })
        (by_primary server (tuple_of p) (c_string p.buffer) now r)
unfolding by_primary
by_primary-Matches server p now r =
    put_back-Matches (watch_of (yielded server now)) (yielded server now)
      (handle_request server.primary_lb server.system (tuple_of p) (c_string p.buffer) r) refl

if-Matches :
    (up : Bool) (w v : Watch) (a b : Option (Server × Bytes))
    → Matches w a
    → Matches v b
    → Matches (if up then w else v) (if up then a else b)
if-Matches true w v a b p q = p
if-Matches false w v a b p q = q

serve-Matches :
    (server : Server) (x : Round)
    → Matches (follow (watch_of server) x) (serve server x.packet x.now x.readings)
unfolding serve route_traffic follow
serve-Matches server x =
    elim (Bool-cases (str_eq (c_string x.packet.buffer) (codes "CMD:KILL_PRIMARY"))) [
      | inl kill ↦ rw kill refl
      | inr no_kill ↦
          elim (Bool-cases (str_eq (c_string x.packet.buffer) (codes "CMD:REVIVE_PRIMARY"))) [
            | inl revive ↦ rw (no_kill, revive) refl
            | inr no_revive ↦
                rw (no_kill, no_revive)
                  (if-Matches server.primary_lb.active _ _ _ _
                    (by_primary-Matches server x.packet x.now x.readings)
                    (by_standby-Matches server x.packet x.now x.readings))
          ]
    ]

run-Matches :
    (server : Server) (rounds : List Round)
    → Matches (follow_all (watch_of server) rounds) (run server rounds)
unfolding run follow_all
run-Matches server [] = refl
run-Matches server (x ∷ rounds) =
    let served = serve-Matches server x in
    elim (Option-cases (serve server x.packet x.now x.readings)) [
      | inl e ↦ rw (e, run) tt
      | inr ((server', reply), e) ↦
          let rest = run-Matches server' rounds in
          let same : watch_of server' ≡ follow (watch_of server) x =
            subst (Matches (follow (watch_of server) x)) e served in
          elim (Option-cases (run server' rounds)) [
            | inl e' ↦ rw (e, run, e') tt
            | inr ((last, replies), e') ↦
                rw (e, run, e')
                  (subst (Matches (follow_all (watch_of server') rounds)) e' rest
                    ∙ ap (λ w. follow_all w rounds) same)
          ]
    ]

-- The packet goes to a load balancer that is active: to the primary, or to the standby, which then takes
-- over or has done so.
pub data IsHandled (server : Server) (p : Packet) (now : ℕ) (r : Readings)
    (result : Option (Server × Bytes)) : Type 0 where
  by_primary_lb :
      server.primary_lb.active ≡ true
      → result
        ≡ put_back
            (yielded server now)
            (handle_request server.primary_lb server.system (tuple_of p) (c_string p.buffer) r)
      → IsHandled server p now r result
  by_standby_lb :
      server.primary_lb.active ≡ false
      → result
        ≡ put_back
            (record server { standby_lb = activate server.standby_lb })
            (handle_request
              (activate server.standby_lb)
              server.system
              (tuple_of p)
              (c_string p.buffer)
              r)
      → IsHandled server p now r result

serve-IsHandled :
    (server : Server) (p : Packet) (now : ℕ) (r : Readings)
    → IsTraffic p
    → server.last_primary_heartbeat + takeover_after ≤ now
    → IsHandled server p now r (serve server p now r)
unfolding by_primary
serve-IsHandled server p now r t late = elim (Bool-cases server.primary_lb.active) [
  | inl on ↦ by_primary_lb on (
      serve_traffic server p now r t
      ∙ route_active server (tuple_of p) (c_string p.buffer) now r on)
  | inr off ↦ elim (serve_takeover server p now r t off) [
    | waiting passive early e ↦ absurd (omega arith)
    | taken_over due e ↦ by_standby_lb off e
  ]
]

-- Whatever packets and commands the server has had from its start, and at whatever times: a packet that is
-- no command and arrives 3001 milliseconds or more after the last packet that the primary had, or after the
-- start if it had none, is handed to a load balancer that is active. The packets that arrive while the
-- primary is down do not put this off. What the primary has had is read off the packets alone: those that
-- are no commands and come while the last command, if any, is the one that revives it.
pub run-boot-IsHandled :
    (start : ℕ) (rounds : List Round) (server : Server) (replies : List Bytes) (p : Packet)
    (now : ℕ) (r : Readings)
    → run (boot start) rounds ≡ some (server, replies)
    → IsTraffic p
    → last_heard start rounds + takeover_after ≤ now
    → IsHandled server p now r (serve server p now r)
unfolding boot last_heard
run-boot-IsHandled start rounds server replies p now r e t late =
    let same =
      subst (Matches (follow_all (record { up = true; heard = start }) rounds)) e
        (run-Matches (boot start) rounds) in
    let heard : server.last_primary_heartbeat ≡ last_heard start rounds =
      ap (λ (w : Watch). w.heard) same in
    serve-IsHandled server p now r t (omega (arith, heard))
