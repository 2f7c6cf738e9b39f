-- ===== src/LoadBalancer/Recovery.antt =====
-- The failover inside LoadBalancer::handleRequest, where a backend has stopped and is still on the ring.
use mathlib.Core.Option.{some-injective}
use session_affinity_engine.Base.{
  ℕ, ◌≡◌, ◌≢◌, ◌⊎◌, refl, sym, ap, subst, ◌∙◌, true, false, Option, none, some, arith, get_elem?,
  set, contains, ◌+◌, Bool-cases, inl, inr,
}
use session_affinity_engine.Text.{Bytes, codes}
use session_affinity_engine.FiveTuple.{
  FiveTuple, to_key, RequestStatus, status_eq, success, reassigned, server_down,
}
use session_affinity_engine.Ring.{ConsistentHashRing, remove_server, get_server}
use session_affinity_engine.Ring.Invariant.{RingInv, remove_server-RingInv, contains-remove_id}
use session_affinity_engine.Sessions.{SessionEntry, SessionManager, route_request}
use session_affinity_engine.Sessions.Routing.{
  lookup, Served, served, down, refused, route_request-Answer,
}
use session_affinity_engine.Sessions.Reassign.{
  Fate, elsewhere, lapsed, stranded, relocated, handle_server_down_evacuates,
}
use session_affinity_engine.RequestHandler.{RequestHandler, data_of, process_request, success_reply}
use session_affinity_engine.RequestHandler.Counts.{offline, processed, process_request_effect}
use session_affinity_engine.LoadBalancer.{
  System, Readings, reassigned_note, finish, retry, evacuate, forward, dispatch,
}
use session_affinity_engine.LoadBalancer.Pipeline.{routed}

-- Every server on the ring is one of the backends, which may have stopped.
pub record IsStaffed (s : System) : Type 0 where
  pub ring : RingInv s.ring
  pub staffed :
      (b : ℕ)
      → contains s.ring.active_servers b ≡ true
      → (h : RequestHandler) × (get_elem? s.backends b ≡ some h) × (h.id ≡ b)

-- What a request comes to whose backend `b` has stopped: another backend processes it, no server is left
-- on the ring, or the ring's next choice has stopped too.
pub data Recovered (s : System) (ft : FiveTuple) (r : Readings) (b : ℕ)
    (result : Option (System × Bytes)) : Type 0 where
  rerouted :
      (m : SessionManager) (status : RequestStatus) (other : ℕ) (h : RequestHandler)
      → other ≢ b
      → get_elem? s.backends other ≡ some h
      → h.online ≡ true
      → (status ≡ success) ⊎ (status ≡ reassigned)
      → Served (remove_server s.ring b) (to_key ft) r.retry_now other m
      → result
        ≡ some (
          record s {
            sessions = m;
            ring = remove_server s.ring b;
            backends = set s.backends other (process_request h ft r.process_stamp).0;
          },
          reassigned_note status (success_reply other ((data_of h (to_key ft)).request_count + 1)),
        )
      → Recovered s ft r b result
  no_server_left :
      (m : SessionManager)
      → get_server (remove_server s.ring b) (to_key ft) ≡ none
      → result
        ≡ some (
          record s { sessions = m; ring = remove_server s.ring b },
          codes "ERROR: No backend servers available after failover",
        )
      → Recovered s ft r b result
  target_stopped :
      (m : SessionManager) (other : ℕ) (h : RequestHandler)
      → other ≢ b
      → get_elem? s.backends other ≡ some h
      → h.online ≡ false
      → Served (remove_server s.ring b) (to_key ft) r.retry_now other m
      → result
        ≡ some (
          record s { sessions = m; ring = remove_server s.ring b },
          codes "ERROR: Failover target also unavailable",
        )
      → Recovered s ft r b result

-- The system in which the failover routes the request again.
abbrev evacuated : System → FiveTuple → Readings → ℕ → System
evacuated s ft r b = evacuate (record s { sessions = (routed s ft r).0 }) b r.down_clock r.down_wall

abbrev rerouted_to : System → FiveTuple → Readings → ℕ → SessionManager × RequestStatus × Option ℕ
rerouted_to s ft r b =
    route_request s.sessions s.ring ft (some b) r.retry_now r.retry_later r.retry_stamp

dispatch-retry :
    (s : System) (ft : FiveTuple) (r : Readings) (b : ℕ) (h : RequestHandler)
    (status : RequestStatus)
    → (status ≡ success) ⊎ (status ≡ reassigned)
    → (routed s ft r).1 ≡ status
    → (routed s ft r).2 ≡ some b
    → get_elem? s.backends b ≡ some h
    → h.online ≡ false
    → dispatch s ft r ≡ retry (evacuated s ft r b) ft b r
unfolding dispatch forward
dispatch-retry s ft r b h status (inl e) st out here off = ground arith
dispatch-retry s ft r b h status (inr e) st out here off = ground arith

finish_online :
    (s : System) (ft : FiveTuple) (b : ℕ) (h : RequestHandler) (status : RequestStatus)
    (stamp : Bytes)
    → h.online ≡ true
    → h.id ≡ b
    → finish s ft b h status stamp ≡ (
      record s { backends = set s.backends b (process_request h ft stamp).0 },
      reassigned_note status (success_reply b ((data_of h (to_key ft)).request_count + 1)),
    )
unfolding finish
finish_online s ft b h status stamp on name = elim (process_request_effect h ft stamp) [
  | offline off e ↦ absurd (ground arith)
  | processed n on' count counted reply total same frame ↦
      ap
        (λ (x : Bytes). (
          record s { backends = set s.backends b (process_request h ft stamp).0 },
          reassigned_note status x,
        ))
        (reply ∙ ap (λ (id : ℕ). success_reply id n) name ∙ ap (success_reply b) count)
]

module _ (s : System) (ft : FiveTuple) (r : Readings) (b : ℕ) where
  retry_down :
      (rerouted_to s ft r b).1 ≡ server_down
      → retry s ft b r
        ≡ some (
          record s { sessions = (rerouted_to s ft r b).0 },
          codes "ERROR: No backend servers available after failover",
        )
  unfolding retry
  retry_down st = ground arith

  retry_offline :
      (c : ℕ) (h : RequestHandler)
      → status_eq (rerouted_to s ft r b).1 server_down ≡ false
      → (rerouted_to s ft r b).2 ≡ some c
      → get_elem? s.backends c ≡ some h
      → h.online ≡ false
      → retry s ft b r
        ≡ some (
          record s { sessions = (rerouted_to s ft r b).0 },
          codes "ERROR: Failover target also unavailable",
        )
  unfolding retry
  retry_offline c h st out here off = ground arith

  retry_online :
      (c : ℕ) (h : RequestHandler)
      → status_eq (rerouted_to s ft r b).1 server_down ≡ false
      → (rerouted_to s ft r b).2 ≡ some c
      → get_elem? s.backends c ≡ some h
      → h.online ≡ true
      → retry s ft b r
        ≡ some (
            finish
              (record s { sessions = (rerouted_to s ft r b).0 })
              ft
              c
              h
              (rerouted_to s ft r b).1
              r.process_stamp)
  unfolding retry
  retry_online c h st out here on = ground arith

not_down :
    (status : RequestStatus)
    → (status ≡ success) ⊎ (status ≡ reassigned)
    → status_eq status server_down ≡ false
not_down status (inl e) = rw e
not_down status (inr e) = rw e

-- The second routing picks an active backend: not `b`, which is off the ring.
other_backend-staffed :
    (s : System) (b other : ℕ)
    → IsStaffed s
    → contains (remove_server s.ring b).active_servers other ≡ true
    → (other ≢ b) × (h : RequestHandler) × (get_elem? s.backends other ≡ some h) × (h.id ≡ other)
unfolding remove_server
other_backend-staffed s b other i up =
    let away : (other ≢ b) × (contains s.ring.active_servers other ≡ true) = (
      ground (arith, contains-remove_id b other s.ring.active_servers),
      ground (arith, contains-remove_id b other s.ring.active_servers),
    ) in
    let (h, here, name) = i.staffed other away.1 in (away.0, h, here, name)

Fate-blocked :
    {default : ℕ} {ring : ConsistentHashRing} {server : ℕ} {key : Bytes} {entry : SessionEntry}
    {checked now : ℕ} {stamp : Bytes} {after : SessionEntry}
    → Fate default ring server key entry checked now stamp after
    → after.blocked ≡ entry.blocked
Fate-blocked (elsewhere away e) = ap (λ (x : SessionEntry). x.blocked) e
Fate-blocked (lapsed old e) = ap (λ (x : SessionEntry). x.blocked) e
Fate-blocked (stranded own young empty e) = ap (λ (x : SessionEntry). x.blocked) e
Fate-blocked (relocated b reason own young to other up e) = ap (λ (x : SessionEntry). x.blocked) e

-- The session that the first routing has served is not blocked when the second looks it up.
evacuated-unblocked :
    (s : System) (ft : FiveTuple) (r : Readings) (b now c : ℕ) (entry : SessionEntry)
    → RingInv s.ring
    → Served s.ring (to_key ft) now c (routed s ft r).0
    → lookup (evacuated s ft r b).sessions (to_key ft) ≡ some entry
    → entry.blocked ≡ false
unfolding evacuate remove_server
evacuated-unblocked s ft r b now c entry i sv here =
    let gone : contains (remove_server s.ring b).active_servers b ≡ false =
      ground (arith, contains-remove_id b b s.ring.active_servers) in
    let (j, after, found, fate) =
      handle_server_down_evacuates (routed s ft r).0 (remove_server s.ring b) b r.down_clock
        r.down_wall (to_key ft) sv.session (remove_server-RingInv s.ring b i) gone sv.stored in
    let same : entry ≡ after = some-injective _ _ (sym here ∙ found) in
    ap (λ (e : SessionEntry). e.blocked) same ∙ Fate-blocked fate ∙ sv.unblocked

retry_recovers :
    (s : System) (ft : FiveTuple) (r : Readings) (b now c : ℕ)
    → IsStaffed s
    → Served s.ring (to_key ft) now c (routed s ft r).0
    → Recovered s ft r b (retry (evacuated s ft r b) ft b r)
unfolding evacuate
retry_recovers s ft r b now c i first =
    let s1 = evacuated s ft r b in
    let (m, status, assigned) = rerouted_to s1 ft r b in
    let s2 : System = record s1 { sessions = m } in
    elim (route_request-Answer s1.sessions s1.ring ft (some b) r.retry_now r.retry_later
      r.retry_stamp (remove_server-RingInv s.ring b i.ring)) [
        | down st out gone ↦ no_server_left m gone (retry_down s1 ft r b st)
        | refused entry e found closed ↦
            absurd (ground (arith, evacuated-unblocked s ft r b now c entry i.ring first found))
        | served other st out sv ↦
            let (apart, h, there, name) = other_backend-staffed s b other i sv.active in
            elim (Bool-cases h.online) [
              | inr off ↦
                  target_stopped m other h apart there off sv
                    (retry_offline s1 ft r b other h (not_down status st) out there off)
              | inl on ↦ rerouted m status other h apart there on st sv (
                  retry_online s1 ft r b other h (not_down status st) out there on
                  ∙ ap some (finish_online s2 ft other h status r.process_stamp on name))
            ]
      ]

-- A ring that satisfies the invariant and holds existing backends only may name one that has stopped. A
-- request that is routed to it takes it off the ring and is routed again, with one of three outcomes. If
-- the ring gives another backend that is online, that one processes the request and counts it, and the
-- session has it from now on. If that backend has stopped too, the reply says so; if no server is left on
-- the ring, the reply says that, and in both cases no backend changes. The session is not found blocked,
-- and the call always returns.
pub dispatch-Recovered :
    (s : System) (ft : FiveTuple) (r : Readings) (b : ℕ) (h : RequestHandler)
    → IsStaffed s
    → (routed s ft r).2 ≡ some b
    → get_elem? s.backends b ≡ some h
    → h.online ≡ false
    → Recovered s ft r b (dispatch s ft r)
dispatch-Recovered s ft r b h i out here off =
    elim (route_request-Answer s.sessions s.ring ft none r.route_now r.route_later r.route_stamp
      i.ring) [
        | down st out' gone ↦ absurd (ground arith)
        | refused entry e found closed ↦ absurd (ground arith)
        | served c st out' sv ↦
            subst (Recovered s ft r b)
              (sym (dispatch-retry s ft r b h (routed s ft r).1 st refl out here off))
              (retry_recovers s ft r b r.route_now c i sv)
      ]
