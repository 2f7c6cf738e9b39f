-- ===== src/LoadBalancer/Pipeline.antt =====
-- Step 4 of LoadBalancer::handleRequest and what follows, in a system that agrees with itself.
use session_affinity_engine.Base.{
  ℕ, ◌+◌, ◌≡◌, ◌≢◌, ◌⊎◌, refl, sym, ap, ◌∙◌, true, Option, none, some, arith, get_elem?,
  Option-cases, inl, inr,
}
use session_affinity_engine.Text.{Bytes}
use session_affinity_engine.FiveTuple.{
  FiveTuple, to_key, RequestStatus, success, reassigned, server_down, session_blocked,
}
use session_affinity_engine.Ring.{get_server}
use session_affinity_engine.Sessions.{SessionEntry, SessionManager, route_request}
use session_affinity_engine.Sessions.Routing.{
  lookup, Served, served, down, refused, route_request-Answer,
}
use session_affinity_engine.RequestHandler.{RequestHandler, data_of, process_request, success_reply}
use session_affinity_engine.RequestHandler.Counts.{offline, processed, process_request_effect}
use session_affinity_engine.LoadBalancer.{
  System, Readings, blocked_reply, no_server_reply, reassigned_note, finish, forward, dispatch,
}
use session_affinity_engine.LoadBalancer.Backends.{
  SystemInv, is_up, get_elem?-set, finish-SystemInv,
}

abbrev pub routed : System → FiveTuple → Readings → SessionManager × RequestStatus × Option ℕ
routed s ft r = route_request s.sessions s.ring ft none r.route_now r.route_later r.route_stamp

-- The request was processed by the backend `b`, which was online, as number `n` of its session there.
pub record Delivered (s : System) (key : Bytes) (now b n : ℕ) (s' : System) : Type 0 where
  pub handler : RequestHandler
  pub before : get_elem? s.backends b ≡ some handler
  pub online : handler.online ≡ true
  pub routed : Served s.ring key now b s'.sessions
  pub number : n ≡ (data_of handler key).request_count + 1
  pub after : RequestHandler
  pub stored : get_elem? s'.backends b ≡ some after
  pub counted : (data_of after key).request_count ≡ n
  pub total : after.total_requests ≡ handler.total_requests + 1
  pub others : (c : ℕ) → c ≢ b → get_elem? s'.backends c ≡ get_elem? s.backends c
  pub same_ring : s'.ring ≡ s.ring
  pub inv : SystemInv s'

-- What `dispatch` comes to.
pub data Dispatched (s : System) (ft : FiveTuple) (r : Readings) (result : Option (System × Bytes))
    : Type 0 where
  delivered :
      (s' : System) (status : RequestStatus) (b n : ℕ)
      → (status ≡ success) ⊎ (status ≡ reassigned)
      → result ≡ some (s', reassigned_note status (success_reply b n))
      → Delivered s (to_key ft) r.route_now b n s'
      → Dispatched s ft r result
  shut :
      (entry : SessionEntry)
      → lookup s.sessions (to_key ft) ≡ some entry
      → entry.blocked ≡ true
      → result ≡ some (s, blocked_reply (to_key ft))
      → Dispatched s ft r result
  no_server :
      (m : SessionManager)
      → get_server s.ring (to_key ft) ≡ none
      → result ≡ some (record s { sessions = m }, no_server_reply)
      → Dispatched s ft r result

pub finish_delivers :
    (s : System) (m : SessionManager) (ft : FiveTuple) (b : ℕ) (h : RequestHandler)
    (status : RequestStatus) (now : ℕ) (stamp : Bytes)
    → SystemInv s
    → get_elem? s.backends b ≡ some h
    → h.online ≡ true
    → Served s.ring (to_key ft) now b m
    → let (s', reply) = finish (record s { sessions = m }) ft b h status stamp in
      (n : ℕ) × (reply ≡ reassigned_note status (success_reply b n))
      × Delivered s (to_key ft) now b n s'
unfolding finish
finish_delivers s m ft b h status now stamp i here on sv =
    elim (process_request_effect h ft stamp) [
      | offline off e ↦ absurd (ground arith)
      | processed n on' count counted reply total same frame ↦
          let h' = (process_request h ft stamp).0 in
          let this : System = record s { sessions = m } in
          (
            n,
            ap (λ x. reassigned_note status x) reply
                ∙ ap (λ x. reassigned_note status (success_reply x n)) (i.named b h here),
            record {
              handler = h;
              before = here;
              online = on;
              routed = sv;
              number = count;
              after = h';
              stored = ground (arith, get_elem?-set s.backends b h h' b here);
              counted = counted;
              total = total;
              others = λ c apart. ground (arith, get_elem?-set s.backends b h h' c here);
              same_ring = refl;
              inv =
                  finish-SystemInv this ft b h status stamp here
                    (record { ring = i.ring; agrees = i.agrees; named = i.named });
            },
          )
    ]

pub dispatch_served :
    (s : System) (ft : FiveTuple) (r : Readings) (b : ℕ) (h : RequestHandler)
    (status : RequestStatus)
    → (status ≡ success) ⊎ (status ≡ reassigned)
    → (routed s ft r).1 ≡ status
    → (routed s ft r).2 ≡ some b
    → get_elem? s.backends b ≡ some h
    → h.online ≡ true
    → dispatch s ft r
      ≡ some (finish (record s { sessions = (routed s ft r).0 }) ft b h status r.process_stamp)
unfolding dispatch forward
dispatch_served s ft r b h status (inl e) st out here on = ground arith
dispatch_served s ft r b h status (inr e) st out here on = ground arith

pub dispatch_down :
    (s : System) (ft : FiveTuple) (r : Readings)
    → (routed s ft r).1 ≡ server_down
    → dispatch s ft r ≡ some (record s { sessions = (routed s ft r).0 }, no_server_reply)
unfolding dispatch
dispatch_down s ft r st = ground arith

pub dispatch_shut :
    (s : System) (ft : FiveTuple) (r : Readings)
    → routed s ft r ≡ (s.sessions, session_blocked, none)
    → dispatch s ft r ≡ some (s, blocked_reply (to_key ft))
unfolding dispatch
dispatch_shut s ft r e = ground arith

-- In a system that agrees with itself, a request past the limiter has one of three outcomes: it is
-- processed by the backend of its session, which is online, and the reply names that backend and the
-- number of the session's requests there; or it is refused because its session is blocked, and nothing
-- changes; or the ring has no server. The failover inside the call is never needed.
pub dispatch_outcome :
    (s : System) (ft : FiveTuple) (r : Readings) → SystemInv s → Dispatched s ft r (dispatch s ft r)
dispatch_outcome s ft r i =
    elim (route_request-Answer s.sessions s.ring ft none r.route_now r.route_later r.route_stamp
      i.ring) [
        | down st out gone ↦ no_server (routed s ft r).0 gone (dispatch_down s ft r st)
        | refused entry e here closed ↦ shut entry here closed (dispatch_shut s ft r e)
        | served b st out sv ↦
            let up : is_up s.backends b ≡ true = sym (i.agrees b) ∙ sv.active in
            elim (Option-cases (get_elem? s.backends b)) [
              | inl missing ↦ absurd (ground arith)
              | inr (h, here) ↦
                  let on : h.online ≡ true = ground arith in
                  let (m, status, assigned) = routed s ft r in
                  let (n, reply, d) =
                    finish_delivers s m ft b h status r.route_now r.process_stamp i here on sv in
                  let s' = (finish (record s { sessions = m }) ft b h status r.process_stamp).0 in
                  delivered s' status b n st
                    (dispatch_served s ft r b h status st refl out here on
                      ∙ ap (λ (x : Bytes). some (s', x)) reply)
                    d
            ]
      ]
