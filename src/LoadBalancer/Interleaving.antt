-- ===== src/LoadBalancer/Interleaving.antt =====
-- The requests of other clients between two requests of one session through LoadBalancer::handleRequest.
use mathlib.Core.Option.{some-injective}
use session_affinity_engine.Base.{
  ℕ, ◌+◌, ◌≤◌, ◌≡◌, refl, sym, ap, subst, ◌∙◌, true, false, not, Option, none, some, List, [], ◌∷◌,
  All, ◌==◌, if_intro, ◌>>=◌, arith, get_elem?, Bool-cases, Option-cases, inl, inr,
}
use session_affinity_engine.Text.{Bytes, str_eq}
use session_affinity_engine.Window.{seconds}
use session_affinity_engine.Dict.{get_or}
use session_affinity_engine.FiveTuple.{FiveTuple, to_key, RequestStatus}
use session_affinity_engine.RateLimiter.{RateLimiter, allow_request}
use session_affinity_engine.Security.{Security, full_validation}
use session_affinity_engine.Sessions.{SessionEntry, SessionManager, timeout_of}
use session_affinity_engine.Sessions.Routing.{lookup, served, down, refused, route_request-Answer}
use session_affinity_engine.Sessions.Frame.{route_request_frame}
use session_affinity_engine.RequestHandler.{
  RequestHandler, blank, data_of, process_request, success_reply,
}
use session_affinity_engine.RequestHandler.Counts.{offline, processed, process_request_effect}
use session_affinity_engine.LoadBalancer.{
  LoadBalancer, System, Readings, finish, dispatch, handle_request, inactive_reply, invalid_reply,
  limited_reply,
}
use session_affinity_engine.LoadBalancer.Backends.{is_up, get_elem?-set, finish-SystemInv}
use session_affinity_engine.LoadBalancer.Gate.{admitted}
use session_affinity_engine.LoadBalancer.Pipeline.{
  routed, Delivered, dispatch_served, dispatch_down, dispatch_shut,
}
use session_affinity_engine.LoadBalancer.Settled.{
  IsSettled, Delivered-IsSettled, dispatch-IsSettled,
}
use session_affinity_engine.LoadBalancer.Affinity.{past_gate}

module _ (key : Bytes) (now b n : ℕ) (entry : SessionEntry) where
  -- The session keeps where the parts that it does not depend on change.
  IsSettled-frame :
      {t : System} (m : SessionManager) (l : RateLimiter) (c : Security)
      → lookup m key ≡ lookup t.sessions key
      → IsSettled key now b n entry t
      → IsSettled key now b n entry (record t { sessions = m; limiter = l; security = c })
  IsSettled-frame m l c same q = record {
    inv = record { ring = q.inv.ring; agrees = q.inv.agrees; named = q.inv.named };
    session = same ∙ q.session;
    backend = q.backend;
    active = q.active;
    unblocked = q.unblocked;
    accessed = q.accessed;
    handler = q.handler;
    stored = q.stored;
    counted = q.counted;
  }

  -- A backend that processes another client's request.
  finish-IsSettled :
      (t : System) (ft : FiveTuple) (c : ℕ) (h : RequestHandler) (status : RequestStatus)
      (stamp : Bytes)
      → str_eq (to_key ft) key ≡ false
      → get_elem? t.backends c ≡ some h
      → h.online ≡ true
      → IsSettled key now b n entry t
      → IsSettled key now b n entry (finish t ft c h status stamp).0
  unfolding finish
  finish-IsSettled t ft c h status stamp other here on q =
      let h' = (process_request h ft stamp).0 in
      elim (process_request_effect h ft stamp) [
        | offline off e ↦ absurd (ground arith)
        | processed k on' count counted reply total same frame ↦ elim (Bool-cases (c == b)) [
          | inl own ↦
              let equal : c ≡ b = ground arith in
              let mine : h ≡ q.handler =
                some-injective _ _ (sym here ∙ ap (get_elem? t.backends) equal ∙ q.stored) in
              record {
                inv = finish-SystemInv t ft c h status stamp here q.inv;
                session = q.session;
                backend = q.backend;
                active = q.active;
                unblocked = q.unblocked;
                accessed = q.accessed;
                handler = h';
                stored = ground (arith, get_elem?-set t.backends c h h' b here);
                counted =
                    ap (λ o. (get_or o blank).request_count) (frame key other)
                    ∙ ap (λ x. (data_of x key).request_count) mine
                    ∙ q.counted;
              }
          | inr apart ↦ record {
            inv = finish-SystemInv t ft c h status stamp here q.inv;
            session = q.session;
            backend = q.backend;
            active = q.active;
            unblocked = q.unblocked;
            accessed = q.accessed;
            handler = q.handler;
            stored = ground (arith, get_elem?-set t.backends c h h' b here, q.stored);
            counted = q.counted;
          }
        ]
      ]

  dispatch-other :
      (t : System) (ft : FiveTuple) (r : Readings) (t' : System) (reply : Bytes)
      → str_eq (to_key ft) key ≡ false
      → dispatch t ft r ≡ some (t', reply)
      → IsSettled key now b n entry t
      → IsSettled key now b n entry t'
  dispatch-other t ft r t' reply other e q =
      let m = (routed t ft r).0 in
      let frame =
        route_request_frame t.sessions t.ring ft none r.route_now r.route_later r.route_stamp key
          other in
      let before = IsSettled-frame m t.limiter t.security frame.0 q in
      elim (route_request-Answer t.sessions t.ring ft none r.route_now r.route_later r.route_stamp
        q.inv.ring) [
          | down st out gone ↦
              subst (λ (x : System). IsSettled key now b n entry x)
                (ap (λ x. x.0) (some-injective _ _ (sym (dispatch_down t ft r st) ∙ e))) before
          | refused x shut here closed ↦
              subst (λ (x : System). IsSettled key now b n entry x)
                (ap (λ x. x.0) (some-injective _ _ (sym (dispatch_shut t ft r shut) ∙ e))) q
          | served c st out sv ↦
              let up : is_up t.backends c ≡ true = sym (q.inv.agrees c) ∙ sv.active in
              elim (Option-cases (get_elem? t.backends c)) [
                | inl missing ↦ absurd (ground arith)
                | inr (h, here) ↦
                    let on : h.online ≡ true = ground arith in
                    let status = (routed t ft r).1 in
                    let gives = dispatch_served t ft r c h status st refl out here on in
                    subst (λ (x : System). IsSettled key now b n entry x)
                      (ap (λ x. x.0) (some-injective _ _ (sym gives ∙ e)))
                      (finish-IsSettled (record t { sessions = m }) ft c h status r.process_stamp
                        other here on before)
              ]
        ]

  -- Any request of another client.
  Keeps : Option (System × Bytes) → Type 0
  Keeps result =
      (t' : System) (reply : Bytes) → result ≡ some (t', reply) → IsSettled key now b n entry t'

  gives_back :
      (t : System) (reply : Bytes) → IsSettled key now b n entry t → Keeps (some (t, reply))
  unfolding Keeps
  gives_back t reply q t' reply' e =
      subst (λ (x : System). IsSettled key now b n entry x) (ap (λ x. x.0) (some-injective _ _ e)) q

  handle_request-other :
      (lb : LoadBalancer) (t : System) (ft : FiveTuple) (payload : Bytes) (r : Readings)
      → str_eq (to_key ft) key ≡ false
      → IsSettled key now b n entry t
      → Keeps (handle_request lb t ft payload r)
  unfolding handle_request Keeps
  handle_request-other lb t ft payload r other q =
      let (security, validation) = full_validation t.security ft payload r.spoof_now in
      let limited = allow_request t.limiter (to_key ft) r.limit_now r.limit_wall in
      if_intro Keeps (not lb.active) _ _ (gives_back t (inactive_reply lb.role) q) (
        if_intro Keeps (not validation.valid) _ _
          (gives_back (record t { security = security }) (invalid_reply validation.error_message)
            (IsSettled-frame t.sessions t.limiter security refl q))
          (if_intro Keeps (not limited.1) _ _
            (gives_back (record t { security = security; limiter = limited.0 })
              (limited_reply (to_key ft)) (IsSettled-frame t.sessions limited.0 security refl q))
            (λ t' reply e.
              dispatch-other (admitted t ft payload r) ft r t' reply other e
                (IsSettled-frame t.sessions limited.0 security refl q))))

-- A request to one of the load balancers.
pub record Request : Type 0 where
  pub lb : LoadBalancer
  pub tuple : FiveTuple
  pub payload : Bytes
  pub readings : Readings

-- The requests one after another, on the components that the load balancers share.
unfoldable pub run_requests : System → List Request → Option System
run_requests t [] = some t
run_requests t (x ∷ xs) = do
  (t', reply) ← handle_request x.lb t x.tuple x.payload x.readings
  run_requests t' xs

run_requests-other :
    (key : Bytes) (now b n : ℕ) (entry : SessionEntry) (t : System) (xs : List Request)
    (t' : System)
    → All (λ x. str_eq (to_key x.tuple) key ≡ false) xs
    → run_requests t xs ≡ some t'
    → IsSettled key now b n entry t
    → IsSettled key now b n entry t'
unfolding run_requests Keeps
run_requests-other key now b n entry t [] t' others e q =
    subst (λ (x : System). IsSettled key now b n entry x) (some-injective _ _ e) q
run_requests-other key now b n entry t (x ∷ xs) t' others e q =
    elim (Option-cases (handle_request x.lb t x.tuple x.payload x.readings)) [
      | inl undefined ↦
          let stops : run_requests t (x ∷ xs) ≡ none = rw (undefined, run_requests) refl in
          absurd (ground (arith, stops, e))
      | inr ((s, reply), first) ↦
          let goes_on : run_requests t (x ∷ xs) ≡ run_requests s xs =
            rw (first, run_requests) refl in
          run_requests-other key now b n entry s xs t' others.1 (sym goes_on ∙ e) (
            handle_request-other key now b n entry x.lb t x.tuple x.payload x.readings others.0 q s
              reply first)
    ]

-- After a request was processed by a backend as number `n` of its session, let other clients send any
-- requests to any of the load balancers, and then let the session's next request come to one that is
-- active, pass the validation and the limiter, and be routed within the session's timeout. It is processed
-- by the same backend as number `n + 1`, the reply says so, and the same can be said of what follows it.
pub handle_request-sequel :
    (s : System) (ft : FiveTuple) (now b n : ℕ) (s' : System)
    (d : Delivered s (to_key ft) now b n s') (others : List Request) (t : System)
    (lb : LoadBalancer) (payload : Bytes) (r : Readings)
    → All (λ x. str_eq (to_key x.tuple) (to_key ft) ≡ false) others
    → run_requests s' others ≡ some t
    → lb.active ≡ true
    → (full_validation t.security ft payload r.spoof_now).1.valid ≡ true
    → (allow_request t.limiter (to_key ft) r.limit_now r.limit_wall).1 ≡ true
    → r.route_later
      ≤ now + seconds (timeout_of t.sessions.default_timeout_sec d.routed.session.custom_timeout)
    → (t' : System) × (handle_request lb t ft payload r ≡ some (t', success_reply b (n + 1)))
      × Delivered (admitted t ft payload r) (to_key ft) r.route_now b (n + 1) t'
handle_request-sequel s ft now b n s' d others t lb payload r apart ran on valid under prompt =
    let entry = d.routed.session in
    let q =
      run_requests-other (to_key ft) now b n entry s' others t apart ran (Delivered-IsSettled d) in
    let past =
      IsSettled-frame (to_key ft) now b n entry t.sessions
        (allow_request t.limiter (to_key ft) r.limit_now r.limit_wall).0
        (full_validation t.security ft payload r.spoof_now).0 refl q in
    let (t', reply, next) =
      dispatch-IsSettled ft now b n entry (admitted t ft payload r) past r prompt in
    (t', past_gate lb t ft payload r on valid under ∙ reply, next)
