-- ===== src/LoadBalancer/Settled.antt =====
-- A session between two of its requests through LoadBalancer::handleRequest.
use session_affinity_engine.Base.{
  ℕ, ◌+◌, ◌≤◌, ◌≡◌, refl, ap, subst, ◌∙◌, true, false, none, some, arith, contains, get_elem?, inl,
}
use session_affinity_engine.Text.{Bytes}
use session_affinity_engine.Window.{seconds}
use session_affinity_engine.Dict.{assign, find-assign_self}
use session_affinity_engine.FiveTuple.{FiveTuple, to_key, success}
use session_affinity_engine.Sessions.{SessionEntry, SessionManager, timeout_of}
use session_affinity_engine.Sessions.Routing.{lookup, Served, route_kept}
use session_affinity_engine.Sessions.Handover.{prompt_not_expired}
use session_affinity_engine.RequestHandler.{RequestHandler, data_of, success_reply}
use session_affinity_engine.LoadBalancer.{System, Readings, reassigned_note, finish, dispatch}
use session_affinity_engine.LoadBalancer.Backends.{SystemInv}
use session_affinity_engine.LoadBalancer.Pipeline.{Delivered, finish_delivers, dispatch_served}

-- A session, held in `entry`, whose last request was routed at `now` and was number `n` at the backend `b`.
pub record IsSettled (key : Bytes) (now b n : ℕ) (entry : SessionEntry) (t : System) : Type 0 where
  pub inv : SystemInv t
  pub session : lookup t.sessions key ≡ some entry
  pub backend : entry.backend_id ≡ b
  pub active : contains t.ring.active_servers b ≡ true
  pub unblocked : entry.blocked ≡ false
  pub accessed : entry.last_access ≡ now
  pub handler : RequestHandler
  pub stored : get_elem? t.backends b ≡ some handler
  pub counted : (data_of handler key).request_count ≡ n

pub Delivered-IsSettled :
    {s : System} {key : Bytes} {now b n : ℕ} {t : System} (d : Delivered s key now b n t)
    → IsSettled key now b n d.routed.session t
Delivered-IsSettled {b = b} d = record {
  inv = d.inv;
  session = d.routed.stored;
  backend = d.routed.backend;
  active = ap (λ ring. contains ring.active_servers b) d.same_ring ∙ d.routed.active;
  unblocked = d.routed.unblocked;
  accessed = d.routed.accessed;
  handler = d.after;
  stored = d.stored;
  counted = d.counted;
}

-- The session's next prompt request, once it is past the limiter.
pub dispatch-IsSettled :
    (ft : FiveTuple) (now b n : ℕ) (entry : SessionEntry) (t : System)
    (q : IsSettled (to_key ft) now b n entry t) (r : Readings)
    → r.route_later ≤ now + seconds (timeout_of t.sessions.default_timeout_sec entry.custom_timeout)
    → (t' : System) × (dispatch t ft r ≡ some (t', success_reply b (n + 1)))
      × Delivered t (to_key ft) r.route_now b (n + 1) t'
unfolding reassigned_note
dispatch-IsSettled ft now b n entry t q r prompt =
    let up : contains t.ring.active_servers b ≡ true = q.active in
    let young =
      prompt_not_expired t.sessions.default_timeout_sec entry r.route_later
        (ground (arith, q.accessed, prompt)) in
    let kept =
      route_kept t.sessions t.ring ft none r.route_now r.route_later r.route_stamp entry q.session
        (q.unblocked, young) (ap (contains t.ring.active_servers) q.backend ∙ up) in
    let entry' : SessionEntry = record entry { last_access = r.route_now } in
    let m : SessionManager = record t.sessions {
      sessions = assign (to_key ft) entry' t.sessions.sessions;
    } in
    let sv : Served t.ring (to_key ft) r.route_now b m = record {
      session = entry';
      stored = find-assign_self (to_key ft) entry' t.sessions.sessions;
      backend = q.backend;
      active = up;
      unblocked = q.unblocked;
      accessed = refl;
    } in
    let on : q.handler.online ≡ true = ground (arith, q.inv.agrees b, q.stored) in
    let (k, reply, next) =
      finish_delivers t m ft b q.handler success r.route_now r.process_stamp q.inv q.stored on sv in
    let same : next.handler ≡ q.handler = ground (arith, next.before, q.stored) in
    let count : k ≡ n + 1 =
      next.number
      ∙ ap (λ (h : RequestHandler). (data_of h (to_key ft)).request_count + 1) same
      ∙ ap (λ c. c + 1) q.counted in
    let end_with = λ (m' : SessionManager).
      finish (record t { sessions = m' }) ft b q.handler success r.process_stamp in
    let done = end_with m in
    (
      done.0,
      dispatch_served t ft r b q.handler success (inl refl) (ap (λ q. q.1) kept)
            (ap (λ q. q.2) kept ∙ ap (λ (c : ℕ). some c) q.backend) q.stored on
          ∙ ap (λ (m' : SessionManager). some (end_with m')) (ap (λ q. q.0) kept)
          ∙ ap (λ (x : Bytes). some (done.0, x)) (reply ∙ ap (λ c. success_reply b c) count),
      subst (λ (c : ℕ). Delivered t (to_key ft) r.route_now b c done.0) count next,
    )
