-- ===== src/Sessions/Handover.antt =====
-- The first request of a session after its backend went down: src/session_manager.cpp.
use session_affinity_engine.Base.{
  ℕ, ◌+◌, ◌≤◌, ◌≡◌, sym, ap, ◌∙◌, false, Option, some, arith, contains,
}
use session_affinity_engine.Text.{Bytes}
use session_affinity_engine.Window.{seconds}
use session_affinity_engine.FiveTuple.{FiveTuple, to_key, success}
use session_affinity_engine.Ring.{ConsistentHashRing, get_server}
use session_affinity_engine.Ring.Invariant.{RingInv}
use session_affinity_engine.Sessions.{
  SessionEntry, SessionManager, timeout_of, is_expired, moved, route_request,
}
use session_affinity_engine.Sessions.Passes.{handle_server_down}
use session_affinity_engine.Sessions.Routing.{lookup, route_kept}
use session_affinity_engine.Sessions.Reassign.{
  elsewhere, lapsed, stranded, relocated, handle_server_down_evacuates,
}

pub prompt_not_expired :
    (default : ℕ) (entry : SessionEntry) (later : ℕ)
    → later ≤ entry.last_access + seconds (timeout_of default entry.custom_timeout)
    → is_expired default entry later ≡ false
unfolding is_expired
prompt_not_expired default entry later h = ground arith

-- On a ring that satisfies the invariant, a session on a server that is off the ring and goes down,
-- neither blocked nor expired while the sessions are moved: if the ring has a server for it, its next
-- request, made within the timeout, is answered as a success on that server. The status does not say
-- that the session was reassigned.
pub handle_server_down-success :
    (m : SessionManager) (ring : ConsistentHashRing) (server : ℕ) (clock : ℕ → ℕ) (wall : ℕ → Bytes)
    (ft : FiveTuple) (entry : SessionEntry) (assigned : Option ℕ) (now later : ℕ) (stamp : Bytes)
    (c : ℕ)
    → RingInv ring
    → contains ring.active_servers server ≡ false
    → lookup m (to_key ft) ≡ some entry
    → entry.blocked ≡ false
    → entry.backend_id ≡ server
    → ((i : ℕ) → is_expired m.default_timeout_sec entry (clock i) ≡ false)
    → get_server ring (to_key ft) ≡ some c
    → ((i : ℕ) → later ≤ clock i + seconds (timeout_of m.default_timeout_sec entry.custom_timeout))
    → let r =
        route_request
          (handle_server_down m ring server clock wall)
          ring
          ft
          assigned
          now
          later
          stamp in
      (r.1 ≡ success) × (r.2 ≡ some c)
unfolding handle_server_down
handle_server_down-success m ring server clock wall ft entry assigned now later stamp c i gone here
      open_ own young to prompt =
    let (j, after, found, fate) =
      handle_server_down_evacuates m ring server clock wall (to_key ft) entry i gone here in
    elim fate [
      | elsewhere away e ↦ absurd (away own)
      | lapsed old e ↦ absurd (ground (arith, young j, old))
      | stranded on alive empty e ↦ absurd (ground arith)
      | relocated b reason on alive to' other up e ↦
          let entry' = moved entry b (clock (j + 1)) (wall j) reason in
          let kept =
            route_kept (handle_server_down m ring server clock wall) ring ft assigned now later
              stamp entry' (found ∙ ap (λ (x : SessionEntry). some x) e)
              (open_, prompt_not_expired m.default_timeout_sec entry' later (prompt (j + 1))) up in
          (ap (λ x. x.1) kept, ap (λ x. x.2) kept ∙ sym to' ∙ to)
    ]
