-- ===== src/Simulation/Fleet.antt =====
-- The eight backends of the demonstration: a request changes neither how many there are nor which of
-- them are online.
use session_affinity_engine.Base.{
  ℕ, ◌<◌, ◌≡◌, ◌≢◌, refl, sym, ap, ◌∙◌, true, not, Option, some, pos, [], arith, ◌==◌, if_intro,
  if◌then◌else◌, get_elem?, contains, Bool-cases, inl, inr,
}
use session_affinity_engine.Config.{num_backend_servers}
use session_affinity_engine.Text.{Bytes}
use session_affinity_engine.FiveTuple.{FiveTuple, to_key}
use session_affinity_engine.RateLimiter.{RateLimiter, allow_request}
use session_affinity_engine.Security.{Security, full_validation}
use session_affinity_engine.Sessions.{SessionManager}
use session_affinity_engine.RequestHandler.{RequestHandler, start, stop}
use session_affinity_engine.LoadBalancer.{
  LoadBalancer, System, Readings, dispatch, handle_request, inactive_reply, invalid_reply,
  limited_reply, evacuate, take_backend_offline, bring_backend_online,
}
use session_affinity_engine.LoadBalancer.Backends.{
  SystemInv, is_up, get_elem?-set, backends-SystemInv,
}
use session_affinity_engine.LoadBalancer.Gate.{admitted}
use session_affinity_engine.LoadBalancer.Pipeline.{
  Delivered, delivered, shut, no_server, dispatch_outcome,
}

-- The system agrees with itself, and all its backends are online, but perhaps the one numbered `spare`.
pub record IsStaffed (spare : ℕ) (s : System) : Type 0 where
  pub inv : SystemInv s
  pub present :
      (b : ℕ) → b < num_backend_servers → (h : RequestHandler) × (get_elem? s.backends b ≡ some h)
  pub up : (b : ℕ) → b < num_backend_servers → b ≢ spare → is_up s.backends b ≡ true

-- The parts that the invariant does not speak of may change.
pub IsStaffed-frame :
    {spare : ℕ} {s : System} (m : SessionManager) (l : RateLimiter) (c : Security)
    → IsStaffed spare s
    → IsStaffed spare (record s { sessions = m; limiter = l; security = c })
IsStaffed-frame m l c h = record {
  inv = record { ring = h.inv.ring; agrees = h.inv.agrees; named = h.inv.named };
  present = h.present;
  up = h.up;
}

Delivered-IsStaffed :
    (spare : ℕ) (s : System) (key : Bytes) (now b n : ℕ) (s' : System)
    → Delivered s key now b n s'
    → IsStaffed spare s
    → IsStaffed spare s'
Delivered-IsStaffed spare s key now b n s' d h = record {
  inv = d.inv;
  present = λ c low. elim (Bool-cases (c == b)) [
    | inl e ↦ (d.after, ground (arith, d.stored))
    | inr e ↦ ((h.present c low).0, d.others c (ground arith) ∙ (h.present c low).1)
  ];
  up = λ c low apart.
      sym (d.inv.agrees c)
      ∙ ap (λ ring. contains ring.active_servers c) d.same_ring
      ∙ h.inv.agrees c
      ∙ h.up c low apart;
}

-- The call returns, and its system is staffed as before.
abbrev pub Kept : ℕ → Option (System × Bytes) → Type 0
Kept spare result = (s : System) × (reply : Bytes) × (result ≡ some (s, reply)) × IsStaffed spare s

dispatch-Kept :
    (spare : ℕ) (s : System) (ft : FiveTuple) (r : Readings)
    → IsStaffed spare s
    → Kept spare (dispatch s ft r)
dispatch-Kept spare s ft r h = elim (dispatch_outcome s ft r h.inv) [
  | delivered s' status b n st e d ↦
      (s', _, e, Delivered-IsStaffed spare s (to_key ft) r.route_now b n s' d h)
  | shut entry here closed e ↦ (s, _, e, h)
  | no_server m gone e ↦ (_, _, e, IsStaffed-frame m s.limiter s.security h)
]

pub handle_request-Kept :
    (spare : ℕ) (lb : LoadBalancer) (s : System) (ft : FiveTuple) (payload : Bytes) (r : Readings)
    → IsStaffed spare s
    → Kept spare (handle_request lb s ft payload r)
unfolding handle_request
handle_request-Kept spare lb s ft payload r h =
    let (security, validation) = full_validation s.security ft payload r.spoof_now in
    let limited = allow_request s.limiter (to_key ft) r.limit_now r.limit_wall in
    if_intro (Kept spare) (not lb.active) _ _ (s, inactive_reply lb.role, refl, h)
      (if_intro (Kept spare) (not validation.valid) _ _
        (
          _,
          invalid_reply validation.error_message,
          refl,
          IsStaffed-frame s.sessions s.limiter security h,
        )
        (if_intro (Kept spare) (not limited.1) _ _
          (_, limited_reply (to_key ft), refl, IsStaffed-frame s.sessions limited.0 security h)
          (dispatch-Kept spare (admitted s ft payload r) ft r
            (IsStaffed-frame s.sessions limited.0 security h))))

switched :
    (s : System) (n : ℕ) (handler : RequestHandler) (clock : ℕ → ℕ) (wall : ℕ → Bytes)
    → get_elem? s.backends n ≡ some handler
    → (b : ℕ)
    → (get_elem? (take_backend_offline s (pos n) clock wall).backends b
        ≡ (if n == b then some (stop handler) else get_elem? s.backends b))
      × (get_elem? (bring_backend_online s (pos n)).backends b
          ≡ (if n == b then some (start handler) else get_elem? s.backends b))
unfolding take_backend_offline evacuate bring_backend_online
switched s n handler clock wall here b = (
  rw (here, take_backend_offline) (get_elem?-set s.backends n handler (stop handler) b here),
  rw (here, bring_backend_online) (get_elem?-set s.backends n handler (start handler) b here),
)

-- One backend is taken offline, and comes back.
pub take_backend_offline-IsStaffed :
    (s : System) (n : ℕ) (clock : ℕ → ℕ) (wall : ℕ → Bytes)
    → n < num_backend_servers
    → IsStaffed num_backend_servers s
    → IsStaffed n (take_backend_offline s (pos n) clock wall)
take_backend_offline-IsStaffed s n clock wall small h =
    let (handler, here) = h.present n small in
    let after = λ (b : ℕ). (switched s n handler clock wall here b).0 in
    record {
      inv = (backends-SystemInv s (pos n) clock wall h.inv).0;
      present = λ b low. elim (Bool-cases (n == b)) [
        | inl e ↦ (stop handler, ground (arith, after b))
        | inr e ↦ ((h.present b low).0, ground (arith, after b, (h.present b low).1))
      ];
      up = λ b low apart. ground (arith, after b, h.up b low (omega arith));
    }

pub bring_backend_online-IsStaffed :
    (s : System) (n : ℕ)
    → n < num_backend_servers
    → IsStaffed n s
    → IsStaffed num_backend_servers (bring_backend_online s (pos n))
bring_backend_online-IsStaffed s n small h =
    let (handler, here) = h.present n small in
    let after = λ (b : ℕ). (switched s n handler (λ i. 0) (λ i. []) here b).1 in
    record {
      inv = (backends-SystemInv s (pos n) (λ i. 0) (λ i. []) h.inv).1;
      present = λ b low. elim (Bool-cases (n == b)) [
        | inl e ↦ (start handler, ground (arith, after b))
        | inr e ↦ ((h.present b low).0, ground (arith, after b, (h.present b low).1))
      ];
      up = λ b low apart. elim (Bool-cases (n == b)) [
        | inl e ↦ ground (arith, after b)
        | inr e ↦ ground (arith, after b, h.up b low (ground arith))
      ];
    }
