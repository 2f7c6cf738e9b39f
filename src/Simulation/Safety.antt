-- ===== src/Simulation/Safety.antt =====
-- Tests 5 to 8 of runSimulation in src/main.cpp: each returns, and leaves the components as the next one
-- needs them.
use session_affinity_engine.Base.{ℕ, refl, ap, Bool, Option, none, some}
use session_affinity_engine.FiveTuple.{FiveTuple, PathHistoryEntry}
use session_affinity_engine.LoadBalancer.{Readings}
use session_affinity_engine.Simulation.{World, Run}
use session_affinity_engine.Simulation.Triples.{Triple, ◌▷◌, ◌⨟◌, for_each-Triple, for_range-Triple}
use session_affinity_engine.Simulation.Fleet.{IsStaffed-frame}
use session_affinity_engine.Simulation.Stages.{
  Stage, print-Triple, print_all-Triple, print_sub_separator-Triple, request_with-Triple,
  timed-Triple, reading-Triple, change-Triple,
}
use session_affinity_engine.Sessions.{SessionManager}
use session_affinity_engine.RateLimiter.{RateLimiter}
use session_affinity_engine.Simulation.Scenes.{path_history-Triple, send_and_print-Triple}
use session_affinity_engine.Simulation.Policies.{
  with_own, print_reason, malformed_input, new_lb, rate_limiting, block, session_blocking, reassign,
  forced_reassignment,
}

module _ {spare : ℕ} {p s : Bool} where
  with_own-Triple :
      {A : Type 0} {m : Run A} (sessions : SessionManager) (limiter : RateLimiter)
      → Triple (Stage spare p s) m (Stage spare p s)
      → Triple (Stage spare p s) (with_own sessions limiter m) (Stage spare p s)
  unfolding with_own
  with_own-Triple {A} sessions limiter t = record {
    returns = λ w h.
        let w0 : World = record w {
          system = record w.system { sessions = sessions; limiter = limiter };
        } in
        let h0 : Stage spare p s w0 = record {
          staffed = IsStaffed-frame sessions limiter w.system.security h.staffed;
          primary_active = h.primary_active;
          standby_active = h.standby_active;
        } in
        let (a, w', e, h') = t.returns w0 h0 in
        let back = λ (x : World). record x {
          system = record x.system { sessions = w.system.sessions; limiter = w.system.limiter };
        } in
        (
          a,
          back w',
          ap
              (λ x. elim x as (λ _. Option (A × World)) [
                | none ↦ none
                | some y ↦ some (y.0, back y.1)
              ])
              e,
          record {
            staffed =
                IsStaffed-frame w.system.sessions w.system.limiter w'.system.security h'.staffed;
            primary_active = h'.primary_active;
            standby_active = h'.standby_active;
          },
        );
  }

  print_reason-Triple :
      (h : PathHistoryEntry) → Triple (Stage spare p s) (print_reason h) (Stage spare p s)
  unfolding print_reason
  print_reason-Triple h = print_all-Triple _

  module _ (clock : ℕ → Readings) where
    pub malformed_input-Triple : Triple (Stage spare p s) (malformed_input clock) (Stage spare p s)
    unfolding malformed_input
    malformed_input-Triple =
        print_sub_separator-Triple _
        ⨟ send_and_print-Triple clock _ _ _
        ⨟ send_and_print-Triple clock _ _ _
        ⨟ send_and_print-Triple clock _ _ _
        ⨟ request_with-Triple clock _ _ _
        ▷ (λ response. print_all-Triple _)

    pub rate_limiting-Triple : Triple (Stage spare p s) (rate_limiting clock) (Stage spare p s)
    unfolding rate_limiting new_lb
    rate_limiting-Triple = print_sub_separator-Triple _ ⨟ reading-Triple clock _ ▷ (λ lb.
        print-Triple _
        ⨟ with_own-Triple _ _
            (for_range-Triple 1 8 (λ i low high. send_and_print-Triple clock _ _ _)))

    block-Triple :
        (ft : FiveTuple) (b : Bool) → Triple (Stage spare p s) (block ft b) (Stage spare p s)
    unfolding block
    block-Triple ft b = change-Triple _ (λ w h. record {
      staffed = IsStaffed-frame _ w.system.limiter w.system.security h.staffed;
      primary_active = h.primary_active;
      standby_active = h.standby_active;
    })

    pub session_blocking-Triple :
        Triple (Stage spare p s) (session_blocking clock) (Stage spare p s)
    unfolding session_blocking
    session_blocking-Triple =
        print_sub_separator-Triple _
        ⨟ send_and_print-Triple clock _ _ _
        ⨟ block-Triple _ _
        ⨟ send_and_print-Triple clock _ _ _
        ⨟ block-Triple _ _
        ⨟ send_and_print-Triple clock _ _ _

    reassign-Triple :
        (ft : FiveTuple) → Triple (Stage spare p s) (reassign clock ft) (Stage spare p s)
    unfolding reassign
    reassign-Triple ft = timed-Triple clock _ (λ r w h. (
      tt,
      _,
      refl,
      record {
        staffed = IsStaffed-frame _ w.system.limiter w.system.security h.staffed;
        primary_active = h.primary_active;
        standby_active = h.standby_active;
      },
    ))

    pub forced_reassignment-Triple :
        Triple (Stage spare p s) (forced_reassignment clock) (Stage spare p s)
    unfolding forced_reassignment
    forced_reassignment-Triple =
        print_sub_separator-Triple _
        ⨟ send_and_print-Triple clock _ _ _
        ⨟ reassign-Triple _
        ⨟ send_and_print-Triple clock _ _ _
        ⨟ path_history-Triple _
        ▷ (λ history. print-Triple _ ⨟ for_each-Triple history print_reason-Triple)
