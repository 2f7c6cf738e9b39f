-- ===== src/Simulation/Scenes.antt =====
-- The tests of runSimulation in src/main.cpp, one after another: each returns, and leaves the components
-- as the next one needs them.
use session_affinity_engine.Base.{ℕ, ◌≡◌, refl, Bool, some, List, arith, get_elem?}
use session_affinity_engine.Config.{num_backend_servers}
use session_affinity_engine.Text.{Bytes}
use session_affinity_engine.FiveTuple.{FiveTuple, PathHistoryEntry}
use session_affinity_engine.LoadBalancer.{LoadBalancer, Readings}
use session_affinity_engine.Simulation.{World, at}
use session_affinity_engine.Simulation.Triples.{Triple, ◌▷◌, ◌⨟◌, for_each-Triple, for_range-Triple}
use session_affinity_engine.Simulation.Fleet.{
  take_backend_offline-IsStaffed, bring_backend_online-IsStaffed,
}
use session_affinity_engine.Simulation.Stages.{
  Stage, print-Triple, print_all-Triple, print_sub_separator-Triple, gets-Triple, at-Triple,
  request-Triple, timed-Triple, reading-Triple, change-Triple,
}
use session_affinity_engine.Simulation.Clients.{
  count_servers, path_history, print_step, print_activity, send_and_print, count_sessions,
  sticky_sessions, show_history, read_sessions, backend_failure,
}

module _ {spare : ℕ} {p s : Bool} where
  pub count_servers-Triple : Triple (Stage spare p s) count_servers (Stage spare p s)
  unfolding count_servers
  count_servers-Triple = gets-Triple _

  pub path_history-Triple :
      (ft : FiveTuple) → Triple (Stage spare p s) (path_history ft) (Stage spare p s)
  unfolding path_history
  path_history-Triple ft = gets-Triple _

  pub print_step-Triple :
      (h : PathHistoryEntry) → Triple (Stage spare p s) (print_step h) (Stage spare p s)
  unfolding print_step
  print_step-Triple h = print_all-Triple _

  pub print_activity-Triple :
      (label : Bytes) (b : Bool)
      → Triple (Stage spare p s) (print_activity label b) (Stage spare p s)
  unfolding print_activity
  print_activity-Triple label b = print_all-Triple _

  module _ (clock : ℕ → Readings) where
    pub send_and_print-Triple :
        (label : Bytes) (which : World → LoadBalancer) (ft : FiveTuple)
        → Triple (Stage spare p s) (send_and_print clock label which ft) (Stage spare p s)
    unfolding send_and_print
    send_and_print-Triple label which ft =
        request-Triple clock which ft ▷ (λ response. print_all-Triple _)

    pub count_sessions-Triple : Triple (Stage spare p s) (count_sessions clock) (Stage spare p s)
    unfolding count_sessions
    count_sessions-Triple = reading-Triple clock _

    pub read_sessions-Triple : Triple (Stage spare p s) (read_sessions clock) (Stage spare p s)
    unfolding read_sessions
    read_sessions-Triple = reading-Triple clock _

    pub sticky_sessions-Triple :
        (tuples : List FiveTuple)
        → Triple (Stage spare p s) (sticky_sessions clock tuples) (Stage spare p s)
    unfolding sticky_sessions
    sticky_sessions-Triple tuples =
        print_sub_separator-Triple _
        ⨟ print-Triple _
        ⨟ print_all-Triple _
        ⨟ print_all-Triple _
        ⨟ for_each-Triple tuples
            (λ ft. for_range-Triple 0 3 (λ r low high. send_and_print-Triple _ _ ft))
        ⨟ count_sessions-Triple
        ▷ (λ active. print_all-Triple _)

  -- The tests that use the first of the clients.
  module _ (tuples : List FiveTuple) (first : FiveTuple)
      (there : get_elem? tuples 0 ≡ some first) where
    first_history : Triple (Stage spare p s) (at tuples 0) (Stage spare p s)
    first_history = at-Triple tuples 0 first there

    pub show_history-Triple : Triple (Stage spare p s) (show_history tuples) (Stage spare p s)
    unfolding show_history
    show_history-Triple =
        print_sub_separator-Triple _
        ⨟ first_history
        ▷ (λ ft. path_history-Triple ft ▷ (λ history. for_each-Triple history print_step-Triple))

module _ {p s : Bool} (clock : ℕ → Readings) (tuples : List FiveTuple) (first : FiveTuple)
    (there : get_elem? tuples 0 ≡ some first) where
  -- A backend fails, and is back at the end.
  pub backend_failure-Triple :
      Triple
        (Stage num_backend_servers p s)
        (backend_failure clock tuples)
        (Stage num_backend_servers p s)
  unfolding backend_failure
  backend_failure-Triple = print_sub_separator-Triple _ ⨟ read_sessions-Triple clock ▷ (λ all.
      print_all-Triple _
      ⨟ timed-Triple clock _ (λ r w h. (
        tt,
        _,
        refl,
        record {
          staffed =
              take_backend_offline-IsStaffed w.system 0 r.down_clock r.down_wall (omega arith)
                h.staffed;
          primary_active = h.primary_active;
          standby_active = h.standby_active;
        },
      ))
      ⨟ (count_servers-Triple {spare = 0} {p = p} {s = s})
      ▷ (λ left.
          print_all-Triple _
          ⨟ print-Triple _
          ⨟ print_all-Triple _
          ⨟ print_all-Triple _
          ⨟ for_each-Triple tuples (λ ft. send_and_print-Triple clock _ _ ft)
          ⨟ print-Triple _
          ⨟ first_history tuples first there
          ▷ (λ ft. path_history-Triple ft ▷ (λ history.
              for_each-Triple history print_step-Triple
              ⨟ print_all-Triple _
              ⨟ change-Triple _ (λ w h. record {
                staffed = bring_backend_online-IsStaffed w.system 0 (omega arith) h.staffed;
                primary_active = h.primary_active;
                standby_active = h.standby_active;
              })
              ⨟ count_servers-Triple
              ▷ (λ back. print_all-Triple _)))))
