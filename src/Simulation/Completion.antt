-- ===== src/Simulation/Completion.antt =====
-- runSimulation of src/main.cpp as a whole: it returns, whatever the clocks show, and no read lies outside
-- a vector.
use session_affinity_engine.Base.{
  length, All, ℕ, zero, suc, ◌<◌, ◌≡◌, refl, Bool, true, false, some, List, [], ◌∷◌, arith,
  get_elem?,
}
use session_affinity_engine.Config.{num_backend_servers}
use session_affinity_engine.Text.{Bytes}
use session_affinity_engine.LoadBalancer.{Readings}
use session_affinity_engine.Simulation.{World, ◌>>=◌, gets, at, change, timed}
use session_affinity_engine.Simulation.Triples.{
  Triple, pure-Triple, ◌▷◌, ◌⨟◌, for_each-Triple, for_range-Triple,
}
use session_affinity_engine.Simulation.Fleet.{IsStaffed}
use session_affinity_engine.Simulation.Stages.{
  Stage, print-Triple, print_all-Triple, print_separator-Triple, print_sub_separator-Triple,
  request-Triple,
}
use session_affinity_engine.Server.{add_backends, empty_system}
use session_affinity_engine.Server.Safety.{add_backends-SystemInv}
use session_affinity_engine.Simulation.Scenes.{
  count_servers-Triple, count_sessions-Triple, sticky_sessions-Triple, show_history-Triple,
  backend_failure-Triple,
}
use session_affinity_engine.Simulation.Takeover.{lb_failover-Triple}
use session_affinity_engine.Simulation.Traffic.{generate_test_tuples}
use session_affinity_engine.Simulation.Report.{
  backend_row, print_setting, print_configuration, print_backend, send, load_distribution, summary,
  tuple_round_trip,
}
use session_affinity_engine.Simulation.Program.{create_components, create_lbs, run_simulation}
use session_affinity_engine.Simulation.Stages.{print_all-Quiet, print-Quiet, print_separator-Quiet}
use session_affinity_engine.RequestHandler.{RequestHandler}
use session_affinity_engine.Server.Safety.{empty_system-SystemInv}
use session_affinity_engine.Simulation.Safety.{
  malformed_input-Triple, rate_limiting-Triple, session_blocking-Triple, forced_reassignment-Triple,
}

-- Before the components are there.
abbrev Raw : World → Type 0
Raw w = Unit {0}

print_configuration-Triple : Triple Raw print_configuration Raw
unfolding print_configuration print_setting
print_configuration-Triple =
    print-Quiet _ _
    ⨟ setting _ _ _
    ⨟ setting _ _ _
    ⨟ setting _ _ _
    ⨟ setting _ _ _
    ⨟ setting _ _ _
    ⨟ setting _ _ _
    ⨟ setting _ _ _
    ⨟ setting _ _ _
  where
    setting : (label : Bytes) (n : ℕ) (unit : Bytes) → Triple Raw (print_setting label n unit) Raw
    setting label n unit = print_all-Quiet (λ w text h. tt) _

-- Where all handlers are online, the backend of every number below their count is there.
elem_up :
    (xs : List RequestHandler) (b : ℕ)
    → All (λ h. h.online ≡ true) xs
    → b < length xs
    → (h : RequestHandler) × ((get_elem? xs b ≡ some h) × (h.online ≡ true))
elem_up [] b on low = absurd (omega arith)
elem_up (x ∷ xs) zero on low = (x, (refl, on.0))
elem_up (x ∷ xs) (suc b) on low = elem_up xs b on.1 (omega arith)

created-IsStaffed : IsStaffed num_backend_servers (add_backends 0 num_backend_servers empty_system)
unfolding add_backends empty_system
created-IsStaffed =
    let made = (add_backends 0 num_backend_servers empty_system).backends in
    let on : All (λ (h : RequestHandler). h.online ≡ true) made =
      (refl, (refl, (refl, (refl, (refl, (refl, (refl, (refl, tt)))))))) in
    record {
      inv =
          (add_backends-SystemInv 0 num_backend_servers empty_system refl empty_system-SystemInv).0;
      present = λ b low. let (h, e) = elem_up made b on low in (h, e.0);
      up = λ b low apart. let (h, e) = elem_up made b on low in ground (arith, e.0, e.1);
    }

module _ {spare : ℕ} {p s : Bool} where
  print_backend-Triple :
      (i : ℕ)
      → i < num_backend_servers
      → Triple (Stage spare p s) (print_backend i) (Stage spare p s)
  unfolding print_backend gets at ◌>>=◌
  print_backend-Triple i low = record {
    returns = λ w h.
        let (handler, here) = h.staffed.present i low in
        let (a, w', e, q) =
          (print_all-Triple {spare = spare} {p = p} {s = s} (backend_row i handler)).returns w h in
        (a, w', rw (here, print_backend, ◌>>=◌, gets, at) e, q);
  }

module _ {spare : ℕ} {p s : Bool} (clock : ℕ → Readings) where
  load_distribution-Triple : Triple (Stage spare p s) (load_distribution clock) (Stage spare p s)
  unfolding load_distribution send
  load_distribution-Triple =
      print_sub_separator-Triple _
      ⨟ for_each-Triple _ (λ ft. request-Triple clock _ ft ▷ (λ response. pure-Triple tt))
      ⨟ print_all-Triple _
      ⨟ print_all-Triple _
      ⨟ print_all-Triple _
      ⨟ for_range-Triple 0 num_backend_servers (λ i low high. print_backend-Triple i high)

  summary-Triple : Triple (Stage spare p s) (summary clock) (Stage spare p s)
  unfolding summary
  summary-Triple = print_separator-Triple _ ⨟ count_sessions-Triple clock ▷ (λ active.
      print_all-Triple _ ⨟ count_servers-Triple ▷ (λ servers. print_all-Triple _ ⨟ print-Triple _))

tuple_round_trip-Triple :
    {spare : ℕ} {p s : Bool} → Triple (Stage spare p s) tuple_round_trip (Stage spare p s)
unfolding tuple_round_trip
tuple_round_trip-Triple =
    print_sub_separator-Triple _ ⨟ print_all-Triple _ ⨟ print_all-Triple _ ⨟ print_all-Triple _

create_components-Triple :
    Triple Raw create_components (λ w. IsStaffed num_backend_servers w.system)
unfolding create_components change
create_components-Triple = record { returns = λ w h. (tt, _, refl, created-IsStaffed) }

create_lbs-Triple :
    (clock : ℕ → Readings)
    → Triple
        (λ w. IsStaffed num_backend_servers w.system)
        (create_lbs clock)
        (Stage num_backend_servers true false)
unfolding create_lbs timed ◌>>=◌
create_lbs-Triple clock = record {
  returns =
      λ w h. (tt, _, refl, record { staffed = h; primary_active = refl; standby_active = refl });
}

run_simulation-Triple :
    (clock : ℕ → Readings)
    → Triple Raw (run_simulation clock) (Stage num_backend_servers true false)
unfolding run_simulation generate_test_tuples
run_simulation-Triple clock =
    let tuples = generate_test_tuples 10 in
    print_separator-Quiet (λ w text h. h) _
    ⨟ print_configuration-Triple
    ⨟ create_components-Triple
    ⨟ create_lbs-Triple clock
    ⨟ sticky_sessions-Triple clock tuples
    ⨟ show_history-Triple tuples _ refl
    ⨟ backend_failure-Triple clock tuples _ refl
    ⨟ lb_failover-Triple _ clock tuples _ refl
    ⨟ malformed_input-Triple clock
    ⨟ rate_limiting-Triple clock
    ⨟ session_blocking-Triple clock
    ⨟ forced_reassignment-Triple clock
    ⨟ load_distribution-Triple clock
    ⨟ tuple_round_trip-Triple
    ⨟ summary-Triple clock

-- Whatever memory holds before and whatever the clocks show at each call, the simulation runs to its end:
-- no loop and no read of a vector goes wrong. It leaves components that agree with each other, all eight
-- backends online, the primary load balancer active and the standby not.
pub run_simulation-completes :
    (clock : ℕ → Readings) (w : World)
    → (w' : World) × (run_simulation clock w ≡ some (tt, w'))
      × Stage num_backend_servers true false w'
run_simulation-completes clock w =
    let (a, w', e, q) = (run_simulation-Triple clock).returns w tt in (w', e, q)
