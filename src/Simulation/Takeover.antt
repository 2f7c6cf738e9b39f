-- ===== src/Simulation/Takeover.antt =====
-- Test 4 of runSimulation in src/main.cpp: the standby takes over, and hands back.
use session_affinity_engine.Base.{ℕ, ◌≡◌, refl, Bool, true, false, some, List, get_elem?}
use session_affinity_engine.FiveTuple.{FiveTuple}
use session_affinity_engine.LoadBalancer.{Readings}
use session_affinity_engine.Simulation.{World, Run, pure}
use session_affinity_engine.Simulation.Triples.{Triple, ◌▷◌, ◌⨟◌, if-Triple}
use session_affinity_engine.Simulation.Stages.{
  Stage, print-Triple, print_all-Triple, print_sub_separator-Triple, gets-Triple, at-Triple,
  timed-Triple, reading-Triple, change-Triple,
}
use session_affinity_engine.Simulation.Clients.{
  stale_heartbeat, announce_takeover, take_over, lb_failover,
}
use session_affinity_engine.Simulation.Scenes.{send_and_print-Triple, print_activity-Triple}

-- The failover between the load balancers.
module _ (spare : ℕ) (clock : ℕ → Readings) where
  -- The standby is active or not, as the clock has it.
  abbrev Watched : World → Type 0
  Watched w = (b : Bool) × Stage spare false b w

  from_Watched :
      {A : Type 0} {Q : World → Type 0} {m : Run A}
      → ((b : Bool) → Triple (Stage spare false b) m Q)
      → Triple Watched m Q
  from_Watched h = record { returns = λ w q. (h q.0).returns w q.1 }

  take_over-Triple : Triple (Stage spare false false) (take_over clock) Watched
  unfolding take_over stale_heartbeat announce_takeover pure
  take_over-Triple = reading-Triple clock _ ▷ (λ timed_out.
      if-Triple timed_out
        (print_all-Triple _
          ⨟ change-Triple _ (λ w h. (
            true,
            record {
              staffed = h.staffed;
              primary_active = h.primary_active;
              standby_active = refl;
            },
          )))
        (record { returns = λ w h. (tt, w, refl, (false, h)) }))

  -- It ends as it began: the primary is active, and the standby is not.
  pub lb_failover-Triple :
      (tuples : List FiveTuple) (first : FiveTuple)
      → get_elem? tuples 0 ≡ some first
      → Triple (Stage spare true false) (lb_failover clock tuples) (Stage spare true false)
  unfolding lb_failover
  lb_failover-Triple tuples first there = print_sub_separator-Triple _ ⨟ gets-Triple _ ▷ (λ p0.
      print_activity-Triple _ p0 ⨟ gets-Triple _ ▷ (λ s0.
        print_activity-Triple _ s0
        ⨟ print-Triple _
        ⨟ change-Triple _ (λ w h. record {
          staffed = h.staffed;
          primary_active = refl;
          standby_active = h.standby_active;
        })
        ⨟ at-Triple tuples 0 first there
        ▷ (λ ft.
            send_and_print-Triple clock _ _ ft
            ⨟ take_over-Triple
            ⨟ from_Watched (λ b.
              send_and_print-Triple clock _ _ ft
              ⨟ print-Triple _
              ⨟ change-Triple _ (λ w h. record {
                staffed = h.staffed;
                primary_active = refl;
                standby_active = refl;
              })
              ⨟ timed-Triple clock _ (λ r w h. (
                tt,
                _,
                refl,
                record {
                  staffed = h.staffed;
                  primary_active = h.primary_active;
                  standby_active = h.standby_active;
                },
              ))
              ⨟ gets-Triple _
              ▷ (λ p1.
                  print_activity-Triple _ p1
                  ⨟ gets-Triple _
                  ▷ (λ s1. print_activity-Triple _ s1))))))
