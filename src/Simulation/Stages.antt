-- ===== src/Simulation/Stages.antt =====
-- What the steps of the demonstration in src/main.cpp do to the components: printing, requests, and the
-- calls that read a clock or change a component.
use session_affinity_engine.Base.{ℕ, ◌+◌, ◌≡◌, refl, ap, Bool, Option, none, some, List, get_elem?}
use session_affinity_engine.Text.{Bytes}
use session_affinity_engine.FiveTuple.{FiveTuple, serialize}
use session_affinity_engine.LoadBalancer.{LoadBalancer, Readings}
use session_affinity_engine.Simulation.{
  World, print, print_all, gets, at, change, timed, request, request_with, print_separator,
  print_sub_separator,
}
use session_affinity_engine.Simulation.Triples.{Triple, ◌⨟◌, for_each-Triple}
use session_affinity_engine.Simulation.Fleet.{IsStaffed, handle_request-Kept}

-- The backends are online but perhaps the one numbered `spare`, and each load balancer is active or not.
pub record Stage (spare : ℕ) (p s : Bool) (w : World) : Type 0 where
  pub staffed : IsStaffed spare w.system
  pub primary_active : w.primary_lb.active ≡ p
  pub standby_active : w.standby_lb.active ≡ s

-- Printing changes nothing that a predicate on the components says.
module _ {P : World → Type 0}
    (quiet : (w : World) (text : Bytes) → P w → P (record w { output = text })) where
  pub print-Quiet : (text : Bytes) → Triple P (print text) P
  unfolding print
  print-Quiet text = record { returns = λ w h. (tt, _, refl, quiet w _ h) }

  pub print_all-Quiet : (pieces : List Bytes) → Triple P (print_all pieces) P
  unfolding print_all
  print_all-Quiet pieces = for_each-Triple pieces print-Quiet

  pub print_separator-Quiet : (title : Bytes) → Triple P (print_separator title) P
  unfolding print_separator
  print_separator-Quiet title = print_all-Quiet _ ⨟ print_all-Quiet _ ⨟ print_all-Quiet _

module _ {spare : ℕ} {p s : Bool} where
  Stage-quiet :
      (w : World) (text : Bytes) → Stage spare p s w → Stage spare p s (record w { output = text })
  Stage-quiet w text h = record {
    staffed = h.staffed;
    primary_active = h.primary_active;
    standby_active = h.standby_active;
  }

  pub print-Triple : (text : Bytes) → Triple (Stage spare p s) (print text) (Stage spare p s)
  print-Triple = print-Quiet Stage-quiet

  pub print_all-Triple :
      (pieces : List Bytes) → Triple (Stage spare p s) (print_all pieces) (Stage spare p s)
  print_all-Triple = print_all-Quiet Stage-quiet

  pub print_separator-Triple :
      (title : Bytes) → Triple (Stage spare p s) (print_separator title) (Stage spare p s)
  print_separator-Triple = print_separator-Quiet Stage-quiet

  pub print_sub_separator-Triple :
      (title : Bytes) → Triple (Stage spare p s) (print_sub_separator title) (Stage spare p s)
  unfolding print_sub_separator
  print_sub_separator-Triple title = print_all-Triple _

  pub gets-Triple :
      {A : Type 0} (f : World → A) → Triple (Stage spare p s) (gets f) (Stage spare p s)
  unfolding gets
  gets-Triple f = record { returns = λ w h. (f w, w, refl, h) }

  pub at-Triple :
      {A : Type 0} (xs : List A) (i : ℕ) (x : A)
      → get_elem? xs i ≡ some x
      → Triple (Stage spare p s) (at xs i) (Stage spare p s)
  unfolding at
  at-Triple xs i x e = record { returns = λ w h. (x, w, rw (e, at) refl, h) }

  pub request_with-Triple :
      (clock : ℕ → Readings) (which : World → LoadBalancer) (ft : FiveTuple) (payload : Bytes)
      → Triple (Stage spare p s) (request_with clock which ft payload) (Stage spare p s)
  unfolding request_with timed
  request_with-Triple clock which ft payload = record {
    returns = λ w h.
        let (sys, reply, e, kept) =
          handle_request-Kept spare (which (record w { calls = w.calls + 1 })) w.system ft payload
            (clock w.calls) h.staffed in
        (
          reply,
          record w { calls = w.calls + 1; system = sys },
          ap
              (λ x. elim x as (λ _. Option (Bytes × World)) [
                | none ↦ none
                | some y ↦ some (y.1, record w { calls = w.calls + 1; system = y.0 })
              ])
              e,
          record {
            staffed = kept;
            primary_active = h.primary_active;
            standby_active = h.standby_active;
          },
        );
  }

  pub request-Triple :
      (clock : ℕ → Readings) (which : World → LoadBalancer) (ft : FiveTuple)
      → Triple (Stage spare p s) (request clock which ft) (Stage spare p s)
  unfolding request
  request-Triple clock which ft = request_with-Triple clock which ft (serialize ft)

  -- A call that reads the clocks.
  pub timed-Triple :
      {A : Type 0} {Q : World → Type 0} (clock : ℕ → Readings)
      (f : Readings → World → Option (A × World))
      → ((r : Readings) (w : World)
          → Stage spare p s w
          → (a : A) × (w' : World) × (f r w ≡ some (a, w')) × Q w')
      → Triple (Stage spare p s) (timed clock f) Q
  unfolding timed
  timed-Triple clock f g = record {
    returns = λ w h.
        g (clock w.calls) (record w { calls = w.calls + 1 })
          (record {
            staffed = h.staffed;
            primary_active = h.primary_active;
            standby_active = h.standby_active;
          });
  }

  -- A call that only reads the components.
  pub reading-Triple :
      {A : Type 0} (clock : ℕ → Readings) (f : Readings → World → A)
      → Triple (Stage spare p s) (timed clock (λ r w. some (f r w, w))) (Stage spare p s)
  reading-Triple clock f = timed-Triple clock _ (λ r w h. (f r w, w, refl, h))

  pub change-Triple :
      {Q : World → Type 0} (f : World → World)
      → ((w : World) → Stage spare p s w → Q (f w))
      → Triple (Stage spare p s) (change f) Q
  unfolding change
  change-Triple f g = record { returns = λ w h. (tt, f w, refl, g w h) }
