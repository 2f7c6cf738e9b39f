-- ===== src/Simulation/Triples.antt =====
-- Reasoning about the programs over a `World`: from a world where `P` holds a program returns, and leaves
-- one where `Q` holds.
use session_affinity_engine.Base.{
  Bool, true, false, if◌then◌else◌, ℕ, zero, suc, ◌+◌, ◌≤◌, ◌<◌, ◌≡◌, refl, ap, ◌∙◌, none, some,
  List, [], ◌∷◌, arith,
}
use session_affinity_engine.Simulation.{World, Run, pure, ◌>>=◌, ◌>>◌, for_each, for_range}

pub record Triple {A : Type 0} (P : World → Type 0) (m : Run A) (Q : World → Type 0) : Type 0 where
  pub returns : (w : World) → P w → (a : A) × (w' : World) × (m w ≡ some (a, w')) × Q w'

pub pure-Triple : {A : Type 0} {P : World → Type 0} (a : A) → Triple P (pure a) P
unfolding pure
pure-Triple a = record { returns = λ w h. (a, w, refl, h) }

infixr 5 ◌▷◌ ◌⨟◌
pub ◌▷◌ :
    {A B : Type 0} {P Q R : World → Type 0} {m : Run A} {f : A → Run B}
    → Triple P m Q
    → ((a : A) → Triple Q (f a) R)
    → Triple P (m >>= f) R
unfolding ◌>>=◌
◌▷◌ {f = f} h k = record {
  returns = λ w p.
      let (a, w1, e1, q) = h.returns w p in
      let (b, w2, e2, r) = (k a).returns w1 q in
      (b, w2, ap (λ x. elim x as (λ _. _) [ none ↦ none | some y ↦ f y.0 y.1 ]) e1 ∙ e2, r);
}

pub ◌⨟◌ :
    {B : Type 0} {P Q R : World → Type 0} {m : Run (Unit {0})} {n : Run B}
    → Triple P m Q
    → Triple Q n R
    → Triple P (m >> n) R
h ⨟ k = h ▷ (λ _. k)

pub for_each-Triple :
    {A : Type 0} {P : World → Type 0} {body : A → Run (Unit {0})} (xs : List A)
    → ((x : A) → Triple P (body x) P)
    → Triple P (for_each xs body) P
unfolding for_each
for_each-Triple [] h = pure-Triple tt
for_each-Triple (x ∷ xs) h = h x ⨟ for_each-Triple xs h

pub for_range-Triple :
    {P : World → Type 0} {body : ℕ → Run (Unit {0})} (first rounds : ℕ)
    → ((i : ℕ) → first ≤ i → i < first + rounds → Triple P (body i) P)
    → Triple P (for_range first rounds body) P
unfolding for_range
for_range-Triple first zero h = pure-Triple tt
for_range-Triple first (suc n) h =
    h first (omega arith) (omega arith)
    ⨟ for_range-Triple (first + 1) n (λ i low high. h i (omega arith) (omega arith))

pub if-Triple :
    {A : Type 0} {P Q : World → Type 0} {m n : Run A} (b : Bool)
    → Triple P m Q
    → Triple P n Q
    → Triple P (if b then m else n) Q
if-Triple true h k = h
if-Triple false h k = k
