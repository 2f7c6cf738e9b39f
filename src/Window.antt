-- ===== src/Window.antt =====
-- The sliding windows of src/rate_limiter.cpp and src/security.cpp: a deque of stamped items whose old
-- ones leave at the front. Times are nanoseconds of the steady clock, which does not run backwards.
use session_affinity_engine.Base.{
  ℕ, ◌+◌, ◌-◌, ◌*◌, ◌≤◌, ◌≡◌, inl, inr, refl, Bool, true, false, List, [], ◌∷◌, ◌++◌, arith, ltb,
  leb, if◌then◌else◌, length, All, Bool-cases, leb→le, ap, sym,
}

-- `std::chrono::seconds(n)` in ticks of the clock.
abbrev pub seconds : ℕ → ℕ
seconds n = n * 1_000_000_000

module _ {ℓ} {A : Type ℓ} (time : A → ℕ) where
  -- `while (!q.empty() && now - q.front().timestamp > window) q.pop_front();`
  unfoldable pub evict : ℕ → ℕ → List A → List A
  evict now window [] = []
  evict now window (x ∷ q) =
      let rest = evict now window q in if ltb window (now - time x) then rest else x ∷ q

  -- The items that are no older than the window.
  unfoldable pub recent : ℕ → ℕ → List A → List A
  recent now window [] = []
  recent now window (x ∷ q) =
      let rest = recent now window q in if leb now (time x + window) then x ∷ rest else rest

  abbrev pub From : ℕ → List A → Type 0
  From t = All (λ x. t ≤ time x)

  abbrev pub Until : ℕ → List A → Type 0
  Until t = All (λ x. time x ≤ t)

  -- The oldest item stands first.
  abbrev pub IsRising : List A → Type 0
  IsRising [] = Unit {0}
  IsRising (x ∷ q) = From (time x) q × IsRising q

  pub From-mono : (s t : ℕ) (q : List A) → s ≤ t → From t q → From s q
  From-mono s t [] h f = tt
  From-mono s t (x ∷ q) h f = (omega arith, From-mono s t q h f.1)

  pub Until-mono : (s t : ℕ) (q : List A) → s ≤ t → Until s q → Until t q
  Until-mono s t [] h f = tt
  Until-mono s t (x ∷ q) h f = (omega arith, Until-mono s t q h f.1)

  pub recent_all :
      (now window : ℕ) (q : List A) (t : ℕ) → now ≤ t + window → From t q → recent now window q ≡ q
  unfolding recent
  recent_all now window [] t h f = refl
  recent_all now window (x ∷ q) t h f = ground (arith, recent_all now window q t h f.1)

  -- On a deque in order of time the loop drops exactly the items that are too old.
  pub evict-eq-recent :
      (now window : ℕ) (q : List A) → IsRising q → evict now window q ≡ recent now window q
  unfolding evict recent
  evict-eq-recent now window [] r = refl
  evict-eq-recent now window (x ∷ q) r = elim (Bool-cases (leb now (time x + window))) [
    | inl e ↦
        let young : ltb window (now - time x) ≡ false = ground arith in
        rw (e, young, evict, recent)
          (ap (◌∷◌ x) (sym (recent_all now window q (time x) (leb→le _ _ e) r.0)))
    | inr e ↦
        let old : ltb window (now - time x) ≡ true = ground arith in
        rw (e, old, evict, recent) (evict-eq-recent now window q r.1)
  ]

  pub evict-IsRising : (now window : ℕ) (q : List A) → IsRising q → IsRising (evict now window q)
  unfolding evict
  evict-IsRising now window [] r = tt
  evict-IsRising now window (x ∷ q) r = ground (arith, evict-IsRising now window q r.1, r.0, r.1)

  pub evict-Until : (now window t : ℕ) (q : List A) → Until t q → Until t (evict now window q)
  unfolding evict
  evict-Until now window t [] u = tt
  evict-Until now window t (x ∷ q) u = ground (arith, evict-Until now window t q u.1, u.1)

  pub append-IsRising :
      (q : List A) (x : A) → Until (time x) q → IsRising q → IsRising (q ++ x ∷ [])
  append-IsRising [] x u r = (tt, tt)
  append-IsRising (y ∷ q) x u r = (From-append (time y) q x u.0 r.0, append-IsRising q x u.1 r.1)
    where
      From-append : (t : ℕ) (p : List A) (z : A) → t ≤ time z → From t p → From t (p ++ z ∷ [])
      From-append t [] z h f = (h, tt)
      From-append t (w ∷ p) z h f = (f.0, From-append t p z h f.1)

  pub length-evict : (now window : ℕ) (q : List A) → length (evict now window q) ≤ length q
  unfolding evict
  length-evict now window [] = omega arith
  length-evict now window (x ∷ q) = ground (arith, length-evict now window q)

  -- How many items pass a test.
  unfoldable pub tally : (A → Bool) → List A → ℕ
  tally test [] = 0
  tally test (x ∷ q) = (if test x then 1 else 0) + tally test q

  pub tally-append :
      (test : A → Bool) (q : List A) (x : A)
      → tally test (q ++ x ∷ []) ≡ tally test q + (if test x then 1 else 0)
  unfolding tally
  tally-append test [] x = ground arith
  tally-append test (y ∷ q) x = ground (arith, tally-append test q x)

  pub tally-le-length : (test : A → Bool) (q : List A) → tally test q ≤ length q
  unfolding tally
  tally-le-length test [] = omega arith
  tally-le-length test (x ∷ q) = ground (arith, tally-le-length test q)

  pub tally-evict-le :
      (test : A → Bool) (now window : ℕ) (q : List A)
      → tally test (evict now window q) ≤ tally test q
  unfolding tally evict
  tally-evict-le test now window [] = omega arith
  tally-evict-le test now window (x ∷ q) = ground (arith, tally-evict-le test now window q)

  -- Eviction drops no item that passes a test which only recent items pass.
  pub tally-evict :
      (test : A → Bool) (now window : ℕ) (q : List A)
      → ((x : A) → test x ≡ true → now ≤ time x + window)
      → tally test (evict now window q) ≡ tally test q
  unfolding tally evict
  tally-evict test now window [] h = refl
  tally-evict test now window (x ∷ q) h = ground (arith, tally-evict test now window q h, h x)
