-- ===== src/Dict.antt =====
-- std::unordered_map<std::string, V> as an association list. The order of iteration, which the source
-- leaves open, is the order of the list.
use session_affinity_engine.Base.{
  inl, inr, ◌∙◌, Bool, Bool-cases, true, false, ◌≡◌, refl, Option, none, some, List, [], ◌∷◌, arith,
  if◌then◌else◌,
}
use session_affinity_engine.Text.{Bytes, str_eq, str_eq_iff, str_eq_refl}

abbrev pub Dict {ℓ} : Type ℓ → Type ℓ
Dict V = List (Bytes × V)

module _ {ℓ} {V : Type ℓ} where
  unfoldable pub find : Bytes → Dict V → Option V
  find k [] = none
  find k ((j, w) ∷ m) = if str_eq j k then some w else find k m

  -- `map[k] = v`, and a write through the reference that `map[k]` or `find` gives.
  unfoldable pub assign : Bytes → V → Dict V → Dict V
  assign k v [] = (k, v) ∷ []
  assign k v ((j, w) ∷ m) =
      let rest = assign k v m in if str_eq j k then (j, v) ∷ m else (j, w) ∷ rest

  unfoldable pub erase : Bytes → Dict V → Dict V
  erase k [] = []
  erase k ((j, w) ∷ m) = let rest = erase k m in if str_eq j k then rest else (j, w) ∷ rest

  -- The value, or what a new entry holds.
  abbrev pub get_or : Option V → V → V
  get_or none d = d
  get_or (some v) d = v

  pub find-assign :
      (i k : Bytes) (v : V) (m : Dict V)
      → find i (assign k v m) ≡ (if str_eq k i then some v else find i m)
  unfolding find assign
  find-assign i k v [] = refl
  find-assign i k v ((j, w) ∷ m) =
      ground (arith, find-assign i k v m, str_eq_iff k i, str_eq_iff j k, str_eq_iff j i)

  pub find-assign_self : (k : Bytes) (v : V) (m : Dict V) → find k (assign k v m) ≡ some v
  find-assign_self k v m = rw (find-assign k k v m, str_eq_refl k)

  pub find-erase :
      (i k : Bytes) (m : Dict V) → find i (erase k m) ≡ (if str_eq k i then none else find i m)
  unfolding find erase
  find-erase i k [] = ground arith
  find-erase i k ((j, w) ∷ m) =
      ground (arith, find-erase i k m, str_eq_iff k i, str_eq_iff j k, str_eq_iff j i)

  -- No key stands twice, as in a map.
  abbrev pub HasUniqueKeys : Dict V → Type ℓ
  HasUniqueKeys [] = Unit
  HasUniqueKeys ((k, v) ∷ m) = (find k m ≡ none) × HasUniqueKeys m

  pub assign-HasUniqueKeys :
      (k : Bytes) (v : V) (m : Dict V) → HasUniqueKeys m → HasUniqueKeys (assign k v m)
  unfolding assign find
  assign-HasUniqueKeys k v [] u = (refl, tt)
  assign-HasUniqueKeys k v ((j, w) ∷ m) u = elim (Bool-cases (str_eq j k)) [
    | inl same ↦ rw (same, assign) u
    | inr other ↦
        rw (other, assign)
          (find-assign j k v m ∙ rw (other_way j k other) u.0, assign-HasUniqueKeys k v m u.1)
  ]
    where
      other_way : (a b : Bytes) → str_eq a b ≡ false → str_eq b a ≡ false
      other_way a b e = ground (arith, str_eq_iff a b, str_eq_iff b a)

  pub erase-HasUniqueKeys : (k : Bytes) (m : Dict V) → HasUniqueKeys m → HasUniqueKeys (erase k m)
  unfolding erase
  erase-HasUniqueKeys k [] u = u
  erase-HasUniqueKeys k ((j, w) ∷ m) u = elim (Bool-cases (str_eq j k)) [
    | inl same ↦ rw (same, erase) (erase-HasUniqueKeys k m u.1)
    | inr other ↦
        rw (other, erase)
          (find-erase j k m ∙ rw u.0 (if_same (str_eq k j)), erase-HasUniqueKeys k m u.1)
  ]
    where
      if_same : (b : Bool) → ◌≡◌ {A = Option V} (if b then none else none) none
      if_same true = refl
      if_same false = refl
