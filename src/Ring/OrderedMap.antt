-- ===== src/Ring/OrderedMap.antt =====
-- std::map<size_t, int> as a list of entries in rising order of their keys.
use session_affinity_engine.Base.{
  ℕ, ◌≤◌, ◌<◌, ◌≡◌, refl, Option, none, some, List, [], ◌∷◌, arith, ltb, ◌==◌, if◌then◌else◌, All,
}

abbrev pub Nodes : Type 0
Nodes = List (ℕ × ℕ)

unfoldable pub find : ℕ → Nodes → Option ℕ
find k [] = none
find k ((j, w) ∷ m) = if j == k then some w else find k m

-- `map[k] = v`
unfoldable pub insert : ℕ → ℕ → Nodes → Nodes
insert k v [] = (k, v) ∷ []
insert k v ((i, u) ∷ nodes) =
    let rest = insert k v nodes in
    if ltb k i then (k, v) ∷ (i, u) ∷ nodes else if i == k then (k, v) ∷ nodes else (i, u) ∷ rest

-- `map.erase(k)`
unfoldable pub erase : ℕ → Nodes → Nodes
erase k [] = []
erase k ((j, w) ∷ m) = let rest = erase k m in if j == k then rest else (j, w) ∷ rest

-- `map.lower_bound(h)`: the first entry whose key is not below `h`; `none` is `end()`.
unfoldable pub lower_bound : ℕ → Nodes → Option (ℕ × ℕ)
lower_bound h [] = none
lower_bound h ((k, v) ∷ m) = let rest = lower_bound h m in if ltb k h then rest else some (k, v)

abbrev pub Over : ℕ → Nodes → Type 0
Over k = All (λ e. k < e.0)

abbrev pub IsSorted : Nodes → Type 0
IsSorted [] = Unit {0}
IsSorted ((k, v) ∷ m) = Over k m × IsSorted m

pub find-insert :
    (i k v : ℕ) (m : Nodes) → find i (insert k v m) ≡ (if k == i then some v else find i m)
unfolding find insert
find-insert i k v [] = refl
find-insert i k v ((j, w) ∷ m) = ground (arith, find-insert i k v m)

pub find-erase : (i k : ℕ) (m : Nodes) → find i (erase k m) ≡ (if k == i then none else find i m)
unfolding find erase
find-erase i k [] = ground arith
find-erase i k ((j, w) ∷ m) = ground (arith, find-erase i k m)

Over-mono : (a b : ℕ) (m : Nodes) → a ≤ b → Over b m → Over a m
Over-mono a b [] h o = tt
Over-mono a b ((k, v) ∷ m) h o = (omega arith, Over-mono a b m h o.1)

Over-insert : (a k v : ℕ) (m : Nodes) → a < k → Over a m → Over a (insert k v m)
unfolding insert
Over-insert a k v [] h o = (h, tt)
Over-insert a k v ((j, w) ∷ m) h o = ground (arith, Over-insert a k v m h o.1)

pub insert-IsSorted : (k v : ℕ) (m : Nodes) → IsSorted m → IsSorted (insert k v m)
unfolding insert
insert-IsSorted k v [] s = (tt, tt)
insert-IsSorted k v ((j, w) ∷ m) s =
    ground (arith, insert-IsSorted k v m s.1, Over-insert j k v m, Over-mono k j m, s.0)

Over-erase : (a k : ℕ) (m : Nodes) → Over a m → Over a (erase k m)
unfolding erase
Over-erase a k [] o = tt
Over-erase a k ((j, w) ∷ m) o = ground (arith, Over-erase a k m o.1)

pub erase-IsSorted : (k : ℕ) (m : Nodes) → IsSorted m → IsSorted (erase k m)
unfolding erase
erase-IsSorted k [] s = tt
erase-IsSorted k ((j, w) ∷ m) s = ground (arith, erase-IsSorted k m s.1, Over-erase j k m s.0)

pub find-Over : (a i v : ℕ) (m : Nodes) → Over a m → find i m ≡ some v → a < i
unfolding find
find-Over a i v [] o e = absurd (ground arith)
find-Over a i v ((j, w) ∷ m) o e = ground (arith, find-Over a i v m o.1)

-- What `lower_bound` finds is an entry at or behind `h`, and no entry there has a smaller key.
pub lower_bound_held :
    (h k v : ℕ) (m : Nodes)
    → IsSorted m
    → lower_bound h m ≡ some (k, v)
    → (find k m ≡ some v) × (h ≤ k)
unfolding find lower_bound
lower_bound_held h k v [] s e = absurd (ground arith)
lower_bound_held h k v ((i, u) ∷ m) s e =
    ground (arith, lower_bound_held h k v m s.1, find-Over i k v m s.0)

pub lower_bound_least :
    (h k v : ℕ) (m : Nodes) (j w : ℕ)
    → IsSorted m
    → lower_bound h m ≡ some (k, v)
    → find j m ≡ some w
    → h ≤ j
    → k ≤ j
unfolding find lower_bound
lower_bound_least h k v [] j w s e f l = absurd (ground arith)
lower_bound_least h k v ((i, u) ∷ m) j w s e f l =
    ground (arith, lower_bound_least h k v m j w s.1, find-Over i j w m s.0)

-- Where it finds none, every key is below `h`.
pub lower_bound-none :
    (h : ℕ) (m : Nodes) (j w : ℕ) → lower_bound h m ≡ none → find j m ≡ some w → j < h
unfolding find lower_bound
lower_bound-none h [] j w e f = absurd (ground arith)
lower_bound-none h ((i, u) ∷ m) j w e f = ground (arith, lower_bound-none h m j w)
