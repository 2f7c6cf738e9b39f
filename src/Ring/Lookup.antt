-- ===== src/Ring/Lookup.antt =====
-- What addServer, removeServer and getServer do to the ring read as a map from positions to servers,
-- and the server that a clockwise walk from a key's position meets first.
use session_affinity_engine.Base.{
  ℕ, zero, suc, ◌+◌, ◌-◌, ◌%◌, ◌≤◌, ◌<◌, ◌≡◌, inl, inr, refl, true, none, some, [], ◌∷◌, arith,
  if◌then◌else◌, leb, leb→le, leb-false→lt, Bool-cases, Option-cases,
}
use session_affinity_engine.Text.{Bytes}
use session_affinity_engine.Ring.OrderedMap.{
  Nodes, find, insert, erase, lower_bound, IsSorted, find-insert, find-erase, insert-IsSorted,
  find-Over, erase-IsSorted, lower_bound_held, lower_bound_least, lower_bound-none,
}
use session_affinity_engine.Ring.Hash.{
  size_mod, hash_key, hash_key-lt, vnode_hash, vnode_hash-lt, is_vnode,
}
use session_affinity_engine.Ring.{ConsistentHashRing, add_vnodes, remove_vnodes, walk, get_server}

pub find-add_vnodes :
    (server i n j : ℕ) (m : Nodes)
    → find j (add_vnodes server i n m) ≡ (if is_vnode server i n j then some server else find j m)
unfolding add_vnodes is_vnode
find-add_vnodes server i zero j m = refl
find-add_vnodes server i (suc n) j m =
    let m' = insert (vnode_hash server i) server m in
    ground
      (arith, find-add_vnodes server (i + 1) n j m', find-insert j (vnode_hash server i) server m)

pub find-remove_vnodes :
    (server i n j : ℕ) (m : Nodes)
    → find j (remove_vnodes server i n m) ≡ (if is_vnode server i n j then none else find j m)
unfolding remove_vnodes is_vnode
find-remove_vnodes server i zero j m = refl
find-remove_vnodes server i (suc n) j m =
    let m' = erase (vnode_hash server i) m in
    ground (arith, find-remove_vnodes server (i + 1) n j m', find-erase j (vnode_hash server i) m)

pub add_vnodes-IsSorted :
    (server i n : ℕ) (m : Nodes) → IsSorted m → IsSorted (add_vnodes server i n m)
unfolding add_vnodes
add_vnodes-IsSorted server i zero m s = s
add_vnodes-IsSorted server i (suc n) m s =
    add_vnodes-IsSorted server (i + 1) n _ (insert-IsSorted (vnode_hash server i) server m s)

pub remove_vnodes-IsSorted :
    (server i n : ℕ) (m : Nodes) → IsSorted m → IsSorted (remove_vnodes server i n m)
unfolding remove_vnodes
remove_vnodes-IsSorted server i zero m s = s
remove_vnodes-IsSorted server i (suc n) m s =
    remove_vnodes-IsSorted server (i + 1) n _ (erase-IsSorted (vnode_hash server i) m s)

pub is_vnode-lt : (server i n j : ℕ) → is_vnode server i n j ≡ true → j < size_mod
unfolding is_vnode
is_vnode-lt server i zero j e = absurd (ground arith)
is_vnode-lt server i (suc n) j e =
    ground (arith, vnode_hash-lt server i, is_vnode-lt server (i + 1) n j)

-- How far a position lies clockwise from `h` on the circle of all `size_t` values.
abbrev pub clockwise : ℕ → ℕ → ℕ
clockwise h k = (k + size_mod - h) % size_mod

-- `v` owns the first node clockwise from `h`.
pub record Owns (m : Nodes) (h v : ℕ) : Type 0 where
  pub place : ℕ
  pub held : find place m ≡ some v
  pub nearest : (j w : ℕ) → find j m ≡ some w → clockwise h place ≤ clockwise h j

abbrev pub Within : Nodes → Type 0
Within m = (j w : ℕ) → find j m ≡ some w → j < size_mod

first_least :
    (k v : ℕ) (m : Nodes) (j w : ℕ) → IsSorted ((k, v) ∷ m) → find j ((k, v) ∷ m) ≡ some w → k ≤ j
unfolding find
first_least k v m j w s e = ground (arith, find-Over k j w m s.0)

head_found : (k v : ℕ) (m : Nodes) → find k ((k, v) ∷ m) ≡ some v
unfolding find
head_found k v m = ground arith

ahead_nearer :
    (h i j : ℕ)
    → h ≤ i
    → i < size_mod
    → j < size_mod
    → (h ≤ j → i ≤ j)
    → clockwise h i ≤ clockwise h j
ahead_nearer h i j hi bi bj least = elim (Bool-cases (leb h j)) [
  | inl e ↦ omega (arith, least (leb→le h j e))
  | inr e ↦ omega (arith, leb-false→lt h j e)
]

walk-Owns :
    (h v : ℕ) (m : Nodes) → h < size_mod → IsSorted m → Within m → walk h m ≡ some v → Owns m h v
unfolding walk
walk-Owns h v [] hs s b e = absurd (ground arith)
walk-Owns h v ((k, u) ∷ m) hs s b e = elim (Option-cases (lower_bound h ((k, u) ∷ m))) [
  | inl last ↦
      let here : find k ((k, u) ∷ m) ≡ some u = head_found k u m in
      record {
        place = k;
        held = ground arith;
        nearest = λ j w f. omega (
          arith,
          lower_bound-none h ((k, u) ∷ m) k u last here,
          lower_bound-none h ((k, u) ∷ m) j w last f,
          first_least k u m j w s f,
        );
      }
  | inr ((i, x), hit) ↦
      let (held, ahead) = lower_bound_held h i x ((k, u) ∷ m) s hit in
      record {
        place = i;
        held = ground arith;
        nearest = λ j w f.
            ahead_nearer h i j ahead (b i x held) (b j w f)
              (lower_bound_least h i x ((k, u) ∷ m) j w s hit f);
      }
]

-- Two nodes at one distance are one node.
pub clockwise_inj :
    (h j k : ℕ) → h < size_mod → j < size_mod → k < size_mod → clockwise h j ≡ clockwise h k → j ≡ k
clockwise_inj h j k a b c e = omega arith

pub Owns-unique :
    (m : Nodes) (h v w : ℕ) → h < size_mod → Within m → Owns m h v → Owns m h w → v ≡ w
Owns-unique m h v w hs b p q =
    let same : p.place ≡ q.place =
      clockwise_inj h p.place q.place hs (b p.place v p.held) (b q.place w q.held)
        (omega (arith, p.nearest q.place w q.held, q.nearest p.place v p.held)) in
    cc (p.held, q.held, same)

-- The server of a key is the owner of the first node clockwise from the key's hash.
pub get_server-Owns :
    (r : ConsistentHashRing) (key : Bytes) (v : ℕ)
    → IsSorted r.ring
    → Within r.ring
    → get_server r key ≡ some v
    → Owns r.ring (hash_key key) v
unfolding get_server
get_server-Owns r key v s b e = walk-Owns (hash_key key) v r.ring (hash_key-lt key) s b e

-- A ring with a node finds a server for every key.
walk-some : (h j w : ℕ) (m : Nodes) → find j m ≡ some w → (v : ℕ) × (walk h m ≡ some v)
unfolding walk find
walk-some h j w [] f = absurd (ground arith)
walk-some h j w ((k, u) ∷ m) f = elim (Option-cases (lower_bound h ((k, u) ∷ m))) [
  | inl last ↦ (u, rw (last, walk))
  | inr (e, hit) ↦ (e.1, rw (hit, walk))
]

pub get_server-some :
    (r : ConsistentHashRing) (key : Bytes) (j w : ℕ)
    → find j r.ring ≡ some w
    → (v : ℕ) × (get_server r key ≡ some v)
unfolding get_server
get_server-some r key j w f = walk-some (hash_key key) j w r.ring f
