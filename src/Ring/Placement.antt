-- ===== src/Ring/Placement.antt =====
-- The virtual nodes of the configuration: the hashes of all 1200 are different. What is evaluated is the
-- number of nodes on a ring with all eight servers.
use mathlib.Core.Option.{some-injective}
use session_affinity_engine.Base.{
  subst, ℕ, zero, suc, ◌+◌, ◌-◌, ◌*◌, ◌≤◌, ◌<◌, ◌≡◌, refl, sym, ◌∙◌, true, none, some, [], ◌∷◌,
  ◌==◌, arith, length, Bool-cases, Option-cases, inl, inr,
}
use session_affinity_engine.Config.{num_backend_servers, consistent_hash_vnodes}
use session_affinity_engine.Text.Decimal.{to_string}
use session_affinity_engine.Ring.OrderedMap.{
  Nodes, find, insert, find-insert, IsSorted, insert-IsSorted, find-Over,
}
use session_affinity_engine.Ring.Hash.{hash_key, vnode_hash, is_vnode}
use session_affinity_engine.Ring.Lookup.{find-add_vnodes, add_vnodes-IsSorted}
use session_affinity_engine.Ring.{add_vnodes}

-- An insertion makes the map longer by an entry at most, and not where the key is there.
length-insert-le : (k v : ℕ) (m : Nodes) → length (insert k v m) ≤ length m + 1
unfolding insert
length-insert-le k v [] = omega arith
length-insert-le k v ((i, u) ∷ m) = ground (arith, length-insert-le k v m)

length-insert-there :
    (k v w : ℕ) (m : Nodes) → IsSorted m → find k m ≡ some w → length (insert k v m) ≡ length m
unfolding insert find
length-insert-there k v w [] s f = absurd (ground arith)
length-insert-there k v w ((i, u) ∷ m) s f =
    ground (arith, length-insert-there k v w m s.1, find-Over i k w m s.0)

length-add_vnodes-le :
    (server i n : ℕ) (m : Nodes) → length (add_vnodes server i n m) ≤ length m + n
unfolding add_vnodes
length-add_vnodes-le server i zero m = omega arith
length-add_vnodes-le server i (suc n) m =
    let m' = insert (vnode_hash server i) server m in
    omega (
      arith,
      length-add_vnodes-le server (i + 1) n m',
      length-insert-le (vnode_hash server i) server m,
    )

-- Where a server brings as many nodes as it has virtual nodes, all of them are new.
add_vnodes-fresh :
    (server i n j : ℕ) (m : Nodes)
    → IsSorted m
    → length (add_vnodes server i n m) ≡ length m + n
    → is_vnode server i n j ≡ true
    → find j m ≡ none
unfolding add_vnodes is_vnode
add_vnodes-fresh server i zero j m s e v = absurd (ground arith)
add_vnodes-fresh server i (suc n) j m s e v =
    let k = vnode_hash server i in
    let m' = insert k server m in
    let least = length-add_vnodes-le server (i + 1) n m' in
    let most = length-insert-le k server m in
    let sorted = insert-IsSorted k server m s in
    elim (Bool-cases (k == j)) [
      | inl here ↦ elim (Option-cases (find k m)) [
        | inl free ↦ ground (arith, free)
        | inr (w, there) ↦
            absurd (omega (arith, least, e, length-insert-there k server w m s there))
      ]
      | inr off ↦ ground (
        arith,
        find-insert j k server m,
        add_vnodes-fresh server (i + 1) n j m' sorted (omega (arith, least, e, most))
            (ground arith),
      )
    ]

full_ring : ℕ → Nodes
full_ring zero = []
full_ring (suc n) = add_vnodes n 0 consistent_hash_vnodes (full_ring n)

full_ring_size :
    length (full_ring num_backend_servers) ≡ num_backend_servers * consistent_hash_vnodes
unfolding full_ring hash_key vnode_hash to_string add_vnodes insert
full_ring_size = refl

length-full_ring-le : (n : ℕ) → length (full_ring n) ≤ n * consistent_hash_vnodes
unfolding full_ring
length-full_ring-le zero = omega arith
length-full_ring-le (suc n) =
    omega
      (arith, length-full_ring-le n, length-add_vnodes-le n 0 consistent_hash_vnodes (full_ring n))

full_ring-IsSorted : (n : ℕ) → IsSorted (full_ring n)
unfolding full_ring
full_ring-IsSorted zero = tt
full_ring-IsSorted (suc n) =
    add_vnodes-IsSorted n 0 consistent_hash_vnodes (full_ring n) (full_ring-IsSorted n)

-- So each of the servers brings all its nodes.
length-full_ring :
    (k n : ℕ) → n + k ≡ num_backend_servers → length (full_ring n) ≡ n * consistent_hash_vnodes
unfolding full_ring
length-full_ring zero n e =
    let last : num_backend_servers ≡ n = omega (arith, e) in
    subst (λ x. length (full_ring x) ≡ x * consistent_hash_vnodes) last full_ring_size
length-full_ring (suc k) n e = omega (
  arith,
  length-full_ring k (suc n) (omega (arith, e)),
  length-full_ring-le n,
  length-add_vnodes-le n 0 consistent_hash_vnodes (full_ring n),
)

full_ring_holds :
    (n s j : ℕ)
    → n ≤ num_backend_servers
    → s < n
    → is_vnode s 0 consistent_hash_vnodes j ≡ true
    → find j (full_ring n) ≡ some s
unfolding full_ring
full_ring_holds zero s j h low v = absurd (omega arith)
full_ring_holds (suc n) s j h low v =
    let added = find-add_vnodes n 0 consistent_hash_vnodes j (full_ring n) in
    elim (Bool-cases (s == n)) [
      | inl last ↦
          let same : s ≡ n = ground arith in
          let v' = subst (λ x. is_vnode x 0 consistent_hash_vnodes j ≡ true) same v in
          rw (added, v', same) refl
      | inr before ↦
          let held = full_ring_holds n s j (omega arith) (ground arith) v in
          elim (Bool-cases (is_vnode n 0 consistent_hash_vnodes j)) [
            | inl both ↦
                let all_new : length (full_ring (suc n))
                    ≡ length (full_ring n) + consistent_hash_vnodes =
                  omega (
                    arith,
                    length-full_ring (num_backend_servers - suc n) (suc n) (omega arith),
                    length-full_ring (num_backend_servers - n) n (omega arith),
                  ) in
                let fresh : find j (full_ring n) ≡ none =
                  add_vnodes-fresh n 0 consistent_hash_vnodes j (full_ring n) (full_ring-IsSorted n)
                    all_new both in
                absurd (ground (arith, held, fresh))
            | inr only ↦ rw (added, only) held
          ]
    ]

-- No position is a virtual node of two of the servers.
pub vnodes_differ :
    (s t j : ℕ)
    → s < num_backend_servers
    → t < num_backend_servers
    → is_vnode s 0 consistent_hash_vnodes j ≡ true
    → is_vnode t 0 consistent_hash_vnodes j ≡ true
    → s ≡ t
vnodes_differ s t j a b hs ht = some-injective _ _ (
    sym (full_ring_holds num_backend_servers s j (omega arith) a hs)
    ∙ full_ring_holds num_backend_servers t j (omega arith) b ht)
