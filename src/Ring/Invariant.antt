-- ===== src/Ring/Invariant.antt =====
-- The invariant of the ring: its nodes, and the servers that are active.
use session_affinity_engine.Base.{
  ℕ, ◌≡◌, ◌≢◌, refl, true, false, ◌||◌, some, List, [], ◌∷◌, ◌++◌, arith, ◌==◌, if◌then◌else◌,
  contains, Distinct, Bool-cases, inl, inr,
}
use session_affinity_engine.Text.{Bytes}
use session_affinity_engine.Ring.OrderedMap.{find, IsSorted}
use session_affinity_engine.Ring.Hash.{hash_key, is_vnode}
use session_affinity_engine.Ring.Lookup.{
  find-add_vnodes, find-remove_vnodes, add_vnodes-IsSorted, remove_vnodes-IsSorted, is_vnode-lt,
  Owns, Within, get_server-Owns,
}
use session_affinity_engine.Ring.{
  ConsistentHashRing, new, add_server, remove_id, remove_server, get_server,
}

pub contains-append :
    (xs : List ℕ) (y a : ℕ) → contains (xs ++ y ∷ []) a ≡ (contains xs a || y == a)
unfolding contains
contains-append [] y a = ground arith
contains-append (x ∷ xs) y a = ground (arith, contains-append xs y a)

pub contains-remove_id :
    (s a : ℕ) (xs : List ℕ)
    → contains (remove_id s xs) a ≡ (if s == a then false else contains xs a)
unfolding contains remove_id
contains-remove_id s a [] = ground arith
contains-remove_id s a (x ∷ xs) = ground (arith, contains-remove_id s a xs)

Distinct-append :
    (xs : List ℕ) (y : ℕ) → contains xs y ≡ false → Distinct xs → Distinct (xs ++ y ∷ [])
unfolding contains
Distinct-append [] y h d = (refl, tt)
Distinct-append (x ∷ xs) y h d =
    ground (arith, Distinct-append xs y, contains-append xs y x, d.0, d.1)

Distinct-remove_id : (s : ℕ) (xs : List ℕ) → Distinct xs → Distinct (remove_id s xs)
unfolding remove_id
Distinct-remove_id s [] d = tt
Distinct-remove_id s (x ∷ xs) d =
    ground (arith, Distinct-remove_id s xs d.1, contains-remove_id s x xs, d.0)

-- Every node stands at a virtual node of an active server.
pub record RingInv (r : ConsistentHashRing) : Type 0 where
  pub sorted : IsSorted r.ring
  pub distinct : Distinct r.active_servers
  pub owned :
      (j v : ℕ)
      → find j r.ring ≡ some v
      → (contains r.active_servers v ≡ true) × (is_vnode v 0 r.vnodes_per_server j ≡ true)

pub RingInv-Within : (r : ConsistentHashRing) → RingInv r → Within r.ring
RingInv-Within r i j w f = is_vnode-lt w 0 r.vnodes_per_server j (i.owned j w f).1

pub new-RingInv : (vnodes : ℕ) → RingInv (new vnodes)
unfolding new find
new-RingInv vnodes = record { sorted = tt; distinct = tt; owned = λ j v f. absurd (ground arith) }

pub add_server-RingInv : (r : ConsistentHashRing) (s : ℕ) → RingInv r → RingInv (add_server r s)
unfolding add_server
add_server-RingInv r s i = elim (Bool-cases (contains r.active_servers s)) [
  | inl old ↦ rw (old, add_server) i
  | inr fresh ↦
      rw (fresh, add_server)
        (record {
          sorted = add_vnodes-IsSorted s 0 r.vnodes_per_server r.ring i.sorted;
          distinct = Distinct-append r.active_servers s fresh i.distinct;
          owned = λ j v f. ground (
            arith,
            find-add_vnodes s 0 r.vnodes_per_server j r.ring,
            contains-append r.active_servers s v,
            i.owned j v,
            f,
          );
        })
]

pub remove_server-RingInv :
    (r : ConsistentHashRing) (s : ℕ) → RingInv r → RingInv (remove_server r s)
unfolding remove_server
remove_server-RingInv r s i = record {
  sorted = remove_vnodes-IsSorted s 0 r.vnodes_per_server r.ring i.sorted;
  distinct = Distinct-remove_id s r.active_servers i.distinct;
  owned = λ j v f. ground (
    arith,
    find-remove_vnodes s 0 r.vnodes_per_server j r.ring,
    contains-remove_id s v r.active_servers,
    i.owned j v,
    f,
  );
}

-- On a ring that satisfies the invariant `getServer` returns active servers only, and the one that it
-- returns owns the first node clockwise from the key's hash.
pub get_server_clockwise :
    (r : ConsistentHashRing) (key : Bytes) (v : ℕ)
    → RingInv r
    → get_server r key ≡ some v
    → Owns r.ring (hash_key key) v × (contains r.active_servers v ≡ true)
get_server_clockwise r key v i e =
    let o = get_server-Owns r key v i.sorted (RingInv-Within r i) e in
    (o, (i.owned o.place v o.held).0)

-- After `removeServer` the ring satisfies the invariant again, and no key is routed to that server.
pub get_server_removed :
    (r : ConsistentHashRing) (s : ℕ) (key : Bytes)
    → RingInv r
    → RingInv (remove_server r s) × (get_server (remove_server r s) key ≢ some s)
unfolding remove_server
get_server_removed r s key i =
    let i' = remove_server-RingInv r s i in
    (
      i',
      λ e.
          let a = (get_server_clockwise (remove_server r s) key s i' e).1 in
          ground (arith, a, contains-remove_id s s r.active_servers),
    )
