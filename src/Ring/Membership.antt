-- ===== src/Ring/Membership.antt =====
-- The ring of the configuration over any history of servers that join and leave: its invariant.
use session_affinity_engine.Base.{
  subst, ℕ, ◌<◌, ◌≡◌, ◌≢◌, refl, sym, ap, ◌∙◌, true, false, none, some, List, [], ◌∷◌, ◌==◌,
  if◌then◌else◌, arith, contains, All, Bool-cases, Option-cases, inl, inr,
}
use session_affinity_engine.Config.{num_backend_servers, consistent_hash_vnodes}
use session_affinity_engine.Text.{Bytes}
use session_affinity_engine.Ring.OrderedMap.{find}
use session_affinity_engine.Ring.Hash.{hash_key, hash_key-lt, is_vnode}
use session_affinity_engine.Ring.Lookup.{
  Owns, Owns-unique, get_server-some, find-add_vnodes, find-remove_vnodes,
}
use session_affinity_engine.Ring.Invariant.{
  RingInv, RingInv-Within, new-RingInv, add_server-RingInv, remove_server-RingInv, contains-append,
  contains-remove_id, get_server_clockwise,
}
use session_affinity_engine.Ring.Placement.{vnodes_differ}
use session_affinity_engine.Ring.{
  ConsistentHashRing, new, add_server, remove_id, remove_server, get_server,
}

pub data Change : Type 0 where
  joins leaves : ℕ → Change

abbrev pub IsKnown : Change → Type 0
IsKnown (joins s) = s < num_backend_servers
IsKnown (leaves s) = s < num_backend_servers

unfoldable pub changed : ConsistentHashRing → Change → ConsistentHashRing
changed r (joins s) = add_server r s
changed r (leaves s) = remove_server r s

unfoldable pub run : ConsistentHashRing → List Change → ConsistentHashRing
run r [] = r
run r (c ∷ cs) = run (changed r c) cs

-- The active servers stand at all their virtual nodes, and nothing else is on the ring.
pub record IsPlaced (r : ConsistentHashRing) : Type 0 where
  pub inv : RingInv r
  pub vnodes : r.vnodes_per_server ≡ consistent_hash_vnodes
  pub known : (s : ℕ) → contains r.active_servers s ≡ true → s < num_backend_servers
  pub placed :
      (s j : ℕ)
      → contains r.active_servers s ≡ true
      → is_vnode s 0 consistent_hash_vnodes j ≡ true
      → find j r.ring ≡ some s

pub new-IsPlaced : IsPlaced (new consistent_hash_vnodes)
unfolding new contains
new-IsPlaced = record {
  inv = new-RingInv consistent_hash_vnodes;
  vnodes = refl;
  known = λ s a. absurd (ground arith);
  placed = λ s j a v. absurd (ground arith);
}

pub contains-added :
    (r : ConsistentHashRing) (s t : ℕ)
    → contains (add_server r s).active_servers t
      ≡ (if s == t then true else contains r.active_servers t)
unfolding add_server
contains-added r s t = ground (arith, contains-append r.active_servers s t)

module _ (r : ConsistentHashRing) (s : ℕ) (low : s < num_backend_servers) (p : IsPlaced r) where
  find-added :
      (j : ℕ)
      → contains r.active_servers s ≡ false
      → find j (add_server r s).ring
        ≡ (if is_vnode s 0 consistent_hash_vnodes j then some s else find j r.ring)
  unfolding add_server
  find-added j fresh =
      subst
        (λ n. find j (add_server r s).ring ≡ (if is_vnode s 0 n j then some s else find j r.ring))
        p.vnodes (rw (fresh, add_server) (find-add_vnodes s 0 r.vnodes_per_server j r.ring))

  find-removed :
      (j : ℕ)
      → find j (remove_server r s).ring
        ≡ (if is_vnode s 0 consistent_hash_vnodes j then none else find j r.ring)
  unfolding remove_server
  find-removed j =
      subst
        (λ n. find j (remove_server r s).ring ≡ (if is_vnode s 0 n j then none else find j r.ring))
        p.vnodes (find-remove_vnodes s 0 r.vnodes_per_server j r.ring)

  add_server-placed :
      (t j : ℕ)
      → contains r.active_servers s ≡ false
      → contains (add_server r s).active_servers t ≡ true
      → is_vnode t 0 consistent_hash_vnodes j ≡ true
      → find j (add_server r s).ring ≡ some t
  add_server-placed t j fresh a v = elim (Bool-cases (is_vnode s 0 consistent_hash_vnodes j)) [
    | inl both ↦
        let known : t < num_backend_servers =
          ground (arith, contains-added r s t, p.known t, low) in
        let same = vnodes_differ t s j known low v both in
        rw (find-added j fresh, both) (ap some (sym same))
    | inr only ↦ ground (arith, find-added j fresh, contains-added r s t, p.placed t j)
  ]

  pub add_server-IsPlaced : IsPlaced (add_server r s)
  unfolding add_server
  add_server-IsPlaced = elim (Bool-cases (contains r.active_servers s)) [
    | inl old ↦ rw (old, add_server) p
    | inr fresh ↦ record {
      inv = add_server-RingInv r s p.inv;
      vnodes = rw (fresh, add_server) p.vnodes;
      known = λ t a. ground (arith, contains-added r s t, p.known t);
      placed = λ t j a v. add_server-placed t j fresh a v;
    }
  ]

  remove_server-placed :
      (t j : ℕ)
      → contains (remove_id s r.active_servers) t ≡ true
      → is_vnode t 0 consistent_hash_vnodes j ≡ true
      → find j (remove_server r s).ring ≡ some t
  remove_server-placed t j a v =
      let still : contains r.active_servers t ≡ true =
        ground (arith, contains-remove_id s t r.active_servers) in
      let other : s ≢ t = ground (arith, contains-remove_id s t r.active_servers) in
      elim (Bool-cases (is_vnode s 0 consistent_hash_vnodes j)) [
        | inl both ↦ absurd (other (sym (vnodes_differ t s j (p.known t still) low v both)))
        | inr only ↦ rw (find-removed j, only) (p.placed t j still v)
      ]

  pub remove_server-IsPlaced : IsPlaced (remove_server r s)
  unfolding remove_server
  remove_server-IsPlaced = record {
    inv = remove_server-RingInv r s p.inv;
    vnodes = p.vnodes;
    known = λ t a. ground (arith, contains-remove_id s t r.active_servers, p.known t);
    placed = remove_server-placed;
  }

pub run-IsPlaced :
    (r : ConsistentHashRing) (cs : List Change) → All IsKnown cs → IsPlaced r → IsPlaced (run r cs)
unfolding run changed
run-IsPlaced r [] k p = p
run-IsPlaced r (joins s ∷ cs) k p =
    run-IsPlaced (add_server r s) cs k.1 (add_server-IsPlaced r s k.0 p)
run-IsPlaced r (leaves s ∷ cs) k p =
    run-IsPlaced (remove_server r s) cs k.1 (remove_server-IsPlaced r s k.0 p)

-- Two rings with the same active servers have the same nodes.
same_nodes :
    (q r : ConsistentHashRing)
    → IsPlaced q
    → IsPlaced r
    → ((s : ℕ) → contains q.active_servers s ≡ contains r.active_servers s)
    → (j v : ℕ) → find j q.ring ≡ some v
    → find j r.ring ≡ some v
same_nodes q r p p' same j v f =
    let (active, node) = p.inv.owned j v f in
    p'.placed v j (sym (same v) ∙ active) (subst (λ n. is_vnode v 0 n j ≡ true) p.vnodes node)

some_server :
    (q r : ConsistentHashRing) (key : Bytes) (v : ℕ)
    → IsPlaced q
    → IsPlaced r
    → ((s : ℕ) → contains q.active_servers s ≡ contains r.active_servers s)
    → get_server q key ≡ some v
    → get_server r key ≡ some v
some_server q r key v p p' same e =
    let (o, _) = get_server_clockwise q key v p.inv e in
    let there = same_nodes q r p p' same o.place v o.held in
    let (u, found) = get_server-some r key o.place v there in
    let (o', _) = get_server_clockwise r key u p'.inv found in
    let moved : Owns r.ring (hash_key key) v = record {
      place = o.place;
      held = there;
      nearest = λ j w f. o.nearest j w (same_nodes r q p' p (λ s. sym (same s)) j w f);
    } in
    found
    ∙ ap some
        (Owns-unique r.ring (hash_key key) u v (hash_key-lt key) (RingInv-Within r p'.inv) o' moved)

pub same_servers :
    (q r : ConsistentHashRing) (key : Bytes)
    → IsPlaced q
    → IsPlaced r
    → ((s : ℕ) → contains q.active_servers s ≡ contains r.active_servers s)
    → get_server q key ≡ get_server r key
same_servers q r key p p' same = elim (Option-cases (get_server q key)) [
  | inr (v, e) ↦ e ∙ sym (some_server q r key v p p' same e)
  | inl e ↦ elim (Option-cases (get_server r key)) [
    | inl e' ↦ e ∙ sym e'
    | inr (v, e') ↦ some_server r q key v p' p (λ s. sym (same s)) e' ∙ sym e'
  ]
]
