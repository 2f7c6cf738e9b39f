-- ===== src/Ring/Stability.antt =====
-- The keys that a change of the set of servers moves.
use session_affinity_engine.Base.{
  ℕ, ◌≡◌, ◌≢◌, ◌⊎◌, inl, inr, true, false, some, arith, contains, Bool-cases,
}
use session_affinity_engine.Text.{Bytes}
use session_affinity_engine.Ring.OrderedMap.{find}
use session_affinity_engine.Ring.Hash.{hash_key, hash_key-lt, is_vnode}
use session_affinity_engine.Ring.Lookup.{
  clockwise_inj, find-add_vnodes, find-remove_vnodes, Owns, Owns-unique, get_server-Owns,
  get_server-some,
}
use session_affinity_engine.Ring.Invariant.{
  RingInv, RingInv-Within, add_server-RingInv, remove_server-RingInv, get_server_clockwise,
}
use session_affinity_engine.Ring.{ConsistentHashRing, add_server, remove_server, get_server}

-- No position is a virtual node of both servers.
abbrev pub Apart : ℕ → ℕ → ℕ → Type 0
Apart vnodes s t = (j : ℕ) → is_vnode s 0 vnodes j ≡ true → is_vnode t 0 vnodes j ≡ false

-- What is left after a removal stood there before.
find_removed :
    (r : ConsistentHashRing) (s j w : ℕ)
    → find j (remove_server r s).ring ≡ some w
    → find j r.ring ≡ some w
unfolding remove_server
find_removed r s j w f = ground (arith, find-remove_vnodes s 0 r.vnodes_per_server j r.ring)

-- What stands on the ring before a server is added is there afterwards, or the server took its place.
find_added :
    (r : ConsistentHashRing) (s j w : ℕ)
    → find j r.ring ≡ some w
    → (u : ℕ) × (find j (add_server r s).ring ≡ some u)
unfolding add_server
find_added r s j w f = elim (Bool-cases (contains r.active_servers s)) [
  | inl old ↦ (w, rw (old, add_server) f)
  | inr fresh ↦
      rw (fresh, add_server)
        (elim (Bool-cases (is_vnode s 0 r.vnodes_per_server j)) [
          | inl taken ↦ (s, rw (find-add_vnodes s 0 r.vnodes_per_server j r.ring, taken))
          | inr free ↦ (w, rw (find-add_vnodes s 0 r.vnodes_per_server j r.ring, free) f)
        ])
]

find_after_add :
    (r : ConsistentHashRing) (s j w : ℕ)
    → find j (add_server r s).ring ≡ some w
    → (w ≡ s) ⊎ (find j r.ring ≡ some w)
unfolding add_server
find_after_add r s j w f = ground (arith, find-add_vnodes s 0 r.vnodes_per_server j r.ring)

-- On a ring that satisfies the invariant, removing a server leaves every key where it was that another
-- server held, provided that the virtual nodes of the two servers do not collide.
pub get_server-remove_server :
    (r : ConsistentHashRing) (s t : ℕ) (key : Bytes)
    → RingInv r
    → Apart r.vnodes_per_server t s
    → t ≢ s
    → get_server r key ≡ some t
    → get_server (remove_server r s) key ≡ some t
get_server-remove_server r s t key i apart ne e =
    let (o, _) = get_server_clockwise r key t i e in
    let r' = remove_server r s in
    let i' = remove_server-RingInv r s i in
    let on_t = (i.owned o.place t o.held).1 in
    let kept : find o.place r'.ring ≡ some t =
      unfold remove_server in
      ground (
        arith,
        find-remove_vnodes s 0 r.vnodes_per_server o.place r.ring,
        apart o.place on_t,
        o.held,
      ) in
    let (v, found) = get_server-some r' key o.place t kept in
    let stays : Owns r'.ring (hash_key key) t = record {
      place = o.place;
      held = kept;
      nearest = λ j w f. o.nearest j w (find_removed r s j w f);
    } in
    let same : v ≡ t =
      Owns-unique r'.ring (hash_key key) v t (hash_key-lt key) (RingInv-Within r' i')
        (get_server-Owns r' key v i'.sorted (RingInv-Within r' i') found) stays in
    rw same at found

-- On a ring that satisfies the invariant, adding a server moves a key to that server or not at all.
pub get_server-add_server :
    (r : ConsistentHashRing) (s t : ℕ) (key : Bytes)
    → RingInv r
    → get_server (add_server r s) key ≡ some t
    → (t ≡ s) ⊎ (get_server r key ≡ some t)
get_server-add_server r s t key i e =
    let i' = add_server-RingInv r s i in
    let (o', _) = get_server_clockwise (add_server r s) key t i' e in
    elim (find_after_add r s o'.place t o'.held) [
      | inl new ↦ inl new
      | inr before ↦
          let (v, found) = get_server-some r key o'.place t before in
          let (o, _) = get_server_clockwise r key v i found in
          let (u, after) = find_added r s o.place v o.held in
          let same : o'.place ≡ o.place =
            clockwise_inj (hash_key key) o'.place o.place (hash_key-lt key)
              (RingInv-Within r i o'.place t before) (RingInv-Within r i o.place v o.held)
              (omega (arith, o'.nearest o.place u after, o.nearest o'.place t before)) in
          inr (cc (found, before, o.held, same))
    ]
