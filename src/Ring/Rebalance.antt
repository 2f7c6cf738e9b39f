-- ===== src/Ring/Rebalance.antt =====
-- What the answers of the configuration's ring depend on, and what a server that leaves and comes back
-- changes.
use session_affinity_engine.Base.{
  subst, ℕ, ◌<◌, ◌≡◌, ◌≢◌, sym, ◌∙◌, true, some, List, arith, contains, All, Bool-cases, inl, inr,
}
use session_affinity_engine.Config.{num_backend_servers, consistent_hash_vnodes}
use session_affinity_engine.Text.{Bytes}
use session_affinity_engine.Ring.Hash.{vnode_hash, is_vnode}
use session_affinity_engine.Ring.Lookup.{get_server-some}
use session_affinity_engine.Ring.Invariant.{contains-remove_id, get_server_clockwise}
use session_affinity_engine.Ring.Stability.{Apart, get_server-remove_server}
use session_affinity_engine.Ring.Placement.{vnodes_differ}
use session_affinity_engine.Ring.Membership.{
  Change, IsKnown, run, IsPlaced, new-IsPlaced, run-IsPlaced, contains-added, add_server-IsPlaced,
  remove_server-IsPlaced, same_servers,
}
use session_affinity_engine.Ring.{ConsistentHashRing, new, add_server, remove_server, get_server}

-- The ring after a history of joins and leaves.
abbrev pub history : List Change → ConsistentHashRing
history cs = run (new consistent_hash_vnodes) cs

history-IsPlaced : (cs : List Change) → All IsKnown cs → IsPlaced (history cs)
history-IsPlaced cs k = run-IsPlaced (new consistent_hash_vnodes) cs k new-IsPlaced

-- With the 150 virtual nodes of the configuration and server ids below 8, the ring is a function of the set
-- of active servers: after any two histories of `addServer` and `removeServer` that leave the same servers
-- active, in whatever order they came, every key gets the same answer.
pub get_server-history :
    (cs ds : List Change) (key : Bytes)
    → All IsKnown cs
    → All IsKnown ds
    → ((s : ℕ) → contains (history cs).active_servers s ≡ contains (history ds).active_servers s)
    → get_server (history cs) key ≡ get_server (history ds) key
get_server-history cs ds key k k' same =
    same_servers (history cs) (history ds) key (history-IsPlaced cs k) (history-IsPlaced ds k') same

first_vnode : (t : ℕ) → is_vnode t 0 consistent_hash_vnodes (vnode_hash t 0) ≡ true
unfolding is_vnode
first_vnode t = ground arith

-- After any history of `addServer` and `removeServer` with the ids below 8 that leaves some server active,
-- every key has a server, and it is an active one.
pub get_server_live :
    (cs : List Change) (s : ℕ) (key : Bytes)
    → All IsKnown cs
    → contains (history cs).active_servers s ≡ true
    → (v : ℕ) × ((get_server (history cs) key ≡ some v)
        × (contains (history cs).active_servers v ≡ true))
get_server_live cs s key k active =
    let p = history-IsPlaced cs k in
    let node = p.placed s (vnode_hash s 0) active (first_vnode s) in
    let (v, e) = get_server-some (history cs) key (vnode_hash s 0) s node in
    (v, (e, (get_server_clockwise (history cs) key v p.inv e).1))

differ-Apart :
    (s t : ℕ)
    → s < num_backend_servers
    → t < num_backend_servers
    → t ≢ s
    → Apart consistent_hash_vnodes t s
differ-Apart s t hs ht ne j v = elim (Bool-cases (is_vnode s 0 consistent_hash_vnodes j)) [
  | inl both ↦ absurd (ne (vnodes_differ t s j ht hs v both))
  | inr only ↦ only
]

back_again :
    (r : ConsistentHashRing) (s : ℕ)
    → contains r.active_servers s ≡ true
    → (x : ℕ)
    → contains r.active_servers x ≡ contains (add_server (remove_server r s) s).active_servers x
unfolding remove_server
back_again r s active x =
    ground (
      arith,
      contains-added (remove_server r s) s x,
      contains-remove_id s x r.active_servers,
      active,
    )

-- After any history with the ids below 8: when an active server leaves, every key that another server held
-- stays there; and when it comes back, every key has the server that it had before.
pub leave_and_return :
    (cs : List Change) (s t : ℕ) (key : Bytes)
    → All IsKnown cs
    → contains (history cs).active_servers s ≡ true
    → get_server (history cs) key ≡ some t
    → (t ≢ s → get_server (remove_server (history cs) s) key ≡ some t)
      × (get_server (add_server (remove_server (history cs) s) s) key ≡ some t)
leave_and_return cs s t key k active e =
    let r = history cs in
    let p = history-IsPlaced cs k in
    let low = p.known s active in
    let gone = remove_server-IsPlaced r s low p in
    let back = add_server-IsPlaced (remove_server r s) s low gone in
    let known : t < num_backend_servers = p.known t (get_server_clockwise r key t p.inv e).1 in
    (
      λ other.
          get_server-remove_server r s t key p.inv
            (subst (λ n. Apart n t s) (sym p.vnodes) (differ-Apart s t low known other)) other e,
      sym (same_servers r (add_server (remove_server r s) s) key p back (back_again r s active))
          ∙ e,
    )
