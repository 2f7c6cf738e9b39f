-- ===== src/Ring.antt =====
-- src/consistent_hash.{h,cpp}: the ring of virtual nodes and the list of active servers. `size_t` has
-- 64 bits and `char` is signed, as on the x86-64 targets of the Makefile. A server id is a number:
-- the program numbers its backends from 0, and the -1 of `getServer` is `none`.
pub mod OrderedMap
pub mod Hash
pub mod Lookup
pub mod Invariant
pub mod Stability
pub mod Placement
pub mod Membership
pub mod Rebalance
pub mod Examples
use session_affinity_engine.Base.{
  ℕ, zero, suc, ◌+◌, ◌≡◌, Bool, true, false, not, Option, none, some, List, [], ◌∷◌, ◌++◌, ◌==◌,
  if◌then◌else◌, length, contains,
}
use session_affinity_engine.Text.{Bytes}
use OrderedMap.{Nodes, insert, erase, lower_bound}
use Hash.{hash_key, vnode_hash}

pub record ConsistentHashRing : Type 0 where
  pub vnodes_per_server : ℕ
  pub ring : Nodes
  pub active_servers : List ℕ

unfoldable pub new : ℕ → ConsistentHashRing
new vnodes = record { vnodes_per_server = vnodes; ring = []; active_servers = [] }

-- The loops of `addServer` and `removeServer` over the virtual nodes from `i` on.
unfoldable pub add_vnodes : ℕ → ℕ → ℕ → Nodes → Nodes
add_vnodes server i zero m = m
add_vnodes server i (suc rounds) m =
    add_vnodes server (i + 1) rounds (insert (vnode_hash server i) server m)

unfoldable pub remove_vnodes : ℕ → ℕ → ℕ → Nodes → Nodes
remove_vnodes server i zero m = m
remove_vnodes server i (suc rounds) m =
    remove_vnodes server (i + 1) rounds (erase (vnode_hash server i) m)

unfoldable pub add_server : ConsistentHashRing → ℕ → ConsistentHashRing
add_server r server = if contains r.active_servers server then r else record r {
  ring = add_vnodes server 0 r.vnodes_per_server r.ring;
  active_servers = r.active_servers ++ server ∷ [];
}

-- `std::remove` and `erase`.
unfoldable pub remove_id : ℕ → List ℕ → List ℕ
remove_id server [] = []
remove_id server (x ∷ xs) = let rest = remove_id server xs in if x == server then rest else x ∷ rest

unfoldable pub remove_server : ConsistentHashRing → ℕ → ConsistentHashRing
remove_server r server = record r {
  ring = remove_vnodes server 0 r.vnodes_per_server r.ring;
  active_servers = remove_id server r.active_servers;
}

-- The entry clockwise from `h`: the first at or behind it, else the first of all.
walk : ℕ → Nodes → Option ℕ
walk h [] = none
walk h ((k, v) ∷ m) = elim (lower_bound h ((k, v) ∷ m)) [ some e ↦ some e.1 | none ↦ some v ]

unfoldable pub get_server : ConsistentHashRing → Bytes → Option ℕ
unfolding walk
get_server r key = walk (hash_key key) r.ring

unfoldable pub has_servers : ConsistentHashRing → Bool
has_servers r = not (length r.active_servers == 0)

unfoldable pub server_count : ConsistentHashRing → ℕ
server_count r = length r.active_servers
