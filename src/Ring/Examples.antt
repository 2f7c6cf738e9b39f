-- ===== src/Ring/Examples.antt =====
-- Tests of src/consistent_hash.cpp, and the theorems about it at concrete rings.
use session_affinity_engine.Base.{
  ℕ, ◌≡◌, ◌≢◌, List, ◌∷◌, ◌⊎◌, refl, true, none, some, arith, contains, [],
}
use session_affinity_engine.Text.{Bytes, codes}
use session_affinity_engine.Text.Decimal.{to_string}
use session_affinity_engine.Ring.OrderedMap.{insert, erase, lower_bound, find}
use session_affinity_engine.Ring.Hash.{hash_key, vnode_hash, is_vnode}
use session_affinity_engine.Ring.Lookup.{Owns}
use session_affinity_engine.Ring.Invariant.{
  RingInv, new-RingInv, add_server-RingInv, get_server_clockwise,
}
use session_affinity_engine.Ring.Stability.{Apart, get_server-add_server}
use session_affinity_engine.Ring.Membership.{Change, joins, leaves, changed, run}
use session_affinity_engine.Ring.Rebalance.{
  history, get_server-history, get_server_live, leave_and_return,
}
use session_affinity_engine.Ring.{
  ConsistentHashRing, new, add_vnodes, add_server, remove_id, remove_vnodes, remove_server,
  get_server, has_servers, server_count,
}

-- Published values of FNV-1a over 64 bits.
empty_hash : hash_key [] ≡ 14695981039346656037
unfolding hash_key
empty_hash = refl

a_hash : hash_key (codes "a") ≡ 12638187200555641996
unfolding hash_key
a_hash = refl

program : Unit {0}
unfolding hash_key vnode_hash is_vnode to_string insert erase lower_bound find contains new
    add_vnodes add_server remove_id remove_vnodes remove_server get_server has_servers server_count
    changed run
program = tt

abbrev two : ConsistentHashRing
two = add_server (add_server (new 2) 0) 1

two_count : server_count (add_server two 1) ≡ 2
unfolding program
two_count = refl

abbrev key : Bytes
key = codes "10.0.0.1:1->10.0.0.2:2/TCP"

where_is : get_server two key ≡ some 0
unfolding program
where_is = refl

after_removal : get_server (remove_server two 0) key ≡ some 1
unfolding program
after_removal = refl

no_server : get_server (remove_server (remove_server two 0) 1) key ≡ none
unfolding program
no_server = refl

two-RingInv : RingInv two
two-RingInv = add_server-RingInv _ 1 (add_server-RingInv _ 0 (new-RingInv 2))

zero-Apart-one : Apart two.vnodes_per_server 0 1
unfolding program
zero-Apart-one j h = ground arith

get_server_clockwise_example :
    Owns two.ring (hash_key key) 0 × (contains two.active_servers 0 ≡ true)
get_server_clockwise_example = get_server_clockwise two key 0 two-RingInv where_is

get_server-add_server_example : (◌≡◌ {A = ℕ} 0 1) ⊎ (get_server (add_server (new 2) 0) key ≡ some 0)
get_server-add_server_example =
    get_server-add_server (add_server (new 2) 0) 1 0 key (add_server-RingInv _ 0 (new-RingInv 2))
      where_is

abbrev early : List Change
early = joins 3 ∷ joins 5 ∷ leaves 3 ∷ joins 1 ∷ []

abbrev late : List Change
late = joins 1 ∷ joins 5 ∷ []

same_active :
    (s : ℕ) → contains (history early).active_servers s ≡ contains (history late).active_servers s
unfolding program
same_active s = ground arith

get_server-history_example : get_server (history early) key ≡ get_server (history late) key
get_server-history_example =
    get_server-history early late key (omega arith, (omega arith, (omega arith, (omega arith, tt))))
      (omega arith, (omega arith, tt)) same_active

late_active : contains (history late).active_servers 5 ≡ true
unfolding program
late_active = refl

get_server_live_example :
    (v : ℕ) × ((get_server (history late) key ≡ some v)
      × (contains (history late).active_servers v ≡ true))
get_server_live_example = get_server_live late 5 key (omega arith, (omega arith, tt)) late_active

abbrev holder : ℕ
holder = 5

abbrev leaver : ℕ
leaver = 1

late_server : get_server (history late) key ≡ some holder
unfolding program
late_server = refl

leaver_active : contains (history late).active_servers leaver ≡ true
unfolding program
leaver_active = refl

leave_and_return_example :
    (holder ≢ leaver → get_server (remove_server (history late) leaver) key ≡ some holder)
    × (get_server (add_server (remove_server (history late) leaver) leaver) key ≡ some holder)
leave_and_return_example =
    leave_and_return late leaver holder key (omega arith, (omega arith, tt)) leaver_active
      late_server
