-- ===== src/Sessions/Examples.antt =====
-- Tests of src/session_manager.cpp, and the theorems about it at concrete tables.
pub mod Calls
pub mod Isolated
use session_affinity_engine.Base.{
  ℕ, ◌+◌, ◌≡◌, ◌⊎◌, refl, true, false, none, some, List, [], ◌∷◌, arith, contains, All, length, map,
  pos,
}
use session_affinity_engine.Text.{Bytes, codes, str_eq}
use session_affinity_engine.Text.Decimal.{to_string}
use session_affinity_engine.Dict.{find, assign, erase}
use session_affinity_engine.FiveTuple.{FiveTuple, to_key, success, session_blocked, reassigned}
use session_affinity_engine.Window.{seconds}
use session_affinity_engine.Ring.OrderedMap.{insert, lower_bound}
use session_affinity_engine.Ring.Hash.{hash_key, vnode_hash}
use session_affinity_engine.Ring.Invariant.{
  RingInv, new-RingInv, add_server-RingInv, remove_server-RingInv,
}
use session_affinity_engine.Ring.{
  ConsistentHashRing, add_vnodes, add_server, remove_id, remove_vnodes, remove_server, get_server,
}
use session_affinity_engine.Sessions.{
  SessionEntry, SessionManager, is_expired, fresh_entry, route_request, next_server, other_backend,
  force_reassign, block_session, set_session_expiry, get_path_history,
}
use session_affinity_engine.Sessions.Passes.{
  count_active, list_active, sweep, active_session_count, get_all_sessions, cleanup_expired,
  redistribute_entry, redistribute, handle_server_down,
}
use session_affinity_engine.Sessions.Routing.{lookup, Answer, route_request-Answer}
use session_affinity_engine.Sessions.Frame.{route_request_frame}
use session_affinity_engine.Sessions.Stickiness.{Request, IsPrompt, answers, affinity}
use session_affinity_engine.Sessions.Expiry.{cleanup_expired_sound, active_sessions-cleanup_expired}
use session_affinity_engine.Sessions.Blocking.{block_session_refuses, cleanup_expired_unblocks}
use session_affinity_engine.Sessions.Reassign.{
  Reassignment, force_reassign_moves, Fate, handle_server_down_evacuates,
}
use session_affinity_engine.Sessions.Handover.{handle_server_down-success}
use session_affinity_engine.Sessions.Audit.{IsAudited}
use session_affinity_engine.Sessions.History.{route, block, cleanup, run, run-new-IsAudited}

program : Unit {0}
unfolding str_eq to_key to_string find assign erase hash_key vnode_hash insert lower_bound contains
    add_vnodes add_server remove_id remove_vnodes remove_server get_server is_expired route_request
    next_server other_backend force_reassign block_session set_session_expiry get_path_history
    count_active list_active sweep active_session_count get_all_sessions cleanup_expired
    redistribute_entry redistribute handle_server_down session_affinity_engine.Ring.new
    session_affinity_engine.Ring.OrderedMap.erase
program = tt

abbrev two : ConsistentHashRing
two = add_server (add_server (session_affinity_engine.Ring.new 2) 0) 1

two-RingInv : RingInv two
two-RingInv = add_server-RingInv _ 1 (add_server-RingInv _ 0 (new-RingInv 2))

one-RingInv : RingInv (remove_server two 0)
one-RingInv = remove_server-RingInv two 0 two-RingInv

abbrev client : FiveTuple
client = record {
  src_ip = codes "10.0.0.1";
  src_port = 1;
  dst_ip = codes "10.0.0.2";
  dst_port = 2;
  protocol = codes "TCP";
}

abbrev neighbour : FiveTuple
neighbour = record client { src_ip = codes "10.0.0.9" }

abbrev key : Bytes
key = to_key client

abbrev noon : Bytes
noon = codes "12:00"

abbrev session : SessionEntry
session = fresh_entry client 0 5 noon

abbrev shut_session : SessionEntry
shut_session = record session { blocked = true }

abbrev holding : SessionEntry → SessionManager
holding entry = record { default_timeout_sec = 300; sessions = (key, entry) ∷ [] }

abbrev manager : SessionManager
manager = holding session

-- The first request of a client makes this table, and later ones find it.
first_request :
    route_request (session_affinity_engine.Sessions.new 300) two client none 5 6 noon
    ≡ (manager, success, some 0)
unfolding program
first_request = refl

-- The backend of the session has left the ring.
lost_backend :
    let (m, status, out) = route_request manager (remove_server two 0) client none 7 8 noon in
    (status ≡ reassigned) × (out ≡ some 1) × (length (get_path_history m key) ≡ 2)
unfolding program
lost_backend = (refl, refl, refl)

-- A reassignment to the other backend, and one that has no other.
forced_away : (force_reassign manager two key 9 noon).1 ≡ true
unfolding program
forced_away = refl

forced_in_vain : force_reassign manager (remove_server two 1) key 9 noon ≡ (manager, false)
unfolding program
forced_in_vain = refl

-- With a timeout of 0 the session has expired a nanosecond after its last request.
custom_expiry : active_session_count (set_session_expiry manager key (pos 0)).0 (λ i. 6) ≡ 0
unfolding program
custom_expiry = refl

find_nil : find {V = SessionEntry} key [] ≡ none
unfolding program
find_nil = refl

stored : lookup manager key ≡ some session
unfolding program
stored = refl

shut_stored : lookup (holding shut_session) key ≡ some shut_session
unfolding program
shut_stored = refl

zero_active : contains two.active_servers 0 ≡ true
unfolding program
zero_active = refl

zero_inactive : contains (remove_server two 0).active_servers 0 ≡ false
unfolding program
zero_inactive = refl

other_key : str_eq (to_key client) (to_key neighbour) ≡ false
unfolding program
other_key = refl

routed_to : get_server two key ≡ some 0
unfolding program
routed_to = refl

shut_expired : is_expired 300 shut_session (seconds 300 + 6) ≡ true
unfolding program
shut_expired = refl

abbrev requests : List Request
requests =
    record { tuple = client; now = 8; later = 9; stamp = noon }
    ∷ record { tuple = neighbour; now = 10; later = 11; stamp = noon }
    ∷ record { tuple = client; now = 12; later = 13; stamp = noon }
    ∷ []

prompt : IsPrompt key 300 5 requests
unfolding program
prompt = (λ e. omega arith, (λ e. omega arith, (λ e. omega arith, tt)))

affinity_example : All (λ a. a ≡ (success, some 0)) (answers key manager two requests)
affinity_example = affinity key manager two session requests stored refl zero_active prompt

route_request-Answer_example :
    Answer manager
      (remove_server two 0)
      key
      none
      7
      (route_request manager (remove_server two 0) client none 7 8 noon)
route_request-Answer_example =
    route_request-Answer manager (remove_server two 0) client none 7 8 noon one-RingInv
