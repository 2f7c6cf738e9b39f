-- ===== src/Sessions/Examples/Calls.antt =====
-- The theorems about the calls of src/session_manager.cpp other than routeRequest at concrete tables.
use session_affinity_engine.Base.{ℕ, ◌+◌, ◌≡◌, refl, true, false, none, some, [], ◌∷◌, arith}
use session_affinity_engine.FiveTuple.{success, session_blocked}
use session_affinity_engine.Window.{seconds}
use session_affinity_engine.Ring.{remove_server, get_server}
use session_affinity_engine.Sessions.{
  SessionEntry, SessionManager, is_expired, fresh_entry, route_request, next_server, other_backend,
  force_reassign, block_session, set_session_expiry, get_path_history,
}
use session_affinity_engine.Sessions.Passes.{cleanup_expired, handle_server_down}
use session_affinity_engine.Sessions.Routing.{lookup}
use session_affinity_engine.Sessions.Blocking.{cleanup_expired_unblocks, opened}
use session_affinity_engine.Sessions.Reassign.{
  Reassignment, force_reassign_moves, Fate, handle_server_down_evacuates,
}
use session_affinity_engine.Sessions.Handover.{handle_server_down-success}
use session_affinity_engine.Sessions.Audit.{IsAudited}
use session_affinity_engine.Sessions.History.{route, block, cleanup, run, run-new-IsAudited}
use session_affinity_engine.Sessions.Examples.{
  program, two, two-RingInv, one-RingInv, client, key, noon, session, shut_session, holding,
  manager, find_nil, stored, shut_stored, zero_inactive, routed_to, shut_expired,
}

cleanup_expired_unblocks_example :
    let m = holding shut_session in
    let m' = (cleanup_expired m (λ i. seconds 300 + 6)).0 in
    (route_request m two client none 7 8 noon ≡ (m, session_blocked, none))
    × (route_request m' two client none 7 8 noon ≡ opened m' client 7 noon 0)
cleanup_expired_unblocks_example =
    cleanup_expired_unblocks (holding shut_session) (λ i. seconds 300 + 6) (seconds 300 + 6)
      (seconds 300 + 6) two client none 7 8 noon shut_session 0 (find_nil, tt)
      (λ i. (omega arith, omega arith)) shut_stored refl shut_expired routed_to

force_reassign_moves_example :
    Reassignment manager two key 9 noon (force_reassign manager two key 9 noon)
force_reassign_moves_example = force_reassign_moves manager two key 9 noon two-RingInv

handle_server_down_evacuates_example :
    (j : ℕ) × (after : SessionEntry) × (lookup
        (handle_server_down manager (remove_server two 0) 0 (λ i. 7) (λ i. noon))
        key
      ≡ some after)
    × Fate 300 (remove_server two 0) 0 key session 7 7 noon after
handle_server_down_evacuates_example =
    handle_server_down_evacuates manager (remove_server two 0) 0 (λ i. 7) (λ i. noon) key session
      one-RingInv zero_inactive stored

one_left : get_server (remove_server two 0) key ≡ some 1
unfolding program
one_left = refl

young_session : is_expired 300 session 7 ≡ false
unfolding program
young_session = refl

handle_server_down-success_example :
    let m = handle_server_down manager (remove_server two 0) 0 (λ i. 7) (λ i. noon) in
    let r = route_request m (remove_server two 0) client none 8 9 noon in
    (r.1 ≡ success) × (r.2 ≡ some 1)
handle_server_down-success_example =
    handle_server_down-success manager (remove_server two 0) 0 (λ i. 7) (λ i. noon) client session
      none 8 9 noon 1 one-RingInv zero_inactive stored refl refl (λ i. young_session) one_left
      (λ i. omega arith)

run-new-IsAudited_example :
    IsAudited
      (run
        (session_affinity_engine.Sessions.new 300)
        (route two client none 5 6 noon ∷ block key true ∷ cleanup (λ i. 7) ∷ [])).sessions
run-new-IsAudited_example =
    run-new-IsAudited 300 (route two client none 5 6 noon ∷ block key true ∷ cleanup (λ i. 7) ∷ [])
