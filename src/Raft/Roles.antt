-- ===== src/Raft/Roles.antt =====
-- raft.go: the transitions between the roles of a node, and what they share.
pub mod Terms
pub mod Stored
pub mod Kept
pub mod Works
pub mod Steps
use goraft.Prelude.{
  ℕ, ◌+◌, String, List, [], ◌∷◌, ◌++◌, map, Option, none, some, Bool, true, false, not, ◌&&◌, ◌||◌,
  ltb, str_eq, if◌then◌else◌, add64,
}
use goraft.Prelude.Assoc.{remove, insert}
use goraft.Log.{last_index, next_index, append_entry, new_log_entry, no_op_entry}
use goraft.Lease.{renew}
use goraft.Configuration.{Configuration, votes_in, is_member_of, is_single_server}
use goraft.Future.{not_leader}
use goraft.Operation.{
  OperationManager, new_operation_manager, mark_as_verified, notify_lost_leadership,
}
use goraft.Event.{Event, wake, send_append, send_vote, answer, commit_cond, read_only_cond}
use goraft.Raft.{
  Raft, Follower, new_follower, leader, follower, pre_candidate, candidate, is_leader,
  is_pre_candidate, emit,
}

unfoldable pub persist_term_and_vote : Raft → Raft
persist_term_and_vote r = record r { stored_term = r.current_term; stored_vote = r.voted_for }

-- Files that are read are closed; one that is written is discarded.
unfoldable pub reset_snapshot_files : Raft → Raft
reset_snapshot_files r = record r {
  followers = map (λ f. (f.0, record (f.1) { snapshot = none })) r.followers;
  snapshot = none;
}

-- `notifyLostLeaderShip`, and a new manager.
unfoldable pub cancel_operations : ℕ → Raft → Raft
unfolding notify_lost_leadership new_operation_manager
cancel_operations now r =
    let (m, channels) = notify_lost_leadership r.operation_manager in
    emit (map (λ c. answer c (some not_leader)) channels)
      (record r { operation_manager = new_operation_manager now r.lease_duration })

unfoldable pub become_follower : ℕ → String → ℕ → Raft → Raft
unfolding persist_term_and_vote reset_snapshot_files cancel_operations
become_follower now leader_id term r = cancel_operations now (
    reset_snapshot_files (
      persist_term_and_vote (record r {
        state = follower;
        current_term = term;
        leader_id = leader_id;
        voted_for = "";
      })))

unfoldable pub stepdown : ℕ → Raft → Raft
unfolding cancel_operations
stepdown now r = cancel_operations now (record r { state = follower })

unfoldable pub become_pre_candidate : Raft → Raft
become_pre_candidate r = record r { state = pre_candidate }

unfoldable pub become_candidate : Raft → Raft
unfolding persist_term_and_vote
become_candidate r =
    persist_term_and_vote
      (record r { state = candidate; current_term = add64 r.current_term 1; voted_for = r.id })

unfoldable pub try_apply_read_only_operations : ℕ → Raft → Raft
unfolding mark_as_verified renew
try_apply_read_only_operations now r =
    let m = mark_as_verified r.operation_manager in
    emit (wake read_only_cond ∷ []) (record r {
      operation_manager = record m {
        leader_lease = renew now m.leader_lease;
        should_verify_quorum = true;
      };
    })

-- One event for each member but this node.
unfoldable pub send_appends : String → List (String × String) → List Event
send_appends id [] = []
send_appends id ((peer, address) ∷ m) =
    let rest = send_appends id m in if str_eq peer id then rest else send_append peer ∷ rest

unfoldable pub send_append_entries_to_peers : ℕ → Raft → Raft
unfolding send_appends try_apply_read_only_operations
send_append_entries_to_peers now r =
    let r1 =
      if is_single_server r.configuration r.id
      then try_apply_read_only_operations now
          (if ltb r.commit_index (last_index r.log) then emit (wake commit_cond ∷ []) r else r)
      else r in
    emit (send_appends r.id r.configuration.members) r1

-- The no-op entry of a new term.
abbrev pub append_no_op : Raft → Raft
append_no_op r = record r {
  log = append_entry r.log (new_log_entry (next_index r.log) r.current_term [] no_op_entry);
}

unfoldable pub become_leader : ℕ → Raft → Raft
unfolding new_operation_manager reset_snapshot_files send_append_entries_to_peers
become_leader now r = send_append_entries_to_peers now (
    append_no_op (
      reset_snapshot_files (record r {
        state = leader;
        operation_manager = new_operation_manager now r.lease_duration;
        followers =
            map
              (λ f.
                (f.0, record (f.1) { next_index = add64 (last_index r.log) 1; match_index = 0 }))
              r.followers;
      })))

-- One event for each voting member but this node.
unfoldable pub send_votes : Configuration → String → Bool → List (String × String) → List Event
send_votes c id prevote [] = []
send_votes c id prevote ((peer, address) ∷ m) =
    let rest = send_votes c id prevote m in
    if not (str_eq peer id) && votes_in c peer then send_vote peer prevote ∷ rest else rest

unfoldable pub send_request_vote_to_peers : ℕ → Raft → Raft
unfolding send_votes become_leader
send_request_vote_to_peers now r =
    if is_single_server r.configuration r.id
    then become_leader now r
    else emit (send_votes r.configuration r.id (is_pre_candidate r.state) r.configuration.members) r

-- The followers of the old configuration without the members that the new one lacks.
unfoldable pub drop_removed :
    Configuration → List (String × String) → List (String × Follower) → List (String × Follower)
drop_removed next [] fs = fs
drop_removed next ((peer, address) ∷ m) fs =
    drop_removed next m (if is_member_of next peer then fs else remove peer fs)

-- With an entry for each member that the old configuration lacks.
unfoldable pub add_new :
    Configuration → List (String × String) → List (String × Follower) → List (String × Follower)
add_new old [] fs = fs
add_new old ((peer, address) ∷ m) fs =
    add_new old m (if is_member_of old peer then fs else insert peer new_follower fs)

unfoldable pub next_configuration : ℕ → Configuration → Raft → Raft
unfolding stepdown reset_snapshot_files drop_removed add_new
next_configuration now next r =
    let r1 =
      if is_member_of next r.id
      then r
      else reset_snapshot_files (if is_leader r.state then stepdown now r else r) in
    record r1 {
      followers =
          add_new r.configuration next.members
            (drop_removed next r.configuration.members r1.followers);
      configuration = next;
    }
