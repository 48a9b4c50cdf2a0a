-- ===== src/Raft/Client.antt =====
-- raft.go: the operations and membership changes that clients submit. `channel` is the number of
-- the new future's response channel. The codec of configurations is a parameter (the `Transport`
-- interface and protobuf).
pub mod Membership
pub mod Links
use goraft.Prelude.{
  ℕ, String, List, [], ◌∷◌, ◌++◌, Option, none, some, Bool, true, false, not, ◌&&◌, ◌||◌, leb, ◌==◌,
  if◌then◌else◌, Outcome, ok, ◌>>=◌, or_fatal,
}
use goraft.Prelude.Assoc.{insert, remove}
use goraft.Log.{
  Log, new_log_entry, next_index, append_entry, contains, get_entry, operation_entry,
  configuration_entry,
}
use goraft.Configuration.{Configuration, votes_in, is_member_of, clone}
use goraft.Future.{
  Failure, not_leader, pending_configuration, no_commit_this_term, invalid_operation_type,
}
use goraft.Operation.{
  Operation, OperationType, replicated, linearizable_read_only, lease_based_read_only, other_type,
  is_lease_based, is_linearizable,
}
use goraft.Event.{wake, answer, read_only_cond}
use goraft.Raft.{Raft, RpcError, new_follower, is_leader, emit}
use goraft.Raft.Roles.{send_append_entries_to_peers}

abbrev pub fail : ℕ → Failure → Raft → Raft
fail channel e r = emit (answer channel (some e) ∷ []) r

-- A log that contains an index returns its entry.
unfoldable pub committed_this_term : Raft → Bool
committed_this_term r =
    if contains r.log r.commit_index
    then elim (get_entry r.log r.commit_index) [ none ↦ false | some e ↦ e.term == r.current_term ]
    else r.last_included_term == r.current_term

unfoldable pub pending_configuration_change : Raft → Bool
pending_configuration_change r = elim r.committed_configuration [
  | none ↦ true
  | some c ↦ not (c.index == r.configuration.index)
]

-- The index is set in the configuration that is passed on and in its encoding.
unfoldable pub append_configuration :
    (Configuration → Option (List ℕ))
    → Configuration
    → Raft
    → Outcome RpcError (Raft × Configuration)
append_configuration encode c r = do
  let c1 = record c { index = next_index r.log }
  bytes ← or_fatal (encode c1)
  ok (
    record r {
      log = append_entry r.log (new_log_entry c1.index r.current_term bytes configuration_entry);
    },
    c1,
  )

-- The tests that both membership changes make first: the error, or go on.
unfoldable pub refuses_change : Raft → Option Failure
unfolding committed_this_term pending_configuration_change
refuses_change r =
    if not (is_leader r.state)
    then some not_leader
    else if not (committed_this_term r)
    then some no_commit_this_term
    else if pending_configuration_change r
    then some pending_configuration
    else none

unfoldable pub same_status : Bool → Bool → Bool
same_status true b = b
same_status false b = not b

unfoldable pub with_server : String → String → Bool → Configuration → Configuration
unfolding clone
with_server id address voter c =
    let d = clone c in
    record d { members = insert id address d.members; is_voter = insert id voter d.is_voter }

unfoldable pub without_server : String → Configuration → Configuration
unfolding clone
without_server id c =
    let d = clone c in record d { members = remove id d.members; is_voter = remove id d.is_voter }

unfoldable pub add_server :
    (Configuration → Option (List ℕ))
    → ℕ
    → ℕ
    → String
    → String
    → Bool
    → Raft
    → Outcome RpcError Raft
unfolding append_configuration with_server same_status
add_server encode now channel id address voter r = elim (refuses_change r) [
  | some e ↦ ok (fail channel e r)
  | none ↦
      if is_member_of r.configuration id && same_status (votes_in r.configuration id) voter
      then ok (emit (answer channel none ∷ []) r)
      else (do
        appended ← append_configuration encode (with_server id address voter r.configuration) r
        ok (
            send_append_entries_to_peers now (record (appended.0) {
              configuration = appended.1;
              followers = insert id (record new_follower { next_index = 1 }) appended.0.followers;
            })))
]

-- The configuration of the node itself is not replaced here.
unfoldable pub remove_server :
    (Configuration → Option (List ℕ)) → ℕ → ℕ → String → Raft → Outcome RpcError Raft
unfolding append_configuration without_server
remove_server encode now channel id r = elim (refuses_change r) [
  | some e ↦ ok (fail channel e r)
  | none ↦
      if not (is_member_of r.configuration id) then ok (emit (answer channel none ∷ []) r) else (do
        appended ← append_configuration encode (without_server id r.configuration) r
        ok (send_append_entries_to_peers now appended.0))
]

unfoldable pub submit_replicated_operation : ℕ → ℕ → List ℕ → Raft → Raft
submit_replicated_operation now channel bytes r =
    if not (is_leader r.state)
    then fail channel not_leader r
    else (let e = new_log_entry (next_index r.log) r.current_term bytes operation_entry in
        let m = r.operation_manager in
        send_append_entries_to_peers now (record r {
          log = append_entry r.log e;
          operation_manager = record m {
            pending_replicated = (e.index, channel) ∷ m.pending_replicated;
          };
        }))

-- A lease-based read that can be served wakes the read-only loop.
unfoldable pub wake_reader : OperationType → ℕ → Raft → Raft
wake_reader kind read_index r =
    if is_lease_based kind && leb read_index r.last_applied
    then emit (wake read_only_cond ∷ []) r
    else r

-- A linearizable read starts a round of heartbeats, if none is out for this batch.
unfoldable pub verify_quorum : ℕ → OperationType → Raft → Raft
verify_quorum now kind r =
    if is_linearizable kind && r.operation_manager.should_verify_quorum
    then (let r1 = send_append_entries_to_peers now r in
        let m = r1.operation_manager in
        record r1 { operation_manager = record m { should_verify_quorum = false } })
    else r

unfoldable pub submit_read_only_operation : ℕ → ℕ → List ℕ → OperationType → Raft → Raft
unfolding wake_reader verify_quorum
submit_read_only_operation now channel bytes kind r =
    if not (is_leader r.state)
    then fail channel not_leader r
    else (let o : Operation = record {
      bytes = bytes;
      operation_type = kind;
      log_index = 0;
      log_term = 0;
      quorum_verified = false;
      read_index = r.commit_index;
    } in
        let m = r.operation_manager in
        verify_quorum now kind (
          wake_reader kind o.read_index (record r {
            operation_manager = record m { pending_read_only = (o, channel) ∷ m.pending_read_only };
          })))

unfoldable pub submit_operation : ℕ → ℕ → List ℕ → OperationType → Raft → Raft
unfolding submit_replicated_operation submit_read_only_operation
submit_operation now channel bytes replicated r = submit_replicated_operation now channel bytes r
submit_operation now channel bytes linearizable_read_only r =
    submit_read_only_operation now channel bytes linearizable_read_only r
submit_operation now channel bytes lease_based_read_only r =
    submit_read_only_operation now channel bytes lease_based_read_only r
submit_operation now channel bytes (other_type n) r = fail channel invalid_operation_type r
