-- ===== src/Raft/Roles/Kept.antt =====
-- Terms, votes and roles, in the handlers of the leader, of clients and of snapshots.
use goraft.Prelude.{
  ℕ, zero, suc, ◌≡◌, refl, String, List, Option, none, some, Bool, true, false, add64, ◌-◌, Outcome,
  ok, err, fatal, arith,
}
use goraft.Log.{LogEntry, get_entry, last_index, discard_entries}
use goraft.Configuration.{Configuration}
use goraft.Operation.{
  Operation, OperationType, replicated, linearizable_read_only, lease_based_read_only, other_type,
}
use goraft.Requests.{InstallSnapshotRequest, InstallSnapshotResponse}
use goraft.Raft.{Raft, RpcError, SnapshotFile}
use goraft.Raft.Roles.{become_follower, send_append_entries_to_peers, reset_snapshot_files}
use goraft.Raft.Roles.Terms.{send_append_entries_to_peers-Frame}
use goraft.Raft.Roles.Stored.{IsStoredVote, IsAs, IsAs-refl, next_configuration-IsAs}
use goraft.Raft.Commit.{commit_round, commit_scan, finish_round}
use goraft.Raft.Client.{
  append_configuration, fail, submit_operation, submit_replicated_operation,
  submit_read_only_operation, add_server, remove_server, verify_quorum, wake_reader,
}
use goraft.Raft.Apply.{
  Applying, apply_configuration, apply_entry, begin_operation, count_applied, begin_apply,
  end_apply,
}
use goraft.Raft.Reads.{begin_reads}
use goraft.Raft.Snapshot.{
  Installing, install_snapshot_handler, receive_snapshot, complete_snapshot, recognise_sender,
  receiving_file, end_wait, end_restore, end_snapshot,
}
use goraft.Raft.Snapshot.Install.{state_of}

send_append_entries_to_peers-IsAs :
    (now : ℕ) (x r : Raft) → IsAs x r → IsAs x (send_append_entries_to_peers now r)
send_append_entries_to_peers-IsAs now x r h =
    let (f, _, state, _, _) = send_append_entries_to_peers-Frame now r in
    ground (
      arith, f.same_id, f.same_current_term, f.same_voted_for, f.same_stored_term,
      f.same_stored_vote, f.same_last_contact, f.same_election_timeout,
    )

commit_scan-IsAs :
    (n i : ℕ) (x r s : Raft) (b c : Bool) → IsAs x r → commit_scan n i r b ≡ ok (s, c) → IsAs x s
unfolding commit_scan
commit_scan-IsAs zero i x r s b c h k = ground arith
commit_scan-IsAs (suc n) i x r s b c h k = ground (
  arith,
  commit_scan-IsAs n (add64 i 1) x (record r { commit_index = i }) s true c h,
  commit_scan-IsAs n (add64 i 1) x r s b c h,
)

finish_round-IsAs : (now : ℕ) (x r : Raft) (b : Bool) → IsAs x r → IsAs x (finish_round now r b)
unfolding finish_round
finish_round-IsAs now x r false h = h
finish_round-IsAs now x r true h = send_append_entries_to_peers-IsAs now x _ h

verify_quorum-IsAs :
    (now : ℕ) (t : OperationType) (x r : Raft) → IsAs x r → IsAs x (verify_quorum now t r)
unfolding verify_quorum
verify_quorum-IsAs now t x r h = ground (arith, send_append_entries_to_peers-IsAs now x r h)

submit_read_only_operation-IsAs :
    (now channel : ℕ) (bytes : List ℕ) (t : OperationType) (x r : Raft)
    → IsAs x r
    → IsAs x (submit_read_only_operation now channel bytes t r)
unfolding submit_read_only_operation wake_reader verify_quorum send_append_entries_to_peers
submit_read_only_operation-IsAs now channel bytes t x r h = ground arith

submit_replicated_operation-IsAs :
    (now channel : ℕ) (bytes : List ℕ) (x r : Raft)
    → IsAs x r
    → IsAs x (submit_replicated_operation now channel bytes r)
unfolding submit_replicated_operation send_append_entries_to_peers
submit_replicated_operation-IsAs now channel bytes x r h = ground arith

pub add_server-IsAs :
    (encode : Configuration → Option (List ℕ)) (now channel : ℕ) (id address : String)
    (voter : Bool) (x r s : Raft)
    → IsAs x r
    → add_server encode now channel id address voter r ≡ ok s
    → IsAs x s
unfolding add_server append_configuration fail send_append_entries_to_peers
add_server-IsAs encode now channel id address voter x r s h k = ground arith

pub remove_server-IsAs :
    (encode : Configuration → Option (List ℕ)) (now channel : ℕ) (id : String) (x r s : Raft)
    → IsAs x r
    → remove_server encode now channel id r ≡ ok s
    → IsAs x s
unfolding remove_server append_configuration fail send_append_entries_to_peers
remove_server-IsAs encode now channel id x r s h k = ground arith

pub end_apply-IsAs :
    (need : ℕ → Bool) (o : Operation) (channel : Option ℕ) (n : ℕ) (x r : Raft)
    → IsAs x r
    → IsAs x (end_apply need o channel n r)
unfolding end_apply
end_apply-IsAs need o channel n x r h = ground arith

apply_configuration-IsAs :
    (now : ℕ) (c : Configuration) (x r : Raft) → IsAs x r → IsAs x (apply_configuration now c r)
unfolding apply_configuration
apply_configuration-IsAs now c x r h = ground (arith, next_configuration-IsAs now c x r h)

pub end_wait-IsAs :
    (q : InstallSnapshotRequest) (x r s : Raft) → IsAs x r → end_wait q r ≡ ok s → IsAs x s
unfolding end_wait
end_wait-IsAs q x r s h k = ground arith

pub end_snapshot-IsAs :
    (f : SnapshotFile) (x r s : Raft) → IsAs x r → end_snapshot f r ≡ ok s → IsAs x s
unfolding end_snapshot reset_snapshot_files
end_snapshot-IsAs f x r s h k = ground arith

recognise_sender-IsStoredVote :
    (now : ℕ) (q : InstallSnapshotRequest) (r : Raft)
    → IsStoredVote r
    → IsStoredVote (recognise_sender now q r)
unfolding recognise_sender become_follower
recognise_sender-IsStoredVote now q r h = ground arith

pub receive_snapshot-IsAs :
    (q : InstallSnapshotRequest) (f : SnapshotFile) (x r : Raft)
    → IsAs x r
    → IsAs x (state_of (receive_snapshot q f r).0)
unfolding receive_snapshot complete_snapshot
receive_snapshot-IsAs q f x r h = ground arith

pub submit_operation-IsAs :
    (now channel : ℕ) (bytes : List ℕ) (t : OperationType) (x r : Raft)
    → IsAs x r
    → IsAs x (submit_operation now channel bytes t r)
unfolding submit_operation
submit_operation-IsAs now channel bytes replicated x r h =
    submit_replicated_operation-IsAs now channel bytes x r h
submit_operation-IsAs now channel bytes linearizable_read_only x r h =
    submit_read_only_operation-IsAs now channel bytes linearizable_read_only x r h
submit_operation-IsAs now channel bytes lease_based_read_only x r h =
    submit_read_only_operation-IsAs now channel bytes lease_based_read_only x r h
submit_operation-IsAs now channel bytes (other_type n) x r h = ground arith

pub commit_round-IsAs : (now : ℕ) (x r s : Raft) → IsAs x r → commit_round now r ≡ ok s → IsAs x s
unfolding commit_round
commit_round-IsAs now x r s h k =
    go (commit_scan (last_index r.log - r.commit_index) (add64 r.commit_index 1) r false) refl
  where
    go :
        (y : Outcome RpcError (Raft × Bool))
        → commit_scan (last_index r.log - r.commit_index) (add64 r.commit_index 1) r false ≡ y
        → IsAs x s
    go (ok p) found = ground (
      arith,
      finish_round-IsAs now x p.0 p.1 (
          commit_scan-IsAs (last_index r.log - r.commit_index) (add64 r.commit_index 1) x r p.0
            false p.1 h found),
    )
    go (err y) found = ground arith
    go fatal found = ground arith

pub end_restore-IsAs :
    (decode : List ℕ → Option Configuration) (now : ℕ) (q : InstallSnapshotRequest) (x r s : Raft)
    → IsAs x r
    → end_restore decode now q r ≡ ok s
    → IsAs x s
unfolding end_restore
end_restore-IsAs decode now q x r s h k = go (decode q.configuration) refl
  where
    go : (o : Option Configuration) → decode q.configuration ≡ o → IsAs x s
    go none found = ground arith
    go (some c) found = ground (
      arith,
      apply_configuration-IsAs now c x
          (record r {
            last_applied = q.last_included_index;
            commit_index = q.last_included_index;
            log = discard_entries r.log q.last_included_index q.last_included_term;
          })
          h,
    )

pub install_snapshot_handler-IsStoredVote :
    (now : ℕ) (q : InstallSnapshotRequest) (r : Raft) (i : Installing) (a : InstallSnapshotResponse)
    → IsStoredVote r
    → install_snapshot_handler now q r ≡ ok (i, a)
    → IsStoredVote (state_of i)
unfolding install_snapshot_handler
install_snapshot_handler-IsStoredVote now q r i a h k =
    let s = recognise_sender now q r in
    ground (
      arith,
      recognise_sender-IsStoredVote now q r h,
      receive_snapshot-IsAs q (receiving_file now q s.snapshot) s s (IsAs-refl s),
    )

abbrev pub applying_state : Applying → Raft
applying_state (Applying.waits r) = r
applying_state (Applying.applied r) = r
applying_state (Applying.applies o channel n r) = r

apply_entry-IsAs :
    (decode : List ℕ → Option Configuration) (need : ℕ → Bool) (now : ℕ) (e : LogEntry) (x r : Raft)
    (a : Applying)
    → IsAs x r
    → apply_entry decode need now e r ≡ ok a
    → IsAs x (applying_state a)
unfolding apply_entry begin_operation count_applied
apply_entry-IsAs decode need now e x r a h k = go (decode e.data_bytes) refl
  where
    go : (o : Option Configuration) → decode e.data_bytes ≡ o → IsAs x (applying_state a)
    go none found = ground arith
    go (some c) found = ground (arith, apply_configuration-IsAs now c x r h)

pub begin_apply-IsAs :
    (decode : List ℕ → Option Configuration) (need : ℕ → Bool) (now : ℕ) (x r : Raft) (a : Applying)
    → IsAs x r
    → begin_apply decode need now r ≡ ok a
    → IsAs x (applying_state a)
unfolding begin_apply
begin_apply-IsAs decode need now x r a h k = go (get_entry r.log (add64 r.last_applied 1)) refl
  where
    go :
        (o : Option LogEntry)
        → get_entry r.log (add64 r.last_applied 1) ≡ o
        → IsAs x (applying_state a)
    go none found = ground arith
    go (some e) found = ground (arith, apply_entry-IsAs decode need now e x r a h)

pub begin_reads-IsAs : (x r : Raft) → IsAs x r → IsAs x (begin_reads r).0
unfolding begin_reads
begin_reads-IsAs x r h = ground arith
