-- ===== src/Raft/Snapshot.antt =====
-- raft.go: `InstallSnapshot` and `takeSnapshot`, with the snapshot files of snapshot_storage.go
-- that they use. Each is cut where it gives the lock away: to wait for the apply loop, or for the
-- state machine. The codec of configurations is a parameter.
pub mod Install
pub mod Logs
pub mod Sending
use goraft.Prelude.{
  ℕ, ◌+◌, List, [], ◌∷◌, ◌++◌, length, take, Option, none, some, Bool, true, false, not, ◌&&◌, ◌||◌,
  ltb, leb, ◌==◌, if◌then◌else◌, Outcome, ok, err, fatal, ◌>>=◌, or_fatal,
}
use goraft.Log.{Log, LogEntry, get_entry, compact, discard_entries}
use goraft.Configuration.{Configuration}
use goraft.Requests.{InstallSnapshotRequest, InstallSnapshotResponse}
use goraft.Raft.{
  Raft, RpcError, is_down, SnapshotFile, SnapshotMetadata, is_shutdown, is_candidate,
  is_pre_candidate,
}
use goraft.Raft.Roles.{become_follower, reset_snapshot_files}
use goraft.Raft.Apply.{apply_configuration}

unfoldable pub new_snapshot_file : ℕ → SnapshotMetadata → SnapshotFile
new_snapshot_file now m = record { metadata = m; contents = []; position = 0; created = now }

-- A write to a new file at its position, which is its end.
unfoldable pub write_snapshot : List ℕ → SnapshotFile → SnapshotFile
write_snapshot bytes f = record f {
  contents = f.contents ++ bytes;
  position = f.position + length bytes;
}

-- A closed file is renamed into the directory, where the name's time orders it.
unfoldable pub store_snapshot : SnapshotFile → List SnapshotFile → List SnapshotFile
store_snapshot f [] = f ∷ []
store_snapshot f (g ∷ gs) =
    let rest = store_snapshot f gs in if leb g.created f.created then f ∷ g ∷ gs else g ∷ rest

-- The leader of the request's term is recognised.
unfoldable pub recognise_sender : ℕ → InstallSnapshotRequest → Raft → Raft
recognise_sender now q r =
    let r1 = if ltb r.current_term q.term then become_follower now q.leader_id q.term r else r in
    let r2 =
      if (q.term == r1.current_term) && (is_candidate r1.state || is_pre_candidate r1.state)
      then become_follower now q.leader_id q.term r1
      else r1 in
    record r2 { last_contact = now }

-- The file that the request goes on with: an older incomplete one is discarded.
unfoldable pub receiving_file : ℕ → InstallSnapshotRequest → Option SnapshotFile → SnapshotFile
unfolding new_snapshot_file
receiving_file now q current =
    let fresh = new_snapshot_file now (record {
      last_included_index = q.last_included_index;
      last_included_term = q.last_included_term;
      configuration = q.configuration;
    }) in
    elim current [
      | none ↦ fresh
      | some f ↦ if ltb f.metadata.last_included_index q.last_included_index then fresh else f
    ]

-- How far the handler gets before it gives the lock away: it returns; it waits until the log is
-- applied up to the snapshot; or the state machine restores the snapshot.
pub data Installing : Type 0 where
  returns waits restores : Raft → Installing

-- The log has the snapshot's last entry.
unfoldable pub has_included : Log → ℕ → ℕ → Bool
has_included l index term = elim (get_entry l index) [ none ↦ false | some e ↦ e.term == term ]

-- The file is complete.
unfoldable pub complete_snapshot : InstallSnapshotRequest → SnapshotFile → Raft → Installing
unfolding store_snapshot has_included
complete_snapshot q f r =
    let r1 = record r {
      stored_snapshots = store_snapshot f r.stored_snapshots;
      snapshot = none;
      last_included_index = q.last_included_index;
      last_included_term = q.last_included_term;
    } in
    if has_included r1.log q.last_included_index q.last_included_term then waits r1 else restores r1

-- Past the tests on the term and on what is already there.
unfoldable pub receive_snapshot :
    InstallSnapshotRequest → SnapshotFile → Raft → Installing × InstallSnapshotResponse
unfolding write_snapshot complete_snapshot
receive_snapshot q f r =
    if not (q.offset == f.position)
    then (
      returns (record r { snapshot = some f }),
      record { term = r.current_term; bytes_written = f.position },
    )
    else (let g = write_snapshot q.bytes f in
        (
          if q.done then complete_snapshot q g r else returns (record r { snapshot = some g }),
          record { term = r.current_term; bytes_written = g.position },
        ))

unfoldable pub install_snapshot_handler :
    ℕ → InstallSnapshotRequest → Raft → Outcome RpcError (Installing × InstallSnapshotResponse)
unfolding recognise_sender receiving_file receive_snapshot
install_snapshot_handler now q r =
    if is_shutdown r.state
    then err is_down
    else if ltb q.term r.current_term
    then ok (returns r, record { term = r.current_term; bytes_written = 0 })
    else let r1 = recognise_sender now q r in
      if leb q.last_included_index r1.last_included_index
        || leb q.last_included_index r1.last_applied
      then ok (returns r1, record { term = r1.current_term; bytes_written = 0 })
      else ok (receive_snapshot q (receiving_file now q r1.snapshot) r1)

-- The wait is over: all is applied, or the node is shut down.
unfoldable pub end_wait : InstallSnapshotRequest → Raft → Outcome RpcError Raft
end_wait q r =
    if is_shutdown r.state || ltb q.last_included_index r.last_included_index
    then ok r
    else (do l ← or_fatal (compact r.log q.last_included_index); ok (record r { log = l }))

-- The state machine is restored.
unfoldable pub end_restore :
    (List ℕ → Option Configuration) → ℕ → InstallSnapshotRequest → Raft → Outcome RpcError Raft
end_restore decode now q r = if is_shutdown r.state then ok r else do
  c ← or_fatal (decode q.configuration)
  ok (
      apply_configuration now c (record r {
        last_applied = q.last_included_index;
        commit_index = q.last_included_index;
        log = discard_entries r.log q.last_included_index q.last_included_term;
      }))

-- The new snapshot file, if there is something to take a snapshot of.
unfoldable pub begin_snapshot :
    (Configuration → Option (List ℕ)) → ℕ → Raft → Outcome RpcError (Option SnapshotFile)
unfolding new_snapshot_file
begin_snapshot encode now r =
    if leb r.last_applied r.last_included_index then ok none else elim r.committed_configuration [
      | none ↦ ok none
      | some c ↦ if ltb r.last_applied c.index then ok none else do
        e ← or_fatal (get_entry r.log r.last_applied)
        bytes ← or_fatal (encode c)
        ok (
            some (
              new_snapshot_file now (record {
                last_included_index = e.index;
                last_included_term = e.term;
                configuration = bytes;
              })))
    ]

-- The state machine has written its snapshot, and the file is closed.
unfoldable pub end_snapshot : SnapshotFile → Raft → Outcome RpcError Raft
unfolding store_snapshot
end_snapshot f r =
    let m = f.metadata in
    let r1 = record r { stored_snapshots = store_snapshot f r.stored_snapshots } in
    if leb m.last_included_index r1.last_included_index then ok r1 else do
      l ← or_fatal (compact r1.log m.last_included_index)
      ok (
          reset_snapshot_files (record r1 {
            last_included_index = m.last_included_index;
            last_included_term = m.last_included_term;
            log = l;
          }))
