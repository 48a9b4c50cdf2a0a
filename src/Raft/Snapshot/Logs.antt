-- ===== src/Raft/Snapshot/Logs.antt =====
-- What a restored or a finished snapshot does to the log.
use goraft.Prelude.{ℕ, ◌≤◌, ◌<◌, ◌≡◌, refl, List, Option, none, some, false, u64_mod, ok}
use goraft.Log.{Log, get_entry, last_index, last_term, compact, discard_entries}
use goraft.Log.Index.{IsLog}
use goraft.Log.Change.{compact_lem, discard_entries_lem}
use goraft.Configuration.{Configuration}
use goraft.Requests.{InstallSnapshotRequest}
use goraft.Raft.{Raft, SnapshotFile, is_shutdown}
use goraft.Raft.Roles.{reset_snapshot_files}
use goraft.Raft.Apply.{apply_configuration}
use goraft.Raft.Apply.Steps.{apply_configuration_monotone, not_le→leb}
use goraft.Raft.Snapshot.{end_restore, store_snapshot, end_snapshot}

abbrev restored : InstallSnapshotRequest → Raft → Raft
restored q r = record r {
  last_applied = q.last_included_index;
  commit_index = q.last_included_index;
  log = discard_entries r.log q.last_included_index q.last_included_term;
}

end_restore_runs :
    (decode : List ℕ → Option Configuration) (now : ℕ) (q : InstallSnapshotRequest)
    (c : Configuration) (r : Raft)
    → is_shutdown r.state ≡ false
    → decode q.configuration ≡ some c
    → end_restore decode now q r ≡ ok (apply_configuration now c (restored q r))
unfolding end_restore
end_restore_runs decode now q c r up known = rw (up, known) refl

-- The state machine has been restored from the snapshot: unless the node is shut down by then,
-- what is applied, committed and logged ends at the snapshot's index and term, no entry is left,
-- and the committed configuration is no older than the snapshot's. Terms and votes stay.
pub end_restore_lem :
    (decode : List ℕ → Option Configuration) (now : ℕ) (q : InstallSnapshotRequest)
    (c : Configuration) (r : Raft)
    → is_shutdown r.state ≡ false
    → decode q.configuration ≡ some c
    → q.last_included_index < u64_mod
    → (s : Raft) × (end_restore decode now q r ≡ ok s)
      × (s.last_applied ≡ q.last_included_index)
      × (s.commit_index ≡ q.last_included_index)
      × IsLog s.log
      × (last_index s.log ≡ q.last_included_index)
      × (last_term s.log ≡ q.last_included_term)
      × ((j : ℕ) → j < u64_mod → get_entry s.log j ≡ none)
      × (s.current_term ≡ r.current_term)
      × (s.voted_for ≡ r.voted_for)
      × ((d : Configuration) × (s.committed_configuration ≡ some d) × (c.index ≤ d.index))
end_restore_lem decode now q c r up known room =
    let (w, last, term, gone) =
      discard_entries_lem r.log q.last_included_index q.last_included_term room in
    let (d, eq, newer, _, f, log) = apply_configuration_monotone now c (restored q r) in
    (
      apply_configuration now c (restored q r),
      end_restore_runs decode now q c r up known,
      f.same_last_applied,
      f.same_commit_index,
      rw log w,
      rw log last,
      rw log term,
      rw log gone,
      f.same_current_term,
      f.same_voted_for,
      (d, eq, newer),
    )

abbrev compacted : SnapshotFile → Raft → Log → Raft
compacted f r m = reset_snapshot_files (record r {
  stored_snapshots = store_snapshot f r.stored_snapshots;
  last_included_index = f.metadata.last_included_index;
  last_included_term = f.metadata.last_included_term;
  log = m;
})

end_snapshot_runs :
    (f : SnapshotFile) (r : Raft) (m : Log)
    → r.last_included_index < f.metadata.last_included_index
    → compact r.log f.metadata.last_included_index ≡ some m
    → end_snapshot f r ≡ ok (compacted f r m)
unfolding end_snapshot
end_snapshot_runs f r m newer eq =
    rw (not_le→leb f.metadata.last_included_index r.last_included_index newer, eq) refl

-- The state machine has written a snapshot up to the entry at the file's index. If no later
-- snapshot was installed meanwhile, the log is compacted to it: the log begins with that entry, and
-- keeps exactly the entries behind it; what is applied and committed stays. The log is well formed
-- and holds the index.
pub end_snapshot_lem :
    (f : SnapshotFile) (r : Raft)
    → IsLog r.log
    → r.log.placeholder.index < f.metadata.last_included_index
    → f.metadata.last_included_index ≤ last_index r.log
    → r.last_included_index < f.metadata.last_included_index
    → (s : Raft) × (end_snapshot f r ≡ ok s)
      × (s.last_included_index ≡ f.metadata.last_included_index)
      × (s.last_included_term ≡ f.metadata.last_included_term)
      × IsLog s.log
      × (get_entry r.log f.metadata.last_included_index ≡ some s.log.placeholder)
      × (last_index s.log ≡ last_index r.log)
      × ((j : ℕ)
          → f.metadata.last_included_index < j
          → j ≤ last_index r.log
          → get_entry s.log j ≡ get_entry r.log j)
      × (s.last_applied ≡ r.last_applied)
      × (s.commit_index ≡ r.commit_index)
unfolding reset_snapshot_files
end_snapshot_lem f r w lo hi newer =
    let (m, eq, wm, found, last, kept) = compact_lem w f.metadata.last_included_index lo hi in
    (
      compacted f r m,
      end_snapshot_runs f r m newer eq,
      refl,
      refl,
      wm,
      found,
      last,
      kept,
      refl,
      refl,
    )
