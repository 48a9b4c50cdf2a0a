-- ===== src/Examples/Applies.antt =====
-- Applied entries, snapshots, reads and futures on concrete data.
use goraft.Prelude.{
  ℕ, ◌≤◌, ◌<◌, ◌≡◌, inl, inr, refl, sym, ◌∙◌, List, [], ◌∷◌, Bool, true, false, Option, none, some,
  arith, u64_mod, ok,
}
use goraft.Log.{LogEntry, get_entry, last_index, last_term, operation_entry}
use goraft.Log.Index.{IsLog}
use goraft.Configuration.{Configuration}
use goraft.Operation.{Operation, replicated}
use goraft.Requests.{InstallSnapshotRequest, InstallSnapshotResponse}
use goraft.Raft.{Raft, SnapshotFile, follower}
use goraft.Raft.Apply.{Applying, begin_apply}
use goraft.Raft.Apply.Steps.{Step, IsKnown, begin_apply-Step}
use goraft.Raft.Snapshot.{Installing, install_snapshot_handler, receive_snapshot, end_restore}
use goraft.Raft.Snapshot.Install.{
  Kept, Received, install_snapshot_handler-Kept, receive_snapshot-Received,
}
use goraft.Raft.Snapshot.Logs.{end_restore_lem}
use goraft.Examples.{node, small_log, small_log-IsLog, three_nodes, operation_at}

ends : last_index small_log ≡ 3
unfolding last_index
ends = refl

abbrev never : ℕ → Bool
never n = false

-- A code that knows one configuration.
abbrev decode : List ℕ → Option Configuration
decode bytes = some (record three_nodes { index = 7 })

-- Entry 2 is committed and not applied.
abbrev behind : Raft
behind = record (node follower) { commit_index = 2 }

second_entry : get_entry small_log 2 ≡ some (operation_at 2 1)
unfolding get_entry
second_entry = refl

entry_type_of : (e : LogEntry) → some (operation_at 2 1) ≡ some e → e.entry_type ≡ operation_entry
entry_type_of e h = ground arith

known : (e : LogEntry) → get_entry small_log 2 ≡ some e → IsKnown decode e
known e h = inr (inl (entry_type_of e (sym second_entry ∙ h)))

begin_apply-Step_example :
    (e : LogEntry) × (get_entry small_log 2 ≡ some e)
    × ((a : Applying) × (begin_apply decode never 20 behind ≡ ok a) × Step e behind a)
begin_apply-Step_example =
    begin_apply-Step decode never 20 behind small_log-IsLog refl (omega arith) (omega arith)
      (omega (arith, ends)) known

abbrev second_operation : Operation
second_operation = record {
  bytes = 2 ∷ [];
  operation_type = replicated;
  log_index = 2;
  log_term = 1;
  quorum_verified = false;
  read_index = 0;
}

abbrev newer : Configuration
newer = record three_nodes { index = 2 }

-- A whole snapshot of term 3 up to index 9, in one request.
abbrev whole : InstallSnapshotRequest
whole = record {
  leader_id = "n2";
  term = 3;
  last_included_index = 9;
  last_included_term = 3;
  configuration = 1 ∷ [];
  bytes = 5 ∷ 6 ∷ [];
  offset = 0;
  done = true;
}

abbrev file_at : ℕ → SnapshotFile
file_at i = record {
  metadata = record { last_included_index = i; last_included_term = 1; configuration = [] };
  contents = [];
  position = 0;
  created = 20;
}

install_snapshot_handler-Kept_example :
    (p : Installing × InstallSnapshotResponse) × (install_snapshot_handler 20 whole behind ≡ ok p)
    × Kept whole behind p
install_snapshot_handler-Kept_example =
    install_snapshot_handler-Kept 20 whole behind refl (omega arith)

receive_snapshot-Received_example :
    Received whole (file_at 9) behind (receive_snapshot whole (file_at 9) behind)
receive_snapshot-Received_example = receive_snapshot-Received whole (file_at 9) behind refl

end_restore_lem_example :
    (s : Raft) × (end_restore decode 20 whole behind ≡ ok s)
    × (s.last_applied ≡ 9)
    × (s.commit_index ≡ 9)
    × IsLog s.log
    × (last_index s.log ≡ 9)
    × (last_term s.log ≡ 3)
    × ((j : ℕ) → j < u64_mod → get_entry s.log j ≡ none)
    × (s.current_term ≡ 2)
    × (s.voted_for ≡ "n1")
    × ((d : Configuration) × (s.committed_configuration ≡ some d) × (7 ≤ d.index))
end_restore_lem_example =
    end_restore_lem decode 20 whole (record three_nodes { index = 7 }) behind refl refl
      (omega arith)
