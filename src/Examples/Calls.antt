-- ===== src/Examples/Calls.antt =====
-- Futures and pending reads on concrete data.
use goraft.Prelude.{
  ℕ, ◌+◌, ◌*◌, ◌≤◌, ◌<◌, ◌≡◌, refl, List, [], ◌∷◌, Bool, true, false, Option, none, some, ok,
}
use goraft.Operation.{Operation, OperationManager, linearizable_read_only}
use goraft.Raft.{Raft, SnapshotFile, leader}
use goraft.Raft.Reads.{end_read}
use goraft.Random.{ticker_sleep, ticker_sleep_bounds}
use goraft.Configuration.{Configuration}
use goraft.Log.{get_entry, last_index, compact}
use goraft.Raft.Roles.{reset_snapshot_files}
use goraft.Raft.Apply.{end_apply}
use goraft.Raft.Snapshot.{end_snapshot, store_snapshot}
use goraft.Raft.Loops.{ended, next_turn}
use goraft.Lifecycle.{begin_stop, stop}
use goraft.Lifecycle.Ends.{AreLastTurns, stop_ends}
use goraft.Examples.{node, manager, operation_at}

abbrev read_at : ℕ → Bool → Operation
read_at index verified = record {
  bytes = [];
  operation_type = linearizable_read_only;
  log_index = 0;
  log_term = 0;
  quorum_verified = verified;
  read_index = index;
}

-- The first read may be served at index 3, the others not.
abbrev reading : OperationManager
reading = record manager {
  pending_read_only = (read_at 2 true, 1) ∷ (read_at 2 false, 2) ∷ (read_at 4 true, 3) ∷ [];
}

-- The leader has committed and applied entry 3, of its own term.
abbrev serving : Raft
serving = record (node leader) { commit_index = 3; last_applied = 3; operation_manager = reading }

-- The smallest number each time, and a timeout of 300 milliseconds.
ticker_sleep_bounds_example :
    (1000000 ≤ 300000000
      → (d : ℕ) × (ticker_sleep (λ n. 0) 300000000 ≡ some d)
        × (d < 2 * 300000000)
        × (300000000 < d + 1000000))
    × (2 * 300000000 < 1000000 → ticker_sleep (λ n. 0) 300000000 ≡ none)
ticker_sleep_bounds_example = ticker_sleep_bounds (λ n. 0) 300000000 (λ n h. h)

-- A snapshot of the entries up to 2 that was begun before the node is stopped.
abbrev small_file : SnapshotFile
small_file = record {
  metadata = record { last_included_index = 2; last_included_term = 1; configuration = [] };
  contents = 7 ∷ [];
  position = 1;
  created = 5;
}

abbrev snapshot_taken : Raft
snapshot_taken = reset_snapshot_files (record (begin_stop (node leader)) {
  stored_snapshots = small_file ∷ [];
  last_included_index = 2;
  last_included_term = 1;
  log = record { placeholder = operation_at 2 1; rest = operation_at 3 2 ∷ [] };
})

ends_snapshot : end_snapshot small_file (begin_stop (node leader)) ≡ ok snapshot_taken
unfolding end_snapshot begin_stop store_snapshot compact get_entry last_index reset_snapshot_files
ends_snapshot = refl

abbrev idle_decode : List ℕ → Option Configuration
idle_decode bytes = none

abbrev no_code : Configuration → Option (List ℕ)
no_code c = none

abbrev no_need : ℕ → Bool
no_need n = false

stop_ends_example :
    let down = begin_stop (node leader) in
    AreLastTurns idle_decode no_code no_need 20 down
    × AreLastTurns idle_decode no_code no_need 20
        (end_apply no_need (read_at 2 true) (some 4) 1 down)
    × AreLastTurns idle_decode no_code no_need 20 (end_read (read_at 2 true) 5 down).0
    × ((end_read (read_at 2 true) 5 down).1 ≡ false)
    × (next_turn snapshot_taken ≡ ended snapshot_taken)
    × (stop (λ x. x) down ≡ down)
stop_ends_example =
    stop_ends idle_decode no_code no_need 20 (read_at 2 true) (some 4) 5 1 small_file (λ x. x)
      (node leader) snapshot_taken ends_snapshot
