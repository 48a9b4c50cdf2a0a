-- ===== src/Examples/Nodes.antt =====
-- Nodes that start, and nodes that send and receive snapshots, on concrete data.
use goraft.Prelude.{
  ℕ, zero, suc, ◌≡◌, refl, String, List, [], ◌∷◌, length, Option, none, some, true, false, ok,
  arith,
}
use goraft.Prelude.Assoc.{lookup, has_key}
use goraft.Log.{last_index}
use goraft.Configuration.{Configuration, new_configuration, clone}
use goraft.Disk.{zeros}
use goraft.Requests.{AppendEntriesResponse}
use goraft.Raft.{Raft, SnapshotFile, leader, follower, shutdown}
use goraft.Raft.Append.{append_entries_handler}
use goraft.Raft.Snapshot.{Installing, returns}
use goraft.Raft.Snapshot.Install.{state_of}
use goraft.Raft.Snapshot.Sending.{exchange, open_snapshot, latest_snapshot}
use goraft.Raft.Snapshot.Sending.Exchanges.{Opens, Holds, Lacks, delivered}
use goraft.Raft.Snapshot.Sending.Deliver.{small_snapshot_delivered, large_snapshot_delivered}
use goraft.Lifecycle.{Node, new_node, start, restore, restore_entries, bootstrap}
use goraft.Lifecycle.Restore.{start_behind}
use goraft.Lifecycle.Scan.{restore_list, restore_entries_lem}
use goraft.Lifecycle.Bootstrap.{fresh_log, bootstrap-restore}
use goraft.Examples.{node, small_log, small_log-IsLog, three_nodes, append_request_3, matched}

abbrev snapshot_of : ℕ → List ℕ → SnapshotFile
snapshot_of index contents = record {
  metadata = record { last_included_index = index; last_included_term = 1; configuration = [] };
  contents = contents;
  position = 0;
  created = 3;
}

-- The leader n1 with a snapshot, and the peer n2 without.
abbrev sender : SnapshotFile → Raft
sender s = record (node leader) { last_included_index = 2; stored_snapshots = s ∷ [] }

sender-Opens : (s : SnapshotFile) → Opens "n2" (sender s) (matched 3) (record s { position = 0 })
unfolding lookup open_snapshot latest_snapshot
sender-Opens s = record { leads = refl; taken = omega arith; known = refl; opened = refl }

abbrev needing : Raft
needing = record (node follower) { id = "n2" }

needing-Lacks : (bytes : List ℕ) → Lacks 2 (snapshot_of 2 bytes) needing
needing-Lacks bytes = record {
  up = refl;
  low = omega arith;
  behind = omega arith;
  unapplied = omega arith;
  fresh = refl;
}

abbrev installed : Raft
installed = record needing { last_included_index = 2; last_applied = 2 }

installed-Holds : (bytes : List ℕ) → Holds 2 (snapshot_of 2 bytes) installed
installed-Holds bytes = record { up = refl; low = omega arith; has = omega arith }

small_snapshot_delivered_example :
    (i : Installing) × (l1 : Raft) × (p3 : Raft) × (l2 : Raft) × (p4 : Raft) × (l3 : Raft)
    × (exchange 30 "n2" (sender (snapshot_of 2 (7 ∷ 8 ∷ []))) needing ≡ ok (i, l1))
    × Holds 2 (snapshot_of 2 (7 ∷ 8 ∷ [])) (state_of i)
    × (exchange 31 "n2" l1 installed ≡ ok (returns p3, l2))
    × (exchange 32 "n2" l2 p3 ≡ ok (returns p4, l3))
    × (lookup "n2" l3.followers ≡ some (delivered (snapshot_of 2 (7 ∷ 8 ∷ []))))
small_snapshot_delivered_example =
    small_snapshot_delivered 30 31 32 "n2" (sender (snapshot_of 2 (7 ∷ 8 ∷ []))) (matched 3)
      (snapshot_of 2 (7 ∷ 8 ∷ [])) (sender-Opens (snapshot_of 2 (7 ∷ 8 ∷ []))) (omega arith)
      (omega arith) needing (needing-Lacks (7 ∷ 8 ∷ [])) installed (installed-Holds (7 ∷ 8 ∷ []))

length-zeros : (n : ℕ) → length (zeros n) ≡ n
unfolding zeros
length-zeros zero = refl
length-zeros (suc n) = omega (arith, length-zeros n)

large_snapshot_delivered_example :
    (p1 : Raft) × (l1 : Raft) × (i : Installing) × (l2 : Raft) × (exchange 30 "n2"
        (sender (snapshot_of 2 (zeros 40000)))
        needing
      ≡ ok (returns p1, l1))
    × (exchange 31 "n2" l1 p1 ≡ ok (i, l2))
    × Holds 2 (snapshot_of 2 (zeros 40000)) (state_of i)
    × (lookup "n2" l2.followers ≡ some (delivered (snapshot_of 2 (zeros 40000))))
large_snapshot_delivered_example =
    large_snapshot_delivered 30 31 "n2" (sender (snapshot_of 2 (zeros 40000))) (matched 3)
      (snapshot_of 2 (zeros 40000)) (sender-Opens (snapshot_of 2 (zeros 40000)))
      (omega (arith, length-zeros 40000)) needing (needing-Lacks (zeros 40000))

-- The log ends at 3, the stored snapshot at 5.
abbrev crashed : Node
crashed = record {
  configuration = none;
  raft = record (node shutdown) { stored_snapshots = snapshot_of 5 [] ∷ [] };
}

abbrev always : Configuration → List ℕ → Option Configuration
always c bytes = some c

ends_at_3 : last_index small_log ≡ 3
unfolding last_index
ends_at_3 = refl

start_behind_example :
    (m : Node) × (start (always three_nodes) 40 true crashed ≡ ok m)
    × ((p : Raft × AppendEntriesResponse) × (append_entries_handler 40 append_request_3 m.raft
          ≡ ok p)
        × (p.1.success ≡ false)
        × (p.0.log ≡ small_log)
        × (p.0.last_included_index ≡ 5))
start_behind_example =
    start_behind (always three_nodes) 40 crashed (snapshot_of 5 []) [] three_nodes refl refl refl
      (omega (arith, ends_at_3)) append_request_3 (omega arith)

abbrev whole_log : Node
whole_log = record { configuration = none; raft = node shutdown }

restore_entries_lem_example :
    restore_entries (always three_nodes) 3 1 whole_log
    ≡ restore_list (always three_nodes) small_log.rest whole_log
restore_entries_lem_example =
    restore_entries_lem (always three_nodes) 3 1 whole_log small_log-IsLog (omega arith)
      (omega (arith, ends_at_3)) (omega (arith, ends_at_3)) small_log.rest refl

abbrev encode_any : Configuration → Option (List ℕ)
encode_any c = some (9 ∷ [])

abbrev n1_alone : List (String × String)
n1_alone = ("n1", "a1") ∷ []

n1_there : has_key "n1" n1_alone ≡ true
unfolding has_key lookup
n1_there = refl

bootstrap-restore_example :
    (n : Node) × (bootstrap encode_any n1_alone (new_node 5 "n1" 10 5 fresh_log 0 "" [])
      ≡ (none, n))
    × (restore (always (new_configuration 1 n1_alone)) (new_node 5 "n1" 10 5 n.raft.log 0 "" [])
        ≡ ok n)
    × (n.configuration ≡ some (new_configuration 1 n1_alone))
    × (n.raft.committed_configuration ≡ none)
    × ((m : Node) × (restore (always (new_configuration 1 n1_alone)) n ≡ ok m)
        × (m.configuration ≡ n.configuration)
        × (m.raft.committed_configuration ≡ some (clone (new_configuration 1 n1_alone))))
bootstrap-restore_example =
    bootstrap-restore encode_any (always (new_configuration 1 n1_alone)) 5 "n1" 10 5 n1_alone
      (9 ∷ []) n1_there refl refl
