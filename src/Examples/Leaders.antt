-- ===== src/Examples/Leaders.antt =====
-- A commit round on concrete data.
use goraft.Prelude.{◌≡◌, refl, arith, ok}
use goraft.Log.{last_index}
use goraft.Raft.{Raft, leader}
use goraft.Raft.Append.Outcomes.{IsStored}
use goraft.Raft.Commit.{commit_round}
use goraft.Raft.Commit.Quorums.{Committed, commit_round-Committed}
use goraft.Examples.{node, small_log, small_log-IsLog}

ends : last_index small_log ≡ 3
unfolding last_index
ends = refl

stored : IsStored (node leader)
stored = record {
  is_log = small_log-IsLog;
  base = omega arith;
  room = omega (arith, ends);
  included_room = omega arith;
}

-- Entry 3 of the leader's term is on n1 and n2.
commit_round-Committed_example :
    (s : Raft) × (commit_round 20 (node leader) ≡ ok s) × Committed (node leader) s
commit_round-Committed_example =
    commit_round-Committed 20 (node leader) refl stored (omega arith) (omega (arith, ends))
