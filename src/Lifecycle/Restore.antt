-- ===== src/Lifecycle/Restore.antt =====
-- What a node restores from its log and its snapshots.
use goraft.Prelude.{
  ℕ, zero, suc, ◌-◌, ◌≤◌, ◌<◌, ◌≡◌, refl, ap, List, ◌∷◌, map, Option, some, true, false, ltb,
  if◌then◌else◌, add64, ok, arith,
}
use goraft.Log.{Log, last_index, next_index}
use goraft.Configuration.{Configuration}
use goraft.Requests.{AppendEntriesRequest, AppendEntriesResponse}
use goraft.Raft.{Raft, SnapshotFile, follower, new_follower, is_shutdown}
use goraft.Raft.Append.{
  reject, check_previous, recognise_leader, replicate_request, append_entries_handler,
}
use goraft.Raft.Append.Handler.{not_ltb}
use goraft.Raft.Roles.{become_follower}
use goraft.Lifecycle.{
  Node, configuration_or_empty, start, restore, restore_snapshot, restore_entries,
}

-- A log that ends before the snapshot has no entry that a request could follow.
ahead_rejects :
    (l : Log) (included term prev prev_term : ℕ)
    → next_index l ≤ included
    → check_previous l included term prev prev_term
      ≡ ok (reject (if ltb prev included then add64 included 1 else next_index l))
unfolding check_previous
ahead_rejects l included term prev prev_term h = ground arith

recognise_leader_lem :
    (now : ℕ) (q : AppendEntriesRequest) (r : Raft)
    → let s = recognise_leader now q r in
      (s.log ≡ r.log)
      × (s.last_included_index ≡ r.last_included_index)
      × (s.last_included_term ≡ r.last_included_term)
unfolding recognise_leader become_follower
recognise_leader_lem now q r = ground arith

-- Such a node refuses every AppendEntries request.
refuses :
    (now : ℕ) (q : AppendEntriesRequest) (r : Raft)
    → is_shutdown r.state ≡ false
    → r.current_term ≤ q.term
    → next_index r.log ≤ r.last_included_index
    → (p : Raft × AppendEntriesResponse) × (append_entries_handler now q r ≡ ok p)
      × (p.1.success ≡ false)
      × (p.0.log ≡ r.log)
      × (p.0.last_included_index ≡ r.last_included_index)
unfolding append_entries_handler replicate_request
refuses now q r up low ahead =
    let s = recognise_leader now q r in
    let (l, i, t) = recognise_leader_lem now q r in
    (
      (
        s,
        record {
          term = s.current_term;
          success = false;
          index =
              if ltb q.prev_log_index s.last_included_index
              then add64 s.last_included_index 1
              else next_index s.log;
        },
      ),
      rw
          (
            up,
            not_ltb q.term r.current_term low,
            ahead_rejects s.log s.last_included_index s.last_included_term q.prev_log_index
                q.prev_log_term (omega (arith, ap next_index l, i)),
          )
          refl,
      refl,
      l,
      i,
    )

-- The node with what the snapshot says.
abbrev from_snapshot : SnapshotFile → Configuration → Node → Node
from_snapshot f c n = record {
  configuration = some c;
  raft = record (n.raft) {
    current_term = n.raft.stored_term;
    voted_for = n.raft.stored_vote;
    last_included_index = f.metadata.last_included_index;
    last_included_term = f.metadata.last_included_term;
    commit_index = f.metadata.last_included_index;
    last_applied = f.metadata.last_included_index;
    committed_configuration = some c;
  };
}

restore_entries_none :
    (decode : List ℕ → Option Configuration) (k i : ℕ) (n : Node)
    → k ≡ 0
    → restore_entries decode k i n ≡ ok n
unfolding restore_entries
restore_entries_none decode zero i n h = refl
restore_entries_none decode (suc k) i n h = absurd (omega arith)

restore_behind :
    (decode : List ℕ → Option Configuration) (n : Node) (f : SnapshotFile) (fs : List SnapshotFile)
    (c : Configuration)
    → n.raft.stored_snapshots ≡ f ∷ fs
    → decode f.metadata.configuration ≡ some c
    → last_index n.raft.log ≤ f.metadata.last_included_index
    → restore decode n ≡ ok (from_snapshot f c n)
unfolding restore restore_snapshot
restore_behind decode n f fs c stored decodes short =
    rw (stored, decodes)
      (rw (← stored) (
        restore_entries_none decode (last_index n.raft.log - f.metadata.last_included_index) _
          (from_snapshot f c n) (omega arith)))

-- The node after `start`.
abbrev started : ℕ → Node → Node
started now n = record {
  configuration = some (configuration_or_empty n.configuration);
  raft = record (n.raft) {
    configuration = configuration_or_empty n.configuration;
    followers = map (λ m. (m.0, new_follower)) (configuration_or_empty n.configuration).members;
    last_contact = now;
    state = follower;
  };
}

next_index-behind : (l : Log) (included : ℕ) → last_index l < included → next_index l ≤ included
unfolding last_index next_index
next_index-behind l included h = omega arith

start_restored :
    (decode : List ℕ → Option Configuration) (now : ℕ) (n m : Node)
    → is_shutdown n.raft.state ≡ true
    → restore decode n ≡ ok m
    → start decode now true n ≡ ok (started now m)
unfolding start
start_restored decode now n m down h = rw (h, down) refl

-- A node that restores a stored snapshot ahead of its log starts, but refuses every
-- AppendEntries request of a term that is not behind its stored one, and its log and the index
-- of the snapshot stay as they are.
pub start_behind :
    (decode : List ℕ → Option Configuration) (now : ℕ) (n : Node) (f : SnapshotFile)
    (fs : List SnapshotFile) (c : Configuration)
    → is_shutdown n.raft.state ≡ true
    → n.raft.stored_snapshots ≡ f ∷ fs
    → decode f.metadata.configuration ≡ some c
    → last_index n.raft.log < f.metadata.last_included_index
    → (q : AppendEntriesRequest) → n.raft.stored_term ≤ q.term
    → (m : Node) × (start decode now true n ≡ ok m)
      × ((p : Raft × AppendEntriesResponse) × (append_entries_handler now q m.raft ≡ ok p)
          × (p.1.success ≡ false)
          × (p.0.log ≡ n.raft.log)
          × (p.0.last_included_index ≡ f.metadata.last_included_index))
start_behind decode now n f fs c down stored decodes short q low =
    let m = from_snapshot f c n in
    (
      started now m,
      start_restored decode now n m down
          (restore_behind decode n f fs c stored decodes (omega arith)),
      refuses now q (started now m).raft refl low
          (next_index-behind n.raft.log f.metadata.last_included_index short),
    )
