-- ===== src/Cluster/Restarts.antt =====
-- A process that is started again on the stored term and vote.
use goraft.Prelude.{
  ℕ, zero, suc, ◌-◌, ◌≡◌, refl, String, List, [], ◌∷◌, Option, none, some, true, false, add64,
  arith, Outcome, ok, err, fatal, ◌∙◌, sym, inr,
}
use goraft.Log.{Log, LogEntry, last_index, get_entry}
use goraft.Configuration.{Configuration}
use goraft.Raft.{Raft, SnapshotFile, is_leader, is_shutdown}
use goraft.Raft.Roles.Stored.{IsStoredVote}
use goraft.Lifecycle.{
  Node, StartError, new_node, replace_configuration, restore_snapshot, restore_entry,
  restore_entries, restore, start,
}
use goraft.Cluster.Moves.{KeepsVote}

-- The name, and the term and vote both as stored and as read.
abbrev IsRead : String → ℕ → String → Node → Type 0
IsRead id term vote n =
    (n.raft.id ≡ id)
    × (n.raft.current_term ≡ term)
    × (n.raft.voted_for ≡ vote)
    × (n.raft.stored_term ≡ term)
    × (n.raft.stored_vote ≡ vote)

replace_configuration-IsRead :
    (c : Configuration) (id : String) (term : ℕ) (vote : String) (n : Node)
    → IsRead id term vote n
    → IsRead id term vote (replace_configuration c n)
unfolding replace_configuration
replace_configuration-IsRead c id term vote n h = go n.configuration refl
  where
    go :
        (o : Option Configuration)
        → n.configuration ≡ o
        → IsRead id term vote (replace_configuration c n)
    go none e = ground arith
    go (some d) e = ground arith

module _ (decode : List ℕ → Option Configuration) (id : String) (term : ℕ) (vote : String) where
  restore_entry-IsRead :
      (e : LogEntry) (n m : Node)
      → IsRead id term vote n
      → restore_entry decode e n ≡ ok m
      → IsRead id term vote m
  unfolding restore_entry
  restore_entry-IsRead e n m h k = go (decode e.data_bytes) refl
    where
      go : (o : Option Configuration) → decode e.data_bytes ≡ o → IsRead id term vote m
      go none at = ground arith
      go (some c) at = ground (arith, replace_configuration-IsRead c id term vote n h)

  restore_entries-IsRead :
      (k index : ℕ) (n m : Node)
      → IsRead id term vote n
      → restore_entries decode k index n ≡ ok m
      → IsRead id term vote m
  unfolding restore_entries
  restore_entries-IsRead zero index n m h run = ground arith
  restore_entries-IsRead (suc k) index n m h run =
      go (λ n1. restore_entries-IsRead k (add64 index 1) n1 m) (get_entry n.raft.log index) refl
    where
      go :
          ((n1 : Node)
            → IsRead id term vote n1
            → restore_entries decode k (add64 index 1) n1 ≡ ok m
            → IsRead id term vote m)
          → (o : Option LogEntry) → get_entry n.raft.log index ≡ o
          → IsRead id term vote m
      go rest none at = ground arith
      go rest (some e) at = went (restore_entry decode e n) refl
        where
          went :
              (x : Outcome StartError Node) → restore_entry decode e n ≡ x → IsRead id term vote m
          went (ok n1) found = ground (arith, rest n1 (restore_entry-IsRead e n n1 h found))
          went (err x) found = ground arith
          went fatal found = ground arith

  restore_snapshot-IsRead :
      (n m : Node)
      → IsRead id term vote n
      → restore_snapshot decode n ≡ ok m
      → IsRead id term vote m
  unfolding restore_snapshot
  restore_snapshot-IsRead n m h run = go n.raft.stored_snapshots refl
    where
      go : (fs : List SnapshotFile) → n.raft.stored_snapshots ≡ fs → IsRead id term vote m
      go [] at = ground arith
      go (f ∷ fs) at = went (decode f.metadata.configuration) refl
        where
          went :
              (o : Option Configuration)
              → decode f.metadata.configuration ≡ o
              → IsRead id term vote m
          went none found = ground arith
          went (some c) found = ground arith

  restore-IsRead :
      (n m : Node)
      → n.raft.id ≡ id
      → n.raft.stored_term ≡ term
      → n.raft.stored_vote ≡ vote
      → restore decode n ≡ ok m
      → IsRead id term vote m
  unfolding restore
  restore-IsRead n m name t v run = go (restore_snapshot decode read) refl
    where
      read : Node
      read = record n {
        raft = record (n.raft) {
          current_term = n.raft.stored_term;
          voted_for = n.raft.stored_vote;
        };
      }

      go : (x : Outcome StartError Node) → restore_snapshot decode read ≡ x → IsRead id term vote m
      go (ok n1) found =
          restore_entries-IsRead (last_index n1.raft.log - n1.raft.last_included_index)
            (add64 n1.raft.last_included_index 1) n1 m
            (restore_snapshot-IsRead read n1 (name, t, v, t, v) found) (ground arith)
      go (err x) found = ground arith
      go fatal found = ground arith

  start-IsRead :
      (now : ℕ) (n m : Node)
      → n.raft.id ≡ id
      → n.raft.stored_term ≡ term
      → n.raft.stored_vote ≡ vote
      → is_shutdown n.raft.state ≡ true
      → start decode now true n ≡ ok m
      → IsRead id term vote m × (is_leader m.raft.state ≡ false)
  unfolding start
  start-IsRead now n m name t v down run = go (restore decode n) refl
    where
      go :
          (x : Outcome StartError Node)
          → restore decode n ≡ x
          → IsRead id term vote m × (is_leader m.raft.state ≡ false)
      go (ok n1) found = ground (arith, restore-IsRead n n1 name t v found)
      go (err x) found = ground arith
      go fatal found = ground arith

-- A new process on the stored term and vote of a node goes on in that term with that vote, and does not lead.
pub start-KeepsVote :
    (decode : List ℕ → Option Configuration) (opened now timeout lease : ℕ) (log : Log)
    (snapshots : List SnapshotFile) (r : Raft) (m : Node)
    → IsStoredVote r
    → start decode now true
        (new_node opened r.id timeout lease log r.stored_term r.stored_vote snapshots)
      ≡ ok m
    → m.raft.configuration ≡ r.configuration
    → KeepsVote r m.raft × (is_leader m.raft.state ≡ false) × IsStoredVote m.raft
unfolding new_node
start-KeepsVote decode opened now timeout lease log snapshots r m stored run conf =
    let n = new_node opened r.id timeout lease log r.stored_term r.stored_vote snapshots in
    let ((name, term, vote, st, sv), quiet) =
      start-IsRead decode r.id r.stored_term r.stored_vote now n m refl refl refl refl run in
    (
      record {
        no_earlier = omega (arith, term, stored.0);
        same_vote = λ e. inr (vote ∙ stored.1);
        same_id = name;
        same_configuration = conf;
      },
      quiet,
      (st ∙ sym term, sv ∙ sym vote),
    )
