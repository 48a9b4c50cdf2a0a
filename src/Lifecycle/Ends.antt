-- ===== src/Lifecycle/Ends.antt =====
-- The loops of a node that is being stopped.
use goraft.Prelude.{ℕ, ◌≡◌, ◌⊎◌, inl, inr, List, Option, Bool, true, false, Bool-cases, ok, arith}
use goraft.Configuration.{Configuration}
use goraft.Log.{size}
use goraft.Operation.{Operation}
use goraft.Raft.{Raft, SnapshotFile, is_shutdown}
use goraft.Raft.Loops.{
  ended, next_turn, election_ticker_turn, heartbeat_turn, election_turn, commit_turn, apply_turn,
  read_turn, snapshot_turn,
}
use goraft.Raft.Roles.{reset_snapshot_files}
use goraft.Raft.Election.{election}
use goraft.Raft.Commit.{commit_round}
use goraft.Raft.Reads.{begin_reads, end_read}
use goraft.Raft.Apply.{count_applied, begin_apply, end_apply}
use goraft.Raft.Snapshot.{end_snapshot}
use goraft.Lifecycle.{begin_stop, stop}

module _ (decode : List ℕ → Option Configuration) (encode : Configuration → Option (List ℕ))
    (need : ℕ → Bool) (now : ℕ) where
  -- The turns of each loop of a node that is shut down.
  abbrev pub AreLastTurns : Raft → Type 0
  AreLastTurns r =
      (election_ticker_turn r ≡ ended r)
      × (heartbeat_turn now r ≡ ended r)
      × (election_turn now r ≡ ended r)
      × (commit_turn now r ≡ ok (ended r))
      × (apply_turn decode need now r ≡ ok (ended r))
      × (read_turn r ≡ ended r)
      × ((snapshot_turn encode need now r ≡ ok (ended r)) ⊎ (need (size r.log) ≡ true))

  down-AreLastTurns : (r : Raft) → is_shutdown r.state ≡ true → AreLastTurns r
  unfolding election_ticker_turn heartbeat_turn election_turn commit_turn apply_turn read_turn
      snapshot_turn next_turn election commit_round begin_reads begin_apply
  down-AreLastTurns r h = (
    ground arith,
    ground arith,
    ground arith,
    ground arith,
    ground arith,
    ground arith,
    elim (Bool-cases (need (size r.log))) [
      | inl needed ↦ inr needed
      | inr spared ↦ inl (ground (arith, h, spared))
    ],
  )

  end_apply-down :
      (o : Operation) (channel : Option ℕ) (last_applied : ℕ) (r : Raft)
      → is_shutdown r.state ≡ true
      → is_shutdown (end_apply need o channel last_applied r).state ≡ true
  unfolding end_apply count_applied
  end_apply-down o channel last_applied r h = ground arith

  end_read-down :
      (o : Operation) (c : ℕ) (r : Raft)
      → is_shutdown r.state ≡ true
      → (is_shutdown (end_read o c r).0.state ≡ true) × ((end_read o c r).1 ≡ false)
  unfolding end_read
  end_read-down o c r h = ground arith

  end_snapshot-down :
      (f : SnapshotFile) (r s : Raft)
      → is_shutdown r.state ≡ true
      → end_snapshot f r ≡ ok s
      → is_shutdown s.state ≡ true
  unfolding end_snapshot reset_snapshot_files
  end_snapshot-down f r s h e = ground arith

  stop_again :
      (meanwhile : Raft → Raft) (r : Raft) → is_shutdown r.state ≡ true → stop meanwhile r ≡ r
  unfolding stop
  stop_again meanwhile r h = ground arith

  begin_stop_lem : (r : Raft) → is_shutdown (begin_stop r).state ≡ true
  unfolding begin_stop
  begin_stop_lem r = ground arith

  -- Once Stop has marked a node as shut down and given the lock away, the next turn of the
  -- ticker, the heartbeats, the elections, the commits, the apply loop and the read-only loop
  -- ends the loop and leaves the node as it is, also after an operation or a read that was with
  -- the state machine is over; a read ends its round. The snapshot loop ends too, unless the
  -- state machine asks for a snapshot just then, and it ends after a snapshot whose end does
  -- not fail. A second Stop meanwhile does nothing.
  pub stop_ends :
      (o : Operation) (channel : Option ℕ) (c last_applied : ℕ) (f : SnapshotFile)
      (meanwhile : Raft → Raft) (r s : Raft)
      → end_snapshot f (begin_stop r) ≡ ok s
      → let down = begin_stop r in
        AreLastTurns down
        × AreLastTurns (end_apply need o channel last_applied down)
        × AreLastTurns (end_read o c down).0
        × ((end_read o c down).1 ≡ false)
        × (next_turn s ≡ ended s)
        × (stop meanwhile down ≡ down)
  unfolding next_turn
  stop_ends o channel c last_applied f meanwhile r s e =
      let down = begin_stop r in
      let h = begin_stop_lem r in
      let (read, left) = end_read-down o c down h in
      (
        down-AreLastTurns down h,
        down-AreLastTurns (end_apply need o channel last_applied down)
            (end_apply-down o channel last_applied down h),
        down-AreLastTurns (end_read o c down).0 read,
        left,
        ground (arith, end_snapshot-down f down s h e),
        stop_again meanwhile down h,
      )
