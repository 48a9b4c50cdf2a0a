-- ===== src/Raft/Loops.antt =====
-- raft.go: one turn of each loop of a node, from one wait to the next. A turn that gives the lock
-- away is followed to that point; what comes behind it is in Apply, Reads and Snapshot.
use goraft.Prelude.{ℕ, List, [], ◌∷◌, Option, none, some, Bool, if◌then◌else◌, Outcome, ok, ◌>>=◌}
use goraft.Configuration.{Configuration}
use goraft.Event.{wake, election_cond}
use goraft.Log.{size}
use goraft.Raft.{Raft, RpcError, is_shutdown, is_follower, emit}
use goraft.Raft.Roles.{send_append_entries_to_peers}
use goraft.Raft.Election.{election}
use goraft.Raft.Commit.{commit_round}
use goraft.Raft.Apply.{waits, applied, applies, begin_apply}
use goraft.Raft.Reads.{begin_reads}
use goraft.Raft.Snapshot.{begin_snapshot}

-- A loop has ended, waits for its next turn, or is still in this one.
pub data Turn : Type 0 where
  ended waiting working : Raft → Turn

-- `for r.state != Shutdown`
unfoldable pub next_turn : Raft → Turn
next_turn r = if is_shutdown r.state then ended r else waiting r

-- After the sleep.
unfoldable pub election_ticker_turn : Raft → Turn
election_ticker_turn r =
    if is_shutdown r.state then ended r else waiting (emit (wake election_cond ∷ []) r)

unfoldable pub heartbeat_turn : ℕ → Raft → Turn
heartbeat_turn now r =
    if is_shutdown r.state
    then ended r
    else if is_follower r.state
    then waiting r
    else waiting (send_append_entries_to_peers now r)

-- After the signal.
unfoldable pub election_turn : ℕ → Raft → Turn
unfolding next_turn
election_turn now r = next_turn (election now r)

unfoldable pub commit_turn : ℕ → Raft → Outcome RpcError Turn
unfolding next_turn
commit_turn now r = do s ← commit_round now r; ok (next_turn s)

-- An entry is taken up, or none is left.
unfoldable pub apply_turn :
    (List ℕ → Option Configuration) → (ℕ → Bool) → ℕ → Raft → Outcome RpcError Turn
unfolding next_turn
apply_turn decode need_snapshot now r = do
  a ← begin_apply decode need_snapshot now r
  elim a [
    | waits s ↦ ok (next_turn s)
    | applied s ↦ ok (working s)
    | applies _ _ _ s ↦ ok (working s)
  ]

unfoldable pub read_turn : Raft → Turn
unfolding next_turn
read_turn r = let (s, reads) = begin_reads r in elim reads [ [] ↦ next_turn s | _ ∷ _ ↦ working s ]

-- `NeedSnapshot` is asked without a look at the state of the node.
unfoldable pub snapshot_turn :
    (Configuration → Option (List ℕ)) → (ℕ → Bool) → ℕ → Raft → Outcome RpcError Turn
unfolding next_turn
snapshot_turn encode need_snapshot now r =
    if need_snapshot (size r.log)
    then (do
      started ← begin_snapshot encode now r
      elim started [ none ↦ ok (next_turn r) | some _ ↦ ok (working r) ])
    else ok (next_turn r)
