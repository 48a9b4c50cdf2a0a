-- ===== src/Raft/Apply.antt =====
-- raft.go: `applyConfiguration`, and one entry of `applyLoop`, which gives the lock away while the
-- state machine applies an operation. The codec of configurations and `NeedSnapshot` of the state
-- machine are parameters.
pub mod Steps
use goraft.Prelude.{
  ℕ, List, [], ◌∷◌, Option, none, some, Bool, true, false, not, ◌&&◌, ltb, leb, ◌==◌, if◌then◌else◌,
  add64, Outcome, ok, err, fatal, ◌>>=◌, or_fatal,
}
use goraft.Log.{
  LogEntry, get_entry, size, no_op_entry, operation_entry, configuration_entry, other_entry,
}
use goraft.Configuration.{Configuration}
use goraft.Operation.{Operation, replicated}
use goraft.Event.{
  Event, wake, answer, answer_nobody, apply_operation, snapshot_cond, read_only_cond,
}
use goraft.Raft.{Raft, RpcError, is_leader, is_shutdown, emit}
use goraft.Raft.Roles.{next_configuration}

-- A configuration that is not newer than the committed one is ignored.
unfoldable pub apply_configuration : ℕ → Configuration → Raft → Raft
apply_configuration now c r =
    let r1 = record (next_configuration now c r) { committed_configuration = some c } in
    elim r.committed_configuration [
      | none ↦ r1
      | some old ↦ if leb c.index old.index then r else r1
    ]

-- The map from log indices to channels, and its entry without the index.
unfoldable pub pending_channel : ℕ → List (ℕ × ℕ) → Option ℕ
pending_channel index [] = none
pending_channel index ((i, channel) ∷ ps) =
    if i == index then some channel else pending_channel index ps

unfoldable pub drop_pending : ℕ → List (ℕ × ℕ) → List (ℕ × ℕ)
drop_pending index [] = []
drop_pending index ((i, channel) ∷ ps) =
    let rest = drop_pending index ps in if i == index then rest else (i, channel) ∷ rest

-- The channel of an operation of another leader is nil.
unfoldable pub response_to : Option ℕ → Event
response_to none = answer_nobody
response_to (some channel) = answer channel none

unfoldable pub count_applied : (ℕ → Bool) → Raft → Raft
count_applied need_snapshot r =
    let r1 = record r { last_applied = add64 r.last_applied 1 } in
    if need_snapshot (size r1.log) then emit (wake snapshot_cond ∷ []) r1 else r1

-- How far the loop gets before it gives the lock away: it waits, it has applied an entry, or the
-- state machine has an operation to apply, with its channel and the last applied index.
pub data Applying : Type 0 where
  waits : Raft → Applying
  applied : Raft → Applying
  applies : Operation → Option ℕ → ℕ → Raft → Applying

unfoldable pub begin_operation : LogEntry → Raft → Applying
unfolding pending_channel drop_pending
begin_operation e r =
    let m = r.operation_manager in
    applies
      (record {
        bytes = e.data_bytes;
        operation_type = replicated;
        log_index = e.index;
        log_term = e.term;
        quorum_verified = false;
        read_index = 0;
      })
      (pending_channel e.index m.pending_replicated) r.last_applied
      (record r {
        operation_manager = record m {
          pending_replicated = drop_pending e.index m.pending_replicated;
        };
      })

-- By the type of the entry.
unfoldable pub apply_entry :
    (List ℕ → Option Configuration) → (ℕ → Bool) → ℕ → LogEntry → Raft → Outcome RpcError Applying
unfolding begin_operation
apply_entry decode need_snapshot now e r = elim e.entry_type [
  | no_op_entry ↦ ok (applied (count_applied need_snapshot r))
  | operation_entry ↦ ok (begin_operation e r)
  | configuration_entry ↦ do
    c ← or_fatal (decode e.data_bytes)
    ok (
        applied
          (count_applied need_snapshot (emit (answer_nobody ∷ []) (apply_configuration now c r))))
  | other_entry n ↦ fatal
]

-- The next committed entry; without one, the leader's reads get their turn.
unfoldable pub begin_apply :
    (List ℕ → Option Configuration) → (ℕ → Bool) → ℕ → Raft → Outcome RpcError Applying
begin_apply decode need_snapshot now r =
    if ltb r.last_applied r.commit_index && not (is_shutdown r.state)
    then (do
      e ← or_fatal (get_entry r.log (add64 r.last_applied 1))
      apply_entry decode need_snapshot now e r)
    else ok (waits (if is_leader r.state then emit (wake read_only_cond ∷ []) r else r))

-- With the lock again: a snapshot may have moved the last applied index meanwhile.
unfoldable pub end_apply : (ℕ → Bool) → Operation → Option ℕ → ℕ → Raft → Raft
unfolding count_applied response_to
end_apply need_snapshot o channel last_applied r =
    let r1 = emit (apply_operation o ∷ response_to channel ∷ []) r in
    if r1.last_applied == last_applied then count_applied need_snapshot r1 else r1
