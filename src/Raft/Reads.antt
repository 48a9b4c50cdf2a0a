-- ===== src/Raft/Reads.antt =====
-- raft.go: `readOnlyLoop`, which gives the lock away while the state machine applies a read.
pub mod Serve
use goraft.Prelude.{ℕ, List, [], ◌∷◌, none, some, Bool, not, ◌&&◌, ◌||◌, if◌then◌else◌}
use goraft.Lease.{is_valid}
use goraft.Future.{invalid_lease}
use goraft.Operation.{Operation, is_lease_based, appliable_read_only_operations}
use goraft.Event.{answer, apply_operation}
use goraft.Raft.{Raft, is_leader, emit}
use goraft.Raft.Client.{committed_this_term}

-- The reads that can be applied, with their channels, taken out of the pending ones.
unfoldable pub begin_reads : Raft → Raft × List (Operation × ℕ)
begin_reads r =
    if not (is_leader r.state) || not (committed_this_term r)
    then (r, [])
    else (let (m, reads) = appliable_read_only_operations r.last_applied r.operation_manager in
        (record r { operation_manager = m }, reads))

-- A read is refused, or goes to the state machine.
pub data Serving : Type 0 where
  refuses : Raft → Serving
  serves : Operation → ℕ → Raft → Serving

unfoldable pub serve_read : ℕ → Operation × ℕ → Raft → Serving
serve_read now (o, channel) r =
    if is_lease_based o.operation_type && not (is_valid now r.operation_manager.leader_lease)
    then refuses (emit (answer channel (some invalid_lease) ∷ []) r)
    else serves o channel r

-- With the lock again: the response is out, and the loop goes on while the node leads.
unfoldable pub end_read : Operation → ℕ → Raft → Raft × Bool
end_read o channel r = (emit (apply_operation o ∷ answer channel none ∷ []) r, is_leader r.state)
