-- ===== src/Raft/Reads/Serve.antt =====
-- Which reads reach the state machine.
use mathlib.Core.List.{Perm}
use mathlib.Core.List.Perm
use goraft.Prelude.{ℕ, ◌≡◌, ◌⊎◌, List, [], ◌∷◌, some, true, false}
use goraft.Lease.{is_valid}
use goraft.Future.{invalid_lease}
use goraft.Operation.{Operation, lease_based_read_only, is_lease_based}
use goraft.Event.{answer}
use goraft.Raft.{Raft, emit}
use goraft.Raft.Reads.{Serving, refuses, serves}

-- Only a lease-based read is refused, for want of a lease; what is served is the read itself, and
-- with a valid lease if it is lease-based.
abbrev pub Served : ℕ → Operation × ℕ → Raft → Serving → Type 0
Served now p t (refuses u) =
    (p.0.operation_type ≡ lease_based_read_only)
    × (is_valid now t.operation_manager.leader_lease ≡ false)
    × (u ≡ emit (answer p.1 (some invalid_lease) ∷ []) t)
Served now p t (serves o channel u) =
    (o ≡ p.0)
    × (channel ≡ p.1)
    × (u ≡ t)
    × ((is_lease_based o.operation_type ≡ false)
        ⊎ (is_valid now t.operation_manager.leader_lease ≡ true))
