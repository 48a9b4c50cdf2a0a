-- ===== src/Operation.antt =====
-- operation.go: the manager of pending operations. A pending operation is a pointer in Go; the map
-- from pointers to channels is the list of the operations with their channels' numbers.
pub mod Pending
use goraft.Prelude.{
  ℕ, String, Option, none, some, List, [], ◌∷◌, ◌++◌, map, Bool, true, false, ◌&&◌, ◌||◌, leb,
  if◌then◌else◌,
}
use goraft.Lease.{Lease, new_lease}

-- `other_type n` is the number n + 3, which no constant names.
pub data OperationType : Type 0 where
  replicated linearizable_read_only lease_based_read_only : OperationType
  other_type : ℕ → OperationType

-- `OperationType.String`, which panics on another type.
unfoldable pub operation_type_string : OperationType → Option String
operation_type_string replicated = some "replicated"
operation_type_string linearizable_read_only = some "linearizableReadOnly"
operation_type_string lease_based_read_only = some "leaseBasedReadOnly"
operation_type_string (other_type n) = none

abbrev pub is_linearizable : OperationType → Bool
is_linearizable linearizable_read_only = true
is_linearizable _ = false

abbrev pub is_lease_based : OperationType → Bool
is_lease_based lease_based_read_only = true
is_lease_based _ = false

pub record Operation : Type 0 where
  pub bytes : List ℕ
  pub operation_type : OperationType
  pub log_index : ℕ
  pub log_term : ℕ
  pub quorum_verified : Bool
  pub read_index : ℕ

pub record OperationManager : Type 0 where
  pub pending_read_only : List (Operation × ℕ)
  pub pending_replicated : List (ℕ × ℕ)
  pub should_verify_quorum : Bool
  pub leader_lease : Lease

unfoldable pub new_operation_manager : ℕ → ℕ → OperationManager
unfolding new_lease
new_operation_manager now lease_duration = record {
  pending_read_only = [];
  pending_replicated = [];
  leader_lease = new_lease now lease_duration;
  should_verify_quorum = true;
}

unfoldable pub mark_as_verified : OperationManager → OperationManager
mark_as_verified m = record m {
  pending_read_only = map (λ p. (record (p.0) { quorum_verified = true }, p.1)) m.pending_read_only;
  should_verify_quorum = true;
}

unfoldable pub is_appliable : ℕ → Operation → Bool
is_appliable apply_index o =
    (is_linearizable o.operation_type && (o.quorum_verified && leb o.read_index apply_index))
    || (is_lease_based o.operation_type && leb o.read_index apply_index)

-- The operations of the list that can be applied, and those that stay.
split_appliable : ℕ → List (Operation × ℕ) → List (Operation × ℕ) × List (Operation × ℕ)
split_appliable i [] = ([], [])
split_appliable i (p ∷ ps) =
    let (applied, kept) = split_appliable i ps in
    if is_appliable i p.0 then (p ∷ applied, kept) else (applied, p ∷ kept)

unfoldable pub appliable_read_only_operations :
    ℕ → OperationManager → OperationManager × List (Operation × ℕ)
unfolding split_appliable
appliable_read_only_operations apply_index m =
    let (applied, kept) = split_appliable apply_index m.pending_read_only in
    (record m { pending_read_only = kept }, applied)

-- The channels answered with ErrNotLeader, in order, and the emptied manager.
unfoldable pub notify_lost_leadership : OperationManager → OperationManager × List ℕ
notify_lost_leadership m = (
  record m { pending_read_only = []; pending_replicated = [] },
  map (λ p. p.1) m.pending_read_only ++ map (λ p. p.1) m.pending_replicated,
)
