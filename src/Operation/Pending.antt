-- ===== src/Operation/Pending.antt =====
-- What happens to the pending operations.
use mathlib.Core.List.{Perm, perm_middle}
use mathlib.Core.List.Perm
use goraft.Prelude.{ℕ, ◌≤◌, ◌≡◌, ◌⊎◌, List, [], ◌∷◌, ◌++◌, true, All, arith, Bool-cases, inl, inr}
use goraft.Operation.{
  Operation, OperationManager, linearizable_read_only, lease_based_read_only, is_appliable,
  split_appliable, appliable_read_only_operations,
}

-- When a read may be served: the state machine has caught up with its read index, and a
-- linearizable read has been followed by a round of heartbeats.
abbrev pub MayServe : ℕ → Operation → Type 0
MayServe i o =
    (o.read_index ≤ i)
    × (((o.operation_type ≡ linearizable_read_only) × (o.quorum_verified ≡ true))
        ⊎ (o.operation_type ≡ lease_based_read_only))

is_appliable-MayServe : (i : ℕ) (o : Operation) → is_appliable i o ≡ true → MayServe i o
unfolding is_appliable
is_appliable-MayServe i o h = ground arith

MayServe-is_appliable : (i : ℕ) (o : Operation) → MayServe i o → is_appliable i o ≡ true
unfolding is_appliable
MayServe-is_appliable i o h = ground arith

abbrev Split : ℕ → List (Operation × ℕ) → List (Operation × ℕ) × List (Operation × ℕ) → Type 0
Split i ps (applied, kept) =
    Perm ps (applied ++ kept) × All (λ p. MayServe i p.0) applied × All (λ p. ¬ MayServe i p.0) kept

split_appliable-Split : (i : ℕ) (ps : List (Operation × ℕ)) → Split i ps (split_appliable i ps)
unfolding split_appliable
split_appliable-Split i [] = (Perm.nil, tt, tt)
split_appliable-Split i (p ∷ ps) =
    let (perm, served, kept) = split_appliable-Split i ps in
    elim (Bool-cases (is_appliable i p.0)) [
      | inl y ↦ rw y (Perm.cons p perm, (is_appliable-MayServe i p.0 y, served), kept)
      | inr n ↦ rw n (
        Perm.trans (Perm.cons p perm) (Perm.symm (perm_middle _ _)),
        served,
        ((λ h. cc (MayServe-is_appliable i p.0 h)), kept),
      )
    ]

-- The reads taken out for application are exactly those that may be served at the applied index;
-- the others stay pending, and none is lost or doubled.
pub appliable_read_only_operations_lem :
    (i : ℕ) (m : OperationManager)
    → let (after, applied) = appliable_read_only_operations i m in
      Perm m.pending_read_only (applied ++ after.pending_read_only)
      × All (λ p. MayServe i p.0) applied
      × All (λ p. ¬ MayServe i p.0) after.pending_read_only
unfolding appliable_read_only_operations
appliable_read_only_operations_lem i m = split_appliable-Split i m.pending_read_only
