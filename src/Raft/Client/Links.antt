-- ===== src/Raft/Client/Links.antt =====
-- What a leader appends, in `becomeLeader` and `submitReplicatedOperation`, and log matching.
use goraft.Prelude.{ℕ, suc, ◌+◌, ◌<◌, ◌≡◌, sym, subst, List, [], true, arith, u64_mod}
use goraft.Log.{
  LogEntryType, Log, last_index, next_index, append_entry, new_log_entry, no_op_entry,
  operation_entry,
}
use goraft.Log.Index.{IsLog, next_index-eq-last_index}
use goraft.Log.Links.{IsLinked, term_at}
use goraft.Log.Ledger.{extend, IsFree, extend-IsLinked, append_entry-IsLinked}
use goraft.Raft.{Raft, is_leader}
use goraft.Raft.Roles.{become_leader}
use goraft.Raft.Roles.Terms.{send_append_entries_to_peers-Frame}
use goraft.Raft.Election.Leads.{become_leader_lem}
use goraft.Raft.Client.{submit_replicated_operation}

submit_replicated_operation_log :
    (now channel : ℕ) (bytes : List ℕ) (r : Raft)
    → is_leader r.state ≡ true
    → (submit_replicated_operation now channel bytes r).log
      ≡ append_entry r.log (new_log_entry (next_index r.log) r.current_term bytes operation_entry)
unfolding submit_replicated_operation
submit_replicated_operation_log now channel bytes r h =
    rw h (send_append_entries_to_peers-Frame now _).1

new_entry-IsLinked :
    (ledger : ℕ → ℕ → ℕ) (l : Log) (term : ℕ) (bytes : List ℕ) (kind : LogEntryType)
    → IsLog l
    → last_index l + 1 < u64_mod
    → IsLinked ledger l
    → IsLinked
        (extend ledger (suc (last_index l)) term (term_at l (last_index l)))
        (append_entry l (new_log_entry (next_index l) term bytes kind))
new_entry-IsLinked ledger l term bytes kind w room h =
    append_entry-IsLinked ledger l (new_log_entry (next_index l) term bytes kind) w
      (omega (arith, next_index-eq-last_index w room)) room h

-- Given a function of index and term that gives the term in front of each entry of a node's
-- well-formed log, which has room, the function with one more value, for the next index and the
-- node's term, does so for the log after becomeLeader, and, where the node leads, for the log
-- after submitReplicatedOperation; and it still does so for every other log that has no entry of
-- that index and term.
pub leader_appends-IsLinked :
    (ledger : ℕ → ℕ → ℕ) (now channel : ℕ) (bytes : List ℕ) (r : Raft)
    → IsLog r.log
    → last_index r.log + 1 < u64_mod
    → IsLinked ledger r.log
    → let extended =
        extend ledger (suc (last_index r.log)) r.current_term (term_at r.log (last_index r.log)) in
      IsLinked extended (become_leader now r).log
      × (is_leader r.state ≡ true
          → IsLinked extended (submit_replicated_operation now channel bytes r).log)
      × ((m : Log)
          → IsLinked ledger m
          → IsFree m (suc (last_index r.log)) r.current_term
          → IsLinked extended m)
leader_appends-IsLinked ledger now channel bytes r w room h =
    let extended =
      extend ledger (suc (last_index r.log)) r.current_term (term_at r.log (last_index r.log)) in
    let (_, _, _, _, _, _, log, _) = become_leader_lem now r in
    (
      subst (IsLinked extended) (sym log)
          (new_entry-IsLinked ledger r.log r.current_term [] no_op_entry w room h),
      (λ leads.
          subst (IsLinked extended)
            (sym (submit_replicated_operation_log now channel bytes r leads))
            (new_entry-IsLinked ledger r.log r.current_term bytes operation_entry w room h)),
      λ m linked free.
          extend-IsLinked ledger (suc (last_index r.log)) r.current_term
            (term_at r.log (last_index r.log)) m linked free,
    )
