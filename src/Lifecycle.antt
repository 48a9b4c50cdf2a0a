-- ===== src/Lifecycle.antt =====
-- raft.go: a node before it is started, its start and its stop. `Open` and `Replay` give back the
-- log as it was left (Log/Disk/Represents.antt), so `log` stands for the file; the stored term, vote
-- and snapshots stand for their files. The loops, the transport's server and the state machine's own
-- errors are left out. The codec of configurations is a parameter.
pub mod Restore
pub mod Scan
pub mod Bootstrap
pub mod Ends
use goraft.Prelude.{
  ℕ, zero, suc, ◌-◌, String, List, [], ◌∷◌, map, Option, none, some, Bool, true, false, not, ltb,
  leb, if◌then◌else◌, add64, Outcome, ok, err, fatal, ◌>>=◌,
}
use goraft.Prelude.Assoc.{has_key}
use goraft.Log.{
  Log, LogEntry, LogEntryType, configuration_entry, get_entry, last_index, append_entry,
  new_log_entry,
}
use goraft.Configuration.{Configuration, new_configuration, empty_configuration, clone}
use goraft.Operation.{new_operation_manager}
use goraft.Event.{wake, apply_cond, commit_cond, read_only_cond, election_cond, snapshot_cond}
use goraft.Raft.{
  Raft, Follower, State, SnapshotFile, new_follower, shutdown, follower, is_shutdown, emit,
}
use goraft.Raft.Roles.{reset_snapshot_files}

-- `configuration` is the pointer that may still be nil. The field of `raft` is read only after
-- `start` has set it.
pub record Node : Type 0 where
  pub raft : Raft
  pub configuration : Option Configuration

pub data StartError : Type 0 where
  not_decoded not_encoded missing_entry not_a_member already_configured already_used : StartError

-- `NewRaft` before `restore`: what is on disk, and a node that is shut down.
unfoldable pub new_node : ℕ → String → ℕ → ℕ → Log → ℕ → String → List SnapshotFile → Node
unfolding new_operation_manager
new_node now id election_timeout lease_duration log term vote snapshots = record {
  raft = record {
    id = id;
    leader_id = "";
    election_timeout = election_timeout;
    lease_duration = lease_duration;
    configuration = empty_configuration;
    committed_configuration = none;
    followers = [];
    operation_manager = new_operation_manager now lease_duration;
    log = log;
    stored_term = term;
    stored_vote = vote;
    stored_snapshots = snapshots;
    snapshot = none;
    state = shutdown;
    commit_index = 0;
    last_applied = 0;
    current_term = 0;
    last_included_index = 0;
    last_included_term = 0;
    voted_for = "";
    last_contact = 0;
    events = [];
  };
  configuration = none;
}

abbrev pub is_configuration : LogEntryType → Bool
is_configuration configuration_entry = true
is_configuration _ = false

-- The current configuration becomes the committed one.
unfoldable pub replace_configuration : Configuration → Node → Node
replace_configuration c n = record {
  configuration = some c;
  raft = elim n.configuration [
    | none ↦ n.raft
    | some old ↦ record (n.raft) { committed_configuration = some (clone old) }
  ];
}

module _ (decode : List ℕ → Option Configuration) where
  unfoldable pub restore_snapshot : Node → Outcome StartError Node
  restore_snapshot n = elim n.raft.stored_snapshots [
    | [] ↦ ok n
    | f ∷ fs ↦ elim (decode f.metadata.configuration) [
      | none ↦ err not_decoded
      | some c ↦ ok (record {
        configuration = some c;
        raft = record (n.raft) {
          last_included_index = f.metadata.last_included_index;
          last_included_term = f.metadata.last_included_term;
          commit_index = f.metadata.last_included_index;
          last_applied = f.metadata.last_included_index;
          committed_configuration = some c;
        };
      })
    ]
  ]

  unfoldable pub restore_entry : LogEntry → Node → Outcome StartError Node
  unfolding replace_configuration
  restore_entry e n =
      if is_configuration e.entry_type
      then elim (decode e.data_bytes) [
        | none ↦ err not_decoded
        | some c ↦ ok (replace_configuration c n)
      ]
      else ok n

  -- The loop over the indices to the end of the log.
  unfoldable pub restore_entries : ℕ → ℕ → Node → Outcome StartError Node
  restore_entries zero index n = ok n
  restore_entries (suc k) index n = elim (leb index (last_index n.raft.log)) [
    | false ↦ ok n
    | true ↦ elim (get_entry n.raft.log index) [
      | none ↦ err missing_entry
      | some e ↦ do n1 ← restore_entry e n; restore_entries k (add64 index 1) n1
    ]
  ]

  -- Term and vote, the most recent snapshot, and the configurations behind it.
  unfoldable pub restore : Node → Outcome StartError Node
  unfolding restore_snapshot
  restore n = do
    n1 ← restore_snapshot (record n {
      raft = record (n.raft) { current_term = n.raft.stored_term; voted_for = n.raft.stored_vote };
    })
    restore_entries (last_index n1.raft.log - n1.raft.last_included_index)
        (add64 n1.raft.last_included_index 1) n1

-- The error, if any, and the node after the call.
unfoldable pub bootstrap :
    (Configuration → Option (List ℕ)) → List (String × String) → Node → Option StartError × Node
bootstrap encode members n =
    if not (has_key n.raft.id members) then (some not_a_member, n) else elim n.configuration [
      | some c ↦ (some already_configured, n)
      | none ↦
          if ltb 0 (last_index n.raft.log)
          then (some already_used, n)
          else (let c = new_configuration 1 members in
              let n1 : Node = record n { configuration = some c } in
              elim (encode c) [
                | none ↦ (some not_encoded, n1)
                | some bytes ↦ (
                  none,
                  record n1 {
                    raft = record (n.raft) {
                      log = append_entry n.raft.log (new_log_entry 1 1 bytes configuration_entry);
                    };
                  },
                )
              ])
    ]

unfoldable pub configuration_or_empty : Option Configuration → Configuration
configuration_or_empty none = empty_configuration
configuration_or_empty (some c) = c

-- `Restart` restores first.
unfoldable pub start : (List ℕ → Option Configuration) → ℕ → Bool → Node → Outcome StartError Node
unfolding restore configuration_or_empty
start decode now restoring n = if not (is_shutdown n.raft.state) then ok n else do
  n1 ← if restoring then restore decode n else ok n
  let c = configuration_or_empty n1.configuration
  ok (record {
    configuration = some c;
    raft = record (n1.raft) {
      configuration = c;
      followers = map (λ m. (m.0, new_follower)) c.members;
      last_contact = now;
      state = follower;
    };
  })

-- Every loop is woken, and the lock is given away.
unfoldable pub begin_stop : Raft → Raft
begin_stop r =
    emit
      (wake apply_cond
        ∷ wake commit_cond
        ∷ wake read_only_cond
        ∷ wake election_cond
        ∷ wake snapshot_cond
        ∷ [])
      (record r { state = shutdown })

-- `meanwhile` is what the loops and the calls do until `wg.Wait` returns; the snapshot files are
-- closed only then.
unfoldable pub stop : (Raft → Raft) → Raft → Raft
unfolding begin_stop reset_snapshot_files
stop meanwhile r =
    if is_shutdown r.state then r else reset_snapshot_files (meanwhile (begin_stop r))

pub record Status : Type 0 where
  pub id : String
  pub address : String
  pub term : ℕ
  pub commit_index : ℕ
  pub last_applied : ℕ
  pub state : State

-- With the address of the transport.
unfoldable pub status : String → Raft → Status
status address r = record {
  id = r.id;
  address = address;
  term = r.current_term;
  commit_index = r.commit_index;
  last_applied = r.last_applied;
  state = r.state;
}

-- A copy, which the caller may change.
unfoldable pub configuration_of : Node → Configuration
unfolding clone
configuration_of n = elim n.configuration [ none ↦ empty_configuration | some c ↦ clone c ]
