-- ===== src/Raft.antt =====
-- raft.go: the state of a node that has been started. `start` makes sure that there is a
-- configuration, so it is no option here. The mutex makes each handler one step, up to where it
-- gives the lock away. `events` collects what the step does outside of the node.
-- I/O errors of the stores are fatal to the process in raft.go and are left out.
pub mod Roles
pub mod Append
pub mod Vote
pub mod Election
pub mod Replicate
pub mod Commit
pub mod Client
pub mod Apply
pub mod Snapshot
pub mod Reads
pub mod Loops
pub mod Encoding
use goraft.Prelude.{ℕ, String, List, [], ◌∷◌, ◌++◌, map, Option, none, some, Bool, true, false}
use goraft.Log.{Log}
use goraft.Configuration.{Configuration}
use goraft.Operation.{OperationManager}
use goraft.Event.{Event}

pub data State : Type 0 where
  leader follower pre_candidate candidate shutdown : State

abbrev pub is_leader : State → Bool
is_leader leader = true
is_leader _ = false

abbrev pub is_follower : State → Bool
is_follower follower = true
is_follower _ = false

abbrev pub is_pre_candidate : State → Bool
is_pre_candidate pre_candidate = true
is_pre_candidate _ = false

abbrev pub is_candidate : State → Bool
is_candidate candidate = true
is_candidate _ = false

abbrev pub is_shutdown : State → Bool
is_shutdown shutdown = true
is_shutdown _ = false

-- `State.String`, which panics on a state that it does not list.
unfoldable pub state_string : State → Option String
state_string leader = some "leader"
state_string follower = some "follower"
state_string candidate = some "candidate"
state_string shutdown = some "shutdown"
state_string pre_candidate = none

pub record SnapshotMetadata : Type 0 where
  pub last_included_index : ℕ
  pub last_included_term : ℕ
  pub configuration : List ℕ

-- A snapshot file: its bytes, the position of the next read or write, and the time in its name.
pub record SnapshotFile : Type 0 where
  pub metadata : SnapshotMetadata
  pub contents : List ℕ
  pub position : ℕ
  pub created : ℕ

pub record Follower : Type 0 where
  pub next_index : ℕ
  pub match_index : ℕ
  pub snapshot : Option SnapshotFile

-- `new(follower)`
abbrev pub new_follower : Follower
new_follower = record { next_index = 0; match_index = 0; snapshot = none }

pub record Raft : Type 0 where
  pub id : String
  pub leader_id : String
  pub election_timeout : ℕ
  pub lease_duration : ℕ
  pub configuration : Configuration
  pub committed_configuration : Option Configuration
  pub followers : List (String × Follower)
  pub operation_manager : OperationManager
  pub log : Log
  -- stateStorage
  pub stored_term : ℕ
  pub stored_vote : String
  -- snapshotStorage: the complete snapshots, the last created first
  pub stored_snapshots : List SnapshotFile
  pub snapshot : Option SnapshotFile
  pub state : State
  pub commit_index : ℕ
  pub last_applied : ℕ
  pub current_term : ℕ
  pub last_included_index : ℕ
  pub last_included_term : ℕ
  pub voted_for : String
  pub last_contact : ℕ
  pub events : List Event

abbrev pub emit : List Event → Raft → Raft
emit es r = record r { events = r.events ++ es }

-- The error that an RPC handler returns.
pub data RpcError : Type 0 where
  is_down : RpcError
