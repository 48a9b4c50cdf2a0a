-- ===== src/Examples.antt =====
-- A cluster of three nodes, for the examples of its child modules.
pub mod Logs
pub mod Appends
pub mod Votes
pub mod Leaders
pub mod Clients
pub mod Applies
pub mod Calls
pub mod Disks
pub mod Nodes
pub mod Clusters
use goraft.Prelude.{ℕ, refl, String, List, [], ◌∷◌, none, some, true, false, arith}
use goraft.Log.{LogEntry, Log, new_log_entry, operation_entry, no_op_entry}
use goraft.Log.Index.{IsLog}
use goraft.Configuration.{Configuration}
use goraft.Operation.{OperationManager}
use goraft.Requests.{AppendEntriesRequest, RequestVoteRequest}
use goraft.Raft.{Raft, Follower, State, follower}

abbrev pub operation_at : ℕ → ℕ → LogEntry
operation_at index term = new_log_entry index term (index ∷ []) operation_entry

-- Behind the placeholder: the entries 1 and 2 of term 1, and 3 of term 2.
abbrev pub small_log : Log
small_log = record {
  placeholder = new_log_entry 0 0 [] no_op_entry;
  rest = operation_at 1 1 ∷ operation_at 2 1 ∷ operation_at 3 2 ∷ [];
}

pub small_log-IsLog : IsLog small_log
small_log-IsLog = record { numbered = (refl, (refl, (refl, tt))); fits = omega arith }

abbrev pub three_nodes : Configuration
three_nodes = record {
  members = ("n1", "a1") ∷ ("n2", "a2") ∷ ("n3", "a3") ∷ [];
  is_voter = ("n1", true) ∷ ("n2", true) ∷ ("n3", true) ∷ [];
  index = 1;
}

abbrev pub manager : OperationManager
manager = record {
  pending_read_only = [];
  pending_replicated = (3, 7) ∷ [];
  should_verify_quorum = true;
  leader_lease = record { expiration = 0; duration = 5 };
}

abbrev pub matched : ℕ → Follower
matched i = record { next_index = 4; match_index = i; snapshot = none }

-- The node n1 in term 2, after a vote for itself, with entry 1 committed and applied.
abbrev pub node : State → Raft
node state = record {
  id = "n1";
  leader_id = "";
  election_timeout = 10;
  lease_duration = 5;
  configuration = three_nodes;
  committed_configuration = some three_nodes;
  followers = ("n1", matched 0) ∷ ("n2", matched 3) ∷ ("n3", matched 1) ∷ [];
  operation_manager = manager;
  log = small_log;
  stored_term = 2;
  stored_vote = "n1";
  stored_snapshots = [];
  snapshot = none;
  state = state;
  commit_index = 1;
  last_applied = 1;
  current_term = 2;
  last_included_index = 0;
  last_included_term = 0;
  voted_for = "n1";
  last_contact = 0;
  events = [];
}

-- From n2 in term 3: the entry 3 of the receiver is replaced, and one more follows.
abbrev pub append_request_3 : AppendEntriesRequest
append_request_3 = record {
  leader_id = "n2";
  term = 3;
  leader_commit = 2;
  prev_log_index = 2;
  prev_log_term = 1;
  entries = operation_at 3 3 ∷ operation_at 4 3 ∷ [];
}

-- From n3, a real election of term 3.
abbrev pub vote_request_3 : RequestVoteRequest
vote_request_3 = record {
  candidate_id = "n3";
  term = 3;
  last_log_index = 3;
  last_log_term = 2;
  prevote = false;
}
