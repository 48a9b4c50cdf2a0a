-- ===== src/Requests.antt =====
-- requests.go: the messages of the three calls. Offsets are int64 and never negative here.
pub mod Proto
pub mod RoundTrip
use goraft.Prelude.{ℕ, String, List, Bool}
use goraft.Log.{LogEntry}

pub record AppendEntriesRequest : Type 0 where
  pub leader_id : String
  pub term : ℕ
  pub leader_commit : ℕ
  pub prev_log_index : ℕ
  pub prev_log_term : ℕ
  pub entries : List LogEntry

pub record AppendEntriesResponse : Type 0 where
  pub term : ℕ
  pub success : Bool
  pub index : ℕ

pub record RequestVoteRequest : Type 0 where
  pub candidate_id : String
  pub term : ℕ
  pub last_log_index : ℕ
  pub last_log_term : ℕ
  pub prevote : Bool

pub record RequestVoteResponse : Type 0 where
  pub term : ℕ
  pub vote_granted : Bool

pub record InstallSnapshotRequest : Type 0 where
  pub leader_id : String
  pub term : ℕ
  pub last_included_index : ℕ
  pub last_included_term : ℕ
  pub configuration : List ℕ
  pub bytes : List ℕ
  pub offset : ℕ
  pub done : Bool

pub record InstallSnapshotResponse : Type 0 where
  pub term : ℕ
  pub bytes_written : ℕ
