-- ===== src/Requests/Proto.antt =====
-- requests.go and the generated internal/protobuf/raft.pb.go: the messages on the wire, and the
-- conversions both ways. The getters of the generated code return the fields.
use goraft.Prelude.{ℕ, zero, suc, String, List, map, Bool}
use goraft.Log.{
  LogEntry, LogEntryType, no_op_entry, operation_entry, configuration_entry, other_entry,
}
use goraft.Requests.{
  AppendEntriesRequest, AppendEntriesResponse, RequestVoteRequest, RequestVoteResponse,
  InstallSnapshotRequest, InstallSnapshotResponse,
}

-- `pb.LogEntry_LogEntryType(entry.EntryType)`: a conversion between two numeric types.
unfoldable pub proto_entry_type : LogEntryType → ℕ
proto_entry_type no_op_entry = 0
proto_entry_type operation_entry = 1
proto_entry_type configuration_entry = 2
proto_entry_type (other_entry n) = suc (suc (suc n))

-- `LogEntryType(protoEntry.EntryType)`
unfoldable pub entry_type_of_proto : ℕ → LogEntryType
entry_type_of_proto zero = no_op_entry
entry_type_of_proto (suc zero) = operation_entry
entry_type_of_proto (suc (suc zero)) = configuration_entry
entry_type_of_proto (suc (suc (suc n))) = other_entry n

pub record ProtoLogEntry : Type 0 where
  pub index : ℕ
  pub term : ℕ
  pub offset : ℕ
  pub payload : List ℕ
  pub entry_type : ℕ

pub record ProtoAppendEntriesRequest : Type 0 where
  pub leader_id : String
  pub term : ℕ
  pub leader_commit : ℕ
  pub prev_log_index : ℕ
  pub prev_log_term : ℕ
  pub entries : List ProtoLogEntry

pub record ProtoAppendEntriesResponse : Type 0 where
  pub term : ℕ
  pub success : Bool
  pub index : ℕ

pub record ProtoRequestVoteRequest : Type 0 where
  pub candidate_id : String
  pub term : ℕ
  pub last_log_index : ℕ
  pub last_log_term : ℕ
  pub prevote : Bool

pub record ProtoRequestVoteResponse : Type 0 where
  pub term : ℕ
  pub vote_granted : Bool

pub record ProtoInstallSnapshotRequest : Type 0 where
  pub leader : String
  pub term : ℕ
  pub last_included_index : ℕ
  pub last_included_term : ℕ
  pub configuration : List ℕ
  pub payload : List ℕ
  pub offset : ℕ
  pub done : Bool

pub record ProtoInstallSnapshotResponse : Type 0 where
  pub term : ℕ
  pub bytes_written : ℕ

-- Neither direction sets `Offset`, so it is 0 on the other side.
unfoldable pub make_proto_entry : LogEntry → ProtoLogEntry
unfolding proto_entry_type
make_proto_entry entry = record {
  index = entry.index;
  term = entry.term;
  offset = 0;
  payload = entry.data_bytes;
  entry_type = proto_entry_type entry.entry_type;
}

unfoldable pub make_proto_entries : List LogEntry → List ProtoLogEntry
unfolding make_proto_entry
make_proto_entries entries = map make_proto_entry entries

unfoldable pub make_entry : ProtoLogEntry → LogEntry
unfolding entry_type_of_proto
make_entry entry = record {
  index = entry.index;
  term = entry.term;
  offset = 0;
  data_bytes = entry.payload;
  entry_type = entry_type_of_proto entry.entry_type;
}

unfoldable pub make_entries : List ProtoLogEntry → List LogEntry
unfolding make_entry
make_entries entries = map make_entry entries

unfoldable pub make_proto_append_entries_request : AppendEntriesRequest → ProtoAppendEntriesRequest
unfolding make_proto_entries
make_proto_append_entries_request request = record {
  leader_id = request.leader_id;
  term = request.term;
  leader_commit = request.leader_commit;
  prev_log_index = request.prev_log_index;
  prev_log_term = request.prev_log_term;
  entries = make_proto_entries request.entries;
}

unfoldable pub make_append_entries_request : ProtoAppendEntriesRequest → AppendEntriesRequest
unfolding make_entries
make_append_entries_request request = record {
  leader_id = request.leader_id;
  term = request.term;
  leader_commit = request.leader_commit;
  prev_log_index = request.prev_log_index;
  prev_log_term = request.prev_log_term;
  entries = make_entries request.entries;
}

unfoldable pub make_proto_append_entries_response :
    AppendEntriesResponse → ProtoAppendEntriesResponse
make_proto_append_entries_response response = record {
  term = response.term;
  success = response.success;
  index = response.index;
}

unfoldable pub make_append_entries_response : ProtoAppendEntriesResponse → AppendEntriesResponse
make_append_entries_response response = record {
  term = response.term;
  success = response.success;
  index = response.index;
}

unfoldable pub make_proto_request_vote_request : RequestVoteRequest → ProtoRequestVoteRequest
make_proto_request_vote_request request = record {
  candidate_id = request.candidate_id;
  term = request.term;
  last_log_index = request.last_log_index;
  last_log_term = request.last_log_term;
  prevote = request.prevote;
}

unfoldable pub make_request_vote_request : ProtoRequestVoteRequest → RequestVoteRequest
make_request_vote_request request = record {
  candidate_id = request.candidate_id;
  term = request.term;
  last_log_index = request.last_log_index;
  last_log_term = request.last_log_term;
  prevote = request.prevote;
}

unfoldable pub make_proto_request_vote_response : RequestVoteResponse → ProtoRequestVoteResponse
make_proto_request_vote_response response = record {
  term = response.term;
  vote_granted = response.vote_granted;
}

unfoldable pub make_request_vote_response : ProtoRequestVoteResponse → RequestVoteResponse
make_request_vote_response response = record {
  term = response.term;
  vote_granted = response.vote_granted;
}

unfoldable pub make_proto_install_snapshot_request :
    InstallSnapshotRequest → ProtoInstallSnapshotRequest
make_proto_install_snapshot_request request = record {
  leader = request.leader_id;
  term = request.term;
  last_included_index = request.last_included_index;
  last_included_term = request.last_included_term;
  configuration = request.configuration;
  payload = request.bytes;
  offset = request.offset;
  done = request.done;
}

unfoldable pub make_install_snapshot_request : ProtoInstallSnapshotRequest → InstallSnapshotRequest
make_install_snapshot_request request = record {
  leader_id = request.leader;
  term = request.term;
  last_included_index = request.last_included_index;
  last_included_term = request.last_included_term;
  configuration = request.configuration;
  bytes = request.payload;
  offset = request.offset;
  done = request.done;
}

unfoldable pub make_proto_install_snapshot_response :
    InstallSnapshotResponse → ProtoInstallSnapshotResponse
make_proto_install_snapshot_response response = record {
  term = response.term;
  bytes_written = response.bytes_written;
}

unfoldable pub make_install_snapshot_response :
    ProtoInstallSnapshotResponse → InstallSnapshotResponse
make_install_snapshot_response response = record {
  term = response.term;
  bytes_written = response.bytes_written;
}
