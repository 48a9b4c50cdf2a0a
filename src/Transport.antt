-- ===== src/Transport.antt =====
-- transport.go: the sending side and the serving side of the three calls. gRPC is a parameter: a
-- call of a client returns the server's answer or an error (`none`). The lock is held throughout.
pub mod Calls
pub mod Connections
pub mod Serving
use mathlib.Core.Option
use goraft.Prelude.{Option, none, Bool, if◌then◌else◌}
use goraft.Requests.{
  AppendEntriesRequest, AppendEntriesResponse, RequestVoteRequest, RequestVoteResponse,
  InstallSnapshotRequest, InstallSnapshotResponse,
}
use goraft.Requests.Proto.{
  ProtoAppendEntriesRequest, ProtoAppendEntriesResponse, ProtoRequestVoteRequest,
  ProtoRequestVoteResponse, ProtoInstallSnapshotRequest, ProtoInstallSnapshotResponse,
  make_append_entries_request, make_append_entries_response, make_proto_append_entries_request,
  make_proto_append_entries_response, make_request_vote_request, make_request_vote_response,
  make_proto_request_vote_request, make_proto_request_vote_response, make_install_snapshot_request,
  make_install_snapshot_response, make_proto_install_snapshot_request,
  make_proto_install_snapshot_response,
}

-- `client` is what `getClient` returns and the call on it: `none` if either fails.
unfoldable pub send_append_entries :
    Bool
    → (ProtoAppendEntriesRequest → Option ProtoAppendEntriesResponse)
    → AppendEntriesRequest
    → Option AppendEntriesResponse
send_append_entries running client request =
    if running
    then Option.map make_append_entries_response
        (client (make_proto_append_entries_request request))
    else none

unfoldable pub send_request_vote :
    Bool
    → (ProtoRequestVoteRequest → Option ProtoRequestVoteResponse)
    → RequestVoteRequest
    → Option RequestVoteResponse
send_request_vote running client request =
    if running
    then Option.map make_request_vote_response (client (make_proto_request_vote_request request))
    else none

unfoldable pub send_install_snapshot :
    Bool
    → (ProtoInstallSnapshotRequest → Option ProtoInstallSnapshotResponse)
    → InstallSnapshotRequest
    → Option InstallSnapshotResponse
send_install_snapshot running client request =
    if running
    then Option.map make_install_snapshot_response
        (client (make_proto_install_snapshot_request request))
    else none

-- The serving side: the registered handler between the two conversions. `none` is the error
-- status that the caller gets where the handler returns an error.
unfoldable pub append_entries :
    (AppendEntriesRequest → Option AppendEntriesResponse)
    → ProtoAppendEntriesRequest
    → Option ProtoAppendEntriesResponse
append_entries handler request =
    Option.map make_proto_append_entries_response (handler (make_append_entries_request request))

unfoldable pub request_vote :
    (RequestVoteRequest → Option RequestVoteResponse)
    → ProtoRequestVoteRequest
    → Option ProtoRequestVoteResponse
request_vote handler request =
    Option.map make_proto_request_vote_response (handler (make_request_vote_request request))

unfoldable pub install_snapshot :
    (InstallSnapshotRequest → Option InstallSnapshotResponse)
    → ProtoInstallSnapshotRequest
    → Option ProtoInstallSnapshotResponse
install_snapshot handler request =
    Option.map make_proto_install_snapshot_response
      (handler (make_install_snapshot_request request))
