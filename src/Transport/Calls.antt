-- ===== src/Transport/Calls.antt =====
-- A call over the wire is a call of the other node's handler.
use mathlib.Core.Option
use goraft.Prelude.{◌≡◌, refl, Option, none, some, true, false}
use goraft.Requests.{
  AppendEntriesRequest, AppendEntriesResponse, RequestVoteRequest, RequestVoteResponse,
  InstallSnapshotRequest, InstallSnapshotResponse,
}
use goraft.Requests.Proto.{
  make_append_entries_response, make_proto_append_entries_response, make_request_vote_request,
  make_request_vote_response, make_proto_request_vote_request, make_proto_request_vote_response,
  make_install_snapshot_request, make_install_snapshot_response,
  make_proto_install_snapshot_request, make_proto_install_snapshot_response,
}
use goraft.Requests.RoundTrip.{sent_request, make_append_entries_request-make_proto}
use goraft.Transport.{
  send_append_entries, send_request_vote, send_install_snapshot, append_entries, request_vote,
  install_snapshot,
}

append_entries_answer :
    (o : Option AppendEntriesResponse)
    → Option.map make_append_entries_response (Option.map make_proto_append_entries_response o) ≡ o
unfolding make_append_entries_response make_proto_append_entries_response
append_entries_answer none = refl
append_entries_answer (some x) = refl

-- Over a running transport, an AppendEntries call connected to a server of `handler` returns what
-- `handler` answers to the request, whose entries arrive without their file offsets. An error of
-- the handler is an error of the call, and a transport that is not running makes no call.
pub send_append_entries-append_entries :
    (handler : AppendEntriesRequest → Option AppendEntriesResponse) (r : AppendEntriesRequest)
    → (send_append_entries true (append_entries handler) r ≡ handler (sent_request r))
      × (send_append_entries false (append_entries handler) r ≡ none)
unfolding send_append_entries append_entries
send_append_entries-append_entries handler r = (
  rw make_append_entries_request-make_proto (append_entries_answer (handler (sent_request r))),
  refl,
)

request_vote_answer :
    (o : Option RequestVoteResponse)
    → Option.map make_request_vote_response (Option.map make_proto_request_vote_response o) ≡ o
unfolding make_request_vote_response make_proto_request_vote_response
request_vote_answer none = refl
request_vote_answer (some x) = refl

-- Over a running transport, a RequestVote call connected to a server of `handler` returns what
-- `handler` answers; a transport that is not running makes no call.
pub send_request_vote-request_vote :
    (handler : RequestVoteRequest → Option RequestVoteResponse) (r : RequestVoteRequest)
    → (send_request_vote true (request_vote handler) r ≡ handler r)
      × (send_request_vote false (request_vote handler) r ≡ none)
unfolding send_request_vote request_vote make_request_vote_request make_request_vote_response
    make_proto_request_vote_request make_proto_request_vote_response
send_request_vote-request_vote handler r = (request_vote_answer (handler r), refl)

install_snapshot_answer :
    (o : Option InstallSnapshotResponse)
    → Option.map make_install_snapshot_response (Option.map make_proto_install_snapshot_response o)
      ≡ o
unfolding make_install_snapshot_response make_proto_install_snapshot_response
install_snapshot_answer none = refl
install_snapshot_answer (some x) = refl

-- Over a running transport, an InstallSnapshot call connected to a server of `handler` returns what
-- `handler` answers; a transport that is not running makes no call.
pub send_install_snapshot-install_snapshot :
    (handler : InstallSnapshotRequest → Option InstallSnapshotResponse) (r : InstallSnapshotRequest)
    → (send_install_snapshot true (install_snapshot handler) r ≡ handler r)
      × (send_install_snapshot false (install_snapshot handler) r ≡ none)
unfolding send_install_snapshot install_snapshot make_install_snapshot_request
    make_install_snapshot_response make_proto_install_snapshot_request
    make_proto_install_snapshot_response
send_install_snapshot-install_snapshot handler r = (install_snapshot_answer (handler r), refl)
