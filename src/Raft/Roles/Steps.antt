-- ===== src/Raft/Roles/Steps.antt =====
-- Sequences of the steps that the handlers and loops make on one node, in any order.
use goraft.Prelude.{ℕ, ◌≡◌, String, subst, ok, Option}
use goraft.Requests.{
  AppendEntriesRequest, AppendEntriesResponse, RequestVoteRequest, RequestVoteResponse,
  InstallSnapshotRequest, InstallSnapshotResponse,
}
use goraft.Raft.{Raft}
use goraft.Raft.Roles.Kept.{install_snapshot_handler-IsStoredVote}
use goraft.Raft.Snapshot.{Installing, install_snapshot_handler}
use goraft.Raft.Snapshot.Install.{state_of}
use goraft.Raft.Roles.Stored.{
  IsStoredVote, request_vote_handler-IsStoredVote, append_entries_handler-IsStoredVote,
  election-IsStoredVote, handle_vote_response-IsStoredVote,
}
use goraft.Raft.Roles.Works.{Work, Work-Lasts, Lasts-IsStoredVote}
use goraft.Raft.Append.{append_entries_handler}
use goraft.Raft.Vote.{request_vote_handler}
use goraft.Raft.Election.{election, handle_vote_response}

-- One step, at any time and with any message.
pub data Step : Raft → Raft → Type 0 where
  votes :
      (now : ℕ) (q : RequestVoteRequest) (r s : Raft) (a : RequestVoteResponse)
      → request_vote_handler now q r ≡ ok (s, a)
      → Step r s
  appends :
      (now : ℕ) (q : AppendEntriesRequest) (r s : Raft) (a : AppendEntriesResponse)
      → append_entries_handler now q r ≡ ok (s, a)
      → Step r s
  elects : (now : ℕ) (r s : Raft) → election now r ≡ s → Step r s
  counts :
      (now : ℕ) (id : String) (q : RequestVoteRequest) (o : Option RequestVoteResponse) (n : ℕ)
      (r s : Raft)
      → (handle_vote_response now id q o n r).0 ≡ s
      → Step r s
  installs :
      (now : ℕ) (q : InstallSnapshotRequest) (r : Raft) (i : Installing)
      (a : InstallSnapshotResponse)
      → install_snapshot_handler now q r ≡ ok (i, a)
      → Step r (state_of i)
  works : (r s : Raft) → Work r s → Step r s

pub data Steps : Raft → Raft → Type 0 where
  none_left : (r : Raft) → Steps r r
  first : (r m s : Raft) → Step r m → Steps m s → Steps r s

Step-IsStoredVote : (r s : Raft) → Step r s → IsStoredVote r → IsStoredVote s
Step-IsStoredVote _ _ (votes now q r s a h) k = request_vote_handler-IsStoredVote now q r s a k h
Step-IsStoredVote _ _ (appends now q r s a h) k =
    append_entries_handler-IsStoredVote now q r s a k h
Step-IsStoredVote _ _ (elects now r s h) k = subst IsStoredVote h (election-IsStoredVote now r k)
Step-IsStoredVote _ _ (counts now id q o n r s h) k =
    subst IsStoredVote h (handle_vote_response-IsStoredVote now id q o n r k)
Step-IsStoredVote _ _ (installs now q r i a h) k =
    install_snapshot_handler-IsStoredVote now q r i a k h
Step-IsStoredVote _ _ (works r s w) k = Lasts-IsStoredVote r s (Work-Lasts r s w) k

-- Whatever sequence of requests, answers, elections, commit rounds, applied entries, client
-- calls, membership changes and snapshots a node handles, if its stored term and vote are its
-- current ones before, they are after.
pub Steps-IsStoredVote : (r s : Raft) → Steps r s → IsStoredVote r → IsStoredVote s
Steps-IsStoredVote _ _ (none_left r) k = k
Steps-IsStoredVote _ _ (first r m s step rest) k =
    Steps-IsStoredVote m s rest (Step-IsStoredVote r m step k)
