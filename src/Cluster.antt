-- ===== src/Cluster.antt =====
-- raft.go: the nodes of a cluster with the vote requests between them. Each node is one of Raft.antt;
-- the goroutines of `sendRequestVoteToPeers` that share a counter are a round, and each of them takes
-- the lock twice: to build its request, and after the call to count the answer. Messages may be lost,
-- delayed and handled in any order.
pub mod Moves
pub mod Counts
pub mod Restarts
pub mod Ballots
pub mod Rounds
pub mod Sound
pub mod Steps
pub mod Safety
use goraft.Prelude.{
  ℕ, suc, ◌+◌, ◌<◌, ◌≤◌, ◌≡◌, ◌⊎◌, String, Option, none, some, Bool, true, false, ◌&&◌, ◌==◌,
  str_eq, if◌then◌else◌, ok, u64_mod, List,
}
use goraft.Log.{Log}
use goraft.Lifecycle.{Node, new_node, start}
use goraft.Configuration.{Configuration}
use goraft.Requests.{
  AppendEntriesRequest, AppendEntriesResponse, RequestVoteRequest, RequestVoteResponse,
  InstallSnapshotRequest, InstallSnapshotResponse,
}
use goraft.Raft.Roles.Works.{Work}
use goraft.Raft.Snapshot.{Installing, install_snapshot_handler}
use goraft.Raft.Snapshot.Install.{state_of}
use goraft.Raft.{Raft, SnapshotFile, is_candidate, is_pre_candidate}
use goraft.Raft.Append.{append_entries_handler}
use goraft.Raft.Vote.{request_vote_handler}
use goraft.Raft.Election.{election, vote_request, handle_vote_response}
use goraft.Raft.Election.Campaigns.{IsDue}

-- How far the call of one peer has come.
pub data Call : Type 0 where
  idle : Call
  asked : RequestVoteRequest → Call
  answered : RequestVoteRequest → RequestVoteResponse → Call
  counted : Bool → Call

-- The calls that one election starts, with the flag and the counter that they share. The code has no
-- variables for `candidate_id`, `term` and `call`: who started it, in which term, and its goroutines.
pub record Round : Type 0 where
  pub candidate_id : String
  pub term : ℕ
  pub prevote : Bool
  pub votes : ℕ
  pub call : String → Call

-- `history` is no part of a node: it has the last vote of each node in each term, "" for none.
pub record Cluster : Type 0 where
  pub nodes : String → Raft
  pub rounds : ℕ → Option Round
  pub history : String → ℕ → String

abbrev pub assign {ℓ} : {A : Type ℓ} → String → A → (String → A) → String → A
assign k a f x = if str_eq x k then a else f x

-- A node takes a step to s.
unfoldable pub move : String → Raft → Cluster → Cluster
move id s cl = record cl {
  nodes = assign id s cl.nodes;
  history = λ x t. if str_eq x id && (t == s.current_term) then s.voted_for else cl.history x t;
}

unfoldable pub set_round : ℕ → Round → Cluster → Cluster
set_round k rd cl = record cl { rounds = λ j. if j == k then some rd else cl.rounds j }

unfoldable pub set_call : String → Call → Round → Round
set_call p st rd = record rd { call = assign p st rd.call }

-- What `sendRequestVoteToPeers` starts on the node that `election` leaves.
unfoldable pub new_round : Raft → Round
new_round r = record {
  candidate_id = r.id;
  term = r.current_term;
  prevote = is_pre_candidate r.state;
  votes = 1;
  call = λ x. idle;
}

-- A new process of the same name, with what the old one has stored.
abbrev pub reopened : ℕ → ℕ → ℕ → Log → List SnapshotFile → Raft → Node
reopened opened timeout lease l snapshots r =
    new_node opened r.id timeout lease l r.stored_term r.stored_vote snapshots

-- A node is in an earlier term than this, or is not campaigning.
abbrev pub IsQuiet : Raft → ℕ → Type 0
IsQuiet r term =
    (r.current_term < term) ⊎ ((is_candidate r.state ≡ false) × (is_pre_candidate r.state ≡ false))

-- A request of a round is built while its node is still in the term of the round. A node that is
-- campaigning gets no AppendEntries or InstallSnapshot request of its own term, and no node changes
-- its configuration.
pub data Step : Cluster → Cluster → Type 0 where
  elects :
      (now k : ℕ) (id : String) (cl : Cluster)
      → IsDue now (cl.nodes id)
      → (cl.nodes id).current_term + 1 < u64_mod
      → cl.rounds k ≡ none
      → Step cl (
          set_round k
            (new_round (election now (cl.nodes id)))
            (move id (election now (cl.nodes id)) cl))
  asks :
      (k : ℕ) (p : String) (rd : Round) (q : RequestVoteRequest) (cl : Cluster)
      → cl.rounds k ≡ some rd
      → rd.call p ≡ idle
      → str_eq p rd.candidate_id ≡ false
      → (cl.nodes rd.candidate_id).current_term ≡ rd.term
      → vote_request p rd.prevote (cl.nodes rd.candidate_id) ≡ some q
      → Step cl (set_round k (set_call p (asked q) rd) cl)
  hears :
      (now k : ℕ) (p : String) (rd : Round) (q : RequestVoteRequest) (s : Raft)
      (a : RequestVoteResponse) (cl : Cluster)
      → cl.rounds k ≡ some rd
      → rd.call p ≡ asked q
      → request_vote_handler now q (cl.nodes p) ≡ ok (s, a)
      → Step cl (set_round k (set_call p (answered q a) rd) (move p s cl))
  counts :
      (now k : ℕ) (p : String) (rd : Round) (q : RequestVoteRequest) (a : RequestVoteResponse)
      (s : Raft) (v : ℕ) (cl : Cluster)
      → cl.rounds k ≡ some rd
      → rd.call p ≡ answered q a
      → handle_vote_response now p q (some a) rd.votes (cl.nodes rd.candidate_id) ≡ (s, v)
      → Step cl (
          set_round k
            (set_call p (counted a.vote_granted) (record rd { votes = v }))
            (move rd.candidate_id s cl))
  appends :
      (now : ℕ) (id : String) (q : AppendEntriesRequest) (s : Raft) (a : AppendEntriesResponse)
      (cl : Cluster)
      → append_entries_handler now q (cl.nodes id) ≡ ok (s, a)
      → IsQuiet (cl.nodes id) q.term
      → s.configuration ≡ (cl.nodes id).configuration
      → Step cl (move id s cl)
  installs :
      (now : ℕ) (id : String) (q : InstallSnapshotRequest) (i : Installing)
      (a : InstallSnapshotResponse) (cl : Cluster)
      → install_snapshot_handler now q (cl.nodes id) ≡ ok (i, a)
      → IsQuiet (cl.nodes id) q.term
      → (state_of i).configuration ≡ (cl.nodes id).configuration
      → Step cl (move id (state_of i) cl)
  works :
      (id : String) (s : Raft) (cl : Cluster)
      → Work (cl.nodes id) s
      → s.configuration ≡ (cl.nodes id).configuration
      → Step cl (move id s cl)
  restarts :
      (decode : List ℕ → Option Configuration) (opened now timeout lease : ℕ) (id : String)
      (l : Log) (snapshots : List SnapshotFile) (m : Node) (cl : Cluster)
      → start decode now true (reopened opened timeout lease l snapshots (cl.nodes id)) ≡ ok m
      → m.raft.configuration ≡ (cl.nodes id).configuration
      → Step cl (move id m.raft cl)

pub data Run : Cluster → Cluster → Type 0 where
  begin : (cl : Cluster) → Run cl cl
  later : (a b c : Cluster) → Run a b → Step b c → Run a c
