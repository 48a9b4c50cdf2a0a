-- ===== src/Raft/Roles/Stored.antt =====
-- What the node has stored is what it goes by: the term and the vote.
use goraft.Prelude.{
  ℕ, ◌≡◌, refl, String, [], ◌∷◌, arith, ok, err, fatal, Outcome, Option, none, some, List, ◌⊎◌, inl,
  false,
}
use goraft.Log.{LogEntry, Log, truncate}
use goraft.Configuration.{Configuration}
use goraft.Requests.{
  AppendEntriesRequest, AppendEntriesResponse, RequestVoteRequest, RequestVoteResponse,
}
use goraft.Raft.{Raft, RpcError, is_leader}
use goraft.Raft.Roles.{
  become_follower, become_candidate, become_pre_candidate, next_configuration, stepdown,
  send_request_vote_to_peers,
}
use goraft.Raft.Append.{
  append_entries_handler, recognise_leader, replicate_request, merge_entries, overwrite, fall_back,
  advance_commit,
}
use goraft.Raft.Vote.{request_vote_handler, decide_vote, adopt_term}
use goraft.Raft.Election.{election, campaign, handle_vote_response, promote, count_vote}
use goraft.Raft.Election.Leads.{become_leader_lem}

abbrev pub IsStoredVote : Raft → Type 0
IsStoredVote r = (r.stored_term ≡ r.current_term) × (r.stored_vote ≡ r.voted_for)

become_follower-IsStoredVote :
    (now : ℕ) (id : String) (term : ℕ) (r : Raft) → IsStoredVote (become_follower now id term r)
unfolding become_follower
become_follower-IsStoredVote now id term r = (refl, refl)

become_candidate-IsStoredVote : (r : Raft) → IsStoredVote (become_candidate r)
unfolding become_candidate
become_candidate-IsStoredVote r = (refl, refl)

adopt_term-IsStoredVote :
    (now : ℕ) (q : RequestVoteRequest) (r : Raft)
    → IsStoredVote r
    → IsStoredVote (adopt_term now q r)
unfolding adopt_term
adopt_term-IsStoredVote now q r h =
    ground (arith, become_follower-IsStoredVote now q.candidate_id q.term r)

decide_vote-IsStoredVote :
    (now : ℕ) (q : RequestVoteRequest) (r : Raft)
    → IsStoredVote r
    → IsStoredVote (decide_vote now q r).0
unfolding decide_vote
decide_vote-IsStoredVote now q r h = ground arith

pub request_vote_handler-IsStoredVote :
    (now : ℕ) (q : RequestVoteRequest) (r s : Raft) (a : RequestVoteResponse)
    → IsStoredVote r
    → request_vote_handler now q r ≡ ok (s, a)
    → IsStoredVote s
unfolding request_vote_handler
request_vote_handler-IsStoredVote now q r s a h k =
    ground (
      arith,
      decide_vote-IsStoredVote now q (adopt_term now q r),
      adopt_term-IsStoredVote now q r h,
    )

send_request_vote_to_peers-IsStoredVote :
    (now : ℕ) (r : Raft) → IsStoredVote r → IsStoredVote (send_request_vote_to_peers now r)
unfolding send_request_vote_to_peers
send_request_vote_to_peers-IsStoredVote now r h = ground (arith, become_leader_lem now r)

campaign-IsStoredVote : (now : ℕ) (r : Raft) → IsStoredVote r → IsStoredVote (campaign now r)
unfolding campaign become_pre_candidate
campaign-IsStoredVote now r h = ground (
  arith,
  send_request_vote_to_peers-IsStoredVote now (become_candidate r)
      (become_candidate-IsStoredVote r),
  send_request_vote_to_peers-IsStoredVote now (become_pre_candidate r) h,
  send_request_vote_to_peers-IsStoredVote now r h,
)

pub election-IsStoredVote : (now : ℕ) (r : Raft) → IsStoredVote r → IsStoredVote (election now r)
unfolding election
election-IsStoredVote now r h = ground (arith, campaign-IsStoredVote now r h)

pub handle_vote_response-IsStoredVote :
    (now : ℕ) (id : String) (q : RequestVoteRequest) (o : Option RequestVoteResponse) (n : ℕ)
    (r : Raft)
    → IsStoredVote r
    → IsStoredVote (handle_vote_response now id q o n r).0
unfolding handle_vote_response
handle_vote_response-IsStoredVote now id q none n r h = h
handle_vote_response-IsStoredVote now id q (some a) n r h = ground (
  arith,
  become_leader_lem now (promote (count_vote n a) r),
  become_follower-IsStoredVote now id a.term r,
)

-- The name, terms, votes and times of r, and its role, unless it leads no more.
abbrev pub IsAs : Raft → Raft → Type 0
IsAs r s =
    (s.id ≡ r.id)
    × (s.current_term ≡ r.current_term)
    × (s.voted_for ≡ r.voted_for)
    × (s.stored_term ≡ r.stored_term)
    × (s.stored_vote ≡ r.stored_vote)
    × (s.last_contact ≡ r.last_contact)
    × (s.election_timeout ≡ r.election_timeout)
    × ((s.state ≡ r.state) ⊎ (is_leader s.state ≡ false))

pub IsAs-refl : (r : Raft) → IsAs r r
IsAs-refl r = (refl, refl, refl, refl, refl, refl, refl, inl refl)

pub IsAs-IsStoredVote : (r s : Raft) → IsAs r s → IsStoredVote r → IsStoredVote s
IsAs-IsStoredVote r s h k = ground arith

pub next_configuration-IsAs :
    (now : ℕ) (c : Configuration) (x r : Raft) → IsAs x r → IsAs x (next_configuration now c r)
unfolding next_configuration stepdown
next_configuration-IsAs now c x r h = ground arith

fall_back-IsAs : (now i : ℕ) (x r s : Raft) → IsAs x r → fall_back now i r ≡ ok s → IsAs x s
unfolding fall_back
fall_back-IsAs now i x r s h k = go r.committed_configuration refl
  where
    go : (o : Option Configuration) → r.committed_configuration ≡ o → IsAs x s
    go none eq = ground arith
    go (some c) eq = ground (arith, next_configuration-IsAs now c x r h)

overwrite-IsAs :
    (now : ℕ) (e : LogEntry) (es : List LogEntry) (x r s : Raft)
    → IsAs x r
    → overwrite now e es r ≡ ok s
    → IsAs x s
unfolding overwrite
overwrite-IsAs now e es x r s h k = go (truncate r.log e.index) refl
  where
    go : (o : Option Log) → truncate r.log e.index ≡ o → IsAs x s
    go none eq = ground arith
    go (some l) eq = went (fall_back now e.index (record r { log = l })) refl
      where
        went :
            (y : Outcome RpcError Raft)
            → fall_back now e.index (record r { log = l }) ≡ y
            → IsAs x s
        went (ok m) found =
            ground (arith, fall_back-IsAs now e.index x (record r { log = l }) m h found)
        went (err y) found = ground arith
        went fatal found = ground arith

merge_entries-IsAs :
    (now : ℕ) (es : List LogEntry) (x r s : Raft)
    → IsAs x r
    → merge_entries now es r ≡ ok s
    → IsAs x s
unfolding merge_entries
merge_entries-IsAs now [] x r s h k = ground arith
merge_entries-IsAs now (e ∷ es) x r s h k =
    ground (arith, merge_entries-IsAs now es x r s h, overwrite-IsAs now e es x r s h)

pub replicate_request-IsAs :
    (now : ℕ) (q : AppendEntriesRequest) (r s : Raft) (a : AppendEntriesResponse)
    → replicate_request now q r ≡ ok (s, a)
    → IsAs r s
unfolding replicate_request advance_commit
replicate_request-IsAs now q r s a k = go (merge_entries now q.entries r) refl
  where
    go : (y : Outcome RpcError Raft) → merge_entries now q.entries r ≡ y → IsAs r s
    go (ok m) found = ground (arith, merge_entries-IsAs now q.entries r r m (IsAs-refl r) found)
    go (err y) found = ground arith
    go fatal found = ground arith

recognise_leader-IsStoredVote :
    (now : ℕ) (q : AppendEntriesRequest) (r : Raft)
    → IsStoredVote r
    → IsStoredVote (recognise_leader now q r)
unfolding recognise_leader become_follower
recognise_leader-IsStoredVote now q r h = ground arith

pub append_entries_handler-IsStoredVote :
    (now : ℕ) (q : AppendEntriesRequest) (r s : Raft) (a : AppendEntriesResponse)
    → IsStoredVote r
    → append_entries_handler now q r ≡ ok (s, a)
    → IsStoredVote s
unfolding append_entries_handler
append_entries_handler-IsStoredVote now q r s a h k = ground (
  arith,
  replicate_request-IsAs now q (recognise_leader now q r) s a,
  recognise_leader-IsStoredVote now q r h,
)
