-- ===== src/Raft/Election/Leads.antt =====
-- Who becomes the leader, and in which term.
use goraft.Prelude.{ℕ, ◌+◌, ◌≤◌, ◌≡◌, refl, ◌⊎◌, String, [], some, true, false, arith}
use goraft.Log.{next_index, append_entry, new_log_entry, no_op_entry}
use goraft.Configuration.{has_quorum}
use goraft.Requests.{RequestVoteRequest, RequestVoteResponse}
use goraft.Raft.{Raft, leader, follower, pre_candidate, candidate, is_leader}
use goraft.Raft.Roles.{become_follower, become_leader}
use goraft.Raft.Election.{promote, count_vote, handle_vote_response}

-- A new leader keeps its term and its vote, and appends a no-op entry of that term to its log.
pub become_leader_lem :
    (now : ℕ) (r : Raft)
    → let s = become_leader now r in
      (s.state ≡ leader)
      × (s.current_term ≡ r.current_term)
      × (s.voted_for ≡ r.voted_for)
      × (s.stored_term ≡ r.stored_term)
      × (s.stored_vote ≡ r.stored_vote)
      × (s.commit_index ≡ r.commit_index)
      × (s.log
          ≡ append_entry r.log (new_log_entry (next_index r.log) r.current_term [] no_op_entry))
      × (s.configuration ≡ r.configuration)
unfolding become_leader
become_leader_lem now r = ground arith

become_follower_lem :
    (now : ℕ) (id : String) (term : ℕ) (r : Raft)
    → let s = become_follower now id term r in
      (s.state ≡ follower) × (s.current_term ≡ term) × (s.voted_for ≡ "") × (s.log ≡ r.log)
unfolding become_follower
become_follower_lem now id term r = (refl, refl, refl, refl)

-- How a node that is not the leader becomes it by an answer to a vote request.
pub record Elected (q : RequestVoteRequest) (votes : ℕ) (r s : Raft) : Type 0 where
  pub was_campaigning : (r.state ≡ candidate) ⊎ (r.state ≡ pre_candidate)
  pub real : q.prevote ≡ false
  pub majority : has_quorum r.configuration votes ≡ true
  pub fresh : r.current_term ≤ q.term
  pub same_term : s.current_term ≡ r.current_term
  pub same_vote : s.voted_for ≡ r.voted_for

-- By an answer to a vote request a node that is not the leader becomes the leader only as a candidate or pre-candidate,
-- in an election that is no prevote and not of an earlier term than its own, with a quorum of the
-- votes counted; and it leads in the term that it had, with the vote that it had cast. Each answer adds one to
-- the count if it grants the vote, and nothing otherwise.
pub handle_vote_response-Elected :
    (now : ℕ) (id : String) (q : RequestVoteRequest) (a : RequestVoteResponse) (votes : ℕ)
    (r : Raft)
    → is_leader r.state ≡ false
    → let (s, v) = handle_vote_response now id q (some a) votes r in
      ((v ≡ votes) ⊎ ((a.vote_granted ≡ true) × (v ≡ votes + 1)))
      × ((is_leader s.state ≡ false) ⊎ Elected q v r s)
unfolding handle_vote_response
handle_vote_response-Elected now id q a votes r h = ground (
  arith,
  become_leader_lem now (promote (count_vote votes a) r),
  become_follower_lem now id a.term r,
)
