-- ===== src/Raft/Election.antt =====
-- raft.go: `election`, and the two halves of `sendRequestVote`, which gives the lock away for the
-- call. `votes` is the counter that the calls of one election share.
pub mod Leads
pub mod Campaigns
pub mod Late
use goraft.Prelude.{
  ℕ, suc, ◌+◌, String, [], ◌∷◌, Option, none, some, Bool, true, false, not, ◌&&◌, ◌||◌, ltb,
  if◌then◌else◌, add64,
}
use goraft.Log.{last_index, last_term}
use goraft.Configuration.{votes_in, has_quorum}
use goraft.Requests.{RequestVoteRequest, RequestVoteResponse}
use goraft.Event.{wake, election_cond}
use goraft.Raft.{
  Raft, candidate, is_leader, is_follower, is_pre_candidate, is_candidate, is_shutdown, emit,
}
use goraft.Raft.Roles.{
  become_follower, become_pre_candidate, become_candidate, become_leader,
  send_request_vote_to_peers,
}
use goraft.Raft.Vote.{recently_contacted}

-- Past the test whether an election is due.
unfoldable pub campaign : ℕ → Raft → Raft
campaign now r =
    let r1 = if is_follower r.state then become_pre_candidate r else r in
    let r2 = if is_candidate r1.state then become_candidate r1 else r1 in
    send_request_vote_to_peers now r2

unfoldable pub election : ℕ → Raft → Raft
election now r =
    if is_leader r.state
      || (is_shutdown r.state || (not (votes_in r.configuration r.id) || recently_contacted now r))
    then r
    else campaign now r

-- The request, if this node and the peer vote.
unfoldable pub vote_request : String → Bool → Raft → Option RequestVoteRequest
vote_request id prevote r =
    if not (votes_in r.configuration id) || not (votes_in r.configuration r.id)
    then none
    else some (record {
      candidate_id = r.id;
      term = if prevote then add64 r.current_term 1 else r.current_term;
      last_log_index = last_index r.log;
      last_log_term = last_term r.log;
      prevote = prevote;
    })

-- A majority of prevotes makes a candidate.
unfoldable pub promote : ℕ → Raft → Raft
promote votes r =
    if has_quorum r.configuration votes && is_pre_candidate r.state
    then emit (wake election_cond ∷ []) (record r { state = candidate })
    else r

unfoldable pub count_vote : ℕ → RequestVoteResponse → ℕ
count_vote votes a = if a.vote_granted then votes + 1 else votes

-- After the call: `none` is its error.
unfoldable pub handle_vote_response :
    ℕ → String → RequestVoteRequest → Option RequestVoteResponse → ℕ → Raft → Raft × ℕ
unfolding promote count_vote
handle_vote_response now id q none votes r = (r, votes)
handle_vote_response now id q (some a) votes r =
    if is_shutdown r.state
    then (r, votes)
    else if ltb q.term r.current_term
    then (r, votes)
    else let v = count_vote votes a in
      if ltb q.term a.term
      then (become_follower now id a.term r, v)
      else let r1 = promote v r in
        if not q.prevote && (has_quorum r1.configuration v && is_candidate r1.state)
        then (become_leader now r1, v)
        else (r1, v)
