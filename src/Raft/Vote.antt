-- ===== src/Raft/Vote.antt =====
-- raft.go: `RequestVote`, the handler of a voter.
pub mod Grants
pub mod Forgets
pub mod Guards
use goraft.Prelude.{
  ℕ, ◌+◌, String, Bool, true, false, not, ◌&&◌, ◌||◌, ltb, ◌==◌, str_eq, if◌then◌else◌, Outcome, ok,
  err,
}
use goraft.Log.{Log, last_index, last_term}
use goraft.Lease.{is_valid}
use goraft.Requests.{RequestVoteRequest, RequestVoteResponse}
use goraft.Raft.{Raft, RpcError, is_down, is_shutdown}
use goraft.Raft.Roles.{become_follower, persist_term_and_vote}

-- Within an election timeout of the last contact: `time.Since(lastContact) < electionTimeout`.
unfoldable pub recently_contacted : ℕ → Raft → Bool
recently_contacted now r = ltb now (r.last_contact + r.election_timeout)

-- The candidate's log is behind this one.
unfoldable pub is_outdated : RequestVoteRequest → Log → Bool
is_outdated q l =
    ltb q.last_log_term (last_term l)
    || ((q.last_log_term == last_term l) && ltb q.last_log_index (last_index l))

unfoldable pub cast_vote : ℕ → String → Raft → Raft
unfolding persist_term_and_vote
cast_vote now candidate_id r =
    persist_term_and_vote (record r { last_contact = now; voted_for = candidate_id })

-- Past the tests on contact and term.
unfoldable pub decide_vote : ℕ → RequestVoteRequest → Raft → Raft × RequestVoteResponse
unfolding is_outdated cast_vote
decide_vote now q r =
    if not q.prevote && (not (str_eq r.voted_for "") && not (str_eq r.voted_for q.candidate_id))
    then (r, record { term = r.current_term; vote_granted = false })
    else if is_outdated q r.log
    then (r, record { term = r.current_term; vote_granted = false })
    else (
      if q.prevote then r else cast_vote now q.candidate_id r,
      record { term = r.current_term; vote_granted = true },
    )

-- A real election of a later term makes the node a follower in that term.
unfoldable pub adopt_term : ℕ → RequestVoteRequest → Raft → Raft
adopt_term now q r =
    if not q.prevote && ltb r.current_term q.term
    then become_follower now q.candidate_id q.term r
    else r

unfoldable pub request_vote_handler :
    ℕ → RequestVoteRequest → Raft → Outcome RpcError (Raft × RequestVoteResponse)
request_vote_handler now q r =
    if is_shutdown r.state
    then err is_down
    else if is_valid now r.operation_manager.leader_lease || recently_contacted now r
    then ok (r, record { term = r.current_term; vote_granted = false })
    else if ltb q.term r.current_term
    then ok (r, record { term = r.current_term; vote_granted = false })
    else ok (decide_vote now q (adopt_term now q r))
