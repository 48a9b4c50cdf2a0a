-- ===== src/Raft/Election/Late.antt =====
-- A request of an earlier election that `sendRequestVote` builds after the next one has begun.
use goraft.Prelude.{
  ℕ, ◌+◌, ◌<◌, ◌≤◌, ◌≡◌, List, [], ◌∷◌, length, All, String, some, true, false, add64, u64_mod,
  arith,
}
use goraft.Configuration.{Configuration, has_quorum, is_single_server}
use goraft.Requests.{RequestVoteRequest, RequestVoteResponse}
use goraft.Raft.{Raft, leader, candidate}
use goraft.Raft.Roles.{become_candidate, become_leader, send_request_vote_to_peers}
use goraft.Raft.Election.{
  election, campaign, vote_request, promote, count_vote, handle_vote_response,
}
use goraft.Raft.Election.Campaigns.{IsDue, runs}
use goraft.Raft.Election.Leads.{become_leader_lem}

-- The candidate after its next election.
next_election_lem :
    (now : ℕ) (r : Raft)
    → IsDue now r
    → r.state ≡ candidate
    → is_single_server r.configuration r.id ≡ false
    → let s = election now r in
      (s.state ≡ candidate)
      × (s.current_term ≡ add64 r.current_term 1)
      × (s.voted_for ≡ r.id)
      × (s.configuration ≡ r.configuration)
      × (s.id ≡ r.id)
unfolding campaign send_request_vote_to_peers become_candidate
next_election_lem now r d state many = ground (arith, runs now r d)

vote_request_lem :
    (id : String) (r : Raft) (q : RequestVoteRequest)
    → vote_request id false r ≡ some q
    → (q.term ≡ r.current_term) × (q.prevote ≡ false)
unfolding vote_request
vote_request_lem id r q h = (ground arith, ground arith)

majority_leads :
    (now v : ℕ) (id : String) (q : RequestVoteRequest) (a : RequestVoteResponse) (r : Raft)
    → r.state ≡ candidate
    → q.term ≡ r.current_term
    → q.prevote ≡ false
    → a.vote_granted ≡ true
    → a.term ≤ q.term
    → has_quorum r.configuration (v + 1) ≡ true
    → (handle_vote_response now id q (some a) v r).0 ≡ become_leader now r
unfolding handle_vote_response promote count_vote
majority_leads now v id q a r state term real granted known quorum = ground arith

has_quorum_lem :
    (c : Configuration) (m n : ℕ) → m ≤ n → has_quorum c n ≡ false → has_quorum c m ≡ false
unfolding has_quorum
has_quorum_lem c m n h few = ground (arith, h, few)

-- The answers to the calls of one election, handled one after the other with its count of votes.
unfoldable pub hear_answers :
    ℕ → RequestVoteRequest → List (String × RequestVoteResponse) → ℕ → Raft → Raft × ℕ
hear_answers now q [] votes r = (r, votes)
hear_answers now q (x ∷ xs) votes r =
    let heard = handle_vote_response now x.0 q (some x.1) votes r in
    hear_answers now q xs heard.1 heard.0

-- A granted vote, by a node of no later term, for the request that the candidate builds for it.
abbrev pub IsVoteIn : Raft → RequestVoteRequest → String × RequestVoteResponse → Type 0
IsVoteIn r q x =
    (vote_request x.0 false r ≡ some q) × (x.1.vote_granted ≡ true) × (x.1.term ≤ q.term)

minority_counts :
    (now v : ℕ) (id : String) (q : RequestVoteRequest) (a : RequestVoteResponse) (r : Raft)
    → r.state ≡ candidate
    → q.term ≡ r.current_term
    → a.vote_granted ≡ true
    → a.term ≤ q.term
    → has_quorum r.configuration (v + 1) ≡ false
    → handle_vote_response now id q (some a) v r ≡ (r, v + 1)
unfolding handle_vote_response promote count_vote
minority_counts now v id q a r state term granted known few = ground arith

hear_answers_lem :
    (now v : ℕ) (q : RequestVoteRequest) (xs : List (String × RequestVoteResponse)) (r : Raft)
    → r.state ≡ candidate
    → has_quorum r.configuration (v + length xs) ≡ false
    → All (IsVoteIn r q) xs
    → hear_answers now q xs v r ≡ (r, v + length xs)
unfolding hear_answers
hear_answers_lem now v q [] r state few all = ground arith
hear_answers_lem now v q (x ∷ xs) r state few ((built, granted, known), all) =
    let (term, _) = vote_request_lem x.0 r q built in
    let counted =
      minority_counts now v x.0 q x.1 r state term granted known
        (has_quorum_lem r.configuration (v + 1) (v + length (x ∷ xs)) (omega arith) few) in
    let rest = hear_answers_lem now (v + 1) q xs r state (ground (arith, few)) all in
    ground (arith, counted, rest)

-- A candidate of a cluster of more than one member, in a term at least 2 below 2^64, has an
-- election that is due. The votes that it then hears in the new term, from nodes of no later
-- term, are no quorum with its own, so that they only count. Another election is due, and takes
-- it to the term after that. A call of the earlier election that builds its request only now
-- asks for a vote in this last term; where that vote is granted by a node of no later term, and
-- makes a quorum together with the votes of the earlier term, the candidate leads the last
-- term, in which nobody else has answered it.
pub late_request_leads :
    (early heard due late : ℕ) (xs : List (String × RequestVoteResponse)) (id : String)
    (q1 q2 : RequestVoteRequest) (a : RequestVoteResponse) (r : Raft)
    → IsDue early r
    → r.state ≡ candidate
    → r.current_term + 2 < u64_mod
    → is_single_server r.configuration r.id ≡ false
    → All (IsVoteIn (election early r) q1) xs
    → has_quorum r.configuration (1 + length xs) ≡ false
    → IsDue due (election early r)
    → IsVoteIn (election due (election early r)) q2 (id, a)
    → has_quorum r.configuration (2 + length xs) ≡ true
    → let r1 = election early r in
      let first = hear_answers heard q1 xs 1 r1 in
      let r2 = election due first.0 in
      let s = (handle_vote_response late id q2 (some a) first.1 r2).0 in
      (r1.current_term ≡ r.current_term + 1)
      × (first ≡ (r1, 1 + length xs))
      × (q2.term ≡ r.current_term + 2)
      × (s.state ≡ leader)
      × (s.current_term ≡ r.current_term + 2)
late_request_leads early heard due late xs id q1 q2 a r d state small many all few again
      (built, granted, known) enough =
    let r1 = election early r in
    let r2 = election due r1 in
    let (state1, term1, _, conf1, id1) = next_election_lem early r d state many in
    let (state2, term2, _, conf2, _) =
      next_election_lem due r1 again state1 (rw (conf1, id1) many) in
    let (same, real) = vote_request_lem id r2 q2 built in
    let first = hear_answers_lem heard 1 q1 xs r1 state1 (rw conf1 few) all in
    let wins =
      majority_leads late (1 + length xs) id q2 a r2 state2 same real granted known
        (rw (conf2, conf1) (ground (arith, enough))) in
    let (leads, kept, _, _, _, _, _, _) = become_leader_lem late r2 in
    (
      omega (arith, term1),
      first,
      omega (arith, same, term1, term2),
      rw (first, wins) leads,
      rw (first, wins) (omega (arith, kept, term1, term2)),
    )
