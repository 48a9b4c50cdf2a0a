-- ===== src/Raft/Vote/Grants.antt =====
-- When a vote is granted, and what it binds the node to.
use goraft.Prelude.{
  ℕ, ◌+◌, ◌≤◌, ◌<◌, ◌≡◌, ◌≢◌, subst, ◌∙◌, ◌⊎◌, inl, inr, true, false, ltb, eq_iff, arith, ok,
}
use goraft.Log.{Log, last_index, last_term}
use goraft.Lease.{is_valid}
use goraft.Requests.{RequestVoteRequest, RequestVoteResponse}
use goraft.Raft.{Raft}
use goraft.Raft.Roles.{become_follower}
use goraft.Raft.Vote.{
  recently_contacted, is_outdated, decide_vote, adopt_term, request_vote_handler,
}

-- The candidate's log is at least as up to date: a later last term, or the same and no shorter.
abbrev pub IsUpToDate : RequestVoteRequest → Log → Type 0
IsUpToDate q l =
    (last_term l < q.last_log_term)
    ⊎ ((q.last_log_term ≡ last_term l) × (last_index l ≤ q.last_log_index))

-- What a granted vote says of the node before (r) and after (s).
pub record Granted (now : ℕ) (q : RequestVoteRequest) (r s : Raft) : Type 0 where
  pub up_to_date : IsUpToDate q r.log
  pub uncontacted : r.last_contact + r.election_timeout ≤ now
  pub no_lease : is_valid now r.operation_manager.leader_lease ≡ false
  pub current : r.current_term ≤ q.term
  pub prevote_changes_nothing : q.prevote ≡ true → s ≡ r
  pub in_term : q.prevote ≡ false → s.current_term ≡ q.term
  pub bound : q.prevote ≡ false → s.voted_for ≡ q.candidate_id
  pub stored : q.prevote ≡ false → (s.stored_term ≡ q.term) × (s.stored_vote ≡ q.candidate_id)
  pub only_vote :
      q.prevote ≡ false
      → r.current_term ≡ q.term
      → (r.voted_for ≡ "") ⊎ (r.voted_for ≡ q.candidate_id)
  pub same_log : s.log ≡ r.log

adopt_term_lem :
    (now : ℕ) (q : RequestVoteRequest) (r : Raft)
    → let s = adopt_term now q r in
      (s.log ≡ r.log)
      × ((s ≡ r)
          ⊎ ((q.prevote ≡ false)
              × (r.current_term < q.term)
              × (s.current_term ≡ q.term)
              × (s.voted_for ≡ "")))
      × (q.prevote ≡ true → s ≡ r)
      × (q.prevote ≡ false → r.current_term ≤ q.term → s.current_term ≡ q.term)
      × (r.current_term ≡ q.term → s ≡ r)
unfolding adopt_term become_follower
adopt_term_lem now q r = ground arith

is_outdated-IsUpToDate :
    (q : RequestVoteRequest) (l : Log) → is_outdated q l ≡ false → IsUpToDate q l
unfolding is_outdated
is_outdated-IsUpToDate q l h = ground arith

abbrev Decided : RequestVoteRequest → Raft → Raft × RequestVoteResponse → Type 0
Decided q r (s, a) =
    ((a.vote_granted ≡ true)
      × IsUpToDate q r.log
      × (q.prevote ≡ true → s ≡ r)
      × (s.current_term ≡ r.current_term)
      × (q.prevote ≡ false → s.voted_for ≡ q.candidate_id)
      × (q.prevote ≡ false → (s.stored_term ≡ r.current_term) × (s.stored_vote ≡ q.candidate_id))
      × (q.prevote ≡ false → (r.voted_for ≡ "") ⊎ (r.voted_for ≡ q.candidate_id))
      × (s.log ≡ r.log))
    ⊎ ((a.vote_granted ≡ false) × (s ≡ r))

decide_vote_lem : (now : ℕ) (q : RequestVoteRequest) (r : Raft) → Decided q r (decide_vote now q r)
unfolding decide_vote
decide_vote_lem now q r = ground (
  arith,
  is_outdated-IsUpToDate q r.log,
  eq_iff r.voted_for "",
  eq_iff r.voted_for q.candidate_id,
)

not_ltb_le : (a b : ℕ) → ltb a b ≡ false → b ≤ a
not_ltb_le a b h = ground arith

handler_passes :
    (now : ℕ) (q : RequestVoteRequest) (r s : Raft) (a : RequestVoteResponse)
    → request_vote_handler now q r ≡ ok (s, a)
    → a.vote_granted ≡ true
    → (is_valid now r.operation_manager.leader_lease ≡ false)
      × (recently_contacted now r ≡ false)
      × (ltb q.term r.current_term ≡ false)
      × (decide_vote now q (adopt_term now q r) ≡ (s, a))
unfolding request_vote_handler
handler_passes now q r s a h granted = ground arith

contact_lem :
    (now : ℕ) (r : Raft)
    → recently_contacted now r ≡ false
    → r.last_contact + r.election_timeout ≤ now
unfolding recently_contacted
contact_lem now r h = ground arith

Granted-of :
    (now : ℕ) (q : RequestVoteRequest) (r m s : Raft) (a : RequestVoteResponse)
    → is_valid now r.operation_manager.leader_lease ≡ false
    → r.last_contact + r.election_timeout ≤ now
    → r.current_term ≤ q.term
    → (m.log ≡ r.log)
      × (q.prevote ≡ true → m ≡ r)
      × (q.prevote ≡ false → m.current_term ≡ q.term)
      × (r.current_term ≡ q.term → m ≡ r)
    → decide_vote now q m ≡ (s, a)
    → a.vote_granted ≡ true
    → Granted now q r s
Granted-of now q r m s a lease contact term (log, pre, real, same) decided granted =
    elim (subst (Decided q m) decided (decide_vote_lem now q m)) [
      | inr (no_vote, _) ↦ absurd (cc (granted))
      | inl (_, fresh, unchanged, current, bound, stored, only, kept) ↦ record {
        up_to_date = rw (← log) fresh;
        uncontacted = contact;
        no_lease = lease;
        current = term;
        prevote_changes_nothing = λ p. unchanged p ∙ pre p;
        in_term = λ p. current ∙ real p;
        bound = bound;
        stored = λ p. ((stored p).0 ∙ real p, (stored p).1);
        only_vote = λ p t.
            subst (λ n. (n.voted_for ≡ "") ⊎ (n.voted_for ≡ q.candidate_id)) (same t) (only p);
        same_log = kept ∙ log;
      }
    ]

-- Where a RequestVote call is answered with a vote, the candidate's log was up to date, no leader
-- was in contact, no lease was valid, and the node's term was not later. A prevote leaves the node
-- as it was. A real vote puts the node in the request's term, is stored before the answer, and, if
-- that was the node's term before, comes only after no vote or one for the same candidate.
pub request_vote_handler-Granted :
    (now : ℕ) (q : RequestVoteRequest) (r s : Raft) (a : RequestVoteResponse)
    → request_vote_handler now q r ≡ ok (s, a)
    → a.vote_granted ≡ true
    → Granted now q r s
request_vote_handler-Granted now q r s a h granted =
    let (lease, contact, term, decided) = handler_passes now q r s a h granted in
    let (log, _, pre, real, same) = adopt_term_lem now q r in
    let current : r.current_term ≤ q.term = not_ltb_le q.term r.current_term term in
    Granted-of now q r (adopt_term now q r) s a lease (contact_lem now r contact) current
      (log, pre, (λ p. real p current), same) decided granted

decide_vote_keeps :
    (now : ℕ) (q : RequestVoteRequest) (r : Raft)
    → let s = (decide_vote now q r).0 in
      (s.current_term ≡ r.current_term) × ((r.voted_for ≡ "") ⊎ (s.voted_for ≡ r.voted_for))
unfolding decide_vote
decide_vote_keeps now q r = ground (arith, eq_iff r.voted_for "", eq_iff r.voted_for q.candidate_id)

handler_runs :
    (now : ℕ) (q : RequestVoteRequest) (r s : Raft) (a : RequestVoteResponse)
    → request_vote_handler now q r ≡ ok (s, a)
    → (s ≡ r) ⊎ ((r.current_term ≤ q.term) × ((decide_vote now q (adopt_term now q r)).0 ≡ s))
unfolding request_vote_handler
handler_runs now q r s a h = ground arith

-- A RequestVote call, granted or not, never lowers the term, and never takes back a vote that the
-- node has given in the term that it stays in.
pub request_vote_handler_keeps :
    (now : ℕ) (q : RequestVoteRequest) (r s : Raft) (a : RequestVoteResponse)
    → request_vote_handler now q r ≡ ok (s, a)
    → (r.current_term ≤ s.current_term)
      × (s.current_term ≡ r.current_term → r.voted_for ≢ "" → s.voted_for ≡ r.voted_for)
request_vote_handler_keeps now q r s a h = ground (
  arith,
  handler_runs now q r s a h,
  adopt_term_lem now q r,
  decide_vote_keeps now q (adopt_term now q r),
)
