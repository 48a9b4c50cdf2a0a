-- ===== src/Raft/Vote/Guards.antt =====
-- Nodes that a leader has reached turn down its rivals while its lease is valid.
use goraft.Prelude.{ℕ, ◌+◌, ◌≤◌, ◌≡◌, ◌⊎◌, inl, inr, ◌∙◌, String, Bool, true, false, ok, arith}
use goraft.Lease.{Lease, renew, is_valid}
use goraft.Configuration.{Configuration, has_quorum}
use goraft.Configuration.Quorum.{voters_in, quorum_overlap}
use goraft.Requests.{
  AppendEntriesRequest, AppendEntriesResponse, RequestVoteRequest, RequestVoteResponse,
}
use goraft.Raft.{Raft}
use goraft.Raft.Roles.{become_follower}
use goraft.Raft.Roles.Stored.{replicate_request-IsAs}
use goraft.Raft.Append.{append_entries_handler, recognise_leader, replicate_request}
use goraft.Raft.Vote.{recently_contacted, request_vote_handler}

recognise_leader_contact :
    (now : ℕ) (q : AppendEntriesRequest) (r : Raft)
    → let s = recognise_leader now q r in
      (s.last_contact ≡ now) × (s.election_timeout ≡ r.election_timeout)
unfolding recognise_leader become_follower
recognise_leader_contact now q r = ground arith

runs :
    (now : ℕ) (q : AppendEntriesRequest) (r s : Raft) (a : AppendEntriesResponse)
    → append_entries_handler now q r ≡ ok (s, a)
    → r.current_term ≤ q.term
    → replicate_request now q (recognise_leader now q r) ≡ ok (s, a)
unfolding append_entries_handler
runs now q r s a h fresh = ground arith

-- A request of a term that is not behind is a contact, whether it is accepted or not.
append_entries_handler_contact :
    (now : ℕ) (q : AppendEntriesRequest) (r s : Raft) (a : AppendEntriesResponse)
    → append_entries_handler now q r ≡ ok (s, a)
    → r.current_term ≤ q.term
    → (s.last_contact ≡ now) × (s.election_timeout ≡ r.election_timeout)
append_entries_handler_contact now q r s a h fresh =
    let run = runs now q r s a h fresh in
    let (_, _, _, _, _, contact, timeout, _) =
      replicate_request-IsAs now q (recognise_leader now q r) s a run in
    let (now_contact, same_timeout) = recognise_leader_contact now q r in
    (contact ∙ now_contact, timeout ∙ same_timeout)

-- Refused, and unchanged.
abbrev pub Refuses : ℕ → Raft → Type 0
Refuses now r =
    (v : RequestVoteRequest) (s : Raft) (a : RequestVoteResponse)
    → request_vote_handler now v r ≡ ok (s, a)
    → (a.vote_granted ≡ false) × (s ≡ r)

guarded-Refuses :
    (now : ℕ) (r : Raft)
    → (is_valid now r.operation_manager.leader_lease ≡ true) ⊎ (recently_contacted now r ≡ true)
    → Refuses now r
unfolding request_vote_handler
guarded-Refuses now r h v s a run = (ground arith, ground arith)

-- A node has handled a request of a leader at a time from which its election timeout reaches as far
-- as the lease of that leader, and has had no earlier contact since.
pub record IsReached (lease : Lease) (r : Raft) : Type 0 where
  pub at : ℕ
  pub request : AppendEntriesRequest
  pub before : Raft
  pub after : Raft
  pub response : AppendEntriesResponse
  pub handled : append_entries_handler at request before ≡ ok (after, response)
  pub fresh : before.current_term ≤ request.term
  pub long_enough : lease.expiration ≤ at + before.election_timeout
  pub no_earlier_contact : after.last_contact ≤ r.last_contact
  pub same_timeout : r.election_timeout ≡ after.election_timeout

-- The node is reached, or holds a valid lease itself.
abbrev pub IsGuard : ℕ → Lease → Raft → Type 0
IsGuard now lease r = (is_valid now r.operation_manager.leader_lease ≡ true) ⊎ IsReached lease r

IsGuard-Refuses :
    (now : ℕ) (lease : Lease) (r : Raft)
    → is_valid now lease ≡ true
    → IsGuard now lease r
    → Refuses now r
unfolding is_valid recently_contacted
IsGuard-Refuses now lease r valid (inl own) = guarded-Refuses now r (inl own)
IsGuard-Refuses now lease r valid (inr g) =
    let (contact, timeout) =
      append_entries_handler_contact g.at g.request g.before g.after g.response g.handled g.fresh in
    guarded-Refuses now r
      (inr (ground (arith, contact, timeout, g.long_enough, g.no_earlier_contact, g.same_timeout)))

-- While a lease that a leader renewed is valid, every quorum of voters has a member that refuses
-- every vote request, prevotes too, and stays as it is. A quorum of voters guards the lease: each
-- of them holds a valid lease itself, or has handled an AppendEntries request of a term not behind
-- its own at a time from which its election timeout reaches at least to the end of the lease, and
-- has had no earlier contact since.
pub lease_guards :
    (now renewed : ℕ) (l : Lease) (c : Configuration) (nodes : String → Raft)
    (reached rivals : String → Bool)
    → is_valid now (renew renewed l) ≡ true
    → has_quorum c (voters_in reached c.is_voter) ≡ true
    → ((p : String) → reached p ≡ true → IsGuard now (renew renewed l) (nodes p))
    → has_quorum c (voters_in rivals c.is_voter) ≡ true
    → (p : String) × (rivals p ≡ true) × Refuses now (nodes p)
lease_guards now renewed l c nodes reached rivals valid quorum guard majority =
    let (p, in_reached, in_rivals) = quorum_overlap c reached rivals quorum majority in
    (p, in_rivals, IsGuard-Refuses now (renew renewed l) (nodes p) valid (guard p in_reached))
