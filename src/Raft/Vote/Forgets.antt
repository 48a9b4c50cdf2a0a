-- ===== src/Raft/Vote/Forgets.antt =====
-- What a heartbeat of the same term does to a vote: `AppendEntries` and then `RequestVote`.
use goraft.Prelude.{ℕ, ◌≡◌, refl, sym, ap, ◌∙◌, ◌⊎◌, true, false, ltb, arith, ok, []}
use goraft.Lease.{is_valid}
use goraft.Requests.{AppendEntriesRequest, AppendEntriesResponse, RequestVoteRequest}
use goraft.Raft.{Raft, candidate, pre_candidate, is_shutdown}
use goraft.Raft.Roles.{become_follower}
use goraft.Raft.Append.{
  recognise_leader, replicate_request, append_entries_handler, merge_entries, advance_commit,
}
use goraft.Raft.Vote.{
  recently_contacted, is_outdated, cast_vote, decide_vote, adopt_term, request_vote_handler,
}
use goraft.Raft.Vote.Grants.{IsUpToDate}

recognise_leader_forgets :
    (now : ℕ) (q : AppendEntriesRequest) (r : Raft)
    → (r.state ≡ candidate) ⊎ (r.state ≡ pre_candidate)
    → q.term ≡ r.current_term
    → ((recognise_leader now q r).voted_for ≡ "")
      × ((recognise_leader now q r).current_term ≡ q.term)
      × (is_shutdown (recognise_leader now q r).state ≡ false)
unfolding recognise_leader become_follower
recognise_leader_forgets now q r c t = ground arith

advance_commit_keeps :
    (c : ℕ) (r : Raft)
    → ((advance_commit c r).voted_for ≡ r.voted_for)
      × ((advance_commit c r).current_term ≡ r.current_term)
      × ((advance_commit c r).state ≡ r.state)
unfolding advance_commit
advance_commit_keeps c r = ground arith

heartbeat_merges : (now : ℕ) (r : Raft) → merge_entries now [] r ≡ ok r
unfolding merge_entries
heartbeat_merges now r = refl

heartbeat_keeps :
    (now : ℕ) (q : AppendEntriesRequest) (r s : Raft) (a : AppendEntriesResponse)
    → q.entries ≡ []
    → replicate_request now q r ≡ ok (s, a)
    → (s.voted_for ≡ r.voted_for) × (s.current_term ≡ r.current_term) × (s.state ≡ r.state)
unfolding replicate_request
heartbeat_keeps now q r s a none_sent h =
    ground (arith, heartbeat_merges now r, advance_commit_keeps q.leader_commit r)

handler_runs :
    (now : ℕ) (q : AppendEntriesRequest) (r s : Raft) (a : AppendEntriesResponse)
    → (r.state ≡ candidate) ⊎ (r.state ≡ pre_candidate)
    → q.term ≡ r.current_term
    → append_entries_handler now q r ≡ ok (s, a)
    → replicate_request now q (recognise_leader now q r) ≡ ok (s, a)
unfolding append_entries_handler
handler_runs now q r s a c t h = ground arith

not_outdated :
    (v : RequestVoteRequest) (s : Raft) → IsUpToDate v s.log → is_outdated v s.log ≡ false
unfolding is_outdated
not_outdated v s h = ground arith

same_term_kept :
    (later : ℕ) (v : RequestVoteRequest) (s : Raft)
    → v.term ≡ s.current_term
    → adopt_term later v s ≡ s
unfolding adopt_term
same_term_kept later v s term = ground arith

free_decides :
    (later : ℕ) (v : RequestVoteRequest) (s : Raft)
    → s.voted_for ≡ ""
    → v.prevote ≡ false
    → is_outdated v s.log ≡ false
    → decide_vote later v s
      ≡ (cast_vote later v.candidate_id s, record { term = s.current_term; vote_granted = true })
unfolding decide_vote
free_decides later v s free real fresh = rw (real, free, fresh) refl

not_later : (a b : ℕ) → a ≡ b → ltb a b ≡ false
not_later a b e = ground arith

votes_again :
    (later : ℕ) (v : RequestVoteRequest) (s : Raft)
    → s.voted_for ≡ ""
    → is_shutdown s.state ≡ false
    → v.prevote ≡ false
    → v.term ≡ s.current_term
    → is_outdated v s.log ≡ false
    → is_valid later s.operation_manager.leader_lease ≡ false
    → recently_contacted later s ≡ false
    → request_vote_handler later v s
      ≡ ok (cast_vote later v.candidate_id s, record { term = s.current_term; vote_granted = true })
unfolding request_vote_handler
votes_again later v s free up real term fresh lease contact =
    rw
      (
        up,
        lease,
        contact,
        not_later v.term s.current_term term,
        same_term_kept later v s term,
        free_decides later v s free real fresh,
      )
      refl

-- A candidate or pre-candidate that handles a heartbeat of its own term stays in that term and
-- forgets the vote that it gave in it: once its election timeout has passed again, with no lease
-- valid, it grants a real vote of the same term to any candidate whose log is up to date.
pub heartbeat_frees_vote :
    (now later : ℕ) (q : AppendEntriesRequest) (v : RequestVoteRequest) (r s : Raft)
    (a : AppendEntriesResponse)
    → (r.state ≡ candidate) ⊎ (r.state ≡ pre_candidate)
    → q.term ≡ r.current_term
    → q.entries ≡ []
    → append_entries_handler now q r ≡ ok (s, a)
    → v.prevote ≡ false
    → v.term ≡ r.current_term
    → IsUpToDate v s.log
    → is_valid later s.operation_manager.leader_lease ≡ false
    → recently_contacted later s ≡ false
    → (s.current_term ≡ r.current_term)
      × (s.voted_for ≡ "")
      × (request_vote_handler later v s
          ≡ ok (
            cast_vote later v.candidate_id s,
            record { term = r.current_term; vote_granted = true },
          ))
heartbeat_frees_vote now later q v r s a campaigning same heartbeat h real term fresh lease
      contact =
    let (free, current, up) = recognise_leader_forgets now q r campaigning same in
    let (vote, kept, state) =
      heartbeat_keeps now q (recognise_leader now q r) s a heartbeat
        (handler_runs now q r s a campaigning same h) in
    let stays : s.current_term ≡ r.current_term = kept ∙ (current ∙ same) in
    (
      stays,
      vote ∙ free,
      rw (← stays) (
          votes_again later v s (vote ∙ free) (ap is_shutdown state ∙ up) real (term ∙ sym stays)
            (not_outdated v s fresh) lease contact),
    )
