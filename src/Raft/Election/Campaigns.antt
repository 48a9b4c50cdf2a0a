-- ===== src/Raft/Election/Campaigns.antt =====
-- What `election` does when an election is due.
use goraft.Prelude.{ℕ, ◌≡◌, refl, ◌∙◌, ◌⊎◌, inl, inr, [], true, false, arith, add64}
use goraft.Log.{append_entry, new_log_entry, next_index, no_op_entry}
use goraft.Configuration.{votes_in, is_single_server}
use goraft.Raft.{Raft, leader, follower, pre_candidate, candidate}
use goraft.Raft.Roles.{
  become_pre_candidate, become_candidate, become_leader, send_request_vote_to_peers,
}
use goraft.Raft.Vote.{recently_contacted}
use goraft.Raft.Election.{campaign, election}
use goraft.Raft.Election.Leads.{become_leader_lem}

-- A voting node without recent contact that is neither the leader nor shut down.
pub record IsDue (now : ℕ) (r : Raft) : Type 0 where
  pub idle : (r.state ≡ follower) ⊎ ((r.state ≡ pre_candidate) ⊎ (r.state ≡ candidate))
  pub voter : votes_in r.configuration r.id ≡ true
  pub uncontacted : recently_contacted now r ≡ false

pub runs : (now : ℕ) (r : Raft) → IsDue now r → election now r ≡ campaign now r
unfolding election
runs now r d = ground (arith, d.idle, d.voter, d.uncontacted)

asks :
    (now : ℕ) (r : Raft)
    → is_single_server r.configuration r.id ≡ false
    → let s = send_request_vote_to_peers now r in
      (s.state ≡ r.state)
      × (s.current_term ≡ r.current_term)
      × (s.voted_for ≡ r.voted_for)
      × (s.stored_term ≡ r.stored_term)
      × (s.stored_vote ≡ r.stored_vote)
      × (s.log ≡ r.log)
unfolding send_request_vote_to_peers
asks now r h = ground arith

-- The node that asks for votes.
abbrev pub Asking : Raft → Raft → Type 0
Asking r c =
    ((c.state ≡ pre_candidate)
      × ((r.state ≡ follower) ⊎ (r.state ≡ pre_candidate))
      × (c.current_term ≡ r.current_term)
      × (c.voted_for ≡ r.voted_for)
      × (c.stored_term ≡ r.stored_term)
      × (c.stored_vote ≡ r.stored_vote))
    ⊎ ((c.state ≡ candidate)
        × (r.state ≡ candidate)
        × (c.current_term ≡ add64 r.current_term 1)
        × (c.voted_for ≡ r.id)
        × (c.stored_term ≡ add64 r.current_term 1)
        × (c.stored_vote ≡ r.id))

campaign_lem :
    (now : ℕ) (r : Raft)
    → (r.state ≡ follower) ⊎ ((r.state ≡ pre_candidate) ⊎ (r.state ≡ candidate))
    → (c : Raft) × (campaign now r ≡ send_request_vote_to_peers now c)
      × (c.log ≡ r.log)
      × (c.configuration ≡ r.configuration)
      × (c.id ≡ r.id)
      × Asking r c
unfolding campaign become_candidate become_pre_candidate
campaign_lem now r (inl h) =
    (become_pre_candidate r, rw h refl, refl, refl, refl, inl (refl, inl h, refl, refl, refl, refl))
campaign_lem now r (inr (inl h)) =
    (r, rw h refl, refl, refl, refl, inl (h, inr h, refl, refl, refl, refl))
campaign_lem now r (inr (inr h)) =
    (become_candidate r, rw h refl, refl, refl, refl, inr (refl, h, refl, refl, refl, refl))

leads_alone :
    (now : ℕ) (r : Raft)
    → is_single_server r.configuration r.id ≡ true
    → send_request_vote_to_peers now r ≡ become_leader now r
unfolding send_request_vote_to_peers
leads_alone now r h = rw h refl

-- A node that is due and not alone: a follower or pre-candidate asks for prevotes and keeps its
-- term and vote; a candidate asks for votes in the next term, with its own vote, both stored.
pub election_asks :
    (now : ℕ) (r : Raft)
    → IsDue now r
    → is_single_server r.configuration r.id ≡ false
    → let s = election now r in (s.log ≡ r.log) × Asking r s
election_asks now r d many =
    let (c, eq, log, conf, id, asking) = campaign_lem now r d.idle in
    let (state, term, vote, st, sv, kept) = asks now c (rw (conf, id) many) in
    rw (runs now r d ∙ eq) (kept ∙ log, rw (state, term, vote, st, sv) asking)

-- The only member of its configuration, a voter that is due, leads at once, with a no-op entry
-- of its term at the end of its log. A candidate has gone to the next term and voted for
-- itself, both stored; a follower or a pre-candidate leads in the term that it had, and its
-- vote, also the stored one, is what it was.
pub election_alone :
    (now : ℕ) (r : Raft)
    → IsDue now r
    → is_single_server r.configuration r.id ≡ true
    → let s = election now r in
      (s.state ≡ leader)
      × (s.log
          ≡ append_entry r.log (new_log_entry (next_index r.log) s.current_term [] no_op_entry))
      × ((((r.state ≡ follower) ⊎ (r.state ≡ pre_candidate))
            × (s.current_term ≡ r.current_term)
            × (s.voted_for ≡ r.voted_for)
            × (s.stored_term ≡ r.stored_term)
            × (s.stored_vote ≡ r.stored_vote))
          ⊎ ((r.state ≡ candidate)
              × (s.current_term ≡ add64 r.current_term 1)
              × (s.voted_for ≡ r.id)
              × (s.stored_term ≡ add64 r.current_term 1)
              × (s.stored_vote ≡ r.id)))
election_alone now r d alone =
    let (c, eq, log, conf, id, asking) = campaign_lem now r d.idle in
    ground (
      arith,
      runs now r d ∙ eq ∙ leads_alone now c (rw (conf, id) alone),
      become_leader_lem now c,
      log,
      asking,
    )
