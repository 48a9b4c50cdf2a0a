-- ===== src/Raft/Roles/Terms.antt =====
-- What the transitions of raft.go leave alone.
use goraft.Prelude.{ℕ, ◌≡◌, arith}
use goraft.Configuration.{Configuration}
use goraft.Raft.{Raft}
use goraft.Raft.Roles.{next_configuration, send_append_entries_to_peers}

-- The fields that elections, commits and snapshots depend on.
pub record Frame (r s : Raft) : Type 0 where
  pub same_id : s.id ≡ r.id
  pub same_commit_index : s.commit_index ≡ r.commit_index
  pub same_last_applied : s.last_applied ≡ r.last_applied
  pub same_current_term : s.current_term ≡ r.current_term
  pub same_voted_for : s.voted_for ≡ r.voted_for
  pub same_stored_term : s.stored_term ≡ r.stored_term
  pub same_stored_vote : s.stored_vote ≡ r.stored_vote
  pub same_last_included_index : s.last_included_index ≡ r.last_included_index
  pub same_last_included_term : s.last_included_term ≡ r.last_included_term
  pub same_last_contact : s.last_contact ≡ r.last_contact
  pub same_election_timeout : s.election_timeout ≡ r.election_timeout

pub Frame-refl : (r : Raft) → Frame r r
Frame-refl r = ground arith

-- A new configuration touches neither the log nor the terms, votes and commits.
pub next_configuration-Frame :
    (now : ℕ) (c : Configuration) (r : Raft)
    → Frame r (next_configuration now c r)
      × ((next_configuration now c r).log ≡ r.log)
      × ((next_configuration now c r).configuration ≡ c)
unfolding next_configuration
next_configuration-Frame now c r = ground arith

-- Nor does the start of a round of heartbeats.
pub send_append_entries_to_peers-Frame :
    (now : ℕ) (r : Raft)
    → Frame r (send_append_entries_to_peers now r)
      × ((send_append_entries_to_peers now r).log ≡ r.log)
      × ((send_append_entries_to_peers now r).state ≡ r.state)
      × ((send_append_entries_to_peers now r).configuration ≡ r.configuration)
      × ((send_append_entries_to_peers now r).committed_configuration ≡ r.committed_configuration)
unfolding send_append_entries_to_peers
send_append_entries_to_peers-Frame now r = ground arith
