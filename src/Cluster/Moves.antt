-- ===== src/Cluster/Moves.antt =====
-- What each handler leaves of a node's name, configuration, term, vote and role.
use goraft.Prelude.{
  ℕ, ◌+◌, ◌≤◌, ◌<◌, ◌≡◌, refl, ◌⊎◌, inl, inr, true, false, arith, ok, u64_mod, eq_iff, ◌∙◌, ap,
}
use goraft.Configuration.{is_single_server}
use goraft.Requests.{RequestVoteRequest, RequestVoteResponse}
use goraft.Raft.{Raft, pre_candidate, is_leader, is_pre_candidate}
use goraft.Raft.Roles.{
  become_follower, become_pre_candidate, become_candidate, send_request_vote_to_peers,
}
use goraft.Raft.Vote.{request_vote_handler, decide_vote, adopt_term, cast_vote}
use goraft.Raft.Vote.Grants.{request_vote_handler_keeps}
use goraft.Raft.Election.{campaign, election}
use goraft.Raft.Election.Campaigns.{IsDue, runs}

-- The vote of a term is not taken back, and the term does not go down.
pub record KeepsVote (r s : Raft) : Type 0 where
  pub no_earlier : r.current_term ≤ s.current_term
  pub same_vote : s.current_term ≡ r.current_term → (r.voted_for ≡ "") ⊎ (s.voted_for ≡ r.voted_for)
  pub same_id : s.id ≡ r.id
  pub same_configuration : s.configuration ≡ r.configuration

-- Whoever leads after it has led before, in the same term.
abbrev pub MakesNoLeader : Raft → Raft → Type 0
MakesNoLeader r s =
    is_leader s.state ≡ true → (is_leader r.state ≡ true) × (s.current_term ≡ r.current_term)

decide_vote_frame :
    (now : ℕ) (q : RequestVoteRequest) (r : Raft)
    → let s = (decide_vote now q r).0 in
      (s.id ≡ r.id)
      × (s.configuration ≡ r.configuration)
      × (s.state ≡ r.state)
      × (s.current_term ≡ r.current_term)
unfolding decide_vote cast_vote
decide_vote_frame now q r = ground arith

adopt_term_frame :
    (now : ℕ) (q : RequestVoteRequest) (r : Raft)
    → let s = adopt_term now q r in
      (s.id ≡ r.id) × (s.configuration ≡ r.configuration) × MakesNoLeader r s
unfolding adopt_term become_follower
adopt_term_frame now q r = ground arith

request_vote_handler_frame :
    (now : ℕ) (q : RequestVoteRequest) (r s : Raft) (a : RequestVoteResponse)
    → request_vote_handler now q r ≡ ok (s, a)
    → (s.id ≡ r.id) × (s.configuration ≡ r.configuration) × MakesNoLeader r s
unfolding request_vote_handler
request_vote_handler_frame now q r s a h =
    ground (arith, adopt_term_frame now q r, decide_vote_frame now q (adopt_term now q r))

pub request_vote_handler-KeepsVote :
    (now : ℕ) (q : RequestVoteRequest) (r s : Raft) (a : RequestVoteResponse)
    → request_vote_handler now q r ≡ ok (s, a)
    → KeepsVote r s × MakesNoLeader r s
request_vote_handler-KeepsVote now q r s a h =
    let (id, conf, lead) = request_vote_handler_frame now q r s a h in
    let (no_earlier, kept) = request_vote_handler_keeps now q r s a h in
    (
      record {
        no_earlier = no_earlier;
        same_vote = λ t. ground (arith, eq_iff r.voted_for "", kept t);
        same_id = id;
        same_configuration = conf;
      },
      lead,
    )

-- A round of requests, where another server has to be asked, changes nothing on the node.
asks_frame :
    (now : ℕ) (r : Raft)
    → is_single_server r.configuration r.id ≡ false
    → let s = send_request_vote_to_peers now r in
      (s.id ≡ r.id)
      × (s.configuration ≡ r.configuration)
      × (s.state ≡ r.state)
      × (s.current_term ≡ r.current_term)
      × (s.voted_for ≡ r.voted_for)
unfolding send_request_vote_to_peers
asks_frame now r many = ground arith

-- A node that campaigns: its own vote in the next term, or prevotes in the term that it has.
pub record Campaigning (r s : Raft) : Type 0 where
  pub keeps : KeepsVote r s
  pub no_leader : is_leader s.state ≡ false
  pub own_vote : is_pre_candidate s.state ≡ false → s.voted_for ≡ r.id

Campaigning-of :
    (r c s : Raft)
    → (s.id ≡ c.id)
      × (s.configuration ≡ c.configuration)
      × (s.state ≡ c.state)
      × (s.current_term ≡ c.current_term)
      × (s.voted_for ≡ c.voted_for)
    → Campaigning r c
    → Campaigning r s
Campaigning-of r c s (id, conf, state, term, vote) h = record {
  keeps = record {
    no_earlier = rw term h.keeps.no_earlier;
    same_vote = rw (term, vote) h.keeps.same_vote;
    same_id = id ∙ h.keeps.same_id;
    same_configuration = conf ∙ h.keeps.same_configuration;
  };
  no_leader = rw state h.no_leader;
  own_vote = rw (state, vote) h.own_vote;
}

become_candidate-Campaigning :
    (r : Raft) → r.current_term + 1 < u64_mod → Campaigning r (become_candidate r)
unfolding become_candidate
become_candidate-Campaigning r small = record {
  keeps = record {
    no_earlier = omega arith;
    same_vote = λ e. absurd (omega arith);
    same_id = refl;
    same_configuration = refl;
  };
  no_leader = refl;
  own_vote = λ e. refl;
}

become_pre_candidate-Campaigning : (r : Raft) → Campaigning r (become_pre_candidate r)
unfolding become_pre_candidate
become_pre_candidate-Campaigning r = record {
  keeps = record {
    no_earlier = omega arith;
    same_vote = λ e. inr refl;
    same_id = refl;
    same_configuration = refl;
  };
  no_leader = refl;
  own_vote = λ e. absurd (cc e);
}

pre_candidate-Campaigning : (r : Raft) → r.state ≡ pre_candidate → Campaigning r r
pre_candidate-Campaigning r h = record {
  keeps = record {
    no_earlier = omega arith;
    same_vote = λ e. inr refl;
    same_id = refl;
    same_configuration = refl;
  };
  no_leader = ap is_leader h;
  own_vote = λ e. absurd (ground arith);
}

-- The node from which the requests go out.
campaign-Campaigning :
    (now : ℕ) (r : Raft)
    → IsDue now r
    → r.current_term + 1 < u64_mod
    → (c : Raft) × (election now r ≡ send_request_vote_to_peers now c) × Campaigning r c
unfolding campaign become_pre_candidate
campaign-Campaigning now r d small = elim d.idle [
  | inl h ↦ (become_pre_candidate r, runs now r d ∙ rw h refl, become_pre_candidate-Campaigning r)
  | inr (inl h) ↦ (r, runs now r d ∙ rw h refl, pre_candidate-Campaigning r h)
  | inr (inr h) ↦
      (become_candidate r, runs now r d ∙ rw h refl, become_candidate-Campaigning r small)
]

pub election-Campaigning :
    (now : ℕ) (r : Raft)
    → IsDue now r
    → r.current_term + 1 < u64_mod
    → is_single_server r.configuration r.id ≡ false
    → Campaigning r (election now r)
election-Campaigning now r d small many =
    let (c, e, h) = campaign-Campaigning now r d small in
    rw e (
      Campaigning-of r c (send_request_vote_to_peers now c)
        (asks_frame now c (rw (h.keeps.same_configuration, h.keeps.same_id) many)) h)
