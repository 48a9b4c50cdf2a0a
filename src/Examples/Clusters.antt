-- ===== src/Examples/Clusters.antt =====
-- A run of a cluster of three: n1 asks n2 for its vote, gets it and leads; and a late request.
use goraft.Prelude.{
  ℕ, ◌+◌, ◌≤◌, ◌≡◌, [], ◌∷◌, refl, inr, String, none, some, true, false, arith, eq_iff,
}
use goraft.Prelude.Assoc.{lookup}
use goraft.Log.{last_index, last_term}
use goraft.Lease.{is_valid}
use goraft.Configuration.{Configuration, votes_in, is_single_server, has_quorum, voters}
use goraft.Requests.{RequestVoteRequest, RequestVoteResponse}
use goraft.Raft.{Raft, leader, candidate, is_leader}
use goraft.Raft.Roles.{become_candidate, become_leader, send_request_vote_to_peers, become_follower}
use goraft.Raft.Vote.{
  recently_contacted, request_vote_handler, decide_vote, adopt_term, cast_vote, is_outdated,
}
use goraft.Raft.Election.{election, campaign, vote_request, handle_vote_response, promote}
use goraft.Raft.Election.Campaigns.{IsDue}
use goraft.Raft.Election.Late.{hear_answers, late_request_leads}
use goraft.Cluster.{
  Cluster, Round, Step, Run, begin, later, elects, asks, hears, counts, move, set_round, set_call,
  new_round, asked, answered, counted,
}
use goraft.Cluster.Ballots.{IsNode}
use goraft.Cluster.Sound.{IsMembership}
use goraft.Cluster.Safety.{IsFresh, election_safety, votes_are_final}
use goraft.Examples.{node, three_nodes}

abbrev rested : String → Raft
rested x = record (node candidate) {
  id = x;
  voted_for = "";
  current_term = 1;
  stored_vote = "";
  stored_term = 1;
}

abbrev before : Cluster
before = record { nodes = rested; rounds = λ k. none; history = λ x t. "" }

before-IsNode : (x : String) → IsNode three_nodes before x
before-IsNode x = record {
  named = refl;
  configured = refl;
  stored = (refl, refl);
  present = refl;
  no_future = λ t h. refl;
}

before-IsFresh : IsFresh three_nodes before
before-IsFresh = record { nodes = before-IsNode; no_round = λ k. refl; no_leader = λ x. refl }

three_nodes-IsMembership : IsMembership three_nodes
unfolding votes_in is_single_server lookup
three_nodes-IsMembership = record {
  distinct = (refl, (refl, (refl, tt)));
  nobody = refl;
  many = λ id. refl;
}

abbrev standing : Cluster
standing =
    set_round 0 (new_round (election 20 (rested "n1")))
      (move "n1" (election 20 (rested "n1")) before)

abbrev round_0 : Round
round_0 = new_round (election 20 (rested "n1"))

abbrev own_request : RequestVoteRequest
own_request = record {
  candidate_id = "n1";
  term = 2;
  last_log_index = 3;
  last_log_term = 2;
  prevote = false;
}

abbrev round_1 : Round
round_1 = set_call "n2" (asked own_request) round_0

abbrev asking : Cluster
asking = set_round 0 round_1 standing

abbrev voter : Raft
voter = cast_vote 20 "n1" (adopt_term 20 own_request (rested "n2"))

abbrev yes_vote : RequestVoteResponse
yes_vote = record { term = 2; vote_granted = true }

abbrev round_2 : Round
round_2 = set_call "n2" (answered own_request yes_vote) round_1

abbrev voted : Cluster
voted = set_round 0 round_2 (move "n2" voter asking)

abbrev winner : Raft
winner = (handle_vote_response 21 "n2" own_request (some yes_vote) 1 (election 20 (rested "n1"))).0

abbrev after : Cluster
after =
    set_round 0 (set_call "n2" (counted true) (record round_2 { votes = 2 }))
      (move "n1" winner voted)

due : IsDue 20 (rested "n1")
unfolding votes_in recently_contacted lookup
due = record { idle = inr (inr refl); voter = refl; uncontacted = refl }

standing_step : Step before standing
standing_step = elects 20 0 "n1" before due (omega arith) refl

asking_step : Step standing asking
unfolding set_round set_call new_round move election campaign become_candidate
    send_request_vote_to_peers vote_request votes_in is_single_server lookup recently_contacted
    last_index last_term
asking_step = asks 0 "n2" round_0 own_request standing refl refl refl refl refl

voted_step : Step asking voted
unfolding set_round set_call new_round move election campaign request_vote_handler decide_vote
    adopt_term is_outdated recently_contacted is_valid last_term last_index cast_vote
    become_follower
voted_step = hears 20 0 "n2" round_1 own_request voter yes_vote asking refl refl refl

after_step : Step voted after
unfolding set_round set_call new_round move election campaign become_candidate
    send_request_vote_to_peers votes_in is_single_server lookup recently_contacted
    handle_vote_response promote has_quorum voters become_leader
after_step = counts 21 0 "n2" round_2 own_request yes_vote winner 2 voted refl refl refl

after-leads : is_leader (after.nodes "n1").state ≡ true
unfolding set_round set_call new_round move election campaign become_candidate
    send_request_vote_to_peers votes_in is_single_server lookup recently_contacted
    handle_vote_response promote has_quorum voters become_leader
after-leads = refl

to_voted : Run before voted
to_voted =
    later before asking voted
      (later before standing asking (later before before standing (begin before) standing_step)
        asking_step)
      voted_step

election_safety_example : ◌≡◌ {A = String} "n1" "n1"
election_safety_example =
    election_safety three_nodes before after "n1" "n1" three_nodes-IsMembership before-IsFresh
      (later before voted after to_voted after_step) after-leads after-leads refl

voted-history : voted.history "n2" 2 ≡ "n1"
unfolding set_round move adopt_term cast_vote become_follower
voted-history = refl

votes_are_final_example :
    ((voted.nodes "n2").current_term ≤ (after.nodes "n2").current_term)
    × (after.history "n2" 2 ≡ "n1")
    × ((after.nodes "n2").current_term ≡ 2 → (after.nodes "n2").voted_for ≡ "n1")
    × ((after.nodes "n2").current_term ≡ 2 → (after.nodes "n2").stored_vote ≡ "n1")
votes_are_final_example =
    votes_are_final three_nodes before voted after "n2" "n1" 2 three_nodes-IsMembership
      before-IsFresh to_voted (later voted voted after (begin voted) after_step)
      (λ e. absurd (ground (arith, eq_iff "n1" ""))) voted-history

-- The candidate n1 of five nodes, in term 2.
abbrev five_nodes : Configuration
five_nodes = record {
  members = ("n1", "a1") ∷ ("n2", "a2") ∷ ("n3", "a3") ∷ ("n4", "a4") ∷ ("n5", "a5") ∷ [];
  is_voter = ("n1", true) ∷ ("n2", true) ∷ ("n3", true) ∷ ("n4", true) ∷ ("n5", true) ∷ [];
  index = 1;
}

abbrev of_five : Raft
of_five = record (node candidate) { configuration = five_nodes }

of_five-IsDue : IsDue 20 of_five
unfolding votes_in recently_contacted lookup
of_five-IsDue = record { idle = inr (inr refl); voter = refl; uncontacted = refl }

abbrev late_request : RequestVoteRequest
late_request = record own_request { term = 4 }

abbrev first_request : RequestVoteRequest
first_request = record own_request { term = 3 }

abbrev of_five_again : Raft
of_five_again = election 20 of_five

of_five_again-IsDue : IsDue 30 of_five_again
unfolding election campaign become_candidate send_request_vote_to_peers votes_in is_single_server
    lookup recently_contacted
of_five_again-IsDue = record { idle = inr (inr refl); voter = refl; uncontacted = refl }

built_first : vote_request "n2" false of_five_again ≡ some first_request
unfolding election campaign become_candidate send_request_vote_to_peers vote_request votes_in
    is_single_server lookup recently_contacted last_index last_term
built_first = refl

built_late : vote_request "n3" false (election 30 of_five_again) ≡ some late_request
unfolding election campaign become_candidate send_request_vote_to_peers vote_request votes_in
    is_single_server lookup recently_contacted last_index last_term
built_late = refl

five_not_alone : is_single_server five_nodes "n1" ≡ false
unfolding is_single_server
five_not_alone = refl

two_of_five : has_quorum five_nodes 2 ≡ false
unfolding has_quorum voters
two_of_five = refl

three_of_five : has_quorum five_nodes 3 ≡ true
unfolding has_quorum voters
three_of_five = refl

abbrev vote_in : ℕ → RequestVoteResponse
vote_in term = record { term = term; vote_granted = true }

-- Its own vote and that of n2 in term 3, and that of n3 in term 4.
late_request_leads_example :
    let first = hear_answers 21 first_request (("n2", vote_in 3) ∷ []) 1 of_five_again in
    let s =
      (handle_vote_response 31 "n3" late_request
        (some (vote_in 4))
        first.1
        (election 30 first.0)).0 in
    (of_five_again.current_term ≡ of_five.current_term + 1)
    × (first ≡ (of_five_again, 2))
    × (4 ≡ of_five.current_term + 2)
    × (s.state ≡ leader)
    × (s.current_term ≡ of_five.current_term + 2)
late_request_leads_example =
    late_request_leads 20 21 30 31 (("n2", vote_in 3) ∷ []) "n3" first_request late_request
      (vote_in 4) of_five of_five-IsDue refl (omega arith) five_not_alone
      ((built_first, refl, omega arith), tt) two_of_five of_five_again-IsDue
      (built_late, refl, omega arith) three_of_five
