-- ===== src/Examples/Votes.antt =====
-- Votes on concrete data.
use goraft.Prelude.{
  add64, String, Bool, ◌||◌, str_eq, ◌≡◌, ◌⊎◌, inl, inr, refl, [], ◌∷◌, true, false, some, arith,
  ok,
}
use goraft.Prelude.Assoc.{lookup}
use goraft.Log.{
  append_entry, new_log_entry, next_index, last_index, last_term, no_op_entry, get_entry,
}
use goraft.Lease.{Lease, renew, is_valid}
use goraft.Configuration.Quorum.{voters_in}
use goraft.Raft.Vote.Guards.{IsReached, Refuses, lease_guards}
use goraft.Configuration.{has_quorum, voters, votes_in, is_single_server}
use goraft.Requests.{AppendEntriesRequest, RequestVoteRequest, RequestVoteResponse}
use goraft.Raft.{Raft, leader, follower, pre_candidate, candidate, is_leader}
use goraft.Raft.Roles.{become_follower}
use goraft.Raft.Roles.Stored.{IsStoredVote}
use goraft.Raft.Roles.Steps.{Steps, none_left, first, appends, elects, Steps-IsStoredVote}
use goraft.Raft.Append.{
  append_entries_handler, recognise_leader, advance_commit, replicate_request, check_previous,
  merge_entries,
}
use goraft.Raft.Vote.{
  recently_contacted, request_vote_handler, decide_vote, adopt_term, cast_vote, is_outdated,
}
use goraft.Raft.Vote.Grants.{IsUpToDate, Granted, request_vote_handler-Granted}
use goraft.Raft.Vote.Forgets.{heartbeat_frees_vote}
use goraft.Raft.Election.{election, handle_vote_response}
use goraft.Raft.Election.Leads.{Elected, handle_vote_response-Elected}
use goraft.Raft.Election.Campaigns.{IsDue, election_alone}
use goraft.Examples.{node, three_nodes, vote_request_3}

-- The node after its vote for n3 at time 20.
abbrev voted : Raft
voted = cast_vote 20 "n3" (adopt_term 20 vote_request_3 (node follower))

votes :
    request_vote_handler 20 vote_request_3 (node follower)
    ≡ ok (voted, record { term = 3; vote_granted = true })
unfolding request_vote_handler decide_vote adopt_term is_outdated recently_contacted is_valid
    last_term last_index cast_vote become_follower
votes = refl

request_vote_handler-Granted_example : Granted 20 vote_request_3 (node follower) voted
request_vote_handler-Granted_example =
    request_vote_handler-Granted 20 vote_request_3 (node follower) voted
      (record { term = 3; vote_granted = true }) votes refl

-- A vote of n2 for the candidate n1, the second of two needed.
abbrev own_request : RequestVoteRequest
own_request = record {
  candidate_id = "n1";
  term = 2;
  last_log_index = 3;
  last_log_term = 2;
  prevote = false;
}

abbrev yes_vote : RequestVoteResponse
yes_vote = record { term = 2; vote_granted = true }

handle_vote_response-Elected_example :
    let (s, v) = handle_vote_response 20 "n2" own_request (some yes_vote) 1 (node candidate) in
    ((v ≡ 1) ⊎ ((true ≡ true) × (v ≡ 2)))
    × ((is_leader s.state ≡ false) ⊎ Elected own_request v (node candidate) s)
handle_vote_response-Elected_example =
    handle_vote_response-Elected 20 "n2" own_request yes_vote 1 (node candidate) refl

due : IsDue 20 (node candidate)
unfolding votes_in recently_contacted lookup
due = record { idle = inr (inr refl); voter = refl; uncontacted = refl }

not_alone : is_single_server three_nodes "n1" ≡ false
unfolding is_single_server
not_alone = refl

-- The node as the only member, without a vote.
abbrev lonely : Raft
lonely = record (node follower) {
  configuration = record { members = ("n1", "a1") ∷ []; is_voter = ("n1", true) ∷ []; index = 1 };
  voted_for = "";
  stored_vote = "";
}

lonely-IsDue : IsDue 20 lonely
unfolding votes_in recently_contacted lookup
lonely-IsDue = record { idle = inl refl; voter = refl; uncontacted = refl }

alone : is_single_server lonely.configuration "n1" ≡ true
unfolding is_single_server lookup
alone = refl

election_alone_example :
    let s = election 20 lonely in
    (s.state ≡ leader)
    × (s.log
        ≡ append_entry lonely.log
            (new_log_entry (next_index lonely.log) s.current_term [] no_op_entry))
    × ((((follower ≡ follower) ⊎ (follower ≡ pre_candidate))
          × (s.current_term ≡ 2)
          × (s.voted_for ≡ "")
          × (s.stored_term ≡ 2)
          × (s.stored_vote ≡ ""))
        ⊎ ((follower ≡ candidate)
            × (s.current_term ≡ add64 2 1)
            × (s.voted_for ≡ "n1")
            × (s.stored_term ≡ add64 2 1)
            × (s.stored_vote ≡ "n1")))
election_alone_example = election_alone 20 lonely lonely-IsDue alone

-- The candidate n1 has voted for itself in term 2, and n2 leads that term.
abbrev heartbeat : AppendEntriesRequest
heartbeat = record {
  leader_id = "n2";
  term = 2;
  leader_commit = 1;
  prev_log_index = 2;
  prev_log_term = 1;
  entries = [];
}

abbrev following : Raft
following = advance_commit 1 (recognise_leader 12 heartbeat (node candidate))

beaten :
    append_entries_handler 12 heartbeat (node candidate)
    ≡ ok (following, record { term = 2; success = true; index = 0 })
unfolding append_entries_handler replicate_request check_previous merge_entries advance_commit
    recognise_leader become_follower get_entry next_index
beaten = refl

-- n3 asks for a vote in the same term.
abbrev rival_request : RequestVoteRequest
rival_request = record vote_request_3 { term = 2 }

up_to_date : IsUpToDate rival_request following.log
unfolding advance_commit recognise_leader become_follower last_index last_term
up_to_date = inr (refl, omega arith)

unleased : is_valid 30 following.operation_manager.leader_lease ≡ false
unfolding is_valid advance_commit recognise_leader become_follower
unleased = refl

uncontacted : recently_contacted 30 following ≡ false
unfolding recently_contacted advance_commit recognise_leader become_follower
uncontacted = refl

heartbeat_frees_vote_example :
    (following.current_term ≡ 2)
    × (following.voted_for ≡ "")
    × (request_vote_handler 30 rival_request following
        ≡ ok (cast_vote 30 "n3" following, record { term = 2; vote_granted = true }))
heartbeat_frees_vote_example =
    heartbeat_frees_vote 12 30 heartbeat rival_request (node candidate) following
      (record { term = 2; success = true; index = 0 }) (inl refl) refl refl beaten refl refl
      up_to_date unleased uncontacted

-- A heartbeat, and an election after it.
two-Steps : Steps (node candidate) (election 40 following)
two-Steps =
    first (node candidate) following (election 40 following)
      (appends 12 heartbeat (node candidate) following
        (record { term = 2; success = true; index = 0 }) beaten)
      (first following (election 40 following) (election 40 following)
        (elects 40 following (election 40 following) refl) (none_left (election 40 following)))

Steps-IsStoredVote_example : IsStoredVote (election 40 following)
Steps-IsStoredVote_example =
    Steps-IsStoredVote (node candidate) (election 40 following) two-Steps (refl, refl)

-- n1 and n2 are as `following` is at time 12, and the lease is renewed then.
abbrev lease : Lease
lease = record { expiration = 0; duration = 5 }

following-IsReached : IsReached (renew 12 lease) following
unfolding renew
following-IsReached = record {
  at = 12;
  request = heartbeat;
  before = node candidate;
  after = following;
  response = record { term = 2; success = true; index = 0 };
  handled = beaten;
  fresh = omega arith;
  long_enough = omega arith;
  no_earlier_contact = omega arith;
  same_timeout = refl;
}

abbrev two_of_three : String → Bool
two_of_three p = str_eq p "n1" || str_eq p "n2"

two_of_three-quorum : has_quorum three_nodes (voters_in two_of_three three_nodes.is_voter) ≡ true
unfolding has_quorum voters
two_of_three-quorum = refl

leased : is_valid 16 (renew 12 lease) ≡ true
unfolding is_valid renew
leased = refl

lease_guards_example : (p : String) × (two_of_three p ≡ true) × Refuses 16 following
lease_guards_example =
    lease_guards 16 12 lease three_nodes (λ p. following) two_of_three two_of_three leased
      two_of_three-quorum (λ p h. inr following-IsReached) two_of_three-quorum
