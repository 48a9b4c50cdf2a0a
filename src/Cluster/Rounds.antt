-- ===== src/Cluster/Rounds.antt =====
-- A round and the votes that its calls have brought.
use goraft.Prelude.{
  ℕ, ◌+◌, ◌≤◌, ◌≡◌, ◌≢◌, refl, ◌⊎◌, inl, inr, String, Option, none, some, Bool, true, false, ◌||◌,
  str_eq, eq_iff, arith, Bool-cases, subst, eq_refl,
}
use goraft.Prelude.Assoc.{lookup}
use goraft.Configuration.{Configuration, votes_in}
use goraft.Configuration.Quorum.{voters_in, Distinct}
use goraft.Requests.{RequestVoteRequest, RequestVoteResponse}
use goraft.Raft.{Raft, is_pre_candidate}
use goraft.Raft.Election.{vote_request}
use goraft.Cluster.{
  Call, idle, asked, answered, counted, Round, Cluster, set_call, new_round, assign,
}
use goraft.Cluster.Ballots.{Grows, voters_in-add, voters_in_mono}

-- The election that a round is for.
pub record Election : Type 0 where
  pub candidate : String
  pub term : ℕ
  pub prevote : Bool

abbrev pub election_of : Round → Election
election_of rd = record { candidate = rd.candidate_id; term = rd.term; prevote = rd.prevote }

-- A request of the election for this voter.
pub record IsAsked (c : Configuration) (e : Election) (p : String) (q : RequestVoteRequest)
    : Type 0 where
  pub same_kind : q.prevote ≡ e.prevote
  pub from_candidate : q.candidate_id ≡ e.candidate
  pub in_term : e.prevote ≡ false → q.term ≡ e.term
  pub voter : votes_in c p ≡ true
  pub another : str_eq p e.candidate ≡ false

abbrev pub HasVoted : Cluster → Election → String → Type 0
HasVoted cl e p = e.prevote ≡ false → cl.history p e.term ≡ e.candidate

abbrev pub IsCall : Configuration → Cluster → Election → String → Call → Type 0
IsCall c cl e p idle = Unit
IsCall c cl e p (asked q) = IsAsked c e p q
IsCall c cl e p (answered q a) = IsAsked c e p q × (a.vote_granted ≡ true → HasVoted cl e p)
IsCall c cl e p (counted b) = b ≡ true → HasVoted cl e p

abbrev pub is_yes : Call → Bool
is_yes (counted b) = b
is_yes _ = false

-- The candidate and those whose votes it has counted.
abbrev pub supports : Round → String → Bool
supports rd p = str_eq p rd.candidate_id || is_yes (rd.call p)

-- The counter is no more than the voters whose votes have come in, and they have given them.
pub record IsRound (c : Configuration) (cl : Cluster) (rd : Round) : Type 0 where
  pub voter : votes_in c rd.candidate_id ≡ true
  pub not_later : rd.term ≤ (cl.nodes rd.candidate_id).current_term
  pub own : HasVoted cl (election_of rd) rd.candidate_id
  pub calls : (p : String) → IsCall c cl (election_of rd) p (rd.call p)
  pub bounded : rd.votes ≤ voters_in (supports rd) c.is_voter

pub someone :
    (c : Configuration) (x : String) → votes_in c "" ≡ false → votes_in c x ≡ true → x ≢ ""
someone c x nobody v e = absurd (ground arith)

HasVoted-Grows :
    (cl dl : Cluster) (e : Election) (p : String)
    → e.candidate ≢ ""
    → Grows cl dl
    → HasVoted cl e p
    → HasVoted dl e p
HasVoted-Grows cl dl e p x g h real = g.votes_stay p e.candidate e.term x (h real)

IsCall-Grows :
    (c : Configuration) (cl dl : Cluster) (e : Election) (p : String) (st : Call)
    → e.candidate ≢ ""
    → Grows cl dl
    → IsCall c cl e p st
    → IsCall c dl e p st
IsCall-Grows c cl dl e p idle x g h = tt
IsCall-Grows c cl dl e p (asked q) x g h = h
IsCall-Grows c cl dl e p (answered q a) x g h =
    (h.0, λ granted. HasVoted-Grows cl dl e p x g (h.1 granted))
IsCall-Grows c cl dl e p (counted b) x g h = λ yes_vote. HasVoted-Grows cl dl e p x g (h yes_vote)

pub IsRound-Grows :
    (c : Configuration) (cl dl : Cluster) (rd : Round)
    → votes_in c "" ≡ false
    → Grows cl dl
    → IsRound c cl rd
    → IsRound c dl rd
IsRound-Grows c cl dl rd nobody g h =
    let x = someone c rd.candidate_id nobody h.voter in
    let e = election_of rd in
    record {
      voter = h.voter;
      not_later = omega (arith, h.not_later, g.terms_stay rd.candidate_id);
      own = HasVoted-Grows cl dl e rd.candidate_id x g h.own;
      calls = λ p. IsCall-Grows c cl dl e p (rd.call p) x g (h.calls p);
      bounded = h.bounded;
    }

voter_found :
    (c : Configuration) (id : String) → votes_in c id ≡ true → lookup id c.is_voter ≡ some true
unfolding votes_in
voter_found c id h = go (lookup id c.is_voter) refl
  where
    go : (o : Option Bool) → lookup id c.is_voter ≡ o → lookup id c.is_voter ≡ some true
    go none e = ground arith
    go (some b) e = ground arith

assign-IsCall :
    (c : Configuration) (cl : Cluster) (e : Election) (p : String) (st : Call)
    (call : String → Call)
    → ((x : String) → IsCall c cl e x (call x))
    → IsCall c cl e p st
    → (x : String) → IsCall c cl e x (assign p st call x)
assign-IsCall c cl e p st call old new x = elim (Bool-cases (str_eq x p)) [
  | inl same ↦ rw (same, (eq_iff x p).0 same) new
  | inr other ↦ rw other (old x)
]

-- A call that brings no vote.
pub set_call-IsRound :
    (c : Configuration) (cl : Cluster) (rd : Round) (p : String) (st : Call)
    → IsRound c cl rd
    → is_yes (rd.call p) ≡ false
    → is_yes st ≡ false
    → IsCall c cl (election_of rd) p st
    → IsRound c cl (set_call p st rd)
unfolding set_call
set_call-IsRound c cl rd p st h pending unanswered new = record {
  voter = h.voter;
  not_later = h.not_later;
  own = h.own;
  calls = assign-IsCall c cl (election_of rd) p st rd.call h.calls new;
  bounded = omega (
    arith,
    h.bounded,
    voters_in_mono (supports rd) (supports (set_call p st rd)) c.is_voter
        (λ x k. ground (arith, eq_iff x p)),
  );
}

-- An answer is counted: one more vote where it grants one.
pub set_call-IsRound_counted :
    (c : Configuration) (cl : Cluster) (rd : Round) (p : String) (q : RequestVoteRequest)
    (a : RequestVoteResponse) (v : ℕ)
    → Distinct c.is_voter
    → IsRound c cl rd
    → rd.call p ≡ answered q a
    → (v ≡ rd.votes) ⊎ ((a.vote_granted ≡ true) × (v ≡ rd.votes + 1))
    → IsRound c cl (set_call p (counted a.vote_granted) (record rd { votes = v }))
unfolding set_call
set_call-IsRound_counted c cl rd p q a v distinct h at count =
    let call : IsCall c cl (election_of rd) p (answered q a) =
      subst (IsCall c cl (election_of rd) p) at (h.calls p) in
    record {
      voter = h.voter;
      not_later = h.not_later;
      own = h.own;
      calls = assign-IsCall c cl (election_of rd) p (counted a.vote_granted) rd.call h.calls call.1;
      bounded = elim count [
        | inl same ↦ omega (
          arith,
          h.bounded,
          same,
          voters_in_mono (supports rd) after c.is_voter (λ x k. ground (arith, eq_iff x p)),
        )
        | inr (granted, more) ↦ omega (
          arith,
          h.bounded,
          more,
          voters_in-add (supports rd) after p c.is_voter (λ x other. ground arith) distinct
              (voter_found c p call.0.voter) (ground (arith, at, call.0.another))
              (ground (arith, eq_refl p)),
        )
      ];
    }
  where
    after : String → Bool
    after = supports (set_call p (counted a.vote_granted) (record rd { votes = v }))

-- The round of a node that starts to campaign has one vote, its own.
pub new_round-IsRound :
    (c : Configuration) (id : String) (r : Raft) (cl : Cluster)
    → Distinct c.is_voter
    → votes_in c id ≡ true
    → r.id ≡ id
    → (is_pre_candidate r.state ≡ false → cl.history id r.current_term ≡ id)
    → (cl.nodes id).current_term ≡ r.current_term
    → IsRound c cl (new_round r)
unfolding new_round
new_round-IsRound c id r cl distinct voter name own term = record {
  voter = rw name voter;
  not_later = rw (name, term) (omega arith);
  own = rw name own;
  calls = λ p. tt;
  bounded = omega (
    arith,
    voters_in-add (λ x. false) (λ x. str_eq x r.id || false) id c.is_voter (λ x e. ground arith)
        distinct (voter_found c id voter) refl (ground (arith, eq_refl id)),
  );
}

pub vote_request-IsAsked :
    (c : Configuration) (p : String) (rd : Round) (q : RequestVoteRequest) (r : Raft)
    → r.id ≡ rd.candidate_id
    → r.configuration ≡ c
    → r.current_term ≡ rd.term
    → str_eq p rd.candidate_id ≡ false
    → vote_request p rd.prevote r ≡ some q
    → IsAsked c (election_of rd) p q
unfolding vote_request
vote_request-IsAsked c p rd q r name conf term other h = record {
  same_kind = ground arith;
  from_candidate = ground arith;
  in_term = λ real. ground arith;
  voter = ground arith;
  another = other;
}
