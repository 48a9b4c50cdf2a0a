-- ===== src/Cluster/Steps.antt =====
-- Each step of a cluster keeps what holds of it.
use goraft.Prelude.{
  ℕ, ◌+◌, ◌≤◌, ◌<◌, ◌≡◌, refl, inl, inr, String, some, Bool, true, false, str_eq, eq_iff, eq_refl,
  arith, Bool-cases, ok, subst, ◌∙◌, sym, ap, u64_mod,
}
use goraft.Configuration.{Configuration, votes_in, has_quorum}
use goraft.Configuration.Quorum.{voters_in}
use goraft.Requests.{RequestVoteRequest, RequestVoteResponse}
use goraft.Raft.{Raft, is_pre_candidate}
use goraft.Raft.Roles.Stored.{
  IsStoredVote, request_vote_handler-IsStoredVote, append_entries_handler-IsStoredVote,
  election-IsStoredVote, handle_vote_response-IsStoredVote,
}
use goraft.Cluster.Restarts.{start-KeepsVote}
use goraft.Raft.Vote.{request_vote_handler}
use goraft.Raft.Vote.Grants.{request_vote_handler-Granted}
use goraft.Raft.Election.{election, vote_request, handle_vote_response}
use goraft.Raft.Election.Campaigns.{IsDue}
use goraft.Raft.Election.Leads.{Elected}
use goraft.Cluster.{
  Call, idle, asked, answered, counted, Round, Cluster, set_call, new_round, move, set_round, Step,
  elects, asks, hears, counts, appends, installs, works, restarts,
}
use goraft.Cluster.Moves.{KeepsVote, election-Campaigning, request_vote_handler-KeepsVote}
use goraft.Cluster.Counts.{
  handle_vote_response-KeepsVote, append_entries_handler-KeepsVote,
  install_snapshot_handler-KeepsVote, Work-KeepsVote,
}
use goraft.Raft.Roles.Works.{Work-Lasts, Lasts-IsStoredVote}
use goraft.Raft.Roles.Kept.{install_snapshot_handler-IsStoredVote}
use goraft.Raft.Snapshot.Install.{state_of}
use goraft.Cluster.Ballots.{IsNode, move-Grows}
use goraft.Cluster.Rounds.{
  Election, election_of, IsAsked, HasVoted, IsCall, is_yes, supports, IsRound, someone,
  IsRound-Grows, set_call-IsRound, set_call-IsRound_counted, new_round-IsRound,
  vote_request-IsAsked,
}
use goraft.Cluster.Sound.{
  IsMembership, Led, IsSound, Keeps, Grows-refl, move-Keeps, set_round-Keeps,
}

move_round-IsRound :
    (c : Configuration) (id : String) (s : Raft) (cl : Cluster) (rd : Round)
    → IsMembership c
    → IsSound c cl
    → KeepsVote (cl.nodes id) s
    → IsRound c cl rd
    → IsRound c (move id s cl) rd
move_round-IsRound c id s cl rd m h k =
    IsRound-Grows c cl (move id s cl) rd m.nobody (move-Grows c id s cl (h.nodes id) k)

new_round-move :
    (c : Configuration) (id : String) (s : Raft) (cl : Cluster)
    → IsMembership c
    → votes_in c id ≡ true
    → s.id ≡ id
    → (is_pre_candidate s.state ≡ false → s.voted_for ≡ id)
    → IsRound c (move id s cl) (new_round s)
unfolding move
new_round-move c id s cl m voter name own =
    new_round-IsRound c id s (move id s cl) m.distinct voter name
      (λ real. ground (arith, eq_refl id, own)) (ground (arith, eq_refl id))

due_votes :
    (c : Configuration) (id : String) (r : Raft)
    → r.configuration ≡ c
    → r.id ≡ id
    → votes_in r.configuration r.id ≡ true
    → votes_in c id ≡ true
due_votes c id r conf name h =
    subst (λ x. votes_in x id ≡ true) conf (subst (λ x. votes_in r.configuration x ≡ true) name h)

elects-Keeps :
    (c : Configuration) (now k : ℕ) (id : String) (cl : Cluster)
    → IsMembership c
    → IsSound c cl
    → IsDue now (cl.nodes id)
    → (cl.nodes id).current_term + 1 < u64_mod
    → let s = election now (cl.nodes id) in Keeps c cl (set_round k (new_round s) (move id s cl))
elects-Keeps c now k id cl m h d small =
    let s = election now (cl.nodes id) in
    let n = h.nodes id in
    let g = election-Campaigning now (cl.nodes id) d small (rw n.configured (m.many _)) in
    set_round-Keeps c k (new_round s) (move id s cl) m cl
      (move-Keeps c id s cl m h g.keeps (election-IsStoredVote now (cl.nodes id) n.stored)
        (inl (λ e. absurd (ground (arith, g.no_leader)))))
      (new_round-move c id s cl m (due_votes c id (cl.nodes id) n.configured n.named d.voter)
        (g.keeps.same_id ∙ n.named) (λ real. g.own_vote real ∙ n.named))

asks-Keeps :
    (c : Configuration) (k : ℕ) (p : String) (rd : Round) (q : RequestVoteRequest) (cl : Cluster)
    → IsMembership c
    → IsSound c cl
    → cl.rounds k ≡ some rd
    → rd.call p ≡ idle
    → str_eq p rd.candidate_id ≡ false
    → (cl.nodes rd.candidate_id).current_term ≡ rd.term
    → vote_request p rd.prevote (cl.nodes rd.candidate_id) ≡ some q
    → Keeps c cl (set_round k (set_call p (asked q) rd) cl)
asks-Keeps c k p rd q cl m h at pending other term built =
    let n = h.nodes rd.candidate_id in
    set_round-Keeps c k (set_call p (asked q) rd) cl m cl (h, Grows-refl cl)
      (set_call-IsRound c cl rd p (asked q) (h.rounds k rd at) (ap is_yes pending) refl (
        vote_request-IsAsked c p rd q (cl.nodes rd.candidate_id) n.named n.configured term other
          built))

-- A granted vote is in the history.
granted-HasVoted :
    (c : Configuration) (now : ℕ) (p : String) (rd : Round) (q : RequestVoteRequest) (s : Raft)
    (a : RequestVoteResponse) (cl : Cluster)
    → IsAsked c (election_of rd) p q
    → request_vote_handler now q (cl.nodes p) ≡ ok (s, a)
    → a.vote_granted ≡ true
    → HasVoted (move p s cl) (election_of rd) p
unfolding move
granted-HasVoted c now p rd q s a cl asked_for run granted real =
    let g = request_vote_handler-Granted now q (cl.nodes p) s a run granted in
    let vote = g.bound (asked_for.same_kind ∙ real) in
    let term = g.in_term (asked_for.same_kind ∙ real) in
    ground (arith, eq_refl p, vote, term, asked_for.from_candidate, asked_for.in_term real)

hears-Keeps :
    (c : Configuration) (now k : ℕ) (p : String) (rd : Round) (q : RequestVoteRequest) (s : Raft)
    (a : RequestVoteResponse) (cl : Cluster)
    → IsMembership c
    → IsSound c cl
    → cl.rounds k ≡ some rd
    → rd.call p ≡ asked q
    → request_vote_handler now q (cl.nodes p) ≡ ok (s, a)
    → Keeps c cl (set_round k (set_call p (answered q a) rd) (move p s cl))
hears-Keeps c now k p rd q s a cl m h at pending run =
    let (keeps, quiet) = request_vote_handler-KeepsVote now q (cl.nodes p) s a run in
    let asked_for : IsAsked c (election_of rd) p q =
      subst (IsCall c cl (election_of rd) p) pending ((h.rounds k rd at).calls p) in
    set_round-Keeps c k (set_call p (answered q a) rd) (move p s cl) m cl
      (move-Keeps c p s cl m h keeps
        (request_vote_handler-IsStoredVote now q (cl.nodes p) s a (h.nodes p).stored run)
        (inl quiet))
      (set_call-IsRound c (move p s cl) rd p (answered q a)
        (move_round-IsRound c p s cl rd m h keeps (h.rounds k rd at)) (ap is_yes pending) refl
        (asked_for, granted-HasVoted c now p rd q s a cl asked_for run))

yes-HasVoted :
    (c : Configuration) (cl : Cluster) (e : Election) (p : String) (st : Call)
    → IsCall c cl e p st
    → is_yes st ≡ true
    → HasVoted cl e p
yes-HasVoted c cl e p (counted b) h yes_vote = h yes_vote
yes-HasVoted c cl e p idle h yes_vote = absurd (cc yes_vote)
yes-HasVoted c cl e p (asked q) h yes_vote = absurd (cc yes_vote)
yes-HasVoted c cl e p (answered q a) h yes_vote = absurd (cc yes_vote)

has_quorum_mono :
    (c : Configuration) (m n : ℕ) → m ≤ n → has_quorum c m ≡ true → has_quorum c n ≡ true
unfolding has_quorum
has_quorum_mono c m n le h = ground arith

-- A counter that is a quorum stands for a set that has voted.
round-Led :
    (c : Configuration) (cl : Cluster) (rd : Round)
    → IsMembership c
    → IsRound c cl rd
    → rd.prevote ≡ false
    → has_quorum c rd.votes ≡ true
    → (cl.nodes rd.candidate_id).current_term ≡ rd.term
    → Led c cl rd.candidate_id
round-Led c cl rd m h real quorum term = record {
  named = someone c rd.candidate_id m.nobody h.voter;
  set = supports rd;
  voted = λ p k. elim (Bool-cases (str_eq p rd.candidate_id)) [
    | inl same ↦ rw (term, (eq_iff p rd.candidate_id).0 same) (h.own real)
    | inr other ↦
        rw term (yes-HasVoted c cl (election_of rd) p (rd.call p) (h.calls p) (ground arith) real)
  ];
  quorum = has_quorum_mono c rd.votes (voters_in (supports rd) c.is_voter) h.bounded quorum;
}

-- The round after the answer of p.
abbrev after_answer : String → Bool → ℕ → Round → Round
after_answer p b v rd = set_call p (counted b) (record rd { votes = v })

Elected-Led :
    (c : Configuration) (p : String) (rd : Round) (q : RequestVoteRequest) (a : RequestVoteResponse)
    (s : Raft) (v : ℕ) (cl : Cluster)
    → IsMembership c
    → IsNode c cl rd.candidate_id
    → IsRound c cl rd
    → IsRound c (move rd.candidate_id s cl) (after_answer p a.vote_granted v rd)
    → IsAsked c (election_of rd) p q
    → Elected q v (cl.nodes rd.candidate_id) s
    → Led c (move rd.candidate_id s cl) rd.candidate_id
unfolding move set_call
Elected-Led c p rd q a s v cl m n before h asked_for won =
    let real : rd.prevote ≡ false = sym asked_for.same_kind ∙ won.real in
    round-Led c (move rd.candidate_id s cl) (after_answer p a.vote_granted v rd) m h real
      (rw (← n.configured) won.majority)
      (ground (
        arith,
        eq_refl rd.candidate_id,
        won.same_term,
        won.fresh,
        before.not_later,
        asked_for.in_term real,
      ))

counts-Keeps :
    (c : Configuration) (now k : ℕ) (p : String) (rd : Round) (q : RequestVoteRequest)
    (a : RequestVoteResponse) (s : Raft) (v : ℕ) (cl : Cluster)
    → IsMembership c
    → IsSound c cl
    → cl.rounds k ≡ some rd
    → rd.call p ≡ answered q a
    → handle_vote_response now p q (some a) rd.votes (cl.nodes rd.candidate_id) ≡ (s, v)
    → Keeps c cl (set_round k (after_answer p a.vote_granted v rd) (move rd.candidate_id s cl))
counts-Keeps c now k p rd q a s v cl m h at pending run =
    let (keeps, leads, count) =
      handle_vote_response-KeepsVote now p q a rd.votes v (cl.nodes rd.candidate_id) s run in
    let before = h.rounds k rd at in
    let n = h.nodes rd.candidate_id in
    let stored : IsStoredVote s =
      subst (λ x. IsStoredVote x.0) run
        (handle_vote_response-IsStoredVote now p q (some a) rd.votes (cl.nodes rd.candidate_id)
          n.stored) in
    let (asked_for, _) : IsCall c cl (election_of rd) p (answered q a) =
      subst (IsCall c cl (election_of rd) p) pending (before.calls p) in
    let after : IsRound c (move rd.candidate_id s cl) (after_answer p a.vote_granted v rd) =
      set_call-IsRound_counted c (move rd.candidate_id s cl) rd p q a v m.distinct
        (move_round-IsRound c rd.candidate_id s cl rd m h keeps before) pending count in
    set_round-Keeps c k (after_answer p a.vote_granted v rd) (move rd.candidate_id s cl) m cl
      (move-Keeps c rd.candidate_id s cl m h keeps stored (elim leads [
        | inl quiet ↦ inl quiet
        | inr won ↦ inr (Elected-Led c p rd q a s v cl m n before after asked_for won)
      ]))
      after

pub Step-Keeps :
    (c : Configuration) (cl dl : Cluster)
    → IsMembership c
    → IsSound c cl
    → Step cl dl
    → Keeps c cl dl
Step-Keeps c _ _ m h (elects now k id cl d small free) = elects-Keeps c now k id cl m h d small
Step-Keeps c _ _ m h (asks k p rd q cl at pending other term built) =
    asks-Keeps c k p rd q cl m h at pending other term built
Step-Keeps c _ _ m h (hears now k p rd q s a cl at pending run) =
    hears-Keeps c now k p rd q s a cl m h at pending run
Step-Keeps c _ _ m h (counts now k p rd q a s v cl at pending run) =
    counts-Keeps c now k p rd q a s v cl m h at pending run
Step-Keeps c _ _ m h (appends now id q s a cl run quiet conf) =
    let (keeps, none_made) =
      append_entries_handler-KeepsVote now q (cl.nodes id) s a run quiet conf in
    move-Keeps c id s cl m h keeps
      (append_entries_handler-IsStoredVote now q (cl.nodes id) s a (h.nodes id).stored run)
      (inl none_made)
Step-Keeps c _ _ m h (installs now id q i a cl run quiet conf) =
    let (keeps, none_made) =
      install_snapshot_handler-KeepsVote now q (cl.nodes id) i a run quiet conf in
    move-Keeps c id (state_of i) cl m h keeps
      (install_snapshot_handler-IsStoredVote now q (cl.nodes id) i a (h.nodes id).stored run)
      (inl none_made)
Step-Keeps c _ _ m h (works id s cl w conf) =
    let (keeps, none_made) = Work-KeepsVote (cl.nodes id) s w conf in
    move-Keeps c id s cl m h keeps
      (Lasts-IsStoredVote (cl.nodes id) s (Work-Lasts (cl.nodes id) s w) (h.nodes id).stored)
      (inl none_made)
Step-Keeps c _ _ m h (restarts decode opened now timeout lease id l snapshots n cl run conf) =
    let (keeps, quiet, stored) =
      start-KeepsVote decode opened now timeout lease l snapshots (cl.nodes id) n
        (h.nodes id).stored run conf in
    move-Keeps c id n.raft cl m h keeps stored (inl (λ e. absurd (ground arith)))
