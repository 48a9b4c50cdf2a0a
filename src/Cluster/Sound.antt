-- ===== src/Cluster/Sound.antt =====
-- What holds of a cluster in every state, and that it outlasts a step of one node or round.
use goraft.Prelude.{
  ℕ, ◌≡◌, ◌≢◌, refl, ◌⊎◌, inl, inr, String, some, Bool, true, false, ◌==◌, str_eq, eq_iff, eq_refl,
  arith, Bool-cases, subst,
}
use goraft.Configuration.{Configuration, votes_in, has_quorum, is_single_server}
use goraft.Configuration.Quorum.{voters_in, Distinct}
use goraft.Raft.{Raft, is_leader}
use goraft.Raft.Roles.Stored.{IsStoredVote}
use goraft.Cluster.{Round, Cluster, move, set_round}
use goraft.Cluster.Moves.{KeepsVote, MakesNoLeader}
use goraft.Cluster.Ballots.{IsNode, Grows, move-Grows, move-IsNode}
use goraft.Cluster.Rounds.{IsRound, IsRound-Grows}

-- Each key once, more than one member, and no voter without a name.
pub record IsMembership (c : Configuration) : Type 0 where
  pub distinct : Distinct c.is_voter
  pub nobody : votes_in c "" ≡ false
  pub many : (id : String) → is_single_server c id ≡ false

-- A quorum has voted for the node in its term.
pub record Led (c : Configuration) (cl : Cluster) (id : String) : Type 0 where
  pub named : id ≢ ""
  pub set : String → Bool
  pub voted : (p : String) → set p ≡ true → cl.history p (cl.nodes id).current_term ≡ id
  pub quorum : has_quorum c (voters_in set c.is_voter) ≡ true

pub record IsSound (c : Configuration) (cl : Cluster) : Type 0 where
  pub nodes : (id : String) → IsNode c cl id
  pub rounds : (k : ℕ) (rd : Round) → cl.rounds k ≡ some rd → IsRound c cl rd
  pub leaders : (id : String) → is_leader (cl.nodes id).state ≡ true → Led c cl id

pub Led-Grows :
    (c : Configuration) (cl dl : Cluster) (id : String)
    → Grows cl dl
    → (dl.nodes id).current_term ≡ (cl.nodes id).current_term
    → Led c cl id
    → Led c dl id
Led-Grows c cl dl id g e l = record {
  named = l.named;
  set = l.set;
  voted = λ p h. rw e (g.votes_stay p id (cl.nodes id).current_term l.named (l.voted p h));
  quorum = l.quorum;
}

-- A step of one node.
-- What a step gives: the state after it, and that no vote is taken back.
abbrev pub Keeps : Configuration → Cluster → Cluster → Type 0
Keeps c cl dl = IsSound c dl × Grows cl dl

pub move-Keeps :
    (c : Configuration) (id : String) (s : Raft) (cl : Cluster)
    → IsMembership c
    → IsSound c cl
    → KeepsVote (cl.nodes id) s
    → IsStoredVote s
    → MakesNoLeader (cl.nodes id) s ⊎ Led c (move id s cl) id
    → Keeps c cl (move id s cl)
unfolding move
move-Keeps c id s cl m h k st l = (
  record {
    nodes = λ p. move-IsNode c id s cl p (h.nodes id) (h.nodes p) k st;
    rounds = λ j rd e. IsRound-Grows c cl (move id s cl) rd m.nobody grows (h.rounds j rd e);
    leaders = λ p e. elim (Bool-cases (str_eq p id)) [
      | inl same ↦ elim l [
        | inl none_made ↦
            let led = none_made (ground arith) in
            rw ((eq_iff p id).0 same) (
              Led-Grows c cl (move id s cl) id grows (ground (arith, eq_refl id))
                (h.leaders id led.0))
        | inr led ↦ rw ((eq_iff p id).0 same) led
      ]
      | inr other ↦
          Led-Grows c cl (move id s cl) p grows (rw other refl) (h.leaders p (ground arith))
    ];
  },
  grows,
)
  where
    grows : Grows cl (move id s cl)
    grows = move-Grows c id s cl (h.nodes id) k

pub Grows-refl : (cl : Cluster) → Grows cl cl
Grows-refl cl = record { votes_stay = λ p x t e h. h; terms_stay = λ p. omega arith }

pub Grows-trans : (a b c : Cluster) → Grows a b → Grows b c → Grows a c
Grows-trans a b c g h = record {
  votes_stay = λ p x t e k. h.votes_stay p x t e (g.votes_stay p x t e k);
  terms_stay = λ p. omega (arith, g.terms_stay p, h.terms_stay p);
}

set_round-Grows : (k : ℕ) (rd : Round) (cl : Cluster) → Grows cl (set_round k rd cl)
unfolding set_round
set_round-Grows k rd cl = record { votes_stay = λ p x t e h. h; terms_stay = λ p. omega arith }

set_round-IsNode :
    (c : Configuration) (k : ℕ) (rd : Round) (cl : Cluster) (id : String)
    → IsNode c cl id
    → IsNode c (set_round k rd cl) id
unfolding set_round
set_round-IsNode c k rd cl id n = record {
  named = n.named;
  configured = n.configured;
  stored = n.stored;
  present = n.present;
  no_future = n.no_future;
}

pub set_round-Keeps :
    (c : Configuration) (k : ℕ) (rd : Round) (cl : Cluster)
    → IsMembership c
    → (before : Cluster) → Keeps c before cl
    → IsRound c cl rd
    → Keeps c before (set_round k rd cl)
unfolding set_round
set_round-Keeps c k rd cl m before (h, g) new = (
  record {
    nodes = λ id. set_round-IsNode c k rd cl id (h.nodes id);
    rounds = λ j x e.
        IsRound-Grows c cl (set_round k rd cl) x m.nobody (set_round-Grows k rd cl)
          (elim (Bool-cases (j == k)) [
            | inl same ↦ subst (IsRound c cl) (ground arith) new
            | inr other ↦ h.rounds j x (ground arith)
          ]);
    leaders = λ id e.
        Led-Grows c cl (set_round k rd cl) id (set_round-Grows k rd cl) refl (h.leaders id e);
  },
  Grows-trans before cl (set_round k rd cl) g (set_round-Grows k rd cl),
)
