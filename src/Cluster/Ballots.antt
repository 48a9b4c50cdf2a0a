-- ===== src/Cluster/Ballots.antt =====
-- The history of the votes, and the count of them among the voters.
use goraft.Prelude.{
  ℕ, ◌+◌, ◌≤◌, ◌<◌, ◌≡◌, ◌≢◌, refl, String, List, [], ◌∷◌, none, some, Bool, true, false, str_eq,
  eq_iff, arith,
}
use goraft.Prelude.Assoc.{lookup}
use goraft.Configuration.{Configuration}
use goraft.Configuration.Quorum.{voters_in, Distinct}
use goraft.Raft.{Raft}
use goraft.Raft.Roles.Stored.{IsStoredVote}
use goraft.Cluster.{Cluster, move}
use goraft.Cluster.Moves.{KeepsVote}

-- A node has its name, the configuration of the cluster, and no vote but those of its history.
pub record IsNode (c : Configuration) (cl : Cluster) (id : String) : Type 0 where
  pub named : (cl.nodes id).id ≡ id
  pub configured : (cl.nodes id).configuration ≡ c
  pub stored : IsStoredVote (cl.nodes id)
  pub present : cl.history id (cl.nodes id).current_term ≡ (cl.nodes id).voted_for
  pub no_future : (t : ℕ) → (cl.nodes id).current_term < t → cl.history id t ≡ ""

-- No node takes back a vote or goes back to an earlier term.
pub record Grows (cl dl : Cluster) : Type 0 where
  pub votes_stay : (p x : String) (t : ℕ) → x ≢ "" → cl.history p t ≡ x → dl.history p t ≡ x
  pub terms_stay : (p : String) → (cl.nodes p).current_term ≤ (dl.nodes p).current_term

vote_stays :
    (c : Configuration) (id x : String) (s : Raft) (cl : Cluster)
    → IsNode c cl id
    → KeepsVote (cl.nodes id) s
    → x ≢ ""
    → cl.history id s.current_term ≡ x
    → s.voted_for ≡ x
vote_stays c id x s cl n k someone h =
    ground (arith, k.no_earlier, k.same_vote, n.present, n.no_future s.current_term)

pub move-Grows :
    (c : Configuration) (id : String) (s : Raft) (cl : Cluster)
    → IsNode c cl id
    → KeepsVote (cl.nodes id) s
    → Grows cl (move id s cl)
unfolding move
move-Grows c id s cl n k = record {
  votes_stay = λ p x t someone h. ground (arith, eq_iff p id, vote_stays c id x s cl n k someone);
  terms_stay = λ p. ground (arith, eq_iff p id, k.no_earlier);
}

pub move-IsNode :
    (c : Configuration) (id : String) (s : Raft) (cl : Cluster) (p : String)
    → IsNode c cl id
    → IsNode c cl p
    → KeepsVote (cl.nodes id) s
    → IsStoredVote s
    → IsNode c (move id s cl) p
unfolding move
move-IsNode c id s cl p n m k st = record {
  named = ground (arith, eq_iff p id, k.same_id, n.named, m.named);
  configured = ground (arith, eq_iff p id, k.same_configuration, n.configured, m.configured);
  stored = ground (arith, eq_iff p id, m.stored, st);
  present = ground (arith, eq_iff p id, m.present);
  no_future = λ t h. ground (arith, eq_iff p id, m.no_future t, n.no_future t, k.no_earlier);
}

voters_in-skip :
    (p q : String → Bool) (id : String) (m : List (String × Bool))
    → ((x : String) → str_eq x id ≡ false → q x ≡ p x)
    → lookup id m ≡ none
    → voters_in q m ≡ voters_in p m
unfolding lookup
voters_in-skip p q id [] same h = refl
voters_in-skip p q id ((j, true) ∷ m) same h =
    ground (arith, same j, voters_in-skip p q id m same, eq_iff j id)
voters_in-skip p q id ((j, false) ∷ m) same h =
    ground (arith, voters_in-skip p q id m same, eq_iff j id)

-- One voter more in the set is one more in the count.
pub voters_in-add :
    (p q : String → Bool) (id : String) (m : List (String × Bool))
    → ((x : String) → str_eq x id ≡ false → q x ≡ p x)
    → Distinct m
    → lookup id m ≡ some true
    → p id ≡ false
    → q id ≡ true
    → voters_in q m ≡ voters_in p m + 1
unfolding lookup
voters_in-add p q id [] same d h no_before after = absurd (cc h)
voters_in-add p q id ((j, true) ∷ m) same d h no_before after =
    ground (arith, same j, voters_in-skip p q id m same, voters_in-add p q id m same, eq_iff j id)
voters_in-add p q id ((j, false) ∷ m) same d h no_before after =
    ground (arith, voters_in-add p q id m same, eq_iff j id)

-- A larger set has no fewer voters.
pub voters_in_mono :
    (p q : String → Bool) (m : List (String × Bool))
    → ((x : String) → p x ≡ true → q x ≡ true)
    → voters_in p m ≤ voters_in q m
voters_in_mono p q [] h = omega arith
voters_in_mono p q ((j, true) ∷ m) h = ground (arith, h j, voters_in_mono p q m h)
voters_in_mono p q ((j, false) ∷ m) h = voters_in_mono p q m h
