-- ===== src/Configuration/Quorum.antt =====
-- Quorums overlap, also across a change of one server; a clone decides like its original.
use goraft.Prelude.{
  ℕ, suc, ◌+◌, ◌≤◌, ◌<◌, ◌≡◌, refl, String, List, [], ◌∷◌, map, none, some, Bool, true, false, ◌&&◌,
  eq_iff, arith, ltb→lt, ◌⊎◌, if◌then◌else◌, Bool-cases, inl, inr,
}
use goraft.Prelude.Assoc.{lookup, insert, remove, has_key}
use goraft.Configuration.{
  Configuration, or_empty, votes_in, is_member_of, clone, voters, has_quorum,
}

-- How many voters of the configuration are in a set of nodes.
abbrev pub voters_in : (String → Bool) → List (String × Bool) → ℕ
voters_in p [] = 0
voters_in p ((id, true) ∷ m) = if p id then suc (voters_in p m) else voters_in p m
voters_in p ((id, false) ∷ m) = voters_in p m

voters_in-overlap :
    (p q : String → Bool) (m : List (String × Bool))
    → voters m < voters_in p m + voters_in q m
    → (id : String) × (p id ≡ true) × (q id ≡ true)
unfolding voters
voters_in-overlap p q [] h = absurd (omega arith)
voters_in-overlap p q ((id, false) ∷ m) h = voters_in-overlap p q m h
voters_in-overlap p q ((id, true) ∷ m) h = elim (Bool-cases (p id)) [
  | inl a ↦ elim (Bool-cases (q id)) [
    | inl b ↦ (id, a, b)
    | inr b ↦ voters_in-overlap p q m (ground arith)
  ]
  | inr a ↦ voters_in-overlap p q m (ground arith)
]

-- Two quorums of one configuration share a voter.
pub quorum_overlap :
    (c : Configuration) (p q : String → Bool)
    → has_quorum c (voters_in p c.is_voter) ≡ true
    → has_quorum c (voters_in q c.is_voter) ≡ true
    → (id : String) × (p id ≡ true) × (q id ≡ true)
unfolding has_quorum
quorum_overlap c p q hp hq =
    voters_in-overlap p q c.is_voter (omega (arith, ltb→lt _ _ hp, ltb→lt _ _ hq))

-- What one server more, or another status of a server, does to the counts.
abbrev Changes : ℕ → ℕ → ℕ → ℕ → Type 0
Changes v v' n n' =
    ((v' ≡ v) × (n' ≤ n)) ⊎ ((v' ≡ v + 1) × (n' ≤ n + 1)) ⊎ ((v' + 1 ≡ v) × (n' ≤ n))

insert-Changes :
    (id : String) (b : Bool) (q : String → Bool) (m : List (String × Bool))
    → Changes (voters m) (voters (insert id b m)) (voters_in q m) (voters_in q (insert id b m))
unfolding voters insert
insert-Changes id true q [] = ground arith
insert-Changes id false q [] = ground arith
insert-Changes id true q ((j, true) ∷ m) = ground (arith, eq_iff j id, insert-Changes id true q m)
insert-Changes id true q ((j, false) ∷ m) = ground (arith, eq_iff j id, insert-Changes id true q m)
insert-Changes id false q ((j, true) ∷ m) = ground (arith, eq_iff j id, insert-Changes id false q m)
insert-Changes id false q ((j, false) ∷ m) =
    ground (arith, eq_iff j id, insert-Changes id false q m)

-- A Go map holds a key once.
abbrev pub Distinct {ℓ} : {V : Type ℓ} → List (String × V) → Type ℓ
Distinct [] = Unit
Distinct ((j, w) ∷ m) = (lookup j m ≡ none) × Distinct m

remove_absent {ℓ} :
    {V : Type ℓ} (id : String) (m : List (String × V)) → lookup id m ≡ none → remove id m ≡ m
unfolding lookup remove
remove_absent id [] h = refl
remove_absent id ((j, w) ∷ m) h = ground (arith, remove_absent id m)

remove-Changes :
    (id : String) (q : String → Bool) (m : List (String × Bool))
    → Distinct m
    → Changes (voters m) (voters (remove id m)) (voters_in q m) (voters_in q (remove id m))
unfolding voters remove
remove-Changes id q [] d = ground arith
remove-Changes id q ((j, true) ∷ m) d =
    ground (arith, eq_iff j id, remove_absent id m, remove-Changes id q m d.1)
remove-Changes id q ((j, false) ∷ m) d =
    ground (arith, eq_iff j id, remove_absent id m, remove-Changes id q m d.1)

Changes-overlap :
    (c d : Configuration) (p q : String → Bool)
    → Changes
        (voters c.is_voter)
        (voters d.is_voter)
        (voters_in q c.is_voter)
        (voters_in q d.is_voter)
    → has_quorum c (voters_in p c.is_voter) ≡ true
    → has_quorum d (voters_in q d.is_voter) ≡ true
    → (id : String) × (p id ≡ true) × (q id ≡ true)
unfolding has_quorum
Changes-overlap c d p q ch hp hq =
    voters_in-overlap p q c.is_voter (omega (arith, ltb→lt _ _ hp, ltb→lt _ _ hq))

-- A quorum before one server is added, promoted or demoted and one after it share a voter.
pub quorum_overlap-insert :
    (c d : Configuration) (id : String) (b : Bool) (p q : String → Bool)
    → d.is_voter ≡ insert id b c.is_voter
    → has_quorum c (voters_in p c.is_voter) ≡ true
    → has_quorum d (voters_in q d.is_voter) ≡ true
    → (id : String) × (p id ≡ true) × (q id ≡ true)
quorum_overlap-insert c d id b p q e =
    Changes-overlap c d p q (rw e (insert-Changes id b q c.is_voter))

-- A quorum before one server is removed and one after it share a voter. The map of the voters has
-- each key once.
pub quorum_overlap-remove :
    (c d : Configuration) (id : String) (p q : String → Bool)
    → Distinct c.is_voter
    → d.is_voter ≡ remove id c.is_voter
    → has_quorum c (voters_in p c.is_voter) ≡ true
    → has_quorum d (voters_in q d.is_voter) ≡ true
    → (id : String) × (p id ≡ true) × (q id ≡ true)
quorum_overlap-remove c d id p q distinct e =
    Changes-overlap c d p q (rw e (remove-Changes id q c.is_voter distinct))

module _ {ℓ κ} {V : Type ℓ} {W : Type κ} where
  lookup-map :
      (f : String × V → W) (k : String) (m : List (String × V))
      → lookup k (map (λ e. (e.0, f e)) m)
        ≡ elim (lookup k m) [ none ↦ none | some v ↦ some (f (k, v)) ]
  unfolding lookup
  lookup-map f k [] = refl
  lookup-map f k ((j, v) ∷ m) = ground (arith, eq_iff j k, lookup-map f k m)

-- A clone has the members and addresses of its original, and the votes of the members.
pub clone_lem :
    (c : Configuration) (id : String)
    → (lookup id (clone c).members ≡ lookup id c.members)
      × (votes_in (clone c) id ≡ (is_member_of c id && votes_in c id))
      × ((clone c).index ≡ c.index)
unfolding clone is_member_of votes_in has_key
clone_lem c id = (
  ground (arith, lookup-map (λ m. or_empty (lookup m.0 c.members)) id c.members),
  ground (arith, lookup-map (λ m. votes_in c m.0) id c.members),
  refl,
)
