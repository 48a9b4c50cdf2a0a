-- ===== src/Configuration.antt =====
-- configuration.go: the members of a cluster and which of them vote, with `hasQuorum`, `isVoter`,
-- `isMember` and `isSingleServerCluster` of raft.go, which read nothing else of the node.
pub mod Quorum
use goraft.Prelude.{
  ℕ, suc, ◌/◌, String, List, [], ◌∷◌, map, Option, none, some, Bool, true, false, ◌&&◌, ltb, ◌==◌,
  length, if◌then◌else◌,
}
use goraft.Prelude.Assoc.{lookup, has_key}

pub record Configuration : Type 0 where
  pub members : List (String × String)
  pub is_voter : List (String × Bool)
  pub index : ℕ

-- `&Configuration{}`
abbrev pub empty_configuration : Configuration
empty_configuration = record { members = []; is_voter = []; index = 0 }

unfoldable pub new_configuration : ℕ → List (String × String) → Configuration
new_configuration index members = record {
  members = members;
  is_voter = map (λ m. (m.0, true)) members;
  index = index;
}

-- A missing key reads as the zero value.
abbrev pub or_false : Option Bool → Bool
or_false none = false
or_false (some b) = b

abbrev pub or_empty : Option String → String
or_empty none = ""
or_empty (some s) = s

unfoldable pub votes_in : Configuration → String → Bool
votes_in c id = or_false (lookup id c.is_voter)

unfoldable pub is_member_of : Configuration → String → Bool
is_member_of c id = has_key id c.members

unfoldable pub clone : Configuration → Configuration
unfolding votes_in
clone c = record {
  index = c.index;
  is_voter = map (λ m. (m.0, votes_in c m.0)) c.members;
  members = map (λ m. (m.0, or_empty (lookup m.0 c.members))) c.members;
}

unfoldable pub voters : List (String × Bool) → ℕ
voters [] = 0
voters ((id, true) ∷ m) = suc (voters m)
voters ((id, false) ∷ m) = voters m

unfoldable pub has_quorum : Configuration → ℕ → Bool
has_quorum c count = ltb (voters c.is_voter / 2) count

unfoldable pub is_single_server : Configuration → String → Bool
unfolding votes_in
is_single_server c id = (length c.members == 1) && votes_in c id
