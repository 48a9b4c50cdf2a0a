-- ===== src/Examples/Logs.antt =====
-- The log and the other small components on concrete data.
use goraft.Prelude.{◌≤◌, ◌≡◌, refl, not, Bool, true, arith, String, str_eq}
use goraft.Prelude.Assoc.{insert, remove, lookup}
use goraft.Log.{last_index}
use goraft.Configuration.{Configuration, has_quorum, voters}
use goraft.Configuration.Quorum.{voters_in, quorum_overlap-insert, quorum_overlap-remove, Distinct}
use goraft.Examples.{small_log, three_nodes}

within : 3 ≤ last_index small_log
unfolding last_index
within = omega arith

inside : 2 ≤ last_index small_log
unfolding last_index
inside = omega arith

-- Two sets of two of the three nodes.
abbrev without_n3 : String → Bool
without_n3 id = not (str_eq id "n3")

abbrev everybody : String → Bool
everybody id = true

abbrev grown : Configuration
grown = record three_nodes { is_voter = insert "n4" true three_nodes.is_voter }

abbrev shrunk : Configuration
shrunk = record three_nodes { is_voter = remove "n3" three_nodes.is_voter }

first_quorum : has_quorum three_nodes (voters_in without_n3 three_nodes.is_voter) ≡ true
unfolding has_quorum voters
first_quorum = refl

grown_quorum : has_quorum grown (voters_in everybody grown.is_voter) ≡ true
unfolding has_quorum voters insert
grown_quorum = refl

shrunk_quorum : has_quorum shrunk (voters_in everybody shrunk.is_voter) ≡ true
unfolding has_quorum voters remove
shrunk_quorum = refl

quorum_overlap-insert_example : (id : String) × (without_n3 id ≡ true) × (everybody id ≡ true)
quorum_overlap-insert_example =
    quorum_overlap-insert three_nodes grown "n4" true without_n3 everybody refl first_quorum
      grown_quorum

three_nodes-Distinct : Distinct three_nodes.is_voter
unfolding lookup
three_nodes-Distinct = (refl, (refl, (refl, tt)))

quorum_overlap-remove_example : (id : String) × (without_n3 id ≡ true) × (everybody id ≡ true)
quorum_overlap-remove_example =
    quorum_overlap-remove three_nodes shrunk "n3" without_n3 everybody three_nodes-Distinct refl
      first_quorum shrunk_quorum
