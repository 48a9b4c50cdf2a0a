-- ===== src/Examples/Clients.antt =====
-- Membership changes on concrete data.
use goraft.Prelude.{ℕ, ◌≡◌, refl, List, [], ◌∷◌, Option, true, false, none, some, ok}
use goraft.Prelude.Assoc.{has_key}
use goraft.Log.{get_entry, next_index, contains}
use goraft.Configuration.{Configuration, is_member_of}
use goraft.Raft.{Raft, leader}
use goraft.Raft.Client.{
  refuses_change, committed_this_term, pending_configuration_change, without_server, remove_server,
}
use goraft.Raft.Client.Membership.{Appends, placed, remove_server_forgets}
use goraft.Examples.{node, three_nodes}

-- The leader has committed entry 3, of its own term.
abbrev leading : Raft
leading = record (node leader) { commit_index = 3 }

-- A code of configurations.
abbrev encode : Configuration → Option (List ℕ)
encode c = some (c.index ∷ [])

encodes : encode (placed (without_server "n3" three_nodes) leading) ≡ some (4 ∷ [])
unfolding next_index
encodes = refl

ready : refuses_change leading ≡ none
unfolding refuses_change committed_this_term contains get_entry pending_configuration_change
ready = refl

known : is_member_of three_nodes "n3" ≡ true
unfolding is_member_of has_key
known = refl

remove_server_forgets_example :
    (s : Raft) × (remove_server encode 20 9 "n3" leading ≡ ok s)
    × Appends (4 ∷ []) leading s
    × (s.configuration ≡ three_nodes)
    × (pending_configuration_change s ≡ false)
remove_server_forgets_example =
    remove_server_forgets encode 20 9 "n3" (4 ∷ []) leading ready known encodes
