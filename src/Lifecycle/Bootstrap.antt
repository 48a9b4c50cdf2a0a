-- ===== src/Lifecycle/Bootstrap.antt =====
-- Bootstrapping a cluster, and restoring the node that did it.
use goraft.Prelude.{ℕ, ◌≡◌, refl, String, List, [], ◌∷◌, Option, none, some, true, ok}
use goraft.Prelude.Assoc.{has_key}
use goraft.Log.{
  Log, new_log_entry, no_op_entry, configuration_entry, append_entry, last_index, get_entry,
  contains,
}
use goraft.Configuration.{Configuration, new_configuration, clone}
use goraft.Lifecycle.{
  Node, not_encoded, already_configured, new_node, bootstrap, restore, restore_snapshot,
  restore_entries, restore_entry, replace_configuration,
}

abbrev pub fresh_log : Log
fresh_log = record { placeholder = new_log_entry 0 0 [] no_op_entry; rest = [] }

abbrev pub bootstrap_log : List ℕ → Log
bootstrap_log bytes = record {
  placeholder = new_log_entry 0 0 [] no_op_entry;
  rest = new_log_entry 1 1 bytes configuration_entry ∷ [];
}

abbrev bootstrapped : ℕ → String → ℕ → ℕ → List (String × String) → List ℕ → Node
bootstrapped now id timeout lease members bytes =
    record (new_node now id timeout lease (bootstrap_log bytes) 0 "" []) {
      configuration = some (new_configuration 1 members);
    }

abbrev committed : ℕ → String → ℕ → ℕ → List (String × String) → List ℕ → Node
committed now id timeout lease members bytes =
    let n = bootstrapped now id timeout lease members bytes in
    record n {
      raft = record (n.raft) {
        committed_configuration = some (clone (new_configuration 1 members));
      };
    }

module _ (encode : Configuration → Option (List ℕ)) (decode : List ℕ → Option Configuration)
    (now : ℕ) (id : String) (timeout lease : ℕ) (members : List (String × String)) (bytes : List ℕ)
    (here : has_key id members ≡ true) (encodes : encode (new_configuration 1 members) ≡ some bytes)
    (decodes : decode bytes ≡ some (new_configuration 1 members)) where
  bootstraps :
      bootstrap encode members (new_node now id timeout lease fresh_log 0 "" [])
      ≡ (none, bootstrapped now id timeout lease members bytes)
  unfolding bootstrap new_node append_entry last_index
  bootstraps = rw (bootstrap, here, encodes) refl

  restores :
      restore decode (new_node now id timeout lease (bootstrap_log bytes) 0 "" [])
      ≡ ok (bootstrapped now id timeout lease members bytes)
  unfolding new_node restore restore_snapshot restore_entries restore_entry replace_configuration
      last_index get_entry contains
  restores = rw decodes refl

  restores_again :
      restore decode (bootstrapped now id timeout lease members bytes)
      ≡ ok (committed now id timeout lease members bytes)
  unfolding new_node restore restore_snapshot restore_entries restore_entry replace_configuration
      last_index get_entry contains
  restores_again = rw decodes refl

  -- A new node that bootstraps with a configuration of which it is a member, and that is
  -- encoded and decoded, is restored from its log as it was, with the configuration not
  -- committed; restored once more, it has the configuration as the committed one.
  pub bootstrap-restore :
      (n : Node) × (bootstrap encode members (new_node now id timeout lease fresh_log 0 "" [])
        ≡ (none, n))
      × (restore decode (new_node now id timeout lease n.raft.log 0 "" []) ≡ ok n)
      × (n.configuration ≡ some (new_configuration 1 members))
      × (n.raft.committed_configuration ≡ none)
      × ((m : Node) × (restore decode n ≡ ok m)
          × (m.configuration ≡ n.configuration)
          × (m.raft.committed_configuration ≡ some (clone (new_configuration 1 members))))
  unfolding new_node
  bootstrap-restore = (
    bootstrapped now id timeout lease members bytes,
    bootstraps,
    restores,
    refl,
    refl,
    (committed now id timeout lease members bytes, restores_again, refl, refl),
  )

-- On an unused node that is a member, a Bootstrap whose configuration cannot be encoded fails
-- and leaves the node with that configuration, so that the next Bootstrap fails as well.
pub bootstrap_twice :
    (encode : Configuration → Option (List ℕ)) (members : List (String × String)) (n : Node)
    → has_key n.raft.id members ≡ true
    → n.configuration ≡ none
    → last_index n.raft.log ≡ 0
    → encode (new_configuration 1 members) ≡ none
    → (m : Node) × (bootstrap encode members n ≡ (some not_encoded, m))
      × (m.raft ≡ n.raft)
      × (m.configuration ≡ some (new_configuration 1 members))
      × (bootstrap encode members m ≡ (some already_configured, m))
unfolding bootstrap
bootstrap_twice encode members n here unknown empty fails = (
  record n { configuration = some (new_configuration 1 members) },
  rw (bootstrap, here, unknown, empty, fails) refl,
  refl,
  refl,
  rw (bootstrap, here) refl,
)
