-- ===== src/Raft/Client/Membership.antt =====
-- When a membership change goes through, and what stays pending.
use goraft.Prelude.{
  ℕ, ◌≡◌, ◌≢◌, refl, sym, ap, ◌∙◌, String, List, Option, none, some, Bool, true, false, ◌&&◌, ok,
  arith,
}
use goraft.Prelude.Assoc.{insert}
use goraft.Log.{append_entry, new_log_entry, next_index, configuration_entry}
use goraft.Configuration.{Configuration, votes_in, is_member_of}
use goraft.Raft.{Raft, new_follower}
use goraft.Raft.Roles.{send_append_entries_to_peers}
use goraft.Raft.Roles.Terms.{send_append_entries_to_peers-Frame}
use goraft.Raft.Client.{
  pending_configuration_change, append_configuration, refuses_change, with_server, without_server,
  same_status, add_server, remove_server,
}

-- The change was accepted for replication, as a configuration entry at the end of the log.
abbrev pub Appends : List ℕ → Raft → Raft → Type 0
Appends bytes r s =
    s.log
    ≡ append_entry r.log (new_log_entry (next_index r.log) r.current_term bytes configuration_entry)

-- The configuration with the index of its entry.
abbrev pub placed : Configuration → Raft → Configuration
placed c r = record c { index = next_index r.log }

-- What a change passes on to the heartbeats.
abbrev changed : List ℕ → Raft → Raft
changed bytes r = record r {
  log =
      append_entry r.log
        (new_log_entry (next_index r.log) r.current_term bytes configuration_entry);
}

abbrev joined : List ℕ → Configuration → String → Raft → Raft
joined bytes c id r = record (changed bytes r) {
  configuration = placed c r;
  followers = insert id (record new_follower { next_index = 1 }) r.followers;
}

append_configuration_lem :
    (encode : Configuration → Option (List ℕ)) (c : Configuration) (bytes : List ℕ) (r : Raft)
    → encode (placed c r) ≡ some bytes
    → append_configuration encode c r ≡ ok (changed bytes r, placed c r)
unfolding append_configuration
append_configuration_lem encode c bytes r h = rw h refl

add_server_runs :
    (encode : Configuration → Option (List ℕ)) (now channel : ℕ) (id address : String)
    (voter : Bool) (bytes : List ℕ) (r : Raft)
    → refuses_change r ≡ none
    → (is_member_of r.configuration id && same_status (votes_in r.configuration id) voter) ≡ false
    → encode (placed (with_server id address voter r.configuration) r) ≡ some bytes
    → add_server encode now channel id address voter r
      ≡ ok (
          send_append_entries_to_peers now
            (joined bytes (with_server id address voter r.configuration) id r))
unfolding add_server
add_server_runs encode now channel id address voter bytes r ready fresh encodes =
    let appended =
      append_configuration_lem encode (with_server id address voter r.configuration) bytes r
        encodes in
    ground (arith, ready, fresh, appended)

remove_server_runs :
    (encode : Configuration → Option (List ℕ)) (now channel : ℕ) (id : String) (bytes : List ℕ)
    (r : Raft)
    → refuses_change r ≡ none
    → is_member_of r.configuration id ≡ true
    → encode (placed (without_server id r.configuration) r) ≡ some bytes
    → remove_server encode now channel id r
      ≡ ok (send_append_entries_to_peers now (changed bytes r))
unfolding remove_server
remove_server_runs encode now channel id bytes r ready known encodes =
    let appended =
      append_configuration_lem encode (without_server id r.configuration) bytes r encodes in
    ground (arith, ready, known, appended)

pending-refuses : (r : Raft) → pending_configuration_change r ≡ true → refuses_change r ≢ none
unfolding refuses_change
pending-refuses r h = ground arith

-- Past the tests, the committed configuration is known, and it is the node's own.
ready_lem :
    (r : Raft)
    → refuses_change r ≡ none
    → (c : Configuration) × (r.committed_configuration ≡ some c) × (c.index ≡ r.configuration.index)
unfolding refuses_change pending_configuration_change
ready_lem r h = ground arith

pending_lem :
    (r s : Raft)
    → refuses_change r ≡ none
    → s.committed_configuration ≡ r.committed_configuration
    → s.configuration.index ≢ r.configuration.index
    → pending_configuration_change s ≡ true
unfolding pending_configuration_change
pending_lem r s h e d = ground (arith, ready_lem r h)

settled_lem :
    (r s : Raft)
    → refuses_change r ≡ none
    → s.committed_configuration ≡ r.committed_configuration
    → s.configuration ≡ r.configuration
    → pending_configuration_change s ≡ false
unfolding pending_configuration_change
settled_lem r s h e d = ground (arith, ready_lem r h)

joined_lem :
    (now : ℕ) (bytes : List ℕ) (c : Configuration) (id : String) (r : Raft)
    → refuses_change r ≡ none
    → next_index r.log ≢ r.configuration.index
    → let s = send_append_entries_to_peers now (joined bytes c id r) in
      Appends bytes r s
      × (s.configuration ≡ placed c r)
      × (pending_configuration_change s ≡ true)
      × (refuses_change s ≢ none)
joined_lem now bytes c id r ready later =
    let (f, l, t, conf, m) = send_append_entries_to_peers-Frame now (joined bytes c id r) in
    let s = send_append_entries_to_peers now (joined bytes c id r) in
    let p = pending_lem r s ready m (λ e. later (sym (ap (λ d. d.index) conf) ∙ e)) in
    (l, conf, p, pending-refuses s p)

-- An added server: a leader without a pending change, whose next index is not that of its
-- configuration, appends the new configuration, if it can be encoded, and uses it at once, so that
-- the change counts as pending and a further one is refused.
pub add_server_pends :
    (encode : Configuration → Option (List ℕ)) (now channel : ℕ) (id address : String)
    (voter : Bool) (bytes : List ℕ) (r : Raft)
    → refuses_change r ≡ none
    → (is_member_of r.configuration id && same_status (votes_in r.configuration id) voter) ≡ false
    → encode (placed (with_server id address voter r.configuration) r) ≡ some bytes
    → next_index r.log ≢ r.configuration.index
    → (s : Raft) × (add_server encode now channel id address voter r ≡ ok s)
      × Appends bytes r s
      × (s.configuration ≡ placed (with_server id address voter r.configuration) r)
      × (pending_configuration_change s ≡ true)
      × (refuses_change s ≢ none)
add_server_pends encode now channel id address voter bytes r ready fresh encodes later =
    let c = with_server id address voter r.configuration in
    let (log, conf, pends, refused) = joined_lem now bytes c id r ready later in
    (
      send_append_entries_to_peers now (joined bytes c id r),
      add_server_runs encode now channel id address voter bytes r ready fresh encodes,
      log,
      conf,
      pends,
      refused,
    )

-- A leader that accepts the removal of a member, whose new configuration can be encoded,
-- appends that configuration but keeps using the old one, so that the change does not count as
-- pending.
pub remove_server_forgets :
    (encode : Configuration → Option (List ℕ)) (now channel : ℕ) (id : String) (bytes : List ℕ)
    (r : Raft)
    → refuses_change r ≡ none
    → is_member_of r.configuration id ≡ true
    → encode (placed (without_server id r.configuration) r) ≡ some bytes
    → (s : Raft) × (remove_server encode now channel id r ≡ ok s)
      × Appends bytes r s
      × (s.configuration ≡ r.configuration)
      × (pending_configuration_change s ≡ false)
remove_server_forgets encode now channel id bytes r ready known encodes =
    let s = send_append_entries_to_peers now (changed bytes r) in
    let (f, l, t, c, m) = send_append_entries_to_peers-Frame now (changed bytes r) in
    (
      s,
      remove_server_runs encode now channel id bytes r ready known encodes,
      l,
      c,
      settled_lem r s ready m c,
    )
