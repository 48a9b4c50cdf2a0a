-- ===== src/Raft/Snapshot/Sending/Exchanges.antt =====
-- What one call does, by the peer's answer and by what the peer has.
use goraft.Prelude.{
  ℕ, ◌≤◌, ◌<◌, ◌≡◌, ◌≢◌, refl, ap, ◌∙◌, String, List, [], ◌∷◌, length, drop, none, some, true,
  false, ltb, add64, eq_refl, ok, arith,
}
use goraft.Prelude.Assoc.{lookup, insert, lookup-insert}
use goraft.Requests.{InstallSnapshotRequest}
use goraft.Raft.{Raft, Follower, SnapshotFile, is_leader, is_shutdown}
use goraft.Raft.Snapshot.{Installing, returns, recognise_sender, receiving_file}
use goraft.Raft.Snapshot.Install.{recognise_sender_lem, not_same}
use goraft.Raft.Snapshot.Sending.Answers.{answers_zero, answers_written, received, recognised}
use goraft.Raft.Snapshot.Sending.{
  snapshot_request, open_snapshot, begin_install, end_install, put_back, exchange, answer_install,
  snapshot_chunk_size,
}

-- The leader sends this peer this file, from the file's position on.
pub record Opens (id : String) (l : Raft) (f : Follower) (s : SnapshotFile) : Type 0 where
  pub leads : is_leader l.state ≡ true
  pub taken : 0 < l.last_included_index
  pub known : lookup id l.followers ≡ some f
  pub opened : open_snapshot l f ≡ some s

-- The record of a peer that has the snapshot.
abbrev pub delivered : SnapshotFile → Follower
delivered s = record {
  snapshot = none;
  match_index = s.metadata.last_included_index;
  next_index = add64 s.metadata.last_included_index 1;
}

pub lookup-insert_same :
    (id : String) (f : Follower) (fs : List (String × Follower))
    → lookup id (insert id f fs) ≡ some f
lookup-insert_same id f fs = lookup-insert id id f fs ∙ rw (eq_refl id) refl

module _ (now : ℕ) (id : String) (l p : Raft) (f : Follower) (s : SnapshotFile) (w : Opens id l f s)
    (i : Installing) (b : ℕ)
    (answers : answer_install now (snapshot_request l s).0 p
      ≡ (i, some (record { term = l.current_term; bytes_written = b }))) where
  begin_install_lem :
      begin_install id l
      ≡ ok (some ((snapshot_request l s).0, record f { snapshot = some (snapshot_request l s).1 }))
  unfolding begin_install
  begin_install_lem =
      let some_taken = not_same l.last_included_index 0 (omega (arith, w.taken)) in
      rw (w.known, w.opened, some_taken, w.leads) refl

  exchange_runs :
      exchange now id l p
      ≡ ok (
        i,
        put_back id (
            end_install now id
              (snapshot_request l s).0
              (some (record { term = l.current_term; bytes_written = b }))
              (record f { snapshot = some (snapshot_request l s).1 })
              l),
      )
  unfolding exchange
  exchange_runs = rw (begin_install_lem, answers) refl

  -- Another position sets the file back to it.
  abbrev pub reset_file : Follower
  reset_file = record f { snapshot = some (record s { position = b }) }

  pub exchange_resets :
      b ≢ s.position
      → exchange now id l p ≡ ok (i, record l { followers = insert id reset_file l.followers })
  unfolding end_install snapshot_request
  exchange_resets h = exchange_runs ∙ ap (λ x. ok (i, put_back id x)) (ground arith)

  pub Opens-reset :
      Opens id
        (record l { followers = insert id reset_file l.followers })
        reset_file
        (record s { position = b })
  unfolding open_snapshot
  Opens-reset = record {
    leads = w.leads;
    taken = w.taken;
    known = lookup-insert_same id reset_file l.followers;
    opened = refl;
  }

  -- The position that was sent from, after the last chunk: the peer has the snapshot.
  pub exchange_ends :
      b ≡ s.position
      → length (drop s.position s.contents) < snapshot_chunk_size
      → exchange now id l p ≡ ok (i, record l { followers = insert id (delivered s) l.followers })
  unfolding end_install snapshot_request
  exchange_ends h small = exchange_runs ∙ ap (λ x. ok (i, put_back id x)) (ground arith)

abbrev pub at_position : ℕ → SnapshotFile → SnapshotFile
at_position n s = record s { position = n }

pub nothing_left : (xs : List ℕ) → drop (length xs) xs ≡ []
nothing_left [] = refl
nothing_left (x ∷ xs) = nothing_left xs

-- A running peer of no later term that has the snapshot.
pub record Holds (term : ℕ) (s : SnapshotFile) (p : Raft) : Type 0 where
  pub up : is_shutdown p.state ≡ false
  pub low : p.current_term ≤ term
  pub has : s.metadata.last_included_index ≤ p.last_included_index

-- A running peer of no later term that needs the snapshot, and has received nothing of it.
pub record Lacks (term : ℕ) (s : SnapshotFile) (p : Raft) : Type 0 where
  pub up : is_shutdown p.state ≡ false
  pub low : p.current_term ≤ term
  pub behind : p.last_included_index < s.metadata.last_included_index
  pub unapplied : p.last_applied < s.metadata.last_included_index
  pub fresh : p.snapshot ≡ none

-- To a peer that has the snapshot, sent from any position.
module _ (now : ℕ) (id : String) (l : Raft) (f : Follower) (s : SnapshotFile) (n : ℕ)
    (w : Opens id l f (at_position n s)) (p : Raft) (h : Holds l.current_term s p) where
  unfoldable pub held : Raft
  unfolding snapshot_request
  held = recognise_sender now (snapshot_request l (at_position n s)).0 p

  pub held_answers :
      answer_install now (snapshot_request l (at_position n s)).0 p
      ≡ (returns held, some (record { term = l.current_term; bytes_written = 0 }))
  unfolding snapshot_request held
  held_answers = answers_zero now (snapshot_request l (at_position n s)).0 p h.up h.low h.has

  pub Holds-held : Holds l.current_term s held
  unfolding snapshot_request held
  Holds-held =
      let q = (snapshot_request l (at_position n s)).0 in
      let (t, g, c, a, i) = recognise_sender_lem now q p h.low in
      let (settled, up, kept) = recognised now q p h.low h.up in
      record { up = up; low = omega (arith, t); has = omega (arith, i, h.has) }

-- The whole file goes out, from its start, and the peer answers with its length.
abbrev pub whole : Raft → SnapshotFile → InstallSnapshotRequest
whole l s = record {
  leader_id = l.id;
  term = l.current_term;
  last_included_index = s.metadata.last_included_index;
  last_included_term = s.metadata.last_included_term;
  configuration = s.metadata.configuration;
  bytes = s.contents;
  offset = 0;
  done = ltb (length s.contents) snapshot_chunk_size;
}

abbrev pub new_file : ℕ → SnapshotFile → SnapshotFile
new_file now s = record { metadata = s.metadata; contents = []; position = 0; created = now }

module _ (now : ℕ) (l : Raft) (s : SnapshotFile) (p : Raft) (h : Lacks l.current_term s p) where
  pub whole_lem : (snapshot_request l (at_position 0 s)).0 ≡ whole l s
  unfolding snapshot_request
  whole_lem = refl

  pub first_file :
      receiving_file now (whole l s) (recognise_sender now (whole l s) p).snapshot ≡ new_file now s
  unfolding receiving_file
  first_file =
      let (settled, up, kept) = recognised now (whole l s) p h.low h.up in rw (kept h.fresh) refl

  pub first_answers : answer_install now (snapshot_request l (at_position 0 s)).0 p ≡ (
    received now (whole l s) p (new_file now s),
    some (record { term = l.current_term; bytes_written = length s.contents }),
  )
  first_answers =
      rw
        (
          whole_lem,
          answers_written now (whole l s) p h.up h.low (new_file now s) h.behind h.unapplied
              first_file refl,
        )
        (ap
          (λ n. (
            received now (whole l s) p (new_file now s),
            some (record { term = l.current_term; bytes_written = n }),
          ))
          (omega arith))
