-- ===== src/Raft/Snapshot/Sending/Answers.antt =====
-- What a peer answers to the parts of a snapshot.
use goraft.Prelude.{
  ℕ, ◌+◌, ◌≤◌, ◌<◌, ◌≡◌, refl, ap, ◌∙◌, length, none, some, true, false, leb, ◌||◌, if◌then◌else◌,
  ok, arith,
}
use goraft.Requests.{InstallSnapshotRequest, InstallSnapshotResponse}
use goraft.Raft.{Raft, SnapshotFile, is_shutdown, is_candidate, is_pre_candidate}
use goraft.Raft.Roles.{become_follower}
use goraft.Raft.Append.Handler.{not_ltb}
use goraft.Raft.Snapshot.{
  Installing, returns, recognise_sender, receiving_file, receive_snapshot, complete_snapshot,
  write_snapshot, install_snapshot_handler,
}
use goraft.Raft.Snapshot.Install.{state_of, recognise_sender_lem, is_same}
use goraft.Raft.Snapshot.Sending.{answer_install}

pub recognised :
    (now : ℕ) (q : InstallSnapshotRequest) (p : Raft)
    → p.current_term ≤ q.term
    → is_shutdown p.state ≡ false
    → let s = recognise_sender now q p in
      ((is_candidate s.state || is_pre_candidate s.state) ≡ false)
      × (is_shutdown s.state ≡ false)
      × (p.snapshot ≡ none → s.snapshot ≡ none)
unfolding recognise_sender become_follower
recognised now q p low up = ground arith

-- Once recognised, the sender of the same term changes nothing but the time.
pub recognised_again :
    (now : ℕ) (q : InstallSnapshotRequest) (p : Raft)
    → p.current_term ≡ q.term
    → (is_candidate p.state || is_pre_candidate p.state) ≡ false
    → recognise_sender now q p ≡ record p { last_contact = now }
unfolding recognise_sender
recognised_again now q p same settled = ground (arith, settled)

pub complete_snapshot-up :
    (q : InstallSnapshotRequest) (f : SnapshotFile) (r : Raft)
    → (state_of (complete_snapshot q f r)).state ≡ r.state
unfolding complete_snapshot
complete_snapshot-up q f r = ground arith

-- What a part does that continues the file.
unfoldable pub received : ℕ → InstallSnapshotRequest → Raft → SnapshotFile → Installing
received now q p f =
    let s = recognise_sender now q p in
    let g = write_snapshot q.bytes f in
    if q.done then complete_snapshot q g s else returns (record s { snapshot = some g })

-- The peer runs, and is not ahead of the request's term.
module _ (now : ℕ) (q : InstallSnapshotRequest) (p : Raft) (up : is_shutdown p.state ≡ false)
    (low : p.current_term ≤ q.term) where
  answers_runs :
      (i : Installing) (a : InstallSnapshotResponse)
      → install_snapshot_handler now q p ≡ ok (i, a)
      → answer_install now q p ≡ (i, some a)
  unfolding answer_install
  answers_runs i a h = rw (answer_install, h) refl

  -- A peer that has the snapshot answers 0.
  pub answers_zero :
      q.last_included_index ≤ p.last_included_index
      → answer_install now q p
        ≡ (returns (recognise_sender now q p), some (record { term = q.term; bytes_written = 0 }))
  unfolding install_snapshot_handler
  answers_zero h =
      let s = recognise_sender now q p in
      let (t, l, c, a, i) = recognise_sender_lem now q p low in
      let old : (leb q.last_included_index s.last_included_index
            || leb q.last_included_index s.last_applied)
          ≡ true =
        ground (arith, i) in
      answers_runs (returns s) (record { term = q.term; bytes_written = 0 })
        (rw (up, not_ltb q.term p.current_term low, old)
          (ap (λ n. ok (returns s, record { term = n; bytes_written = 0 })) t))

  answers_received :
      p.last_included_index < q.last_included_index
      → p.last_applied < q.last_included_index
      → answer_install now q p ≡ (
          let s = recognise_sender now q p in
          let x = receive_snapshot q (receiving_file now q s.snapshot) s in (x.0, some x.1))
  unfolding install_snapshot_handler
  answers_received h k =
      let s = recognise_sender now q p in
      let (t, l, c, a, i) = recognise_sender_lem now q p low in
      let new : (leb q.last_included_index s.last_included_index
            || leb q.last_included_index s.last_applied)
          ≡ false =
        ground (arith, i, a) in
      let x = receive_snapshot q (receiving_file now q s.snapshot) s in
      answers_runs x.0 x.1 (rw (up, not_ltb q.term p.current_term low, new) refl)

  -- A peer that needs the snapshot writes the part at its file's position.
  pub answers_written :
      (f : SnapshotFile)
      → p.last_included_index < q.last_included_index
      → p.last_applied < q.last_included_index
      → receiving_file now q (recognise_sender now q p).snapshot ≡ f
      → q.offset ≡ f.position
      → answer_install now q p ≡ (
        received now q p f,
        some (record { term = q.term; bytes_written = f.position + length q.bytes }),
      )
  unfolding received receive_snapshot write_snapshot
  answers_written f h k file here =
      let (t, l, c, a, i) = recognise_sender_lem now q p low in
      answers_received h k ∙ rw (file, is_same q.offset f.position here, t) refl
