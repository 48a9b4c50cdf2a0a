-- ===== src/Raft/Snapshot/Install.antt =====
-- What the steps of an installation, and of taking a snapshot, do.
use goraft.Prelude.{
  ℕ, ◌+◌, ◌≤◌, ◌<◌, ◌≡◌, ◌≢◌, refl, ◌∙◌, ◌⊎◌, inl, inr, ◌++◌, length, length-append, some, true,
  false, ◌||◌, leb, ◌==◌, arith, Bool-cases, ℕ_discrete, ok,
}
use goraft.Requests.{InstallSnapshotRequest, InstallSnapshotResponse}
use goraft.Raft.{Raft, SnapshotFile, is_shutdown}
use goraft.Raft.Roles.{become_follower}
use goraft.Raft.Append.Handler.{not_ltb}
use goraft.Raft.Snapshot.{
  Installing, returns, waits, restores, write_snapshot, recognise_sender, receiving_file,
  complete_snapshot, receive_snapshot, install_snapshot_handler,
}

-- An incomplete file is written at its end.
abbrev pub IsReceiving : SnapshotFile → Type 0
IsReceiving f = f.position ≡ length f.contents

abbrev pub state_of : Installing → Raft
state_of (returns r) = r
state_of (waits r) = r
state_of (restores r) = r

-- How a chunk is received into the file f.
abbrev pub Received :
    InstallSnapshotRequest → SnapshotFile → Raft → Installing × InstallSnapshotResponse → Type 0
Received q f r (i, a) =
    ((q.offset ≢ f.position)
      × (a.bytes_written ≡ f.position)
      × (i ≡ returns (record r { snapshot = some f })))
    ⊎ ((q.offset ≡ f.position)
        × (a.bytes_written ≡ f.position + length q.bytes)
        × ((q.done ≡ false
              × (g : SnapshotFile) × (i ≡ returns (record r { snapshot = some g }))
              × (g.contents ≡ f.contents ++ q.bytes)
              × IsReceiving g)
            ⊎ ((q.done ≡ true) × (i ≡ complete_snapshot q (write_snapshot q.bytes f) r))))

pub not_same : (a b : ℕ) → a ≢ b → (a == b) ≡ false
not_same a b h = ground arith

pub is_same : (a b : ℕ) → a ≡ b → (a == b) ≡ true
is_same a b h = ground arith

-- A chunk at the file's position is appended to it, and the new position is reported; the last one
-- completes the snapshot. A chunk at another offset is not written, and the position is reported.
-- The file is written at its end before and after.
pub receive_snapshot-Received :
    (q : InstallSnapshotRequest) (f : SnapshotFile) (r : Raft)
    → IsReceiving f
    → Received q f r (receive_snapshot q f r)
unfolding receive_snapshot write_snapshot
receive_snapshot-Received q f r h = elim (ℕ_discrete q.offset f.position) [
  | no n ↦ rw (not_same q.offset f.position n) (inl (n, refl, refl))
  | yes y ↦ elim (Bool-cases q.done) [
    | inl d ↦ rw (is_same q.offset f.position y, d) (inr (y, refl, inr (refl, refl)))
    | inr d ↦
        rw (is_same q.offset f.position y, d)
          (inr (
            y,
            refl,
            inl (
              refl,
              write_snapshot q.bytes f,
              refl,
              refl,
              omega (arith, h, length-append f.contents q.bytes),
            ),
          ))
  ]
]

pub recognise_sender_lem :
    (now : ℕ) (q : InstallSnapshotRequest) (r : Raft)
    → r.current_term ≤ q.term
    → let s = recognise_sender now q r in
      (s.current_term ≡ q.term)
      × (s.log ≡ r.log)
      × (s.commit_index ≡ r.commit_index)
      × (s.last_applied ≡ r.last_applied)
      × (s.last_included_index ≡ r.last_included_index)
unfolding recognise_sender become_follower
recognise_sender_lem now q r h = ground arith

pub complete_snapshot_lem :
    (q : InstallSnapshotRequest) (f : SnapshotFile) (r : Raft)
    → let s = state_of (complete_snapshot q f r) in
      (s.log ≡ r.log)
      × (s.commit_index ≡ r.commit_index)
      × (s.last_applied ≡ r.last_applied)
      × (s.current_term ≡ r.current_term)
      × (s.last_included_index ≡ q.last_included_index)
unfolding complete_snapshot
complete_snapshot_lem q f r = ground arith

receive_snapshot_lem :
    (q : InstallSnapshotRequest) (f : SnapshotFile) (r : Raft)
    → let s = state_of (receive_snapshot q f r).0 in
      (s.log ≡ r.log)
      × (s.commit_index ≡ r.commit_index)
      × (s.last_applied ≡ r.last_applied)
      × (s.current_term ≡ r.current_term)
      × ((s.last_included_index ≡ r.last_included_index)
          ⊎ ((s.last_included_index ≡ q.last_included_index) × (q.done ≡ true)))
      × ((receive_snapshot q f r).1.term ≡ r.current_term)
unfolding receive_snapshot
receive_snapshot_lem q f r = ground (arith, complete_snapshot_lem q (write_snapshot q.bytes f) r)

-- What a handled request leaves, before the wait or the restore that may follow.
abbrev pub Kept : InstallSnapshotRequest → Raft → Installing × InstallSnapshotResponse → Type 0
Kept q r (i, a) =
    let s = state_of i in
    (s.log ≡ r.log)
    × (s.commit_index ≡ r.commit_index)
    × (s.last_applied ≡ r.last_applied)
    × (s.current_term ≡ q.term)
    × (a.term ≡ q.term)
    × ((s.last_included_index ≡ r.last_included_index)
        ⊎ ((s.last_included_index ≡ q.last_included_index)
            × (q.done ≡ true)
            × (r.last_included_index < q.last_included_index)
            × (r.last_applied < q.last_included_index)))

-- A running node handles every InstallSnapshot request of a term that is not behind its own: it
-- takes on the request's term and answers with it, and its log and what it has applied and
-- committed stay until the lock is given away. The last included index changes only to that of a
-- complete snapshot which is ahead of it and of what is applied.
pub install_snapshot_handler-Kept :
    (now : ℕ) (q : InstallSnapshotRequest) (r : Raft)
    → is_shutdown r.state ≡ false
    → r.current_term ≤ q.term
    → (p : Installing × InstallSnapshotResponse) × (install_snapshot_handler now q r ≡ ok p)
      × Kept q r p
unfolding install_snapshot_handler
install_snapshot_handler-Kept now q r up term =
    let s = recognise_sender now q r in
    let f = receiving_file now q s.snapshot in
    let (t, l, c, a, i) = recognise_sender_lem now q r term in
    elim (Bool-cases (
      leb q.last_included_index s.last_included_index
      || leb q.last_included_index s.last_applied)) [
        | inl old ↦ (
          (returns s, record { term = s.current_term; bytes_written = 0 }),
          rw (up, not_ltb q.term r.current_term term, old) refl,
          (l, c, a, t, t, inl i),
        )
        | inr new ↦
            let (l1, c1, a1, t1, i1, u1) = receive_snapshot_lem q f s in
            (
              receive_snapshot q f s,
              rw (up, not_ltb q.term r.current_term term, new) refl,
              (l1 ∙ l, c1 ∙ c, a1 ∙ a, t1 ∙ t, u1 ∙ t, ground (arith, i1, i, a, new)),
            )
      ]
