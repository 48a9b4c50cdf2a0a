-- ===== src/Raft/Snapshot/Sending/Deliver.antt =====
-- A snapshot reaches a peer that needs it, in at most three calls.
use goraft.Prelude.{
  ℕ, ◌≤◌, ◌<◌, ◌≡◌, refl, sym, ap, subst, if◌then◌else◌, ◌∙◌, String, length, drop, some, true,
  false, ltb, ok, arith, lt→ltb,
}
use goraft.Prelude.Assoc.{lookup, insert}
use goraft.Requests.{InstallSnapshotRequest}
use goraft.Raft.{Raft, Follower, SnapshotFile, is_shutdown}
use goraft.Raft.Snapshot.{
  Installing, returns, recognise_sender, receiving_file, complete_snapshot, write_snapshot,
}
use goraft.Raft.Snapshot.Install.{state_of, recognise_sender_lem, complete_snapshot_lem}
use goraft.Raft.Snapshot.Sending.{exchange, answer_install, snapshot_request, snapshot_chunk_size}
use goraft.Raft.Snapshot.Sending.Answers.{
  answers_written, received, recognised, recognised_again, complete_snapshot-up,
}
use goraft.Raft.Snapshot.Sending.Exchanges.{
  Opens, Holds, Lacks, at_position, whole, new_file, delivered, held, held_answers, Holds-held,
  first_answers, exchange_resets, Opens-reset, exchange_ends, lookup-insert_same, nothing_left,
  reset_file,
}

-- To a peer that has the snapshot: from the end of the file, it takes two calls to record that.
pub held_delivered :
    (t u : ℕ) (id : String) (l : Raft) (f : Follower) (s : SnapshotFile) (n : ℕ)
    → Opens id l f (at_position n s)
    → 0 < n
    → length s.contents < snapshot_chunk_size
    → (p : Raft) → Holds l.current_term s p
    → (p1 : Raft) × (l1 : Raft) × (p2 : Raft) × (l2 : Raft) × (exchange t id l p
        ≡ ok (returns p1, l1))
      × (exchange u id l1 p1 ≡ ok (returns p2, l2))
      × (lookup id l2.followers ≡ some (delivered s))
held_delivered t u id l f s n w positive small p h =
    let a = held_answers t id l f s n w p h in
    let first = exchange_resets t id l p f (at_position n s) w _ 0 a (omega arith) in
    let w1 = Opens-reset t id l p f (at_position n s) w _ 0 a in
    let p1 = held t id l f s n w p h in
    let h1 = Holds-held t id l f s n w p h in
    let l1 = record l {
      followers = insert id (reset_file t id l p f (at_position n s) w _ 0 a) l.followers;
    } in
    let b = held_answers u id l1 (reset_file t id l p f (at_position n s) w _ 0 a) s 0 w1 p1 h1 in
    let second = exchange_ends u id l1 p1 _ (at_position 0 s) w1 _ 0 b refl small in
    (p1, l1, held u id l1 _ s 0 w1 p1 h1, _, first, second, lookup-insert_same id (delivered s) _)

-- The last part makes the peer one that has the snapshot.
received_whole-Holds :
    (t : ℕ) (q : InstallSnapshotRequest) (p : Raft) (f s : SnapshotFile)
    → q.last_included_index ≡ s.metadata.last_included_index
    → q.done ≡ true
    → is_shutdown p.state ≡ false
    → p.current_term ≤ q.term
    → Holds q.term s (state_of (received t q p f))
unfolding received
received_whole-Holds t q p f s same last up low =
    let r = recognise_sender t q p in
    let g = write_snapshot q.bytes f in
    let (term, log, c, a, i) = recognise_sender_lem t q p low in
    let (settled, runs, kept) = recognised t q p low up in
    let (log1, c1, a1, term1, i1) = complete_snapshot_lem q g r in
    let completes : received t q p f ≡ complete_snapshot q g r =
      ap (λ b. if b then complete_snapshot q g r else returns (record r { snapshot = some g }))
        last in
    subst (λ x. Holds q.term s (state_of x)) (sym completes)
      (record {
        up = ap is_shutdown (complete_snapshot-up q g r) ∙ runs;
        low = omega (arith, term1, term);
        has = omega (arith, i1, same);
      })

-- A leader with a non-empty snapshot below the chunk size, undisturbed, delivers it to a
-- running peer that needs it: after the first call the peer has the snapshot's index, and after
-- two more calls to a peer that has installed it the leader has recorded the snapshot as
-- matched.
pub small_snapshot_delivered :
    (t u v : ℕ) (id : String) (l : Raft) (f : Follower) (s : SnapshotFile)
    → Opens id l f (at_position 0 s)
    → 0 < length s.contents
    → length s.contents < snapshot_chunk_size
    → (p : Raft) → Lacks l.current_term s p
    → (p2 : Raft) → Holds l.current_term s p2
    → (i : Installing) × (l1 : Raft) × (p3 : Raft) × (l2 : Raft) × (p4 : Raft) × (l3 : Raft)
      × (exchange t id l p ≡ ok (i, l1))
      × Holds l.current_term s (state_of i)
      × (exchange u id l1 p2 ≡ ok (returns p3, l2))
      × (exchange v id l2 p3 ≡ ok (returns p4, l3))
      × (lookup id l3.followers ≡ some (delivered s))
small_snapshot_delivered t u v id l f s w positive small p h p2 h2 =
    let i = received t (whole l s) p (new_file t s) in
    let a = first_answers t l s p h in
    let n = length s.contents in
    let first = exchange_resets t id l p f (at_position 0 s) w i n a (omega arith) in
    let w1 = Opens-reset t id l p f (at_position 0 s) w i n a in
    let l1 = record l {
      followers = insert id (reset_file t id l p f (at_position 0 s) w i n a) l.followers;
    } in
    let (p3, l2, p4, l3, second, third, known) =
      held_delivered u v id l1 _ s n w1 positive small p2 h2 in
    (
      i,
      l1,
      p3,
      l2,
      p4,
      l3,
      first,
      received_whole-Holds t (whole l s) p (new_file t s) s refl
          (lt→ltb (length s.contents) 32768 small) h.up h.low,
      second,
      third,
      known,
    )

-- The part that is sent from the end of the file.
abbrev end_part : Raft → SnapshotFile → InstallSnapshotRequest
end_part l s = record (whole l s) {
  bytes = drop (length s.contents) s.contents;
  offset = length s.contents;
  done = ltb (length (drop (length s.contents) s.contents)) snapshot_chunk_size;
}

abbrev half_file : ℕ → SnapshotFile → SnapshotFile
unfolding write_snapshot
half_file t s = write_snapshot s.contents (new_file t s)

-- The peer after the whole file without its end.
abbrev half_received : ℕ → Raft → SnapshotFile → Raft → Raft
half_received t l s p = record (recognise_sender t (whole l s) p) {
  snapshot = some (half_file t s);
}

module _ (t u : ℕ) (l : Raft) (s : SnapshotFile) (p : Raft) (h : Lacks l.current_term s p) where
  end_part_lem : (snapshot_request l (at_position (length s.contents) s)).0 ≡ end_part l s
  unfolding snapshot_request
  end_part_lem = refl

  half_receives :
      snapshot_chunk_size ≤ length s.contents
      → received t (whole l s) p (new_file t s) ≡ returns (half_received t l s p)
  unfolding received half_file write_snapshot
  half_receives large =
      let r = recognise_sender t (whole l s) p in
      let g = half_file t s in
      let more : ltb (length s.contents) snapshot_chunk_size ≡ false = ground arith in
      ap
        (λ b.
          if b then complete_snapshot (whole l s) g r else returns (record r { snapshot = some g }))
        more

  Lacks_but :
      (is_shutdown (half_received t l s p).state ≡ false)
      × ((half_received t l s p).current_term ≡ l.current_term)
      × ((half_received t l s p).last_included_index < s.metadata.last_included_index)
      × ((half_received t l s p).last_applied < s.metadata.last_included_index)
  Lacks_but =
      let (term, log, c, a, i) = recognise_sender_lem t (whole l s) p h.low in
      let (settled, runs, kept) = recognised t (whole l s) p h.low h.up in
      (runs, term, omega (arith, i, h.behind), omega (arith, a, h.unapplied))

  half_file_again :
      receiving_file u
        (end_part l s)
        (recognise_sender u (end_part l s) (half_received t l s p)).snapshot
      ≡ half_file t s
  unfolding receiving_file half_file write_snapshot
  half_file_again =
      let (up, term, behind, unapplied) = Lacks_but in
      let (settled, runs, kept) = recognised t (whole l s) p h.low h.up in
      let not_newer : ltb s.metadata.last_included_index s.metadata.last_included_index ≡ false =
        ground arith in
      rw (recognised_again u (end_part l s) (half_received t l s p) term settled)
        (rw not_newer refl)

  second_answers : answer_install u (end_part l s) (half_received t l s p) ≡ (
    received u (end_part l s) (half_received t l s p) (half_file t s),
    some (record { term = l.current_term; bytes_written = length s.contents }),
  )
  unfolding write_snapshot
  second_answers =
      let (up, term, behind, unapplied) = Lacks_but in
      answers_written u (end_part l s) (half_received t l s p) up (omega (arith, term))
        (half_file t s) behind unapplied half_file_again (omega arith)
      ∙ ap
          (λ n. (
            received u (end_part l s) (half_received t l s p) (half_file t s),
            some (record { term = l.current_term; bytes_written = n }),
          ))
          (omega (arith, ap length (nothing_left s.contents)))

-- A leader with a snapshot of at least the chunk size, undisturbed, delivers it to a running
-- peer that needs it in two calls: then the peer has the snapshot's index, and the leader has
-- recorded the snapshot as matched.
pub large_snapshot_delivered :
    (t u : ℕ) (id : String) (l : Raft) (f : Follower) (s : SnapshotFile)
    → Opens id l f (at_position 0 s)
    → snapshot_chunk_size ≤ length s.contents
    → (p : Raft) → Lacks l.current_term s p
    → (p1 : Raft) × (l1 : Raft) × (i : Installing) × (l2 : Raft) × (exchange t id l p
        ≡ ok (returns p1, l1))
      × (exchange u id l1 p1 ≡ ok (i, l2))
      × Holds l.current_term s (state_of i)
      × (lookup id l2.followers ≡ some (delivered s))
unfolding snapshot_request
large_snapshot_delivered t u id l f s w large p h =
    let i = received t (whole l s) p (new_file t s) in
    let a = first_answers t l s p h in
    let n = length s.contents in
    let first = exchange_resets t id l p f (at_position 0 s) w i n a (omega arith) in
    let w1 = Opens-reset t id l p f (at_position 0 s) w i n a in
    let f1 = reset_file t id l p f (at_position 0 s) w i n a in
    let l1 = record l { followers = insert id f1 l.followers } in
    let p1 = half_received t l s p in
    let q = end_part l s in
    let b = second_answers t u l s p h in
    let nothing : length (drop n s.contents) < snapshot_chunk_size =
      omega (arith, ap length (nothing_left s.contents)) in
    let (up, term, behind, unapplied) = Lacks_but t u l s p h in
    (
      p1,
      l1,
      received u q p1 (half_file t s),
      _,
      first ∙ ap (λ x. ok (x, l1)) (half_receives t u l s p h large),
      exchange_ends u id l1 p1 f1 (at_position n s) w1 (received u q p1 (half_file t s)) n b refl
          nothing,
      received_whole-Holds u q p1 (half_file t s) s refl
          (lt→ltb (length (drop n s.contents)) 32768 nothing) up (omega (arith, term)),
      lookup-insert_same id (delivered s) _,
    )
