-- ===== src/Raft/Snapshot/Sending.antt =====
-- raft.go: `sendInstallSnapshot`, cut where it gives the lock away for the call. The response is
-- handled on the follower's record that the first half took, which Go keeps a pointer to; `exchange`
-- puts it back where it still is the record of that peer.
pub mod Answers
pub mod Exchanges
pub mod Deliver
use goraft.Prelude.{
  ℕ, ◌+◌, String, List, [], ◌∷◌, length, drop, Option, none, some, Bool, true, false, not, ltb,
  ◌==◌, if◌then◌else◌, add64, Outcome, ok, err, fatal, ◌>>=◌, or_fatal,
}
use goraft.Prelude.Assoc.{lookup, insert}
use goraft.Requests.{InstallSnapshotRequest, InstallSnapshotResponse}
use goraft.Raft.{Raft, RpcError, Follower, SnapshotFile, is_leader}
use goraft.Raft.Roles.{become_follower}
use goraft.Raft.Snapshot.{Installing, returns, install_snapshot_handler}

abbrev pub snapshot_chunk_size : ℕ
snapshot_chunk_size = 32768

-- `SnapshotFile` opens the most recent snapshot. Without one it returns nil, which panics here.
unfoldable pub latest_snapshot : List SnapshotFile → Option SnapshotFile
latest_snapshot [] = none
latest_snapshot (f ∷ fs) = some (record f { position = 0 })

-- `io.Copy` from the position to the end of the file.
unfoldable pub read_rest : SnapshotFile → List ℕ × SnapshotFile
read_rest f =
    let bytes = drop f.position f.contents in
    (bytes, record f { position = f.position + length bytes })

unfoldable pub open_snapshot : Raft → Follower → Option SnapshotFile
unfolding latest_snapshot
open_snapshot r f = elim f.snapshot [ some s ↦ some s | none ↦ latest_snapshot r.stored_snapshots ]

unfoldable pub snapshot_request : Raft → SnapshotFile → InstallSnapshotRequest × SnapshotFile
unfolding read_rest
snapshot_request r s =
    let (bytes, s1) = read_rest s in
    (
      record {
        leader_id = r.id;
        term = r.current_term;
        last_included_index = s.metadata.last_included_index;
        last_included_term = s.metadata.last_included_term;
        configuration = s.metadata.configuration;
        bytes = bytes;
        offset = s.position;
        done = ltb (length bytes) snapshot_chunk_size;
      },
      s1,
    )

-- The request, and the record whose open file has been read: `none` where there is nothing to send.
unfoldable pub begin_install :
    String → Raft → Outcome RpcError (Option (InstallSnapshotRequest × Follower))
unfolding open_snapshot snapshot_request
begin_install id r =
    if not (is_leader r.state) then ok none else if r.last_included_index == 0 then ok none else do
      f ← or_fatal (lookup id r.followers)
      s ← or_fatal (open_snapshot r f)
      let (q, s1) = snapshot_request r s
      ok (some (q, record f { snapshot = some s1 }))

-- After the call on the follower's record: `none` is the error of the call.
unfoldable pub end_install :
    ℕ
    → String
    → InstallSnapshotRequest
    → Option InstallSnapshotResponse
    → Follower
    → Raft
    → Follower × Raft
end_install now id q none f r = (f, r)
end_install now id q (some a) f r = elim f.snapshot [
  | none ↦ (f, r)
  | some s ↦
      if ltb r.current_term a.term
      then (record f { snapshot = none }, become_follower now id a.term r)
      else if not (a.bytes_written == q.offset)
      then (record f { snapshot = some (record s { position = a.bytes_written }) }, r)
      else if not q.done
      then (f, r)
      else (
        record {
          snapshot = none;
          match_index = q.last_included_index;
          next_index = add64 q.last_included_index 1;
        },
        r,
      )
]

-- What the peer answers: an error of the call is no answer.
unfoldable pub answer_install :
    ℕ → InstallSnapshotRequest → Raft → Installing × Option InstallSnapshotResponse
answer_install now q p = elim (install_snapshot_handler now q p) [
  | ok (i, a) ↦ (i, some a)
  | err e ↦ (returns p, none)
  | fatal ↦ (returns p, none)
]

abbrev pub put_back : String → Follower × Raft → Raft
put_back id (f, r) = record r { followers = insert id f r.followers }

-- One call while nothing else happens to the leader: what the peer is at, and the leader after the
-- response.
unfoldable pub exchange : ℕ → String → Raft → Raft → Outcome RpcError (Installing × Raft)
unfolding begin_install end_install answer_install
exchange now id l p = do
  sent ← begin_install id l
  elim sent [
    | none ↦ ok (returns p, l)
    | some (q, f) ↦
        let (i, a) = answer_install now q p in ok (i, put_back id (end_install now id q a f l))
  ]
