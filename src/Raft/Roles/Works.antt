-- ===== src/Raft/Roles/Works.antt =====
-- What a node does besides elections and the requests of other nodes.
use goraft.Prelude.{
  ℕ, ◌≡◌, String, subst, ok, none, some, inl, inr, ◌⊎◌, ◌<◌, false, arith, refl, Option, Bool, List,
}
use goraft.Requests.{
  AppendEntriesRequest, AppendEntriesResponse, InstallSnapshotRequest, InstallSnapshotResponse,
}
use goraft.Configuration.{Configuration}
use goraft.Operation.{Operation, OperationType}
use goraft.Raft.{Raft, Follower, SnapshotFile, is_leader}
use goraft.Raft.Roles.{become_follower, try_apply_read_only_operations}
use goraft.Raft.Roles.Kept.{
  submit_operation-IsAs, add_server-IsAs, remove_server-IsAs, commit_round-IsAs, end_apply-IsAs,
  end_wait-IsAs, end_restore-IsAs, end_snapshot-IsAs, begin_apply-IsAs, begin_reads-IsAs,
  applying_state,
}
use goraft.Raft.Client.{submit_operation, add_server, remove_server}
use goraft.Raft.Replicate.{
  handle_append_response, count_response, record_match, write_follower, kept_follower,
}
use goraft.Raft.Commit.{commit_round}
use goraft.Raft.Apply.{Applying, begin_apply, end_apply}
use goraft.Raft.Reads.{begin_reads}
use goraft.Raft.Snapshot.{end_wait, end_restore, end_snapshot}
use goraft.Raft.Snapshot.Sending.{end_install, put_back}
use goraft.Raft.Roles.Stored.{IsStoredVote, IsAs, IsAs-refl, IsAs-IsStoredVote}

-- A client's call, an answer from a follower, or a turn of a loop.
pub data Work : Raft → Raft → Type 0 where
  submits :
      (now channel : ℕ) (bytes : List ℕ) (t : OperationType) (r s : Raft)
      → submit_operation now channel bytes t r ≡ s
      → Work r s
  adds :
      (encode : Configuration → Option (List ℕ)) (now channel : ℕ) (id address : String)
      (voter : Bool) (r s : Raft)
      → add_server encode now channel id address voter r ≡ ok s
      → Work r s
  removes :
      (encode : Configuration → Option (List ℕ)) (now channel : ℕ) (id : String) (r s : Raft)
      → remove_server encode now channel id r ≡ ok s
      → Work r s
  replicates :
      (now : ℕ) (id : String) (q : AppendEntriesRequest) (o : Option AppendEntriesResponse)
      (old : Option Follower) (n m : ℕ) (r s : Raft) (b : Bool)
      → handle_append_response now id q o old n r ≡ ok (s, m, b)
      → Work r s
  commits : (now : ℕ) (r s : Raft) → commit_round now r ≡ ok s → Work r s
  takes_up :
      (decode : List ℕ → Option Configuration) (need : ℕ → Bool) (now : ℕ) (r : Raft) (a : Applying)
      → begin_apply decode need now r ≡ ok a
      → Work r (applying_state a)
  reads : (r s : Raft) → (begin_reads r).0 ≡ s → Work r s
  applies :
      (need : ℕ → Bool) (o : Operation) (channel : Option ℕ) (n : ℕ) (r s : Raft)
      → end_apply need o channel n r ≡ s
      → Work r s
  waits_over : (q : InstallSnapshotRequest) (r s : Raft) → end_wait q r ≡ ok s → Work r s
  restores_over :
      (decode : List ℕ → Option Configuration) (now : ℕ) (q : InstallSnapshotRequest) (r s : Raft)
      → end_restore decode now q r ≡ ok s
      → Work r s
  snapshots_over : (f : SnapshotFile) (r s : Raft) → end_snapshot f r ≡ ok s → Work r s
  sends_snapshot :
      (now : ℕ) (id : String) (q : InstallSnapshotRequest) (o : Option InstallSnapshotResponse)
      (f : Follower) (r s : Raft)
      → put_back id (end_install now id q o f r) ≡ s
      → Work r s

-- The node is as before, or no leader in a later term, which is stored.
abbrev pub Lasts : Raft → Raft → Type 0
Lasts r s =
    IsAs r s
    ⊎ ((s.id ≡ r.id)
        × (r.current_term < s.current_term)
        × (is_leader s.state ≡ false)
        × IsStoredVote s)

same : (r s : Raft) {t : Raft} → t ≡ s → IsAs r t → Lasts r s
same r s {t} e h = inl (subst (IsAs r) e h)

handle_append_response-Lasts :
    (now : ℕ) (id : String) (q : AppendEntriesRequest) (o : Option AppendEntriesResponse)
    (old : Option Follower) (n m : ℕ) (r s : Raft) (b : Bool)
    → handle_append_response now id q o old n r ≡ ok (s, m, b)
    → Lasts r s
unfolding handle_append_response count_response record_match write_follower kept_follower
    become_follower try_apply_read_only_operations
handle_append_response-Lasts now id q none old n m r s b k = ground arith
handle_append_response-Lasts now id q (some a) none n m r s b k = ground arith
handle_append_response-Lasts now id q (some a) (some old) n m r s b k = ground arith

end_install-Lasts :
    (now : ℕ) (id : String) (q : InstallSnapshotRequest) (o : Option InstallSnapshotResponse)
    (f : Follower) (r : Raft)
    → Lasts r (put_back id (end_install now id q o f r))
unfolding end_install become_follower
end_install-Lasts now id q none f r = inl (IsAs-refl r)
end_install-Lasts now id q (some a) f r = go f.snapshot refl
  where
    go :
        (x : Option SnapshotFile)
        → f.snapshot ≡ x
        → Lasts r (put_back id (end_install now id q (some a) f r))
    go none e = ground arith
    go (some x) e = ground arith

pub Work-Lasts : (r s : Raft) → Work r s → Lasts r s
Work-Lasts _ _ (submits now channel bytes t r s h) =
    same r s h (submit_operation-IsAs now channel bytes t r r (IsAs-refl r))
Work-Lasts _ _ (adds encode now channel id address voter r s h) =
    inl (add_server-IsAs encode now channel id address voter r r s (IsAs-refl r) h)
Work-Lasts _ _ (removes encode now channel id r s h) =
    inl (remove_server-IsAs encode now channel id r r s (IsAs-refl r) h)
Work-Lasts _ _ (replicates now id q o old n m r s b h) =
    handle_append_response-Lasts now id q o old n m r s b h
Work-Lasts _ _ (commits now r s h) = inl (commit_round-IsAs now r r s (IsAs-refl r) h)
Work-Lasts _ _ (takes_up decode need now r a h) =
    inl (begin_apply-IsAs decode need now r r a (IsAs-refl r) h)
Work-Lasts _ _ (reads r s h) = same r s h (begin_reads-IsAs r r (IsAs-refl r))
Work-Lasts _ _ (applies need o channel n r s h) =
    same r s h (end_apply-IsAs need o channel n r r (IsAs-refl r))
Work-Lasts _ _ (waits_over q r s h) = inl (end_wait-IsAs q r r s (IsAs-refl r) h)
Work-Lasts _ _ (restores_over decode now q r s h) =
    inl (end_restore-IsAs decode now q r r s (IsAs-refl r) h)
Work-Lasts _ _ (snapshots_over f r s h) = inl (end_snapshot-IsAs f r r s (IsAs-refl r) h)
Work-Lasts _ _ (sends_snapshot now id q o f r s h) =
    subst (Lasts r) h (end_install-Lasts now id q o f r)

pub Lasts-IsStoredVote : (r s : Raft) → Lasts r s → IsStoredVote r → IsStoredVote s
Lasts-IsStoredVote r s (inl h) k = IsAs-IsStoredVote r s h k
Lasts-IsStoredVote r s (inr (_, _, _, h)) k = h
