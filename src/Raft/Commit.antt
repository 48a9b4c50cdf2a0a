-- ===== src/Raft/Commit.antt =====
-- raft.go: one round of `commitLoop`.
pub mod Quorums
use goraft.Prelude.{
  ℕ, zero, suc, ◌+◌, ◌-◌, String, List, [], ◌∷◌, none, some, Bool, true, false, not, ◌&&◌, ◌||◌,
  leb, ◌==◌, str_eq, if◌then◌else◌, add64, Outcome, ok, err, fatal, ◌>>=◌, or_fatal,
}
use goraft.Log.{LogEntry, Log, get_entry, last_index}
use goraft.Configuration.{Configuration, votes_in, has_quorum}
use goraft.Event.{wake, apply_cond}
use goraft.Raft.{Raft, Follower, RpcError, is_leader, emit}
use goraft.Raft.Roles.{send_append_entries_to_peers}

-- This follower counts for the entry: another voter whose log matches up to it.
unfoldable pub is_match : Configuration → String → ℕ → String × Follower → Bool
is_match c id index (peer, f) =
    not (str_eq peer id || not (votes_in c peer)) && leb index f.match_index

-- The leader's own match, and one for each follower that counts.
unfoldable pub matches : Configuration → String → ℕ → List (String × Follower) → ℕ
unfolding is_match
matches c id index [] = 1
matches c id index (f ∷ fs) =
    let rest = matches c id index fs in if is_match c id index f then suc rest else rest

-- The entry has the leader's term and a quorum.
unfoldable pub may_commit : Raft → ℕ → LogEntry → Bool
may_commit r index e =
    (e.term == r.current_term)
    && has_quorum r.configuration (matches r.configuration r.id index r.followers)

-- The loop over the `n` indices from `index` on; it goes on behind an entry without a quorum.
unfoldable pub commit_scan : ℕ → ℕ → Raft → Bool → Outcome RpcError (Raft × Bool)
commit_scan zero index r committed = ok (r, committed)
commit_scan (suc n) index r committed = do
  e ← or_fatal (get_entry r.log index)
  let found = may_commit r index e
  commit_scan n (add64 index 1) (if found then record r { commit_index = index } else r)
      (committed || found)

-- The commit is announced.
unfoldable pub finish_round : ℕ → Raft → Bool → Raft
finish_round now r committed =
    if committed then send_append_entries_to_peers now (emit (wake apply_cond ∷ []) r) else r

unfoldable pub commit_round : ℕ → Raft → Outcome RpcError Raft
commit_round now r =
    if is_leader r.state
    then (do
      result ← commit_scan (last_index r.log - r.commit_index) (add64 r.commit_index 1) r false
      ok (finish_round now result.0 result.1))
    else ok r
