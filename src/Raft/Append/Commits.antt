-- ===== src/Raft/Append/Commits.antt =====
-- What `AppendEntries` does to the commit index.
use goraft.Prelude.{ℕ, ◌≤◌, ◌<◌, ◌≡◌, ◌∙◌, ap, arith, dec_lt, false, ok, ◌⊎◌, inl, inr}
use goraft.Log.{Log, get_entry, last_index}
use goraft.Log.Index.{IsLog, last_index-eq, get_entry_in_range, index-get_entry}
use goraft.Requests.{AppendEntriesRequest, AppendEntriesResponse}
use goraft.Raft.{Raft, is_shutdown}
use goraft.Raft.Append.{numeric_min, append_entries_handler}
use goraft.Raft.Append.Merge.{AgreesTo, CanFallBack}
use goraft.Raft.Append.Outcomes.{IsStored, IsRequest, Accepted}
use goraft.Raft.Append.Handler.{Handled-of}

-- A log that still has the entry at c reaches to c.
reaches_kept :
    (l m : Log) (c : ℕ)
    → IsLog l
    → IsLog m
    → l.placeholder.index < c
    → c ≤ last_index l
    → get_entry m c ≡ get_entry l c
    → c ≤ last_index m
reaches_kept l m c wl wm lo hi same =
    let (e, found, _) = get_entry_in_range wl c lo hi in
    (index-get_entry wm c e (omega (arith, last_index-eq wl, wl.fits)) (same ∙ found)).2

Accepted-commit_index :
    (q : AppendEntriesRequest) (r s : Raft)
    → IsStored r
    → r.commit_index ≤ last_index r.log
    → AgreesTo r.commit_index r.log q.entries
    → Accepted q r s
    → ((j : ℕ) → j ≤ r.commit_index → get_entry s.log j ≡ get_entry r.log j)
      × (r.commit_index ≤ s.commit_index)
      × (s.commit_index ≤ last_index s.log)
      × ((s.commit_index ≡ r.commit_index) ⊎ (s.commit_index ≤ q.leader_commit))
unfolding numeric_min
Accepted-commit_index q r s st within ag a =
    let kept = a.keeps r.commit_index within ag in
    let long : r.commit_index ≤ last_index s.log =
      elim (dec_lt r.log.placeholder.index r.commit_index) [
        | yes lo ↦
            reaches_kept r.log s.log r.commit_index st.is_log a.valid lo within
              (kept r.commit_index (omega arith))
        | no out ↦ omega (arith, a.reaches, a.previous.0, st.base)
      ] in
    (
      kept,
      ground (arith, a.commits, long),
      ground (arith, a.commits, long),
      ground (arith, a.commits),
    )

-- A running node whose log is well formed and has room below 2^64, whose commit index lies
-- within the log, answers an AppendEntries request of a term that is not behind its own, whose
-- entries are consecutive. Where the entries of the log up to the commit index agree with those
-- of the request, and a configuration to fall back to is there, the node then still has every
-- entry up to its former commit index, and its commit index has not fallen, lies within the
-- log, and is the former one or at most the leader's.
pub append_entries_handler-commit_index :
    (now : ℕ) (q : AppendEntriesRequest) (r s : Raft) (a : AppendEntriesResponse)
    → is_shutdown r.state ≡ false
    → r.current_term ≤ q.term
    → IsStored r
    → IsRequest q
    → CanFallBack q.prev_log_index r
    → r.commit_index ≤ last_index r.log
    → AgreesTo r.commit_index r.log q.entries
    → append_entries_handler now q r ≡ ok (s, a)
    → ((j : ℕ) → j ≤ r.commit_index → get_entry s.log j ≡ get_entry r.log j)
      × (r.commit_index ≤ s.commit_index)
      × (s.commit_index ≤ last_index s.log)
      × ((s.commit_index ≡ r.commit_index) ⊎ (s.commit_index ≤ q.leader_commit))
append_entries_handler-commit_index now q r s a up term st rq fb within ag run =
    elim (Handled-of now q r s a up term st rq fb run).1 [
      | inl (_, accepted) ↦ Accepted-commit_index q r s st within ag accepted
      | inr (_, rejected) ↦ (
        λ j h. ap (λ l. get_entry l j) rejected.unchanged,
        omega (arith, rejected.uncommitted),
        omega (arith, rejected.uncommitted, ap last_index rejected.unchanged, within),
        inl rejected.uncommitted,
      )
    ]
