-- ===== src/Raft/Append/Outcomes.antt =====
-- What a node and a request have to be, and what comes out of `AppendEntries`.
use goraft.Prelude.{
  ℕ, ◌+◌, ◌≤◌, ◌<◌, ◌≡◌, ◌∙◌, ◌⊎◌, inl, inr, true, false, ltb, if◌then◌else◌, u64_mod, length, ap,
}
use goraft.Log.{Log, get_entry, last_index}
use goraft.Log.Index.{IsLog, Numbered}
use goraft.Requests.{AppendEntriesRequest, AppendEntriesResponse}
use goraft.Raft.{Raft}
use goraft.Raft.Append.{reject, accept, numeric_min}
use goraft.Raft.Append.Check.{Answers}
use goraft.Raft.Append.Merge.{Holds, AgreesTo, CanFallBack}

-- A node whose log starts at or before its snapshot, and has room below 2^64.
pub record IsStored (r : Raft) : Type 0 where
  pub is_log : IsLog r.log
  pub base : r.log.placeholder.index ≤ r.last_included_index
  pub room : last_index r.log + 1 < u64_mod
  pub included_room : r.last_included_index + 1 < u64_mod

-- A request whose entries follow the previous entry.
pub record IsRequest (q : AppendEntriesRequest) : Type 0 where
  pub consecutive : Numbered q.prev_log_index q.entries
  pub fits : q.prev_log_index + length q.entries < u64_mod

-- The request was accepted: r before, s after.
pub record Accepted (q : AppendEntriesRequest) (r s : Raft) : Type 0 where
  pub previous :
      Answers r.log r.last_included_index r.last_included_term q.prev_log_index q.prev_log_term
        accept
  pub valid : IsLog s.log
  pub start : s.log.placeholder ≡ r.log.placeholder
  pub holds : Holds s.log q.entries
  pub reaches : q.prev_log_index + length q.entries ≤ last_index s.log
  pub ends : (s.log ≡ r.log) ⊎ (last_index s.log ≡ q.prev_log_index + length q.entries)
  pub keeps :
      (k : ℕ)
      → k ≤ last_index r.log
      → AgreesTo k r.log q.entries
      → (j : ℕ) → j ≤ k
      → get_entry s.log j ≡ get_entry r.log j
  pub commits : s.commit_index ≡ (
      if ltb r.commit_index q.leader_commit
      then numeric_min q.leader_commit (last_index s.log)
      else r.commit_index)
  pub adopted : s.current_term ≡ q.term

-- The request was rejected with a hint.
pub record Rejected (q : AppendEntriesRequest) (r s : Raft) (hint : ℕ) : Type 0 where
  pub unchanged : s.log ≡ r.log
  pub uncommitted : s.commit_index ≡ r.commit_index
  pub hinted :
      Answers r.log r.last_included_index r.last_included_term q.prev_log_index q.prev_log_term
        (reject hint)
  pub adopted : s.current_term ≡ q.term

abbrev pub Handled : AppendEntriesRequest → Raft → Raft × AppendEntriesResponse → Type 0
Handled q r (s, a) =
    (a.term ≡ q.term)
    × (((a.success ≡ true) × Accepted q r s) ⊎ ((a.success ≡ false) × Rejected q r s a.index))

-- Recognising the leader touches nothing that the outcome is about.
pub Handled-transport :
    (q : AppendEntriesRequest) (r s : Raft) (p : Raft × AppendEntriesResponse)
    → s.log ≡ r.log
    → s.commit_index ≡ r.commit_index
    → s.last_included_index ≡ r.last_included_index
    → s.last_included_term ≡ r.last_included_term
    → Handled q s p
    → Handled q r p
Handled-transport q r s p log commit index included (term, inl (yes_ok, a)) = (
  term,
  inl (
    yes_ok,
    record {
      previous = rw (← log, ← index, ← included) a.previous;
      valid = a.valid;
      start = a.start ∙ ap Log.placeholder log;
      holds = a.holds;
      reaches = a.reaches;
      ends = rw (← log) a.ends;
      keeps = rw (← log) a.keeps;
      commits = rw (← commit) a.commits;
      adopted = a.adopted;
    },
  ),
)
Handled-transport q r s p log commit index included (term, inr (no_ok, a)) = (
  term,
  inr (
    no_ok,
    record {
      unchanged = a.unchanged ∙ log;
      uncommitted = a.uncommitted ∙ commit;
      hinted = rw (← log, ← index, ← included) a.hinted;
      adopted = a.adopted;
    },
  ),
)

pub IsStored-transport :
    (r s : Raft)
    → s.log ≡ r.log
    → s.last_included_index ≡ r.last_included_index
    → IsStored r
    → IsStored s
IsStored-transport r s log index st = record {
  is_log = rw log st.is_log;
  base = rw (log, index) st.base;
  room = rw log st.room;
  included_room = rw index st.included_room;
}

pub CanFallBack-transport :
    (prev : ℕ) (r s : Raft)
    → s.configuration ≡ r.configuration
    → s.committed_configuration ≡ r.committed_configuration
    → CanFallBack prev r
    → CanFallBack prev s
CanFallBack-transport prev r s conf committed (inl (c, e)) = inl (c, committed ∙ e)
CanFallBack-transport prev r s conf committed (inr h) = inr (rw conf h)
