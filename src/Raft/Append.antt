-- ===== src/Raft/Append.antt =====
-- raft.go: `AppendEntries`, the handler of a follower.
pub mod Check
pub mod Merge
pub mod Outcomes
pub mod Handler
pub mod Commits
use goraft.Prelude.{
  ℕ, zero, suc, ◌-◌, String, List, [], ◌∷◌, Option, none, some, Bool, true, false, not, ◌&&◌, ◌||◌,
  ltb, leb, ◌==◌, if◌then◌else◌, add64, sub64, Outcome, ok, err, fatal, ◌>>=◌, or_fatal,
}
use goraft.Log.{
  LogEntry, Log, get_entry, last_index, next_index, is_conflict, truncate, append_entries,
}
use goraft.Requests.{AppendEntriesRequest, AppendEntriesResponse}
use goraft.Event.{wake, apply_cond}
use goraft.Raft.{Raft, RpcError, is_down, is_shutdown, is_candidate, is_pre_candidate, emit}
use goraft.Raft.Roles.{become_follower, next_configuration}

-- internal/numeric/numeric.go
unfoldable pub numeric_min : ℕ → ℕ → ℕ
numeric_min a b = if ltb a b then a else b

unfoldable pub numeric_max : ℕ → ℕ → ℕ
numeric_max a b = if ltb b a then a else b

-- The loop back to the first index of the conflicting term: `none` where an entry is missing.
unfoldable pub conflict_start : Log → ℕ → ℕ → ℕ → Option ℕ
conflict_start l bound term zero = some 1
conflict_start l bound term (suc k) = elim (ltb bound (suc k)) [
  | false ↦ some (add64 (suc k) 1)
  | true ↦ elim (get_entry l (suc k)) [
    | none ↦ none
    | some e ↦ elim (e.term == term) [
      | true ↦ conflict_start l bound term k
      | false ↦ some (add64 (suc k) 1)
    ]
  ]
]

-- What the tests on the previous entry say: the index of a rejection, or go on.
pub data Verdict : Type 0 where
  reject : ℕ → Verdict
  accept : Verdict

-- The previous entry lies behind the snapshot: its term decides.
unfoldable pub check_entry : Log → ℕ → ℕ → ℕ → Outcome RpcError Verdict
unfolding conflict_start
check_entry l included_index prev_index prev_term = do
  e ← or_fatal (get_entry l prev_index)
  if e.term == prev_term then ok accept else do
    start ← or_fatal (conflict_start l included_index e.term (sub64 prev_index 1))
    ok (reject start)

unfoldable pub check_previous : Log → ℕ → ℕ → ℕ → ℕ → Outcome RpcError Verdict
unfolding check_entry
check_previous l included_index included_term prev_index prev_term =
    if ltb prev_index included_index
    then ok (reject (add64 included_index 1))
    else if leb (next_index l) prev_index
    then ok (reject (next_index l))
    else if (included_index == prev_index) && not (included_term == prev_term)
    then ok (reject included_index)
    else if ltb included_index prev_index
    then check_entry l included_index prev_index prev_term
    else ok accept

-- Falls back to the committed configuration where the current one is truncated.
unfoldable pub fall_back : ℕ → ℕ → Raft → Outcome RpcError Raft
fall_back now index r =
    if leb index r.configuration.index
    then (do c ← or_fatal r.committed_configuration; ok (next_configuration now c r))
    else ok r

-- Truncates at the first conflicting entry, and appends from there on.
unfoldable pub overwrite : ℕ → LogEntry → List LogEntry → Raft → Outcome RpcError Raft
unfolding fall_back
overwrite now e es r = do
  l ← or_fatal (truncate r.log e.index)
  r1 ← fall_back now e.index (record r { log = l })
  ok (record r1 { log = append_entries r1.log (e ∷ es) })

-- The loop over the entries of the request, and the append that follows it.
unfoldable pub merge_entries : ℕ → List LogEntry → Raft → Outcome RpcError Raft
unfolding overwrite
merge_entries now [] r = ok r
merge_entries now (e ∷ es) r = elim (ltb (last_index r.log) e.index) [
  | true ↦ ok (record r { log = append_entries r.log (e ∷ es) })
  | false ↦ elim (get_entry r.log e.index) [
    | none ↦ fatal
    | some existing ↦ elim (is_conflict existing e) [
      | false ↦ merge_entries now es r
      | true ↦ overwrite now e es r
    ]
  ]
]

unfoldable pub advance_commit : ℕ → Raft → Raft
unfolding numeric_min
advance_commit leader_commit r =
    if ltb r.commit_index leader_commit
    then emit (wake apply_cond ∷ [])
        (record r { commit_index = numeric_min leader_commit (last_index r.log) })
    else r

-- The leader of the request's term is recognised.
unfoldable pub recognise_leader : ℕ → AppendEntriesRequest → Raft → Raft
recognise_leader now request r =
    let r1 = record r { last_contact = now; leader_id = request.leader_id } in
    let r2 =
      if ltb r1.current_term request.term
      then become_follower now request.leader_id request.term r1
      else r1 in
    if (request.term == r2.current_term) && (is_candidate r2.state || is_pre_candidate r2.state)
    then become_follower now request.leader_id request.term r2
    else r2

-- Past the tests on the term.
unfoldable pub replicate_request :
    ℕ → AppendEntriesRequest → Raft → Outcome RpcError (Raft × AppendEntriesResponse)
unfolding check_previous merge_entries advance_commit
replicate_request now request r = do
  verdict ←
      check_previous r.log r.last_included_index r.last_included_term request.prev_log_index
        request.prev_log_term
  elim verdict [
    | reject index ↦ ok (r, record { term = r.current_term; success = false; index = index })
    | accept ↦ do
      r1 ← merge_entries now request.entries r
      ok (
        advance_commit request.leader_commit r1,
        record { term = r.current_term; success = true; index = 0 },
      )
  ]

unfoldable pub append_entries_handler :
    ℕ → AppendEntriesRequest → Raft → Outcome RpcError (Raft × AppendEntriesResponse)
unfolding recognise_leader replicate_request
append_entries_handler now request r =
    if is_shutdown r.state
    then err is_down
    else if ltb request.term r.current_term
    then ok (r, record { term = r.current_term; success = false; index = 0 })
    else replicate_request now request (recognise_leader now request r)
