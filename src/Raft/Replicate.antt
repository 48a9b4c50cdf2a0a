-- ===== src/Raft/Replicate.antt =====
-- raft.go: the two halves of `sendAppendEntries`, which gives the lock away for the call. Between
-- the halves Go keeps a pointer to the follower's record; here the second half looks it up again,
-- so a follower that is removed and added anew during the call is not told apart.
pub mod Sends
pub mod Reaches
pub mod Matching
use goraft.Prelude.{
  ℕ, zero, suc, ◌+◌, ◌-◌, String, List, [], ◌∷◌, Option, none, some, Bool, true, false, not, ◌&&◌,
  ◌||◌, leb, ltb, if◌then◌else◌, add64, sub64, length, Outcome, ok, err, fatal, ◌>>=◌, or_fatal,
}
use goraft.Prelude.Assoc.{lookup, insert}
use goraft.Log.{LogEntry, Log, get_entry, next_index, last_index}
use goraft.Configuration.{is_member_of, has_quorum}
use goraft.Requests.{AppendEntriesRequest, AppendEntriesResponse}
use goraft.Event.{wake, commit_cond}
use goraft.Raft.{Raft, Follower, RpcError, is_leader, emit}
use goraft.Raft.Roles.{become_follower, try_apply_read_only_operations}
use goraft.Raft.Append.{numeric_max}

-- Nothing, a snapshot in place of the entries, or the entries.
pub data Sending : Type 0 where
  send_nothing send_snapshot : Sending
  send_entries : AppendEntriesRequest → Sending

-- The loop from an index to the end of the log.
unfoldable pub collect_entries : Log → ℕ → ℕ → ℕ → Outcome RpcError (List LogEntry)
collect_entries l bound zero index = ok []
collect_entries l bound (suc n) index = elim (ltb bound index) [
  | false ↦ ok []
  | true ↦ do
    e ← or_fatal (get_entry l index)
    es ← collect_entries l bound n (add64 index 1)
    ok (e ∷ es)
]

unfoldable pub previous_term : Log → ℕ → ℕ → ℕ → Outcome RpcError ℕ
previous_term l included_index included_term prev =
    if ltb included_index prev && ltb prev (next_index l)
    then (do e ← or_fatal (get_entry l prev); ok e.term)
    else ok included_term

-- A capacity below 0 panics.
unfoldable pub build_request : Raft → ℕ → Outcome RpcError AppendEntriesRequest
build_request r next = do
  let prev = numeric_max (sub64 next 1) r.last_included_index
  prev_term ← previous_term r.log r.last_included_index r.last_included_term prev
  entries ←
      if ltb (next_index r.log) next
      then fatal
      else collect_entries r.log r.last_included_index (next_index r.log - next) next
  ok (record {
    leader_id = r.id;
    term = r.current_term;
    leader_commit = r.commit_index;
    prev_log_index = prev;
    prev_log_term = prev_term;
    entries = entries;
  })

unfoldable pub append_request : String → Raft → Outcome RpcError Sending
append_request id r =
    if not (is_leader r.state) || not (is_member_of r.configuration id) then ok send_nothing else do
      f ← or_fatal (lookup id r.followers)
      if leb f.next_index r.last_included_index
          then ok send_snapshot
          else do request ← build_request r f.next_index; ok (send_entries request)

abbrev pub set_follower : String → Follower → Raft → Raft
set_follower id f r = record r { followers = insert id f r.followers }

-- The counter that the calls of one round share. (`numResponses = nil` clears a local pointer
-- that is not read again.)
unfoldable pub count_response : ℕ → ℕ → Raft → Raft × ℕ
count_response now n r =
    (if has_quorum r.configuration (n + 1) then try_apply_read_only_operations now r else r, n + 1)

unfoldable pub wake_commit : ℕ → Raft → Raft
wake_commit matched r = if ltb r.commit_index matched then emit (wake commit_cond ∷ []) r else r

-- A record that is no longer the peer's is written all the same, and nobody reads it again.
unfoldable pub write_follower : Option Follower → String → Follower → Raft → Raft
write_follower none id f r = set_follower id f r
write_follower (some old) id f r = r

-- What an accepted request says of the follower.
unfoldable pub record_match : Option Follower → String → ℕ → Follower → Raft → Raft
unfolding numeric_max wake_commit write_follower
record_match old id matched f r =
    if ltb f.match_index matched
    then wake_commit matched (
        write_follower old id
          (record f {
            next_index = numeric_max f.next_index (add64 matched 1);
            match_index = matched;
          })
          r)
    else r

-- The record that the call has kept the pointer to.
unfoldable pub kept_follower : Option Follower → String → Raft → Option Follower
kept_follower none id r = lookup id r.followers
kept_follower (some old) id r = some old

-- After the call: `none` is its error. The Boolean asks for a snapshot to be sent. `old` is the
-- record from before the call where the peer has another one now, since it was removed and added
-- again; else it is `none`. Every member has a record, so the lookup does not fail.
unfoldable pub handle_append_response :
    ℕ
    → String
    → AppendEntriesRequest
    → Option AppendEntriesResponse
    → Option Follower
    → ℕ
    → Raft
    → Outcome RpcError (Raft × ℕ × Bool)
unfolding count_response record_match write_follower kept_follower
handle_append_response now id q none old n r = ok (r, n, false)
handle_append_response now id q (some a) old n r =
    if not (is_member_of r.configuration id) || not (is_leader r.state)
    then ok (r, n, false)
    else if ltb r.current_term a.term
    then ok (become_follower now id a.term r, n, false)
    else (let (r1, n1) = count_response now n r in
        do
          f ← or_fatal (kept_follower old id r1)
          if a.success
              then ok
                  (record_match old id (add64 q.prev_log_index (length q.entries)) f r1, n1, false)
              else ok (
                write_follower old id (record f { next_index = a.index }) r1,
                n1,
                leb a.index r1.last_included_index,
              ))
