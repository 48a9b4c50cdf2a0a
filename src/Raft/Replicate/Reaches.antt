-- ===== src/Raft/Replicate/Reaches.antt =====
-- From the request that a leader builds to the follower's log.
use goraft.Prelude.{ℕ, ◌+◌, ◌≤◌, ◌<◌, ◌≡◌, subst, some, true, false, arith, ok}
use goraft.Log.{LogEntry, get_entry, last_index}
use goraft.Requests.{AppendEntriesRequest, AppendEntriesResponse}
use goraft.Raft.{Raft, is_shutdown}
use goraft.Raft.Append.{append_entries_handler}
use goraft.Raft.Append.Check.{TermAt}
use goraft.Raft.Append.Merge.{CanFallBack}
use goraft.Raft.Append.Outcomes.{IsStored, IsRequest}
use goraft.Raft.Append.Handler.{same_value, Accepted-of}
use goraft.Raft.Replicate.{build_request}
use goraft.Raft.Replicate.Sends.{Built, build_request-Built, replicated}

pub Built-of :
    (r : Raft) (next : ℕ) (q : AppendEntriesRequest)
    → IsStored r
    → r.last_included_index ≤ last_index r.log
    → r.last_included_index < next
    → next ≤ last_index r.log + 1
    → build_request r next ≡ ok q
    → Built r next q
Built-of r next q st included above within h =
    let (q', eq, built) = build_request-Built r next st included above within in
    subst (Built r next) (same_value eq h) built

pub Built-IsRequest :
    (r : Raft) (next : ℕ) (q : AppendEntriesRequest) → IsStored r → Built r next q → IsRequest q
Built-IsRequest r next q st b = record {
  consecutive = b.consecutive;
  fits = omega (arith, b.all_of_it, st.room);
}

-- Where a leader's request for a follower's next index is built, and the follower answers the call
-- with success, the follower's log has, from that index to the end of the leader's log, at every
-- index an entry of the term that the leader's has. Both logs are well formed and have room; the
-- next index lies behind the leader's snapshot and at most one behind its log; the follower runs, is
-- in no later term, and has a configuration to fall back to.
pub build_request-append_entries_handler :
    (now next : ℕ) (r f s : Raft) (q : AppendEntriesRequest) (a : AppendEntriesResponse)
    → IsStored r
    → r.last_included_index ≤ last_index r.log
    → r.last_included_index < next
    → next ≤ last_index r.log + 1
    → build_request r next ≡ ok q
    → is_shutdown f.state ≡ false
    → f.current_term ≤ r.current_term
    → IsStored f
    → CanFallBack q.prev_log_index f
    → append_entries_handler now q f ≡ ok (s, a)
    → a.success ≡ true
    → (j : ℕ) → next ≤ j
    → j ≤ last_index r.log
    → (e : LogEntry) × (get_entry r.log j ≡ some e) × TermAt s.log j e.term
build_request-append_entries_handler now next r f s q a st included above within h up term sf fb
      call success =
    let b = Built-of r next q st included above within h in
    replicated r f s next q b (
      Accepted-of now q f s a up (omega (arith, b.same_term)) sf (Built-IsRequest r next q st b) fb
        call success)
