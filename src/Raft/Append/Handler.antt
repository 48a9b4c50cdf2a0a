-- ===== src/Raft/Append/Handler.antt =====
-- `AppendEntries` as a whole.
use goraft.Prelude.{
  ℕ, ◌≤◌, ◌<◌, ◌≡◌, refl, ◌∙◌, inl, inr, true, false, ltb, if◌then◌else◌, arith, ok, err, lt→ltb,
  Outcome, subst,
}
use goraft.Log.{last_index}
use goraft.Requests.{AppendEntriesRequest, AppendEntriesResponse}
use goraft.Raft.{Raft, is_down, is_shutdown, RpcError}
use goraft.Raft.Roles.{become_follower}
use goraft.Raft.Append.{
  reject, accept, numeric_min, advance_commit, recognise_leader, replicate_request,
  append_entries_handler, check_previous, Verdict,
}
use goraft.Raft.Append.Check.{Answers, check_previous_lem}
use goraft.Raft.Append.Merge.{CanFallBack, merge_entries-Merged}
use goraft.Raft.Append.Outcomes.{
  IsStored, IsRequest, Accepted, Handled, Handled-transport, IsStored-transport,
  CanFallBack-transport,
}

pub not_ltb : (a b : ℕ) → b ≤ a → ltb a b ≡ false
not_ltb a b h = ground arith

-- What recognising the leader changes.
recognise_leader_lem :
    (now : ℕ) (q : AppendEntriesRequest) (r : Raft)
    → r.current_term ≤ q.term
    → let s = recognise_leader now q r in
      (s.current_term ≡ q.term)
      × (s.leader_id ≡ q.leader_id)
      × (s.last_contact ≡ now)
      × (s.log ≡ r.log)
      × (s.commit_index ≡ r.commit_index)
      × (s.last_included_index ≡ r.last_included_index)
      × (s.last_included_term ≡ r.last_included_term)
      × (s.configuration ≡ r.configuration)
      × (s.committed_configuration ≡ r.committed_configuration)
unfolding recognise_leader become_follower
recognise_leader_lem now q r h = ground arith

advance_commit_lem :
    (c : ℕ) (r : Raft)
    → ((advance_commit c r).commit_index
        ≡ (if ltb r.commit_index c then numeric_min c (last_index r.log) else r.commit_index))
      × ((advance_commit c r).log ≡ r.log)
      × ((advance_commit c r).current_term ≡ r.current_term)
unfolding advance_commit
advance_commit_lem c r = ground arith

replicate_request-Handled :
    (now : ℕ) (q : AppendEntriesRequest) (r : Raft)
    → IsStored r
    → IsRequest q
    → CanFallBack q.prev_log_index r
    → r.current_term ≡ q.term
    → (p : Raft × AppendEntriesResponse) × (replicate_request now q r ≡ ok p) × Handled q r p
unfolding replicate_request
replicate_request-Handled now q r st rq fb term =
    let (v, eq, answers) =
      check_previous_lem r.log r.last_included_index r.last_included_term q.prev_log_index
        q.prev_log_term st.is_log st.base st.room st.included_room in
    go v eq answers
  where
    go :
        (v : Verdict)
        → check_previous r.log r.last_included_index r.last_included_term q.prev_log_index
            q.prev_log_term
          ≡ ok v
        → Answers r.log r.last_included_index r.last_included_term q.prev_log_index q.prev_log_term
            v
        → (p : Raft × AppendEntriesResponse) × (replicate_request now q r ≡ ok p) × Handled q r p
    go (reject i) eq answers = (
      (r, record { term = r.current_term; success = false; index = i }),
      rw eq refl,
      (
        term,
        inr (
          refl,
          record { unchanged = refl; uncommitted = refl; hinted = answers; adopted = term },
        ),
      ),
    )
    go accept eq answers =
        let (m, merged, k) =
          merge_entries-Merged now q.prev_log_index q.entries r st.is_log
            (omega (arith, answers.0, st.base)) (answers.1) fb rq.consecutive rq.fits in
        let (commit, log, current) = advance_commit_lem q.leader_commit m in
        (
          (
            advance_commit q.leader_commit m,
            record { term = r.current_term; success = true; index = 0 },
          ),
          rw eq (rw merged refl),
          (
            term,
            inl (
              refl,
              record {
                previous = answers;
                valid = rw log k.valid;
                start = rw log k.start;
                holds = rw log k.holds;
                reaches = rw log k.reaches;
                ends = rw log k.ends;
                keeps = rw log k.keeps;
                commits = rw (log, commit, k.frame.same_commit_index) refl;
                adopted = current ∙ (k.frame.same_current_term ∙ term);
              },
            ),
          ),
        )

handler_recognises :
    (now : ℕ) (q : AppendEntriesRequest) (r : Raft)
    → is_shutdown r.state ≡ false
    → r.current_term ≤ q.term
    → append_entries_handler now q r ≡ replicate_request now q (recognise_leader now q r)
unfolding append_entries_handler
handler_recognises now q r up term = rw (up, not_ltb q.term r.current_term term) refl

-- A running node whose log is well formed and has room below 2^64 handles every AppendEntries
-- request of a term that is not behind its own, whose entries are consecutive, if a
-- configuration to fall back to is there: a committed one, or the current one's index is not
-- behind the previous index. No call of the log fails then; accepted entries stand in the log,
-- and everything before the first disagreement is kept. A rejection changes neither the log nor
-- the commit index, and its hint is the first index behind the snapshot where the request
-- begins before it, the first index behind the log where the log ends before the previous
-- entry, the snapshot's index where the previous entry is the snapshot's and has another term,
-- or else the first index behind the snapshot of the run of entries, all of one wrong term,
-- that ends at the previous entry.
pub append_entries_handler-Handled :
    (now : ℕ) (q : AppendEntriesRequest) (r : Raft)
    → is_shutdown r.state ≡ false
    → r.current_term ≤ q.term
    → IsStored r
    → IsRequest q
    → CanFallBack q.prev_log_index r
    → (p : Raft × AppendEntriesResponse) × (append_entries_handler now q r ≡ ok p) × Handled q r p
append_entries_handler-Handled now q r up term st rq fb =
    let s = recognise_leader now q r in
    let (current, _, _, log, commit, index, included, conf, committed) =
      recognise_leader_lem now q r term in
    let (p, eq, handled) =
      replicate_request-Handled now q s (IsStored-transport r s log index st) rq
        (CanFallBack-transport q.prev_log_index r s conf committed fb) current in
    (
      p,
      handler_recognises now q r up term ∙ eq,
      Handled-transport q r s p log commit index included handled,
    )

-- A request of an older term is turned down: the node is left as it was, and the response tells
-- the newer term. A node that is shut down returns an error.
pub append_entries_handler_refuses :
    (now : ℕ) (q : AppendEntriesRequest) (r : Raft)
    → (is_shutdown r.state ≡ false
        → q.term < r.current_term
        → append_entries_handler now q r
          ≡ ok (r, record { term = r.current_term; success = false; index = 0 }))
      × (is_shutdown r.state ≡ true → append_entries_handler now q r ≡ err is_down)
unfolding append_entries_handler
append_entries_handler_refuses now q r = ((λ up old. rw (up, lt→ltb _ _ old) refl), λ down. rw down)

pub same_value : {A : Type 0} {x y : A} {o : Outcome RpcError A} → o ≡ ok x → o ≡ ok y → x ≡ y
same_value h k = cc (h, k)

-- What the handler returned is as `append_entries_handler-Handled` says.
pub Handled-of :
    (now : ℕ) (q : AppendEntriesRequest) (f s : Raft) (a : AppendEntriesResponse)
    → is_shutdown f.state ≡ false
    → f.current_term ≤ q.term
    → IsStored f
    → IsRequest q
    → CanFallBack q.prev_log_index f
    → append_entries_handler now q f ≡ ok (s, a)
    → Handled q f (s, a)
Handled-of now q f s a up term st rq fb h =
    let (p, eq, handled) = append_entries_handler-Handled now q f up term st rq fb in
    subst (Handled q f) (same_value eq h) handled

pub Accepted-of :
    (now : ℕ) (q : AppendEntriesRequest) (f s : Raft) (a : AppendEntriesResponse)
    → is_shutdown f.state ≡ false
    → f.current_term ≤ q.term
    → IsStored f
    → IsRequest q
    → CanFallBack q.prev_log_index f
    → append_entries_handler now q f ≡ ok (s, a)
    → a.success ≡ true
    → Accepted q f s
Accepted-of now q f s a up term st rq fb h success =
    elim (Handled-of now q f s a up term st rq fb h).1 [
      | inl (_, accepted) ↦ accepted
      | inr (no_success, _) ↦ absurd (cc (no_success, success))
    ]
