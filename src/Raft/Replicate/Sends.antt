-- ===== src/Raft/Replicate/Sends.antt =====
-- The request that a leader builds for a follower, and what becomes of it there.
use goraft.Prelude.{
  ℕ, zero, suc, ◌+◌, ◌-◌, ◌≤◌, ◌<◌, ◌≡◌, refl, ap, ◌⊎◌, inl, inr, List, [], ◌∷◌, some, lt→ltb,
  arith, u64_mod, ok, length, dec_lt, add64, sub64,
}
use goraft.Log.{LogEntry, Log, get_entry, last_index, next_index}
use goraft.Log.Index.{IsLog, Numbered, next_index-eq-last_index, get_entry_in_range}
use goraft.Requests.{AppendEntriesRequest}
use goraft.Raft.{Raft}
use goraft.Raft.Append.{numeric_max}
use goraft.Raft.Append.Check.{TermAt}
use goraft.Raft.Append.Merge.{Holds}
use goraft.Raft.Append.Outcomes.{IsStored, Accepted}
use goraft.Raft.Append.Handler.{not_ltb}
use goraft.Raft.Replicate.{collect_entries, previous_term, build_request}

-- The entries of a list are those of the log from an index on.
abbrev pub Copies : Log → ℕ → List LogEntry → Type 0
Copies l index [] = Unit {0}
Copies l index (e ∷ es) = (get_entry l index ≡ some e) × Copies l (suc index) es

collect_entries_lem :
    (l : Log) (bound n index : ℕ)
    → IsLog l
    → l.placeholder.index ≤ bound
    → bound < suc index
    → index + n ≤ last_index l
    → last_index l + 1 < u64_mod
    → (es : List LogEntry) × (collect_entries l bound n (suc index) ≡ ok es)
      × Numbered index es
      × (length es ≡ n)
      × Copies l (suc index) es
unfolding collect_entries
collect_entries_lem l bound zero index w base above within room = ([], refl, tt, refl, tt)
collect_entries_lem l bound (suc n) index w base above within room =
    let (e, found, numbered) = get_entry_in_range w (suc index) (omega arith) (omega arith) in
    let (es, rest, follows, size, copies) =
      collect_entries_lem l bound n (suc index) w base (omega arith) (omega arith) room in
    let next : add64 (suc index) 1 ≡ suc (suc index) = omega arith in
    (
      e ∷ es,
      ground (arith, found, rest, next, lt→ltb bound (suc index) above),
      (numbered, follows),
      ap suc size,
      (found, copies),
    )

-- What a leader sends: r is the leader, `next` the follower's next index.
pub record Built (r : Raft) (next : ℕ) (q : AppendEntriesRequest) : Type 0 where
  pub same_term : q.term ≡ r.current_term
  pub same_leader : q.leader_id ≡ r.id
  pub same_commit : q.leader_commit ≡ r.commit_index
  pub behind : suc q.prev_log_index ≡ next
  pub consecutive : Numbered q.prev_log_index q.entries
  pub all_of_it : q.prev_log_index + length q.entries ≡ last_index r.log
  pub copies : Copies r.log next q.entries
  pub previous :
      ((q.prev_log_index ≡ r.last_included_index) × (q.prev_log_term ≡ r.last_included_term))
      ⊎ TermAt r.log q.prev_log_index q.prev_log_term

previous_term_lem :
    (l : Log) (ii it prev : ℕ)
    → IsLog l
    → l.placeholder.index ≤ ii
    → ii ≤ prev
    → prev ≤ last_index l
    → last_index l + 1 < u64_mod
    → (t : ℕ) × (previous_term l ii it prev ≡ ok t) × (((prev ≡ ii) × (t ≡ it)) ⊎ TermAt l prev t)
unfolding previous_term
previous_term_lem l ii it prev w base lo hi room = elim (dec_lt ii prev) [
  | no at ↦ (it, ground arith, inl (omega arith, refl))
  | yes above ↦
      let (e, found, _) = get_entry_in_range w prev (omega arith) hi in
      (e.term, ground (arith, found, next_index-eq-last_index w room), inr (e, found, refl))
]

previous_eq :
    (ii prev : ℕ) → ii ≤ prev → prev + 1 < u64_mod → numeric_max (sub64 (suc prev) 1) ii ≡ prev
unfolding numeric_max
previous_eq ii prev lo hi = ground arith

build_request_runs :
    (r : Raft) (next prev t : ℕ) (es : List LogEntry)
    → numeric_max (sub64 next 1) r.last_included_index ≡ prev
    → previous_term r.log r.last_included_index r.last_included_term prev ≡ ok t
    → next ≤ next_index r.log
    → collect_entries r.log r.last_included_index (next_index r.log - next) next ≡ ok es
    → build_request r next
      ≡ ok (record {
        leader_id = r.id;
        term = r.current_term;
        leader_commit = r.commit_index;
        prev_log_index = prev;
        prev_log_term = t;
        entries = es;
      })
unfolding build_request
build_request_runs r next prev t es at term within collected =
    ground (arith, at, term, collected, not_ltb (next_index r.log) next within)

-- For a follower whose next index lies behind the snapshot and at most one behind the log, the
-- leader's request can always be built, and holds all the entries of the leader's log from the
-- next index to the end, behind an entry of the stated term.
pub build_request-Built :
    (r : Raft) (next : ℕ)
    → IsStored r
    → r.last_included_index ≤ last_index r.log
    → r.last_included_index < next
    → next ≤ last_index r.log + 1
    → (q : AppendEntriesRequest) × (build_request r next ≡ ok q) × Built r next q
unfolding build_request
build_request-Built r zero st inside above below = absurd (omega arith)
build_request-Built r (suc prev) st inside above below =
    let prev_eq : numeric_max (sub64 (suc prev) 1) r.last_included_index ≡ prev =
      previous_eq r.last_included_index prev (omega arith) (omega (arith, st.room)) in
    let (t, term, previous) =
      previous_term_lem r.log r.last_included_index r.last_included_term prev st.is_log st.base
        (omega arith) (omega arith) st.room in
    let next = next_index-eq-last_index st.is_log st.room in
    let (es, collected, follows, size, copies) =
      collect_entries_lem r.log r.last_included_index (next_index r.log - suc prev) prev st.is_log
        st.base above (omega (arith, next)) st.room in
    (
      record {
        leader_id = r.id;
        term = r.current_term;
        leader_commit = r.commit_index;
        prev_log_index = prev;
        prev_log_term = t;
        entries = es;
      },
      build_request_runs r (suc prev) prev t es prev_eq term (omega (arith, next)) collected,
      record {
        same_term = refl;
        same_leader = refl;
        same_commit = refl;
        behind = omega arith;
        consecutive = follows;
        all_of_it = omega (arith, size, next);
        copies = copies;
        previous = previous;
      },
    )

Copies-TermAt :
    (l m : Log) (index : ℕ) (es : List LogEntry)
    → Copies l (suc index) es
    → Numbered index es
    → Holds m es
    → (j : ℕ) → index < j
    → j ≤ index + length es
    → (e : LogEntry) × (get_entry l j ≡ some e) × TermAt m j e.term
Copies-TermAt l m index [] c n h j lo hi = absurd (omega arith)
Copies-TermAt l m index (e ∷ es) c n h j lo hi = elim (dec_lt (suc index) j) [
  | yes more ↦ Copies-TermAt l m (suc index) es c.1 n.1 h.1 j more (omega arith)
  | no at ↦
      let here : suc index ≡ j = omega arith in (e, rw (← here) c.0, rw (← here) (rw (n.0) at h.0))
]

-- Replication works: when a follower accepts the request that its leader built, the follower's log
-- has, at every index from the next index to the end of the leader's log, an entry of the term
-- that the leader's entry has. (f and s are the follower before and after.)
pub replicated :
    (r f s : Raft) (next : ℕ) (q : AppendEntriesRequest)
    → Built r next q
    → Accepted q f s
    → (j : ℕ) → next ≤ j
    → j ≤ last_index r.log
    → (e : LogEntry) × (get_entry r.log j ≡ some e) × TermAt s.log j e.term
replicated r f s next q b a j lo hi =
    Copies-TermAt r.log s.log q.prev_log_index q.entries (rw (← b.behind) at b.copies) b.consecutive
      a.holds j (omega (arith, b.behind)) (omega (arith, b.all_of_it))
