-- ===== src/Raft/Commit/Quorums.antt =====
-- What a round of the commit loop commits.
use goraft.Prelude.{
  ℕ, zero, suc, ◌+◌, ◌-◌, ◌≤◌, ◌<◌, ◌≡◌, refl, ◌∙◌, ◌⊎◌, inl, inr, [], ◌∷◌, some, Bool, true, false,
  ◌||◌, arith, u64_mod, ok, add64, Bool-cases, ℕ_discrete,
}
use goraft.Log.{LogEntry, get_entry, last_index}
use goraft.Log.Index.{IsLog, get_entry_in_range}
use goraft.Configuration.{has_quorum}
use goraft.Event.{wake, apply_cond}
use goraft.Raft.{Raft, is_leader, emit}
use goraft.Raft.Roles.Terms.{send_append_entries_to_peers-Frame}
use goraft.Raft.Append.Outcomes.{IsStored}
use goraft.Raft.Append.Check.{TermAt}
use goraft.Raft.Commit.{matches, may_commit, commit_scan, finish_round, commit_round}

-- The entry at an index has the leader's term, and the leader and the voters that have it are a
-- quorum.
abbrev pub Committable : Raft → ℕ → Type 0
Committable r i =
    TermAt r.log i r.current_term
    × (has_quorum r.configuration (matches r.configuration r.id i r.followers) ≡ true)

may_commit-Committable :
    (r : Raft) (i : ℕ) (e : LogEntry)
    → get_entry r.log i ≡ some e
    → may_commit r i e ≡ true
    → Committable r i
unfolding may_commit
may_commit-Committable r i e found h = ((e, found, ground arith), ground arith)

not_may_commit :
    (r : Raft) (i : ℕ) (e : LogEntry)
    → get_entry r.log i ≡ some e
    → may_commit r i e ≡ false
    → ¬ Committable r i
unfolding may_commit
not_may_commit r i e found h ((x, at, term), quorum) = ground arith

-- The scan changes only the commit index.
abbrev with_commit : Raft → ℕ → Raft
with_commit r c = record r { commit_index = c }

may_commit-with_commit :
    (r : Raft) (c i : ℕ) (e : LogEntry) → may_commit (with_commit r c) i e ≡ may_commit r i e
unfolding may_commit
may_commit-with_commit r c i e = refl

-- The scan of n indices behind i, from commit index c: it ends at the last index that may be
-- committed, if there is one.
abbrev Scanned : Raft → ℕ → ℕ → ℕ → Bool → ℕ → Bool → Type 0
Scanned r n i c b c' b' =
    ((c' ≡ c) × (b' ≡ b) × ((j : ℕ) → i < j → j ≤ i + n → ¬ Committable r j))
    ⊎ ((b' ≡ true)
        × (i < c')
        × (c' ≤ i + n)
        × Committable r c'
        × ((j : ℕ) → c' < j → j ≤ i + n → ¬ Committable r j))

or_found : (b : Bool) → (b || true) ≡ true
or_found true = refl
or_found false = refl

or_not : (b : Bool) → (b || false) ≡ b
or_not true = refl
or_not false = refl

module _ (r : Raft) (n i c : ℕ) (b : Bool) (e : LogEntry) (found : get_entry r.log (suc i) ≡ some e)
    (next : add64 (suc i) 1 ≡ suc (suc i)) where
  scan_found :
      may_commit r (suc i) e ≡ true
      → commit_scan (suc n) (suc i) (with_commit r c) b
        ≡ commit_scan n (suc (suc i)) (with_commit r (suc i)) true
  unfolding commit_scan
  scan_found h = rw (found, may_commit-with_commit, h, next, or_found) refl

  scan_not :
      may_commit r (suc i) e ≡ false
      → commit_scan (suc n) (suc i) (with_commit r c) b
        ≡ commit_scan n (suc (suc i)) (with_commit r c) b
  unfolding commit_scan
  scan_not h = rw (found, may_commit-with_commit, h, next, or_not) refl

-- An index at hand is passed on, or is among the later ones.
none_later :
    (r : Raft) (n i : ℕ)
    → ¬ Committable r (suc i)
    → ((j : ℕ) → suc i < j → j ≤ suc i + n → ¬ Committable r j)
    → (j : ℕ) → i < j
    → j ≤ i + suc n
    → ¬ Committable r j
none_later r n i here later j lo hi = elim (ℕ_discrete j (suc i)) [
  | yes at ↦ rw at here
  | no more ↦ later j (omega arith) (omega arith)
]

Scanned-found :
    (r : Raft) (n i c c' : ℕ) (b b' : Bool)
    → Committable r (suc i)
    → Scanned r n (suc i) (suc i) true c' b'
    → Scanned r (suc n) i c b c' b'
Scanned-found r n i c c' b b' here (inl (at, eq, later)) = inr (
  eq,
  omega (arith, at),
  omega (arith, at),
  rw at here,
  λ j lo hi. later j (omega (arith, at)) (omega arith),
)
Scanned-found r n i c c' b b' here (inr (eq, lo, hi, there, later)) =
    inr (eq, omega arith, omega arith, there, λ j l h. later j l (omega arith))

Scanned-not :
    (r : Raft) (n i c c' : ℕ) (b b' : Bool)
    → ¬ Committable r (suc i)
    → Scanned r n (suc i) c b c' b'
    → Scanned r (suc n) i c b c' b'
Scanned-not r n i c c' b b' here (inl (at, eq, later)) = inl (at, eq, none_later r n i here later)
Scanned-not r n i c c' b b' here (inr (eq, lo, hi, there, later)) =
    inr (eq, omega arith, omega arith, there, λ j l h. later j l (omega arith))

commit_scan_lem :
    (r : Raft) (n i c : ℕ) (b : Bool)
    → IsLog r.log
    → r.log.placeholder.index ≤ i
    → i + n ≤ last_index r.log
    → last_index r.log + 1 < u64_mod
    → (c' : ℕ) × (b' : Bool) × (commit_scan n (suc i) (with_commit r c) b
        ≡ ok (with_commit r c', b'))
      × Scanned r n i c b c' b'
unfolding commit_scan
commit_scan_lem r zero i c b w base within room =
    (c, b, refl, inl (refl, refl, λ j lo hi. absurd (omega arith)))
commit_scan_lem r (suc n) i c b w base within room =
    let (e, found, _) = get_entry_in_range w (suc i) (omega arith) (omega arith) in
    let next : add64 (suc i) 1 ≡ suc (suc i) = omega arith in
    elim (Bool-cases (may_commit r (suc i) e)) [
      | inl commit ↦
          let (c', b', eq, scanned) =
            commit_scan_lem r n (suc i) (suc i) true w (omega arith) (omega arith) room in
          (
            c',
            b',
            scan_found r n i c b e found next commit ∙ eq,
            Scanned-found r n i c c' b b' (may_commit-Committable r (suc i) e found commit) scanned,
          )
      | inr pass ↦
          let (c', b', eq, scanned) =
            commit_scan_lem r n (suc i) c b w (omega arith) (omega arith) room in
          (
            c',
            b',
            scan_not r n i c b e found next pass ∙ eq,
            Scanned-not r n i c c' b b' (not_may_commit r (suc i) e found pass) scanned,
          )
    ]

-- What a round of the leader's commit loop leaves: r before, s after.
pub record Committed (r s : Raft) : Type 0 where
  pub same_log : s.log ≡ r.log
  pub same_term : s.current_term ≡ r.current_term
  pub advanced :
      (s.commit_index ≡ r.commit_index)
      ⊎ ((r.commit_index < s.commit_index)
          × (s.commit_index ≤ last_index r.log)
          × Committable r s.commit_index)
  pub complete : (j : ℕ) → s.commit_index < j → j ≤ last_index r.log → ¬ Committable r j

finish_round-Frame :
    (now : ℕ) (r : Raft) (b : Bool)
    → let s = finish_round now r b in
      (s.log ≡ r.log) × (s.current_term ≡ r.current_term) × (s.commit_index ≡ r.commit_index)
unfolding finish_round
finish_round-Frame now r false = (refl, refl, refl)
finish_round-Frame now r true =
    let (frame, log, _, _, _) =
      send_append_entries_to_peers-Frame now (emit (wake apply_cond ∷ []) r) in
    (log, frame.same_current_term, frame.same_commit_index)

Committed-of :
    (now : ℕ) (r : Raft) (n c' : ℕ) (b' : Bool)
    → r.commit_index + n ≡ last_index r.log
    → Scanned r n r.commit_index r.commit_index false c' b'
    → Committed r (finish_round now (with_commit r c') b')
Committed-of now r n c' b' ends scanned =
    let (log, term, commit) = finish_round-Frame now (with_commit r c') b' in
    record {
      same_log = log;
      same_term = term;
      advanced = elim scanned [
        | inl (at, _, _) ↦ inl (commit ∙ at)
        | inr (_, lo, hi, there, _) ↦
            inr (omega (arith, commit), omega (arith, commit), rw commit there)
      ];
      complete = λ j lo hi. elim scanned [
        | inl (at, _, none_there) ↦ none_there j (omega (arith, commit, at)) (omega arith)
        | inr (_, _, _, _, later) ↦ later j (omega (arith, commit)) (omega arith)
      ];
    }

commit_round_runs :
    (now : ℕ) (r : Raft) (n c' : ℕ) (b' : Bool)
    → is_leader r.state ≡ true
    → add64 r.commit_index 1 ≡ suc r.commit_index
    → last_index r.log - r.commit_index ≡ n
    → commit_scan n (suc r.commit_index) r false ≡ ok (with_commit r c', b')
    → commit_round now r ≡ ok (finish_round now (with_commit r c') b')
unfolding commit_round
commit_round_runs now r n c' b' leads next rounds eq = rw (leads, next, rounds, eq) refl

-- A round of a leader's commit loop always ends, and moves the commit index only forward, only
-- within the log, and only to an entry of the leader's own term that a quorum has; and it leaves
-- no such entry behind the new commit index. The log and the term stay.
pub commit_round-Committed :
    (now : ℕ) (r : Raft)
    → is_leader r.state ≡ true
    → IsStored r
    → r.log.placeholder.index ≤ r.commit_index
    → r.commit_index ≤ last_index r.log
    → (s : Raft) × (commit_round now r ≡ ok s) × Committed r s
commit_round-Committed now r leads st base within =
    let n = last_index r.log - r.commit_index in
    let next : add64 r.commit_index 1 ≡ suc r.commit_index = omega (arith, st.room) in
    let (c', b', eq, scanned) =
      commit_scan_lem r n r.commit_index r.commit_index false st.is_log base (omega arith)
        st.room in
    (
      finish_round now (with_commit r c') b',
      commit_round_runs now r n c' b' leads next refl eq,
      Committed-of now r n c' b' (omega arith) scanned,
    )
