-- ===== src/Raft/Append/Merge.antt =====
-- The loop of `AppendEntries` over the entries of a request.
use goraft.Prelude.{
  ℕ, suc, ◌+◌, ◌≤◌, ◌<◌, ◌≡◌, ◌≢◌, refl, ap, ◌∙◌, ◌⊎◌, inl, inr, List, [], ◌∷◌, some, leb, arith,
  u64_mod, ok, Bool-cases, lt→ltb, leb→le, dec_lt, ℕ_discrete, length, get_elem?, All,
}
use goraft.Log.{LogEntry, Log, get_entry, last_index, is_conflict, append_entries}
use goraft.Log.Index.{IsLog, Numbered, Numbered-at, get_entry_in_range}
use goraft.Log.Change.{
  append_entries-IsLog, last_index-append_entries, get_entry-append_old, get_entry-append_new,
  truncate_lem, placeholder-append,
}
use goraft.Configuration.{Configuration}
use goraft.Raft.{Raft}
use goraft.Raft.Roles.{next_configuration}
use goraft.Raft.Roles.Terms.{Frame, Frame-refl, next_configuration-Frame}
use goraft.Raft.Append.{fall_back, overwrite, merge_entries}
use goraft.Raft.Append.Check.{TermAt}

-- Every entry of a list stands in the log, by index and term.
abbrev pub Holds : Log → List LogEntry → Type 0
Holds l = All λ e. TermAt l e.index e.term

Holds-of_get_elem? :
    (m : Log) (p : ℕ) (es : List LogEntry)
    → Numbered p es
    → ((k : ℕ) → k < length es → get_entry m (p + suc k) ≡ get_elem? es k)
    → Holds m es
Holds-of_get_elem? m p [] n f = tt
Holds-of_get_elem? m p (e ∷ es) n f = (
  (e, ap (get_entry m) (omega (arith, n.0)) ∙ f 0 (omega arith), refl),
  Holds-of_get_elem? m (suc p) es n.1
      (λ k h. ap (get_entry m) (omega arith) ∙ f (suc k) (omega arith)),
)

module _ {m : Log} (w : IsLog m) (es : List LogEntry) (n : Numbered (last_index m) es)
    (fits : last_index m + length es < u64_mod) where
  append_entries-Holds : Holds (append_entries m es) es
  append_entries-Holds =
      Holds-of_get_elem? (append_entries m es) (last_index m) es n
        (get_entry-append_new w es n fits)

-- The entries up to k of the request agree with the log.
abbrev pub AgreesTo : ℕ → Log → List LogEntry → Type 0
AgreesTo k l = All λ e. e.index ≤ k → TermAt l e.index e.term

pub AgreesTo-before :
    (k : ℕ) (l : Log) (p : ℕ) (es : List LogEntry) → Numbered p es → k ≤ p → AgreesTo k l es
AgreesTo-before k l p [] n h = tt
AgreesTo-before k l p (e ∷ es) n h =
    ((λ le. absurd (omega (arith, n.0))), AgreesTo-before k l (suc p) es n.1 (omega arith))

-- What the loop makes of the log: it stays well formed, holds all entries of the request, keeps
-- every entry before the first disagreement, and shrinks only if it disagrees.
pub record Merged (prev : ℕ) (es : List LogEntry) (r s : Raft) : Type 0 where
  pub valid : IsLog s.log
  pub start : s.log.placeholder ≡ r.log.placeholder
  pub reaches : prev + length es ≤ last_index s.log
  pub ends : (s.log ≡ r.log) ⊎ (last_index s.log ≡ prev + length es)
  pub holds : Holds s.log es
  pub keeps :
      (k : ℕ)
      → k ≤ last_index r.log
      → AgreesTo k r.log es
      → (j : ℕ) → j ≤ k
      → get_entry s.log j ≡ get_entry r.log j
  pub frame : Frame r s

-- Appending behind `prev`, to a log that agrees with the old one up to there.
append-Merged :
    (prev : ℕ) (es : List LogEntry) (r s : Raft) (m : Log)
    → IsLog m
    → last_index m ≡ prev
    → m.placeholder ≡ r.log.placeholder
    → ((j : ℕ) → j ≤ prev → get_entry m j ≡ get_entry r.log j)
    → ((k : ℕ) → k ≤ last_index r.log → AgreesTo k r.log es → k ≤ prev)
    → Numbered prev es
    → prev + length es < u64_mod
    → s.log ≡ append_entries m es
    → Frame r s
    → Merged prev es r s
append-Merged prev es r s m w last start same until n fits log frame =
    let n' : Numbered (last_index m) es = Numbered-at _ _ es (omega (arith, last)) n in
    let fits' : last_index m + length es < u64_mod = omega (arith, last) in
    record {
      valid = rw log (append_entries-IsLog w es n' fits');
      start = rw log (placeholder-append w es n' fits' ∙ start);
      reaches = rw log (omega (arith, last_index-append_entries w es n' fits', last));
      ends = inr (rw log (omega (arith, last_index-append_entries w es n' fits', last)));
      holds = rw log (append_entries-Holds w es n' fits');
      keeps = λ k hk ag j hj. rw log (
          get_entry-append_old w es n' fits' j (omega (arith, until k hk ag, last))
          ∙ same j (omega (arith, until k hk ag)));
      frame = frame;
    }

-- A configuration to fall back to is there where one may be needed.
abbrev pub CanFallBack : ℕ → Raft → Type 0
CanFallBack prev r =
    ((c : Configuration) × (r.committed_configuration ≡ some c)) ⊎ (r.configuration.index ≤ prev)

fall_back_lem :
    (now index : ℕ) (r : Raft)
    → ((c : Configuration) × (r.committed_configuration ≡ some c)) ⊎ (r.configuration.index < index)
    → (s : Raft) × (fall_back now index r ≡ ok s) × Frame r s × (s.log ≡ r.log)
unfolding fall_back
fall_back_lem now index r h = elim (Bool-cases (leb index r.configuration.index)) [
  | inr keep ↦ (r, rw keep, Frame-refl r, refl)
  | inl cut ↦ elim h [
    | inr below ↦ absurd (omega (arith, leb→le _ _ cut))
    | inl (c, e) ↦
        let (f, log, _) = next_configuration-Frame now c r in
        (next_configuration now c r, rw (cut, e), f, log)
  ]
]

CanFallBack-below :
    (prev index : ℕ) (r : Raft)
    → prev < index
    → CanFallBack prev r
    → ((c : Configuration) × (r.committed_configuration ≡ some c)) ⊎ (r.configuration.index < index)
CanFallBack-below prev index r h (inl c) = inl c
CanFallBack-below prev index r h (inr below) = inr (omega arith)

CanFallBack-suc : (prev : ℕ) (r : Raft) → CanFallBack prev r → CanFallBack (suc prev) r
CanFallBack-suc prev r (inl c) = inl c
CanFallBack-suc prev r (inr below) = inr (omega arith)

-- An entry that conflicts with the log ends every agreement.
AgreesTo-conflict :
    (k : ℕ) (l : Log) (e x : LogEntry) (es : List LogEntry)
    → get_entry l e.index ≡ some x
    → x.term ≢ e.term
    → AgreesTo k l (e ∷ es)
    → k < e.index
AgreesTo-conflict k l e x es found differ ag = elim (dec_lt k e.index) [
  | yes before ↦ before
  | no there ↦ let (y, at, same) = ag.0 (omega arith) in absurd (differ (ground (arith, at, found)))
]

overwrite-Merged :
    (now prev : ℕ) (e : LogEntry) (es : List LogEntry) (r : Raft) (x : LogEntry)
    → IsLog r.log
    → r.log.placeholder.index ≤ prev
    → e.index ≤ last_index r.log
    → CanFallBack prev r
    → Numbered prev (e ∷ es)
    → prev + length (e ∷ es) < u64_mod
    → get_entry r.log e.index ≡ some x
    → x.term ≢ e.term
    → (s : Raft) × (overwrite now e es r ≡ ok s) × Merged prev (e ∷ es) r s
unfolding overwrite
overwrite-Merged now prev e es r x w base within fb n fits found differ =
    let (m, cut, wm, start, last, same) = truncate_lem w e.index (omega (arith, n.0)) within in
    let (s, fell, frame, log) =
      fall_back_lem now e.index (record r { log = m })
        (CanFallBack-below prev e.index r (omega (arith, n.0)) fb) in
    (
      record s { log = append_entries s.log (e ∷ es) },
      rw cut (rw fell refl),
      append-Merged prev (e ∷ es) r _ m wm (omega (arith, last, n.0)) start
          (λ j h. same j (omega (arith, n.0)))
          (λ k hk ag. omega (arith, AgreesTo-conflict k r.log e x es found differ ag, n.0)) n fits
          (ap (λ (l : Log). append_entries l (e ∷ es)) log) (ground arith),
    )

-- The three ways of the loop's body.
module _ (now : ℕ) (e : LogEntry) (es : List LogEntry) (r : Raft) where
  merge_behind :
      last_index r.log < e.index
      → merge_entries now (e ∷ es) r ≡ ok (record r { log = append_entries r.log (e ∷ es) })
  unfolding merge_entries
  merge_behind h = rw (lt→ltb _ _ h, merge_entries) refl

  merge_conflict :
      (x : LogEntry)
      → e.index ≤ last_index r.log
      → get_entry r.log e.index ≡ some x
      → x.index ≡ e.index
      → x.term ≢ e.term
      → merge_entries now (e ∷ es) r ≡ overwrite now e es r
  unfolding merge_entries is_conflict
  merge_conflict x h found same differ = ground arith

  merge_agree :
      (x : LogEntry)
      → e.index ≤ last_index r.log
      → get_entry r.log e.index ≡ some x
      → x.term ≡ e.term
      → merge_entries now (e ∷ es) r ≡ merge_entries now es r
  unfolding merge_entries is_conflict
  merge_agree x h found same = ground arith

skip-Merged :
    (prev : ℕ) (e x : LogEntry) (es : List LogEntry) (r s : Raft)
    → Numbered prev (e ∷ es)
    → e.index ≤ last_index r.log
    → get_entry r.log e.index ≡ some x
    → x.term ≡ e.term
    → Merged (suc prev) es r s
    → Merged prev (e ∷ es) r s
skip-Merged prev e x es r s n within found same m = record {
  valid = m.valid;
  start = m.start;
  reaches = omega (arith, m.reaches);
  ends = elim m.ends [ inl same_log ↦ inl same_log | inr last ↦ inr (omega (arith, last)) ];
  holds = (
    (
      x,
      m.keeps e.index within (AgreesTo-before e.index r.log (suc prev) es n.1 (omega (arith, n.0)))
            e.index (omega arith)
          ∙ found,
      same,
    ),
    m.holds,
  );
  keeps = λ k hk ag. m.keeps k hk ag.1;
  frame = m.frame;
}

-- Consecutive entries that continue a well-formed log behind an index within it, with room
-- below 2^64, are always merged without a fatal error if there is a committed configuration to
-- fall back to, or the current one's index is not behind that index. The log is then well
-- formed and holds all the entries, and everything before the first disagreement is kept.
pub merge_entries-Merged :
    (now prev : ℕ) (es : List LogEntry) (r : Raft)
    → IsLog r.log
    → r.log.placeholder.index ≤ prev
    → prev ≤ last_index r.log
    → CanFallBack prev r
    → Numbered prev es
    → prev + length es < u64_mod
    → (s : Raft) × (merge_entries now es r ≡ ok s) × Merged prev es r s
unfolding merge_entries
merge_entries-Merged now prev [] r w base within fb n fits = (
  r,
  refl,
  record {
    valid = w;
    start = refl;
    reaches = omega arith;
    ends = inl refl;
    holds = tt;
    keeps = λ k hk ag j hj. refl;
    frame = Frame-refl r;
  },
)
merge_entries-Merged now prev (e ∷ es) r w base within fb n fits =
    elim (dec_lt (last_index r.log) e.index) [
      | yes end ↦ (
        record r { log = append_entries r.log (e ∷ es) },
        merge_behind now e es r end,
        append-Merged prev (e ∷ es) r _ r.log w (omega (arith, n.0)) refl (λ j h. refl)
            (λ k hk ag. omega (arith, n.0)) n fits refl (ground arith),
      )
      | no more ↦
          let (x, found, numbered) =
            get_entry_in_range w e.index (omega (arith, n.0)) (omega arith) in
          elim (ℕ_discrete x.term e.term) [
            | no differ ↦
                let (s, eq, merged) =
                  overwrite-Merged now prev e es r x w base (omega arith) fb n fits found differ in
                (s, merge_conflict now e es r x (omega arith) found numbered differ ∙ eq, merged)
            | yes same ↦
                let (s, eq, merged) =
                  merge_entries-Merged now (suc prev) es r w (omega arith) (omega (arith, n.0))
                    (CanFallBack-suc prev r fb) n.1 (omega arith) in
                (
                  s,
                  merge_agree now e es r x (omega arith) found same ∙ eq,
                  skip-Merged prev e x es r s n (omega arith) found same merged,
                )
          ]
    ]
