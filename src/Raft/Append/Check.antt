-- ===== src/Raft/Append/Check.antt =====
-- The tests of `AppendEntries` on the previous entry, and the hint that a rejection carries.
use goraft.Prelude.{
  ℕ, zero, suc, ◌+◌, ◌≤◌, ◌<◌, ◌≡◌, ◌≢◌, refl, ap, ◌∙◌, ◌⊎◌, inl, inr, some, false, ltb, leb, ◌==◌,
  not, ◌&&◌, arith, u64_mod, ok, Bool-cases, ltb→lt, leb→le, ==→eq, dec_lt, sub64,
}
use goraft.Log.{Log, get_entry, last_index, next_index}
use goraft.Log.Index.{IsLog, next_index-eq-last_index, get_entry_in_range}
use goraft.Raft.Append.{conflict_start, check_entry, check_previous, Verdict, reject, accept}
pub use goraft.Log.Index.{TermAt}

-- Index s is the first behind the bound, or the entry before it has another term.
abbrev pub IsFirst : Log → ℕ → ℕ → ℕ → Type 0
IsFirst l bound t s =
    (s ≡ bound + 1) ⊎ ((j : ℕ) × (u : ℕ) × (s ≡ j + 1) × (bound < j) × (u ≢ t) × TermAt l j u)

module _ {l : Log} (w : IsLog l) (bound : ℕ) (base : l.placeholder.index ≤ bound)
    (room : last_index l + 1 < u64_mod) where
  -- Where the run of entries of one term that ends at k begins.
  abbrev StartsRun : ℕ → ℕ → ℕ → Type 0
  StartsRun t k s =
      (s ≤ suc k)
      × (bound ≤ k → bound < s)
      × ((j : ℕ) → s ≤ j → j ≤ k → TermAt l j t)
      × (bound ≤ k → IsFirst l bound t s)

  not_above : (a b : ℕ) → ltb a b ≡ false → b ≤ a
  not_above a b h = ground arith

  conflict_start_lem :
      (t k : ℕ)
      → k ≤ last_index l
      → (s : ℕ) × (conflict_start l bound t k ≡ some s) × StartsRun t k s
  unfolding conflict_start
  conflict_start_lem t zero h = (
    1,
    refl,
    (omega arith, λ b. omega arith, (λ j a b. absurd (omega arith)), λ b. inl (omega arith)),
  )
  conflict_start_lem t (suc k) h = elim (Bool-cases (ltb bound (suc k))) [
    | inr out ↦ (
      suc (suc k),
      ground arith,
      (
        omega arith,
        λ b. omega arith,
        (λ j a b. absurd (omega arith)),
        λ b. inl (omega (arith, not_above bound (suc k) out)),
      ),
    )
    | inl above ↦
        let (e, found, numbered) =
          get_entry_in_range w (suc k) (omega (arith, ltb→lt _ _ above)) h in
        elim (Bool-cases (e.term == t)) [
          | inr stop ↦ (
            suc (suc k),
            ground arith,
            (
              omega arith,
              λ b. omega arith,
              (λ j a b. absurd (omega arith)),
              λ b. inr (
                suc k,
                e.term,
                omega arith,
                ltb→lt _ _ above,
                (λ p. ground arith),
                (e, found, refl),
              ),
            ),
          )
          | inl same ↦
              let (s, eq, runs) = conflict_start_lem t k (omega arith) in
              (
                s,
                ground (arith, eq),
                (
                  omega (arith, runs.0),
                  λ b. runs.1 (omega (arith, ltb→lt _ _ above)),
                  (λ j a b. elim (dec_lt j (suc k)) [
                    | yes lt ↦ runs.2 j a (omega arith)
                    | no eq ↦ (e, ap (get_entry l) (omega arith) ∙ found, ==→eq _ _ same)
                  ]),
                  λ b. runs.3 (omega (arith, ltb→lt _ _ above)),
                ),
              )
        ]
  ]

leb-false : (a b : ℕ) → leb a b ≡ false → b < a
leb-false a b h = ground arith

-- The answers of the test on the previous entry: what acceptance means, and which hint a
-- rejection gives.
abbrev pub Answers : Log → ℕ → ℕ → ℕ → ℕ → Verdict → Type 0
Answers l included_index included_term prev_index prev_term accept =
    (included_index ≤ prev_index)
    × (prev_index ≤ last_index l)
    × (((prev_index ≡ included_index) × (prev_term ≡ included_term))
        ⊎ ((included_index < prev_index) × TermAt l prev_index prev_term))
Answers l included_index included_term prev_index prev_term (reject i) =
    ((prev_index < included_index) × (i ≡ included_index + 1))
    ⊎ ((last_index l < prev_index) × (i ≡ last_index l + 1))
    ⊎ ((prev_index ≡ included_index) × (prev_term ≢ included_term) × (i ≡ included_index))
    ⊎ ((included_index < i)
        × (i ≤ prev_index)
        × ((t : ℕ) × (t ≢ prev_term)
            × ((j : ℕ) → i ≤ j → j ≤ prev_index → TermAt l j t)
            × IsFirst l included_index t i))

-- Where the log has the previous entry behind the snapshot, its term decides.
check_behind :
    (l : Log) (included_index prev_index prev_term : ℕ)
    → IsLog l
    → l.placeholder.index ≤ included_index
    → included_index < prev_index
    → prev_index ≤ last_index l
    → last_index l + 1 < u64_mod
    → (v : Verdict) × (check_entry l included_index prev_index prev_term ≡ ok v)
      × ((it : ℕ) → Answers l included_index it prev_index prev_term v)
unfolding check_entry
check_behind l ii pi pt w base above within room =
    let (e, found, numbered) = get_entry_in_range w pi (omega arith) within in
    let (s, start, runs) = conflict_start_lem w ii base room e.term (sub64 pi 1) (omega arith) in
    elim (Bool-cases (e.term == pt)) [
      | inl same ↦ (
        accept,
        rw (found, same),
        λ it. (omega arith, within, inr (above, (e, found, ==→eq _ _ same))),
      )
      | inr other ↦ (
        reject s,
        rw (found, other, start),
        λ it. inr (
            inr (
              inr (
                omega (arith, runs.1),
                omega (arith, runs.0),
                (
                  e.term,
                  λ p. ground arith,
                  (λ j a b. elim (dec_lt j pi) [
                    | yes lt ↦ runs.2 j a (omega arith)
                    | no eq ↦ (e, ap (get_entry l) (omega arith) ∙ found, refl)
                  ]),
                  runs.3 (omega arith),
                ),
              ))),
      )
    ]

-- On a well-formed log that starts at or before the snapshot, with room below 2^64, the test on
-- the previous entry always has an answer. It accepts only where the log or the snapshot has
-- the entry with the leader's term. It rejects with the first index behind the snapshot, with
-- the first index behind the log, with the snapshot's index where the snapshot's term differs,
-- or with the first index behind the snapshot of the run of entries, all of one wrong term,
-- that ends at the previous entry: the entry before it, unless the snapshot has that, has
-- another term.
pub check_previous_lem :
    (l : Log) (included_index included_term prev_index prev_term : ℕ)
    → IsLog l
    → l.placeholder.index ≤ included_index
    → last_index l + 1 < u64_mod
    → included_index + 1 < u64_mod
    → (v : Verdict) × (check_previous l included_index included_term prev_index prev_term ≡ ok v)
      × Answers l included_index included_term prev_index prev_term v
unfolding check_previous
check_previous_lem l ii it pi pt w base room fits = elim (Bool-cases (ltb pi ii)) [
  | inl compacted ↦ (reject (ii + 1), ground arith, inl (omega (arith, ltb→lt _ _ compacted), refl))
  | inr kept ↦ elim (Bool-cases (leb (next_index l) pi)) [
    | inl short ↦ (
      reject (next_index l),
      rw (kept, short),
      inr (
          inl (
            omega (arith, leb→le _ _ short, next_index-eq-last_index w room),
            next_index-eq-last_index w room,
          )),
    )
    | inr long ↦ elim (Bool-cases ((ii == pi) && not (it == pt))) [
      | inl other ↦ (reject ii, rw (kept, long, other), inr (inr (inl (ground arith))))
      | inr fine ↦ elim (Bool-cases (ltb ii pi)) [
        | inr at ↦
            (accept, rw (kept, long, fine, at), (ground (arith, next_index-eq-last_index w room)))
        | inl behind ↦
            let (v, eq, answers) =
              check_behind l ii pi pt w base (ltb→lt _ _ behind)
                (omega (arith, next_index-eq-last_index w room, leb-false _ _ long)) room in
            (v, rw (kept, long, fine, behind) eq, answers it)
      ]
    ]
  ]
]
