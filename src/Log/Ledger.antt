-- ===== src/Log/Ledger.antt =====
-- An entry that is appended, and the logs that do not have it.
use goraft.Prelude.{
  ℕ, zero, suc, ◌+◌, ◌≤◌, ◌<◌, ◌≡◌, ◌≢◌, refl, sym, ap, subst, ◌∙◌, [], ◌∷◌, ◌&&◌, ◌==◌,
  if◌then◌else◌, arith, u64_mod, dec_lt,
}
use goraft.Log.{LogEntry, Log, get_entry, last_index, append_entries, append_entry}
use goraft.Log.Index.{IsLog, last_index-eq}
use goraft.Log.Change.{
  append_entries-IsLog, placeholder-append, last_index-append_entries, get_entry-append_old,
  get_entry-append_new,
}
use goraft.Log.Links.{IsLinked, term_at, term_at_entry, term_at_same}

-- The ledger with one more entry: of index n and term t, behind one of the term `before`.
abbrev pub extend : (ℕ → ℕ → ℕ) → ℕ → ℕ → ℕ → ℕ → ℕ → ℕ
extend ledger n t before i u = if (i == n) && (u == t) then before else ledger i u

-- The log has no entry of this index and term.
abbrev pub IsFree : Log → ℕ → ℕ → Type 0
IsFree m n t = m.placeholder.index < n → n ≤ last_index m → term_at m n ≢ t

extend_other :
    (ledger : ℕ → ℕ → ℕ) (n t before i u x : ℕ)
    → (i ≡ n → u ≢ t)
    → ledger i u ≡ x
    → extend ledger n t before i u ≡ x
extend_other ledger n t before i u x free h = ground (arith, free)

pub extend-IsLinked :
    (ledger : ℕ → ℕ → ℕ) (n t before : ℕ) (m : Log)
    → IsLinked ledger m
    → IsFree m n t
    → IsLinked (extend ledger n t before) m
extend-IsLinked ledger n t before m h free i lo hi =
    extend_other ledger n t before (suc i) (term_at m (suc i)) (term_at m i)
      (λ e. subst (λ k. term_at m k ≢ t) (sym e) (free (omega arith) (omega arith))) (h i lo hi)

extend_here :
    (ledger : ℕ → ℕ → ℕ) (n t before u : ℕ) → u ≡ t → extend ledger n t before n u ≡ before
extend_here ledger n t before u h = ground arith

pub append_entry-IsLinked :
    (ledger : ℕ → ℕ → ℕ) (l : Log) (e : LogEntry)
    → IsLog l
    → e.index ≡ suc (last_index l)
    → last_index l + 1 < u64_mod
    → IsLinked ledger l
    → IsLinked
        (extend ledger (suc (last_index l)) e.term (term_at l (last_index l)))
        (append_entry l e)
unfolding append_entry
append_entry-IsLinked ledger l e w at room h i lo hi = elim (dec_lt i (last_index l)) [
  | yes below ↦
      extend_other ledger (suc (last_index l)) e.term (term_at l (last_index l)) (suc i)
        (term_at m (suc i)) (term_at m i) (λ same. absurd (omega arith))
        (ap (ledger (suc i)) (kept (suc i) (omega arith))
          ∙ (h i lo below ∙ sym (kept i (omega arith))))
  | no above ↦
      let here : i ≡ last_index l = omega (arith, size) in
      subst
        (λ k.
          extend ledger (suc (last_index l)) e.term (term_at l (last_index l)) (suc k)
            (term_at m (suc k))
          ≡ term_at m k)
        (sym here)
        (extend_here ledger (suc (last_index l)) e.term (term_at l (last_index l))
            (term_at m (suc (last_index l))) new
          ∙ sym (kept (last_index l) (omega arith)))
]
  where
    m : Log
    m = append_entries l (e ∷ [])

    size : last_index m ≡ last_index l + 1
    size = last_index-append_entries w (e ∷ []) (at, tt) room

    kept : (j : ℕ) → j ≤ last_index l → term_at m j ≡ term_at l j
    kept j le =
        term_at_same l m j (placeholder-append w (e ∷ []) (at, tt) room)
          (get_entry-append_old w (e ∷ []) (at, tt) room j le)

    new : term_at m (suc (last_index l)) ≡ e.term
    new =
        term_at_entry m (suc (last_index l)) e.term (append_entries-IsLog w (e ∷ []) (at, tt) room)
          (omega (arith, last_index-eq w))
          (
            e,
            ap (get_entry m) (omega arith)
                ∙ get_entry-append_new w (e ∷ []) (at, tt) room zero (omega arith),
            refl,
          )
