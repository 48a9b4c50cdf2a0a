-- ===== src/Log/Links.antt =====
-- Logs that take the same way back from an entry: log matching.
use goraft.Prelude.{
  ℕ, zero, suc, ◌+◌, ◌≤◌, ◌<◌, ◌≡◌, refl, sym, ap, ◌∙◌, List, [], ◌∷◌, Option, none, some, ◌==◌,
  if◌then◌else◌, arith, subst, ap₂, ◌-◌, All, length, ℕ_discrete,
}
use goraft.Log.{LogEntry, Log, get_entry, last_index}
use goraft.Log.Index.{IsLog, Numbered, TermAt}

abbrev pub term_of_entry : Option LogEntry → ℕ
term_of_entry none = 0
term_of_entry (some e) = e.term

abbrev term_from : LogEntry → ℕ → Option LogEntry → ℕ
term_from start i o = if i == start.index then start.term else term_of_entry o

-- The term at an index, that of the placeholder included.
abbrev pub term_at : Log → ℕ → ℕ
term_at l i = term_from l.placeholder i (get_entry l i)

-- `ledger i t` is the term of the entry before the one that has index i and term t, wherever there
-- is one.
abbrev pub IsLinked : (ℕ → ℕ → ℕ) → Log → Type 0
IsLinked ledger l =
    (i : ℕ)
    → l.placeholder.index ≤ i
    → i < last_index l
    → ledger (suc i) (term_at l (suc i)) ≡ term_at l i

down :
    (ledger : ℕ → ℕ → ℕ) (l m : Log) (n i j : ℕ)
    → j ≡ i + n
    → IsLinked ledger l
    → IsLinked ledger m
    → l.placeholder.index ≤ i
    → m.placeholder.index ≤ i
    → j ≤ last_index l
    → j ≤ last_index m
    → term_at l j ≡ term_at m j
    → term_at l i ≡ term_at m i
down ledger l m zero i j e hl hm pl pm bl bm h =
    subst (λ k. term_at l k ≡ term_at m k) (omega arith) h
down ledger l m (suc n) i j e hl hm pl pm bl bm h =
    let top : j ≡ suc (i + n) = omega arith in
    let same = subst (λ k. term_at l k ≡ term_at m k) top h in
    down ledger l m n i (i + n) refl hl hm pl pm (omega arith) (omega arith) (
      sym (hl (i + n) (omega arith) (omega arith))
      ∙ (ap (ledger (suc (i + n))) same ∙ hm (i + n) (omega arith) (omega arith)))

-- Two logs that are linked to one ledger and have the same term at an index have the same terms at
-- all indices before it, as far as both have them.
pub log_matching :
    (ledger : ℕ → ℕ → ℕ) (l m : Log) (i j : ℕ)
    → IsLinked ledger l
    → IsLinked ledger m
    → l.placeholder.index ≤ i
    → m.placeholder.index ≤ i
    → i ≤ j
    → j ≤ last_index l
    → j ≤ last_index m
    → term_at l j ≡ term_at m j
    → term_at l i ≡ term_at m i
log_matching ledger l m i j hl hm pl pm le bl bm h =
    down ledger l m (j - i) i j (omega arith) hl hm pl pm bl bm h

-- Where the log has an entry.
pub term_at_entry :
    (l : Log) (i t : ℕ) → IsLog l → l.placeholder.index < i → TermAt l i t → term_at l i ≡ t
term_at_entry l i t w above (e, found, same) = ground arith

-- Two logs with the same placeholder and the same entry.
pub term_at_same :
    (l m : Log) (i : ℕ)
    → m.placeholder ≡ l.placeholder
    → get_entry m i ≡ get_entry l i
    → term_at m i ≡ term_at l i
term_at_same l m i start same =
    ap (λ e. term_from e i (get_entry m i)) start ∙ ap (term_from l.placeholder i) same

-- The entries of a request go on from a term.
abbrev pub LinkedFrom : (ℕ → ℕ → ℕ) → ℕ → List LogEntry → Type 0
LinkedFrom ledger t [] = Unit
LinkedFrom ledger t (e ∷ es) = (ledger e.index e.term ≡ t) × LinkedFrom ledger e.term es

-- A log that holds such entries behind index p is linked over them.
pub Holds-links :
    (ledger : ℕ → ℕ → ℕ) (l : Log) (p : ℕ) (es : List LogEntry)
    → IsLog l
    → l.placeholder.index ≤ p
    → Numbered p es
    → LinkedFrom ledger (term_at l p) es
    → All (λ e. TermAt l e.index e.term) es
    → (i : ℕ) → p ≤ i
    → i < p + length es
    → ledger (suc i) (term_at l (suc i)) ≡ term_at l i
Holds-links ledger l p [] w base n link h i lo hi = absurd (omega arith)
Holds-links ledger l p (e ∷ es) w base (at, n) (link, links) (held, h) i lo hi =
    let here : term_at l (suc p) ≡ e.term =
      term_at_entry l (suc p) e.term w (omega arith) (subst (λ k. TermAt l k e.term) at held) in
    elim (ℕ_discrete i p) [
      | yes same ↦
          subst (λ k. ledger (suc k) (term_at l (suc k)) ≡ term_at l k) (sym same)
            (ap₂ ledger (sym at) here ∙ link)
      | no other ↦
          Holds-links ledger l (suc p) es w (omega arith) n (rw here links) h i (omega arith)
            (omega arith)
    ]
