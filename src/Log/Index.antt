-- ===== src/Log/Index.antt =====
-- Lookups by index in a log whose entries are numbered consecutively.
use goraft.Prelude.{
  ℕ, zero, suc, ◌+◌, ◌-◌, ◌≤◌, ◌<◌, ◌≡◌, refl, subst, ◌∙◌, ◌↔◌, ◌⊎◌, List, [], ◌∷◌, none, some,
  true, false, arith, length, get_elem?, get_elem?-eq_some, last_or, u64_mod, inl, inr, Bool-cases,
}
use goraft.Log.{LogEntry, Log, log_index, contains, get_entry, last_index, next_index}

-- The entries behind index b are b + 1, b + 2, …
abbrev pub Numbered : ℕ → List LogEntry → Type 0
Numbered b [] = Unit {0}
Numbered b (e ∷ es) = (e.index ≡ suc b) × Numbered (suc b) es

pub Numbered-at : (a b : ℕ) (es : List LogEntry) → a ≡ b → Numbered a es → Numbered b es
Numbered-at a b es p = subst (λ k. Numbered k es) p

-- What every operation on the log keeps: consecutive indices, within 64 bits.
pub record IsLog (l : Log) : Type 0 where
  pub numbered : Numbered l.placeholder.index l.rest
  pub fits : l.placeholder.index + length l.rest < u64_mod

-- The log holds an entry of this term at an index.
abbrev pub TermAt : Log → ℕ → ℕ → Type 0
TermAt l i t = (e : LogEntry) × (get_entry l i ≡ some e) × (e.term ≡ t)

Numbered-last :
    (e : LogEntry) (es : List LogEntry)
    → Numbered e.index es
    → (last_or e es).index ≡ e.index + length es
Numbered-last e [] n = omega arith
Numbered-last e (x ∷ xs) n = omega (arith, n.0, Numbered-last x xs (rw n.0 n.1))

pub last_index-eq : {l : Log} → IsLog l → last_index l ≡ l.placeholder.index + length l.rest
unfolding last_index
last_index-eq {l} w = Numbered-last l.placeholder l.rest w.numbered

pub next_index-eq-last_index :
    {l : Log} → IsLog l → last_index l + 1 < u64_mod → next_index l ≡ last_index l + 1
unfolding last_index next_index
next_index-eq-last_index w h = omega arith

-- The log holds exactly the indices above its placeholder, up to the last.
pub contains_iff :
    {l : Log}
    → IsLog l
    → (i : ℕ) → i < u64_mod
    → (contains l i ≡ true) ↔ ((l.placeholder.index < i) × (i ≤ last_index l))
unfolding contains
contains_iff {l} w i h =
    (λ c. ground (arith, last_index-eq w), λ p. ground (arith, last_index-eq w))

Numbered-get_elem? :
    (b : ℕ) (es : List LogEntry) (i : ℕ) (e : LogEntry)
    → Numbered b es
    → get_elem? es i ≡ some e
    → e.index ≡ b + suc i
Numbered-get_elem? b [] i e n h = cc
Numbered-get_elem? b (x ∷ xs) zero e n h = ground (arith, n.0)
Numbered-get_elem? b (x ∷ xs) (suc i) e n h = omega (arith, Numbered-get_elem? (suc b) xs i e n.1 h)

-- Where an index in range is found.
pub get_entry-rest :
    {l : Log}
    → IsLog l
    → (i : ℕ) → l.placeholder.index < i
    → i ≤ last_index l
    → get_entry l i ≡ get_elem? l.rest (i - suc l.placeholder.index)
unfolding get_entry
get_entry-rest {l} w i lo hi =
    let at : log_index l i ≡ suc (i - suc l.placeholder.index) =
      omega (arith, last_index-eq w, w.fits) in
    rw ((contains_iff w i (omega (arith, last_index-eq w, w.fits))).1 (lo, hi)) (rw at refl)

-- An index in range has an entry, which carries that index.
pub get_entry_in_range :
    {l : Log}
    → IsLog l
    → (i : ℕ) → l.placeholder.index < i
    → i ≤ last_index l
    → (e : LogEntry) × (get_entry l i ≡ some e) × (e.index ≡ i)
get_entry_in_range {l} w i lo hi =
    let k = i - suc l.placeholder.index in
    let (e, found) =
      get_elem?-eq_some l.rest (i - suc l.placeholder.index) (omega (arith, last_index-eq w)) in
    (
      e,
      get_entry-rest w i lo hi ∙ found,
      omega (arith, Numbered-get_elem? _ l.rest _ e w.numbered found),
    )

-- An index outside the range has none.
pub get_entry_out_of_range :
    {l : Log}
    → IsLog l
    → (i : ℕ) → i < u64_mod
    → (i ≤ l.placeholder.index) ⊎ (last_index l < i)
    → get_entry l i ≡ none
unfolding get_entry
get_entry_out_of_range {l} w i h out = elim (Bool-cases (contains l i)) [
  | inl c ↦ absurd (omega (arith, (contains_iff w i h).0 c))
  | inr c ↦ rw c
]

get_entry-not_contains : (l : Log) (i : ℕ) → contains l i ≡ false → get_entry l i ≡ none
unfolding get_entry
get_entry-not_contains l i c = rw c

-- An entry that is found carries the index that was asked for.
pub index-get_entry :
    {l : Log}
    → IsLog l
    → (i : ℕ) (e : LogEntry) → i < u64_mod
    → get_entry l i ≡ some e
    → (e.index ≡ i) × (l.placeholder.index < i) × (i ≤ last_index l)
index-get_entry {l} w i e h found = elim (Bool-cases (contains l i)) [
  | inl c ↦
      let (lo, hi) = (contains_iff w i h).0 c in
      let (x, at, eq) = get_entry_in_range w i lo hi in (ground (arith, at, found, eq), lo, hi)
  | inr c ↦ absurd (cc (get_entry-not_contains l i c))
]
