-- ===== src/Log/Change.antt =====
-- What appending, truncating, compacting and discarding do to the entries of a log.
use goraft.Prelude.{
  ℕ, zero, suc, ◌+◌, ◌-◌, ◌≤◌, ◌<◌, ◌≡◌, refl, sym, ap, ◌∙◌, ◌⊎◌, List, [], ◌∷◌, ◌++◌, none, some,
  true, arith, length, length-append, length-take, length-drop, get_elem?, get_elem?-take,
  get_elem?-drop, get_elem?-append_lt, get_elem?-append_ge, take, drop, u64_mod, dec_lt, inl,
}
use goraft.Log.{
  LogEntry, Log, log_index, contains, get_entry, last_index, last_term, from_position,
  append_entries, truncate, compact, discard_entries,
}
use goraft.Log.Index.{
  Numbered, Numbered-at, IsLog, get_entry_out_of_range, get_entry_in_range, last_index-eq,
  contains_iff, get_entry-rest,
}

Numbered-append :
    (b : ℕ) (xs ys : List LogEntry)
    → Numbered b xs
    → Numbered (b + length xs) ys
    → Numbered b (xs ++ ys)
Numbered-append b [] ys nx ny = Numbered-at _ _ ys (omega arith) ny
Numbered-append b (x ∷ xs) ys nx ny =
    (nx.0, Numbered-append (suc b) xs ys nx.1 (Numbered-at _ _ ys (omega arith) ny))

Numbered-take : (b n : ℕ) (xs : List LogEntry) → Numbered b xs → Numbered b (take n xs)
Numbered-take b zero xs n = tt
Numbered-take b (suc k) [] n = tt
Numbered-take b (suc k) (x ∷ xs) n = (n.0, Numbered-take (suc b) k xs n.1)

Numbered-drop : (b n : ℕ) (xs : List LogEntry) → Numbered b xs → Numbered (b + n) (drop n xs)
Numbered-drop b zero xs n = Numbered-at _ _ xs (omega arith) n
Numbered-drop b (suc k) [] n = tt
Numbered-drop b (suc k) (x ∷ xs) n =
    Numbered-at _ _ (drop k xs) (omega arith) (Numbered-drop (suc b) k xs n.1)

-- Appending entries that continue the numbering keeps the log well formed.
pub append_entries-IsLog :
    {l : Log}
    → IsLog l
    → (es : List LogEntry) → Numbered (last_index l) es
    → last_index l + length es < u64_mod
    → IsLog (append_entries l es)
unfolding append_entries
append_entries-IsLog {l} w es n fits = record {
  numbered = Numbered-append _ l.rest es w.numbered (rw (← last_index-eq w) n);
  fits = omega (arith, length-append l.rest es, last_index-eq w);
}

-- Two logs with the same placeholder agree at an index where their entries do.
get_entry_same :
    {l m : Log}
    → IsLog l
    → IsLog m
    → m.placeholder ≡ l.placeholder
    → (i : ℕ) → i ≤ last_index l
    → i ≤ last_index m
    → (l.placeholder.index < i
        → get_elem? m.rest (i - suc l.placeholder.index)
          ≡ get_elem? l.rest (i - suc l.placeholder.index))
    → get_entry m i ≡ get_entry l i
get_entry_same {l} {m} wl wm same i hl hm eq =
    let base : m.placeholder.index ≡ l.placeholder.index = ap (λ (e : LogEntry). e.index) same in
    elim (dec_lt l.placeholder.index i) [
      | yes lo ↦
          get_entry-rest wm i (omega arith) hm ∙ (rw base (eq lo) ∙ sym (get_entry-rest wl i lo hl))
      | no out ↦
          get_entry_out_of_range wm i (omega (arith, last_index-eq wl, wl.fits)) (inl (omega arith))
          ∙ sym (
              get_entry_out_of_range wl i (omega (arith, last_index-eq wl, wl.fits))
                (inl (omega arith)))
    ]

module _ {l : Log} (w : IsLog l) (es : List LogEntry) (n : Numbered (last_index l) es)
    (fits : last_index l + length es < u64_mod) where
  pub placeholder-append : (append_entries l es).placeholder ≡ l.placeholder
  unfolding append_entries
  placeholder-append = refl

  rest-append : (append_entries l es).rest ≡ l.rest ++ es
  unfolding append_entries
  rest-append = refl

  pub last_index-append_entries : last_index (append_entries l es) ≡ last_index l + length es
  last_index-append_entries = omega (
    arith,
    last_index-eq (append_entries-IsLog w es n fits),
    last_index-eq w,
    ap length rest-append,
    length-append l.rest es,
    ap (λ (e : LogEntry). e.index) placeholder-append,
  )

  -- What was there before stays.
  pub get_entry-append_old :
      (i : ℕ) → i ≤ last_index l → get_entry (append_entries l es) i ≡ get_entry l i
  get_entry-append_old i h =
      get_entry_same w (append_entries-IsLog w es n fits) placeholder-append i h
        (omega (arith, last_index-append_entries))
        λ lo. rw rest-append (get_elem?-append_lt l.rest es _ (omega (arith, last_index-eq w)))

  -- The appended entries are found behind it.
  pub get_entry-append_new :
      (k : ℕ)
      → k < length es
      → get_entry (append_entries l es) (last_index l + suc k) ≡ get_elem? es k
  get_entry-append_new k h =
      let there : last_index l + suc k - suc l.placeholder.index ≡ length l.rest + k =
        omega (arith, last_index-eq w) in
      get_entry-rest (append_entries-IsLog w es n fits) _
        (omega (arith, last_index-eq w, ap (λ (e : LogEntry). e.index) placeholder-append))
        (omega (arith, last_index-append_entries))
      ∙ rw (placeholder-append, rest-append, there) (get_elem?-append_ge l.rest es k)

from_position-drop :
    (l : Log) (n : ℕ) (xs : List LogEntry) (e : LogEntry)
    → get_elem? xs n ≡ some e
    → from_position l (drop n xs) ≡ record { placeholder = e; rest = drop (suc n) xs }
unfolding from_position
from_position-drop l n [] e h = cc
from_position-drop l zero (x ∷ xs) e h = ground arith
from_position-drop l (suc n) (x ∷ xs) e h = from_position-drop l n xs e h

module _ {l : Log} (w : IsLog l) (i : ℕ) (lo : l.placeholder.index < i)
    (hi : i ≤ last_index l) where
  in_range : contains l i ≡ true
  in_range = (contains_iff w i (omega (arith, last_index-eq w, w.fits))).1 (lo, hi)

  position : log_index l i ≡ i - l.placeholder.index
  position = omega (arith, last_index-eq w, w.fits)

  -- Truncating at an index of the log succeeds, and keeps exactly the entries before it.
  pub truncate_lem :
      (m : Log) × (truncate l i ≡ some m)
      × IsLog m
      × (m.placeholder ≡ l.placeholder)
      × (last_index m + 1 ≡ i)
      × ((j : ℕ) → j < i → get_entry m j ≡ get_entry l j)
  unfolding truncate
  truncate_lem =
      let n = i - l.placeholder.index - 1 in
      let m : Log = record l { rest = take n l.rest } in
      let size : length m.rest ≡ n = omega (arith, length-take n l.rest, last_index-eq w) in
      let wm : IsLog m = record {
        numbered = Numbered-take _ n l.rest w.numbered;
        fits = omega (arith, w.fits, size, last_index-eq w);
      } in
      let last : last_index m + 1 ≡ i = omega (arith, last_index-eq wm, size) in
      (
        m,
        rw (in_range, position),
        wm,
        refl,
        last,
        λ j h.
            get_entry_same w wm refl j (omega arith) (omega (arith, last))
              λ above. get_elem?-take n l.rest _ (omega arith),
      )

  -- Compacting through an index of the log succeeds, makes its entry the placeholder, and keeps
  -- exactly the entries behind it.
  pub compact_lem :
      (m : Log) × (compact l i ≡ some m)
      × IsLog m
      × (get_entry l i ≡ some m.placeholder)
      × (last_index m ≡ last_index l)
      × ((j : ℕ) → i < j → j ≤ last_index l → get_entry m j ≡ get_entry l j)
  unfolding compact
  compact_lem =
      let n = i - suc l.placeholder.index in
      let (e, found, numbered) = get_entry_in_range w i lo hi in
      let at : get_elem? l.rest n ≡ some e = sym (get_entry-rest w i lo hi) ∙ found in
      let m : Log = record { placeholder = e; rest = drop (suc n) l.rest } in
      let p : log_index l i ≡ suc n = omega (arith, position) in
      let size : length m.rest + suc n ≡ length l.rest =
        omega (arith, length-drop (suc n) l.rest, last_index-eq w) in
      let wm : IsLog m = record {
        numbered =
            Numbered-at (l.placeholder.index + suc n) _ (drop (suc n) l.rest) (omega arith)
              (Numbered-drop _ (suc n) l.rest w.numbered);
        fits = omega (arith, w.fits, size);
      } in
      let last : last_index m ≡ last_index l =
        omega (arith, last_index-eq wm, last_index-eq w, size) in
      (
        m,
        rw (in_range, p) (ap some (from_position-drop l n l.rest e at)),
        wm,
        found,
        last,
        λ j above within.
            get_entry-rest wm j (omega arith) (omega (arith, last))
            ∙ (get_elem?-drop (suc n) l.rest _
                ∙ (ap (get_elem? l.rest) (omega arith)
                    ∙ sym (get_entry-rest w j (omega arith) within))),
      )

discarded_range : (i j : ℕ) → (j ≤ i) ⊎ (i < j)
discarded_range i j = omega arith

-- Discarding leaves an empty log that ends at the given index and term.
pub discard_entries_lem :
    (l : Log) (i t : ℕ)
    → i < u64_mod
    → IsLog (discard_entries l i t)
      × (last_index (discard_entries l i t) ≡ i)
      × (last_term (discard_entries l i t) ≡ t)
      × ((j : ℕ) → j < u64_mod → get_entry (discard_entries l i t) j ≡ none)
unfolding discard_entries last_index last_term
discard_entries_lem l i t h =
    let w : IsLog (discard_entries l i t) = record { numbered = tt; fits = omega arith } in
    (w, refl, refl, λ j k. get_entry_out_of_range w j k (discarded_range i j))
