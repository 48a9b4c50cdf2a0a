-- ===== src/Lifecycle/Scan.antt =====
-- The loop of `restore` over the indices of the log, against the list of its entries.
use goraft.Prelude.{
  ℕ, zero, suc, ◌+◌, ◌-◌, ◌<◌, ◌≡◌, refl, ap, ◌∙◌, List, [], ◌∷◌, Option, some, true, leb, length,
  length-drop, drop, get_elem?, add64, Outcome, ok, err, fatal, ◌>>=◌, le→leb, u64_mod, arith,
}
use goraft.Log.{LogEntry, get_entry, last_index}
use goraft.Log.Index.{IsLog, get_entry-rest, last_index-eq}
use goraft.Configuration.{Configuration}
use goraft.Lifecycle.{Node, StartError, restore_entry, restore_entries}

bind_same :
    {A B : Type 0} (o : Outcome StartError A) (f g : A → Outcome StartError B)
    → ((a : A) → o ≡ ok a → f a ≡ g a)
    → (o >>= f) ≡ (o >>= g)
bind_same (ok a) f g h = h a refl
bind_same (err x) f g h = refl
bind_same fatal f g h = refl

drop-suc :
    (n : ℕ) (xs : List LogEntry) (e : LogEntry) (es : List LogEntry)
    → drop n xs ≡ e ∷ es
    → (drop (suc n) xs ≡ es) × (get_elem? xs n ≡ some e)
drop-suc zero [] e es h = cc
drop-suc zero (x ∷ xs) e es h = (cc, cc)
drop-suc (suc n) [] e es h = cc
drop-suc (suc n) (x ∷ xs) e es h = drop-suc n xs e es h

module _ (decode : List ℕ → Option Configuration) where
  -- Entry by entry, each configuration takes the place of the one before.
  abbrev pub restore_list : List LogEntry → Node → Outcome StartError Node
  restore_list [] n = ok n
  restore_list (e ∷ es) n = restore_entry decode e n >>= restore_list es

  restore_entry-log :
      (e : LogEntry) (n m : Node) → restore_entry decode e n ≡ ok m → m.raft.log ≡ n.raft.log
  unfolding restore_entry
  restore_entry-log e n m h = ground arith

  restore_entries_runs :
      (k i : ℕ) (n : Node) (e : LogEntry)
      → leb i (last_index n.raft.log) ≡ true
      → get_entry n.raft.log i ≡ some e
      → restore_entries decode (suc k) i n
        ≡ (restore_entry decode e n >>= restore_entries decode k (add64 i 1))
  unfolding restore_entries
  restore_entries_runs k i n e h there = rw (restore_entries, h, there) refl

  -- From an index behind the placeholder of a well-formed log to its end, where the next index
  -- does not overflow, the loop of restore over the indices does what taking the entries of the
  -- list in their order does; no entry is missing.
  pub restore_entries_lem :
      (k i : ℕ) (n : Node)
      → IsLog n.raft.log
      → n.raft.log.placeholder.index < i
      → i + k ≡ suc (last_index n.raft.log)
      → suc (last_index n.raft.log) < u64_mod
      → (es : List LogEntry) → drop (i - suc n.raft.log.placeholder.index) n.raft.log.rest ≡ es
      → restore_entries decode k i n ≡ restore_list es n
  unfolding restore_entries
  restore_entries_lem zero i n w lo end fits [] split = refl
  restore_entries_lem zero i n w lo end fits (e ∷ es) split = absurd (
      omega (
        arith,
        ap length split,
        length-drop (i - suc n.raft.log.placeholder.index) n.raft.log.rest,
        last_index-eq w,
      ))
  restore_entries_lem (suc k) i n w lo end fits [] split = absurd (
      omega (
        arith,
        ap length split,
        length-drop (i - suc n.raft.log.placeholder.index) n.raft.log.rest,
        last_index-eq w,
      ))
  restore_entries_lem (suc k) i n w lo end fits (e ∷ es) split =
      let (tail, head) =
        drop-suc (i - suc n.raft.log.placeholder.index) n.raft.log.rest e es split in
      let next : add64 i 1 ≡ i + 1 = omega arith in
      let after : i + 1 - suc n.raft.log.placeholder.index
          ≡ suc (i - suc n.raft.log.placeholder.index) =
        omega arith in
      restore_entries_runs k i n e (le→leb i (last_index n.raft.log) (omega arith))
        (get_entry-rest w i lo (omega arith) ∙ head)
      ∙ bind_same (restore_entry decode e n) _ _ λ m h.
        let same = restore_entry-log e n m h in
        restore_entries_lem k (add64 i 1) m (rw same w) (rw (same, next) (omega arith))
          (rw (same, next) (omega arith)) (rw same fits) es (rw (same, next, after) tail)
