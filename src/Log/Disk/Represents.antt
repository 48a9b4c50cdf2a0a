-- ===== src/Log/Disk/Represents.antt =====
-- When a log on disk and a log in memory stand for the same entries.
use goraft.Prelude.{
  ℕ, zero, suc, ◌+◌, ◌-◌, ◌<◌, ◌≡◌, refl, sym, ap, subst, sub64, ◌∙◌, inl, inr, List, [], ◌∷◌, ◌++◌,
  append-nil, map, Option, none, some, true, false, Outcome, ok, err, length, take, drop, All, ◌==◌,
  Bool-cases, ◌||◌, if◌then◌else◌, arith,
}
use goraft.Log.{LogEntry, Log, entries, log_index, contains, cut, from_position}
use goraft.Requests.Proto.{ProtoLogEntry}
use goraft.Disk.{Codec, DiskError, missing_index, unexpected_end, frame}
use goraft.Disk.Frames.{IsCodec, decode_message-nil, decode_message-torn}
use goraft.Log.Disk.{PersistentLog, open_log, close_log, in_memory, replay}
use goraft.Log.Disk.Layout.{unplaced, Written, Writable}
use goraft.Log.Disk.Replay.{replay-clean_end, replay-torn}

pub map-take : (n : ℕ) (xs : List LogEntry) → map unplaced (take n xs) ≡ take n (map unplaced xs)
map-take zero xs = refl
map-take (suc n) [] = refl
map-take (suc n) (x ∷ xs) = ap (◌∷◌ (unplaced x)) (map-take n xs)

pub map-drop : (n : ℕ) (xs : List LogEntry) → map unplaced (drop n xs) ≡ drop n (map unplaced xs)
map-drop zero xs = refl
map-drop (suc n) [] = refl
map-drop (suc n) (x ∷ xs) = map-drop n xs

pub map-append :
    (xs ys : List LogEntry) → map unplaced (xs ++ ys) ≡ map unplaced xs ++ map unplaced ys
map-append [] ys = refl
map-append (x ∷ xs) ys = ap (◌∷◌ (unplaced x)) (map-append xs ys)

length-map : (xs : List LogEntry) → length (map unplaced xs) ≡ length xs
length-map [] = refl
length-map (x ∷ xs) = omega (arith, length-map xs)

module _ {ℓ} (P : LogEntry → Type ℓ) where
  pub All-take : (n : ℕ) (xs : List LogEntry) → All P xs → All P (take n xs)
  All-take zero xs all = tt
  All-take (suc n) [] all = tt
  All-take (suc n) (x ∷ xs) (p, all) = (p, All-take n xs all)

  pub All-drop : (n : ℕ) (xs : List LogEntry) → All P xs → All P (drop n xs)
  All-drop zero xs all = all
  All-drop (suc n) [] all = tt
  All-drop (suc n) (x ∷ xs) (p, all) = All-drop n xs all

  pub All-append : (xs ys : List LogEntry) → All P xs → All P ys → All P (xs ++ ys)
  All-append [] ys all more = more
  All-append (x ∷ xs) ys (p, all) more = (p, All-append xs ys all more)

unplaced-split :
    (xs : List LogEntry) (y : LogEntry) (ys : List LogEntry)
    → map unplaced xs ≡ unplaced y ∷ map unplaced ys
    → (x : LogEntry) × (rest : List LogEntry) × (xs ≡ x ∷ rest) × (x.index ≡ y.index)
unplaced-split [] y ys h = cc
unplaced-split (x ∷ xs) y ys h = (x, xs, refl, ground (arith, h))

pub contains_same :
    (m l : Log) (i : ℕ)
    → log_index m i ≡ log_index l i
    → length (entries m) ≡ length (entries l)
    → contains m i ≡ contains l i
unfolding contains
contains_same m l i index size = rw (index, size) refl

pub in_bounds :
    (l : Log) (i : ℕ)
    → contains l i ≡ true
    → (0 < log_index l i) × (log_index l i < length (entries l))
unfolding contains
in_bounds l i h = (ground arith, ground arith)

pub entries-cut : (l : Log) (n : ℕ) → 0 < n → entries (cut l n) ≡ take n (entries l)
unfolding cut
entries-cut l zero h = absurd (omega arith)
entries-cut l (suc n) h = let below : suc n - 1 ≡ n = omega arith in rw below refl

pub entries-from_position :
    (l : Log) (xs : List LogEntry) → 0 < length xs → entries (from_position l xs) ≡ xs
unfolding from_position
entries-from_position l [] h = absurd (omega arith)
entries-from_position l (x ∷ xs) h = refl

-- The log with the first k bytes of one more entry in its file.
abbrev pub torn : PersistentLog → List ℕ → ℕ → PersistentLog
torn p buf k = record p {
  file = record {
    contents = p.file.contents ++ take k (frame buf);
    position = length (p.file.contents ++ take k (frame buf));
  };
}

module _ (codec : Codec ProtoLogEntry) where
  -- An open log whose file holds its entries, and whose entries are those of the log in memory but
  -- for their offsets.
  pub record Represents (p : PersistentLog) (l : Log) : Type 0 where
    pub opened : p.is_open ≡ true
    pub same : map unplaced p.entries ≡ map unplaced (entries l)
    pub stored : Written codec 0 p.entries p.file.contents
    pub at_end : p.file.position ≡ length p.file.contents
    pub writable : All (Writable codec) p.entries

  -- The operation on disk succeeds where the one in memory does, and fails where it finds no entry.
  pub data Refines : Outcome DiskError PersistentLog → Option Log → Type 0 where
    both_succeed : {p : PersistentLog} {l : Log} → Represents p l → Refines (ok p) (some l)
    both_miss : Refines (err missing_index) none

  -- With a codec that decodes what it encodes, a log that is closed, opened and replayed has
  -- its entries, its file and its position back.
  pub replay-close_log :
      IsCodec codec
      → (p : PersistentLog) (l : Log) → Represents p l
      → replay codec (open_log (close_log p)) ≡ ok p
  unfolding close_log
  replay-close_log law p l r =
      let (e, es, split, index) = unplaced-split p.entries l.placeholder l.rest r.same in
      rw r.opened (
        replay-clean_end codec law (record p { is_open = false; entries = [] }) e es p.file.contents
          (subst (λ xs. Written codec 0 xs p.file.contents) split r.stored) []
          (decode_message-nil codec) (sym (append-nil p.file.contents))
        ∙ rw (← split, ← r.at_end) refl)

  pub memory_lem :
      (p : PersistentLog) (l : Log)
      → Represents p l
      → (m : Log) × (in_memory p ≡ ok m)
        × (entries m ≡ p.entries)
        × ((i : ℕ) → log_index m i ≡ log_index l i)
        × (length (entries m) ≡ length (entries l))
  unfolding in_memory
  memory_lem p l r =
      let (e, es, split, index) = unplaced-split p.entries l.placeholder l.rest r.same in
      (
        record { placeholder = e; rest = es },
        rw split refl,
        sym split,
        (λ i. ap (sub64 i) index),
        omega (arith, ap length r.same, length-map p.entries, length-map l.rest, ap length split),
      )

  -- Where the last entry of the file breaks off, the log opens and keeps the torn bytes if
  -- nothing of the entry, or just its size, was written, and fails with an unexpected end
  -- otherwise.
  pub replay-torn_entry :
      IsCodec codec
      → (p : PersistentLog) (l : Log) → Represents p l
      → (buf : List ℕ) (k : ℕ) → length buf < 2147483648
      → k < 4 + length buf
      → replay codec (open_log (torn p buf k))
        ≡ (if (k == 0) || (k == 4) then ok (torn p buf k) else err unexpected_end)
  replay-torn_entry law p l r buf k small h =
      let (e, es, split, index) = unplaced-split p.entries l.placeholder l.rest r.same in
      let stored : Written codec 0 (e ∷ es) p.file.contents =
        subst (λ xs. Written codec 0 xs p.file.contents) split r.stored in
      let end = decode_message-torn codec buf k small h in
      elim (Bool-cases ((k == 0) || (k == 4))) [
        | inl q ↦ rw q (
            replay-clean_end codec law (torn p buf k) e es p.file.contents stored
              (take k (frame buf)) (end ∙ rw q refl) refl
            ∙ rw (← split, ← r.opened) refl)
        | inr q ↦ rw q (
            replay-torn codec law (torn p buf k) e es p.file.contents stored (take k (frame buf))
              (end ∙ rw q refl) refl)
      ]
