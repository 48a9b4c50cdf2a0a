-- ===== src/Log/Disk/Refines.antt =====
-- The log on disk does what the log in memory does, and the file always holds what is in memory.
use goraft.Prelude.{
  ℕ, ◌<◌, ◌≡◌, refl, sym, ap, ap₂, ◌∙◌, inl, inr, List, [], ◌∷◌, ◌++◌, append-nil, map, some, true,
  false, ok, err, length, length-take, length-drop, take, drop, get_elem?, get_elem?-eq_some, All,
  Bool-cases, arith,
}
use goraft.Log.{
  LogEntry, Log, entries, log_index, contains, append_entries, truncate, compact, discard_entries,
  cut, new_log_entry, no_op_entry,
}
use goraft.Requests.Proto.{ProtoLogEntry}
use goraft.Disk.{Codec, missing_index, File, resize, frame, empty_file}
use goraft.Disk.Frames.{encode_message_lem, resize-take}
use goraft.Log.Disk.{
  PersistentLog, in_memory, append_to_log, truncate_log, compact_log, discard_log, write_entries,
  encode_log_entry, proto_of_entry,
}
use goraft.Log.Disk.Layout.{
  unplaced, Written, Writable, Written-at, Written-append, Written-take, write_entries-Written,
  write_frame, appended,
}
use goraft.Log.Disk.Represents.{
  Represents, Refines, both_succeed, both_miss, map-take, map-append, map-drop, All-take, All-drop,
  All-append, contains_same, in_bounds, entries-cut, entries-from_position, memory_lem,
}

module _ (codec : Codec ProtoLogEntry) where
  -- Appending entries that can be encoded to a log whose file holds a log in memory succeeds,
  -- and the file then holds the log in memory with these entries appended.
  pub append_to_log-Represents :
      (p : PersistentLog) (l : Log) (es : List LogEntry)
      → Represents codec p l
      → All (Writable codec) es
      → (q : PersistentLog) × (append_to_log codec es p ≡ ok q)
        × Represents codec q (append_entries l es)
  unfolding append_to_log append_entries
  append_to_log-Represents p l es r all =
      let (written, bytes, runs, lies, same, able) =
        write_entries-Written codec es p.file r.at_end all in
      (
        record p {
          file = record {
            contents = p.file.contents ++ bytes;
            position = length (p.file.contents ++ bytes);
          };
          entries = p.entries ++ written;
        },
        rw (r.opened, runs) refl,
        record {
          opened = r.opened;
          same =
              map-append p.entries written
              ∙ (ap₂ ◌++◌ r.same same ∙ sym (map-append (entries l) es));
          stored =
              Written-append codec 0 p.entries written p.file.contents bytes r.stored
                (Written-at codec _ _ written bytes (omega arith) lies);
          at_end = refl;
          writable = All-append _ p.entries written r.writable able;
        },
      )

  Represents-cut :
      (p : PersistentLog) (l : Log) (n : ℕ) (e : LogEntry)
      → Represents codec p l
      → 0 < n
      → get_elem? p.entries n ≡ some e
      → Represents codec
          (record p {
            file = record { contents = resize e.offset p.file.contents; position = e.offset };
            entries = take n p.entries;
          })
          (cut l n)
  Represents-cut p l n e r positive at =
      let (k, start, inside, lies) =
        Written-take codec 0 n p.entries p.file.contents e r.stored at in
      let whole : e.offset ≡ k = omega arith in
      let short : resize e.offset p.file.contents ≡ take k p.file.contents =
        rw whole (resize-take k p.file.contents inside) in
      record {
        opened = r.opened;
        same =
            map-take n p.entries
            ∙ (ap (take n) r.same
                ∙ (sym (map-take n (entries l))
                    ∙ ap (map unplaced) (sym (entries-cut l n positive))));
        stored = rw short lies;
        at_end = whole ∙ omega (arith, ap length short, length-take k p.file.contents);
        writable = All-take _ n p.entries r.writable;
      }

module _ (p : PersistentLog) (m : Log) (i n : ℕ) (es : List LogEntry) (opened : p.is_open ≡ true)
    (opens : in_memory p ≡ ok m) where
  truncate_log_runs :
      (e : LogEntry)
      → contains m i ≡ true
      → entries m ≡ es
      → log_index m i ≡ n
      → get_elem? es n ≡ some e
      → truncate_log i p
        ≡ ok (record p {
          file = record { contents = resize e.offset p.file.contents; position = e.offset };
          entries = take n es;
        })
  unfolding truncate_log
  truncate_log_runs e there all index at = rw (opens, there, all, index, at, opened) refl

  truncate_log_misses : contains m i ≡ false → truncate_log i p ≡ err missing_index
  unfolding truncate_log
  truncate_log_misses there = rw (opens, there, opened) refl

module _ (codec : Codec ProtoLogEntry) where
  -- Where the file of a log holds the entries of a log in memory, truncating at any index cuts
  -- both alike: it succeeds on disk exactly where it does in memory, and then the file holds
  -- the truncated log; otherwise it fails with the missing index.
  pub truncate_log-Refines :
      (p : PersistentLog) (l : Log) (i : ℕ)
      → Represents codec p l
      → Refines codec (truncate_log i p) (truncate l i)
  unfolding truncate
  truncate_log-Refines p l i r =
      let (m, opens, all, index, size) = memory_lem codec p l r in
      let both : contains m i ≡ contains l i = contains_same m l i (index i) size in
      elim (Bool-cases (contains l i)) [
        | inr e ↦
            rw (truncate_log_misses p m i (log_index l i) p.entries r.opened opens (both ∙ e), e)
              both_miss
        | inl e ↦
            let (low, high) = in_bounds l i e in
            let n = log_index l i in
            let (x, at) = get_elem?-eq_some p.entries n (omega (arith, ap length all)) in
            rw (truncate_log_runs p m i n p.entries r.opened opens x (both ∙ e) all (index i) at, e)
              (both_succeed (Represents-cut codec p l n x r low at))
      ]

  compact_log_runs :
      (p : PersistentLog) (m : Log) (i n : ℕ) (es : List LogEntry)
      → p.is_open ≡ true
      → in_memory p ≡ ok m
      → contains m i ≡ true
      → entries m ≡ es
      → log_index m i ≡ n
      → (f : File) (written : List LogEntry)
      → write_entries codec (drop n es) empty_file ≡ ok (f, written)
      → compact_log codec i p ≡ ok (record p { file = f; entries = written })
  unfolding compact_log
  compact_log_runs p m i n es opened opens there all index f written runs =
      rw (opens, there, all, index, runs, opened) refl

  compact_log_misses :
      (p : PersistentLog) (m : Log) (i : ℕ)
      → p.is_open ≡ true
      → in_memory p ≡ ok m
      → contains m i ≡ false
      → compact_log codec i p ≡ err missing_index
  unfolding compact_log
  compact_log_misses p m i opened opens there = rw (opens, there, opened) refl

  -- Where the file of a log holds the entries of a log in memory, compacting through any index
  -- does alike on both: it succeeds on disk exactly where it does in memory, and then the new
  -- file holds the compacted log; otherwise it fails with the missing index.
  pub compact_log-Refines :
      (p : PersistentLog) (l : Log) (i : ℕ)
      → Represents codec p l
      → Refines codec (compact_log codec i p) (compact l i)
  unfolding compact
  compact_log-Refines p l i r =
      let (m, opens, all, index, size) = memory_lem codec p l r in
      let both : contains m i ≡ contains l i = contains_same m l i (index i) size in
      elim (Bool-cases (contains l i)) [
        | inr e ↦ rw (compact_log_misses p m i r.opened opens (both ∙ e), e) both_miss
        | inl e ↦
            let (low, high) = in_bounds l i e in
            let n = log_index l i in
            let (written, bytes, runs, lies, same, able) =
              write_entries-Written codec (drop n p.entries) empty_file refl
                (All-drop _ n p.entries r.writable) in
            rw
              (
                compact_log_runs p m i n p.entries r.opened opens (both ∙ e) all (index i) _ written
                    runs,
                e,
              )
              (both_succeed (record {
                opened = r.opened;
                same =
                    same
                    ∙ (map-drop n p.entries
                        ∙ (ap (drop n) r.same
                            ∙ (sym (map-drop n (entries l))
                                ∙ ap (map unplaced) (
                                    sym (
                                      entries-from_position l (drop n (entries l))
                                        (omega (arith, length-drop n (entries l))))))));
                stored = lies;
                at_end = refl;
                writable = able;
              }))
      ]

  discard_log_runs :
      (p : PersistentLog) (index term : ℕ) (buf : List ℕ)
      → p.is_open ≡ true
      → codec.marshal (proto_of_entry (new_log_entry index term [] no_op_entry)) ≡ some buf
      → discard_log codec index term p
        ≡ ok (record p {
          file = appended buf empty_file;
          entries = new_log_entry index term [] no_op_entry ∷ [];
        })
  unfolding discard_log encode_log_entry
  discard_log_runs p index term buf opened encodes =
      rw (opened, encode_message_lem codec _ buf encodes, write_frame buf empty_file refl) refl

  -- Discarding leaves a new file with the placeholder alone.
  pub discard_log-Represents :
      (p : PersistentLog) (l : Log) (index term : ℕ)
      → Represents codec p l
      → Writable codec (new_log_entry index term [] no_op_entry)
      → (q : PersistentLog) × (discard_log codec index term p ≡ ok q)
        × Represents codec q (discard_entries l index term)
  unfolding discard_entries Written
  discard_log-Represents p l index term r can =
      let e = new_log_entry index term [] no_op_entry in
      let (buf, (encodes, small)) = can 0 in
      (
        record p { file = appended buf empty_file; entries = e ∷ [] },
        discard_log_runs p index term buf r.opened encodes,
        record {
          opened = r.opened;
          same = refl;
          stored = (buf, [], refl, (encodes, small), sym (append-nil (frame buf)), refl);
          at_end = refl;
          writable = (can, tt);
        },
      )
