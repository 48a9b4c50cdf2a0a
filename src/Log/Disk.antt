-- ===== src/Log/Disk.antt =====
-- log.go: `persistentLog` with its file, and the log entries in it. `file` is nil where `is_open` is
-- false. The contents stay when the file is closed; a log that has no file yet has an empty one.
-- An error leaves the log in a state that is not read again: raft.go ends the process.
pub mod Layout
pub mod Replay
pub mod Represents
pub mod Refines
use goraft.Prelude.{
  ℕ, zero, suc, ◌+◌, List, [], ◌∷◌, ◌++◌, Option, none, some, Bool, true, false, not, if◌then◌else◌,
  length, get_elem?, take, drop, Outcome, ok, err, fatal, ◌>>=◌, or_fatal,
}
use goraft.Log.{LogEntry, Log, entries, log_index, contains, new_log_entry, no_op_entry}
use goraft.Requests.Proto.{ProtoLogEntry, proto_entry_type, entry_type_of_proto}
use goraft.Disk.{
  Codec, DiskError, end_of_file, not_open, missing_index, File, empty_file, resize, write,
  encode_message, decode_message,
}

pub record PersistentLog : Type 0 where
  pub file : File
  pub is_open : Bool
  pub entries : List LogEntry

-- The entry with its offset.
unfoldable pub proto_of_entry : LogEntry → ProtoLogEntry
unfolding proto_entry_type
proto_of_entry e = record {
  index = e.index;
  term = e.term;
  offset = e.offset;
  payload = e.data_bytes;
  entry_type = proto_entry_type e.entry_type;
}

unfoldable pub entry_of_proto : ProtoLogEntry → LogEntry
unfolding entry_type_of_proto
entry_of_proto p = record {
  index = p.index;
  term = p.term;
  offset = p.offset;
  data_bytes = p.payload;
  entry_type = entry_type_of_proto p.entry_type;
}

unfoldable pub open_log : PersistentLog → PersistentLog
open_log l = record {
  file = record { contents = l.file.contents; position = 0 };
  is_open = true;
  entries = [];
}

unfoldable pub close_log : PersistentLog → PersistentLog
close_log l = if l.is_open then record l { is_open = false; entries = [] } else l

-- The log in memory. Without the placeholder, indexing panics.
unfoldable pub in_memory : PersistentLog → Outcome DiskError Log
in_memory l = elim l.entries [ [] ↦ fatal | e ∷ es ↦ ok (record { placeholder = e; rest = es }) ]

unfoldable pub truncate_log : ℕ → PersistentLog → Outcome DiskError PersistentLog
truncate_log index l = if not l.is_open then err not_open else do
  m ← in_memory l
  if not (contains m index) then err missing_index else do
    e ← or_fatal (get_elem? (entries m) (log_index m index))
    ok (record l {
      file = record { contents = resize e.offset l.file.contents; position = e.offset };
      entries = take (log_index m index) (entries m);
    })

-- `errors.Is(err, io.EOF)` ends the loop.
unfoldable pub read_error : DiskError → Outcome DiskError (List LogEntry)
read_error end_of_file = ok []
read_error e = err e

unfoldable pub also_read :
    LogEntry
    → Option (Outcome DiskError (List LogEntry))
    → Option (Outcome DiskError (List LogEntry))
also_read e (some (ok es)) = some (ok (e ∷ es))
also_read e other = other

module _ (codec : Codec ProtoLogEntry) where
  unfoldable pub encode_log_entry : LogEntry → Outcome DiskError (List ℕ)
  encode_log_entry e = encode_message codec (proto_of_entry e)

  unfoldable pub decode_log_entry : List ℕ → Outcome DiskError (LogEntry × List ℕ)
  decode_log_entry bytes = do (p, rest) ← decode_message codec bytes; ok (entry_of_proto p, rest)

  -- The loop over the entries of the file, to its end: `none` where the rounds run out.
  unfoldable pub read_entries : ℕ → List ℕ → Option (Outcome DiskError (List LogEntry))
  unfolding read_error also_read
  read_entries zero bytes = none
  read_entries (suc n) bytes = elim (decode_log_entry bytes) [
    | err e ↦ some (read_error e)
    | fatal ↦ some fatal
    | ok (e, rest) ↦ also_read e (read_entries n rest)
  ]

  -- Writes the entries one by one, each with the position it is written at.
  unfoldable pub write_entries : List LogEntry → File → Outcome DiskError (File × List LogEntry)
  write_entries [] f = ok (f, [])
  write_entries (e ∷ es) f = do
    let e1 = record e { offset = f.position }
    bytes ← encode_log_entry e1
    (f1, written) ← write_entries es (write bytes f)
    ok (f1, e1 ∷ written)

  -- A file without an entry gets the placeholder.
  unfoldable pub replay : PersistentLog → Outcome DiskError PersistentLog
  replay l = if not l.is_open then err not_open else do
    let unread = drop l.file.position l.file.contents
    read ← or_fatal (read_entries (suc (length unread)) unread)
    es ← read
    let l1 = record l {
      file = record { contents = l.file.contents; position = length l.file.contents };
      entries = l.entries ++ es;
    }
    elim l1.entries [
      | e ∷ rest ↦ ok l1
      | [] ↦ do
        let e = new_log_entry 0 0 [] no_op_entry
        bytes ← encode_log_entry e
        ok (record l1 { file = write bytes l1.file; entries = e ∷ [] })
    ]

  unfoldable pub append_to_log : List LogEntry → PersistentLog → Outcome DiskError PersistentLog
  append_to_log es l = if not l.is_open then err not_open else do
    (f, written) ← write_entries es l.file
    ok (record l { file = f; entries = l.entries ++ written })

  -- The new file takes the place of the old one.
  unfoldable pub compact_log : ℕ → PersistentLog → Outcome DiskError PersistentLog
  compact_log index l = if not l.is_open then err not_open else do
    m ← in_memory l
    if not (contains m index) then err missing_index else do
      (f, written) ← write_entries (drop (log_index m index) (entries m)) empty_file
      ok (record l { file = f; entries = written })

  unfoldable pub discard_log : ℕ → ℕ → PersistentLog → Outcome DiskError PersistentLog
  discard_log index term l = if not l.is_open then err not_open else do
    let e = new_log_entry index term [] no_op_entry
    bytes ← encode_log_entry e
    ok (record l { file = write bytes empty_file; entries = e ∷ [] })
