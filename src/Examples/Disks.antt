-- ===== src/Examples/Disks.antt =====
-- Logs and states on disk, with a simple code in the place of protobuf.
use goraft.Prelude.{
  Bool-cases, inl, inr, ℕ, ◌+◌, ◌≡◌, ◌≢◌, refl, sym, ap, List, [], ◌∷◌, Option, none, some, true,
  ok, arith, str_eq, eq_iff, if◌then◌else◌,
}
use goraft.Log.{Log, new_log_entry, no_op_entry, truncate, compact, append_entries}
use goraft.Requests.Proto.{ProtoLogEntry, proto_entry_type}
use goraft.Disk.{Codec, frame, be32}
use goraft.Disk.Frames.{IsCodec}
use goraft.Log.Disk.{
  PersistentLog, proto_of_entry, open_log, close_log, read_entries, replay, truncate_log,
  compact_log, append_to_log,
}
use goraft.Log.Disk.Layout.{Written, Writable}
use goraft.Log.Disk.Replay.{read_entries-total}
use goraft.Log.Disk.Represents.{Represents, Refines, torn, replay-close_log, replay-torn_entry}
use goraft.Log.Disk.Refines.{truncate_log-Refines, compact_log-Refines, append_to_log-Represents}
use goraft.StateStorage.{
  StateStorage, ProtoStorageState, new_state_storage, set_state, read_state, read_state-set_state,
}
use goraft.Raft.{SnapshotMetadata}
use goraft.SnapshotStorage.{
  SnapshotDisk, OpenSnapshot, close_snapshot, discard_snapshot, create_snapshot, most_recent,
  write_data,
}
use goraft.SnapshotStorage.Publish.{leftovers, OpensAfter, most_recent-close_snapshot}
use goraft.Examples.{operation_at}

-- The fields one after the other.
abbrev numbers : ProtoLogEntry → List ℕ
numbers p = p.index ∷ p.term ∷ p.offset ∷ p.entry_type ∷ p.payload

abbrev from_numbers : List ℕ → Option ProtoLogEntry
from_numbers (i ∷ t ∷ o ∷ k ∷ payload) =
    some (record { index = i; term = t; offset = o; payload = payload; entry_type = k })
from_numbers _ = none

abbrev plain : Codec ProtoLogEntry
plain = record { marshal = (λ p. some (numbers p)); unmarshal = from_numbers }

unwrap : (xs ys : List ℕ) → some xs ≡ some ys → xs ≡ ys
unwrap xs ys h = cc

plain-IsCodec : IsCodec plain
plain-IsCodec a buf h = ap from_numbers (sym (unwrap (numbers a) buf h))

plain-Writable : (i t : ℕ) → Writable plain (operation_at i t)
unfolding proto_of_entry proto_entry_type
plain-Writable i t o = (i ∷ t ∷ o ∷ 1 ∷ i ∷ [], (refl, omega arith))

placeholder-Writable : (i t : ℕ) → Writable plain (new_log_entry i t [] no_op_entry)
unfolding proto_of_entry proto_entry_type
placeholder-Writable i t o = (i ∷ t ∷ o ∷ 0 ∷ [], (refl, omega arith))

-- A log with one entry, and its file.
abbrev one_log : Log
one_log = record { placeholder = new_log_entry 0 0 [] no_op_entry; rest = operation_at 1 1 ∷ [] }

abbrev disk_log : PersistentLog
disk_log = record {
  file = record {
    contents = 0 ∷ 0 ∷ 0 ∷ 4 ∷ 0 ∷ 0 ∷ 0 ∷ 0 ∷ 0 ∷ 0 ∷ 0 ∷ 5 ∷ 1 ∷ 1 ∷ 8 ∷ 1 ∷ 1 ∷ [];
    position = 17;
  };
  is_open = true;
  entries = new_log_entry 0 0 [] no_op_entry ∷ record (operation_at 1 1) { offset = 8 } ∷ [];
}

disk_log-Represents : Represents plain disk_log one_log
unfolding Written proto_of_entry proto_entry_type frame be32
disk_log-Represents = record {
  opened = refl;
  same = refl;
  stored = (
    0 ∷ 0 ∷ 0 ∷ 0 ∷ [],
    0 ∷ 0 ∷ 0 ∷ 5 ∷ 1 ∷ 1 ∷ 8 ∷ 1 ∷ 1 ∷ [],
    refl,
    (refl, omega arith),
    refl,
    (1 ∷ 1 ∷ 8 ∷ 1 ∷ 1 ∷ [], [], refl, (refl, omega arith), refl, refl),
  );
  at_end = refl;
  writable = (placeholder-Writable 0 0, (plain-Writable 1 1, tt));
}

truncate_log-Refines_example : Refines plain (truncate_log 1 disk_log) (truncate one_log 1)
truncate_log-Refines_example = truncate_log-Refines plain disk_log one_log 1 disk_log-Represents

compact_log-Refines_example : Refines plain (compact_log plain 1 disk_log) (compact one_log 1)
compact_log-Refines_example = compact_log-Refines plain disk_log one_log 1 disk_log-Represents

append_to_log-Represents_example :
    (q : PersistentLog) × (append_to_log plain (operation_at 2 1 ∷ operation_at 3 2 ∷ []) disk_log
      ≡ ok q)
    × Represents plain q (append_entries one_log (operation_at 2 1 ∷ operation_at 3 2 ∷ []))
append_to_log-Represents_example =
    append_to_log-Represents plain disk_log one_log (operation_at 2 1 ∷ operation_at 3 2 ∷ [])
      disk_log-Represents (plain-Writable 2 1, (plain-Writable 3 2, tt))

replay-close_log_example : replay plain (open_log (close_log disk_log)) ≡ ok disk_log
replay-close_log_example = replay-close_log plain plain-IsCodec disk_log one_log disk_log-Represents

-- Four of the nine bytes of a second entry.
replay-torn_entry_example :
    replay plain (open_log (torn disk_log (2 ∷ 1 ∷ 17 ∷ 1 ∷ 2 ∷ []) 4))
    ≡ ok (torn disk_log (2 ∷ 1 ∷ 17 ∷ 1 ∷ 2 ∷ []) 4)
replay-torn_entry_example =
    replay-torn_entry plain plain-IsCodec disk_log one_log disk_log-Represents
      (2 ∷ 1 ∷ 17 ∷ 1 ∷ 2 ∷ []) 4 (omega arith) (omega arith)

read_entries-total_example : read_entries plain 3 (0 ∷ 0 ∷ []) ≢ none
read_entries-total_example = read_entries-total plain 3 (0 ∷ 0 ∷ []) (omega arith)

-- A code of the stored state that knows one vote.
abbrev state_numbers : ProtoStorageState → Option (List ℕ)
state_numbers s = if str_eq s.voted_for "n2" then some (s.term ∷ []) else none

abbrev state_from_numbers : List ℕ → Option ProtoStorageState
state_from_numbers (t ∷ []) = some (record { term = t; voted_for = "n2" })
state_from_numbers _ = none

abbrev state_code : Codec ProtoStorageState
state_code = record { marshal = state_numbers; unmarshal = state_from_numbers }

state_code-IsCodec : IsCodec state_code
state_code-IsCodec a buf h = elim (Bool-cases (str_eq a.voted_for "n2")) [
  | inr no_vote ↦ absurd (ground (arith, h, no_vote))
  | inl vote ↦
      let bytes : a.term ∷ [] ≡ buf = ground (arith, h, vote) in
      let same : "n2" ≡ a.voted_for = ground (arith, eq_iff a.voted_for "n2", vote) in
      rw (← bytes) (ap (λ v. some (record { term = a.term; voted_for = v })) same)
]

read_state-set_state_example :
    (after : StateStorage) × (set_state state_code 3 "n2" (new_state_storage none) ≡ (none, after))
    × (read_state state_code after ≡ ok ((3, "n2"), after))
    × (read_state state_code (new_state_storage after.state_file) ≡ ok ((3, "n2"), after))
read_state-set_state_example =
    read_state-set_state state_code state_code-IsCodec 3 "n2" (3 ∷ []) refl (omega arith)
      (new_state_storage none)

abbrev metadata_from_numbers : List ℕ → Option SnapshotMetadata
metadata_from_numbers (i ∷ t ∷ c) =
    some (record { last_included_index = i; last_included_term = t; configuration = c })
metadata_from_numbers _ = none

-- A code of the metadata, and a disk with one snapshot, an empty temporary directory and one with a
-- file.
abbrev metadata_code : Codec SnapshotMetadata
metadata_code = record {
  marshal = (λ m. some (m.last_included_index ∷ m.last_included_term ∷ m.configuration));
  unmarshal = metadata_from_numbers;
}

metadata_code-IsCodec : IsCodec metadata_code
metadata_code-IsCodec m buf h =
    ap metadata_from_numbers
      (sym (unwrap (m.last_included_index ∷ m.last_included_term ∷ m.configuration) buf h))

abbrev old_disk : SnapshotDisk
old_disk = record {
  complete = record { created = 3; metadata_file = 2 ∷ 1 ∷ []; data_file = 5 ∷ [] } ∷ [];
  temporary = record { name = 2; files = [] } ∷ record { name = 7; files = (2 ∷ 1 ∷ []) ∷ [] } ∷ [];
}

abbrev new_metadata : SnapshotMetadata
new_metadata = record { last_included_index = 4; last_included_term = 2; configuration = 9 ∷ [] }

most_recent-close_snapshot_example :
    (s : OpenSnapshot) × (d1 : SnapshotDisk) × (create_snapshot metadata_code 8 5 new_metadata
        old_disk
      ≡ ok (s, d1))
    × (most_recent metadata_code (discard_snapshot (write_data (6 ∷ 7 ∷ []) s) d1).1
        ≡ most_recent metadata_code old_disk)
    × OpensAfter (1 + leftovers old_disk.temporary) d1 (record old_disk { temporary = [] })
    × ((o : OpenSnapshot) × (most_recent metadata_code
            (close_snapshot (write_data (6 ∷ 7 ∷ []) s) d1).1
          ≡ ok (some o))
        × (o.metadata ≡ new_metadata)
        × (o.contents ≡ 6 ∷ 7 ∷ []))
most_recent-close_snapshot_example =
    most_recent-close_snapshot metadata_code metadata_code-IsCodec 8 5 new_metadata (4 ∷ 2 ∷ 9 ∷ [])
      refl old_disk (6 ∷ 7 ∷ []) (omega arith, tt)
