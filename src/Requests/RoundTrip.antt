-- ===== src/Requests/RoundTrip.antt =====
-- A message that is converted for the wire and back is the message that was sent.
use goraft.Prelude.{◌≡◌, refl, ap₂, List, [], ◌∷◌, map, arith}
use goraft.Log.{
  LogEntry, LogEntryType, no_op_entry, operation_entry, configuration_entry, other_entry,
}
use goraft.Requests.{AppendEntriesRequest}
use goraft.Requests.Proto.{
  proto_entry_type, entry_type_of_proto, make_entry, make_proto_entry, make_entries,
  make_proto_entries, make_append_entries_request, make_proto_append_entries_request,
}

pub entry_type_of_proto-proto_entry_type :
    (t : LogEntryType) → entry_type_of_proto (proto_entry_type t) ≡ t
unfolding entry_type_of_proto proto_entry_type
entry_type_of_proto-proto_entry_type no_op_entry = refl
entry_type_of_proto-proto_entry_type operation_entry = refl
entry_type_of_proto-proto_entry_type configuration_entry = refl
entry_type_of_proto-proto_entry_type (other_entry n) = refl

-- An entry as it arrives: the position in the sender's file is not sent.
abbrev pub sent : LogEntry → LogEntry
sent e = record e { offset = 0 }

make_entry-make_proto_entry : (e : LogEntry) → make_entry (make_proto_entry e) ≡ sent e
unfolding make_entry make_proto_entry
make_entry-make_proto_entry e = ground (arith, entry_type_of_proto-proto_entry_type e.entry_type)

make_entries-make_proto_entries :
    (es : List LogEntry) → make_entries (make_proto_entries es) ≡ map sent es
unfolding make_entries make_proto_entries
make_entries-make_proto_entries [] = refl
make_entries-make_proto_entries (e ∷ es) =
    ap₂ ◌∷◌ (make_entry-make_proto_entry e) (make_entries-make_proto_entries es)

abbrev pub sent_request : AppendEntriesRequest → AppendEntriesRequest
sent_request r = record r { entries = map sent r.entries }

pub make_append_entries_request-make_proto :
    (r : AppendEntriesRequest)
    → make_append_entries_request (make_proto_append_entries_request r) ≡ sent_request r
unfolding make_append_entries_request make_proto_append_entries_request
make_append_entries_request-make_proto r = ground (arith, make_entries-make_proto_entries r.entries)
