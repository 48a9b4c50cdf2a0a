-- ===== src/Log.antt =====
-- log.go: the log entries, and the log as the node sees it between `Replay` and `Close`.
-- `Log` holds the in-memory half of `persistentLog`: `placeholder` is `entries[0]`, which an open
-- log always has, and `rest` is `entries[1:]`. `none` is the error of a missing index.
pub mod Index
pub mod Change
pub mod Links
pub mod Ledger
pub mod Disk
use goraft.Prelude.{
  ℕ, ◌-◌, List, [], ◌∷◌, ◌++◌, Option, none, some, Bool, not, ◌&&◌, ◌||◌, leb, ◌==◌, if◌then◌else◌,
  length, get_elem?, take, drop, last_or, add64, sub64,
}

-- `other_entry n` is the number n + 3, which no constant names.
pub data LogEntryType : Type 0 where
  no_op_entry operation_entry configuration_entry : LogEntryType
  other_entry : ℕ → LogEntryType

pub record LogEntry : Type 0 where
  pub index : ℕ
  pub term : ℕ
  pub offset : ℕ
  pub data_bytes : List ℕ
  pub entry_type : LogEntryType

abbrev pub new_log_entry : ℕ → ℕ → List ℕ → LogEntryType → LogEntry
new_log_entry index term bytes kind = record {
  index = index;
  term = term;
  offset = 0;
  data_bytes = bytes;
  entry_type = kind;
}

unfoldable pub is_conflict : LogEntry → LogEntry → Bool
is_conflict e other = (e.index == other.index) && not (e.term == other.term)

pub record Log : Type 0 where
  pub placeholder : LogEntry
  pub rest : List LogEntry

abbrev pub entries : Log → List LogEntry
entries l = l.placeholder ∷ l.rest

-- The position of an index in `entries`, by uint64 subtraction.
abbrev pub log_index : Log → ℕ → ℕ
log_index l index = sub64 index l.placeholder.index

unfoldable pub contains : Log → ℕ → Bool
contains l index = not (leb (log_index l index) 0 || leb (length (entries l)) (log_index l index))

unfoldable pub get_entry : Log → ℕ → Option LogEntry
unfolding contains
get_entry l index = if contains l index then get_elem? (entries l) (log_index l index) else none

abbrev pub last_entry : Log → LogEntry
last_entry l = last_or l.placeholder l.rest

unfoldable pub last_index : Log → ℕ
last_index l = (last_entry l).index

unfoldable pub last_term : Log → ℕ
last_term l = (last_entry l).term

unfoldable pub next_index : Log → ℕ
next_index l = add64 (last_entry l).index 1

unfoldable pub size : Log → ℕ
size l = length l.rest

unfoldable pub append_entries : Log → List LogEntry → Log
append_entries l es = record l { rest = l.rest ++ es }

unfoldable pub append_entry : Log → LogEntry → Log
unfolding append_entries
append_entry l e = append_entries l (e ∷ [])

-- `entries[:i]` of a non-empty list, for a position i that is not 0.
unfoldable pub cut : Log → ℕ → Log
cut l i = record l { rest = take (i - 1) l.rest }

unfoldable pub truncate : Log → ℕ → Option Log
unfolding contains cut
truncate l index = if contains l index then some (cut l (log_index l index)) else none

-- `entries[i:]`, whose first entry becomes the placeholder.
unfoldable pub from_position : Log → List LogEntry → Log
from_position l [] = l
from_position l (e ∷ es) = record { placeholder = e; rest = es }

unfoldable pub compact : Log → ℕ → Option Log
unfolding contains from_position
compact l index =
    if contains l index then some (from_position l (drop (log_index l index) (entries l))) else none

unfoldable pub discard_entries : Log → ℕ → ℕ → Log
discard_entries l index term = record {
  placeholder = new_log_entry index term [] no_op_entry;
  rest = [];
}
