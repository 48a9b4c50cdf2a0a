-- ===== src/Log/Disk/Replay.antt =====
-- Opening a log again: what `Replay` reads from the file.
use goraft.Prelude.{
  ℕ, zero, suc, ◌+◌, ◌<◌, ◌≡◌, ◌≢◌, refl, ap, ◌∙◌, List, [], ◌∷◌, ◌++◌, append_assoc, Option, none,
  some, true, Outcome, ok, err, fatal, length, length-append, arith,
}
use goraft.Log.{LogEntry}
use goraft.Requests.Proto.{ProtoLogEntry}
use goraft.Requests.RoundTrip.{entry_type_of_proto-proto_entry_type}
use goraft.Disk.{Codec, DiskError, end_of_file, unexpected_end, frame, decode_message}
use goraft.Disk.Frames.{IsCodec, length-frame, decode_message-frame, decode_message_shrinks}
use goraft.Log.Disk.{
  PersistentLog, proto_of_entry, entry_of_proto, open_log, decode_log_entry, read_error, also_read,
  read_entries, replay,
}
use goraft.Log.Disk.Layout.{Written, Encodes}

entry_of_proto-proto_of_entry : (e : LogEntry) → entry_of_proto (proto_of_entry e) ≡ e
unfolding entry_of_proto proto_of_entry
entry_of_proto-proto_of_entry e =
    ap (λ t. record e { entry_type = t }) (entry_type_of_proto-proto_entry_type e.entry_type)

-- The entries that were read before the loop ended.
abbrev pub before :
    List LogEntry → Outcome DiskError (List LogEntry) → Outcome DiskError (List LogEntry)
before [] r = r
before (e ∷ es) r = elim (before es r) [ ok xs ↦ ok (e ∷ xs) | err x ↦ err x | fatal ↦ fatal ]

before_ok : (es : List LogEntry) → before es (ok []) ≡ ok es
before_ok [] = refl
before_ok (e ∷ es) = rw (before_ok es) refl

before_err : (es : List LogEntry) (x : DiskError) → before es (err x) ≡ err x
before_err [] x = refl
before_err (e ∷ es) x = rw (before_err es x) refl

also_read-before :
    (e : LogEntry) (es : List LogEntry) (r : Outcome DiskError (List LogEntry))
    → also_read e (some (before es r)) ≡ some (before (e ∷ es) r)
unfolding also_read
also_read-before e es r = ground arith

also_read-none :
    (e : LogEntry) (o : Option (Outcome DiskError (List LogEntry)))
    → also_read e o ≡ none
    → o ≡ none
unfolding also_read
also_read-none e none h = refl
also_read-none e (some (ok es)) h = cc
also_read-none e (some (err x)) h = cc
also_read-none e (some fatal) h = cc

module _ (codec : Codec ProtoLogEntry) (law : IsCodec codec) where
  decode_log_entry-frame :
      (e : LogEntry) (buf rest : List ℕ)
      → Encodes codec e buf
      → decode_log_entry codec (frame buf ++ rest) ≡ ok (e, rest)
  unfolding decode_log_entry
  decode_log_entry-frame e buf rest (h, small) =
      rw
        (
          decode_message-frame codec law (proto_of_entry e) buf rest h small,
          entry_of_proto-proto_of_entry e,
        )
        refl

  read_entries_runs :
      (n : ℕ) (bytes rest : List ℕ) (e : LogEntry) (r : Outcome DiskError (List LogEntry))
      → decode_log_entry codec bytes ≡ ok (e, rest)
      → read_entries codec n rest ≡ some r
      → read_entries codec (suc n) bytes ≡ also_read e (some r)
  unfolding read_entries
  read_entries_runs n bytes rest e r h k = ground (arith, h, k)

  read_entries_stops :
      (n : ℕ) (tail : List ℕ) (x : DiskError)
      → decode_message codec tail ≡ err x
      → read_entries codec (suc n) tail ≡ some (read_error x)
  unfolding read_entries decode_log_entry
  read_entries_stops n tail x h = rw (read_entries, h) refl

  -- Entries that lie in the file are read before what is behind them.
  pub read_entries-Written :
      (n o : ℕ) (es : List LogEntry) (bytes tail : List ℕ) (x : DiskError)
      → decode_message codec tail ≡ err x
      → Written codec o es bytes
      → length bytes < n
      → read_entries codec n (bytes ++ tail) ≡ some (before es (read_error x))
  unfolding Written
  read_entries-Written zero o es bytes tail x h w fits = absurd (omega arith)
  read_entries-Written (suc n) o [] bytes tail x h w fits = rw w (read_entries_stops n tail x h)
  read_entries-Written (suc n) o (e ∷ es) bytes tail x h (buf, rest, placed, encodes, eq, w) fits =
      let there : bytes ++ tail ≡ frame buf ++ (rest ++ tail) =
        rw eq (append_assoc (frame buf) rest tail) in
      read_entries_runs n (bytes ++ tail) (rest ++ tail) e _
        (rw there (decode_log_entry-frame e buf (rest ++ tail) encodes))
        (read_entries-Written n (o + 4 + length buf) es rest tail x h w
          (omega (arith, ap length eq, length-append (frame buf) rest, length-frame buf)))
      ∙ also_read-before e es (read_error x)

  replay_ok :
      (p : PersistentLog) (e : LogEntry) (es : List LogEntry)
      → read_entries codec (suc (length p.file.contents)) p.file.contents ≡ some (ok (e ∷ es))
      → replay codec (open_log p)
        ≡ ok (record {
          file = record { contents = p.file.contents; position = length p.file.contents };
          is_open = true;
          entries = e ∷ es;
        })
  unfolding replay open_log
  replay_ok p e es h = rw h refl

  replay_err :
      (p : PersistentLog) (x : DiskError)
      → read_entries codec (suc (length p.file.contents)) p.file.contents ≡ some (err x)
      → replay codec (open_log p) ≡ err x
  unfolding replay open_log
  replay_err p x h = rw h refl

  module _ (p : PersistentLog) (e : LogEntry) (es : List LogEntry) (bytes : List ℕ)
      (w : Written codec 0 (e ∷ es) bytes) where
    reads :
        (tail : List ℕ) (x : DiskError)
        → decode_message codec tail ≡ err x
        → read_entries codec (suc (length (bytes ++ tail))) (bytes ++ tail)
          ≡ some (before (e ∷ es) (read_error x))
    reads tail x h =
        read_entries-Written (suc (length (bytes ++ tail))) 0 (e ∷ es) bytes tail x h w
          (omega (arith, length-append bytes tail))

    -- Behind the entries, bytes that read as the end of the file are passed over.
    pub replay-clean_end :
        (tail : List ℕ)
        → decode_message codec tail ≡ err end_of_file
        → p.file.contents ≡ bytes ++ tail
        → replay codec (open_log p)
          ≡ ok (record {
            file = record { contents = p.file.contents; position = length p.file.contents };
            is_open = true;
            entries = e ∷ es;
          })
    unfolding read_error
    replay-clean_end tail h there =
        replay_ok p e es (rw (there, reads tail end_of_file h) (ap some (before_ok (e ∷ es))))

    -- A message that breaks off makes the replay fail.
    pub replay-torn :
        (tail : List ℕ)
        → decode_message codec tail ≡ err unexpected_end
        → p.file.contents ≡ bytes ++ tail
        → replay codec (open_log p) ≡ err unexpected_end
    unfolding read_error
    replay-torn tail h there =
        replay_err p unexpected_end
          (rw (there, reads tail unexpected_end h) (ap some (before_err (e ∷ es) unexpected_end)))

module _ (codec : Codec ProtoLogEntry) where
  decode_log_entry_shrinks :
      (bytes : List ℕ) (x : LogEntry × List ℕ)
      → decode_log_entry codec bytes ≡ ok x
      → length x.1 < length bytes
  unfolding decode_log_entry
  decode_log_entry_shrinks bytes x h = grind (arith, decode_message_shrinks)

  -- The loop of Replay ends on any bytes, within one round more than there are bytes.
  pub read_entries-total :
      (n : ℕ) (bytes : List ℕ) → length bytes < n → read_entries codec n bytes ≢ none
  unfolding read_entries
  read_entries-total zero bytes h = absurd (omega arith)
  read_entries-total (suc n) bytes h = go (decode_log_entry codec bytes) (read_entries-total n) refl
    where
      go :
          (o : Outcome DiskError (LogEntry × List ℕ))
          → ((rest : List ℕ) → length rest < n → read_entries codec n rest ≢ none)
          → decode_log_entry codec bytes ≡ o
          → read_entries codec (suc n) bytes ≢ none
      go (ok (e, rest)) ih k =
          let shorter = decode_log_entry_shrinks bytes (e, rest) k in
          rw (read_entries, k) λ q. ih rest (omega arith) (also_read-none e _ q)
      go (err e) ih k = rw (read_entries, k) λ q. cc
      go fatal ih k = rw (read_entries, k) λ q. cc
