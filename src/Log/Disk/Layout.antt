-- ===== src/Log/Disk/Layout.antt =====
-- How the entries of a log lie in its file: one frame after the other, each entry with its position.
use goraft.Prelude.{
  ℕ, zero, suc, ◌+◌, ◌≤◌, ◌<◌, ◌≡◌, refl, sym, ap, ◌∙◌, List, [], ◌∷◌, ◌++◌, append_assoc,
  append-nil, map, some, ok, length, length-append, get_elem?, take, All, arith,
}
use goraft.Log.{LogEntry}
use goraft.Requests.Proto.{ProtoLogEntry}
use goraft.Disk.{Codec, File, frame, write}
use goraft.Disk.Frames.{write_end, length-frame, take-append_beyond, encode_message_lem}
use goraft.Log.Disk.{proto_of_entry, encode_log_entry, write_entries}

-- The entry wherever it stands.
abbrev pub unplaced : LogEntry → LogEntry
unplaced e = record e { offset = 0 }

abbrev pub placed : ℕ → LogEntry → LogEntry
placed o e = record e { offset = o }

-- protobuf encodes this entry as these bytes, and their number fits an int32.
abbrev pub Encodes : Codec ProtoLogEntry → LogEntry → List ℕ → Type 0
Encodes codec e buf = (codec.marshal (proto_of_entry e) ≡ some buf) × (length buf < 2147483648)

module _ (codec : Codec ProtoLogEntry) where
  -- These entries lie from position o on.
  unfoldable pub Written : ℕ → List LogEntry → List ℕ → Type 0
  Written o [] bytes = bytes ≡ []
  Written o (e ∷ es) bytes =
      (buf : List ℕ) × (rest : List ℕ) × (e.offset ≡ o)
      × Encodes codec e buf
      × (bytes ≡ frame buf ++ rest)
      × Written (o + 4 + length buf) es rest

  -- The entry can be written at every position.
  abbrev pub Writable : LogEntry → Type 0
  Writable e = (o : ℕ) → (buf : List ℕ) × Encodes codec (placed o e) buf

  pub Written-at :
      (o o' : ℕ) (es : List LogEntry) (bytes : List ℕ)
      → o ≡ o'
      → Written o es bytes
      → Written o' es bytes
  Written-at o o' es bytes h w = rw (← h) w

  pub Written-append :
      (o : ℕ) (xs ys : List LogEntry) (bs cs : List ℕ)
      → Written o xs bs
      → Written (o + length bs) ys cs
      → Written o (xs ++ ys) (bs ++ cs)
  unfolding Written
  Written-append o [] ys bs cs w v =
      rw w (Written-at (o + length bs) o ys cs (omega (arith, ap length w)) v)
  Written-append o (x ∷ xs) ys bs cs (buf, rest, placed, encodes, eq, w) v = (
    buf,
    rest ++ cs,
    placed,
    encodes,
    rw eq (append_assoc (frame buf) rest cs),
    Written-append (o + 4 + length buf) xs ys rest cs w (
        Written-at _ _ ys cs
          (omega (arith, ap length eq, length-append (frame buf) rest, length-frame buf)) v),
  )

  -- The position of an entry cuts the file where the entry starts.
  pub Written-take :
      (o n : ℕ) (es : List LogEntry) (bytes : List ℕ) (e : LogEntry)
      → Written o es bytes
      → get_elem? es n ≡ some e
      → (k : ℕ) × (e.offset ≡ o + k) × (k ≤ length bytes) × Written o (take n es) (take k bytes)
  unfolding Written
  Written-take o n [] bytes e w h = cc
  Written-take o zero (x ∷ es) bytes e (buf, rest, placed, encodes, eq, w) h =
      (0, ground arith, omega arith, refl)
  Written-take o (suc n) (x ∷ es) bytes e (buf, rest, placed, encodes, eq, w) h =
      let (k, there, inside, v) = Written-take (o + 4 + length buf) n es rest e w h in
      (
        length (frame buf) + k,
        omega (arith, length-frame buf),
        omega (arith, ap length eq, length-append (frame buf) rest),
        (buf, take k rest, placed, encodes, rw eq (take-append_beyond k (frame buf) rest), v),
      )

-- The file after a frame is written at its end.
abbrev pub appended : List ℕ → File → File
appended buf f = record {
  contents = f.contents ++ frame buf;
  position = length (f.contents ++ frame buf);
}

pub write_frame :
    (buf : List ℕ) (f : File)
    → f.position ≡ length f.contents
    → write (frame buf) f ≡ appended buf f
write_frame buf f h =
    write_end (frame buf) f h
    ∙ ap (λ n. record { contents = f.contents ++ frame buf; position = n })
        (sym (length-append f.contents (frame buf)))

write_entries_runs :
    (codec : Codec ProtoLogEntry) (e : LogEntry) (es : List LogEntry) (f : File) (buf : List ℕ)
    (f1 : File) (written : List LogEntry)
    → f.position ≡ length f.contents
    → codec.marshal (proto_of_entry (placed f.position e)) ≡ some buf
    → write_entries codec es (appended buf f) ≡ ok (f1, written)
    → write_entries codec (e ∷ es) f ≡ ok (f1, placed f.position e ∷ written)
unfolding write_entries encode_log_entry
write_entries_runs codec e es f buf f1 written h encodes rest =
    rw
      (
        encode_message_lem codec (proto_of_entry (placed f.position e)) buf encodes,
        write_frame buf f h,
        rest,
      )
      refl

module _ (codec : Codec ProtoLogEntry) where
  -- Writing at the end of the file succeeds and places every entry.
  pub write_entries-Written :
      (es : List LogEntry) (f : File)
      → f.position ≡ length f.contents
      → All (Writable codec) es
      → (written : List LogEntry) × (bytes : List ℕ) × (write_entries codec es f
          ≡ ok (
            record { contents = f.contents ++ bytes; position = length (f.contents ++ bytes) },
            written,
          ))
        × Written codec (length f.contents) written bytes
        × (map unplaced written ≡ map unplaced es)
        × All (Writable codec) written
  unfolding write_entries Written
  write_entries-Written [] f h all = (
    [],
    [],
    rw (append-nil f.contents)
        (ap (λ n. ok (record { contents = f.contents; position = n }, [])) h),
    refl,
    refl,
    tt,
  )
  write_entries-Written (e ∷ es) f h (can, all) =
      let (buf, encodes) = can f.position in
      let (written, bytes, runs, lies, same, able) =
        write_entries-Written es (appended buf f) refl all in
      (
        placed f.position e ∷ written,
        frame buf ++ bytes,
        rw (← append_assoc f.contents (frame buf) bytes)
            (write_entries_runs codec e es f buf _ written h encodes.0 runs),
        (
          buf,
          bytes,
          h,
          encodes,
          refl,
          Written-at codec _ _ written bytes
              (omega (arith, length-append f.contents (frame buf), length-frame buf)) lies,
        ),
        ap (◌∷◌ (unplaced e)) same,
        (can, able),
      )
