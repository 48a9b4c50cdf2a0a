-- ===== src/Disk/Frames.antt =====
-- A message that is written can be read back.
use goraft.Prelude.{
  ℕ, zero, suc, ◌+◌, ◌-◌, ◌*◌, ◌/◌, ◌%◌, ◌≤◌, ◌<◌, ◌≡◌, refl, ap, ◌∙◌, List, [], ◌∷◌, ◌++◌, some,
  ◌==◌, if◌then◌else◌, length, length-append, length-take, length-drop, ◌||◌, take, drop, arith,
  Outcome, ok, err, fatal, ◌>>=◌, append-nil,
}
use native.Mathlib.Nat.{zero-add, suc-add}
use goraft.Disk.{
  Codec, DiskError, end_of_file, unexpected_end, File, resize, write, zeros, frame, read_size,
  read_full, encode_message, decode_message, unmarshal_message,
}

-- What protobuf promises: the bytes of a message decode to it.
abbrev pub IsCodec : {A : Type 0} → Codec A → Type 0
IsCodec {A} codec =
    (a : A) (buf : List ℕ) → codec.marshal a ≡ some buf → codec.unmarshal buf ≡ some a

pub take-append_length {ℓ} : {A : Type ℓ} (xs ys : List A) → take (length xs) (xs ++ ys) ≡ xs
take-append_length [] ys = refl
take-append_length (x ∷ xs) ys = ap (◌∷◌ x) (take-append_length xs ys)

pub drop-append_length {ℓ} : {A : Type ℓ} (xs ys : List A) → drop (length xs) (xs ++ ys) ≡ ys
drop-append_length [] ys = refl
drop-append_length (x ∷ xs) ys = drop-append_length xs ys

pub take-append_beyond {ℓ} :
    {A : Type ℓ} (k : ℕ) (xs ys : List A) → take (length xs + k) (xs ++ ys) ≡ xs ++ take k ys
take-append_beyond k [] ys = rw zero-add
take-append_beyond k (x ∷ xs) ys = rw suc-add (ap (◌∷◌ x) (take-append_beyond k xs ys))

pub read_size-frame :
    (buf rest : List ℕ)
    → length buf < 2147483648
    → read_size (frame buf ++ rest) ≡ ok (length buf, buf ++ rest)
unfolding read_size frame
read_size-frame buf rest h = ap (λ (n : ℕ). ok (n, buf ++ rest)) (omega arith)

pub length-frame : (buf : List ℕ) → length (frame buf) ≡ 4 + length buf
unfolding frame
length-frame buf = omega arith

read_full-append :
    (buf rest : List ℕ)
    → length buf < 2147483648
    → read_full (length buf) (buf ++ rest) ≡ ok (buf, rest)
unfolding read_full
read_full-append [] rest h = refl
read_full-append (x ∷ buf) rest h =
    ground (arith, length-append buf rest, take-append_length buf rest, drop-append_length buf rest)

pub encode_message_lem :
    {A : Type 0} (codec : Codec A) (a : A) (buf : List ℕ)
    → codec.marshal a ≡ some buf
    → encode_message codec a ≡ ok (frame buf)
unfolding encode_message
encode_message_lem codec a buf h = ground (arith, h)

module _ {A : Type 0} (codec : Codec A) (law : IsCodec codec) where
  unmarshals :
      (a : A) (buf : List ℕ) → codec.marshal a ≡ some buf → unmarshal_message codec buf ≡ ok a
  unfolding unmarshal_message
  unmarshals a buf h = ground (arith, law a buf h)

  pub decode_message-frame :
      (a : A) (buf rest : List ℕ)
      → codec.marshal a ≡ some buf
      → length buf < 2147483648
      → decode_message codec (frame buf ++ rest) ≡ ok (a, rest)
  unfolding decode_message
  decode_message-frame a buf rest h small =
      rw (read_size-frame buf rest small, read_full-append buf rest small, unmarshals a buf h) refl

take_all : (bytes : List ℕ) → take (length bytes) bytes ≡ bytes
take_all [] = refl
take_all (x ∷ bytes) = ap (◌∷◌ x) (take_all bytes)

drop_beyond : (n : ℕ) (bytes : List ℕ) → length bytes ≤ n → drop n bytes ≡ []
drop_beyond zero [] h = refl
drop_beyond zero (x ∷ bytes) h = absurd (omega arith)
drop_beyond (suc n) [] h = refl
drop_beyond (suc n) (x ∷ bytes) h = drop_beyond n bytes (omega arith)

no_zeros : (n : ℕ) → n ≡ 0 → zeros n ≡ []
unfolding zeros
no_zeros zero h = refl
no_zeros (suc n) h = absurd (omega arith)

-- Up to its length a file is cut off without filling up.
pub resize-take : (n : ℕ) (bytes : List ℕ) → n ≤ length bytes → resize n bytes ≡ take n bytes
unfolding resize
resize-take n bytes h = rw (no_zeros (n - length bytes) (omega arith)) (append-nil (take n bytes))

resize_whole : (bytes : List ℕ) → resize (length bytes) bytes ≡ bytes
resize_whole bytes = resize-take (length bytes) bytes (omega arith) ∙ take_all bytes

write_there :
    (bytes c : List ℕ)
    → write bytes (record { contents = c; position = length c })
      ≡ record { contents = c ++ bytes; position = length c + length bytes }
unfolding write
write_there bytes c =
    rw (resize_whole c, drop_beyond (length c + length bytes) c (omega arith), append-nil bytes)
      refl

-- A write at the end of the file appends.
pub write_end :
    (bytes : List ℕ) (f : File)
    → f.position ≡ length f.contents
    → write bytes f
      ≡ record { contents = f.contents ++ bytes; position = length f.contents + length bytes }
write_end bytes f h =
    ap (λ n. write bytes (record { contents = f.contents; position = n })) h
    ∙ write_there bytes f.contents

-- A chain that succeeds has a first step that does.
ok_step :
    {A B : Type 0} (o : Outcome DiskError A) (f : A → Outcome DiskError B) (b : B)
    → (o >>= f) ≡ ok b
    → (a : A) × (o ≡ ok a) × (f a ≡ ok b)
ok_step (ok a) f b h = (a, refl, h)
ok_step (err x) f b h = cc
ok_step fatal f b h = cc

size_shrinks :
    (bytes : List ℕ) (x : ℕ × List ℕ) → read_size bytes ≡ ok x → length x.1 < length bytes
unfolding read_size
size_shrinks [] x h = cc
size_shrinks (a ∷ []) x h = cc
size_shrinks (a ∷ b ∷ []) x h = cc
size_shrinks (a ∷ b ∷ c ∷ []) x h = cc
size_shrinks (a ∷ b ∷ c ∷ d ∷ bytes) x h = ground arith

body_shrinks :
    (size : ℕ) (bytes : List ℕ) (x : List ℕ × List ℕ)
    → read_full size bytes ≡ ok x
    → length x.1 ≤ length bytes
unfolding read_full
body_shrinks size bytes x h = ground (arith, length-drop size bytes)

-- A message that is read takes bytes away.
pub decode_message_shrinks :
    {A : Type 0} (codec : Codec A) (bytes : List ℕ) (x : A × List ℕ)
    → decode_message codec bytes ≡ ok x
    → length x.1 < length bytes
unfolding decode_message
decode_message_shrinks codec bytes x h =
    let (s, head, h1) = ok_step (read_size bytes) _ x h in
    let (b, body, h2) = ok_step (read_full s.0 s.1) _ x h1 in
    let (a, message, h3) = ok_step (unmarshal_message codec b.0) _ x h2 in
    let shorter = size_shrinks bytes s head in
    let not_longer = body_shrinks s.0 s.1 b body in ground arith

pub decode_message-nil : {A : Type 0} (codec : Codec A) → decode_message codec [] ≡ err end_of_file
unfolding decode_message read_size
decode_message-nil codec = refl

unpacked :
    (n : ℕ)
    → n < 2147483648
    → n / 16777216 % 256 * 16777216 + n / 65536 % 256 * 65536 + n / 256 % 256 * 256 + n % 256 ≡ n
unpacked n h = omega arith

torn_body :
    (buf : List ℕ) (k : ℕ)
    → k < length buf
    → length buf < 2147483648
    → read_full (length buf) (take k buf) ≡ err (if k == 0 then end_of_file else unexpected_end)
unfolding read_full
torn_body buf k h small = ground (arith, length-take k buf)

-- A message whose last bytes are missing: `io.EOF` where nothing of its size or of its body is left.
pub decode_message-torn :
    {A : Type 0} (codec : Codec A) (buf : List ℕ) (k : ℕ)
    → length buf < 2147483648
    → k < 4 + length buf
    → decode_message codec (take k (frame buf))
      ≡ err (if (k == 0) || (k == 4) then end_of_file else unexpected_end)
unfolding decode_message frame read_size
decode_message-torn codec buf zero small h = refl
decode_message-torn codec buf (suc zero) small h = refl
decode_message-torn codec buf (suc (suc zero)) small h = refl
decode_message-torn codec buf (suc (suc (suc zero))) small h = refl
decode_message-torn codec buf (suc (suc (suc (suc k)))) small h =
    rw (unpacked (length buf) small, torn_body buf k (omega arith) small) (ground arith)
