-- ===== src/Disk.antt =====
-- The parts that log.go and state_storage.go share: a file as its bytes and a position, and
-- messages behind their size. protobuf is a parameter. I/O errors are left out.
pub mod Frames
use goraft.Prelude.{
  ℕ, zero, suc, ◌+◌, ◌-◌, ◌*◌, ◌/◌, ◌%◌, List, [], ◌∷◌, ◌++◌, Option, none, some, leb, ltb, ◌==◌,
  if◌then◌else◌, length, take, drop, Outcome, ok, err, fatal, ◌>>=◌,
}

-- `proto.Marshal` and `proto.Unmarshal` of one type of message.
pub record Codec (A : Type 0) : Type 0 where
  pub marshal : A → Option (List ℕ)
  pub unmarshal : List ℕ → Option A

pub data DiskError : Type 0 where
  end_of_file unexpected_end not_marshalled not_unmarshalled not_open missing_index : DiskError

pub record File : Type 0 where
  pub contents : List ℕ
  pub position : ℕ

abbrev pub empty_file : File
empty_file = record { contents = []; position = 0 }

unfoldable pub zeros : ℕ → List ℕ
zeros zero = []
zeros (suc n) = 0 ∷ zeros n

-- `file.Truncate(size)`, which fills up with zeros.
unfoldable pub resize : ℕ → List ℕ → List ℕ
unfolding zeros
resize size bytes = take size bytes ++ zeros (size - length bytes)

-- `file.Write(bytes)`
unfoldable pub write : List ℕ → File → File
unfolding resize
write bytes f = record {
  contents = resize f.position f.contents ++ (bytes ++ drop (f.position + length bytes) f.contents);
  position = f.position + length bytes;
}

-- `binary.Write` of `int32(len(buf))` in big-endian order.
unfoldable pub be32 : ℕ → List ℕ
be32 n = n / 16777216 % 256 ∷ n / 65536 % 256 ∷ n / 256 % 256 ∷ n % 256 ∷ []

unfoldable pub frame : List ℕ → List ℕ
unfolding be32
frame buf = be32 (length buf) ++ buf

-- `binary.Read` of an int32, as its bit pattern.
unfoldable pub read_size : List ℕ → Outcome DiskError (ℕ × List ℕ)
read_size [] = err end_of_file
read_size (a ∷ []) = err unexpected_end
read_size (a ∷ b ∷ []) = err unexpected_end
read_size (a ∷ b ∷ c ∷ []) = err unexpected_end
read_size (a ∷ b ∷ c ∷ d ∷ rest) = ok (a * 16777216 + b * 65536 + c * 256 + d, rest)

-- `io.ReadFull` into a buffer of this size. A negative size panics.
unfoldable pub read_full : ℕ → List ℕ → Outcome DiskError (List ℕ × List ℕ)
read_full size rest =
    if leb 2147483648 size
    then fatal
    else if size == 0
    then ok ([], rest)
    else if length rest == 0
    then err end_of_file
    else if ltb (length rest) size
    then err unexpected_end
    else ok (take size rest, drop size rest)

module _ {A : Type 0} (codec : Codec A) where
  unfoldable pub encode_message : A → Outcome DiskError (List ℕ)
  unfolding frame
  encode_message a = elim (codec.marshal a) [
    | none ↦ err not_marshalled
    | some buf ↦ ok (frame buf)
  ]

  unfoldable pub unmarshal_message : List ℕ → Outcome DiskError A
  unmarshal_message buf = elim (codec.unmarshal buf) [ none ↦ err not_unmarshalled | some a ↦ ok a ]

  -- The message at the front, and what is left to read.
  unfoldable pub decode_message : List ℕ → Outcome DiskError (A × List ℕ)
  decode_message bytes = do
    (size, rest) ← read_size bytes
    (buf, rest') ← read_full size rest
    a ← unmarshal_message buf
    ok (a, rest')
