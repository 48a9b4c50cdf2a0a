-- ===== src/Raft/Encoding.antt =====
-- configuration.go, and its callers in transport.go and raft.go: a configuration as bytes. The
-- protobuf code is a parameter.
use goraft.Prelude.{
  ℕ, ◌≡◌, refl, String, List, Option, none, some, Bool, Outcome, ok, or_fatal, arith,
}
use goraft.Disk.{Codec}
use goraft.Disk.Frames.{IsCodec}
use goraft.Configuration.{Configuration}
use goraft.Raft.{RpcError}

-- `pb.Configuration`
pub record ProtoConfiguration : Type 0 where
  pub members : List (String × String)
  pub is_voter : List (String × Bool)
  pub index : ℕ

abbrev pub proto_of : Configuration → ProtoConfiguration
proto_of c = record { members = c.members; is_voter = c.is_voter; index = c.index }

module _ (codec : Codec ProtoConfiguration) where
  unfoldable pub encode_configuration : Configuration → Option (List ℕ)
  encode_configuration c = codec.marshal (proto_of c)

  unfoldable pub decode_configuration : List ℕ → Option Configuration
  decode_configuration bytes = elim (codec.unmarshal bytes) [
    | none ↦ none
    | some p ↦ some (record { members = p.members; is_voter = p.is_voter; index = p.index })
  ]

  -- A node ends the process where this fails.
  unfoldable pub encode_or_fatal : Configuration → Outcome RpcError (List ℕ)
  unfolding encode_configuration
  encode_or_fatal c = or_fatal (encode_configuration c)

  unfoldable pub decode_or_fatal : List ℕ → Outcome RpcError Configuration
  unfolding decode_configuration
  decode_or_fatal bytes = or_fatal (decode_configuration bytes)

  -- What a node has encoded it decodes to the same configuration.
  pub decode-encode_configuration :
      (c : Configuration) (bytes : List ℕ)
      → IsCodec codec
      → encode_or_fatal c ≡ ok bytes
      → decode_or_fatal bytes ≡ ok c
  unfolding encode_or_fatal decode_or_fatal
  decode-encode_configuration c bytes law h = go (codec.marshal (proto_of c)) refl
    where
      go : (o : Option (List ℕ)) → codec.marshal (proto_of c) ≡ o → decode_or_fatal bytes ≡ ok c
      go none e = ground arith
      go (some buf) e = ground (arith, law (proto_of c) buf e)
