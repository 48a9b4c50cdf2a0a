-- ===== src/StateStorage.antt =====
-- state_storage.go: the term and the vote of a node in `state/state.bin`. The temporary file takes
-- that name once it is written, so the file either keeps its bytes or has all the new ones.
use goraft.Prelude.{
  ℕ, ◌<◌, ◌≡◌, refl, sym, List, [], append-nil, Option, none, some, String, Outcome, ok, err, fatal,
  ◌>>=◌, length, arith,
}
use goraft.Disk.{Codec, DiskError, not_marshalled, frame, encode_message, decode_message}
use goraft.Disk.Frames.{IsCodec, encode_message_lem, decode_message-frame}

pub record PersistentState : Type 0 where
  pub term : ℕ
  pub voted_for : String

-- `pb.StorageState`
pub record ProtoStorageState : Type 0 where
  pub term : ℕ
  pub voted_for : String

-- `state_file` is the file's bytes where it exists, `state` the pointer that starts as nil.
pub record StateStorage : Type 0 where
  pub state_file : Option (List ℕ)
  pub state : Option PersistentState

-- `NewStateStorage` on the directory as it was left.
unfoldable pub new_state_storage : Option (List ℕ) → StateStorage
new_state_storage file = record { state_file = file; state = none }

module _ (codec : Codec ProtoStorageState) where
  unfoldable pub encode_persistent_state : PersistentState → Outcome DiskError (List ℕ)
  encode_persistent_state s =
      encode_message codec (record { term = s.term; voted_for = s.voted_for })

  unfoldable pub decode_persistent_state : List ℕ → Outcome DiskError PersistentState
  decode_persistent_state bytes = do
    (p, rest) ← decode_message codec bytes
    ok (record { term = p.term; voted_for = p.voted_for })

  -- The error, if any, and the storage after the call.
  unfoldable pub set_state : ℕ → String → StateStorage → Option DiskError × StateStorage
  set_state term vote p =
      let s : PersistentState = record { term = term; voted_for = vote } in
      let p1 = record p { state = some s } in
      elim (encode_persistent_state s) [
        | ok bytes ↦ (none, record p1 { state_file = some bytes })
        | err e ↦ (some e, p1)
        | fatal ↦ (none, p1)
      ]

  -- The test for `io.EOF` never holds, since the decoder wraps its errors.
  unfoldable pub read_state : StateStorage → Outcome DiskError ((ℕ × String) × StateStorage)
  read_state p = elim p.state [
    | some s ↦ ok ((s.term, s.voted_for), p)
    | none ↦ elim p.state_file [
      | none ↦ ok ((0, ""), p)
      | some bytes ↦ do
        s ← decode_persistent_state bytes
        ok ((s.term, s.voted_for), record p { state = some s })
    ]
  ]

  set_state_lem :
      (term : ℕ) (vote : String) (buf : List ℕ) (p : StateStorage)
      → codec.marshal (record { term = term; voted_for = vote }) ≡ some buf
      → set_state term vote p ≡ (
        none,
        record {
          state_file = some (frame buf);
          state = some (record { term = term; voted_for = vote });
        },
      )
  unfolding set_state encode_persistent_state
  set_state_lem term vote buf p h = rw (set_state, encode_message_lem codec _ buf h) refl

  module _ (law : IsCodec codec) (term : ℕ) (vote : String) (buf : List ℕ)
      (encodes : codec.marshal (record { term = term; voted_for = vote }) ≡ some buf)
      (small : length buf < 2147483648) where
    decodes : decode_persistent_state (frame buf) ≡ ok (record { term = term; voted_for = vote })
    unfolding decode_persistent_state
    decodes =
        rw
          (
            sym (append-nil (frame buf)),
            decode_message-frame codec law (record { term = term; voted_for = vote }) buf [] encodes
                small,
          )
          refl

    -- With a codec that decodes what it encodes, a term and a vote that can be encoded are read
    -- back after they are set, from the storage itself and from a storage that is opened anew.
    pub read_state-set_state :
        (p : StateStorage)
        → (after : StateStorage) × (set_state term vote p ≡ (none, after))
          × (read_state after ≡ ok ((term, vote), after))
          × (read_state (new_state_storage after.state_file) ≡ ok ((term, vote), after))
    unfolding read_state new_state_storage
    read_state-set_state p = (_, set_state_lem term vote buf p encodes, refl, rw decodes refl)

  pub set_state_fails :
      (term : ℕ) (vote : String) (p : StateStorage)
      → codec.marshal (record { term = term; voted_for = vote }) ≡ none
      → (after : StateStorage) × (set_state term vote p ≡ (some not_marshalled, after))
        × (read_state after ≡ ok ((term, vote), after))
        × (after.state_file ≡ p.state_file)
  unfolding read_state set_state encode_persistent_state encode_message
  set_state_fails term vote p h = (
    record p { state = some (record { term = term; voted_for = vote }) },
    ground (arith, h),
    refl,
    refl,
  )
