-- ===== src/SnapshotStorage/Publish.antt =====
-- A snapshot is seen once its file is closed, and not before.
use goraft.Prelude.{
  ℕ, zero, suc, ◌+◌, ◌≤◌, ◌≡◌, ◌⊎◌, inl, inr, refl, List, [], ◌∷◌, some, true, false, ok, All,
  arith,
}
use goraft.Disk.{Codec}
use goraft.Disk.Frames.{IsCodec}
use goraft.Raft.{SnapshotMetadata}
use goraft.SnapshotStorage.{
  SnapshotDirectory, TmpDirectory, add_dir, remove_tmp, walk_files, walk_dirs, remove_tmp_files,
  SnapshotDisk, OpenSnapshot, rename_dir, last_dir, new_snapshot_storage, close_snapshot,
  discard_snapshot, encode_metadata, decode_metadata, create_snapshot, most_recent, write_data,
}

last_dir-rename_dir :
    (d : SnapshotDirectory) (es : List SnapshotDirectory)
    → All (λ e. e.created ≤ d.created) es
    → last_dir (rename_dir d es) ≡ some d
unfolding last_dir rename_dir
last_dir-rename_dir d [] all = refl
last_dir-rename_dir d (e ∷ []) (h, all) = ground arith
last_dir-rename_dir d (e ∷ f ∷ es) (h, all) = ground (arith, last_dir-rename_dir d (f ∷ es) all)

List-cases {ℓ} :
    {A : Type ℓ} → (xs : List A) → (xs ≡ []) ⊎ ((y : A) × (ys : List A) × (xs ≡ y ∷ ys))
List-cases [] = inl refl
List-cases (y ∷ ys) = inr (y, ys, refl)

-- The temporary directories that hold a file.
unfoldable pub leftovers : List TmpDirectory → ℕ
leftovers [] = 0
leftovers (t ∷ ts) = let rest = leftovers ts in elim t.files [ [] ↦ rest | _ ∷ _ ↦ 1 + rest ]

leftovers-add_dir :
    (n : ℕ) (f : List ℕ) (fs : List (List ℕ)) (ts : List TmpDirectory)
    → leftovers (add_dir (record { name = n; files = f ∷ fs }) ts) ≡ 1 + leftovers ts
unfolding leftovers add_dir
leftovers-add_dir n f fs [] = refl
leftovers-add_dir n f fs (t ∷ ts) = elim (List-cases t.files) [
  | inl empty ↦ ground (arith, empty, leftovers-add_dir n f fs ts)
  | inr (g, gs, kept) ↦ ground (arith, kept, leftovers-add_dir n f fs ts)
]

-- The storage fails to open n times, then opens and leaves the second disk.
unfoldable pub OpensAfter : ℕ → SnapshotDisk → SnapshotDisk → Type 0
OpensAfter zero d e = new_snapshot_storage d ≡ (true, e)
OpensAfter (suc n) d e =
    (left : SnapshotDisk) × (new_snapshot_storage d ≡ (false, left)) × OpensAfter n left e

-- What one walk does: all is well and nothing is left, or one directory with files is gone.
walk_dirs_lem :
    (ts : List TmpDirectory)
    → ((leftovers ts ≡ 0) × (walk_dirs ts ≡ (true, [])))
      ⊎ ((us : List TmpDirectory) × (walk_dirs ts ≡ (false, us))
          × (leftovers ts ≡ 1 + leftovers us))
unfolding walk_dirs walk_files remove_tmp leftovers
walk_dirs_lem [] = inl (refl, refl)
walk_dirs_lem (t ∷ ts) = elim (List-cases t.files) [
  | inr (g, gs, kept) ↦ inr (ts, ground (arith, kept), ground (arith, kept))
  | inl empty ↦ elim (walk_dirs_lem ts) [
    | inl (none_left, walked) ↦
        inl (ground (arith, none_left, empty), ground (arith, walked, empty))
    | inr (us, walked, one_less) ↦
        inr (us, ground (arith, walked, empty), ground (arith, one_less, empty))
  ]
]

opens_after :
    (n : ℕ) (d : SnapshotDisk)
    → leftovers d.temporary ≡ n
    → OpensAfter n d (record d { temporary = [] })
unfolding OpensAfter new_snapshot_storage remove_tmp_files
opens_after zero d h = elim (walk_dirs_lem d.temporary) [
  | inl (_, walked) ↦ ground (arith, walked)
  | inr (us, walked, one_less) ↦ absurd (omega (arith, h, one_less))
]
opens_after (suc n) d h = elim (walk_dirs_lem d.temporary) [
  | inl (none_left, walked) ↦ absurd (omega (arith, h, none_left))
  | inr (us, walked, one_less) ↦ (
    record d { temporary = us },
    ground (arith, walked),
    opens_after n (record d { temporary = us }) (omega (arith, h, one_less)),
  )
]

module _ (json : Codec SnapshotMetadata) (law : IsCodec json) (now tmp : ℕ) (m : SnapshotMetadata)
    (bytes : List ℕ) (encodes : json.marshal m ≡ some bytes) (d : SnapshotDisk) where
  abbrev fresh : OpenSnapshot
  fresh = record {
    created = now;
    tmp_dir = tmp;
    is_temporary = true;
    file_open = true;
    metadata = m;
    metadata_file = bytes;
    contents = [];
  }

  abbrev pending : SnapshotDisk
  pending = record d {
    temporary = add_dir (record { name = tmp; files = bytes ∷ [] ∷ [] }) d.temporary;
  }

  creates : create_snapshot json now tmp m d ≡ ok (fresh, pending)
  unfolding create_snapshot encode_metadata
  creates = ground (arith, encodes)

  decodes : decode_metadata json bytes ≡ ok m
  unfolding decode_metadata
  decodes = ground (arith, law m bytes encodes)

  abbrev stored : List ℕ → OpenSnapshot
  stored contents = record {
    created = 0;
    tmp_dir = 0;
    is_temporary = false;
    file_open = true;
    metadata = m;
    metadata_file = bytes;
    contents = contents;
  }

  most_recent_runs :
      (contents : List ℕ) (x : SnapshotDisk) (t : ℕ)
      → last_dir x.complete
        ≡ some (record { created = t; metadata_file = bytes; data_file = contents })
      → most_recent json x ≡ ok (some (stored contents))
  unfolding most_recent
  most_recent_runs contents x t h = rw (most_recent, h, decodes) refl

  published :
      (contents : List ℕ)
      → All (λ e. e.created ≤ now) d.complete
      → most_recent json (close_snapshot (write_data contents fresh) pending).1
        ≡ ok (some (stored contents))
  unfolding close_snapshot write_data
  published contents all =
      most_recent_runs contents (close_snapshot (write_data contents fresh) pending).1 now (
        last_dir-rename_dir (record { created = now; metadata_file = bytes; data_file = contents })
          d.complete all)

  -- With a codec that decodes what it encodes, a new snapshot no older than the others on disk
  -- becomes the most recent one, with its metadata and what was written, once it is closed; if
  -- it is discarded the most recent one stays. If the process ends before either, the storage
  -- fails to open once for it and once for each other temporary directory that holds a file,
  -- and then opens with the permanent directories as they were and no temporary one.
  pub most_recent-close_snapshot :
      (contents : List ℕ)
      → All (λ e. e.created ≤ now) d.complete
      → (s : OpenSnapshot) × (d1 : SnapshotDisk) × (create_snapshot json now tmp m d ≡ ok (s, d1))
        × (most_recent json (discard_snapshot (write_data contents s) d1).1 ≡ most_recent json d)
        × OpensAfter (1 + leftovers d.temporary) d1 (record d { temporary = [] })
        × ((o : OpenSnapshot) × (most_recent json (close_snapshot (write_data contents s) d1).1
              ≡ ok (some o))
            × (o.metadata ≡ m)
            × (o.contents ≡ contents))
  unfolding most_recent close_snapshot discard_snapshot write_data
  most_recent-close_snapshot contents all = (
    fresh,
    pending,
    creates,
    refl,
    opens_after (1 + leftovers d.temporary) pending
        (leftovers-add_dir tmp bytes ([] ∷ []) d.temporary),
    (stored contents, published contents all, refl, refl),
  )
