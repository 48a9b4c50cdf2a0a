-- ===== src/SnapshotStorage.antt =====
-- snapshot_storage.go: the directories of snapshots on disk. A snapshot is written in a temporary
-- directory, which takes its permanent name when the file is closed. The order of os.ReadDir is that
-- of the names, which is that of their times while these have the same number of digits. JSON is a
-- parameter, and of the errors of the file system only the one that `RemoveTmpFiles` makes itself is
-- modelled: `filepath.Walk` reads the names in a directory before it hands it to the function, then
-- looks up each of them, hands the function the error where that fails, and ends with the first
-- error that the function returns.
pub mod Publish
use goraft.Prelude.{
  ℕ, List, [], ◌∷◌, ◌++◌, length, Option, none, some, Bool, true, false, not, ◌||◌, ltb, ◌==◌,
  if◌then◌else◌, Outcome, ok, err, ◌>>=◌,
}
use goraft.Disk.{Codec, DiskError, not_marshalled, not_unmarshalled}
use goraft.Raft.{SnapshotMetadata}

-- A permanent directory: the time in its name, and its two files.
pub record SnapshotDirectory : Type 0 where
  pub created : ℕ
  pub metadata_file : List ℕ
  pub data_file : List ℕ

-- A temporary directory: the place of its name among them, and its files.
pub record TmpDirectory : Type 0 where
  pub name : ℕ
  pub files : List (List ℕ)

-- The permanent and the temporary directories, each in the order of their names.
pub record SnapshotDisk : Type 0 where
  pub complete : List SnapshotDirectory
  pub temporary : List TmpDirectory

-- A `snapshotFile`: `file_open` is whether `file` is not nil, `is_temporary` whether it lies in
-- `tmpDir`. What is written is kept here until the file is closed.
pub record OpenSnapshot : Type 0 where
  pub created : ℕ
  pub tmp_dir : ℕ
  pub is_temporary : Bool
  pub file_open : Bool
  pub metadata : SnapshotMetadata
  pub metadata_file : List ℕ
  pub contents : List ℕ

unfoldable pub remove_dir : ℕ → List TmpDirectory → List TmpDirectory
remove_dir n [] = []
remove_dir n (d ∷ ds) = let rest = remove_dir n ds in if d.name == n then rest else d ∷ rest

-- `os.MkdirTemp` with the two files that `NewSnapshotFile` creates.
unfoldable pub add_dir : TmpDirectory → List TmpDirectory → List TmpDirectory
add_dir d [] = d ∷ []
add_dir d (e ∷ es) = let rest = add_dir d es in if ltb d.name e.name then d ∷ e ∷ es else e ∷ rest

-- `os.Rename` to a name with a time.
unfoldable pub rename_dir : SnapshotDirectory → List SnapshotDirectory → List SnapshotDirectory
rename_dir d [] = d ∷ []
rename_dir d (e ∷ es) =
    let rest = rename_dir d es in if ltb d.created e.created then d ∷ e ∷ es else e ∷ rest

unfoldable pub last_dir : List SnapshotDirectory → Option SnapshotDirectory
last_dir [] = none
last_dir (d ∷ []) = some d
last_dir (d ∷ e ∷ es) = last_dir (e ∷ es)

-- The function that `Walk` calls, with whether the path could not be looked up and whether its name
-- starts with "tmp": `none` is the error, otherwise whether the path is removed.
unfoldable pub remove_tmp : Bool → Bool → Option Bool
remove_tmp failed is_tmp = if failed then none else some is_tmp

-- The names read in a directory: they cannot be looked up once it is removed. Whether all went well.
unfoldable pub walk_files : Bool → List (List ℕ) → Bool
unfolding remove_tmp
walk_files removed [] = true
walk_files removed (f ∷ fs) =
    let rest = walk_files removed fs in
    elim (remove_tmp removed false) [ none ↦ false | some _ ↦ rest ]

-- The temporary directories one after the other, and those that are left.
unfoldable pub walk_dirs : List TmpDirectory → Bool × List TmpDirectory
unfolding remove_tmp walk_files
walk_dirs [] = (true, [])
walk_dirs (t ∷ ts) =
    let (done, left) = walk_dirs ts in
    elim (remove_tmp false true) [
      | none ↦ (false, t ∷ ts)
      | some removed ↦
          if walk_files removed t.files
          then (done, if removed then left else t ∷ left)
          else (false, if removed then ts else t ∷ ts)
    ]

-- The permanent directories, and the files in them, have other names.
unfoldable pub remove_tmp_files : SnapshotDisk → Bool × SnapshotDisk
unfolding walk_dirs
remove_tmp_files d =
    let (done, left) = walk_dirs d.temporary in (done, record d { temporary = left })

-- Removes what a crash has left, and fails where that fails.
unfoldable pub new_snapshot_storage : SnapshotDisk → Bool × SnapshotDisk
unfolding remove_tmp_files
new_snapshot_storage d = remove_tmp_files d

unfoldable pub close_snapshot : OpenSnapshot → SnapshotDisk → OpenSnapshot × SnapshotDisk
unfolding remove_dir rename_dir
close_snapshot s d =
    if not s.file_open
    then (s, d)
    else if not s.is_temporary
    then (record s { file_open = false }, d)
    else (
      record s { file_open = false },
      record {
        complete =
            rename_dir
              (record {
                created = s.created;
                metadata_file = s.metadata_file;
                data_file = s.contents;
              })
              d.complete;
        temporary = remove_dir s.tmp_dir d.temporary;
      },
    )

unfoldable pub discard_snapshot : OpenSnapshot → SnapshotDisk → OpenSnapshot × SnapshotDisk
unfolding remove_dir
discard_snapshot s d =
    if not s.file_open || not s.is_temporary
    then (s, d)
    else (record s { file_open = false }, record d { temporary = remove_dir s.tmp_dir d.temporary })

module _ (json : Codec SnapshotMetadata) where
  unfoldable pub encode_metadata : SnapshotMetadata → Outcome DiskError (List ℕ)
  encode_metadata m = elim (json.marshal m) [ none ↦ err not_marshalled | some bytes ↦ ok bytes ]

  unfoldable pub decode_metadata : List ℕ → Outcome DiskError SnapshotMetadata
  decode_metadata bytes = elim (json.unmarshal bytes) [
    | none ↦ err not_unmarshalled
    | some m ↦ ok m
  ]

  -- In a new temporary directory. The time is that of the call.
  unfoldable pub create_snapshot :
      ℕ → ℕ → SnapshotMetadata → SnapshotDisk → Outcome DiskError (OpenSnapshot × SnapshotDisk)
  unfolding add_dir
  create_snapshot now tmp m d = do
    bytes ← encode_metadata m
    ok (
      record {
        created = now;
        tmp_dir = tmp;
        is_temporary = true;
        file_open = true;
        metadata = m;
        metadata_file = bytes;
        contents = [];
      },
      record d { temporary = add_dir (record { name = tmp; files = bytes ∷ [] ∷ [] }) d.temporary },
    )

  -- The most recent snapshot, opened for reading: `none` where there is none.
  unfoldable pub most_recent : SnapshotDisk → Outcome DiskError (Option OpenSnapshot)
  unfolding last_dir
  most_recent d = elim (last_dir d.complete) [
    | none ↦ ok none
    | some e ↦ do
      m ← decode_metadata e.metadata_file
      ok (
          some (record {
            created = 0;
            tmp_dir = 0;
            is_temporary = false;
            file_open = true;
            metadata = m;
            metadata_file = e.metadata_file;
            contents = e.data_file;
          }))
  ]

-- `Write` at the end of a new file.
unfoldable pub write_data : List ℕ → OpenSnapshot → OpenSnapshot
write_data bytes s = record s { contents = s.contents ++ bytes }
