-- ===== src/State/Files.antt =====
-- The files of a directory, with their versions and blocks (src/bep_state.rs).
pub mod Versions
pub mod Blocks
pub mod Rows
pub mod Integrity
pub mod Read
pub mod Stored
pub mod Known
pub mod Replaced
pub mod Spawned
use bep_rs.Prelude.{
  ℕ, ◌==◌, not, Bool, true, false, ltb, leb, if◌then◌else◌, is_empty, Option, none, some, List, [],
  ◌∷◌, map, keep, length, drop, text_eq,
}
use bep_rs.Prelude.Int.{ℤ, pos, as_i64, as_u64}
use bep_rs.Sync.{SyncBlock, SyncFile, SyncDirectory, get_name}
use bep_rs.State.Models.{FileRow, SyncFileVersion, SyncFileBlock}
use bep_rs.State.Table.{Table, insert_all}
use bep_rs.State.Monad.{Sql, BepState, Method, pure, gets, unwrap, modify, require, ◌>>=◌, ◌>>◌}

-- The bytes of an `i64` read as a `u64`, and back.
unfoldable pub from_i64 : ℤ → ℕ
unfolding as_u64
from_i64 i = as_u64 i

unfoldable pub from_u64 : ℕ → ℤ
unfolding as_i64
from_u64 u = as_i64 u

unfoldable pub version_row : ℕ → ℕ × ℕ → SyncFileVersion
unfolding from_u64
version_row file_id (user, version) = record {
  id = none;
  version_id = from_u64 version;
  user_id = from_u64 user;
  sync_file_id = file_id;
}

unfoldable pub row_version : SyncFileVersion → ℕ × ℕ
unfolding from_i64
row_version r = (from_i64 r.user_id, from_i64 r.version_id)

unfoldable pub block_row : ℕ → SyncBlock → SyncFileBlock
block_row file_id b = record {
  id = none;
  sync_file_id = file_id;
  offset = b.offset;
  size = b.size;
  hash = b.hash;
  weak_hash = pos 0;
}

unfoldable pub row_block : SyncFileBlock → SyncBlock
row_block r = record { offset = r.offset; size = r.size; hash = r.hash }

-- `ORDER BY offset ASC` is the engine's.
module _ (S : Sql) (order_by_offset : List SyncFileBlock → List SyncFileBlock) where
  unfoldable pub get_versions : ℕ → BepState S → List (ℕ × ℕ)
  unfolding row_version
  get_versions id s = map row_version (
      keep (λ (r : SyncFileVersion). r.sync_file_id == id)
        (S.sync_file_versions.select s.sync_file_versions))

  unfoldable pub get_blocks : ℕ → BepState S → List SyncBlock
  unfolding row_block
  get_blocks file_id s = map row_block (
      order_by_offset (
        keep (λ (r : SyncFileBlock). r.sync_file_id == file_id)
          (S.sync_file_blocks.select s.sync_file_blocks)))

  -- One row of `get_sync_files`; it panics on a row with no hash, no id or no version.
  unfoldable pub file_of_row : FileRow → Method S SyncFile
  unfolding get_versions get_blocks from_i64
  file_of_row x = do
    hash ← unwrap x.hash
    id ← unwrap x.id
    versions ← gets (get_versions id)
    blocks ← gets (get_blocks id)
    require (not (is_empty versions))
    pure (record {
      id = x.id;
      path = x.name;
      hash = hash;
      modified_by = from_i64 x.modified_by;
      synced_version = from_i64 x.synced_version_id;
      versions = versions;
      blocks = blocks;
    })

  unfoldable pub files_of_rows : List FileRow → Method S (List SyncFile)
  unfolding file_of_row
  files_of_rows [] = pure []
  files_of_rows (x ∷ rows) = do
    file ← file_of_row x
    files ← files_of_rows rows
    pure (file ∷ files)

  unfoldable pub get_sync_files : List ℕ → Method S (List SyncFile)
  unfolding files_of_rows
  get_sync_files dir_id s =
      files_of_rows
        (keep (λ (r : FileRow). text_eq r.folder_id dir_id) (S.sync_files.select s.sync_files)) s

  -- The first part of `update_sync_file`: the row of the file. It returns the row's id.
  unfoldable pub store_file_row : SyncDirectory → SyncFile → Method S ℕ
  unfolding get_name from_u64
  store_file_row dir file = do
    inserted ← gets (λ s.
        S.sync_files.upsert
          (record {
            id = file.id;
            name = get_name file;
            modified_by = from_u64 file.modified_by;
            sequence = from_u64 0;
            synced_version_id = from_u64 file.synced_version;
            hash = some file.hash;
            folder_id = dir.id;
          })
          s.sync_files)
    (stored, rows) ← unwrap inserted
    modify (λ s. record s { sync_files = rows })
    unwrap stored.id

  -- The second: the versions past those that are stored.
  unfoldable pub store_versions : ℕ → List (ℕ × ℕ) → Method S (Unit {0})
  unfolding version_row insert_all
  store_versions inserted file_versions = do
    versions ← gets (λ s. length (
        keep (λ (r : SyncFileVersion). r.sync_file_id == inserted)
          (S.sync_file_versions.select s.sync_file_versions)))
    require (leb versions (length file_versions))
    if ltb versions (length file_versions)
        then (do
          added ← gets (λ s.
              insert_all S.sync_file_versions
                (map (version_row inserted) (drop versions file_versions)) s.sync_file_versions)
          rows ← unwrap added
          modify (λ s. record s { sync_file_versions = rows }))
        else pure tt

  -- The third: the blocks, if there are any, in place of those that are stored.
  unfoldable pub store_blocks : ℕ → List SyncBlock → Method S (Unit {0})
  unfolding block_row insert_all
  store_blocks inserted file_blocks = if is_empty file_blocks then pure tt else do
    modify (λ s. record s {
      sync_file_blocks =
          S.sync_file_blocks.delete (λ r. r.sync_file_id == inserted) s.sync_file_blocks;
    })
    added ← gets (λ s.
        insert_all S.sync_file_blocks (map (block_row inserted) file_blocks) s.sync_file_blocks)
    rows ← unwrap added
    modify (λ s. record s { sync_file_blocks = rows })

  unfoldable pub update_sync_file : SyncDirectory → SyncFile → Method S (Unit {0})
  unfolding store_file_row store_versions store_blocks get_versions
  update_sync_file dir file = do
    require (not (is_empty file.versions))
    inserted ← store_file_row dir file
    store_versions inserted file.versions
    store_blocks inserted file.blocks
    versions ← gets (get_versions inserted)
    require (not (is_empty versions))
