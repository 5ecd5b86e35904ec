-- ===== src/Connection/Merge.antt =====
-- Merging the index that a peer sends (src/peer_connection/handlers.rs, `handle_index`). A panic
-- ends the task of the connection, and with it the local index.
pub mod Stale
pub mod Fresh
pub mod Newer
use bep_rs.Prelude.{
  ℕ, Bool, true, false, ◌||◌, leb, if◌then◌else◌, Option, none, some, List, [], ◌∷◌, ◌++◌, map,
  length, find?, text_eq,
}
use bep_rs.Sync.{SyncBlock, SyncFile, SyncDirectory, get_name}
use bep_rs.State.Models.{SyncFileBlock}
use bep_rs.State.Monad.{
  Sql, BepState, Method, Spawned, get_directory, pure, gets, unwrap, modify, ◌>>=◌, ◌>>◌,
}
use bep_rs.State.Folders.{get_sync_directory}
use bep_rs.State.Files.{get_sync_files, update_sync_file}
use bep_rs.Connection.Items.{FileInfo, Counter, BlockInfo}

abbrev pub has_name : List ℕ → SyncFile → Bool
has_name name file = text_eq (get_name file) name

abbrev pub version_of : Counter → ℕ × ℕ
version_of c = (c.id, c.value)

abbrev pub block_of : BlockInfo → SyncBlock
block_of b = record { offset = b.offset; size = b.size; hash = b.hash }

-- `file.blocks[0]`
abbrev pub first : List BlockInfo → Option BlockInfo
first [] = none
first (b ∷ blocks) = some b

-- The mutation of the entry that `find` returned.
unfoldable pub replace_first : (SyncFile → Bool) → SyncFile → List SyncFile → List SyncFile
replace_first p new [] = []
replace_first p new (x ∷ xs) =
    let rest = replace_first p new xs in if p x then new ∷ xs else x ∷ rest

module _ (S : Sql) (order_by_offset : List SyncFileBlock → List SyncFileBlock)
    (syncdir : SyncDirectory) where
  -- A file that is in the local index. It returns the index, and whether something changed.
  unfoldable pub merge_known : FileInfo → SyncFile → List SyncFile → Method S (List SyncFile × Bool)
  unfolding replace_first
  merge_known file localfile localindex = do
    counters ← unwrap file.version
    if leb (length counters) (length localfile.versions) then pure (localindex, false) else (do
      block ← unwrap (first file.blocks)
      let updated : SyncFile = record localfile {
        versions = map version_of counters;
        hash = block.hash;
        blocks = map block_of file.blocks;
        modified_by = file.modified_by;
      }
      update_sync_file S order_by_offset syncdir updated
      pure (replace_first (has_name file.name) updated localindex, true))

  -- A file that is not; it is not added to the local index.
  unfoldable pub merge_new : FileInfo → List SyncFile → Method S (List SyncFile × Bool)
  merge_new file localindex = do
    block ← unwrap (first file.blocks)
    counters ← unwrap file.version
    update_sync_file S order_by_offset syncdir (record {
      id = none;
      path = file.name;
      hash = block.hash;
      modified_by = file.modified_by;
      synced_version = 0;
      versions = map version_of counters;
      blocks = map block_of file.blocks;
    })
    pure (localindex, true)

  unfoldable pub merge_file : FileInfo → List SyncFile → Method S (List SyncFile × Bool)
  unfolding merge_known merge_new
  merge_file file localindex = elim (find? (has_name file.name) localindex) [
    | none ↦ merge_new file localindex
    | some localfile ↦ merge_known file localfile localindex
  ]

  unfoldable pub merge_files : List FileInfo → List SyncFile → Bool → Method S Bool
  unfolding merge_file
  merge_files [] localindex changed = pure changed
  merge_files (file ∷ files) localindex changed = do
    (next, is_new) ← merge_file file localindex
    merge_files files next (changed || is_new)

module _ (S : Sql) (order_by_offset : List SyncFileBlock → List SyncFileBlock) where
  unfoldable pub handle_index : ℕ → List ℕ → List FileInfo → Method S (Unit {0})
  unfolding merge_files
  handle_index conn folder_id files = do
    found ← gets (get_sync_directory S folder_id)
    syncdir ← unwrap found
    localindex ← get_sync_files S order_by_offset syncdir.id
    changed ← merge_files S order_by_offset syncdir files localindex false
    if changed
        then modify (λ s. record s { spawned = s.spawned ++ get_directory conn syncdir ∷ [] })
        else pure tt
