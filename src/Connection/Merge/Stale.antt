-- ===== src/Connection/Merge/Stale.antt =====
-- What `handle_index` of src/peer_connection/handlers.rs does not take over.
use bep_rs.Prelude.{ℕ, ◌≡◌, refl, ◌≤◌, le→leb, false, none, some, List, [], ◌∷◌, length, find?, All}
use bep_rs.Sync.{SyncFile, SyncDirectory}
use bep_rs.State.Models.{SyncFileBlock}
use bep_rs.State.Monad.{Sql, BepState}
use bep_rs.State.Folders.{get_sync_directory}
use bep_rs.State.Files.{get_sync_files}
use bep_rs.Connection.Items.{FileInfo, Counter}
use bep_rs.Connection.Merge.{
  has_name, merge_known, merge_new, merge_file, merge_files, handle_index,
}

-- The local index has the file, with at least as many versions as the peer names.
pub record IsStale (localindex : List SyncFile) (file : FileInfo) : Type 0 where
  pub localfile : SyncFile
  pub counters : List Counter
  pub found : find? (has_name file.name) localindex ≡ some localfile
  pub given : file.version ≡ some counters
  pub fewer : length counters ≤ length localfile.versions

module _ (S : Sql) (order_by_offset : List SyncFileBlock → List SyncFileBlock)
    (syncdir : SyncDirectory) (localindex : List SyncFile) (s : BepState S) where
  merge_file_stale :
      (file : FileInfo)
      → IsStale localindex file
      → merge_file S order_by_offset syncdir file localindex s ≡ (some (localindex, false), s)
  unfolding merge_file merge_known
  merge_file_stale file stale =
      rw (stale.found, merge_file)
        (rw (stale.given, merge_known)
          (rw (le→leb (length stale.counters) (length stale.localfile.versions) stale.fewer)))

  merge_file_no_blocks :
      (file : FileInfo)
      → find? (has_name file.name) localindex ≡ none
      → file.blocks ≡ []
      → merge_file S order_by_offset syncdir file localindex s ≡ (none, s)
  unfolding merge_file merge_new
  merge_file_no_blocks file unknown no_blocks = rw (unknown, merge_file) (rw (no_blocks, merge_new))

  merge_files_stale :
      (files : List FileInfo)
      → All (IsStale localindex) files
      → merge_files S order_by_offset syncdir files localindex false s ≡ (some false, s)
  unfolding merge_files
  merge_files_stale [] h = refl
  merge_files_stale (file ∷ files) h =
      rw (merge_file_stale file h.0, merge_files) (merge_files_stale files h.1)

  merge_files_no_blocks :
      (file : FileInfo) (files : List FileInfo)
      → find? (has_name file.name) localindex ≡ none
      → file.blocks ≡ []
      → merge_files S order_by_offset syncdir (file ∷ files) localindex false s ≡ (none, s)
  unfolding merge_files
  merge_files_no_blocks file files unknown no_blocks =
      rw (merge_file_no_blocks file unknown no_blocks, merge_files)

module _ (S : Sql) (order_by_offset : List SyncFileBlock → List SyncFileBlock) (conn : ℕ)
    (folder_id : List ℕ) (syncdir : SyncDirectory) (localindex : List SyncFile)
    (s : BepState S) where
  -- An index that names only files that the directory has, each with at least as many versions,
  -- is accepted, writes nothing and starts no download.
  pub handle_index_stale :
      (files : List FileInfo)
      → get_sync_directory S folder_id s ≡ some syncdir
      → get_sync_files S order_by_offset syncdir.id s ≡ (some localindex, s)
      → All (IsStale localindex) files
      → handle_index S order_by_offset conn folder_id files s ≡ (some tt, s)
  unfolding handle_index
  handle_index_stale files is_dir is_index stale =
      rw (is_dir)
        (rw is_index (rw (merge_files_stale S order_by_offset syncdir localindex s files stale)))

  -- A file that the directory does not have and that comes with no blocks ends in a panic,
  -- whatever follows it in the index; nothing of the index is stored.
  handle_index_no_blocks :
      (file : FileInfo) (files : List FileInfo)
      → get_sync_directory S folder_id s ≡ some syncdir
      → get_sync_files S order_by_offset syncdir.id s ≡ (some localindex, s)
      → find? (has_name file.name) localindex ≡ none
      → file.blocks ≡ []
      → handle_index S order_by_offset conn folder_id (file ∷ files) s ≡ (none, s)
  unfolding handle_index
  handle_index_no_blocks file files is_dir is_index unknown no_blocks = rw is_dir (
      rw is_index (
        rw (
          merge_files_no_blocks S order_by_offset syncdir localindex s file files unknown
            no_blocks)))
