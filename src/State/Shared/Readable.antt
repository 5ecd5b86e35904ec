-- ===== src/State/Shared/Readable.antt =====
-- The files of a directory can always be read (src/bep_state.rs, src/bep_state_reference.rs).
use bep_rs.Prelude.{
  ℕ, ◌≡◌, ◌<◌, ◌^◌, refl, sym, ap, subst, ◌++◌, false, if◌then◌else◌, is_empty, none, some, List,
  [], ◌∷◌, map, text_eq, All,
}
use bep_rs.Sync.{SyncBlock, SyncFile, SyncDirectory}
use bep_rs.State.Models.{
  FileRow, SyncFileVersion, SyncFileBlock, sync_files_schema, sync_file_versions_schema,
  sync_file_blocks_schema,
}
use bep_rs.State.Table.{IsTable, IsUpsert}
use bep_rs.State.Monad.{Sql, BepState}
use bep_rs.State.Folders
use bep_rs.State.Files.{get_sync_files, update_sync_file}
use bep_rs.State.Files.Versions.{IsVersion}
use bep_rs.State.Files.Read.{get_sync_files-row_file}
use bep_rs.State.Files.Stored.{stored_file, get_sync_files-update_sync_file}
use bep_rs.State.Files.Blocks.{IsOrder, IsAscending}
use bep_rs.State.Files.Integrity.{IsIntact, update_sync_file-IsIntact}
use bep_rs.State.Shared.{Call, no_database, call, calls}
use bep_rs.State.Shared.Elsewhere.{
  SameFiles, add_address-SameFiles, add_peer-SameFiles, add_peer_vec_id-SameFiles,
  set_name-SameFiles, open_database-SameFiles, add_sync_directory-SameFiles,
  sync_directory_with_peer-SameFiles, set_sync_directory_path-SameFiles,
  remove_sync_directory-SameFiles, new_folder-SameFiles,
}

SameFiles-IsIntact : (S : Sql) (s s' : BepState S) → SameFiles S s s' → IsIntact S s → IsIntact S s'
SameFiles-IsIntact S s s' (files, versions, blocks) (named, whole, free, distinct) = (
  rw files named,
  λ j. rw (files, versions) (whole j),
  λ j gone. rw blocks (free j (rw files at gone)),
  rw files distinct,
)

module _ (S : Sql) (order_by_offset : List SyncFileBlock → List SyncFileBlock)
    (order : IsOrder order_by_offset) (files : IsTable FileRow sync_files_schema S.sync_files)
    (upsert : IsUpsert FileRow sync_files_schema S.sync_files)
    (versions : IsTable SyncFileVersion sync_file_versions_schema S.sync_file_versions)
    (blocks : IsTable SyncFileBlock sync_file_blocks_schema S.sync_file_blocks) where
  call-IsIntact :
      (c : Call) (s : BepState S) → IsIntact S s → IsIntact S (call S order_by_offset c s)
  unfolding call Folders.set_new_folder_handler Folders.add_peer_connection
      Folders.directory_changed
  call-IsIntact (Call.new_call cert key) s =
      SameFiles-IsIntact S s (call S order_by_offset (Call.new_call cert key) s)
        (open_database-SameFiles S cert key s)
  call-IsIntact Call.read_call s = λ intact. intact
  call-IsIntact (Call.set_sync_directory_path_call dir path) s =
      SameFiles-IsIntact S s (call S order_by_offset (Call.set_sync_directory_path_call dir path) s)
        (set_sync_directory_path-SameFiles S dir path s)
  call-IsIntact (Call.get_sync_files_call dir_id) s = λ intact.
      let e = get_sync_files-row_file S order_by_offset dir_id s intact in
      subst (IsIntact S) (sym (ap (λ t. t.1) e)) intact
  call-IsIntact (Call.update_sync_file_call dir file) s =
      update_sync_file-IsIntact S order_by_offset order files upsert versions blocks dir file s
  call-IsIntact (Call.set_name_call name) s =
      SameFiles-IsIntact S s (call S order_by_offset (Call.set_name_call name) s)
        (set_name-SameFiles S name s)
  call-IsIntact (Call.add_address_call peer addr) s =
      SameFiles-IsIntact S s (call S order_by_offset (Call.add_address_call peer addr) s)
        (add_address-SameFiles S peer addr s)
  call-IsIntact (Call.remove_sync_directory_call to_remove) s =
      SameFiles-IsIntact S s (call S order_by_offset (Call.remove_sync_directory_call to_remove) s)
        (remove_sync_directory-SameFiles S to_remove s)
  call-IsIntact (Call.add_sync_directory_call exists random_id path label id) s =
      SameFiles-IsIntact S s
        (call S order_by_offset (Call.add_sync_directory_call exists random_id path label id) s)
        (add_sync_directory-SameFiles S exists random_id path label id s)
  call-IsIntact (Call.add_peer_vec_id_call peer_name peer_id) s =
      SameFiles-IsIntact S s
        (call S order_by_offset (Call.add_peer_vec_id_call peer_name peer_id) s)
        (add_peer_vec_id-SameFiles S peer_name peer_id s)
  call-IsIntact (Call.add_peer_call peer_name peer_id) s =
      SameFiles-IsIntact S s (call S order_by_offset (Call.add_peer_call peer_name peer_id) s)
        (add_peer-SameFiles S peer_name peer_id s)
  call-IsIntact (Call.sync_directory_with_peer_call directory peer) s =
      SameFiles-IsIntact S s
        (call S order_by_offset (Call.sync_directory_with_peer_call directory peer) s)
        (sync_directory_with_peer-SameFiles S directory peer s)
  call-IsIntact (Call.new_folder_call directory) s =
      SameFiles-IsIntact S s (call S order_by_offset (Call.new_folder_call directory) s)
        (new_folder-SameFiles S directory s)
  call-IsIntact (Call.set_new_folder_handler_call handler) s = λ intact. intact
  call-IsIntact (Call.add_peer_connection_call conn) s = λ intact. intact
  call-IsIntact (Call.directory_changed_call dir) s = λ intact. intact

  calls-IsIntact :
      (cs : List Call) (s : BepState S) → IsIntact S s → IsIntact S (calls S order_by_offset cs s)
  unfolding calls
  calls-IsIntact [] s intact = intact
  calls-IsIntact (c ∷ cs) s intact =
      calls-IsIntact cs (call S order_by_offset c s) (call-IsIntact c s intact)

  no_database-IsIntact : IsIntact S (no_database S)
  no_database-IsIntact = (
    rw files.select-empty tt,
    λ j. rw (files.select-empty, versions.select-empty) refl,
    λ j gone. rw blocks.select-empty refl,
    rw files.select-empty tt,
  )

  pub calls-no_database-IsIntact :
      (cs : List Call) → IsIntact S (calls S order_by_offset cs (no_database S))
  calls-no_database-IsIntact cs = calls-IsIntact cs (no_database S) no_database-IsIntact

  -- However the tasks call the methods of the state, from an empty database on, in any order and
  -- across restarts, with calls that panic among them, the files of a directory can be read: `get_sync_files` returns and
  -- leaves the state as it is, since every file has a hash, an id and a version.
  pub get_sync_files-calls :
      (cs : List Call) (dir_id : List ℕ)
      → let s = calls S order_by_offset cs (no_database S) in
        (found : List SyncFile) × (get_sync_files S order_by_offset dir_id s ≡ (some found, s))
  get_sync_files-calls cs dir_id = (
    _,
    get_sync_files-row_file S order_by_offset dir_id (calls S order_by_offset cs (no_database S))
        (calls-IsIntact cs (no_database S) no_database-IsIntact),
  )

  -- After any such calls, storing a file that has no id yet succeeds, if it has a version and a
  -- block, its numbers fit into 64 bits and its blocks are in the order of their offsets. From then
  -- on its directory has this file after those that it had, with all its contents, under an id
  -- and by its name; every other directory has the files that it had.
  pub get_sync_files-update_sync_file_call :
      (cs : List Call) (dir : SyncDirectory) (file : SyncFile)
      → file.id ≡ none
      → is_empty file.versions ≡ false
      → All IsVersion file.versions
      → file.modified_by < 2 ^ 64
      → file.synced_version < 2 ^ 64
      → is_empty file.blocks ≡ false
      → IsAscending (map (λ (b : SyncBlock). b.offset) file.blocks)
      → let s = calls S order_by_offset cs (no_database S) in
        (n : ℕ) × (s' : BepState S) × (update_sync_file S order_by_offset dir file s
          ≡ (some tt, s'))
        × ((dir_id : List ℕ)
            → (found : List SyncFile) × (get_sync_files S order_by_offset dir_id s
                ≡ (some found, s))
              × (get_sync_files S order_by_offset dir_id s' ≡ (
                some (found ++ (if text_eq dir.id dir_id then stored_file file n ∷ [] else [])),
                s',
              )))
  get_sync_files-update_sync_file_call cs dir file unknown some_version fit modified synced
        some_block ascending =
      get_sync_files-update_sync_file S order_by_offset order files upsert versions blocks dir file
        fit modified synced (calls S order_by_offset cs (no_database S))
        (calls-IsIntact cs (no_database S) no_database-IsIntact) unknown some_version some_block
        ascending
