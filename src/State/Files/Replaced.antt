-- ===== src/State/Files/Replaced.antt =====
-- A file that the database has is replaced by a later one (src/bep_state.rs, `update_sync_file` and
-- `get_sync_files`).
use bep_rs.Prelude.{
  ℕ, ◌≡◌, ◌<◌, ◌≤◌, ◌^◌, refl, sym, ap, subst, ◌∙◌, ◌==◌, ◌&&◌, not, Bool, false, if◌then◌else◌,
  is_empty, Option, some, List, ◌++◌, map, find?, length, length-map, drop, text_eq, All,
}
use mathlib.Core.Option.{some-injective}
use bep_rs.Sync.{SyncBlock, SyncFile, SyncDirectory, get_name}
use bep_rs.State.Models.{
  FileRow, SyncFileVersion, SyncFileBlock, same_id, sync_files_schema, sync_file_versions_schema,
  sync_file_blocks_schema,
}
use bep_rs.State.Table.{IsTable, IsUpsert}
use bep_rs.State.Monad.{Sql, BepState, gets, require, ◌>>=◌, ◌>>◌}
use bep_rs.State.Files.{
  row_version, get_versions, get_blocks, get_sync_files, store_file_row, store_versions,
  store_blocks, update_sync_file,
}
use bep_rs.State.Files.Rows.{file_row}
use bep_rs.State.Files.Versions.{from_i64-from_u64, IsVersion, versions_of, stored_count}
use bep_rs.State.Files.Blocks.{IsOrder, IsAscending}
use bep_rs.State.Files.Integrity.{IsIntact, update_sync_file-IsIntact}
use bep_rs.State.Files.Read.{row_file, get_sync_files-row_file}
use bep_rs.State.Files.Stored.{store_rest, agree_versions, agree_blocks}
use bep_rs.State.Files.Known.{
  shows-any, shows-AreIn, find?-row_file, read_replaced, reads, replace_row,
}

-- The file as it is read back, with these versions.
abbrev pub replaced_file : SyncFile → List (ℕ × ℕ) → SyncFile
replaced_file file versions = record file { path = get_name file; versions = versions }

module _ (S : Sql) (order_by_offset : List SyncFileBlock → List SyncFileBlock)
    (order : IsOrder order_by_offset) (files : IsTable FileRow sync_files_schema S.sync_files)
    (upsert : IsUpsert FileRow sync_files_schema S.sync_files)
    (versions : IsTable SyncFileVersion sync_file_versions_schema S.sync_file_versions)
    (blocks : IsTable SyncFileBlock sync_file_blocks_schema S.sync_file_blocks)
    (dir : SyncDirectory) (file old : SyncFile) (fit : All IsVersion file.versions)
    (modified : file.modified_by < 2 ^ 64) (synced : file.synced_version < 2 ^ 64) where
  abbrev new_versions : List (ℕ × ℕ)
  new_versions = old.versions ++ drop (length old.versions) file.versions

  row_file-known :
      (n : ℕ) (s : BepState S)
      → file.id ≡ some n
      → get_versions S order_by_offset n s ≡ new_versions
      → get_blocks S order_by_offset n s ≡ file.blocks
      → row_file S order_by_offset s (file_row dir file) ≡ replaced_file file new_versions
  row_file-known n s known vs bs =
      rw
        (
          known,
          vs,
          bs,
          from_i64-from_u64 file.modified_by modified,
          from_i64-from_u64 file.synced_version synced,
        )
        refl

  stored_count-eq :
      (n : ℕ) (s : BepState S)
      → old.versions ≡ get_versions S order_by_offset n s
      → stored_count S n s ≡ length old.versions
  unfolding get_versions
  stored_count-eq n s read = sym (ap length read ∙ length-map (versions_of S n s) row_version)

  update_sync_file_from :
      (n : ℕ) (t' : S.sync_files.Rows) (s : BepState S) (end : Option (Unit {0}) × BepState S)
      → is_empty file.versions ≡ false
      → file.id ≡ some n
      → S.sync_files.upsert (file_row dir file) s.sync_files ≡ some (file_row dir file, t')
      → (store_versions S order_by_offset n file.versions
            >> (store_blocks S order_by_offset n file.blocks
                >> (gets (get_versions S order_by_offset n) >>= λ vs'.
                    require (not (is_empty vs')))))
          (record s { sync_files = t' })
        ≡ end
      → update_sync_file S order_by_offset dir file s ≡ end
  unfolding update_sync_file store_file_row
  update_sync_file_from n t' s end some_version its_id e h =
      rw (update_sync_file, some_version, e, its_id) h

  -- Once the row of the file is written.
  update_sync_file-known :
      (n : ℕ) (t' : S.sync_files.Rows) (s : BepState S)
      → file.id ≡ some n
      → S.sync_files.upsert (file_row dir file) s.sync_files ≡ some (file_row dir file, t')
      → old.versions ≡ get_versions S order_by_offset n s
      → length old.versions ≤ length file.versions
      → is_empty file.versions ≡ false
      → is_empty file.blocks ≡ false
      → IsAscending (map (λ (b : SyncBlock). b.offset) file.blocks)
      → (s' : BepState S) × (update_sync_file S order_by_offset dir file s ≡ (some tt, s'))
        × (s'.sync_files ≡ t')
        × (get_versions S order_by_offset n s' ≡ new_versions)
        × (get_blocks S order_by_offset n s' ≡ file.blocks)
        × ((j : ℕ)
            → (n == j) ≡ false
            → (get_versions S order_by_offset j s' ≡ get_versions S order_by_offset j s)
              × (get_blocks S order_by_offset j s' ≡ get_blocks S order_by_offset j s))
  update_sync_file-known n t' s its_id e read more some_version some_block ascending =
      let s1 : BepState S = record s { sync_files = t' } in
      let counted : stored_count S n s1 ≡ length old.versions = stored_count-eq n s read in
      let unchanged = agree_versions S order_by_offset order versions blocks s s1 in
      let unchanged' = agree_blocks S order_by_offset order versions blocks s s1 in
      let (s', e', same_files, vs, bs, others) =
        store_rest S order_by_offset order versions blocks n file s1
          (subst (λ k. k ≤ length file.versions) (sym counted) more) some_version fit some_block
          ascending in
      (
        s',
        update_sync_file_from n t' s (some tt, s') some_version its_id e e',
        same_files,
        vs
            ∙ ap (λ vs'. vs' ++ drop (stored_count S n s1) file.versions)
                (unchanged n refl ∙ sym read)
            ∙ ap (λ k. old.versions ++ drop k file.versions) counted,
        bs,
        λ j ne. let (v, b) = others j ne in (v ∙ unchanged j refl, b ∙ unchanged' j refl),
      )

  -- The file that the directory has under an id is replaced by one of that id.
  pub get_sync_files-update_sync_file_known :
      (s : BepState S) (p : SyncFile → Bool) (found : List SyncFile)
      → IsIntact S s
      → get_sync_files S order_by_offset dir.id s ≡ (some found, s)
      → find? p found ≡ some old
      → file.id ≡ old.id
      → length old.versions ≤ length file.versions
      → is_empty file.versions ≡ false
      → is_empty file.blocks ≡ false
      → IsAscending (map (λ (b : SyncBlock). b.offset) file.blocks)
      → (s' : BepState S) × (update_sync_file S order_by_offset dir file s ≡ (some tt, s'))
        × ((dir_id : List ℕ)
            → (there : List SyncFile) × (get_sync_files S order_by_offset dir_id s
                ≡ (some there, s))
              × (get_sync_files S order_by_offset dir_id s' ≡ (
                some (
                    map
                      (λ (f : SyncFile).
                        if text_eq dir.id dir_id && same_id old.id f.id
                        then replaced_file file new_versions
                        else f)
                      there),
                s',
              )))
  get_sync_files-update_sync_file_known s p found intact indexed is_old same more some_version
        some_block ascending =
      let (named, whole, free, distinct) = intact in
      let rows = S.sync_files.select s.sync_files in
      let is_read : reads S order_by_offset s dir.id rows ≡ found = some-injective _ _ (
        ap (λ t. t.0)
          (sym (get_sync_files-row_file S order_by_offset dir.id s intact) ∙ indexed)) in
      let (n, known, read, shown) =
        find?-row_file S order_by_offset s p dir.id old rows named (rw is_read is_old) in
      let its_id : file.id ≡ some n = same ∙ known in
      let (t', e, replaced) =
        upsert.upsert_existing (file_row dir file) s.sync_files
          (rw its_id (shows-any S order_by_offset s n dir.id rows shown)) in
      let (s', updated, same_files, vs, bs, others) =
        update_sync_file-known n t' s its_id e read more some_version some_block ascending in
      let intact' : IsIntact S s' =
        subst (λ t. IsIntact S t) (ap (λ t. t.1) updated)
          (update_sync_file-IsIntact S order_by_offset order files upsert versions blocks dir file s
            intact) in
      let all_rows : S.sync_files.select s'.sync_files
          ≡ map (replace_row (file_row dir file)) rows =
        ap S.sync_files.select same_files ∙ replaced in
      let made : row_file S order_by_offset s' (file_row dir file)
          ≡ replaced_file file new_versions =
        row_file-known n s' its_id vs bs in
      (
        s',
        updated,
        λ dir_id. (
          reads S order_by_offset s dir_id rows,
          get_sync_files-row_file S order_by_offset dir_id s intact,
          get_sync_files-row_file S order_by_offset dir_id s' intact'
              ∙ ap (λ t. (some t, s'))
                  (ap (reads S order_by_offset s' dir_id) all_rows
                    ∙ read_replaced S order_by_offset s s' n (file_row dir file)
                        (replaced_file file new_versions) dir_id rows its_id made others named
                        (shows-AreIn S order_by_offset s n dir.id rows distinct shown)
                    ∙ ap
                        (λ o.
                          map
                            (λ (f : SyncFile).
                              if text_eq dir.id dir_id && same_id o f.id
                              then replaced_file file new_versions
                              else f)
                            (reads S order_by_offset s dir_id rows))
                        (sym known)),
        ),
      )
