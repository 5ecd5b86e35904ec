-- ===== src/Connection/Merge/Newer.antt =====
-- What `handle_index` of src/peer_connection/handlers.rs takes over: a newer version of a file that the
-- directory has.
use bep_rs.Prelude.{
  ℕ, ◌^◌, ◌<◌, ◌≡◌, refl, sym, ap, ◌∙◌, subst, ◌&&◌, true, false, if◌then◌else◌, is_empty, some,
  List, [], ◌∷◌, ◌++◌, map, find?, length, length-map, drop, leb, text_eq, All, arith,
}
use bep_rs.Sync.{SyncBlock, SyncFile, SyncDirectory}
use bep_rs.State.Models.{
  FileRow, SyncFileVersion, SyncFileBlock, same_id, sync_files_schema, sync_file_versions_schema,
  sync_file_blocks_schema,
}
use bep_rs.State.Table.{IsTable, IsUpsert}
use bep_rs.State.Monad.{Sql, BepState, get_directory}
use bep_rs.State.Folders.{get_sync_directory}
use bep_rs.State.Files.{get_sync_files, update_sync_file}
use bep_rs.State.Files.Versions.{IsVersion}
use bep_rs.State.Files.Replaced.{replaced_file, get_sync_files-update_sync_file_known}
use bep_rs.State.Files.Spawned.{update_sync_file-SpawnsNothing}
use bep_rs.State.Files.Blocks.{IsOrder, IsAscending}
use bep_rs.State.Files.Integrity.{IsIntact}
use bep_rs.State.Shared.{Call, no_database, calls}
use bep_rs.State.Shared.Readable.{calls-no_database-IsIntact}
use bep_rs.Connection.Items.{FileInfo, Counter, BlockInfo}
use bep_rs.Connection.Merge.{
  has_name, version_of, block_of, first, merge_known, merge_file, merge_files, handle_index,
}

-- The local index has the file, with fewer versions than the entry; the entry has blocks in the order of
-- their offsets, and numbers that fit into 64 bits.
pub record IsNewer (localindex : List SyncFile) (entry : FileInfo) (old : SyncFile) : Type 0 where
  pub counters : List Counter
  pub block : BlockInfo
  pub known : find? (has_name entry.name) localindex ≡ some old
  pub given : entry.version ≡ some counters
  pub more : length old.versions < length counters
  pub fit : All IsVersion (map version_of counters)
  pub modified : entry.modified_by < 2 ^ 64
  pub synced : old.synced_version < 2 ^ 64
  pub first_block : first entry.blocks ≡ some block
  pub ascending : IsAscending (map (λ (b : SyncBlock). b.offset) (map block_of entry.blocks))

-- The file with what the entry gives.
abbrev pub updated_file : SyncFile → FileInfo → List Counter → BlockInfo → SyncFile
updated_file old entry counters block = record old {
  versions = map version_of counters;
  hash = block.hash;
  blocks = map block_of entry.blocks;
  modified_by = entry.modified_by;
}

-- As it is read back: its versions are those that it had, and those of the entry past their number.
abbrev pub newer_file : SyncFile → FileInfo → List Counter → BlockInfo → SyncFile
newer_file old entry counters block =
    replaced_file (updated_file old entry counters block)
      (old.versions ++ drop (length old.versions) (map version_of counters))

some_left : {A : Type 0} (n : ℕ) (xs : List A) → n < length xs → is_empty xs ≡ false
some_left n [] h = absurd (omega arith)
some_left n (x ∷ xs) h = refl

some-first :
    (blocks : List BlockInfo) (block : BlockInfo)
    → first blocks ≡ some block
    → is_empty (map block_of blocks) ≡ false
some-first [] block h = absurd (cc h)
some-first (b ∷ blocks) block h = refl

module _ (S : Sql) (order_by_offset : List SyncFileBlock → List SyncFileBlock) (dir : SyncDirectory)
    (old : SyncFile) where
  -- What a state has after the other: the file `new` for `old`, in its directory.
  abbrev pub Replaces : SyncFile → BepState S → BepState S → Type 0
  Replaces new s s' =
      (dir_id : List ℕ)
      → (there : List SyncFile) × (get_sync_files S order_by_offset dir_id s ≡ (some there, s))
        × (get_sync_files S order_by_offset dir_id s' ≡ (
          some (
              map
                (λ (f : SyncFile). if text_eq dir.id dir_id && same_id old.id f.id then new else f)
                there),
          s',
        ))

module _ (S : Sql) (order_by_offset : List SyncFileBlock → List SyncFileBlock)
    (order : IsOrder order_by_offset) (files : IsTable FileRow sync_files_schema S.sync_files)
    (upsert : IsUpsert FileRow sync_files_schema S.sync_files)
    (versions : IsTable SyncFileVersion sync_file_versions_schema S.sync_file_versions)
    (blocks : IsTable SyncFileBlock sync_file_blocks_schema S.sync_file_blocks)
    (dir : SyncDirectory) (localindex : List SyncFile) (entry : FileInfo) (old : SyncFile) where
  merge_files_of :
      (counters : List Counter) (block : BlockInfo) (s s' : BepState S)
      → find? (has_name entry.name) localindex ≡ some old
      → entry.version ≡ some counters
      → leb (length counters) (length old.versions) ≡ false
      → first entry.blocks ≡ some block
      → update_sync_file S order_by_offset dir (updated_file old entry counters block) s
        ≡ (some tt, s')
      → merge_files S order_by_offset dir (entry ∷ []) localindex false s ≡ (some true, s')
  unfolding merge_files merge_file merge_known
  merge_files_of counters block s s' known given fewer first_block e =
      rw (known, merge_file) (rw (given, fewer, first_block, merge_known) (rw e refl))

  handle_index-Replaces :
      (conn : ℕ) (folder_id : List ℕ) (s : BepState S)
      → IsIntact S s
      → get_sync_directory S folder_id s ≡ some dir
      → get_sync_files S order_by_offset dir.id s ≡ (some localindex, s)
      → (h : IsNewer localindex entry old)
      → (s' : BepState S) × (handle_index S order_by_offset conn folder_id (entry ∷ []) s
          ≡ (some tt, record s' { spawned = s.spawned ++ get_directory conn dir ∷ [] }))
        × Replaces S order_by_offset dir old (newer_file old entry h.counters h.block) s s'
  unfolding handle_index
  handle_index-Replaces conn folder_id s intact is_dir is_index h =
      let file = updated_file old entry h.counters h.block in
      let same_length = length-map h.counters version_of in
      let more = h.more in
      let (s', e, replaces) =
        get_sync_files-update_sync_file_known S order_by_offset order files upsert versions blocks
          dir file old h.fit h.modified h.synced s (has_name entry.name) localindex intact is_index
          h.known refl (ground arith)
          (some_left (length old.versions) (map version_of h.counters) (ground arith))
          (some-first entry.blocks h.block h.first_block) h.ascending in
      let fewer : leb (length h.counters) (length old.versions) ≡ false = ground arith in
      let merged = merge_files_of h.counters h.block s s' h.known h.given fewer h.first_block e in
      let kept : s'.spawned ≡ s.spawned =
        ap (λ t. t.1.spawned) (sym e)
        ∙ update_sync_file-SpawnsNothing S order_by_offset dir file s in
      (
        s',
        rw is_dir (rw is_index (rw merged refl))
            ∙ ap
                (λ spawned.
                  (some tt, record s' { spawned = spawned ++ get_directory conn dir ∷ [] }))
                kept,
        replaces,
      )

  -- After any calls of the state from an empty database on, an index comes that names one file, which the
  -- directory has with fewer versions; the entry has blocks in the order of their offsets, and numbers
  -- that fit. It is accepted, and exactly one task is spawned, the download of
  -- the directory. Then the directory has, in
  -- the place of that file, one with the blocks, the hash of the first block and the device of the entry,
  -- under the same id, name and synced version; of its versions, those that were there stay, and the
  -- entry gives those past their number. Every other file of any directory is as it was.
  pub handle_index-IsNewer :
      (cs : List Call) (conn : ℕ) (folder_id : List ℕ) (s : BepState S)
      → calls S order_by_offset cs (no_database S) ≡ s
      → get_sync_directory S folder_id s ≡ some dir
      → get_sync_files S order_by_offset dir.id s ≡ (some localindex, s)
      → (h : IsNewer localindex entry old)
      → (s' : BepState S) × (handle_index S order_by_offset conn folder_id (entry ∷ []) s
          ≡ (some tt, record s' { spawned = s.spawned ++ get_directory conn dir ∷ [] }))
        × Replaces S order_by_offset dir old (newer_file old entry h.counters h.block) s s'
  handle_index-IsNewer cs conn folder_id s called = handle_index-Replaces conn folder_id s (
      subst (IsIntact S) called
        (calls-no_database-IsIntact S order_by_offset order files upsert versions blocks cs))
