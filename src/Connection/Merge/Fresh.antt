-- ===== src/Connection/Merge/Fresh.antt =====
-- What `handle_index` of src/peer_connection/handlers.rs takes over: files that the directory does not
-- have.
use bep_rs.Prelude.{
  ℕ, ◌^◌, ◌<◌, ◌≡◌, refl, sym, ap, ◌∙◌, subst, Bool, true, false, ◌||◌, not, if◌then◌else◌,
  is_empty, none, some, List, [], ◌∷◌, ◌++◌, append_assoc, append-nil, map, find?, text_eq, All,
  arith,
}
use mathlib.Core.Option.{some-injective}
use bep_rs.Sync.{SyncBlock, SyncFile, SyncDirectory}
use bep_rs.State.Models.{
  FileRow, SyncFileVersion, SyncFileBlock, sync_files_schema, sync_file_versions_schema,
  sync_file_blocks_schema,
}
use bep_rs.State.Table.{IsTable, IsUpsert}
use bep_rs.State.Monad.{Sql, BepState, get_directory}
use bep_rs.State.Folders.{get_sync_directory}
use bep_rs.State.Files.{get_sync_files}
use bep_rs.State.Files.Versions.{IsVersion}
use bep_rs.State.Files.Read.{get_sync_files-row_file}
use bep_rs.State.Files.Stored.{stored_file, get_sync_files-update_sync_file}
use bep_rs.State.Files.Spawned.{update_sync_file-SpawnsNothing}
use bep_rs.State.Files.Blocks.{IsOrder, IsAscending}
use bep_rs.State.Files.Integrity.{IsIntact, update_sync_file-IsIntact}
use bep_rs.State.Shared.{Call, no_database, calls}
use bep_rs.State.Shared.Readable.{calls-no_database-IsIntact}
use bep_rs.Connection.Items.{FileInfo, Counter, BlockInfo}
use bep_rs.Connection.Merge.{
  has_name, version_of, block_of, first, merge_new, merge_file, merge_files, handle_index,
}

-- An entry as a file that is not in the database yet.
abbrev pub file_of : FileInfo → List Counter → BlockInfo → SyncFile
file_of entry counters block = record {
  id = none;
  path = entry.name;
  hash = block.hash;
  modified_by = entry.modified_by;
  synced_version = 0;
  versions = map version_of counters;
  blocks = map block_of entry.blocks;
}

-- The local index does not have the file, and the entry has a version and blocks in the order of their
-- offsets, with numbers that fit into 64 bits.
pub record IsNew (localindex : List SyncFile) (entry : FileInfo) : Type 0 where
  pub counters : List Counter
  pub block : BlockInfo
  pub unknown : find? (has_name entry.name) localindex ≡ none
  pub given : entry.version ≡ some counters
  pub some_version : is_empty (map version_of counters) ≡ false
  pub fit : All IsVersion (map version_of counters)
  pub modified : entry.modified_by < 2 ^ 64
  pub first_block : first entry.blocks ≡ some block
  pub some_block : is_empty (map block_of entry.blocks) ≡ false
  pub ascending : IsAscending (map (λ (b : SyncBlock). b.offset) (map block_of entry.blocks))

-- The files are those of the entries, in their order, each under an id of its own row.
abbrev pub AreOf : List FileInfo → List SyncFile → Type 0
AreOf [] [] = Unit
AreOf [] (file ∷ files) = ⊥
AreOf (entry ∷ entries) [] = ⊥
AreOf (entry ∷ entries) (file ∷ files) =
    ((n : ℕ) × (counters : List Counter) × (block : BlockInfo) × (entry.version ≡ some counters)
      × (first entry.blocks ≡ some block)
      × (file ≡ stored_file (file_of entry counters block) n))
    × AreOf entries files

if_append {ℓ} :
    {A : Type ℓ} (c : Bool) (xs ys zs : List A)
    → (xs ++ (if c then ys else [])) ++ (if c then zs else []) ≡ xs ++ (if c then ys ++ zs else [])
if_append true xs ys zs = append_assoc xs ys zs
if_append false xs ys zs = append-nil (xs ++ [])

nothing_added {ℓ} : {A : Type ℓ} (c : Bool) (xs : List A) → xs ≡ xs ++ (if c then [] else [])
nothing_added true xs = sym (append-nil xs)
nothing_added false xs = sym (append-nil xs)

or_false : (b : Bool) → (b || false) ≡ b
or_false true = refl
or_false false = refl

or_not_empty : (changed b : Bool) → ((changed || true) || b) ≡ (changed || true)
or_not_empty true b = refl
or_not_empty false b = refl

module _ (S : Sql) (order_by_offset : List SyncFileBlock → List SyncFileBlock)
    (dir : SyncDirectory) where
  -- The directory has these files besides those that it had, and every other directory those it had.
  abbrev pub Adds : List SyncFile → BepState S → BepState S → Type 0
  Adds added s s' =
      (dir_id : List ℕ)
      → (found : List SyncFile) × (get_sync_files S order_by_offset dir_id s ≡ (some found, s))
        × (get_sync_files S order_by_offset dir_id s'
            ≡ (some (found ++ (if text_eq dir.id dir_id then added else [])), s'))

  Adds-trans :
      (xs ys : List SyncFile) (s s1 s2 : BepState S)
      → Adds xs s s1
      → Adds ys s1 s2
      → Adds (xs ++ ys) s s2
  Adds-trans xs ys s s1 s2 first_adds then_adds dir_id =
      let (found, before, between) = first_adds dir_id in
      let (found', between', after) = then_adds dir_id in
      let c = text_eq dir.id dir_id in
      let same : found' ≡ found ++ (if c then xs else []) =
        some-injective _ _ (ap (λ r. r.0) (sym between' ∙ between)) in
      (
        found,
        before,
        after
            ∙ ap (λ t. (some t, s2))
                (ap (λ t. t ++ (if c then ys else [])) same ∙ if_append c found xs ys),
      )

module _ (S : Sql) (order_by_offset : List SyncFileBlock → List SyncFileBlock)
    (order : IsOrder order_by_offset) (files : IsTable FileRow sync_files_schema S.sync_files)
    (upsert : IsUpsert FileRow sync_files_schema S.sync_files)
    (versions : IsTable SyncFileVersion sync_file_versions_schema S.sync_file_versions)
    (blocks : IsTable SyncFileBlock sync_file_blocks_schema S.sync_file_blocks)
    (dir : SyncDirectory) (localindex : List SyncFile) where
  merge_file-IsNew :
      (entry : FileInfo) (s : BepState S)
      → IsIntact S s
      → (h : IsNew localindex entry)
      → (n : ℕ) × (s' : BepState S) × (merge_file S order_by_offset dir entry localindex s
          ≡ (some (localindex, true), s'))
        × IsIntact S s'
        × (s'.spawned ≡ s.spawned)
        × Adds S order_by_offset dir (stored_file (file_of entry h.counters h.block) n ∷ []) s s'
  unfolding merge_file merge_new
  merge_file-IsNew entry s intact h =
      let file = file_of entry h.counters h.block in
      let (n, s', updated, adds) =
        get_sync_files-update_sync_file S order_by_offset order files upsert versions blocks dir
          file h.fit h.modified (omega arith) s intact refl h.some_version h.some_block
          h.ascending in
      let intact' : IsIntact S s' =
        subst (λ t. IsIntact S t) (ap (λ t. t.1) updated)
          (update_sync_file-IsIntact S order_by_offset order files upsert versions blocks dir file s
            intact) in
      (
        n,
        s',
        rw (h.unknown, merge_file) (rw (h.first_block, h.given, merge_new) (rw updated refl)),
        intact',
        ap (λ t. t.1.spawned) (sym updated)
            ∙ update_sync_file-SpawnsNothing S order_by_offset dir file s,
        adds,
      )

  Adds-none : (s : BepState S) → IsIntact S s → Adds S order_by_offset dir [] s s
  Adds-none s intact dir_id = (
    _,
    get_sync_files-row_file S order_by_offset dir_id s intact,
    get_sync_files-row_file S order_by_offset dir_id s intact
        ∙ ap (λ t. (some t, s)) (nothing_added (text_eq dir.id dir_id) _),
  )

  merge_files-IsNew :
      (entries : List FileInfo) (changed : Bool) (s : BepState S)
      → IsIntact S s
      → All (IsNew localindex) entries
      → (added : List SyncFile) × (s' : BepState S) × (merge_files S order_by_offset dir entries
            localindex changed s
          ≡ (some (changed || not (is_empty entries)), s'))
        × (s'.spawned ≡ s.spawned)
        × AreOf entries added
        × Adds S order_by_offset dir added s s'
  unfolding merge_files
  merge_files-IsNew [] changed s intact all =
      ([], s, rw (or_false changed) refl, refl, tt, Adds-none s intact)
  merge_files-IsNew (entry ∷ entries) changed s intact (h, all) =
      let (n, s1, merged, intact1, kept, adds) = merge_file-IsNew entry s intact h in
      let (added, s', rest, kept', those, adds') =
        merge_files-IsNew entries (changed || true) s1 intact1 all in
      let file = stored_file (file_of entry h.counters h.block) n in
      (
        file ∷ added,
        s',
        rw (merged, merge_files)
            (rest ∙ ap (λ b. (some b, s')) (or_not_empty changed (not (is_empty entries)))),
        kept' ∙ kept,
        ((n, h.counters, h.block, h.given, h.first_block, refl), those),
        Adds-trans S order_by_offset dir (file ∷ []) added s s1 s' adds adds',
      )

  handle_index-merged :
      (conn : ℕ) (folder_id : List ℕ) (entry : FileInfo) (entries : List FileInfo) (s : BepState S)
      → IsIntact S s
      → get_sync_directory S folder_id s ≡ some dir
      → get_sync_files S order_by_offset dir.id s ≡ (some localindex, s)
      → All (IsNew localindex) (entry ∷ entries)
      → (added : List SyncFile) × (s' : BepState S) × (handle_index S order_by_offset conn folder_id
            (entry ∷ entries)
            s
          ≡ (some tt, record s' { spawned = s.spawned ++ get_directory conn dir ∷ [] }))
        × AreOf (entry ∷ entries) added
        × Adds S order_by_offset dir added s s'
  unfolding handle_index
  handle_index-merged conn folder_id entry entries s intact is_dir is_index all =
      let (added, s', merged, kept, those, adds) =
        merge_files-IsNew (entry ∷ entries) false s intact all in
      (
        added,
        s',
        rw is_dir (rw is_index (rw merged refl))
            ∙ ap
                (λ spawned.
                  (some tt, record s' { spawned = spawned ++ get_directory conn dir ∷ [] }))
                kept,
        those,
        adds,
      )

  -- After any calls of the state from an empty database on, an index comes that names only files that the
  -- directory does not have, at least one, each with a version, with blocks in the order of their offsets,
  -- and with numbers that fit. It is accepted, and exactly one task is spawned, the download of the
  -- directory. Then the directory has, besides the files that it had, those of the index in their order,
  -- with the versions, the blocks and the hash of the first block that the peer gave, and 0 for the
  -- synced version; every other directory has the files that it had.
  pub handle_index-IsNew :
      (cs : List Call) (conn : ℕ) (folder_id : List ℕ) (entry : FileInfo) (entries : List FileInfo)
      (s : BepState S)
      → calls S order_by_offset cs (no_database S) ≡ s
      → get_sync_directory S folder_id s ≡ some dir
      → get_sync_files S order_by_offset dir.id s ≡ (some localindex, s)
      → All (IsNew localindex) (entry ∷ entries)
      → (added : List SyncFile) × (s' : BepState S) × (handle_index S order_by_offset conn folder_id
            (entry ∷ entries)
            s
          ≡ (some tt, record s' { spawned = s.spawned ++ get_directory conn dir ∷ [] }))
        × AreOf (entry ∷ entries) added
        × Adds S order_by_offset dir added s s'
  handle_index-IsNew cs conn folder_id entry entries s called =
      handle_index-merged conn folder_id entry entries s (
        subst (IsIntact S) called
          (calls-no_database-IsIntact S order_by_offset order files upsert versions blocks cs))
