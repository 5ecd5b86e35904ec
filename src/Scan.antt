-- ===== src/Scan.antt =====
-- The scan of a directory, which brings the database up to what is on the disk
-- (src/sync_directory.rs, `generate_index` and `get_index`). The disk is the same for the whole scan, and
-- a file that cannot be opened or read (a directory within the directory) has no contents.
pub mod Unchanged
pub mod Fresh
pub mod Returned
use bep_rs.Prelude.{
  ℕ, ◌+◌, ◌%◌, ◌^◌, Bool, true, false, not, ltb, ◌||◌, ◌&&◌, if◌then◌else◌, is_empty, Option, none,
  some, List, [], ◌∷◌, ◌++◌, find?, last?, text_eq, all,
}
use bep_rs.Prelude.Outcome.{Outcome, ok, err, panicked}
use bep_rs.Sync.{SyncBlock, SyncFile, SyncDirectory, comp_hashes}
use bep_rs.Sync.FilePath.{push, components}
use bep_rs.Sync.Blocks.{IoError, gen_blocks}
use bep_rs.State.Models.{SyncFileBlock}
use bep_rs.State.Monad.{Sql, BepState, Method, pure, unwrap, modify, require, ◌>>=◌, ◌>>◌}
use bep_rs.State.Folders.{directory_changed}
use bep_rs.State.Files.{get_sync_files, update_sync_file}
use bep_rs.State.Peers.{get_short_id}
use bep_rs.Connection.Merge.{replace_first}

-- The equality of paths is that of their components.
abbrev pub same_parts : List (List ℕ) → List (List ℕ) → Bool
same_parts [] [] = true
same_parts [] (q ∷ qs) = false
same_parts (p ∷ ps) [] = false
same_parts (p ∷ ps) (q ∷ qs) = text_eq p q && same_parts ps qs

unfoldable pub is_at : List ℕ → SyncFile → Bool
unfolding components
is_at file_name x = same_parts (components x.path) (components file_name)

-- `.unwrap()` of a result.
abbrev pub result {ℓ κ} : {E : Type ℓ} {A : Type κ} → Outcome E A → Option A
result (ok a) = some a
result (err e) = none
result panicked = none

-- What the scan asks of its surroundings: ORDER BY of the engine, SHA-256, the names that the file
-- system lists in a directory, and the contents of a file.
pub record Surroundings : Type 0 where
  pub order_by_offset : List SyncFileBlock → List SyncFileBlock
  pub sha256 : List ℕ → List ℕ
  pub read_dir : List ℕ → Option (List (List ℕ))
  pub disk : List ℕ → Option (List ℕ)

module _ (S : Sql) (env : Surroundings) (dir : SyncDirectory) (path : List ℕ) (short_id : ℕ) where
  -- A file of another hash than the index has, with the version that the index has of it. The sum is
  -- that of a release build; a debug build panics past 2 ^ 64.
  unfoldable pub scan_changed : List ℕ → List ℕ → ℕ → SyncFile → Method S (SyncFile × Bool)
  scan_changed file_name hash latest index_file = do
    let vnumber = (latest + 1) % 2 ^ 64
    blocks ← unwrap (result (gen_blocks env.sha256 env.disk (push path file_name) dir))
    let updated : SyncFile = record index_file {
      synced_version = vnumber;
      versions = index_file.versions ++ (short_id, vnumber) ∷ [];
      hash = hash;
      blocks = blocks;
    }
    update_sync_file S env.order_by_offset dir updated
    pure (updated, true)

  -- A file that is in the index: the file as it is then, and whether it has changed.
  unfoldable pub scan_known : List ℕ → List ℕ → SyncFile → Method S (SyncFile × Bool)
  unfolding scan_changed
  scan_known file_name hash index_file = do
    (author, latest) ← unwrap (last? index_file.versions)
    if ltb index_file.synced_version latest
        then pure (index_file, false)
        else if comp_hashes hash index_file.hash
        then pure (index_file, false)
        else scan_changed file_name hash latest index_file

  unfoldable pub scan_new : List ℕ → List ℕ → Method S (SyncFile × Bool)
  scan_new file_name hash = do
    blocks ← unwrap (result (gen_blocks env.sha256 env.disk file_name dir))
    let new : SyncFile = record {
      id = none;
      path = file_name;
      hash = hash;
      modified_by = short_id;
      synced_version = 0;
      versions = (short_id, 0) ∷ [];
      blocks = blocks;
    }
    update_sync_file S env.order_by_offset dir new
    pure (new, true)

  unfoldable pub scan_file : List ℕ → List SyncFile → Method S (SyncFile × Bool)
  unfolding scan_known scan_new is_at
  scan_file file_name sync_files = do
    bytes ← unwrap (env.disk (push path file_name))
    elim (find? (is_at file_name) sync_files) [
      | some index_file ↦ scan_known file_name (env.sha256 bytes) index_file
      | none ↦ scan_new file_name (env.sha256 bytes)
    ]

  -- The loop. An entry of the index is mutated where it stands.
  unfoldable pub scan_files : List (List ℕ) → List SyncFile → Bool → Method S (List SyncFile × Bool)
  unfolding scan_file replace_first
  scan_files [] sync_files changed = pure ([], changed)
  scan_files (file_name ∷ names) sync_files changed = do
    (file, is_changed) ← scan_file file_name sync_files
    (files, any_changed) ←
        scan_files names (replace_first (is_at file_name) file sync_files) (changed || is_changed)
    pure (file ∷ files, any_changed)

module _ (S : Sql) (env : Surroundings) where
  unfoldable pub generate_index : SyncDirectory → Method S (List SyncFile)
  unfolding scan_files
  generate_index dir = do
    short_id ← get_short_id S env.sha256
    sync_files ← get_sync_files S env.order_by_offset dir.id
    path ← unwrap dir.path
    names ← unwrap (env.read_dir path)
    (out_files, changed) ← scan_files S env dir path short_id names sync_files false
    require (all (λ (file : SyncFile). not (is_empty file.versions)) out_files)
    if changed then directory_changed S dir else pure tt
    pure out_files

  unfoldable pub get_index : SyncDirectory → Method S (List SyncFile)
  get_index dir = get_sync_files S env.order_by_offset dir.id
