-- ===== src/Tests/Database.antt =====
-- The state over tables in memory.
use bep_rs.Prelude.{ℕ, ◌≡◌, refl, true, if◌then◌else◌, none, some, List, [], ◌∷◌, codes, text_eq}
use bep_rs.Prelude.Int.{as_u64, pos}
use bep_rs.Sync.{SyncBlock, SyncFile, SyncDirectory}
use bep_rs.State.Models.{
  SyncFolder, Peer, SyncFileBlock, device_options_schema, sync_folders_schema, peers_schema,
  folder_shares_schema, peer_addresses_schema, sync_files_schema, sync_file_versions_schema,
  sync_file_blocks_schema,
}
use bep_rs.State.Table.Memory.{memory_table, memory_table-IsTable}
use bep_rs.State.Monad.{Sql, BepState}
use bep_rs.State.Folders.{
  model_to_sync_dir, get_sync_directory, remove_sync_directory, add_sync_directory,
  is_directory_synced,
}
use bep_rs.State.Folders.Laws.{
  is_directory_synced-remove_sync_directory, add_sync_directory-get_sync_directory,
}
use bep_rs.State.Files.{
  get_versions, get_sync_files, files_of_rows, file_of_row, row_version, row_block, from_i64,
  get_blocks,
}
use bep_rs.State.Files.Blocks.{IsOrder}

abbrev pub sql : Sql
sql = record {
  device_options = memory_table device_options_schema;
  sync_folders = memory_table sync_folders_schema;
  peers = memory_table peers_schema;
  folder_shares = memory_table folder_shares_schema;
  peer_addresses = memory_table peer_addresses_schema;
  sync_files = memory_table sync_files_schema;
  sync_file_versions = memory_table sync_file_versions_schema;
  sync_file_blocks = memory_table sync_file_blocks_schema;
}

abbrev pub photos : SyncFolder
photos = record { id = codes "photos"; label = codes "Photos"; dir_path = some (codes "/p") }

abbrev pub laptop : Peer
laptop = record { id = some 1; device_id = some (1 ∷ 2 ∷ 3 ∷ []); name = codes "laptop" }

abbrev old_block : SyncFileBlock
old_block = record {
  id = some 1;
  sync_file_id = 4;
  offset = pos 0;
  size = pos 9;
  hash = [];
  weak_hash = pos 0;
}

-- One directory, shared with one peer; a file has one version and one block.
abbrev pub before : BepState sql
before = record {
  device_options = [];
  sync_folders = photos ∷ [];
  peers = laptop ∷ [];
  folder_shares = (record { id = some 1; sync_folder_id = codes "photos"; peer_id = 1 }) ∷ [];
  peer_addresses = [];
  sync_files = [];
  sync_file_versions =
      (record { id = some 1; version_id = pos 1; user_id = pos 5; sync_file_id = 4 }) ∷ [];
  sync_file_blocks = old_block ∷ [];
  new_folder_handler = none;
  peer_connections = [];
  spawned = [];
}

abbrev pub photos_dir : SyncDirectory
photos_dir = record { id = codes "photos"; label = codes "Photos"; path = some (codes "/p") }

abbrev pub in_order : List SyncFileBlock → List SyncFileBlock
in_order rows = rows

pub in_order-IsOrder : IsOrder in_order
in_order-IsOrder = record { in_order = λ rows h. refl }

abbrev music : SyncFolder
music = record { id = codes "music"; label = codes "Music"; dir_path = none }

add_sync_directory-get_sync_directory_example :
    (s' : BepState sql) × (add_sync_directory sql
        (λ p. true)
        (codes "rnd")
        none
        (codes "Music")
        (some (codes "music"))
        before
      ≡ (some (model_to_sync_dir music), s'))
    × ((j : List ℕ)
        → get_sync_directory sql j s' ≡ (
            if text_eq music.id j
            then some (model_to_sync_dir music)
            else get_sync_directory sql j before))
unfolding text_eq
add_sync_directory-get_sync_directory_example =
    add_sync_directory-get_sync_directory sql (memory_table-IsTable sync_folders_schema) (λ p. true)
      (codes "rnd") none (codes "Music") (some (codes "music")) before refl refl refl

-- The directory is added again, under the id of the one that was removed.
is_directory_synced-remove_sync_directory_example :
    is_directory_synced sql
      (codes "photos")
      1
      (add_sync_directory sql
        (λ p. true)
        (codes "rnd")
        none
        (codes "New")
        (some (codes "photos"))
        (remove_sync_directory sql (codes "photos") before).1).1
    ≡ true
unfolding is_directory_synced text_eq
is_directory_synced-remove_sync_directory_example =
    is_directory_synced-remove_sync_directory sql (λ p. true) (codes "rnd") none (codes "New")
      (some (codes "photos")) (codes "photos") (codes "photos") 1 before

abbrev pub phone : Peer
phone = record { id = some 2; device_id = none; name = codes "phone" }

abbrev pub new_blocks : List SyncBlock
new_blocks =
    (record { offset = pos 0; size = pos 8; hash = 1 ∷ [] })
    ∷ (record { offset = pos 8; size = pos 3; hash = 2 ∷ [] })
    ∷ []

abbrev pub notes : SyncFile
notes = record {
  id = some 4;
  path = codes "notes";
  hash = 3 ∷ [];
  modified_by = 5;
  synced_version = 1;
  versions = (5, 1) ∷ [];
  blocks = (record { offset = pos 0; size = pos 9; hash = [] }) ∷ [];
}

abbrev pub with_file : BepState sql
with_file = record before {
  sync_files =
      (record {
        id = some 4;
        name = codes "notes";
        modified_by = pos 5;
        sequence = pos 0;
        synced_version_id = pos 1;
        hash = some (3 ∷ []);
        folder_id = codes "photos";
      })
      ∷ [];
}

pub with_file_index :
    get_sync_files sql in_order (codes "photos") with_file ≡ (some (notes ∷ []), with_file)
unfolding get_sync_files files_of_rows file_of_row get_versions get_blocks row_version row_block
    from_i64 as_u64 text_eq
with_file_index = refl
