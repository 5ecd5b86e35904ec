-- ===== src/Tests/Shared.antt =====
-- Calls of the state, and cluster configurations.
use bep_rs.Prelude.{
  ℕ, ◌++◌, if◌then◌else◌, arith, ◌≡◌, refl, true, false, ◌==◌, ◌||◌, none, some, List, [], ◌∷◌,
  codes, all, text_eq,
}
use bep_rs.Sync.{SyncFile}
use bep_rs.State.Models.{
  DeviceOption, sync_folders_schema, folder_shares_schema, sync_files_schema,
  sync_file_versions_schema, sync_file_blocks_schema,
}
use bep_rs.State.Table.Memory.{memory_table-IsTable, memory_table-IsUpsert}
use bep_rs.State.Monad.{BepState}
use bep_rs.State.Folders.{
  get_sync_directories, model_to_sync_dir, get_sync_directory, get_synced_directories,
  get_directory_peers, is_directory_synced,
}
use bep_rs.State.Files.{get_sync_files, update_sync_file}
use bep_rs.State.Shared.{Call, no_database, calls}
use bep_rs.State.Shared.Readable.{get_sync_files-calls, get_sync_files-update_sync_file_call}
use bep_rs.State.Files.Stored.{stored_file}
use mathlib.Core.List
use bep_rs.State.Peers.{get_id, get_name}
use bep_rs.Connection.Items.{Folder, ClusterConfig}
use bep_rs.Connection.Serve.{find_peer}
use bep_rs.Connection.Cluster.{
  merge_folder, merge_folders, generate_cluster_config, folders_of, folder_of, device,
}
use bep_rs.Connection.Cluster.Merging.{Keeps, merge_folders-Keeps}
use bep_rs.Connection.Cluster.Accepting.{merge_folder_accepts}
use bep_rs.Connection.Cluster.Announced.{generate_cluster_config-IsShared}
use bep_rs.Tests.Database.{sql, before, photos_dir, laptop, in_order, in_order-IsOrder, notes}
use bep_rs.Tests.Requests.{is_peer}

-- The second call panics: its file has no version.
abbrev history : List Call
history =
    Call.new_call (1 ∷ []) (2 ∷ [])
    ∷ Call.update_sync_file_call photos_dir (record notes { versions = [] })
    ∷ Call.update_sync_file_call photos_dir notes
    ∷ Call.set_name_call (codes "home")
    ∷ []

get_sync_files-calls_example :
    (found : List SyncFile) × (get_sync_files sql in_order
        (codes "photos")
        (calls sql in_order history (no_database sql))
      ≡ (some found, calls sql in_order history (no_database sql)))
get_sync_files-calls_example =
    get_sync_files-calls sql in_order in_order-IsOrder (memory_table-IsTable sync_files_schema)
      (memory_table-IsUpsert sync_files_schema) (memory_table-IsTable sync_file_versions_schema)
      (memory_table-IsTable sync_file_blocks_schema) history (codes "photos")

abbrev offered : List ℕ → Folder
offered id = folder_of (record { id = id; label = codes "Theirs"; path = none }) []

found_photos : get_sync_directory sql (codes "photos") before ≡ some photos_dir
unfolding get_sync_directory get_sync_directories model_to_sync_dir text_eq
found_photos = refl

no_music : get_sync_directory sql (codes "music") before ≡ none
unfolding get_sync_directory get_sync_directories model_to_sync_dir text_eq
no_music = refl

merge_folders-Keeps_example :
    Keeps sql
      (codes "photos")
      before
      (merge_folders sql
        (1 ∷ 2 ∷ 3 ∷ [])
        (offered (codes "photos") ∷ offered (codes "music") ∷ [])
        before).1
merge_folders-Keeps_example =
    merge_folders-Keeps sql (memory_table-IsTable sync_folders_schema)
      (memory_table-IsTable folder_shares_schema) (1 ∷ 2 ∷ 3 ∷ []) (codes "photos")
      (offered (codes "photos") ∷ offered (codes "music") ∷ []) photos_dir before found_photos

merge_folder_accepts_example :
    (s' : BepState sql) × (merge_folder sql (1 ∷ 2 ∷ 3 ∷ []) (offered (codes "music")) before
      ≡ (some tt, s'))
    × (get_sync_directory sql (codes "music") s'
        ≡ some (record { id = codes "music"; label = codes "Theirs"; path = none }))
    × ((q : ℕ)
        → is_directory_synced sql (codes "music") q s'
          ≡ ((1 == q) || is_directory_synced sql (codes "music") q before))
merge_folder_accepts_example =
    merge_folder_accepts sql (memory_table-IsTable sync_folders_schema)
      (memory_table-IsTable folder_shares_schema) (1 ∷ 2 ∷ 3 ∷ []) (offered (codes "music")) laptop
      1 before no_music is_peer refl

abbrev pub me : DeviceOption
me = record { id = some 1; device_name = codes "home"; cert = 1 ∷ []; key = [] }

abbrev pub thirty_two : List ℕ → List ℕ
thirty_two bytes = codes "01234567890123456789012345678901"

abbrev pub with_me : BepState sql
with_me = record before { device_options = me ∷ [] }

abbrev config : ClusterConfig
config = record {
  folders =
      folder_of photos_dir
        (device (1 ∷ 2 ∷ 3 ∷ []) (codes "laptop") ∷ device (thirty_two []) (codes "home") ∷ [])
      ∷ [];
  secondary = false;
}

with_me_peer : find_peer sql (1 ∷ 2 ∷ 3 ∷ []) with_me ≡ some laptop
unfolding find_peer text_eq
with_me_peer = refl

config_made :
    generate_cluster_config sql thirty_two (1 ∷ 2 ∷ 3 ∷ []) with_me ≡ (some config, with_me)
unfolding generate_cluster_config find_peer text_eq get_id folders_of get_synced_directories
    List.flat_map get_directory_peers get_name
config_made = refl

generate_cluster_config-IsShared_example :
    all (λ (f : Folder). is_directory_synced sql f.id 1 with_me) config.folders ≡ true
generate_cluster_config-IsShared_example =
    generate_cluster_config-IsShared sql thirty_two (1 ∷ 2 ∷ 3 ∷ []) laptop 1 config with_me with_me
      with_me_peer refl config_made

abbrev fresh_notes : SyncFile
fresh_notes = record notes { id = none }

get_sync_files-update_sync_file_call_example :
    let s = calls sql in_order history (no_database sql) in
    (n : ℕ) × (s' : BepState sql) × (update_sync_file sql in_order photos_dir fresh_notes s
      ≡ (some tt, s'))
    × ((dir_id : List ℕ)
        → (found : List SyncFile) × (get_sync_files sql in_order dir_id s ≡ (some found, s))
          × (get_sync_files sql in_order dir_id s' ≡ (
            some (
                found
                ++ (if text_eq (codes "photos") dir_id
                    then stored_file fresh_notes n ∷ []
                    else [])),
            s',
          )))
get_sync_files-update_sync_file_call_example =
    get_sync_files-update_sync_file_call sql in_order in_order-IsOrder
      (memory_table-IsTable sync_files_schema) (memory_table-IsUpsert sync_files_schema)
      (memory_table-IsTable sync_file_versions_schema)
      (memory_table-IsTable sync_file_blocks_schema) history photos_dir fresh_notes refl refl
      ((omega arith, omega arith), tt) (omega arith) (omega arith) refl tt
