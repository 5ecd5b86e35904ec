-- ===== src/State/Folders.antt =====
-- Directories and the peers they are shared with (src/bep_state.rs).
pub mod Laws
pub mod Sharing
use bep_rs.Prelude.{
  ℕ, ◌==◌, ◌&&◌, ◌||◌, not, Bool, true, false, if◌then◌else◌, is_empty, Option, none, some, List,
  [], ◌∷◌, ◌++◌, map, keep, find?, text_eq, any,
}
use mathlib.Core.List
use bep_rs.Sync.{SyncDirectory}
use bep_rs.State.Models.{SyncFolder, Peer, FolderShare, same_id}
use bep_rs.State.Table.{Table}
use bep_rs.State.Monad.{
  Sql, BepState, Method, Spawned, get_directory, directory_updated, call_handler, pure, panic, gets,
  unwrap, modify, require, ◌>>=◌, ◌>>◌,
}

unfoldable pub model_to_sync_dir : SyncFolder → SyncDirectory
model_to_sync_dir folder = record { id = folder.id; label = folder.label; path = folder.dir_path }

abbrev pub is_some {ℓ} : {A : Type ℓ} → Option A → Bool
is_some none = false
is_some (some a) = true

-- A path that is given must exist.
abbrev pub is_usable : (List ℕ → Bool) → Option (List ℕ) → Bool
is_usable exists none = true
is_usable exists (some path) = exists path

-- `unwrap_or_else`
abbrev pub id_or : List ℕ → Option (List ℕ) → List ℕ
id_or random_id none = random_id
id_or random_id (some id) = id

module _ (S : Sql) where
  -- `load` fails only on a broken database, which is not modelled.
  unfoldable pub get_sync_directories : BepState S → List SyncDirectory
  unfolding model_to_sync_dir
  get_sync_directories s = map model_to_sync_dir (S.sync_folders.select s.sync_folders)

  unfoldable pub get_sync_directory : List ℕ → BepState S → Option SyncDirectory
  get_sync_directory folder_id s = find? (λ dir. text_eq dir.id folder_id) (get_sync_directories s)

  -- The peers joined with their shares of a folder that exists, one row for each share. SQL
  -- leaves the order of a join open; here it goes by peers first.
  unfoldable pub get_directory_peers : List ℕ → BepState S → List Peer
  get_directory_peers directory s =
      List.flat_map
        (λ (p : Peer).
          List.flat_map
            (λ (f : FolderShare).
              map (λ _. p)
                (keep (λ (d : SyncFolder). text_eq d.id f.sync_folder_id && text_eq d.id directory)
                  (S.sync_folders.select s.sync_folders)))
            (keep (λ (f : FolderShare). same_id p.id (some f.peer_id))
              (S.folder_shares.select s.folder_shares)))
        (S.peers.select s.peers)

  unfoldable pub get_synced_directories : ℕ → BepState S → List (SyncDirectory × List Peer)
  unfolding model_to_sync_dir
  get_synced_directories peer_id s =
      List.flat_map
        (λ (p : Peer).
          List.flat_map
            (λ (f : FolderShare).
              map (λ (d : SyncFolder). (model_to_sync_dir d, get_directory_peers d.id s))
                (keep (λ (d : SyncFolder). text_eq d.id f.sync_folder_id)
                  (S.sync_folders.select s.sync_folders)))
            (keep (λ (f : FolderShare). same_id p.id (some f.peer_id))
              (S.folder_shares.select s.folder_shares)))
        (keep (λ (p : Peer). same_id p.id (some peer_id)) (S.peers.select s.peers))

  abbrev spawn_each : (ℕ → Spawned) → List ℕ → List Spawned
  spawn_each f conns = map f conns

  unfoldable pub set_sync_directory_path : SyncDirectory → Option (List ℕ) → Method S (Unit {0})
  set_sync_directory_path dir path = do
    table ← gets (λ s.
        S.sync_folders.update (λ r. text_eq r.id dir.id) (λ r. record r { dir_path = path })
          s.sync_folders)
    rows ← unwrap table
    modify (λ s. record s { sync_folders = rows })
    if is_some path
        then modify (λ s. record s {
          spawned =
              s.spawned
              ++ spawn_each (λ conn. get_directory conn (record dir { path = path }))
                  s.peer_connections;
        })
        else pure tt

  -- `remove_sync_directory`: the row of the folder goes, and nothing else.
  unfoldable pub remove_sync_directory : List ℕ → Method S (Unit {0})
  remove_sync_directory to_remove = modify (λ s. record s {
    sync_folders = S.sync_folders.delete (λ r. text_eq r.id to_remove) s.sync_folders;
  })

  -- The insertion, and the lookup of what was inserted.
  unfoldable pub store_folder : SyncFolder → Method S SyncDirectory
  store_folder new_dir = do
    inserted ← gets (λ s. S.sync_folders.insert new_dir s.sync_folders)
    (stored, rows) ← unwrap inserted
    modify (λ s. record s { sync_folders = rows })
    found ← gets (get_sync_directory new_dir.id)
    unwrap found

  -- `exists` is the file system's answer for a path, and `random_id` the alphanumeric text of 12
  -- characters that the crate rand gives where there is no id.
  unfoldable pub add_sync_directory :
      (List ℕ → Bool) → List ℕ → Option (List ℕ) → List ℕ → Option (List ℕ) → Method S SyncDirectory
  unfolding store_folder
  add_sync_directory exists random_id path label id = do
    require (is_some path || is_some id)
    require (is_usable exists path)
    store_folder (record { id = id_or random_id id; label = label; dir_path = path })

  unfoldable pub sync_directory_with_peer : SyncDirectory → Peer → Method S (Unit {0})
  sync_directory_with_peer directory peer = do
    s ← gets (λ s.
        keep (λ (r : SyncFolder). text_eq r.id directory.id) (S.sync_folders.select s.sync_folders))
    require (not (is_empty s))
    peer_id ← unwrap peer.id
    inserted ← gets (λ s.
        S.folder_shares.insert
          (record { id = none; sync_folder_id = directory.id; peer_id = peer_id }) s.folder_shares)
    (stored, rows) ← unwrap inserted
    modify (λ s. record s { folder_shares = rows })

  unfoldable pub is_directory_synced : List ℕ → ℕ → BepState S → Bool
  is_directory_synced directory peer s = not (
      is_empty (
        keep (λ (f : FolderShare). f.peer_id == peer)
          (keep (λ (f : FolderShare). text_eq f.sync_folder_id directory)
            (S.folder_shares.select s.folder_shares))))

  unfoldable pub new_folder : SyncDirectory → Method S (Unit {0})
  new_folder directory = modify (λ s. elim s.new_folder_handler [
    | none ↦ s
    | some handler ↦ record s { spawned = s.spawned ++ call_handler handler directory ∷ [] }
  ])

  unfoldable pub set_new_folder_handler : Option ℕ → Method S (Unit {0})
  set_new_folder_handler handler = modify (λ s. record s { new_folder_handler = handler })

  unfoldable pub add_peer_connection : ℕ → Method S (Unit {0})
  add_peer_connection conn =
      modify (λ s. record s { peer_connections = s.peer_connections ++ conn ∷ [] })

  unfoldable pub directory_changed : SyncDirectory → Method S (Unit {0})
  directory_changed dir = modify (λ s. record s {
    spawned = s.spawned ++ spawn_each (λ conn. directory_updated conn dir) s.peer_connections;
  })
