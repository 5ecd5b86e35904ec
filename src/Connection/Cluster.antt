-- ===== src/Connection/Cluster.antt =====
-- The cluster configuration, by which two devices tell each other what they share
-- (src/peer_connection/handlers.rs): `generate_cluster_config`, and what `handle_reading` does
-- with that of the peer.
pub mod Merging
pub mod Accepting
pub mod Announced
use bep_rs.Prelude.{ℕ, Bool, true, false, Option, none, some, List, [], ◌∷◌, ◌++◌}
use bep_rs.Prelude.Int.{ℤ, pos}
use bep_rs.Sync.{SyncDirectory}
use bep_rs.State.Models.{Peer}
use bep_rs.State.Monad.{Sql, BepState, Method, pure, gets, unwrap, ◌>>=◌, ◌>>◌}
use bep_rs.State.Folders.{
  get_sync_directory, add_sync_directory, sync_directory_with_peer, new_folder,
  get_synced_directories,
}
use bep_rs.State.Peers.{get_id, get_name}
use bep_rs.Connection.Items.{ClusterConfig, Folder, Device}
use bep_rs.Connection.Serve.{find_peer}

module _ (S : Sql) (peer_id : List ℕ) where
  -- A folder that the peer offers and that is not known. It has an id and no path, so neither the
  -- file system nor a random id is asked for. A peer that is not known ends in a panic (before
  -- that, the connection is asked to close).
  unfoldable pub accept_folder : Folder → Method S (Unit {0})
  unfolding find_peer
  accept_folder folder = do
    sd ← add_sync_directory S (λ _. false) [] none folder.label (some folder.id)
    found ← gets (find_peer S peer_id)
    peer ← unwrap found
    sync_directory_with_peer S sd peer
    new_folder S sd

  unfoldable pub merge_folder : Folder → Method S (Unit {0})
  unfolding accept_folder
  merge_folder folder s = elim (get_sync_directory S folder.id s) [
    | some dir ↦ (some tt, s)
    | none ↦ accept_folder folder s
  ]

  unfoldable pub merge_folders : List Folder → Method S (Unit {0})
  unfolding merge_folder
  merge_folders [] = pure tt
  merge_folders (folder ∷ folders) = do merge_folder folder; merge_folders folders

-- The fields that are the same for every device.
abbrev pub device : List ℕ → List ℕ → Device
device id name = record {
  id = id;
  name = name;
  addresses = [];
  compression = pos 1;
  cert_name = [];
  max_sequence = pos 0;
  introducer = false;
  index_id = 0;
  skip_introduction_removals = true;
  encryption_password_token = [];
}

-- `peer.device_id.unwrap()`
unfoldable pub devices_of : List Peer → Option (List Device)
devices_of [] = some []
devices_of (peer ∷ peers) = elim peer.device_id [
  | none ↦ none
  | some id ↦ elim (devices_of peers) [
    | none ↦ none
    | some rest ↦ some (device id peer.name ∷ rest)
  ]
]

abbrev pub folder_of : SyncDirectory → List Device → Folder
folder_of dir devices = record {
  id = dir.id;
  label = dir.label;
  read_only = false;
  ignore_permissions = false;
  ignore_delete = false;
  disable_temp_indexes = true;
  paused = false;
  devices = devices;
}

unfoldable pub folders_of : Device → List (SyncDirectory × List Peer) → Option (List Folder)
unfolding devices_of
folders_of myself [] = some []
folders_of myself ((dir, peers) ∷ dirs) = elim (devices_of peers) [
  | none ↦ none
  | some devices ↦ elim (folders_of myself dirs) [
    | none ↦ none
    | some rest ↦ some (folder_of dir (devices ++ myself ∷ []) ∷ rest)
  ]
]

module _ (S : Sql) (sha256 : List ℕ → List ℕ) (peer_id : List ℕ) where
  unfoldable pub generate_cluster_config : Method S ClusterConfig
  generate_cluster_config = do
    found ← gets (find_peer S peer_id)
    peer ← unwrap found
    id ← unwrap peer.id
    my_id ← get_id S sha256
    my_name ← gets (get_name S)
    dirs ← gets (get_synced_directories S id)
    folders ← unwrap (folders_of (device my_id my_name) dirs)
    pure (record { folders = folders; secondary = false })
