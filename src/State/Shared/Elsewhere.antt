-- ===== src/State/Shared/Elsewhere.antt =====
-- The methods that leave the files alone, whether they return or panic.
use bep_rs.Prelude.{
  ℕ, ◌≡◌, refl, Bool, ◌||◌, ◌==◌, not, is_empty, Option, none, some, List, [], codes, text_eq,
  length, keep, Option-cases, Bool-cases, inl, inr,
}
use bep_rs.Sync.{SyncDirectory}
use bep_rs.State.Models.{Peer, SyncFolder}
use bep_rs.State.Monad.{Sql, BepState}
use bep_rs.State.Folders
use bep_rs.State.Peers
use bep_rs.State.Shared.{open_database}

abbrev pub SameFiles : (S : Sql) → BepState S → BepState S → Type 0
SameFiles S s s' =
    (s'.sync_files ≡ s.sync_files)
    × (s'.sync_file_versions ≡ s.sync_file_versions)
    × (s'.sync_file_blocks ≡ s.sync_file_blocks)

module _ (S : Sql) where
  same : (s : BepState S) → SameFiles S s s
  same s = (refl, refl, refl)

  pub add_address-SameFiles :
      (peer : Peer) (addr : List ℕ) (s : BepState S)
      → SameFiles S s (Peers.add_address S peer addr s).1
  unfolding Peers.add_address
  add_address-SameFiles peer addr s =
      elim (Option-cases (
        S.peer_addresses.insert (record { id = none; address = addr; peer_id = peer.id })
          s.peer_addresses)) [
            | inl refused ↦ rw refused (same s)
            | inr ((stored, rows), h) ↦ rw h (same s)
          ]

  pub add_peer-SameFiles :
      (name id : List ℕ) (s : BepState S) → SameFiles S s (Peers.add_peer S name id s).1
  unfolding Peers.add_peer Peers.get_peer
  add_peer-SameFiles name id s =
      elim (Option-cases
        (S.peers.insert (record { id = none; device_id = some id; name = name }) s.peers)) [
          | inl refused ↦ rw refused (same s)
          | inr ((stored, rows), h) ↦ rw h (same s)
        ]

  pub add_peer_vec_id-SameFiles :
      (name id : List ℕ) (s : BepState S) → SameFiles S s (Peers.add_peer_vec_id S name id s).1
  unfolding Peers.add_peer_vec_id
  add_peer_vec_id-SameFiles name id s = elim (Bool-cases (length id == 32)) [
    | inl whole ↦ rw whole (add_peer-SameFiles name id s)
    | inr wrong ↦ rw wrong (same s)
  ]

  pub set_name-SameFiles :
      (name : List ℕ) (s : BepState S) → SameFiles S s (Peers.set_name S name s).1
  unfolding Peers.set_name
  set_name-SameFiles name s = elim (Option-cases (Peers.get_options S s)) [
    | inl missing ↦ rw (missing, Peers.set_name) (same s)
    | inr (options, h) ↦
        elim (Option-cases
          (S.device_options.upsert (record options { device_name = name }) s.device_options)) [
            | inl refused ↦ rw (Peers.set_name, h, refused) (same s)
            | inr ((stored, rows), k) ↦ rw (Peers.set_name, h, k) (same s)
          ]
  ]

  pub open_database-SameFiles :
      (cert key : List ℕ) (s : BepState S) → SameFiles S s (open_database S cert key s).1
  unfolding open_database
  open_database-SameFiles cert key s =
      elim (Bool-cases (
        Peers.is_initialized S
          (record s { new_folder_handler = none; peer_connections = []; spawned = [] }))) [
            | inl there ↦ rw (open_database, there) (same s)
            | inr first ↦
                elim (Option-cases (
                  S.device_options.insert
                    (record { id = some 1; device_name = codes "Device"; cert = cert; key = key })
                    s.device_options)) [
                      | inl refused ↦ rw (open_database, first, refused) (same s)
                      | inr ((stored, rows), h) ↦ rw (open_database, first, h) (same s)
                    ]
          ]

  store_folder-SameFiles :
      (new : SyncFolder) (s : BepState S) → SameFiles S s (Folders.store_folder S new s).1
  unfolding Folders.store_folder
  store_folder-SameFiles new s = elim (Option-cases (S.sync_folders.insert new s.sync_folders)) [
    | inl refused ↦ rw refused (same s)
    | inr ((stored, rows), h) ↦ rw h (same s)
  ]

  pub add_sync_directory-SameFiles :
      (exists : List ℕ → Bool) (random_id : List ℕ) (path : Option (List ℕ)) (label : List ℕ)
      (id : Option (List ℕ)) (s : BepState S)
      → SameFiles S s (Folders.add_sync_directory S exists random_id path label id s).1
  unfolding Folders.add_sync_directory
  add_sync_directory-SameFiles exists random_id path label id s =
      elim (Bool-cases (Folders.is_some path || Folders.is_some id)) [
        | inr not_given ↦ rw not_given (same s)
        | inl given ↦ elim (Bool-cases (Folders.is_usable exists path)) [
          | inr unusable ↦ rw (given, unusable) (same s)
          | inl usable ↦ rw (given, usable) (store_folder-SameFiles _ s)
        ]
      ]

  pub sync_directory_with_peer-SameFiles :
      (directory : SyncDirectory) (peer : Peer) (s : BepState S)
      → SameFiles S s (Folders.sync_directory_with_peer S directory peer s).1
  unfolding Folders.sync_directory_with_peer
  sync_directory_with_peer-SameFiles directory peer s =
      elim (Bool-cases (
        not (
          is_empty (
            keep (λ (r : SyncFolder). text_eq r.id directory.id)
              (S.sync_folders.select s.sync_folders))))) [
                | inr missing ↦ rw missing (same s)
                | inl there ↦ elim (Option-cases peer.id) [
                  | inl new ↦ rw (there, new) (same s)
                  | inr (n, known) ↦
                      elim (Option-cases (
                        S.folder_shares.insert
                          (record { id = none; sync_folder_id = directory.id; peer_id = n })
                          s.folder_shares)) [
                            | inl refused ↦ rw (there, known, refused) (same s)
                            | inr ((stored, rows), h) ↦ rw (there, known, h) (same s)
                          ]
                ]
              ]

  pub set_sync_directory_path-SameFiles :
      (dir : SyncDirectory) (path : Option (List ℕ)) (s : BepState S)
      → SameFiles S s (Folders.set_sync_directory_path S dir path s).1
  unfolding Folders.set_sync_directory_path
  set_sync_directory_path-SameFiles dir path s =
      elim (Option-cases (
        S.sync_folders.update (λ (r : SyncFolder). text_eq r.id dir.id)
          (λ (r : SyncFolder). record r { dir_path = path }) s.sync_folders)) [
            | inl refused ↦ rw refused (same s)
            | inr (rows, h) ↦ elim (Bool-cases (Folders.is_some path)) [
              | inl given ↦ rw (h, given) (same s)
              | inr taken ↦ rw (h, taken) (same s)
            ]
          ]

  pub remove_sync_directory-SameFiles :
      (to_remove : List ℕ) (s : BepState S)
      → SameFiles S s (Folders.remove_sync_directory S to_remove s).1
  unfolding Folders.remove_sync_directory
  remove_sync_directory-SameFiles to_remove s = same s

  pub new_folder-SameFiles :
      (dir : SyncDirectory) (s : BepState S) → SameFiles S s (Folders.new_folder S dir s).1
  unfolding Folders.new_folder
  new_folder-SameFiles dir s = elim (Option-cases s.new_folder_handler) [
    | inl nothing ↦ rw nothing (same s)
    | inr (handler, h) ↦ rw h (same s)
  ]
