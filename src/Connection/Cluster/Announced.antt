-- ===== src/Connection/Cluster/Announced.antt =====
-- What a cluster configuration tells a peer (src/peer_connection/handlers.rs,
-- `generate_cluster_config`).
use bep_rs.Prelude.{
  ℕ, ◌≡◌, refl, ◌∙◌, Bool, true, ◌==◌, Option, none, some, List, [], ◌∷◌, map, keep, text_eq,
  text_eq_refl, text_eq_sound, length, any, all, all-append, Option-cases, Bool-cases, inl, inr,
  arith,
}
use mathlib.Core.List
use bep_rs.Sync.{SyncDirectory}
use bep_rs.State.Models.{Peer, SyncFolder, FolderShare, same_id}
use bep_rs.State.Monad.{Sql, BepState}
use bep_rs.State.Folders.{
  is_directory_synced, model_to_sync_dir, get_directory_peers, get_synced_directories,
}
use bep_rs.State.Folders.Sharing.{shares, is_directory_synced-any}
use bep_rs.State.Peers.{get_id, get_certificate, get_options, get_name}
use bep_rs.Connection.Items.{ClusterConfig, Folder, Device}
use bep_rs.Connection.Serve.{find_peer}
use bep_rs.Connection.Cluster.{device, devices_of, folders_of, generate_cluster_config}

module _ (S : Sql) (n : ℕ) (s : BepState S) where
  abbrev shared_dir : SyncDirectory × List Peer → Bool
  shared_dir (dir, peers) = is_directory_synced S dir.id n s

  same_id-peer :
      (o : Option ℕ) (a b : ℕ) → same_id o (some a) ≡ true → same_id o (some b) ≡ true → b ≡ a
  same_id-peer none a b h k = cc
  same_id-peer (some c) a b h k = ground arith

  joined-shared :
      (f : FolderShare) (rows : List SyncFolder)
      → any (shares f.sync_folder_id n) (S.folder_shares.select s.folder_shares) ≡ true
      → all shared_dir (
          map
            (λ (d : SyncFolder). (model_to_sync_dir d, get_directory_peers S d.id s))
            (keep (λ (d : SyncFolder). text_eq d.id f.sync_folder_id) rows))
        ≡ true
  unfolding model_to_sync_dir
  joined-shared f [] h = refl
  joined-shared f (d ∷ rows) h = elim (Bool-cases (text_eq d.id f.sync_folder_id)) [
    | inr other ↦ rw other (joined-shared f rows h)
    | inl same ↦
        let here : is_directory_synced S d.id n s ≡ true =
          is_directory_synced-any S d.id n s ∙ rw (text_eq_sound d.id f.sync_folder_id same) h in
        rw same (rw here (joined-shared f rows h))
  ]

  shares-shared :
      (p : Peer) (dirs : List SyncFolder) (rows : List FolderShare)
      → same_id p.id (some n) ≡ true
      → ((d : List ℕ)
          → any (shares d n) rows ≡ true
          → any (shares d n) (S.folder_shares.select s.folder_shares) ≡ true)
      → all shared_dir (
          List.flat_map
            (λ (f : FolderShare).
              map
                (λ (d : SyncFolder). (model_to_sync_dir d, get_directory_peers S d.id s))
                (keep (λ (d : SyncFolder). text_eq d.id f.sync_folder_id) dirs))
            (keep (λ (f : FolderShare). same_id p.id (some f.peer_id)) rows))
        ≡ true
  unfolding List.flat_map
  shares-shared p dirs [] its h = refl
  shares-shared p dirs (f ∷ rows) its h =
      let rest = shares-shared p dirs rows its (λ d e. h d (ground arith)) in
      elim (Bool-cases (same_id p.id (some f.peer_id))) [
        | inr other ↦ rw other rest
        | inl mine ↦
            let peer : f.peer_id ≡ n = same_id-peer p.id n f.peer_id its mine in
            rw mine (
              all-append shared_dir _ _
                (joined-shared f dirs
                  (h f.sync_folder_id (rw (text_eq_refl f.sync_folder_id, peer) (ground arith))))
                rest)
      ]

  peers-shared :
      (peers : List Peer)
      → all shared_dir (
          List.flat_map
            (λ (p : Peer).
              List.flat_map
                (λ (f : FolderShare).
                  map
                    (λ (d : SyncFolder). (model_to_sync_dir d, get_directory_peers S d.id s))
                    (keep
                      (λ (d : SyncFolder). text_eq d.id f.sync_folder_id)
                      (S.sync_folders.select s.sync_folders)))
                (keep
                  (λ (f : FolderShare). same_id p.id (some f.peer_id))
                  (S.folder_shares.select s.folder_shares)))
            (keep (λ (p : Peer). same_id p.id (some n)) peers))
        ≡ true
  unfolding List.flat_map
  peers-shared [] = refl
  peers-shared (p ∷ peers) = elim (Bool-cases (same_id p.id (some n))) [
    | inr other ↦ rw other (peers-shared peers)
    | inl its ↦ rw its (
        all-append shared_dir _ _
          (shares-shared p _ (S.folder_shares.select s.folder_shares) its (λ d e. e))
          (peers-shared peers))
  ]

  get_synced_directories-shared : all shared_dir (get_synced_directories S n s) ≡ true
  unfolding get_synced_directories
  get_synced_directories-shared = peers-shared (S.peers.select s.peers)

  abbrev announced : List Folder → Bool
  announced folders = all (λ (f : Folder). is_directory_synced S f.id n s) folders

  announced_or : Option (List Folder) → Bool
  announced_or none = true
  announced_or (some folders) = announced folders

  folders_of-shared :
      (myself : Device) (dirs : List (SyncDirectory × List Peer))
      → all shared_dir dirs ≡ true
      → announced_or (folders_of myself dirs) ≡ true
  unfolding folders_of announced_or
  folders_of-shared myself [] h = refl
  folders_of-shared myself ((dir, peers) ∷ dirs) h =
      let rest = folders_of-shared myself dirs (ground arith) in
      elim (Option-cases (devices_of peers)) [
        | inl lost ↦ rw (announced_or, folders_of, lost) refl
        | inr (devices, these) ↦ elim (Option-cases (folders_of myself dirs)) [
          | inl lost ↦ rw (announced_or, folders_of, these, lost) refl
          | inr (folders, those) ↦
              rw (announced_or, folders_of, these, those) (ground (arith, rw those at rest))
        ]
      ]

get_id-state : (S : Sql) (sha256 : List ℕ → List ℕ) (s : BepState S) → (get_id S sha256 s).1 ≡ s
unfolding get_id get_certificate
get_id-state S sha256 s = elim (Option-cases (get_options S s)) [
  | inl missing ↦ rw (missing, get_id, get_certificate)
  | inr (options, h) ↦ elim (Bool-cases (length (sha256 options.cert) == 32)) [
    | inl whole ↦ rw (h, whole)
    | inr short ↦ rw (h, short)
  ]
]

shown_or : (S : Sql) (n : ℕ) (s : BepState S) → Option ClusterConfig → Bool
shown_or S n s none = true
shown_or S n s (some config) = announced S n s config.folders

module _ (S : Sql) (sha256 : List ℕ → List ℕ) (peer_id : List ℕ) where
  generate_cluster_config-shown :
      (peer : Peer) (n : ℕ) (s : BepState S)
      → find_peer S peer_id s ≡ some peer
      → peer.id ≡ some n
      → shown_or S n s (generate_cluster_config S sha256 peer_id s).0 ≡ true
  unfolding generate_cluster_config shown_or announced_or
  generate_cluster_config-shown peer n s here known = elim (Option-cases ((get_id S sha256 s).0)) [
    | inl lost ↦ rw (shown_or, generate_cluster_config, here, known, lost) refl
    | inr (my_id, mine) ↦
        let myself = device my_id (get_name S s) in
        let shown =
          folders_of-shared S n s myself (get_synced_directories S n s)
            (get_synced_directories-shared S n s) in
        elim (Option-cases (folders_of myself (get_synced_directories S n s))) [
          | inl lost ↦
              rw
                (
                  shown_or,
                  generate_cluster_config,
                  here,
                  known,
                  mine,
                  get_id-state S sha256 s,
                  lost,
                )
                refl
          | inr (folders, those) ↦
              rw
                (
                  shown_or,
                  generate_cluster_config,
                  here,
                  known,
                  mine,
                  get_id-state S sha256 s,
                  those,
                )
                (rw those at shown)
        ]
  ]

  -- Every folder that `generate_cluster_config` names to the peer is shared with that peer: the
  -- configuration shows no other directory.
  pub generate_cluster_config-IsShared :
      (peer : Peer) (n : ℕ) (config : ClusterConfig) (s s' : BepState S)
      → find_peer S peer_id s ≡ some peer
      → peer.id ≡ some n
      → generate_cluster_config S sha256 peer_id s ≡ (some config, s')
      → all (λ (f : Folder). is_directory_synced S f.id n s) config.folders ≡ true
  unfolding shown_or
  generate_cluster_config-IsShared peer n config s s' here known made =
      rw made at (generate_cluster_config-shown peer n s here known)
