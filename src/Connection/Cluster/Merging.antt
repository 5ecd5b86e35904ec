-- ===== src/Connection/Cluster/Merging.antt =====
-- What a cluster configuration of the peer changes (src/peer_connection/handlers.rs, the arm of
-- `handle_reading` for it).
use bep_rs.Prelude.{
  ℕ, ◌≡◌, refl, ap, ◌∙◌, false, Option, none, some, List, [], ◌∷◌, text_eq, text_eq_sound, any,
  Option-cases, Bool-cases, inl, inr,
}
use bep_rs.Sync.{SyncDirectory}
use bep_rs.State.Models.{Peer, SyncFolder, FolderShare, sync_folders_schema, folder_shares_schema}
use bep_rs.State.Table.{IsTable}
use bep_rs.State.Monad.{Sql, BepState, continue, ◌>>◌}
use bep_rs.State.Folders.{
  get_sync_directory, get_sync_directories, is_directory_synced, sync_directory_with_peer,
  new_folder, model_to_sync_dir,
}
use bep_rs.State.Folders.Laws.{
  add_sync_directory-get_sync_directory, add_sync_directory_panics,
  add_sync_directory-is_directory_synced,
}
use bep_rs.State.Folders.Sharing.{
  sync_directory_with_peer_others, sync_directory_with_peer-get_sync_directory,
}
use bep_rs.Connection.Items.{Folder}
use bep_rs.Connection.Serve.{find_peer}
use bep_rs.Connection.Cluster.{accept_folder, merge_folder, merge_folders}

-- A directory is found as before, if it was, and shared with the same peers.
abbrev pub Keeps : (S : Sql) → List ℕ → BepState S → BepState S → Type 0
Keeps S d s s' =
    (get_sync_directory S d s' ≡ get_sync_directory S d s)
    × ((q : ℕ) → is_directory_synced S d q s' ≡ is_directory_synced S d q s)

module _ (S : Sql) (d : List ℕ) where
  Keeps-trans : (s s' s'' : BepState S) → Keeps S d s s' → Keeps S d s' s'' → Keeps S d s s''
  Keeps-trans s s' s'' (a, b) (a', b') = (a' ∙ a, λ q. b' q ∙ b q)

  continue-Keeps {ℓ κ} :
      {A : Type ℓ} {B : Type κ} (r : Option A) (f : A → BepState S → Option B × BepState S)
      (s s' : BepState S)
      → Keeps S d s s'
      → ((a : A) → Keeps S d s' (f a s').1)
      → Keeps S d s (continue r f s').1
  continue-Keeps none f s s' keeps next = keeps
  continue-Keeps (some a) f s s' keeps next = Keeps-trans s s' _ keeps (next a)

  pub new_folder-Keeps : (sd : SyncDirectory) (s : BepState S) → Keeps S d s (new_folder S sd s).1
  unfolding new_folder get_sync_directory is_directory_synced get_sync_directories
  new_folder-Keeps sd s = elim (Option-cases s.new_folder_handler) [
    | inl nothing ↦ (rw nothing, λ q. rw nothing)
    | inr (handler, h) ↦ (rw h, λ q. rw h)
  ]

module _ (S : Sql) (folders : IsTable SyncFolder sync_folders_schema S.sync_folders)
    (shares : IsTable FolderShare folder_shares_schema S.folder_shares) (peer_id d : List ℕ) where
  share_new-Keeps :
      (sd : SyncDirectory) (s : BepState S)
      → text_eq sd.id d ≡ false
      → Keeps S d s
          (continue
            (find_peer S peer_id s)
            (λ (peer : Peer). sync_directory_with_peer S sd peer >> new_folder S sd)
            s).1
  share_new-Keeps sd s other =
      continue-Keeps S d (find_peer S peer_id s)
        (λ (peer : Peer). sync_directory_with_peer S sd peer >> new_folder S sd) s s
        (refl, λ q. refl)
        λ peer.
          continue-Keeps S d (sync_directory_with_peer S sd peer s).0 (λ _. new_folder S sd) s
            (sync_directory_with_peer S sd peer s).1
            (
              sync_directory_with_peer-get_sync_directory S shares sd peer d s,
              λ q. sync_directory_with_peer_others S shares sd peer d q s other,
            )
            λ _. new_folder-Keeps S d sd _

  accept_folder-Keeps :
      (folder : Folder) (s : BepState S)
      → text_eq folder.id d ≡ false
      → Keeps S d s (accept_folder S peer_id folder s).1
  unfolding accept_folder model_to_sync_dir
  accept_folder-Keeps folder s other =
      let new : SyncFolder = record { id = folder.id; label = folder.label; dir_path = none } in
      elim (Bool-cases
        (any (sync_folders_schema.clash new) (S.sync_folders.select s.sync_folders))) [
          | inl clashes ↦
              let panics =
                add_sync_directory_panics S folders (λ _. false) [] none folder.label
                  (some folder.id) s (inr (inr clashes)) in
              (rw panics, λ q. rw panics)
          | inr free ↦
              let (s', added, found) =
                add_sync_directory-get_sync_directory S folders (λ _. false) [] none folder.label
                  (some folder.id) s refl refl free in
              let sd : SyncDirectory = record {
                id = folder.id;
                label = folder.label;
                path = none;
              } in
              let others = λ (q : ℕ).
                add_sync_directory-is_directory_synced S (λ _. false) [] none folder.label
                  (some folder.id) d q s in
              let keeps : Keeps S d s s' = (rw (found d, other), λ q. rw added at (others q)) in
              let shared = Keeps-trans S d s s' _ keeps (share_new-Keeps sd s' other) in
              (rw added shared.0, λ q. rw added (shared.1 q))
        ]

  differ {ℓ} : {A : Type ℓ} {o : Option A} {a : A} → o ≡ none → o ≡ some a → ⊥
  differ h k = cc

  merge_folder-Keeps :
      (folder : Folder) (dir : SyncDirectory) (s : BepState S)
      → get_sync_directory S d s ≡ some dir
      → Keeps S d s (merge_folder S peer_id folder s).1
  unfolding merge_folder
  merge_folder-Keeps folder dir s known = elim (Option-cases (get_sync_directory S folder.id s)) [
    | inr (there, h) ↦ (rw (h, merge_folder), λ q. rw (h, merge_folder))
    | inl unknown ↦ elim (Bool-cases (text_eq folder.id d)) [
      | inl same ↦ absurd (
          differ unknown
            (ap (λ i. get_sync_directory S i s) (text_eq_sound folder.id d same) ∙ known))
      | inr other ↦
          let keeps = accept_folder-Keeps folder s other in
          (rw (unknown, merge_folder) keeps.0, λ q. rw (unknown, merge_folder) (keeps.1 q))
    ]
  ]

  -- No cluster configuration changes a directory that is known: it is found as before, and the same peers
  -- are let in to it, whether the configuration is merged as a whole or a folder in it ends in a panic.
  pub merge_folders-Keeps :
      (offered : List Folder) (dir : SyncDirectory) (s : BepState S)
      → get_sync_directory S d s ≡ some dir
      → Keeps S d s (merge_folders S peer_id offered s).1
  unfolding merge_folders
  merge_folders-Keeps [] dir s known = (refl, λ q. refl)
  merge_folders-Keeps (folder ∷ offered) dir s known =
      let step = merge_folder-Keeps folder dir s known in
      continue-Keeps S d (merge_folder S peer_id folder s).0 (λ _. merge_folders S peer_id offered)
        s (merge_folder S peer_id folder s).1 step
        λ _. merge_folders-Keeps offered dir (merge_folder S peer_id folder s).1 (step.0 ∙ known)
