-- ===== src/Connection/Cluster/Accepting.antt =====
-- What a folder becomes that a peer offers and that is not known
-- (src/peer_connection/handlers.rs).
use bep_rs.Prelude.{
  ℕ, ◌≡◌, refl, ap, ◌∙◌, Bool, false, Option, none, some, List, [], text_eq, text_eq_refl, find?,
  ◌==◌, ◌||◌,
}
use bep_rs.Sync.{SyncDirectory}
use bep_rs.State.Models.{Peer, SyncFolder, FolderShare, sync_folders_schema, folder_shares_schema}
use bep_rs.State.Table.{IsTable}
use bep_rs.State.Monad.{Sql, BepState, continue, ◌>>◌}
use bep_rs.State.Folders.{
  get_sync_directory, is_directory_synced, add_sync_directory, sync_directory_with_peer, new_folder,
  model_to_sync_dir,
}
use bep_rs.State.Folders.Laws.{
  add_sync_directory-get_sync_directory, add_sync_directory-is_directory_synced,
  add_sync_directory-elsewhere, get_sync_directory-found, get_sync_directory-free,
}
use bep_rs.State.Folders.Sharing.{
  sync_directory_with_peer-get_sync_directory, is_directory_synced-sync_directory_with_peer,
}
use bep_rs.State.Peers.{get_peers}
use bep_rs.Connection.Items.{Folder}
use bep_rs.Connection.Serve.{find_peer, device_or_empty}
use bep_rs.Connection.Cluster.{accept_folder, merge_folder}
use bep_rs.Connection.Cluster.Merging.{new_folder-Keeps}

new_folder_lem :
    (S : Sql) (sd : SyncDirectory) (s : BepState S)
    → new_folder S sd s ≡ (some tt, (new_folder S sd s).1)
unfolding new_folder
new_folder_lem S sd s = refl

add_sync_directory-find_peer :
    (S : Sql) (peer_id : List ℕ) (exists : List ℕ → Bool) (random_id : List ℕ)
    (path : Option (List ℕ)) (label : List ℕ) (id : Option (List ℕ)) (s : BepState S)
    → find_peer S peer_id (add_sync_directory S exists random_id path label id s).1
      ≡ find_peer S peer_id s
unfolding find_peer get_peers
add_sync_directory-find_peer S peer_id exists random_id path label id s =
    ap
      (λ (rows : S.peers.Rows).
        find? (λ p. text_eq peer_id (device_or_empty p)) (S.peers.select rows))
      (add_sync_directory-elsewhere S exists random_id path label id s).1

module _ (S : Sql) (folders : IsTable SyncFolder sync_folders_schema S.sync_folders)
    (shares : IsTable FolderShare folder_shares_schema S.folder_shares) (peer_id : List ℕ) where
  merge_folder-unknown :
      (folder : Folder) (s : BepState S)
      → get_sync_directory S folder.id s ≡ none
      → merge_folder S peer_id folder s ≡ accept_folder S peer_id folder s
  unfolding merge_folder
  merge_folder-unknown folder s unknown = rw (unknown, merge_folder)

  share_new_accepts :
      (sd : SyncDirectory) (peer : Peer) (n : ℕ) (s : BepState S)
      → find_peer S peer_id s ≡ some peer
      → peer.id ≡ some n
      → get_sync_directory S sd.id s ≡ some sd
      → (s' : BepState S) × (continue
            (find_peer S peer_id s)
            (λ (peer : Peer). sync_directory_with_peer S sd peer >> new_folder S sd)
            s
          ≡ (some tt, s'))
        × (get_sync_directory S sd.id s' ≡ some sd)
        × ((q : ℕ)
            → is_directory_synced S sd.id q s' ≡ ((n == q) || is_directory_synced S sd.id q s))
  share_new_accepts sd peer n s here known there =
      let (s1, added, synced) =
        is_directory_synced-sync_directory_with_peer S shares sd peer n s known
          (get_sync_directory-found S sd.id sd s there) in
      let same = sync_directory_with_peer-get_sync_directory S shares sd peer sd.id s in
      let keeps = new_folder-Keeps S sd.id sd s1 in
      (
        (new_folder S sd s1).1,
        rw (here, added) (new_folder_lem S sd s1),
        keeps.0 ∙ (rw added at same) ∙ there,
        λ q. keeps.1 q ∙ rw (text_eq_refl sd.id) at (synced sd.id q),
      )

  -- Merging a folder that is not known, from a peer that is: it ends without a panic, with the
  -- folder as a directory of the label that was offered and with no path, shared with that peer besides the peers
  -- that an earlier directory of that id was shared with.
  pub merge_folder_accepts :
      (folder : Folder) (peer : Peer) (n : ℕ) (s : BepState S)
      → get_sync_directory S folder.id s ≡ none
      → find_peer S peer_id s ≡ some peer
      → peer.id ≡ some n
      → (s' : BepState S) × (merge_folder S peer_id folder s ≡ (some tt, s'))
        × (get_sync_directory S folder.id s'
            ≡ some (record { id = folder.id; label = folder.label; path = none }))
        × ((q : ℕ)
            → is_directory_synced S folder.id q s'
              ≡ ((n == q) || is_directory_synced S folder.id q s))
  unfolding accept_folder model_to_sync_dir
  merge_folder_accepts folder peer n s unknown here known =
      let sd : SyncDirectory = record { id = folder.id; label = folder.label; path = none } in
      let free =
        get_sync_directory-free S (record { id = folder.id; label = folder.label; dir_path = none })
          s refl unknown in
      let (s', added, found) =
        add_sync_directory-get_sync_directory S folders (λ _. false) [] none folder.label
          (some folder.id) s refl refl free in
      let there : get_sync_directory S sd.id s' ≡ some sd = rw (found sd.id, text_eq_refl sd.id) in
      let peers : find_peer S peer_id s' ≡ find_peer S peer_id s = rw added at (
        add_sync_directory-find_peer S peer_id (λ _. false) [] none folder.label (some folder.id)
          s) in
      let others = λ (q : ℕ). rw added at (
        add_sync_directory-is_directory_synced S (λ _. false) [] none folder.label (some folder.id)
          folder.id q s) in
      let (s'', shared, still, synced) =
        share_new_accepts sd peer n s' (peers ∙ here) known there in
      (
        s'',
        rw (merge_folder-unknown folder s unknown, added) shared,
        still,
        λ q. rw (← others q) (synced q),
      )
