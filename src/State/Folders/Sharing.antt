-- ===== src/State/Folders/Sharing.antt =====
-- Who may ask for the files of a directory (src/bep_state.rs, `sync_directory_with_peer` and
-- `is_directory_synced`).
use bep_rs.Prelude.{
  ℕ, ◌≡◌, ◌≢◌, refl, ◌∙◌, ◌==◌, ◌&&◌, ◌||◌, not, Bool, true, false, is_empty, none, some, List, [],
  ◌∷◌, keep, text_eq, any, any-append, arith, Option-cases, Bool-cases, inl, inr,
}
use bep_rs.Sync.{SyncDirectory}
use bep_rs.State.Models.{SyncFolder, Peer, FolderShare, folder_shares_schema}
use bep_rs.State.Table.{IsTable}
use bep_rs.State.Monad.{Sql, BepState}
use bep_rs.State.Folders.{
  sync_directory_with_peer, is_directory_synced, get_sync_directory, get_sync_directories,
}

abbrev pub shares : List ℕ → ℕ → FolderShare → Bool
shares d peer f = text_eq f.sync_folder_id d && f.peer_id == peer

keep-keep-any :
    (d : List ℕ) (peer : ℕ) (rows : List FolderShare)
    → not (
        is_empty (
          keep
            (λ (f : FolderShare). f.peer_id == peer)
            (keep (λ (f : FolderShare). text_eq f.sync_folder_id d) rows)))
      ≡ any (shares d peer) rows
keep-keep-any d peer [] = refl
keep-keep-any d peer (f ∷ rows) = ground (arith, keep-keep-any d peer rows)

pub is_directory_synced-any :
    (S : Sql) (d : List ℕ) (peer : ℕ) (s : BepState S)
    → is_directory_synced S d peer s ≡ any (shares d peer) (S.folder_shares.select s.folder_shares)
unfolding is_directory_synced
is_directory_synced-any S d peer s = keep-keep-any d peer (S.folder_shares.select s.folder_shares)

no_clash :
    (dir : List ℕ) (n : ℕ) (rows : List FolderShare)
    → any
        (folder_shares_schema.clash (record { id = none; sync_folder_id = dir; peer_id = n }))
        rows
      ≡ false
no_clash dir n [] = refl
no_clash dir n (r ∷ rows) = no_clash dir n rows

nonempty {ℓ} : {A : Type ℓ} (xs : List A) → xs ≢ [] → not (is_empty xs) ≡ true
nonempty [] h = absurd (h refl)
nonempty (x ∷ xs) h = refl

module _ (S : Sql) (table : IsTable FolderShare folder_shares_schema S.folder_shares) where
  share_stored :
      (dir : List ℕ) (n : ℕ) (stored : FolderShare) (rows : S.folder_shares.Rows) (s : BepState S)
      → S.folder_shares.insert
          (record { id = none; sync_folder_id = dir; peer_id = n })
          s.folder_shares
        ≡ some (stored, rows)
      → (d : List ℕ) (q : ℕ)
      → is_directory_synced S d q (record s { folder_shares = rows })
        ≡ ((text_eq dir d && n == q) || is_directory_synced S d q s)
  share_stored dir n stored rows s h d q =
      let new : FolderShare = record { id = none; sync_folder_id = dir; peer_id = n } in
      let (k, fresh, same) = table.insert_stored new stored s.folder_shares rows h in
      is_directory_synced-any S d q (record s { folder_shares = rows })
      ∙ rw (table.select-insert new stored s.folder_shares rows h, any-append, same)
          (rw (is_directory_synced-any S d q s) (ground arith))

  -- Sharing a directory that exists with a peer that has an id lets that peer in to that
  -- directory, and changes nothing for any other peer or directory.
  pub is_directory_synced-sync_directory_with_peer :
      (directory : SyncDirectory) (peer : Peer) (n : ℕ) (s : BepState S)
      → peer.id ≡ some n
      → keep (λ (r : SyncFolder). text_eq r.id directory.id) (S.sync_folders.select s.sync_folders)
        ≢ []
      → (s' : BepState S) × (sync_directory_with_peer S directory peer s ≡ (some tt, s'))
        × ((d : List ℕ) (q : ℕ)
            → is_directory_synced S d q s'
              ≡ ((text_eq directory.id d && n == q) || is_directory_synced S d q s))
  unfolding sync_directory_with_peer
  is_directory_synced-sync_directory_with_peer directory peer n s known there =
      let new : FolderShare = record { id = none; sync_folder_id = directory.id; peer_id = n } in
      elim (Option-cases (S.folder_shares.insert new s.folder_shares)) [
        | inl refused ↦ absurd (
            table.insert-ne-none new s.folder_shares
              (no_clash directory.id n (S.folder_shares.select s.folder_shares)) refused)
        | inr ((stored, rows), h) ↦ (
          record s { folder_shares = rows },
          rw (nonempty _ there, known, h),
          share_stored directory.id n stored rows s h,
        )
      ]

  pub sync_directory_with_peer-get_sync_directory :
      (directory : SyncDirectory) (peer : Peer) (d : List ℕ) (s : BepState S)
      → get_sync_directory S d (sync_directory_with_peer S directory peer s).1
        ≡ get_sync_directory S d s
  unfolding sync_directory_with_peer get_sync_directory get_sync_directories
  sync_directory_with_peer-get_sync_directory directory peer d s =
      elim (Bool-cases (
        not (
          is_empty (
            keep (λ (r : SyncFolder). text_eq r.id directory.id)
              (S.sync_folders.select s.sync_folders))))) [
                | inr missing ↦ rw missing
                | inl there ↦ elim (Option-cases peer.id) [
                  | inl new ↦ rw (there, new)
                  | inr (n, known) ↦
                      elim (Option-cases (
                        S.folder_shares.insert
                          (record { id = none; sync_folder_id = directory.id; peer_id = n })
                          s.folder_shares)) [
                            | inl refused ↦ rw (there, known, refused)
                            | inr ((stored, rows), h) ↦ rw (there, known, h)
                          ]
                ]
              ]

  -- Sharing one directory, whether it succeeds or panics, does not concern another.
  pub sync_directory_with_peer_others :
      (directory : SyncDirectory) (peer : Peer) (d : List ℕ) (q : ℕ) (s : BepState S)
      → text_eq directory.id d ≡ false
      → is_directory_synced S d q (sync_directory_with_peer S directory peer s).1
        ≡ is_directory_synced S d q s
  unfolding sync_directory_with_peer
  sync_directory_with_peer_others directory peer d q s other =
      elim (Bool-cases (
        not (
          is_empty (
            keep (λ (r : SyncFolder). text_eq r.id directory.id)
              (S.sync_folders.select s.sync_folders))))) [
                | inr missing ↦ rw missing
                | inl there ↦ elim (Option-cases peer.id) [
                  | inl new ↦ rw (there, new)
                  | inr (n, known) ↦
                      elim (Option-cases (
                        S.folder_shares.insert
                          (record { id = none; sync_folder_id = directory.id; peer_id = n })
                          s.folder_shares)) [
                            | inl refused ↦ rw (there, known, refused)
                            | inr ((stored, rows), h) ↦
                                rw (there, known, h)
                                  (rw (share_stored directory.id n stored rows s h d q, other))
                          ]
                ]
              ]
