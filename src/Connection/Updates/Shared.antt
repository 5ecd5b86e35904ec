-- ===== src/Connection/Updates/Shared.antt =====
-- Which indexes are sent (src/peer_connection/mod.rs, `send_index`).
use bep_rs.Prelude.{
  ℕ, ◌≡◌, ◌≢◌, refl, sym, ap, true, some, List, [], ◌∷◌, map, keep, all, Bool-cases, Option-cases,
  inl, inr,
}
use bep_rs.Prelude.Outcome.{Outcome, ok, err, panicked, ◌>>=◌, ok-injective}
use bep_rs.Prelude.Int.{pos}
use bep_rs.Sync.{SyncDirectory}
use bep_rs.Sync.Blocks.{IoError}
use bep_rs.State.Models.{Peer}
use bep_rs.State.Monad.{Sql, BepState}
use bep_rs.State.Folders.{get_sync_directories, is_directory_synced}
use bep_rs.State.Files.{get_sync_files}
use bep_rs.Connection.Items.{Index, FileInfo}
use bep_rs.Connection.Serve.{find_peer}
use bep_rs.Connection.Updates.{Surroundings, file_infos, index_of, submit, send_indexes, send_index}

not_ok {ℓ} : {A : Type ℓ} {e : IoError} {a : A} → ◌≢◌ {A = Outcome IoError A} (err e) (ok a)
not_ok h = cc

not_panicked {ℓ} : {A : Type ℓ} {a : A} → ◌≢◌ {A = Outcome IoError A} panicked (ok a)
not_panicked h = cc

infos-folder :
    (id : List ℕ) (infos : Outcome IoError (List FileInfo)) (index : Index)
    → (infos >>= λ files. ok (record { folder = id; files = files; last_sequence = pos 0 }))
      ≡ ok index
    → index.folder ≡ id
infos-folder id (ok files) index h = ap (λ (i : Index). i.folder) (sym (ok-injective _ _ h))
infos-folder id (err e) index h = absurd (not_ok h)
infos-folder id panicked index h = absurd (not_panicked h)

module _ (S : Sql) (s : BepState S) (peer : ℕ) where
  -- What was submitted when the sending ended, where these are the folders to send.
  abbrev pub Sent : List (List ℕ) → Outcome IoError (Unit {0}) × List Index → Type 0
  Sent folders (r, sent) =
      (all (λ (i : Index). is_directory_synced S i.folder peer s) sent ≡ true)
      × (r ≡ ok tt → map (λ (i : Index). i.folder) sent ≡ folders)

  abbrev pub shared_ids : List SyncDirectory → List (List ℕ)
  shared_ids dirs =
      map (λ (d : SyncDirectory). d.id)
        (keep (λ (d : SyncDirectory). is_directory_synced S d.id peer s) dirs)

module _ (S : Sql) (env : Surroundings) (s : BepState S) (peer : ℕ) where
  index_of-folder :
      (dir : SyncDirectory) (index : Index)
      → index_of S env s dir ≡ ok index
      → index.folder ≡ dir.id
  unfolding index_of
  index_of-folder dir index h =
      elim (Option-cases (get_sync_files S env.order_by_offset dir.id s).0) [
        | inl lost ↦ absurd (not_panicked (rw (index_of, lost) at h))
        | inr (files, found) ↦
            infos-folder dir.id (file_infos env dir files) index (rw (index_of, found) at h)
      ]

  submit-Sent :
      (dir : SyncDirectory) (folders : List (List ℕ)) (o : Outcome IoError Index)
      (rest : Outcome IoError (Unit {0}) × List Index)
      → is_directory_synced S dir.id peer s ≡ true
      → ((index : Index) → o ≡ ok index → index.folder ≡ dir.id)
      → Sent S s peer folders rest
      → Sent S s peer (dir.id ∷ folders) (submit S env s o rest)
  submit-Sent dir folders (ok index) (r, sent) here named (all_shared, complete) =
      let it = named index refl in
      (rw it (rw here all_shared), λ done. rw it (ap (λ t. dir.id ∷ t) (complete done)))
  submit-Sent dir folders (err e) rest here named h = (refl, λ done. absurd (not_ok done))
  submit-Sent dir folders panicked rest here named h = (refl, λ done. absurd (not_panicked done))

  send_indexes-Sent :
      (dirs : List SyncDirectory)
      → Sent S s peer (shared_ids S s peer dirs) (send_indexes S env s peer dirs)
  unfolding send_indexes
  send_indexes-Sent [] = (refl, λ done. refl)
  send_indexes-Sent (dir ∷ dirs) =
      let rest = send_indexes-Sent dirs in
      elim (Bool-cases (is_directory_synced S dir.id peer s)) [
        | inr other ↦ rw other rest
        | inl here ↦ rw here (
            submit-Sent dir (shared_ids S s peer dirs) (index_of S env s dir)
              (send_indexes S env s peer dirs) here (index_of-folder dir) rest)
      ]

-- Every index that `send_index` submits to a peer is of a directory that is shared with it, also when it
-- ends early; and when it succeeds, exactly the directories that are shared with the peer have been
-- submitted, each once and in their order.
pub send_index-Sent :
    (S : Sql) (env : Surroundings) (s : BepState S) (peer_id : List ℕ) (peer : Peer) (n : ℕ)
    → find_peer S peer_id s ≡ some peer
    → peer.id ≡ some n
    → Sent S s n (shared_ids S s n (get_sync_directories S s)) (send_index S env s peer_id)
unfolding send_index
send_index-Sent S env s peer_id peer n here known =
    rw (send_index, here, known) (send_indexes-Sent S env s n (get_sync_directories S s))
