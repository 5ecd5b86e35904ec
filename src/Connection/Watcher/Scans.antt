-- ===== src/Connection/Watcher/Scans.antt =====
-- What the events of the file system lead to (src/peer_connection/watcher.rs).
use bep_rs.Prelude.{
  ℕ, ◌≡◌, refl, Bool, true, false, Option, none, some, List, [], ◌∷◌, ◌++◌, map, any, all, not,
  Option-cases, Bool-cases, inl, inr,
}
use bep_rs.Prelude.Outcome.{Outcome, ok, panicked}
use bep_rs.Sync.{SyncDirectory}
use bep_rs.State.Models.{Peer}
use bep_rs.State.Monad.{Sql, BepState, Method, continue}
use bep_rs.State.Folders.{get_sync_directories}
use bep_rs.State.Files.{get_sync_files}
use bep_rs.State.Peers.{get_short_id}
use bep_rs.Connection.Items.{PeerCommandError}
use bep_rs.Connection.Reading.{Exit}
use bep_rs.Scan.{Surroundings, generate_index}
use bep_rs.Connection.Watcher.{
  EventKind, is_change, Notice, event, watch_directories, rescan, or_panic, watch_loop, watch,
}

abbrev pub has_no_path : SyncDirectory → Bool
has_no_path dir = elim dir.path [ none ↦ true | some path ↦ false ]

continue-panics {ℓ κ} :
    {S : Sql} {A : Type ℓ} {B : Type κ} (r : Option A) (f : A → Method S B) (s : BepState S)
    → ((a : A) (s : BepState S) → (f a s).0 ≡ none)
    → (continue r f s).0 ≡ none
continue-panics none f s h = refl
continue-panics (some a) f s h = h a s

module _ (S : Sql) (env : Surroundings) where
  generate_index_no_path :
      (dir : SyncDirectory) (s : BepState S)
      → dir.path ≡ none
      → (generate_index S env dir s).0 ≡ none
  unfolding generate_index
  generate_index_no_path dir s no_path =
      continue-panics (get_short_id S env.sha256 s).0 _ (get_short_id S env.sha256 s).1
        λ short_id s1.
          continue-panics (get_sync_files S env.order_by_offset dir.id s1).0 _
            (get_sync_files S env.order_by_offset dir.id s1).1 (λ files s2. rw no_path refl)

  rescan-panics :
      (dirs : List SyncDirectory) (s : BepState S)
      → any has_no_path dirs ≡ true
      → (rescan S env dirs s).0 ≡ none
  unfolding rescan
  rescan-panics [] s h = absurd (cc h)
  rescan-panics (dir ∷ dirs) s h = elim (Option-cases dir.path) [
    | inl no_path ↦ rw (generate_index_no_path dir s no_path) refl
    | inr (path, at) ↦
        continue-panics (generate_index S env dir s).0 (λ files. rescan S env dirs)
          (generate_index S env dir s).1 (λ files s'. rescan-panics dirs s' (rw at at h))
  ]

  or_panic-none :
      (r : Option (Unit {0}) × BepState S)
      (next : BepState S → Outcome PeerCommandError Exit × BepState S)
      → r.0 ≡ none
      → (or_panic S env r next).0 ≡ panicked
  or_panic-none (none, s) next h = refl
  or_panic-none (some u, s) next h = absurd (cc h)

  watch_loop-panics :
      (quiet : List EventKind) (kind : EventKind) (rest : List Notice) (s : BepState S)
      → any has_no_path (get_sync_directories S s) ≡ true
      → all (λ k. not (is_change k)) quiet ≡ true
      → is_change kind ≡ true
      → (watch_loop S env (map event quiet ++ event kind ∷ rest) s).0 ≡ panicked
  unfolding watch_loop
  watch_loop-panics [] kind rest s pathless none_changes change = rw change (
      or_panic-none (rescan S env (get_sync_directories S s) s) (watch_loop S env rest)
        (rescan-panics (get_sync_directories S s) s pathless))
  watch_loop-panics (k ∷ quiet) kind rest s pathless none_changes change =
      elim (Bool-cases (is_change k)) [
        | inl changes ↦ absurd (cc (rw changes at none_changes))
        | inr still ↦
            rw still
              (watch_loop-panics quiet kind rest s pathless (rw still at none_changes) change)
      ]

  -- Where any directory has no path, as one that a peer has offered, the first event that a file was
  -- created, modified or removed ends the watcher of every connection in a panic, whatever events came
  -- before that.
  pub watch_panics :
      (watchable : List ℕ → Bool) (peer : Peer) (quiet : List EventKind) (kind : EventKind)
      (rest : List Notice) (s : BepState S)
      → any has_no_path (get_sync_directories S s) ≡ true
      → all (λ k. not (is_change k)) quiet ≡ true
      → is_change kind ≡ true
      → (watch S env watchable (ok tt) (ok peer) true (map event quiet ++ event kind ∷ rest) s).0
        ≡ panicked
  unfolding watch
  watch_panics watchable peer quiet kind rest s pathless none_changes change =
      elim (Option-cases (watch_directories S watchable s peer.id (get_sync_directories S s))) [
        | inl refused ↦ rw (watch, refused) refl
        | inr (watched, h) ↦
            rw (watch, h) (watch_loop-panics quiet kind rest s pathless none_changes change)
      ]
