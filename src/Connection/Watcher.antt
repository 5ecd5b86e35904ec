-- ===== src/Connection/Watcher.antt =====
-- The watcher of a connection (src/peer_connection/watcher.rs): it asks the crate notify to watch the
-- directories that are shared with the peer, and scans every directory when something has changed. What
-- notify reports, and the end of the connection, are a list.
pub mod Scans
use bep_rs.Prelude.{ℕ, Bool, true, false, if◌then◌else◌, Option, none, some, List, [], ◌∷◌}
use bep_rs.Prelude.Outcome.{Outcome, ok, err, panicked}
use bep_rs.Sync.{SyncDirectory}
use bep_rs.State.Models.{Peer}
use bep_rs.State.Monad.{Sql, BepState, Method, pure, continue, ◌>>=◌, ◌>>◌}
use bep_rs.State.Folders.{get_sync_directories, is_directory_synced}
use bep_rs.Connection.Items.{PeerConnectionError, PeerCommandError}
use bep_rs.Connection.Reading.{Exit, returned, waiting}
use bep_rs.Scan
use bep_rs.Scan.{generate_index}

-- `notify::EventKind`, without its details.
pub data EventKind : Type 0 where
  any access create modify remove other : EventKind

-- `is_create() || is_modify() || is_remove()`
abbrev pub is_change : EventKind → Bool
is_change EventKind.create = true
is_change EventKind.modify = true
is_change EventKind.remove = true
is_change kind = false

-- How a wait of the loop ends: an event, an error of notify as its text, no more events, a cancellation.
pub data Notice : Type 0 where
  event : EventKind → Notice
  failed : List ℕ → Notice
  ended cancelled : Notice

module _ (S : Sql) (watchable : List ℕ → Bool) (s : BepState S) where
  -- `watcher.watch(path).unwrap()`: what is watched after it.
  abbrev watch_path : Option (List ℕ) → List (List ℕ) → Option (List (List ℕ))
  watch_path none watched = some watched
  watch_path (some path) watched = if watchable path then some (path ∷ watched) else none

  unfoldable pub watch_shared : ℕ → List SyncDirectory → Option (List (List ℕ))
  watch_shared peer [] = some []
  watch_shared peer (dir ∷ dirs) = elim (watch_shared peer dirs) [
    | none ↦ none
    | some watched ↦
        if is_directory_synced S dir.id peer s then watch_path dir.path watched else some watched
  ]

  -- The id of the peer is unwrapped for each directory, so only if there is one.
  unfoldable pub watch_directories : Option ℕ → List SyncDirectory → Option (List (List ℕ))
  unfolding watch_shared
  watch_directories (some peer) dirs = watch_shared peer dirs
  watch_directories none [] = some []
  watch_directories none (dir ∷ dirs) = none

module _ (S : Sql) (env : Scan.Surroundings) where
  unfoldable pub rescan : List SyncDirectory → Method S (Unit {0})
  rescan [] = pure tt
  rescan (dir ∷ dirs) = do files ← generate_index S env dir; rescan dirs

  -- A scan that panics takes the watcher with it.
  abbrev pub or_panic :
      Option (Unit {0}) × BepState S
      → (BepState S → Outcome PeerCommandError Exit × BepState S)
      → Outcome PeerCommandError Exit × BepState S
  or_panic (none, s) next = (panicked, s)
  or_panic (some u, s) next = next s

  unfoldable pub watch_loop : List Notice → BepState S → Outcome PeerCommandError Exit × BepState S
  unfolding rescan
  watch_loop [] s = (ok waiting, s)
  watch_loop (event kind ∷ notices) s =
      let rest = or_panic (rescan (get_sync_directories S s) s) (watch_loop notices) in
      let go_on = watch_loop notices s in if is_change kind then rest else go_on
  watch_loop (failed text ∷ notices) s = (err (PeerCommandError.other text), s)
  watch_loop (ended ∷ notices) s = (ok returned, s)
  watch_loop (cancelled ∷ notices) s = (ok returned, s)

  -- `?` on how `wait_for_ready` and `get_peer` end; then the watcher is made, if `made`.
  unfoldable pub watch :
      (List ℕ → Bool)
      → Outcome PeerConnectionError (Unit {0})
      → Outcome PeerCommandError Peer
      → Bool
      → List Notice
      → BepState S
      → Outcome PeerCommandError Exit × BepState S
  unfolding watch_loop watch_directories
  watch watchable (err e) peer made notices s = (err (PeerCommandError.connection_error e), s)
  watch watchable panicked peer made notices s = (panicked, s)
  watch watchable (ok u) (err e) made notices s = (err e, s)
  watch watchable (ok u) panicked made notices s = (panicked, s)
  watch watchable (ok u) (ok peer) false notices s = (panicked, s)
  watch watchable (ok u) (ok peer) true notices s =
      elim (watch_directories S watchable s peer.id (get_sync_directories S s)) [
        | none ↦ (panicked, s)
        | some watched ↦ watch_loop notices s
      ]
