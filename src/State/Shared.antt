-- ===== src/State/Shared.antt =====
-- The reference to the state that the tasks share (src/bep_state_reference.rs): every method
-- takes the lock, calls the method of the state and releases the lock, so what the tasks do to the
-- state is a sequence of calls. With them, `BepState::new` (src/bep_state.rs), which opens the
-- database that an earlier run left.
pub mod Elsewhere
pub mod Readable
use bep_rs.Prelude.{ℕ, Bool, true, false, if◌then◌else◌, Option, none, some, List, [], ◌∷◌, codes}
use bep_rs.Sync.{SyncFile, SyncDirectory}
use bep_rs.State.Models.{Peer, SyncFileBlock}
use bep_rs.State.Table.{Table}
use bep_rs.State.Monad.{Sql, BepState, Method, pure, gets, unwrap, modify, ◌>>=◌, ◌>>◌}
use bep_rs.State.Folders
use bep_rs.State.Files
use bep_rs.State.Peers

-- One call of a method of the reference. The methods that only read are `read_call`, but for those that
-- read by a `Method` of the state. `exists` and `random_id` are what the file system and the crate
-- rand answer.
pub data Call : Type 0 where
  new_call : List ℕ → List ℕ → Call
  read_call : Call
  set_sync_directory_path_call : SyncDirectory → Option (List ℕ) → Call
  get_sync_files_call : List ℕ → Call
  update_sync_file_call : SyncDirectory → SyncFile → Call
  set_name_call : List ℕ → Call
  add_address_call : Peer → List ℕ → Call
  remove_sync_directory_call : List ℕ → Call
  add_sync_directory_call :
      (List ℕ → Bool) → List ℕ → Option (List ℕ) → List ℕ → Option (List ℕ) → Call
  add_peer_vec_id_call : List ℕ → List ℕ → Call
  add_peer_call : List ℕ → List ℕ → Call
  sync_directory_with_peer_call : SyncDirectory → Peer → Call
  new_folder_call : SyncDirectory → Call
  set_new_folder_handler_call : Option ℕ → Call
  add_peer_connection_call : ℕ → Call
  directory_changed_call : SyncDirectory → Call

module _ (S : Sql) where
  -- The state with no database yet.
  abbrev pub no_database : BepState S
  no_database = record {
    device_options = S.device_options.empty;
    sync_folders = S.sync_folders.empty;
    peers = S.peers.empty;
    folder_shares = S.folder_shares.empty;
    peer_addresses = S.peer_addresses.empty;
    sync_files = S.sync_files.empty;
    sync_file_versions = S.sync_file_versions.empty;
    sync_file_blocks = S.sync_file_blocks.empty;
    new_folder_handler = none;
    peer_connections = [];
    spawned = [];
  }

  -- `BepState::new`, once the database is open and its migrations are applied. The certificate and
  -- its key are those that the crate rcgen generates.
  unfoldable pub open_database : List ℕ → List ℕ → Method S (Unit {0})
  unfolding Peers.is_initialized
  open_database cert key = do
    modify (λ s. record s { new_folder_handler = none; peer_connections = []; spawned = [] })
    initialized ← gets (Peers.is_initialized S)
    if initialized then pure tt else do
      inserted ← gets (λ s.
          S.device_options.insert
            (record { id = some 1; device_name = codes "Device"; cert = cert; key = key })
            s.device_options)
      (stored, rows) ← unwrap inserted
      modify (λ s. record s { device_options = rows })

  -- The state when the lock is released, by a return or by a panic.
  module _ (order_by_offset : List SyncFileBlock → List SyncFileBlock) where
    unfoldable pub call : Call → BepState S → BepState S
    call (Call.new_call cert key) s = (open_database cert key s).1
    call Call.read_call s = s
    call (Call.set_sync_directory_path_call dir path) s =
        (Folders.set_sync_directory_path S dir path s).1
    call (Call.get_sync_files_call dir_id) s = (Files.get_sync_files S order_by_offset dir_id s).1
    call (Call.update_sync_file_call dir file) s =
        (Files.update_sync_file S order_by_offset dir file s).1
    call (Call.set_name_call name) s = (Peers.set_name S name s).1
    call (Call.add_address_call peer addr) s = (Peers.add_address S peer addr s).1
    call (Call.remove_sync_directory_call to_remove) s =
        (Folders.remove_sync_directory S to_remove s).1
    call (Call.add_sync_directory_call exists random_id path label id) s =
        (Folders.add_sync_directory S exists random_id path label id s).1
    call (Call.add_peer_vec_id_call peer_name peer_id) s =
        (Peers.add_peer_vec_id S peer_name peer_id s).1
    call (Call.add_peer_call peer_name peer_id) s = (Peers.add_peer S peer_name peer_id s).1
    call (Call.sync_directory_with_peer_call directory peer) s =
        (Folders.sync_directory_with_peer S directory peer s).1
    call (Call.new_folder_call directory) s = (Folders.new_folder S directory s).1
    call (Call.set_new_folder_handler_call handler) s =
        (Folders.set_new_folder_handler S handler s).1
    call (Call.add_peer_connection_call conn) s = (Folders.add_peer_connection S conn s).1
    call (Call.directory_changed_call dir) s = (Folders.directory_changed S dir s).1

    -- The calls of all tasks, in the order in which they get the lock.
    unfoldable pub calls : List Call → BepState S → BepState S
    unfolding call
    calls [] s = s
    calls (c ∷ cs) s = calls cs (call c s)
