-- ===== src/Connection/Serve.antt =====
-- Answering a peer's request for a block (src/peer_connection/handlers.rs, `handle_request`, and
-- src/peer_connection/mod.rs, `get_peer`). What the handler submits is the `Response`; the state
-- is only read. A panic is `none`.
pub mod Access
pub mod Sizes
use bep_rs.Prelude.{
  ℕ, not, Bool, true, false, ◌&&◌, if◌then◌else◌, is_empty, Option, none, some, ◌>>=◌, List, [],
  find?, text_eq,
}
use bep_rs.Prelude.Int.{as_u64}
use bep_rs.Prelude.Outcome.{Outcome, ok, err, panicked}
use bep_rs.Sync.{SyncDirectory}
use bep_rs.Sync.FilePath.{push}
use bep_rs.State.Models.{Peer}
use bep_rs.State.Monad.{Sql, BepState}
use bep_rs.State.Folders.{get_sync_directory, is_directory_synced}
use bep_rs.State.Peers.{get_peers}
use bep_rs.Storage.{StorageError}
use bep_rs.Connection.Items.{Request, Response, ErrorCode, code_of}

-- `peer.device_id.as_ref().unwrap_or(&vec![])`
abbrev pub device_or_empty : Peer → List ℕ
device_or_empty peer = elim peer.device_id [ none ↦ [] | some id ↦ id ]

abbrev pub reply : Request → List ℕ → ErrorCode → Response
reply request bytes code = record { id = request.id; bytes = bytes; code = code_of code }

module _ (S : Sql) where
  -- The peer whose device id the handshake verified; `none` for an unknown one.
  unfoldable pub find_peer : List ℕ → BepState S → Option Peer
  unfolding get_peers
  find_peer peer_id s = find? (λ p. text_eq peer_id (device_or_empty p)) (get_peers S s)

  -- SHA-256 of ring, and `read_block` of the storage backend.
  module _ (sha256 : List ℕ → List ℕ)
      (read_block : List ℕ → ℕ → ℕ → Outcome StorageError (List ℕ)) where
    -- What was read, against the hash that the peer sent, if it sent one.
    unfoldable pub respond_read : Request → Outcome StorageError (List ℕ) → Option Response
    respond_read request (err e) = some (reply request [] ErrorCode.no_such_file)
    respond_read request (ok bytes) = some (
        if not (is_empty request.hash) && not (text_eq (sha256 bytes) request.hash)
        then reply request bytes ErrorCode.invalid_file
        else reply request bytes ErrorCode.no_error)
    respond_read request panicked = none

    -- The directory is shared with the peer.
    unfoldable pub respond_shared : Request → SyncDirectory → Option Response
    unfolding respond_read
    respond_shared request dir = elim dir.path [
      | none ↦ some (reply request [] ErrorCode.no_such_file)
      | some path ↦
          respond_read request
            (read_block (push path request.name) (as_u64 request.offset) (as_u64 request.size))
    ]

    -- `dir.is_none() || !is_directory_synced(..)`: the peer's id is unwrapped only in the second.
    unfoldable pub respond_dir :
        Request → Peer → Option SyncDirectory → BepState S → Option Response
    unfolding respond_shared
    respond_dir request peer none s = some (reply request [] ErrorCode.invalid_file)
    respond_dir request peer (some dir) s = do
      id ← peer.id
      if is_directory_synced S dir.id id s
          then respond_shared request dir
          else some (reply request [] ErrorCode.invalid_file)

    unfoldable pub handle_request : List ℕ → Request → BepState S → Option Response
    unfolding find_peer respond_dir
    handle_request peer_id request s = do
      peer ← find_peer peer_id s
      respond_dir request peer (get_sync_directory S request.folder s) s
