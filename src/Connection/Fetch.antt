-- ===== src/Connection/Fetch.antt =====
-- Downloading a file from a peer (src/peer_connection/mod.rs, `get_file`). The peer is a function
-- that answers each request, as `submit_request` returns it; the storage tells whether a write
-- succeeds, and what was asked of it is logged. Paths are texts, so `to_str` does not fail.
pub mod Integrity
pub mod Synced
use bep_rs.Prelude.{
  ℕ, zero, suc, ◌==◌, Bool, true, false, if◌then◌else◌, is_empty, Option, none, some, List, [], ◌∷◌,
  ◌++◌, codes, text_eq,
}
use bep_rs.Prelude.Int.{ℤ, pos, negsuc, as_u64, as_i32}
use bep_rs.Prelude.Outcome.{Outcome, ok, err, panicked}
use bep_rs.Sync.{SyncBlock, SyncFile, SyncDirectory, get_name, get_index_version}
use bep_rs.Sync.FilePath.{push}
use bep_rs.State.Models.{SyncFileBlock}
use bep_rs.State.Monad.{Sql, BepState}
use bep_rs.State.Files.{update_sync_file}
use bep_rs.Connection.Items.{Request, Response, ErrorCode, PeerCommandError}
use bep_rs.Connection.Requests.{PeerRequestResponse}

-- `ErrorCode::from_i32`
abbrev pub from_i32 : ℤ → Option ErrorCode
from_i32 (negsuc n) = none
from_i32 (pos n) =
    if n == 0
    then some ErrorCode.no_error
    else if n == 1
    then some ErrorCode.generic
    else if n == 2
    then some ErrorCode.no_such_file
    else if n == 3
    then some ErrorCode.invalid_file
    else none

-- What the code finds around a call: the database, and the writes that were asked of the storage,
-- each a path, an offset and the bytes.
pub record Download (S : Sql) : Type 0 where
  pub state : BepState S
  pub writes : List (List ℕ × (ℕ × List ℕ))

abbrev pub Fetch : Sql → Type 0
Fetch S = Download S → Outcome PeerCommandError (Unit {0}) × Download S

module _ {S : Sql} where
  -- `?`
  abbrev pub and_then :
      Outcome PeerCommandError (Unit {0}) × Download S
      → Fetch S
      → Outcome PeerCommandError (Unit {0}) × Download S
  and_then (ok u, d) next = next d
  and_then (err e, d) next = (err e, d)
  and_then (panicked, d) next = (panicked, d)

-- A method that panics takes the task with it.
abbrev pub finish : Option (Unit {0}) → Outcome PeerCommandError (Unit {0})
finish none = panicked
finish (some u) = ok u

-- What surrounds a download: ORDER BY, SHA-256, the storage, and how the crates print an error and
-- a number.
pub record Surroundings : Type 0 where
  pub order_by_offset : List SyncFileBlock → List SyncFileBlock
  pub sha256 : List ℕ → List ℕ
  pub write_block : List ℕ → ℕ → List ℕ → Bool
  pub print_error : PeerCommandError → List ℕ
  pub print_code : ℤ → List ℕ

module _ (S : Sql) (env : Surroundings) (directory : SyncDirectory) (sync_file : SyncFile) where
  -- After every block, the file counts as synced up to its last version.
  unfoldable pub mark_synced : Fetch S
  unfolding get_index_version
  mark_synced d =
      let (r, s) =
        update_sync_file S env.order_by_offset directory
          (record sync_file { synced_version = get_index_version sync_file }) d.state in
      (finish r, record d { state = s })

  unfoldable pub store_block : SyncBlock → List ℕ → Fetch S
  unfolding mark_synced get_name
  store_block block bytes d = elim directory.path [
    | none ↦ (err (PeerCommandError.other (codes "Requesting file from non-synced directory")), d)
    | some path ↦
        let file = push path (get_name sync_file) in
        let asked : Download S = record d {
          writes = d.writes ++ (file, (as_u64 block.offset, bytes)) ∷ [];
        } in
        if env.write_block file (as_u64 block.offset) bytes
        then mark_synced asked
        else (panicked, asked)
  ]

  unfoldable pub take_coded : SyncBlock → Response → Option ErrorCode → Fetch S
  unfolding store_block
  take_coded block response (some ErrorCode.no_error) d =
      if text_eq (env.sha256 response.bytes) block.hash
      then store_block block response.bytes d
      else (err PeerCommandError.invalid_file, d)
  take_coded block response (some ErrorCode.no_such_file) d = (err PeerCommandError.no_such_file, d)
  take_coded block response (some ErrorCode.invalid_file) d = (err PeerCommandError.invalid_file, d)
  take_coded block response (some ErrorCode.generic) d =
      (err (PeerCommandError.other (codes "Generic Error")), d)
  take_coded block response none d = (
    err (
        PeerCommandError.other
          (codes "Invalid error code received: " ++ env.print_code response.code)),
    d,
  )

  unfoldable pub take_answer : SyncBlock → Outcome PeerCommandError PeerRequestResponse → Fetch S
  unfolding take_coded
  take_answer block (ok (PeerRequestResponse.response response)) d =
      take_coded block response (from_i32 response.code) d
  take_answer block (ok (PeerRequestResponse.error e)) d = (
    err (
        PeerCommandError.other
          (codes "Received an error while getting file: " ++ env.print_error e)),
    d,
  )
  take_answer block (ok PeerRequestResponse.closed) d = (err PeerCommandError.connection_closed, d)
  take_answer block (ok PeerRequestResponse.sent) d = (
    err (
        PeerCommandError.other
          (codes "Got error on file request, and I don't know how to handle errors.")),
    d,
  )
  take_answer block (err e) d = (err e, d)
  take_answer block panicked d = (panicked, d)

  -- The request for the block of number `i`.
  unfoldable pub request_for : ℤ → ℕ → SyncBlock → Request
  unfolding get_name
  request_for message_id i block = record {
    id = message_id;
    folder = directory.id;
    name = get_name sync_file;
    offset = block.offset;
    size = block.size;
    hash = block.hash;
    from_temporary = false;
    weak_hash = 0;
    block_no = as_i32 i;
  }

  module _ (ask : Request → Outcome PeerCommandError PeerRequestResponse) (message_id : ℤ) where
    unfoldable pub get_blocks_from : ℕ → List SyncBlock → Fetch S
    unfolding take_answer request_for
    get_blocks_from i [] d = (ok tt, d)
    get_blocks_from i (block ∷ blocks) d =
        and_then (take_answer block (ask (request_for message_id i block)) d)
          (get_blocks_from (suc i) blocks)

    unfoldable pub get_file : Fetch S
    unfolding get_blocks_from
    get_file d =
        if is_empty sync_file.blocks
        then (err (PeerCommandError.other (codes "File object has no blocks")), d)
        else get_blocks_from 0 sync_file.blocks d
