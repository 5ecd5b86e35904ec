-- ===== src/Connection/Updates.antt =====
-- Indexes for the peer (src/peer_connection/mod.rs, `send_index` and `directory_updated`), and the
-- download of a directory (`get_directory`). The handlers of an index only read the state. What is
-- submitted to the connection is a list; a panic is `panicked`.
pub mod Shared
pub mod Wanted
use bep_rs.Prelude.{
  ℕ, ◌<◌, Bool, true, false, not, ltb, ◌||◌, if◌then◌else◌, Option, none, some, List, [], ◌∷◌, ◌++◌,
  map, codes,
}
use bep_rs.Prelude.Int.{ℤ, pos, negsuc, as_i32, as_i64}
use bep_rs.Prelude.Outcome.{Outcome, ok, err, panicked, ◌>>=◌, unwrap}
use bep_rs.Sync.{SyncBlock, SyncFile, SyncDirectory, get_name, get_size, get_index_version}
use bep_rs.Sync.FilePath.{push}
use bep_rs.Sync.Blocks.{IoError, gen_blocks}
use bep_rs.State.Models.{SyncFileBlock}
use bep_rs.State.Monad.{Sql, BepState}
use bep_rs.State.Folders.{
  get_sync_directories, get_sync_directory, is_directory_synced, directory_changed,
}
use bep_rs.State.Files.{get_sync_files}
use bep_rs.Connection.Items.{Request, BlockInfo, Counter, FileInfo, Index, PeerCommandError}
use bep_rs.Connection.Requests.{PeerRequestResponse}
use bep_rs.Connection.Serve.{find_peer}
use bep_rs.Connection.Fetch
use bep_rs.Connection.Fetch.{Download, Fetch, and_then, get_file}

-- What surrounds the sending of an index: ORDER BY, SHA-256, the contents of a file, and the time
-- at which the regular file at a path was modified, where there is one.
pub record Surroundings : Type 0 where
  pub order_by_offset : List SyncFileBlock → List SyncFileBlock
  pub sha256 : List ℕ → List ℕ
  pub disk : List ℕ → Option (List ℕ)
  pub modified : List ℕ → Option ℤ

-- The path of the file is taken as it is, not within its directory.
abbrev pub modified_s : (List ℕ → Option ℤ) → SyncFile → ℤ
modified_s modified file = elim (modified file.path) [ none ↦ negsuc 0 | some time ↦ time ]

abbrev pub counter_of : ℕ × ℕ → Counter
counter_of (id, value) = record { id = id; value = value }

abbrev pub info_of : SyncBlock → BlockInfo
info_of b = record { hash = b.hash; offset = b.offset; size = b.size; weak_hash = 0 }

module _ (env : Surroundings) (dir : SyncDirectory) where
  unfoldable pub file_info : SyncFile → Outcome IoError FileInfo
  unfolding get_name get_size
  file_info x = gen_blocks env.sha256 env.disk x.path dir >>= λ blocks. ok (record {
    name = get_name x;
    type = pos 0;
    size = as_i64 (get_size x);
    permissions = 0;
    modified_s = modified_s env.modified x;
    modified_ns = pos 0;
    modified_by = 0;
    deleted = false;
    invalid = false;
    no_permissions = true;
    version = some (map counter_of x.versions);
    sequence = pos 1;
    block_size = as_i32 (get_size x);
    blocks = map info_of blocks;
    symlink_target = [];
    blocks_hash = [];
    encrypted = [];
    local_flags = 0;
    version_hash = [];
    inode_change_ns = pos 0;
    encryption_trailer_size = pos 0;
  })

  -- `collect` stops at the first error.
  unfoldable pub file_infos : List SyncFile → Outcome IoError (List FileInfo)
  unfolding file_info
  file_infos [] = ok []
  file_infos (x ∷ files) = file_info x >>= λ info. file_infos files >>= λ infos. ok (info ∷ infos)

module _ (S : Sql) (env : Surroundings) (s : BepState S) where
  unfoldable pub index_of : SyncDirectory → Outcome IoError Index
  unfolding file_infos
  index_of dir = unwrap (get_sync_files S env.order_by_offset dir.id s).0 >>= λ files.
      file_infos env dir files >>= λ infos.
      ok (record { folder = dir.id; files = infos; last_sequence = pos 0 })

  -- One more index that is submitted, if there is one.
  abbrev pub submit :
      Outcome IoError Index
      → Outcome IoError (Unit {0}) × List Index
      → Outcome IoError (Unit {0}) × List Index
  submit (ok index) (r, sent) = (r, index ∷ sent)
  submit (err e) rest = (err e, [])
  submit panicked rest = (panicked, [])

  unfoldable pub send_indexes : ℕ → List SyncDirectory → Outcome IoError (Unit {0}) × List Index
  unfolding index_of
  send_indexes peer [] = (ok tt, [])
  send_indexes peer (dir ∷ dirs) =
      let rest = send_indexes peer dirs in
      if is_directory_synced S dir.id peer s then submit (index_of dir) rest else rest

  -- The id of the peer is unwrapped for each directory, so only if there is one.
  abbrev pub send_to : Option ℕ → List SyncDirectory → Outcome IoError (Unit {0}) × List Index
  send_to (some peer) dirs = send_indexes peer dirs
  send_to none [] = (ok tt, [])
  send_to none (dir ∷ dirs) = (panicked, [])

  unfoldable pub send_index : List ℕ → Outcome IoError (Unit {0}) × List Index
  unfolding send_indexes find_peer
  send_index peer_id = elim (find_peer S peer_id s) [
    | none ↦ (err IoError.peer_not_yet_received, [])
    | some peer ↦ send_to peer.id (get_sync_directories S s)
  ]

  -- Whether the directory is one that the peer shares; the id of the peer is unwrapped.
  abbrev pub concerns : Option ℕ → Option SyncDirectory → Option Bool
  concerns peer none = some false
  concerns none (some dir) = none
  concerns (some peer) (some dir) = some (is_directory_synced S dir.id peer s)

  unfoldable pub directory_updated :
      List ℕ → SyncDirectory → Outcome IoError (Unit {0}) × List Index
  unfolding send_index
  directory_updated peer_id directory = elim (find_peer S peer_id s) [
    | none ↦ (ok tt, [])
    | some peer ↦ elim (concerns peer.id (get_sync_directory S directory.id s)) [
      | none ↦ (panicked, [])
      | some false ↦ (ok tt, [])
      | some true ↦ send_index peer_id
    ]
  ]

-- A download of every file that is missing on the disk or behind its newest version. `exists` is
-- the file system's answer at that point; `ask` and the random id of the requests are those of
-- `get_file`.
module _ (S : Sql) (env : Fetch.Surroundings) (exists : Download S → List ℕ → Bool)
    (ask : Request → Outcome PeerCommandError PeerRequestResponse) (message_id : SyncFile → ℤ)
    (directory : SyncDirectory) where
  unfoldable pub get_files : List SyncFile → Fetch S
  unfolding get_index_version
  get_files [] d = (ok tt, d)
  get_files (file ∷ files) d = elim directory.path [
    | none ↦ (err (PeerCommandError.other (codes "Requested get of non-synced directory")), d)
    | some path ↦
        if not (exists d (push path file.path)) || ltb file.synced_version (get_index_version file)
        then and_then (get_file S env directory file ask (message_id file) d) (get_files files)
        else get_files files d
  ]

  -- At the end the other peers are told.
  unfoldable pub get_directory : Fetch S
  unfolding get_files
  get_directory d =
      let (index, s) = get_sync_files S env.order_by_offset directory.id d.state in
      elim index [
        | none ↦ (panicked, record d { state = s })
        | some files ↦ and_then (get_files files (record d { state = s })) λ d'.
            let (r, s') = directory_changed S directory d'.state in
            (Fetch.finish r, record d' { state = s' })
      ]
