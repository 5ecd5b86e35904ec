-- ===== src/Tests/Storage.antt =====
-- Files on a disk, and a download onto one.
use bep_rs.Prelude.{
  ℕ, ◌-◌, ◌≡◌, refl, true, false, ◌&&◌, leb, ltb, ◌++◌, if◌then◌else◌, none, some, List, [], ◌∷◌,
  codes, text_eq, get_or, arith,
}
use bep_rs.Prelude.Int.{pos, negsuc, as_i32, rem}
use bep_rs.Prelude.Outcome.{ok}
use bep_rs.Sync.{get_name}
use bep_rs.Sync.FilePath.{push}
use bep_rs.Sync.Blocks.{get_blocksize, file_blocks}
use bep_rs.State.Files.{update_sync_file}
use bep_rs.Storage.{Disk, Os, contents_of, write_block, read_block}
use bep_rs.Storage.Bytes.{byte_at, byte_at-write_block}
use bep_rs.Storage.Contents.{read_block-write_block}
use bep_rs.Connection.Fetch.{get_file}
use bep_rs.Connection.Fetch.Synced.{replay, IsCollisionFreeAt, get_file-replay}
use bep_rs.Connection.Items.{Request}
use bep_rs.Connection.Serve.{handle_request}
use bep_rs.Connection.Serve.Sizes.{handle_request_size}
use bep_rs.Tests.Database.{sql, before, photos_dir, laptop}
use bep_rs.Tests.Requests.{
  request, is_peer, is_dir, is_shared, hash, surroundings, wanted, download, peer_answers,
}

abbrev os : Os
os = record {
  can_write = λ path. true;
  can_read = λ path. true;
  not_opened = [];
  invalid_argument = [];
  unexpected_eof = [];
}

abbrev disk : Disk
disk path = some (5 ∷ 6 ∷ 7 ∷ [])

byte_at-write_block_example :
    ((write_block os (codes "a") 1 (8 ∷ 9 ∷ 10 ∷ []) disk).0 ≡ ok tt)
    × ((path : List ℕ) (i : ℕ)
        → byte_at (write_block os (codes "a") 1 (8 ∷ 9 ∷ 10 ∷ []) disk).1 path i ≡ (
            if text_eq path (codes "a") && (leb 1 i && ltb i 4)
            then get_or (8 ∷ 9 ∷ 10 ∷ []) (i - 1) 0
            else byte_at disk path i))
byte_at-write_block_example =
    byte_at-write_block os (codes "a") 1 (8 ∷ 9 ∷ 10 ∷ []) disk refl (omega arith)

read_block-write_block_example :
    read_block os (codes "a") 5 2 (write_block os (codes "a") 5 (8 ∷ 9 ∷ []) disk).1
    ≡ ok (8 ∷ 9 ∷ [])
read_block-write_block_example =
    read_block-write_block os (codes "a") 5 (8 ∷ 9 ∷ []) disk refl refl (omega arith) (omega arith)

-- A size of -1.
abbrev endless : Request
endless = record request { hash = []; size = negsuc 0 }

handle_request_size_example :
    handle_request sql hash
      (λ url offset len. read_block os url offset len disk)
      (1 ∷ 2 ∷ 3 ∷ [])
      endless
      before
    ≡ none
handle_request_size_example =
    handle_request_size sql hash os disk endless refl (1 ∷ 2 ∷ 3 ∷ []) before laptop 1 photos_dir
      (codes "/p") (5 ∷ 6 ∷ 7 ∷ []) 0 is_peer refl is_dir is_shared refl refl refl refl
      (omega arith) (omega arith)

hash-IsCollisionFreeAt : IsCollisionFreeAt hash (1 ∷ 2 ∷ [])
hash-IsCollisionFreeAt xs a n h = cc

wanted_cut : file_blocks hash (1 ∷ 2 ∷ []) ≡ ok wanted.blocks
unfolding file_blocks get_blocksize rem as_i32
wanted_cut = refl

downloads : (get_file sql surroundings photos_dir wanted peer_answers (pos 3) download).0 ≡ ok tt
unfolding get_file text_eq update_sync_file
downloads = refl

get_file-replay_example :
    let file = push (codes "/p") (get_name wanted) in
    let after =
      replay os
        (get_file sql surroundings photos_dir wanted peer_answers (pos 3) download).1.writes
        disk in
    (contents_of (after file) ≡ (1 ∷ 2 ∷ []) ++ 7 ∷ [])
    × ((other : List ℕ) → text_eq other file ≡ false → after other ≡ disk other)
get_file-replay_example =
    get_file-replay sql surroundings photos_dir wanted peer_answers (pos 3) os (codes "/p")
      (1 ∷ 2 ∷ []) download disk (omega arith) (omega arith) wanted_cut hash-IsCollisionFreeAt refl
      refl refl downloads
