-- ===== src/Connection/Serve/Sizes.antt =====
-- What the size in a peer's request leads to (src/peer_connection/handlers.rs, `handle_request`, with
-- `read_block` of src/storage_backend.rs).
use bep_rs.Prelude.{
  ℕ, ◌^◌, ◌<◌, ◌≡◌, refl, ap, ◌∙◌, ltb, lt→ltb, true, false, if◌then◌else◌, Option, none, some,
  List, [], length, take, drop, arith, Bool-cases, inl, inr,
}
use bep_rs.Prelude.Int.{ℤ, pos, negsuc, as_u64}
use bep_rs.Sync.{SyncDirectory}
use bep_rs.Sync.FilePath.{push}
use bep_rs.State.Models.{Peer}
use bep_rs.State.Monad.{Sql, BepState}
use bep_rs.State.Folders.{get_sync_directory, is_directory_synced}
use bep_rs.Storage.{Disk, Os, read_contents, read_block}
use bep_rs.Storage.Contents.{read_block-read_contents}
use bep_rs.Connection.Items.{Request, Response, ErrorCode}
use bep_rs.Connection.Serve.{find_peer, reply, respond_read, handle_request}

-- The size is an `i32`.
abbrev pub IsI32 : ℤ → Type 0
IsI32 (pos k) = k < 2 ^ 31
IsI32 (negsuc k) = k < 2 ^ 31

-- The answer for a part of this size of what stands from the offset on: so many bytes, or an error where
-- there are fewer; no answer at all for a negative size.
abbrev pub answer_of : Request → ℤ → List ℕ → Option Response
answer_of request (pos k) rest =
    if ltb (length rest) k
    then some (reply request [] ErrorCode.no_such_file)
    else some (reply request (take k rest) ErrorCode.no_error)
answer_of request (negsuc k) rest = none

as_u64_offset : (o : ℕ) → o < 2 ^ 63 → as_u64 (pos o) ≡ o
unfolding as_u64
as_u64_offset o h = ground arith

-- A negative size is cast to a length that no buffer has.
as_u64_negative : (k : ℕ) → k < 2 ^ 31 → ltb (as_u64 (negsuc k)) (2 ^ 63) ≡ false
unfolding as_u64
as_u64_negative k h = ground arith

module _ (S : Sql) (sha256 : List ℕ → List ℕ) (os : Os) (disk : Disk) (request : Request)
    (no_hash : request.hash ≡ []) where
  respond_contents :
      (o : ℕ) (size : ℤ) (contents : List ℕ)
      → o < 2 ^ 63
      → IsI32 size
      → respond_read S sha256
          (λ url offset len. read_block os url offset len disk)
          request
          (read_contents os o (as_u64 size) contents)
        ≡ answer_of request size (drop o contents)
  unfolding respond_read read_contents
  respond_contents o (pos k) contents small fits =
      let short : ltb k (2 ^ 63) ≡ true = ground arith in
      rw (as_u64_offset k (omega arith), lt→ltb o (2 ^ 63) small, short)
        (elim (Bool-cases (ltb (length (drop o contents)) k)) [
          | inl less ↦ rw less refl
          | inr enough ↦ rw (enough, no_hash) refl
        ])
  respond_contents o (negsuc k) contents small fits =
      rw (lt→ltb o (2 ^ 63) small, as_u64_negative k fits) refl

  -- A known peer asks, with no hash, for a part of a file of a directory that is shared with it, and the
  -- program can read the file. The offset is not negative, and the size is any `i32`. The answer holds
  -- exactly as many bytes as were asked for, those that stand at the offset; where the file ends before
  -- that, it reports that there is no such file; and for a negative size the handler panics.
  pub handle_request_size :
      (peer_id : List ℕ) (s : BepState S) (peer : Peer) (id : ℕ) (dir : SyncDirectory)
      (path contents : List ℕ) (o : ℕ)
      → find_peer S peer_id s ≡ some peer
      → peer.id ≡ some id
      → get_sync_directory S request.folder s ≡ some dir
      → is_directory_synced S dir.id id s ≡ true
      → dir.path ≡ some path
      → disk (push path request.name) ≡ some contents
      → os.can_read (push path request.name) ≡ true
      → request.offset ≡ pos o
      → o < 2 ^ 63
      → IsI32 request.size
      → handle_request S sha256
          (λ url offset len. read_block os url offset len disk)
          peer_id
          request
          s
        ≡ answer_of request request.size (drop o contents)
  unfolding handle_request
  handle_request_size peer_id s peer id dir path contents o is_peer has_id is_dir shared has_path
        there readable at small fits =
      let place : as_u64 request.offset ≡ o = ap as_u64 at ∙ as_u64_offset o small in
      rw (is_peer, is_dir, has_id, shared, has_path, place)
        (ap (respond_read S sha256 (λ url offset len. read_block os url offset len disk) request) (
            read_block-read_contents os (push path request.name) o (as_u64 request.size) disk
              contents there readable)
          ∙ respond_contents o request.size contents small fits)
