-- ===== src/Sync/Blocks.antt =====
-- Cutting a file into blocks (src/sync_directory.rs, `get_blocksize` and `gen_blocks`).
-- The disk gives the contents of the file at a path, `none` where it cannot be opened. Reading is
-- modelled on the bytes that are left and the position in the file.
pub mod Arith
pub mod Layout
pub mod Tiling
pub mod Size
use bep_rs.Prelude.{
  ℕ, zero, suc, ◌+◌, ◌-◌, ◌*◌, ◌/◌, ◌%◌, ◌^◌, leb, ltb, ◌==◌, if◌then◌else◌, Option, none, some,
  List, [], ◌∷◌, ◌++◌, length, take, drop,
}
use bep_rs.Prelude.Int.{ℤ, pos, as_i32, rem}
use bep_rs.Prelude.Outcome.{Outcome, ok, err, panicked, ◌>>=◌, ok_or}
use bep_rs.Sync.{SyncBlock, SyncDirectory}
use bep_rs.Sync.FilePath.{push}

pub data IoError : Type 0 where
  non_synced_directory open_failed unexpected_eof peer_not_yet_received : IoError

unfoldable pub get_blocksize : ℕ → ℕ
get_blocksize file_size =
    if ltb file_size (250 * 1024 ^ 2)
    then 128 * 1024
    else if ltb file_size (500 * 1024 ^ 2)
    then 256 * 1024
    else if ltb file_size (1024 ^ 3)
    then 512 * 1024
    else if ltb file_size (2 * 1024 ^ 3)
    then 1024 ^ 2
    else if ltb file_size (4 * 1024 ^ 3)
    then 2 * 1024 ^ 2
    else if ltb file_size (8 * 1024 ^ 3)
    then 4 * 1024 ^ 2
    else if ltb file_size (16 * 1024 ^ 3)
    then 8 * 1024 ^ 2
    else 16 * 1024 ^ 2

-- `u32::div_ceil`
abbrev pub div_ceil : ℕ → ℕ → ℕ
div_ceil a b = if a % b == 0 then a / b else a / b + 1

module _ (sha256 : List ℕ → List ℕ) where
  -- The loop: `read_exact` fails where fewer bytes are left. It returns the blocks that it pushed,
  -- and what is left of the file.
  unfoldable pub full_blocks :
      ℕ → ℕ → ℕ → List ℕ → List SyncBlock → Outcome IoError (List SyncBlock × List ℕ)
  full_blocks zero block_len position rest blocks = ok (blocks, rest)
  full_blocks (suc rounds) block_len position rest blocks =
      let buf = take block_len rest in
      let block : SyncBlock = record {
        offset = pos position;
        size = as_i32 block_len;
        hash = sha256 buf;
      } in
      let more =
        full_blocks rounds block_len (position + block_len) (drop block_len rest)
          (blocks ++ block ∷ []) in
      if leb block_len (length rest) then more else err unexpected_eof

  -- After the loop: the rest of the file is the last block.
  unfoldable pub last_block : ℕ → ℕ → ℕ → List ℕ → SyncBlock
  last_block len block_len num_blocks rest = record {
    offset = pos (block_len * (num_blocks - 1));
    size = rem (as_i32 len) block_len;
    hash = sha256 rest;
  }

  -- With no blocks, `num_blocks - 1` overflows and panics (debug build; a release build wraps
  -- around, and the first `read_exact` fails).
  unfoldable pub cut_blocks : ℕ → ℕ → ℕ → List ℕ → Outcome IoError (List SyncBlock)
  unfolding full_blocks last_block
  cut_blocks len block_len zero contents = panicked
  cut_blocks len block_len (suc rounds) contents = do
    (blocks, rest) ← full_blocks rounds block_len 0 contents []
    ok (blocks ++ last_block len block_len (suc rounds) rest ∷ [])

  -- `len` is the length as a `u32`.
  unfoldable pub file_blocks : List ℕ → Outcome IoError (List SyncBlock)
  unfolding cut_blocks
  file_blocks contents =
      let len = length contents % 2 ^ 32 in
      let block_len = get_blocksize len in
      cut_blocks len block_len (div_ceil len block_len) contents

  unfoldable pub gen_blocks :
      (List ℕ → Option (List ℕ)) → List ℕ → SyncDirectory → Outcome IoError (List SyncBlock)
  unfolding file_blocks
  gen_blocks disk file_path dir = do
    path ← ok_or non_synced_directory dir.path
    contents ← ok_or open_failed (disk (push path file_path))
    file_blocks contents
