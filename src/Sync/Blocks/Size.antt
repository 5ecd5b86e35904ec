-- ===== src/Sync/Blocks/Size.antt =====
-- What the sizes of the blocks add up to, and the empty file (src/sync_directory.rs).
use bep_rs.Prelude.{
  ℕ, ◌+◌, ◌-◌, ◌*◌, ◌%◌, ◌^◌, ◌≤◌, ◌<◌, ◌≡◌, ◌∙◌, refl, ap, ◌==◌, if◌then◌else◌, List, [], length,
  arith,
}
use bep_rs.Prelude.Outcome.{ok, panicked}
use bep_rs.Sync.{SyncBlock, sum_sizes}
use bep_rs.Sync.Blocks.{get_blocksize, file_blocks}
use bep_rs.Sync.Blocks.Arith.{get_blocksize_bounds, sum_sizes_exact}
use bep_rs.Sync.Blocks.Layout.{file_blocks-Covers}

-- A file of 1 to 2 ^ 31 - 1 bytes is cut into blocks that add up to the length of the file, but to one block less where that
-- length is a whole number of blocks, since the last block then has size 0.
pub sum_sizes-file_blocks :
    (sha256 : List ℕ → List ℕ) (contents : List ℕ)
    → 0 < length contents
    → length contents < 2 ^ 31
    → let bl = get_blocksize (length contents) in
      (blocks : List SyncBlock) × (file_blocks sha256 contents ≡ ok blocks)
      × (sum_sizes 0 blocks
          ≡ (if length contents % bl == 0 then length contents - bl else length contents))
sum_sizes-file_blocks sha256 contents nonempty small =
    let (blocks, cut, c) = file_blocks-Covers sha256 contents small nonempty in
    let (lo, hi) = get_blocksize_bounds (length contents) in
    let same = c.block_size in
    let starts : c.rounds * get_blocksize (length contents) < length contents =
      rw (← same) (c.last_starts) in
    let ends : length contents
        ≤ c.rounds * get_blocksize (length contents) + get_blocksize (length contents) =
      rw (← same) (c.last_ends) in
    (
      blocks,
      cut,
      c.total
          ∙ ap (λ b. c.rounds * b + length contents % b) same
          ∙ sum_sizes_exact (length contents) (get_blocksize (length contents)) c.rounds
              (omega arith) starts ends,
    )

-- An empty file has no blocks: `gen_blocks` panics on it.
pub file_blocks_empty : (sha256 : List ℕ → List ℕ) → file_blocks sha256 [] ≡ panicked
unfolding file_blocks get_blocksize
file_blocks_empty sha256 = refl
