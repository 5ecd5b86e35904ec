-- ===== src/Tests/Blocks.antt =====
-- Files cut into blocks.
use bep_rs.Prelude.{ℕ, ◌≡◌, ◌%◌, ◌-◌, ◌==◌, if◌then◌else◌, List, ◌∷◌, length, codes, arith}
use bep_rs.Prelude.Outcome.{ok}
use bep_rs.Sync.{SyncBlock, sum_sizes}
use bep_rs.Sync.Blocks.{file_blocks, get_blocksize}
use bep_rs.Sync.Blocks.Layout.{Covers, file_blocks-Covers}
use bep_rs.Sync.Blocks.Size.{sum_sizes-file_blocks}

-- A stand-in for a hash function.
abbrev hash : List ℕ → List ℕ
hash bytes = 7 ∷ bytes

abbrev contents : List ℕ
contents = codes "hello world"

file_blocks-Covers_example :
    (blocks : List SyncBlock) × (file_blocks hash contents ≡ ok blocks)
    × Covers hash contents blocks
file_blocks-Covers_example = file_blocks-Covers hash contents (omega arith) (omega arith)

sum_sizes-file_blocks_example :
    (blocks : List SyncBlock) × (file_blocks hash contents ≡ ok blocks)
    × (sum_sizes 0 blocks ≡ (
        if length contents % get_blocksize (length contents) == 0
        then length contents - get_blocksize (length contents)
        else length contents))
sum_sizes-file_blocks_example = sum_sizes-file_blocks hash contents (omega arith) (omega arith)
