-- ===== src/Sync/Blocks/Layout.antt =====
-- The blocks of a file cover it in order (src/sync_directory.rs, `gen_blocks`).
use bep_rs.Prelude.{
  ℕ, zero, suc, ◌+◌, ◌-◌, ◌*◌, ◌%◌, ◌^◌, ◌≤◌, ◌<◌, ◌≡◌, ◌∙◌, refl, ap, le→leb, List, [], ◌∷◌, ◌++◌,
  some, length, take, drop, get_elem?, length-append, length-drop, drop-add, append_assoc,
  append-nil, arith, get_elem?-append, get_elem?-append_left,
}
use native.Mathlib.Nat.{mod-lt}
use bep_rs.Prelude.Int.{pos, as_i32, rem}
use bep_rs.Prelude.Outcome.{ok}
use bep_rs.Sync.{SyncBlock, sum_sizes}
use bep_rs.Sync.Blocks.{get_blocksize, div_ceil, full_blocks, last_block, cut_blocks, file_blocks}
use bep_rs.Sync.Blocks.Arith.{
  get_blocksize_bounds, div_ceil_bounds, div_ceil_pos, wrap_size, as_i32_small, sum_last,
}

module _ (sha256 : List ℕ → List ℕ) (bl : ℕ) where
  block_at : ℕ → List ℕ → SyncBlock
  block_at position contents = record {
    offset = pos position;
    size = as_i32 bl;
    hash = sha256 (take bl contents);
  }

  layout : ℕ → ℕ → List ℕ → List SyncBlock
  layout zero position rest = []
  layout (suc rounds) position rest =
      block_at position rest ∷ layout rounds (position + bl) (drop bl rest)

  length-layout :
      (rounds position : ℕ) (rest : List ℕ) → length (layout rounds position rest) ≡ rounds
  unfolding layout
  length-layout zero position rest = refl
  length-layout (suc rounds) position rest = ap suc (length-layout rounds _ _)

  full_blocks-layout :
      (rounds position : ℕ) (rest : List ℕ) (blocks : List SyncBlock)
      → rounds * bl ≤ length rest
      → full_blocks sha256 rounds bl position rest blocks
        ≡ ok (blocks ++ layout rounds position rest, drop (rounds * bl) rest)
  unfolding full_blocks layout block_at
  full_blocks-layout zero position rest blocks h =
      let z : 0 * bl ≡ 0 = omega arith in rw (z, append-nil, full_blocks)
  full_blocks-layout (suc rounds) position rest blocks h =
      rw (le→leb bl (length rest) (omega arith)) (
        full_blocks-layout rounds (position + bl) (drop bl rest) _
          (omega (arith, length-drop bl rest))
        ∙ rw (drop-add bl (rounds * bl) (suc rounds * bl) rest (omega arith), append_assoc))

  get_elem?-layout :
      (rounds position i : ℕ) (rest : List ℕ)
      → i < rounds
      → get_elem? (layout rounds position rest) i
        ≡ some (block_at (position + i * bl) (drop (i * bl) rest))
  unfolding layout
  get_elem?-layout zero position i rest h = absurd (omega arith)
  get_elem?-layout (suc rounds) position zero rest h =
      let z : 0 * bl ≡ 0 = omega arith in
      let e : position + 0 ≡ position = omega arith in rw z (rw e)
  get_elem?-layout (suc rounds) position (suc i) rest h =
      let e : position + bl + i * bl ≡ position + suc i * bl = omega arith in
      get_elem?-layout rounds (position + bl) i (drop bl rest) (omega arith)
      ∙ rw (e, drop-add bl (i * bl) (suc i * bl) rest (omega arith))

  sum_sizes-layout :
      (rounds position acc : ℕ) (rest : List ℕ) (more : List SyncBlock)
      → bl < 2 ^ 31
      → acc + rounds * bl < 2 ^ 32
      → sum_sizes acc (layout rounds position rest ++ more) ≡ sum_sizes (acc + rounds * bl) more
  unfolding layout block_at sum_sizes
  sum_sizes-layout zero position acc rest more hb h =
      let e : acc ≡ acc + 0 * bl = omega arith in ap (λ t. sum_sizes t more) e
  sum_sizes-layout (suc rounds) position acc rest more hb h =
      let e = wrap_size acc bl hb (omega arith) in
      let f : acc + bl + rounds * bl ≡ acc + suc rounds * bl = omega arith in
      ap (λ t. sum_sizes t (layout rounds (position + bl) (drop bl rest) ++ more)) e
      ∙ sum_sizes-layout rounds (position + bl) (acc + bl) (drop bl rest) more hb (omega arith)
      ∙ ap (λ t. sum_sizes t more) f

-- The blocks of a file of at most 2 ^ 31 - 1 bytes, of which `bl` is the block size: block i
-- starts at i * bl and has the hash of the bytes there; each but the last has size bl.
pub record Covers (sha256 : List ℕ → List ℕ) (contents : List ℕ) (blocks : List SyncBlock)
    : Type 0 where
  pub rounds : ℕ
  pub bl : ℕ
  pub block_size : bl ≡ get_blocksize (length contents)
  pub count : length blocks ≡ suc rounds
  pub last_starts : rounds * bl < length contents
  pub last_ends : length contents ≤ rounds * bl + bl
  pub full :
      (i : ℕ)
      → i < rounds
      → get_elem? blocks i
        ≡ some (record {
          offset = pos (i * bl);
          size = pos bl;
          hash = sha256 (take bl (drop (i * bl) contents));
        })
  pub last :
      get_elem? blocks rounds
      ≡ some (record {
        offset = pos (rounds * bl);
        size = pos (length contents % bl);
        hash = sha256 (drop (rounds * bl) contents);
      })
  pub total : sum_sizes 0 blocks ≡ rounds * bl + length contents % bl

block_at_lem :
    (sha256 : List ℕ → List ℕ) (bl i : ℕ) (contents : List ℕ)
    → bl < 2 ^ 31
    → block_at sha256 bl (0 + i * bl) contents
      ≡ record { offset = pos (i * bl); size = pos bl; hash = sha256 (take bl contents) }
unfolding block_at
block_at_lem sha256 bl i contents h =
    let e : 0 + i * bl ≡ i * bl = omega arith in rw (e, as_i32_small bl h)

module _ (sha256 : List ℕ → List ℕ) (contents : List ℕ) (small : length contents < 2 ^ 31) where
  len_as_u32 : length contents % 2 ^ 32 ≡ length contents
  len_as_u32 = omega arith

  last_block_lem :
      (bl n : ℕ) (rest : List ℕ)
      → last_block sha256 (length contents) bl (suc n) rest
        ≡ record { offset = pos (n * bl); size = pos (length contents % bl); hash = sha256 rest }
  unfolding last_block rem
  last_block_lem bl n rest =
      let e : bl * (suc n - 1) ≡ n * bl = grind arith in
      rw (e, as_i32_small (length contents) small)

  cut_blocks-Covers :
      (bl r : ℕ)
      → bl ≡ get_blocksize (length contents)
      → 0 < bl
      → bl < 2 ^ 31
      → div_ceil (length contents) bl ≡ suc r
      → (blocks : List SyncBlock) × (cut_blocks sha256 (length contents) bl (suc r) contents
          ≡ ok blocks)
        × Covers sha256 contents blocks
  unfolding cut_blocks
  cut_blocks-Covers bl r hbl pos_bl small_bl hr =
      let (inside, ends, starts) = div_ceil_bounds (length contents) bl r pos_bl hr in
      let last = last_block sha256 (length contents) bl (suc r) (drop (r * bl) contents) in
      let front = layout sha256 bl r 0 contents in
      let len_front = length-layout sha256 bl r 0 contents in
      (
        front ++ last ∷ [],
        rw (full_blocks-layout sha256 bl r 0 contents [] inside),
        record {
          rounds = r;
          bl = bl;
          block_size = hbl;
          count = omega (arith, length-append front (last ∷ []), len_front);
          last_starts = starts;
          last_ends = ends;
          full = λ i hi.
              get_elem?-append_left front (last ∷ []) i (omega (arith, len_front))
              ∙ get_elem?-layout sha256 bl r 0 i contents hi
              ∙ ap some (block_at_lem sha256 bl i (drop (i * bl) contents) small_bl);
          last =
              get_elem?-append front [] last r len_front
              ∙ ap some (last_block_lem bl r (drop (r * bl) contents));
          total =
              sum_sizes-layout sha256 bl r 0 0 contents (last ∷ []) small_bl (omega arith)
              ∙ ap (λ b. sum_sizes (0 + r * bl) (b ∷ []))
                  (last_block_lem bl r (drop (r * bl) contents))
              ∙ sum_last (r * bl) (length contents % bl) (pos (r * bl))
                  (sha256 (drop (r * bl) contents))
                  (omega (arith, mod-lt (length contents) pos_bl));
        },
      )

  -- A file of 1 to 2 ^ 31 - 1 bytes is cut without an error, and its blocks cover it (`Covers`): in
  -- order, without a gap, each with its offset and the hash of its bytes.
  pub file_blocks-Covers :
      0 < length contents
      → (blocks : List SyncBlock) × (file_blocks sha256 contents ≡ ok blocks)
        × Covers sha256 contents blocks
  unfolding file_blocks
  file_blocks-Covers nonempty =
      let bl = get_blocksize (length contents) in
      let (lo, hi) = get_blocksize_bounds (length contents) in
      let r = div_ceil (length contents) bl - 1 in
      rw len_as_u32 (
        rw (div_ceil_pos (length contents) bl nonempty (omega arith)) (
          cut_blocks-Covers bl r refl (omega arith) (omega arith)
            (div_ceil_pos (length contents) bl nonempty (omega arith))))
