-- ===== src/Sync/Blocks/Arith.antt =====
-- Sizes and counts of blocks (src/sync_directory.rs, `get_blocksize` and `gen_blocks`).
use bep_rs.Prelude.{
  ℕ, suc, ◌+◌, ◌-◌, ◌*◌, ◌/◌, ◌%◌, ◌^◌, ◌≤◌, ◌<◌, ◌≡◌, ◌≢◌, leb, leb→le, ◌==◌, if◌then◌else◌, List,
  [], ◌∷◌, arith, Bool-cases, ==_iff, inl, inr,
}
use native.Mathlib.Nat.{div-add-mod', mod-lt}
use bep_rs.Prelude.Int.{ℤ, pos, as_i32, as_u64}
use bep_rs.Sync.{sum_sizes}
use bep_rs.Sync.Blocks.{get_blocksize, div_ceil}

pub get_blocksize_bounds : (n : ℕ) → (131072 ≤ get_blocksize n) × (get_blocksize n ≤ 16777216)
unfolding get_blocksize
get_blocksize_bounds n = ground arith

-- The rounds of the loop stay inside the file, and leave at most one block.
pub div_ceil_bounds :
    (a b r : ℕ) → 0 < b → div_ceil a b ≡ suc r → (r * b ≤ a) × (a ≤ r * b + b) × (r * b < a)
div_ceil_bounds a b r hb h = elim (Bool-cases (a % b == 0)) [
  | inl even ↦
      let q : a / b ≡ suc r = ground arith in
      let z : a % b ≡ 0 = (==_iff _ _).0 even in
      let whole : suc r * b + 0 ≡ a = rw (q, z) at (div-add-mod' a b) in omega arith
  | inr odd ↦
      let q : a / b ≡ r = ground arith in
      let whole : r * b + a % b ≡ a = rw q at (div-add-mod' a b) in
      let nonzero : a % b ≢ 0 = ground arith in let small = mod-lt a hb in omega arith
]

pub div_ceil_pos : (a b : ℕ) → 0 < a → 0 < b → div_ceil a b ≡ suc (div_ceil a b - 1)
div_ceil_pos a b ha hb = elim (Bool-cases (a % b == 0)) [
  | inl even ↦
      let z : a % b ≡ 0 = (==_iff _ _).0 even in
      let whole : a / b * b + 0 ≡ a = rw z at (div-add-mod' a b) in
      let nonzero : a / b ≢ 0 = λ e. let none : 0 * b + 0 ≡ a = rw e at whole in omega arith in
      rw even (omega arith)
  | inr odd ↦ rw odd (omega arith)
]

pub wrap_size :
    (acc bl : ℕ) → bl < 2 ^ 31 → acc + bl < 2 ^ 32 → (acc + as_u64 (as_i32 bl)) % 2 ^ 64 ≡ acc + bl
unfolding as_u64 as_i32
wrap_size acc bl hb h = ground arith

pub as_i32_small : (n : ℕ) → n < 2 ^ 31 → as_i32 n ≡ pos n
unfolding as_i32
as_i32_small n h = ground arith

pub sum_last :
    (n m : ℕ) (offset : ℤ) (hash : List ℕ)
    → n + m < 2 ^ 64
    → sum_sizes (0 + n) (record { offset = offset; size = pos m; hash = hash } ∷ []) ≡ n + m
unfolding sum_sizes as_u64
sum_last n m offset hash h = omega arith

lt_of_mul : (x y b : ℕ) → x * b < y * b → x < y
lt_of_mul x y b h = elim (Bool-cases (leb y x)) [
  | inl ge ↦
      let le : y ≤ x = leb→le y x ge in
      let grows : y * b ≤ x * b = grind arith in absurd (omega arith)
  | inr lt ↦ ground arith
]

-- A whole number of blocks is counted one block short.
pub sum_sizes_exact :
    (n bl r : ℕ)
    → 0 < bl
    → r * bl < n
    → n ≤ r * bl + bl
    → r * bl + n % bl ≡ (if n % bl == 0 then n - bl else n)
sum_sizes_exact n bl r pos_bl lo hi =
    let q = n / bl in
    let whole : q * bl + n % bl ≡ n = div-add-mod' n bl in
    let small = mod-lt n pos_bl in
    let low : r < suc q = lt_of_mul r (suc q) bl (omega arith) in
    elim (Bool-cases (n % bl == 0)) [
      | inl even ↦
          let z : n % bl ≡ 0 = (==_iff _ _).0 even in
          let below : r < q = lt_of_mul r q bl (omega arith) in
          let above : q < suc (suc r) = lt_of_mul q (suc (suc r)) bl (omega arith) in
          let e : q ≡ suc r = omega arith in
          let n_is : suc r * bl + n % bl ≡ n = rw (← e) whole in rw even (omega arith)
      | inr odd ↦
          let nonzero : n % bl ≢ 0 = ground arith in
          let above : q < suc r = lt_of_mul q (suc r) bl (omega arith) in
          let e : q ≡ r = omega arith in
          let n_is : r * bl + n % bl ≡ n = rw (← e) whole in rw odd (omega arith)
    ]
