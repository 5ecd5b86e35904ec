-- ===== src/Sync.antt =====
-- Synchronised directories, their files and blocks (src/sync_directory.rs). A text, a path and a
-- hash are lists of bytes. SHA-256 is the crate ring's, a parameter.
pub mod FilePath
pub mod Blocks
use bep_rs.Prelude.{
  ℕ, zero, suc, ◌+◌, ◌%◌, ◌^◌, ◌==◌, if◌then◌else◌, Bool, true, false, ◌&&◌, Option, none, some,
  List, [], ◌∷◌, length, last?,
}
use bep_rs.Prelude.Int.{ℤ, as_u64}
use bep_rs.Sync.FilePath.{components_name}

pub record SyncBlock : Type 0 where
  pub offset : ℤ
  pub size : ℤ
  pub hash : List ℕ

pub record SyncFile : Type 0 where
  pub id : Option ℕ
  pub path : List ℕ
  pub hash : List ℕ
  pub modified_by : ℕ
  pub synced_version : ℕ
  pub versions : List (ℕ × ℕ)
  pub blocks : List SyncBlock

pub record SyncDirectory : Type 0 where
  pub id : List ℕ
  pub label : List ℕ
  pub path : Option (List ℕ)

-- The loop of `comp_hashes` (and of `compare_arrays`) over texts of one length.
unfoldable pub comp_hashes : List ℕ → List ℕ → Bool
comp_hashes [] [] = true
comp_hashes [] (b ∷ h2) = false
comp_hashes (a ∷ h1) [] = false
comp_hashes (a ∷ h1) (b ∷ h2) = a == b && comp_hashes h1 h2

unfoldable pub get_index_version : SyncFile → ℕ
get_index_version file = elim (last? file.versions) [ none ↦ 1 | some (_, v) ↦ v ]

-- A sum of `u64`: it panics in a debug build past 2 ^ 64, and wraps in a release build, as here.
unfoldable pub sum_sizes : ℕ → List SyncBlock → ℕ
sum_sizes acc [] = acc
sum_sizes acc (b ∷ blocks) = sum_sizes ((acc + as_u64 b.size) % 2 ^ 64) blocks

unfoldable pub get_size : SyncFile → ℕ
unfolding sum_sizes
get_size file = sum_sizes 0 file.blocks

unfoldable pub get_name : SyncFile → List ℕ
unfolding components_name
get_name file = components_name file.path
