-- ===== src/Scan/Unchanged.antt =====
-- A scan that finds nothing new (src/sync_directory.rs, `generate_index`).
use bep_rs.Prelude.{
  ℕ, ◌≡◌, refl, sym, ap, Bool, true, false, not, ltb, ◌⊎◌, inl, inr, is_empty, none, some, List, [],
  ◌∷◌, find?, last?, all, All, Bool-cases,
}
use mathlib.Core.Option.{some-injective}
use bep_rs.Sync.{SyncFile, SyncDirectory, comp_hashes}
use bep_rs.Sync.FilePath.{push}
use bep_rs.State.Monad.{Sql, BepState}
use bep_rs.State.Files.{get_sync_files}
use bep_rs.State.Peers.{get_short_id}
use bep_rs.Connection.Merge.{replace_first}
use bep_rs.Scan.{Surroundings, is_at, scan_known, scan_file, scan_files, generate_index}

-- A name in the directory whose file is in the index and is as the index has it, or of which the
-- peers have a newer version than the one that is synced.
pub record IsCurrent (env : Surroundings) (path : List ℕ) (sync_files : List SyncFile)
    (name : List ℕ) : Type 0 where
  pub bytes : List ℕ
  pub readable : env.disk (push path name) ≡ some bytes
  pub file : SyncFile
  pub found : find? (is_at name) sync_files ≡ some file
  pub author : ℕ
  pub latest : ℕ
  pub last_version : last? file.versions ≡ some (author, latest)
  pub settled :
      (ltb file.synced_version latest ≡ true) ⊎ (comp_hashes (env.sha256 bytes) file.hash ≡ true)

-- The entries of the index under these names.
abbrev pub entries_at : List SyncFile → List (List ℕ) → List SyncFile
entries_at sync_files [] = []
entries_at sync_files (name ∷ names) =
    let rest = entries_at sync_files names in
    elim (find? (is_at name) sync_files) [ none ↦ rest | some file ↦ file ∷ rest ]

replace_first-found :
    (p : SyncFile → Bool) (file : SyncFile) (files : List SyncFile)
    → find? p files ≡ some file
    → replace_first p file files ≡ files
unfolding replace_first
replace_first-found p file [] h = refl
replace_first-found p file (x ∷ files) h = elim (Bool-cases (p x)) [
  | inl here ↦ rw here (ap (λ t. t ∷ files) (sym (some-injective _ _ (rw here at h))))
  | inr other ↦ rw other (ap (λ t. x ∷ t) (replace_first-found p file files (rw other at h)))
]

last?-nonempty {ℓ} :
    {A : Type ℓ} (xs : List A) (x : A) → last? xs ≡ some x → not (is_empty xs) ≡ true
last?-nonempty [] x h = cc
last?-nonempty (y ∷ xs) x h = refl

module _ (S : Sql) (env : Surroundings) (dir : SyncDirectory) (path : List ℕ) (short_id : ℕ)
    (sync_files : List SyncFile) where
  scan_file-IsCurrent :
      (name : List ℕ) (s : BepState S) (current : IsCurrent env path sync_files name)
      → scan_file S env dir path short_id name sync_files s ≡ (some (current.file, false), s)
  unfolding scan_file scan_known
  scan_file-IsCurrent name s current =
      rw (scan_file, current.readable, current.found, current.last_version)
        (elim current.settled [
          | inl behind ↦ rw behind
          | inr same ↦ elim (Bool-cases (ltb current.file.synced_version current.latest)) [
            | inl behind ↦ rw behind
            | inr synced ↦ rw (synced, same)
          ]
        ])

  scan_files-IsCurrent :
      (names : List (List ℕ)) (s : BepState S)
      → All (IsCurrent env path sync_files) names
      → (scan_files S env dir path short_id names sync_files false s
          ≡ (some (entries_at sync_files names, false), s))
        × (all (λ (file : SyncFile). not (is_empty file.versions)) (entries_at sync_files names)
            ≡ true)
  unfolding scan_files
  scan_files-IsCurrent [] s h = (refl, refl)
  scan_files-IsCurrent (name ∷ names) s (current, others) =
      let (rest, nonempty) = scan_files-IsCurrent names s others in
      (
        rw (
          scan_file-IsCurrent name s current,
          replace_first-found (is_at name) current.file sync_files current.found,
          rest,
          entries_at,
          current.found,
        ),
        rw (entries_at, current.found, last?-nonempty current.file.versions _ current.last_version)
            nonempty,
      )

-- Scanning a directory in which every file is as the index has it, or is behind the newest version
-- of its peers (whatever it holds), changes nothing in the database, tells no peer, and returns the
-- entries of the index for the files that are there.
pub generate_index_unchanged :
    (S : Sql) (env : Surroundings) (dir : SyncDirectory) (path : List ℕ) (names : List (List ℕ))
    (short_id : ℕ) (sync_files : List SyncFile) (s : BepState S)
    → get_short_id S env.sha256 s ≡ (some short_id, s)
    → get_sync_files S env.order_by_offset dir.id s ≡ (some sync_files, s)
    → dir.path ≡ some path
    → env.read_dir path ≡ some names
    → All (IsCurrent env path sync_files) names
    → generate_index S env dir s ≡ (some (entries_at sync_files names), s)
unfolding generate_index
generate_index_unchanged S env dir path names short_id sync_files s me index at listed current =
    let (scanned, nonempty) =
      scan_files-IsCurrent S env (record dir { path = some path }) path short_id sync_files names s
        current in
    rw (me, index, at, listed, scanned, nonempty)
