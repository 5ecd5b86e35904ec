-- ===== src/State/Files/Read.antt =====
-- The files that `get_sync_files` reads from the rows (src/bep_state.rs).
use bep_rs.Prelude.{
  ℕ, ◌≡◌, refl, ◌∙◌, ==_refl, ◌||◌, Bool, true, false, is_empty, Option, none, some, List, [], ◌∷◌,
  map, keep, text_eq, All, Bool-cases, inl, inr,
}
use bep_rs.Sync.{SyncFile}
use bep_rs.State.Models.{FileRow, SyncFileBlock, same_id}
use bep_rs.State.Monad.{Sql, BepState}
use bep_rs.State.Files.{
  from_i64, row_version, get_versions, get_blocks, file_of_row, files_of_rows, get_sync_files,
}
use bep_rs.State.Files.Rows.{has_id, IsNamed}
use bep_rs.State.Files.Versions.{versions_of}
use bep_rs.State.Files.Integrity.{IsIntact}

-- What `get_sync_files` makes of a row that has a hash and an id.
abbrev hash_of : Option (List ℕ) → List ℕ
hash_of none = []
hash_of (some hash) = hash

abbrev number_of : Option ℕ → ℕ
number_of none = 0
number_of (some n) = n

pub or_true : (a : Bool) {b : Bool} → b ≡ true → (a || b) ≡ true
or_true true h = refl
or_true false h = h

pub is_empty-map {ℓ κ} :
    {A : Type ℓ} {B : Type κ} (f : A → B) (xs : List A) → is_empty (map f xs) ≡ is_empty xs
is_empty-map f [] = refl
is_empty-map f (x ∷ xs) = refl

module _ (S : Sql) (order_by_offset : List SyncFileBlock → List SyncFileBlock) where
  abbrev pub row_file : BepState S → FileRow → SyncFile
  row_file s r = record {
    id = r.id;
    path = r.name;
    hash = hash_of r.hash;
    modified_by = from_i64 r.modified_by;
    synced_version = from_i64 r.synced_version_id;
    versions = get_versions S order_by_offset (number_of r.id) s;
    blocks = get_blocks S order_by_offset (number_of r.id) s;
  }

  abbrev pub of_folder : List ℕ → FileRow → Bool
  of_folder dir_id r = text_eq r.folder_id dir_id

  -- Rows that are all named and all have versions are read, and the state stays as it is.
  files_of_rows-named :
      (rows : List FileRow) (s : BepState S)
      → All IsNamed rows
      → ((j : ℕ) → has_id j rows ≡ true → is_empty (versions_of S j s) ≡ false)
      → (dir_id : List ℕ)
      → files_of_rows S order_by_offset (keep (of_folder dir_id) rows) s
        ≡ (some (map (row_file s) (keep (of_folder dir_id) rows)), s)
  unfolding files_of_rows file_of_row get_versions
  files_of_rows-named [] s named whole dir_id = refl
  files_of_rows-named (r ∷ rows) s (((hash, hashed), (n, known)), named) whole dir_id =
      let rest =
        files_of_rows-named rows s named
          (λ j there. whole j (or_true (same_id r.id (some j)) there)) dir_id in
      elim (Bool-cases (text_eq r.folder_id dir_id)) [
        | inr other ↦ rw other rest
        | inl its ↦
            let some_version : is_empty (map row_version (versions_of S n s)) ≡ false =
              is_empty-map row_version (versions_of S n s) ∙ whole n (rw (known, ==_refl n) refl) in
            rw (its, hashed, known, some_version, rest) refl
      ]

  pub get_sync_files-row_file :
      (dir_id : List ℕ) (s : BepState S)
      → IsIntact S s
      → get_sync_files S order_by_offset dir_id s
        ≡ (some (map (row_file s) (keep (of_folder dir_id) (S.sync_files.select s.sync_files))), s)
  unfolding get_sync_files
  get_sync_files-row_file dir_id s (named, whole, free, distinct) =
      files_of_rows-named (S.sync_files.select s.sync_files) s named
        (λ j there. whole j ∙ rw there refl) dir_id

  -- Rows are read alike in two states that agree on their versions and blocks.
  pub map-row_file :
      (s s' : BepState S) (rows : List FileRow) (dir_id : List ℕ)
      → All IsNamed rows
      → ((j : ℕ)
          → has_id j rows ≡ true
          → (get_versions S order_by_offset j s' ≡ get_versions S order_by_offset j s)
            × (get_blocks S order_by_offset j s' ≡ get_blocks S order_by_offset j s))
      → map (row_file s') (keep (of_folder dir_id) rows)
        ≡ map (row_file s) (keep (of_folder dir_id) rows)
  map-row_file s s' [] dir_id named agree = refl
  map-row_file s s' (r ∷ rows) dir_id ((hashed, (n, known)), named) agree =
      let rest =
        map-row_file s s' rows dir_id named
          (λ j there. agree j (or_true (same_id r.id (some j)) there)) in
      let (versions, blocks) = agree n (rw (known, ==_refl n) refl) in
      elim (Bool-cases (text_eq r.folder_id dir_id)) [
        | inr other ↦ rw other rest
        | inl its ↦ rw (its, known, versions, blocks, rest) refl
      ]
