-- ===== src/State/Files/Integrity.antt =====
-- What holds of the files of a database whatever has been done to it (src/bep_state.rs): every row
-- of a file has a hash and an id of its own, the files that have a row are those that have a version, and no
-- other has blocks.
use bep_rs.Prelude.{
  ℕ, ◌≡◌, refl, sym, ◌∙◌, ◌==◌, ==_refl, not, Bool, true, false, is_empty, Option, none, some, List,
  [], All, arith, Bool-cases, inl, inr,
}
use bep_rs.Sync.{SyncBlock, SyncFile, SyncDirectory}
use bep_rs.State.Models.{
  FileRow, SyncFileVersion, SyncFileBlock, sync_files_schema, sync_file_versions_schema,
  sync_file_blocks_schema,
}
use bep_rs.State.Table.{IsTable, IsUpsert}
use bep_rs.State.Monad.{Sql, BepState, Method, continue, gets, require, ◌>>=◌, ◌>>◌}
use bep_rs.State.Files.{
  get_versions, store_file_row, store_versions, store_blocks, update_sync_file,
}
use bep_rs.State.Files.Rows.{
  has_id, IsNamed, IsDistinct, IsExtended, or_false, not_or, file_row, upsert-Stored,
}
use bep_rs.State.Files.Versions.{versions_of, store_versions_some}
use bep_rs.State.Files.Blocks.{IsOrder, owned, store_blocks_others}

-- The invariant.
abbrev pub IsIntact : (S : Sql) → BepState S → Type 0
IsIntact S s =
    All IsNamed (S.sync_files.select s.sync_files)
    × ((j : ℕ) → is_empty (versions_of S j s) ≡ not (has_id j (S.sync_files.select s.sync_files)))
    × ((j : ℕ)
        → has_id j (S.sync_files.select s.sync_files) ≡ false
        → owned j (S.sync_file_blocks.select s.sync_file_blocks) ≡ [])
    × IsDistinct (S.sync_files.select s.sync_files)

continue-IsIntact {ℓ} :
    {A : Type ℓ} (S : Sql) (r : Option A) (f : A → Method S (Unit {0})) (s : BepState S)
    → IsIntact S s
    → ((a : A) → IsIntact S (f a s).1)
    → IsIntact S (continue r f s).1
continue-IsIntact S none f s intact next = intact
continue-IsIntact S (some a) f s intact next = next a

require-IsIntact : (S : Sql) (b : Bool) (s : BepState S) → IsIntact S s → IsIntact S (require b s).1
require-IsIntact S true s intact = intact
require-IsIntact S false s intact = intact

not-true : (b : Bool) → not b ≡ true → b ≡ false
not-true true h = cc
not-true false h = refl

true_and_false : {b : Bool} → b ≡ true → b ≡ false → ⊥
true_and_false h k = cc

module _ (S : Sql) (order_by_offset : List SyncFileBlock → List SyncFileBlock)
    (order : IsOrder order_by_offset) (files : IsTable FileRow sync_files_schema S.sync_files)
    (upsert : IsUpsert FileRow sync_files_schema S.sync_files)
    (versions : IsTable SyncFileVersion sync_file_versions_schema S.sync_file_versions)
    (blocks : IsTable SyncFileBlock sync_file_blocks_schema S.sync_file_blocks) where
  -- After the row is written, the versions make up for it.
  store_versions-IsIntact :
      (n : ℕ) (vs : List (ℕ × ℕ)) (s s1 : BepState S)
      → IsIntact S s
      → is_empty vs ≡ false
      → IsExtended n (S.sync_files.select s.sync_files) (S.sync_files.select s1.sync_files)
      → s1.sync_file_versions ≡ s.sync_file_versions
      → s1.sync_file_blocks ≡ s.sync_file_blocks
      → let s2 = (store_versions S order_by_offset n vs s1).1 in
        IsIntact S s2 × (has_id n (S.sync_files.select s2.sync_files) ≡ true)
  store_versions-IsIntact n vs s s1 (named, whole, free, distinct) some_version (all, ids, once)
        same_versions same_blocks =
      let (same_files, same_blocks', counted) =
        store_versions_some S order_by_offset versions n vs s1 some_version in
      (
        (
          rw same_files (all named),
          λ j. counted j ∙ rw (same_files, ids j, same_versions, whole j) (not_or (n == j) _),
          λ j gone.
              rw (same_blocks', same_blocks)
                (free j (or_false (n == j) _ (sym (ids j) ∙ rw same_files at gone))),
          rw same_files (once distinct),
        ),
        rw (same_files, ids n, ==_refl n) refl,
      )

  differs :
      (n j : ℕ) (rows : List FileRow)
      → has_id n rows ≡ true
      → has_id j rows ≡ false
      → (n == j) ≡ false
  differs n j rows there gone = elim (Bool-cases (n == j)) [
    | inr other ↦ other
    | inl same ↦ let it : n ≡ j = ground arith in absurd (true_and_false (rw it at there) gone)
  ]

  store_blocks-IsIntact :
      (n : ℕ) (bs : List SyncBlock) (s : BepState S)
      → IsIntact S s
      → has_id n (S.sync_files.select s.sync_files) ≡ true
      → IsIntact S (store_blocks S order_by_offset n bs s).1
  store_blocks-IsIntact n bs s (named, whole, free, distinct) there =
      let (same_files, same_versions, others) =
        store_blocks_others S order_by_offset order blocks n bs s in
      (
        rw same_files named,
        λ j. rw (same_files, same_versions) (whole j),
        λ j gone.
            let absent : has_id j (S.sync_files.select s.sync_files) ≡ false =
              rw same_files at gone in
            others j (differs n j (S.sync_files.select s.sync_files) there absent) ∙ free j absent,
        rw same_files distinct,
      )

  -- What follows the row of the file.
  store_rest-IsIntact :
      (n : ℕ) (vs : List (ℕ × ℕ)) (bs : List SyncBlock) (s s1 : BepState S)
      → IsIntact S s
      → is_empty vs ≡ false
      → IsExtended n (S.sync_files.select s.sync_files) (S.sync_files.select s1.sync_files)
      → s1.sync_file_versions ≡ s.sync_file_versions
      → s1.sync_file_blocks ≡ s.sync_file_blocks
      → IsIntact S
          ((store_versions S order_by_offset n vs
              >> (store_blocks S order_by_offset n bs
                  >> (gets (get_versions S order_by_offset n) >>= λ vs'.
                      require (not (is_empty vs')))))
            s1).1
  store_rest-IsIntact n vs bs s s1 intact some_version extended same_versions same_blocks =
      let (intact2, there) =
        store_versions-IsIntact n vs s s1 intact some_version extended same_versions same_blocks in
      let s2 = (store_versions S order_by_offset n vs s1).1 in
      let s3 = (store_blocks S order_by_offset n bs s2).1 in
      let last : Method S (Unit {0}) =
        gets (get_versions S order_by_offset n) >>= λ vs'. require (not (is_empty vs')) in
      continue-IsIntact S (store_versions S order_by_offset n vs s1).0
        (λ _. store_blocks S order_by_offset n bs >> last) s2 intact2
        λ _.
          continue-IsIntact S (store_blocks S order_by_offset n bs s2).0 (λ _. last) s3
            (store_blocks-IsIntact n bs s2 intact2 there)
            λ _.
              require-IsIntact S (not (is_empty (get_versions S order_by_offset n s3))) s3
                (store_blocks-IsIntact n bs s2 intact2 there)

  -- `update_sync_file` keeps the files intact, on every file and whether it returns or panics.
  pub update_sync_file-IsIntact :
      (dir : SyncDirectory) (file : SyncFile) (s : BepState S)
      → IsIntact S s
      → IsIntact S (update_sync_file S order_by_offset dir file s).1
  unfolding update_sync_file store_file_row
  update_sync_file-IsIntact dir file s intact = elim (Bool-cases (not (is_empty file.versions))) [
    | inr no_version ↦ rw (no_version, update_sync_file) intact
    | inl some_version ↦
        elim (upsert-Stored S files upsert (file_row dir file) file.hash s.sync_files refl) [
          | inl refused ↦ rw (some_version, update_sync_file, refused) intact
          | inr (n, stored, t', e, known, extended) ↦
              rw (some_version, update_sync_file, e, known)
                (store_rest-IsIntact n file.versions file.blocks s (record s { sync_files = t' })
                  intact (not-true (is_empty file.versions) some_version) extended refl refl)
        ]
  ]
