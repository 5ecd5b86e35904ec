-- ===== src/State/Files/Stored.antt =====
-- A file that is stored is read back as a whole (src/bep_state.rs, `update_sync_file` and
-- `get_sync_files`).
use bep_rs.Prelude.{
  ℕ, ◌≡◌, ◌≢◌, ◌<◌, ◌^◌, refl, sym, ap, subst, ◌∙◌, ◌==◌, ==_refl, not, Bool, true, false,
  if◌then◌else◌, is_empty, Option, none, some, List, [], ◌∷◌, ◌++◌, map, keep, any, keep-append,
  append-nil, length, drop, ◌≤◌, text_eq, All, Bool-cases, Option-cases, inl, inr, arith,
}
use mathlib.Core.List.{map-append}
use bep_rs.Sync.{SyncBlock, SyncFile, SyncDirectory, get_name}
use bep_rs.State.Models.{
  FileRow, SyncFileVersion, SyncFileBlock, same_id, sync_files_schema, sync_file_versions_schema,
  sync_file_blocks_schema,
}
use bep_rs.State.Table.{IsTable, IsUpsert, IsStoredAs}
use bep_rs.State.Monad.{Sql, BepState, gets, require, ◌>>=◌, ◌>>◌}
use bep_rs.State.Files.{
  row_version, get_versions, get_blocks, get_sync_files, store_file_row, store_versions,
  store_blocks, update_sync_file,
}
use bep_rs.State.Files.Rows.{has_id, IsNamed, file_row}
use bep_rs.State.Files.Versions.{
  from_i64-from_u64, IsVersion, versions_of, stored_count, get_versions-store_versions,
  store_versions_some,
}
use bep_rs.State.Files.Blocks.{IsOrder, IsAscending, get_blocks-store_blocks, store_blocks_others}
use bep_rs.State.Files.Integrity.{IsIntact, update_sync_file-IsIntact}
use bep_rs.State.Files.Read.{
  row_file, of_folder, get_sync_files-row_file, map-row_file, is_empty-map,
}

some_ne_none {ℓ} : {A : Type ℓ} {x : A} → some x ≢ none
some_ne_none h = cc

false_and_true : {b : Bool} → b ≡ false → b ≡ true → ⊥
false_and_true h k = cc

same_id-none : (rows : List FileRow) → any (λ r. same_id none r.id) rows ≡ false
same_id-none [] = refl
same_id-none (r ∷ rows) = same_id-none rows

fresh_row :
    (o : Option ℕ) (row stored : FileRow) (rows : List FileRow)
    → o ≡ none
    → IsStoredAs o sync_files_schema row rows stored
    → (n : ℕ) × (has_id n rows ≡ false) × (stored ≡ record row { id = some n })
fresh_row none row stored rows h how = how
fresh_row (some n) row stored rows h how = absurd (some_ne_none h)

module _ (S : Sql) (table : IsTable FileRow sync_files_schema S.sync_files)
    (upsert : IsUpsert FileRow sync_files_schema S.sync_files) where
  upsert-new :
      (row : FileRow) (t : S.sync_files.Rows)
      → row.id ≡ none
      → (n : ℕ) × (t' : S.sync_files.Rows) × (S.sync_files.upsert row t
          ≡ some (record row { id = some n }, t'))
        × (has_id n (S.sync_files.select t) ≡ false)
        × (S.sync_files.select t' ≡ S.sync_files.select t ++ (record row { id = some n }) ∷ [])
  upsert-new row t unknown =
      let free : any (λ r. same_id row.id r.id) (S.sync_files.select t) ≡ false =
        ap (λ o. any (λ (r : FileRow). same_id o r.id) (S.sync_files.select t)) unknown
        ∙ same_id-none (S.sync_files.select t) in
      elim (Option-cases (S.sync_files.insert row t)) [
        | inl refused ↦ absurd (table.insert-ne-none row t free refused)
        | inr ((stored, t'), h) ↦
            let (n, fresh, same) =
              fresh_row row.id row stored (S.sync_files.select t) unknown
                (table.insert_stored row stored t t' h) in
            (
              n,
              t',
              upsert.upsert_fresh row t free ∙ h ∙ ap (λ r. some (r, t')) same,
              fresh,
              table.select-insert row stored t t' h
                  ∙ ap (λ r. S.sync_files.select t ++ r ∷ []) same,
            )
      ]

module _ (S : Sql) (order_by_offset : List SyncFileBlock → List SyncFileBlock)
    (order : IsOrder order_by_offset)
    (versions : IsTable SyncFileVersion sync_file_versions_schema S.sync_file_versions)
    (blocks : IsTable SyncFileBlock sync_file_blocks_schema S.sync_file_blocks) where
  pub agree_versions :
      (s s' : BepState S) (j : ℕ)
      → s'.sync_file_versions ≡ s.sync_file_versions
      → get_versions S order_by_offset j s' ≡ get_versions S order_by_offset j s
  unfolding get_versions
  agree_versions s s' j same = rw same

  pub agree_blocks :
      (s s' : BepState S) (j : ℕ)
      → s'.sync_file_blocks ≡ s.sync_file_blocks
      → get_blocks S order_by_offset j s' ≡ get_blocks S order_by_offset j s
  unfolding get_blocks
  agree_blocks s s' j same = rw same

  get_versions-none :
      (n : ℕ) (s : BepState S) → versions_of S n s ≡ [] → get_versions S order_by_offset n s ≡ []
  unfolding get_versions
  get_versions-none n s none_yet = ap (map row_version) none_yet

  -- What follows the row of a file: the versions past those that are stored, and the blocks.
  pub store_rest :
      (n : ℕ) (file : SyncFile) (s : BepState S)
      → stored_count S n s ≤ length file.versions
      → is_empty file.versions ≡ false
      → All IsVersion file.versions
      → is_empty file.blocks ≡ false
      → IsAscending (map (λ (b : SyncBlock). b.offset) file.blocks)
      → (s' : BepState S) × (((store_versions S order_by_offset n file.versions
              >> (store_blocks S order_by_offset n file.blocks
                  >> (gets (get_versions S order_by_offset n) >>= λ vs'.
                      require (not (is_empty vs')))))
            s)
          ≡ (some tt, s'))
        × (s'.sync_files ≡ s.sync_files)
        × (get_versions S order_by_offset n s'
            ≡ get_versions S order_by_offset n s ++ drop (stored_count S n s) file.versions)
        × (get_blocks S order_by_offset n s' ≡ file.blocks)
        × ((j : ℕ)
            → (n == j) ≡ false
            → (get_versions S order_by_offset j s' ≡ get_versions S order_by_offset j s)
              × (get_blocks S order_by_offset j s' ≡ get_blocks S order_by_offset j s))
  unfolding get_versions
  store_rest n file s enough some_version fit some_block ascending =
      let (s2, e2, read2) =
        get_versions-store_versions S order_by_offset versions n file.versions s fit enough in
      let (files2, blocks2, counted) =
        store_versions_some S order_by_offset versions n file.versions s some_version in
      let (s3, e3, read3, others3) =
        get_blocks-store_blocks S order_by_offset order blocks n file.blocks s2 some_block
          ascending in
      let (files3, versions3, others) =
        store_blocks_others S order_by_offset order blocks n file.blocks s2 in
      let same3 : s3.sync_file_versions ≡ s2.sync_file_versions =
        ap (λ t. t.1.sync_file_versions) (sym e3) ∙ versions3 in
      let same2 : s2.sync_file_blocks ≡ s.sync_file_blocks =
        ap (λ t. t.1.sync_file_blocks) (sym e2) ∙ blocks2 in
      let some_stored : is_empty (versions_of S n s2) ≡ false =
        subst (λ t. is_empty (versions_of S n t) ≡ false) (ap (λ t. t.1) e2)
          (counted n ∙ rw (==_refl n) refl) in
      let kept : is_empty (get_versions S order_by_offset n s3) ≡ false =
        ap is_empty (agree_versions s2 s3 n same3)
        ∙ is_empty-map row_version (versions_of S n s2)
        ∙ some_stored in
      (
        s3,
        rw (e2, e3, kept),
        ap (λ t. t.1.sync_files) (sym e3) ∙ files3 ∙ ap (λ t. t.1.sync_files) (sym e2) ∙ files2,
        agree_versions s2 s3 n same3 ∙ read2 n ∙ rw (==_refl n) refl,
        read3,
        λ j ne. (
          agree_versions s2 s3 j same3 ∙ read2 j ∙ rw (ne, append-nil),
          others3 j ne ∙ agree_blocks s s2 j same2,
        ),
      )

-- The file as it is read back, under the id that the database gave it.
abbrev pub stored_file : SyncFile → ℕ → SyncFile
stored_file file n = record file { id = some n; path = get_name file }

other_id :
    (n j : ℕ) (rows : List FileRow)
    → has_id n rows ≡ false
    → has_id j rows ≡ true
    → (n == j) ≡ false
other_id n j rows gone there = elim (Bool-cases (n == j)) [
  | inr other ↦ other
  | inl same ↦ let it : n ≡ j = ground arith in absurd (false_and_true (rw it at gone) there)
]

nil_of_empty {ℓ} : {A : Type ℓ} (xs : List A) → is_empty xs ≡ true → xs ≡ []
nil_of_empty [] h = refl
nil_of_empty (x ∷ xs) h = cc

module _ (S : Sql) (order_by_offset : List SyncFileBlock → List SyncFileBlock)
    (order : IsOrder order_by_offset) (files : IsTable FileRow sync_files_schema S.sync_files)
    (upsert : IsUpsert FileRow sync_files_schema S.sync_files)
    (versions : IsTable SyncFileVersion sync_file_versions_schema S.sync_file_versions)
    (blocks : IsTable SyncFileBlock sync_file_blocks_schema S.sync_file_blocks)
    (dir : SyncDirectory) (file : SyncFile) (fit : All IsVersion file.versions)
    (modified : file.modified_by < 2 ^ 64) (synced : file.synced_version < 2 ^ 64) where
  row_file-file_row :
      (n : ℕ) (s : BepState S) (dir_id : List ℕ)
      → get_versions S order_by_offset n s ≡ file.versions
      → get_blocks S order_by_offset n s ≡ file.blocks
      → map (row_file S order_by_offset s) (
          keep
            (of_folder S order_by_offset dir_id)
            (record (file_row dir file) { id = some n } ∷ []))
        ≡ (if text_eq dir.id dir_id then stored_file file n ∷ [] else [])
  row_file-file_row n s dir_id vs bs = elim (Bool-cases (text_eq dir.id dir_id)) [
    | inl same ↦ rw (
      same,
      vs,
      bs,
      from_i64-from_u64 file.modified_by modified,
      from_i64-from_u64 file.synced_version synced,
    )
    | inr other ↦ rw other
  ]

  read_grown :
      (n : ℕ) (s s' : BepState S) (rows : List FileRow) (dir_id : List ℕ)
      → All IsNamed rows
      → ((j : ℕ)
          → has_id j rows ≡ true
          → (get_versions S order_by_offset j s' ≡ get_versions S order_by_offset j s)
            × (get_blocks S order_by_offset j s' ≡ get_blocks S order_by_offset j s))
      → get_versions S order_by_offset n s' ≡ file.versions
      → get_blocks S order_by_offset n s' ≡ file.blocks
      → map (row_file S order_by_offset s') (
          keep
            (of_folder S order_by_offset dir_id)
            (rows ++ record (file_row dir file) { id = some n } ∷ []))
        ≡ map (row_file S order_by_offset s) (keep (of_folder S order_by_offset dir_id) rows)
          ++ (if text_eq dir.id dir_id then stored_file file n ∷ [] else [])
  read_grown n s s' rows dir_id named agree vs bs =
      let new = record (file_row dir file) { id = some n } ∷ [] in
      ap (map (row_file S order_by_offset s'))
        (keep-append (of_folder S order_by_offset dir_id) rows new)
      ∙ map-append _ _ _
      ∙ ap
          (λ t.
            t
            ++ map (row_file S order_by_offset s') (keep (of_folder S order_by_offset dir_id) new))
          (map-row_file S order_by_offset s s' rows dir_id named agree)
      ∙ ap
          (λ t.
            map (row_file S order_by_offset s) (keep (of_folder S order_by_offset dir_id) rows)
            ++ t)
          (row_file-file_row n s' dir_id vs bs)

  pub get_sync_files-update_sync_file :
      (s : BepState S)
      → IsIntact S s
      → file.id ≡ none
      → is_empty file.versions ≡ false
      → is_empty file.blocks ≡ false
      → IsAscending (map (λ (b : SyncBlock). b.offset) file.blocks)
      → (n : ℕ) × (s' : BepState S) × (update_sync_file S order_by_offset dir file s
          ≡ (some tt, s'))
        × ((dir_id : List ℕ)
            → (found : List SyncFile) × (get_sync_files S order_by_offset dir_id s
                ≡ (some found, s))
              × (get_sync_files S order_by_offset dir_id s' ≡ (
                some (found ++ (if text_eq dir.id dir_id then stored_file file n ∷ [] else [])),
                s',
              )))
  unfolding update_sync_file store_file_row
  get_sync_files-update_sync_file s intact unknown some_version some_block ascending =
      let (named, whole, free, distinct) = intact in
      let rows = S.sync_files.select s.sync_files in
      let (n, t', e, fresh, grown) =
        upsert-new S files upsert (file_row dir file) s.sync_files unknown in
      let s1 : BepState S = record s { sync_files = t' } in
      let none_yet = nil_of_empty (versions_of S n s) (whole n ∙ rw fresh refl) in
      let (s', e', same, vs, bs, others) =
        store_rest S order_by_offset order versions blocks n file s1 (rw none_yet (omega arith))
          some_version fit some_block ascending in
      let vs' : get_versions S order_by_offset n s' ≡ file.versions =
        vs
        ∙ rw (get_versions-none S order_by_offset order versions blocks n s1 none_yet, none_yet) in
      let updated : update_sync_file S order_by_offset dir file s ≡ (some tt, s') =
        rw (update_sync_file, some_version, e) e' in
      let intact' : IsIntact S s' =
        subst (λ t. IsIntact S t) (ap (λ t. t.1) updated)
          (update_sync_file-IsIntact S order_by_offset order files upsert versions blocks dir file s
            intact) in
      let all_rows : S.sync_files.select s'.sync_files
          ≡ rows ++ (record (file_row dir file) { id = some n }) ∷ [] =
        ap S.sync_files.select same ∙ grown in
      (
        n,
        s',
        updated,
        λ dir_id. (
          map (row_file S order_by_offset s) (keep (of_folder S order_by_offset dir_id) rows),
          get_sync_files-row_file S order_by_offset dir_id s intact,
          get_sync_files-row_file S order_by_offset dir_id s' intact'
              ∙ ap (λ t. (some t, s'))
                  (ap
                      (λ t.
                        map (row_file S order_by_offset s')
                          (keep (of_folder S order_by_offset dir_id) t))
                      all_rows
                    ∙ read_grown n s s' rows dir_id named
                        (λ j there.
                          let (v, b) = others j (other_id n j rows fresh there) in
                          (
                            v ∙ agree_versions S order_by_offset order versions blocks s s1 j refl,
                            b ∙ agree_blocks S order_by_offset order versions blocks s s1 j refl,
                          ))
                        vs' bs),
        ),
      )
