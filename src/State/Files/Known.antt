-- ===== src/State/Files/Known.antt =====
-- How the rows of a folder are read where one file of them is known by its id, and where its row is
-- replaced (src/bep_state.rs, `get_sync_files`).
use bep_rs.Prelude.{
  ℕ, ◌≡◌, refl, sym, ap, ◌∙◌, ◌==◌, ==_refl, ◌&&◌, Bool, true, false, if◌then◌else◌, some, List, [],
  ◌∷◌, map, keep, any, find?, text_eq, text_eq_sound, All, Bool-cases, inl, inr,
}
use mathlib.Core.Option.{some-injective}
use bep_rs.Sync.{SyncFile}
use bep_rs.State.Models.{FileRow, SyncFileBlock, same_id}
use bep_rs.State.Monad.{Sql, BepState}
use bep_rs.State.Files.{get_versions, get_blocks}
use bep_rs.State.Files.Rows.{has_id, IsNamed, IsDistinct, same_id-sym, same_id-some}
use bep_rs.State.Files.Read.{row_file, of_folder, or_true}

abbrev pub shows : ℕ → List SyncFile → Bool
shows n = any (λ (f : SyncFile). same_id (some n) f.id)

-- Rows of this id are those of this folder.
abbrev pub AreIn : ℕ → List ℕ → List FileRow → Type 0
AreIn n folder = All (λ (r : FileRow). same_id (some n) r.id ≡ true → r.folder_id ≡ folder)

abbrev pub replace_row : FileRow → FileRow → FileRow
replace_row row r = if same_id row.id r.id then row else r

true_and_false : {b : Bool} → b ≡ true → b ≡ false → ⊥
true_and_false h k = cc

has_no_id :
    (n : ℕ) (folder : List ℕ) (rows : List FileRow) → has_id n rows ≡ false → AreIn n folder rows
has_no_id n folder [] h = tt
has_no_id n folder (r ∷ rows) h = elim (Bool-cases (same_id (some n) r.id)) [
  | inl here ↦ absurd (cc (rw (same_id-sym r.id n, here) at h))
  | inr other ↦ (
    λ same. absurd (true_and_false same other),
    has_no_id n folder rows (rw (same_id-sym r.id n, other) at h),
  )
]

module _ (S : Sql) (order_by_offset : List SyncFileBlock → List SyncFileBlock)
    (s : BepState S) where
  abbrev pub reads : List ℕ → List FileRow → List SyncFile
  reads dir_id rows =
      map (row_file S order_by_offset s) (keep (of_folder S order_by_offset dir_id) rows)

  shows-has_id :
      (n : ℕ) (dir_id : List ℕ) (rows : List FileRow)
      → has_id n rows ≡ false
      → shows n (reads dir_id rows) ≡ false
  shows-has_id n dir_id [] h = refl
  shows-has_id n dir_id (r ∷ rows) h = elim (Bool-cases (same_id (some n) r.id)) [
    | inl here ↦ absurd (cc (rw (same_id-sym r.id n, here) at h))
    | inr other ↦
        let rest = shows-has_id n dir_id rows (rw (same_id-sym r.id n, other) at h) in
        elim (Bool-cases (text_eq r.folder_id dir_id)) [
          | inl its ↦ rw (its, other) rest
          | inr elsewhere ↦ rw elsewhere rest
        ]
  ]

  -- An id that a folder shows is no other folder's.
  pub shows-AreIn :
      (n : ℕ) (dir_id : List ℕ) (rows : List FileRow)
      → IsDistinct rows
      → shows n (reads dir_id rows) ≡ true
      → AreIn n dir_id rows
  shows-AreIn n dir_id [] distinct h = tt
  shows-AreIn n dir_id (r ∷ rows) (once, distinct) h = elim (Bool-cases (same_id (some n) r.id)) [
    | inl here ↦
        let absent = once n (same_id-some n r.id here) in
        elim (Bool-cases (text_eq r.folder_id dir_id)) [
          | inl its ↦ (λ same. text_eq_sound r.folder_id dir_id its, has_no_id n dir_id rows absent)
          | inr elsewhere ↦
              absurd (true_and_false (rw elsewhere at h) (shows-has_id n dir_id rows absent))
        ]
    | inr other ↦ elim (Bool-cases (text_eq r.folder_id dir_id)) [
      | inl its ↦ (
        λ same. absurd (true_and_false same other),
        shows-AreIn n dir_id rows distinct (rw (its, other) at h),
      )
      | inr elsewhere ↦ (
        λ same. absurd (true_and_false same other),
        shows-AreIn n dir_id rows distinct (rw elsewhere at h),
      )
    ]
  ]

  pub shows-any :
      (n : ℕ) (dir_id : List ℕ) (rows : List FileRow)
      → shows n (reads dir_id rows) ≡ true
      → any (λ (r : FileRow). same_id (some n) r.id) rows ≡ true
  shows-any n dir_id [] h = h
  shows-any n dir_id (r ∷ rows) h = elim (Bool-cases (same_id (some n) r.id)) [
    | inl here ↦ rw here refl
    | inr other ↦ elim (Bool-cases (text_eq r.folder_id dir_id)) [
      | inl its ↦ rw other (shows-any n dir_id rows (rw (its, other) at h))
      | inr elsewhere ↦ rw other (shows-any n dir_id rows (rw elsewhere at h))
    ]
  ]

  -- A file that is found was read from a row.
  pub find?-row_file :
      (p : SyncFile → Bool) (dir_id : List ℕ) (old : SyncFile) (rows : List FileRow)
      → All IsNamed rows
      → find? p (reads dir_id rows) ≡ some old
      → (n : ℕ) × (old.id ≡ some n)
        × (old.versions ≡ get_versions S order_by_offset n s)
        × (shows n (reads dir_id rows) ≡ true)
  find?-row_file p dir_id old [] named h = absurd (cc h)
  find?-row_file p dir_id old (r ∷ rows) ((hashed, (n, known)), named) h =
      elim (Bool-cases (text_eq r.folder_id dir_id)) [
        | inr elsewhere ↦
            let (m, same, read, there) =
              find?-row_file p dir_id old rows named (rw elsewhere at h) in
            (m, same, read, rw elsewhere there)
        | inl its ↦ elim (Bool-cases (p (row_file S order_by_offset s r))) [
          | inl hit ↦
              let e : row_file S order_by_offset s r ≡ old =
                some-injective _ _ (rw (its, hit) at h) in
              (
                n,
                ap (λ (f : SyncFile). f.id) (sym e) ∙ known,
                ap (λ (f : SyncFile). f.versions) (sym e) ∙ rw known refl,
                rw (its, known, ==_refl n) refl,
              )
          | inr miss ↦
              let (m, same, read, there) =
                find?-row_file p dir_id old rows named (rw (its, miss) at h) in
              (m, same, read, rw its (or_true (same_id (some m) r.id) there))
        ]
      ]

and_false : (b : Bool) → (b && false) ≡ false
and_false true = refl
and_false false = refl

module _ (S : Sql) (order_by_offset : List SyncFileBlock → List SyncFileBlock) where
  pub read_replaced :
      (s s' : BepState S) (n : ℕ) (row : FileRow) (new : SyncFile) (dir_id : List ℕ)
      (rows : List FileRow)
      → row.id ≡ some n
      → row_file S order_by_offset s' row ≡ new
      → ((j : ℕ)
          → (n == j) ≡ false
          → (get_versions S order_by_offset j s' ≡ get_versions S order_by_offset j s)
            × (get_blocks S order_by_offset j s' ≡ get_blocks S order_by_offset j s))
      → All IsNamed rows
      → AreIn n row.folder_id rows
      → reads S order_by_offset s' dir_id (map (replace_row row) rows)
        ≡ map
            (λ (f : SyncFile).
              if text_eq row.folder_id dir_id && same_id (some n) f.id then new else f)
            (reads S order_by_offset s dir_id rows)
  read_replaced s s' n row new dir_id [] its_id made agree named placed = refl
  read_replaced s s' n row new dir_id (r ∷ rows) its_id made agree ((hashed, (m, known)), named)
        (here, placed) =
      let rest = read_replaced s s' n row new dir_id rows its_id made agree named placed in
      elim (Bool-cases (same_id (some n) r.id)) [
        | inl same ↦
            let moved : same_id row.id r.id ≡ true = ap (λ o. same_id o r.id) its_id ∙ same in
            elim (Bool-cases (text_eq row.folder_id dir_id)) [
              | inl its ↦
                  let its' : text_eq r.folder_id dir_id ≡ true =
                    ap (λ t. text_eq t dir_id) (here same) ∙ its in
                  rw (moved, its, its', same, made) (ap (λ t. new ∷ t) (rw its at rest))
              | inr elsewhere ↦
                  let elsewhere' : text_eq r.folder_id dir_id ≡ false =
                    ap (λ t. text_eq t dir_id) (here same) ∙ elsewhere in
                  rw (moved, elsewhere, elsewhere') (rw elsewhere at rest)
            ]
        | inr other ↦
            let moved : same_id row.id r.id ≡ false = ap (λ o. same_id o r.id) its_id ∙ other in
            let differ : (n == m) ≡ false = ap (same_id (some n)) (sym known) ∙ other in
            let (versions, blocks) = agree m differ in
            elim (Bool-cases (text_eq r.folder_id dir_id)) [
              | inl its ↦
                  rw (moved, its, known, differ, versions, blocks)
                    (rw (and_false (text_eq row.folder_id dir_id), rest) refl)
              | inr elsewhere ↦ rw (moved, elsewhere) rest
            ]
      ]
