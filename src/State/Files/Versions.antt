-- ===== src/State/Files/Versions.antt =====
-- The versions of a file grow by those that are new (src/bep_state.rs, `update_sync_file`).
use bep_rs.Prelude.{
  ℕ, zero, suc, not, ◌&&◌, ◌||◌, is_empty, ◌≤◌, ◌<◌, ◌^◌, ◌≡◌, refl, sym, ap, subst, ◌∙◌, ◌==◌,
  Bool, true, false, ltb, leb, le→leb, if◌then◌else◌, none, some, List, [], ◌∷◌, ◌++◌, map, keep,
  length, drop, append-nil, All, All-drop, keep-append, arith, Bool-cases, inl, inr,
}
use mathlib.Core.List.{map-append}
use bep_rs.Prelude.Int.{as_u64-as_i64}
use bep_rs.State.Models.{SyncFileVersion, SyncFileBlock, sync_file_versions_schema}
use bep_rs.State.Table.{IsTable, insert_all}
use bep_rs.State.Table.Batch.{AllStored, IsFree, insert_all-AllStored}
use bep_rs.State.Monad.{Sql, BepState}
use bep_rs.State.Files.{from_i64, from_u64, version_row, row_version, get_versions, store_versions}

versions-IsFree : IsFree sync_file_versions_schema
versions-IsFree row h [] = refl
versions-IsFree row h (r ∷ rows) = ground (arith, versions-IsFree row h rows)

-- A version is two numbers of 64 bits.
abbrev pub IsVersion : ℕ × ℕ → Type 0
IsVersion (user, version) = (user < 2 ^ 64) × (version < 2 ^ 64)

pub from_i64-from_u64 : (u : ℕ) → u < 2 ^ 64 → from_i64 (from_u64 u) ≡ u
unfolding from_i64 from_u64
from_i64-from_u64 u h = as_u64-as_i64 u h

of_id : ℕ → SyncFileVersion → Bool
of_id id r = r.sync_file_id == id

version_rows-no_id :
    (id : ℕ) (versions : List (ℕ × ℕ))
    → All (λ (r : SyncFileVersion). r.id ≡ none) (map (version_row id) versions)
unfolding version_row
version_rows-no_id id [] = tt
version_rows-no_id id (v ∷ versions) = (refl, version_rows-no_id id versions)

row_version-version_row :
    (id n : ℕ) (v : ℕ × ℕ)
    → IsVersion v
    → row_version (sync_file_versions_schema.with_id n (version_row id v)) ≡ v
unfolding version_row row_version
row_version-version_row id n v fits =
    rw (from_i64-from_u64 v.0 fits.0, from_i64-from_u64 v.1 fits.1)

-- What is stored for `id` is read back, and shows under no other id.
stored_versions :
    (id j : ℕ) (versions : List (ℕ × ℕ)) (stored : List SyncFileVersion)
    → All IsVersion versions
    → AllStored sync_file_versions_schema (map (version_row id) versions) stored
    → map row_version (keep (λ (r : SyncFileVersion). r.sync_file_id == j) stored)
      ≡ (if id == j then versions else [])
unfolding version_row
stored_versions id j [] [] fits all = ground arith
stored_versions id j [] (r ∷ stored) fits all = absurd all
stored_versions id j (v ∷ versions) [] fits all = absurd all
stored_versions id j (v ∷ versions) (r ∷ stored) fits ((n, e), all) =
    let ih = stored_versions id j versions stored fits.1 all in
    subst
      (λ x.
        map row_version (keep (λ (r : SyncFileVersion). r.sync_file_id == j) (x ∷ stored))
        ≡ (if id == j then v ∷ versions else []))
      (sym e)
      (elim (Bool-cases (id == j)) [
        | inl same ↦
            rw same (rw (row_version-version_row id n v fits.0) (ap (λ t. v ∷ t) (rw same at ih)))
        | inr other ↦ rw other (rw other at ih)
      ])

drop-length : {A : Type 0} (xs : List A) → drop (length xs) xs ≡ []
drop-length [] = refl
drop-length (x ∷ xs) = drop-length xs

if_same : {A : Type 0} (b : Bool) (x : A) → (if b then x else x) ≡ x
if_same true x = refl
if_same false x = refl

abbrev pub stored_count : (S : Sql) → ℕ → BepState S → ℕ
stored_count S id s = length (
    keep (λ (r : SyncFileVersion). r.sync_file_id == id)
      (S.sync_file_versions.select s.sync_file_versions))

module _ (S : Sql) (order_by_offset : List SyncFileBlock → List SyncFileBlock)
    (table : IsTable SyncFileVersion sync_file_versions_schema S.sync_file_versions) where
  added_versions :
      (id : ℕ) (new : List (ℕ × ℕ)) (s : BepState S)
      → All IsVersion new
      → (rows : S.sync_file_versions.Rows) × (insert_all S.sync_file_versions
            (map (version_row id) new)
            s.sync_file_versions
          ≡ some rows)
        × ((j : ℕ)
            → get_versions S order_by_offset j (record s { sync_file_versions = rows })
              ≡ get_versions S order_by_offset j s ++ (if id == j then new else []))
  unfolding get_versions
  added_versions id new s fits =
      let (rows, stored, e, all, grown) =
        insert_all-AllStored SyncFileVersion sync_file_versions_schema S.sync_file_versions table
          versions-IsFree (map (version_row id) new) s.sync_file_versions
          (version_rows-no_id id new) in
      (
        rows,
        e,
        λ j.
            rw (grown, keep-append, map-append)
              (ap (λ t. get_versions S order_by_offset j s ++ t)
                (stored_versions id j new stored fits all)),
      )

  -- Storing versions, pairs of 64-bit numbers and at least as many as are stored, succeeds: it adds those past that
  -- count, in order, to what is read back for the file, and changes nothing for another file.
  pub get_versions-store_versions :
      (id : ℕ) (versions : List (ℕ × ℕ)) (s : BepState S)
      → All IsVersion versions
      → stored_count S id s ≤ length versions
      → (s' : BepState S) × (store_versions S order_by_offset id versions s ≡ (some tt, s'))
        × ((j : ℕ)
            → get_versions S order_by_offset j s'
              ≡ get_versions S order_by_offset j s
                ++ (if id == j then drop (stored_count S id s) versions else []))
  unfolding store_versions
  get_versions-store_versions id versions s fits enough =
      elim (Bool-cases (ltb (stored_count S id s) (length versions))) [
        | inl more ↦
            let (rows, e, read) =
              added_versions id (drop (stored_count S id s) versions) s
                (All-drop IsVersion (stored_count S id s) versions fits) in
            (
              record s { sync_file_versions = rows },
              rw (le→leb (stored_count S id s) (length versions) enough, more, e),
              read,
            )
        | inr none_new ↦
            let all_stored : stored_count S id s ≡ length versions = ground arith in
            (
              s,
              rw (le→leb (stored_count S id s) (length versions) enough, none_new),
              λ j.
                  rw (all_stored, drop-length versions)
                    (sym (
                      ap (λ t. get_versions S order_by_offset j s ++ t) (if_same (id == j) [])
                      ∙ append-nil (get_versions S order_by_offset j s))),
            )
      ]

  -- A file with fewer versions than are stored is refused, by a panic that writes nothing.
  store_versions_panics :
      (id : ℕ) (versions : List (ℕ × ℕ)) (s : BepState S)
      → length versions < stored_count S id s
      → store_versions S order_by_offset id versions s ≡ (none, s)
  unfolding store_versions
  store_versions_panics id versions s fewer =
      let refused : leb (stored_count S id s) (length versions) ≡ false = ground arith in rw refused

-- Whether what is stored shows under an id.
is_empty-stored :
    (id j : ℕ) (versions : List (ℕ × ℕ)) (stored : List SyncFileVersion)
    → AllStored sync_file_versions_schema (map (version_row id) versions) stored
    → is_empty (keep (λ (r : SyncFileVersion). r.sync_file_id == j) stored)
      ≡ (not (id == j) || is_empty versions)
unfolding version_row
is_empty-stored id j [] [] all = ground arith
is_empty-stored id j [] (r ∷ stored) all = absurd all
is_empty-stored id j (v ∷ versions) [] all = absurd all
is_empty-stored id j (v ∷ versions) (r ∷ stored) ((n, e), all) =
    subst
      (λ x.
        is_empty (keep (λ (r : SyncFileVersion). r.sync_file_id == j) (x ∷ stored))
        ≡ (not (id == j) || false))
      (sym e)
      (elim (Bool-cases (id == j)) [
        | inl same ↦ rw same refl
        | inr other ↦ rw other (rw other at (is_empty-stored id j versions stored all))
      ])

is_empty-append {ℓ} :
    {A : Type ℓ} (xs ys : List A) → is_empty (xs ++ ys) ≡ (is_empty xs && is_empty ys)
is_empty-append [] ys = refl
is_empty-append (x ∷ xs) ys = refl

length_pos {ℓ} : {A : Type ℓ} (xs : List A) → is_empty xs ≡ false → 0 < length xs
length_pos [] h = cc
length_pos (x ∷ xs) h = omega arith

is_empty-pos {ℓ} : {A : Type ℓ} (xs : List A) → 0 < length xs → is_empty xs ≡ false
is_empty-pos [] h = absurd (omega arith)
is_empty-pos (x ∷ xs) h = refl

and_or : (a b : Bool) → (b && (a || false)) ≡ (a && b)
and_or true true = refl
and_or true false = refl
and_or false true = refl
and_or false false = refl

drop-is_empty {ℓ} :
    {A : Type ℓ} (n : ℕ) (xs : List A) → n < length xs → is_empty (drop n xs) ≡ false
drop-is_empty zero [] h = absurd (omega arith)
drop-is_empty zero (x ∷ xs) h = refl
drop-is_empty (suc n) [] h = absurd (omega arith)
drop-is_empty (suc n) (x ∷ xs) h = drop-is_empty n xs (omega arith)

abbrev pub versions_of : (S : Sql) → ℕ → BepState S → List SyncFileVersion
versions_of S j s =
    keep (λ (r : SyncFileVersion). r.sync_file_id == j)
      (S.sync_file_versions.select s.sync_file_versions)

module _ (S : Sql) (order_by_offset : List SyncFileBlock → List SyncFileBlock)
    (table : IsTable SyncFileVersion sync_file_versions_schema S.sync_file_versions) where
  -- A file with a version keeps one.
  kept :
      (id : ℕ) (s : BepState S)
      → 0 < stored_count S id s
      → (j : ℕ) → is_empty (versions_of S j s) ≡ (not (id == j) && is_empty (versions_of S j s))
  kept id s some_stored j = elim (Bool-cases (id == j)) [
    | inr other ↦ rw other
    | inl same ↦
        let it : id ≡ j = ground arith in
        rw same (is_empty-pos (versions_of S j s) (rw it at some_stored))
  ]

  -- Storing versions, at least one, leaves the file with one, whether it ends or panics. It
  -- gives none to another file, and touches no other table.
  pub store_versions_some :
      (id : ℕ) (versions : List (ℕ × ℕ)) (s : BepState S)
      → is_empty versions ≡ false
      → let s' = (store_versions S order_by_offset id versions s).1 in
        (s'.sync_files ≡ s.sync_files)
        × (s'.sync_file_blocks ≡ s.sync_file_blocks)
        × ((j : ℕ)
            → is_empty (versions_of S j s') ≡ (not (id == j) && is_empty (versions_of S j s)))
  unfolding store_versions
  store_versions_some id versions s some_version =
      elim (Bool-cases (leb (stored_count S id s) (length versions))) [
        | inr fewer ↦ (rw fewer, rw fewer, rw fewer (kept id s (ground arith)))
        | inl enough ↦ elim (Bool-cases (ltb (stored_count S id s) (length versions))) [
          | inr none_new ↦
              let all_stored : length versions ≡ stored_count S id s = ground arith in
              (
                rw (enough, none_new),
                rw (enough, none_new),
                rw (enough, none_new)
                    (kept id s (rw all_stored at (length_pos versions some_version))),
              )
          | inl more ↦
              let new = drop (stored_count S id s) versions in
              let (rows, stored, e, all, grown) =
                insert_all-AllStored SyncFileVersion sync_file_versions_schema S.sync_file_versions
                  table versions-IsFree (map (version_row id) new) s.sync_file_versions
                  (version_rows-no_id id new) in
              (
                rw (enough, more, e),
                rw (enough, more, e),
                λ j.
                    rw (enough, more, e)
                      (rw
                        (
                          grown,
                          keep-append,
                          is_empty-append,
                          is_empty-stored id j new stored all,
                          drop-is_empty (stored_count S id s) versions (ground arith),
                        )
                        (and_or (not (id == j)) _)),
              )
        ]
      ]
