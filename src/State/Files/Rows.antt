-- ===== src/State/Files/Rows.antt =====
-- The rows of files (src/bep_state.rs, the first statement of `update_sync_file`).
use bep_rs.Prelude.{
  ℕ, ◌≡◌, ◌≢◌, refl, sym, ap, ◌∙◌, ◌==◌, ==_refl, ◌&&◌, ◌||◌, not, Bool, true, false, if◌then◌else◌,
  Option, none, some, List, [], ◌∷◌, ◌++◌, map, any, any-append, All, All-append, arith,
  Option-cases, Bool-cases, inl, inr, ◌⊎◌,
}
use bep_rs.Sync.{SyncFile, SyncDirectory, get_name}
use bep_rs.State.Models.{FileRow, same_id, sync_files_schema}
use bep_rs.State.Table.{IsTable, IsUpsert, IsStoredAs}
use bep_rs.State.Monad.{Sql}
use bep_rs.State.Files.{from_u64}

abbrev pub has_id : ℕ → List FileRow → Bool
has_id j = any (λ (f : FileRow). same_id f.id (some j))

-- A row that `get_sync_files` can read.
abbrev pub IsNamed : FileRow → Type 0
IsNamed f = ((hash : List ℕ) × (f.hash ≡ some hash)) × ((n : ℕ) × (f.id ≡ some n))

or_swap : (a b : Bool) → (a || (b || false)) ≡ (b || a)
or_swap true true = refl
or_swap true false = refl
or_swap false true = refl
or_swap false false = refl

pub not_or : (a b : Bool) → (not a && not b) ≡ not (a || b)
not_or true b = refl
not_or false b = refl

pub or_false : (a b : Bool) → (a || b) ≡ false → b ≡ false
or_false true b h = cc
or_false false b h = h

true_ne_false : false ≢ true
true_ne_false h = cc

-- The row of a file, as `update_sync_file` writes it.
abbrev pub file_row : SyncDirectory → SyncFile → FileRow
file_row dir file = record {
  id = file.id;
  name = get_name file;
  modified_by = from_u64 file.modified_by;
  sequence = from_u64 0;
  synced_version_id = from_u64 file.synced_version;
  hash = some file.hash;
  folder_id = dir.id;
}

same_id-cong :
    (a b : Option ℕ) (j : ℕ) → same_id a b ≡ true → same_id a (some j) ≡ same_id b (some j)
same_id-cong none b j h = cc
same_id-cong (some a) none j h = cc
same_id-cong (some a) (some b) j h = ground arith

-- The rows that an upsert of a known id leaves: the same ids, each with a hash and an id.
has_id-replaced :
    (row : FileRow) (j : ℕ) (rows : List FileRow)
    → has_id j (map (λ r. if same_id row.id r.id then row else r) rows) ≡ has_id j rows
has_id-replaced row j [] = refl
has_id-replaced row j (r ∷ rows) = elim (Bool-cases (same_id row.id r.id)) [
  | inl same ↦ rw (same, same_id-cong row.id r.id j same, has_id-replaced row j rows)
  | inr other ↦ rw (other, has_id-replaced row j rows)
]

replaced-IsNamed :
    (row : FileRow) (rows : List FileRow)
    → IsNamed row
    → All IsNamed rows
    → All IsNamed (map (λ r. if same_id row.id r.id then row else r) rows)
replaced-IsNamed row [] new named = tt
replaced-IsNamed row (r ∷ rows) new named = elim (Bool-cases (same_id row.id r.id)) [
  | inl same ↦ rw same (new, replaced-IsNamed row rows new named.1)
  | inr other ↦ rw other (named.0, replaced-IsNamed row rows new named.1)
]

has_id-known :
    (n : ℕ) (rows : List FileRow)
    → any (λ r. same_id (some n) r.id) rows ≡ true
    → has_id n rows ≡ true
has_id-known n [] h = h
has_id-known n (r ∷ rows) h = elim (Bool-cases (same_id (some n) r.id)) [
  | inl same ↦ rw (← same_id-cong (some n) r.id n same, ==_refl n) refl
  | inr other ↦ ground (arith, has_id-known n rows (rw other at h))
]

or_not_left : (a b : Bool) → (a || b) ≡ false → a ≡ false
or_not_left true b h = cc
or_not_left false b h = refl

pub same_id-sym : (o : Option ℕ) (n : ℕ) → same_id o (some n) ≡ same_id (some n) o
same_id-sym none n = refl
same_id-sym (some k) n = ground arith

has_id-unknown :
    (n : ℕ) (rows : List FileRow)
    → any (λ r. same_id (some n) r.id) rows ≡ false
    → has_id n rows ≡ false
has_id-unknown n [] h = refl
has_id-unknown n (r ∷ rows) h =
    let here = or_not_left (same_id (some n) r.id) (any (λ f. same_id (some n) f.id) rows) h in
    let rest = or_false (same_id (some n) r.id) (any (λ f. same_id (some n) f.id) rows) h in
    rw (same_id-sym r.id n ∙ here, has_id-unknown n rows rest) refl

known_or :
    (n j : ℕ) (rows : List FileRow)
    → has_id n rows ≡ true
    → has_id j rows ≡ ((n == j) || has_id j rows)
known_or n j rows h = elim (Bool-cases (n == j)) [
  | inl same ↦ let it : n ≡ j = ground arith in rw same (rw it at h)
  | inr other ↦ rw other
]

same_id-none : (rows : List FileRow) → any (λ r. same_id none r.id) rows ≡ false
same_id-none [] = refl
same_id-none (r ∷ rows) = same_id-none rows

-- An id belongs to one row.
abbrev pub IsDistinct : List FileRow → Type 0
IsDistinct [] = Unit
IsDistinct (r ∷ rows) = ((n : ℕ) → r.id ≡ some n → has_id n rows ≡ false) × IsDistinct rows

pub same_id-some : (n : ℕ) (o : Option ℕ) → same_id (some n) o ≡ true → o ≡ some n
same_id-some n none h = cc
same_id-some n (some k) h = let same : n ≡ k = ground arith in rw same refl

not_both : (a b : Bool) → a ≡ false → b ≡ false → (a || (b || false)) ≡ false
not_both true b h k = cc
not_both false true h k = cc
not_both false false h k = refl

appended-IsDistinct :
    (row : FileRow) (n : ℕ) (rows : List FileRow)
    → row.id ≡ some n
    → has_id n rows ≡ false
    → IsDistinct rows
    → IsDistinct (rows ++ row ∷ [])
appended-IsDistinct row n [] known fresh all = (λ k h. refl, tt)
appended-IsDistinct row n (r ∷ rows) known fresh (head, all) = (
  λ k h.
      let other : (n == k) ≡ false =
        let before : (k == n) ≡ false =
          ap (λ o. same_id o (some n)) (sym h)
          ∙ or_not_left (same_id r.id (some n)) (has_id n rows) fresh in
        ground arith in
      rw (any-append, known) (not_both (has_id k rows) (n == k) (head k h) other),
  appended-IsDistinct row n rows known (or_false (same_id r.id (some n)) (has_id n rows) fresh) all,
)

replaced-IsDistinct :
    (row : FileRow) (rows : List FileRow)
    → IsDistinct rows
    → IsDistinct (map (λ r. if same_id row.id r.id then row else r) rows)
replaced-IsDistinct row [] all = tt
replaced-IsDistinct row (r ∷ rows) (head, all) = elim (Bool-cases (same_id row.id r.id)) [
  | inl same ↦ rw same (
    λ n h.
        has_id-replaced row n rows
        ∙ head n (same_id-some n r.id (ap (λ o. same_id o r.id) (sym h) ∙ same)),
    replaced-IsDistinct row rows all,
  )
  | inr other ↦
      rw other (λ n h. has_id-replaced row n rows ∙ head n h, replaced-IsDistinct row rows all)
]

abbrev pub IsExtended : ℕ → List FileRow → List FileRow → Type 0
IsExtended n rows rows' =
    (All IsNamed rows → All IsNamed rows')
    × ((j : ℕ) → has_id j rows' ≡ ((n == j) || has_id j rows))
    × (IsDistinct rows → IsDistinct rows')

appended :
    (row : FileRow) (n : ℕ) (rows : List FileRow)
    → row.id ≡ some n
    → IsNamed row
    → has_id n rows ≡ false
    → IsExtended n rows (rows ++ row ∷ [])
appended row n rows known named fresh = (
  λ all. All-append IsNamed rows (row ∷ []) all (named, tt),
  λ j. rw (any-append, known) (or_swap (has_id j rows) (n == j)),
  appended-IsDistinct row n rows known fresh,
)

stored_named :
    (o : Option ℕ) (row stored : FileRow) (hash : List ℕ) (rows : List FileRow)
    → row.id ≡ o
    → row.hash ≡ some hash
    → any (λ r. same_id o r.id) rows ≡ false
    → IsStoredAs o sync_files_schema row rows stored
    → ((n : ℕ) × (stored.id ≡ some n) × (has_id n rows ≡ false)) × (stored.hash ≡ some hash)
stored_named none row stored hash rows known hashed new (n, fresh, same) =
    ((n, rw same refl, fresh), rw same hashed)
stored_named (some n) row stored hash rows known hashed new same =
    ((n, rw same known, has_id-unknown n rows new), rw same hashed)

module _ (S : Sql) (table : IsTable FileRow sync_files_schema S.sync_files)
    (upsert : IsUpsert FileRow sync_files_schema S.sync_files) where
  abbrev pub Stored : FileRow → S.sync_files.Rows → Type 0
  Stored row t =
      (n : ℕ) × (stored : FileRow) × (t' : S.sync_files.Rows) × (S.sync_files.upsert row t
        ≡ some (stored, t'))
      × (stored.id ≡ some n)
      × IsExtended n (S.sync_files.select t) (S.sync_files.select t')

  upsert-known :
      (row : FileRow) (n : ℕ) (hash : List ℕ) (t : S.sync_files.Rows)
      → row.id ≡ some n
      → row.hash ≡ some hash
      → any (λ r. same_id row.id r.id) (S.sync_files.select t) ≡ true
      → Stored row t
  upsert-known row n hash t known hashed there =
      let (t', e, rows) = upsert.upsert_existing row t there in
      (
        n,
        row,
        t',
        e,
        known,
        (
          λ named. rw rows (replaced-IsNamed row _ ((hash, hashed), (n, known)) named),
          λ j.
              rw (rows, has_id-replaced row j (S.sync_files.select t))
                (known_or n j (S.sync_files.select t)
                  (has_id-known n (S.sync_files.select t) (rw known at there))),
          λ all. rw rows (replaced-IsDistinct row (S.sync_files.select t) all),
        ),
      )

  upsert-fresh :
      (row stored : FileRow) (hash : List ℕ) (t t' : S.sync_files.Rows)
      → row.hash ≡ some hash
      → any (λ r. same_id row.id r.id) (S.sync_files.select t) ≡ false
      → S.sync_files.insert row t ≡ some (stored, t')
      → Stored row t
  upsert-fresh row stored hash t t' hashed new h =
      let e : S.sync_files.upsert row t ≡ some (stored, t') = upsert.upsert_fresh row t new ∙ h in
      let rows = table.select-insert row stored t t' h in
      let how = table.insert_stored row stored t t' h in
      let ((n, known, fresh), hashed') =
        stored_named row.id row stored hash (S.sync_files.select t) refl hashed new how in
      (
        n,
        stored,
        t',
        e,
        known,
        rw rows
            (appended stored n (S.sync_files.select t) known ((hash, hashed'), (n, known)) fresh),
      )

  pub upsert-Stored :
      (row : FileRow) (hash : List ℕ) (t : S.sync_files.Rows)
      → row.hash ≡ some hash
      → (S.sync_files.upsert row t ≡ none) ⊎ Stored row t
  upsert-Stored row hash t hashed =
      elim (Bool-cases (any (λ r. same_id row.id r.id) (S.sync_files.select t))) [
        | inl there ↦ elim (Option-cases row.id) [
          | inl unknown ↦ absurd (true_ne_false (rw (unknown, same_id-none) at there))
          | inr (n, known) ↦ inr (upsert-known row n hash t known hashed there)
        ]
        | inr new ↦ elim (Option-cases (S.sync_files.insert row t)) [
          | inl refused ↦ inl (upsert.upsert_fresh row t new ∙ refused)
          | inr ((stored, t'), h) ↦ inr (upsert-fresh row stored hash t t' hashed new h)
        ]
      ]
