-- ===== src/State/Table.antt =====
-- The database engine, SQLite through the crate diesel: a parameter, with the statements that
-- src/bep_state.rs makes of it and what SQLite documents of them.
pub mod Memory
pub mod Batch
use bep_rs.Prelude.{
  ℕ, ◌≡◌, ◌≢◌, Bool, true, false, not, if◌then◌else◌, Option, none, some, List, [], ◌∷◌, ◌++◌, map,
  keep, any,
}
use bep_rs.State.Models.{Schema, same_id}

-- One table. `insert` and `upsert` return the row as it is stored; `none` is a refusal, which
-- leaves the table alone.
pub record Table (R : Type 0) : Type 1 where
  pub Rows : Type 0
  pub empty : Rows
  pub select : Rows → List R
  pub insert : R → Rows → Option (R × Rows)
  -- ON CONFLICT (id) DO UPDATE SET, every column given
  pub upsert : R → Rows → Option (R × Rows)
  pub delete : (R → Bool) → Rows → Rows
  pub update : (R → Bool) → (R → R) → Rows → Option Rows

-- The row as it is stored: with an id, its own or one that no row has.
abbrev pub IsStoredAs : {R : Type 0} → Option ℕ → Schema R → R → List R → R → Type 0
IsStoredAs (some n) schema row rows stored = stored ≡ row
IsStoredAs none schema row rows stored =
    (n : ℕ) × (any (λ r. same_id (schema.id_of r) (some n)) rows ≡ false)
    × (stored ≡ schema.with_id n row)

abbrev pub IsStored : {R : Type 0} → Schema R → R → List R → R → Type 0
IsStored schema row rows stored = IsStoredAs (schema.id_of row) schema row rows stored

-- What is documented: rows come in the order of their insertion (their rowids grow), a row that
-- clashes with none is stored, and one that clashes is refused.
pub record IsTable (R : Type 0) (schema : Schema R) (T : Table R) : Type 0 where
  pub select-empty : T.select T.empty ≡ []
  pub select-insert :
      (row stored : R) (t t' : T.Rows)
      → T.insert row t ≡ some (stored, t')
      → T.select t' ≡ T.select t ++ stored ∷ []
  pub insert_stored :
      (row stored : R) (t t' : T.Rows)
      → T.insert row t ≡ some (stored, t')
      → IsStored schema row (T.select t) stored
  pub insert-eq-none :
      (row : R) (t : T.Rows) → any (schema.clash row) (T.select t) ≡ true → T.insert row t ≡ none
  pub insert-ne-none :
      (row : R) (t : T.Rows) → any (schema.clash row) (T.select t) ≡ false → T.insert row t ≢ none
  pub select-delete :
      (p : R → Bool) (t : T.Rows) → T.select (T.delete p t) ≡ keep (λ r. not (p r)) (T.select t)
  pub select-update :
      (p : R → Bool) (f : R → R) (t t' : T.Rows)
      → T.update p f t ≡ some t'
      → T.select t' ≡ map (λ r. if p r then f r else r) (T.select t)

-- An upsert into a table whose only constraint is its id: a row of that id is replaced where it
-- stands, and otherwise the row is inserted.
pub record IsUpsert (R : Type 0) (schema : Schema R) (T : Table R) : Type 0 where
  pub upsert_fresh :
      (row : R) (t : T.Rows)
      → any (λ r. same_id (schema.id_of row) (schema.id_of r)) (T.select t) ≡ false
      → T.upsert row t ≡ T.insert row t
  pub upsert_existing :
      (row : R) (t : T.Rows)
      → any (λ r. same_id (schema.id_of row) (schema.id_of r)) (T.select t) ≡ true
      → (t' : T.Rows) × (T.upsert row t ≡ some (row, t'))
        × (T.select t'
            ≡ map
                (λ r. if same_id (schema.id_of row) (schema.id_of r) then row else r)
                (T.select t))

-- One statement that inserts several rows: all or none.
unfoldable pub insert_all : {R : Type 0} (T : Table R) → List R → T.Rows → Option T.Rows
insert_all T [] t = some t
insert_all T (row ∷ rows) t = elim (T.insert row t) [
  | none ↦ none
  | some (stored, t') ↦ insert_all T rows t'
]
