-- ===== src/State/Table/Memory.antt =====
-- A table in memory, which does what is documented of one.
use bep_rs.Prelude.{
  ℕ, suc, ◌+◌, ◌≤◌, ◌≡◌, refl, ap, sym, ◌∙◌, false, not, if◌then◌else◌, Option, none, some, List,
  [], ◌∷◌, ◌++◌, map, keep, any, arith, Bool-cases, inl, inr,
}
use mathlib.Core.Option.{some-injective}
use bep_rs.State.Models.{Schema, same_id}
use bep_rs.State.Table.{Table, IsTable, IsUpsert, IsStoredAs}

module _ {R : Type 0} (schema : Schema R) where
  -- One more than every id in use.
  abbrev next_id : List R → ℕ
  next_id [] = 1
  next_id (r ∷ rows) = elim (schema.id_of r) [ none ↦ next_id rows | some n ↦ suc n + next_id rows ]

  abbrev stored_as : Option ℕ → R → List R → R
  stored_as (some n) row rows = row
  stored_as none row rows = schema.with_id (next_id rows) row

  abbrev stored : R → List R → R
  stored row rows = stored_as (schema.id_of row) row rows

  abbrev insert : R → List R → Option (R × List R)
  insert row rows =
      if any (schema.clash row) rows
      then none
      else some (stored row rows, rows ++ stored row rows ∷ [])

  abbrev pub memory_table : Table R
  memory_table = record {
    Rows = List R;
    empty = [];
    select = λ rows. rows;
    insert = insert;
    upsert = λ row rows.
        if any (λ r. same_id (schema.id_of row) (schema.id_of r)) rows
        then some
            (row, map (λ r. if same_id (schema.id_of row) (schema.id_of r) then row else r) rows)
        else insert row rows;
    delete = λ p rows. keep (λ r. not (p r)) rows;
    update = λ p f rows. some (map (λ r. if p r then f r else r) rows);
  }

  next_id_fresh :
      (rows : List R) (n : ℕ)
      → next_id rows ≤ n
      → any (λ r. same_id (schema.id_of r) (some n)) rows ≡ false
  next_id_fresh [] n h = refl
  next_id_fresh (r ∷ rows) n h = ground (arith, next_id_fresh rows n)

  stored_as-IsStoredAs :
      (o : Option ℕ) (row : R) (rows : List R) → IsStoredAs o schema row rows (stored_as o row rows)
  stored_as-IsStoredAs (some n) row rows = refl
  stored_as-IsStoredAs none row rows =
      (next_id rows, next_id_fresh rows (next_id rows) (omega arith), refl)

  insert_lem :
      (row r : R) (rows rows' : List R)
      → insert row rows ≡ some (r, rows')
      → (r ≡ stored row rows) × (rows' ≡ rows ++ r ∷ [])
  insert_lem row r rows rows' h = elim (Bool-cases (any (schema.clash row) rows)) [
    | inl bad ↦ absurd (cc (rw bad at h))
    | inr good ↦
        let e : some (stored row rows, rows ++ stored row rows ∷ []) ≡ some (r, rows') =
          rw good at h in
        let e' = some-injective _ _ e in
        let same : stored row rows ≡ r = ap (λ t. t.0) e' in
        (sym same, sym (ap (λ t. t.1) e') ∙ ap (λ t. rows ++ t ∷ []) same)
  ]

  pub memory_table-IsTable : IsTable R schema memory_table
  memory_table-IsTable = record {
    select-empty = refl;
    select-insert = λ row stored t t' h. (insert_lem row stored t t' h).1;
    insert_stored = λ row r t t' h.
        rw ((insert_lem row r t t' h).0) (stored_as-IsStoredAs (schema.id_of row) row t);
    insert-eq-none = λ row t h. rw h;
    insert-ne-none = λ row t h e. cc (rw h at e);
    select-delete = λ p t. refl;
    select-update = λ p f t t' h. sym (some-injective _ _ h);
  }

  pub memory_table-IsUpsert : IsUpsert R schema memory_table
  memory_table-IsUpsert = record {
    upsert_fresh = λ row t h. rw h;
    upsert_existing = λ row t h. (_, rw h, refl);
  }
