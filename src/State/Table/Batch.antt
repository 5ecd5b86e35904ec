-- ===== src/State/Table/Batch.antt =====
-- Inserting several rows that come without ids.
use bep_rs.Prelude.{
  ℕ, ◌≡◌, refl, sym, ◌∙◌, false, none, some, List, [], ◌∷◌, ◌++◌, append_assoc, append-nil, any,
  All, Option-cases, inl, inr,
}
use bep_rs.State.Models.{Schema}
use bep_rs.State.Table.{Table, IsTable, IsStoredAs, insert_all}

-- The rows as they are stored, one for one.
abbrev pub AllStored : {R : Type 0} → Schema R → List R → List R → Type 0
AllStored schema [] [] = Unit
AllStored schema [] (r ∷ stored) = ⊥
AllStored schema (r ∷ rows) [] = ⊥
AllStored schema (r ∷ rows) (x ∷ stored) =
    ((n : ℕ) × (x ≡ schema.with_id n r)) × AllStored schema rows stored

-- A row with no id clashes with none.
abbrev pub IsFree : {R : Type 0} → Schema R → Type 0
IsFree {R} schema =
    (row : R) → schema.id_of row ≡ none → (rows : List R) → any (schema.clash row) rows ≡ false

module _ (R : Type 0) (schema : Schema R) (T : Table R) (table : IsTable R schema T)
    (free : IsFree schema) where
  insert_no_id :
      (row : R) (t : T.Rows)
      → schema.id_of row ≡ none
      → (stored : R) × (t' : T.Rows) × (T.insert row t ≡ some (stored, t'))
        × ((n : ℕ) × (stored ≡ schema.with_id n row))
        × (T.select t' ≡ T.select t ++ stored ∷ [])
  insert_no_id row t h = elim (Option-cases (T.insert row t)) [
    | inl refused ↦ absurd (table.insert-ne-none row t (free row h (T.select t)) refused)
    | inr ((stored, t'), e) ↦
        let named : IsStoredAs none schema row (T.select t) stored =
          rw h at (table.insert_stored row stored t t' e) in
        (stored, t', e, (named.0, named.2), table.select-insert row stored t t' e)
  ]

  pub insert_all-AllStored :
      (rows : List R) (t : T.Rows)
      → All (λ r. schema.id_of r ≡ none) rows
      → (t' : T.Rows) × (stored : List R) × (insert_all T rows t ≡ some t')
        × AllStored schema rows stored
        × (T.select t' ≡ T.select t ++ stored)
  unfolding insert_all
  insert_all-AllStored [] t h = (t, [], refl, tt, sym (append-nil _))
  insert_all-AllStored (row ∷ rows) t h =
      let (x, t', e, named, grown) = insert_no_id row t h.0 in
      let (t'', stored, rest, all, grown') = insert_all-AllStored rows t' h.1 in
      (
        t'',
        x ∷ stored,
        rw (e, insert_all) rest,
        (named, all),
        grown' ∙ rw grown (append_assoc (T.select t) (x ∷ []) stored),
      )
