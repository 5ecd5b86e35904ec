-- ===== src/State/Files/Blocks.antt =====
-- The blocks of a file are replaced as a whole (src/bep_state.rs, `update_sync_file`).
use bep_rs.Prelude.{
  ℕ, ◌≡◌, refl, sym, ap, subst, ◌==◌, ==_refl, not, true, false, is_empty, none, some, List, [],
  ◌∷◌, map, keep, append-nil, All, keep-append, arith, Bool-cases, inl, inr,
}
use bep_rs.Prelude.Int.{ℤ, leb_ℤ}
use bep_rs.Sync.{SyncBlock}
use bep_rs.State.Models.{SyncFileBlock, sync_file_blocks_schema}
use bep_rs.State.Table.{IsTable}
use bep_rs.State.Table.Batch.{AllStored, IsFree, insert_all-AllStored}
use bep_rs.State.Monad.{Sql, BepState}
use bep_rs.State.Files.{block_row, row_block, get_blocks, store_blocks}

blocks-IsFree : IsFree sync_file_blocks_schema
blocks-IsFree row h [] = refl
blocks-IsFree row h (r ∷ rows) = ground (arith, blocks-IsFree row h rows)

-- Each offset is at most the next.
abbrev pub IsAscending : List ℤ → Type 0
IsAscending [] = Unit
IsAscending (x ∷ []) = Unit
IsAscending (x ∷ y ∷ l) = (leb_ℤ x y ≡ true) × IsAscending (y ∷ l)

-- What the code relies on of ORDER BY: rows that are in order are returned as they are.
pub record IsOrder (order_by_offset : List SyncFileBlock → List SyncFileBlock) : Type 0 where
  pub in_order :
      (rows : List SyncFileBlock)
      → IsAscending (map (λ (r : SyncFileBlock). r.offset) rows)
      → order_by_offset rows ≡ rows

block_rows-no_id :
    (id : ℕ) (blocks : List SyncBlock)
    → All (λ (r : SyncFileBlock). r.id ≡ none) (map (block_row id) blocks)
unfolding block_row
block_rows-no_id id [] = tt
block_rows-no_id id (b ∷ blocks) = (refl, block_rows-no_id id blocks)

abbrev pub owned : ℕ → List SyncFileBlock → List SyncFileBlock
owned j = keep (λ (r : SyncFileBlock). r.sync_file_id == j)

stored_blocks :
    (id : ℕ) (blocks : List SyncBlock) (stored : List SyncFileBlock)
    → AllStored sync_file_blocks_schema (map (block_row id) blocks) stored
    → (owned id stored ≡ stored)
      × (map row_block stored ≡ blocks)
      × (map (λ (r : SyncFileBlock). r.offset) stored ≡ map (λ (b : SyncBlock). b.offset) blocks)
unfolding block_row row_block
stored_blocks id [] [] all = (refl, refl, refl)
stored_blocks id [] (r ∷ stored) all = absurd all
stored_blocks id (b ∷ blocks) [] all = absurd all
stored_blocks id (b ∷ blocks) (r ∷ stored) ((n, e), all) =
    let (own, read, offsets) = stored_blocks id blocks stored all in
    subst
      (λ x.
        (owned id (x ∷ stored) ≡ x ∷ stored)
        × (map row_block (x ∷ stored) ≡ b ∷ blocks)
        × (map (λ (r : SyncFileBlock). r.offset) (x ∷ stored)
            ≡ map (λ (b : SyncBlock). b.offset) (b ∷ blocks)))
      (sym e)
      (
        rw (==_refl id) (ap (λ t. sync_file_blocks_schema.with_id n (block_row id b) ∷ t) own),
        ap (λ t. b ∷ t) read,
        ap (λ t. b.offset ∷ t) offsets,
      )

-- Under another id they do not show.
foreign_blocks :
    (id j : ℕ) (blocks : List SyncBlock) (stored : List SyncFileBlock)
    → (id == j) ≡ false
    → AllStored sync_file_blocks_schema (map (block_row id) blocks) stored
    → owned j stored ≡ []
unfolding block_row
foreign_blocks id j [] [] ne all = refl
foreign_blocks id j [] (r ∷ stored) ne all = absurd all
foreign_blocks id j (b ∷ blocks) [] ne all = absurd all
foreign_blocks id j (b ∷ blocks) (r ∷ stored) ne ((n, e), all) =
    subst (λ x. owned j (x ∷ stored) ≡ []) (sym e)
      (rw ne (foreign_blocks id j blocks stored ne all))

owned-deleted :
    (id : ℕ) (rows : List SyncFileBlock)
    → owned id (keep (λ r. not (r.sync_file_id == id)) rows) ≡ []
owned-deleted id [] = refl
owned-deleted id (r ∷ rows) = ground (arith, owned-deleted id rows)

owned-deleted_other :
    (id j : ℕ) (rows : List SyncFileBlock)
    → (id == j) ≡ false
    → owned j (keep (λ r. not (r.sync_file_id == id)) rows) ≡ owned j rows
owned-deleted_other id j [] ne = refl
owned-deleted_other id j (r ∷ rows) ne = ground (arith, owned-deleted_other id j rows ne)

module _ (S : Sql) (order_by_offset : List SyncFileBlock → List SyncFileBlock)
    (order : IsOrder order_by_offset)
    (table : IsTable SyncFileBlock sync_file_blocks_schema S.sync_file_blocks) where
  -- Storing blocks, at least one and in the order of their offsets, makes them the blocks of the
  -- file, whatever they were before, and leaves those of every other file.
  pub get_blocks-store_blocks :
      (id : ℕ) (blocks : List SyncBlock) (s : BepState S)
      → is_empty blocks ≡ false
      → IsAscending (map (λ (b : SyncBlock). b.offset) blocks)
      → (s' : BepState S) × (store_blocks S order_by_offset id blocks s ≡ (some tt, s'))
        × (get_blocks S order_by_offset id s' ≡ blocks)
        × ((j : ℕ)
            → (id == j) ≡ false
            → get_blocks S order_by_offset j s' ≡ get_blocks S order_by_offset j s)
  unfolding store_blocks get_blocks
  get_blocks-store_blocks id blocks s some_block ascending =
      let cleared = S.sync_file_blocks.delete (λ r. r.sync_file_id == id) s.sync_file_blocks in
      let (rows, stored, e, all, grown) =
        insert_all-AllStored SyncFileBlock sync_file_blocks_schema S.sync_file_blocks table
          blocks-IsFree (map (block_row id) blocks) cleared (block_rows-no_id id blocks) in
      let (own, read, offsets) = stored_blocks id blocks stored all in
      (
        record s { sync_file_blocks = rows },
        rw (some_block, e),
        rw
            (
              grown,
              keep-append,
              table.select-delete,
              owned-deleted id (S.sync_file_blocks.select s.sync_file_blocks),
              own,
            )
            (rw (order.in_order stored (rw offsets ascending)) read),
        λ j ne. rw (
          grown,
          keep-append,
          table.select-delete,
          owned-deleted_other id j (S.sync_file_blocks.select s.sync_file_blocks) ne,
          foreign_blocks id j blocks stored ne all,
          append-nil,
        ),
      )

  -- Storing blocks touches no other file, and no other table.
  pub store_blocks_others :
      (id : ℕ) (blocks : List SyncBlock) (s : BepState S)
      → let s' = (store_blocks S order_by_offset id blocks s).1 in
        (s'.sync_files ≡ s.sync_files)
        × (s'.sync_file_versions ≡ s.sync_file_versions)
        × ((j : ℕ)
            → (id == j) ≡ false
            → owned j (S.sync_file_blocks.select s'.sync_file_blocks)
              ≡ owned j (S.sync_file_blocks.select s.sync_file_blocks))
  unfolding store_blocks
  store_blocks_others id blocks s = elim (Bool-cases (is_empty blocks)) [
    | inl nothing ↦ (rw nothing, rw nothing, λ j ne. rw nothing)
    | inr some_block ↦
        let (rows, stored, e, all, grown) =
          insert_all-AllStored SyncFileBlock sync_file_blocks_schema S.sync_file_blocks table
            blocks-IsFree (map (block_row id) blocks)
            (S.sync_file_blocks.delete (λ r. r.sync_file_id == id) s.sync_file_blocks)
            (block_rows-no_id id blocks) in
        (
          rw (some_block, e),
          rw (some_block, e),
          λ j ne.
              rw (some_block, e)
                (rw (
                  grown,
                  keep-append,
                  table.select-delete,
                  owned-deleted_other id j (S.sync_file_blocks.select s.sync_file_blocks) ne,
                  foreign_blocks id j blocks stored ne all,
                  append-nil,
                )),
        )
  ]
