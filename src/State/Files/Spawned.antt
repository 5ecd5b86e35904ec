-- ===== src/State/Files/Spawned.antt =====
-- Storing a file spawns no task (src/bep_state.rs, `update_sync_file`).
use bep_rs.Prelude.{
  ℕ, ◌≡◌, refl, ◌∙◌, Bool, true, false, if◌then◌else◌, leb, ltb, length, map, drop, Bool-cases,
  Option-cases, inl, inr, is_empty, not, Option, none, some, List,
}
use bep_rs.Sync.{SyncBlock, SyncFile, SyncDirectory}
use bep_rs.State.Models.{SyncFileBlock}
use bep_rs.State.Monad.{Sql, BepState, Method, continue, require, ◌>>=◌}
use bep_rs.State.Table.{insert_all}
use bep_rs.State.Files.Versions.{stored_count}
use bep_rs.State.Files.{version_row, store_file_row, store_versions, store_blocks, update_sync_file}

-- The tasks that a method has spawned by its end are those from before.
abbrev pub SpawnsNothing {ℓ} : {S : Sql} {A : Type ℓ} → Method S A → Type 0
SpawnsNothing {S} m = (s : BepState S) → (m s).1.spawned ≡ s.spawned

continue-SpawnsNothing {ℓ κ} :
    {S : Sql} {A : Type ℓ} {B : Type κ} (r : Option A) (f : A → Method S B)
    → ((a : A) → SpawnsNothing (f a))
    → (s : BepState S) → (continue r f s).1.spawned ≡ s.spawned
continue-SpawnsNothing none f h s = refl
continue-SpawnsNothing (some a) f h s = h a s

require-SpawnsNothing : {S : Sql} (b : Bool) → SpawnsNothing {S = S} (require b)
require-SpawnsNothing true s = refl
require-SpawnsNothing false s = refl

>>=-SpawnsNothing {ℓ κ} :
    {S : Sql} {A : Type ℓ} {B : Type κ} (m : Method S A) (f : A → Method S B)
    → SpawnsNothing m
    → ((a : A) → SpawnsNothing (f a))
    → SpawnsNothing (m >>= f)
>>=-SpawnsNothing m f first later s = continue-SpawnsNothing (m s).0 f later (m s).1 ∙ first s

if-SpawnsNothing {ℓ} :
    {S : Sql} {A : Type ℓ} (b : Bool) (m n : Method S A)
    → SpawnsNothing m
    → SpawnsNothing n
    → SpawnsNothing (if b then m else n)
if-SpawnsNothing true m n one other = one
if-SpawnsNothing false m n one other = other

module _ (S : Sql) (order_by_offset : List SyncFileBlock → List SyncFileBlock) where
  store_file_row-SpawnsNothing :
      (dir : SyncDirectory) (file : SyncFile)
      → SpawnsNothing (store_file_row S order_by_offset dir file)
  unfolding store_file_row
  store_file_row-SpawnsNothing dir file s = continue-SpawnsNothing _ _ (λ a s'. refl) s

  store_versions-SpawnsNothing :
      (n : ℕ) (vs : List (ℕ × ℕ)) → SpawnsNothing (store_versions S order_by_offset n vs)
  unfolding store_versions
  store_versions-SpawnsNothing n vs s = elim (Bool-cases (leb (stored_count S n s) (length vs))) [
    | inr fewer ↦ rw fewer refl
    | inl enough ↦ elim (Bool-cases (ltb (stored_count S n s) (length vs))) [
      | inr none_new ↦ rw (enough, none_new) refl
      | inl more ↦
          let new = map (version_row n) (drop (stored_count S n s) vs) in
          elim (Option-cases (insert_all S.sync_file_versions new s.sync_file_versions)) [
            | inl refused ↦ rw (enough, more, refused) refl
            | inr (rows, e) ↦ rw (enough, more, e) refl
          ]
    ]
  ]

  store_blocks-SpawnsNothing :
      (n : ℕ) (bs : List SyncBlock) → SpawnsNothing (store_blocks S order_by_offset n bs)
  unfolding store_blocks
  store_blocks-SpawnsNothing n bs =
      if-SpawnsNothing (is_empty bs) _ _ (λ s. refl)
        (λ s. continue-SpawnsNothing _ _ (λ a s'. refl) _)

  pub update_sync_file-SpawnsNothing :
      (dir : SyncDirectory) (file : SyncFile)
      → SpawnsNothing (update_sync_file S order_by_offset dir file)
  unfolding update_sync_file
  update_sync_file-SpawnsNothing dir file =
      >>=-SpawnsNothing (require (not (is_empty file.versions))) _ (require-SpawnsNothing _) λ u.
        >>=-SpawnsNothing (store_file_row S order_by_offset dir file) _
          (store_file_row-SpawnsNothing dir file)
          λ n.
            >>=-SpawnsNothing (store_versions S order_by_offset n file.versions) _
              (store_versions-SpawnsNothing n file.versions)
              λ u.
                >>=-SpawnsNothing (store_blocks S order_by_offset n file.blocks) _
                  (store_blocks-SpawnsNothing n file.blocks) (λ u s. require-SpawnsNothing _ s)
