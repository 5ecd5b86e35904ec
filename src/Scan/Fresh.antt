-- ===== src/Scan/Fresh.antt =====
-- A file that a scan returns is what is on the disk (src/sync_directory.rs, the loop of
-- `generate_index`).
use bep_rs.Prelude.{
  ℕ, ◌+◌, ◌%◌, ◌^◌, ◌++◌, ◌≡◌, refl, sym, subst, ==_refl, Bool, true, ltb, ◌⊎◌, inl, inr, Option,
  none, some, List, [], ◌∷◌, find?, last?, text_eq_refl, Bool-cases, Option-cases,
}
use mathlib.Core.Option.{some-injective}
use bep_rs.Sync.{SyncFile, SyncDirectory, comp_hashes}
use bep_rs.Sync.FilePath.{push, components}
use bep_rs.Sync.Blocks.{gen_blocks}
use bep_rs.State.Files.{update_sync_file}
use bep_rs.State.Monad.{Sql, BepState}
use bep_rs.Scan.{
  Surroundings, result, same_parts, is_at, scan_known, scan_new, scan_changed, scan_file,
}

-- The file has the hash of the contents, unless the peers have a newer version than the one that
-- is synced.
abbrev pub IsFresh : Surroundings → List ℕ → List ℕ → SyncFile → Type 0
IsFresh env path name file =
    (bytes : List ℕ) × (env.disk (push path name) ≡ some bytes)
    × (is_at name file ≡ true)
    × ((comp_hashes (env.sha256 bytes) file.hash ≡ true)
        ⊎ ((author : ℕ) × (latest : ℕ) × (last? file.versions ≡ some (author, latest))
            × (ltb file.synced_version latest ≡ true)))

comp_hashes_refl : (hash : List ℕ) → comp_hashes hash hash ≡ true
unfolding comp_hashes
comp_hashes_refl [] = refl
comp_hashes_refl (b ∷ hash) = rw (==_refl b, comp_hashes_refl hash)

same_parts_refl : (parts : List (List ℕ)) → same_parts parts parts ≡ true
same_parts_refl [] = refl
same_parts_refl (p ∷ parts) = rw (text_eq_refl p, same_parts_refl parts)

find?-sound :
    (p : SyncFile → Bool) (files : List SyncFile) (file : SyncFile)
    → find? p files ≡ some file
    → p file ≡ true
find?-sound p [] file h = cc
find?-sound p (x ∷ files) file h = elim (Bool-cases (p x)) [
  | inl here ↦ subst (λ f. p f ≡ true) (some-injective _ _ (rw here at h)) here
  | inr other ↦ find?-sound p files file (rw other at h)
]

-- What a step returns, if it returns.
abbrev pub Returns {ℓ} : {A : Type ℓ} → (A → Type 0) → Option A → Type 0
Returns P none = Unit
Returns P (some a) = P a

is_at_same :
    (name : List ℕ) (file new : SyncFile)
    → new.path ≡ file.path
    → is_at name file ≡ true
    → is_at name new ≡ true
unfolding is_at
is_at_same name file new same at = rw same at

module _ (S : Sql) (env : Surroundings) (dir : SyncDirectory) (path : List ℕ) (short_id : ℕ) where
  abbrev pub ReturnsFresh : List ℕ → Option (SyncFile × Bool) → Type 0
  ReturnsFresh name = Returns (λ r. IsFresh env path name (r.0))

  scan_changed-IsFresh :
      (name bytes : List ℕ) (latest : ℕ) (file : SyncFile) (s : BepState S)
      → env.disk (push path name) ≡ some bytes
      → is_at name file ≡ true
      → ReturnsFresh name
          (scan_changed S env dir path short_id name (env.sha256 bytes) latest file s).0
  unfolding scan_changed
  scan_changed-IsFresh name bytes latest file s readable at =
      elim (Option-cases (result (gen_blocks env.sha256 env.disk (push path name) dir))) [
        | inl failed ↦ rw failed tt
        | inr (blocks, cut) ↦
            let vnumber = (latest + 1) % 2 ^ 64 in
            let updated : SyncFile = record file {
              synced_version = vnumber;
              versions = file.versions ++ (short_id, vnumber) ∷ [];
              hash = env.sha256 bytes;
              blocks = blocks;
            } in
            rw cut (elim (Option-cases (update_sync_file S env.order_by_offset dir updated s).0) [
              | inl panics ↦ rw panics tt
              | inr (u, stored) ↦ rw stored (
                bytes,
                readable,
                is_at_same name file updated refl at,
                inl (comp_hashes_refl (env.sha256 bytes)),
              )
            ])
      ]

  scan_known-IsFresh :
      (name bytes : List ℕ) (file : SyncFile) (s : BepState S)
      → env.disk (push path name) ≡ some bytes
      → is_at name file ≡ true
      → ReturnsFresh name (scan_known S env dir path short_id name (env.sha256 bytes) file s).0
  unfolding scan_known
  scan_known-IsFresh name bytes file s readable at = elim (Option-cases (last? file.versions)) [
    | inl none_there ↦ rw (scan_known, none_there) tt
    | inr ((author, latest), newest) ↦ elim (Bool-cases (ltb file.synced_version latest)) [
      | inl behind ↦
          rw (scan_known, newest, behind)
            (bytes, readable, at, inr (author, latest, newest, behind))
      | inr synced ↦ elim (Bool-cases (comp_hashes (env.sha256 bytes) file.hash)) [
        | inl same ↦ rw (scan_known, newest, synced, same) (bytes, readable, at, inl same)
        | inr changed ↦
            rw (scan_known, newest, synced, changed)
              (scan_changed-IsFresh name bytes latest file s readable at)
      ]
    ]
  ]

  scan_new-IsFresh :
      (name bytes : List ℕ) (s : BepState S)
      → env.disk (push path name) ≡ some bytes
      → ReturnsFresh name (scan_new S env dir path short_id name (env.sha256 bytes) s).0
  unfolding scan_new
  scan_new-IsFresh name bytes s readable =
      elim (Option-cases (result (gen_blocks env.sha256 env.disk name dir))) [
        | inl failed ↦ rw failed tt
        | inr (blocks, cut) ↦
            let new : SyncFile = record {
              id = none;
              path = name;
              hash = env.sha256 bytes;
              modified_by = short_id;
              synced_version = 0;
              versions = (short_id, 0) ∷ [];
              blocks = blocks;
            } in
            rw cut (elim (Option-cases (update_sync_file S env.order_by_offset dir new s).0) [
              | inl panics ↦ rw panics tt
              | inr (u, stored) ↦ rw stored (
                bytes,
                readable,
                unfold is_at in same_parts_refl (components name),
                inl (comp_hashes_refl (env.sha256 bytes)),
              )
            ])
      ]

  pub scan_file-IsFresh :
      (name : List ℕ) (sync_files : List SyncFile) (s : BepState S)
      → ReturnsFresh name (scan_file S env dir path short_id name sync_files s).0
  unfolding scan_file
  scan_file-IsFresh name sync_files s = elim (Option-cases (env.disk (push path name))) [
    | inl unreadable ↦
        let e : scan_file S env dir path short_id name sync_files s ≡ (none, s) =
          rw (scan_file, unreadable) in
        subst (λ t. ReturnsFresh name (t.0)) (sym e) tt
    | inr (bytes, readable) ↦ elim (Option-cases (find? (is_at name) sync_files)) [
      | inl new ↦
          let e : scan_file S env dir path short_id name sync_files s
              ≡ scan_new S env dir path short_id name (env.sha256 bytes) s =
            rw (scan_file, readable, new) in
          subst (λ t. ReturnsFresh name (t.0)) (sym e) (scan_new-IsFresh name bytes s readable)
      | inr (file, found) ↦
          let e : scan_file S env dir path short_id name sync_files s
              ≡ scan_known S env dir path short_id name (env.sha256 bytes) file s =
            rw (scan_file, readable, found) in
          subst (λ t. ReturnsFresh name (t.0)) (sym e)
            (scan_known-IsFresh name bytes file s readable
              (find?-sound (is_at name) sync_files file found))
    ]
  ]
