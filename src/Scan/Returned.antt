-- ===== src/Scan/Returned.antt =====
-- What a scan returns as a whole (src/sync_directory.rs, `generate_index`).
use bep_rs.Prelude.{
  ℕ, if◌then◌else◌, ◌≡◌, refl, sym, ap, subst, ◌∙◌, ◌||◌, Bool, true, false, not, inl, inr,
  is_empty, Option, none, some, List, [], ◌∷◌, all, Bool-cases,
}
use mathlib.Core.Option.{some-injective}
use bep_rs.Sync.{SyncFile, SyncDirectory}
use bep_rs.State.Files.{get_sync_files}
use bep_rs.State.Peers.{get_short_id}
use bep_rs.State.Folders.{directory_changed}
use bep_rs.State.Monad.{Sql, BepState, Method, continue, pure, unwrap, require, ◌>>=◌, ◌>>◌}
use bep_rs.Connection.Merge.{replace_first}
use bep_rs.Scan.{Surroundings, is_at, scan_file, scan_files, generate_index}
use bep_rs.Scan.Fresh.{IsFresh, Returns, ReturnsFresh, scan_file-IsFresh}

abbrev pub AllFresh : Surroundings → List ℕ → List (List ℕ) → List SyncFile → Type 0
AllFresh env path [] [] = Unit
AllFresh env path [] (file ∷ files) = ⊥
AllFresh env path (name ∷ names) [] = ⊥
AllFresh env path (name ∷ names) (file ∷ files) =
    IsFresh env path name file × AllFresh env path names files

continue-Returns {ℓ κ} :
    {S : Sql} {A : Type ℓ} {B : Type κ} (P : B → Type 0) (r : Option A) (f : A → Method S B)
    (s : BepState S)
    → ((a : A) → r ≡ some a → Returns P (f a s).0)
    → Returns P (continue r f s).0
continue-Returns P none f s next = tt
continue-Returns P (some a) f s next = next a refl

module _ (S : Sql) (env : Surroundings) (dir : SyncDirectory) (path : List ℕ) (short_id : ℕ) where
  abbrev ReturnsAllFresh : List (List ℕ) → Option (List SyncFile × Bool) → Type 0
  ReturnsAllFresh names = Returns (λ r. AllFresh env path names (r.0))

  scan_files-AllFresh :
      (names : List (List ℕ)) (sync_files : List SyncFile) (changed : Bool) (s : BepState S)
      → ReturnsAllFresh names (scan_files S env dir path short_id names sync_files changed s).0
  unfolding scan_files
  scan_files-AllFresh [] sync_files changed s = tt
  scan_files-AllFresh (name ∷ names) sync_files changed s =
      let first = scan_file S env dir path short_id name sync_files s in
      let fresh : ReturnsFresh S env dir path short_id name (first.0) =
        scan_file-IsFresh S env dir path short_id name sync_files s in
      let rest = λ (r : SyncFile × Bool).
        scan_files S env dir path short_id names (replace_first (is_at name) (r.0) sync_files)
          (changed || r.1) in
      continue-Returns (λ r. AllFresh env path (name ∷ names) (r.0)) (first.0)
        (λ r. rest r >>= λ q. pure ((r.0) ∷ (q.0), q.1)) (first.1)
        λ r e.
          continue-Returns (λ r. AllFresh env path (name ∷ names) (r.0)) ((rest r (first.1)).0)
            (λ q. pure ((r.0) ∷ (q.0), q.1)) ((rest r (first.1)).1)
            λ q k. (
              subst (Returns (λ r. IsFresh env path name (r.0))) e fresh,
              subst (ReturnsAllFresh names) k (
                  scan_files-AllFresh names (replace_first (is_at name) (r.0) sync_files)
                    (changed || r.1) (first.1)),
            )

module _ (S : Sql) (env : Surroundings) (dir : SyncDirectory) where
  -- What follows the loop returns what the loop did.
  abbrev conclude : List SyncFile × Bool → Method S (List SyncFile)
  conclude (out_files, changed) =
      require (all (λ (file : SyncFile). not (is_empty file.versions)) out_files)
      >> ((if changed then directory_changed S dir else pure tt) >> pure out_files)

  conclude_same :
      (P : List SyncFile → Type 0) (r : List SyncFile × Bool) (s : BepState S)
      → P (r.0)
      → Returns P (conclude r s).0
  unfolding directory_changed
  conclude_same P (out_files, true) s h =
      elim (Bool-cases (all (λ (file : SyncFile). not (is_empty file.versions)) out_files)) [
        | inl whole ↦ rw whole h
        | inr bad ↦ rw bad tt
      ]
  conclude_same P (out_files, false) s h =
      elim (Bool-cases (all (λ (file : SyncFile). not (is_empty file.versions)) out_files)) [
        | inl whole ↦ rw whole h
        | inr bad ↦ rw bad tt
      ]

  scan_from :
      (path : List ℕ) (names : List (List ℕ)) (short_id : ℕ) (sync_files : List SyncFile)
      (s : BepState S)
      → Returns
          (AllFresh env path names)
          ((scan_files S env dir path short_id names sync_files false >>= conclude) s).0
  scan_from path names short_id sync_files s =
      let scanned = scan_files S env dir path short_id names sync_files false s in
      continue-Returns (AllFresh env path names) (scanned.0) conclude (scanned.1) λ r e.
        conclude_same (AllFresh env path names) r (scanned.1) (
          subst (Returns (λ r. AllFresh env path names (r.0))) e
            (scan_files-AllFresh S env dir path short_id names sync_files false s))

  -- What a scan returns, if it returns: one entry for each name that the file system lists in the directory, in
  -- that order; each has that name, and the hash of the contents of its file, unless the peers have
  -- a newer version of it than the one that is synced.
  pub generate_index-AllFresh :
      (path : List ℕ) (names : List (List ℕ)) (files : List SyncFile) (s s' : BepState S)
      → dir.path ≡ some path
      → env.read_dir path ≡ some names
      → generate_index S env dir s ≡ (some files, s')
      → AllFresh env path names files
  unfolding generate_index
  generate_index-AllFresh path names files s s' located listed done =
      let identified = get_short_id S env.sha256 s in
      let indexed = get_sync_files S env.order_by_offset dir.id (identified.1) in
      let scan =
        λ (short_id : ℕ) (sync_files : List SyncFile) (names : List (List ℕ)) (path : List ℕ).
          scan_files S env dir path short_id names sync_files false >>= conclude in
      let all_fresh : Returns (AllFresh env path names) ((generate_index S env dir s).0) =
        continue-Returns (AllFresh env path names) (identified.0)
          (λ short_id. get_sync_files S env.order_by_offset dir.id >>= λ sync_files.
            unwrap dir.path >>= λ path.
            unwrap (env.read_dir path) >>= λ names. scan short_id sync_files names path)
          (identified.1)
          λ short_id e.
            continue-Returns (AllFresh env path names) (indexed.0)
              (λ sync_files. unwrap dir.path >>= λ path.
                unwrap (env.read_dir path) >>= λ names. scan short_id sync_files names path)
              (indexed.1)
              λ sync_files k.
                continue-Returns (AllFresh env path names) dir.path
                  (λ path.
                    unwrap (env.read_dir path) >>= λ names. scan short_id sync_files names path)
                  (indexed.1)
                  λ path' l.
                    continue-Returns (AllFresh env path names) (env.read_dir path')
                      (λ names. scan short_id sync_files names path') (indexed.1)
                      λ names' m.
                        let it : path' ≡ path = some-injective _ _ (sym l ∙ located) in
                        let they : names' ≡ names =
                          some-injective _ _ (sym m ∙ ap env.read_dir it ∙ listed) in
                        subst
                          (λ p.
                            Returns (AllFresh env path names)
                              ((scan short_id sync_files names' p (indexed.1)).0))
                          (sym it)
                          (subst
                            (λ ns.
                              Returns (AllFresh env path names)
                                ((scan short_id sync_files ns path (indexed.1)).0))
                            (sym they) (scan_from path names short_id sync_files (indexed.1))) in
      subst (Returns (AllFresh env path names)) (ap (λ t. t.0) done) all_fresh
