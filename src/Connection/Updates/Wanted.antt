-- ===== src/Connection/Updates/Wanted.antt =====
-- What the download of a directory asks for and writes (src/peer_connection/mod.rs, `get_directory`).
use bep_rs.Prelude.{
  ℕ, ◌≡◌, ◌⊎◌, inl, inr, refl, sym, ap, subst, ◌∙◌, Bool, true, false, not, ltb, ◌||◌, some, List,
  [], ◌∷◌, ◌++◌, append_assoc, append-nil, length, Bool-cases, Option,
}
use bep_rs.Prelude.Int.{ℤ}
use bep_rs.Prelude.Outcome.{Outcome, ok, err, panicked}
use bep_rs.Sync.{SyncFile, SyncDirectory, get_name, get_index_version}
use bep_rs.Sync.FilePath.{push}
use bep_rs.State.Monad.{Sql}
use bep_rs.State.Files.{get_sync_files}
use bep_rs.Connection.Items.{Request, PeerCommandError}
use bep_rs.Connection.Requests.{PeerRequestResponse}
use bep_rs.Connection.Fetch
use bep_rs.Connection.Fetch.{Download, Fetch, and_then, get_file}
use bep_rs.Connection.Fetch.Integrity.{Writes, IsPrefixOf, get_file-IsPrefixOf}
use bep_rs.Connection.Updates.{get_files, get_directory}

module _ (S : Sql) (env : Fetch.Surroundings) (exists : Download S → List ℕ → Bool)
    (ask : Request → Outcome PeerCommandError PeerRequestResponse) (message_id : SyncFile → ℤ)
    (directory : SyncDirectory) (path : List ℕ) where
  -- The download of one file.
  abbrev fetch : SyncFile → Fetch S
  fetch file = get_file S env directory file ask (message_id file)

  -- At this point of the download, the file is missing on the disk or behind its newest version.
  abbrev pub IsWanted : Download S → SyncFile → Type 0
  IsWanted d file =
      (exists d (push path file.path) ≡ false)
      ⊎ (ltb file.synced_version (get_index_version file) ≡ true)

  -- At this point of the download, it is there and at its newest version.
  abbrev pub IsUpToDate : Download S → SyncFile → Type 0
  IsUpToDate d file =
      (exists d (push path file.path) ≡ true)
      × (ltb file.synced_version (get_index_version file) ≡ false)

  -- The blocks are those of the file from the first on, each at its offset and of bytes that have its
  -- hash; these writes lead from one point to the other.
  abbrev pub IsStored : SyncFile → Writes → Download S → Download S → Type 0
  IsStored file ws d d' =
      IsPrefixOf env.sha256 (push path (get_name file)) file.blocks ws
      × (d'.writes ≡ d.writes ++ ws)

  -- The way from one point of the download to another, through the files in their order, and the writes
  -- on it: none for a file that is current when its turn comes, and those of its blocks for a file that
  -- is wanted then. `true` if the last file was passed; otherwise a file was cut short, and nothing
  -- follows.
  pub data Downloads : Bool → Download S → List SyncFile → Writes → Download S → Type 0 where
    finished : {d : Download S} → Downloads true d [] [] d
    skipped :
        {whole : Bool} {d e : Download S} {files : List SyncFile} {ws : Writes} (file : SyncFile)
        → IsUpToDate d file
        → Downloads whole d files ws e
        → Downloads whole d (file ∷ files) ws e
    fetched :
        {whole : Bool} {d d' e : Download S} {files : List SyncFile} {more all : Writes}
        (file : SyncFile) (ws : Writes)
        → IsWanted d file
        → fetch file d ≡ (ok tt, d')
        → IsStored file ws d d'
        → length ws ≡ length file.blocks
        → Downloads whole d' files more e
        → ws ++ more ≡ all
        → Downloads whole d (file ∷ files) all e
    cut :
        {d e : Download S} {files : List SyncFile} {ws : Writes} (file : SyncFile)
        (r : Outcome PeerCommandError (Unit {0}))
        → IsWanted d file
        → fetch file d ≡ (r, e)
        → ¬ (r ≡ ok tt)
        → IsStored file ws d e
        → Downloads false d (file ∷ files) ws e

  abbrev pub Fetches :
      List SyncFile → Download S → Outcome PeerCommandError (Unit {0}) × Download S → Type 0
  Fetches files start (r, d) =
      (whole : Bool) × (ws : Writes) × (e : Download S) × (d.writes ≡ start.writes ++ ws)
      × Downloads whole start files ws e
      × (r ≡ ok tt → whole ≡ true)

  and_then-Fetches :
      (file : SyncFile) (files : List SyncFile) (start : Download S)
      (out : Outcome PeerCommandError (Unit {0}) × Download S)
      (next : Download S → Outcome PeerCommandError (Unit {0}) × Download S)
      → IsWanted start file
      → fetch file start ≡ out
      → (ws : Writes) × ((out.1.writes ≡ start.writes ++ ws)
          × (IsPrefixOf env.sha256 (push path (get_name file)) file.blocks ws
              × (out.0 ≡ ok tt → length ws ≡ length file.blocks)))
      → ((d : Download S) → Fetches files d (next d))
      → Fetches (file ∷ files) start (and_then out next)
  and_then-Fetches file files start (ok u, d) next wanted ran (ws, (added, (fits, all))) rest =
      let (whole, later, e, grown, downloads, reached) = rest d in
      (
        whole,
        ws ++ later,
        e,
        grown ∙ ap (λ t. t ++ later) added ∙ append_assoc start.writes ws later,
        fetched file ws wanted ran (fits, added) (all refl) downloads refl,
        reached,
      )
  and_then-Fetches file files start (err x, d) next wanted ran (ws, (added, (fits, all))) rest = (
    false,
    ws,
    d,
    added,
    cut file (err x) wanted ran (λ h. cc h) (fits, added),
    λ h. absurd (cc h),
  )
  and_then-Fetches file files start (panicked, d) next wanted ran (ws, (added, (fits, all))) rest =
      (
        false,
        ws,
        d,
        added,
        cut file panicked wanted ran (λ h. cc h) (fits, added),
        λ h. absurd (cc h),
      )

  IsWanted-or_current :
      (file : SyncFile) (d : Download S)
      → (((not (exists d (push path file.path)) || ltb file.synced_version (get_index_version file))
            ≡ true)
          × IsWanted d file)
        ⊎ (((not (exists d (push path file.path))
                || ltb file.synced_version (get_index_version file))
              ≡ false)
            × IsUpToDate d file)
  IsWanted-or_current file d = elim (Bool-cases (exists d (push path file.path))) [
    | inr missing ↦ inl (rw missing refl, inl missing)
    | inl there ↦ elim (Bool-cases (ltb file.synced_version (get_index_version file))) [
      | inl behind ↦ inl (rw (there, behind) refl, inr behind)
      | inr newest ↦ inr (rw (there, newest) refl, (there, newest))
    ]
  ]

  changed-Fetches :
      (files : List SyncFile) (start : Download S)
      (out : Outcome PeerCommandError (Unit {0}) × Download S)
      (next : Download S → Outcome PeerCommandError (Unit {0}) × Download S)
      → Fetches files start out
      → ((d : Download S) → (next d).1.writes ≡ d.writes)
      → Fetches files start (and_then out next)
  changed-Fetches files start (ok u, d) next (whole, ws, e, grown, downloads, reached) same =
      (whole, ws, e, same d ∙ grown, downloads, λ h. reached refl)
  changed-Fetches files start (err x, d) next (whole, ws, e, grown, downloads, reached) same =
      (whole, ws, e, grown, downloads, λ h. absurd (cc h))
  changed-Fetches files start (panicked, d) next (whole, ws, e, grown, downloads, reached) same =
      (whole, ws, e, grown, downloads, λ h. absurd (cc h))

-- The point of a download once the index is read.
abbrev pub indexed_at : (S : Sql) → Fetch.Surroundings → SyncDirectory → Download S → Download S
indexed_at S env directory d = record d {
  state = (get_sync_files S env.order_by_offset directory.id d.state).1;
}

module _ (S : Sql) (env : Fetch.Surroundings) (exists : Download S → List ℕ → Bool)
    (ask : Request → Outcome PeerCommandError PeerRequestResponse) (message_id : SyncFile → ℤ)
    (dir : SyncDirectory) (path : List ℕ) where
  abbrev at_path : SyncDirectory
  at_path = record dir { path = some path }

  get_files-Fetches :
      (files : List SyncFile) (d : Download S)
      → Fetches S env exists ask message_id at_path path files d
          (get_files S env exists ask message_id at_path files d)
  unfolding get_files
  get_files-Fetches [] d = (true, [], d, sym (append-nil d.writes), finished, λ h. refl)
  get_files-Fetches (file ∷ files) d =
      elim (IsWanted-or_current S env exists ask message_id at_path path file d) [
        | inl (test, wanted) ↦ rw test (
            and_then-Fetches S env exists ask message_id at_path path file files d
              (get_file S env at_path file ask (message_id file) d)
              (get_files S env exists ask message_id at_path files) wanted refl
              (get_file-IsPrefixOf S env at_path file ask (message_id file) path d refl)
              (get_files-Fetches files))
        | inr (test, current) ↦
            let (whole, ws, e, grown, downloads, reached) = get_files-Fetches files d in
            rw test (whole, ws, e, grown, skipped file current downloads, reached)
      ]

  at_path-Fetches :
      (files : List SyncFile) (d : Download S)
      → (get_sync_files S env.order_by_offset dir.id d.state).0 ≡ some files
      → Fetches S env exists ask message_id at_path path files
          (indexed_at S env at_path d)
          (get_directory S env exists ask message_id at_path d)
  unfolding get_directory
  at_path-Fetches files d indexed =
      rw (get_directory, indexed)
        (changed-Fetches S env exists ask message_id at_path path files (indexed_at S env at_path d)
          (get_files S env exists ask message_id at_path files (indexed_at S env at_path d)) _
          (get_files-Fetches files (indexed_at S env at_path d)) (λ d'. refl))

-- Whatever the peer answers, the download of a directory with a path goes through the files of its
-- index in order. A file that is on the disk and at its newest version, when its turn comes, is left
-- alone; of one that is missing or behind then, blocks are written from the first on, each to the place of
-- the file, at its offset and of bytes that have its hash. Up to the file that cuts the download short,
-- each wanted file is written with all its blocks; if the download succeeds, that is every file.
pub get_directory-Fetches :
    (S : Sql) (env : Fetch.Surroundings) (exists : Download S → List ℕ → Bool)
    (ask : Request → Outcome PeerCommandError PeerRequestResponse) (message_id : SyncFile → ℤ)
    (directory : SyncDirectory) (path : List ℕ) (files : List SyncFile) (d : Download S)
    → directory.path ≡ some path
    → (get_sync_files S env.order_by_offset directory.id d.state).0 ≡ some files
    → Fetches S env exists ask message_id directory path files
        (indexed_at S env directory d)
        (get_directory S env exists ask message_id directory d)
get_directory-Fetches S env exists ask message_id directory path files d has_path indexed =
    let same : record directory { path = some path } ≡ directory =
      ap (λ (p : Option (List ℕ)). record directory { path = p }) (sym has_path) in
    subst
      (λ dir.
        Fetches S env exists ask message_id dir path files (indexed_at S env dir d)
          (get_directory S env exists ask message_id dir d))
      same (at_path-Fetches S env exists ask message_id directory path files d indexed)
