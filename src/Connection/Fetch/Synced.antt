-- ===== src/Connection/Fetch/Synced.antt =====
-- A download from beginning to end: the blocks that `gen_blocks` of src/sync_directory.rs cuts on
-- the one device, `get_file` of src/peer_connection/mod.rs on the other, and its disk
-- (src/storage_backend.rs).
use bep_rs.Prelude.{
  ℕ, ◌+◌, ◌^◌, ◌<◌, ◌≡◌, refl, sym, ap, subst, ◌∙◌, lt→ltb, true, false, some, List, [], ◌∷◌, ◌++◌,
  append-nil, append_assoc, length, length-append, length-take, take, drop, drop-append,
  take-append-drop, text_eq, text_eq_refl, arith,
}
use bep_rs.Prelude.Int.{ℤ, as_u64}
use bep_rs.Prelude.Outcome.{Outcome, ok, ok-injective}
use bep_rs.Sync.{SyncBlock, SyncFile, SyncDirectory, get_name}
use bep_rs.Sync.FilePath.{push}
use bep_rs.Sync.Blocks.{file_blocks}
use bep_rs.Sync.Blocks.Layout.{file_blocks-Covers}
use bep_rs.Sync.Blocks.Tiling.{IsTiling, Covers-IsTiling}
use bep_rs.Storage.{Disk, Os, contents_of, splice, put_file, write_block}
use bep_rs.Storage.Contents.{splice_next}
use bep_rs.State.Monad.{Sql}
use bep_rs.Connection.Items.{Request, PeerCommandError}
use bep_rs.Connection.Requests.{PeerRequestResponse}
use bep_rs.Connection.Fetch.{Download, Surroundings, get_file}
use bep_rs.Connection.Fetch.Integrity.{Writes, IsPrefixOf, get_file-IsPrefixOf}

-- The writes of a download, carried out on the disk.
abbrev pub replay : Os → Writes → Disk → Disk
replay os [] disk = disk
replay os ((path, (offset, bytes)) ∷ ws) disk =
    replay os ws (write_block os path offset bytes disk).1

-- What is relied on of SHA-256: no other bytes have the hash of a piece of the contents.
abbrev pub IsCollisionFreeAt : (List ℕ → List ℕ) → List ℕ → Type 0
IsCollisionFreeAt sha256 contents =
    (xs : List ℕ) (a n : ℕ)
    → sha256 xs ≡ sha256 (take n (drop a contents))
    → xs ≡ take n (drop a contents)

module _ (os : Os) (file : List ℕ) (writable : os.can_write file ≡ true) where
  write_block_file :
      (offset : ℕ) (bytes : List ℕ) (disk : Disk)
      → offset < 2 ^ 63
      → contents_of ((write_block os file offset bytes disk).1 file)
        ≡ splice offset bytes (contents_of (disk file))
  unfolding write_block put_file
  write_block_file offset bytes disk small =
      rw (writable, lt→ltb offset (2 ^ 63) small) (rw (text_eq_refl file))

  write_block_other :
      (offset : ℕ) (bytes : List ℕ) (disk : Disk) (path : List ℕ)
      → offset < 2 ^ 63
      → text_eq path file ≡ false
      → (write_block os file offset bytes disk).1 path ≡ disk path
  unfolding write_block put_file
  write_block_other offset bytes disk path small other =
      rw (writable, lt→ltb offset (2 ^ 63) small) (rw other)

  module _ (sha256 : List ℕ → List ℕ) (contents old : List ℕ) (small : length contents < 2 ^ 31)
      (unique : IsCollisionFreeAt sha256 contents) where
    replay-IsTiling :
        (blocks : List SyncBlock) (ws : Writes) (p rest : List ℕ) (disk : Disk)
        → IsPrefixOf sha256 file blocks ws
        → length ws ≡ length blocks
        → IsTiling sha256 (length p) rest blocks
        → p ++ rest ≡ contents
        → contents_of (disk file) ≡ p ++ drop (length p) old
        → (contents_of (replay os ws disk file) ≡ contents ++ drop (length contents) old)
          × ((path : List ℕ) → text_eq path file ≡ false → replay os ws disk path ≡ disk path)
    replay-IsTiling [] (w ∷ ws) p rest disk fits all tiles whole have = absurd fits
    replay-IsTiling (b ∷ blocks) [] p rest disk fits all tiles whole have = absurd (omega arith)
    replay-IsTiling [] [] p rest disk fits all tiles whole have =
        let e : p ≡ contents = sym (append-nil p) ∙ ap (λ t. p ++ t) (sym tiles) ∙ whole in
        (have ∙ ap (λ t. t ++ drop (length t) old) e, λ path other. refl)
    replay-IsTiling (b ∷ blocks) ((at, (offset, bytes)) ∷ ws) p rest disk fits all tiles whole
          have =
        let (here, (from, (hashed, more))) = fits in
        let (n, (starts, (hash, (inside, others)))) = tiles in
        let piece : take n (drop (length p) contents) ≡ take n rest =
          ap (λ t. take n (drop (length p) t)) (sym whole) ∙ ap (take n) (drop-append p rest) in
        let same : bytes ≡ take n rest =
          unique bytes (length p) n (hashed ∙ hash ∙ ap sha256 (sym piece)) ∙ piece in
        let bound : length p < 2 ^ 31 =
          omega (arith, length-append p rest, ap (λ (t : List ℕ). length t) whole) in
        let place : offset ≡ length p = from ∙ ap as_u64 starts ∙ (unfold as_u64 in omega arith) in
        let next : Disk = (write_block os file (length p) (take n rest) disk).1 in
        let grown : List ℕ = p ++ take n rest in
        let long : length grown ≡ length p + n =
          omega (arith, length-append p (take n rest), length-take n rest) in
        let (result, untouched) =
          replay-IsTiling blocks ws grown (drop n rest) next more (omega arith) (rw long others)
            (append_assoc p (take n rest) (drop n rest)
              ∙ ap (λ t. p ++ t) (take-append-drop n rest)
              ∙ whole)
            (write_block_file (length p) (take n rest) disk (omega arith)
              ∙ ap (splice (length p) (take n rest)) have
              ∙ splice_next p (take n rest) old) in
        rw (here, place, same)
          (
            result,
            λ path other.
                untouched path other
                ∙ write_block_other (length p) (take n rest) disk path (omega arith) other,
          )

-- One device cuts a file of 1 to 2 ^ 31 - 1 bytes into blocks, and another, whose database has
-- these blocks for it, downloads it into a directory with a path and is allowed to write it.
-- Whatever answers the peers give: if the download succeeds, the file on the disk begins with
-- exactly the contents of the first, followed only by what an older and longer file had past that
-- length; and every other file is as before. This rests on SHA-256 having no collision with a
-- piece of the contents.
pub get_file-replay :
    (S : Sql) (env : Surroundings) (directory : SyncDirectory) (sync_file : SyncFile)
    (ask : Request → Outcome PeerCommandError PeerRequestResponse) (message_id : ℤ) (os : Os)
    (path contents : List ℕ) (d : Download S) (disk : Disk)
    → 0 < length contents
    → length contents < 2 ^ 31
    → file_blocks env.sha256 contents ≡ ok sync_file.blocks
    → IsCollisionFreeAt env.sha256 contents
    → directory.path ≡ some path
    → os.can_write (push path (get_name sync_file)) ≡ true
    → d.writes ≡ []
    → (get_file S env directory sync_file ask message_id d).0 ≡ ok tt
    → let file : List ℕ = push path (get_name sync_file) in
      let after : Disk =
        replay os (get_file S env directory sync_file ask message_id d).1.writes disk in
      (contents_of (after file) ≡ contents ++ drop (length contents) (contents_of (disk file)))
      × ((other : List ℕ) → text_eq other file ≡ false → after other ≡ disk other)
get_file-replay S env directory sync_file ask message_id os path contents d disk nonempty small cut
      unique has_path writable empty done =
    let (ws, (logged, (fits, all))) =
      get_file-IsPrefixOf S env directory sync_file ask message_id path d has_path in
    let (blocks, cut', covers) = file_blocks-Covers env.sha256 contents small nonempty in
    let same : blocks ≡ sync_file.blocks = ok-injective blocks sync_file.blocks (sym cut' ∙ cut) in
    let only : (get_file S env directory sync_file ask message_id d).1.writes ≡ ws =
      logged ∙ ap (λ t. t ++ ws) empty in
    rw only (
      replay-IsTiling os (push path (get_name sync_file)) writable env.sha256 contents
        (contents_of (disk (push path (get_name sync_file)))) small unique sync_file.blocks ws []
        contents disk fits (all done)
        (subst (IsTiling env.sha256 0 contents) same
          (Covers-IsTiling env.sha256 contents blocks covers))
        refl refl)
