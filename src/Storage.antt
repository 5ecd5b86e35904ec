-- ===== src/Storage.antt =====
-- Blocks of files on the local disk (src/storage_backend.rs, `LocalStorageBackend`). The disk
-- gives the contents of the file at a path. A write that fails half way (a full disk) is not
-- modelled, nor is a buffer that is larger than the memory.
pub mod Bytes
pub mod Contents
use bep_rs.Prelude.{
  ℕ, ◌+◌, ◌-◌, ◌^◌, ltb, Bool, true, false, if◌then◌else◌, Option, none, some, List, [], ◌∷◌, ◌++◌,
  length, take, drop, replicate, text_eq,
}
use bep_rs.Prelude.Outcome.{Outcome, ok, err, panicked}

pub data StorageError : Type 0 where
  invalid_path other : StorageError
  io_error : List ℕ → StorageError

abbrev pub Disk : Type 0
Disk = List ℕ → Option (List ℕ)

-- What the operating system lets the program open, and the texts of its errors.
pub record Os : Type 0 where
  pub can_write : List ℕ → Bool
  pub can_read : List ℕ → Bool
  pub not_opened : List ℕ
  pub invalid_argument : List ℕ
  pub unexpected_eof : List ℕ

abbrev pub contents_of : Option (List ℕ) → List ℕ
contents_of none = []
contents_of (some bytes) = bytes

-- A file that is shorter than the offset is filled up with zeros.
abbrev pub pad_to : ℕ → List ℕ → List ℕ
pad_to offset old = old ++ replicate (offset - length old) 0

-- `seek` and `write_all`: where there is nothing to write, the file stays as it is.
unfoldable pub splice : ℕ → List ℕ → List ℕ → List ℕ
splice offset [] old = old
splice offset (b ∷ bytes) old =
    take offset (pad_to offset old) ++ ((b ∷ bytes) ++ drop (offset + length (b ∷ bytes)) old)

unfoldable pub put_file : List ℕ → List ℕ → Disk → Disk
put_file url bytes disk path = if text_eq path url then some bytes else disk path

module _ (os : Os) where
  -- The file is created if it is not there, also where the seek then fails (an offset that is no
  -- `i64`).
  unfoldable pub write_block : List ℕ → ℕ → List ℕ → Disk → Outcome StorageError (Unit {0}) × Disk
  unfolding splice put_file
  write_block url offset bytes disk =
      let old = contents_of (disk url) in
      if os.can_write url
      then if ltb offset (2 ^ 63)
        then (ok tt, put_file url (splice offset bytes old) disk)
        else (err (io_error os.invalid_argument), put_file url old disk)
      else (err (io_error os.not_opened), disk)

  -- `vec![0; len]` panics where `len` is no `isize`; `read_exact` fails where the file ends.
  unfoldable pub read_contents : ℕ → ℕ → List ℕ → Outcome StorageError (List ℕ)
  read_contents offset len bytes =
      if ltb offset (2 ^ 63)
      then if ltb len (2 ^ 63)
        then if ltb (length (drop offset bytes)) len
          then err (io_error os.unexpected_eof)
          else ok (take len (drop offset bytes))
        else panicked
      else err (io_error os.invalid_argument)

  unfoldable pub read_block : List ℕ → ℕ → ℕ → Disk → Outcome StorageError (List ℕ)
  unfolding read_contents
  read_block url offset len disk = elim (disk url) [
    | none ↦ err (io_error os.not_opened)
    | some bytes ↦
        if os.can_read url then read_contents offset len bytes else err (io_error os.not_opened)
  ]
