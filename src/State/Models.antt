-- ===== src/State/Models.antt =====
-- The rows of the database (src/models.rs) and, for each table, what the migration declares of it:
-- the primary key, and the columns that are UNIQUE. An `i64` column is an integer of `ℤ`.
use bep_rs.Prelude.{ℕ, ◌==◌, ◌||◌, Bool, false, Option, none, some, List, text_eq}
use bep_rs.Prelude.Int.{ℤ}

pub record DeviceOption : Type 0 where
  pub id : Option ℕ
  pub device_name : List ℕ
  pub cert : List ℕ
  pub key : List ℕ

pub record SyncFolder : Type 0 where
  pub id : List ℕ
  pub label : List ℕ
  pub dir_path : Option (List ℕ)

pub record Peer : Type 0 where
  pub id : Option ℕ
  pub device_id : Option (List ℕ)
  pub name : List ℕ

pub record FolderShare : Type 0 where
  pub id : Option ℕ
  pub sync_folder_id : List ℕ
  pub peer_id : ℕ

pub record PeerAddress : Type 0 where
  pub id : Option ℕ
  pub address : List ℕ
  pub peer_id : Option ℕ

pub record FileRow : Type 0 where
  pub id : Option ℕ
  pub name : List ℕ
  pub modified_by : ℤ
  pub sequence : ℤ
  pub synced_version_id : ℤ
  pub hash : Option (List ℕ)
  pub folder_id : List ℕ

pub record SyncFileVersion : Type 0 where
  pub id : Option ℕ
  pub version_id : ℤ
  pub user_id : ℤ
  pub sync_file_id : ℕ

pub record SyncFileBlock : Type 0 where
  pub id : Option ℕ
  pub sync_file_id : ℕ
  pub offset : ℤ
  pub size : ℤ
  pub hash : List ℕ
  pub weak_hash : ℤ

-- What the engine needs to know of a table: two rows that it cannot hold both, and the rowid,
-- which it assigns where a row comes without.
pub record Schema (R : Type 0) : Type 0 where
  pub id_of : R → Option ℕ
  pub with_id : ℕ → R → R
  pub clash : R → R → Bool

abbrev pub same_id : Option ℕ → Option ℕ → Bool
same_id (some a) (some b) = a == b
same_id _ _ = false

-- NULL is not equal to NULL.
abbrev pub same_text : Option (List ℕ) → Option (List ℕ) → Bool
same_text (some a) (some b) = text_eq a b
same_text _ _ = false

-- id TEXT PRIMARY KEY NOT NULL, dir_path TEXT UNIQUE; no column of the row is its rowid.
abbrev pub sync_folders_schema : Schema SyncFolder
sync_folders_schema = record {
  id_of = λ r. none;
  with_id = λ n r. r;
  clash = λ r t. text_eq r.id t.id || same_text r.dir_path t.dir_path;
}

-- name TEXT UNIQUE NOT NULL
abbrev pub peers_schema : Schema Peer
peers_schema = record {
  id_of = λ r. r.id;
  with_id = λ n r. record r { id = some n };
  clash = λ r t. same_id r.id t.id || text_eq r.name t.name;
}

abbrev pub folder_shares_schema : Schema FolderShare
folder_shares_schema = record {
  id_of = λ r. r.id;
  with_id = λ n r. record r { id = some n };
  clash = λ r t. same_id r.id t.id;
}

abbrev pub device_options_schema : Schema DeviceOption
device_options_schema = record {
  id_of = λ r. r.id;
  with_id = λ n r. record r { id = some n };
  clash = λ r t. same_id r.id t.id;
}

abbrev pub peer_addresses_schema : Schema PeerAddress
peer_addresses_schema = record {
  id_of = λ r. r.id;
  with_id = λ n r. record r { id = some n };
  clash = λ r t. same_id r.id t.id;
}

abbrev pub sync_files_schema : Schema FileRow
sync_files_schema = record {
  id_of = λ r. r.id;
  with_id = λ n r. record r { id = some n };
  clash = λ r t. same_id r.id t.id;
}

abbrev pub sync_file_versions_schema : Schema SyncFileVersion
sync_file_versions_schema = record {
  id_of = λ r. r.id;
  with_id = λ n r. record r { id = some n };
  clash = λ r t. same_id r.id t.id;
}

abbrev pub sync_file_blocks_schema : Schema SyncFileBlock
sync_file_blocks_schema = record {
  id_of = λ r. r.id;
  with_id = λ n r. record r { id = some n };
  clash = λ r t. same_id r.id t.id;
}
