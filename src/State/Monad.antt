-- ===== src/State/Monad.antt =====
-- The state (`BepState` of src/bep_state.rs) and its methods' shape. A method that panics stops
-- with the value `none`; what it wrote before stays written, since no transaction is opened and
-- the mutex around the state is not poisoned.
use bep_rs.Prelude.{ℕ, Bool, true, false, Option, none, some, List}
use bep_rs.Sync.{SyncDirectory}
use bep_rs.State.Models.{
  DeviceOption, SyncFolder, Peer, FolderShare, PeerAddress, FileRow, SyncFileVersion, SyncFileBlock,
}
use bep_rs.State.Table.{Table}

-- The tables of the database.
pub record Sql : Type 1 where
  pub device_options : Table DeviceOption
  pub sync_folders : Table SyncFolder
  pub peers : Table Peer
  pub folder_shares : Table FolderShare
  pub peer_addresses : Table PeerAddress
  pub sync_files : Table FileRow
  pub sync_file_versions : Table SyncFileVersion
  pub sync_file_blocks : Table SyncFileBlock

-- What the state hands to `tokio::spawn`. A peer connection is named by a number, and the handler
-- for new folders, a closure of the application, by a number too.
pub data Spawned : Type 0 where
  get_directory : ℕ → SyncDirectory → Spawned
  directory_updated : ℕ → SyncDirectory → Spawned
  call_handler : ℕ → SyncDirectory → Spawned

pub record BepState (S : Sql) : Type 0 where
  pub device_options : S.device_options.Rows
  pub sync_folders : S.sync_folders.Rows
  pub peers : S.peers.Rows
  pub folder_shares : S.folder_shares.Rows
  pub peer_addresses : S.peer_addresses.Rows
  pub sync_files : S.sync_files.Rows
  pub sync_file_versions : S.sync_file_versions.Rows
  pub sync_file_blocks : S.sync_file_blocks.Rows
  pub new_folder_handler : Option ℕ
  pub peer_connections : List ℕ
  pub spawned : List Spawned

abbrev pub Method {ℓ} : Sql → Type ℓ → Type ℓ
Method S A = BepState S → Option A × BepState S

module _ {ℓ} {S : Sql} {A : Type ℓ} where
  abbrev pub pure : A → Method S A
  pure a s = (some a, s)

  abbrev pub panic : Method S A
  panic s = (none, s)

  abbrev pub gets : (BepState S → A) → Method S A
  gets f s = (some (f s), s)

  -- `.unwrap()`
  abbrev pub unwrap : Option A → Method S A
  unwrap o s = (o, s)

module _ {S : Sql} where
  abbrev pub modify : (BepState S → BepState S) → Method S (Unit {0})
  modify f s = (some tt, f s)

  -- `assert!`
  abbrev pub require : Bool → Method S (Unit {0})
  require true s = (some tt, s)
  require false s = (none, s)

module _ {ℓ κ} {S : Sql} {A : Type ℓ} {B : Type κ} where
  abbrev pub continue : Option A → (A → Method S B) → Method S B
  continue none f s = (none, s)
  continue (some a) f s = f a s

infixl 10 ◌>>=◌ ◌>>◌
abbrev pub ◌>>=◌ {ℓ κ} :
    {S : Sql} {A : Type ℓ} {B : Type κ} → Method S A → (A → Method S B) → Method S B
◌>>=◌ m f s = let (r, s') = m s in continue r f s'

abbrev pub ◌>>◌ {ℓ} : {S : Sql} {B : Type ℓ} → Method S (Unit {0}) → Method S B → Method S B
m >> n = m >>= λ _. n
