-- ===== src/Connection/Items.antt =====
-- The messages of the protocol (src/peer_connection/items.proto), as far as the handlers read
-- them, and the errors of a connection (src/peer_connection/error.rs).
use bep_rs.Prelude.{ℕ, Bool, Option, List}
use bep_rs.Prelude.Int.{ℤ, pos}

pub data ErrorCode : Type 0 where
  no_error generic no_such_file invalid_file : ErrorCode

-- `as i32`
abbrev pub code_of : ErrorCode → ℤ
code_of ErrorCode.no_error = pos 0
code_of ErrorCode.generic = pos 1
code_of ErrorCode.no_such_file = pos 2
code_of ErrorCode.invalid_file = pos 3

pub record Request : Type 0 where
  pub id : ℤ
  pub folder : List ℕ
  pub name : List ℕ
  pub offset : ℤ
  pub size : ℤ
  pub hash : List ℕ
  pub from_temporary : Bool
  pub weak_hash : ℕ
  pub block_no : ℤ

pub record Response : Type 0 where
  pub id : ℤ
  pub bytes : List ℕ
  pub code : ℤ

pub record BlockInfo : Type 0 where
  pub hash : List ℕ
  pub offset : ℤ
  pub size : ℤ
  pub weak_hash : ℕ

pub record Counter : Type 0 where
  pub id : ℕ
  pub value : ℕ

-- A `Vector` of versions is the list of its counters. `platform`, which is never set and never
-- read, is left out.
pub record FileInfo : Type 0 where
  pub name : List ℕ
  pub type : ℤ
  pub size : ℤ
  pub permissions : ℕ
  pub modified_s : ℤ
  pub modified_ns : ℤ
  pub modified_by : ℕ
  pub deleted : Bool
  pub invalid : Bool
  pub no_permissions : Bool
  pub version : Option (List Counter)
  pub sequence : ℤ
  pub block_size : ℤ
  pub blocks : List BlockInfo
  pub symlink_target : List ℕ
  pub blocks_hash : List ℕ
  pub encrypted : List ℕ
  pub local_flags : ℕ
  pub version_hash : List ℕ
  pub inode_change_ns : ℤ
  pub encryption_trailer_size : ℤ

pub record Hello : Type 0 where
  pub device_name : List ℕ
  pub client_name : List ℕ
  pub client_version : List ℕ
  pub num_connections : ℤ
  pub timestamp : ℤ

-- Both fields are enumerations; they are kept as the numbers that came.
pub record Header : Type 0 where
  pub type : ℤ
  pub compression : ℤ

pub record Device : Type 0 where
  pub id : List ℕ
  pub name : List ℕ
  pub addresses : List (List ℕ)
  pub compression : ℤ
  pub cert_name : List ℕ
  pub max_sequence : ℤ
  pub introducer : Bool
  pub index_id : ℕ
  pub skip_introduction_removals : Bool
  pub encryption_password_token : List ℕ

pub record Folder : Type 0 where
  pub id : List ℕ
  pub label : List ℕ
  pub read_only : Bool
  pub ignore_permissions : Bool
  pub ignore_delete : Bool
  pub disable_temp_indexes : Bool
  pub paused : Bool
  pub devices : List Device

pub record ClusterConfig : Type 0 where
  pub folders : List Folder
  pub secondary : Bool

pub record Index : Type 0 where
  pub folder : List ℕ
  pub files : List FileInfo
  pub last_sequence : ℤ

pub record IndexUpdate : Type 0 where
  pub folder : List ℕ
  pub files : List FileInfo
  pub last_sequence : ℤ
  pub prev_sequence : ℤ

pub record Close : Type 0 where
  pub reason : List ℕ

-- The body of a message; a `Ping` has none.
pub data Message : Type 0 where
  cluster_config : ClusterConfig → Message
  index : Index → Message
  index_update : IndexUpdate → Message
  request : Request → Message
  response : Response → Message
  ping : Message
  close : Close → Message

pub data MessageType : Type 0 where
  cluster_config index index_update request response download_progress ping close : MessageType

-- `as i32`
abbrev pub type_code : MessageType → ℤ
type_code MessageType.cluster_config = pos 0
type_code MessageType.index = pos 1
type_code MessageType.index_update = pos 2
type_code MessageType.request = pos 3
type_code MessageType.response = pos 4
type_code MessageType.download_progress = pos 5
type_code MessageType.ping = pos 6
type_code MessageType.close = pos 7

-- Fatal errors of a connection. A decoding error of the crate prost is its text.
pub data PeerConnectionError : Type 0 where
  unknown_peer invalid_magic_bytes timeout_error : PeerConnectionError
  decode_error : List ℕ → PeerConnectionError
  other : List ℕ → PeerConnectionError

-- Errors of a command that is given to a connection.
pub data PeerCommandError : Type 0 where
  connection_closed invalid_file no_such_file uninitialized_error : PeerCommandError
  connection_error : PeerConnectionError → PeerCommandError
  io_error : List ℕ → PeerCommandError
  other : List ℕ → PeerCommandError
