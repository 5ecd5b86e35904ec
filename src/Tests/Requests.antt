-- ===== src/Tests/Requests.antt =====
-- Requests to a peer and from one.
use bep_rs.Prelude.{◌++◌, find?, length, arith}
use bep_rs.Prelude.{
  ℕ, if◌then◌else◌, ◌≡◌, inr, refl, subst, true, false, none, some, List, [], ◌∷◌, codes, text_eq,
}
use bep_rs.Prelude.Int.{pos, as_u64}
use bep_rs.Prelude.Outcome.{Outcome, ok, err}
use bep_rs.Storage.{StorageError}
use bep_rs.State.Folders.{
  get_sync_directories, model_to_sync_dir, get_sync_directory, is_directory_synced,
}
use bep_rs.State.Peers.{get_peers}
use bep_rs.Sync.FilePath.{push, is_absolute}
use bep_rs.Connection.Items.{Request, Response}
use bep_rs.Connection.Serve.{find_peer, respond_dir, respond_shared, respond_read, handle_request}
use bep_rs.Connection.Serve.Access.{
  IsGranted, Matches, handle_request-IsGranted, handle_request_absolute,
}
use bep_rs.Connection.Requests.{
  Pending, PeerRequestResponse, PeerRequestResponseType, register, insert_request, send_message,
}
use bep_rs.Connection.Requests.Places.{HasUniqueIds, count}
use bep_rs.Connection.Requests.Runs.{
  Tasks, Run, initial, start, registers, sends, removes, tells, tell, everywhere, Run-everywhere,
}
use bep_rs.Sync.{SyncFile, get_name}
use bep_rs.Sync.FilePath.{components_name}
use bep_rs.Connection.Items.{FileInfo, PeerCommandError}
use bep_rs.Connection.Merge.{handle_index, has_name}
use bep_rs.Connection.Merge.Stale.{handle_index_stale}
use bep_rs.Connection.Fetch.{Download, Surroundings, get_file}
use bep_rs.Connection.Fetch.Integrity.{Writes, IsPrefixOf, get_file-IsPrefixOf}
use bep_rs.Connection.Updates
use bep_rs.Connection.Updates.{send_index}
use bep_rs.Connection.Updates.Shared.{Sent, send_index-Sent}
use bep_rs.Tests.Database.{
  sql, before, photos_dir, laptop, in_order, with_file, with_file_index, notes,
}

-- A stand-in for a hash function, and a storage of two files.
abbrev pub hash : List ℕ → List ℕ
hash bytes = 7 ∷ bytes

abbrev pub read_block : List ℕ → ℕ → ℕ → Outcome StorageError (List ℕ)
read_block path offset size =
    if text_eq path (codes "/p/a")
    then ok (1 ∷ 2 ∷ [])
    else if text_eq path (codes "/etc/shadow")
    then ok (9 ∷ [])
    else err StorageError.invalid_path

abbrev pub request : Request
request = record {
  id = pos 3;
  folder = codes "photos";
  name = codes "a";
  offset = pos 0;
  size = pos 2;
  hash = 7 ∷ 1 ∷ 2 ∷ [];
  from_temporary = false;
  weak_hash = 0;
  block_no = pos 0;
}

abbrev pub granted : Response
granted = record { id = pos 3; bytes = 1 ∷ 2 ∷ []; code = pos 0 }

handle_request_run :
    handle_request sql hash read_block (1 ∷ 2 ∷ 3 ∷ []) request before ≡ some granted
unfolding handle_request find_peer respond_dir respond_shared respond_read get_sync_directory
    get_sync_directories model_to_sync_dir is_directory_synced get_peers push text_eq as_u64
handle_request_run = refl

handle_request-IsGranted_example :
    IsGranted sql hash read_block (1 ∷ 2 ∷ 3 ∷ []) request before granted
    × (pos 0 ≡ pos 0 → Matches hash request (1 ∷ 2 ∷ []))
handle_request-IsGranted_example =
    handle_request-IsGranted sql hash read_block (1 ∷ 2 ∷ 3 ∷ []) request before granted
      handle_request_run (inr refl)

abbrev sneaky : Request
sneaky = record request { name = codes "/etc/shadow"; hash = [] }

pub is_peer : find_peer sql (1 ∷ 2 ∷ 3 ∷ []) before ≡ some laptop
unfolding find_peer get_peers text_eq
is_peer = refl

pub is_dir : get_sync_directory sql (codes "photos") before ≡ some photos_dir
unfolding get_sync_directory get_sync_directories model_to_sync_dir text_eq
is_dir = refl

pub is_shared : is_directory_synced sql (codes "photos") 1 before ≡ true
unfolding is_directory_synced text_eq
is_shared = refl

is_absolute_name : is_absolute (codes "/etc/shadow") ≡ true
is_absolute_name = refl

stored : read_block (codes "/etc/shadow") (as_u64 (pos 0)) (as_u64 (pos 2)) ≡ ok (9 ∷ [])
unfolding text_eq
stored = refl

handle_request_absolute_example :
    handle_request sql hash read_block (1 ∷ 2 ∷ 3 ∷ []) sneaky before
    ≡ some (record { id = pos 3; bytes = 9 ∷ []; code = pos 0 })
handle_request_absolute_example =
    handle_request_absolute sql hash read_block (1 ∷ 2 ∷ 3 ∷ []) sneaky before laptop 1 photos_dir
      (codes "/p") (9 ∷ []) is_peer refl is_dir is_shared refl refl is_absolute_name stored

abbrev waiting : Pending
waiting = record initial {
  requests =
      (record { id = pos 3; response_type = PeerRequestResponseType.when_response; channel = 8 })
      ∷ [];
}

abbrev sent_message : Pending
sent_message = record waiting { queue = (1 ∷ [], none) ∷ [] }

register_run :
    register (pos 3) PeerRequestResponseType.when_response 8 initial ≡ some (none, waiting)
unfolding register insert_request
register_run = refl

send_run : send_message (1 ∷ []) none waiting ≡ sent_message
unfolding send_message
send_run = refl

abbrev answered_request : Tasks
answered_request = record {
  pending = tell 8 (PeerRequestResponse.response granted) (record sent_message { requests = [] });
  held = [];
}

sent_run : Run (8 ∷ []) (record { pending = sent_message; held = [] })
sent_run =
    subst (λ s. Run (8 ∷ []) (record { pending = s; held = [] })) send_run
      (sends (1 ∷ []) none [] []
        (registers (pos 3) PeerRequestResponseType.when_response 8 none start register_run) refl)

-- The request is sent and answered.
Run-everywhere_example :
    HasUniqueIds answered_request.pending.requests
    × ((c : ℕ) → everywhere c answered_request ≡ count c (8 ∷ []))
Run-everywhere_example = Run-everywhere (
    tells 8 (PeerRequestResponse.response granted) [] []
      (removes (pos 3)
        (record { id = pos 3; response_type = PeerRequestResponseType.when_response; channel = 8 })
        sent_run refl)
      refl)

abbrev pub surroundings : Surroundings
surroundings = record {
  order_by_offset = in_order;
  sha256 = hash;
  write_block = λ path offset bytes. true;
  print_error = λ e. [];
  print_code = λ c. [];
}

abbrev pub wanted : SyncFile
wanted = record notes {
  blocks = (record { offset = pos 0; size = pos 2; hash = 7 ∷ 1 ∷ 2 ∷ [] }) ∷ [];
}

abbrev pub download : Download sql
download = record { state = before; writes = [] }

abbrev pub peer_answers : Request → Outcome PeerCommandError PeerRequestResponse
peer_answers r = ok (PeerRequestResponse.response granted)

get_file-IsPrefixOf_example :
    (ws : Writes) × (((get_file sql surroundings photos_dir wanted peer_answers
          (pos 3)
          download).1.writes
        ≡ [] ++ ws)
      × (IsPrefixOf hash (push (codes "/p") (get_name wanted)) wanted.blocks ws
          × ((get_file sql surroundings photos_dir wanted peer_answers (pos 3) download).0 ≡ ok tt
              → length ws ≡ length wanted.blocks)))
get_file-IsPrefixOf_example =
    get_file-IsPrefixOf sql surroundings photos_dir wanted peer_answers (pos 3) (codes "/p")
      download refl

abbrev pub index_entry : FileInfo
index_entry = record {
  name = codes "notes";
  type = pos 0;
  size = pos 9;
  permissions = 0;
  modified_s = pos 0;
  modified_ns = pos 0;
  modified_by = 5;
  deleted = false;
  invalid = false;
  no_permissions = true;
  version = some ((record { id = 5; value = 1 }) ∷ []);
  sequence = pos 1;
  block_size = pos 9;
  blocks = [];
  symlink_target = [];
  blocks_hash = [];
  encrypted = [];
  local_flags = 0;
  version_hash = [];
  inode_change_ns = pos 0;
  encryption_trailer_size = pos 0;
}

pub found_with_file : get_sync_directory sql (codes "photos") with_file ≡ some photos_dir
unfolding get_sync_directory get_sync_directories model_to_sync_dir text_eq
found_with_file = refl

notes_found : find? (has_name (codes "notes")) (notes ∷ []) ≡ some notes
unfolding get_name components_name text_eq
notes_found = refl

handle_index_stale_example :
    handle_index sql in_order 1 (codes "photos") (index_entry ∷ []) with_file ≡ (some tt, with_file)
handle_index_stale_example =
    handle_index_stale sql in_order 1 (codes "photos") photos_dir (notes ∷ []) with_file
      (index_entry ∷ []) found_with_file with_file_index
      (
        record {
          localfile = notes;
          counters = (record { id = 5; value = 1 }) ∷ [];
          found = notes_found;
          given = refl;
          fewer = omega arith;
        },
        tt,
      )

abbrev empty_entry : FileInfo
empty_entry = record index_entry { name = codes "empty" }

empty_unknown : find? (has_name (codes "empty")) (notes ∷ []) ≡ none
unfolding get_name components_name text_eq
empty_unknown = refl

abbrev index_surroundings : Updates.Surroundings
index_surroundings = record {
  order_by_offset = in_order;
  sha256 = hash;
  disk = λ path. some (1 ∷ 2 ∷ []);
  modified = λ path. none;
}

file_peer : find_peer sql (1 ∷ 2 ∷ 3 ∷ []) with_file ≡ some laptop
unfolding find_peer get_peers text_eq
file_peer = refl

send_index-Sent_example :
    Sent sql with_file 1
      (codes "photos" ∷ [])
      (send_index sql index_surroundings with_file (1 ∷ 2 ∷ 3 ∷ []))
unfolding get_sync_directories model_to_sync_dir is_directory_synced text_eq
send_index-Sent_example =
    send_index-Sent sql index_surroundings with_file (1 ∷ 2 ∷ 3 ∷ []) laptop 1 file_peer refl
