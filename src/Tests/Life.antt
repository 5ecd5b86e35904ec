-- ===== src/Tests/Life.antt =====
-- Connections that are established, refused, and closed.
use bep_rs.Prelude.{
  ℕ, ◌≡◌, ◌++◌, refl, true, false, none, some, List, [], ◌∷◌, codes, text_eq, find?, map,
}
use bep_rs.Prelude.Int.{pos}
use bep_rs.Prelude.Outcome.{ok, err}
use bep_rs.State.Folders.{get_sync_directories, is_directory_synced}
use bep_rs.State.Files.{get_sync_files}
use bep_rs.State.Peers.{get_peers, get_certificate, get_key}
use bep_rs.Connection.Serve.{device_or_empty}
use bep_rs.Connection.Requests.{
  PeerRequestListener, PeerRequestResponse, PeerRequestResponseType, Pending, has_id, register,
  insert_request, submit_message,
}
use bep_rs.Connection.Reading.{waiting}
use bep_rs.Connection.Updates.{send_index}
use bep_rs.Connection.Verifier.{Handshake, presented, check_cert, verify_connection}
use bep_rs.Connection.Life
use bep_rs.Connection.Life.{
  Connection, Environment, handle_connection, run_connection, wait_for_close, close_reason,
}
use bep_rs.Connection.Life.Established.{IsKnown, handle_connection-IsKnown}
use bep_rs.Connection.Life.Failed.{IsRefused, run_connection-IsRefused}
use bep_rs.Connection.Life.Waiting.{now, closes, tracks, registered, Later-waits}
use bep_rs.Tests.Database.{sql, in_order}
use bep_rs.Tests.Shared.{with_me}
use bep_rs.Tests.Wire.{wire}

abbrev same_bytes : List ℕ → List ℕ
same_bytes bytes = bytes

abbrev pub environment : Environment
environment = record {
  surroundings = record {
    order_by_offset = in_order;
    sha256 = same_bytes;
    disk = λ path. none;
    modified = λ path. none;
  };
  is_usable = λ cert key. true;
  timed_out = codes "deadline has elapsed";
  print_error = λ e. codes "error";
}

abbrev pub shown : Handshake
shown = presented (1 ∷ 2 ∷ 3 ∷ []) none

established :
    handle_connection sql wire environment with_me true shown Life.new
    ≡ (ok waiting, (handle_connection sql wire environment with_me true shown Life.new).1)
unfolding handle_connection get_certificate get_key verify_connection check_cert get_peers
    send_index text_eq get_sync_directories is_directory_synced get_sync_files
established = refl

handle_connection-IsKnown_example :
    (waiting ≡ waiting)
    × IsKnown sql wire same_bytes with_me shown
        (handle_connection sql wire environment with_me true shown Life.new).1
handle_connection-IsKnown_example =
    handle_connection-IsKnown sql wire environment with_me true shown Life.new
      (handle_connection sql wire environment with_me true shown Life.new).1 waiting established

abbrev listener : PeerRequestListener
listener = record { id = pos 3; response_type = PeerRequestResponseType.when_response; channel = 9 }

-- A request that was submitted before the handshake.
abbrev early : Connection
early = record Life.new {
  pending = record {
    requests = listener ∷ [];
    queue = (codes "request", none) ∷ ([], some 4) ∷ [];
    is_open = true;
    answered = [];
    cancelled = [];
  };
}

abbrev unknown : Handshake
unknown = presented (6 ∷ []) none

refused_handshake :
    verify_connection same_bytes
      (λ cert key. true)
      (codes "deadline has elapsed")
      (1 ∷ [])
      []
      (map device_or_empty (get_peers sql with_me))
      false
      unknown
    ≡ err (codes "Invalid certificate")
unfolding verify_connection check_cert get_peers
refused_handshake = refl

with_certificate : (get_certificate sql with_me).0 ≡ some (1 ∷ [])
unfolding get_certificate
with_certificate = refl

with_key : (get_key sql with_me).0 ≡ some []
unfolding get_key
with_key = refl

run_connection-IsRefused_example :
    (c : Connection) × ((run_connection sql wire environment 2
        (λ channel. true)
        false
        unknown
        with_me
        early).0
      ≡ some c)
    × IsRefused early c
run_connection-IsRefused_example =
    run_connection-IsRefused sql wire environment 2 (λ channel. true) false unknown with_me early
      (1 ∷ []) [] (codes "Invalid certificate") with_certificate with_key refused_handshake refl
      (refl, tt)

-- A request is registered on the connection, which is then closed; its tasks end.
abbrev connected : Connection
connected = (handle_connection sql wire environment with_me true shown Life.new).1

abbrev asked : Pending
asked = record (connected.pending) { requests = connected.pending.requests ++ listener ∷ [] }

registered_run :
    register (pos 3) PeerRequestResponseType.when_response 9 connected.pending ≡ some (none, asked)
unfolding register insert_request handle_connection get_certificate get_key verify_connection
    check_cert get_peers send_index text_eq get_sync_directories is_directory_synced get_sync_files
    submit_message
registered_run = refl

abbrev waits : Connection
waits = record connected { pending = asked }

asked_there : find? (has_id (pos 3)) asked.requests ≡ some listener
unfolding handle_connection get_certificate get_key verify_connection check_cert get_peers
    send_index text_eq get_sync_directories is_directory_synced get_sync_files submit_message
asked_there = refl

abbrev ends : Connection
ends = record (close_reason (some PeerRequestResponse.sent) waits).1 { tracked = 0 }

Later-waits_example :
    (find? (has_id (pos 3)) ends.pending.requests ≡ some listener) × (wait_for_close ends ≡ none)
Later-waits_example =
    Later-waits sql wire environment with_me true shown Life.new connected waits ends (pos 3)
      listener refl established
      (registered (pos 3) PeerRequestResponseType.when_response 9 none asked now refl
        registered_run)
      asked_there (tracks 0 (closes (some PeerRequestResponse.sent) now))
