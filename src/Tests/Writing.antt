-- ===== src/Tests/Writing.antt =====
-- A writer at work, with the stand-ins of Tests/Wire.antt for the generated encodings.
use bep_rs.Prelude.{
  ℕ, ◌+◌, ◌≡◌, refl, false, ◌++◌, text_eq, none, some, List, [], ◌∷◌, codes, arith,
}
use bep_rs.Prelude.Int.{pos}
use bep_rs.Prelude.Outcome.{ok, err}
use bep_rs.State.Monad.{BepState}
use mathlib.Core.List
use bep_rs.State.Folders.{get_synced_directories}
use bep_rs.State.Peers.{get_id, get_name}
use bep_rs.Connection.Items.{Message, ClusterConfig, PeerConnectionError}
use bep_rs.Connection.Framing.{encode_message}
use bep_rs.Connection.Framing.RoundTrip.{IsWritable}
use bep_rs.Connection.Serve.{find_peer}
use bep_rs.Connection.Cluster.{generate_cluster_config, folders_of}
use bep_rs.Connection.Requests.{PeerRequestResponseType, register, send_message}
use bep_rs.Connection.Requests.Runs.{initial, Run, start, registers}
use bep_rs.Connection.Reading.{waiting}
use bep_rs.Connection.Writing.{
  flushed, cut_after, Event, submitted, received, elapsed, Result, handle_writing, writing_loop,
}
use bep_rs.Connection.Writing.Order.{Spoken, submissions, writing_loop-Spoken}
use bep_rs.Connection.Writing.Steps.{handle_writing-Run}
use bep_rs.Connection.Writing.Settled.{settled, handle_writing-settled}
use bep_rs.Connection.Writing.Heard.{Submitted, IsHeard, handle_writing-IsHeard}
use bep_rs.Tests.Database.{sql}
use bep_rs.Tests.Requests.{request}
use bep_rs.Tests.Shared.{with_me, thirty_two}
use bep_rs.Tests.Wire.{wire, request-IsWritable}

-- Nothing is shared with the peer.
abbrev alone : BepState sql
alone = record with_me { folder_shares = [] }

abbrev empty_config : ClusterConfig
empty_config = record { folders = []; secondary = false }

config_made : (generate_cluster_config sql thirty_two (1 ∷ 2 ∷ 3 ∷ []) alone).0 ≡ some empty_config
unfolding generate_cluster_config find_peer text_eq get_id folders_of get_synced_directories
    List.flat_map get_name
config_made = refl

config-IsWritable : IsWritable wire (Message.cluster_config empty_config)
config-IsWritable = (
  record { decoded_back = refl; fits = omega arith },
  record { decoded_back = refl; fits = omega arith },
)

ping-IsWritable : IsWritable wire Message.ping
ping-IsWritable = (
  record { decoded_back = refl; fits = omega arith },
  record { decoded_back = refl; fits = omega arith },
)

abbrev request_bytes : List ℕ
request_bytes = encode_message wire (Message.request request)

-- A request, a ping, the question whether the connection is ready, and a message that is not taken yet.
abbrev events : List Event
events =
    submitted request_bytes none
    ∷ received flushed
    ∷ elapsed flushed
    ∷ submitted [] (some 7)
    ∷ received flushed
    ∷ submitted request_bytes none
    ∷ []

abbrev sent : List Submitted
sent =
    (some (Message.request request), none)
    ∷ (none, some 7)
    ∷ (some (Message.request request), none)
    ∷ []

abbrev run : Result
run =
    handle_writing wire sql thirty_two (1 ∷ 2 ∷ 3 ∷ []) (codes "home") (pos 0) flushed flushed
      events alone (record { pending = initial; written = [] })

run_waits : run ≡ (ok waiting, run.1)
unfolding handle_writing generate_cluster_config find_peer text_eq get_id folders_of
    get_synced_directories List.flat_map get_name send_message encode_message
run_waits = refl

handle_writing-IsHeard_example : IsHeard sql wire (4 ∷ []) empty_config sent waiting run.1
handle_writing-IsHeard_example =
    handle_writing-IsHeard sql sql wire thirty_two (1 ∷ 2 ∷ 3 ∷ []) (4 ∷ []) (codes "home") (pos 0)
      empty_config sent events alone initial waiting run.1 refl (omega arith) config-IsWritable
      ping-IsWritable (request-IsWritable, (tt, (request-IsWritable, tt))) refl refl config_made
      run_waits

-- The stream fails after three bytes of the request.
abbrev failing : List Event
failing =
    submitted request_bytes (some 5)
    ∷ submitted [] (some 6)
    ∷ received (cut_after 3 (codes "broken pipe"))
    ∷ submitted [] (some 8)
    ∷ []

abbrev failed : Result
failed =
    handle_writing wire sql thirty_two (1 ∷ 2 ∷ 3 ∷ []) (codes "home") (pos 0) flushed flushed
      failing alone (record { pending = initial; written = [] })

failed_err : failed ≡ (err (PeerConnectionError.other (codes "broken pipe")), failed.1)
unfolding handle_writing generate_cluster_config find_peer text_eq get_id folders_of
    get_synced_directories List.flat_map get_name encode_message send_message
failed_err = refl

handle_writing-settled_example :
    (failed.1.pending.queue ≡ []) × (settled 5 failed.1.pending ≡ 0 + 0 + 1)
handle_writing-settled_example =
    handle_writing-settled wire sql thirty_two (1 ∷ 2 ∷ 3 ∷ []) (codes "home") (pos 0) flushed
      flushed failing alone (record { pending = initial; written = [] }) 5 failed_err (λ h. cc h)

writing_loop-Spoken_example :
    Spoken
      (encode_message wire Message.ping)
      []
      ([] ++ submissions failing)
      (writing_loop wire failing (record { pending = initial; written = [] }))
writing_loop-Spoken_example =
    writing_loop-Spoken wire failing (record { pending = initial; written = [] }) refl

-- The channels of the callers, and one more of a message that is not submitted yet.
abbrev callers : List ℕ
callers = 5 ∷ 6 ∷ 8 ∷ 9 ∷ []

made : Run callers (record { pending = initial; held = callers })
unfolding register
made =
    registers (pos 1) PeerRequestResponseType.when_sent 5 (some 5)
      (registers (pos 2) PeerRequestResponseType.when_sent 6 (some 6)
        (registers (pos 3) PeerRequestResponseType.when_sent 8 (some 8)
          (registers (pos 4) PeerRequestResponseType.when_sent 9 (some 9) start refl) refl)
        refl)
      refl

handle_writing-Run_example : Run callers (record { pending = failed.1.pending; held = 9 ∷ [] })
handle_writing-Run_example =
    handle_writing-Run wire sql thirty_two (1 ∷ 2 ∷ 3 ∷ []) (codes "home") (pos 0) flushed flushed
      failing alone (record { pending = initial; written = [] }) callers (9 ∷ []) made
