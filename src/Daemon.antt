-- ===== src/Daemon.antt =====
-- The daemon (src/daemon.rs): in rounds, it connects to each address of each peer, one after the other.
-- What becomes of a connection, and the state that a round finds, come from outside.
pub mod Stops
use bep_rs.Prelude.{Option, none, some, List, [], ◌∷◌, ◌++◌, ℕ}
use bep_rs.Prelude.Outcome.{Outcome, ok, err, panicked}
use bep_rs.State.Models.{Peer}
use bep_rs.State.Monad.{Sql, BepState}
use bep_rs.State.Peers.{get_peers, get_addresses}
use bep_rs.Connection.Items.{PeerConnectionError}
use bep_rs.Connection.Life
use bep_rs.Connection.Life.{Connection, track, wait_for_close}

-- `TcpStream::connect` fails, with the text of its error; or there is a connection, as it stands when
-- its end is looked for.
pub data Attempt : Type 0 where
  unreachable : List ℕ → Attempt
  connected : Connection → Attempt

-- How a loop ends, `none` where it waits for ever and `ok` where it goes on after it; and the addresses
-- that were tried by then.
abbrev pub Ending : Type 0
Ending = Option (Outcome PeerConnectionError (Unit {0})) × List (List ℕ)

-- `PeerConnection::watch`: the watcher is one of the tasks of the connection.
abbrev pub watch_task : Connection → Connection
watch_task c = track 1 c

-- The connection that `connect_to_server` makes, before its tasks have done anything.
abbrev pub connection : Connection
connection = watch_task Life.new

unfoldable pub connect_to_server : Attempt → Option (Outcome PeerConnectionError (Unit {0}))
unfolding wait_for_close
connect_to_server (unreachable text) = some (err (PeerConnectionError.other text))
connect_to_server (connected c) = wait_for_close c

-- `?` on what a step of a loop gives.
abbrev pub go_on : Ending → (List (List ℕ) → Ending) → Ending
go_on (some (ok u), tried) next = next tried
go_on (some (err e), tried) next = (some (err e), tried)
go_on (some panicked, tried) next = (some panicked, tried)
go_on (none, tried) next = (none, tried)

-- `attempt` gives what an address comes to, after these have been tried.
module _ (attempt : List (List ℕ) → List ℕ → Attempt) where
  unfoldable pub connect_addresses : List (List ℕ) → List (List ℕ) → Ending
  unfolding connect_to_server
  connect_addresses [] tried = (some (ok tt), tried)
  connect_addresses (addr ∷ addrs) tried =
      go_on (connect_to_server (attempt tried addr), tried ++ addr ∷ []) (connect_addresses addrs)

  module _ (S : Sql) where
    unfoldable pub connect_peers : BepState S → List Peer → List (List ℕ) → Ending
    unfolding connect_addresses
    connect_peers s [] tried = (some (ok tt), tried)
    connect_peers s (peer ∷ peers) tried =
        go_on (connect_addresses (get_addresses S peer s) tried) (connect_peers s peers)

    -- `Daemon::run`, over the states that its rounds find.
    unfoldable pub run : List (BepState S) → List (List ℕ) → Ending
    unfolding connect_peers
    run [] tried = (some (ok tt), tried)
    run (s ∷ states) tried = go_on (connect_peers s (get_peers S s) tried) (run states)
