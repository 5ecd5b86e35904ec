-- ===== src/Connection/Life.antt =====
-- A connection from its start to its end (src/peer_connection/mod.rs, `PeerConnection` with `new`, its
-- flags and its closing; src/peer_connection/handlers.rs, `handle_connection`). What other parts of the
-- connection do to the requests and the queue is in Connection/Requests.antt and Connection/Writing.antt.
pub mod Established
pub mod Failed
pub mod Tracker
pub mod Waiting
use bep_rs.Prelude.{
  ℕ, ◌+◌, ◌-◌, ◌==◌, ◌&&◌, Bool, true, false, if◌then◌else◌, Option, none, some, List, [], ◌∷◌,
  ◌++◌, map, codes,
}
use bep_rs.Prelude.Int.{ℤ, negsuc}
use bep_rs.Prelude.Outcome.{Outcome, ok, err, panicked}
use bep_rs.Sync.Blocks.{IoError}
use bep_rs.State.Models.{Peer}
use bep_rs.State.Monad.{Sql, BepState}
use bep_rs.State.Folders.{add_peer_connection}
use bep_rs.State.Peers
use bep_rs.State.Peers.{get_peers, get_certificate, get_key}
use bep_rs.Connection.Items.{Message, Index, PeerConnectionError, PeerCommandError}
use bep_rs.Connection.Framing.{Wire, encode_message}
use bep_rs.Connection.Serve.{device_or_empty, find_peer}
use bep_rs.Connection.Requests.{
  PeerRequestResponse, PeerRequestResponseType, Pending, send_message, submit_request,
  submit_message, drain_requests,
}
use bep_rs.Connection.Reading.{Exit, returned, waiting}
use bep_rs.Connection.Updates.{Surroundings, send_index}
use bep_rs.Connection.Verifier.{Handshake, verify_connection}
use bep_rs.Connection.Writing.{drop_receiver}

-- The parts of a `PeerConnection` that its clones share; each of the first three is set once. `tracked`
-- counts the tasks that the task tracker runs, and `is_closed` tells whether it takes no more.
pub record Connection : Type 0 where
  pub error : Option (Option PeerConnectionError)
  pub peer_id : Option (List ℕ)
  pub name : Option (List ℕ)
  pub is_cancelled : Bool
  pub is_closed : Bool
  pub tracked : ℕ
  pub pending : Pending

-- `PeerConnection::new`
abbrev pub new : Connection
new = record {
  error = none;
  peer_id = none;
  name = none;
  is_cancelled = false;
  is_closed = false;
  tracked = 0;
  pending = record { requests = []; queue = []; is_open = true; answered = []; cancelled = [] };
}

-- `OnceLock::set`: a second error is only logged.
unfoldable pub set_error : PeerConnectionError → Connection → Connection
set_error e c = elim c.error [ none ↦ record c { error = some (some e) } | some old ↦ c ]

-- `none` is the panic of the `unwrap`.
unfoldable pub set_peer : List ℕ → Connection → Option Connection
set_peer id c = elim c.peer_id [ none ↦ some (record c { peer_id = some id }) | some old ↦ none ]

unfoldable pub has_error : Connection → Outcome PeerConnectionError (Unit {0})
has_error c = elim c.error [ some (some e) ↦ err e | some none ↦ ok tt | none ↦ ok tt ]

-- `TaskTracker::spawn`, `CancellationToken::cancel`
abbrev pub track : ℕ → Connection → Connection
track n c = record c { tracked = c.tracked + n }

abbrev pub cancel : Connection → Connection
cancel c = record c { is_cancelled = true }

-- `TaskTracker::wait` ends once the tracker is closed and none of its tasks runs.
abbrev pub wait_tracker : Connection → Exit
wait_tracker c = if c.is_closed && (c.tracked == 0) then returned else waiting

-- `wait_for_close`: `none` while it waits.
unfoldable pub wait_for_close : Connection → Option (Outcome PeerConnectionError (Unit {0}))
unfolding has_error
wait_for_close c = elim (wait_tracker c) [ returned ↦ some (has_error c) | waiting ↦ none ]

-- `wait_for_ready` submits no bytes, with a channel of its own. A queue that is closed ends it.
unfoldable pub ask_ready : ℕ → Connection → Connection
unfolding send_message
ask_ready channel c = record c { pending = send_message [] (some channel) c.pending }

-- `?`, and otherwise this error.
abbrev pub error_or :
    PeerConnectionError
    → Outcome PeerConnectionError (Unit {0})
    → Outcome PeerConnectionError (Unit {0})
error_or e (ok u) = err e
error_or e (err e') = err e'
error_or e panicked = panicked

-- How `wait_for_ready` ends: the queue was closed, or the channel gave this answer, or it was dropped. The
-- connection is the one that stands when the error is read: for a channel that was dropped, after the
-- sleep of 100 ms that follows, and only this sleep puts the error of the other task before it.
unfoldable pub wait_for_ready :
    Bool → Option PeerRequestResponse → Connection → Outcome PeerConnectionError (Unit {0})
unfolding has_error
wait_for_ready false answer c = error_or PeerConnectionError.timeout_error (has_error c)
wait_for_ready true (some r) c = ok tt
wait_for_ready true none c =
    error_or (PeerConnectionError.other (codes "Unknown error")) (has_error c)

module _ (wire : Wire) where
  -- `close_reason` up to the wait for its answer; it never panics, as it asks for `WhenSent`.
  unfoldable pub ask_close : List ℕ → ℕ → Connection → Connection
  unfolding submit_request
  ask_close reason channel c =
      elim (submit_request (negsuc 0) PeerRequestResponseType.when_sent channel
        (encode_message wire (Message.close (record { reason = reason }))) c.pending) [
          | none ↦ c
          | some pending ↦ record c { pending = pending }
        ]

  -- `close_err`, whatever the error is.
  abbrev pub ask_close_err : PeerConnectionError → ℕ → Connection → Connection
  ask_close_err e = ask_close (codes "Unknown error")

-- Its end, by the answer; `none` where the channel was dropped.
unfoldable pub close_reason :
    Option PeerRequestResponse → Connection → Outcome PeerCommandError (Unit {0}) × Connection
close_reason (some r) c = (ok tt, cancel c)
close_reason none c = (err PeerCommandError.connection_closed, c)

-- A connection that is closed already is no error to `close`.
abbrev pub closing : Outcome PeerCommandError (Unit {0}) → Outcome PeerCommandError (Unit {0})
closing (err PeerCommandError.connection_closed) = ok tt
closing r = r

unfoldable pub close :
    Option PeerRequestResponse → Connection → Outcome PeerCommandError (Unit {0}) × Connection
unfolding close_reason
close answer c = let (r, c') = close_reason answer c in (closing r, c')

module _ (S : Sql) (s : BepState S) where
  -- The name that is read first is kept.
  unfoldable pub get_name : Connection → List ℕ × Connection
  get_name c = elim c.name [
    | some name ↦ (name, c)
    | none ↦ (Peers.get_name S s, record c { name = some (Peers.get_name S s) })
  ]

  -- `get_peer`. For an unknown peer the connection is asked to close, on this channel, and how that ends
  -- is ignored.
  unfoldable pub get_peer : Wire → ℕ → Connection → Outcome PeerCommandError Peer × Connection
  unfolding find_peer ask_close
  get_peer wire channel c = elim c.peer_id [
    | none ↦ (err PeerCommandError.uninitialized_error, c)
    | some id ↦ elim (find_peer S id s) [
      | some peer ↦ (ok peer, c)
      | none ↦ (
        err (PeerCommandError.connection_error PeerConnectionError.unknown_peer),
        ask_close wire (codes "Unknown peer") channel c,
      )
    ]
  ]

-- `get_peer_name`
abbrev pub name_of : Outcome PeerCommandError Peer × Connection → Outcome PeerCommandError (List ℕ)
name_of (ok peer, c) = ok peer.name
name_of (err e, c) = err e
name_of (panicked, c) = panicked

abbrev pub submit_indexes : Wire → List Index → Pending → Pending
submit_indexes wire [] s = s
submit_indexes wire (i ∷ indexes) s =
    submit_indexes wire indexes (submit_message (encode_message wire (Message.index i)) s)

-- What surrounds the start of a connection: what surrounds an index, whether rustls takes a certificate
-- with its key, and the texts of errors.
pub record Environment : Type 0 where
  pub surroundings : Surroundings
  pub is_usable : List ℕ → List ℕ → Bool
  pub timed_out : List ℕ
  pub print_error : IoError → List ℕ

-- The task ends, and the queue that it owns is dropped.
abbrev pub fall :
    Outcome PeerConnectionError Exit → Connection → Outcome PeerConnectionError Exit × Connection
fall r c = (r, record c { pending = drop_receiver none c.pending })

module _ (S : Sql) (wire : Wire) (env : Environment) (s : BepState S) where
  -- The indexes are submitted, also those before an error; then the reader and the writer are spawned,
  -- which take the queue over, and the tracker is waited for.
  unfoldable pub start :
      Outcome IoError (Unit {0}) × List Index
      → Connection
      → Outcome PeerConnectionError Exit × Connection
  start (r, sent) c =
      let c' : Connection = record c { pending = submit_indexes wire sent c.pending } in
      elim r [
        | ok u ↦ (ok (wait_tracker (track 2 c')), track 2 c')
        | err e ↦ fall (err (PeerConnectionError.other (env.print_error e))) c'
        | panicked ↦ fall panicked c'
      ]

  -- The name is kept since it is logged.
  unfoldable pub take_verified :
      Outcome (List ℕ) (List ℕ) → Connection → Outcome PeerConnectionError Exit × Connection
  unfolding start set_peer get_name
  take_verified (ok id) c = elim (set_peer id (get_name S s c).1) [
    | none ↦ fall panicked (get_name S s c).1
    | some c' ↦ start (send_index S env.surroundings s id) c'
  ]
  take_verified (err text) c = fall (err PeerConnectionError.unknown_peer) (get_name S s c).1
  take_verified panicked c = fall panicked c

  -- The certificate and the key are read from the options, which are there once the state is open.
  unfoldable pub with_key :
      Option (List ℕ)
      → Option (List ℕ)
      → Bool
      → Handshake
      → Connection
      → Outcome PeerConnectionError Exit × Connection
  unfolding take_verified
  with_key none key server handshake c = fall panicked c
  with_key (some certificate) none server handshake c = fall panicked c
  with_key (some certificate) (some key) server handshake c =
      take_verified
        (verify_connection env.surroundings.sha256 env.is_usable env.timed_out certificate key
          (map device_or_empty (get_peers S s)) server handshake)
        c

  -- Up to the wait for the tracker.
  unfoldable pub handle_connection :
      Bool → Handshake → Connection → Outcome PeerConnectionError Exit × Connection
  unfolding with_key
  handle_connection server handshake c =
      with_key (get_certificate S s).0 (get_key S s).0 server handshake c

-- What the task of `PeerConnection::new` does once `handle_connection` has ended; it does nothing while
-- that waits, and a panic takes the task with it. `none` is a panic of `drain_requests`.
unfoldable pub drained : (ℕ → Bool) → Connection → Option Connection
unfolding drain_requests
drained is_waited_for c = elim (drain_requests is_waited_for c.pending) [
  | none ↦ none
  | some pending ↦ some (record c { pending = pending })
]

unfoldable pub conclude :
    (ℕ → Bool) → Outcome PeerConnectionError Exit × Connection → Option Connection
unfolding drained set_error
conclude is_waited_for (ok waiting, c) = some c
conclude is_waited_for (ok returned, c) = drained is_waited_for c
conclude is_waited_for (err e, c) = drained is_waited_for (set_error e c)
conclude is_waited_for (panicked, c) = none

-- The connection of this number is entered into the state first.
unfoldable pub run_connection :
    (S : Sql)
    → Wire
    → Environment
    → ℕ
    → (ℕ → Bool)
    → Bool
    → Handshake
    → BepState S
    → Connection
    → Option Connection × BepState S
unfolding conclude
run_connection S wire env number is_waited_for server handshake s c =
    let s' = (add_peer_connection S number s).1 in
    (conclude is_waited_for (handle_connection S wire env s' server handshake c), s')
