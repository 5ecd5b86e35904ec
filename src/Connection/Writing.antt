-- ===== src/Connection/Writing.antt =====
-- The writer of a connection (src/peer_connection/handlers.rs, `handle_writing`, `write_message` and
-- `generate_cluster_config`'s use): it greets the peer, tells it what is shared, and then writes the
-- messages that the other tasks put into the queue. What each wait of its loop ends with, and what the
-- other tasks put into the queue meanwhile, is a list of events.
pub mod Order
pub mod Settled
pub mod Steps
pub mod Heard
use bep_rs.Prelude.{
  ℕ, true, false, Option, none, some, List, [], ◌∷◌, ◌++◌, take, is_empty, if◌then◌else◌,
}
use bep_rs.Prelude.Int.{ℤ}
use bep_rs.Prelude.Outcome.{Outcome, ok, err, panicked}
use bep_rs.State.Monad.{Sql, BepState}
use bep_rs.Connection.Items.{Message, ClusterConfig, PeerConnectionError}
use bep_rs.Connection.Framing.{Wire, hello_of, encode_message, send_hello}
use bep_rs.Connection.Cluster.{generate_cluster_config}
use bep_rs.Connection.Requests.{Pending, send_message, close_receiver, report_sent, drop_sender}
use bep_rs.Connection.Requests.Answers.{queued}
use bep_rs.Connection.Reading.{Exit, returned, waiting}

-- What the stream does with bytes: all are written and flushed; writing fails after so many of them; or
-- flushing fails. An error is its text.
pub data Sending : Type 0 where
  flushed : Sending
  cut_after : ℕ → List ℕ → Sending
  unflushed : List ℕ → Sending

-- Another task puts a message into the queue, or a wait of the loop ends: with a message, with a queue
-- that is empty and closed, with the timeout of 90 seconds, or with a cancellation.
pub data Event : Type 0 where
  submitted : List ℕ → Option ℕ → Event
  received : Sending → Event
  closed : Event
  elapsed : Sending → Event
  cancelled : Event

-- `written` is what the stream has taken so far.
pub record Writer : Type 0 where
  pub pending : Pending
  pub written : List ℕ

abbrev pub Result : Type 0
Result = Outcome PeerConnectionError Exit × Writer

-- `write_all` and `flush`, without what the caller does about an error.
unfoldable pub write_all :
    Sending → List ℕ → Writer → Outcome PeerConnectionError (Unit {0}) × Writer
write_all flushed msg w = (ok tt, record w { written = w.written ++ msg })
write_all (cut_after n text) msg w =
    (err (PeerConnectionError.other text), record w { written = w.written ++ take n msg })
write_all (unflushed text) msg w =
    (err (PeerConnectionError.other text), record w { written = w.written ++ msg })

-- A write that fails closes the queue; a flush that fails does not.
unfoldable pub write_message :
    Sending → List ℕ → Writer → Outcome PeerConnectionError (Unit {0}) × Writer
write_message flushed msg w = (ok tt, record w { written = w.written ++ msg })
write_message (cut_after n text) msg w = (
  err (PeerConnectionError.other text),
  record w { pending = close_receiver w.pending; written = w.written ++ take n msg },
)
write_message (unflushed text) msg w =
    (err (PeerConnectionError.other text), record w { written = w.written ++ msg })

-- What the other tasks submit once the writer has ended.
unfoldable pub afterwards : List Event → Writer → Writer
unfolding send_message
afterwards [] w = w
afterwards (submitted msg first_part ∷ events) w =
    afterwards events (record w { pending = send_message msg first_part w.pending })
afterwards (received sending ∷ events) w = afterwards events w
afterwards (closed ∷ events) w = afterwards events w
afterwards (elapsed sending ∷ events) w = afterwards events w
afterwards (cancelled ∷ events) w = afterwards events w

-- When the queue is dropped, so are the messages in it and their senders, and the sender that its owner
-- holds.
unfoldable pub drop_receiver : Option ℕ → Pending → Pending
drop_receiver first_part s = record s {
  queue = [];
  is_open = false;
  cancelled = s.cancelled ++ (drop_sender first_part ++ queued s.queue);
}

-- `handle_writing` ends early.
unfoldable pub abandon : Option ℕ → Writer → Writer
unfolding drop_receiver
abandon first_part w = record w { pending = drop_receiver first_part w.pending }

-- `?`, with the sender that is held at that point, and what happens from there on.
abbrev pub or_abandon :
    List Event
    → Option ℕ
    → Outcome PeerConnectionError (Unit {0}) × Writer
    → (Writer → Result)
    → Result
or_abandon events first_part (ok u, w) next = next w
or_abandon events first_part (err e, w) next = (err e, afterwards events (abandon first_part w))
or_abandon events first_part (panicked, w) next =
    (panicked, afterwards events (abandon first_part w))

-- The loop returns once the queue is closed.
abbrev pub close_writer : List Event → Writer → Result
close_writer events w =
    (ok returned, afterwards events (record w { pending = close_receiver w.pending }))

-- An empty message is not written.
unfoldable pub write_taken :
    Sending → List ℕ → Writer → Outcome PeerConnectionError (Unit {0}) × Writer
unfolding write_message
write_taken sending msg w = if is_empty msg then (ok tt, w) else write_message sending msg w

abbrev pub told_sent : Option ℕ → Writer → Writer
told_sent first_part w = record w { pending = report_sent first_part w.pending }

-- A round that takes a message from this queue; the wait for a message does not end while there is
-- none.
unfoldable pub take_message :
    List Event → Sending → List (List ℕ × Option ℕ) → Writer → (Writer → Result) → Result
unfolding write_taken report_sent
take_message events sending [] w next = next w
take_message events sending ((msg, first_part) ∷ queue) w next =
    or_abandon events first_part
      (write_taken sending msg (record w { pending = record (w.pending) { queue = queue } }))
      (λ w'. next (told_sent first_part w'))

module _ (wire : Wire) where
  unfoldable pub writing_loop : List Event → Writer → Result
  unfolding take_message
  writing_loop [] w = (ok waiting, w)
  writing_loop (submitted msg first_part ∷ events) w =
      writing_loop events (record w { pending = send_message msg first_part w.pending })
  writing_loop (received sending ∷ events) w =
      take_message events sending w.pending.queue w (writing_loop events)
  writing_loop (closed ∷ events) w = close_writer events w
  writing_loop (elapsed sending ∷ events) w =
      or_abandon events none (write_message sending (encode_message wire Message.ping) w)
        (writing_loop events)
  writing_loop (cancelled ∷ events) w = close_writer events w

  -- From the cluster configuration on; a panic while it is generated ends the task.
  unfoldable pub write_config : Sending → Option ClusterConfig → List Event → Writer → Result
  unfolding writing_loop
  write_config sending none events w = (panicked, afterwards events (abandon none w))
  write_config sending (some config) events w =
      or_abandon events none
        (write_message sending (encode_message wire (Message.cluster_config config)) w)
        (writing_loop events)

  -- `name` and `timestamp` go into the hello. What the stream does with the hello, with the cluster
  -- configuration and then in each round comes from outside.
  module _ (S : Sql) (sha256 : List ℕ → List ℕ) (peer_id name : List ℕ) (timestamp : ℤ) where
    unfoldable pub handle_writing : Sending → Sending → List Event → BepState S → Writer → Result
    unfolding write_config write_all
    handle_writing greeting configuring events s w =
        or_abandon events none (write_all greeting (send_hello wire (hello_of name timestamp)) w)
          (write_config configuring (generate_cluster_config S sha256 peer_id s).0 events)
