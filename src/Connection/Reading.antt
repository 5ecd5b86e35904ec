-- ===== src/Connection/Reading.antt =====
-- The reader of a connection (src/peer_connection/handlers.rs, `handle_reading`): it takes message
-- after message from the stream, and starts a task for each request, index and response. What the
-- wait for a header gives in each round is a list.
pub mod Delivery
use bep_rs.Prelude.{ℕ, Bool, true, false, Option, none, some, List, [], ◌∷◌, ◌++◌}
use bep_rs.Prelude.Outcome.{Outcome, ok, err, panicked}
use bep_rs.State.Monad.{Sql, BepState}
use bep_rs.Connection.Items.{
  Message, PeerConnectionError, Request, Response, FileInfo, Index, IndexUpdate, ClusterConfig,
  Close,
}
use bep_rs.Connection.Framing.{Wire, read_message, receive_hello}
use bep_rs.Connection.Cluster.{merge_folders}

-- `run_until_cancelled(timeout(120 s, read_u16))`: the read comes to its end, the time elapses, or
-- the connection is cancelled.
pub data Wait : Type 0 where
  ready elapsed cancelled : Wait

-- A task that is spawned: `handle_request`, `handle_index` or `handle_response`.
pub data Task : Type 0 where
  answer_request : Request → Task
  merge_index : List ℕ → List FileInfo → Task
  take_response : Response → Task

-- What the reader changes.
pub record Session (S : Sql) : Type 0 where
  pub state : BepState S
  pub tasks : List Task

-- The loop returns, or it waits for the next header.
pub data Exit : Type 0 where
  returned waiting : Exit

abbrev pub spawn : {S : Sql} → Task → Session S → Outcome PeerConnectionError Bool × Session S
spawn task s = (ok false, record s { tasks = s.tasks ++ task ∷ [] })

module _ {S : Sql} where
  -- The loop goes on, or the peer has asked to close.
  abbrev pub after :
      Outcome PeerConnectionError Bool × Session S
      → (Session S → Outcome PeerConnectionError Exit × Session S)
      → Outcome PeerConnectionError Exit × Session S
  after (ok true, s) next = (ok returned, s)
  after (ok false, s) next = next s
  after (err e, s) next = (err e, s)
  after (panicked, s) next = (panicked, s)

-- A method that panics takes the reader with it.
abbrev pub finish : Option (Unit {0}) → Outcome PeerConnectionError Bool
finish none = panicked
finish (some u) = ok false

module _ (S : Sql) (wire : Wire) (peer_id : List ℕ) where
  unfoldable pub dispatch : Message → Session S → Outcome PeerConnectionError Bool × Session S
  dispatch (Message.cluster_config c) s =
      let (r, state) = merge_folders S peer_id c.folders s.state in
      (finish r, record s { state = state })
  dispatch (Message.index i) s = spawn (merge_index i.folder i.files) s
  dispatch (Message.index_update i) s = spawn (merge_index i.folder i.files) s
  dispatch (Message.request r) s = spawn (answer_request r) s
  dispatch (Message.response r) s = spawn (take_response r) s
  dispatch Message.ping s = (ok false, s)
  dispatch (Message.close c) s = (ok true, s)

  unfoldable pub read_loop :
      List Wait → List ℕ → Session S → Outcome PeerConnectionError Exit × Session S
  read_loop [] stream s = (ok waiting, s)
  read_loop (cancelled ∷ waits) stream s = (ok returned, s)
  read_loop (elapsed ∷ waits) stream s = (err PeerConnectionError.timeout_error, s)
  read_loop (ready ∷ waits) stream s = elim (read_message wire stream) [
    | ok (m, rest) ↦ after (dispatch m s) (read_loop waits rest)
    | err e ↦ (err e, s)
    | panicked ↦ (panicked, s)
  ]

  unfoldable pub handle_reading :
      List Wait → List ℕ → Session S → Outcome PeerConnectionError Exit × Session S
  handle_reading waits stream s = elim (receive_hello wire stream) [
    | ok (hello, rest) ↦ read_loop waits rest s
    | err e ↦ (err e, s)
    | panicked ↦ (panicked, s)
  ]
