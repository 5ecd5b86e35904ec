-- ===== src/Connection/Requests.antt =====
-- The requests of a connection that wait for an answer (src/peer_connection/mod.rs,
-- `submit_request`, and src/peer_connection/handlers.rs, `handle_response`, `drain_requests` and
-- `close_receiver`). A one-shot channel is a number; what is sent on it is logged in `answered`,
-- and a sender that is dropped unused in `cancelled`. Sending fails where nobody waits any more.
pub mod Answers
pub mod Places
pub mod Conservation
pub mod Runs
use bep_rs.Prelude.{
  ℕ, not, ◌||◌, Bool, true, false, if◌then◌else◌, is_empty, Option, none, some, List, [], ◌∷◌, ◌++◌,
  map, keep, find?, codes,
}
use bep_rs.Prelude.Int.{ℤ, ◌==ℤ◌}
use bep_rs.Prelude.Outcome.{Outcome, ok, err, panicked}
use bep_rs.Connection.Items.{Response, PeerConnectionError, PeerCommandError}

pub data PeerRequestResponseType : Type 0 where
  none_asked when_ready when_sent when_response when_closed : PeerRequestResponseType

pub data PeerRequestResponse : Type 0 where
  response : Response → PeerRequestResponse
  error : PeerCommandError → PeerRequestResponse
  sent closed : PeerRequestResponse

pub record PeerRequestListener : Type 0 where
  pub id : ℤ
  pub response_type : PeerRequestResponseType
  pub channel : ℕ

-- The shared parts of a `PeerConnection` that requests go through. `queue` is what `tx` has taken
-- and the writer has not.
pub record Pending : Type 0 where
  pub requests : List PeerRequestListener
  pub queue : List (List ℕ × Option ℕ)
  pub is_open : Bool
  pub answered : List (ℕ × PeerRequestResponse)
  pub cancelled : List ℕ

abbrev pub has_id : ℤ → PeerRequestListener → Bool
has_id id l = l.id ==ℤ id

abbrev pub channels : List PeerRequestListener → List ℕ
channels = map (λ l. l.channel)

abbrev pub is_when_response : PeerRequestResponseType → Bool
is_when_response PeerRequestResponseType.when_response = true
is_when_response _ = false

abbrev pub is_none_asked : PeerRequestResponseType → Bool
is_none_asked PeerRequestResponseType.none_asked = true
is_none_asked _ = false

abbrev pub is_when_sent : PeerRequestResponseType → Bool
is_when_sent PeerRequestResponseType.when_sent = true
is_when_sent _ = false

-- `HashMap::insert`: a listener of the same id is dropped, and its channel with it.
unfoldable pub insert_request : PeerRequestListener → Pending → Pending
insert_request l s = record s {
  requests = keep (λ k. not (has_id l.id k)) s.requests ++ l ∷ [];
  cancelled = s.cancelled ++ channels (keep (has_id l.id) s.requests);
}

-- `tx.send`: on a closed queue the message is dropped, and the sender in it.
abbrev pub drop_sender : Option ℕ → List ℕ
drop_sender none = []
drop_sender (some channel) = channel ∷ []

unfoldable pub send_message : List ℕ → Option ℕ → Pending → Pending
send_message msg first_part s =
    if s.is_open
    then record s { queue = s.queue ++ (msg, first_part) ∷ [] }
    else record s { cancelled = s.cancelled ++ drop_sender first_part }

-- `submit_request` up to `tx.send`: the listener is inserted, or the channel goes with the message.
-- `none` is the panic of the assertion.
unfoldable pub register : ℤ → PeerRequestResponseType → ℕ → Pending → Option (Option ℕ × Pending)
unfolding insert_request
register id response_type channel s =
    if is_none_asked response_type
    then none
    else if is_when_sent response_type
    then some (some channel, s)
    else some (
      none,
      insert_request (record { id = id; response_type = response_type; channel = channel }) s,
    )

-- Up to the wait for the answer, where nothing comes between the listener and the message.
unfoldable pub submit_request : ℤ → PeerRequestResponseType → ℕ → List ℕ → Pending → Option Pending
unfolding register send_message
submit_request id response_type channel msg s = elim (register id response_type channel s) [
  | none ↦ none
  | some (first_part, s') ↦ some (send_message msg first_part s')
]

-- `submit_message`
unfoldable pub submit_message : List ℕ → Pending → Pending
unfolding send_message
submit_message msg s = send_message msg none s

-- The end of `handle_response`, for the listener that was removed: the two assertions.
unfoldable pub answer :
    (ℕ → Bool) → Response → PeerRequestListener → Pending → Outcome PeerConnectionError Pending
answer is_waited_for r l s =
    if not (is_when_response l.response_type)
    then panicked
    else if is_waited_for l.channel
    then ok (record s { answered = s.answered ++ (l.channel, response r) ∷ [] })
    else panicked

-- `HashMap::remove`
abbrev pub remove_request : ℤ → Pending → Option (PeerRequestListener × Pending)
remove_request id s = elim (find? (has_id id) s.requests) [
  | none ↦ none
  | some l ↦ some (l, record s { requests = keep (λ k. not (has_id id k)) s.requests })
]

unfoldable pub handle_response :
    (ℕ → Bool) → Response → Pending → Outcome PeerConnectionError Pending
unfolding answer
handle_response is_waited_for r s = elim (remove_request r.id s) [
  | none ↦ err (PeerConnectionError.other (codes "Received unsolicited response"))
  | some (l, s') ↦ answer is_waited_for r l s'
]

-- `drain_requests`: it panics on a listener that nobody waits for.
unfoldable pub drain : (ℕ → Bool) → List PeerRequestListener → Pending → Option Pending
drain is_waited_for [] s = some s
drain is_waited_for (l ∷ requests) s =
    let rest =
      drain is_waited_for requests
        (record s { answered = s.answered ++ (l.channel, closed) ∷ [] }) in
    if is_waited_for l.channel then rest else none

unfoldable pub drain_requests : (ℕ → Bool) → Pending → Option Pending
unfolding drain
drain_requests is_waited_for s = drain is_waited_for s.requests (record s { requests = [] })

-- `close_receiver`: every message that is still queued is dropped, and who waits for it is told.
unfoldable pub close_queue : List (List ℕ × Option ℕ) → Pending → Pending
close_queue [] s = s
close_queue ((msg, none) ∷ queue) s = close_queue queue s
close_queue ((msg, some channel) ∷ queue) s =
    close_queue queue (record s { answered = s.answered ++ (channel, closed) ∷ [] })

unfoldable pub close_receiver : Pending → Pending
unfolding close_queue
close_receiver s = close_queue s.queue (record s { queue = []; is_open = false })

-- `tx.send(PeerRequestResponse::Sent)`; an error of it is only logged.
unfoldable pub report_sent : Option ℕ → Pending → Pending
report_sent none s = s
report_sent (some channel) s = record s { answered = s.answered ++ (channel, sent) ∷ [] }
