-- ===== src/Connection/Writing/Settled.antt =====
-- Who waits for a message to be sent (src/peer_connection/handlers.rs, `handle_writing`).
use bep_rs.Prelude.{
  ℕ, ◌+◌, ◌≡◌, ◌≢◌, refl, ap, subst, ◌∙◌, false, Option, none, some, List, [], ◌∷◌, ◌++◌, arith,
}
use bep_rs.Prelude.Outcome.{Outcome, ok, err, panicked}
use bep_rs.Prelude.Int.{ℤ}
use bep_rs.State.Monad.{Sql, BepState}
use bep_rs.Connection.Items.{Message, ClusterConfig, PeerConnectionError}
use bep_rs.Connection.Framing.{Wire, hello_of, send_hello, encode_message}
use bep_rs.Connection.Cluster.{generate_cluster_config}
use bep_rs.Connection.Requests.{
  PeerRequestListener, PeerRequestResponse, Pending, send_message, close_queue, close_receiver,
  drop_sender, channels,
}
use bep_rs.Connection.Requests.Answers.{queued}
use bep_rs.Connection.Requests.Places.{
  count, count-append, told, places, send_message-places, send_message-requests,
}
use bep_rs.Connection.Requests.Conservation.{
  extra, report_sent-Adds, unqueue-places, count-drop_sender, close_receiver-places,
}
use bep_rs.Connection.Reading.{Exit, returned, waiting}
use bep_rs.Connection.Writing.{
  Sending, flushed, cut_after, unflushed, Event, submitted, received, closed, elapsed, cancelled,
  Writer, Result, write_message, write_taken, told_sent, afterwards, or_abandon, abandon,
  take_message, close_writer, writing_loop, write_all, write_config, handle_writing,
}
use bep_rs.Connection.Writing.Order.{submissions}

close_queue_keeps :
    (queue : List (List ℕ × Option ℕ)) (s : Pending)
    → ((close_queue queue s).queue ≡ s.queue) × ((close_queue queue s).is_open ≡ s.is_open)
unfolding close_queue
close_queue_keeps [] s = (refl, refl)
close_queue_keeps ((msg, none) ∷ queue) s = close_queue_keeps queue s
close_queue_keeps ((msg, some k) ∷ queue) s =
    close_queue_keeps queue
      (record s { answered = s.answered ++ (k, PeerRequestResponse.closed) ∷ [] })

abbrev IsShut : Pending → Type 0
IsShut s = (s.queue ≡ []) × (s.is_open ≡ false)

pub close_receiver-IsShut : (s : Pending) → IsShut (close_receiver s)
unfolding close_receiver
close_receiver-IsShut s = close_queue_keeps s.queue (record s { queue = []; is_open = false })

send_message-IsShut :
    (msg : List ℕ) (first_part : Option ℕ) (s : Pending)
    → IsShut s
    → IsShut (send_message msg first_part s)
unfolding send_message
send_message-IsShut msg first_part s (none_queued, shut) = rw shut (none_queued, refl)

module _ (c : ℕ) where
  count-queued :
      (msg : List ℕ) (first_part : Option ℕ) (queue : List (List ℕ × Option ℕ))
      → count c (queued ((msg, first_part) ∷ queue)) ≡ extra c first_part + count c (queued queue)
  count-queued msg none queue = omega arith
  count-queued msg (some k) queue = ground arith

  send_message-extra :
      (msg : List ℕ) (first_part : Option ℕ) (s : Pending)
      → places c (send_message msg first_part s) ≡ places c s + extra c first_part
  send_message-extra msg none s = send_message-places c msg none s
  send_message-extra msg (some k) s = send_message-places c msg (some k) s

  abandon-places :
      (first_part : Option ℕ) (w : Writer)
      → places c (abandon first_part w).pending ≡ places c w.pending + extra c first_part
  unfolding abandon places
  abandon-places first_part w = omega (
    arith,
    count-append c w.pending.cancelled (drop_sender first_part ++ queued w.pending.queue),
    count-append c (drop_sender first_part) (queued w.pending.queue),
    count-drop_sender c first_part,
  )

  -- The channel stands in so many places when the writer has ended or waits; the requests are these; and
  -- nothing is queued once it has ended.
  record Settles (total : ℕ) (requests : List PeerRequestListener) (r : Result) : Type 0 where
    found : places c r.1.pending ≡ total
    same : r.1.pending.requests ≡ requests
    over : r.0 ≢ ok waiting → r.1.pending.queue ≡ []

  waits_for : List Event → ℕ
  waits_for events = count c (queued (submissions events))

  afterwards-Settles :
      (events : List Event) (o : Outcome PeerConnectionError Exit) (w : Writer)
      → IsShut w.pending
      → Settles (places c w.pending + waits_for events) w.pending.requests (o, afterwards events w)
  unfolding afterwards waits_for
  afterwards-Settles [] o w shut = record { found = omega arith; same = refl; over = λ _. shut.0 }
  afterwards-Settles (submitted msg first_part ∷ events) o w shut =
      let w' : Writer = record w { pending = send_message msg first_part w.pending } in
      let rest =
        afterwards-Settles events o w' (send_message-IsShut msg first_part w.pending shut) in
      record {
        found = omega (
          arith,
          rest.found,
          send_message-extra msg first_part w.pending,
          count-queued msg first_part (submissions events),
        );
        same = rest.same ∙ send_message-requests msg first_part w.pending;
        over = rest.over;
      }
  afterwards-Settles (received sending ∷ events) o w shut = afterwards-Settles events o w shut
  afterwards-Settles (closed ∷ events) o w shut = afterwards-Settles events o w shut
  afterwards-Settles (elapsed sending ∷ events) o w shut = afterwards-Settles events o w shut
  afterwards-Settles (cancelled ∷ events) o w shut = afterwards-Settles events o w shut

  abandon-Settles :
      (events : List Event) (held : Option ℕ) (o : Outcome PeerConnectionError Exit) (w : Writer)
      (total : ℕ) (requests : List PeerRequestListener)
      → total ≡ places c w.pending + extra c held + waits_for events
      → w.pending.requests ≡ requests
      → Settles total requests (o, afterwards events (abandon held w))
  unfolding abandon
  abandon-Settles events held o w total requests sum same_requests =
      let rest = afterwards-Settles events o (abandon held w) (refl, refl) in
      record {
        found = omega (arith, rest.found, abandon-places held w, sum);
        same = rest.same ∙ same_requests;
        over = rest.over;
      }

  -- A write, where the sender of its message is held.
  write_message-Settles :
      (events : List Event) (held : Option ℕ) (sending : Sending) (msg : List ℕ) (w : Writer)
      (next : Writer → Result)
      → Settles
          (places c w.pending + extra c held + waits_for events)
          w.pending.requests
          (next (record w { written = w.written ++ msg }))
      → Settles
          (places c w.pending + extra c held + waits_for events)
          w.pending.requests
          (or_abandon events held (write_message sending msg w) next)
  unfolding write_message
  write_message-Settles events held flushed msg w next rest = rest
  write_message-Settles events held (cut_after n text) msg w next rest =
      let (same_requests, moved) = close_receiver-places c w.pending in
      abandon-Settles events held (err (PeerConnectionError.other text))
        (write_message (cut_after n text) msg w).1
        (places c w.pending + extra c held + waits_for events) w.pending.requests
        (omega (arith, moved)) same_requests
  write_message-Settles events held (unflushed text) msg w next rest =
      abandon-Settles events held (err (PeerConnectionError.other text))
        (write_message (unflushed text) msg w).1
        (places c w.pending + extra c held + waits_for events) w.pending.requests refl refl

  abbrev Continues : List Event → (Writer → Result) → Type 0
  Continues events next =
      (w : Writer) → Settles (places c w.pending + waits_for events) w.pending.requests (next w)

  told-Settles :
      (events : List Event) (first_part : Option ℕ) (w : Writer) (next : Writer → Result)
      → Continues events next
      → Settles
          (places c w.pending + extra c first_part + waits_for events)
          w.pending.requests
          (next (told_sent first_part w))
  told-Settles events first_part w next continues =
      let (same_requests, moved) = report_sent-Adds c first_part w.pending in
      let rest = continues (told_sent first_part w) in
      record {
        found = omega (arith, rest.found, moved);
        same = rest.same ∙ same_requests;
        over = rest.over;
      }

  taken-Settles :
      (events : List Event) (sending : Sending) (msg : List ℕ) (first_part : Option ℕ) (w : Writer)
      (next : Writer → Result)
      → Continues events next
      → Settles (places c w.pending + extra c first_part + waits_for events) w.pending.requests (
          or_abandon events first_part
            (write_taken sending msg w)
            (λ w'. next (told_sent first_part w')))
  unfolding write_taken
  taken-Settles events sending [] first_part w next continues =
      told-Settles events first_part w next continues
  taken-Settles events sending (b ∷ msg) first_part w next continues =
      write_message-Settles events first_part sending (b ∷ msg) w
        (λ w'. next (told_sent first_part w'))
        (told-Settles events first_part (record w { written = w.written ++ b ∷ msg }) next
          continues)

  take_message-Settles :
      (events : List Event) (sending : Sending) (queue : List (List ℕ × Option ℕ)) (w : Writer)
      (next : Writer → Result)
      → Continues events next
      → w.pending.queue ≡ queue
      → Settles
          (places c w.pending + waits_for events)
          w.pending.requests
          (take_message events sending queue w next)
  unfolding take_message
  take_message-Settles events sending [] w next continues e = continues w
  take_message-Settles events sending ((msg, first_part) ∷ queue) w next continues e =
      let w' : Writer = record w { pending = record (w.pending) { queue = queue } } in
      let back = unqueue-places c msg first_part queue w.pending e in
      let rest = taken-Settles events sending msg first_part w' next continues in
      record { found = omega (arith, rest.found, back); same = rest.same; over = rest.over }

  close-Settles :
      (events : List Event) (w : Writer)
      → Settles (places c w.pending + waits_for events) w.pending.requests (close_writer events w)
  close-Settles events w =
      let (same_requests, moved) = close_receiver-places c w.pending in
      let rest =
        afterwards-Settles events (ok returned) (record w { pending = close_receiver w.pending })
          (close_receiver-IsShut w.pending) in
      record {
        found = omega (arith, rest.found, moved);
        same = rest.same ∙ same_requests;
        over = rest.over;
      }

module _ (wire : Wire) (c : ℕ) where
  writing_loop-Settles : (events : List Event) → Continues c events (writing_loop wire events)
  unfolding writing_loop waits_for
  writing_loop-Settles [] w = record {
    found = omega arith;
    same = refl;
    over = λ ended. absurd (ended refl);
  }
  writing_loop-Settles (submitted msg first_part ∷ events) w =
      let rest =
        writing_loop-Settles events
          (record w { pending = send_message msg first_part w.pending }) in
      record {
        found = omega (
          arith,
          rest.found,
          send_message-extra c msg first_part w.pending,
          count-queued c msg first_part (submissions events),
        );
        same = rest.same ∙ send_message-requests msg first_part w.pending;
        over = rest.over;
      }
  writing_loop-Settles (received sending ∷ events) w =
      take_message-Settles c events sending w.pending.queue w (writing_loop wire events)
        (writing_loop-Settles events) refl
  writing_loop-Settles (closed ∷ events) w = close-Settles c events w
  writing_loop-Settles (elapsed sending ∷ events) w =
      let ping : List ℕ = encode_message wire Message.ping in
      let w' : Writer = record w { written = w.written ++ ping } in
      let rest = writing_loop-Settles events w' in
      let all =
        write_message-Settles c events none sending ping w (writing_loop wire events)
          (record { found = omega (arith, rest.found); same = rest.same; over = rest.over }) in
      record { found = omega (arith, all.found); same = all.same; over = all.over }
  writing_loop-Settles (cancelled ∷ events) w = close-Settles c events w

  pub writing_loop-requests :
      (events : List Event) (w : Writer)
      → (writing_loop wire events w).1.pending.requests ≡ w.pending.requests
  writing_loop-requests events w = (writing_loop-Settles events w).same

  write_all-Settles :
      (events : List Event) (sending : Sending) (msg : List ℕ) (w : Writer) (next : Writer → Result)
      → Continues c events next
      → Settles c
          (places c w.pending + waits_for c events)
          w.pending.requests
          (or_abandon events none (write_all sending msg w) next)
  unfolding write_all
  write_all-Settles events flushed msg w next continues =
      let rest = continues (record w { written = w.written ++ msg }) in
      record { found = rest.found; same = rest.same; over = rest.over }
  write_all-Settles events (cut_after n text) msg w next continues =
      abandon-Settles c events none (err (PeerConnectionError.other text))
        (write_all (cut_after n text) msg w).1 (places c w.pending + waits_for c events)
        w.pending.requests (omega arith) refl
  write_all-Settles events (unflushed text) msg w next continues =
      abandon-Settles c events none (err (PeerConnectionError.other text))
        (write_all (unflushed text) msg w).1 (places c w.pending + waits_for c events)
        w.pending.requests (omega arith) refl

  write_config-Settles :
      (sending : Sending) (config : Option ClusterConfig) (events : List Event)
      → Continues c events (write_config wire sending config events)
  unfolding write_config
  write_config-Settles sending none events w =
      abandon-Settles c events none panicked w (places c w.pending + waits_for c events)
        w.pending.requests (omega arith) refl
  write_config-Settles sending (some config) events w =
      let msg : List ℕ = encode_message wire (Message.cluster_config config) in
      let w' : Writer = record w { written = w.written ++ msg } in
      let rest = writing_loop-Settles events w' in
      let all =
        write_message-Settles c events none sending msg w (writing_loop wire events)
          (record { found = omega (arith, rest.found); same = rest.same; over = rest.over }) in
      record { found = omega (arith, all.found); same = all.same; over = all.over }

-- How often a channel was told that its message is sent or will not be, or was dropped.
abbrev pub settled : ℕ → Pending → ℕ
settled c s = count c (told s.answered) + count c s.cancelled

settled_lem :
    (c : ℕ) (events : List Event) (w : Writer) (r : Result)
    → Settles c (places c w.pending + waits_for c events) w.pending.requests r
    → r.0 ≢ ok waiting
    → (r.1.pending.queue ≡ [])
      × (settled c r.1.pending
          ≡ settled c w.pending
            + count c (queued w.pending.queue)
            + count c (queued (submissions events)))
unfolding waits_for places
settled_lem c events w r all ended =
    let found = all.found in
    let none_left = all.over ended in
    (
      none_left,
      omega (
        arith,
        found,
        ap (λ q. count c (queued q)) none_left,
        ap (λ (q : List PeerRequestListener). count c (channels q)) all.same,
      ),
    )

-- However the writer ends, by a cancellation, a closed queue, a failure of the stream or a panic, nobody
-- who waits for a message to be sent waits on: nothing is left in the queue, and every channel that was
-- queued with a message, before that or after, is told or dropped, as often as it was queued.
pub handle_writing-settled :
    (wire : Wire) (S : Sql) (sha256 : List ℕ → List ℕ) (peer_id name : List ℕ) (timestamp : ℤ)
    (greeting configuring : Sending) (events : List Event) (s : BepState S) (w : Writer) (c : ℕ)
    {r : Result}
    → handle_writing wire S sha256 peer_id name timestamp greeting configuring events s w ≡ r
    → r.0 ≢ ok waiting
    → (r.1.pending.queue ≡ [])
      × (settled c r.1.pending
          ≡ settled c w.pending
            + count c (queued w.pending.queue)
            + count c (queued (submissions events)))
unfolding handle_writing
handle_writing-settled wire S sha256 peer_id name timestamp greeting configuring events s w c {r}
      e =
    settled_lem c events w r (
      subst (Settles c (places c w.pending + waits_for c events) w.pending.requests) e (
        write_all-Settles wire c events greeting (send_hello wire (hello_of name timestamp)) w
          (write_config wire configuring (generate_cluster_config S sha256 peer_id s).0 events)
          (write_config-Settles wire c configuring (generate_cluster_config S sha256 peer_id s).0
            events)))
