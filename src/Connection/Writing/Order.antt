-- ===== src/Connection/Writing/Order.antt =====
-- What the writer puts on the stream (src/peer_connection/handlers.rs, `handle_writing`).
use bep_rs.Prelude.{
  ℕ, ◌≡◌, ◌⊎◌, inl, inr, refl, sym, ap, ◌∙◌, subst, true, Option, none, some, List, [], ◌∷◌, ◌++◌,
  append_assoc, append-nil, take, length, take-length,
}
use bep_rs.Prelude.Outcome.{Outcome, ok, err, panicked}
use bep_rs.Connection.Items.{Message, PeerConnectionError}
use bep_rs.Connection.Framing.{Wire, encode_message}
use bep_rs.Connection.Requests.{Pending, send_message, report_sent, close_receiver}
use bep_rs.Connection.Reading.{Exit, returned, waiting}
use bep_rs.Connection.Writing.{
  Sending, flushed, cut_after, unflushed, Event, submitted, received, closed, elapsed, cancelled,
  Writer, Result, write_message, write_taken, told_sent, afterwards, or_abandon, abandon,
  take_message, writing_loop,
}

-- A queued message: its bytes, and who wants to know that it was sent.
abbrev pub Queued : Type 0
Queued = List ℕ × Option ℕ

-- What the other tasks put into the queue, in order.
abbrev pub submissions : List Event → List Queued
submissions [] = []
submissions (submitted msg first_part ∷ events) = (msg, first_part) ∷ submissions events
submissions (received sending ∷ events) = submissions events
submissions (closed ∷ events) = submissions events
submissions (elapsed sending ∷ events) = submissions events
submissions (cancelled ∷ events) = submissions events

abbrev pub concat : List (List ℕ) → List ℕ
concat [] = []
concat (m ∷ ms) = m ++ concat ms

-- The bytes of the messages, with pings anywhere among them.
pub data Pinged (ping : List ℕ) : List Queued → List (List ℕ) → Type 0 where
  none_left : Pinged ping [] []
  said :
      {queue : List Queued} {ms : List (List ℕ)} (msg : List ℕ) (first_part : Option ℕ)
      → Pinged ping queue ms
      → Pinged ping ((msg, first_part) ∷ queue) (msg ∷ ms)
  pinged :
      {queue : List Queued} {ms : List (List ℕ)}
      → Pinged ping queue ms
      → Pinged ping queue (ping ∷ ms)

-- After the last whole message: nothing, unless the stream has failed; then as much of a ping or of the
-- next message as it has taken.
abbrev pub IsTail : List ℕ → List Queued → List ℕ → Outcome PeerConnectionError Exit → Type 0
IsTail ping left tail (ok exit) = tail ≡ []
IsTail ping left tail (err e) =
    (n : ℕ) × (next : List ℕ) × (tail ≡ take n next)
    × ((next ≡ ping)
        ⊎ ((first_part : Option ℕ) × (rest : List Queued) × (left ≡ (next, first_part) ∷ rest)))
IsTail ping left tail panicked = ⊥

-- The writer has taken the first of these messages and written them, from `before` on.
pub record Spoken (ping before : List ℕ) (messages : List Queued) (r : Result) : Type 0 where
  pub taken : List Queued
  pub left : List Queued
  pub texts : List (List ℕ)
  pub tail : List ℕ
  pub in_order : taken ++ left ≡ messages
  pub interleaved : Pinged ping taken texts
  pub on_stream : r.1.written ≡ before ++ (concat texts ++ tail)
  pub tail_is : IsTail ping left tail r.0
  pub remaining : r.0 ≡ ok waiting → r.1.pending.queue ≡ left

afterwards-written : (events : List Event) (w : Writer) → (afterwards events w).written ≡ w.written
unfolding afterwards
afterwards-written [] w = refl
afterwards-written (submitted msg fp ∷ events) w =
    afterwards-written events (record w { pending = send_message msg fp w.pending })
afterwards-written (received sending ∷ events) w = afterwards-written events w
afterwards-written (closed ∷ events) w = afterwards-written events w
afterwards-written (elapsed sending ∷ events) w = afterwards-written events w
afterwards-written (cancelled ∷ events) w = afterwards-written events w

report_sent_keeps :
    (first_part : Option ℕ) (s : Pending)
    → ((report_sent first_part s).queue ≡ s.queue)
      × ((report_sent first_part s).is_open ≡ s.is_open)
unfolding report_sent
report_sent_keeps none s = (refl, refl)
report_sent_keeps (some k) s = (refl, refl)

send_message_open :
    (msg : List ℕ) (first_part : Option ℕ) (s : Pending)
    → s.is_open ≡ true
    → ((send_message msg first_part s).queue ≡ s.queue ++ (msg, first_part) ∷ [])
      × ((send_message msg first_part s).is_open ≡ true)
unfolding send_message
send_message_open msg first_part s h = rw h (refl, refl)

module _ (ping : List ℕ) where
  say :
      (before msg : List ℕ) (first_part : Option ℕ) (messages : List Queued) (r : Result)
      → Spoken ping (before ++ msg) messages r
      → Spoken ping before ((msg, first_part) ∷ messages) r
  say before msg first_part messages r s = record {
    taken = (msg, first_part) ∷ s.taken;
    left = s.left;
    texts = msg ∷ s.texts;
    tail = s.tail;
    in_order = ap (λ t. (msg, first_part) ∷ t) s.in_order;
    interleaved = said msg first_part s.interleaved;
    on_stream =
        s.on_stream
        ∙ append_assoc before msg (concat s.texts ++ s.tail)
        ∙ ap (λ t. before ++ t) (sym (append_assoc msg (concat s.texts) s.tail));
    tail_is = s.tail_is;
    remaining = s.remaining;
  }

  say_ping :
      (before : List ℕ) (messages : List Queued) (r : Result)
      → Spoken ping (before ++ ping) messages r
      → Spoken ping before messages r
  say_ping before messages r s = record {
    taken = s.taken;
    left = s.left;
    texts = ping ∷ s.texts;
    tail = s.tail;
    in_order = s.in_order;
    interleaved = pinged s.interleaved;
    on_stream =
        s.on_stream
        ∙ append_assoc before ping (concat s.texts ++ s.tail)
        ∙ ap (λ t. before ++ t) (sym (append_assoc ping (concat s.texts) s.tail));
    tail_is = s.tail_is;
    remaining = s.remaining;
  }

  -- It ends, or waits, with no more of the messages taken.
  stop :
      (before tail : List ℕ) (messages : List Queued) (r : Result)
      → r.1.written ≡ before ++ tail
      → IsTail ping messages tail r.0
      → (r.0 ≡ ok waiting → r.1.pending.queue ≡ messages)
      → Spoken ping before messages r
  stop before tail messages r written tail_is remaining = record {
    taken = [];
    left = messages;
    texts = [];
    tail = tail;
    in_order = refl;
    interleaved = none_left;
    on_stream = written;
    tail_is = tail_is;
    remaining = remaining;
  }

  failed :
      (e : PeerConnectionError)
      → ◌≡◌ {A = Outcome PeerConnectionError Exit} (err e) (ok waiting)
      → ⊥
  failed e h = cc h

  -- A write that fails leaves a part of its message on the stream.
  write_message-Spoken :
      (events : List Event) (held : Option ℕ) (sending : Sending) (msg : List ℕ) (w : Writer)
      (next : Writer → Result) (messages : List Queued)
      → (msg ≡ ping)
        ⊎ ((first_part : Option ℕ) × (rest : List Queued) × (messages ≡ (msg, first_part) ∷ rest))
      → Spoken ping w.written messages (next (record w { written = w.written ++ msg }))
      → Spoken ping w.written messages (or_abandon events held (write_message sending msg w) next)
  unfolding write_message abandon
  write_message-Spoken events held flushed msg w next messages which rest = rest
  write_message-Spoken events held (cut_after n text) msg w next messages which rest =
      stop w.written (take n msg) messages
        (or_abandon events held (write_message (cut_after n text) msg w) next)
        (afterwards-written events (abandon held (write_message (cut_after n text) msg w).1))
        (n, msg, refl, which) (λ e. absurd (failed (PeerConnectionError.other text) e))
  write_message-Spoken events held (unflushed text) msg w next messages which rest =
      stop w.written msg messages
        (or_abandon events held (write_message (unflushed text) msg w) next)
        (afterwards-written events (abandon held (write_message (unflushed text) msg w).1))
        (length msg, msg, sym (take-length msg), which)
        (λ e. absurd (failed (PeerConnectionError.other text) e))

  -- What is promised of the rounds that follow, from any state on.
  abbrev Continues : List Queued → (Writer → Result) → Type 0
  Continues later next =
      (w : Writer)
      → w.pending.is_open ≡ true
      → Spoken ping w.written (w.pending.queue ++ later) (next w)

  told-Spoken :
      (later : List Queued) (next : Writer → Result) (first_part : Option ℕ) (w : Writer)
      → Continues later next
      → w.pending.is_open ≡ true
      → Spoken ping w.written (w.pending.queue ++ later) (next (told_sent first_part w))
  told-Spoken later next first_part w continues open_ =
      let (same, still) = report_sent_keeps first_part w.pending in
      subst (λ queue. Spoken ping w.written (queue ++ later) (next (told_sent first_part w))) same
        (continues (told_sent first_part w) (still ∙ open_))

  take_message-Spoken :
      (events : List Event) (sending : Sending) (queue later : List Queued) (w : Writer)
      (next : Writer → Result)
      → Continues later next
      → w.pending.is_open ≡ true
      → w.pending.queue ≡ queue
      → Spoken ping w.written (queue ++ later) (take_message events sending queue w next)
  unfolding take_message write_taken
  take_message-Spoken events sending [] later w next continues open_ same =
      subst (λ q. Spoken ping w.written (q ++ later) (next w)) same (continues w open_)
  take_message-Spoken events sending (([], first_part) ∷ queue) later w next continues open_ same =
      let w' : Writer = record w { pending = record (w.pending) { queue = queue } } in
      say w.written [] first_part (queue ++ later) (next (told_sent first_part w')) (
        subst (λ before. Spoken ping before (queue ++ later) (next (told_sent first_part w')))
          (sym (append-nil w.written)) (told-Spoken later next first_part w' continues open_))
  take_message-Spoken events sending ((c ∷ msg, first_part) ∷ queue) later w next continues open_
        same =
      let w' : Writer = record w { pending = record (w.pending) { queue = queue } } in
      write_message-Spoken events first_part sending (c ∷ msg) w'
        (λ v. next (told_sent first_part v)) ((c ∷ msg, first_part) ∷ (queue ++ later))
        (inr (first_part, queue ++ later, refl))
        (say w.written (c ∷ msg) first_part (queue ++ later)
          (next (told_sent first_part (record w' { written = w.written ++ c ∷ msg })))
          (told-Spoken later next first_part (record w' { written = w.written ++ c ∷ msg })
            continues open_))

module _ (wire : Wire) where
  abbrev ping_bytes : List ℕ
  ping_bytes = encode_message wire Message.ping

  ended_not_waiting : ◌≡◌ {A = Outcome PeerConnectionError Exit} (ok returned) (ok waiting) → ⊥
  ended_not_waiting h = cc h

  closed-Spoken :
      (events : List Event) (w w' : Writer) (messages : List Queued)
      → w'.written ≡ w.written
      → Spoken ping_bytes w.written messages (ok returned, afterwards events w')
  closed-Spoken events w w' messages same =
      stop ping_bytes w.written [] messages (ok returned, afterwards events w')
        (afterwards-written events w' ∙ same ∙ sym (append-nil w.written)) refl
        (λ e. absurd (ended_not_waiting e))

  -- The writer takes the messages in the order in which the tasks queued them, and puts the bytes of each
  -- on the stream as a whole, with pings anywhere among them and nothing else. If the stream fails, only
  -- as much of a ping or of the next message stands after them as the stream has taken; while the writer
  -- waits, exactly the other messages are in the queue. It never panics.
  pub writing_loop-Spoken :
      (events : List Event) (w : Writer)
      → w.pending.is_open ≡ true
      → Spoken
          (encode_message wire Message.ping)
          w.written
          (w.pending.queue ++ submissions events)
          (writing_loop wire events w)
  unfolding writing_loop
  writing_loop-Spoken [] w open_ =
      stop ping_bytes w.written [] (w.pending.queue ++ []) (ok waiting, w)
        (sym (append-nil w.written)) refl (λ e. sym (append-nil w.pending.queue))
  writing_loop-Spoken (submitted msg first_part ∷ events) w open_ =
      let w' : Writer = record w { pending = send_message msg first_part w.pending } in
      let (queued, still) = send_message_open msg first_part w.pending open_ in
      subst (λ messages. Spoken ping_bytes w.written messages (writing_loop wire events w'))
        (ap (λ q. q ++ submissions events) queued
          ∙ append_assoc w.pending.queue ((msg, first_part) ∷ []) (submissions events))
        (writing_loop-Spoken events w' still)
  writing_loop-Spoken (received sending ∷ events) w open_ =
      take_message-Spoken ping_bytes events sending w.pending.queue (submissions events) w
        (writing_loop wire events) (writing_loop-Spoken events) open_ refl
  writing_loop-Spoken (closed ∷ events) w open_ =
      closed-Spoken events w (record w { pending = close_receiver w.pending })
        (w.pending.queue ++ submissions events) refl
  writing_loop-Spoken (elapsed sending ∷ events) w open_ =
      let later = w.pending.queue ++ submissions events in
      write_message-Spoken ping_bytes events none sending ping_bytes w (writing_loop wire events)
        later (inl refl)
        (say_ping ping_bytes w.written later
          (writing_loop wire events (record w { written = w.written ++ ping_bytes }))
          (writing_loop-Spoken events (record w { written = w.written ++ ping_bytes }) open_))
  writing_loop-Spoken (cancelled ∷ events) w open_ =
      closed-Spoken events w (record w { pending = close_receiver w.pending })
        (w.pending.queue ++ submissions events) refl
