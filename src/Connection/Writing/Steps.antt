-- ===== src/Connection/Writing/Steps.antt =====
-- The writer's work as steps that interleave with those of the other tasks
-- (src/peer_connection/handlers.rs, `handle_writing`).
use bep_rs.Prelude.{
  ℕ, ◌≡◌, refl, sym, subst, false, Option, none, some, List, [], ◌∷◌, ◌++◌, append_assoc,
}
use bep_rs.Prelude.Int.{ℤ}
use bep_rs.Prelude.Outcome.{Outcome, ok, err, panicked}
use bep_rs.State.Monad.{Sql, BepState}
use bep_rs.Connection.Items.{Message, ClusterConfig, PeerConnectionError}
use bep_rs.Connection.Framing.{Wire, encode_message, send_hello, hello_of}
use bep_rs.Connection.Cluster.{generate_cluster_config}
use bep_rs.Connection.Requests.{
  PeerRequestResponse, Pending, drop_sender, close_queue, close_receiver, send_message, report_sent,
}
use bep_rs.Connection.Requests.Runs.{Run, sends, takes, tells, drops, closes, loses_queue}
use bep_rs.Connection.Writing.{
  Sending, flushed, cut_after, unflushed, Event, submitted, received, closed, elapsed, cancelled,
  Writer, Result, write_message, write_taken, told_sent, afterwards, or_abandon, abandon,
  drop_receiver, take_message, writing_loop, write_all, write_config, handle_writing,
}

-- The senders that other tasks hold, and will put into the queue with their messages.
abbrev pub senders : List Event → List ℕ
senders [] = []
senders (submitted msg first_part ∷ events) = drop_sender first_part ++ senders events
senders (received sending ∷ events) = senders events
senders (closed ∷ events) = senders events
senders (elapsed sending ∷ events) = senders events
senders (cancelled ∷ events) = senders events

module _ (hs held : List ℕ) where
  abbrev Reaches : Pending → List ℕ → Type 0
  Reaches s own = Run hs (record { pending = s; held = own })

  close_queue-Reaches :
      (queue : List (List ℕ × Option ℕ)) (s : Pending) (own : List ℕ)
      → Reaches (record s { queue = queue; is_open = false }) own
      → Reaches (close_queue queue (record s { queue = []; is_open = false })) own
  unfolding close_queue
  close_queue-Reaches [] s own run = run
  close_queue-Reaches ((msg, none) ∷ queue) s own run =
      close_queue-Reaches queue s own (takes msg none queue run refl)
  close_queue-Reaches ((msg, some k) ∷ queue) s own run =
      close_queue-Reaches queue
        (record s { answered = s.answered ++ (k, PeerRequestResponse.closed) ∷ [] }) own
        (tells k PeerRequestResponse.closed [] own (takes msg (some k) queue run refl) refl)

  close_receiver-Reaches :
      (s : Pending) (own : List ℕ) → Reaches s own → Reaches (close_receiver s) own
  unfolding close_receiver
  close_receiver-Reaches s own run = close_queue-Reaches s.queue s own (closes run)

  drop_receiver-Reaches :
      (first_part : Option ℕ) (s : Pending) (own : List ℕ)
      → Reaches s (drop_sender first_part ++ own)
      → Reaches (drop_receiver first_part s) own
  unfolding drop_receiver
  drop_receiver-Reaches none s own run = loses_queue run
  drop_receiver-Reaches (some k) s own run =
      subst (λ dropped. Reaches (record s { queue = []; is_open = false; cancelled = dropped }) own)
        (append_assoc s.cancelled (k ∷ []) _) (loses_queue (drops k [] own run refl))

  write_message-Reaches :
      (sending : Sending) (msg : List ℕ) (w : Writer) (own : List ℕ)
      → Reaches w.pending own
      → Reaches (write_message sending msg w).1.pending own
  unfolding write_message
  write_message-Reaches flushed msg w own run = run
  write_message-Reaches (cut_after n text) msg w own run = close_receiver-Reaches w.pending own run
  write_message-Reaches (unflushed text) msg w own run = run

  write_taken-Reaches :
      (sending : Sending) (msg : List ℕ) (w : Writer) (own : List ℕ)
      → Reaches w.pending own
      → Reaches (write_taken sending msg w).1.pending own
  unfolding write_taken
  write_taken-Reaches sending [] w own run = run
  write_taken-Reaches sending (b ∷ msg) w own run =
      write_message-Reaches sending (b ∷ msg) w own run

  told_sent-Reaches :
      (first_part : Option ℕ) (w : Writer) (own : List ℕ)
      → Reaches w.pending (drop_sender first_part ++ own)
      → Reaches (told_sent first_part w).pending own
  unfolding report_sent
  told_sent-Reaches none w own run = run
  told_sent-Reaches (some k) w own run = tells k PeerRequestResponse.sent [] own run refl

  send-Reaches :
      (msg : List ℕ) (first_part : Option ℕ) (events : List Event) (s : Pending)
      → Reaches s ((drop_sender first_part ++ senders events) ++ held)
      → Reaches (send_message msg first_part s) (senders events ++ held)
  send-Reaches msg first_part events s run =
      sends msg first_part [] (senders events ++ held) run
        (append_assoc (drop_sender first_part) (senders events) held)

  afterwards-Reaches :
      (events : List Event) (w : Writer)
      → Reaches w.pending (senders events ++ held)
      → Reaches (afterwards events w).pending held
  unfolding afterwards
  afterwards-Reaches [] w run = run
  afterwards-Reaches (submitted msg first_part ∷ events) w run =
      afterwards-Reaches events _ (send-Reaches msg first_part events w.pending run)
  afterwards-Reaches (received sending ∷ events) w run = afterwards-Reaches events w run
  afterwards-Reaches (closed ∷ events) w run = afterwards-Reaches events w run
  afterwards-Reaches (elapsed sending ∷ events) w run = afterwards-Reaches events w run
  afterwards-Reaches (cancelled ∷ events) w run = afterwards-Reaches events w run

  abandon-Reaches :
      (events : List Event) (first_part : Option ℕ) (w : Writer)
      → Reaches w.pending (drop_sender first_part ++ (senders events ++ held))
      → Reaches (afterwards events (abandon first_part w)).pending held
  unfolding abandon
  abandon-Reaches events first_part w run =
      afterwards-Reaches events _
        (drop_receiver-Reaches first_part w.pending (senders events ++ held) run)

  -- Whatever `?` does, if what follows does well.
  or_abandon-Reaches :
      (events : List Event) (first_part : Option ℕ)
      (out : Outcome PeerConnectionError (Unit {0}) × Writer) (next : Writer → Result)
      → Reaches out.1.pending (drop_sender first_part ++ (senders events ++ held))
      → ((w : Writer)
          → Reaches w.pending (drop_sender first_part ++ (senders events ++ held))
          → Reaches (next w).1.pending held)
      → Reaches (or_abandon events first_part out next).1.pending held
  or_abandon-Reaches events first_part (ok u, w) next run follow = follow w run
  or_abandon-Reaches events first_part (err e, w) next run follow =
      abandon-Reaches events first_part w run
  or_abandon-Reaches events first_part (panicked, w) next run follow =
      abandon-Reaches events first_part w run

  take_message-Reaches :
      (events : List Event) (sending : Sending) (queue : List (List ℕ × Option ℕ)) (w : Writer)
      (next : Writer → Result)
      → w.pending.queue ≡ queue
      → Reaches w.pending (senders events ++ held)
      → ((w' : Writer)
          → Reaches w'.pending (senders events ++ held)
          → Reaches (next w').1.pending held)
      → Reaches (take_message events sending queue w next).1.pending held
  unfolding take_message
  take_message-Reaches events sending [] w next e run follow = follow w run
  take_message-Reaches events sending ((msg, first_part) ∷ queue) w next e run follow =
      let own = drop_sender first_part ++ (senders events ++ held) in
      or_abandon-Reaches events first_part _ _
        (write_taken-Reaches sending msg _ own (takes msg first_part queue run e))
        (λ w' run'.
          follow (told_sent first_part w')
            (told_sent-Reaches first_part w' (senders events ++ held) run'))

  module _ (wire : Wire) where
    writing_loop-Reaches :
        (events : List Event) (w : Writer)
        → Reaches w.pending (senders events ++ held)
        → Reaches (writing_loop wire events w).1.pending held
    unfolding writing_loop
    writing_loop-Reaches [] w run = run
    writing_loop-Reaches (submitted msg first_part ∷ events) w run =
        writing_loop-Reaches events _ (send-Reaches msg first_part events w.pending run)
    writing_loop-Reaches (received sending ∷ events) w run =
        take_message-Reaches events sending w.pending.queue w (writing_loop wire events) refl run
          (writing_loop-Reaches events)
    writing_loop-Reaches (closed ∷ events) w run =
        afterwards-Reaches events _ (close_receiver-Reaches w.pending (senders events ++ held) run)
    writing_loop-Reaches (elapsed sending ∷ events) w run =
        or_abandon-Reaches events none _ (writing_loop wire events)
          (write_message-Reaches sending (encode_message wire Message.ping) w
            (senders events ++ held) run)
          (writing_loop-Reaches events)
    writing_loop-Reaches (cancelled ∷ events) w run =
        afterwards-Reaches events _ (close_receiver-Reaches w.pending (senders events ++ held) run)

    write_config-Reaches :
        (sending : Sending) (config : Option ClusterConfig) (events : List Event) (w : Writer)
        → Reaches w.pending (senders events ++ held)
        → Reaches (write_config wire sending config events w).1.pending held
    unfolding write_config
    write_config-Reaches sending none events w run = abandon-Reaches events none w run
    write_config-Reaches sending (some config) events w run =
        or_abandon-Reaches events none _ (writing_loop wire events)
          (write_message-Reaches sending (encode_message wire (Message.cluster_config config)) w
            (senders events ++ held) run)
          (writing_loop-Reaches events)

write_all-pending :
    (sending : Sending) (msg : List ℕ) (w : Writer)
    → (write_all sending msg w).1.pending ≡ w.pending
unfolding write_all
write_all-pending flushed msg w = refl
write_all-pending (cut_after n text) msg w = refl
write_all-pending (unflushed text) msg w = refl

-- The writer keeps to the steps of a connection: where a state is reached in which the tasks hold the
-- senders that they will submit and some others, the state after the writer's work is reached too, and in
-- it the tasks hold the others and no more. This holds for whatever the writer's waits end with, for its
-- errors (a stream or a flush that fails, while a message is written too) and for its panic.
pub handle_writing-Run :
    (wire : Wire) (S : Sql) (sha256 : List ℕ → List ℕ) (peer_id name : List ℕ) (timestamp : ℤ)
    (greeting configuring : Sending) (events : List Event) (s : BepState S) (w : Writer)
    (hs held : List ℕ)
    → Run hs (record { pending = w.pending; held = senders events ++ held })
    → Run hs (record {
      pending =
          (handle_writing wire S sha256 peer_id name timestamp greeting configuring events s
            w).1.pending;
      held = held;
    })
unfolding handle_writing
handle_writing-Run wire S sha256 peer_id name timestamp greeting configuring events s w hs held
      run =
    or_abandon-Reaches hs held events none _ _
      (subst (λ p. Run hs (record { pending = p; held = senders events ++ held }))
        (sym (write_all-pending greeting (send_hello wire (hello_of name timestamp)) w)) run)
      (write_config-Reaches hs held wire configuring (generate_cluster_config S sha256 peer_id s).0
        events)
