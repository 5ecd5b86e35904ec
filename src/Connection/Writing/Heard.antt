-- ===== src/Connection/Writing/Heard.antt =====
-- What one device writes (src/peer_connection/handlers.rs, `handle_writing`), read by the other
-- (`handle_reading`).
use bep_rs.Prelude.{
  ℕ, suc, ◌^◌, ◌<◌, ◌≡◌, refl, sym, ap, subst, ◌∙◌, true, Option, none, some, List, [], ◌∷◌, ◌++◌,
  map, append_assoc, append-nil, All-take, take, drop, map-take, map-drop, length, take-append,
  drop-append, take-append-drop, All, replicate,
}
use bep_rs.Prelude.Int.{ℤ}
use bep_rs.Prelude.Outcome.{Outcome, ok}
use bep_rs.State.Monad.{Sql, BepState}
use bep_rs.Connection.Items.{Message, ClusterConfig, PeerConnectionError}
use bep_rs.Connection.Framing.{Wire, hello_of, encode_message, send_hello}
use bep_rs.Connection.Framing.RoundTrip.{IsWritable}
use bep_rs.Connection.Requests.{Pending}
use bep_rs.Connection.Cluster.{generate_cluster_config}
use bep_rs.Connection.Reading.{
  Wait, ready, Session, Exit, waiting, dispatch, read_loop, handle_reading,
}
use bep_rs.Connection.Reading.Delivery.{
  encode_all, handle_all, after_ext, handle_reading-encode_all,
}
use bep_rs.Connection.Writing.{
  flushed, Event, Writer, write_all, write_message, write_config, handle_writing,
}
use bep_rs.Connection.Writing.Order.{
  Queued, submissions, concat, Pinged, none_left, said, pinged, Spoken, writing_loop-Spoken,
}

-- A message that was submitted, or nothing but the question whether the connection is ready; and who
-- wants to know that it was sent.
abbrev pub Submitted : Type 0
Submitted = Option Message × Option ℕ

module _ (wire : Wire) where
  -- Its bytes; none at all for the question.
  abbrev pub as_queued : Submitted → Queued
  as_queued (none, first_part) = ([], first_part)
  as_queued (some m, first_part) = (encode_message wire m, first_part)

  abbrev pub IsSendable : Submitted → Type 0
  IsSendable (none, first_part) = Unit
  IsSendable (some m, first_part) = IsWritable wire m

abbrev pub messages_of : List Submitted → List Message
messages_of [] = []
messages_of ((none, first_part) ∷ sent) = messages_of sent
messages_of ((some m, first_part) ∷ sent) = m ∷ messages_of sent

module _ (S : Sql) (wire : Wire) (peer_id : List ℕ) where
  -- The texts are those of messages, which the reader handles like the messages without the pings.
  abbrev Understood : List (List ℕ) → List Message → Type 0
  Understood texts sent =
      (ms : List Message) × (concat texts ≡ encode_all wire ms)
      × All (IsWritable wire) ms
      × ((next : Session S → Outcome PeerConnectionError Exit × Session S) (s : Session S)
          → handle_all S wire peer_id ms next s ≡ handle_all S wire peer_id sent next s)

  Understood-more :
      (m : Message) (texts : List (List ℕ)) (sent : List Message)
      → IsWritable wire m
      → Understood texts sent
      → Understood (encode_message wire m ∷ texts) (m ∷ sent)
  Understood-more m texts sent writable (ms, same, all, handled) = (
    m ∷ ms,
    ap (λ t. encode_message wire m ++ t) same,
    (writable, all),
    λ next s.
        after_ext S wire peer_id (dispatch S wire peer_id m s) (handle_all S wire peer_id ms next)
          (handle_all S wire peer_id sent next) (handled next),
  )

  Understood-ping :
      (texts : List (List ℕ)) (sent : List Message)
      → IsWritable wire Message.ping
      → Understood texts sent
      → Understood (encode_message wire Message.ping ∷ texts) sent
  unfolding dispatch
  Understood-ping texts sent writable (ms, same, all, handled) = (
    Message.ping ∷ ms,
    ap (λ t. encode_message wire Message.ping ++ t) same,
    (writable, all),
    handled,
  )

  Pinged-Understood :
      {queue : List Queued} {texts : List (List ℕ)} (sent : List Submitted)
      → Pinged (encode_message wire Message.ping) queue texts
      → queue ≡ map (as_queued wire) sent
      → IsWritable wire Message.ping
      → All (IsSendable wire) sent
      → Understood texts (messages_of sent)
  Pinged-Understood [] none_left e ping all = ([], refl, tt, λ next s. refl)
  Pinged-Understood (x ∷ sent) none_left e ping all = absurd (cc e)
  Pinged-Understood [] (said msg first_part p) e ping all = absurd (cc e)
  Pinged-Understood ((none, asked) ∷ sent) (said {ms = texts} msg first_part p) e ping all =
      let none_said : msg ≡ [] = cc e in
      let rest : Understood texts (messages_of sent) = Pinged-Understood sent p (cc e) ping all.1 in
      subst (λ t. Understood (t ∷ texts) (messages_of sent)) (sym none_said) rest
  Pinged-Understood ((some m, asked) ∷ sent) (said {ms = texts} msg first_part p) e ping all =
      let this : msg ≡ encode_message wire m = cc e in
      let rest : Understood texts (messages_of sent) = Pinged-Understood sent p (cc e) ping all.1 in
      subst (λ t. Understood (t ∷ texts) (m ∷ messages_of sent)) (sym this)
        (Understood-more m texts (messages_of sent) all.0 rest)
  Pinged-Understood sent (pinged {ms = texts} p) e ping all =
      Understood-ping texts (messages_of sent) ping (Pinged-Understood sent p e ping all)

module _ (wire : Wire) (sent : List Submitted) (taken left : List Queued)
    (split : taken ++ left ≡ map (as_queued wire) sent) where
  taken_sent : List Submitted
  taken_sent = take (length taken) sent

  left_sent : List Submitted
  left_sent = drop (length taken) sent

  taken-map : taken ≡ map (as_queued wire) taken_sent
  unfolding taken_sent
  taken-map = sym (
      map-take (as_queued wire) (length taken) sent
      ∙ ap (take (length taken)) (sym split)
      ∙ take-append taken left)

  left-map : left ≡ map (as_queued wire) left_sent
  unfolding left_sent
  left-map = sym (
      map-drop (as_queued wire) (length taken) sent
      ∙ ap (drop (length taken)) (sym split)
      ∙ drop-append taken left)

-- What the stream holds after the greeting, the configuration and the messages.
on_stream_lem :
    (wire : Wire) (hello config text more all rest : List ℕ)
    → all ≡ (([] ++ hello) ++ config) ++ (text ++ [])
    → text ≡ more
    → all ++ rest ≡ hello ++ ((config ++ more) ++ rest)
on_stream_lem wire hello config text more all rest e f = rw (
  e,
  f,
  append-nil more,
  append_assoc hello config more,
  append_assoc hello (config ++ more) rest,
)

-- What a device says on a connection that is still open or was closed in order: these messages, from
-- this configuration on, and the messages that are left are in the queue while it waits. Another device
-- that reads the stream, with whatever follows on it, handles exactly them.
abbrev pub IsHeard :
    (R : Sql) (wire : Wire) (peer_id : List ℕ)
    → ClusterConfig
    → List Submitted
    → Exit
    → Writer
    → Type 0
IsHeard R wire peer_id config sent exit w =
    (done : List Submitted) × (left : List Submitted) × (n : ℕ) × (done ++ left ≡ sent)
    × (exit ≡ waiting → w.pending.queue ≡ map (as_queued wire) left)
    × ((waits : List Wait) (rest : List ℕ) (session : Session R)
        → handle_reading R wire peer_id (replicate n ready ++ waits) (w.written ++ rest) session
          ≡ handle_all R wire peer_id (Message.cluster_config config ∷ messages_of done)
              (read_loop R wire peer_id waits rest) session)

module _ (R : Sql) (wire : Wire) (reader_id : List ℕ) (name : List ℕ) (timestamp : ℤ)
    (config : ClusterConfig)
    (decoded_back : wire.hello.decode (wire.hello.encode (hello_of name timestamp))
      ≡ ok (hello_of name timestamp))
    (fits : length (wire.hello.encode (hello_of name timestamp)) < 2 ^ 16)
    (sendable : IsWritable wire (Message.cluster_config config)) where
  abbrev hello_bytes : List ℕ
  hello_bytes = send_hello wire (hello_of name timestamp)

  abbrev config_bytes : List ℕ
  config_bytes = encode_message wire (Message.cluster_config config)

  Understood-IsHeard :
      (sent done left : List Submitted) (texts : List (List ℕ)) (exit : Exit) (w : Writer)
      → done ++ left ≡ sent
      → (exit ≡ waiting → w.pending.queue ≡ map (as_queued wire) left)
      → w.written ≡ (([] ++ hello_bytes) ++ config_bytes) ++ (concat texts ++ [])
      → Understood R wire reader_id texts (messages_of done)
      → IsHeard R wire reader_id config sent exit w
  Understood-IsHeard sent done left texts exit w split remaining written (ms, same, all, handled) =
      (
        done,
        left,
        suc (length ms),
        split,
        remaining,
        λ waits rest session.
            let said_ms : List Message = Message.cluster_config config ∷ ms in
            ap
              (λ stream.
                handle_reading R wire reader_id (replicate (length said_ms) ready ++ waits) stream
                  session)
              (on_stream_lem wire hello_bytes config_bytes (concat texts) (encode_all wire ms)
                w.written rest written same)
            ∙ handle_reading-encode_all R wire reader_id (hello_of name timestamp) said_ms waits
                rest session decoded_back fits (sendable, all)
            ∙ after_ext R wire reader_id
                (dispatch R wire reader_id (Message.cluster_config config) session)
                (handle_all R wire reader_id ms (read_loop R wire reader_id waits rest))
                (handle_all R wire reader_id (messages_of done)
                  (read_loop R wire reader_id waits rest))
                (handled (read_loop R wire reader_id waits rest)),
      )

  Spoken-IsHeard :
      (sent : List Submitted) (messages : List Queued) (exit : Exit) (w : Writer)
      → messages ≡ map (as_queued wire) sent
      → IsWritable wire Message.ping
      → All (IsSendable wire) sent
      → Spoken
          (encode_message wire Message.ping)
          (([] ++ hello_bytes) ++ config_bytes)
          messages
          (ok exit, w)
      → IsHeard R wire reader_id config sent exit w
  unfolding taken_sent left_sent
  Spoken-IsHeard sent messages exit w is_sent ping all s =
      let split : s.taken ++ s.left ≡ map (as_queued wire) sent = s.in_order ∙ is_sent in
      Understood-IsHeard sent (taken_sent wire sent s.taken s.left split)
        (left_sent wire sent s.taken s.left split) s.texts exit w
        (take-append-drop (length s.taken) sent)
        (λ e. s.remaining (ap (λ x. ok x) e) ∙ left-map wire sent s.taken s.left split)
        (s.on_stream
          ∙ ap (λ t. (([] ++ hello_bytes) ++ config_bytes) ++ (concat s.texts ++ t)) s.tail_is)
        (Pinged-Understood R wire reader_id (taken_sent wire sent s.taken s.left split)
          s.interleaved (taken-map wire sent s.taken s.left split) ping
          (All-take (IsSendable wire) (length s.taken) sent all))

-- What one device submits to a connection is what the other handles. A writer that has a cluster
-- configuration, starts on a stream with nothing written on it, and works until it waits or ends without
-- an error, has written it, the first of the messages that the tasks submitted, in their order and with
-- whatever pings between them, and nothing else; while it waits, exactly the other messages are in the
-- queue. A reader of these bytes handles exactly the configuration and those messages, in that order,
-- and goes on with what follows. The messages and the hello are ones whose generated encoding is
-- faithful.
pub handle_writing-IsHeard :
    (R S : Sql) (wire : Wire) (sha256 : List ℕ → List ℕ) (peer_id reader_id name : List ℕ)
    (timestamp : ℤ) (config : ClusterConfig) (sent : List Submitted) (events : List Event)
    (s : BepState S) (pending : Pending) (exit : Exit) (w : Writer)
    → wire.hello.decode (wire.hello.encode (hello_of name timestamp)) ≡ ok (hello_of name timestamp)
    → length (wire.hello.encode (hello_of name timestamp)) < 2 ^ 16
    → IsWritable wire (Message.cluster_config config)
    → IsWritable wire Message.ping
    → All (IsSendable wire) sent
    → pending.is_open ≡ true
    → pending.queue ++ submissions events ≡ map (as_queued wire) sent
    → (generate_cluster_config S sha256 peer_id s).0 ≡ some config
    → handle_writing wire S sha256 peer_id name timestamp flushed flushed events s
        (record { pending = pending; written = [] })
      ≡ (ok exit, w)
    → IsHeard R wire reader_id config sent exit w
unfolding handle_writing write_all write_config write_message
handle_writing-IsHeard R S wire sha256 peer_id reader_id name timestamp config sent events s pending
      exit w decoded_back fits sendable ping all open_ submitted generated e =
    let started : Writer = record {
      pending = pending;
      written =
          ([] ++ send_hello wire (hello_of name timestamp))
          ++ encode_message wire (Message.cluster_config config);
    } in
    Spoken-IsHeard R wire reader_id name timestamp config decoded_back fits sendable sent
      (pending.queue ++ submissions events) exit w submitted ping all
      (subst
        (Spoken (encode_message wire Message.ping) started.written
          (pending.queue ++ submissions events))
        (rw (generated, handle_writing) at e) (writing_loop-Spoken wire events started open_))
