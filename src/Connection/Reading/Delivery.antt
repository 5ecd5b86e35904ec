-- ===== src/Connection/Reading/Delivery.antt =====
-- What the reader does with the bytes that a writer sends (src/peer_connection/handlers.rs and
-- src/peer_connection/items.rs).
use bep_rs.Prelude.{
  ℕ, ◌^◌, ◌<◌, ◌≡◌, refl, Bool, true, false, List, [], ◌∷◌, ◌++◌, append_assoc, replicate, length,
  All,
}
use bep_rs.Prelude.Outcome.{Outcome, ok, err, panicked}
use bep_rs.State.Monad.{Sql}
use bep_rs.Connection.Items.{Message, PeerConnectionError, Hello}
use bep_rs.Connection.Framing.{Wire, encode_message, send_hello}
use bep_rs.Connection.Framing.RoundTrip.{IsWritable, read_message-encode_message}
use bep_rs.Connection.Framing.Greeting.{receive_hello-send_hello}
use bep_rs.Connection.Reading.{
  Wait, ready, Session, Exit, after, dispatch, read_loop, handle_reading,
}

-- The bytes of messages that are written one after the other.
abbrev pub encode_all : Wire → List Message → List ℕ
encode_all wire [] = []
encode_all wire (m ∷ ms) = encode_message wire m ++ encode_all wire ms

module _ (S : Sql) (wire : Wire) (peer_id : List ℕ) where
  -- The messages handled in order, until one ends the loop; after the last, `next`.
  abbrev pub handle_all :
      List Message
      → (Session S → Outcome PeerConnectionError Exit × Session S)
      → Session S
      → Outcome PeerConnectionError Exit × Session S
  handle_all [] next s = next s
  handle_all (m ∷ ms) next s = after (dispatch S wire peer_id m s) (handle_all ms next)

  pub after_ext :
      (o : Outcome PeerConnectionError Bool × Session S)
      (f g : Session S → Outcome PeerConnectionError Exit × Session S)
      → ((s : Session S) → f s ≡ g s)
      → after o f ≡ after o g
  after_ext (ok true, s) f g h = refl
  after_ext (ok false, s) f g h = h s
  after_ext (err e, s) f g h = refl
  after_ext (panicked, s) f g h = refl

  read_loop-encode_all :
      (ms : List Message) (waits : List Wait) (rest : List ℕ) (s : Session S)
      → All (IsWritable wire) ms
      → read_loop S wire peer_id
          (replicate (length ms) ready ++ waits)
          (encode_all wire ms ++ rest)
          s
        ≡ handle_all ms (read_loop S wire peer_id waits rest) s
  unfolding read_loop
  read_loop-encode_all [] waits rest s h = refl
  read_loop-encode_all (m ∷ ms) waits rest s h =
      rw (append_assoc (encode_message wire m) (encode_all wire ms) rest) (
        rw (read_message-encode_message wire m (encode_all wire ms ++ rest) h.0, read_loop)
          (after_ext (dispatch S wire peer_id m s)
            (read_loop S wire peer_id (replicate (length ms) ready ++ waits)
              (encode_all wire ms ++ rest))
            (handle_all ms (read_loop S wire peer_id waits rest))
            (λ s'. read_loop-encode_all ms waits rest s' h.1)))

  -- A reader that is given the bytes of a hello and of messages that can be sent, and is never
  -- cancelled while it waits for them, handles exactly these messages, in the order in which they
  -- were written, until one of them ends the loop; then it goes on with what follows.
  pub handle_reading-encode_all :
      (hello : Hello) (ms : List Message) (waits : List Wait) (rest : List ℕ) (s : Session S)
      → wire.hello.decode (wire.hello.encode hello) ≡ ok hello
      → length (wire.hello.encode hello) < 2 ^ 16
      → All (IsWritable wire) ms
      → handle_reading S wire peer_id
          (replicate (length ms) ready ++ waits)
          (send_hello wire hello ++ (encode_all wire ms ++ rest))
          s
        ≡ handle_all ms (read_loop S wire peer_id waits rest) s
  unfolding handle_reading
  handle_reading-encode_all hello ms waits rest s decoded_back fits h =
      rw
        (
          receive_hello-send_hello wire hello (encode_all wire ms ++ rest) decoded_back fits,
          handle_reading,
        )
        (read_loop-encode_all ms waits rest s h)
