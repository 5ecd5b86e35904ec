-- ===== src/Connection/Framing.antt =====
-- Messages as bytes (src/peer_connection/items.rs), and how the reader takes one from its stream
-- (src/peer_connection/handlers.rs, `handle_reading`). The stream is the list of the bytes that
-- are still to come before the peer closes it.
pub mod RoundTrip
pub mod Greeting
pub mod Cut
use bep_rs.Prelude.{
  ℕ, ◌+◌, ◌*◌, ◌/◌, ◌%◌, ◌^◌, ◌==◌, not, ltb, Bool, true, false, if◌then◌else◌, Option, none, some,
  List, [], ◌∷◌, ◌++◌, length, take, drop, codes,
}
use bep_rs.Prelude.Int.{ℤ, pos, ◌==ℤ◌}
use bep_rs.Prelude.Outcome.{Outcome, ok, err, panicked, ◌>>=◌}
use bep_rs.Connection.Items.{
  PeerConnectionError, Hello, Header, Message, MessageType, type_code, Request, Response, Index,
  IndexUpdate, ClusterConfig, Close,
}

-- The encoding of one kind of message, generated for the crate prost. `decode` gives the text of
-- its error.
pub record Codec {ℓ} (A : Type ℓ) : Type ℓ where
  pub encode : A → List ℕ
  pub decode : List ℕ → Outcome (List ℕ) A

-- The generated encodings, the decompression of the crate lz4_flex, and the text of the error that
-- the crate tokio gives where a stream ends too early.
pub record Wire : Type 0 where
  pub hello : Codec Hello
  pub header : Codec Header
  pub cluster_config : Codec ClusterConfig
  pub index : Codec Index
  pub index_update : Codec IndexUpdate
  pub request : Codec Request
  pub response : Codec Response
  pub ping : Codec (Unit {0})
  pub close : Codec Close
  pub decompress_size_prepended : List ℕ → Option (List ℕ)
  pub early_eof : List ℕ

-- `u16::to_be_bytes` and `u32::to_be_bytes` of a cast length.
unfoldable pub u16_to_be_bytes : ℕ → List ℕ
u16_to_be_bytes n = n % 2 ^ 16 / 256 ∷ n % 256 ∷ []

unfoldable pub u32_to_be_bytes : ℕ → List ℕ
u32_to_be_bytes n = n % 2 ^ 32 / 2 ^ 24 ∷ n % 2 ^ 24 / 2 ^ 16 ∷ n % 2 ^ 16 / 256 ∷ n % 256 ∷ []

unfoldable pub from_be_bytes : ℕ → List ℕ → ℕ
from_be_bytes acc [] = acc
from_be_bytes acc (b ∷ bytes) = from_be_bytes (acc * 256 + b) bytes

abbrev pub hello_magic : ℕ
hello_magic = 0x2EA7D90B

abbrev pub Parser {ℓ} : Type ℓ → Type ℓ
Parser A = List ℕ → Outcome PeerConnectionError (A × List ℕ)

-- Compression is one of the two that are known.
unfoldable pub is_compressed : ℤ → Outcome PeerConnectionError Bool
is_compressed c =
    if c ==ℤ pos 0
    then ok false
    else if c ==ℤ pos 1
    then ok true
    else err (PeerConnectionError.other (codes "Unknown encryption type"))

-- The hello that `send_hello` builds, at this time.
abbrev pub hello_of : List ℕ → ℤ → Hello
hello_of name timestamp = record {
  device_name = name;
  client_name = codes "bep.rs";
  client_version = codes "0.1";
  num_connections = pos 1;
  timestamp = timestamp;
}

module _ (wire : Wire) where
  unfoldable pub read_exact : ℕ → Parser (List ℕ)
  read_exact n s =
      if ltb (length s) n
      then err (PeerConnectionError.other wire.early_eof)
      else ok (take n s, drop n s)

  unfoldable pub read_u16 : Parser ℕ
  unfolding read_exact from_be_bytes
  read_u16 s = read_exact 2 s >>= λ r. ok (from_be_bytes 0 r.0, r.1)

  unfoldable pub read_u32 : Parser ℕ
  unfolding read_exact from_be_bytes
  read_u32 s = read_exact 4 s >>= λ r. ok (from_be_bytes 0 r.0, r.1)

  -- `Ok(T::decode(..)?)`: the error goes through `io::Error`, so only its text is left.
  abbrev pub decoded {ℓ} : {A : Type ℓ} → Outcome (List ℕ) A → Outcome PeerConnectionError A
  decoded (ok a) = ok a
  decoded (err text) = err (PeerConnectionError.other text)
  decoded panicked = panicked

  -- The `unwrap` of the decompression panics.
  abbrev pub decode_body {ℓ} :
      {A : Type ℓ} → Codec A → Bool → List ℕ → Outcome PeerConnectionError A
  decode_body codec false buffer = decoded (codec.decode buffer)
  decode_body codec true buffer = elim (wire.decompress_size_prepended buffer) [
    | none ↦ panicked
    | some result ↦ decoded (codec.decode result)
  ]

  unfoldable pub receive_message {ℓ} : {A : Type ℓ} → Codec A → Bool → Parser A
  unfolding read_u32 read_exact
  receive_message codec compression s = read_u32 s >>= λ l.
      read_exact l.0 l.1 >>= λ b. decode_body codec compression b.0 >>= λ a. ok (a, b.1)

  -- `encode_for_bep`, for a message whose type has this number.
  unfoldable pub encode_for_bep {ℓ} : {A : Type ℓ} → Codec A → MessageType → A → List ℕ
  unfolding u16_to_be_bytes u32_to_be_bytes
  encode_for_bep codec type item =
      let header = wire.header.encode (record { type = type_code type; compression = pos 0 }) in
      let body = codec.encode item in
      u16_to_be_bytes (length header) ++ (header ++ (u32_to_be_bytes (length body) ++ body))

  -- The macro is applied to all of them but `IndexUpdate`, which only other programs send.
  unfoldable pub encode_message : Message → List ℕ
  unfolding encode_for_bep
  encode_message (Message.cluster_config m) =
      encode_for_bep wire.cluster_config MessageType.cluster_config m
  encode_message (Message.index m) = encode_for_bep wire.index MessageType.index m
  encode_message (Message.index_update m) =
      encode_for_bep wire.index_update MessageType.index_update m
  encode_message (Message.request m) = encode_for_bep wire.request MessageType.request m
  encode_message (Message.response m) = encode_for_bep wire.response MessageType.response m
  encode_message Message.ping = encode_for_bep wire.ping MessageType.ping tt
  encode_message (Message.close m) = encode_for_bep wire.close MessageType.close m

  -- A body, as the kind of message that it is.
  abbrev pub receive_as {ℓ} : {A : Type ℓ} → Codec A → (A → Message) → Bool → Parser Message
  receive_as codec wrap compression s =
      receive_message codec compression s >>= λ r. ok (wrap r.0, r.1)

  -- The chain of tests on the type of the header.
  unfoldable pub receive : ℤ → Bool → Parser Message
  unfolding receive_message
  receive type compression s =
      if type ==ℤ type_code MessageType.request
      then receive_as wire.request Message.request compression s
      else if type ==ℤ type_code MessageType.index
      then receive_as wire.index Message.index compression s
      else if type ==ℤ type_code MessageType.index_update
      then receive_as wire.index_update Message.index_update compression s
      else if type ==ℤ type_code MessageType.response
      then receive_as wire.response Message.response compression s
      else if type ==ℤ type_code MessageType.close
      then receive_as wire.close Message.close compression s
      else if type ==ℤ type_code MessageType.ping
      then receive_as wire.ping (λ _. Message.ping) compression s
      else if type ==ℤ type_code MessageType.cluster_config
      then receive_as wire.cluster_config Message.cluster_config compression s
      else err (PeerConnectionError.other (codes "Unknown message type"))

  -- An error of the header's decoding is kept as such.
  abbrev pub decoded_header : {A : Type 0} → Outcome (List ℕ) A → Outcome PeerConnectionError A
  decoded_header (ok a) = ok a
  decoded_header (err text) = err (PeerConnectionError.decode_error text)
  decoded_header panicked = panicked

  -- From the header's length to the body.
  unfoldable pub read_message : Parser Message
  unfolding read_u16 read_exact receive
  read_message s = read_u16 s >>= λ l. read_exact l.0 l.1 >>= λ b.
      decoded_header (wire.header.decode b.0) >>= λ header.
      is_compressed header.compression >>= λ compression. receive header.type compression b.1

  unfoldable pub send_hello : Hello → List ℕ
  send_hello hello =
      let body = wire.hello.encode hello in
      u32_to_be_bytes hello_magic ++ (u16_to_be_bytes (length body) ++ body)

  -- The code tests a magic of 0 before any other that is wrong, and answers both alike.
  unfoldable pub receive_hello : Parser Hello
  unfolding read_exact read_u16 from_be_bytes
  receive_hello s = read_exact 4 s >>= λ m.
      let magic = from_be_bytes 0 m.0 in
      if not (magic == hello_magic)
      then err PeerConnectionError.invalid_magic_bytes
      else (read_u16 m.1 >>= λ l. read_exact l.0 l.1 >>= λ b.
          decoded_header (wire.hello.decode b.0) >>= λ hello. ok (hello, b.1))
