-- ===== src/Connection/Framing/RoundTrip.antt =====
-- A message that is written is read back, whatever follows it on the stream
-- (src/peer_connection/items.rs).
use bep_rs.Prelude.{
  ℕ, ◌^◌, ◌<◌, ◌≡◌, refl, ap, ◌∙◌, ltb, false, Bool-cases, inl, inr, List, ◌++◌, append_assoc,
  length, length-append, take-append, drop-append, ltb→lt, arith,
}
use bep_rs.Prelude.Int.{pos}
use bep_rs.Prelude.Outcome.{ok}
use bep_rs.Connection.Items.{Message, MessageType, type_code}
use bep_rs.Connection.Framing.{
  Codec, Wire, u16_to_be_bytes, u32_to_be_bytes, from_be_bytes, read_exact, read_u16, read_u32,
  is_compressed, receive_message, encode_for_bep, encode_message, receive, read_message,
}

pub u16_lem : (n : ℕ) → n < 2 ^ 16 → from_be_bytes 0 (u16_to_be_bytes n) ≡ n
unfolding from_be_bytes u16_to_be_bytes
u16_lem n h = omega arith

pub u32_lem : (n : ℕ) → n < 2 ^ 32 → from_be_bytes 0 (u32_to_be_bytes n) ≡ n
unfolding from_be_bytes u32_to_be_bytes
u32_lem n h = omega arith

-- Where the generated encoding of a value is faithful, and its length fits into four bytes.
pub record IsSendable {ℓ} {A : Type ℓ} (codec : Codec A) (item : A) : Type ℓ where
  pub decoded_back : codec.decode (codec.encode item) ≡ ok item
  pub fits : length (codec.encode item) < 2 ^ 32

module _ (wire : Wire) where
  pub read_exact-append :
      (n : ℕ) (bytes rest : List ℕ)
      → length bytes ≡ n
      → read_exact wire n (bytes ++ rest) ≡ ok (bytes, rest)
  unfolding read_exact
  read_exact-append n bytes rest h =
      rw (← h) (elim (Bool-cases (ltb (length (bytes ++ rest)) (length bytes))) [
        | inl short ↦ absurd (
            omega (
              arith,
              ltb→lt (length (bytes ++ rest)) (length bytes) short,
              length-append bytes rest,
            ))
        | inr enough ↦ rw (enough, take-append bytes rest, drop-append bytes rest)
      ])

  pub read_u16-append :
      (n : ℕ) (rest : List ℕ)
      → n < 2 ^ 16
      → read_u16 wire (u16_to_be_bytes n ++ rest) ≡ ok (n, rest)
  unfolding read_u16
  read_u16-append n rest h =
      rw (read_exact-append 2 (u16_to_be_bytes n) rest (unfold u16_to_be_bytes in refl))
        (ap (λ k. ok (k, rest)) (u16_lem n h))

  pub read_u32-append :
      (n : ℕ) (rest : List ℕ)
      → n < 2 ^ 32
      → read_u32 wire (u32_to_be_bytes n ++ rest) ≡ ok (n, rest)
  unfolding read_u32
  read_u32-append n rest h =
      rw (read_exact-append 4 (u32_to_be_bytes n) rest (unfold u32_to_be_bytes in refl))
        (ap (λ k. ok (k, rest)) (u32_lem n h))

  pub receive_message-append {ℓ} :
      {A : Type ℓ} (codec : Codec A) (item : A) (rest : List ℕ)
      → IsSendable codec item
      → receive_message wire codec false
          (u32_to_be_bytes (length (codec.encode item)) ++ (codec.encode item ++ rest))
        ≡ ok (item, rest)
  unfolding receive_message
  receive_message-append codec item rest h =
      rw (read_u32-append (length (codec.encode item)) (codec.encode item ++ rest) h.fits) (
        rw (read_exact-append (length (codec.encode item)) (codec.encode item) rest refl)
          (rw h.decoded_back))

  -- The header of a message of this type can be sent.
  pub record IsHeaderSendable (type : MessageType) : Type 0 where
    pub decoded_back :
        wire.header.decode
          (wire.header.encode (record { type = type_code type; compression = pos 0 }))
        ≡ ok (record { type = type_code type; compression = pos 0 })
    pub fits :
        length (wire.header.encode (record { type = type_code type; compression = pos 0 })) < 2 ^ 16

  read_message-encode_for_bep {ℓ} :
      {A : Type ℓ} (codec : Codec A) (type : MessageType) (item : A) (rest : List ℕ)
      → IsHeaderSendable type
      → read_message wire (encode_for_bep wire codec type item ++ rest)
        ≡ receive wire
            (type_code type)
            false
            (u32_to_be_bytes (length (codec.encode item)) ++ (codec.encode item ++ rest))
  unfolding read_message encode_for_bep is_compressed
  read_message-encode_for_bep codec type item rest h =
      let header : List ℕ =
        wire.header.encode (record { type = type_code type; compression = pos 0 }) in
      let body : List ℕ = codec.encode item in
      rw
        (
          append_assoc (u16_to_be_bytes (length header))
              (header ++ (u32_to_be_bytes (length body) ++ body)) rest,
          append_assoc header (u32_to_be_bytes (length body) ++ body) rest,
          append_assoc (u32_to_be_bytes (length body)) body rest,
        )
        (rw
          (read_u16-append (length header)
            (header ++ (u32_to_be_bytes (length body) ++ (body ++ rest))) h.fits)
          (rw
            (read_exact-append (length header) header
              (u32_to_be_bytes (length body) ++ (body ++ rest)) refl)
            (rw h.decoded_back)))

  -- The message and its header can be sent.
  abbrev pub IsWritable : Message → Type 0
  IsWritable (Message.cluster_config m) =
      IsHeaderSendable MessageType.cluster_config × IsSendable wire.cluster_config m
  IsWritable (Message.index m) = IsHeaderSendable MessageType.index × IsSendable wire.index m
  IsWritable (Message.index_update m) =
      IsHeaderSendable MessageType.index_update × IsSendable wire.index_update m
  IsWritable (Message.request m) = IsHeaderSendable MessageType.request × IsSendable wire.request m
  IsWritable (Message.response m) =
      IsHeaderSendable MessageType.response × IsSendable wire.response m
  IsWritable Message.ping = IsHeaderSendable MessageType.ping × IsSendable wire.ping tt
  IsWritable (Message.close m) = IsHeaderSendable MessageType.close × IsSendable wire.close m

  -- Every message that can be sent is read back as itself, and the reader is left at what follows.
  pub read_message-encode_message :
      (m : Message) (rest : List ℕ)
      → IsWritable m
      → read_message wire (encode_message wire m ++ rest) ≡ ok (m, rest)
  unfolding encode_message receive
  read_message-encode_message (Message.cluster_config m) rest h =
      read_message-encode_for_bep wire.cluster_config MessageType.cluster_config m rest h.0
      ∙ rw (receive_message-append wire.cluster_config m rest h.1)
  read_message-encode_message (Message.index m) rest h =
      read_message-encode_for_bep wire.index MessageType.index m rest h.0
      ∙ rw (receive_message-append wire.index m rest h.1)
  read_message-encode_message (Message.index_update m) rest h =
      read_message-encode_for_bep wire.index_update MessageType.index_update m rest h.0
      ∙ rw (receive_message-append wire.index_update m rest h.1)
  read_message-encode_message (Message.request m) rest h =
      read_message-encode_for_bep wire.request MessageType.request m rest h.0
      ∙ rw (receive_message-append wire.request m rest h.1)
  read_message-encode_message (Message.response m) rest h =
      read_message-encode_for_bep wire.response MessageType.response m rest h.0
      ∙ rw (receive_message-append wire.response m rest h.1)
  read_message-encode_message Message.ping rest h =
      read_message-encode_for_bep wire.ping MessageType.ping tt rest h.0
      ∙ rw (receive_message-append wire.ping tt rest h.1)
  read_message-encode_message (Message.close m) rest h =
      read_message-encode_for_bep wire.close MessageType.close m rest h.0
      ∙ rw (receive_message-append wire.close m rest h.1)
