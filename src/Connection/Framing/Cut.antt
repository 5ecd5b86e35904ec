-- ===== src/Connection/Framing/Cut.antt =====
-- A message that is cut off (src/peer_connection/items.rs and handlers.rs, `handle_reading`).
use bep_rs.Prelude.{
  ℕ, zero, suc, ◌+◌, ◌-◌, ◌<◌, ◌≤◌, ◌≡◌, refl, ap, ltb, lt→ltb, ltb→lt, false, Bool-cases, inl, inr,
  List, [], ◌∷◌, ◌++◌, length, length-append, length-take, take, arith,
}
use bep_rs.Prelude.Int.{pos}
use bep_rs.Prelude.Outcome.{err}
use bep_rs.Connection.Items.{Message, MessageType, type_code, PeerConnectionError}
use bep_rs.Connection.Framing.{
  Codec, Wire, u16_to_be_bytes, u32_to_be_bytes, read_exact, read_u16, read_u32, is_compressed,
  receive_message, encode_for_bep, encode_message, receive, read_message,
}
use bep_rs.Connection.Framing.RoundTrip.{
  IsSendable, IsHeaderSendable, IsWritable, read_exact-append, read_u16-append, read_u32-append,
}

take-append_past {ℓ} :
    {A : Type ℓ} (k : ℕ) (xs ys : List A)
    → length xs ≤ k
    → take k (xs ++ ys) ≡ xs ++ take (k - length xs) ys
take-append_past k [] ys h = let e : k - 0 ≡ k = omega arith in rw e
take-append_past zero (x ∷ xs) ys h = absurd (omega arith)
take-append_past (suc k) (x ∷ xs) ys h =
    let e : suc k - suc (length xs) ≡ k - length xs = omega arith in
    rw e (ap (λ t. x ∷ t) (take-append_past k xs ys (omega arith)))

module _ (wire : Wire) where
  abbrev pub cut_off : PeerConnectionError
  cut_off = PeerConnectionError.other wire.early_eof

  read_exact_short : (n : ℕ) (s : List ℕ) → length s < n → read_exact wire n s ≡ err cut_off
  unfolding read_exact
  read_exact_short n s h = rw (lt→ltb (length s) n h)

  take_short : (k n : ℕ) (s : List ℕ) → k < n → length (take k s) < n
  take_short k n s h = omega (arith, length-take k s)

  -- The frame is cut somewhere in its first part.
  read_u16_short : (s : List ℕ) → length s < 2 → read_u16 wire s ≡ err cut_off
  unfolding read_u16
  read_u16_short s h = rw (read_exact_short 2 s h)

  read_u32_short : (s : List ℕ) → length s < 4 → read_u32 wire s ≡ err cut_off
  unfolding read_u32
  read_u32_short s h = rw (read_exact_short 4 s h)

  receive_message_cut {ℓ} :
      {A : Type ℓ} (codec : Codec A) (item : A) (k : ℕ)
      → IsSendable codec item
      → k < 4 + length (codec.encode item)
      → receive_message wire codec false
          (take k (u32_to_be_bytes (length (codec.encode item)) ++ codec.encode item))
        ≡ err cut_off
  unfolding receive_message
  receive_message_cut codec item k h short =
      let body : List ℕ = codec.encode item in
      let size : List ℕ = u32_to_be_bytes (length body) in
      let four : length size ≡ 4 = unfold u32_to_be_bytes in refl in
      elim (Bool-cases (ltb k 4)) [
        | inl early ↦ rw (
            read_u32_short (take k (size ++ body))
              (take_short k 4 (size ++ body) (ltb→lt k 4 early)))
        | inr late ↦
            let past : 4 ≤ k = ground arith in
            rw (take-append_past k size body (omega arith)) (
              rw (read_u32-append wire (length body) (take (k - length size) body) h.fits) (
                rw (
                  read_exact_short (length body) (take (k - length size) body)
                    (take_short (k - length size) (length body) body (omega arith)))))
      ]

  encode_for_bep_cut {ℓ} :
      {A : Type ℓ} (codec : Codec A) (type : MessageType) (item : A) (k : ℕ)
      → IsHeaderSendable wire type
      → IsSendable codec item
      → ((s : List ℕ)
          → receive_message wire codec false s ≡ err cut_off
          → receive wire (type_code type) false s ≡ err cut_off)
      → k < length (encode_for_bep wire codec type item)
      → read_message wire (take k (encode_for_bep wire codec type item)) ≡ err cut_off
  unfolding read_message encode_for_bep is_compressed
  encode_for_bep_cut codec type item k head h passes short =
      let header : List ℕ =
        wire.header.encode (record { type = type_code type; compression = pos 0 }) in
      let body : List ℕ = codec.encode item in
      let size : List ℕ = u32_to_be_bytes (length body) in
      let start : List ℕ = u16_to_be_bytes (length header) in
      let two : length start ≡ 2 = unfold u16_to_be_bytes in refl in
      let four : length size ≡ 4 = unfold u32_to_be_bytes in refl in
      elim (Bool-cases (ltb k 2)) [
        | inl early ↦ rw (
            read_u16_short (take k (start ++ (header ++ (size ++ body))))
              (take_short k 2 (start ++ (header ++ (size ++ body))) (ltb→lt k 2 early)))
        | inr late ↦
            let past : 2 ≤ k = ground arith in
            rw (take-append_past k start (header ++ (size ++ body)) (omega arith)) (
              rw
                (read_u16-append wire (length header)
                  (take (k - length start) (header ++ (size ++ body))) head.fits)
                (elim (Bool-cases (ltb (k - length start) (length header))) [
                  | inl in_header ↦ rw (
                      read_exact_short (length header)
                        (take (k - length start) (header ++ (size ++ body)))
                        (take_short (k - length start) (length header) (header ++ (size ++ body))
                          (ltb→lt (k - length start) (length header) in_header)))
                  | inr in_body ↦
                      let past_header : length header ≤ k - length start = ground arith in
                      rw (take-append_past (k - length start) header (size ++ body) past_header) (
                        rw
                          (read_exact-append wire (length header) header
                            (take (k - length start - length header) (size ++ body)) refl)
                          (rw head.decoded_back (
                            passes (take (k - length start - length header) (size ++ body)) (
                              receive_message_cut codec item (k - length start - length header) h (
                                omega (
                                  arith,
                                  short,
                                  length-append start (header ++ (size ++ body)),
                                  length-append header (size ++ body),
                                  length-append size body,
                                ))))))
                ]))
      ]

  -- A stream that ends within a message, wherever in it, gives the error that the stream ended too
  -- early, and no message.
  pub read_message_cut :
      (m : Message) (k : ℕ)
      → IsWritable wire m
      → k < length (encode_message wire m)
      → read_message wire (take k (encode_message wire m)) ≡ err cut_off
  unfolding encode_message receive
  read_message_cut (Message.cluster_config m) k h short =
      encode_for_bep_cut wire.cluster_config MessageType.cluster_config m k h.0 h.1 (λ s e. rw e)
        short
  read_message_cut (Message.index m) k h short =
      encode_for_bep_cut wire.index MessageType.index m k h.0 h.1 (λ s e. rw e) short
  read_message_cut (Message.index_update m) k h short =
      encode_for_bep_cut wire.index_update MessageType.index_update m k h.0 h.1 (λ s e. rw e) short
  read_message_cut (Message.request m) k h short =
      encode_for_bep_cut wire.request MessageType.request m k h.0 h.1 (λ s e. rw e) short
  read_message_cut (Message.response m) k h short =
      encode_for_bep_cut wire.response MessageType.response m k h.0 h.1 (λ s e. rw e) short
  read_message_cut Message.ping k h short =
      encode_for_bep_cut wire.ping MessageType.ping tt k h.0 h.1 (λ s e. rw e) short
  read_message_cut (Message.close m) k h short =
      encode_for_bep_cut wire.close MessageType.close m k h.0 h.1 (λ s e. rw e) short
