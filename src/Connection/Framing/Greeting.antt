-- ===== src/Connection/Framing/Greeting.antt =====
-- The hello that opens a connection (src/peer_connection/items.rs).
use bep_rs.Prelude.{
  ℕ, ◌^◌, ◌<◌, ◌≡◌, ◌≢◌, refl, ◌==◌, ==_iff, Bool-cases, inl, inr, List, ◌++◌, append_assoc, length,
}
use bep_rs.Prelude.Outcome.{ok, err}
use bep_rs.Connection.Items.{PeerConnectionError, Hello}
use bep_rs.Connection.Framing.{
  Wire, u16_to_be_bytes, u32_to_be_bytes, from_be_bytes, hello_magic, send_hello, receive_hello,
}
use bep_rs.Connection.Framing.RoundTrip.{read_exact-append, read_u16-append}

module _ (wire : Wire) where
  -- A hello of at most 65535 bytes, where its generated encoding is faithful, is read back.
  pub receive_hello-send_hello :
      (hello : Hello) (rest : List ℕ)
      → wire.hello.decode (wire.hello.encode hello) ≡ ok hello
      → length (wire.hello.encode hello) < 2 ^ 16
      → receive_hello wire (send_hello wire hello ++ rest) ≡ ok (hello, rest)
  unfolding receive_hello send_hello
  receive_hello-send_hello hello rest decoded_back fits =
      let body : List ℕ = wire.hello.encode hello in
      rw
        (
          append_assoc (u32_to_be_bytes hello_magic) (u16_to_be_bytes (length body) ++ body) rest,
          append_assoc (u16_to_be_bytes (length body)) body rest,
        )
        (rw
          (read_exact-append wire 4 (u32_to_be_bytes hello_magic)
            (u16_to_be_bytes (length body) ++ (body ++ rest)) (unfold u32_to_be_bytes in refl))
          (rw
            (let e : from_be_bytes 0 (u32_to_be_bytes hello_magic) ≡ hello_magic =
                unfold from_be_bytes u32_to_be_bytes in refl in
              e)
            (rw (read_u16-append wire (length body) (body ++ rest) fits)
              (rw (read_exact-append wire (length body) body rest refl) (rw decoded_back)))))

  -- A stream that does not open with the magic number of the protocol is refused as such, whatever
  -- follows.
  receive_hello_refuses :
      (magic rest : List ℕ)
      → length magic ≡ 4
      → from_be_bytes 0 magic ≢ hello_magic
      → receive_hello wire (magic ++ rest) ≡ err PeerConnectionError.invalid_magic_bytes
  unfolding receive_hello
  receive_hello_refuses magic rest four wrong =
      rw (read_exact-append wire 4 magic rest four)
        (elim (Bool-cases (from_be_bytes 0 magic == hello_magic)) [
          | inl same ↦ absurd (wrong ((==_iff (from_be_bytes 0 magic) hello_magic).0 same))
          | inr other ↦ rw other
        ])
