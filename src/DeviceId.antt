-- ===== src/DeviceId.antt =====
-- Device identifiers and their printed form (src/device_id.rs).
-- A text is the list of its bytes. A panic is `none`: an assertion, a slice or an index out of
-- range, a byte that is no base32 digit. A byte that is not ASCII ends in a panic in the code too,
-- by `codepoint32`, by a slice inside a character or by the comparison with the check digit.
mod Luhn
mod Groups
pub mod RoundTrip
pub mod Corruption
pub mod Substitution
unfoldable pub use Luhn.*
unfoldable pub use Groups.{
  luhnify, unluhnify, chunkify, unchunkify, luhnify_from, unluhnify_from, chunkify_from,
}
use bep_rs.Prelude.{
  ℕ, ◌≡◌, Bool, true, false, not, ◌==◌, Option, none, some, ◌>>=◌, ◌>>◌, assert, List, length, keep,
  All,
}

-- The crate data_encoding: `BASE32.encode` and `BASE32_NOPAD.decode`, whose error the code unwraps.
pub record Base32 : Type 0 where
  pub encode : List ℕ → List ℕ
  pub decode_nopad : List ℕ → Option (List ℕ)

-- `.replace("=", "")`
abbrev pub strip_pad : List ℕ → List ℕ
strip_pad = keep (λ c. not (c == b'='))

-- What RFC 4648 says of the encoding of these bytes: without its padding it is 52 digits long,
-- and decoding gives the bytes back.
pub record IsFaithfulAt (codec : Base32) (bytes : List ℕ) : Type 0 where
  pub length_digits : length (strip_pad (codec.encode bytes)) ≡ 52
  pub digits : All IsDigit (strip_pad (codec.encode bytes))
  pub decoded : codec.decode_nopad (strip_pad (codec.encode bytes)) ≡ some bytes

module _ (codec : Base32) where
  -- `.try_into().unwrap()` checks that there are 32 bytes.
  unfoldable pub deviceid_from_string : List ℕ → Option (List ℕ)
  deviceid_from_string id = do
    digits ← unluhnify (unchunkify id)
    bytes ← codec.decode_nopad digits
    assert (length bytes == 32)
    some bytes

  unfoldable pub deviceid_to_string : List ℕ → Option (List ℕ)
  deviceid_to_string bytes = do l ← luhnify (strip_pad (codec.encode bytes)); some (chunkify l)

  unfoldable pub deviceid_to_base32 : List ℕ → List ℕ
  deviceid_to_base32 bytes = strip_pad (codec.encode bytes)
