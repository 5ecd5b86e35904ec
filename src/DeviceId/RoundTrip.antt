-- ===== src/DeviceId/RoundTrip.antt =====
-- A device identifier is read back from its printed form (src/device_id.rs).
pub mod Digits
mod Luhnify
mod Chunkify
use bep_rs.Prelude.{ℕ, ◌≡◌, ◌==◌, ==_iff, some, List, length, arith}
use bep_rs.DeviceId.{Base32, IsFaithfulAt, deviceid_from_string, deviceid_to_string}
use bep_rs.DeviceId.Groups.{chunkify, unchunkify}
use bep_rs.DeviceId.RoundTrip.Digits.{keep-digits}
use bep_rs.DeviceId.RoundTrip.Luhnify.{luhnify-Luhnified}
use bep_rs.DeviceId.RoundTrip.Chunkify.{unchunkify-chunkify}

module _ (codec : Base32) (bytes : List ℕ) where
  -- Where base32 is faithful, 32 bytes have a printed form with check digits and dashes, and
  -- `deviceid_from_string` reads that form back as the same bytes.
  pub deviceid_from_string-deviceid_to_string :
      length bytes ≡ 32
      → IsFaithfulAt codec bytes
      → (text : List ℕ) × (deviceid_to_string codec bytes ≡ some text)
        × (deviceid_from_string codec text ≡ some bytes)
  unfolding deviceid_from_string deviceid_to_string
  deviceid_from_string-deviceid_to_string len f =
      let (out, r) = luhnify-Luhnified _ f.length_digits f.digits in
      (
        chunkify out,
        rw r.printed,
        rw
            (unchunkify-chunkify out (omega (arith, r.length_out))
              (unfold unchunkify in keep-digits out r.digits))
            (rw (r.read_back, f.decoded, (==_iff (length bytes) 32).1 len)),
      )
