-- ===== src/Util.antt =====
-- Bytes in hexadecimal (src/util.rs). A text is the list of its bytes; a panic is `none`.
pub mod RoundTrip
use bep_rs.Prelude.{
  ℕ, zero, suc, ◌+◌, ◌-◌, ◌*◌, ◌/◌, ◌%◌, ltb, leb, ◌&&◌, if◌then◌else◌, Option, none, some, ◌>>=◌,
  List, [], ◌∷◌, ◌++◌, length, slice, codes, get_or,
}

-- The digits of `{:02X}`: two of them, in upper case. A byte is below 256.
abbrev hex_digit : ℕ → ℕ
hex_digit n = get_or (codes "0123456789ABCDEF") n 0

abbrev pub format_02x : ℕ → List ℕ
format_02x byte = hex_digit (byte / 16) ∷ hex_digit (byte % 16) ∷ []

-- The loop over the bytes, which writes to `s`.
unfoldable pub write_hex : List ℕ → List ℕ → List ℕ
write_hex [] s = s
write_hex (byte ∷ bytes) s = write_hex bytes (s ++ format_02x byte)

unfoldable pub bytes_to_hex : List ℕ → List ℕ
unfolding write_hex
bytes_to_hex bytes = write_hex bytes []

unfoldable pub bytes_vec_to_hex : List ℕ → List ℕ
unfolding write_hex
bytes_vec_to_hex bytes = write_hex bytes []

-- A digit in either case, as `from_str_radix` reads it at radix 16.
unfoldable pub hex_value : ℕ → Option ℕ
hex_value c =
    if leb b'0' c && leb c b'9'
    then some (c - b'0')
    else if leb b'A' c && leb c b'F'
    then some (c - b'A' + 10)
    else if leb b'a' c && leb c b'f'
    then some (c - b'a' + 10)
    else none

-- `u8::from_str_radix(_, 16)` on two characters: a leading plus is allowed before a digit.
unfoldable pub from_str_radix : List ℕ → Option ℕ
unfolding hex_value
from_str_radix (a ∷ b ∷ []) =
    if leb b'+' a && leb a b'+'
    then hex_value b
    else do hi ← hex_value a; lo ← hex_value b; some (hi * 16 + lo)
from_str_radix _ = none

unfoldable pub hex_to_bytes_from : ℕ → ℕ → List ℕ → List ℕ → Option (List ℕ)
unfolding from_str_radix
hex_to_bytes_from zero i s v = some v
hex_to_bytes_from (suc rounds) i s v = do
  digits ← slice (i * 2) (i * 2 + 2) s
  byte ← from_str_radix digits
  hex_to_bytes_from rounds (i + 1) s (v ++ byte ∷ [])

unfoldable pub hex_to_bytes : List ℕ → Option (List ℕ)
unfolding hex_to_bytes_from
hex_to_bytes s = hex_to_bytes_from (length s / 2) 0 s []
