-- ===== src/Util/RoundTrip.antt =====
-- Reading back what was written (src/util.rs).
use bep_rs.Prelude.{
  ℕ, ◌+◌, ◌*◌, ◌/◌, ◌<◌, ◌≡◌, refl, ap, sym, ◌∙◌, Bool, true, false, ◌==◌, none, some, List, [],
  ◌∷◌, ◌++◌, length, All, arith, append_assoc, append-nil, all_below, all_below_sound,
  length-append, slice-append,
}
use bep_rs.Util.{
  format_02x, write_hex, bytes_to_hex, from_str_radix, hex_to_bytes_from, hex_to_bytes,
}

abbrev reads_byte : ℕ → Bool
reads_byte byte = elim (from_str_radix (format_02x byte)) [ none ↦ false | some b ↦ b == byte ]

byte_table : all_below 256 reads_byte ≡ true
unfolding all_below from_str_radix
byte_table = refl

reads_byte_lem : (byte : ℕ) → reads_byte byte ≡ true → from_str_radix (format_02x byte) ≡ some byte
reads_byte_lem byte h = ground arith

from_str_radix-format_02x : (byte : ℕ) → byte < 256 → from_str_radix (format_02x byte) ≡ some byte
from_str_radix-format_02x byte h =
    reads_byte_lem byte (all_below_sound 256 reads_byte byte byte_table h)

abbrev digits_of : List ℕ → List ℕ
digits_of [] = []
digits_of (byte ∷ bytes) = format_02x byte ++ digits_of bytes

write_hex-digits_of : (bytes s : List ℕ) → write_hex bytes s ≡ s ++ digits_of bytes
unfolding write_hex
write_hex-digits_of [] s = sym (append-nil s)
write_hex-digits_of (byte ∷ bytes) s =
    write_hex-digits_of bytes (s ++ format_02x byte) ∙ append_assoc s (format_02x byte) _

length-digits_of : (bytes : List ℕ) → length (digits_of bytes) ≡ length bytes * 2
length-digits_of [] = refl
length-digits_of (byte ∷ bytes) = omega (arith, length-digits_of bytes)

read_digits :
    (bytes : List ℕ) (i : ℕ) (before v : List ℕ)
    → length before ≡ i * 2
    → All (λ byte. byte < 256) bytes
    → hex_to_bytes_from (length bytes) i (before ++ digits_of bytes) v ≡ some (v ++ bytes)
unfolding hex_to_bytes_from
read_digits [] i before v hb fits = ap some (sym (append-nil v))
read_digits (byte ∷ bytes) i before v hb fits =
    rw
      (slice-append before (format_02x byte) (digits_of bytes) (i * 2) (i * 2 + 2) hb (omega arith))
      (rw (from_str_radix-format_02x byte fits.0) (
        rw (← append_assoc before (format_02x byte) (digits_of bytes)) (
          read_digits bytes (i + 1) (before ++ format_02x byte) (v ++ byte ∷ [])
            (omega (arith, length-append before (format_02x byte))) fits.1
          ∙ ap some (append_assoc v (byte ∷ []) bytes))))

-- What `bytes_to_hex` writes, `hex_to_bytes` reads back, for every list of bytes.
pub hex_to_bytes-bytes_to_hex :
    (bytes : List ℕ)
    → All (λ byte. byte < 256) bytes
    → hex_to_bytes (bytes_to_hex bytes) ≡ some bytes
unfolding hex_to_bytes bytes_to_hex
hex_to_bytes-bytes_to_hex bytes fits =
    let rounds : length (digits_of bytes) / 2 ≡ length bytes =
      omega (arith, length-digits_of bytes) in
    rw (write_hex-digits_of bytes [], rounds) (read_digits bytes 0 [] [] refl fits)
