-- ===== src/Tests/Device.antt =====
-- The device identifiers of the tests of src/device_id.rs, hexadecimal text, and certificates.
use bep_rs.Prelude.{
  ℕ, zero, suc, ◌+◌, ◌-◌, ◌*◌, ◌/◌, ◌%◌, ◌≡◌, refl, Bool, true, ◌&&◌, ◌||◌, leb, inl, inr,
  Option-cases, if◌then◌else◌, none, some, List, [], ◌∷◌, ◌++◌, map, All, get_or, codes, arith,
}
use bep_rs.DeviceId.{
  Base32, IsFaithfulAt, IsDigit, strip_pad, addend, luhn32_alphabet, codepoint32, luhn_sum,
  check_digit, syncthing_luhn32, luhnify, luhnify_from, unluhnify, unluhnify_from, unchunkify,
  deviceid_from_string, deviceid_to_string,
}
use bep_rs.DeviceId.RoundTrip.{deviceid_from_string-deviceid_to_string}
use bep_rs.DeviceId.Substitution.{unluhnify_detects, unluhnify-append}
use bep_rs.Util.{bytes_to_hex, hex_to_bytes}
use bep_rs.Util.RoundTrip.{hex_to_bytes-bytes_to_hex}
use bep_rs.Connection.Verifier.{BepVerifier}

-- Base32 of 32 bytes: 256 bits and 4 bits of padding are 52 digits.
abbrev from_digits : ℕ → ℕ → List ℕ → ℕ
from_digits base n [] = n
from_digits base n (d ∷ ds) = from_digits base (n * base + d) ds

abbrev to_digits : ℕ → ℕ → ℕ → List ℕ → List ℕ
to_digits zero base n ds = ds
to_digits (suc k) base n ds = to_digits k base (n / base) (n % base ∷ ds)

abbrev value : ℕ → ℕ
value c = if leb b'A' c then c - b'A' else c + 26 - b'2'

abbrev base32 : Base32
base32 = record {
  encode = λ bytes.
      map (λ d. get_or luhn32_alphabet d 0) (to_digits 52 32 (from_digits 256 0 bytes * 16) [])
      ++ codes "====";
  decode_nopad = λ text. some (to_digits 32 256 (from_digits 32 0 (map value text) / 16) []);
}

abbrev count_up : ℕ → ℕ → List ℕ
count_up zero n = []
count_up (suc k) n = n ∷ count_up k (suc n)

abbrev test_id : List ℕ
test_id = count_up 32 1

abbrev is_digit : ℕ → Bool
is_digit c = (leb b'A' c && leb c b'Z') || (leb b'2' c && leb c b'7')

abbrev every : List ℕ → Bool
every [] = true
every (c ∷ s) = is_digit c && every s

is_digit-IsDigit : (c : ℕ) → is_digit c ≡ true → IsDigit c
unfolding codepoint32
is_digit-IsDigit c h = elim (Option-cases (codepoint32 c)) [
  | inl bad ↦ absurd (ground (arith, bad))
  | inr (n, e) ↦ record { codepoint = n; read = e }
]

every-IsDigit : (s : List ℕ) → every s ≡ true → All IsDigit s
every-IsDigit [] h = tt
every-IsDigit (c ∷ s) h = (is_digit-IsDigit c (ground arith), every-IsDigit s (ground arith))

base32-IsFaithfulAt : IsFaithfulAt base32 test_id
base32-IsFaithfulAt = record {
  length_digits = refl;
  digits = every-IsDigit (strip_pad (base32.encode test_id)) refl;
  decoded = refl;
}

-- `deviceid_from_string(&deviceid_to_string(&id))`, as the test has it.
deviceid_from_string-deviceid_to_string_example :
    (text : List ℕ) × (deviceid_to_string base32 test_id ≡ some text)
    × (deviceid_from_string base32 text ≡ some test_id)
deviceid_from_string-deviceid_to_string_example =
    deviceid_from_string-deviceid_to_string base32 test_id refl base32-IsFaithfulAt

abbrev printed : List ℕ
printed = codes "DOTMVXY-JJDOMOF-4QTANVM-LDQX6HX-EKDOHU4-J2MG6UC-AGRQAJF-NIYSNQ4"

abbrev digits : List ℕ
digits = codes "DOTMVXYJJDOMO4QTANVMLDQX6HEKDOHU4J2MG6UAGRQAJFNIYSNQ"

luhnify_run : luhnify digits ≡ some (unchunkify printed)
unfolding luhnify luhnify_from syncthing_luhn32 luhn_sum check_digit codepoint32 addend unchunkify
luhnify_run = refl

unluhnify_run : unluhnify (unchunkify printed) ≡ some digits
unfolding unluhnify unluhnify_from syncthing_luhn32 luhn_sum check_digit codepoint32 addend
    unchunkify
unluhnify_run = refl

abbrev after_d : List ℕ
after_d = codes "OTMVXYJJDOMOF4QTANVMLDQX6HXEKDOHU4J2MG6UCAGRQAJFNIYSNQ4"

unluhnify_read : unluhnify (b'D' ∷ after_d) ≡ some digits
unfolding unluhnify unluhnify_from syncthing_luhn32 luhn_sum check_digit codepoint32 addend
unluhnify_read = refl

unluhnify_detects_example : unluhnify (b'E' ∷ after_d) ≡ none
unluhnify_detects_example =
    unluhnify_detects [] after_d b'D' b'E' digits (omega arith) (omega arith) unluhnify_read

unluhnify-append_example : unluhnify ((b'D' ∷ after_d) ++ codes "JUNK") ≡ some digits
unluhnify-append_example = unluhnify-append (b'D' ∷ after_d) (codes "JUNK") digits unluhnify_read

luhn32_run : syncthing_luhn32 (codes "DOTMVXYJJDOMO") ≡ some b'F'
unfolding syncthing_luhn32 luhn_sum check_digit codepoint32 addend
luhn32_run = refl

hex_to_bytes-bytes_to_hex_example :
    hex_to_bytes (bytes_to_hex (0 ∷ 10 ∷ 171 ∷ 255 ∷ [])) ≡ some (0 ∷ 10 ∷ 171 ∷ 255 ∷ [])
hex_to_bytes-bytes_to_hex_example =
    hex_to_bytes-bytes_to_hex (0 ∷ 10 ∷ 171 ∷ 255 ∷ [])
      (omega arith, (omega arith, (omega arith, (omega arith, tt))))

-- A stand-in for a hash function.
abbrev hash : List ℕ → List ℕ
hash bytes = 7 ∷ bytes

abbrev verifier : BepVerifier
verifier = record { peer_ids = (7 ∷ []) ∷ (7 ∷ 1 ∷ []) ∷ []; verified_id = [] }
