-- ===== src/DeviceId/RoundTrip/Digits.antt =====
-- The check digit of a text of base32 digits exists, and is a digit.
use bep_rs.Prelude.{
  ℕ, ◌-◌, ◌%◌, ◌<◌, ◌≡◌, refl, Bool, true, false, ◌==◌, not, none, some, List, [], ◌∷◌, get_or,
  keep, All, all_below, all_below_sound, ap, arith,
}
use bep_rs.DeviceId.Luhn.{
  luhn32_alphabet, codepoint32, luhn_sum, check_digit, syncthing_luhn32, IsDigit,
}

abbrev reads_as : ℕ → ℕ → Bool
reads_as c i = elim (codepoint32 c) [ none ↦ false | some j ↦ j == i ]

alphabet_table : all_below 32 (λ i. reads_as (get_or luhn32_alphabet i 0) i) ≡ true
unfolding all_below codepoint32
alphabet_table = refl

reads_as_lem : (c i : ℕ) → reads_as c i ≡ true → codepoint32 c ≡ some i
reads_as_lem c i h = ground arith

-- The alphabet lists the digits by their values.
pub codepoint32-alphabet : (i : ℕ) → i < 32 → codepoint32 (get_or luhn32_alphabet i 0) ≡ some i
codepoint32-alphabet i h =
    reads_as_lem _ i
      (all_below_sound 32 (λ i. reads_as (get_or luhn32_alphabet i 0) i) i alphabet_table h)

pub check_digit-IsDigit : (sum : ℕ) → IsDigit (check_digit sum)
unfolding check_digit
check_digit-IsDigit sum = record {
  codepoint = (32 - sum % 32) % 32;
  read = codepoint32-alphabet _ (omega arith);
}

luhn_sum-total :
    (s : List ℕ) (factor sum : ℕ)
    → All IsDigit s
    → (total : ℕ) × (luhn_sum factor sum s ≡ some total)
unfolding luhn_sum
luhn_sum-total [] factor sum h = (sum, refl)
luhn_sum-total (c ∷ s) factor sum h = rw (h.0.read) (luhn_sum-total s _ _ h.1)

pub syncthing_luhn32-total :
    (s : List ℕ) → All IsDigit s → (l : ℕ) × (syncthing_luhn32 s ≡ some l) × IsDigit l
unfolding syncthing_luhn32
syncthing_luhn32-total s h =
    let (total, e) = luhn_sum-total s 1 0 h in (check_digit total, rw e, check_digit-IsDigit total)

dash_free : (c : ℕ) → IsDigit c → not (c == b'-') ≡ true
unfolding codepoint32
dash_free c d = ground (arith, d.read)

-- Digits hold no dash.
pub keep-digits : (s : List ℕ) → All IsDigit s → keep (λ c. not (c == b'-')) s ≡ s
keep-digits [] h = refl
keep-digits (c ∷ s) h = rw (dash_free c h.0) (ap (λ t. c ∷ t) (keep-digits s h.1))
