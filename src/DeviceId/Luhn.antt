-- ===== src/DeviceId/Luhn.antt =====
-- The check digit (src/device_id.rs, `codepoint32` and `syncthing_luhn32`).
use bep_rs.Prelude.{
  ℕ, ◌+◌, ◌-◌, ◌*◌, ◌/◌, ◌%◌, ◌≡◌, ◌&&◌, leb, ◌==◌, if◌then◌else◌, Option, none, some, ◌>>=◌, List,
  [], ◌∷◌, get_or, codes,
}

-- The digits in order, `LUHN32`.
abbrev pub luhn32_alphabet : List ℕ
luhn32_alphabet = codes "ABCDEFGHIJKLMNOPQRSTUVWXYZ234567"

unfoldable pub codepoint32 : ℕ → Option ℕ
codepoint32 c =
    if leb b'A' c && leb c b'Z'
    then some (c - b'A')
    else if leb b'2' c && leb c b'7'
    then some (c + 26 - b'2')
    else none

-- What one character adds to the sum.
unfoldable pub addend : ℕ → ℕ → ℕ
addend factor codepoint = factor * codepoint / 32 + factor * codepoint % 32

-- The loop of `syncthing_luhn32` over its variables `factor` and `sum`.
unfoldable pub luhn_sum : ℕ → ℕ → List ℕ → Option ℕ
luhn_sum factor sum [] = some sum
luhn_sum factor sum (c ∷ s) = do
  codepoint ← codepoint32 c
  luhn_sum (if factor == 2 then 1 else 2) (sum + addend factor codepoint) s

-- The digit that brings the sum to a multiple of 32. The index is below 32.
unfoldable pub check_digit : ℕ → ℕ
check_digit sum = get_or luhn32_alphabet ((32 - sum % 32) % 32) 0

unfoldable pub syncthing_luhn32 : List ℕ → Option ℕ
syncthing_luhn32 s = do sum ← luhn_sum 1 0 s; some (check_digit sum)

-- A byte of the alphabet.
pub record IsDigit (c : ℕ) : Type 0 where
  pub codepoint : ℕ
  pub read : codepoint32 c ≡ some codepoint
