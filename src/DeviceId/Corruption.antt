-- ===== src/DeviceId/Corruption.antt =====
-- What the check digits catch, and what reading a device identifier does not check
-- (src/device_id.rs).
use bep_rs.Prelude.{
  ℕ, ◌+◌, ◌-◌, ◌%◌, ◌<◌, ◌≡◌, ◌≢◌, ◌⊎◌, inl, inr, ◌==◌, if◌then◌else◌, some, ap, sym, refl, ◌∙◌,
  List, [], ◌∷◌, ◌++◌, arith, Option-cases,
}
use bep_rs.DeviceId.Luhn.{codepoint32, addend, luhn_sum, check_digit, syncthing_luhn32}
use bep_rs.DeviceId.RoundTrip.Digits.{codepoint32-alphabet}

codepoint32-lt : (c i : ℕ) → codepoint32 c ≡ some i → i < 32
unfolding codepoint32
codepoint32-lt c i h = ground arith

codepoint32_injective : (c d i : ℕ) → codepoint32 c ≡ some i → codepoint32 d ≡ some i → c ≡ d
unfolding codepoint32
codepoint32_injective c d i hc hd = ground arith

-- The rest of the text adds the same to both sums.
luhn_sum_difference :
    (s : List ℕ) (f x y t u : ℕ) → luhn_sum f x s ≡ some t → luhn_sum f y s ≡ some u → t + y ≡ u + x
unfolding luhn_sum
luhn_sum_difference [] f x y t u ht hu = ground arith
luhn_sum_difference (c ∷ s) f x y t u ht hu = elim (Option-cases (codepoint32 c)) [
  | inl bad ↦ ground (arith, bad)
  | inr (i, good) ↦
      let step =
        luhn_sum_difference s (if f == 2 then 1 else 2) (x + addend f i) (y + addend f i) t u in
      ground (arith, good, step)
]

addend_injective :
    (f i j : ℕ) → (f ≡ 1) ⊎ (f ≡ 2) → i < 32 → j < 32 → addend f i ≡ addend f j → i ≡ j
unfolding addend
addend_injective f i j (inl one) hi hj e = omega (arith, rw one at e)
addend_injective f i j (inr two) hi hj e = omega (arith, rw two at e)

addend-lt : (f i : ℕ) → (f ≡ 1) ⊎ (f ≡ 2) → i < 32 → addend f i < 32
unfolding addend
addend-lt f i (inl one) hi = rw one (omega arith)
addend-lt f i (inr two) hi = rw two (omega arith)

check_digit_injective : (t u : ℕ) → check_digit t ≡ check_digit u → t % 32 ≡ u % 32
unfolding check_digit
check_digit_injective t u e =
    let i = (32 - t % 32) % 32 in
    let j = (32 - u % 32) % 32 in
    let same : some i ≡ some j =
      sym (codepoint32-alphabet i (omega arith))
      ∙ ap codepoint32 e
      ∙ codepoint32-alphabet j (omega arith) in
    let same_index : i ≡ j = cc in omega arith

abbrev IsFactor : ℕ → Type 0
IsFactor f = (f ≡ 1) ⊎ (f ≡ 2)

next-IsFactor : (f : ℕ) → IsFactor (if f == 2 then 1 else 2)
next-IsFactor f = ground arith

module _ (post : List ℕ) (c d : ℕ) (differ : c ≢ d) where
  sums_differ_here :
      (f x t u : ℕ)
      → IsFactor f
      → luhn_sum f x (c ∷ post) ≡ some t
      → luhn_sum f x (d ∷ post) ≡ some u
      → t % 32 ≢ u % 32
  unfolding luhn_sum
  sums_differ_here f x t u hf ht hu same = elim (Option-cases (codepoint32 c)) [
    | inl bad ↦ ground (arith, bad)
    | inr (i, hi) ↦ elim (Option-cases (codepoint32 d)) [
      | inl bad ↦ ground (arith, bad)
      | inr (j, hj) ↦
          let apart =
            luhn_sum_difference post (if f == 2 then 1 else 2) (x + addend f i) (x + addend f j) t u
              (rw hi at ht) (rw hj at hu) in
          let lt_i = addend-lt f i hf (codepoint32-lt c i hi) in
          let lt_j = addend-lt f j hf (codepoint32-lt d j hj) in
          let same_value =
            addend_injective f i j hf (codepoint32-lt c i hi) (codepoint32-lt d j hj)
              (omega arith) in
          differ (codepoint32_injective c d i hi (rw (← same_value) at hj))
    ]
  ]

  sums_differ :
      (pre : List ℕ) (f x t u : ℕ)
      → IsFactor f
      → luhn_sum f x (pre ++ c ∷ post) ≡ some t
      → luhn_sum f x (pre ++ d ∷ post) ≡ some u
      → t % 32 ≢ u % 32
  unfolding luhn_sum
  sums_differ [] f x t u hf ht hu = sums_differ_here f x t u hf ht hu
  sums_differ (b ∷ pre) f x t u hf ht hu = elim (Option-cases (codepoint32 b)) [
    | inl bad ↦ ground (arith, bad)
    | inr (i, hi) ↦
        sums_differ pre (if f == 2 then 1 else 2) (x + addend f i) t u (next-IsFactor f)
          (rw hi at ht) (rw hi at hu)
  ]

  -- Two texts that differ in one character never have the same check digit.
  pub syncthing_luhn32_detects :
      (pre : List ℕ) (l : ℕ)
      → syncthing_luhn32 (pre ++ c ∷ post) ≡ some l
      → syncthing_luhn32 (pre ++ d ∷ post) ≢ some l
  unfolding syncthing_luhn32
  syncthing_luhn32_detects pre l hc hd = elim (Option-cases (luhn_sum 1 0 (pre ++ c ∷ post))) [
    | inl bad ↦ ground (arith, bad)
    | inr (t, ht) ↦ elim (Option-cases (luhn_sum 1 0 (pre ++ d ∷ post))) [
      | inl bad ↦ ground (arith, bad)
      | inr (u, hu) ↦
          sums_differ pre 1 0 t u (inl refl) ht hu
            (check_digit_injective t u (ground (arith, ht, hu)))
    ]
  ]
