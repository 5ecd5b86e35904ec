-- ===== src/DeviceId/Substitution.antt =====
-- Reading a device identifier whose characters were altered or appended to (src/device_id.rs).
use bep_rs.Prelude.{
  ℕ, zero, suc, ◌+◌, ◌-◌, ◌*◌, ◌/◌, ◌≤◌, ◌<◌, ◌≡◌, ◌≢◌, inl, inr, ◌==◌, ==_iff, ==_refl, some, none,
  ap, sym, refl, ◌∙◌, subst, List, [], ◌∷◌, ◌++◌, length, slice, drop, take, get_elem?, arith,
  Option-cases, Bool-cases, slice_around, get_elem?-append, get_elem?-append_left,
  slice-append_left,
}
use bep_rs.DeviceId.Luhn.{syncthing_luhn32}
use bep_rs.DeviceId.Groups.{unluhnify_from, unluhnify}
use bep_rs.DeviceId.Corruption.{syncthing_luhn32_detects}

-- The round for group `i` meets no panic.
record Passes (i : ℕ) (s : List ℕ) : Type 0 where
  part : List ℕ
  l : ℕ
  sliced : slice (i * (13 + 1)) ((i + 1) * (13 + 1) - 1) s ≡ some part
  checked : syncthing_luhn32 part ≡ some l
  found : get_elem? s ((i + 1) * 14 - 1) ≡ some l

module _ (i : ℕ) (s : List ℕ) where
  unluhnify_from-Passes_here :
      (rounds : ℕ) (acc r : List ℕ)
      → unluhnify_from (suc rounds) i s acc ≡ some r
      → (p : Passes i s) × (unluhnify_from rounds (i + 1) s (acc ++ p.part) ≡ some r)
  unfolding unluhnify_from
  unluhnify_from-Passes_here rounds acc r h =
      elim (Option-cases (slice (i * (13 + 1)) ((i + 1) * (13 + 1) - 1) s)) [
        | inl bad ↦ absurd (cc (rw bad at h))
        | inr (part, sliced) ↦ elim (Option-cases (syncthing_luhn32 part)) [
          | inl bad ↦ absurd (cc (rw (sliced, bad) at h))
          | inr (l, checked) ↦ elim (Option-cases (get_elem? s ((i + 1) * 14 - 1))) [
            | inl bad ↦ absurd (cc (rw (sliced, checked, bad) at h))
            | inr (c, found) ↦ elim (Bool-cases (l == c)) [
              | inl same ↦ (
                record {
                  part = part;
                  l = l;
                  sliced = sliced;
                  checked = checked;
                  found = found ∙ ap some (sym ((==_iff l c).0 same));
                },
                rw (sliced, checked, found, same) at h,
              )
              | inr bad ↦ absurd (cc (rw (sliced, checked, found, bad) at h))
            ]
          ]
        ]
      ]

unluhnify_from-Passes :
    (rounds i g : ℕ) (s acc r : List ℕ)
    → unluhnify_from rounds i s acc ≡ some r
    → i ≤ g
    → g < i + rounds
    → Passes g s
unluhnify_from-Passes zero i g s acc r h lo hi = absurd (omega arith)
unluhnify_from-Passes (suc rounds) i g s acc r h lo hi =
    let (here, rest) = unluhnify_from-Passes_here i s rounds acc r h in
    elim (Bool-cases (i == g)) [
      | inl same ↦ subst (λ k. Passes k s) ((==_iff i g).0 same) here
      | inr other ↦
          unluhnify_from-Passes rounds (i + 1) g s (acc ++ here.part) r rest (ground arith)
            (omega arith)
    ]

get_elem?-substituted :
    (pre post : List ℕ) (c d i : ℕ)
    → length pre < i
    → get_elem? (pre ++ c ∷ post) i ≡ get_elem? (pre ++ d ∷ post) i
get_elem?-substituted [] post c d zero h = absurd (omega arith)
get_elem?-substituted [] post c d (suc i) h = refl
get_elem?-substituted (x ∷ pre) post c d zero h = absurd (omega arith)
get_elem?-substituted (x ∷ pre) post c d (suc i) h =
    get_elem?-substituted pre post c d i (omega arith)

module _ (pre post : List ℕ) (c d g : ℕ) (differ : c ≢ d) where
  -- The altered position is the check digit of its group.
  not-Passes_digit :
      length pre ≡ (g + 1) * 14 - 1 → Passes g (pre ++ c ∷ post) → ¬ Passes g (pre ++ d ∷ post)
  not-Passes_digit at p q =
      let same_part : some q.part ≡ some p.part =
        sym q.sliced
        ∙ slice-append_left (g * (13 + 1)) ((g + 1) * (13 + 1) - 1) pre (d ∷ post) (omega arith)
            (omega arith)
        ∙ sym (
            slice-append_left (g * (13 + 1)) ((g + 1) * (13 + 1) - 1) pre (c ∷ post) (omega arith)
              (omega arith))
        ∙ p.sliced in
      let digit_c = get_elem?-append pre post c ((g + 1) * 14 - 1) at in
      let digit_d = get_elem?-append pre post d ((g + 1) * 14 - 1) at in
      let same : q.part ≡ p.part = cc in
      differ (cc (p.found, q.found, p.checked, q.checked, ap syncthing_luhn32 same))

  -- The altered position is one of the 13 digits before it.
  not-Passes_part :
      g * 14 ≤ length pre
      → length pre < (g + 1) * 14 - 1
      → Passes g (pre ++ c ∷ post)
      → ¬ Passes g (pre ++ d ∷ post)
  not-Passes_part lo hi p q =
      let a = g * (13 + 1) in
      let b = (g + 1) * (13 + 1) - 1 in
      let rest = take (b - a - suc (length (drop a pre))) post in
      let with_c : p.part ≡ drop a pre ++ c ∷ rest =
        slice_around a b pre c post p.part (omega arith) (omega arith) p.sliced in
      let with_d : q.part ≡ drop a pre ++ d ∷ rest =
        slice_around a b pre d post q.part (omega arith) (omega arith) q.sliced in
      let same_digit = get_elem?-substituted pre post c d ((g + 1) * 14 - 1) (omega arith) in
      let same : q.l ≡ p.l = cc (p.found, q.found, same_digit) in
      syncthing_luhn32_detects rest c d differ (drop a pre) p.l (rw with_c at p.checked)
        (rw with_d at (q.checked ∙ ap some same))

  not-Passes :
      g * 14 ≤ length pre
      → length pre < (g + 1) * 14
      → Passes g (pre ++ c ∷ post)
      → ¬ Passes g (pre ++ d ∷ post)
  not-Passes lo hi p = elim (Bool-cases (length pre == (g + 1) * 14 - 1)) [
    | inl at ↦ not-Passes_digit ((==_iff _ _).0 at) p
    | inr before ↦ not-Passes_part lo (ground (arith, before)) p
  ]

-- A device identifier (without its dashes) that is read, with any one of its 56 characters
-- replaced by another, is not read: the check digits catch every substitution.
pub unluhnify_detects :
    (pre post : List ℕ) (c d : ℕ) (r : List ℕ)
    → length pre < 56
    → c ≢ d
    → unluhnify (pre ++ c ∷ post) ≡ some r
    → unluhnify (pre ++ d ∷ post) ≡ none
unfolding unluhnify
unluhnify_detects pre post c d r short differ h =
    elim (Option-cases (unluhnify_from 4 0 (pre ++ d ∷ post) [])) [
      | inl bad ↦ bad
      | inr (r', h') ↦
          let g = length pre / 14 in
          absurd (
            not-Passes pre post c d g differ (omega arith) (omega arith)
              (unluhnify_from-Passes 4 0 g (pre ++ c ∷ post) [] r h (omega arith) (omega arith))
              (unluhnify_from-Passes 4 0 g (pre ++ d ∷ post) [] r' h' (omega arith) (omega arith)))
    ]

module _ (s junk : List ℕ) where
  unluhnify_from-append :
      (rounds i : ℕ) (acc r : List ℕ)
      → (i + rounds) * 14 ≤ length s
      → unluhnify_from rounds i s acc ≡ some r
      → unluhnify_from rounds i (s ++ junk) acc ≡ some r
  unfolding unluhnify_from
  unluhnify_from-append zero i acc r long h = h
  unluhnify_from-append (suc rounds) i acc r long h =
      let (p, rest) = unluhnify_from-Passes_here i s rounds acc r h in
      let sliced =
        slice-append_left (i * (13 + 1)) ((i + 1) * (13 + 1) - 1) s junk (omega arith)
          (omega arith) in
      let found = get_elem?-append_left s junk ((i + 1) * 14 - 1) (omega arith) in
      rw (sliced, p.sliced, p.checked, found, p.found, ==_refl p.l)
        (unluhnify_from-append rounds (i + 1) (acc ++ p.part) r (omega arith) rest)

get_elem?-lt {ℓ} :
    {A : Type ℓ} (xs : List A) (i : ℕ) {a : A} → get_elem? xs i ≡ some a → i < length xs
get_elem?-lt [] i h = cc
get_elem?-lt (x ∷ xs) zero h = omega arith
get_elem?-lt (x ∷ xs) (suc i) h = omega (arith, get_elem?-lt xs i h)

-- A text that is read is read the same with anything at all appended to it.
pub unluhnify-append : (s junk r : List ℕ) → unluhnify s ≡ some r → unluhnify (s ++ junk) ≡ some r
unfolding unluhnify
unluhnify-append s junk r h =
    let last = unluhnify_from-Passes 4 0 3 s [] r h (omega arith) (omega arith) in
    unluhnify_from-append s junk 4 0 [] r (omega (arith, get_elem?-lt s 55 last.found)) h
