-- ===== src/DeviceId/RoundTrip/Luhnify.antt =====
-- `unluhnify` undoes `luhnify`.
use bep_rs.Prelude.{
  subst, ℕ, zero, suc, ◌+◌, ◌-◌, ◌*◌, ◌≡◌, refl, ap, sym, ◌∙◌, ==_refl, ==_iff, some, List, [], ◌∷◌,
  ◌++◌, length, take, drop, All, append_assoc, append-nil, arith, length-append, length-take,
  length-drop, take-append-drop, All-append, All-take, All-drop, slice-append, get_elem?-append,
}
use bep_rs.DeviceId.Luhn.{syncthing_luhn32, IsDigit}
use bep_rs.DeviceId.Groups.{luhnify_from, unluhnify_from, luhnify, unluhnify}
use bep_rs.DeviceId.RoundTrip.Digits.{syncthing_luhn32-total}

-- What `luhnify` adds to its output for the groups that are left, and how it is read back.
record Reads (rounds i : ℕ) (s rest tail : List ℕ) : Type 0 where
  printed : (out : List ℕ) → luhnify_from rounds i s out ≡ some (out ++ tail)
  length_tail : length tail ≡ rounds * 14
  digits : All IsDigit tail
  read_back :
      (front junk acc : List ℕ)
      → length front ≡ i * 14
      → unluhnify_from rounds i (front ++ (tail ++ junk)) acc ≡ some (acc ++ rest)

module _ (rounds i l : ℕ) (before p q tail : List ℕ) (hp : length p ≡ 13) where
  printed_step :
      length before ≡ i * 13
      → syncthing_luhn32 p ≡ some l
      → ((out : List ℕ) → luhnify_from rounds (i + 1) (before ++ (p ++ q)) out ≡ some (out ++ tail))
      → (out : List ℕ)
      → luhnify_from (suc rounds) i (before ++ (p ++ q)) out ≡ some (out ++ (p ++ l ∷ tail))
  unfolding luhnify_from
  printed_step hb hl ih out =
      rw (slice-append before p q (i * 13) ((i + 1) * 13) hb (omega arith), hl)
        (ih ((out ++ p) ++ l ∷ []) ∙ ap some (simp append_assoc))

  length_before_digit :
      (front : List ℕ) → length front ≡ i * 14 → length (front ++ p) ≡ (i + 1) * 14 - 1
  length_before_digit front hf = omega (arith, length-append front p)

  read_step :
      (junk : List ℕ)
      → syncthing_luhn32 p ≡ some l
      → ((front acc : List ℕ)
          → length front ≡ (i + 1) * 14
          → unluhnify_from rounds (i + 1) (front ++ (tail ++ junk)) acc ≡ some (acc ++ q))
      → (front acc : List ℕ) → length front ≡ i * 14
      → unluhnify_from (suc rounds) i (front ++ (p ++ l ∷ (tail ++ junk))) acc
        ≡ some (acc ++ (p ++ q))
  unfolding unluhnify_from
  read_step junk hl ih front acc hf =
      let at_digit = length_before_digit front hf in
      let front' : List ℕ = (front ++ p) ++ l ∷ [] in
      let regroup : front' ++ (tail ++ junk) ≡ front ++ (p ++ l ∷ (tail ++ junk)) =
        simp append_assoc in
      let rest =
        ih front' (acc ++ p) (omega (arith, at_digit, length-append (front ++ p) (l ∷ []))) in
      let found = get_elem?-append (front ++ p) (tail ++ junk) l ((i + 1) * 14 - 1) at_digit in
      rw
        (
          slice-append front p (l ∷ (tail ++ junk)) (i * (13 + 1)) ((i + 1) * (13 + 1) - 1) hf
              (omega arith),
          hl,
        )
        (rw (← append_assoc front p (l ∷ (tail ++ junk)), found, ==_refl l, append_assoc front p)
          (rw (← regroup) (rest ∙ ap some (append_assoc acc p q))))

abbrev Printable : (rounds i : ℕ) (before rest : List ℕ) → Type 0
Printable rounds i before rest = (tail : List ℕ) × Reads rounds i (before ++ rest) rest tail

Printable-step :
    (rounds i : ℕ) (before p q : List ℕ)
    → length before ≡ i * 13
    → length p ≡ 13
    → All IsDigit p
    → Printable rounds (i + 1) (before ++ p) q
    → Printable (suc rounds) i before (p ++ q)
Printable-step rounds i before p q hb hp dp (tail, ih) =
    let (l, hl, dl) = syncthing_luhn32-total p dp in
    (
      p ++ l ∷ tail,
      record {
        printed =
            printed_step rounds i l before p q tail hp hb hl
              (λ o. rw (← append_assoc before p q) (ih.printed o));
        length_tail = omega (arith, length-append p (l ∷ tail), ih.length_tail, hp);
        digits = All-append IsDigit p (l ∷ tail) dp (dl, ih.digits);
        read_back = λ front junk acc hf. rw (append_assoc p (l ∷ tail) junk) (
            read_step rounds i l before p q tail hp junk hl (λ f a h. ih.read_back f junk a h) front
              acc hf);
      },
    )

luhnify_from-Printable :
    (rounds i : ℕ) (before rest : List ℕ)
    → length before ≡ i * 13
    → length rest ≡ rounds * 13
    → All IsDigit rest
    → Printable rounds i before rest
unfolding luhnify_from unluhnify_from
luhnify_from-Printable zero i before [] hb hr d = (
  [],
  record {
    printed = λ out. ap some (sym (append-nil out));
    length_tail = refl;
    digits = tt;
    read_back = λ front junk acc hf. ap some (sym (append-nil acc));
  },
)
luhnify_from-Printable zero i before (c ∷ rest) hb hr d = absurd (omega arith)
luhnify_from-Printable (suc rounds) i before rest hb hr d =
    let p = take 13 rest in
    subst (Printable (suc rounds) i before) (take-append-drop 13 rest) (
      Printable-step rounds i before p (drop 13 rest) hb (omega (arith, length-take 13 rest))
        (All-take IsDigit 13 rest d)
        (luhnify_from-Printable rounds (i + 1) (before ++ p) (drop 13 rest)
          (omega (arith, length-append before p, length-take 13 rest))
          (omega (arith, length-drop 13 rest)) (All-drop IsDigit 13 rest d)))

-- The printed form of 52 digits.
pub record Luhnified (s out : List ℕ) : Type 0 where
  pub printed : luhnify s ≡ some out
  pub length_out : length out ≡ 56
  pub digits : All IsDigit out
  pub read_back : unluhnify out ≡ some s

pub luhnify-Luhnified :
    (s : List ℕ) → length s ≡ 52 → All IsDigit s → (out : List ℕ) × Luhnified s out
unfolding luhnify unluhnify
luhnify-Luhnified s hs d =
    let (tail, r) = luhnify_from-Printable 4 0 [] s refl hs d in
    (
      tail,
      record {
        printed = rw ((==_iff (length s) 52).1 hs) (r.printed []);
        length_out = r.length_tail;
        digits = r.digits;
        read_back = rw (append-nil tail) at (r.read_back [] [] [] refl);
      },
    )

-- Every text of 52 digits has a printed form, which is read back as that text.
pub unluhnify-luhnify :
    (s : List ℕ)
    → length s ≡ 52
    → All IsDigit s
    → (out : List ℕ) × (luhnify s ≡ some out) × (unluhnify out ≡ some s)
unluhnify-luhnify s hs d = let (out, r) = luhnify-Luhnified s hs d in (out, r.printed, r.read_back)
