-- ===== src/DeviceId/RoundTrip/Chunkify.antt =====
-- `unchunkify` takes out the dashes that `chunkify` puts in.
use bep_rs.Prelude.{
  ℕ, zero, suc, ◌+◌, ◌*◌, ◌/◌, ◌%◌, ◌≡◌, refl, ap, ◌∙◌, not, ◌==◌, Bool, true, false, if◌then◌else◌,
  List, [], ◌∷◌, ◌++◌, length, keep, take, drop, append_assoc, append-nil, take-add, drop-add,
  take-length, arith,
}
use bep_rs.DeviceId.Groups.{chunkify_from, chunkify, unchunkify}

keep-append {ℓ} :
    {A : Type ℓ} (p : A → Bool) (xs ys : List A) → keep p (xs ++ ys) ≡ keep p xs ++ keep p ys
keep-append p [] ys = refl
keep-append p (x ∷ xs) ys = ground (arith, keep-append p xs ys)

pub unchunkify-append : (xs ys : List ℕ) → unchunkify (xs ++ ys) ≡ unchunkify xs ++ unchunkify ys
unfolding unchunkify
unchunkify-append = keep-append (λ c. not (c == b'-'))

unchunkify-dash : (b : Bool) → unchunkify (if b then [] else b'-' ∷ []) ≡ []
unfolding unchunkify
unchunkify-dash true = refl
unchunkify-dash false = refl

unchunkify_nil : unchunkify [] ≡ []
unfolding unchunkify
unchunkify_nil = refl

-- The groups that are left, without their dashes.
unchunkify-chunkify_from :
    (rounds i n : ℕ) (s out : List ℕ)
    → unchunkify (chunkify_from rounds i n s out)
      ≡ unchunkify out ++ unchunkify (take (rounds * 7) (drop (i * 7) s))
unfolding chunkify_from
unchunkify-chunkify_from zero i n s out = rw (unchunkify_nil, append-nil)
unchunkify-chunkify_from (suc rounds) i n s out =
    let part = take 7 (drop (i * 7) s) in
    let groups =
      take-add 7 (rounds * 7) (suc rounds * 7) (drop (i * 7) s) (omega arith)
      ∙ ap (λ t. part ++ take (rounds * 7) t) (drop-add (i * 7) 7 ((i + 1) * 7) s (omega arith)) in
    unchunkify-chunkify_from rounds (i + 1) n s _
    ∙ rw groups (simp (unchunkify-append, unchunkify-dash, append-nil, append_assoc))

-- In a text with no dash, of a whole number of groups, nothing is lost.
pub unchunkify-chunkify :
    (s : List ℕ) → length s % 7 ≡ 0 → unchunkify s ≡ s → unchunkify (chunkify s) ≡ s
unfolding chunkify
unchunkify-chunkify s h plain =
    unchunkify-chunkify_from (length s / 7) 0 (length s / 7) s []
    ∙ rw unchunkify_nil
        (rw (let e : length s / 7 * 7 ≡ length s = omega arith in e) (rw (take-length s) plain))
