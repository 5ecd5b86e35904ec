-- ===== src/Prelude/Texts.antt =====
-- Equality of texts, and the lemmas on searching and filtering lists.
use Prim.Native.Nat.{ℕ}
use mathlib.Core.Path.{◌≡◌, refl, ap₂}
use mathlib.Core.Logic.{◌↔◌, inl, inr}
use mathlib.Core.Option
use mathlib.Core.List.{List, [], ◌∷◌, ◌++◌, map}
use mathlib.Core.Option.{Option, none, some}
use mathlib.Core.Bool.{Bool, true, false, not, ◌&&◌, ◌||◌}
use native.Mathlib.Omega.{arith}
use bep_rs.Prelude.Tests.{◌==◌, Bool-cases}
use bep_rs.Prelude.Lists.{keep, find?}

-- `==` on strings and on byte vectors.
unfoldable pub text_eq : List ℕ → List ℕ → Bool
text_eq [] [] = true
text_eq [] (b ∷ t) = false
text_eq (a ∷ s) [] = false
text_eq (a ∷ s) (b ∷ t) = a == b && text_eq s t

pub text_eq_sound : (s t : List ℕ) → text_eq s t ≡ true → s ≡ t
unfolding text_eq
text_eq_sound [] [] h = refl
text_eq_sound [] (b ∷ t) h = cc
text_eq_sound (a ∷ s) [] h = cc
text_eq_sound (a ∷ s) (b ∷ t) h =
    let same : a ≡ b = ground arith in ap₂ (λ x xs. x ∷ xs) same (text_eq_sound s t (ground arith))

pub text_eq_refl : (s : List ℕ) → text_eq s s ≡ true
unfolding text_eq
text_eq_refl [] = refl
text_eq_refl (a ∷ s) = ground (arith, text_eq_refl s)

pub text_eq_iff : (s t : List ℕ) → (text_eq s t ≡ true) ↔ (s ≡ t)
text_eq_iff s t = (text_eq_sound s t, λ e. rw e (text_eq_refl t))

-- `any`
abbrev pub any {ℓ} : {A : Type ℓ} → (A → Bool) → List A → Bool
any p [] = false
any p (x ∷ xs) = p x || any p xs

module _ {ℓ} {A : Type ℓ} (p : A → Bool) where
  pub any-append : (xs ys : List A) → any p (xs ++ ys) ≡ (any p xs || any p ys)
  any-append [] ys = refl
  any-append (x ∷ xs) ys = ground (arith, any-append xs ys)

  pub keep-append : (xs ys : List A) → keep p (xs ++ ys) ≡ keep p xs ++ keep p ys
  keep-append [] ys = refl
  keep-append (x ∷ xs) ys = ground (arith, keep-append xs ys)

  pub find?-append_absent : (xs ys : List A) → any p xs ≡ false → find? p (xs ++ ys) ≡ find? p ys
  find?-append_absent [] ys h = refl
  find?-append_absent (x ∷ xs) ys h = ground (arith, find?-append_absent xs ys)

  pub find?-keep-not : (xs : List A) → find? p (keep (λ x. not (p x)) xs) ≡ none
  find?-keep-not [] = refl
  find?-keep-not (x ∷ xs) = ground (arith, find?-keep-not xs)

pub find?-map {ℓ κ} :
    {A : Type ℓ} {B : Type κ} (f : A → B) (p : B → Bool) (xs : List A)
    → find? p (map f xs) ≡ Option.map f (find? (λ x. p (f x)) xs)
find?-map f p [] = refl
find?-map f p (x ∷ xs) = elim (Bool-cases (p (f x))) [
  | inl yes_x ↦ rw yes_x
  | inr no_x ↦ rw no_x (find?-map f p xs)
]

abbrev pub all {ℓ} : {A : Type ℓ} → (A → Bool) → List A → Bool
all p [] = true
all p (x ∷ xs) = p x && all p xs

pub all-append {ℓ} :
    {A : Type ℓ} (p : A → Bool) (xs ys : List A)
    → all p xs ≡ true
    → all p ys ≡ true
    → all p (xs ++ ys) ≡ true
all-append p [] ys h k = k
all-append p (x ∷ xs) ys h k = ground (arith, all-append p xs ys)
