-- ===== src/Prelude/Lists.antt =====
-- Lists measured, cut and indexed by native numbers, under the library's names.
use Prim.Native.Nat.{ℕ, zero, suc, ◌+◌, ◌-◌, ◌≤◌, ◌<◌, min}
use Prim.Native.Char.{code}
use Prim.Native.String.{String}
use mathlib.Core.Path.{◌≡◌, refl, ap, ◌∙◌}
use mathlib.Core.List.{List, [], ◌∷◌, ◌++◌, map}
use mathlib.Core.Option.{Option, none, some}
use mathlib.Core.Bool.{Bool, true, false, ◌&&◌}
use native.Mathlib.Omega.{arith}
use bep_rs.Prelude.Tests.{leb, le→leb, if◌then◌else◌}

add_sub_cancel_lem : (a b : ℕ) → a + b - a ≡ b
add_sub_cancel_lem a b = omega arith

module _ {ℓ} {A : Type ℓ} where
  abbrev pub length : List A → ℕ
  length [] = 0
  length (x ∷ xs) = suc (length xs)

  abbrev pub get_elem? : List A → ℕ → Option A
  get_elem? [] i = none
  get_elem? (x ∷ xs) zero = some x
  get_elem? (x ∷ xs) (suc i) = get_elem? xs i

  abbrev pub get_or : List A → ℕ → A → A
  get_or [] i d = d
  get_or (x ∷ xs) zero d = x
  get_or (x ∷ xs) (suc i) d = get_or xs i d

  abbrev pub take : ℕ → List A → List A
  take zero xs = []
  take (suc n) [] = []
  take (suc n) (x ∷ xs) = x ∷ take n xs

  abbrev pub drop : ℕ → List A → List A
  drop zero xs = xs
  drop (suc n) [] = []
  drop (suc n) (x ∷ xs) = drop n xs

  abbrev pub replicate : ℕ → A → List A
  replicate zero a = []
  replicate (suc n) a = a ∷ replicate n a

  -- The last element, as `slice::last`.
  abbrev pub last? : List A → Option A
  last? [] = none
  last? (x ∷ []) = some x
  last? (x ∷ y ∷ xs) = last? (y ∷ xs)

  -- `filter` by a Boolean test.
  abbrev pub keep : (A → Bool) → List A → List A
  keep p [] = []
  keep p (x ∷ xs) = let rest = keep p xs in if p x then x ∷ rest else rest

  -- `Iterator::find`
  abbrev pub find? : (A → Bool) → List A → Option A
  find? p [] = none
  find? p (x ∷ xs) = let rest = find? p xs in if p x then some x else rest

  -- Every element has the property.
  abbrev pub All {κ} : (A → Type κ) → List A → Type κ
  All P [] = Unit
  All P (x ∷ xs) = P x × All P xs

  abbrev pub is_empty : List A → Bool
  is_empty [] = true
  is_empty (x ∷ xs) = false

module _ {ℓ} {A : Type ℓ} where
  -- `s[a..b]`: out of range it panics.
  abbrev pub slice : ℕ → ℕ → List A → Option (List A)
  slice a b xs = if leb a b && leb b (length xs) then some (take (b - a) (drop a xs)) else none

  pub length-append : (xs ys : List A) → length (xs ++ ys) ≡ length xs + length ys
  length-append [] ys = omega arith
  length-append (x ∷ xs) ys = omega (arith, length-append xs ys)

  pub take-append-drop : (n : ℕ) (xs : List A) → take n xs ++ drop n xs ≡ xs
  take-append-drop zero xs = refl
  take-append-drop (suc n) [] = refl
  take-append-drop (suc n) (x ∷ xs) = ap (λ t. x ∷ t) (take-append-drop n xs)

  pub length-take : (n : ℕ) (xs : List A) → length (take n xs) ≡ min n (length xs)
  length-take zero xs = omega arith
  length-take (suc n) [] = omega arith
  length-take (suc n) (x ∷ xs) = omega (arith, length-take n xs)

  pub length-drop : (n : ℕ) (xs : List A) → length (drop n xs) ≡ length xs - n
  length-drop zero xs = omega arith
  length-drop (suc n) [] = omega arith
  length-drop (suc n) (x ∷ xs) = omega (arith, length-drop n xs)

  pub length-replicate : (n : ℕ) (a : A) → length (replicate n a) ≡ n
  length-replicate zero a = refl
  length-replicate (suc n) a = ap suc (length-replicate n a)

  pub length-map {κ} : {B : Type κ} (xs : List A) (f : A → B) → length (map f xs) ≡ length xs
  length-map [] f = refl
  length-map (x ∷ xs) f = ap suc (length-map xs f)

  pub take-append : (xs ys : List A) → take (length xs) (xs ++ ys) ≡ xs
  take-append [] ys = refl
  take-append (x ∷ xs) ys = ap (λ t. x ∷ t) (take-append xs ys)

  pub drop-append : (xs ys : List A) → drop (length xs) (xs ++ ys) ≡ ys
  drop-append [] ys = refl
  drop-append (x ∷ xs) ys = drop-append xs ys

  pub All-append {κ} : (P : A → Type κ) (xs ys : List A) → All P xs → All P ys → All P (xs ++ ys)
  All-append P [] ys hx hy = hy
  All-append P (x ∷ xs) ys hx hy = (hx.0, All-append P xs ys hx.1 hy)

  pub All-take {κ} : (P : A → Type κ) (n : ℕ) (xs : List A) → All P xs → All P (take n xs)
  All-take P zero xs h = tt
  All-take P (suc n) [] h = tt
  All-take P (suc n) (x ∷ xs) h = (h.0, All-take P n xs h.1)

  pub All-drop {κ} : (P : A → Type κ) (n : ℕ) (xs : List A) → All P xs → All P (drop n xs)
  All-drop P zero xs h = h
  All-drop P (suc n) [] h = tt
  All-drop P (suc n) (x ∷ xs) h = All-drop P n xs h.1

-- The code points of a text: its bytes, if it is ASCII. `String` has its own `[]` and `∷`.
abbrev pub codes : String → List ℕ
codes String.[] = []
codes (String.◌∷◌ c s) = code c ∷ codes s

module _ {ℓ} {A : Type ℓ} where
  pub slice-append :
      (xs p ys : List A) (i j : ℕ)
      → length xs ≡ i
      → i + length p ≡ j
      → slice i j (xs ++ (p ++ ys)) ≡ some p
  slice-append xs p ys i j hi hj = rw (le→leb i j (omega arith)) (
      rw
        (le→leb j (length (xs ++ (p ++ ys)))
          (omega (arith, length-append xs (p ++ ys), length-append p ys)))
        (rw (← hj, ← hi, drop-append xs (p ++ ys))
          (rw (add_sub_cancel_lem (length xs) (length p)) (ap some (take-append p ys)))))

  pub get_elem?-append :
      (xs ys : List A) (y : A) (i : ℕ) → length xs ≡ i → get_elem? (xs ++ y ∷ ys) i ≡ some y
  get_elem?-append [] ys y zero h = refl
  get_elem?-append [] ys y (suc i) h = absurd (omega arith)
  get_elem?-append (x ∷ xs) ys y zero h = absurd (omega arith)
  get_elem?-append (x ∷ xs) ys y (suc i) h = get_elem?-append xs ys y i (omega arith)

  pub get_elem?-append_left :
      (xs ys : List A) (i : ℕ) → i < length xs → get_elem? (xs ++ ys) i ≡ get_elem? xs i
  get_elem?-append_left [] ys i h = elim h [ ]
  get_elem?-append_left (x ∷ xs) ys zero h = refl
  get_elem?-append_left (x ∷ xs) ys (suc i) h = get_elem?-append_left xs ys i (omega arith)

  pub take-append_left : (n : ℕ) (xs ys : List A) → n ≤ length xs → take n (xs ++ ys) ≡ take n xs
  take-append_left zero xs ys h = refl
  take-append_left (suc n) [] ys h = absurd (omega arith)
  take-append_left (suc n) (x ∷ xs) ys h = ap (λ t. x ∷ t) (take-append_left n xs ys (omega arith))

  pub drop-append_left :
      (n : ℕ) (xs ys : List A) → n ≤ length xs → drop n (xs ++ ys) ≡ drop n xs ++ ys
  drop-append_left zero xs ys h = refl
  drop-append_left (suc n) [] ys h = absurd (omega arith)
  drop-append_left (suc n) (x ∷ xs) ys h = drop-append_left n xs ys (omega arith)

  pub slice-append_left :
      (a b : ℕ) (xs ys : List A) → a ≤ b → b ≤ length xs → slice a b (xs ++ ys) ≡ slice a b xs
  slice-append_left a b xs ys hab hb =
      rw (le→leb a b hab, le→leb b (length xs) hb)
        (rw (le→leb b (length (xs ++ ys)) (omega (arith, length-append xs ys))) (
          rw (drop-append_left a xs ys (omega arith))
            (ap some (take-append_left (b - a) (drop a xs) ys (omega (arith, length-drop a xs))))))

module _ {ℓ} {A : Type ℓ} where
  take_past :
      (n : ℕ) (u : List A) (c : A) (post : List A)
      → length u < n
      → take n (u ++ c ∷ post) ≡ u ++ c ∷ take (n - suc (length u)) post
  take_past zero u c post h = absurd (omega arith)
  take_past (suc n) [] c post h = let e : suc n - 1 ≡ n = omega arith in rw e
  take_past (suc n) (x ∷ u) c post h =
      let e : suc n - suc (suc (length u)) ≡ n - suc (length u) = omega arith in
      rw e (ap (λ t. x ∷ t) (take_past n u c post (omega arith)))

  -- A slice around the position that `c` stands at.
  pub slice_around :
      (a b : ℕ) (pre : List A) (c : A) (post p : List A)
      → a ≤ length pre
      → length pre < b
      → slice a b (pre ++ c ∷ post) ≡ some p
      → p ≡ drop a pre ++ c ∷ take (b - a - suc (length (drop a pre))) post
  slice_around a b pre c post p ha hb h =
      let same : p ≡ take (b - a) (drop a (pre ++ c ∷ post)) = ground arith in
      same
      ∙ rw (drop-append_left a pre (c ∷ post) ha)
          (take_past (b - a) (drop a pre) c post (omega (arith, length-drop a pre)))

module _ {ℓ} {A : Type ℓ} where
  pub take-add : (n m k : ℕ) (s : List A) → k ≡ n + m → take k s ≡ take n s ++ take m (drop n s)
  take-add zero m k s h = let e : k ≡ m = omega arith in rw e
  take-add (suc n) m zero s h = absurd (omega arith)
  take-add (suc n) zero (suc k) [] h = refl
  take-add (suc n) (suc m) (suc k) [] h = refl
  take-add (suc n) m (suc k) (x ∷ s) h = ap (λ t. x ∷ t) (take-add n m k s (omega arith))

  pub drop-add : (n m k : ℕ) (s : List A) → k ≡ n + m → drop m (drop n s) ≡ drop k s
  drop-add zero m k s h = let e : k ≡ m = omega arith in rw e
  drop-add (suc n) m zero s h = absurd (omega arith)
  drop-add (suc n) zero (suc k) [] h = refl
  drop-add (suc n) (suc m) (suc k) [] h = refl
  drop-add (suc n) m (suc k) (x ∷ s) h = drop-add n m k s (omega arith)

  pub take-length : (s : List A) → take (length s) s ≡ s
  take-length [] = refl
  take-length (x ∷ s) = ap (λ t. x ∷ t) (take-length s)

  pub length-singleton : (xs : List A) (x : A) → length (xs ++ x ∷ []) ≡ suc (length xs)
  length-singleton xs x = omega (arith, length-append xs (x ∷ []))

pub map-take {ℓ κ} :
    {A : Type ℓ} {B : Type κ} (f : A → B) (n : ℕ) (xs : List A)
    → map f (take n xs) ≡ take n (map f xs)
map-take f zero xs = refl
map-take f (suc n) [] = refl
map-take f (suc n) (x ∷ xs) = ap (λ t. f x ∷ t) (map-take f n xs)

pub map-drop {ℓ κ} :
    {A : Type ℓ} {B : Type κ} (f : A → B) (n : ℕ) (xs : List A)
    → map f (drop n xs) ≡ drop n (map f xs)
map-drop f zero xs = refl
map-drop f (suc n) [] = refl
map-drop f (suc n) (x ∷ xs) = map-drop f n xs
