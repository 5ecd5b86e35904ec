-- ===== src/Prelude/Outcome.antt =====
-- What a fallible function of the program does: it returns a value or an error, or it panics.
use mathlib.Core.Path.{◌≡◌, ap}
use mathlib.Core.Bool.{Bool, true, false}
use mathlib.Core.Option.{Option, none, some}

pub data Outcome {ℓ κ} (E : Type ℓ) (A : Type κ) : Type (ℓ ⊔ κ) where
  ok : A → Outcome E A
  err : E → Outcome E A
  panicked : Outcome E A

infixl 5 ◌>>=◌ ◌>>◌
abbrev pub ◌>>=◌ {ℓ κ μ} :
    {E : Type ℓ} {A : Type κ} {B : Type μ} → Outcome E A → (A → Outcome E B) → Outcome E B
ok a >>= f = f a
err e >>= f = err e
panicked >>= f = panicked

abbrev pub ◌>>◌ {ℓ μ} : {E : Type ℓ} {B : Type μ} → Outcome E (Unit {0}) → Outcome E B → Outcome E B
m >> k = m >>= λ _. k

-- `.unwrap()` and `assert!`
abbrev pub unwrap {ℓ κ} : {E : Type ℓ} {A : Type κ} → Option A → Outcome E A
unwrap none = panicked
unwrap (some a) = ok a

abbrev pub assert {ℓ} : {E : Type ℓ} → Bool → Outcome E (Unit {0})
assert true = ok tt
assert false = panicked

-- `.ok_or(e)?`
abbrev pub ok_or {ℓ κ} : {E : Type ℓ} {A : Type κ} → E → Option A → Outcome E A
ok_or e none = err e
ok_or e (some a) = ok a

abbrev value_or {ℓ κ} : {E : Type ℓ} {A : Type κ} → A → Outcome E A → A
value_or b (ok a) = a
value_or b (err e) = b
value_or b panicked = b

pub ok-injective {ℓ κ} :
    {E : Type ℓ} {A : Type κ} (a b : A) → ◌≡◌ {A = Outcome E A} (ok a) (ok b) → a ≡ b
ok-injective a b h = ap (value_or a) h
