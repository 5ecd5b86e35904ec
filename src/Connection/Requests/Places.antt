-- ===== src/Connection/Requests/Places.antt =====
-- Where a channel stands in the state, counted (src/peer_connection/).
use bep_rs.Prelude.{
  ℕ, suc, ◌+◌, ◌≡◌, refl, subst, not, ◌==◌, Bool, true, false, if◌then◌else◌, Option, none, some,
  List, [], ◌∷◌, ◌++◌, map, keep, find?, arith, Bool-cases, inl, inr,
}
use mathlib.Core.Option.{some-injective}
use bep_rs.Prelude.Int.{ℤ, ◌==ℤ◌}
use bep_rs.Connection.Requests.{
  PeerRequestListener, PeerRequestResponse, Pending, has_id, channels, insert_request, send_message,
}
use bep_rs.Connection.Requests.Answers.{queued}

abbrev pub count : ℕ → List ℕ → ℕ
count c [] = 0
count c (x ∷ xs) = if x == c then suc (count c xs) else count c xs

pub count-append : (c : ℕ) (xs ys : List ℕ) → count c (xs ++ ys) ≡ count c xs + count c ys
count-append c [] ys = omega arith
count-append c (x ∷ xs) ys = ground (arith, count-append c xs ys)

abbrev pub told : List (ℕ × PeerRequestResponse) → List ℕ
told = map (λ a. a.0)

-- How often a channel stands in the state: it waits, is queued, was answered or was dropped.
unfoldable pub places : ℕ → Pending → ℕ
places c s =
    count c (channels s.requests)
    + count c (queued s.queue)
    + count c (told s.answered)
    + count c s.cancelled

channels-append :
    (xs ys : List PeerRequestListener) (c : ℕ)
    → count c (channels (xs ++ ys)) ≡ count c (channels xs) + count c (channels ys)
channels-append [] ys c = omega arith
channels-append (x ∷ xs) ys c = ground (arith, channels-append xs ys c)

pub told-append :
    (xs ys : List (ℕ × PeerRequestResponse)) (c : ℕ)
    → count c (told (xs ++ ys)) ≡ count c (told xs) + count c (told ys)
told-append [] ys c = omega arith
told-append (x ∷ xs) ys c = ground (arith, told-append xs ys c)

queued-append :
    (xs ys : List (List ℕ × Option ℕ)) (c : ℕ)
    → count c (queued (xs ++ ys)) ≡ count c (queued xs) + count c (queued ys)
queued-append [] ys c = omega arith
queued-append ((msg, none) ∷ xs) ys c = queued-append xs ys c
queued-append ((msg, some k) ∷ xs) ys c = ground (arith, queued-append xs ys c)

-- The listeners that go and those that stay.
pub channels-keep :
    (p : PeerRequestListener → Bool) (xs : List PeerRequestListener) (c : ℕ)
    → count c (channels (keep p xs)) + count c (channels (keep (λ l. not (p l)) xs))
      ≡ count c (channels xs)
channels-keep p [] c = omega arith
channels-keep p (x ∷ xs) c = ground (arith, channels-keep p xs c)

-- A map has a key once.
abbrev pub HasUniqueIds : List PeerRequestListener → Type 0
HasUniqueIds [] = Unit
HasUniqueIds (l ∷ ls) = (keep (has_id l.id) ls ≡ []) × HasUniqueIds ls

pub ==ℤ_sound : (a b : ℤ) → (a ==ℤ b) ≡ true → a ≡ b
==ℤ_sound a b h = ground arith

pub ==ℤ_refl : (a : ℤ) → (a ==ℤ a) ≡ true
==ℤ_refl a = ground arith

-- The listener that is found is the only one of its id.
pub keep-found :
    (id : ℤ) (l : PeerRequestListener) (xs : List PeerRequestListener)
    → HasUniqueIds xs
    → find? (has_id id) xs ≡ some l
    → keep (has_id id) xs ≡ l ∷ []
keep-found id l [] u h = cc
keep-found id l (x ∷ xs) u h = elim (Bool-cases (has_id id x)) [
  | inl here ↦
      let same : x.id ≡ id = ==ℤ_sound x.id id here in
      let alone : keep (has_id id) xs ≡ [] = subst (λ i. keep (has_id i) xs ≡ []) same u.0 in
      let e : x ≡ l = some-injective _ _ (rw here at h) in rw (here, alone, e)
  | inr there ↦ rw there (keep-found id l xs u.1 (rw there at h))
]

keep-keep_nil :
    (p q : PeerRequestListener → Bool) (xs : List PeerRequestListener)
    → keep p xs ≡ []
    → keep p (keep q xs) ≡ []
keep-keep_nil p q [] h = refl
keep-keep_nil p q (x ∷ xs) h = ground (arith, keep-keep_nil p q xs)

keep-not_self :
    (p : PeerRequestListener → Bool) (xs : List PeerRequestListener)
    → keep p (keep (λ l. not (p l)) xs) ≡ []
keep-not_self p [] = refl
keep-not_self p (x ∷ xs) = ground (arith, keep-not_self p xs)

pub HasUniqueIds-keep :
    (q : PeerRequestListener → Bool) (xs : List PeerRequestListener)
    → HasUniqueIds xs
    → HasUniqueIds (keep q xs)
HasUniqueIds-keep q [] u = tt
HasUniqueIds-keep q (x ∷ xs) u = elim (Bool-cases (q x)) [
  | inl kept ↦ rw kept (keep-keep_nil (has_id x.id) q xs u.0, HasUniqueIds-keep q xs u.1)
  | inr gone ↦ rw gone (HasUniqueIds-keep q xs u.1)
]

keep-snoc :
    (id : ℤ) (l : PeerRequestListener) (xs : List PeerRequestListener)
    → (l.id ==ℤ id) ≡ false
    → keep (has_id id) xs ≡ []
    → keep (has_id id) (xs ++ l ∷ []) ≡ []
keep-snoc id l [] ne h = rw ne
keep-snoc id l (x ∷ xs) ne h = ground (arith, keep-snoc id l xs ne)

HasUniqueIds-snoc :
    (l : PeerRequestListener) (xs : List PeerRequestListener)
    → HasUniqueIds xs
    → keep (has_id l.id) xs ≡ []
    → HasUniqueIds (xs ++ l ∷ [])
HasUniqueIds-snoc l [] u h = (refl, tt)
HasUniqueIds-snoc l (x ∷ xs) u h = elim (Bool-cases (has_id l.id x)) [
  | inl same ↦ absurd (cc (rw same at h))
  | inr differ ↦
      let differ' : (l.id ==ℤ x.id) ≡ false = ground arith in
      (keep-snoc x.id l xs differ' u.0, HasUniqueIds-snoc l xs u.1 (rw differ at h))
]

abbrev pub one : ℕ → ℕ → ℕ
one k c = if k == c then 1 else 0

pub send_message-places :
    (c : ℕ) (msg : List ℕ) (first_part : Option ℕ) (s : Pending)
    → places c (send_message msg first_part s)
      ≡ places c s + elim first_part [ none ↦ 0 | some k ↦ one k c ]
unfolding send_message places
send_message-places c msg none s =
    ground (arith, queued-append s.queue ((msg, none) ∷ []) c, count-append c s.cancelled [])
send_message-places c msg (some k) s =
    ground
      (arith, queued-append s.queue ((msg, some k) ∷ []) c, count-append c s.cancelled (k ∷ []))

pub insert_request-places :
    (c : ℕ) (l : PeerRequestListener) (s : Pending)
    → places c (insert_request l s) ≡ places c s + one l.channel c
unfolding insert_request places
insert_request-places c l s = ground (
  arith,
  channels-append (keep (λ k. not (has_id l.id k)) s.requests) (l ∷ []) c,
  count-append c s.cancelled (channels (keep (has_id l.id) s.requests)),
  channels-keep (has_id l.id) s.requests c,
)

pub insert_request-HasUniqueIds :
    (l : PeerRequestListener) (s : Pending)
    → HasUniqueIds s.requests
    → HasUniqueIds (insert_request l s).requests
unfolding insert_request
insert_request-HasUniqueIds l s u =
    HasUniqueIds-snoc l (keep (λ k. not (has_id l.id k)) s.requests)
      (HasUniqueIds-keep (λ k. not (has_id l.id k)) s.requests u)
      (keep-not_self (has_id l.id) s.requests)

pub send_message-requests :
    (msg : List ℕ) (first_part : Option ℕ) (s : Pending)
    → (send_message msg first_part s).requests ≡ s.requests
unfolding send_message
send_message-requests msg first_part s = ground arith
