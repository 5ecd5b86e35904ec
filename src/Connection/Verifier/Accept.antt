-- ===== src/Connection/Verifier/Accept.antt =====
-- Which certificates `check_cert` of src/peer_connection/verifier.rs accepts.
use bep_rs.Prelude.{
  ℕ, zero, suc, ◌≡◌, refl, sym, ap, ◌∙◌, inl, inr, ◌==◌, ==_iff, ==_refl, true, Bool-cases,
  if◌then◌else◌, some, List, [], ◌∷◌, ◌++◌, append_assoc, length, length-singleton,
  get_elem?-append, text_eq, text_eq_sound, any, arith,
}
use mathlib.Core.Bool.{true≢false}
use bep_rs.Connection.Verifier.{BepVerifier, compare_from, compare_arrays, check_ids, check_cert}

compare_from_lem :
    (p q a b : List ℕ) (n i : ℕ)
    → length p ≡ i
    → length q ≡ i
    → length a ≡ n
    → length b ≡ n
    → compare_from n i (p ++ a) (q ++ b) ≡ some (text_eq a b)
unfolding compare_from text_eq
compare_from_lem p q [] [] zero i hp hq ha hb = refl
compare_from_lem p q [] [] (suc n) i hp hq ha hb = absurd (omega arith)
compare_from_lem p q [] (y ∷ b) n i hp hq ha hb = absurd (omega arith)
compare_from_lem p q (x ∷ a) [] n i hp hq ha hb = absurd (omega arith)
compare_from_lem p q (x ∷ a) (y ∷ b) zero i hp hq ha hb = absurd (omega arith)
compare_from_lem p q (x ∷ a) (y ∷ b) (suc n) i hp hq ha hb =
    let rest : compare_from n (suc i) (p ++ x ∷ a) (q ++ y ∷ b) ≡ some (text_eq a b) =
      rw (← append_assoc p (x ∷ []) a, ← append_assoc q (y ∷ []) b)
        (compare_from_lem (p ++ x ∷ []) (q ++ y ∷ []) a b n (suc i)
          (omega (arith, length-singleton p x)) (omega (arith, length-singleton q y)) (omega arith)
          (omega arith)) in
    rw (get_elem?-append q b y i hq, get_elem?-append p a x i hp) (rw rest (ground arith))

compare_arrays_lem : (a b : List ℕ) → compare_arrays a b ≡ some (text_eq a b)
unfolding compare_arrays
compare_arrays_lem a b = elim (Bool-cases (length b == length a)) [
  | inl same ↦ rw same (
      compare_from_lem [] [] a b (length a) 0 refl refl refl
        ((==_iff (length b) (length a)).0 same))
  | inr differ ↦ rw differ (elim (Bool-cases (text_eq a b)) [
    | inr unequal ↦ ap some (sym unequal)
    | inl equal ↦
        let e : a ≡ b = text_eq_sound a b equal in
        let f : (length b == length a) ≡ true = rw e (==_refl (length b)) in
        absurd (true≢false (sym f ∙ differ))
  ])
]

check_ids_lem :
    (hash : List ℕ) (ids : List (List ℕ)) (verified : List ℕ)
    → check_ids hash ids verified
      ≡ some (any (text_eq hash) ids, if any (text_eq hash) ids then hash else verified)
unfolding check_ids
check_ids_lem hash [] verified = refl
check_ids_lem hash (id ∷ ids) verified =
    rw (compare_arrays_lem hash id) (elim (Bool-cases (text_eq hash id)) [
      | inl same ↦
          rw same
            (let e : hash ≡ id = text_eq_sound hash id same in ap (λ h. some (true, h)) (sym e))
      | inr differ ↦ rw differ (check_ids_lem hash ids verified)
    ])

-- `check_cert` never panics. It accepts a certificate exactly if its hash is one of the peer ids
-- that the verifier was given; then the verified id becomes that hash, and otherwise it is left as
-- it was.
pub check_cert_lem :
    (sha256 : List ℕ → List ℕ) (verifier : BepVerifier) (cert : List ℕ)
    → check_cert sha256 verifier cert
      ≡ some (
        any (text_eq (sha256 cert)) verifier.peer_ids,
        if any (text_eq (sha256 cert)) verifier.peer_ids then sha256 cert else verifier.verified_id,
      )
unfolding check_cert
check_cert_lem sha256 verifier cert =
    check_ids_lem (sha256 cert) verifier.peer_ids verifier.verified_id
