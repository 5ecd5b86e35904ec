-- ===== src/Connection/Verifier/Accepted.antt =====
-- Which connections `verify_connection` of src/peer_connection/verifier.rs lets through.
use bep_rs.Prelude.{
  ℕ, ◌≡◌, refl, sym, ap, ◌∙◌, Bool, true, false, if◌then◌else◌, Option, none, some, List, [], any,
  text_eq, Bool-cases, inl, inr,
}
use bep_rs.Prelude.Outcome.{ok, ok-injective}
use bep_rs.Connection.Verifier.{
  BepVerifier, new, Handshake, elapsed, broken, presented, check_cert, verdict, complete,
  verify_server_cert, verify_client_cert, shake, verify_connection,
}
use bep_rs.Connection.Verifier.Accept.{check_cert_lem}

-- The peer has shown this certificate, and it is that of one of these.
abbrev pub IsAcceptedAs : (List ℕ → List ℕ) → List (List ℕ) → Handshake → List ℕ → Type 0
IsAcceptedAs sha256 peer_ids handshake id =
    (cert : List ℕ) × (handshake ≡ presented cert none)
    × (id ≡ sha256 cert)
    × (any (text_eq (sha256 cert)) peer_ids ≡ true)

complete-verdict :
    (cert id verified : List ℕ) (accepted : Bool) (finish : Option (List ℕ))
    → complete finish (verdict (some (accepted, verified))) ≡ ok id
    → (accepted ≡ true) × (verified ≡ id) × (finish ≡ none)
complete-verdict cert id verified true none h = (refl, ok-injective _ _ h, refl)
complete-verdict cert id verified true (some text) h = absurd (cc h)
complete-verdict cert id verified false none h = absurd (cc h)
complete-verdict cert id verified false (some text) h = absurd (cc h)

module _ (sha256 : List ℕ → List ℕ) where
  either_side :
      (server : Bool) (verifier : BepVerifier) (cert : List ℕ)
      → (if server
          then verify_client_cert sha256 verifier cert
          else verify_server_cert sha256 verifier cert)
        ≡ verdict (check_cert sha256 verifier cert)
  unfolding verify_client_cert verify_server_cert
  either_side true verifier cert = refl
  either_side false verifier cert = refl

  shake-IsAcceptedAs :
      (is_usable : List ℕ → List ℕ → Bool) (timed_out : List ℕ) (server : Bool)
      (peer_ids : List (List ℕ)) (handshake : Handshake) (id : List ℕ)
      → shake sha256 is_usable timed_out server (new peer_ids []) handshake ≡ ok id
      → IsAcceptedAs sha256 peer_ids handshake id
  unfolding shake
  shake-IsAcceptedAs u t server peer_ids elapsed id h = absurd (cc h)
  shake-IsAcceptedAs u t server peer_ids (broken text) id h = absurd (cc h)
  shake-IsAcceptedAs u t server peer_ids (presented cert finish) id h =
      let known : Bool = any (text_eq (sha256 cert)) peer_ids in
      let (accepted, same, done) =
        complete-verdict cert id (if known then sha256 cert else []) known finish (
          rw
            (
              either_side server (new peer_ids []) cert,
              check_cert_lem sha256 (new peer_ids []) cert,
            )
            at h) in
      (cert, ap (presented cert) done, sym same ∙ rw accepted, accepted)

  -- Whatever stream, peer and TLS make of the handshake: if it succeeds, on either side, the peer has
  -- shown a certificate whose SHA-256 is one of the ids that were given, and that hash is the id that is
  -- returned.
  pub verify_connection-IsAcceptedAs :
      (is_usable : List ℕ → List ℕ → Bool) (timed_out certificate key : List ℕ)
      (peer_ids : List (List ℕ)) (server : Bool) (handshake : Handshake) (id : List ℕ)
      → verify_connection sha256 is_usable timed_out certificate key peer_ids server handshake
        ≡ ok id
      → IsAcceptedAs sha256 peer_ids handshake id
  unfolding verify_connection
  verify_connection-IsAcceptedAs u t certificate key peer_ids server handshake id h =
      elim (Bool-cases (u certificate key)) [
        | inl fine ↦ shake-IsAcceptedAs u t server peer_ids handshake id (rw fine at h)
        | inr bad ↦ absurd (cc (rw bad at h))
      ]
