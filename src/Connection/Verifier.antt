-- ===== src/Connection/Verifier.antt =====
-- The check of a peer's certificate, and the TLS handshake around it (src/peer_connection/verifier.rs).
-- Running out of the bounds of an array is a panic, `none`; the id that the verifier shares with its
-- caller is passed on.
pub mod Accept
pub mod Accepted
use bep_rs.Prelude.{
  ℕ, zero, suc, ◌==◌, not, Bool, true, false, if◌then◌else◌, Option, none, some, ◌>>=◌, List, [],
  ◌∷◌, length, get_elem?, codes,
}
use bep_rs.Prelude.Outcome.{Outcome, ok, err, panicked}

-- The loop of `compare_arrays`, with the number of indices that are left.
unfoldable pub compare_from : ℕ → ℕ → List ℕ → List ℕ → Option Bool
compare_from zero i arr1 arr2 = some true
compare_from (suc left) i arr1 arr2 = do
  y ← get_elem? arr2 i
  x ← get_elem? arr1 i
  let rest = compare_from left (suc i) arr1 arr2
  if not (y == x) then some false else rest

unfoldable pub compare_arrays : List ℕ → List ℕ → Option Bool
unfolding compare_from
compare_arrays arr1 arr2 =
    if not (length arr2 == length arr1) then some false else compare_from (length arr1) 0 arr1 arr2

pub record BepVerifier : Type 0 where
  pub peer_ids : List (List ℕ)
  pub verified_id : List ℕ

abbrev pub new : List (List ℕ) → List ℕ → BepVerifier
new ids verified = record { peer_ids = ids; verified_id = verified }

-- The loop of `check_cert` on the ids that are left: its answer, and the verified id after it.
unfoldable pub check_ids : List ℕ → List (List ℕ) → List ℕ → Option (Bool × List ℕ)
unfolding compare_arrays
check_ids hash [] verified = some (false, verified)
check_ids hash (peer_id ∷ ids) verified = do
  same ← compare_arrays hash peer_id
  let rest = check_ids hash ids verified
  if same then some (true, peer_id) else rest

-- SHA-256 of ring.
module _ (sha256 : List ℕ → List ℕ) where
  unfoldable pub check_cert : BepVerifier → List ℕ → Option (Bool × List ℕ)
  unfolding check_ids
  check_cert verifier cert = check_ids (sha256 cert) verifier.peer_ids verifier.verified_id

-- What the stream, the peer and the crate rustls make of a handshake: the time of four seconds is over;
-- it fails before the peer has shown a certificate; or the peer shows this one, on which the verifier is
-- asked, and if it accepts, the rest succeeds (`none`) or fails. An error is its text.
pub data Handshake : Type 0 where
  elapsed : Handshake
  broken : List ℕ → Handshake
  presented : List ℕ → Option (List ℕ) → Handshake

-- What `verify_server_cert` and `verify_client_cert` answer, with the verified id after it: the error
-- is the text of `Error::General`.
abbrev pub verdict : Option (Bool × List ℕ) → Outcome (List ℕ) (Unit {0}) × List ℕ
verdict none = (panicked, [])
verdict (some (true, verified)) = (ok tt, verified)
verdict (some (false, verified)) = (err (codes "Invalid certificate"), verified)

-- The rest of the handshake, once the verifier has answered, and the id that is read from it then.
abbrev pub complete :
    Option (List ℕ) → Outcome (List ℕ) (Unit {0}) × List ℕ → Outcome (List ℕ) (List ℕ)
complete none (ok u, verified) = ok verified
complete (some text) (ok u, verified) = err text
complete finish (err text, verified) = err text
complete finish (panicked, verified) = panicked

module _ (sha256 : List ℕ → List ℕ) where
  unfoldable pub verify_server_cert : BepVerifier → List ℕ → Outcome (List ℕ) (Unit {0}) × List ℕ
  verify_server_cert verifier end_entity = verdict (check_cert sha256 verifier end_entity)

  unfoldable pub verify_client_cert : BepVerifier → List ℕ → Outcome (List ℕ) (Unit {0}) × List ℕ
  verify_client_cert verifier end_entity = verdict (check_cert sha256 verifier end_entity)

  -- A client asks about the server's certificate, a server about the client's. `is_usable` tells whether
  -- rustls takes the own certificate with its key, and `timed_out` is the text of that error.
  module _ (is_usable : List ℕ → List ℕ → Bool) (timed_out : List ℕ) where
    unfoldable pub shake : Bool → BepVerifier → Handshake → Outcome (List ℕ) (List ℕ)
    unfolding verify_server_cert verify_client_cert
    shake server verifier elapsed = err timed_out
    shake server verifier (broken text) = err text
    shake server verifier (presented cert finish) =
        complete finish
          (if server then verify_client_cert verifier cert else verify_server_cert verifier cert)

    unfoldable pub verify_connection :
        List ℕ → List ℕ → List (List ℕ) → Bool → Handshake → Outcome (List ℕ) (List ℕ)
    unfolding shake
    verify_connection certificate key peer_ids server handshake =
        if is_usable certificate key then shake server (new peer_ids []) handshake else panicked
