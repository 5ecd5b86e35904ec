-- ===== src/Tests/Daemon.antt =====
-- The daemon with a peer that has two addresses.
use bep_rs.Prelude.{ℕ, ◌≡◌, refl, ap, subst, Bool, true, false, some, List, [], ◌∷◌, codes, text_eq}
use bep_rs.Prelude.Outcome.{ok}
use bep_rs.State.Models.{PeerAddress}
use bep_rs.State.Monad.{BepState}
use bep_rs.State.Peers.{get_peers, get_addresses}
use bep_rs.Connection.Life.{Connection, handle_connection}
use bep_rs.Daemon.{Attempt, unreachable, connected, connection, connect_to_server, run}
use bep_rs.Daemon.Stops.{IsRun, made, fell, all_addresses, run-tries_one}
use bep_rs.Tests.Database.{sql}
use bep_rs.Tests.Shared.{with_me}
use bep_rs.Tests.Wire.{wire}
use bep_rs.Tests.Life.{environment, shown}

abbrev address : ℕ → List ℕ → PeerAddress
address n text = record { id = some n; address = text; peer_id = some 1 }

abbrev state : BepState sql
state = record with_me {
  peer_addresses = address 1 (codes "home:21027") ∷ address 2 (codes "work:21027") ∷ [];
}

abbrev established : Connection
established = (handle_connection sql wire environment state false shown connection).1

abbrev reach : Bool → Attempt
reach true = connected established
reach false = unreachable (codes "refused")

abbrev attempt : List (List ℕ) → List ℕ → Attempt
attempt tried addr = reach (text_eq addr (codes "home:21027"))

-- The connection of an attempt.
abbrev reached : Attempt → Connection
reached (connected c) = c
reached (unreachable text) = established

reach-IsRun : (b : Bool) (c : Connection) → reach b ≡ connected c → IsRun sql wire c
reach-IsRun true c h = subst (IsRun sql wire) (ap reached h) (fell environment shown state made)
reach-IsRun false c h = absurd (cc h)

addresses :
    all_addresses sql (state ∷ state ∷ [])
    ≡ codes "home:21027" ∷ codes "work:21027" ∷ codes "home:21027" ∷ codes "work:21027" ∷ []
unfolding get_peers get_addresses
addresses = refl

run-tries_one_example :
    (run attempt sql (state ∷ state ∷ []) []
      ≡ (connect_to_server (attempt [] (codes "home:21027")), codes "home:21027" ∷ []))
    × (¬ (connect_to_server (attempt [] (codes "home:21027")) ≡ some (ok tt)))
run-tries_one_example =
    run-tries_one sql wire attempt (state ∷ state ∷ []) (codes "home:21027")
      (codes "work:21027" ∷ codes "home:21027" ∷ codes "work:21027" ∷ [])
      (λ tried a c h. reach-IsRun (text_eq a (codes "home:21027")) c h) addresses
