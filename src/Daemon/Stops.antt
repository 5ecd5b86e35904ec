-- ===== src/Daemon/Stops.antt =====
-- The first address is the only one that the daemon tries (src/daemon.rs).
use bep_rs.Prelude.{
  ℕ, ◌≡◌, refl, sym, ap, ◌∙◌, Bool, false, Option, none, some, List, [], ◌∷◌, ◌++◌,
}
use bep_rs.Prelude.Outcome.{Outcome, ok, err, panicked}
use bep_rs.State.Models.{Peer}
use bep_rs.State.Monad.{Sql, BepState}
use bep_rs.State.Peers.{get_peers, get_addresses}
use bep_rs.Connection.Items.{PeerConnectionError}
use bep_rs.Connection.Framing.{Wire}
use bep_rs.Connection.Verifier.{Handshake}
use bep_rs.Connection.Life.{Connection, Environment, handle_connection, run_connection}
use bep_rs.Connection.Life.Tracker.{handle_connection-is_closed, run_connection-is_closed}
use bep_rs.Connection.Life.Waiting.{Later, Later-open, wait_for_close_open}
use bep_rs.Daemon.{
  Attempt, unreachable, connected, Ending, connection, connect_to_server, go_on, connect_addresses,
  connect_peers, run,
}

-- The addresses that the loops run through, in their order.
abbrev addresses_of : (S : Sql) → BepState S → List Peer → List (List ℕ)
addresses_of S s [] = []
addresses_of S s (peer ∷ peers) = get_addresses S peer s ++ addresses_of S s peers

abbrev pub all_addresses : (S : Sql) → List (BepState S) → List (List ℕ)
all_addresses S [] = []
all_addresses S (s ∷ states) = addresses_of S s (get_peers S s) ++ all_addresses S states

-- The connections that `connect_to_server` can wait for: the one that it made, what the task of `new`
-- makes of it, with a panic too, and what comes of that later.
pub data IsRun (S : Sql) (wire : Wire) : Connection → Type 0 where
  made : IsRun S wire connection
  ran :
      {c d : Connection} (env : Environment) (number : ℕ) (w : ℕ → Bool) (handshake : Handshake)
      (s : BepState S)
      → IsRun S wire c
      → (run_connection S wire env number w false handshake s c).0 ≡ some d
      → IsRun S wire d
  fell :
      {c : Connection} (env : Environment) (handshake : Handshake) (s : BepState S)
      → IsRun S wire c
      → IsRun S wire (handle_connection S wire env s false handshake c).1
  went_on : {c d : Connection} → IsRun S wire c → Later wire (λ i. false) c d → IsRun S wire d

IsRun-open : {S : Sql} {wire : Wire} {c : Connection} → IsRun S wire c → c.is_closed ≡ false
IsRun-open made = refl
IsRun-open {S} {wire} (ran {c} {d} env number w handshake s run h) =
    run_connection-is_closed S wire env number w false handshake s c d h ∙ IsRun-open run
IsRun-open {S} {wire} (fell {c} env handshake s run) =
    handle_connection-is_closed S s wire env false handshake c ∙ IsRun-open run
IsRun-open (went_on run later) = Later-open later (IsRun-open run)

go_on-go_on :
    (r : Ending) (f g : List (List ℕ) → Ending)
    → go_on (go_on r f) g ≡ go_on r (λ tried. go_on (f tried) g)
go_on-go_on (some (ok u), tried) f g = refl
go_on-go_on (some (err e), tried) f g = refl
go_on-go_on (some panicked, tried) f g = refl
go_on-go_on (none, tried) f g = refl

module _ (attempt : List (List ℕ) → List ℕ → Attempt) where
  connect_addresses-append :
      (xs ys tried : List (List ℕ))
      → connect_addresses attempt (xs ++ ys) tried
        ≡ go_on (connect_addresses attempt xs tried) (connect_addresses attempt ys)
  unfolding connect_addresses
  connect_addresses-append [] ys tried = refl
  connect_addresses-append (x ∷ xs) ys tried =
      let step : Ending = (connect_to_server (attempt tried x), tried ++ x ∷ []) in
      ap (go_on step) (λ i later. connect_addresses-append xs ys later i)
      ∙ sym (go_on-go_on step (connect_addresses attempt xs) (connect_addresses attempt ys))

  module _ (S : Sql) where
    connect_peers-addresses :
        (s : BepState S) (peers : List Peer) (tried : List (List ℕ))
        → connect_peers attempt S s peers tried
          ≡ connect_addresses attempt (addresses_of S s peers) tried
    unfolding connect_peers connect_addresses
    connect_peers-addresses s [] tried = refl
    connect_peers-addresses s (peer ∷ peers) tried =
        ap (go_on (connect_addresses attempt (get_addresses S peer s) tried))
          (λ i later. connect_peers-addresses s peers later i)
        ∙ sym (connect_addresses-append (get_addresses S peer s) (addresses_of S s peers) tried)

    -- The nested loops are one loop over all addresses.
    run-addresses :
        (states : List (BepState S)) (tried : List (List ℕ))
        → run attempt S states tried ≡ connect_addresses attempt (all_addresses S states) tried
    unfolding run connect_addresses
    run-addresses [] tried = refl
    run-addresses (s ∷ states) tried =
        let here = addresses_of S s (get_peers S s) in
        ap (λ r. go_on r (run attempt S states)) (connect_peers-addresses s (get_peers S s) tried)
        ∙ ap (go_on (connect_addresses attempt here tried))
            (λ i later. run-addresses states later i)
        ∙ sym (connect_addresses-append here (all_addresses S states) tried)

-- What an attempt comes to does not let the loop go on.
abbrev Stops : Option (Outcome PeerConnectionError (Unit {0})) → Type 0
Stops r = ¬ (r ≡ some (ok tt))

connect_to_server-Stops :
    (S : Sql) (wire : Wire) (a : Attempt)
    → ((c : Connection) → a ≡ connected c → IsRun S wire c)
    → Stops (connect_to_server a)
unfolding connect_to_server
connect_to_server-Stops S wire (unreachable text) h = λ e. cc e
connect_to_server-Stops S wire (connected c) h =
    λ e. cc (sym (wait_for_close_open c (IsRun-open (h c refl))) ∙ e)

go_on-Stops :
    (r : Option (Outcome PeerConnectionError (Unit {0}))) (tried : List (List ℕ))
    (next : List (List ℕ) → Ending)
    → Stops r
    → go_on (r, tried) next ≡ (r, tried)
go_on-Stops (some (ok u)) tried next h = absurd (h refl)
go_on-Stops (some (err e)) tried next h = refl
go_on-Stops (some panicked) tried next h = refl
go_on-Stops none tried next h = refl

-- However many rounds there are, and whatever becomes of its connections, the daemon tries the first
-- address that its rounds find, and no other: what connecting to that comes to is its end, an error where
-- the address is not reached, and never that it goes on.
pub run-tries_one :
    (S : Sql) (wire : Wire) (attempt : List (List ℕ) → List ℕ → Attempt)
    (states : List (BepState S)) (addr : List ℕ) (others : List (List ℕ))
    → ((tried : List (List ℕ)) (a : List ℕ) (c : Connection)
        → attempt tried a ≡ connected c
        → IsRun S wire c)
    → all_addresses S states ≡ addr ∷ others
    → (run attempt S states [] ≡ (connect_to_server (attempt [] addr), addr ∷ []))
      × Stops (connect_to_server (attempt [] addr))
unfolding connect_addresses
run-tries_one S wire attempt states addr others runs first =
    let stops = connect_to_server-Stops S wire (attempt [] addr) (runs [] addr) in
    (
      run-addresses attempt S states []
          ∙ ap (λ addrs. connect_addresses attempt addrs []) first
          ∙ go_on-Stops (connect_to_server (attempt [] addr)) (addr ∷ [])
              (connect_addresses attempt others) stops,
      stops,
    )
