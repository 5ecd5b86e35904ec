-- ===== src/Connection/Life/Established.antt =====
-- Whom an established connection is to (src/peer_connection/handlers.rs, `handle_connection`).
use bep_rs.Prelude.{
  ℕ, ◌≡◌, refl, sym, ap, ◌∙◌, Bool, true, none, some, List, [], ◌∷◌, map, find?, any, text_eq,
  text_eq_sound, arith, Option-cases, Bool-cases, inl, inr,
}
use mathlib.Core.Option.{some-injective}
use bep_rs.Prelude.Outcome.{Outcome, ok, err, panicked}
use bep_rs.Sync.Blocks.{IoError}
use bep_rs.State.Models.{Peer}
use bep_rs.State.Monad.{Sql, BepState}
use bep_rs.State.Peers.{get_peers, get_certificate, get_key}
use bep_rs.Connection.Items.{Index}
use bep_rs.Connection.Framing.{Wire}
use bep_rs.Connection.Serve.{device_or_empty, find_peer}
use bep_rs.Connection.Reading.{Exit, waiting}
use bep_rs.Connection.Updates.{send_index}
use bep_rs.Connection.Verifier.{Handshake, presented, verify_connection}
use bep_rs.Connection.Verifier.Accepted.{verify_connection-IsAcceptedAs}
use bep_rs.Connection.Life.{
  Connection, Environment, set_peer, get_name, get_peer, start, take_verified, with_key,
  handle_connection,
}

-- An id that one of the peers has finds the first peer that has it.
find?-any :
    (id : List ℕ) (peers : List Peer)
    → any (text_eq id) (map device_or_empty peers) ≡ true
    → (peer : Peer) × (find? (λ p. text_eq id (device_or_empty p)) peers ≡ some peer)
      × (device_or_empty peer ≡ id)
find?-any id [] h = absurd (cc h)
find?-any id (p ∷ peers) h = elim (Bool-cases (text_eq id (device_or_empty p))) [
  | inl here ↦ (p, rw here, sym (text_eq_sound id (device_or_empty p) here))
  | inr other ↦
      let (peer, found, same) = find?-any id peers (rw other at h) in (peer, rw other found, same)
]

-- The peer has shown a certificate, its SHA-256 is the device id of this peer of the database, and that
-- is the peer that the connection is to.
abbrev pub IsKnown :
    (S : Sql) → Wire → (List ℕ → List ℕ) → BepState S → Handshake → Connection → Type 0
IsKnown S wire sha256 s handshake c =
    (cert : List ℕ) × (peer : Peer) × (handshake ≡ presented cert none)
    × (device_or_empty peer ≡ sha256 cert)
    × (find_peer S (sha256 cert) s ≡ some peer)
    × ((channel : ℕ) → get_peer S s wire channel c ≡ (ok peer, c))

module _ (S : Sql) (wire : Wire) (env : Environment) (s : BepState S) where
  start_lem :
      (r : Outcome IoError (Unit {0})) (sent : List Index) (c c' : Connection) (exit : Exit)
      → start S wire env s (r, sent) c ≡ (ok exit, c')
      → (exit ≡ waiting) × (c'.peer_id ≡ c.peer_id)
  unfolding start
  start_lem (ok u) sent c c' exit h = (ground arith, sym (ap (λ r. r.1.peer_id) h))
  start_lem (err e) sent c c' exit h = absurd (cc h)
  start_lem panicked sent c c' exit h = absurd (cc h)

  set_peer_lem : (id : List ℕ) (c c' : Connection) → set_peer id c ≡ some c' → c'.peer_id ≡ some id
  unfolding set_peer
  set_peer_lem id c c' h = elim (Option-cases c.peer_id) [
    | inl unset ↦
        sym (ap (λ (v : Connection). v.peer_id) (some-injective _ _ (rw (set_peer, unset) at h)))
    | inr (old, set_already) ↦ absurd (cc (rw (set_peer, set_already) at h))
  ]

  take_verified_lem :
      (o : Outcome (List ℕ) (List ℕ)) (c c' : Connection) (exit : Exit)
      → take_verified S wire env s o c ≡ (ok exit, c')
      → (id : List ℕ) × (o ≡ ok id) × (exit ≡ waiting) × (c'.peer_id ≡ some id)
  unfolding take_verified
  take_verified_lem (ok id) c c' exit h = elim (Option-cases (set_peer id (get_name S s c).1)) [
    | inl again ↦ absurd (cc (rw (take_verified, again) at h))
    | inr (v, set_now) ↦
        let (r, sent) = send_index S env.surroundings s id in
        let (waits, kept) = start_lem r sent v c' exit (rw (take_verified, set_now) at h) in
        (id, refl, waits, kept ∙ set_peer_lem id (get_name S s c).1 v set_now)
  ]
  take_verified_lem (err text) c c' exit h = absurd (cc h)
  take_verified_lem panicked c c' exit h = absurd (cc h)

  get_peer_lem :
      (id : List ℕ) (peer : Peer) (channel : ℕ) (c : Connection)
      → c.peer_id ≡ some id
      → find_peer S id s ≡ some peer
      → get_peer S s wire channel c ≡ (ok peer, c)
  unfolding get_peer
  get_peer_lem id peer channel c set_id found = ground arith

  IsKnown-peer :
      (server : Bool) (handshake : Handshake) (certificate key : List ℕ) (c c' : Connection)
      (exit : Exit)
      → with_key S wire env s (some certificate) (some key) server handshake c ≡ (ok exit, c')
      → (exit ≡ waiting) × IsKnown S wire env.surroundings.sha256 s handshake c'
  unfolding with_key find_peer
  IsKnown-peer server handshake certificate key c c' exit h =
      let ids : List (List ℕ) = map device_or_empty (get_peers S s) in
      let (id, verified, waits, set_id) =
        take_verified_lem
          (verify_connection env.surroundings.sha256 env.is_usable env.timed_out certificate key ids
            server handshake)
          c c' exit h in
      let (cert, shown, hashed, known) =
        verify_connection-IsAcceptedAs env.surroundings.sha256 env.is_usable env.timed_out
          certificate key ids server handshake id verified in
      let (peer, found, same) = find?-any (env.surroundings.sha256 cert) (get_peers S s) known in
      (
        waits,
        (
          cert,
          peer,
          shown,
          same,
          found,
          λ channel.
              get_peer_lem (env.surroundings.sha256 cert) peer channel c'
                (set_id ∙ ap (λ i. some i) hashed) found,
        ),
      )

  -- Whoever connects: if a connection is established, on either side, the peer has shown a certificate
  -- whose SHA-256 is the device id of a peer of the database (the empty id, for a peer that has none);
  -- from then on `get_peer` gives the first such peer. `handle_connection` then waits for its tasks.
  pub handle_connection-IsKnown :
      (server : Bool) (handshake : Handshake) (c c' : Connection) (exit : Exit)
      → handle_connection S wire env s server handshake c ≡ (ok exit, c')
      → (exit ≡ waiting) × IsKnown S wire env.surroundings.sha256 s handshake c'
  unfolding handle_connection with_key
  handle_connection-IsKnown server handshake c c' exit h =
      elim (Option-cases (get_certificate S s).0) [
        | inl no_cert ↦ absurd (cc (rw (handle_connection, no_cert) at h))
        | inr (certificate, has_cert) ↦ elim (Option-cases (get_key S s).0) [
          | inl no_key ↦ absurd (cc (rw (handle_connection, has_cert, no_key) at h))
          | inr (key, has_key) ↦
              IsKnown-peer server handshake certificate key c c' exit
                (rw (handle_connection, has_cert, has_key) at h)
        ]
      ]
