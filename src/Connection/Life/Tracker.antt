-- ===== src/Connection/Life/Tracker.antt =====
-- The start of a connection leaves its task tracker as it is (src/peer_connection/mod.rs,
-- `PeerConnection::new`, and src/peer_connection/handlers.rs, `handle_connection`).
use bep_rs.Prelude.{
  ℕ, ◌≡◌, refl, sym, ap, ◌∙◌, Bool, Option, none, some, List, Option-cases, inl, inr,
}
use mathlib.Core.Option.{some-injective}
use bep_rs.Prelude.Outcome.{Outcome, ok, err, panicked}
use bep_rs.Sync.Blocks.{IoError}
use bep_rs.State.Monad.{Sql, BepState}
use bep_rs.State.Peers.{get_certificate, get_key}
use bep_rs.Connection.Items.{Index, PeerConnectionError}
use bep_rs.Connection.Framing.{Wire}
use bep_rs.Connection.Requests.{drain_requests}
use bep_rs.Connection.Reading.{Exit, returned, waiting}
use bep_rs.Connection.Updates.{send_index}
use bep_rs.Connection.Verifier.{Handshake}
use bep_rs.Connection.Life.{
  Connection, Environment, set_error, set_peer, get_name, start, take_verified, with_key,
  handle_connection, drained, conclude, run_connection,
}

abbrev pub Same : Connection → Connection → Type 0
Same c d = d.is_closed ≡ c.is_closed

pub set_error-is_closed : (e : PeerConnectionError) (c : Connection) → Same c (set_error e c)
unfolding set_error
set_error-is_closed e c = elim (Option-cases c.error) [
  | inl unset ↦ rw (set_error, unset) refl
  | inr (old, is_set) ↦ rw (set_error, is_set) refl
]

set_peer-is_closed : (id : List ℕ) (c d : Connection) → set_peer id c ≡ some d → Same c d
unfolding set_peer
set_peer-is_closed id c d h = elim (Option-cases c.peer_id) [
  | inl unset ↦
      ap (λ (k : Connection). k.is_closed) (sym (some-injective _ _ (rw (unset, set_peer) at h)))
  | inr (old, is_set) ↦ absurd (cc (rw (is_set, set_peer) at h))
]

module _ (S : Sql) (s : BepState S) where
  get_name-is_closed : (c : Connection) → Same c (get_name S s c).1
  unfolding get_name
  get_name-is_closed c = elim (Option-cases c.name) [
    | inl unset ↦ rw (get_name, unset) refl
    | inr (name, is_set) ↦ rw (get_name, is_set) refl
  ]

  module _ (wire : Wire) (env : Environment) where
    start-is_closed :
        (r : Outcome IoError (Unit {0})) (sent : List Index) (c : Connection)
        → Same c (start S wire env s (r, sent) c).1
    unfolding start
    start-is_closed (ok u) sent c = refl
    start-is_closed (err e) sent c = refl
    start-is_closed panicked sent c = refl

    take_verified-is_closed :
        (r : Outcome (List ℕ) (List ℕ)) (c : Connection) → Same c (take_verified S wire env s r c).1
    unfolding take_verified
    take_verified-is_closed (ok id) c =
        let c' = (get_name S s c).1 in
        let sends = send_index S env.surroundings s id in
        elim (Option-cases (set_peer id c')) [
          | inl refused ↦ rw (take_verified, refused) (get_name-is_closed c)
          | inr (d, is_set) ↦
              rw (take_verified, is_set)
                (start-is_closed sends.0 sends.1 d
                  ∙ set_peer-is_closed id c' d is_set
                  ∙ get_name-is_closed c)
        ]
    take_verified-is_closed (err text) c = get_name-is_closed c
    take_verified-is_closed panicked c = refl

    with_key-is_closed :
        (certificate key : Option (List ℕ)) (server : Bool) (handshake : Handshake) (c : Connection)
        → Same c (with_key S wire env s certificate key server handshake c).1
    unfolding with_key
    with_key-is_closed none key server handshake c = refl
    with_key-is_closed (some certificate) none server handshake c = refl
    with_key-is_closed (some certificate) (some key) server handshake c =
        take_verified-is_closed _ c

    pub handle_connection-is_closed :
        (server : Bool) (handshake : Handshake) (c : Connection)
        → Same c (handle_connection S wire env s server handshake c).1
    unfolding handle_connection
    handle_connection-is_closed server handshake c =
        with_key-is_closed (get_certificate S s).0 (get_key S s).0 server handshake c

drained-is_closed : (w : ℕ → Bool) (c d : Connection) → drained w c ≡ some d → Same c d
unfolding drained
drained-is_closed w c d h = elim (Option-cases (drain_requests w c.pending)) [
  | inl fails ↦ absurd (cc (rw (fails, drained) at h))
  | inr (pending, e) ↦
      ap (λ (k : Connection). k.is_closed) (sym (some-injective _ _ (rw (e, drained) at h)))
]

conclude-is_closed :
    (w : ℕ → Bool) (r : Outcome PeerConnectionError Exit) (c d : Connection)
    → conclude w (r, c) ≡ some d
    → Same c d
unfolding conclude
conclude-is_closed w (ok waiting) c d h =
    ap (λ (k : Connection). k.is_closed) (sym (some-injective _ _ h))
conclude-is_closed w (ok returned) c d h = drained-is_closed w c d h
conclude-is_closed w (err e) c d h =
    drained-is_closed w (set_error e c) d h ∙ set_error-is_closed e c
conclude-is_closed w panicked c d h = absurd (cc h)

pub run_connection-is_closed :
    (S : Sql) (wire : Wire) (env : Environment) (number : ℕ) (w : ℕ → Bool) (server : Bool)
    (handshake : Handshake) (s : BepState S) (c d : Connection)
    → (run_connection S wire env number w server handshake s c).0 ≡ some d
    → Same c d
unfolding run_connection
run_connection-is_closed S wire env number w server handshake s c d h =
    let s' = (run_connection S wire env number w server handshake s c).1 in
    let (r, c') = handle_connection S wire env s' server handshake c in
    conclude-is_closed w r c' d h ∙ handle_connection-is_closed S s' wire env server handshake c
