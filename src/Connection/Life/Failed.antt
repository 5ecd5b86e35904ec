-- ===== src/Connection/Life/Failed.antt =====
-- How a connection that is refused ends (src/peer_connection/mod.rs, `PeerConnection::new`).
use bep_rs.Prelude.{
  ℕ, ◌≡◌, refl, ap, ◌∙◌, Bool, true, false, none, some, List, [], ◌++◌, map, All, arith,
  Option-cases, inl, inr,
}
use bep_rs.Prelude.Outcome.{err}
use bep_rs.State.Monad.{Sql, BepState}
use bep_rs.State.Folders.{add_peer_connection}
use bep_rs.State.Peers.{get_options, get_peers, get_certificate, get_key}
use bep_rs.Connection.Items.{PeerConnectionError}
use bep_rs.Connection.Framing.{Wire}
use bep_rs.Connection.Serve.{device_or_empty}
use bep_rs.Connection.Requests.{PeerRequestListener, PeerRequestResponse, Pending}
use bep_rs.Connection.Requests.Answers.{queued, drain_requests_lem}
use bep_rs.Connection.Verifier.{Handshake, verify_connection}
use bep_rs.Connection.Writing.{drop_receiver}
use bep_rs.Connection.Life.{
  Connection, Environment, set_error, get_name, wait_for_ready, fall, take_verified, with_key,
  handle_connection, drained, conclude, run_connection,
}

-- Everybody who waited was told that the connection is closed, or its channel dropped.
abbrev pub ended : Pending → Pending
ended s = record {
  requests = [];
  queue = [];
  is_open = false;
  answered =
      s.answered
      ++ map (λ (l : PeerRequestListener). (l.channel, PeerRequestResponse.closed)) s.requests;
  cancelled = s.cancelled ++ queued s.queue;
}

-- The connection has ended with the error that the peer is unknown, and everybody learns of it.
abbrev pub IsRefused : Connection → Connection → Type 0
IsRefused c c' =
    (c'.error ≡ some (some PeerConnectionError.unknown_peer))
    × (c'.pending ≡ ended c.pending)
    × (c'.peer_id ≡ c.peer_id)
    × ((is_open : Bool) → wait_for_ready is_open none c' ≡ err PeerConnectionError.unknown_peer)

module _ (S : Sql) (s : BepState S) where
  get_name_keeps :
      (c : Connection)
      → ((get_name S s c).1.error ≡ c.error)
        × ((get_name S s c).1.pending ≡ c.pending)
        × ((get_name S s c).1.peer_id ≡ c.peer_id)
  unfolding get_name
  get_name_keeps c = elim (Option-cases c.name) [
    | inl unnamed ↦ rw (get_name, unnamed) (refl, refl, refl)
    | inr (name, named) ↦ rw (get_name, named) (refl, refl, refl)
  ]

told_error :
    (is_open : Bool) (c : Connection)
    → c.error ≡ some (some PeerConnectionError.unknown_peer)
    → wait_for_ready is_open none c ≡ err PeerConnectionError.unknown_peer
unfolding wait_for_ready
told_error false c e = ground arith
told_error true c e = ground arith

drained_lem :
    (is_waited_for : ℕ → Bool) (c : Connection)
    → All (λ (l : PeerRequestListener). is_waited_for l.channel ≡ true) c.pending.requests
    → drained is_waited_for c
      ≡ some (record c {
        pending = record (c.pending) {
          requests = [];
          answered =
              c.pending.answered
              ++ map
                  (λ (l : PeerRequestListener). (l.channel, PeerRequestResponse.closed))
                  c.pending.requests;
        };
      })
unfolding drained
drained_lem is_waited_for c waited =
    rw (drained, drain_requests_lem is_waited_for c.pending waited) refl

conclude-IsRefused :
    (is_waited_for : ℕ → Bool) (c : Connection)
    → c.error ≡ none
    → All (λ (l : PeerRequestListener). is_waited_for l.channel ≡ true) c.pending.requests
    → (c' : Connection) × (conclude is_waited_for (fall (err PeerConnectionError.unknown_peer) c)
        ≡ some c')
      × IsRefused c c'
unfolding conclude drop_receiver
conclude-IsRefused is_waited_for c no_error waited =
    let dropped : Connection = record c { pending = drop_receiver none c.pending } in
    let set_now : set_error PeerConnectionError.unknown_peer dropped
        ≡ record dropped { error = some (some PeerConnectionError.unknown_peer) } =
      unfold set_error in ground arith in
    (
      record dropped {
        error = some (some PeerConnectionError.unknown_peer);
        pending = ended c.pending;
      },
      ap (drained is_waited_for) set_now
          ∙ drained_lem is_waited_for
              (record dropped { error = some (some PeerConnectionError.unknown_peer) }) waited,
      (refl, refl, refl, λ is_open. told_error is_open _ refl),
    )

module _ (S : Sql) (s s' : BepState S) (same : get_options S s' ≡ get_options S s) where
  same_certificate : (get_certificate S s').0 ≡ (get_certificate S s).0
  unfolding get_certificate
  same_certificate = elim (Option-cases (get_options S s)) [
    | inl missing ↦ rw (get_certificate, missing, same ∙ missing) refl
    | inr (options, there) ↦ rw (get_certificate, there, same ∙ there) refl
  ]

  same_key : (get_key S s').0 ≡ (get_key S s).0
  unfolding get_key
  same_key = elim (Option-cases (get_options S s)) [
    | inl missing ↦ rw (get_key, missing, same ∙ missing) refl
    | inr (options, there) ↦ rw (get_key, there, same ∙ there) refl
  ]

handle_connection_fails :
    (S : Sql) (wire : Wire) (env : Environment) (server : Bool) (handshake : Handshake)
    (s : BepState S) (c : Connection) (certificate key text : List ℕ)
    → (get_certificate S s).0 ≡ some certificate
    → (get_key S s).0 ≡ some key
    → verify_connection env.surroundings.sha256 env.is_usable env.timed_out certificate key
        (map device_or_empty (get_peers S s))
        server
        handshake
      ≡ err text
    → handle_connection S wire env s server handshake c
      ≡ fall (err PeerConnectionError.unknown_peer) (get_name S s c).1
unfolding handle_connection with_key take_verified
handle_connection_fails S wire env server handshake s c certificate key text cert_is key_is fails =
    rw (handle_connection, cert_is, key_is, fails) refl

-- A handshake that fails, on either side: the task of the connection ends, if somebody still waits for the
-- channel of each request. The connection then has the error that the peer is unknown (if it had none) and
-- no peer, every request is answered `closed`, every message that was queued is dropped with the channel
-- of who waits for it, and the queue takes no more. `wait_for_ready` tells that error to everybody who
-- asks from then on, and to everybody whose channel was dropped and who reads the error from then on.
pub run_connection-IsRefused :
    (S : Sql) (wire : Wire) (env : Environment) (number : ℕ) (is_waited_for : ℕ → Bool)
    (server : Bool) (handshake : Handshake) (s : BepState S) (c : Connection)
    (certificate key text : List ℕ)
    → (get_certificate S s).0 ≡ some certificate
    → (get_key S s).0 ≡ some key
    → verify_connection env.surroundings.sha256 env.is_usable env.timed_out certificate key
        (map device_or_empty (get_peers S s))
        server
        handshake
      ≡ err text
    → c.error ≡ none
    → All (λ (l : PeerRequestListener). is_waited_for l.channel ≡ true) c.pending.requests
    → (c' : Connection) × ((run_connection S wire env number is_waited_for server handshake s c).0
        ≡ some c')
      × IsRefused c c'
unfolding run_connection add_peer_connection get_peers get_options
run_connection-IsRefused S wire env number is_waited_for server handshake s c certificate key text
      cert_is key_is fails no_error waited =
    let entered : BepState S = (add_peer_connection S number s).1 in
    let named : Connection = (get_name S entered c).1 in
    let (same_error, same_pending, same_peer) = get_name_keeps S entered c in
    let (c', concluded, (error_is, pending_is, peer_is, told)) =
      conclude-IsRefused is_waited_for named (same_error ∙ no_error)
        (rw (ap (λ (p : Pending). p.requests) same_pending) waited) in
    (
      c',
      ap (conclude is_waited_for) (
            handle_connection_fails S wire env server handshake entered c certificate key text
              (same_certificate S s entered refl ∙ cert_is) (same_key S s entered refl ∙ key_is)
              fails)
          ∙ concluded,
      (error_is, pending_is ∙ ap ended same_pending, peer_is ∙ same_peer, told),
    )
