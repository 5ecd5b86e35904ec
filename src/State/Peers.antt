-- ===== src/State/Peers.antt =====
-- Peers and their addresses, and the options of the device (src/bep_state.rs).
pub mod Laws
use bep_rs.Prelude.{
  ℕ, ◌+◌, ◌*◌, ◌==◌, ◌<◌, Bool, true, false, if◌then◌else◌, Option, none, some, List, [], ◌∷◌, map,
  keep, find?, length, take, last?, codes, text_eq,
}
use bep_rs.State.Models.{DeviceOption, Peer, PeerAddress, same_id, same_text}
use bep_rs.State.Table.{Table}
use bep_rs.State.Monad.{
  Sql, BepState, Method, pure, panic, gets, unwrap, modify, require, ◌>>=◌, ◌>>◌,
}

module _ (S : Sql) where
  unfoldable pub get_peers : BepState S → List Peer
  get_peers s = S.peers.select s.peers

  -- `LIMIT 1`, then `.pop().unwrap()`.
  unfoldable pub get_peer : List ℕ → Method S Peer
  get_peer peer_name = do
    found ← gets (λ s. find? (λ (p : Peer). text_eq p.name peer_name) (S.peers.select s.peers))
    unwrap found

  unfoldable pub get_peer_by_id : List ℕ → Method S Peer
  get_peer_by_id dev_id = do
    found ←
        gets
          (λ s. find? (λ (p : Peer). same_text p.device_id (some dev_id)) (S.peers.select s.peers))
    unwrap found

  unfoldable pub add_peer : List ℕ → List ℕ → Method S Peer
  unfolding get_peer
  add_peer peer_name peer_id = do
    inserted ← gets (λ s.
        S.peers.insert (record { id = none; device_id = some peer_id; name = peer_name }) s.peers)
    (stored, rows) ← unwrap inserted
    modify (λ s. record s { peers = rows })
    get_peer peer_name

  -- The conversion to `[u8; 32]` checks the length.
  unfoldable pub add_peer_vec_id : List ℕ → List ℕ → Method S Peer
  unfolding add_peer
  add_peer_vec_id peer_name peer_id = do require (length peer_id == 32); add_peer peer_name peer_id

  -- A peer that has no id has no addresses.
  unfoldable pub get_addresses : Peer → BepState S → List (List ℕ)
  get_addresses peer s =
      map (λ (a : PeerAddress). a.address)
        (keep (λ (a : PeerAddress). same_id a.peer_id peer.id)
          (S.peer_addresses.select s.peer_addresses))

  unfoldable pub add_address : Peer → List ℕ → Method S (Unit {0})
  add_address peer addr = do
    inserted ← gets (λ s.
        S.peer_addresses.insert (record { id = none; address = addr; peer_id = peer.id })
          s.peer_addresses)
    (stored, rows) ← unwrap inserted
    modify (λ s. record s { peer_addresses = rows })

  -- The last row, `.pop()`.
  unfoldable pub get_options : BepState S → Option DeviceOption
  get_options s = last? (S.device_options.select s.device_options)

  unfoldable pub is_initialized : BepState S → Bool
  unfolding get_options
  is_initialized s = elim (get_options s) [ none ↦ false | some o ↦ true ]

  unfoldable pub get_certificate : Method S (List ℕ)
  unfolding get_options
  get_certificate = do o ← gets get_options; options ← unwrap o; pure options.cert

  unfoldable pub get_key : Method S (List ℕ)
  unfolding get_options
  get_key = do o ← gets get_options; options ← unwrap o; pure options.key

  -- SHA-256 is the crate ring's.
  unfoldable pub get_id : (List ℕ → List ℕ) → Method S (List ℕ)
  unfolding get_certificate
  get_id sha256 = do
    cert ← get_certificate
    require (length (sha256 cert) == 32)
    pure (sha256 cert)

  unfoldable pub get_name : BepState S → List ℕ
  unfolding get_options
  get_name s = elim (get_options s) [ none ↦ codes "Device" | some options ↦ options.device_name ]

  unfoldable pub set_name : List ℕ → Method S (Unit {0})
  unfolding get_options
  set_name name = do
    o ← gets get_options
    options ← unwrap o
    inserted ←
        gets (λ s. S.device_options.upsert (record options { device_name = name }) s.device_options)
    (stored, rows) ← unwrap inserted
    modify (λ s. record s { device_options = rows })

-- `u64::from_ne_bytes` on a little-endian machine.
unfoldable pub from_ne_bytes : List ℕ → ℕ
from_ne_bytes [] = 0
from_ne_bytes (b ∷ bytes) = b + 256 * from_ne_bytes bytes

module _ (S : Sql) where
  unfoldable pub get_short_id : (List ℕ → List ℕ) → Method S ℕ
  unfolding get_id from_ne_bytes
  get_short_id sha256 = do id ← get_id S sha256; pure (from_ne_bytes (take 8 id))
