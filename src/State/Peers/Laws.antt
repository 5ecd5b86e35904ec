-- ===== src/State/Peers/Laws.antt =====
-- What is read back of peers and addresses (src/bep_state.rs).
use bep_rs.Prelude.{
  ℕ, ◌≡◌, ap, ◌∙◌, Bool, false, if◌then◌else◌, none, some, List, [], ◌∷◌, ◌++◌, find?, any, text_eq,
  text_eq_iff, text_eq_refl, arith, Option-cases, inl, inr,
}
use bep_rs.State.Models.{Peer, peers_schema}
use bep_rs.State.Table.{IsTable}
use bep_rs.State.Monad.{Sql, BepState}
use bep_rs.State.Peers.{get_peer, add_peer}

abbrev named : List ℕ → Peer → Bool
named name p = text_eq p.name name

find?-added :
    (new stored : Peer) (name : List ℕ) (rows : List Peer)
    → stored.name ≡ new.name
    → any (peers_schema.clash new) rows ≡ false
    → find? (named name) (rows ++ stored ∷ [])
      ≡ (if text_eq new.name name then some stored else find? (named name) rows)
find?-added new stored name [] same h = rw same
find?-added new stored name (r ∷ rows) same h = ground (
  arith,
  find?-added new stored name rows same,
  text_eq_iff r.name name,
  text_eq_iff new.name name,
  text_eq_iff new.name r.name,
)

module _ (S : Sql) (table : IsTable Peer peers_schema S.peers) (name device : List ℕ)
    (s : BepState S) where
  abbrev new_peer : Peer
  new_peer = record { id = none; device_id = some device; name = name }

  -- A peer whose name no other has is added with an id that no other has, and is returned; it is
  -- then found by its name, and every other peer is found as before.
  get_peer-add_peer :
      any (peers_schema.clash new_peer) (S.peers.select s.peers) ≡ false
      → (n : ℕ) × (s' : BepState S) × (add_peer S name device s
          ≡ (some (record new_peer { id = some n }), s'))
        × ((other : List ℕ)
            → (get_peer S other s').0 ≡ (
                if text_eq name other
                then some (record new_peer { id = some n })
                else (get_peer S other s).0))
  unfolding add_peer get_peer
  get_peer-add_peer free = elim (Option-cases (S.peers.insert new_peer s.peers)) [
    | inl refused ↦ absurd (table.insert-ne-none new_peer s.peers free refused)
    | inr ((stored, rows), h) ↦
        let (n, fresh, same) = table.insert_stored new_peer stored s.peers rows h in
        let grown = table.select-insert new_peer stored s.peers rows h in
        let look = λ (other : List ℕ).
          ap (find? (named other)) grown
          ∙ find?-added new_peer stored other (S.peers.select s.peers)
              (ap (λ (p : Peer). p.name) same) free
          ∙ ap
              (λ p.
                if text_eq name other then some p else find? (named other) (S.peers.select s.peers))
              same in
        let here : find? (named name) (S.peers.select rows)
            ≡ some (record new_peer { id = some n }) =
          rw (text_eq_refl name) at (look name) in
        (n, record s { peers = rows }, rw (h, here), look)
  ]
