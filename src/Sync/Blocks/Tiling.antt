-- ===== src/Sync/Blocks/Tiling.antt =====
-- The blocks of a file as pieces that follow each other (src/sync_directory.rs, `gen_blocks`).
use bep_rs.Prelude.{
  ℕ, zero, suc, ◌+◌, ◌*◌, ◌≤◌, ◌≡◌, refl, sym, ap, ◌∙◌, List, [], ◌∷◌, length, take, drop,
  get_elem?, take-length, length-drop, drop-add, arith,
}
use mathlib.Core.Option.{some-injective}
use bep_rs.Prelude.Int.{pos}
use bep_rs.Sync.{SyncBlock}
use bep_rs.Sync.Blocks.Layout.{Covers}

-- From this position on, each block takes over where the one before it ends, has the hash of its
-- bytes, and nothing is left after the last.
abbrev pub IsTiling : (List ℕ → List ℕ) → ℕ → List ℕ → List SyncBlock → Type 0
IsTiling sha256 position rest [] = rest ≡ []
IsTiling sha256 position rest (b ∷ blocks) =
    (n : ℕ) × ((b.offset ≡ pos position)
      × ((b.hash ≡ sha256 (take n rest))
          × ((n ≤ length rest) × IsTiling sha256 (position + n) (drop n rest) blocks)))

drop_all {ℓ} : {A : Type ℓ} (n : ℕ) (xs : List A) → length xs ≤ n → drop n xs ≡ []
drop_all zero [] h = refl
drop_all zero (x ∷ xs) h = absurd (omega arith)
drop_all (suc n) [] h = refl
drop_all (suc n) (x ∷ xs) h = drop_all n xs (omega arith)

take_all {ℓ} : {A : Type ℓ} (n : ℕ) (xs : List A) → length xs ≡ n → take n xs ≡ xs
take_all n xs h = rw (← h) (take-length xs)

module _ (sha256 : List ℕ → List ℕ) (contents : List ℕ) (blocks : List SyncBlock)
    (c : Covers sha256 contents blocks) where
  Covers-IsTiling_from :
      (bs : List SyncBlock) (k i position : ℕ) (rest : List ℕ)
      → length bs ≡ suc k
      → i + k ≡ c.rounds
      → position ≡ i * c.bl
      → rest ≡ drop (i * c.bl) contents
      → ((j : ℕ) → get_elem? bs j ≡ get_elem? blocks (i + j))
      → IsTiling sha256 position rest bs
  Covers-IsTiling_from [] k i position rest len at hp hr same = absurd (omega arith)
  Covers-IsTiling_from (b ∷ b' ∷ bs) zero i position rest len at hp hr same = absurd (omega arith)
  Covers-IsTiling_from (b ∷ []) (suc k) i position rest len at hp hr same = absurd (omega arith)
  Covers-IsTiling_from (b ∷ []) zero i position rest len at hp hr same =
      let here : i + 0 ≡ c.rounds = omega arith in
      let e : i ≡ c.rounds = omega arith in
      let this = some-injective _ _ (same 0 ∙ ap (get_elem? blocks) here ∙ c.last) in
      (
        length rest,
        (
          ap (λ (x : SyncBlock). x.offset) this ∙ ap pos (sym (hp ∙ ap (λ t. t * c.bl) e)),
          (
            ap (λ (x : SyncBlock). x.hash) this
                ∙ ap sha256 (
                    sym (
                      take_all (length rest) rest refl
                      ∙ hr
                      ∙ ap (λ t. drop (t * c.bl) contents) e)),
            (omega arith, drop_all (length rest) rest (omega arith)),
          ),
        ),
      )
  Covers-IsTiling_from (b ∷ b' ∷ bs) (suc k) i position rest len at hp hr same =
      let here : i + 0 ≡ i = omega arith in
      let this =
        some-injective _ _ (same 0 ∙ ap (get_elem? blocks) here ∙ c.full i (omega arith)) in
      let split : c.rounds * c.bl ≡ i * c.bl + c.bl + k * c.bl =
        ap (λ (t : ℕ). t * c.bl) (sym at) ∙ grind arith in
      let inside : c.bl ≤ length rest = omega (
        arith,
        split,
        c.last_starts,
        ap (λ (t : List ℕ). length t) hr,
        length-drop (i * c.bl) contents,
      ) in
      (
        c.bl,
        (
          ap (λ (x : SyncBlock). x.offset) this ∙ ap pos (sym hp),
          (
            ap (λ (x : SyncBlock). x.hash) this ∙ ap (λ t. sha256 (take c.bl t)) (sym hr),
            (
              inside,
              Covers-IsTiling_from (b' ∷ bs) k (suc i) (position + c.bl) (drop c.bl rest)
                  (omega arith) (omega arith) (omega arith)
                  (ap (drop c.bl) hr
                    ∙ drop-add (i * c.bl) c.bl (suc i * c.bl) contents (omega arith))
                  (λ j.
                    same (suc j)
                    ∙ ap (get_elem? blocks) (let e : i + suc j ≡ suc i + j = omega arith in e)),
            ),
          ),
        ),
      )

  pub Covers-IsTiling : IsTiling sha256 0 contents blocks
  Covers-IsTiling =
      let z : 0 * c.bl ≡ 0 = omega arith in
      Covers-IsTiling_from blocks c.rounds 0 0 contents c.count (omega arith) (sym z)
        (sym (ap (λ t. drop t contents) z))
        (λ j. ap (get_elem? blocks) (let e : j ≡ 0 + j = omega arith in e))
