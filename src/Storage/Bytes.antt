-- ===== src/Storage/Bytes.antt =====
-- A disk as the bytes at the places of its files, which `write_block` and `read_block` of
-- src/storage_backend.rs refine.
use bep_rs.Prelude.{
  ℕ, zero, suc, ◌+◌, ◌-◌, ◌^◌, ◌<◌, ◌≤◌, ◌≡◌, refl, ◌∙◌, ltb, leb, lt→ltb, ltb→lt, ◌&&◌, true,
  Bool-cases, inl, inr, if◌then◌else◌, List, [], ◌∷◌, ◌++◌, length, length-append, length-replicate,
  length-take, take, drop, replicate, get_or, text_eq, text_eq_sound, arith,
}
use bep_rs.Prelude.Outcome.{ok}
use bep_rs.Storage.{Disk, Os, contents_of, pad_to, splice, put_file, write_block}

module _ where
  get_or-append :
      (xs ys : List ℕ) (i : ℕ)
      → get_or (xs ++ ys) i 0
        ≡ (if ltb i (length xs) then get_or xs i 0 else get_or ys (i - length xs) 0)
  get_or-append [] ys i = let e : i - 0 ≡ i = omega arith in rw e (ground arith)
  get_or-append (x ∷ xs) ys zero = ground arith
  get_or-append (x ∷ xs) ys (suc i) =
      let e : suc i - suc (length xs) ≡ i - length xs = omega arith in
      rw e (ground (arith, get_or-append xs ys i))

  get_or-replicate : (n i : ℕ) → get_or {A = ℕ} (replicate n 0) i 0 ≡ 0
  get_or-replicate zero i = refl
  get_or-replicate (suc n) zero = refl
  get_or-replicate (suc n) (suc i) = get_or-replicate n i

  get_or_past : (xs : List ℕ) (i : ℕ) → length xs ≤ i → get_or xs i 0 ≡ 0
  get_or_past [] i h = refl
  get_or_past (x ∷ xs) zero h = absurd (omega arith)
  get_or_past (x ∷ xs) (suc i) h = get_or_past xs i (omega arith)

  get_or-take : (n : ℕ) (xs : List ℕ) (i : ℕ) → i < n → get_or (take n xs) i 0 ≡ get_or xs i 0
  get_or-take zero xs i h = absurd (omega arith)
  get_or-take (suc n) [] i h = refl
  get_or-take (suc n) (x ∷ xs) zero h = refl
  get_or-take (suc n) (x ∷ xs) (suc i) h = get_or-take n xs i (omega arith)

  get_or-drop : (n : ℕ) (xs : List ℕ) (i : ℕ) → get_or (drop n xs) i 0 ≡ get_or xs (n + i) 0
  get_or-drop zero xs i = let e : 0 + i ≡ i = omega arith in rw e
  get_or-drop (suc n) [] i = refl
  get_or-drop (suc n) (x ∷ xs) i =
      let e : suc n + i ≡ suc (n + i) = omega arith in rw e (get_or-drop n xs i)

  get_or-pad_to :
      (offset : ℕ) (old : List ℕ) (i : ℕ) → get_or (pad_to offset old) i 0 ≡ get_or old i 0
  get_or-pad_to offset old i =
      get_or-append old (replicate (offset - length old) 0) i
      ∙ rw (get_or-replicate (offset - length old) (i - length old))
          (ground (arith, get_or_past old i))

  length-pad_to : (offset : ℕ) (old : List ℕ) → offset ≤ length (pad_to offset old)
  length-pad_to offset old = omega (
    arith,
    length-append old (replicate (offset - length old) 0),
    length-replicate {A = ℕ} (offset - length old) 0,
  )

-- The bytes that are written, and elsewhere the bytes that were there.
abbrev patched : ℕ → List ℕ → (ℕ → ℕ) → ℕ → ℕ
patched offset bytes before i =
    if leb offset i && ltb i (offset + length bytes) then get_or bytes (i - offset) 0 else before i

get_or-splice :
    (offset : ℕ) (bytes old : List ℕ) (i : ℕ)
    → get_or (splice offset bytes old) i 0 ≡ patched offset bytes (λ j. get_or old j 0) i
unfolding splice
get_or-splice offset [] old i = ground arith
get_or-splice offset (b ∷ bytes) old i =
    let front : List ℕ = take offset (pad_to offset old) in
    let long : length front ≡ offset =
      omega (arith, length-take offset (pad_to offset old), length-pad_to offset old) in
    let new : List ℕ = b ∷ bytes in
    get_or-append front (new ++ drop (offset + length new) old) i
    ∙ rw long (
        rw
          (
            get_or-append new (drop (offset + length new) old) (i - offset),
            get_or-drop (offset + length new) old (i - offset - length new),
          )
          (elim (Bool-cases (ltb i offset)) [
            | inl before ↦
                let lt : i < offset = ltb→lt i offset before in
                let same : get_or front i 0 ≡ get_or old i 0 =
                  get_or-take offset (pad_to offset old) i lt ∙ get_or-pad_to offset old i in
                ground (arith, same)
            | inr after ↦
                let past : offset ≤ i = ground arith in
                elim (Bool-cases (ltb (i - offset) (length new))) [
                  | inl inside ↦ ground arith
                  | inr beyond ↦
                      let le : offset + length new ≤ i = ground arith in
                      let e : offset + length new + (i - offset - length new) ≡ i = omega arith in
                      rw e (ground arith)
                ]
          ]))

-- The byte at a place of a file, 0 where the file has none.
abbrev pub byte_at : Disk → List ℕ → ℕ → ℕ
byte_at disk path i = get_or (contents_of (disk path)) i 0

module _ (os : Os) (url : List ℕ) (offset : ℕ) (bytes : List ℕ) (disk : Disk) where
  contents_of-put_file :
      (new path : List ℕ)
      → contents_of (put_file url new disk path)
        ≡ (if text_eq path url then new else contents_of (disk path))
  unfolding put_file
  contents_of-put_file new path = ground arith

  -- A write that the system allows succeeds, and changes exactly the bytes that it is given, at
  -- their places in its file: every other byte of every file is as before.
  pub byte_at-write_block :
      os.can_write url ≡ true
      → offset < 2 ^ 63
      → ((write_block os url offset bytes disk).0 ≡ ok tt)
        × ((path : List ℕ) (i : ℕ)
            → byte_at (write_block os url offset bytes disk).1 path i ≡ (
                if text_eq path url && (leb offset i && ltb i (offset + length bytes))
                then get_or bytes (i - offset) 0
                else byte_at disk path i))
  unfolding write_block
  byte_at-write_block allowed small =
      rw (allowed, lt→ltb offset (2 ^ 63) small)
        (
          refl,
          λ path i.
              rw (contents_of-put_file (splice offset bytes (contents_of (disk url))) path)
                (elim (Bool-cases (text_eq path url)) [
                  | inl same ↦
                      let e : path ≡ url = text_eq_sound path url same in
                      rw same (rw e (get_or-splice offset bytes (contents_of (disk url)) i))
                  | inr other ↦ rw other refl
                ]),
        )
