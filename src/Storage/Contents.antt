-- ===== src/Storage/Contents.antt =====
-- What is read after a write, and files that are written piece by piece
-- (src/storage_backend.rs).
use bep_rs.Prelude.{
  ℕ, ◌+◌, ◌-◌, ◌^◌, ◌<◌, ◌≡◌, refl, sym, ◌∙◌, ltb, lt→ltb, true, Bool-cases, inl, inr, some, List,
  [], ◌∷◌, ◌++◌, append-nil, append_assoc, length, length-append, length-replicate, length-take,
  take, drop, take-append, drop-append, drop-add, replicate, text_eq_refl, arith,
}
use bep_rs.Prelude.Outcome.{ok}
use bep_rs.Storage.{
  Disk, Os, contents_of, pad_to, splice, put_file, write_block, read_block, read_contents,
}

drop-append_past {ℓ} :
    {A : Type ℓ} (xs ys : List A) (n k : ℕ) → k ≡ length xs + n → drop k (xs ++ ys) ≡ drop n ys
drop-append_past xs ys n k h = sym (drop-add (length xs) n k (xs ++ ys) h) ∙ rw (drop-append xs ys)

splice_read :
    (offset : ℕ) (bytes old : List ℕ)
    → (rest : List ℕ) × (drop offset (splice offset bytes old) ≡ bytes ++ rest)
unfolding splice
splice_read offset [] old = (drop offset old, refl)
splice_read offset (b ∷ bytes) old =
    let front : List ℕ = take offset (pad_to offset old) in
    let long : length front ≡ offset = omega (
      arith,
      length-take offset (pad_to offset old),
      length-append old (replicate (offset - length old) 0),
      length-replicate {A = ℕ} (offset - length old) 0,
    ) in
    let new : List ℕ = b ∷ bytes in
    let back : List ℕ = drop (offset + length new) old in
    (back, drop-append_past front (new ++ back) 0 offset (omega arith))

read_contents-append :
    (os : Os) (offset : ℕ) (bytes rest contents : List ℕ)
    → offset < 2 ^ 63
    → length bytes < 2 ^ 63
    → drop offset contents ≡ bytes ++ rest
    → read_contents os offset (length bytes) contents ≡ ok bytes
unfolding read_contents
read_contents-append os offset bytes rest contents small short e =
    rw (lt→ltb offset (2 ^ 63) small, lt→ltb (length bytes) (2 ^ 63) short)
      (rw e (elim (Bool-cases (ltb (length (bytes ++ rest)) (length bytes))) [
        | inl less ↦ absurd (ground (arith, length-append bytes rest))
        | inr enough ↦ rw (enough, take-append bytes rest)
      ]))

pub read_block-read_contents :
    (os : Os) (url : List ℕ) (offset len : ℕ) (disk : Disk) (contents : List ℕ)
    → disk url ≡ some contents
    → os.can_read url ≡ true
    → read_block os url offset len disk ≡ read_contents os offset len contents
unfolding read_block
read_block-read_contents os url offset len disk contents there readable =
    rw (there, read_block) (rw readable)

-- What was written is read back from where it was written, also past the former end of the file,
-- if the system lets the program write and read it.
pub read_block-write_block :
    (os : Os) (url : List ℕ) (offset : ℕ) (bytes : List ℕ) (disk : Disk)
    → os.can_write url ≡ true
    → os.can_read url ≡ true
    → offset < 2 ^ 63
    → length bytes < 2 ^ 63
    → read_block os url offset (length bytes) (write_block os url offset bytes disk).1 ≡ ok bytes
unfolding write_block
read_block-write_block os url offset bytes disk writable readable small short =
    let (rest, e) = splice_read offset bytes (contents_of (disk url)) in
    let new : List ℕ = splice offset bytes (contents_of (disk url)) in
    let there : put_file url new disk url ≡ some new = unfold put_file in rw (text_eq_refl url) in
    rw (writable, lt→ltb offset (2 ^ 63) small)
      (read_block-read_contents os url offset (length bytes) (put_file url new disk) new there
          readable
        ∙ read_contents-append os offset bytes rest new small short e)

-- One more piece of a file whose first bytes are `p` already.
pub splice_next :
    (p bytes old : List ℕ)
    → splice (length p) bytes (p ++ drop (length p) old)
      ≡ (p ++ bytes) ++ drop (length (p ++ bytes)) old
unfolding splice
splice_next p [] old = rw (append-nil p)
splice_next p (b ∷ bytes) old =
    let new : List ℕ = b ∷ bytes in
    let file : List ℕ = p ++ drop (length p) old in
    let pad : List ℕ = replicate (length p - length file) 0 in
    let start : take (length p) (file ++ pad) ≡ p =
      rw (append_assoc p (drop (length p) old) pad) (take-append p (drop (length p) old ++ pad)) in
    let end : drop (length p + length new) file ≡ drop (length (p ++ new)) old =
      drop-append_past p (drop (length p) old) (length new) (length p + length new) refl
      ∙ drop-add (length p) (length new) (length (p ++ new)) old (length-append p new) in
    rw (start, end) (sym (append_assoc p new (drop (length (p ++ new)) old)))
