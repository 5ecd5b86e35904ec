-- ===== src/DeviceId/Groups.antt =====
-- Check digits in groups of 13, dashes in groups of 7 (src/device_id.rs).
use bep_rs.Prelude.{
  ℕ, zero, suc, ◌+◌, ◌-◌, ◌*◌, ◌/◌, not, ◌==◌, if◌then◌else◌, Option, some, ◌>>=◌, ◌>>◌, assert,
  List, [], ◌∷◌, ◌++◌, length, slice, take, drop, get_elem?, keep,
}
use bep_rs.DeviceId.Luhn.{syncthing_luhn32}

-- The rounds left of `for i in 0..4`, and `i`.
unfoldable pub luhnify_from : ℕ → ℕ → List ℕ → List ℕ → Option (List ℕ)
luhnify_from zero i s out = some out
luhnify_from (suc rounds) i s out = do
  part ← slice (i * 13) ((i + 1) * 13) s
  l ← syncthing_luhn32 part
  luhnify_from rounds (i + 1) s ((out ++ part) ++ l ∷ [])

unfoldable pub luhnify : List ℕ → Option (List ℕ)
unfolding luhnify_from
luhnify s = do assert (length s == 52); luhnify_from 4 0 s []

unfoldable pub unluhnify_from : ℕ → ℕ → List ℕ → List ℕ → Option (List ℕ)
unluhnify_from zero i s out = some out
unluhnify_from (suc rounds) i s out = do
  part ← slice (i * (13 + 1)) ((i + 1) * (13 + 1) - 1) s
  l ← syncthing_luhn32 part
  c ← get_elem? s ((i + 1) * 14 - 1)
  assert (l == c)
  unluhnify_from rounds (i + 1) s (out ++ part)

unfoldable pub unluhnify : List ℕ → Option (List ℕ)
unfolding unluhnify_from
unluhnify s = unluhnify_from 4 0 s []

-- `s[i * 7..(i + 1) * 7]` for `i` below `s.len() / 7` is never out of range.
unfoldable pub chunkify_from : ℕ → ℕ → ℕ → List ℕ → List ℕ → List ℕ
chunkify_from zero i num_chunks s out = out
chunkify_from (suc rounds) i num_chunks s out =
    let part = take 7 (drop (i * 7) s) in
    let dash = if i == num_chunks - 1 then [] else b'-' ∷ [] in
    chunkify_from rounds (i + 1) num_chunks s ((out ++ part) ++ dash)

unfoldable pub chunkify : List ℕ → List ℕ
unfolding chunkify_from
chunkify s = chunkify_from (length s / 7) 0 (length s / 7) s []

-- `s.replace("-", "")`
unfoldable pub unchunkify : List ℕ → List ℕ
unchunkify = keep (λ c. not (c == b'-'))
