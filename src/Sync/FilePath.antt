-- ===== src/Sync/FilePath.antt =====
-- Paths as the standard library reads them on Unix, and the name of a file in the protocol
-- (src/sync_directory.rs, `get_name`). A path is its text.
use bep_rs.Prelude.{
  ℕ, ◌==◌, if◌then◌else◌, Bool, true, false, not, ◌&&◌, none, some, List, [], ◌∷◌, ◌++◌, is_empty,
  keep, last?,
}

-- The text between slashes, where `part` is the text since the last one.
unfoldable pub split_from : List ℕ → List ℕ → List (List ℕ)
split_from part [] = part ∷ []
split_from part (c ∷ s) = elim (c == b'/') [
  | true ↦ part ∷ split_from [] s
  | false ↦ split_from (part ++ c ∷ []) s
]

abbrev is_dot : List ℕ → Bool
is_dot (c ∷ []) = c == b'.'
is_dot _ = false

abbrev pub is_absolute : List ℕ → Bool
is_absolute [] = false
is_absolute (c ∷ s) = c == b'/'

-- `Path::components`: empty parts are skipped, and so is a `.` but at the very start. The root
-- of an absolute path is a component, written `/`.
abbrev is_kept : List ℕ → Bool
is_kept part = not (is_empty part) && not (is_dot part)

abbrev first_part : Bool → List (List ℕ) → List (List ℕ)
first_part true parts = keep is_kept parts
first_part false [] = []
first_part false (p ∷ parts) = keep (λ q. not (is_empty q)) (p ∷ []) ++ keep is_kept parts

unfoldable pub components : List ℕ → List (List ℕ)
unfolding split_from
components path =
    if is_absolute path
    then (b'/' ∷ []) ∷ first_part true (split_from [] path)
    else first_part false (split_from [] path)

-- `acc + "/" + x`, for each component.
unfoldable pub join_slashed : List ℕ → List (List ℕ) → List ℕ
join_slashed acc [] = acc
join_slashed acc (x ∷ parts) = join_slashed ((acc ++ b'/' ∷ []) ++ x) parts

-- `.trim_matches('/')`
abbrev trim_start : List ℕ → List ℕ
trim_start [] = []
trim_start (c ∷ s) = let rest = trim_start s in if c == b'/' then rest else c ∷ s

-- The text without the slashes at its end.
abbrev trim_end : List ℕ → List ℕ
trim_end [] = []
trim_end (c ∷ s) = let rest = trim_end s in if is_empty rest && c == b'/' then [] else c ∷ rest

unfoldable pub components_name : List ℕ → List ℕ
unfolding components join_slashed
components_name path = trim_end (trim_start (join_slashed [] (components path)))

-- `PathBuf::push`: an absolute path replaces the path that it is pushed on.
unfoldable pub push : List ℕ → List ℕ → List ℕ
push path other = if is_absolute other then other else elim (last? path) [
  | none ↦ other
  | some c ↦ if c == b'/' then path ++ other else path ++ b'/' ∷ other
]
