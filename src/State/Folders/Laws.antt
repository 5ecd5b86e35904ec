-- ===== src/State/Folders/Laws.antt =====
-- What adding, removing and sharing a directory do (src/bep_state.rs).
use bep_rs.Prelude.{
  ℕ, ◌≡◌, ◌≢◌, refl, ap, ◌∙◌, ◌||◌, not, Bool, true, false, if◌then◌else◌, Option, none, some, List,
  [], ◌∷◌, ◌++◌, keep, find?, text_eq, text_eq_refl, text_eq_iff, any, find?-map, arith,
  Option-cases, Bool-cases, inl, inr, ◌⊎◌,
}
use mathlib.Core.Option
use bep_rs.Sync.{SyncDirectory}
use bep_rs.State.Models.{SyncFolder, sync_folders_schema}
use bep_rs.State.Table.{IsTable}
use bep_rs.State.Monad.{Sql, BepState}
use bep_rs.State.Folders.{
  is_some, is_usable, id_or, store_folder, model_to_sync_dir, get_sync_directories,
  get_sync_directory, remove_sync_directory, add_sync_directory, is_directory_synced,
}

abbrev named : List ℕ → SyncFolder → Bool
named id r = text_eq r.id id

find?-removed :
    (id j : List ℕ) (rows : List SyncFolder)
    → find? (named j) (keep (λ r. not (named id r)) rows)
      ≡ (if text_eq id j then none else find? (named j) rows)
find?-removed id j [] = ground arith
find?-removed id j (r ∷ rows) =
    ground
      (arith, find?-removed id j rows, text_eq_iff id j, text_eq_iff r.id j, text_eq_iff r.id id)

-- A row that clashes with none has an id of its own.
absent_of_free :
    (new : SyncFolder) (rows : List SyncFolder)
    → any (sync_folders_schema.clash new) rows ≡ false
    → find? (named new.id) rows ≡ none
absent_of_free new [] h = refl
absent_of_free new (r ∷ rows) h =
    ground (arith, absent_of_free new rows, text_eq_iff r.id new.id, text_eq_iff new.id r.id)

find?-added :
    (new : SyncFolder) (j : List ℕ) (rows : List SyncFolder)
    → any (sync_folders_schema.clash new) rows ≡ false
    → find? (named j) (rows ++ new ∷ [])
      ≡ (if text_eq new.id j then some new else find? (named j) rows)
find?-added new j [] h = refl
find?-added new j (r ∷ rows) h = ground (
  arith,
  find?-added new j rows,
  text_eq_iff r.id j,
  text_eq_iff new.id j,
  text_eq_iff new.id r.id,
)

cons_ne_nil {ℓ} : {A : Type ℓ} {x : A} {xs : List A} → x ∷ xs ≢ []
cons_ne_nil h = cc

some_ne_none {ℓ} : {A : Type ℓ} {x : A} → some x ≢ none
some_ne_none h = cc

text_eq_sym : (s t : List ℕ) → text_eq s t ≡ text_eq t s
text_eq_sym s t = ground (arith, text_eq_iff s t, text_eq_iff t s)

map-if {ℓ κ} :
    {A : Type ℓ} {B : Type κ} (f : A → B) (b : Bool) (x y : Option A)
    → Option.map f (if b then x else y) ≡ (if b then Option.map f x else Option.map f y)
map-if f true x y = refl
map-if f false x y = refl

get_sync_directory-find? :
    (S : Sql) (id : List ℕ) (s : BepState S)
    → get_sync_directory S id s
      ≡ Option.map model_to_sync_dir (find? (named id) (S.sync_folders.select s.sync_folders))
unfolding get_sync_directory get_sync_directories
get_sync_directory-find? S id s =
    find?-map model_to_sync_dir (λ d. text_eq d.id id) (S.sync_folders.select s.sync_folders)

-- A directory that is found has a row of its id.
keep-of-find? :
    (id : List ℕ) (rows : List SyncFolder)
    → keep (named id) rows ≡ []
    → find? (named id) rows ≡ none
keep-of-find? id [] h = refl
keep-of-find? id (r ∷ rows) h = elim (Bool-cases (named id r)) [
  | inl here ↦ absurd (cons_ne_nil (rw here at h))
  | inr other ↦ rw other (keep-of-find? id rows (rw other at h))
]

pub get_sync_directory-found :
    (S : Sql) (id : List ℕ) (dir : SyncDirectory) (s : BepState S)
    → get_sync_directory S id s ≡ some dir
    → keep (named id) (S.sync_folders.select s.sync_folders) ≢ []
get_sync_directory-found S id dir s there none_kept =
    let lost = keep-of-find? id (S.sync_folders.select s.sync_folders) none_kept in
    let found = rw (get_sync_directory-find? S id s, lost) at there in cc

find?-free :
    (new : SyncFolder) (rows : List SyncFolder)
    → new.dir_path ≡ none
    → find? (named new.id) rows ≡ none
    → any (sync_folders_schema.clash new) rows ≡ false
find?-free new [] nowhere h = refl
find?-free new (r ∷ rows) nowhere h = elim (Bool-cases (named new.id r)) [
  | inl here ↦ absurd (some_ne_none (rw here at h))
  | inr other ↦
      rw (text_eq_sym new.id r.id, other, nowhere) (find?-free new rows nowhere (rw other at h))
]

-- A row of an id that no directory has, and of no path, clashes with none.
pub get_sync_directory-free :
    (S : Sql) (new : SyncFolder) (s : BepState S)
    → new.dir_path ≡ none
    → get_sync_directory S new.id s ≡ none
    → any (sync_folders_schema.clash new) (S.sync_folders.select s.sync_folders) ≡ false
get_sync_directory-free S new s nowhere unknown =
    elim (Option-cases (find? (named new.id) (S.sync_folders.select s.sync_folders))) [
      | inl absent ↦ find?-free new _ nowhere absent
      | inr (row, h) ↦
          absurd (some_ne_none (rw (get_sync_directory-find? S new.id s, h) at unknown))
    ]

store_folder-elsewhere :
    (S : Sql) (new : SyncFolder) (s : BepState S)
    → ((store_folder S new s).1.folder_shares ≡ s.folder_shares)
      × ((store_folder S new s).1.peers ≡ s.peers)
unfolding store_folder
store_folder-elsewhere S new s = elim (Option-cases (S.sync_folders.insert new s.sync_folders)) [
  | inl refused ↦ (rw refused, rw refused)
  | inr ((stored, rows), h) ↦ (rw h, rw h)
]

pub add_sync_directory-elsewhere :
    (S : Sql) (exists : List ℕ → Bool) (random_id : List ℕ) (path : Option (List ℕ))
    (label : List ℕ) (id : Option (List ℕ)) (s : BepState S)
    → ((add_sync_directory S exists random_id path label id s).1.folder_shares ≡ s.folder_shares)
      × ((add_sync_directory S exists random_id path label id s).1.peers ≡ s.peers)
unfolding add_sync_directory
add_sync_directory-elsewhere S exists random_id path label id s =
    elim (Bool-cases (is_some path || is_some id)) [
      | inr not_given ↦ (rw not_given, rw not_given)
      | inl given ↦ elim (Bool-cases (is_usable exists path)) [
        | inr unusable ↦ (rw (given, unusable), rw (given, unusable))
        | inl usable ↦
            let new : SyncFolder = record {
              id = id_or random_id id;
              label = label;
              dir_path = path;
            } in
            let (shares, peers) = store_folder-elsewhere S new s in
            (rw (given, usable) shares, rw (given, usable) peers)
      ]
    ]

pub add_sync_directory-is_directory_synced :
    (S : Sql) (exists : List ℕ → Bool) (random_id : List ℕ) (path : Option (List ℕ))
    (label : List ℕ) (id : Option (List ℕ)) (d : List ℕ) (peer : ℕ) (s : BepState S)
    → is_directory_synced S d peer (add_sync_directory S exists random_id path label id s).1
      ≡ is_directory_synced S d peer s
unfolding is_directory_synced
add_sync_directory-is_directory_synced S exists random_id path label id d peer s =
    rw (add_sync_directory-elsewhere S exists random_id path label id s).0

-- Removing a directory and then adding one, under the same id or another and whether that
-- succeeds or panics, changes for no directory and no peer whether the one counts as shared with
-- the other: a peer of the removed directory is let in to the one that takes its id.
pub is_directory_synced-remove_sync_directory :
    (S : Sql) (exists : List ℕ → Bool) (random_id : List ℕ) (path : Option (List ℕ))
    (label : List ℕ) (id : Option (List ℕ)) (removed d : List ℕ) (peer : ℕ) (s : BepState S)
    → is_directory_synced S d peer
        (add_sync_directory S exists random_id path label id
          (remove_sync_directory S removed s).1).1
      ≡ is_directory_synced S d peer s
unfolding remove_sync_directory is_directory_synced
is_directory_synced-remove_sync_directory S exists random_id path label id removed d peer s =
    rw
      (add_sync_directory-elsewhere S exists random_id path label id
        (remove_sync_directory S removed s).1).0

module _ (S : Sql) (folders : IsTable SyncFolder sync_folders_schema S.sync_folders) where
  -- After `remove_sync_directory` the directory is not found by its id, and every other is found as before.
  get_sync_directory-remove_sync_directory :
      (id j : List ℕ) (s : BepState S)
      → get_sync_directory S j (remove_sync_directory S id s).1
        ≡ (if text_eq id j then none else get_sync_directory S j s)
  unfolding remove_sync_directory
  get_sync_directory-remove_sync_directory id j s =
      get_sync_directory-find? S j _
      ∙ rw folders.select-delete (
          ap (Option.map model_to_sync_dir)
            (find?-removed id j (S.sync_folders.select s.sync_folders))
          ∙ map-if model_to_sync_dir (text_eq id j) none _
          ∙ rw (get_sync_directory-find? S j s))

  get_sync_directory-added :
      (new : SyncFolder) (s s' : BepState S) (j : List ℕ)
      → any (sync_folders_schema.clash new) (S.sync_folders.select s.sync_folders) ≡ false
      → S.sync_folders.select s'.sync_folders ≡ S.sync_folders.select s.sync_folders ++ new ∷ []
      → get_sync_directory S j s'
        ≡ (if text_eq new.id j then some (model_to_sync_dir new) else get_sync_directory S j s)
  get_sync_directory-added new s s' j free rows =
      get_sync_directory-find? S j s'
      ∙ rw rows (
          ap (Option.map model_to_sync_dir) (find?-added new j _ free)
          ∙ map-if model_to_sync_dir (text_eq new.id j) (some new) _
          ∙ rw (get_sync_directory-find? S j s))

  store_folder-stored :
      (new stored : SyncFolder) (rows : S.sync_folders.Rows) (s : BepState S)
      → any (sync_folders_schema.clash new) (S.sync_folders.select s.sync_folders) ≡ false
      → S.sync_folders.insert new s.sync_folders ≡ some (stored, rows)
      → let s' : BepState S = record s { sync_folders = rows } in
        (store_folder S new s ≡ (some (model_to_sync_dir new), s'))
        × ((j : List ℕ)
            → get_sync_directory S j s' ≡ (
                if text_eq new.id j
                then some (model_to_sync_dir new)
                else get_sync_directory S j s))
  unfolding store_folder
  store_folder-stored new stored rows s free h =
      let (n, fresh, same) = folders.insert_stored new stored s.sync_folders rows h in
      let grown = folders.select-insert new stored s.sync_folders rows h in
      let s' : BepState S = record s { sync_folders = rows } in
      let found = λ (j : List ℕ). get_sync_directory-added new s s' j free (rw (← same) grown) in
      let here : get_sync_directory S new.id s' ≡ some (model_to_sync_dir new) =
        rw (text_eq_refl new.id) at (found new.id) in
      (rw h (rw here), found)

  store_folder-refused :
      (new : SyncFolder) (s : BepState S)
      → any (sync_folders_schema.clash new) (S.sync_folders.select s.sync_folders) ≡ true
      → store_folder S new s ≡ (none, s)
  unfolding store_folder
  store_folder-refused new s h = rw (folders.insert-eq-none new s.sync_folders h)

  store_folder-free :
      (new : SyncFolder) (s : BepState S)
      → any (sync_folders_schema.clash new) (S.sync_folders.select s.sync_folders) ≡ false
      → (s' : BepState S) × (store_folder S new s ≡ (some (model_to_sync_dir new), s'))
        × ((j : List ℕ)
            → get_sync_directory S j s' ≡ (
                if text_eq new.id j
                then some (model_to_sync_dir new)
                else get_sync_directory S j s))
  store_folder-free new s free = elim (Option-cases (S.sync_folders.insert new s.sync_folders)) [
    | inl refused ↦ absurd (folders.insert-ne-none new s.sync_folders free refused)
    | inr ((stored, rows), h) ↦
        let (added, found) = store_folder-stored new stored rows s free h in
        (record s { sync_folders = rows }, added, found)
  ]

  -- Adding a directory. Where it has an id or a path, its path (if it has one) exists, and no
  -- directory has its id or its path, it is returned and from then on found by its id, and every
  -- other is found as before.
  pub add_sync_directory-get_sync_directory :
      (exists : List ℕ → Bool) (random_id : List ℕ) (path : Option (List ℕ)) (label : List ℕ)
      (id : Option (List ℕ)) (s : BepState S)
      → (is_some path || is_some id) ≡ true
      → is_usable exists path ≡ true
      → let new : SyncFolder = record { id = id_or random_id id; label = label; dir_path = path } in
        any (sync_folders_schema.clash new) (S.sync_folders.select s.sync_folders) ≡ false
        → (s' : BepState S) × (add_sync_directory S exists random_id path label id s
            ≡ (some (model_to_sync_dir new), s'))
          × ((j : List ℕ)
              → get_sync_directory S j s' ≡ (
                  if text_eq new.id j
                  then some (model_to_sync_dir new)
                  else get_sync_directory S j s))
  unfolding add_sync_directory
  add_sync_directory-get_sync_directory exists random_id path label id s given usable free =
      rw (given, usable)
        (store_folder-free (record { id = id_or random_id id; label = label; dir_path = path }) s
          free)

  -- `add_sync_directory` panics, and changes nothing, if there is neither an id nor a path, if the path does not
  -- exist, or if another directory has its id or its path.
  pub add_sync_directory_panics :
      (exists : List ℕ → Bool) (random_id : List ℕ) (path : Option (List ℕ)) (label : List ℕ)
      (id : Option (List ℕ)) (s : BepState S)
      → let new : SyncFolder = record { id = id_or random_id id; label = label; dir_path = path } in
        ((is_some path || is_some id) ≡ false)
          ⊎ (is_usable exists path ≡ false)
          ⊎ (any (sync_folders_schema.clash new) (S.sync_folders.select s.sync_folders) ≡ true)
        → add_sync_directory S exists random_id path label id s ≡ (none, s)
  unfolding add_sync_directory
  add_sync_directory_panics exists random_id path label id s (inl bad) = rw bad
  add_sync_directory_panics exists random_id path label id s (inr (inl bad)) =
      elim (Bool-cases (is_some path || is_some id)) [
        | inl given ↦ rw (given, bad)
        | inr not_given ↦ rw not_given
      ]
  add_sync_directory_panics exists random_id path label id s (inr (inr bad)) =
      elim (Bool-cases (is_some path || is_some id)) [
        | inl given ↦ elim (Bool-cases (is_usable exists path)) [
          | inl usable ↦
              rw (given, usable)
                (store_folder-refused
                  (record { id = id_or random_id id; label = label; dir_path = path }) s bad)
          | inr unusable ↦ rw (given, unusable)
        ]
        | inr not_given ↦ rw not_given
      ]

  store_folder_others :
      (new : SyncFolder) (j : List ℕ) (s : BepState S)
      → text_eq new.id j ≡ false
      → get_sync_directory S j (store_folder S new s).1 ≡ get_sync_directory S j s
  store_folder_others new j s other =
      elim (Bool-cases
        (any (sync_folders_schema.clash new) (S.sync_folders.select s.sync_folders))) [
          | inl clashes ↦ rw (store_folder-refused new s clashes)
          | inr free ↦
              let (s', stored, found) = store_folder-free new s free in
              rw stored (rw (found j, other))
        ]

  -- What adding does not concern, whether it succeeds or panics.
  pub add_sync_directory_others :
      (exists : List ℕ → Bool) (random_id : List ℕ) (path : Option (List ℕ)) (label : List ℕ)
      (id : Option (List ℕ)) (j : List ℕ) (s : BepState S)
      → text_eq (id_or random_id id) j ≡ false
      → get_sync_directory S j (add_sync_directory S exists random_id path label id s).1
        ≡ get_sync_directory S j s
  unfolding add_sync_directory
  add_sync_directory_others exists random_id path label id j s other =
      elim (Bool-cases (is_some path || is_some id)) [
        | inr not_given ↦ rw not_given
        | inl given ↦ elim (Bool-cases (is_usable exists path)) [
          | inr unusable ↦ rw (given, unusable)
          | inl usable ↦
              rw (given, usable)
                (store_folder_others
                  (record { id = id_or random_id id; label = label; dir_path = path }) j s other)
        ]
      ]
