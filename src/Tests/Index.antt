-- ===== src/Tests/Index.antt =====
-- What comes of an index: files that are new, and a download of the directory; and what the watcher does.
use bep_rs.Prelude.{
  ◌≡◌, ◌++◌, refl, true, none, some, List, [], ◌∷◌, codes, any, text_eq, is_empty, arith,
}
use bep_rs.Prelude.Int.{pos}
use bep_rs.Prelude.Outcome.{ok, panicked}
use bep_rs.Sync.{SyncFile}
use bep_rs.State.Models.{sync_files_schema, sync_file_versions_schema, sync_file_blocks_schema}
use bep_rs.State.Table.Memory.{memory_table-IsTable, memory_table-IsUpsert}
use bep_rs.State.Monad.{BepState, get_directory}
use bep_rs.State.Folders.{
  get_sync_directory, get_sync_directories, model_to_sync_dir, add_sync_directory,
}
use bep_rs.State.Files.{get_sync_files, update_sync_file}
use bep_rs.State.Shared.{Call, no_database, calls}
use bep_rs.Connection.Items.{FileInfo}
use bep_rs.Connection.Merge.{handle_index}
use bep_rs.Connection.Merge.Fresh.{IsNew, AreOf, Adds, handle_index-IsNew}
use bep_rs.Connection.Merge.Newer.{IsNewer, Replaces, newer_file, handle_index-IsNewer}
use bep_rs.Connection.Fetch.{Download}
use bep_rs.Connection.Updates
use bep_rs.Connection.Updates.Wanted.{Fetches, indexed_at, get_directory-Fetches}
use bep_rs.Connection.Watcher.{EventKind, event, watch}
use bep_rs.Connection.Watcher.Scans.{has_no_path, watch_panics}
use bep_rs.Tests.Database.{
  sql, before, photos, photos_dir, laptop, in_order, in_order-IsOrder, notes, with_file,
}
use bep_rs.Tests.Requests.{index_entry, surroundings, peer_answers}
use bep_rs.Tests.Scan

abbrev entry : FileInfo
entry = record index_entry {
  blocks = (record { hash = 7 ∷ []; offset = pos 0; size = pos 9; weak_hash = 0 }) ∷ [];
}

abbrev history : List Call
history =
    Call.add_sync_directory_call (λ path. true) [] (some (codes "/p")) (codes "Photos")
      (some (codes "photos"))
    ∷ []

abbrev s : BepState sql
s = record (no_database sql) { sync_folders = photos ∷ [] }

called : calls sql in_order history (no_database sql) ≡ s
unfolding calls add_sync_directory get_sync_directory get_sync_directories text_eq
called = refl

found_dir : get_sync_directory sql (codes "photos") s ≡ some photos_dir
unfolding get_sync_directory get_sync_directories model_to_sync_dir text_eq
found_dir = refl

no_files : get_sync_files sql in_order (codes "photos") s ≡ (some [], s)
unfolding get_sync_files
no_files = refl

entry-IsNew : IsNew [] entry
entry-IsNew = record {
  counters = (record { id = 5; value = 1 }) ∷ [];
  block = record { hash = 7 ∷ []; offset = pos 0; size = pos 9; weak_hash = 0 };
  unknown = refl;
  given = refl;
  some_version = refl;
  fit = ((omega arith, omega arith), tt);
  modified = omega arith;
  first_block = refl;
  some_block = refl;
  ascending = tt;
}

handle_index-IsNew_example :
    (added : List SyncFile) × (s' : BepState sql) × (handle_index sql in_order 1
        (codes "photos")
        (entry ∷ [])
        s
      ≡ (some tt, record s' { spawned = s.spawned ++ get_directory 1 photos_dir ∷ [] }))
    × AreOf (entry ∷ []) added
    × Adds sql in_order photos_dir added s s'
handle_index-IsNew_example =
    handle_index-IsNew sql in_order in_order-IsOrder (memory_table-IsTable sync_files_schema)
      (memory_table-IsUpsert sync_files_schema) (memory_table-IsTable sync_file_versions_schema)
      (memory_table-IsTable sync_file_blocks_schema) photos_dir [] history 1 (codes "photos") entry
      [] s called found_dir no_files (entry-IsNew, tt)

-- The file is there, with one version.
abbrev known_history : List Call
known_history =
    Call.add_sync_directory_call (λ path. true) [] (some (codes "/p")) (codes "Photos")
      (some (codes "photos"))
    ∷ Call.update_sync_file_call photos_dir (record notes { id = none })
    ∷ []

abbrev known_files : BepState sql
known_files = calls sql in_order known_history (no_database sql)

abbrev old_file : SyncFile
old_file = record notes { id = some 1 }

found_known : get_sync_directory sql (codes "photos") known_files ≡ some photos_dir
unfolding calls add_sync_directory update_sync_file get_sync_directory get_sync_directories
    model_to_sync_dir text_eq
found_known = refl

known_index :
    get_sync_files sql in_order (codes "photos") known_files ≡ (some (old_file ∷ []), known_files)
unfolding calls add_sync_directory update_sync_file get_sync_files get_sync_directory
    get_sync_directories text_eq
known_index = refl

abbrev newer_entry : FileInfo
newer_entry = record entry {
  version = some ((record { id = 5; value = 1 }) ∷ (record { id = 6; value = 3 }) ∷ []);
}

newer-IsNewer : IsNewer (old_file ∷ []) newer_entry old_file
unfolding text_eq bep_rs.Sync.get_name
newer-IsNewer = record {
  counters = (record { id = 5; value = 1 }) ∷ (record { id = 6; value = 3 }) ∷ [];
  block = record { hash = 7 ∷ []; offset = pos 0; size = pos 9; weak_hash = 0 };
  known = refl;
  given = refl;
  more = omega arith;
  fit = ((omega arith, omega arith), ((omega arith, omega arith), tt));
  modified = omega arith;
  synced = omega arith;
  first_block = refl;
  ascending = tt;
}

handle_index-IsNewer_example :
    (s' : BepState sql) × (handle_index sql in_order 1
        (codes "photos")
        (newer_entry ∷ [])
        known_files
      ≡ (some tt, record s' { spawned = known_files.spawned ++ get_directory 1 photos_dir ∷ [] }))
    × Replaces sql in_order photos_dir old_file
        (newer_file old_file newer_entry newer-IsNewer.counters newer-IsNewer.block)
        known_files
        s'
handle_index-IsNewer_example =
    handle_index-IsNewer sql in_order in_order-IsOrder (memory_table-IsTable sync_files_schema)
      (memory_table-IsUpsert sync_files_schema) (memory_table-IsTable sync_file_versions_schema)
      (memory_table-IsTable sync_file_blocks_schema) photos_dir (old_file ∷ []) newer_entry old_file
      known_history 1 (codes "photos") known_files refl found_known known_index newer-IsNewer

indexed : (get_sync_files sql in_order (codes "photos") with_file).0 ≡ some (notes ∷ [])
unfolding get_sync_files text_eq
indexed = refl

abbrev nothing_yet : Download sql
nothing_yet = record { state = with_file; writes = [] }

get_directory-Fetches_example :
    Fetches sql surroundings
      (λ d path. is_empty path)
      peer_answers
      (λ f. pos 3)
      photos_dir
      (codes "/p")
      (notes ∷ [])
      (indexed_at sql surroundings photos_dir nothing_yet)
      (Updates.get_directory sql surroundings
        (λ d path. is_empty path)
        peer_answers
        (λ f. pos 3)
        photos_dir
        nothing_yet)
get_directory-Fetches_example =
    get_directory-Fetches sql surroundings (λ d path. is_empty path) peer_answers (λ f. pos 3)
      photos_dir (codes "/p") (notes ∷ []) nothing_yet refl indexed

-- A folder that the peer has offered has no path.
abbrev offered : BepState sql
offered = record before {
  sync_folders = photos ∷ record photos { id = codes "music"; dir_path = none } ∷ [];
}

one_has_no_path : any has_no_path (get_sync_directories sql offered) ≡ true
unfolding get_sync_directories model_to_sync_dir
one_has_no_path = refl

watch_panics_example :
    (watch sql Scan.surroundings
      (λ path. true)
      (ok tt)
      (ok laptop)
      true
      (event EventKind.access ∷ event EventKind.modify ∷ [])
      offered).0
    ≡ panicked
watch_panics_example =
    watch_panics sql Scan.surroundings (λ path. true) laptop (EventKind.access ∷ [])
      EventKind.modify [] offered one_has_no_path refl refl
