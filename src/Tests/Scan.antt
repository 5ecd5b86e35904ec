-- ===== src/Tests/Scan.antt =====
-- Scans of a directory.
use bep_rs.Prelude.{◌≡◌, refl, inr, true, none, some, [], ◌∷◌, codes, find?, text_eq}
use bep_rs.Prelude.Int.{pos, rem, as_i32}
use bep_rs.Sync.{SyncFile, comp_hashes}
use bep_rs.State.Monad.{BepState}
use bep_rs.State.Files.{get_sync_files, update_sync_file}
use bep_rs.State.Folders.{directory_changed}
use bep_rs.Sync.Blocks.{gen_blocks, get_blocksize}
use bep_rs.State.Peers.{get_short_id}
use bep_rs.Scan.{Surroundings, is_at, generate_index}
use bep_rs.Scan.Unchanged.{generate_index_unchanged}
use bep_rs.Scan.Returned.{AllFresh, generate_index-AllFresh}
use bep_rs.Tests.Database.{sql, photos_dir, notes, in_order, with_file}
use bep_rs.Tests.Shared.{me, thirty_two}

abbrev pub surroundings : Surroundings
surroundings = record {
  order_by_offset = in_order;
  sha256 = thirty_two;
  read_dir = λ path. some (codes "notes" ∷ []);
  disk = λ path. some (1 ∷ 2 ∷ []);
}

abbrev pub scanned : BepState sql
scanned = record with_file {
  device_options = me ∷ [];
  sync_files =
      (record {
        id = some 4;
        name = codes "notes";
        modified_by = pos 5;
        sequence = pos 0;
        synced_version_id = pos 1;
        hash = some (thirty_two []);
        folder_id = codes "photos";
      })
      ∷ [];
}

abbrev pub entry : SyncFile
entry = record notes { hash = thirty_two [] }

pub identified : get_short_id sql thirty_two scanned ≡ (some 3978425819141910832, scanned)
unfolding get_short_id
identified = refl

pub indexed : get_sync_files sql in_order (codes "photos") scanned ≡ (some (entry ∷ []), scanned)
unfolding get_sync_files text_eq
indexed = refl

pub found_entry : find? (is_at (codes "notes")) (entry ∷ []) ≡ some entry
unfolding is_at text_eq
found_entry = refl

pub same_hash : comp_hashes (thirty_two []) (thirty_two []) ≡ true
unfolding comp_hashes
same_hash = refl

generate_index_unchanged_example :
    generate_index sql surroundings photos_dir scanned ≡ (some (entry ∷ []), scanned)
unfolding is_at text_eq
generate_index_unchanged_example =
    generate_index_unchanged sql surroundings photos_dir (codes "/p") (codes "notes" ∷ [])
      3978425819141910832 (entry ∷ []) scanned identified indexed refl refl
      (
        record {
          bytes = 1 ∷ 2 ∷ [];
          readable = refl;
          file = entry;
          found = found_entry;
          author = 5;
          latest = 1;
          last_version = refl;
          settled = inr same_hash;
        },
        tt,
      )

-- A file that is not in the index yet.
abbrev empty_index : BepState sql
empty_index = record scanned { sync_files = []; sync_file_versions = []; sync_file_blocks = [] }

abbrev new_entry : SyncFile
new_entry = record {
  id = none;
  path = codes "notes";
  hash = thirty_two [];
  modified_by = 3978425819141910832;
  synced_version = 0;
  versions = (3978425819141910832, 0) ∷ [];
  blocks = (record { offset = pos 0; size = pos 2; hash = thirty_two [] }) ∷ [];
}

scanned_new :
    (s' : BepState sql) × (generate_index sql surroundings photos_dir empty_index
      ≡ (some (new_entry ∷ []), s'))
unfolding generate_index get_short_id get_sync_files gen_blocks get_blocksize update_sync_file
    directory_changed rem as_i32
scanned_new = (_, refl)

generate_index-AllFresh_example :
    AllFresh surroundings (codes "/p") (codes "notes" ∷ []) (new_entry ∷ [])
generate_index-AllFresh_example =
    generate_index-AllFresh sql surroundings photos_dir (codes "/p") (codes "notes" ∷ [])
      (new_entry ∷ []) empty_index (scanned_new.0) refl refl (scanned_new.1)
