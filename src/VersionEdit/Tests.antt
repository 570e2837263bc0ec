-- ===== src/VersionEdit/Tests.antt =====
-- The round trip of an edit at a concrete one, with a record of most kinds.
use d_lsm.Common.{ℕ, ◌≡◌, ◌<◌, ◌^◌, arith, refl, [], ◌∷◌, none, some}
use d_lsm.Status.{ok}
use d_lsm.VersionEdit.{Mr, RemoteMemTableMetaData}
use d_lsm.VersionEdit.Files.{IsFile}
use d_lsm.VersionEdit.Regions.{IsMr}
use d_lsm.VersionEdit.Records.{VersionEdit, encode_edit, decode_edit, finished}
use d_lsm.VersionEdit.RoundTrip.{IsEdit, decode_edit-encode_edit}

abbrev region : Mr
region = record {
  context = 5;
  pd = 6;
  addr = 4096;
  mr_length = 300;
  handle = 7;
  lkey = 8;
  rkey = 9;
}

abbrev next_region : Mr
next_region = record region { addr = 8192 }

abbrev file : RemoteMemTableMetaData
file = record {
  level = 1;
  number = 12;
  creator_node_id = 2;
  shard_target_node_id = 3;
  file_size = 600;
  smallest = 97 ∷ 1 ∷ [];
  largest = 98 ∷ [];
  remote_data_mrs = (300, region) ∷ (600, next_region) ∷ [];
  remote_dataindex_mrs = (40, region) ∷ [];
  remote_filter_mrs = (20, region) ∷ [];
}

abbrev edit : VersionEdit
edit = record {
  comparator = some (99 ∷ []);
  log_number = some 300;
  prev_log_number = none;
  next_file_number = some 13;
  last_sequence = some 70000;
  compact_pointers = (2, 97 ∷ []) ∷ [];
  deleted_files = (0, 3, 1) ∷ (0, 5, 1) ∷ [];
  new_files = (1, file) ∷ [];
}

abbrev old : VersionEdit
old = record edit { compact_pointers = (3, 98 ∷ []) ∷ []; comparator = none }

region-IsMr : (offset : ℕ) → offset < 2 ^ 32 → IsMr offset region
region-IsMr offset h = record {
  offset_fits = h;
  addr_fits = omega arith;
  length_fits = omega arith;
  lkey_fits = omega arith;
  rkey_fits = omega arith;
}

next_region-IsMr : IsMr 600 next_region
next_region-IsMr = record {
  offset_fits = omega arith;
  addr_fits = omega arith;
  length_fits = omega arith;
  lkey_fits = omega arith;
  rkey_fits = omega arith;
}

file-IsFile : IsFile file
file-IsFile = record {
  level_exists = omega arith;
  number_fits = omega arith;
  file_size_fits = omega arith;
  smallest_fits = omega arith;
  largest_fits = omega arith;
  smallest_bytes = omega arith;
  largest_bytes = omega arith;
  creator = omega arith;
  shard_target = omega arith;
  data_count = omega arith;
  dataindex_count = omega arith;
  dataindex_offsets = omega arith;
  filter_count = omega arith;
  context_fits = omega arith;
  pd_fits = omega arith;
  handle_fits = omega arith;
  data_mrs = (
    region-IsMr 300 (omega arith),
    (refl, refl, refl),
    (omega arith, tt),
    (next_region-IsMr, (refl, refl, refl), tt, tt),
  );
  dataindex_mrs = (region-IsMr 40 (omega arith), (refl, refl, refl), tt, tt);
  filter_mrs = (region-IsMr 20 (omega arith), (refl, refl, refl), tt, tt);
}

edit-IsEdit : IsEdit edit
edit-IsEdit = record {
  comparator_fits = omega arith;
  log_number_fits = omega arith;
  prev_log_number_fits = tt;
  next_file_number_fits = omega arith;
  last_sequence_fits = omega arith;
  compact_pointers_fit = omega arith;
  deleted_files_fit = omega arith;
  deleted_files_ascend = ((refl, tt), (tt, tt));
  new_files_fit = ((omega arith, file-IsFile), tt);
}

decode_edit-encode_edit_example :
    decode_edit 0 (encode_edit edit) old
    ≡ finished ok (record edit { compact_pointers = (3, 98 ∷ []) ∷ (2, 97 ∷ []) ∷ [] })
decode_edit-encode_edit_example = decode_edit-encode_edit 0 edit old edit-IsEdit (omega arith)
