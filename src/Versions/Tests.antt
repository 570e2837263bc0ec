-- ===== src/Versions/Tests.antt =====
-- The theorems on the searches among files at concrete inputs.
use d_lsm.Common.{◌≡◌, arith, List, [], ◌∷◌, All, some, true, false, refl}
use d_lsm.Coding.{put_fixed64, decode_fixed64, decode_fixed32, encode_fixed64}
use d_lsm.Comparator.Interface.{bytewise_comparator, bytewise_comparator-IsComparator}
use d_lsm.InternalKey.{
  internal_key, internal_compare, extract_user_key, tag, append_internal_key,
  pack_sequence_and_type,
}
use d_lsm.Comparator.{slice_compare}
use d_lsm.Versions.{
  inputs_loop, verdict, ends_before_begin, starts_after, starts_before, ends_after,
}
use d_lsm.Versions.{
  FileMetaData, find_file, some_file_overlaps_range, get_overlapping_inputs, returned,
}
use d_lsm.Versions.FindFile.{IsLevel, first_file, find_file-eq-first_file}
use d_lsm.Versions.Overlap.{HasTag, overlaps_range-disjoint}
use d_lsm.Versions.{Visitor, level_candidate, for_each_overlapping}
use d_lsm.Versions.Visit.{visit, level_candidate_complete}
use mathlib.Core.List.{Perm}
use d_lsm.Versions.Newest.{IsNewestFirst}
use d_lsm.Versions.Held.{contains, holders, for_each_overlapping_lem}
use d_lsm.Common.{zero, suc}
use d_lsm.Common.{ℕ, map, filter, ◌++◌, ltb}

-- Two files in order, from `b` to `d` and from `f` to `h`, and one that overlaps both.
abbrev first : FileMetaData
first = record {
  number = 7;
  file_size = 100;
  smallest = internal_key (98 ∷ []) 5 1;
  largest = internal_key (100 ∷ []) 4 1;
  under_compaction = false;
}

abbrev second : FileMetaData
second = record {
  number = 8;
  file_size = 100;
  smallest = internal_key (102 ∷ []) 9 1;
  largest = internal_key (104 ∷ []) 3 0;
  under_compaction = false;
}

abbrev wide : FileMetaData
wide = record {
  number = 9;
  file_size = 100;
  smallest = internal_key (99 ∷ []) 10 1;
  largest = internal_key (103 ∷ []) 11 1;
  under_compaction = false;
}

abbrev level : List FileMetaData
level = first ∷ second ∷ []

abbrev level0 : List FileMetaData
level0 = first ∷ wide ∷ second ∷ []

in_order : IsLevel bytewise_comparator level
unfolding internal_compare extract_user_key slice_compare internal_key append_internal_key
    put_fixed64
in_order = (ground arith, (refl, tt), (ground arith, tt, tt))

tags : All (λ f. HasTag f.largest) level
unfolding tag decode_fixed64 decode_fixed32 encode_fixed64 pack_sequence_and_type internal_key
    append_internal_key put_fixed64
tags = (omega arith, (omega arith, tt))

find_file-eq-first_file_example :
    find_file bytewise_comparator level (internal_key (101 ∷ []) 6 1)
    ≡ first_file bytewise_comparator level (internal_key (101 ∷ []) 6 1)
find_file-eq-first_file_example =
    find_file-eq-first_file bytewise_comparator bytewise_comparator-IsComparator level
      (internal_key (101 ∷ []) 6 1) (omega arith) in_order

overlaps_range-disjoint_example :
    some_file_overlaps_range bytewise_comparator true level (some (101 ∷ [])) (some (102 ∷ []))
    ≡ some_file_overlaps_range bytewise_comparator false level (some (101 ∷ [])) (some (102 ∷ []))
overlaps_range-disjoint_example =
    overlaps_range-disjoint bytewise_comparator bytewise_comparator-IsComparator level
      (some (101 ∷ [])) (some (102 ∷ [])) (omega arith) in_order tags

-- The search from one key takes in all three files.
spreads :
    get_overlapping_inputs bytewise_comparator 0 level0
      (some (internal_key (98 ∷ []) 5 1))
      (some (internal_key (98 ∷ []) 5 1))
    ≡ returned true level0
unfolding get_overlapping_inputs inputs_loop verdict ends_before_begin slice_compare
    extract_user_key internal_key append_internal_key put_fixed64 starts_after starts_before
    ends_after
spreads = refl

-- A callback that collects the files' numbers and, once it has one, stops after a file beyond level 0.
abbrev collect_numbers : Visitor (List ℕ)
collect_numbers [] _ f = (true, f.number ∷ [])
collect_numbers (n ∷ numbers) depth f = (ltb depth 1, f.number ∷ n ∷ numbers)

for_each_overlapping_lem_example :
    (files : List FileMetaData) × Perm files
      (filter (contains bytewise_comparator (99 ∷ [])) level0)
    × IsNewestFirst files
    × (for_each_overlapping bytewise_comparator collect_numbers level0
          (level ∷ [])
          (99 ∷ [])
          (internal_key (99 ∷ []) 5 1)
          []
        ≡ visit collect_numbers
            (map (λ f. (0, f)) files
              ++ holders bytewise_comparator 1 (level ∷ []) (99 ∷ []) (internal_key (99 ∷ []) 5 1))
            [])
for_each_overlapping_lem_example =
    for_each_overlapping_lem bytewise_comparator bytewise_comparator-IsComparator collect_numbers
      level0 (level ∷ []) (99 ∷ []) (internal_key (99 ∷ []) 5 1) [] ((omega arith, in_order), tt)

level_candidate_complete_example :
    level_candidate bytewise_comparator level
      (extract_user_key (internal_key (99 ∷ []) 5 1))
      (internal_key (99 ∷ []) 5 1)
    ≡ some first
unfolding internal_compare extract_user_key slice_compare internal_key append_internal_key
    put_fixed64
level_candidate_complete_example =
    level_candidate_complete bytewise_comparator bytewise_comparator-IsComparator level 0 first
      (internal_key (99 ∷ []) 5 1) (omega arith) in_order refl (ground arith) (ground arith)

-- A version with the two files on level 2.
abbrev version : ℕ → List FileMetaData
version zero = []
version (suc zero) = []
version (suc (suc zero)) = level
version (suc (suc (suc l))) = []

abbrev lower : List ℕ
lower = 97 ∷ []

abbrev upper : List ℕ
upper = 98 ∷ []
