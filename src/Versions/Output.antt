-- ===== src/Versions/Output.antt =====
-- db/version_set.cc: the level for a memtable's output (`PickLevelForMemTableOutput`).
-- An `int64_t` is its word of 64 bits.
pub mod Pick
use d_lsm.Common.{ℕ, zero, suc, ◌+◌, ◌*◌, ◌%◌, ◌^◌, ◌≤◌, ◌<◌, ◌≡◌, ap, ◌∙◌, arith, ◌↔◌, ◌⊎◌}
use d_lsm.Common.{Bool, true, false, ◌&&◌, inl, inr, Bool-cases, ltb, lt→ltb, if◌then◌else◌}
use d_lsm.Common.{List, [], ◌∷◌, length, All, Any, some}
use d_lsm.Coding.{Bytes}
use d_lsm.Comparator.Interface.{Comparator, IsComparator}
use d_lsm.InternalKey.{internal_key, max_sequence_number, value_type_for_seek}
use d_lsm.Versions.{FileMetaData, some_file_overlaps_range, get_overlapping_inputs, InputsResult}
use d_lsm.Versions.{returned, out_of_fuel}
use d_lsm.Versions.FindFile.{IsLevel}
use d_lsm.Versions.Overlap.{HasTag, Overlaps, overlaps_range-disjoint, overlaps_range_lem}

-- `config::kNumLevels` and `config::kMaxMemCompactLevel`
abbrev pub num_levels : ℕ
num_levels = 6

abbrev pub max_mem_compact_level : ℕ
max_mem_compact_level = 2

-- `a > b` for two words read as `int64_t`.
abbrev pub int64_gt : ℕ → ℕ → Bool
int64_gt a b = ltb ((b + 2 ^ 63) % 2 ^ 64) ((a + 2 ^ 63) % 2 ^ 64)

-- The loop of `TotalFileSize`, from the sum so far.
unfoldable pub sum_file_sizes : ℕ → List FileMetaData → ℕ
sum_file_sizes sum [] = sum
sum_file_sizes sum (f ∷ files) = sum_file_sizes ((sum + f.file_size) % 2 ^ 64) files

abbrev pub total_file_size : List FileMetaData → ℕ
total_file_size files = sum_file_sizes 0 files

-- `MaxGrandParentOverlapBytes`, of `max_file_size` of the options.
abbrev pub max_grand_parent_overlap_bytes : ℕ → ℕ
max_grand_parent_overlap_bytes max_file_size = 10 * max_file_size % 2 ^ 64

-- `*inputs` after the call.
abbrev pub overlaps_of : InputsResult → List FileMetaData
overlaps_of (returned result inputs) = inputs
overlaps_of out_of_fuel = []

module _ (user : Comparator) (max_file_size : ℕ) (levels : ℕ → List FileMetaData) where
  unfoldable pub overlap_in_level : ℕ → Bytes → Bytes → Bool
  overlap_in_level level smallest largest =
      some_file_overlaps_range user (ltb 0 level) (levels level) (some smallest) (some largest)

  -- The check of the grandparents' bytes.
  unfoldable pub grand_parents_exceed : ℕ → Bytes → Bytes → Bool
  grand_parents_exceed level smallest largest =
      let start = internal_key smallest max_sequence_number value_type_for_seek in
      let limit = internal_key largest 0 0 in
      let overlaps =
        overlaps_of (
          get_overlapping_inputs user (level + 2) (levels (level + 2)) (some start) (some limit)) in
      ltb (level + 2) num_levels
      && int64_gt (total_file_size overlaps) (max_grand_parent_overlap_bytes max_file_size)

  -- The loop, whose first argument is the number of levels that are left below the maximum.
  unfoldable pub pick_level_loop : ℕ → ℕ → Bytes → Bytes → ℕ
  pick_level_loop zero level smallest largest = level
  pick_level_loop (suc left) level smallest largest =
      let rest = pick_level_loop left (level + 1) smallest largest in
      if overlap_in_level (level + 1) smallest largest
      then level
      else if grand_parents_exceed level smallest largest
      then level
      else rest

  unfoldable pub pick_level_for_mem_table_output : Bytes → Bytes → ℕ
  pick_level_for_mem_table_output smallest largest =
      let level = pick_level_loop max_mem_compact_level 0 smallest largest in
      if overlap_in_level 0 smallest largest then 0 else level
