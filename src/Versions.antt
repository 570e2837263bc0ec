-- ===== src/Versions.antt =====
-- db/version_set.cc: the files of a level, and the searches among them.
-- A level is the list of its files; a null pointer to a key is `none`.
pub mod FindFile
pub mod Overlap
pub mod Range
pub mod Inputs
pub mod Visit
pub mod Held
pub mod Newest
pub mod Output
mod Tests
use Prim.Native.Nat.Ordering.{lt, eq, gt}
use d_lsm.Common.{ℕ, zero, suc, ◌+◌, ◌*◌, ◌/◌, ◌%◌, ◌^◌, Bool, true, false, not, ◌||◌, ◌==◌}
use d_lsm.Common.{
  filter, List, [], ◌∷◌, ◌++◌, length, Option, none, some, get_elem?, ltb, if◌then◌else◌,
}
use d_lsm.Coding.{Bytes}
use d_lsm.Comparator.{is_lt, is_gt}
use d_lsm.Comparator.Interface.{Comparator}
use d_lsm.InternalKey.{
  internal_compare, internal_key, extract_user_key, max_sequence_number, value_type_for_seek,
}

-- The fields of `RemoteMemTableMetaData` that the searches read; keys are encoded internal keys.
pub record FileMetaData : Type 0 where
  pub number : ℕ
  pub file_size : ℕ
  pub smallest : Bytes
  pub largest : Bytes
  pub under_compaction : Bool

-- The two assignments of the loop: `left = mid + 1`, or `right = mid`.
abbrev pub narrow : Bool → ℕ → ℕ → ℕ → ℕ × ℕ
narrow true mid left right = (mid + 1, right)
narrow false mid left right = (left, mid)

module _ (user : Comparator) where
  -- `icmp.Compare(f->largest.Encode(), key) < 0`. An index past the end does not occur.
  abbrev pub ends_before : List FileMetaData → ℕ → Bytes → Bool
  ends_before files i key = elim (get_elem? files i) [
    | none ↦ false
    | some f ↦ is_lt (internal_compare user f.largest key)
  ]

  -- `FindFile`: the loop, its first argument is fuel.
  unfoldable pub find_file_loop : ℕ → List FileMetaData → Bytes → ℕ → ℕ → ℕ
  find_file_loop zero files key left right = right
  find_file_loop (suc fuel) files key left right =
      let mid = (left + right) % 2 ^ 32 / 2 in
      let bounds = narrow (ends_before files mid key) mid left right in
      let found = find_file_loop fuel files key bounds.0 bounds.1 in
      if ltb left right then found else right

  unfoldable pub find_file : List FileMetaData → Bytes → ℕ
  find_file files key = find_file_loop (length files) files key 0 (length files)

  unfoldable pub after_file : Option Bytes → FileMetaData → Bool
  after_file none f = false
  after_file (some user_key) f = is_gt (user.compare user_key (extract_user_key f.largest))

  unfoldable pub before_file : Option Bytes → FileMetaData → Bool
  before_file none f = false
  before_file (some user_key) f = is_lt (user.compare user_key (extract_user_key f.smallest))

  -- `SomeFileOverlapsRange`: the loop over all files.
  unfoldable pub some_file_overlaps : List FileMetaData → Option Bytes → Option Bytes → Bool
  some_file_overlaps [] smallest largest = false
  some_file_overlaps (f ∷ files) smallest largest =
      let rest = some_file_overlaps files smallest largest in
      if after_file smallest f || before_file largest f then rest else true

  -- The index that the binary search starts from the lower bound.
  unfoldable pub start_index : List FileMetaData → Option Bytes → ℕ
  start_index files none = 0
  start_index files (some user_key) =
      find_file files (internal_key user_key max_sequence_number value_type_for_seek)

  unfoldable pub some_file_overlaps_range :
      Bool → List FileMetaData → Option Bytes → Option Bytes → Bool
  some_file_overlaps_range false files smallest largest = some_file_overlaps files smallest largest
  some_file_overlaps_range true files smallest largest =
      elim (get_elem? files (start_index files smallest)) [
        | none ↦ false
        | some f ↦ not (before_file largest f)
      ]

-- `user_key()` of a bound, where there is one.
abbrev pub user_bound : Option Bytes → Option Bytes
user_bound none = none
user_bound (some key) = some (extract_user_key key)

-- What `GetOverlappingInputs` does with one file.
pub data Verdict : Type 0 where
  skip : Verdict
  blocked : Verdict
  push : Verdict
  push_and_grow_begin : Bytes → Verdict
  push_and_grow_end : Bytes → Verdict

-- How the call ends: its result with `*inputs`, or the model's fuel is used up.
pub data InputsResult : Type 0 where
  returned : Bool → List FileMetaData → InputsResult
  out_of_fuel : InputsResult

module _ (user : Comparator) where
  -- `end != nullptr && user_cmp->Compare(file_start, user_end) > 0`
  unfoldable pub starts_after : Option Bytes → FileMetaData → Bool
  starts_after none f = false
  starts_after (some user_end) f = is_gt (user.compare (extract_user_key f.smallest) user_end)

  unfoldable pub ends_before_begin : Option Bytes → FileMetaData → Bool
  ends_before_begin none f = false
  ends_before_begin (some user_begin) f =
      is_lt (user.compare (extract_user_key f.largest) user_begin)

  unfoldable pub starts_before : Option Bytes → FileMetaData → Bool
  starts_before none f = false
  starts_before (some user_begin) f = is_lt (user.compare (extract_user_key f.smallest) user_begin)

  unfoldable pub ends_after : Option Bytes → FileMetaData → Bool
  ends_after none f = false
  ends_after (some user_end) f = is_gt (user.compare (extract_user_key f.largest) user_end)

  -- The body of the loop.
  unfoldable pub verdict : ℕ → Option Bytes → Option Bytes → FileMetaData → Verdict
  verdict level user_begin user_end f =
      if ends_before_begin user_begin f
      then skip
      else if starts_after user_end f
      then skip
      else if f.under_compaction
      then blocked
      else if level == 0
      then if starts_before user_begin f
        then push_and_grow_begin (extract_user_key f.smallest)
        else if ends_after user_end f
        then push_and_grow_end (extract_user_key f.largest)
        else push
      else push

  -- The loop over the files from index `i` on, with all files for the restart at index 0.
  unfoldable pub inputs_loop :
      ℕ
      → ℕ
      → List FileMetaData
      → List FileMetaData
      → Option Bytes
      → Option Bytes
      → List FileMetaData
      → InputsResult
  inputs_loop fuel level files [] user_begin user_end inputs = returned true inputs
  inputs_loop zero level files (f ∷ rest) user_begin user_end inputs = out_of_fuel
  inputs_loop (suc fuel) level files (f ∷ rest) user_begin user_end inputs =
      elim (verdict level user_begin user_end f) [
        | skip ↦ inputs_loop fuel level files rest user_begin user_end inputs
        | blocked ↦ returned false inputs
        | push ↦ inputs_loop fuel level files rest user_begin user_end (inputs ++ f ∷ [])
        | push_and_grow_begin file_start ↦
            inputs_loop fuel level files files (some file_start) user_end []
        | push_and_grow_end file_limit ↦
            inputs_loop fuel level files files user_begin (some file_limit) []
      ]

  unfoldable pub get_overlapping_inputs :
      ℕ → List FileMetaData → Option Bytes → Option Bytes → InputsResult
  get_overlapping_inputs level files begin end =
      inputs_loop (length files * (2 * length files + 1)) level files files (user_bound begin)
        (user_bound end) []

-- `NewestFirst`, and the order in which `std::sort` leaves the files by it.
unfoldable pub insert_newest : FileMetaData → List FileMetaData → List FileMetaData
insert_newest f [] = f ∷ []
insert_newest f (g ∷ files) =
    let rest = insert_newest f files in if ltb g.number f.number then f ∷ g ∷ files else g ∷ rest

unfoldable pub sort_newest_first : List FileMetaData → List FileMetaData
sort_newest_first [] = []
sort_newest_first (f ∷ files) = insert_newest f (sort_newest_first files)

-- The callback of `ForEachOverlapping`, over its argument's state: whether to go on.
abbrev pub Visitor : Type 0 → Type 0
Visitor S = S → ℕ → FileMetaData → Bool × S

-- The loop over the files of level 0: whether to go on with the other levels.
unfoldable pub visit_files : {S : Type 0} → Visitor S → List FileMetaData → S → Bool × S
visit_files func [] s = (true, s)
visit_files func (f ∷ files) s =
    let (go_on, s') = func s 0 f in
    let rest = visit_files func files s' in if go_on then rest else (false, s')

module _ (user : Comparator) where
  unfoldable pub holds_key : Bytes → FileMetaData → Bool
  holds_key user_key f =
      if is_lt (user.compare user_key (extract_user_key f.smallest))
      then false
      else not (is_gt (user.compare user_key (extract_user_key f.largest)))

  -- The file of a level that `ForEachOverlapping` visits.
  unfoldable pub level_candidate : List FileMetaData → Bytes → Bytes → Option FileMetaData
  level_candidate files user_key ikey = elim (get_elem? files (find_file user files ikey)) [
    | none ↦ none
    | some f ↦ if is_lt (user.compare user_key (extract_user_key f.smallest)) then none else some f
  ]

  -- The loop over the levels from `level` on.
  unfoldable pub visit_levels :
      {S : Type 0} → Visitor S → ℕ → List (List FileMetaData) → Bytes → Bytes → S → S
  visit_levels func level [] user_key ikey s = s
  visit_levels func level (files ∷ levels) user_key ikey s =
      elim (level_candidate files user_key ikey) [
        | none ↦ visit_levels func (level + 1) levels user_key ikey s
        | some f ↦
            let (go_on, s') = func s level f in
            let rest = visit_levels func (level + 1) levels user_key ikey s' in
            if go_on then rest else s'
      ]

  -- `Version::ForEachOverlapping`, of the files of level 0 and those of the other levels.
  unfoldable pub for_each_overlapping :
      {S : Type 0}
      → Visitor S
      → List FileMetaData
      → List (List FileMetaData)
      → Bytes
      → Bytes
      → S
      → S
  for_each_overlapping func level0 levels user_key ikey s =
      let (go_on, s') =
        visit_files func (sort_newest_first (filter (holds_key user_key) level0)) s in
      let rest = visit_levels func 1 levels user_key ikey s' in if go_on then rest else s'
