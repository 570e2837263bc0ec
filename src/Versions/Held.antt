-- ===== src/Versions/Held.antt =====
-- The files that `ForEachOverlapping` visits are those that may hold the key, the newest first.
use mathlib.Core.List.{Perm}
use mathlib.Core.Path.{subst}
use d_lsm.Common.{Bool, not, ◌&&◌, All}
use d_lsm.Versions.Newest.{IsNewestFirst, sort_newest_first-IsNewestFirst}
use d_lsm.Common.{ℕ, ◌+◌, ◌^◌, ◌<◌, ◌≡◌, refl, ap, ◌∙◌, arith}
use d_lsm.Common.{inl, inr, Bool-cases, map, filter}
use d_lsm.Common.{List, [], ◌∷◌, ◌++◌, length, get_elem?, Option, some, none, if◌then◌else◌}
use d_lsm.Coding.{Bytes}
use d_lsm.Comparator.{is_lt, is_gt}
use d_lsm.Comparator.Interface.{Comparator, IsComparator}
use d_lsm.InternalKey.{internal_compare, extract_user_key}
use d_lsm.Versions.{FileMetaData, Visitor, level_candidate}
use d_lsm.Versions.{sort_newest_first, holds_key, for_each_overlapping}
use d_lsm.Versions.FindFile.{IsLevel, first_file, find_file-eq-first_file}
use d_lsm.Versions.Visit.{visit, level_files, for_each_overlapping-eq-visit}

-- The user key lies between the ends of the file.
abbrev pub contains : Comparator → Bytes → FileMetaData → Bool
contains user user_key f =
    not (is_gt (user.compare (extract_user_key f.smallest) user_key))
    && not (is_lt (user.compare (extract_user_key f.largest) user_key))

-- The first file of a level that does not end before the internal key, by a walk over the files, if it
-- does not start behind the user key.
abbrev pub holder : Comparator → List FileMetaData → Bytes → Bytes → Option FileMetaData
holder user [] user_key ikey = none
holder user (f ∷ files) user_key ikey =
    let rest = holder user files user_key ikey in
    if is_lt (internal_compare user f.largest ikey)
    then rest
    else if is_gt (user.compare (extract_user_key f.smallest) user_key)
    then none
    else some f

-- These files, one for each level from `level` on at most.
abbrev pub holders :
    Comparator → ℕ → List (List FileMetaData) → Bytes → Bytes → List (ℕ × FileMetaData)
holders user level [] user_key ikey = []
holders user level (files ∷ levels) user_key ikey = elim (holder user files user_key ikey) [
  | none ↦ holders user (level + 1) levels user_key ikey
  | some f ↦ (level, f) ∷ holders user (level + 1) levels user_key ikey
]

module _ (user : Comparator) (laws : IsComparator user) where
  holds_key-eq-contains :
      (user_key : Bytes) (f : FileMetaData) → holds_key user user_key f ≡ contains user user_key f
  unfolding holds_key
  holds_key-eq-contains user_key f = ground (
    arith,
    laws.compare_swap user_key (extract_user_key f.smallest),
    laws.compare_swap_gt (extract_user_key f.smallest) user_key,
    laws.compare_swap_gt user_key (extract_user_key f.largest),
    laws.compare_swap (extract_user_key f.largest) user_key,
  )

  filter-contains :
      (user_key : Bytes) (files : List FileMetaData)
      → filter (holds_key user user_key) files ≡ filter (contains user user_key) files
  filter-contains user_key [] = refl
  filter-contains user_key (f ∷ files) =
      rw (holds_key-eq-contains user_key f, filter-contains user_key files) refl

  starts_after-swap :
      (user_key s : Bytes) → is_lt (user.compare user_key s) ≡ is_gt (user.compare s user_key)
  starts_after-swap user_key s =
      ground (arith, laws.compare_swap user_key s, laws.compare_swap_gt s user_key)

  first_file-holder :
      (files : List FileMetaData) (user_key ikey : Bytes)
      → elim (get_elem? files (first_file user files ikey)) [
        | none ↦ none
        | some f ↦
            if is_lt (user.compare user_key (extract_user_key f.smallest)) then none else some f
      ]
        ≡ holder user files user_key ikey
  first_file-holder [] user_key ikey = refl
  first_file-holder (f ∷ files) user_key ikey =
      elim (Bool-cases (is_lt (internal_compare user f.largest ikey))) [
        | inl passed ↦ rw passed (first_file-holder files user_key ikey)
        | inr here ↦ rw (here, starts_after-swap user_key (extract_user_key f.smallest)) refl
      ]

  -- A level that the binary search is right on.
  abbrev pub IsShortLevel : List FileMetaData → Type 0
  IsShortLevel files = (length files < 2 ^ 31) × IsLevel user files

  level_candidate-eq-holder :
      (files : List FileMetaData) (user_key ikey : Bytes)
      → IsShortLevel files
      → level_candidate user files user_key ikey ≡ holder user files user_key ikey
  unfolding level_candidate
  level_candidate-eq-holder files user_key ikey (short, level) =
      rw (level_candidate, find_file-eq-first_file user laws files ikey short level)
        (first_file-holder files user_key ikey)

  level_files-eq-holders :
      (level : ℕ) (levels : List (List FileMetaData)) (user_key ikey : Bytes)
      → All IsShortLevel levels
      → level_files user level levels user_key ikey ≡ holders user level levels user_key ikey
  level_files-eq-holders level [] user_key ikey h = refl
  level_files-eq-holders level (files ∷ levels) user_key ikey (hf, h) =
      ap
        (λ c. elim c as (λ _. List (ℕ × FileMetaData)) [
          | none ↦ level_files user (level + 1) levels user_key ikey
          | some f ↦ (level, f) ∷ level_files user (level + 1) levels user_key ikey
        ])
        (level_candidate-eq-holder files user_key ikey hf)
      ∙ ap
          (λ l. elim (holder user files user_key ikey) as (λ _. List (ℕ × FileMetaData)) [
            | none ↦ l
            | some f ↦ (level, f) ∷ l
          ])
          (level_files-eq-holders (level + 1) levels user_key ikey h)

  -- `ForEachOverlapping` calls its callback, until that says to stop, for the files of level 0 whose
  -- range of user keys contains the user key, each once and newest first, and then for each further level
  -- for the first file that does not end before the internal key, if it does not start behind the user key.
  -- The further levels have less than 2^31 files each, in order and disjoint.
  pub for_each_overlapping_lem :
      {S : Type 0} (func : Visitor S) (level0 : List FileMetaData)
      (levels : List (List FileMetaData)) (user_key ikey : Bytes) (s : S)
      → All IsShortLevel levels
      → (files : List FileMetaData) × Perm files (filter (contains user user_key) level0)
        × IsNewestFirst files
        × (for_each_overlapping user func level0 levels user_key ikey s
            ≡ visit func (map (λ f. (0, f)) files ++ holders user 1 levels user_key ikey) s)
  for_each_overlapping_lem func level0 levels user_key ikey s h =
      let held = filter (holds_key user user_key) level0 in
      let (order, perm) = sort_newest_first-IsNewestFirst held in
      (
        sort_newest_first held,
        subst (Perm (sort_newest_first held)) (filter-contains user_key level0) perm,
        order,
        for_each_overlapping-eq-visit user func level0 levels user_key ikey s
            ∙ ap (λ l. visit func (map (λ f. (0, f)) (sort_newest_first held) ++ l) s)
                (level_files-eq-holders 1 levels user_key ikey h),
      )
