-- ===== src/Versions/Visit.antt =====
-- `ForEachOverlapping`: which files it visits, and in which order.
use Prim.Native.Nat.Ordering.{lt, gt}
use d_lsm.Common.{ℕ, zero, suc, ◌+◌, ◌^◌, ◌<◌, ◌≡◌, ◌≢◌, refl, ap, ◌∙◌, arith}
use d_lsm.Common.{false, inl, inr, Bool-cases, map, filter}
use d_lsm.Common.{List, [], ◌∷◌, ◌++◌, length, get_elem?, Option, some, none, if◌then◌else◌}
use d_lsm.Coding.{Bytes}
use d_lsm.Comparator.{is_lt}
use d_lsm.Comparator.Interface.{Comparator, IsComparator, compare_trans_le}
use d_lsm.InternalKey.{internal_compare, internal_comparator, extract_user_key}
use d_lsm.Versions.{FileMetaData, find_file, Visitor, visit_files, visit_levels, level_candidate}
use d_lsm.Versions.{sort_newest_first, holds_key, for_each_overlapping}
use d_lsm.Versions.FindFile.{IsLevel, first_file, find_file-eq-first_file, icmp_laws, files_after}
use d_lsm.Versions.Overlap.{user_order}

-- A visit of files in a given order, until the callback says to stop.
abbrev pub visit : {S : Type 0} → Visitor S → List (ℕ × FileMetaData) → S → S
visit func [] s = s
visit func ((level, f) ∷ files) s =
    let (go_on, s') = func s level f in let rest = visit func files s' in if go_on then rest else s'

module _ (user : Comparator) where
  -- The files that `ForEachOverlapping` chooses on the levels from `level` on.
  abbrev pub level_files : ℕ → List (List FileMetaData) → Bytes → Bytes → List (ℕ × FileMetaData)
  level_files level [] user_key ikey = []
  level_files level (files ∷ levels) user_key ikey =
      elim (level_candidate user files user_key ikey) [
        | none ↦ level_files (level + 1) levels user_key ikey
        | some f ↦ (level, f) ∷ level_files (level + 1) levels user_key ikey
      ]

  visit_step :
      {S : Type 0} (func : Visitor S) (level : ℕ) (rest : S → S) (files : List (ℕ × FileMetaData))
      (candidate : Option FileMetaData) (s : S)
      → ((t : S) → rest t ≡ visit func files t)
      → elim candidate [
        | none ↦ rest s
        | some f ↦ if (func s level f).0 then rest (func s level f).1 else (func s level f).1
      ]
        ≡ visit func (elim candidate [ none ↦ files | some f ↦ (level, f) ∷ files ]) s
  visit_step func level rest files none s h = h s
  visit_step func level rest files (some f) s h = rw (h (func s level f).1) refl

  visit_levels-eq-visit :
      {S : Type 0} (func : Visitor S) (level : ℕ) (levels : List (List FileMetaData))
      (user_key ikey : Bytes) (s : S)
      → visit_levels user func level levels user_key ikey s
        ≡ visit func (level_files level levels user_key ikey) s
  unfolding visit_levels
  visit_levels-eq-visit func level [] user_key ikey s = refl
  visit_levels-eq-visit func level (files ∷ levels) user_key ikey s =
      visit_step func level (visit_levels user func (level + 1) levels user_key ikey)
        (level_files (level + 1) levels user_key ikey) (level_candidate user files user_key ikey) s
        (visit_levels-eq-visit func (level + 1) levels user_key ikey)

  visit_files-then :
      {S : Type 0} (func : Visitor S) (files : List FileMetaData) (more : List (ℕ × FileMetaData))
      (s : S)
      → (if (visit_files func files s).0
          then visit func more (visit_files func files s).1
          else (visit_files func files s).1)
        ≡ visit func (map (λ f. (0, f)) files ++ more) s
  unfolding visit_files
  visit_files-then func [] more s = refl
  visit_files-then func (f ∷ files) more s = elim (Bool-cases (func s 0 f).0) [
    | inl on ↦ rw on (visit_files-then func files more (func s 0 f).1)
    | inr off ↦ rw off refl
  ]

  pub for_each_overlapping-eq-visit :
      {S : Type 0} (func : Visitor S) (level0 : List FileMetaData)
      (levels : List (List FileMetaData)) (user_key ikey : Bytes) (s : S)
      → for_each_overlapping user func level0 levels user_key ikey s
        ≡ visit func
            (map (λ f. (0, f)) (sort_newest_first (filter (holds_key user user_key) level0))
              ++ level_files 1 levels user_key ikey)
            s
  unfolding for_each_overlapping
  for_each_overlapping-eq-visit func level0 levels user_key ikey s =
      let files = sort_newest_first (filter (holds_key user user_key) level0) in
      rw (visit_levels-eq-visit func 1 levels user_key ikey (visit_files func files s).1)
        (visit_files-then func files (level_files 1 levels user_key ikey) s)

module _ (user : Comparator) (laws : IsComparator user) where
  first_file-at :
      (files : List FileMetaData) (i : ℕ) (f : FileMetaData) (key : Bytes)
      → IsLevel user files
      → get_elem? files i ≡ some f
      → internal_compare user f.smallest key ≢ gt
      → internal_compare user f.largest key ≢ lt
      → first_file user files key ≡ i
  first_file-at [] i f key h at low high = absurd (ground arith)
  first_file-at (g ∷ files) zero f key h at low high = ground arith
  first_file-at (g ∷ files) (suc i) f key (hg, ha, h) at low high =
      let above : internal_compare user g.largest key ≡ lt =
        compare_trans_le (internal_comparator user) (icmp_laws user laws) g.largest f.smallest key
          (files_after user laws g files i f ha at) low in
      rw above (ap suc (first_file-at files i f key h at low high))

  -- On a level whose files are in order and disjoint, the file whose range contains the key is the
  -- one that `ForEachOverlapping` visits.
  pub level_candidate_complete :
      (files : List FileMetaData) (i : ℕ) (f : FileMetaData) (key : Bytes)
      → length files < 2 ^ 31
      → IsLevel user files
      → get_elem? files i ≡ some f
      → internal_compare user f.smallest key ≢ gt
      → internal_compare user f.largest key ≢ lt
      → level_candidate user files (extract_user_key key) key ≡ some f
  unfolding level_candidate
  level_candidate_complete files i f key hn h at low high =
      let found : find_file user files key ≡ i =
        find_file-eq-first_file user laws files key hn h
        ∙ first_file-at files i f key h at low high in
      let inside : is_lt (user.compare (extract_user_key key) (extract_user_key f.smallest))
          ≡ false =
        ground (
          arith,
          user_order user laws f.smallest key low,
          laws.compare_swap (extract_user_key key) (extract_user_key f.smallest),
        ) in
      rw (level_candidate, found, at, inside) refl
