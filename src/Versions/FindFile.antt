-- ===== src/Versions/FindFile.antt =====
-- `FindFile`: the binary search finds the first file that does not end before the key.
use Prim.Native.Nat.Ordering.{lt, gt}
use d_lsm.Common.{ℕ, zero, suc, ◌+◌, ◌-◌, ◌/◌, ◌%◌, ◌^◌, ◌≤◌, ◌<◌, ◌≡◌, ◌≢◌, arith}
use d_lsm.Common.{true, false, inl, inr, Bool-cases, Option-cases, ltb}
use d_lsm.Common.{List, [], ◌∷◌, length, get_elem?, All, some, if◌then◌else◌}
use d_lsm.Coding.{Bytes}
use d_lsm.Comparator.{is_lt}
use d_lsm.Comparator.Interface.{Comparator, IsComparator, compare_trans_le}
use d_lsm.InternalKey.{internal_compare, internal_comparator}
use d_lsm.InternalKey.Shorten.{internal_comparator-IsComparator}
use d_lsm.Versions.{FileMetaData, ends_before, find_file_loop, find_file}
use native.Mathlib.Nat.{mod-eq_of_lt}

module _ (user : Comparator) where
  -- A file holds a range of keys that is not empty.
  abbrev pub IsFile : FileMetaData → Type 0
  IsFile f = internal_compare user f.smallest f.largest ≢ gt

  -- A level above 0: the files are in order and disjoint.
  abbrev pub IsLevel : List FileMetaData → Type 0
  IsLevel [] = Unit
  IsLevel (f ∷ files) =
      IsFile f × All (λ g. internal_compare user f.largest g.smallest ≡ lt) files × IsLevel files

  -- The index of the first file that does not end before the key, by a walk over the files.
  abbrev pub first_file : List FileMetaData → Bytes → ℕ
  first_file [] key = 0
  first_file (f ∷ files) key =
      let rest = first_file files key in
      if is_lt (internal_compare user f.largest key) then suc rest else 0

  pub first_file-le :
      (files : List FileMetaData) (key : Bytes) → first_file files key ≤ length files
  first_file-le [] key = omega arith
  first_file-le (f ∷ files) key = ground (arith, first_file-le files key)

  -- A file that does not end before the key stands at the first such file or behind it.
  pub first_file-stop :
      (files : List FileMetaData) (key : Bytes) (i : ℕ)
      → i < length files
      → ends_before user files i key ≡ false
      → first_file files key ≤ i
  first_file-stop [] key i h e = absurd (omega arith)
  first_file-stop (f ∷ files) key zero h e = ground arith
  first_file-stop (f ∷ files) key (suc i) h e =
      ground (arith, first_file-stop files key i (omega arith) e)

module _ (user : Comparator) (laws : IsComparator user) where
  pub icmp_laws : IsComparator (internal_comparator user)
  icmp_laws = internal_comparator-IsComparator user laws

  pub files_after :
      (f : FileMetaData) (files : List FileMetaData) (i : ℕ) (g : FileMetaData)
      → All (λ g. internal_compare user f.largest g.smallest ≡ lt) files
      → get_elem? files i ≡ some g
      → internal_compare user f.largest g.smallest ≡ lt
  files_after f [] i g h e = absurd (ground arith)
  files_after f (g' ∷ files) zero g h e = ground arith
  files_after f (g' ∷ files) (suc i) g h e = files_after f files i g h.1 e

  level-IsFile :
      (files : List FileMetaData) (i : ℕ) (g : FileMetaData)
      → IsLevel user files
      → get_elem? files i ≡ some g
      → IsFile user g
  level-IsFile [] i g h e = absurd (ground arith)
  level-IsFile (f ∷ files) zero g h e = ground arith
  level-IsFile (f ∷ files) (suc i) g (_, _, h) e = level-IsFile files i g h e

  ends_before-some :
      (files : List FileMetaData) (i : ℕ) (key : Bytes)
      → ends_before user files i key ≡ true
      → (g : FileMetaData) × (get_elem? files i ≡ some g)
        × (internal_compare user g.largest key ≡ lt)
  ends_before-some files i key e = elim (Option-cases (get_elem? files i)) [
    | inl out ↦ absurd (ground arith)
    | inr (g, at_i) ↦ (g, at_i, ground arith)
  ]

  -- In a level, a file that ends before the key stands before the first that does not.
  pub first_file-pass :
      (files : List FileMetaData) (key : Bytes) (i : ℕ)
      → IsLevel user files
      → ends_before user files i key ≡ true
      → i < first_file user files key
  first_file-pass [] key i h e = absurd (ground arith)
  first_file-pass (f ∷ files) key zero h e = ground arith
  first_file-pass (f ∷ files) key (suc i) (hf, ha, h) e =
      let (g, at_i, below) = ends_before-some files i key e in
      let whole = level-IsFile files i g h at_i in
      let above =
        compare_trans_le (internal_comparator user) icmp_laws f.largest g.smallest g.largest
          (files_after f files i g ha at_i) whole in
      let passed = icmp_laws.compare_trans f.largest g.largest key above below in
      rw passed (omega (arith, first_file-pass files key i h e))

  find_file_loop_lem :
      (fuel : ℕ) (files : List FileMetaData) (key : Bytes) (left right : ℕ)
      → length files < 2 ^ 31
      → IsLevel user files
      → right - left ≤ fuel
      → left ≤ first_file user files key
      → first_file user files key ≤ right
      → right ≤ length files
      → find_file_loop user fuel files key left right ≡ first_file user files key
  unfolding find_file_loop
  find_file_loop_lem zero files key left right hn h hf hl hr hb = omega arith
  find_file_loop_lem (suc fuel) files key left right hn h hf hl hr hb =
      elim (Bool-cases (ltb left right)) [
        | inr closed ↦ rw closed (ground arith)
        | inl opened ↦
            let mid = (left + right) / 2 in
            let inside : left < right = ground arith in
            let fits : (left + right) % 2 ^ 32 ≡ left + right = mod-eq_of_lt (omega arith) in
            rw (opened, fits)
              (elim (Bool-cases (ends_before user files mid key)) [
                | inl before ↦ rw before (
                    find_file_loop_lem fuel files key (mid + 1) right hn h (omega arith)
                      (omega (arith, first_file-pass files key mid h before)) hr hb)
                | inr stop ↦ rw stop (
                    find_file_loop_lem fuel files key left mid hn h (omega arith) hl
                      (first_file-stop user files key mid (omega arith) stop) (omega arith))
              ])
      ]

  -- On a level whose files are in order and disjoint, `FindFile` returns the index of the first
  -- file whose largest key is not below the key, and the number of files when there is none.
  pub find_file-eq-first_file :
      (files : List FileMetaData) (key : Bytes)
      → length files < 2 ^ 31
      → IsLevel user files
      → find_file user files key ≡ first_file user files key
  unfolding find_file
  find_file-eq-first_file files key hn h =
      find_file_loop_lem (length files) files key 0 (length files) hn h (omega arith) (omega arith)
        (first_file-le user files key) (omega arith)
