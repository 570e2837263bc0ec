-- ===== src/Versions/Overlap.antt =====
-- `SomeFileOverlapsRange`: on a level, the binary search answers as the walk over all files.
use Prim.Native.Nat.Ordering.{lt, gt}
use d_lsm.Common.{ℕ, ◌+◌, ◌*◌, ◌^◌, ◌≤◌, ◌<◌, ◌≡◌, ◌≢◌, refl, sym, ap, ◌∙◌, arith, ◌↔◌}
use d_lsm.Common.{true, false, not, inl, inr, Bool-cases}
use d_lsm.Common.{List, [], ◌∷◌, length, get_elem?, All, Any, Option, some, none}
use d_lsm.Coding.{Bytes}
use d_lsm.Comparator.{is_lt}
use d_lsm.Comparator.Interface.{Comparator, IsComparator, compare_trans_le}
use d_lsm.InternalKey.{
  internal_compare, internal_key, extract_user_key, tag, pack_sequence_and_type, break_tie,
}
use d_lsm.InternalKey.{max_sequence_number, value_type_for_seek}
use d_lsm.InternalKey.Codec.{
  internal_key_lem, tag_fixed64, extract_user_key_fixed64, pack_lem, pack-lt,
}
use d_lsm.Versions.{FileMetaData, after_file, before_file}
use d_lsm.Versions.{some_file_overlaps, start_index, some_file_overlaps_range}
use d_lsm.Versions.FindFile.{IsFile, IsLevel, first_file, find_file-eq-first_file}

-- The tag of an internal key that a writer made: a sequence number and a type of an update.
abbrev pub HasTag : Bytes → Type 0
HasTag key = tag key ≤ max_sequence_number * 256 + 1

module _ (user : Comparator) (laws : IsComparator user) where
  pub user_order :
      (a b : Bytes)
      → internal_compare user a b ≢ gt
      → user.compare (extract_user_key a) (extract_user_key b) ≢ gt
  unfolding internal_compare break_tie
  user_order a b h = grind arith

  -- What lies before a file's range lies before the ranges of the later files.
  before_later :
      (bound : Option Bytes) (f g : FileMetaData)
      → IsFile user f
      → internal_compare user f.largest g.smallest ≡ lt
      → before_file user bound f ≡ true
      → before_file user bound g ≡ true
  unfolding before_file
  before_later none f g hf hg h = h
  before_later (some u) f g hf hg h =
      let below : user.compare u (extract_user_key f.smallest) ≡ lt = ground arith in
      let through =
        compare_trans_le user laws u (extract_user_key f.smallest) (extract_user_key f.largest)
          below (user_order f.smallest f.largest hf) in
      rw
        (compare_trans_le user laws u (extract_user_key f.largest) (extract_user_key g.smallest)
          through (user_order f.largest g.smallest (ground arith)))
        refl

  no_overlap_later :
      (smallest largest : Option Bytes) (f : FileMetaData) (files : List FileMetaData)
      → IsFile user f
      → All (λ g. internal_compare user f.largest g.smallest ≡ lt) files
      → before_file user largest f ≡ true
      → some_file_overlaps user files smallest largest ≡ false
  unfolding some_file_overlaps
  no_overlap_later smallest largest f [] hf hg h = refl
  no_overlap_later smallest largest f (g ∷ files) hf (hg, hs) h =
      ground
        (arith, before_later largest f g hf hg h, no_overlap_later smallest largest f files hf hs h)

  -- The greatest internal key of a user key comes after exactly the files that the user key does.
  greatest_key_after :
      (u : Bytes) (f : FileMetaData)
      → HasTag f.largest
      → is_lt
          (internal_compare user f.largest (internal_key u max_sequence_number value_type_for_seek))
        ≡ after_file user (some u) f
  unfolding internal_compare after_file
  greatest_key_after u f ht =
      let top = pack_sequence_and_type max_sequence_number value_type_for_seek in
      let uf = extract_user_key f.largest in
      let fits : top < 2 ^ 64 =
        pack-lt max_sequence_number value_type_for_seek (omega arith) (omega arith) in
      let greatest : top ≡ max_sequence_number * 256 + 1 =
        pack_lem max_sequence_number value_type_for_seek (omega arith) (omega arith) in
      rw
        (
          internal_key_lem u max_sequence_number value_type_for_seek,
          extract_user_key_fixed64 u top,
          tag_fixed64 u top fits,
          greatest,
        )
        (unfold break_tie in
          ground
            (arith, laws.compare_swap uf u, laws.compare_swap_gt uf u, laws.compare_swap_gt u uf))

  -- The walk over the files, as a search for the first file that the range does not begin after.
  overlaps_first :
      (files : List FileMetaData) (u : Bytes) (largest : Option Bytes)
      → IsLevel user files
      → All (λ f. HasTag f.largest) files
      → some_file_overlaps user files (some u) largest
        ≡ elim (get_elem? files
            (first_file user files (internal_key u max_sequence_number value_type_for_seek))) [
              | none ↦ false
              | some f ↦ not (before_file user largest f)
            ]
  unfolding some_file_overlaps
  overlaps_first [] u largest h ht = refl
  overlaps_first (f ∷ files) u largest (hf, ha, h) (htag, ht) =
      elim (Bool-cases (after_file user (some u) f)) [
        | inl after ↦ rw (greatest_key_after u f htag, after) (overlaps_first files u largest h ht)
        | inr at ↦
            rw (greatest_key_after u f htag, at)
              (ground (arith, no_overlap_later (some u) largest f files hf ha))
      ]

  overlaps_all :
      (files : List FileMetaData) (largest : Option Bytes)
      → IsLevel user files
      → some_file_overlaps user files none largest
        ≡ elim (get_elem? files 0) [ none ↦ false | some f ↦ not (before_file user largest f) ]
  unfolding some_file_overlaps after_file
  overlaps_all [] largest h = refl
  overlaps_all (f ∷ files) largest (hf, ha, h) =
      ground (arith, no_overlap_later none largest f files hf ha)

  -- On a level whose files are in order and disjoint, `SomeFileOverlapsRange` answers by the binary
  -- search as it does by the check of all files.
  pub overlaps_range-disjoint :
      (files : List FileMetaData) (smallest largest : Option Bytes)
      → length files < 2 ^ 31
      → IsLevel user files
      → All (λ f. HasTag f.largest) files
      → some_file_overlaps_range user true files smallest largest
        ≡ some_file_overlaps_range user false files smallest largest
  unfolding some_file_overlaps_range start_index
  overlaps_range-disjoint files none largest hn h ht = sym (overlaps_all files largest h)
  overlaps_range-disjoint files (some u) largest hn h ht =
      ap
        (λ (i : ℕ). elim (get_elem? files i) [
          | none ↦ false
          | some f ↦ not (before_file user largest f)
        ])
        (find_file-eq-first_file user laws files
          (internal_key u max_sequence_number value_type_for_seek) hn h)
      ∙ sym (overlaps_first files u largest h ht)

-- A file that is neither wholly before nor wholly behind the range.
abbrev pub Overlaps : Comparator → Option Bytes → Option Bytes → FileMetaData → Type 0
Overlaps user smallest largest f =
    (after_file user smallest f ≡ false) × (before_file user largest f ≡ false)

module _ (user : Comparator) (smallest largest : Option Bytes) where
  overlaps→Any :
      (files : List FileMetaData)
      → some_file_overlaps user files smallest largest ≡ true
      → Any (Overlaps user smallest largest) files
  unfolding some_file_overlaps
  overlaps→Any [] h = absurd (ground arith)
  overlaps→Any (f ∷ files) h = ground (arith, overlaps→Any files)

  Any→overlaps :
      (files : List FileMetaData)
      → Any (Overlaps user smallest largest) files
      → some_file_overlaps user files smallest largest ≡ true
  unfolding some_file_overlaps
  Any→overlaps [] h = elim h [ ]
  Any→overlaps (f ∷ files) h = ground (arith, Any→overlaps files)

  -- `SomeFileOverlapsRange` by the check of all files returns true exactly when some file is
  -- neither wholly before nor wholly behind the range.
  pub overlaps_range_lem :
      (files : List FileMetaData)
      → (some_file_overlaps_range user false files smallest largest ≡ true)
        ↔ Any (Overlaps user smallest largest) files
  unfolding some_file_overlaps_range
  overlaps_range_lem files = (overlaps→Any files, Any→overlaps files)
