-- ===== src/Iterators/Tests.antt =====
-- The theorem on the merging iterator at concrete inputs.
use mathlib.Core.List.{Perm}
use d_lsm.Common.{◌≡◌, arith, [], ◌∷◌, All, none, refl, true}
use d_lsm.Comparator.{slice_compare}
use d_lsm.Comparator.Interface.{bytewise_comparator, bytewise_comparator-IsComparator}
use d_lsm.Iterators.{Cursor, cursor, whole, MergingIterator, forward, merging_seek_to_first}
use d_lsm.Iterators.{
  child_seek_to_first, find_smallest, smaller, merging_next, move_child, child_next,
}
use d_lsm.Iterators.{
  merging_prev, child_seek_to_last, at_last, find_largest, larger, child_prev, move_others,
}
use d_lsm.Iterators.{put_before, child_seek, at_target, put_behind}
use d_lsm.Iterators.Smallest.{IsRising}
use d_lsm.Iterators.Step.{AreApart, entries_of}
use d_lsm.Iterators.Merge.{read_all}
use d_lsm.Iterators.Checked.{passes, merging_lem}

abbrev odd : Cursor
odd = cursor [] ((1 ∷ [], 10 ∷ []) ∷ (3 ∷ [], 30 ∷ []) ∷ (5 ∷ [], 50 ∷ []) ∷ [])

-- A child that has been moved before.
abbrev even : Cursor
even = cursor ((2 ∷ [], 20 ∷ []) ∷ []) ((4 ∷ [], 40 ∷ []) ∷ [])

abbrev merging : MergingIterator
merging = record { children = odd ∷ even ∷ []; current = none; direction = forward }

merging_rises : All (λ c. IsRising bytewise_comparator (whole c)) merging.children
unfolding slice_compare
merging_rises = (((refl, (refl, tt)), ((refl, tt), (tt, tt))), (((refl, tt), (tt, tt)), tt))

merging_apart : AreApart bytewise_comparator (entries_of merging.children)
unfolding slice_compare
merging_apart = ground arith

merging_lem_example :
    IsRising bytewise_comparator
      (read_all bytewise_comparator 9 (merging_seek_to_first bytewise_comparator merging))
    × Perm
        (read_all bytewise_comparator 9 (merging_seek_to_first bytewise_comparator merging))
        (entries_of merging.children)
    × (passes bytewise_comparator 9
          (record { num_entries = 0; last_key = [] })
          (merging_seek_to_first bytewise_comparator merging)
        ≡ true)
merging_lem_example =
    merging_lem bytewise_comparator bytewise_comparator-IsComparator merging
      (record { num_entries = 0; last_key = [] }) 9 merging_rises merging_apart refl (omega arith)

abbrev forth : MergingIterator → MergingIterator
forth = merging_next bytewise_comparator

abbrev back : MergingIterator → MergingIterator
back = merging_prev bytewise_comparator

-- Two moves forward from the first entry, one back and one forward.
there_and_back :
    (forth (back (forth (forth (merging_seek_to_first bytewise_comparator merging))))).current
    ≡ (forth (forth (merging_seek_to_first bytewise_comparator merging))).current
unfolding merging_next merging_prev merging_seek_to_first child_seek_to_first find_smallest smaller
    move_child child_next child_prev move_others put_before put_behind child_seek at_target
    child_seek_to_last at_last find_largest larger slice_compare
there_and_back = refl
