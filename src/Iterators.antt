-- ===== src/Iterators.antt =====
-- table/merger.cc: the merging iterator, over children that keep the contract of
-- include/dLSM/iterator.h. A child is a cursor in the list of its entries.
pub mod Smallest
pub mod Step
pub mod Merge
pub mod Checked
mod Tests
use Prim.Native.Nat.{Ordering}
use Prim.Native.Nat.Ordering.{eq}
use d_lsm.Common.{ltb, ◌&&◌, ℕ, zero, suc, ◌+◌, Bool, true, false, not, Option, some, none, ◌==◌}
use d_lsm.Common.{List, [], ◌∷◌, ◌++◌, map, length, if◌then◌else◌}
use d_lsm.Coding.{Bytes}
use d_lsm.Comparator.{is_lt, is_gt}
use d_lsm.Comparator.Interface.{Comparator}
use d_lsm.Compaction.{KeyValue, is_eq}

abbrev pub not_empty : List KeyValue → Bool
not_empty [] = false
not_empty _ = true

-- The entries before the current one, nearest first, and those from it on.
pub record Cursor : Type 0 where
  pub passed : List KeyValue
  pub ahead : List KeyValue
  pub valid : Bool

-- The entries `passed` and then `ahead`, in order.
abbrev pub rewind : List KeyValue → List KeyValue → List KeyValue
rewind [] ahead = ahead
rewind (e ∷ passed) ahead = rewind passed (e ∷ ahead)

-- A cursor that stands behind `passed`.
abbrev pub cursor : List KeyValue → List KeyValue → Cursor
cursor passed ahead = record { passed = passed; ahead = ahead; valid = not_empty ahead }

abbrev pub head? : List KeyValue → Option KeyValue
head? [] = none
head? (e ∷ entries) = some e

-- `key()` and `value()`, where the child is valid.
abbrev pub entry_at : Cursor → Option KeyValue
entry_at c = if c.valid then head? c.ahead else none

abbrev pub whole : Cursor → List KeyValue
whole c = rewind c.passed c.ahead

unfoldable pub child_seek_to_first : Cursor → Cursor
child_seek_to_first c = cursor [] (whole c)

-- The cursor at the last entry, from one behind `passed`.
unfoldable pub at_last : List KeyValue → List KeyValue → Cursor
at_last passed [] = cursor passed []
at_last passed (e ∷ []) = cursor passed (e ∷ [])
at_last passed (e ∷ f ∷ ahead) = at_last (e ∷ passed) (f ∷ ahead)

unfoldable pub child_seek_to_last : Cursor → Cursor
child_seek_to_last c = at_last [] (whole c)

unfoldable pub child_next : Cursor → Cursor
child_next c = elim c.ahead [ [] ↦ c | e ∷ ahead ↦ cursor (e ∷ c.passed) ahead ]

unfoldable pub child_prev : Cursor → Cursor
child_prev c = elim c.passed [
  | [] ↦ record c { valid = false }
  | e ∷ passed ↦ cursor passed (e ∷ c.ahead)
]

-- `direction_`
pub data Direction : Type 0 where
  forward reverse : Direction

-- `current_`, with the entry that it stands at.
pub record MergingIterator : Type 0 where
  pub children : List Cursor
  pub current : Option (ℕ × KeyValue)
  pub direction : Direction

-- The fields that are only read in debug builds; no seek resets them.
pub record DebugState : Type 0 where
  pub num_entries : ℕ
  pub last_key : Bytes

-- The child at this index is moved.
unfoldable pub move_child : (Cursor → Cursor) → ℕ → List Cursor → List Cursor
move_child move i [] = []
move_child move zero (c ∷ children) = move c ∷ children
move_child move (suc i) (c ∷ children) = c ∷ move_child move i children

-- All children but the one at this index are moved.
unfoldable pub move_others : (Cursor → Cursor) → Option ℕ → List Cursor → List Cursor
move_others move i [] = []
move_others move none (c ∷ children) = move c ∷ move_others move none children
move_others move (some zero) (c ∷ children) = c ∷ move_others move none children
move_others move (some (suc i)) (c ∷ children) = move c ∷ move_others move (some i) children

module _ (comparator : Comparator) where
  -- The cursor at the first entry that is not below the target.
  unfoldable pub at_target : Bytes → List KeyValue → List KeyValue → Cursor
  at_target target passed [] = cursor passed []
  at_target target passed (e ∷ ahead) =
      let further = at_target target (e ∷ passed) ahead in
      if is_lt (comparator.compare e.0 target) then further else cursor passed (e ∷ ahead)

  unfoldable pub child_seek : Bytes → Cursor → Cursor
  child_seek target c = at_target target [] (whole c)

  -- `FindSmallest`: the loop, from the index `i` on.
  unfoldable pub smaller : ℕ → Option KeyValue → Option (ℕ × KeyValue) → Option (ℕ × KeyValue)
  smaller i none smallest = smallest
  smaller i (some e) none = some (i, e)
  smaller i (some e) (some (j, d)) =
      if is_lt (comparator.compare e.0 d.0) then some (i, e) else some (j, d)

  unfoldable pub find_smallest : ℕ → Option (ℕ × KeyValue) → List Cursor → Option (ℕ × KeyValue)
  find_smallest i smallest [] = smallest
  find_smallest i smallest (c ∷ children) =
      find_smallest (i + 1) (smaller i (entry_at c) smallest) children

  -- `FindLargest`: the loop comes to index `i` after those above it.
  unfoldable pub larger : ℕ → Option KeyValue → Option (ℕ × KeyValue) → Option (ℕ × KeyValue)
  larger i none largest = largest
  larger i (some e) none = some (i, e)
  larger i (some e) (some (j, d)) =
      if is_gt (comparator.compare e.0 d.0) then some (i, e) else some (j, d)

  unfoldable pub find_largest : ℕ → List Cursor → Option (ℕ × KeyValue)
  find_largest i [] = none
  find_largest i (c ∷ children) = larger i (entry_at c) (find_largest (i + 1) children)

  abbrev pub at_smallest : List Cursor → MergingIterator
  at_smallest children = record {
    children = children;
    current = find_smallest 0 none children;
    direction = forward;
  }

  abbrev pub at_largest : List Cursor → MergingIterator
  at_largest children = record {
    children = children;
    current = find_largest 0 children;
    direction = reverse;
  }

  unfoldable pub merging_seek_to_first : MergingIterator → MergingIterator
  merging_seek_to_first m = at_smallest (map child_seek_to_first m.children)

  unfoldable pub merging_seek_to_last : MergingIterator → MergingIterator
  merging_seek_to_last m = at_largest (map child_seek_to_last m.children)

  unfoldable pub merging_seek : Bytes → MergingIterator → MergingIterator
  merging_seek target m = at_smallest (map (child_seek target) m.children)

  -- A child that is not the current one is put behind the current key.
  unfoldable pub put_behind : Bytes → Cursor → Cursor
  put_behind key c =
      let c' = child_seek key c in
      elim (entry_at c') [
        | none ↦ c'
        | some e ↦ if is_eq (comparator.compare key e.0) then child_next c' else c'
      ]

  -- A child that is not the current one is put before the current key.
  unfoldable pub put_before : Bytes → Cursor → Cursor
  put_before key c =
      let c' = child_seek key c in if c'.valid then child_prev c' else child_seek_to_last c'

  unfoldable pub merging_next : MergingIterator → MergingIterator
  merging_next m = elim m.current [
    | none ↦ m
    | some (i, e) ↦
        let children : List Cursor = elim m.direction [
          | forward ↦ m.children
          | reverse ↦ move_others (put_behind e.0) (some i) m.children
        ] in
        at_smallest (move_child child_next i children)
  ]

  -- The check that `Next` makes in debug builds: keys must increase. It is none where that fails.
  unfoldable pub check_order : DebugState → MergingIterator → Option DebugState
  check_order st m = elim m.current [
    | none ↦ some st
    | some (i, e) ↦
        if ltb 0 st.num_entries && not (is_gt (comparator.compare e.0 st.last_key))
        then none
        else some (record { num_entries = st.num_entries + 1; last_key = e.0 })
  ]

  unfoldable pub merging_prev : MergingIterator → MergingIterator
  merging_prev m = elim m.current [
    | none ↦ m
    | some (i, e) ↦
        let children : List Cursor = elim m.direction [
          | reverse ↦ m.children
          | forward ↦ move_others (put_before e.0) (some i) m.children
        ] in
        at_largest (move_child child_prev i children)
  ]
