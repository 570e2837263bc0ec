-- ===== src/Iterators/Checked.antt =====
-- The merging iterator passes the check of its debug build.
use Prim.Native.Nat.Ordering.{lt, gt}
use mathlib.Core.List.{Perm}
use mathlib.Core.Path.{subst}
use d_lsm.Common.{ℕ, zero, suc, ◌+◌, ◌≤◌, ◌≡◌, refl, ap, ◌∙◌, arith, Bool, true, false, ◌⊎◌}
use d_lsm.Common.{inl, inr, Option, some, none, Option-cases, length, List, [], ◌∷◌, All}
use d_lsm.Comparator.Interface.{Comparator, IsComparator}
use d_lsm.Compaction.{KeyValue}
use d_lsm.Iterators.{
  DebugState, check_order, MergingIterator, merging_next, merging_seek_to_first, whole,
}
use d_lsm.Iterators.Smallest.{IsRising}
use d_lsm.Iterators.Step.{AreApart, entries_of}
use d_lsm.Iterators.Merge.{read_all, IsSorted, merging-IsMerged}

module _ (comparator : Comparator) where
  -- The check of the debug build at each `Next`, as often as the fuel allows.
  abbrev pub passes : ℕ → DebugState → MergingIterator → Bool
  passes zero st m = true
  passes (suc fuel) st m = elim m.current [
    | none ↦ true
    | some (i, e) ↦ elim (check_order comparator st (merging_next comparator m)) [
      | none ↦ false
      | some st' ↦ passes fuel st' (merging_next comparator m)
    ]
  ]

module _ (comparator : Comparator) (laws : IsComparator comparator) where
  -- The state of the check is that of a new iterator, or it knows the current key.
  abbrev Follows : DebugState → MergingIterator → Type 0
  Follows st m =
      (st.num_entries ≡ 0)
      ⊎ ((i : ℕ) × (e : KeyValue) × (m.current ≡ some (i, e)) × (st.last_key ≡ e.0))

  pass_round :
      (o : Option (ℕ × KeyValue)) (next : Bool)
      → ((i : ℕ) (e : KeyValue) → o ≡ some (i, e) → next ≡ true)
      → elim o as (λ _. Bool) [ none ↦ true | some (i, e) ↦ next ] ≡ true
  pass_round none next h = refl
  pass_round (some (i, e)) next h = h i e refl

  check_order-none :
      (st : DebugState) (m : MergingIterator)
      → m.current ≡ none
      → check_order comparator st m ≡ some st
  unfolding check_order
  check_order-none st m ended = rw (check_order, ended) refl

  check_order-some :
      (st : DebugState) (m : MergingIterator) (i : ℕ) (e : KeyValue)
      → m.current ≡ some (i, e)
      → (st.num_entries ≡ 0) ⊎ (comparator.compare e.0 st.last_key ≡ gt)
      → check_order comparator st m
        ≡ some (record { num_entries = st.num_entries + 1; last_key = e.0 })
  unfolding check_order
  check_order-some st m i e at (inl new) = rw (check_order, at, new) refl
  check_order-some st m i e at (inr above) = rw (check_order, at, above) (ground arith)

  passes-ended :
      (fuel : ℕ) (st : DebugState) (m : MergingIterator)
      → m.current ≡ none
      → passes comparator fuel st m ≡ true
  passes-ended zero st m ended = refl
  passes-ended (suc fuel) st m ended = pass_round m.current _ (λ i e at. absurd (ground arith))

  -- What is read from an iterator on an entry starts with the entry.
  read_all-at :
      (fuel : ℕ) (m : MergingIterator) (i : ℕ) (e : KeyValue)
      → m.current ≡ some (i, e)
      → read_all comparator (suc fuel) m ≡ e ∷ read_all comparator fuel (merging_next comparator m)
  read_all-at fuel m i e at =
      ap
        (λ o. elim o as (λ _. List KeyValue) [
          | none ↦ []
          | some (j, d) ↦ d ∷ read_all comparator fuel (merging_next comparator m)
        ])
        at

  -- The key behind one that the state follows is greater than the last key.
  Follows-above :
      (st : DebugState) (m : MergingIterator) (i : ℕ) (e d : KeyValue)
      → m.current ≡ some (i, e)
      → comparator.compare e.0 d.0 ≡ lt
      → Follows st m
      → (st.num_entries ≡ 0) ⊎ (comparator.compare d.0 st.last_key ≡ gt)
  Follows-above st m i e d at below (inl new) = inl new
  Follows-above st m i e d at below (inr (j, e', at', last)) =
      let same : e' ≡ e = ground arith in
      let above = laws.compare_swap e.0 d.0 below in inr (rw (last, same) above)

  passes-rising :
      (fuel : ℕ) (st : DebugState) (m : MergingIterator)
      → IsRising comparator (read_all comparator (suc fuel) m)
      → Follows st m
      → passes comparator fuel st m ≡ true
  passes-rising zero st m rising follows = refl
  passes-rising (suc fuel) st m rising follows = pass_round m.current _ (λ i e at.
      let m' = merging_next comparator m in
      let (first, rest) : IsRising comparator (e ∷ read_all comparator (suc fuel) m') =
        subst (IsRising comparator) (read_all-at (suc fuel) m i e at) rising in
      let round : Option DebugState → Bool =
        λ c. elim c as (λ _. Bool) [ none ↦ false | some st' ↦ passes comparator fuel st' m' ] in
      elim (Option-cases m'.current) [
        | inl ended ↦ ap round (check_order-none st m' ended) ∙ passes-ended fuel st m' ended
        | inr ((j, d), at') ↦
            let (below, _) : All (λ x. comparator.compare e.0 x.0 ≡ lt)
                (d ∷ read_all comparator fuel (merging_next comparator m')) =
              subst (All (λ x. comparator.compare e.0 x.0 ≡ lt)) (read_all-at fuel m' j d at')
                first in
            ap round (check_order-some st m' j d at' (Follows-above st m i e d at below follows))
            ∙ passes-rising fuel _ m' rest (inr (j, d, at', refl))
      ])

  -- Where the children of a merging iterator have their entries in ascending order and no two of all these
  -- have the same key, it gives them all, from the first to the last, in strictly ascending order, and the
  -- check of its debug build holds at every `Next`, for an iterator that has not been moved by `Next`
  -- before. As many reads as there are entries are enough.
  pub merging_lem :
      (m : MergingIterator) (st : DebugState) (fuel : ℕ)
      → All (λ c. IsRising comparator (whole c)) m.children
      → AreApart comparator (entries_of m.children)
      → st.num_entries ≡ 0
      → length (entries_of m.children) ≤ fuel
      → IsRising comparator (read_all comparator fuel (merging_seek_to_first comparator m))
        × Perm
            (read_all comparator fuel (merging_seek_to_first comparator m))
            (entries_of m.children)
        × (passes comparator fuel st (merging_seek_to_first comparator m) ≡ true)
  merging_lem m st fuel rising apart new enough =
      let merged = merging-IsMerged comparator laws m fuel rising enough in
      let further = merging-IsMerged comparator laws m (suc fuel) rising (omega arith) in
      (
        merged.rises apart,
        merged.same,
        passes-rising fuel st (merging_seek_to_first comparator m) (further.rises apart) (inl new),
      )

  -- Whatever keys the entries have, none stands before a smaller one, and all are read.
  merging-IsSorted :
      (m : MergingIterator) (fuel : ℕ)
      → All (λ c. IsRising comparator (whole c)) m.children
      → length (entries_of m.children) ≤ fuel
      → IsSorted comparator (read_all comparator fuel (merging_seek_to_first comparator m))
        × Perm
            (read_all comparator fuel (merging_seek_to_first comparator m))
            (entries_of m.children)
  merging-IsSorted m fuel rising enough =
      let merged = merging-IsMerged comparator laws m fuel rising enough in
      (merged.sorted, merged.same)
