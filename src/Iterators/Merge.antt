-- ===== src/Iterators/Merge.antt =====
-- The merging iterator reads the entries of its children in order.
use Prim.Native.Nat.Ordering.{lt, gt}
use mathlib.Core.List.{Perm}
use mathlib.Core.List.Perm
use d_lsm.Common.{ℕ, zero, suc, ◌≤◌, ◌≡◌, ◌≢◌, refl, ap, sym, ◌∙◌, arith}
use d_lsm.Common.{inl, inr, some, none, Option-cases, map, length}
use d_lsm.Common.{List, [], ◌∷◌, ◌++◌, All, All-map, All-append, get_elem?}
use d_lsm.Comparator.Interface.{Comparator, IsComparator}
use d_lsm.Compaction.{KeyValue}
use d_lsm.Iterators.{Cursor, head?, entry_at, whole, child_seek_to_first, child_next}
use mathlib.Core.Path.{subst}
use d_lsm.Iterators.{MergingIterator, move_child, find_smallest}
use d_lsm.Iterators.{at_smallest, merging_seek_to_first, merging_next}
use d_lsm.Iterators.Smallest.{IsRising, NotAbove}
use d_lsm.Iterators.Smallest.{
  not_above_trans, find_smallest-NotAbove, find_smallest-IsPicked, find_smallest-none, IsPicked,
}
use d_lsm.Iterators.Step.{
  Apart, AreApart, remaining, entries_of, IsReady, move_child-IsStep, head_none, cursor-IsForward,
}

module _ (comparator : Comparator) where
  -- The iterator is read from where it stands, as often as the fuel allows.
  abbrev pub read_all : ℕ → MergingIterator → List KeyValue
  read_all zero m = []
  read_all (suc fuel) m = elim m.current [
    | none ↦ []
    | some (i, e) ↦ e ∷ read_all fuel (merging_next comparator m)
  ]

  -- No key stands before a smaller one.
  abbrev pub IsSorted : List KeyValue → Type 0
  IsSorted [] = Unit
  IsSorted (e ∷ entries) = All (λ d. comparator.compare e.0 d.0 ≢ gt) entries × IsSorted entries

module _ (comparator : Comparator) (laws : IsComparator comparator) where
  NotAbove-ahead :
      (e : KeyValue) (ahead : List KeyValue)
      → NotAbove comparator e (head? ahead)
      → IsRising comparator ahead
      → All (λ d. comparator.compare e.0 d.0 ≢ gt) ahead
  NotAbove-ahead e [] h rising = tt
  NotAbove-ahead e (d ∷ ahead) h (above, rising) = (
    h,
    All-map {P = λ x. comparator.compare d.0 x.0 ≡ lt} {Q = λ x. comparator.compare e.0 x.0 ≢ gt}
        (λ x hx. not_above_trans comparator laws e d x h (ground arith)) ahead above,
  )

  NotAbove-remaining :
      (e : KeyValue) (children : List Cursor)
      → All (IsReady comparator) children
      → All (λ c. NotAbove comparator e (entry_at c)) children
      → All (λ d. comparator.compare e.0 d.0 ≢ gt) (remaining children)
  unfolding IsReady
  NotAbove-remaining e [] h low = tt
  NotAbove-remaining e (c ∷ children) ((forward_c, rising), h) (low, lows) =
      All-append _ c.ahead (remaining children)
        (NotAbove-ahead e c.ahead (rw forward_c at low) rising)
        (NotAbove-remaining e children h lows)

  remaining-nil :
      (children : List Cursor)
      → All (IsReady comparator) children
      → All (λ c. entry_at c ≡ none) children
      → remaining children ≡ []
  unfolding IsReady
  remaining-nil [] h none_left = refl
  remaining-nil (c ∷ children) ((forward_c, rising), h) (none_here, none_left) =
      ap (λ xs. xs ++ remaining children) (head_none c.ahead (sym forward_c ∙ none_here))
      ∙ remaining-nil children h none_left

  picked_child :
      (children : List Cursor) (j : ℕ) (e : KeyValue)
      → find_smallest comparator 0 none children ≡ some (j, e)
      → (k : ℕ) × (j ≡ k) × (c : Cursor) × (get_elem? children k ≡ some c) × (entry_at c ≡ some e)
  unfolding IsPicked
  picked_child children j e h =
      elim (find_smallest-IsPicked comparator laws children 0 none j e h) [
        | inl (k, at_k, c, there, is_e) ↦ (k, omega arith, c, there, is_e)
        | inr nothing ↦ absurd (ground arith)
      ]

  less_than :
      (e : KeyValue) (entries : List KeyValue)
      → All (λ d. comparator.compare e.0 d.0 ≢ gt) entries
      → All (Apart comparator e) entries
      → All (λ d. comparator.compare e.0 d.0 ≡ lt) entries
  less_than e [] low apart = tt
  less_than e (d ∷ entries) (hd, low) ((differs, _), apart) =
      (ground arith, less_than e entries low apart)

  length-eq_zero : (xs : List KeyValue) → length xs ≤ 0 → xs ≡ []
  length-eq_zero [] h = refl
  length-eq_zero (x ∷ xs) h = absurd (omega arith)

  -- What is read from here on.
  pub record IsMerged (out entries : List KeyValue) : Type 1 where
    pub sorted : IsSorted comparator out
    pub same : Perm out entries
    pub keeps : (P : KeyValue → Type 0) → All P entries → All P out
    pub rises : AreApart comparator entries → IsRising comparator out

  read_all-IsMerged :
      (fuel : ℕ) (children : List Cursor)
      → All (IsReady comparator) children
      → length (remaining children) ≤ fuel
      → IsMerged (read_all comparator fuel (at_smallest comparator children)) (remaining children)
  unfolding merging_next
  read_all-IsMerged zero children ready enough =
      rw (length-eq_zero (remaining children) enough)
        (record { sorted = tt; same = Perm.rfl; keeps = λ P h. tt; rises = λ h. tt })
  read_all-IsMerged (suc fuel) children ready enough =
      elim (Option-cases (find_smallest comparator 0 none children)) [
        | inl ended ↦
            let (_, none_left) = find_smallest-none comparator laws children 0 none ended in
            let empty = remaining-nil children ready none_left in
            rw (ended, empty)
              (record { sorted = tt; same = Perm.rfl; keeps = λ P h. tt; rises = λ h. tt })
        | inr ((j, e), picked) ↦
            let (k, at_k, c, there, is_e) = picked_child children j e picked in
            let step =
              move_child-IsStep comparator children j c e ready
                (ap (get_elem? children) at_k ∙ there) is_e in
            let rest =
              read_all-IsMerged fuel (move_child child_next j children) step.ready
                (omega (arith, step.fewer)) in
            let least =
              NotAbove-remaining e children ready
                (find_smallest-NotAbove comparator laws children 0 none j e picked).0 in
            rw picked (record {
              sorted = (rest.keeps _ (step.keeps _ least).1, rest.sorted);
              same = Perm.trans (Perm.cons e rest.same) (Perm.symm step.same);
              keeps =
                  λ P all_p. let (here, there) = step.keeps P all_p in (here, rest.keeps P there);
              rises = λ all_apart.
                  let (apart, others) = step.apart all_apart in
                  (rest.keeps _ (less_than e _ (step.keeps _ least).1 apart), rest.rises others);
            })
      ]

  whole-IsReady :
      (children : List Cursor)
      → All (λ c. IsRising comparator (whole c)) children
      → All (IsReady comparator) (map child_seek_to_first children)
        × (remaining (map child_seek_to_first children) ≡ entries_of children)
  unfolding IsReady child_seek_to_first
  whole-IsReady [] h = (tt, refl)
  whole-IsReady (c ∷ children) (hc, h) =
      let (ready, same) = whole-IsReady children h in
      (((cursor-IsForward [] (whole c), hc), ready), ap (λ es. whole c ++ es) same)

  -- Read from the first entry to the last, the merging iterator gives the entries of all its children,
  -- in order.
  pub merging-IsMerged :
      (m : MergingIterator) (fuel : ℕ)
      → All (λ c. IsRising comparator (whole c)) m.children
      → length (entries_of m.children) ≤ fuel
      → IsMerged
          (read_all comparator fuel (merging_seek_to_first comparator m))
          (entries_of m.children)
  unfolding merging_seek_to_first
  merging-IsMerged m fuel rising enough =
      let (ready, same) = whole-IsReady m.children rising in
      subst
        (IsMerged
          (read_all comparator fuel (at_smallest comparator (map child_seek_to_first m.children))))
        same (read_all-IsMerged fuel (map child_seek_to_first m.children) ready (rw same enough))
