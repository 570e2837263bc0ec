-- ===== src/Iterators/Smallest.antt =====
-- `FindSmallest` picks a child whose key is not above the others.
use Prim.Native.Nat.Ordering.{lt, gt}
use d_lsm.Common.{ℕ, suc, ◌+◌, ◌≡◌, ◌≢◌, ◌⊎◌, refl, arith}
use d_lsm.Common.{inl, inr, Option, some, none, Bool-cases}
use d_lsm.Common.{List, [], ◌∷◌, All, get_elem?}
use d_lsm.Comparator.{is_lt}
use d_lsm.Comparator.Interface.{Comparator, IsComparator, compare_trans_le}
use d_lsm.Compaction.{KeyValue}
use d_lsm.Iterators.{Cursor, entry_at}
use d_lsm.Iterators.{smaller, find_smallest}

module _ (comparator : Comparator) where
  -- The keys ascend.
  abbrev pub IsRising : List KeyValue → Type 0
  IsRising [] = Unit
  IsRising (e ∷ entries) = All (λ d. comparator.compare e.0 d.0 ≡ lt) entries × IsRising entries

  abbrev pub NotAbove : KeyValue → Option KeyValue → Type 0
  NotAbove e none = Unit
  NotAbove e (some d) = comparator.compare e.0 d.0 ≢ gt

  abbrev pub entry_of : Option (ℕ × KeyValue) → Option KeyValue
  entry_of none = none
  entry_of (some (i, e)) = some e

module _ (comparator : Comparator) (laws : IsComparator comparator) where
  pub not_above_trans :
      (a b d : KeyValue)
      → comparator.compare a.0 b.0 ≢ gt
      → comparator.compare b.0 d.0 ≢ gt
      → comparator.compare a.0 d.0 ≢ gt
  not_above_trans a b d h k =
      ground (arith, compare_trans_le comparator laws a.0 b.0 d.0, laws.compare_eq_left a.0 b.0 d.0)

  -- What is not above the smaller of two is not above either.
  smaller-NotAbove :
      (i : ℕ) (o : Option KeyValue) (best : Option (ℕ × KeyValue)) (e : KeyValue)
      → NotAbove comparator e (entry_of comparator (smaller comparator i o best))
      → NotAbove comparator e o × NotAbove comparator e (entry_of comparator best)
  unfolding smaller
  smaller-NotAbove i none best e h = (tt, h)
  smaller-NotAbove i (some d) none e h = (h, tt)
  smaller-NotAbove i (some d) (some (j, b)) e h =
      elim (Bool-cases (is_lt (comparator.compare d.0 b.0))) [
        | inl less ↦ let low = rw less at h in (low, not_above_trans e d b low (ground arith))
        | inr more ↦
            let low = rw more at h in
            (not_above_trans e b d low (ground (arith, laws.compare_swap_gt b.0 d.0)), low)
      ]

  pub find_smallest-NotAbove :
      (children : List Cursor) (i : ℕ) (best : Option (ℕ × KeyValue)) (j : ℕ) (e : KeyValue)
      → find_smallest comparator i best children ≡ some (j, e)
      → All (λ c. NotAbove comparator e (entry_at c)) children
        × NotAbove comparator e (entry_of comparator best)
  unfolding find_smallest
  find_smallest-NotAbove [] i best j e h = (tt, rw h (ground (arith, laws.compare_refl e.0)))
  find_smallest-NotAbove (c ∷ children) i best j e h =
      let (rest, low) =
        find_smallest-NotAbove children (i + 1) (smaller comparator i (entry_at c) best) j e h in
      let (here, before) = smaller-NotAbove i (entry_at c) best e low in ((here, rest), before)

  -- The child that the loop picks.
  unfoldable pub IsPicked : ℕ → KeyValue → ℕ → List Cursor → Type 0
  IsPicked j e i children =
      (k : ℕ) × (j ≡ i + k) × (c : Cursor) × (get_elem? children k ≡ some c) × (entry_at c ≡ some e)

  smaller_picks :
      (i : ℕ) (o : Option KeyValue) (best : Option (ℕ × KeyValue)) (j : ℕ) (e : KeyValue)
      → smaller comparator i o best ≡ some (j, e)
      → ((j ≡ i) × (o ≡ some e)) ⊎ (best ≡ some (j, e))
  unfolding smaller
  smaller_picks i none best j e h = inr h
  smaller_picks i (some d) none j e h = inl (ground arith, ground arith)
  smaller_picks i (some d) (some b) j e h =
      elim (Bool-cases (is_lt (comparator.compare d.0 b.1.0))) [
        | inl less ↦ let same = rw less at h in inl (ground arith, ground arith)
        | inr more ↦ inr (rw more at h)
      ]

  pub find_smallest-IsPicked :
      (children : List Cursor) (i : ℕ) (best : Option (ℕ × KeyValue)) (j : ℕ) (e : KeyValue)
      → find_smallest comparator i best children ≡ some (j, e)
      → IsPicked j e i children ⊎ (best ≡ some (j, e))
  unfolding find_smallest IsPicked
  find_smallest-IsPicked [] i best j e h = inr h
  find_smallest-IsPicked (c ∷ children) i best j e h =
      elim (find_smallest-IsPicked children (i + 1) (smaller comparator i (entry_at c) best) j e
        h) [
          | inl (k, at_k, d, there, is_e) ↦ inl (suc k, omega arith, d, there, is_e)
          | inr picked ↦ elim (smaller_picks i (entry_at c) best j e picked) [
            | inl (here, is_e) ↦ inl (0, omega arith, c, refl, is_e)
            | inr before ↦ inr before
          ]
        ]

  pub find_smallest-none :
      (children : List Cursor) (i : ℕ) (best : Option (ℕ × KeyValue))
      → find_smallest comparator i best children ≡ none
      → (best ≡ none) × All (λ c. entry_at c ≡ none) children
  unfolding find_smallest smaller
  find_smallest-none [] i best h = (h, tt)
  find_smallest-none (c ∷ children) i best h =
      let (before, rest) =
        find_smallest-none children (i + 1) (smaller comparator i (entry_at c) best) h in
      let (here, nothing) = smaller_none i (entry_at c) best before in (nothing, (here, rest))
    where
      smaller_none :
          (i : ℕ) (o : Option KeyValue) (best : Option (ℕ × KeyValue))
          → smaller comparator i o best ≡ none
          → (o ≡ none) × (best ≡ none)
      smaller_none i none best k = (refl, k)
      smaller_none i (some d) none k = absurd (ground arith)
      smaller_none i (some d) (some b) k = absurd (ground arith)
