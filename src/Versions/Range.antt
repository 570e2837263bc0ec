-- ===== src/Versions/Range.antt =====
-- `GetOverlappingInputs`: ranges that grow to the files they touch, and what a search collects.
use Prim.Native.Nat.Ordering.{lt}
use d_lsm.Common.{ℕ, ◌+◌, ◌<◌, ◌≡◌, ◌≢◌, arith}
use d_lsm.Common.{Bool, true, false, not, inl, inr, Bool-cases, ◌==◌}
use d_lsm.Common.{List, ◌∷◌, ◌++◌, All, Any, Option, some, none, if◌then◌else◌}
use d_lsm.Common.{filter, count_if, count_if-lt}
use d_lsm.Coding.{Bytes}
use d_lsm.Comparator.Interface.{Comparator, IsComparator}
use d_lsm.InternalKey.{extract_user_key}
use d_lsm.Versions.{FileMetaData, starts_after, ends_before_begin, starts_before, ends_after}
use d_lsm.Versions.{Verdict, verdict, skip, blocked, push, push_and_grow_begin, push_and_grow_end}
use d_lsm.Versions.{InputsResult, returned, out_of_fuel}

module _ (user : Comparator) where
  -- The file has keys in the range.
  abbrev pub touches : Option Bytes → Option Bytes → FileMetaData → Bool
  touches b e f = if ends_before_begin user b f then false else not (starts_after user e f)

  -- The range contains the file's.
  abbrev pub Contains : Option Bytes → Option Bytes → FileMetaData → Type 0
  Contains b e f = (starts_before user b f ≡ false) × (ends_after user e f ≡ false)

  -- The second lower bound is not above the first; the second upper bound not below.
  abbrev pub LowerBound : Option Bytes → Option Bytes → Type 0
  LowerBound none none = Unit
  LowerBound none (some y) = ⊥
  LowerBound (some x) none = ⊥
  LowerBound (some x) (some y) = user.compare x y ≢ lt

  abbrev pub UpperBound : Option Bytes → Option Bytes → Type 0
  UpperBound none none = Unit
  UpperBound none (some y) = ⊥
  UpperBound (some x) none = ⊥
  UpperBound (some x) (some y) = user.compare y x ≢ lt

  -- The range is wider, on level 0 only, and contains all files that it touches.
  abbrev pub IsClosure :
      ℕ → List FileMetaData → Option Bytes → Option Bytes → Option Bytes → Option Bytes → Type 0
  IsClosure level files b e b' e' =
      LowerBound b b'
      × UpperBound e e'
      × (level ≡ 0 → All (Contains b' e') (filter (touches b' e') files))
      × (level ≢ 0 → (b' ≡ b) × (e' ≡ e))

  -- What a search from the range gives.
  abbrev pub Collected : ℕ → List FileMetaData → Option Bytes → Option Bytes → InputsResult → Type 0
  Collected level files b e (returned true inputs) =
      (b' : Option Bytes) × (e' : Option Bytes) × IsClosure level files b e b' e'
      × (inputs ≡ filter (touches b' e') files)
      × All (λ f. f.under_compaction ≡ false) inputs
  Collected level files b e (returned false inputs) =
      (b' : Option Bytes) × (e' : Option Bytes) × LowerBound b b'
      × UpperBound e e'
      × (level ≢ 0 → (b' ≡ b) × (e' ≡ e))
      × Any (λ f. (f.under_compaction ≡ true) × (touches b' e' f ≡ true)) files
  Collected level files b e out_of_fuel = ⊥

  -- The files that reach out of the range, at either end.
  abbrev pub outside : List FileMetaData → Option Bytes → Option Bytes → ℕ
  outside files b e = count_if (starts_before user b) files + count_if (ends_after user e) files

  -- What each verdict on a file means.
  abbrev pub Explains : ℕ → Option Bytes → Option Bytes → FileMetaData → Verdict → Type 0
  Explains level b e f skip = touches b e f ≡ false
  Explains level b e f blocked = (touches b e f ≡ true) × (f.under_compaction ≡ true)
  Explains level b e f push =
      (touches b e f ≡ true) × (f.under_compaction ≡ false) × (level ≡ 0 → Contains b e f)
  Explains level b e f (push_and_grow_begin key) =
      (key ≡ extract_user_key f.smallest) × (level ≡ 0) × (starts_before user b f ≡ true)
  Explains level b e f (push_and_grow_end key) =
      (key ≡ extract_user_key f.largest) × (level ≡ 0) × (ends_after user e f ≡ true)

  pub verdict_lem :
      (level : ℕ) (b e : Option Bytes) (f : FileMetaData)
      → Explains level b e f (verdict user level b e f)
  unfolding verdict
  verdict_lem level b e f = elim (Bool-cases (ends_before_begin user b f)) [
    | inl out ↦ rw out (ground arith)
    | inr near ↦ rw near (elim (Bool-cases (starts_after user e f)) [
      | inl out ↦ rw out (ground arith)
      | inr touching ↦ rw touching (elim (Bool-cases f.under_compaction) [
        | inl busy ↦ rw busy (ground arith)
        | inr idle ↦ simp idle (elim (Bool-cases (level == 0)) [
          | inr upper ↦ rw upper (ground arith)
          | inl base ↦ rw base (elim (Bool-cases (starts_before user b f)) [
            | inl grow ↦ rw grow (ground arith)
            | inr begun ↦ rw begun (elim (Bool-cases (ends_after user e f)) [
              | inl grow ↦ rw grow (ground arith)
              | inr ended ↦ rw ended (ground arith)
            ])
          ])
        ])
      ])
    ])
  ]

module _ (user : Comparator) (laws : IsComparator user) where
  pub LowerBound-refl : (b : Option Bytes) → LowerBound user b b
  LowerBound-refl none = tt
  LowerBound-refl (some x) = ground (arith, laws.compare_refl x)

  pub UpperBound-refl : (b : Option Bytes) → UpperBound user b b
  UpperBound-refl none = tt
  UpperBound-refl (some x) = ground (arith, laws.compare_refl x)

  pub LowerBound-grow :
      (b b' : Option Bytes) (f : FileMetaData)
      → starts_before user b f ≡ true
      → LowerBound user (some (extract_user_key f.smallest)) b'
      → LowerBound user b b'
  unfolding starts_before
  LowerBound-grow none b' f h k = absurd (ground arith)
  LowerBound-grow (some x) none f h k = k
  LowerBound-grow (some x) (some y) f h k =
      let s = extract_user_key f.smallest in
      λ below. k (laws.compare_trans s x y (ground arith) below)

  pub UpperBound-grow :
      (e e' : Option Bytes) (f : FileMetaData)
      → ends_after user e f ≡ true
      → UpperBound user (some (extract_user_key f.largest)) e'
      → UpperBound user e e'
  unfolding ends_after
  UpperBound-grow none b' f h k = absurd (ground arith)
  UpperBound-grow (some x) none f h k = k
  UpperBound-grow (some x) (some y) f h k =
      let s = extract_user_key f.largest in
      λ below. k (laws.compare_trans y x s below (laws.compare_swap_gt s x (ground arith)))

  -- A range that grows to a file has fewer files outside.
  pub outside_grow_begin :
      (b e : Option Bytes) (before : List FileMetaData) (f : FileMetaData)
      (rest : List FileMetaData)
      → starts_before user b f ≡ true
      → outside user (before ++ f ∷ rest) (some (extract_user_key f.smallest)) e
        < outside user (before ++ f ∷ rest) b e
  unfolding starts_before
  outside_grow_begin none e before f rest h = absurd (ground arith)
  outside_grow_begin (some x) e before f rest h =
      let s = extract_user_key f.smallest in
      let fewer =
        count_if-lt (starts_before user (some x)) (starts_before user (some s))
          (λ g hg. ground (arith, laws.compare_trans (extract_user_key g.smallest) s x)) before f
          rest h (ground (arith, laws.compare_refl s)) in
      omega (arith, fewer)

  pub outside_grow_end :
      (b e : Option Bytes) (before : List FileMetaData) (f : FileMetaData)
      (rest : List FileMetaData)
      → ends_after user e f ≡ true
      → outside user (before ++ f ∷ rest) b (some (extract_user_key f.largest))
        < outside user (before ++ f ∷ rest) b e
  unfolding ends_after
  outside_grow_end b none before f rest h = absurd (ground arith)
  outside_grow_end b (some x) before f rest h =
      let s = extract_user_key f.largest in
      let fewer =
        count_if-lt (ends_after user (some x)) (ends_after user (some s))
          (λ g hg.
            let l = extract_user_key g.largest in
            ground (
              arith,
              laws.compare_trans x s l,
              laws.compare_swap_gt l s,
              laws.compare_swap_gt s x,
              laws.compare_swap x l,
            ))
          before f rest h (ground (arith, laws.compare_refl s)) in
      omega (arith, fewer)
