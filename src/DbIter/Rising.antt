-- ===== src/DbIter/Rising.antt =====
-- A forward scan yields each user key once, in ascending order.
use Prim.Native.Nat.Ordering.{lt, gt}
use d_lsm.Common.{ℕ, ◌≡◌, ◌≢◌, refl, arith, Bool, true, inl, inr, Option, some, none, Bool-cases}
use d_lsm.Common.{List, [], ◌∷◌, All, All-map, map, leb, ◌==◌}
use d_lsm.Coding.{Bytes}
use d_lsm.Comparator.Interface.{Comparator, IsComparator}
use d_lsm.InternalKey.{ParsedInternalKey, parse_internal_key, extract_user_key, internal_compare}
use d_lsm.WriteBatch.{type_deletion}
use d_lsm.Versions.Overlap.{user_order}
use d_lsm.Compaction.{KeyValue}
use d_lsm.Compaction.Level.{Ascending}
use d_lsm.DbIter.{hidden, choose_next, yield, go_on}
use d_lsm.DbIter.Scan.{yielded, user_entry}

-- Each key is less than those behind it.
abbrev pub IsRising : Comparator → List (Bytes × Bytes) → Type 0
IsRising user [] = Unit
IsRising user (e ∷ entries) = All (λ d. user.compare e.0 d.0 ≡ lt) entries × IsRising user entries

pub parse_user_key :
    (key : Bytes) (ikey : ParsedInternalKey)
    → parse_internal_key key ≡ some ikey
    → ikey.user_key ≡ extract_user_key key
unfolding parse_internal_key
parse_user_key key ikey h = ground arith

-- The user keys are not below this one.
abbrev pub FromKey : Comparator → Bytes → List KeyValue → Type 0
FromKey user w entries = All (λ d. user.compare w (extract_user_key d.0) ≢ gt) entries

module _ (user : Comparator) (laws : IsComparator user) (sequence : ℕ) where
  abbrev Above : Bytes → List (Bytes × Bytes) → Type 0
  Above w entries = All (λ d. user.compare w d.0 ≡ lt) entries

  -- What is yielded rises, and above the key that is skipped.
  abbrev RisesFrom : Bool → Bytes → List (Bytes × Bytes) → Type 0
  RisesFrom skipping skip entries = (skipping ≡ true → Above skip entries) × IsRising user entries

  Above-from :
      (skip w : Bytes) (entries : List (Bytes × Bytes))
      → user.compare skip w ≢ gt
      → Above w entries
      → Above skip entries
  Above-from skip w entries h above =
      All-map {P = λ d. user.compare w d.0 ≡ lt} {Q = λ d. user.compare skip d.0 ≡ lt}
        (λ d hd. ground (arith, laws.compare_trans skip w d.0, laws.compare_eq_left skip w d.0))
        entries above

  RisesFrom-step :
      (skipping : Bool) (skip : Bytes) (e : KeyValue) (ahead : List KeyValue)
      (ikey : ParsedInternalKey)
      → ikey.user_key ≡ extract_user_key e.0
      → (skipping ≡ true → user.compare skip (extract_user_key e.0) ≢ gt)
      → RisesFrom skipping skip
          (map (user_entry user sequence) (yielded user sequence skipping skip ahead))
      → RisesFrom true
          (extract_user_key e.0)
          (map (user_entry user sequence) (yielded user sequence true (extract_user_key e.0) ahead))
      → RisesFrom skipping skip (
          map
            (user_entry user sequence)
            (elim (choose_next user sequence skipping skip (some ikey)) [
              | yield ↦ e ∷ yielded user sequence true (extract_user_key e.0) ahead
              | go_on skipping' skip' ↦ yielded user sequence skipping' skip' ahead
            ]))
  unfolding choose_next
  RisesFrom-step skipping skip e ahead ikey name low same (above, next) =
      let further : RisesFrom skipping skip (
          map (user_entry user sequence)
            (yielded user sequence true (extract_user_key e.0) ahead)) =
        (λ on. Above-from skip (extract_user_key e.0) _ (low on) (above refl), next) in
      elim (Bool-cases (leb ikey.sequence sequence)) [
        | inr newer ↦ rw newer same
        | inl old ↦ elim (Bool-cases (ikey.type == type_deletion)) [
          | inl deletion ↦ rw (old, deletion, name) further
          | inr put ↦ elim (Bool-cases (hidden user sequence skipping skip ikey.user_key)) [
            | inl hide ↦ rw (old, put, hide) same
            | inr show ↦
                let first : (skipping ≡ true) → user.compare skip (extract_user_key e.0) ≡ lt =
                  λ on. ground (arith, laws.compare_swap_gt (extract_user_key e.0) skip) in
                rw (old, put, show) (λ on. (first on, further.0 on), (above refl, next))
          ]
        ]
      ]

  RisesFrom-choice :
      (skipping : Bool) (skip : Bytes) (e : KeyValue) (ahead : List KeyValue)
      (o : Option ParsedInternalKey)
      → parse_internal_key e.0 ≡ o
      → (skipping ≡ true → user.compare skip (extract_user_key e.0) ≢ gt)
      → RisesFrom skipping skip
          (map (user_entry user sequence) (yielded user sequence skipping skip ahead))
      → RisesFrom true
          (extract_user_key e.0)
          (map (user_entry user sequence) (yielded user sequence true (extract_user_key e.0) ahead))
      → RisesFrom skipping skip (
          map (user_entry user sequence) (elim (choose_next user sequence skipping skip o) [
            | yield ↦ e ∷ yielded user sequence true (extract_user_key e.0) ahead
            | go_on skipping' skip' ↦ yielded user sequence skipping' skip' ahead
          ]))
  RisesFrom-choice skipping skip e ahead none parsed low same next = unfold choose_next in same
  RisesFrom-choice skipping skip e ahead (some ikey) parsed low same next =
      RisesFrom-step skipping skip e ahead ikey (parse_user_key e.0 ikey parsed) low same next

  -- The entries ahead do not have smaller user keys.
  pub Ascending-FromKey :
      (key : Bytes) (ahead : List KeyValue)
      → All (λ d. internal_compare user key d.0 ≡ lt) ahead
      → FromKey user (extract_user_key key) ahead
  Ascending-FromKey key ahead above =
      All-map {P = λ d. internal_compare user key d.0 ≡ lt}
        {Q = λ d. user.compare (extract_user_key key) (extract_user_key d.0) ≢ gt}
        (λ d hd. user_order user laws key d.0 (ground arith)) ahead above

  pub yielded-RisesFrom :
      (skipping : Bool) (skip : Bytes) (entries : List KeyValue)
      → Ascending user entries
      → (skipping ≡ true → FromKey user skip entries)
      → RisesFrom skipping skip
          (map (user_entry user sequence) (yielded user sequence skipping skip entries))
  unfolding yielded
  yielded-RisesFrom skipping skip [] h from = (λ on. tt, tt)
  yielded-RisesFrom skipping skip (e ∷ ahead) (above, h) from =
      RisesFrom-choice skipping skip e ahead (parse_internal_key e.0) refl (λ on. (from on).0)
        (yielded-RisesFrom skipping skip ahead h (λ on. (from on).1))
        (yielded-RisesFrom true (extract_user_key e.0) ahead h
          (λ on. Ascending-FromKey e.0 ahead above))
