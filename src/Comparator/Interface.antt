-- ===== src/Comparator/Interface.antt =====
-- include/dLSM/comparator.h: what the rest of the program asks of a comparator, and the bytewise
-- comparator as one that gives it.
use Prim.Native.Nat.{Ordering}
use Prim.Native.Nat.Ordering.{lt, eq, gt}
use d_lsm.Common.{◌≡◌, ◌≢◌, ◌∙◌, sym, ◌⊎◌, inl, inr, ap, arith}
use d_lsm.Coding.{Bytes}
use d_lsm.Comparator.{slice_compare, find_shortest_separator, find_short_successor}
use d_lsm.Comparator.Order.{
  slice_compare-eq-lex, lex_refl, eq_of_lex, lex_swap, lex_swap_gt, lex_trans,
}
use d_lsm.Comparator.Shorten.{find_shortest_separator_lem, find_short_successor_lem}

-- The virtual methods.
pub record Comparator : Type 0 where
  pub compare : Bytes → Bytes → Ordering
  pub find_shortest_separator : Bytes → Bytes → Bytes
  pub find_short_successor : Bytes → Bytes

-- The contract of `Compare`: a total order up to the keys that it calls equal.
pub record IsComparator (c : Comparator) : Type 0 where
  pub compare_refl : (a : Bytes) → c.compare a a ≡ eq
  pub compare_eq_left : (a b d : Bytes) → c.compare a b ≡ eq → c.compare a d ≡ c.compare b d
  pub compare_eq_right : (a b d : Bytes) → c.compare a b ≡ eq → c.compare d a ≡ c.compare d b
  pub compare_swap : (a b : Bytes) → c.compare a b ≡ lt → c.compare b a ≡ gt
  pub compare_swap_gt : (a b : Bytes) → c.compare a b ≡ gt → c.compare b a ≡ lt
  pub compare_trans : (a b d : Bytes) → c.compare a b ≡ lt → c.compare b d ≡ lt → c.compare a d ≡ lt

-- The contract of the methods that shorten keys: the separator is asked for in [start, limit) only if
-- start < limit.
pub record IsShortening (c : Comparator) : Type 0 where
  pub separator :
      (start limit : Bytes)
      → c.compare start limit ≡ lt
      → (c.compare start (c.find_shortest_separator start limit) ≢ gt)
        × (c.compare (c.find_shortest_separator start limit) limit ≡ lt)
  pub successor : (key : Bytes) → c.compare key (c.find_short_successor key) ≢ gt

-- Between equal keys, where the contract says nothing, the first is not changed to a greater one.
abbrev pub KeepsEqual : Comparator → Type 0
KeepsEqual c =
    (start limit : Bytes)
    → c.compare start limit ≡ eq
    → c.compare start (c.find_shortest_separator start limit) ≢ lt

-- `BytewiseComparator()`
abbrev pub bytewise_comparator : Comparator
bytewise_comparator = record {
  compare = slice_compare;
  find_shortest_separator = find_shortest_separator;
  find_short_successor = find_short_successor;
}

pub eq_of_slice_compare : (a b : Bytes) → slice_compare a b ≡ eq → a ≡ b
eq_of_slice_compare a b h = eq_of_lex a b (sym (slice_compare-eq-lex a b) ∙ h)

-- The bytewise comparator meets the contract.
pub bytewise_comparator-IsComparator : IsComparator bytewise_comparator
bytewise_comparator-IsComparator = record {
  compare_refl = λ a. rw slice_compare-eq-lex (lex_refl a);
  compare_eq_left = λ a b d h. ap (λ t. slice_compare t d) (eq_of_slice_compare a b h);
  compare_eq_right = λ a b d h. ap (slice_compare d) (eq_of_slice_compare a b h);
  compare_swap = λ a b h. rw slice_compare-eq-lex (lex_swap a b (rw slice_compare-eq-lex at h));
  compare_swap_gt =
      λ a b h. rw slice_compare-eq-lex (lex_swap_gt a b (rw slice_compare-eq-lex at h));
  compare_trans = λ a b d h k.
      rw slice_compare-eq-lex
        (lex_trans a b d (rw slice_compare-eq-lex at h) (rw slice_compare-eq-lex at k));
}

bytewise_separator :
    (start limit : Bytes)
    → (find_shortest_separator start limit ≡ start)
      ⊎ ((slice_compare start (find_shortest_separator start limit) ≡ lt)
          × (slice_compare (find_shortest_separator start limit) limit ≡ lt))
bytewise_separator start limit = elim (find_shortest_separator_lem start limit) [
  | inl same ↦ inl same
  | inr (above, below, _) ↦ inr (rw slice_compare-eq-lex above, rw slice_compare-eq-lex below)
]

pub bytewise_comparator-IsShortening : IsShortening bytewise_comparator
bytewise_comparator-IsShortening = record {
  separator = λ start limit h. elim (bytewise_separator start limit) [
    | inl same ↦ rw same (ground (arith, bytewise_comparator-IsComparator.compare_refl start), h)
    | inr (above, below) ↦ (ground arith, below)
  ];
  successor = λ key. elim (find_short_successor_lem key) [
    | inl (same, _) ↦ rw same (ground (arith, bytewise_comparator-IsComparator.compare_refl key))
    | inr (above, _) ↦ rw slice_compare-eq-lex (ground arith)
  ];
}

pub bytewise_comparator-KeepsEqual : KeepsEqual bytewise_comparator
bytewise_comparator-KeepsEqual start limit h =
    let laws = bytewise_comparator-IsComparator in
    elim (bytewise_separator start limit) [
      | inl same ↦ rw same (ground (arith, laws.compare_refl start))
      | inr (above, below) ↦ absurd (
          ground (
            arith,
            laws.compare_swap (find_shortest_separator start limit) limit,
            laws.compare_eq_left start limit (find_shortest_separator start limit),
          ))
    ]

module _ (c : Comparator) (laws : IsComparator c) where
  pub compare_trans_le :
      (a b d : Bytes) → c.compare a b ≡ lt → c.compare b d ≢ gt → c.compare a d ≡ lt
  compare_trans_le a b d h k = grind (arith, laws.compare_trans a b d, laws.compare_eq_right b d a)
