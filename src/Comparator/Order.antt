-- ===== src/Comparator/Order.antt =====
-- `Slice::compare` is the lexicographic order of byte strings, and a total order.
use Prim.Native.Nat.{compare, Ordering}
use Prim.Native.Nat.Ordering.{lt, eq, gt}
use d_lsm.Common.{◌≡◌, refl, arith}
use d_lsm.Common.{[], ◌∷◌}
use d_lsm.Coding.{Bytes}
use d_lsm.Comparator.{slice_compare}

-- The lexicographic order.
unfoldable pub lex : Bytes → Bytes → Ordering
lex [] [] = eq
lex [] (y ∷ b) = lt
lex (x ∷ a) [] = gt
lex (x ∷ a) (y ∷ b) = elim (compare x y) [ lt ↦ lt | eq ↦ lex a b | gt ↦ gt ]

-- `memcmp` over the shorter length, and then the lengths, give the lexicographic order.
pub slice_compare-eq-lex : (a b : Bytes) → slice_compare a b ≡ lex a b
unfolding slice_compare lex
slice_compare-eq-lex [] [] = refl
slice_compare-eq-lex [] (y ∷ b) = ground arith
slice_compare-eq-lex (x ∷ a) [] = ground arith
slice_compare-eq-lex (x ∷ a) (y ∷ b) = ground (arith, slice_compare-eq-lex a b)

pub lex_refl : (a : Bytes) → lex a a ≡ eq
unfolding lex
lex_refl [] = refl
lex_refl (x ∷ a) = ground (arith, lex_refl a)

pub eq_of_lex : (a b : Bytes) → lex a b ≡ eq → a ≡ b
unfolding lex
eq_of_lex [] [] h = refl
eq_of_lex [] (y ∷ b) h = cc
eq_of_lex (x ∷ a) [] h = cc
eq_of_lex (x ∷ a) (y ∷ b) h = ground (arith, eq_of_lex a b)

pub lex_swap : (a b : Bytes) → lex a b ≡ lt → lex b a ≡ gt
unfolding lex
lex_swap [] [] h = cc
lex_swap [] (y ∷ b) h = refl
lex_swap (x ∷ a) [] h = cc
lex_swap (x ∷ a) (y ∷ b) h = ground (arith, lex_swap a b)

pub lex_swap_gt : (a b : Bytes) → lex a b ≡ gt → lex b a ≡ lt
unfolding lex
lex_swap_gt [] [] h = cc
lex_swap_gt [] (y ∷ b) h = cc
lex_swap_gt (x ∷ a) [] h = refl
lex_swap_gt (x ∷ a) (y ∷ b) h = ground (arith, lex_swap_gt a b)

pub lex_trans : (a b c : Bytes) → lex a b ≡ lt → lex b c ≡ lt → lex a c ≡ lt
unfolding lex
lex_trans [] [] c h k = cc
lex_trans [] (y ∷ b) [] h k = cc
lex_trans [] (y ∷ b) (z ∷ c) h k = refl
lex_trans (x ∷ a) [] c h k = cc
lex_trans (x ∷ a) (y ∷ b) [] h k = cc
lex_trans (x ∷ a) (y ∷ b) (z ∷ c) h k = ground (arith, lex_trans a b c)
