-- ===== src/Comparator.antt =====
-- include/dLSM/slice.h (`Slice::compare`) and util/comparator.cc (`BytewiseComparatorImpl`).
-- The sign of a C++ comparison is an `Ordering`.
pub mod Order
pub mod Shorten
pub mod Interface
mod Tests
use Prim.Native.Nat.{compare, Ordering, min}
use Prim.Native.Nat.Ordering.{lt, eq, gt}
use d_lsm.Common.{
  Bool, true, false, ℕ, zero, suc, ◌+◌, ◌&&◌, Option, some, none, get_elem?, ltb, leb, ◌==◌,
}
use d_lsm.Common.{List, [], ◌∷◌, ◌++◌, length, take, if◌then◌else◌}
use d_lsm.Coding.{Bytes, byte_at, to_byte}

-- `r < 0`, of the result of a comparison.
abbrev pub is_lt : Ordering → Bool
is_lt lt = true
is_lt eq = false
is_lt gt = false

-- `r == 0`
abbrev pub is_eq : Ordering → Bool
is_eq lt = false
is_eq eq = true
is_eq gt = false

-- `r > 0`
abbrev pub is_gt : Ordering → Bool
is_gt lt = false
is_gt eq = false
is_gt gt = true

-- The C library's `memcmp` over `n` bytes, which are compared as unsigned numbers.
unfoldable pub memcmp : ℕ → Bytes → Bytes → Ordering
memcmp zero a b = eq
memcmp (suc n) (x ∷ a) (y ∷ b) = elim (compare x y) [ lt ↦ lt | eq ↦ memcmp n a b | gt ↦ gt ]
memcmp (suc n) a b = eq

-- `Slice::compare`
unfoldable pub slice_compare : Bytes → Bytes → Ordering
unfolding memcmp
slice_compare a b =
    let min_len = if ltb (length a) (length b) then length a else length b in
    elim (memcmp min_len a b) [
      | lt ↦ lt
      | gt ↦ gt
      | eq ↦ if ltb (length a) (length b) then lt else if ltb (length b) (length a) then gt else eq
    ]

-- `while ((diff_index < min_length) && (start[diff_index] == limit[diff_index])) diff_index++;`
unfoldable pub diff_index : Bytes → Bytes → ℕ
diff_index (x ∷ start) (y ∷ limit) =
    let rest = diff_index start limit in if x == y then suc rest else 0
diff_index start limit = 0

-- `BytewiseComparatorImpl::FindShortestSeparator`: the new value of `*start`.
unfoldable pub find_shortest_separator : Bytes → Bytes → Bytes
unfolding diff_index
find_shortest_separator start limit =
    let index = diff_index start limit in
    if leb (min (length start) (length limit)) index
    then start
    else let diff_byte = byte_at start index in
      if ltb diff_byte 255 && ltb (diff_byte + 1) (byte_at limit index)
      then take index start ++ (diff_byte + 1) ∷ []
      else start

-- `BytewiseComparatorImpl::FindShortSuccessor`: the loop over `i`, with the bytes before it.
unfoldable pub find_short_successor_loop : Bytes → Bytes → Bytes
find_short_successor_loop before [] = before
find_short_successor_loop before (byte ∷ after) =
    let more = find_short_successor_loop (before ++ byte ∷ []) after in
    if byte == 255 then more else before ++ (byte + 1) ∷ []

unfoldable pub find_short_successor : Bytes → Bytes
unfolding find_short_successor_loop
find_short_successor key = find_short_successor_loop [] key
