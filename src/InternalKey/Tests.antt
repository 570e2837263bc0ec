-- ===== src/InternalKey/Tests.antt =====
-- The theorems on internal keys at concrete inputs.
use Prim.Native.Nat.Ordering.{gt}
use d_lsm.Common.{◌≤◌, ◌<◌, ◌≡◌, ◌≢◌, ◌↔◌, ◌⊎◌, arith, [], ◌∷◌, length, some, none}
use d_lsm.Coding.{Bytes, byte_at}
use d_lsm.Comparator.Interface.{
  IsComparator, bytewise_comparator, bytewise_comparator-IsComparator, IsShortening, KeepsEqual,
  bytewise_comparator-IsShortening, bytewise_comparator-KeepsEqual,
}
use d_lsm.InternalKey.{
  internal_key, parse_internal_key, internal_compare, internal_comparator, lookup_key,
}
use d_lsm.InternalKey.{lookup_internal_key, pack_sequence_and_type, unpack_sequence_and_type}
use d_lsm.InternalKey.Codec.{parse-internal_key, parse_internal_key-none, unpack-pack}
use d_lsm.InternalKey.Order.{by_user_key, newest_first, internal_compare-internal_key}
use d_lsm.InternalKey.Shorten.{internal_comparator_lem}
use d_lsm.InternalKey.Lookup.{lookup_sees}

abbrev user_key : Bytes
user_key = 97 ∷ 98 ∷ []

unpack-pack_example : unpack_sequence_and_type (pack_sequence_and_type 7 1) ≡ (7, 1)
unpack-pack_example = unpack-pack 7 1 (omega arith) (omega arith)

parse-internal_key_example :
    parse_internal_key (internal_key user_key 7 1)
    ≡ some (record { user_key = user_key; sequence = 7; type = 1 })
parse-internal_key_example = parse-internal_key user_key 7 1 (omega arith) (omega arith)

abbrev odd_key : Bytes
odd_key = 97 ∷ 2 ∷ 0 ∷ 0 ∷ 0 ∷ 0 ∷ 0 ∷ 0 ∷ 0 ∷ []

parse_internal_key-none_example :
    (parse_internal_key odd_key ≡ none) ↔ ((length odd_key < 8) ⊎ (1 < byte_at odd_key 1))
parse_internal_key-none_example = parse_internal_key-none odd_key (omega arith)

internal_compare-internal_key_example :
    internal_compare bytewise_comparator (internal_key user_key 7 1) (internal_key user_key 9 0)
    ≡ by_user_key (bytewise_comparator.compare user_key user_key) (newest_first 7 1 9 0)
internal_compare-internal_key_example =
    internal_compare-internal_key bytewise_comparator user_key user_key 7 1 9 0 (omega arith)
      (omega arith) (omega arith) (omega arith)

internal_comparator_lem_example :
    IsComparator (internal_comparator bytewise_comparator)
    × IsShortening (internal_comparator bytewise_comparator)
    × KeepsEqual (internal_comparator bytewise_comparator)
internal_comparator_lem_example =
    internal_comparator_lem bytewise_comparator bytewise_comparator-IsComparator
      bytewise_comparator-IsShortening bytewise_comparator-KeepsEqual

lookup_sees_example :
    (internal_compare bytewise_comparator
        (lookup_internal_key (lookup_key user_key 7))
        (internal_key user_key 5 0)
      ≢ gt)
    ↔ (5 ≤ 7)
lookup_sees_example =
    lookup_sees bytewise_comparator bytewise_comparator-IsComparator user_key 7 5 0 (omega arith)
      (omega arith) (omega arith)
