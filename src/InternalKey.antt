-- ===== src/InternalKey.antt =====
-- db/dbformat.h and db/dbformat.cc: internal keys, their order and the lookup key.
-- An internal key is a user key followed by eight bytes, which pack a sequence number and a type.
pub mod Codec
pub mod Order
pub mod Shorten
pub mod Lookup
mod Tests
use Prim.Native.Nat.{Ordering}
use Prim.Native.Nat.Ordering.{lt, eq, gt}
use d_lsm.Common.{ℕ, ◌+◌, ◌-◌, ◌*◌, ◌/◌, ◌%◌, ◌^◌, ◌&&◌, Option, some, none, bit_and, bit_or}
use d_lsm.Common.{List, [], ◌∷◌, ◌++◌, length, take, drop, ltb, leb, ◌==◌, if◌then◌else◌}
use d_lsm.Coding.{Bytes, decode_fixed64, put_fixed64, encode_fixed64, encode_varint32}
use d_lsm.Comparator.{is_lt}
use d_lsm.Comparator.Interface.{Comparator}

-- `kMaxSequenceNumber` and `kValueTypeForSeek`
abbrev pub max_sequence_number : ℕ
max_sequence_number = 2 ^ 56 - 1

abbrev pub value_type_for_seek : ℕ
value_type_for_seek = 1

pub record ParsedInternalKey : Type 0 where
  pub user_key : Bytes
  pub sequence : ℕ
  pub type : ℕ

unfoldable pub pack_sequence_and_type : ℕ → ℕ → ℕ
pack_sequence_and_type seq t = bit_or (seq * 2 ^ 8 % 2 ^ 64) t

unfoldable pub unpack_sequence_and_type : ℕ → ℕ × ℕ
unpack_sequence_and_type packed = (packed / 2 ^ 8, bit_and packed 255)

unfoldable pub append_internal_key : Bytes → ParsedInternalKey → Bytes
append_internal_key result key =
    put_fixed64 (result ++ key.user_key) (pack_sequence_and_type key.sequence key.type)

-- `InternalKey(user_key, s, t)`, and `Encode` of it.
unfoldable pub internal_key : Bytes → ℕ → ℕ → Bytes
internal_key user_key s t =
    append_internal_key [] (record { user_key = user_key; sequence = s; type = t })

-- `DecodeFixed64(key.data() + key.size() - 8)`
unfoldable pub tag : Bytes → ℕ
tag key = decode_fixed64 (drop (length key - 8) key)

-- The code asserts that an internal key has eight bytes at least.
unfoldable pub extract_user_key : Bytes → Bytes
extract_user_key key = take (length key - 8) key

-- On `false` the code leaves `*result` undefined; here it is `none`.
unfoldable pub parse_internal_key : Bytes → Option ParsedInternalKey
parse_internal_key key =
    if ltb (length key) 8
    then none
    else let num = tag key in
      let c = bit_and num 255 in
      if leb c 1
      then some (record { user_key = extract_user_key key; sequence = num / 2 ^ 8; type = c })
      else none

-- `if (r == 0)`: the greater number comes first.
unfoldable pub break_tie : Ordering → ℕ → ℕ → Ordering
break_tie eq anum bnum = if ltb bnum anum then lt else if ltb anum bnum then gt else eq
break_tie lt anum bnum = lt
break_tie gt anum bnum = gt

-- `InternalKeyComparator`, over the user's comparator.
module _ (user : Comparator) where
  unfoldable pub internal_compare : Bytes → Bytes → Ordering
  unfolding break_tie
  internal_compare akey bkey =
      break_tie (user.compare (extract_user_key akey) (extract_user_key bkey)) (tag akey) (tag bkey)

  unfoldable pub internal_separator : Bytes → Bytes → Bytes
  internal_separator start limit =
      let user_start = extract_user_key start in
      let tmp = user.find_shortest_separator user_start (extract_user_key limit) in
      if ltb (length tmp) (length user_start) && is_lt (user.compare user_start tmp)
      then put_fixed64 tmp (pack_sequence_and_type max_sequence_number value_type_for_seek)
      else start

  unfoldable pub internal_successor : Bytes → Bytes
  internal_successor key =
      let user_key = extract_user_key key in
      let tmp = user.find_short_successor user_key in
      if ltb (length tmp) (length user_key) && is_lt (user.compare user_key tmp)
      then put_fixed64 tmp (pack_sequence_and_type max_sequence_number value_type_for_seek)
      else key

  abbrev pub internal_comparator : Comparator
  internal_comparator = record {
    compare = internal_compare;
    find_shortest_separator = internal_separator;
    find_short_successor = internal_successor;
  }

-- The bytes from `start_` to `end_`, and how many of them stand before `kstart_`.
pub record LookupKey : Type 0 where
  pub rep : Bytes
  pub kstart : ℕ

unfoldable pub lookup_key : Bytes → ℕ → LookupKey
lookup_key user_key s =
    let prefix = encode_varint32 ((length user_key + 8) % 2 ^ 32) in
    record {
      rep = prefix ++ (user_key ++ encode_fixed64 (pack_sequence_and_type s value_type_for_seek));
      kstart = length prefix;
    }

-- `LookupKey::memtable_key()`, `internal_key()` and `user_key()`
unfoldable pub lookup_memtable_key : LookupKey → Bytes
lookup_memtable_key k = k.rep

unfoldable pub lookup_internal_key : LookupKey → Bytes
lookup_internal_key k = drop k.kstart k.rep

unfoldable pub lookup_user_key : LookupKey → Bytes
lookup_user_key k = take (length (drop k.kstart k.rep) - 8) (drop k.kstart k.rep)
