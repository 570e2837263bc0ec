-- ===== src/InternalKey/Lookup.antt =====
-- `LookupKey`: its three views, and where a seek to it stops.
use Prim.Native.Nat.Ordering.{gt}
use d_lsm.Common.{ℕ, ◌+◌, ◌%◌, ◌^◌, ◌≤◌, ◌<◌, ◌≡◌, ◌≢◌, ◌↔◌, arith, ◌++◌, All, All-append, some}
use d_lsm.Common.{length, length-append, drop-append_self}
use d_lsm.Coding.{Bytes, IsByte, encode_fixed64, encode_varint32, get_length_prefixed_slice}
use d_lsm.Coding.Fixed.{encode_fixed64-IsByte, length-encode_fixed64}
use d_lsm.Coding.Slices.{get_length_prefixed_slice_lem}
use d_lsm.Comparator.Interface.{Comparator, IsComparator}
use d_lsm.InternalKey.{
  lookup_key, lookup_memtable_key, lookup_internal_key, lookup_user_key, internal_key,
}
use d_lsm.InternalKey.{
  internal_compare, max_sequence_number, extract_user_key, pack_sequence_and_type,
}
use d_lsm.InternalKey.Codec.{internal_key_lem, extract_user_key_fixed64}
use d_lsm.InternalKey.Order.{internal_compare-internal_key}
use native.Mathlib.Nat.{mod-eq_of_lt}

-- `internal_key()` of a lookup key is the internal key with the type for seeking.
pub lookup_internal_key_lem :
    (u : Bytes) (s : ℕ) → lookup_internal_key (lookup_key u s) ≡ internal_key u s 1
unfolding lookup_internal_key lookup_key
lookup_internal_key_lem u s = rw (internal_key_lem u s 1) (
    drop-append_self (encode_varint32 ((length u + 8) % 2 ^ 32))
      (u ++ encode_fixed64 (pack_sequence_and_type s 1)))

-- `user_key()` of a lookup key is the key that it was made from.
pub lookup_user_key_lem : (u : Bytes) (s : ℕ) → lookup_user_key (lookup_key u s) ≡ u
unfolding lookup_user_key lookup_key
lookup_user_key_lem u s =
    rw drop-append_self (unfold extract_user_key in extract_user_key_fixed64 u _)

-- `memtable_key()` of a lookup key is its internal key behind its length, as the memtable stores
-- keys: `GetLengthPrefixedSlice` reads it back.
pub lookup_memtable_key_lem :
    (u : Bytes) (s : ℕ) (rest : Bytes)
    → length u + 8 < 2 ^ 32
    → All IsByte u
    → All IsByte rest
    → get_length_prefixed_slice (lookup_memtable_key (lookup_key u s) ++ rest)
      ≡ some (internal_key u s 1, rest)
unfolding lookup_memtable_key lookup_key
lookup_memtable_key_lem u s rest hu hb hr =
    let tail = encode_fixed64 (pack_sequence_and_type s 1) in
    let size : length (u ++ tail) ≡ length u + 8 =
      omega (arith, length-append u tail, length-encode_fixed64 (pack_sequence_and_type s 1)) in
    rw (internal_key_lem u s 1, mod-eq_of_lt hu, ← size)
      (get_length_prefixed_slice_lem (u ++ tail) rest (omega (arith, size))
        (All-append IsByte u tail hb (encode_fixed64-IsByte (pack_sequence_and_type s 1))) hr)

-- A seek to the lookup key for sequence number `s` stops before the versions of the same user key
-- whose sequence number is at most `s`, and after all newer ones.
pub lookup_sees :
    (user : Comparator) (laws : IsComparator user) (u : Bytes) (s q t : ℕ)
    → s ≤ max_sequence_number
    → q ≤ max_sequence_number
    → t ≤ 1
    → (internal_compare user (lookup_internal_key (lookup_key u s)) (internal_key u q t) ≢ gt)
      ↔ (q ≤ s)
lookup_sees user laws u s q t hs hq ht =
    rw
      (
        lookup_internal_key_lem u s,
        internal_compare-internal_key user u u s 1 q t hs hq (omega arith) (omega arith),
        laws.compare_refl u,
      )
      (λ h. ground arith, λ h. ground arith)
