-- ===== src/Memtable/Check.antt =====
-- What `Get` does with the entry that its seek stops at, on entries that `Add` wrote.
use d_lsm.Common.{ℕ, ◌+◌, ◌-◌, ◌%◌, ◌^◌, ◌<◌, ◌≡◌, refl, sym, ap, ◌∙◌, arith}
use d_lsm.Common.{
  [], ◌++◌, length, take, drop, All, All-append, some, append_assoc, append-nil, ◌==◌,
  if◌then◌else◌,
}
use d_lsm.Common.{drop-append_self, take-append_self}
use d_lsm.WriteBatch.{Entry, type_value}
use d_lsm.Coding.{Bytes, IsByte, encode_varint32, encode_fixed64, decode_fixed64}
use d_lsm.Coding.Fixed.{decode_fixed64-encode_fixed64}
use d_lsm.InternalKey.{internal_key, lookup_key, lookup_memtable_key, pack_sequence_and_type}
use d_lsm.InternalKey.Codec.{internal_key_lem, pack_lem, pack-lt}
use d_lsm.Memtable.{Lookup, hit, deleted, miss, varint_at, slice_at, switch_type, check_entry}
use d_lsm.Common.Bits.{bit_and_low8}
use d_lsm.Comparator.{is_eq}
use d_lsm.Comparator.Interface.{Comparator}
use native.Mathlib.Nat.{mod-eq_of_lt}
use d_lsm.Memtable.Layout.{
  IsEntry, entry_key, entry_bytes, value_part, varint_at-encode_varint32, slice_at_lem,
}
use d_lsm.Memtable.Layout.{
  length-internal_key, internal_key-IsByte, value_part-IsByte, entry_bytes_lem,
}

-- What `Get` returns for an entry of the wanted key.
abbrev pub answer : Entry → Lookup
answer e = if e.type == type_value then hit e.value else deleted

slice_at_end :
    (x : Bytes) → length x < 2 ^ 32 → All IsByte x → slice_at (encode_varint32 (length x) ++ x) ≡ x
slice_at_end x h hx =
    ap (λ (y : Bytes). slice_at (encode_varint32 (length x) ++ y)) (sym (append-nil x))
    ∙ slice_at_lem x [] h hx tt

switch_type_lem :
    (e : Entry) (rest : Bytes)
    → IsEntry e
    → switch_type
        (decode_fixed64 (encode_fixed64 (pack_sequence_and_type e.seq e.type) ++ rest))
        (value_part e)
      ≡ answer e
unfolding switch_type
switch_type_lem e rest he =
    let t_small : e.type < 256 = omega (arith, he.type_fits) in
    let p = pack_sequence_and_type e.seq e.type in
    let type : p % 256 ≡ e.type = omega (arith, pack_lem e.seq e.type he.seq_fits t_small) in
    rw
      (
        decode_fixed64-encode_fixed64 p rest (pack-lt e.seq e.type he.seq_fits t_small),
        bit_and_low8 p,
        type,
        slice_at_end e.value he.value_fits he.value_bytes,
      )
      (ground (arith, he.type_fits))

module _ (u : Bytes) (s t : ℕ) (rest : Bytes) where
  user_part : length (internal_key u s t) - 8 ≡ length u
  user_part = omega (arith, length-internal_key u s t)

  key_parts :
      internal_key u s t ++ rest ≡ u ++ (encode_fixed64 (pack_sequence_and_type s t) ++ rest)
  key_parts = rw (internal_key_lem u s t) (append_assoc u _ rest)

  take_user_key : take (length (internal_key u s t) - 8) (internal_key u s t ++ rest) ≡ u
  take_user_key = rw (user_part, key_parts) (take-append_self u _)

  drop_user_key :
      drop (length (internal_key u s t) - 8) (internal_key u s t ++ rest)
      ≡ encode_fixed64 (pack_sequence_and_type s t) ++ rest
  drop_user_key = rw (user_part, key_parts) (drop-append_self u _)

varint_at-entry_bytes :
    (e : Entry)
    → IsEntry e
    → varint_at (entry_bytes e) ≡ some (length (entry_key e), entry_key e ++ value_part e)
varint_at-entry_bytes e he =
    ap varint_at (entry_bytes_lem e he)
    ∙ varint_at-encode_varint32 (length (entry_key e)) (entry_key e ++ value_part e)
        (omega (arith, he.key_fits, length-internal_key e.key e.seq e.type))
        (All-append IsByte (entry_key e) (value_part e)
          (internal_key-IsByte e.key e.seq e.type he.key_bytes) (value_part-IsByte e he))

module _ (user : Comparator) where
  -- `Get` compares the user key of the entry that it stops at, and reads its type and its value.
  pub check_entry-entry_bytes :
      (u : Bytes) (e : Entry)
      → IsEntry e
      → check_entry user u (entry_bytes e)
        ≡ (if is_eq (user.compare e.key u) then answer e else miss)
  unfolding check_entry
  check_entry-entry_bytes u e he =
      rw (check_entry, varint_at-entry_bytes e he)
        (rw
          (
            take_user_key e.key e.seq e.type (value_part e),
            drop_user_key e.key e.seq e.type (value_part e),
            drop-append_self (entry_key e) (value_part e),
            switch_type_lem e (value_part e) he,
          )
          refl)

  -- The memtable key of a lookup key holds its internal key.
  pub slice_at-memtable_key :
      (u : Bytes) (s : ℕ)
      → length u + 8 < 2 ^ 32
      → All IsByte u
      → slice_at (lookup_memtable_key (lookup_key u s)) ≡ internal_key u s 1
  unfolding lookup_memtable_key lookup_key
  slice_at-memtable_key u s hu hb =
      let k = internal_key u s 1 in
      rw (mod-eq_of_lt hu, ← internal_key_lem u s 1, ← length-internal_key u s 1)
        (slice_at_end k (omega (arith, length-internal_key u s 1)) (internal_key-IsByte u s 1 hb))
