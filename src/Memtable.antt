-- ===== src/Memtable.antt =====
-- db/memtable.cc: the entries of a memtable, adding and lookup. The sorted table that holds the
-- entries (db/inlineskiplist.h) is a parameter, with the contract that the memtable relies on.
pub mod Sorted
pub mod Layout
pub mod Check
pub mod Newest
pub mod Get
pub mod Batch
mod Tests
use Prim.Native.Nat.{Ordering}
use Prim.Native.Nat.Ordering.{lt, eq, gt}
use d_lsm.Common.{ℕ, ◌+◌, ◌-◌, ◌*◌, ◌%◌, ◌^◌, ◌≡◌, ◌≢◌, Bool, true, false, Option, none, some}
use d_lsm.Common.{List, [], ◌∷◌, ◌++◌, length, take, drop, All, ◌==◌, if◌then◌else◌}
use d_lsm.Common.{bit_and, bit_or, ◌>>=◌}
use d_lsm.Coding.{Bytes, get_varint32_ptr, encode_varint32, encode_fixed64, decode_fixed64}
use d_lsm.Comparator.{is_lt, is_eq}
use d_lsm.Comparator.Interface.{Comparator}
use d_lsm.InternalKey.{LookupKey, lookup_memtable_key, lookup_user_key, internal_compare}
use d_lsm.WriteBatch.{type_value, type_deletion}

-- `GetVarint32Ptr(p, p + 5, &v)`: the number, and what the returned pointer is at.
unfoldable pub varint_at : Bytes → Option (ℕ × Bytes)
varint_at p = do
  (v, left) ← get_varint32_ptr (take 5 p)
  some (v, drop (length (take 5 p) - length left) p)

-- `GetLengthPrefixedSlice(const char* data)`. A corrupted length, which the code assumes away, gives
-- the empty slice.
unfoldable pub slice_at : Bytes → Bytes
slice_at p = elim (varint_at p) [ none ↦ [] | some (len, rest) ↦ take len rest ]

-- The entry that `MemTable::Add` writes.
unfoldable pub memtable_entry : ℕ → ℕ → Bytes → Bytes → Bytes
memtable_entry s type key value =
    encode_varint32 ((length key + 8) % 2 ^ 32)
    ++ (key
        ++ (encode_fixed64 (bit_or (s * 2 ^ 8 % 2 ^ 64) type)
            ++ (encode_varint32 (length value % 2 ^ 32) ++ value)))

-- The skip list as the memtable uses it: the entries in order, `Insert` and `Iterator::Seek`.
pub record Table (T : Type 0) : Type 0 where
  pub contents : T → List Bytes
  pub empty : T
  pub insert : T → Bytes → T
  pub seek : T → Bytes → Option Bytes

-- How `MemTable::Get` ends: a value, a deletion (`NotFound`), or the result false.
pub data Lookup : Type 0 where
  hit : Bytes → Lookup
  deleted : Lookup
  miss : Lookup

-- `switch (static_cast<ValueType>(tag & 0xff))`
unfoldable pub switch_type : ℕ → Bytes → Lookup
switch_type tag value_ptr =
    if bit_and tag 255 == type_value
    then hit (slice_at value_ptr)
    else if bit_and tag 255 == type_deletion
    then deleted
    else miss

module _ (user : Comparator) where
  -- `KeyComparator::operator()`
  unfoldable pub key_compare : Bytes → Bytes → Ordering
  key_compare aptr bptr = internal_compare user (slice_at aptr) (slice_at bptr)

  -- What `Get` does with the entry that the seek stops at.
  unfoldable pub check_entry : Bytes → Bytes → Lookup
  check_entry user_key entry = elim (varint_at entry) [
    | none ↦ miss
    | some (key_length, key_ptr) ↦
        if is_eq (user.compare (take (key_length - 8) key_ptr) user_key)
        then switch_type (decode_fixed64 (drop (key_length - 8) key_ptr)) (drop key_length key_ptr)
        else miss
  ]

  module _ {T : Type 0} (table : Table T) where
    unfoldable pub memtable_add : T → ℕ → ℕ → Bytes → Bytes → T
    memtable_add t s type key value = table.insert t (memtable_entry s type key value)

    unfoldable pub memtable_get : T → LookupKey → Lookup
    memtable_get t key = elim (table.seek t (lookup_memtable_key key)) [
      | none ↦ miss
      | some entry ↦ check_entry (lookup_user_key key) entry
    ]
