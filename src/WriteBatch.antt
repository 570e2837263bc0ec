-- ===== src/WriteBatch.antt =====
-- db/write_batch.cc: a batch of updates in one byte string, `rep_`.
-- The string is an 8-byte sequence number, a 4-byte count and then the records.
pub mod Layout
pub mod Insert
pub mod Replay
pub mod Robust
mod Tests
use d_lsm.Common.{ℕ, zero, suc, ◌+◌, ◌*◌, ◌/◌, ◌%◌, ◌^◌, ◌≤◌, ◌<◌, ◌≡◌, refl, ap, arith}
use d_lsm.Common.{List, [], ◌∷◌, ◌++◌, Option, some, none, length, All, take, drop, ltb, ◌==◌}
use d_lsm.Common.{if◌then◌else◌, replicate}
use d_lsm.Coding.{Bytes, encode_fixed32, encode_fixed64, decode_fixed32, decode_fixed64}
use d_lsm.Coding.{put_length_prefixed_slice, get_length_prefixed_slice}
use d_lsm.Status.{Status, ok, corruption}
use Prim.Native.String.{String}

-- `kHeader`
abbrev pub header_size : ℕ
header_size = 12

-- `enum ValueType`
abbrev pub type_deletion : ℕ
type_deletion = 0

abbrev pub type_value : ℕ
type_value = 1

-- `Clear`: the string is emptied and grown to the header's size, with zeros.
unfoldable pub clear : Bytes
clear = replicate header_size 0

unfoldable pub count : Bytes → ℕ
count b = decode_fixed32 (drop 8 b)

-- The four bytes at offset 8 are overwritten.
unfoldable pub set_count : Bytes → ℕ → Bytes
set_count b n = take 8 b ++ (encode_fixed32 n ++ drop 12 b)

unfoldable pub sequence : Bytes → ℕ
sequence b = decode_fixed64 b

unfoldable pub set_sequence : Bytes → ℕ → Bytes
set_sequence b seq = encode_fixed64 seq ++ drop 8 b

-- `Put` and `Delete`; the count is a 32-bit word.
unfoldable pub put : Bytes → Bytes → Bytes → Bytes
put b key value =
    let counted = set_count b ((count b + 1) % 2 ^ 32) in
    put_length_prefixed_slice (put_length_prefixed_slice (counted ++ type_value ∷ []) key) value

unfoldable pub delete : Bytes → Bytes → Bytes
delete b key =
    let counted = set_count b ((count b + 1) % 2 ^ 32) in
    put_length_prefixed_slice (counted ++ type_deletion ∷ []) key

unfoldable pub append : Bytes → Bytes → Bytes
append dst src = set_count dst ((count dst + count src) % 2 ^ 32) ++ drop header_size src

-- `WriteBatch::Handler` over a state: the object that the calls change.
pub record Handler (S : Type 0) : Type 0 where
  pub put : S → Bytes → Bytes → S
  pub delete : S → Bytes → S

-- How the loop of `Iterate` ends. `out_of_fuel` is no outcome of the code.
pub data Scan (S : Type 0) : Type 0 where
  done : ℕ → S → Scan S
  failed : String → S → Scan S
  out_of_fuel : Scan S

-- The check of the count after the loop.
unfoldable pub finish : {S : Type 0} → ℕ → S → Scan S → Status × S
finish expected start (done found s) =
    (if found == expected then ok else corruption "WriteBatch has wrong count", s)
finish expected start (failed message s) = (corruption message, s)
finish expected start out_of_fuel = (corruption "out of fuel", start)

module _ {S : Type 0} (h : Handler S) where
  -- The loop over the records: each round takes one byte at least, so the number of bytes is
  -- fuel enough. The handler has been called for the records before a broken one.
  unfoldable pub iterate_loop : ℕ → Bytes → ℕ → S → Scan S
  iterate_loop fuel [] found s = done found s
  iterate_loop zero (tag ∷ input) found s = out_of_fuel
  iterate_loop (suc fuel) (tag ∷ input) found s =
      if tag == type_value
      then (elim (get_length_prefixed_slice input) [
        | none ↦ failed "bad WriteBatch Put" s
        | some (key, input') ↦ (elim (get_length_prefixed_slice input') [
          | none ↦ failed "bad WriteBatch Put" s
          | some (value, rest) ↦ iterate_loop fuel rest (found + 1) (h.put s key value)
        ])
      ])
      else if tag == type_deletion
      then (elim (get_length_prefixed_slice input) [
        | none ↦ failed "bad WriteBatch Delete" s
        | some (key, rest) ↦ iterate_loop fuel rest (found + 1) (h.delete s key)
      ])
      else failed "unknown WriteBatch tag" s

  unfoldable pub iterate : Bytes → S → Status × S
  unfolding iterate_loop finish
  iterate b s =
      if ltb (length b) header_size
      then (corruption "malformed WriteBatch (too small)", s)
      else let input = drop header_size b in
        finish (count b) s (iterate_loop (length input) input 0 s)

-- One call of `MemTable::Add`.
pub record Entry : Type 0 where
  pub seq : ℕ
  pub type : ℕ
  pub key : Bytes
  pub value : Bytes

-- `MemTableInserter`: the next sequence number, and the calls of `MemTable::Add` so far.
pub record Inserter : Type 0 where
  pub sequence : ℕ
  pub added : List Entry

abbrev add : ℕ → Bytes → Bytes → Inserter → Inserter
add type key value i = record {
  sequence = (i.sequence + 1) % 2 ^ 64;
  added = i.added ++ record { seq = i.sequence; type = type; key = key; value = value } ∷ [];
}

abbrev pub mem_table_inserter : Handler Inserter
mem_table_inserter = record {
  put = λ i key value. add type_value key value i;
  delete = λ i key. add type_deletion key [] i;
}

-- `WriteBatchInternal::InsertInto`
unfoldable pub insert_into : Bytes → List Entry → Status × List Entry
insert_into b added =
    let (status, i) =
      iterate mem_table_inserter b (record { sequence = sequence b; added = added }) in
    (status, i.added)
