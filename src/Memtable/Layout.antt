-- ===== src/Memtable/Layout.antt =====
-- The layout of a memtable entry: what is read back from the bytes that `Add` wrote.
use d_lsm.Common.{ℕ, zero, suc, ◌+◌, ◌-◌, ◌^◌, ◌≤◌, ◌<◌, ◌≡◌, sym, ap, ◌∙◌, arith}
use d_lsm.Common.{
  List, [], ◌∷◌, ◌++◌, length, length-append, take, drop, All, All-append, some, append_assoc,
}
use d_lsm.Common.{drop-append_self, take-append_self}
use d_lsm.WriteBatch.{Entry}
use d_lsm.Coding.{Bytes, get_varint32_ptr, IsByte, get_varint32, encode_varint32, encode_fixed64}
use d_lsm.Coding.Varint.{get_varint32-encode_varint32, encode_varint32-IsByte}
use d_lsm.Coding.Fixed.{encode_fixed64-IsByte, length-encode_fixed64}
use d_lsm.InternalKey.{internal_key, max_sequence_number, pack_sequence_and_type}
use d_lsm.InternalKey.Codec.{internal_key_lem}
use d_lsm.Memtable.{varint_at, slice_at, memtable_entry}
use native.Mathlib.Nat.{mod-eq_of_lt}

module _ {ℓ} {A : Type ℓ} where
  take-append :
      (n : ℕ) (xs ys : List A) → length xs ≤ n → take n (xs ++ ys) ≡ xs ++ take (n - length xs) ys
  take-append n [] ys h = ap (λ (m : ℕ). take m ys) (omega arith)
  take-append zero (x ∷ xs) ys h = absurd (omega arith)
  take-append (suc n) (x ∷ xs) ys h =
      rw (take-append n xs ys (omega arith)) (ap (λ (m : ℕ). x ∷ xs ++ take m ys) (omega arith))

  All-take : (P : A → Type 0) (n : ℕ) (xs : List A) → All P xs → All P (take n xs)
  All-take P zero xs h = tt
  All-take P (suc n) [] h = tt
  All-take P (suc n) (x ∷ xs) (hx, h) = (hx, All-take P n xs h)

length-encode_varint32-le : (v : ℕ) → length (encode_varint32 v) ≤ 5
unfolding encode_varint32
length-encode_varint32-le v = ground arith

-- `GetVarint32Ptr` with five bytes as its limit reads back a number whatever follows it.
pub varint_at-encode_varint32 :
    (v : ℕ) (rest : Bytes)
    → v < 2 ^ 32
    → All IsByte rest
    → varint_at (encode_varint32 v ++ rest) ≡ some (v, rest)
unfolding varint_at
varint_at-encode_varint32 v rest h hb =
    let code = encode_varint32 v in
    let left = take (5 - length code) rest in
    let read : get_varint32_ptr (code ++ left) ≡ some (v, left) =
      unfold get_varint32 in
      get_varint32-encode_varint32 v left h (All-take IsByte (5 - length code) rest hb) in
    let offset : length (code ++ left) - length left ≡ length code =
      omega (arith, length-append code left) in
    rw (take-append 5 code rest (length-encode_varint32-le v), read)
      (ap (λ (p : Bytes). some (v, p))
        (ap (λ (n : ℕ). drop n (code ++ rest)) offset ∙ drop-append_self code rest))

-- `GetLengthPrefixedSlice` of a slice behind its length.
pub slice_at_lem :
    (x rest : Bytes)
    → length x < 2 ^ 32
    → All IsByte x
    → All IsByte rest
    → slice_at (encode_varint32 (length x) ++ (x ++ rest)) ≡ x
unfolding slice_at
slice_at_lem x rest h hx hr =
    rw
      (
        varint_at-encode_varint32 (length x) (x ++ rest) h (All-append IsByte x rest hx hr),
        slice_at,
      )
      (take-append_self x rest)

-- The entries that the fields of the format have room for.
pub record IsEntry (e : Entry) : Type 0 where
  pub key_fits : length e.key + 8 < 2 ^ 32
  pub value_fits : length e.value < 2 ^ 32
  pub key_bytes : All IsByte e.key
  pub value_bytes : All IsByte e.value
  pub seq_fits : e.seq ≤ max_sequence_number
  pub type_fits : e.type ≤ 1

abbrev pub entry_key : Entry → Bytes
entry_key e = internal_key e.key e.seq e.type

abbrev pub entry_bytes : Entry → Bytes
entry_bytes e = memtable_entry e.seq e.type e.key e.value

abbrev pub value_part : Entry → Bytes
value_part e = encode_varint32 (length e.value) ++ e.value

pub length-internal_key : (u : Bytes) (s t : ℕ) → length (internal_key u s t) ≡ length u + 8
length-internal_key u s t =
    let p = pack_sequence_and_type s t in
    rw (internal_key_lem u s t)
      (omega (arith, length-append u (encode_fixed64 p), length-encode_fixed64 p))

pub internal_key-IsByte : (u : Bytes) (s t : ℕ) → All IsByte u → All IsByte (internal_key u s t)
internal_key-IsByte u s t h =
    let p = pack_sequence_and_type s t in
    rw (internal_key_lem u s t) (All-append IsByte u (encode_fixed64 p) h (encode_fixed64-IsByte p))

pub value_part-IsByte : (e : Entry) → IsEntry e → All IsByte (value_part e)
value_part-IsByte e he =
    All-append IsByte (encode_varint32 (length e.value)) e.value
      (encode_varint32-IsByte (length e.value) he.value_fits) he.value_bytes

-- An entry is its internal key behind its length, and then its value behind its length.
pub entry_bytes_lem :
    (e : Entry)
    → IsEntry e
    → entry_bytes e ≡ encode_varint32 (length (entry_key e)) ++ (entry_key e ++ value_part e)
unfolding memtable_entry pack_sequence_and_type
entry_bytes_lem e he =
    rw
      (
        length-internal_key e.key e.seq e.type,
        internal_key_lem e.key e.seq e.type,
        mod-eq_of_lt he.key_fits,
        mod-eq_of_lt he.value_fits,
      )
      (ap (λ (xs : Bytes). encode_varint32 (length e.key + 8) ++ xs) (sym (append_assoc e.key _ _)))

-- The memtable's comparator reads the internal key of an entry.
pub slice_at-entry_bytes : (e : Entry) → IsEntry e → slice_at (entry_bytes e) ≡ entry_key e
slice_at-entry_bytes e he = rw (entry_bytes_lem e he) (
    slice_at_lem (entry_key e) (value_part e)
      (omega (arith, he.key_fits, length-internal_key e.key e.seq e.type))
      (internal_key-IsByte e.key e.seq e.type he.key_bytes) (value_part-IsByte e he))
