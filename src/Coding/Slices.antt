-- ===== src/Coding/Slices.antt =====
-- Length-prefixed slices of util/coding.h.
use d_lsm.Common.{
  length-drop, All-drop, le→leb, Option-cases, inl, inr, ◌^◌, ◌<◌, ◌+◌, ◌≡◌, arith, ◌++◌, some,
  length, All, All-append,
}
use d_lsm.Common.{
  Option, leb, leb→le, Bool-cases, take, drop, none, ap, sym, ◌∙◌, refl, ℕ, if◌then◌else◌,
  length-take, take-append-drop, take-append_self, drop-append_self, append_assoc, length-append,
}
use d_lsm.Coding.{Bytes, IsByte, put_length_prefixed_slice, get_length_prefixed_slice, put_varint32}
use d_lsm.Coding.{encode_varint32, get_varint32}
use d_lsm.Coding.Varint.{get_varint32-suffix, get_varint32_takes, get_varint32-encode_varint32}
use native.Mathlib.Nat.{mod-eq_of_lt}

-- What `PutLengthPrefixedSlice` appends.
abbrev pub length_prefixed : Bytes → Bytes
length_prefixed value = encode_varint32 (length value) ++ value

pub put_length_prefixed_slice-append :
    (dst value : Bytes)
    → length value < 2 ^ 32
    → put_length_prefixed_slice dst value ≡ dst ++ length_prefixed value
unfolding put_length_prefixed_slice put_varint32
put_length_prefixed_slice-append dst value h = rw (mod-eq_of_lt h) (append_assoc dst _ value)

pub get_length_prefixed_slice_lem :
    (value rest : Bytes)
    → length value < 2 ^ 32
    → All IsByte value
    → All IsByte rest
    → get_length_prefixed_slice (length_prefixed value ++ rest) ≡ some (value, rest)
unfolding get_length_prefixed_slice
get_length_prefixed_slice_lem value rest h hv hr =
    rw (append_assoc (encode_varint32 (length value)) value rest) (
      rw
        (get_varint32-encode_varint32 (length value) (value ++ rest) h
          (All-append IsByte value rest hv hr))
        (rw (length-append, le→leb (length value) (length value + length rest) (omega arith))
          (rw (take-append_self, drop-append_self))))

taken_slice :
    (len : ℕ) (r value rest : Bytes)
    → (let read : Option (Bytes × Bytes) = some (take len r, drop len r) in
        if leb len (length r) then read else none)
      ≡ some (value, rest)
    → (len ≡ length value) × (r ≡ value ++ rest)
taken_slice len r value rest e = elim (Bool-cases (leb len (length r))) [
  | inr long ↦ absurd (ground arith)
  | inl fits ↦
      let taken : take len r ≡ value = ground arith in
      let left : drop len r ≡ rest = ground arith in
      (
        omega (arith, length-take len r (leb→le len (length r) fits), ap length taken),
        sym (take-append-drop len r) ∙ rw (taken, left) refl,
      )
]

-- `PutLengthPrefixedSlice` leaves what the string holds, and behind it `GetLengthPrefixedSlice` reads back
-- the slice that was put and leaves what follows it. The slice and what follows are bytes, and the length
-- of the slice fits in 32 bits.
pub get-put_length_prefixed_slice :
    (dst value rest : Bytes)
    → length value < 2 ^ 32
    → All IsByte value
    → All IsByte rest
    → (take (length dst) (put_length_prefixed_slice dst value) ≡ dst)
      × (get_length_prefixed_slice (drop (length dst) (put_length_prefixed_slice dst value) ++ rest)
          ≡ some (value, rest))
get-put_length_prefixed_slice dst value rest h hv hr =
    rw
      (
        put_length_prefixed_slice-append dst value h,
        take-append_self dst (length_prefixed value),
        drop-append_self dst (length_prefixed value),
      )
      (refl, get_length_prefixed_slice_lem value rest h hv hr)

-- A slice that is read from bytes and what is left are parts of the input, in this order, behind a number
-- of at least one byte that is the length of the slice.
pub get_length_prefixed_slice_takes :
    (src value rest : Bytes)
    → All IsByte src
    → get_length_prefixed_slice src ≡ some (value, rest)
    → (header : Bytes) × (src ≡ header ++ (value ++ rest))
      × (0 < length header)
      × (get_varint32 src ≡ some (length value, value ++ rest))
unfolding get_length_prefixed_slice
get_length_prefixed_slice_takes src value rest hb e = elim (Option-cases (get_varint32 src)) [
  | inl n ↦ absurd (ground arith)
  | inr ((len, r), n) ↦
      let (shorter, bytes) = get_varint32_takes src len r hb n in
      let (header, whole) = get_varint32-suffix src len r hb n in
      let (long, split) = taken_slice len r value rest (ground arith) in
      let read : get_varint32 src ≡ some (length value, value ++ rest) = rw (n, long, split) refl in
      let whole' : src ≡ header ++ (value ++ rest) =
        whole ∙ ap (λ (t : Bytes). header ++ t) split in
      (header, whole', omega (arith, shorter, ap length whole, length-append header r), read)
]

-- What is left are fewer bytes.
pub get_length_prefixed_slice_shrinks :
    (src value rest : Bytes)
    → All IsByte src
    → get_length_prefixed_slice src ≡ some (value, rest)
    → (length rest < length src) × All IsByte rest
unfolding get_length_prefixed_slice
get_length_prefixed_slice_shrinks src value rest hb e = elim (Option-cases (get_varint32 src)) [
  | inl n ↦ ground (arith)
  | inr ((len, r), n) ↦
      let (shorter, bytes) = get_varint32_takes src len r hb n in
      ground (arith, length-drop len r, All-drop IsByte len r bytes)
]
