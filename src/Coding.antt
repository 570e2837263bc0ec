-- ===== src/Coding.antt =====
-- util/coding.h and util/coding.cc: fixed-width and variable-length integers over byte buffers.
-- A buffer is the list of its bytes. A `char*` into a buffer, with its limit, is the list of the
-- bytes from there on, so `p < limit` is "not empty", and a `Put…` function appends to `dst`.
-- `port::kLittleEndian` only selects a `memcpy` that has the effect of the portable branch, which
-- is the one written here.
pub mod Groups
pub mod Varint
pub mod Fixed
pub mod Slices
mod Tests
use d_lsm.Common.{ℕ, zero, suc, ◌+◌, ◌-◌, ◌*◌, ◌/◌, ◌%◌, ◌^◌, ◌≤◌, ◌<◌, ◌≡◌, Bool, ◌&&◌, arith}
use d_lsm.Common.{List, [], ◌∷◌, ◌++◌, Option, none, some, ◌>>=◌, length, take, drop, get_elem?}
use d_lsm.Common.{ltb, leb, ◌==◌, if◌then◌else◌, bit_and, bit_or}
use d_lsm.Common.Order.{lt_wf}
use mathlib.Core.Logic.{dite}
use mathlib.Core.Option.{get_or}
use mathlib.Core.WellFounded.{Acc}
use native.Mathlib.Decide.{dec_lt}

abbrev pub Bytes : Type 0
Bytes = List ℕ

abbrev pub IsByte : ℕ → Type 0
IsByte b = b < 256

-- `ptr[i]`. The callers guard their reads; outside the buffer C++ gives no meaning to the read.
abbrev pub byte_at : Bytes → ℕ → ℕ
byte_at p i = get_or (get_elem? p i) 0

unfoldable pub encode_fixed16 : ℕ → Bytes
encode_fixed16 value = bit_and value 255 ∷ bit_and (value / 2 ^ 8) 255 ∷ []

unfoldable pub encode_fixed32 : ℕ → Bytes
encode_fixed32 value =
    bit_and value 255
    ∷ bit_and (value / 2 ^ 8) 255
    ∷ bit_and (value / 2 ^ 16) 255
    ∷ bit_and (value / 2 ^ 24) 255
    ∷ []

unfoldable pub encode_fixed64 : ℕ → Bytes
encode_fixed64 value =
    bit_and value 255
    ∷ bit_and (value / 2 ^ 8) 255
    ∷ bit_and (value / 2 ^ 16) 255
    ∷ bit_and (value / 2 ^ 24) 255
    ∷ bit_and (value / 2 ^ 32) 255
    ∷ bit_and (value / 2 ^ 40) 255
    ∷ bit_and (value / 2 ^ 48) 255
    ∷ bit_and (value / 2 ^ 56) 255
    ∷ []

unfoldable pub decode_fixed16 : Bytes → ℕ
decode_fixed16 ptr = bit_or (byte_at ptr 0) (byte_at ptr 1 * 2 ^ 8)

unfoldable pub decode_fixed32 : Bytes → ℕ
decode_fixed32 ptr =
    bit_or (bit_or (bit_or (byte_at ptr 0) (byte_at ptr 1 * 2 ^ 8)) (byte_at ptr 2 * 2 ^ 16))
      (byte_at ptr 3 * 2 ^ 24)

unfoldable pub decode_fixed64 : Bytes → ℕ
decode_fixed64 ptr =
    let lo = decode_fixed32 ptr in
    let hi = decode_fixed32 (drop 4 ptr) in bit_or (hi * 2 ^ 32 % 2 ^ 64) lo

unfoldable pub put_fixed32 : Bytes → ℕ → Bytes
unfolding encode_fixed32
put_fixed32 dst value = dst ++ encode_fixed32 value

unfoldable pub put_fixed64 : Bytes → ℕ → Bytes
unfolding encode_fixed64
put_fixed64 dst value = dst ++ encode_fixed64 value

-- The `Get…` functions return the value and what is left of the input, or `none` for `false`.
unfoldable pub get_fixed16 : Bytes → Option (ℕ × Bytes)
get_fixed16 input = if ltb (length input) 2 then none else some (decode_fixed16 input, drop 2 input)

unfoldable pub get_fixed32 : Bytes → Option (ℕ × Bytes)
get_fixed32 input = if ltb (length input) 4 then none else some (decode_fixed32 input, drop 4 input)

unfoldable pub get_fixed64 : Bytes → Option (ℕ × Bytes)
get_fixed64 input = if ltb (length input) 8 then none else some (decode_fixed64 input, drop 8 input)

-- A store through an `unsigned char*` keeps the low eight bits.
abbrev pub to_byte : ℕ → ℕ
to_byte v = v % 256

unfoldable pub encode_varint32 : ℕ → Bytes
encode_varint32 v =
    if ltb v (2 ^ 7)
    then to_byte v ∷ []
    else if ltb v (2 ^ 14)
    then to_byte (bit_or v 128) ∷ to_byte (v / 2 ^ 7) ∷ []
    else if ltb v (2 ^ 21)
    then to_byte (bit_or v 128) ∷ to_byte (bit_or (v / 2 ^ 7) 128) ∷ to_byte (v / 2 ^ 14) ∷ []
    else if ltb v (2 ^ 28)
    then to_byte (bit_or v 128)
      ∷ to_byte (bit_or (v / 2 ^ 7) 128)
      ∷ to_byte (bit_or (v / 2 ^ 14) 128)
      ∷ to_byte (v / 2 ^ 21)
      ∷ []
    else to_byte (bit_or v 128)
      ∷ to_byte (bit_or (v / 2 ^ 7) 128)
      ∷ to_byte (bit_or (v / 2 ^ 14) 128)
      ∷ to_byte (bit_or (v / 2 ^ 21) 128)
      ∷ to_byte (v / 2 ^ 28)
      ∷ []

-- `while (v >= B) { *(ptr++) = (v & (B - 1)) | B; v >>= 7; } *(ptr++) = v;`
encode_varint64_loop : (v : ℕ) → Acc ◌<◌ v → Bytes
encode_varint64_loop v (Acc.intro _ smaller) =
    dite (dec_lt v 128) (λ _. to_byte v ∷ [])
      (λ more.
        to_byte (bit_or (bit_and v 127) 128)
        ∷ encode_varint64_loop (v / 128) (smaller (v / 128) (omega arith)))

unfoldable pub encode_varint64 : ℕ → Bytes
unfolding encode_varint64_loop lt_wf dec_lt
encode_varint64 v = encode_varint64_loop v (lt_wf.apply v)

varint_length_loop : (v len : ℕ) → Acc ◌<◌ v → ℕ
varint_length_loop v len (Acc.intro _ smaller) =
    dite (dec_lt v 128) (λ _. len)
      (λ more. varint_length_loop (v / 128) (len + 1) (smaller (v / 128) (omega arith)))

unfoldable pub varint_length : ℕ → ℕ
unfolding varint_length_loop lt_wf dec_lt
varint_length v = varint_length_loop v 1 (lt_wf.apply v)

unfoldable pub put_varint32 : Bytes → ℕ → Bytes
unfolding encode_varint32
put_varint32 dst v = dst ++ encode_varint32 v

unfoldable pub put_varint64 : Bytes → ℕ → Bytes
unfolding encode_varint64
put_varint64 dst v = dst ++ encode_varint64 v

-- The loop of both readers: `last` is the greatest shift, `modulus` the word that `<<` wraps at.
pub get_varint_loop : ℕ → ℕ → Bytes → ℕ → ℕ → Option (ℕ × Bytes)
get_varint_loop last modulus [] shift result = none
get_varint_loop last modulus (byte ∷ p) shift result =
    let more =
      get_varint_loop last modulus p (shift + 7)
        (bit_or result (bit_and byte 127 * 2 ^ shift % modulus)) in
    if leb shift last
    then if bit_and byte 128 == 0
      then some (bit_or result (byte * 2 ^ shift % modulus), p)
      else more
    else none

unfoldable pub get_varint32_ptr_fallback : Bytes → Option (ℕ × Bytes)
unfolding get_varint_loop
get_varint32_ptr_fallback p = get_varint_loop 28 (2 ^ 32) p 0 0

unfoldable pub get_varint32_ptr : Bytes → Option (ℕ × Bytes)
unfolding get_varint32_ptr_fallback
get_varint32_ptr [] = get_varint32_ptr_fallback []
get_varint32_ptr (result ∷ p) =
    if bit_and result 128 == 0 then some (result, p) else get_varint32_ptr_fallback (result ∷ p)

unfoldable pub get_varint64_ptr : Bytes → Option (ℕ × Bytes)
unfolding get_varint_loop
get_varint64_ptr p = get_varint_loop 63 (2 ^ 64) p 0 0

unfoldable pub get_varint32 : Bytes → Option (ℕ × Bytes)
unfolding get_varint32_ptr
get_varint32 input = get_varint32_ptr input

unfoldable pub get_varint64 : Bytes → Option (ℕ × Bytes)
unfolding get_varint64_ptr
get_varint64 input = get_varint64_ptr input

unfoldable pub put_length_prefixed_slice : Bytes → Bytes → Bytes
unfolding put_varint32
put_length_prefixed_slice dst value = put_varint32 dst (length value % 2 ^ 32) ++ value

-- Returns the slice and what is left of the input.
unfoldable pub get_length_prefixed_slice : Bytes → Option (Bytes × Bytes)
get_length_prefixed_slice input = do
  (len, rest) ← get_varint32 input
  if leb len (length rest) then some (take len rest, drop len rest) else none
