-- ===== src/Coding/Tests.antt =====
-- Concrete runs of util/coding, and its theorems at concrete inputs.
use d_lsm.Common.{◌^◌, ◌<◌, ◌≡◌, refl, arith, [], ◌∷◌, ◌++◌, some, none, take, drop, length}
use d_lsm.Coding.{Bytes, encode_varint32, encode_varint64, encode_fixed64, decode_fixed64}
use d_lsm.Coding.{get_varint32, get_varint32_ptr, get_varint32_ptr_fallback}
use d_lsm.Coding.{get_length_prefixed_slice, put_length_prefixed_slice}
use d_lsm.Coding.Varint.{get_varint32-encode_varint32, get_varint32_ptr-eq-fallback}
use d_lsm.Coding.Fixed.{encode_fixed64-decode_fixed64}
use d_lsm.Coding.Slices.{get-put_length_prefixed_slice, get_length_prefixed_slice_takes}

varint_300 : encode_varint32 300 ≡ 0xac ∷ 0x02 ∷ []
unfolding encode_varint32
varint_300 = refl

varint_max : encode_varint64 (2 ^ 32) ≡ 0x80 ∷ 0x80 ∷ 0x80 ∷ 0x80 ∷ 0x10 ∷ []
unfolding encode_varint64
varint_max = refl

truncated : get_varint32 (0x80 ∷ 0x80 ∷ []) ≡ none
unfolding get_varint32
truncated = refl

get_varint32-encode_varint32_example :
    get_varint32 (encode_varint32 300 ++ 7 ∷ []) ≡ some (300, 7 ∷ [])
get_varint32-encode_varint32_example =
    get_varint32-encode_varint32 300 (7 ∷ []) (omega arith) (omega arith)

get_varint32_ptr-eq-fallback_example :
    get_varint32_ptr (5 ∷ 9 ∷ []) ≡ get_varint32_ptr_fallback (5 ∷ 9 ∷ [])
get_varint32_ptr-eq-fallback_example = get_varint32_ptr-eq-fallback (5 ∷ 9 ∷ []) (omega arith)

abbrev eight : Bytes
eight = 1 ∷ 2 ∷ 3 ∷ 4 ∷ 5 ∷ 6 ∷ 7 ∷ 8 ∷ []

encode_fixed64-decode_fixed64_example : encode_fixed64 (decode_fixed64 eight) ≡ eight
encode_fixed64-decode_fixed64_example = encode_fixed64-decode_fixed64 eight (omega arith) refl

abbrev word : Bytes
word = 97 ∷ 98 ∷ []

get-put_length_prefixed_slice_example :
    (take 1 (put_length_prefixed_slice (5 ∷ []) word) ≡ 5 ∷ [])
    × (get_length_prefixed_slice (drop 1 (put_length_prefixed_slice (5 ∷ []) word) ++ 7 ∷ [])
        ≡ some (word, 7 ∷ []))
get-put_length_prefixed_slice_example =
    get-put_length_prefixed_slice (5 ∷ []) word (7 ∷ []) (omega arith) (omega arith) (omega arith)

slice_read : get_length_prefixed_slice (2 ∷ 97 ∷ 98 ∷ 7 ∷ []) ≡ some (word, 7 ∷ [])
unfolding get_length_prefixed_slice get_varint32
slice_read = refl

get_length_prefixed_slice_takes_example :
    (header : Bytes) × (2 ∷ 97 ∷ 98 ∷ 7 ∷ [] ≡ header ++ (word ++ 7 ∷ []))
    × (0 < length header)
    × (get_varint32 (2 ∷ 97 ∷ 98 ∷ 7 ∷ []) ≡ some (2, word ++ 7 ∷ []))
get_length_prefixed_slice_takes_example =
    get_length_prefixed_slice_takes (2 ∷ 97 ∷ 98 ∷ 7 ∷ []) word (7 ∷ []) (omega arith) slice_read
