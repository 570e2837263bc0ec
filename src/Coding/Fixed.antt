-- ===== src/Coding/Fixed.antt =====
-- EncodeFixed, DecodeFixed, PutFixed and GetFixed of util/coding.h, for 16, 32 and 64 bits.
use d_lsm.Common.{◌∙◌, ℕ, ◌+◌, ◌*◌, ◌/◌, ◌%◌, ◌^◌, ◌<◌, ◌≡◌, refl, arith}
use d_lsm.Common.{[], ◌∷◌, ◌++◌, some, length, All}
use d_lsm.Common.Bits.{bit_or_fields, bit_or_fields', bit_and_low8}
use d_lsm.Coding.{Bytes, IsByte, encode_fixed32, encode_fixed64, decode_fixed32, decode_fixed64}
use d_lsm.Coding.{get_fixed64}

-- The value of four little-endian bytes.
abbrev pub le32 : ℕ → ℕ → ℕ → ℕ → ℕ
le32 a b c d = a + b * 2 ^ 8 + c * 2 ^ 16 + d * 2 ^ 24

pub decode_fixed32_lem :
    (a b c d : ℕ) (rest : Bytes)
    → a < 256
    → b < 256
    → c < 256
    → decode_fixed32 (a ∷ b ∷ c ∷ d ∷ rest) ≡ le32 a b c d
unfolding decode_fixed32
decode_fixed32_lem a b c d rest ha hb hc = ground (
  arith,
  bit_or_fields 8 a b (omega arith),
  bit_or_fields 16 (a + b * 2 ^ 8) c (omega arith),
  bit_or_fields 24 (a + b * 2 ^ 8 + c * 2 ^ 16) d (omega arith),
)

pub decode_fixed64_lem :
    (a b c d e f g h : ℕ) (rest : Bytes)
    → All IsByte (a ∷ b ∷ c ∷ d ∷ e ∷ f ∷ g ∷ h ∷ [])
    → decode_fixed64 (a ∷ b ∷ c ∷ d ∷ e ∷ f ∷ g ∷ h ∷ rest) ≡ le32 a b c d + le32 e f g h * 2 ^ 32
unfolding decode_fixed64
decode_fixed64_lem a b c d e f g h rest (ha, (hb, (hc, (hd, (he, (hf, (hg, (hh, _)))))))) = ground (
  arith,
  decode_fixed32_lem a b c d (e ∷ f ∷ g ∷ h ∷ rest) ha hb hc,
  decode_fixed32_lem e f g h rest he hf hg,
  bit_or_fields' 32 (le32 a b c d) (le32 e f g h) (omega arith),
)

-- `DecodeFixed32` reads back the 32-bit value that `EncodeFixed32` wrote, whatever follows it.
pub decode_fixed32-encode_fixed32 :
    (v : ℕ) (rest : Bytes) → v < 2 ^ 32 → decode_fixed32 (encode_fixed32 v ++ rest) ≡ v
unfolding encode_fixed32
decode_fixed32-encode_fixed32 v rest h = ground (
  arith,
  decode_fixed32_lem (v % 256) (v / 2 ^ 8 % 256) (v / 2 ^ 16 % 256) (v / 2 ^ 24 % 256) rest,
  bit_and_low8 v,
  bit_and_low8 (v / 2 ^ 8),
  bit_and_low8 (v / 2 ^ 16),
  bit_and_low8 (v / 2 ^ 24),
)

-- `DecodeFixed64` reads back the 64-bit value that `EncodeFixed64` wrote, whatever follows it.
pub decode_fixed64-encode_fixed64 :
    (v : ℕ) (rest : Bytes) → v < 2 ^ 64 → decode_fixed64 (encode_fixed64 v ++ rest) ≡ v
unfolding encode_fixed64
decode_fixed64-encode_fixed64 v rest h = simp bit_and_low8 (
    decode_fixed64_lem (v % 256) (v / 2 ^ 8 % 256) (v / 2 ^ 16 % 256) (v / 2 ^ 24 % 256)
      (v / 2 ^ 32 % 256) (v / 2 ^ 40 % 256) (v / 2 ^ 48 % 256) (v / 2 ^ 56 % 256) rest (omega arith)
    ∙ omega arith)

pub length-encode_fixed64 : (v : ℕ) → length (encode_fixed64 v) ≡ 8
unfolding encode_fixed64
length-encode_fixed64 v = refl

pub encode_fixed32-IsByte : (v : ℕ) → All IsByte (encode_fixed32 v)
unfolding encode_fixed32
encode_fixed32-IsByte v = simp bit_and_low8 (omega arith)

pub encode_fixed64-IsByte : (v : ℕ) → All IsByte (encode_fixed64 v)
unfolding encode_fixed64
encode_fixed64-IsByte v = simp bit_and_low8 (omega arith)

-- `GetFixed64` reads back what `PutFixed64` appended and leaves the rest of the input; it fails
-- exactly on inputs of fewer than eight bytes.
pub get_fixed64-encode_fixed64 :
    (v : ℕ) (rest : Bytes) → v < 2 ^ 64 → get_fixed64 (encode_fixed64 v ++ rest) ≡ some (v, rest)
unfolding get_fixed64
get_fixed64-encode_fixed64 v rest h =
    rw (decode_fixed64-encode_fixed64 v rest h) (unfold encode_fixed64 in ground arith)

-- Eight bytes are the encoding of the value that is read from them.
pub encode_fixed64-decode_fixed64 :
    (p : Bytes) → All IsByte p → length p ≡ 8 → encode_fixed64 (decode_fixed64 p) ≡ p
unfolding encode_fixed64
encode_fixed64-decode_fixed64 (a ∷ b ∷ c ∷ d ∷ e ∷ f ∷ g ∷ h ∷ []) hb hl =
    rw (decode_fixed64_lem a b c d e f g h [] hb) (simp bit_and_low8 (ground arith))
encode_fixed64-decode_fixed64 _ hb hl = absurd (omega arith)
