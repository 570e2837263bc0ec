-- ===== src/InternalKey/Codec.antt =====
-- Packing, appending and parsing internal keys.
use d_lsm.Common.{
  zero, suc, ◌∷◌, All, All-drop, length-drop, sym, ltb, ltb→lt, Bool-cases, inl, inr,
}
use d_lsm.Common.{
  ◌↔◌, ◌⊎◌, ℕ, ◌+◌, ◌-◌, ◌*◌, ◌%◌, ◌^◌, ◌≤◌, ◌<◌, ◌≡◌, refl, ap, arith, ◌∙◌, append-nil,
}
use d_lsm.Common.{
  [], ◌++◌, length, length-append, take, drop, take-append_self, drop-append_self, some, none,
  le→ltb,
}
use d_lsm.Common.Bits.{bit_or_fields', bit_and_low8}
use d_lsm.Coding.{IsByte, byte_at, Bytes, encode_fixed64, put_fixed64}
use d_lsm.Coding.Fixed.{
  encode_fixed64-decode_fixed64, decode_fixed64-encode_fixed64, length-encode_fixed64,
}
use d_lsm.InternalKey.{
  pack_sequence_and_type, unpack_sequence_and_type, append_internal_key, internal_key,
}
use d_lsm.InternalKey.{tag, extract_user_key, parse_internal_key, max_sequence_number}

-- Sequence number and type are two fields of one number.
pub pack_lem :
    (s t : ℕ) → s ≤ max_sequence_number → t < 256 → pack_sequence_and_type s t ≡ s * 2 ^ 8 + t
unfolding pack_sequence_and_type
pack_lem s t hs ht = ground (arith, bit_or_fields' 8 t s ht)

pub pack-lt : (s t : ℕ) → s ≤ max_sequence_number → t < 256 → pack_sequence_and_type s t < 2 ^ 64
pack-lt s t hs ht = omega (arith, pack_lem s t hs ht)

-- `UnPackSequenceAndType` inverts `PackSequenceAndType`.
pub unpack-pack :
    (s t : ℕ)
    → s ≤ max_sequence_number
    → t < 256
    → unpack_sequence_and_type (pack_sequence_and_type s t) ≡ (s, t)
unfolding unpack_sequence_and_type
unpack-pack s t hs ht = rw (pack_lem s t hs ht, bit_and_low8) (ground arith)

pub internal_key_lem :
    (user_key : Bytes) (s t : ℕ)
    → internal_key user_key s t ≡ user_key ++ encode_fixed64 (pack_sequence_and_type s t)
unfolding internal_key append_internal_key put_fixed64
internal_key_lem user_key s t = refl

drop_tail : (u r : Bytes) → length r ≡ 8 → drop (length (u ++ r) - 8) (u ++ r) ≡ r
drop_tail u r h =
    ap (λ (n : ℕ). drop n (u ++ r)) (omega (arith, length-append u r)) ∙ drop-append_self u r

take_tail : (u r : Bytes) → length r ≡ 8 → take (length (u ++ r) - 8) (u ++ r) ≡ u
take_tail u r h =
    ap (λ (n : ℕ). take n (u ++ r)) (omega (arith, length-append u r)) ∙ take-append_self u r

pub extract_user_key_fixed64 : (u : Bytes) (v : ℕ) → extract_user_key (u ++ encode_fixed64 v) ≡ u
unfolding extract_user_key
extract_user_key_fixed64 u v = take_tail u (encode_fixed64 v) (length-encode_fixed64 v)

pub tag_fixed64 : (u : Bytes) (v : ℕ) → v < 2 ^ 64 → tag (u ++ encode_fixed64 v) ≡ v
unfolding tag
tag_fixed64 u v h =
    rw (drop_tail u (encode_fixed64 v) (length-encode_fixed64 v))
      (rw (← append-nil (encode_fixed64 v)) (decode_fixed64-encode_fixed64 v [] h))

tag_fits : (u : Bytes) (v : ℕ) → 8 ≤ length (u ++ encode_fixed64 v)
tag_fits u v = omega (arith, length-append u (encode_fixed64 v), length-encode_fixed64 v)

-- `ParseInternalKey` reads back the three parts of an internal key, whatever its user key.
pub parse-internal_key :
    (user_key : Bytes) (s t : ℕ)
    → s ≤ max_sequence_number
    → t ≤ 1
    → parse_internal_key (internal_key user_key s t)
      ≡ some (record { user_key = user_key; sequence = s; type = t })
unfolding parse_internal_key
parse-internal_key user_key s t hs ht =
    rw (internal_key_lem user_key s t, le→ltb _ 8 (tag_fits user_key (pack_sequence_and_type s t)))
      (rw (tag_fixed64 user_key _ (pack-lt s t hs (omega arith)), extract_user_key_fixed64)
        (rw (pack_lem s t hs (omega arith), bit_and_low8) (ground arith)))

byte_at-drop : (n : ℕ) (p : Bytes) → byte_at (drop n p) 0 ≡ byte_at p n
byte_at-drop zero p = refl
byte_at-drop (suc n) [] = refl
byte_at-drop (suc n) (b ∷ p) = byte_at-drop n p

-- The low byte of the tag is the first of the last eight bytes.
tag-low :
    (key : Bytes) → All IsByte key → 8 ≤ length key → tag key % 256 ≡ byte_at key (length key - 8)
unfolding tag encode_fixed64
tag-low key hb long =
    let n = length key - 8 in
    let last : length (drop n key) ≡ 8 = omega (arith, length-drop n key) in
    let low = encode_fixed64-decode_fixed64 (drop n key) (All-drop IsByte n key hb) last in
    sym (bit_and_low8 (tag key)) ∙ ap (λ (p : Bytes). byte_at p 0) low ∙ byte_at-drop n key

-- `ParseInternalKey` fails exactly on the keys that have less than eight bytes, or whose type, which is
-- the first of the last eight bytes, is neither that of a deletion nor that of a value. A key
-- consists of bytes.
pub parse_internal_key-none :
    (key : Bytes)
    → All IsByte key
    → (parse_internal_key key ≡ none) ↔ ((length key < 8) ⊎ (1 < byte_at key (length key - 8)))
unfolding parse_internal_key
parse_internal_key-none key hb = elim (Bool-cases (ltb (length key) 8)) [
  | inl short ↦ (λ h. inl (ltb→lt (length key) 8 short), λ h. rw short refl)
  | inr long ↦
      let enough : 8 ≤ length key = ground arith in
      let low = bit_and_low8 (tag key) ∙ tag-low key hb enough in
      rw (long, low) (λ h. ground arith, λ h. ground arith)
]
