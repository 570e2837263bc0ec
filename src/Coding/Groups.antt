-- ===== src/Coding/Groups.antt =====
-- EncodeVarint32, EncodeVarint64 and VarintLength of util/coding: what they write, in arithmetic.
use d_lsm.Common.{ℕ, zero, suc, ◌+◌, ◌/◌, ◌%◌, ◌^◌, ◌≤◌, ◌<◌, ◌≡◌, arith}
use d_lsm.Common.{[], ◌∷◌, length, bit_and, bit_or}
use d_lsm.Common.{◌∙◌, sym, ltb, if◌then◌else◌}
use d_lsm.Common.Order.{lt_wf}
use d_lsm.Common.Bits.{set_top_bit, bit_and_low7}
use d_lsm.Coding.{Bytes, encode_varint32, encode_varint64_loop, encode_varint64}
use d_lsm.Coding.{varint_length_loop, varint_length}
use mathlib.Core.WellFounded.{Acc}
use native.Mathlib.Nat.{pow-suc}

-- The groups of seven bits of `v`, lowest first, in `k + 1` bytes at most.
unfoldable pub groups : ℕ → ℕ → Bytes
groups zero v = v ∷ []
groups (suc k) v =
    let more = (v % 128 + 128) ∷ groups k (v / 128) in if ltb v 128 then v ∷ [] else more

inner_group : (v : ℕ) → bit_or (bit_and v 127) 128 % 256 ≡ v % 128 + 128
inner_group v = ground (arith, bit_and_low7 v, set_top_bit (bit_and v 127))

encode_varint64_loop-groups :
    (k v : ℕ) (w : Acc ◌<◌ v) → v < 128 ^ suc k → encode_varint64_loop v w ≡ groups k v
unfolding encode_varint64_loop groups
encode_varint64_loop-groups zero v (Acc.intro _ smaller) h = grind arith
encode_varint64_loop-groups (suc k) v (Acc.intro _ smaller) h = grind (
  arith,
  inner_group v,
  λ (w : Acc ◌<◌ (v / 128)).
      encode_varint64_loop-groups k (v / 128) w (omega (arith, pow-suc 128 (suc k))),
)

pub encode_varint64-groups : (v : ℕ) → v < 2 ^ 64 → encode_varint64 v ≡ groups 9 v
unfolding encode_varint64
encode_varint64-groups v h = encode_varint64_loop-groups 9 v (lt_wf.apply v) (omega arith)

pub encode_varint32-groups : (v : ℕ) → v < 2 ^ 32 → encode_varint32 v ≡ groups 4 v
unfolding encode_varint32 groups
encode_varint32-groups v h = ground (
  arith,
  set_top_bit v,
  set_top_bit (v / 2 ^ 7),
  set_top_bit (v / 2 ^ 14),
  set_top_bit (v / 2 ^ 21),
)

-- The unrolled 32-bit encoder writes what the loop of the 64-bit encoder writes.
pub encode_varint32-eq-encode_varint64 :
    (v : ℕ) → v < 2 ^ 32 → encode_varint32 v ≡ encode_varint64 v
unfolding encode_varint64
encode_varint32-eq-encode_varint64 v h =
    encode_varint32-groups v h ∙ sym (encode_varint64_loop-groups 4 v (lt_wf.apply v) (omega arith))

varint_length_loop-groups :
    (k v len : ℕ) (w : Acc ◌<◌ v)
    → v < 128 ^ suc k
    → varint_length_loop v len w + 1 ≡ len + length (groups k v)
unfolding varint_length_loop groups
varint_length_loop-groups zero v len (Acc.intro _ smaller) h = grind arith
varint_length_loop-groups (suc k) v len (Acc.intro _ smaller) h = grind (
  arith,
  λ (w : Acc ◌<◌ (v / 128)).
      varint_length_loop-groups k (v / 128) (len + 1) w (omega (arith, pow-suc 128 (suc k))),
)

length-groups-le : (k v : ℕ) → length (groups k v) ≤ suc k
unfolding groups
length-groups-le zero v = omega arith
length-groups-le (suc k) v = ground (arith, length-groups-le k (v / 128))

-- `VarintLength` is the number of bytes that `EncodeVarint64` writes, ten at most.
pub varint_length-encode_varint64 :
    (v : ℕ) → v < 2 ^ 64 → (varint_length v ≡ length (encode_varint64 v)) × (varint_length v ≤ 10)
unfolding varint_length
varint_length-encode_varint64 v h =
    let e = varint_length_loop-groups 9 v 1 (lt_wf.apply v) (omega arith) in
    rw (encode_varint64-groups v h) (omega (arith, e), omega (arith, e, length-groups-le 9 v))
