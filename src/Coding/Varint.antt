-- ===== src/Coding/Varint.antt =====
-- GetVarint32 and GetVarint64 of util/coding: they read back what the encoders write.
use d_lsm.Common.{
  leb, ◌==◌, Bool-cases, inl, inr, ℕ, zero, suc, ◌+◌, ◌*◌, ◌/◌, ◌%◌, ◌^◌, ◌≤◌, ◌<◌, ◌≡◌, refl, ap,
  arith,
}
use d_lsm.Common.{[], ◌∷◌, ◌++◌, some, length, bit_and, bit_or, All}
use d_lsm.Common.{sym, ◌∙◌, ltb, Bool-cases, ltb→lt, inl, inr, All-append}
use d_lsm.Common.Bits.{bit_or_fields, bit_and_low7, bit_and_top}
use d_lsm.Coding.{Bytes, IsByte, encode_varint32, encode_varint64}
use d_lsm.Coding.{get_varint_loop, get_varint32_ptr_fallback, get_varint32_ptr, get_varint32}
use d_lsm.Coding.{get_varint64}
use native.Mathlib.Numerals.{towards_suc}
use native.Mathlib.Nat.{pow-suc, mod-eq_of_lt, div-add-mod}
use d_lsm.Coding.Groups.{groups, encode_varint32-groups, encode_varint64-groups}

pow_seven : (s : ℕ) → 2 ^ (s + 7) ≡ 128 * 2 ^ s
pow_seven s = simp towards_suc (omega arith)

-- One round of the loop: at a byte that ends the number, and at one that does not.
read_end :
    (last modulus v shift result : ℕ) (rest : Bytes)
    → shift ≤ last
    → v < 128
    → result < 2 ^ shift
    → v * 2 ^ shift < modulus
    → get_varint_loop last modulus (v ∷ rest) shift result ≡ some (result + v * 2 ^ shift, rest)
unfolding get_varint_loop
read_end last modulus v shift result rest hs hv hr hm =
    ground (arith, bit_and_top v, mod-eq_of_lt hm, bit_or_fields shift result v hr)

read_more :
    (last modulus g shift result : ℕ) (p : Bytes)
    → shift ≤ last
    → g < 128
    → result < 2 ^ shift
    → g * 2 ^ shift < modulus
    → get_varint_loop last modulus ((g + 128) ∷ p) shift result
      ≡ get_varint_loop last modulus p (shift + 7) (result + g * 2 ^ shift)
unfolding get_varint_loop
read_more last modulus g shift result p hs hg hr hm = ground (
  arith,
  bit_and_top (g + 128),
  bit_and_low7 (g + 128),
  mod-eq_of_lt hm,
  bit_or_fields shift result g hr,
)

-- The value above bit `shift` is its lowest group and the rest, seven bits further up.
split_group : (v s : ℕ) → v * 2 ^ s ≡ v % 128 * 2 ^ s + v / 128 * 2 ^ (s + 7)
split_group v s = omega (
  arith,
  ap (λ (t : ℕ). t * 2 ^ s) (div-add-mod v 128),
  ap (λ (t : ℕ). v / 128 * t) (pow_seven s),
)

group_fits : (g s r : ℕ) → g < 128 → r < 2 ^ s → r + g * 2 ^ s < 2 ^ (s + 7)
group_fits g s r hg hr = rw pow_seven (grind arith)

-- Reading the groups of `v` at bit `shift` adds `v` there.
get_varint_loop-groups :
    (last modulus k v shift result : ℕ) (rest : Bytes)
    → shift + 7 * k ≤ last
    → v < 128 ^ suc k
    → result < 2 ^ shift
    → v * 2 ^ shift < modulus
    → get_varint_loop last modulus (groups k v ++ rest) shift result
      ≡ some (result + v * 2 ^ shift, rest)
unfolding groups get_varint_loop
get_varint_loop-groups last modulus zero v shift result rest hs hv hr hm =
    read_end last modulus v shift result rest (omega arith) (omega arith) hr hm
get_varint_loop-groups last modulus (suc k) v shift result rest hs hv hr hm =
    elim (Bool-cases (ltb v 128)) [
      | inl one ↦
          rw (one, groups)
            (read_end last modulus v shift result rest (omega arith) (ltb→lt v 128 one) hr hm)
      | inr more ↦
          rw (more, groups)
            (read_more last modulus (v % 128) shift result (groups k (v / 128) ++ rest)
                (omega arith) (omega arith) hr (omega (arith, split_group v shift))
              ∙ get_varint_loop-groups last modulus k (v / 128) (shift + 7)
                  (result + v % 128 * 2 ^ shift) rest (omega arith)
                  (omega (arith, pow-suc 128 (suc k)))
                  (group_fits (v % 128) shift result (omega arith) hr)
                  (omega (arith, split_group v shift))
              ∙ ap (λ (t : ℕ). some (t, rest)) (omega (arith, split_group v shift)))
    ]

-- The fast path for one byte changes nothing: on every input it agrees with the loop.
pub get_varint32_ptr-eq-fallback :
    (p : Bytes) → All IsByte p → get_varint32_ptr p ≡ get_varint32_ptr_fallback p
unfolding get_varint32_ptr
get_varint32_ptr-eq-fallback [] h = refl
get_varint32_ptr-eq-fallback (b ∷ p) h =
    ground (arith, bit_or_fields 0 0 b, mod-eq_of_lt {n = b} {m = 2 ^ 32} (omega arith))

groups-IsByte : (k v : ℕ) → v < 128 ^ suc k → v < 2 ^ 64 → All IsByte (groups k v)
unfolding groups
groups-IsByte zero v h f = omega arith
groups-IsByte (suc k) v h f =
    ground (arith, groups-IsByte k (v / 128) (omega (arith, pow-suc 128 (suc k))) (omega arith))

pub encode_varint32-IsByte : (v : ℕ) → v < 2 ^ 32 → All IsByte (encode_varint32 v)
encode_varint32-IsByte v h =
    rw (encode_varint32-groups v h) (groups-IsByte 4 v (omega arith) (omega arith))

pub encode_varint64-IsByte : (v : ℕ) → v < 2 ^ 64 → All IsByte (encode_varint64 v)
encode_varint64-IsByte v h = rw (encode_varint64-groups v h) (groups-IsByte 9 v (omega arith) h)

-- `GetVarint32` reads back what `EncodeVarint32` wrote, and leaves whatever follows.
pub get_varint32-encode_varint32 :
    (v : ℕ) (rest : Bytes)
    → v < 2 ^ 32
    → All IsByte rest
    → get_varint32 (encode_varint32 v ++ rest) ≡ some (v, rest)
unfolding get_varint32
get_varint32-encode_varint32 v rest h hb =
    get_varint32_ptr-eq-fallback _ (All-append IsByte _ rest (encode_varint32-IsByte v h) hb)
    ∙ rw (encode_varint32-groups v h) (
        get_varint_loop-groups 28 (2 ^ 32) 4 v 0 0 rest (omega arith) (omega arith) (omega arith)
          (omega arith)
        ∙ ap (λ (t : ℕ). some (t, rest)) (omega arith))

-- `GetVarint64` reads back what `EncodeVarint64` wrote, and leaves whatever follows.
pub get_varint64-encode_varint64 :
    (v : ℕ) (rest : Bytes) → v < 2 ^ 64 → get_varint64 (encode_varint64 v ++ rest) ≡ some (v, rest)
unfolding get_varint64
get_varint64-encode_varint64 v rest h = rw (encode_varint64-groups v h) (
    get_varint_loop-groups 63 (2 ^ 64) 9 v 0 0 rest (omega arith) (omega arith) (omega arith)
      (omega arith)
    ∙ ap (λ (t : ℕ). some (t, rest)) (omega arith))

-- A successful read takes a byte at least and leaves a tail of the input, and its value fits
-- the word.
get_varint_loop_takes :
    (last modulus : ℕ) (src : Bytes) (shift result v : ℕ) (rest : Bytes)
    → get_varint_loop last modulus src shift result ≡ some (v, rest)
    → All IsByte src
    → (length rest < length src) × All IsByte rest
unfolding get_varint_loop
get_varint_loop_takes last modulus [] shift result v rest e h = cc
get_varint_loop_takes last modulus (b ∷ p) shift result v rest e h = ground (
  arith,
  get_varint_loop_takes last modulus p (shift + 7)
      (bit_or result (bit_and b 127 * 2 ^ shift % modulus)) v rest,
)

-- A successful read takes bytes from the front of its input and leaves the others.
get_varint_loop-suffix :
    (last modulus : ℕ) (src : Bytes) (shift result v : ℕ) (rest : Bytes)
    → get_varint_loop last modulus src shift result ≡ some (v, rest)
    → (header : Bytes) × (src ≡ header ++ rest)
unfolding get_varint_loop
get_varint_loop-suffix last modulus [] shift result v rest e = absurd (ground arith)
get_varint_loop-suffix last modulus (b ∷ p) shift result v rest e =
    elim (Bool-cases (leb shift last)) [
      | inr beyond ↦ absurd (ground arith)
      | inl within ↦ elim (Bool-cases (bit_and b 128 == 0)) [
        | inl final ↦ let same : p ≡ rest = ground arith in (b ∷ [], ap (λ (t : Bytes). b ∷ t) same)
        | inr go_on ↦
            let (header, same) =
              get_varint_loop-suffix last modulus p (shift + 7)
                (bit_or result (bit_and b 127 * 2 ^ shift % modulus)) v rest (ground arith) in
            (b ∷ header, ap (λ (t : Bytes). b ∷ t) same)
      ]
    ]

pub get_varint32-suffix :
    (src : Bytes) (v : ℕ) (rest : Bytes)
    → All IsByte src
    → get_varint32 src ≡ some (v, rest)
    → (header : Bytes) × (src ≡ header ++ rest)
unfolding get_varint32
get_varint32-suffix src v rest hb e =
    get_varint_loop-suffix 28 (2 ^ 32) src 0 0 v rest
      (sym (get_varint32_ptr-eq-fallback src hb) ∙ e)

pub get_varint32_takes :
    (src : Bytes) (v : ℕ) (rest : Bytes)
    → All IsByte src
    → get_varint32 src ≡ some (v, rest)
    → (length rest < length src) × All IsByte rest
unfolding get_varint32
get_varint32_takes src v rest hb e =
    get_varint_loop_takes 28 (2 ^ 32) src 0 0 v rest (sym (get_varint32_ptr-eq-fallback src hb) ∙ e)
      hb

-- More input behind a number changes nothing.
pub get_varint_loop-append :
    (last modulus : ℕ) (src more : Bytes) (shift result v : ℕ) (rest : Bytes)
    → get_varint_loop last modulus src shift result ≡ some (v, rest)
    → get_varint_loop last modulus (src ++ more) shift result ≡ some (v, rest ++ more)
unfolding get_varint_loop
get_varint_loop-append last modulus [] more shift result v rest e = cc
get_varint_loop-append last modulus (b ∷ p) more shift result v rest e = ground (
  arith,
  get_varint_loop-append last modulus p more (shift + 7)
      (bit_or result (bit_and b 127 * 2 ^ shift % modulus)) v rest,
)
