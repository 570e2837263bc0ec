-- ===== src/Common/Bits.antt =====
-- The bit operations of the program as arithmetic: a byte mask, a field set by `|`.
use Prim.Native.Nat.{ℕ, zero, suc, ◌+◌, ◌-◌, ◌*◌, ◌/◌, ◌%◌, ◌^◌, ◌≤◌, ◌<◌, min, max}
use Prim.Native.Nat.{bit_and, bit_or, digits, bit_and-bitwise, bit_or-bitwise}
use mathlib.Core.Path.{◌≡◌, refl, sym, ap, ◌∙◌}
use native.Mathlib.Nat.{pow-suc, one-le-pow, div-add-mod', mod-lt, div-div-eq-div-mul}
use native.Mathlib.Decide.{dec_le}
use native.Mathlib.Omega.{arith}

-- What the operations compute: a recursion on the binary digits, whose first argument is fuel.
-- Any fuel from the first operand on gives the same result.
module _ (z : ℕ → ℕ) (f : ℕ → ℕ → ℕ) where
  digits_more : (n a b : ℕ) → a ≤ n → digits z f (suc n) a b ≡ digits z f n a b
  digits_more zero zero b h = refl
  digits_more zero (suc a) b h = absurd (omega arith)
  digits_more (suc n) zero b h = refl
  digits_more (suc n) (suc a) b h =
      ap (λ (t : ℕ). t * 2 + f (suc a % 2) (b % 2))
        (digits_more n (suc a / 2) (b / 2) (omega arith))

  digits_enough : (n a b : ℕ) → a ≤ n → digits z f n a b ≡ digits z f a a b
  digits_enough zero zero b h = refl
  digits_enough zero (suc a) b h = absurd (omega arith)
  digits_enough (suc n) a b h = elim (dec_le a n) [
    | yes p ↦ digits_more n a b p ∙ digits_enough n a b p
    | no q ↦ let full : suc n ≡ a = omega arith in ap (λ (t : ℕ). digits z f t a b) full
  ]

  digits_step :
      (a b : ℕ)
      → digits z f (suc a) (suc a) b
        ≡ digits z f (suc a / 2) (suc a / 2) (b / 2) * 2 + f (suc a % 2) (b % 2)
  digits_step a b =
      ap (λ (t : ℕ). t * 2 + f (suc a % 2) (b % 2))
        (digits_enough a (suc a / 2) (b / 2) (omega arith))

pub zero-bit_or : (b : ℕ) → bit_or 0 b ≡ b
zero-bit_or b = bit_or-bitwise 0 b

pub bit_or_step : (a b : ℕ) → bit_or a b ≡ bit_or (a / 2) (b / 2) * 2 + max (a % 2) (b % 2)
bit_or_step zero b = omega (arith, zero-bit_or b, zero-bit_or (b / 2))
bit_or_step (suc a) b =
    rw (bit_or-bitwise (suc a) b, bit_or-bitwise (suc a / 2) (b / 2)) (digits_step (λ y. y) max a b)

double_pow : (q s : ℕ) → q * 2 ^ suc s ≡ 2 * (q * 2 ^ s)
double_pow q s = omega (arith, ap (λ (t : ℕ). q * t) (pow-suc 2 s))

-- `|` of two values whose second has `s` zero bits at its end keeps the low `s` bits of the first.
pub bit_or_high :
    (s q r b : ℕ) → r < 2 ^ s → bit_or (q * 2 ^ s + r) (b * 2 ^ s) ≡ bit_or q b * 2 ^ s + r
bit_or_high zero q r b h = ground arith
bit_or_high (suc s) q r b h = ground (
  arith,
  pow-suc 2 s,
  bit_or_step (q * 2 ^ suc s + r) (b * 2 ^ suc s),
  double_pow q s,
  double_pow b s,
  double_pow (bit_or q b) s,
  bit_or_high s q (r / 2) b (omega (arith, pow-suc 2 s)),
)

bit_or-zero : (a : ℕ) → bit_or a 0 ≡ a
bit_or-zero a = or_zero_fuel a a (omega arith)
  where
    or_zero_fuel : (n a : ℕ) → a ≤ n → bit_or a 0 ≡ a
    or_zero_fuel n zero h = refl
    or_zero_fuel zero (suc a) h = absurd (omega arith)
    or_zero_fuel (suc n) (suc a) h =
        omega (arith, bit_or_step (suc a) 0, or_zero_fuel n (suc a / 2) (omega arith))

-- A field written above the bits of `r`, in either order of the operands.
pub bit_or_fields : (s r b : ℕ) → r < 2 ^ s → bit_or r (b * 2 ^ s) ≡ r + b * 2 ^ s
bit_or_fields s r b h = ground (arith, bit_or_high s 0 r b h, zero-bit_or b)

pub bit_or_fields' : (s r b : ℕ) → r < 2 ^ s → bit_or (b * 2 ^ s) r ≡ b * 2 ^ s + r
bit_or_fields' zero r b h = ground (arith, bit_or-zero b)
bit_or_fields' (suc s) r b h = ground (
  arith,
  bit_or_step (b * 2 ^ suc s) r,
  double_pow b s,
  bit_or_fields' s (r / 2) b (omega (arith, pow-suc 2 s)),
)

-- The top bit of a byte is set, and the rest is the low seven bits.
pub set_top_bit : (v : ℕ) → bit_or v 128 % 256 ≡ v % 128 + 128
set_top_bit v = ground (
  arith,
  bit_or_high 7 (v / 128) (v % 128) 1 (omega arith),
  bit_or_step (v / 128) 1,
  bit_or-zero (v / 128 / 2),
)

none-bit_and : (m : ℕ) → bit_and 0 m ≡ 0
none-bit_and m = bit_and-bitwise 0 m

-- The last digits, and the operation on the digits above them.
pub bit_and_step : (v m : ℕ) → bit_and v m ≡ min (v % 2) (m % 2) + bit_and (v / 2) (m / 2) * 2
bit_and_step zero m = omega (none-bit_and m, none-bit_and (m / 2), arith)
bit_and_step (suc v) m =
    rw (bit_and-bitwise (suc v) m, bit_and-bitwise (suc v / 2) (m / 2))
      (omega (arith, digits_step (λ y. 0) min v m))

bit_and-zero : (a : ℕ) → bit_and a 0 ≡ 0
bit_and-zero a = and_zero_fuel a a (omega arith)
  where
    and_zero_fuel : (n a : ℕ) → a ≤ n → bit_and a 0 ≡ 0
    and_zero_fuel n zero h = refl
    and_zero_fuel zero (suc a) h = absurd (omega arith)
    and_zero_fuel (suc n) (suc a) h =
        omega (arith, bit_and_step (suc a) 0, and_zero_fuel n (suc a / 2) (omega arith))

bit_and-one : (a : ℕ) → bit_and a 1 ≡ a % 2
bit_and-one a = omega (arith, bit_and_step a 1, bit_and-zero (a / 2))

-- `&` with `s` ones keeps the low `s` bits; with a value that has `s` zero bits at its end it
-- drops them.
bit_and_ones : (s q r : ℕ) → r < 2 ^ s → bit_and (q * 2 ^ s + r) (2 ^ s - 1) ≡ r
bit_and_ones zero q r h = ground (arith, bit_and-zero (q * 1 + r))
bit_and_ones (suc s) q r h = ground (
  arith,
  pow-suc 2 s,
  one-le-pow s 2,
  bit_and_step (q * 2 ^ suc s + r) (2 ^ suc s - 1),
  double_pow q s,
  bit_and_ones s q (r / 2) (omega (arith, pow-suc 2 s)),
)

bit_and_high : (s q r b : ℕ) → r < 2 ^ s → bit_and (q * 2 ^ s + r) (b * 2 ^ s) ≡ bit_and q b * 2 ^ s
bit_and_high zero q r b h = ground arith
bit_and_high (suc s) q r b h = ground (
  arith,
  pow-suc 2 s,
  bit_and_step (q * 2 ^ suc s + r) (b * 2 ^ suc s),
  double_pow q s,
  double_pow b s,
  double_pow (bit_and q b) s,
  bit_and_high s q (r / 2) b (omega (arith, pow-suc 2 s)),
)

-- A mask of seven ones, of eight ones, and the test of a byte's top bit.
pub bit_and_low7 : (v : ℕ) → bit_and v 127 ≡ v % 128
bit_and_low7 v = ground (arith, bit_and_ones 7 (v / 128) (v % 128) (omega arith))

pub bit_and_low8 : (v : ℕ) → bit_and v 255 ≡ v % 256
bit_and_low8 v = ground (arith, bit_and_ones 8 (v / 256) (v % 256) (omega arith))

pub bit_and_low9 : (v : ℕ) → bit_and v 511 ≡ v % 512
bit_and_low9 v = ground (arith, bit_and_ones 9 (v / 512) (v % 512) (omega arith))

pub bit_and_top : (v : ℕ) → bit_and v 128 ≡ v / 128 % 2 * 128
bit_and_top v =
    ground (arith, bit_and_high 7 (v / 128) (v % 128) 1 (omega arith), bit_and-one (v / 128))

-- `&` with one bit, and that bit in the result of `|`.
pub bit_and-pow : (i b : ℕ) → bit_and b (2 ^ i) ≡ b / 2 ^ i % 2 * 2 ^ i
bit_and-pow i b = ground (
  arith,
  div-add-mod' b (2 ^ i),
  bit_and_high i (b / 2 ^ i) (b % 2 ^ i) 1 (mod-lt b (one-le-pow i 2 (omega arith))),
  bit_and-one (b / 2 ^ i),
)

half_first : (i x : ℕ) → x / 2 ^ suc i ≡ x / 2 / 2 ^ i
half_first i x =
    sym (div-div-eq-div-mul x 2 (2 ^ i) ∙ ap (λ (d : ℕ). x / d) (omega (arith, pow-suc 2 i)))

pub bit_or-digit : (i a b : ℕ) → bit_or a b / 2 ^ i % 2 ≡ max (a / 2 ^ i % 2) (b / 2 ^ i % 2)
bit_or-digit zero a b = omega (arith, bit_or_step a b)
bit_or-digit (suc i) a b =
    let halves : bit_or a b / 2 ≡ bit_or (a / 2) (b / 2) = omega (arith, bit_or_step a b) in
    rw (half_first i (bit_or a b), half_first i a, half_first i b, halves)
      (bit_or-digit i (a / 2) (b / 2))

-- A byte keeps the low eight bits.
pub byte_digit : (i v : ℕ) → i < 8 → v % 256 / 2 ^ i % 2 ≡ v / 2 ^ i % 2
byte_digit zero v h = omega arith
byte_digit (suc zero) v h = omega arith
byte_digit (suc (suc zero)) v h = omega arith
byte_digit (suc (suc (suc zero))) v h = omega arith
byte_digit (suc (suc (suc (suc zero)))) v h = omega arith
byte_digit (suc (suc (suc (suc (suc zero))))) v h = omega arith
byte_digit (suc (suc (suc (suc (suc (suc zero)))))) v h = omega arith
byte_digit (suc (suc (suc (suc (suc (suc (suc zero))))))) v h = omega arith
byte_digit (suc (suc (suc (suc (suc (suc (suc (suc i)))))))) v h = absurd (omega arith)

pub bit_or-lt : (k a b : ℕ) → a < 2 ^ k → b < 2 ^ k → bit_or a b < 2 ^ k
bit_or-lt zero a b ha hb = ground (arith, zero-bit_or b)
bit_or-lt (suc k) a b ha hb = omega (
  arith,
  pow-suc 2 k,
  bit_or_step a b,
  bit_or-lt k (a / 2) (b / 2) (omega (arith, pow-suc 2 k)) (omega (arith, pow-suc 2 k)),
)

bit_and_le_fuel : (n v m : ℕ) → v ≤ n → bit_and v m ≤ m
bit_and_le_fuel zero v m h =
    let nothing : v ≡ 0 = omega arith in rw nothing (omega (arith, none-bit_and m))
bit_and_le_fuel (suc n) v m h =
    omega (arith, bit_and_step v m, bit_and_le_fuel n (v / 2) (m / 2) (omega arith))

pub bit_and_le : (v m : ℕ) → bit_and v m ≤ m
bit_and_le v m = bit_and_le_fuel v v m (omega arith)
