-- ===== src/Filter/Probes.antt =====
-- Bits that a filter has set stay set, so the probes of an added hash value find theirs.
use d_lsm.Common.{ℕ, zero, suc, ◌+◌, ◌/◌, ◌%◌, ◌^◌, ◌<◌, ◌≡◌, refl, ap, ◌∙◌, arith}
use d_lsm.Common.{true, false}
use d_lsm.Common.{[], ◌∷◌, ◌++◌, take, length, bit_or}
use d_lsm.Common.Bits.{bit_and-pow, bit_or-digit, byte_digit}
use d_lsm.Coding.{Bytes, byte_at, to_byte}
use d_lsm.Filter.{set_byte, set_bit, is_clear, set_probes, test_probes}
use native.Mathlib.Nat.{one-le-pow, div_self}

-- Bit `i` of a byte is set.
abbrev pub HasBit : ℕ → ℕ → Type 0
HasBit b i = b / 2 ^ i % 2 ≡ 1

HasBit-same : (b i : ℕ) → i < 8 → HasBit (to_byte (bit_or b (2 ^ i))) i
HasBit-same b i h =
    byte_digit i (bit_or b (2 ^ i)) h
    ∙ (bit_or-digit i b (2 ^ i) ∙ rw (div_self (one-le-pow i 2 (omega arith))) (ground arith))

HasBit-other : (b i j : ℕ) → i < 8 → HasBit b i → HasBit (to_byte (bit_or b (2 ^ j))) i
HasBit-other b i j h set =
    byte_digit i (bit_or b (2 ^ j)) h ∙ (bit_or-digit i b (2 ^ j) ∙ ground (arith, set))

set_byte-HasBit :
    (bytes : Bytes) (n i : ℕ) → n < length bytes → i < 8 → HasBit (byte_at (set_byte bytes n i) n) i
set_byte-HasBit [] n i h hi = absurd (omega arith)
set_byte-HasBit (b ∷ bytes) zero i h hi = HasBit-same b i hi
set_byte-HasBit (b ∷ bytes) (suc n) i h hi = set_byte-HasBit bytes n i (omega arith) hi

set_byte-HasBit_kept :
    (bytes : Bytes) (n m i j : ℕ)
    → i < 8
    → HasBit (byte_at bytes m) i
    → HasBit (byte_at (set_byte bytes n j) m) i
set_byte-HasBit_kept [] n m i j hi h = h
set_byte-HasBit_kept (b ∷ bytes) zero zero i j hi h = HasBit-other b i j hi h
set_byte-HasBit_kept (b ∷ bytes) zero (suc m) i j hi h = h
set_byte-HasBit_kept (b ∷ bytes) (suc n) zero i j hi h = h
set_byte-HasBit_kept (b ∷ bytes) (suc n) (suc m) i j hi h = set_byte-HasBit_kept bytes n m i j hi h

length-set_byte : (bytes : Bytes) (n i : ℕ) → length (set_byte bytes n i) ≡ length bytes
length-set_byte [] n i = refl
length-set_byte (b ∷ bytes) zero i = refl
length-set_byte (b ∷ bytes) (suc n) i = ap suc (length-set_byte bytes n i)

-- The bit that a probe asks for.
abbrev pub IsProbed : Bytes → ℕ → ℕ → Type 0
IsProbed bytes base bitpos = HasBit (byte_at bytes (base + bitpos / 8)) (bitpos % 8)

is_clear-IsProbed :
    (bytes : Bytes) (base bitpos : ℕ)
    → IsProbed bytes base bitpos
    → is_clear bytes base bitpos ≡ false
unfolding is_clear
is_clear-IsProbed bytes base bitpos h =
    let i = bitpos % 8 in
    ground (arith, bit_and-pow i (byte_at bytes (base + bitpos / 8)), h, one-le-pow i 2)

HasBit-append :
    (xs ys : Bytes) (n i : ℕ) → HasBit (byte_at xs n) i → HasBit (byte_at (xs ++ ys) n) i
HasBit-append [] ys n i h = absurd (ground (arith, h))
HasBit-append (x ∷ xs) ys zero i h = h
HasBit-append (x ∷ xs) ys (suc n) i h = HasBit-append xs ys n i h

take-set_byte : (k : ℕ) (xs : Bytes) (n i : ℕ) → take k (set_byte xs n i) ≡ set_byte (take k xs) n i
take-set_byte zero xs n i = refl
take-set_byte (suc k) [] n i = refl
take-set_byte (suc k) (x ∷ xs) zero i = refl
take-set_byte (suc k) (x ∷ xs) (suc n) i = ap (λ (t : Bytes). x ∷ t) (take-set_byte k xs n i)

module _ (pos : ℕ → ℕ) (base delta : ℕ) where
  -- All probes of a hash value find their bits.
  abbrev pub Probed : ℕ → ℕ → Bytes → Type 0
  Probed zero h bytes = Unit
  Probed (suc k) h bytes = IsProbed bytes base (pos h) × Probed k ((h + delta) % 2 ^ 32) bytes

  pub test_probes-Probed :
      (k h : ℕ) (bytes : Bytes) → Probed k h bytes → test_probes pos base delta k h bytes ≡ true
  unfolding test_probes
  test_probes-Probed zero h bytes p = refl
  test_probes-Probed (suc k) h bytes (p, rest) =
      rw (is_clear-IsProbed bytes base (pos h) p)
        (test_probes-Probed k ((h + delta) % 2 ^ 32) bytes rest)

  pub length-set_probes :
      (k h : ℕ) (bytes : Bytes) → length (set_probes pos base delta k h bytes) ≡ length bytes
  unfolding set_probes set_bit
  length-set_probes zero h bytes = refl
  length-set_probes (suc k) h bytes =
      length-set_probes k _ _ ∙ length-set_byte bytes (base + pos h / 8) (pos h % 8)

  pub take-set_probes :
      (n k h : ℕ) (bytes : Bytes)
      → take n (set_probes pos base delta k h bytes) ≡ set_probes pos base delta k h (take n bytes)
  unfolding set_probes set_bit
  take-set_probes n zero h bytes = refl
  take-set_probes n (suc k) h bytes =
      take-set_probes n k _ _
      ∙ ap (set_probes pos base delta k ((h + delta) % 2 ^ 32))
          (take-set_byte n bytes (base + pos h / 8) (pos h % 8))

  set_probes-IsProbed :
      (k h : ℕ) (bytes : Bytes) (b p : ℕ)
      → IsProbed bytes b p
      → IsProbed (set_probes pos base delta k h bytes) b p
  unfolding set_probes set_bit
  set_probes-IsProbed zero h bytes b p set = set
  set_probes-IsProbed (suc k) h bytes b p set = set_probes-IsProbed k _ _ b p (
      set_byte-HasBit_kept bytes (base + pos h / 8) (b + p / 8) (p % 8) (pos h % 8) (omega arith)
        set)

  -- Setting the probes of a hash value makes them all found.
  pub set_probes-Probed :
      (k h : ℕ) (bytes : Bytes)
      → ((v : ℕ) → base + pos v / 8 < length bytes)
      → Probed k h (set_probes pos base delta k h bytes)
  unfolding set_probes set_bit
  set_probes-Probed zero h bytes fits = tt
  set_probes-Probed (suc k) h bytes fits =
      let n = base + pos h / 8 in
      let i = pos h % 8 in
      (
        set_probes-IsProbed k _ (set_byte bytes n i) base (pos h)
            (set_byte-HasBit bytes n i (fits h) (omega arith)),
        set_probes-Probed k _ (set_byte bytes n i)
            (λ v. omega (arith, fits v, length-set_byte bytes n i)),
      )

module _ (pos : ℕ → ℕ) (base delta : ℕ) (pos' : ℕ → ℕ) (base' delta' : ℕ) where
  -- Probes that are found stay so when those of another value are set.
  pub Probed-set_probes :
      (k h : ℕ) (bytes : Bytes) (k' h' : ℕ)
      → Probed pos base delta k h bytes
      → Probed pos base delta k h (set_probes pos' base' delta' k' h' bytes)
  Probed-set_probes zero h bytes k' h' p = tt
  Probed-set_probes (suc k) h bytes k' h' (p, rest) = (
    set_probes-IsProbed pos' base' delta' k' h' bytes base (pos h) p,
    Probed-set_probes k _ bytes k' h' rest,
  )

pub Probed-append :
    (pos : ℕ → ℕ) (base delta k h : ℕ) (xs ys : Bytes)
    → Probed pos base delta k h xs
    → Probed pos base delta k h (xs ++ ys)
Probed-append pos base delta zero h xs ys p = tt
Probed-append pos base delta (suc k) h xs ys (p, rest) = (
  HasBit-append xs ys (base + pos h / 8) (pos h % 8) p,
  Probed-append pos base delta k _ xs ys rest,
)
