-- ===== src/Block/Decode.antt =====
-- `DecodeEntry`: the fast path reads what the slow one reads, and both read what `Add` writes.
use d_lsm.Common.{ℕ, ◌+◌, ◌-◌, ◌^◌, ◌≤◌, ◌<◌, ◌≡◌, refl, ap, ◌∙◌, arith}
use d_lsm.Common.{inl, inr, Bool-cases, ltb, le→ltb}
use d_lsm.Common.{
  [], ◌∷◌, ◌++◌, All, All-append, All-drop, length-drop, drop, length, length-append, some, ◌>>=◌,
}
use d_lsm.Common.{append_assoc, bit_or}
use d_lsm.Common.Bits.{bit_or-digit, bit_or-lt, bit_and_top}
use d_lsm.Coding.{Bytes, IsByte, get_varint32_ptr, get_varint32, encode_varint32, put_varint32}
use d_lsm.Coding.Varint.{get_varint32-encode_varint32, encode_varint32-IsByte}
use native.Mathlib.Nat.{mod-eq_of_lt}
use d_lsm.Block.{decode_header, check_size, decode_entry, put_entry}

-- A byte below 128 is a whole varint.
one_byte : (a : ℕ) (p : Bytes) → a < 128 → get_varint32_ptr (a ∷ p) ≡ some (a, p)
unfolding get_varint32_ptr
one_byte a p h = ground (arith, bit_and_top a)

-- `|` of bytes is below 128 only if they all are.
bit_or_low : (a b : ℕ) → a < 256 → b < 256 → bit_or a b < 128 → (a < 128) × (b < 128)
bit_or_low a b ha hb h = ground (arith, bit_or-digit 7 a b)

decode_entry-three :
    (a b c : ℕ) (p : Bytes)
    → All IsByte (a ∷ b ∷ c ∷ [])
    → decode_entry (a ∷ b ∷ c ∷ p) ≡ decode_header (a ∷ b ∷ c ∷ p) >>= check_size
unfolding decode_entry decode_header
decode_entry-three a b c p (ha, (hb, (hc, _))) =
    elim (Bool-cases (ltb (bit_or (bit_or a b) c) 128)) [
      | inr slow ↦ rw slow refl
      | inl fast ↦
          let (hab, hc') = bit_or_low (bit_or a b) c (bit_or-lt 8 a b ha hb) hc (ground arith) in
          let (ha', hb') = bit_or_low a b ha hb hab in
          rw (fast, one_byte a (b ∷ c ∷ p) ha', one_byte b (c ∷ p) hb', one_byte c p hc') refl
    ]

-- On three bytes at least, `DecodeEntry` reads three varints and checks the size: the fast path for
-- three numbers of one byte gives what the slow one does.
pub decode_entry-eq-decode_header :
    (p : Bytes) → 3 ≤ length p → All IsByte p → decode_entry p ≡ decode_header p >>= check_size
decode_entry-eq-decode_header [] h hb = absurd (omega arith)
decode_entry-eq-decode_header (a ∷ []) h hb = absurd (omega arith)
decode_entry-eq-decode_header (a ∷ b ∷ []) h hb = absurd (omega arith)
decode_entry-eq-decode_header (a ∷ b ∷ c ∷ p) h (ha, (hb, (hc, _))) =
    decode_entry-three a b c p (ha, (hb, (hc, tt)))

-- The bytes of an entry.
abbrev pub entry_code : ℕ → Bytes → Bytes → Bytes
entry_code shared key value =
    encode_varint32 shared
    ++ (encode_varint32 (length key - shared)
        ++ (encode_varint32 (length value) ++ (drop shared key ++ value)))

pub put_entry-append :
    (buffer : Bytes) (shared : ℕ) (key value : Bytes)
    → put_entry buffer shared key value ≡ buffer ++ entry_code shared key value
unfolding put_entry put_varint32
put_entry-append buffer shared key value = rw append_assoc (rw append_assoc (rw append_assoc refl))

encode_varint32-some : (v : ℕ) → 1 ≤ length (encode_varint32 v)
unfolding encode_varint32
encode_varint32-some v = ground arith

pub length-entry_code :
    (shared : ℕ) (key value : Bytes)
    → 3 + length (drop shared key) + length value ≤ length (entry_code shared key value)
length-entry_code shared key value =
    let a = encode_varint32 shared in
    let b = encode_varint32 (length key - shared) in
    let c = encode_varint32 (length value) in
    let d = drop shared key in
    omega (
      arith,
      encode_varint32-some shared,
      encode_varint32-some (length key - shared),
      encode_varint32-some (length value),
      length-append a (b ++ (c ++ (d ++ value))),
      length-append b (c ++ (d ++ value)),
      length-append c (d ++ value),
      length-append d value,
    )

-- The entries that a block can hold.
pub record IsBlockEntry (key value : Bytes) : Type 0 where
  pub fits : length key + length value < 2 ^ 32
  pub key_bytes : All IsByte key
  pub value_bytes : All IsByte value

-- `GetVarint32Ptr` reads back a number.
read_varint :
    (v : ℕ) (rest : Bytes)
    → v < 2 ^ 32
    → All IsByte rest
    → get_varint32_ptr (encode_varint32 v ++ rest) ≡ some (v, rest)
read_varint v rest h hb = unfold get_varint32 in get_varint32-encode_varint32 v rest h hb

check_size-enough :
    (s n v : ℕ) (rest : Bytes)
    → n + v ≤ length rest
    → length rest < 2 ^ 32
    → check_size (record { shared = s; non_shared = n; value_length = v; rest = rest })
      ≡ some (record { shared = s; non_shared = n; value_length = v; rest = rest })
check_size-enough s n v rest h hn =
    rw
      (
        mod-eq_of_lt hn,
        mod-eq_of_lt {n = n + v} {m = 2 ^ 32} (omega arith),
        le→ltb (length rest) (n + v) h,
      )
      refl

module _ (shared : ℕ) (key value : Bytes) (h : IsBlockEntry key value) where
  pub entry_code-IsByte : shared ≤ length key → All IsByte (entry_code shared key value)
  entry_code-IsByte hs =
      let d = drop shared key in
      let c = encode_varint32 (length value) in
      let b = encode_varint32 (length key - shared) in
      let dv = All-append IsByte d value (All-drop IsByte shared key h.key_bytes) h.value_bytes in
      let cdv =
        All-append IsByte c (d ++ value)
          (encode_varint32-IsByte (length value) (omega (arith, h.fits))) dv in
      All-append IsByte (encode_varint32 shared) (b ++ (c ++ (d ++ value)))
        (encode_varint32-IsByte shared (omega (arith, h.fits)))
        (All-append IsByte b (c ++ (d ++ value))
          (encode_varint32-IsByte (length key - shared) (omega (arith, h.fits))) cdv)

  -- `DecodeEntry` reads the numbers of an entry and stops before its delta.
  pub decode_entry-entry_code :
      (rest : Bytes)
      → shared ≤ length key
      → All IsByte rest
      → length (entry_code shared key value ++ rest) < 2 ^ 32
      → decode_entry (entry_code shared key value ++ rest)
        ≡ some (record {
          shared = shared;
          non_shared = length key - shared;
          value_length = length value;
          rest = drop shared key ++ (value ++ rest);
        })
  unfolding decode_header
  decode_entry-entry_code rest hs hr hn =
      let d = drop shared key in
      let n = length key - shared in
      let a = encode_varint32 shared in
      let b = encode_varint32 n in
      let c = encode_varint32 (length value) in
      let body = d ++ (value ++ rest) in
      let split : entry_code shared key value ++ rest ≡ a ++ (b ++ (c ++ body)) =
        simp append_assoc refl in
      let hbody : All IsByte body =
        All-append IsByte d (value ++ rest) (All-drop IsByte shared key h.key_bytes)
          (All-append IsByte value rest h.value_bytes hr) in
      let hc =
        All-append IsByte c body (encode_varint32-IsByte (length value) (omega (arith, h.fits)))
          hbody in
      let hb =
        All-append IsByte b (c ++ body) (encode_varint32-IsByte n (omega (arith, h.fits))) hc in
      let total : length (a ++ (b ++ (c ++ body))) < 2 ^ 32 = rw (← split) hn in
      let size : length body ≡ n + (length value + length rest) = omega (
        arith,
        length-append d (value ++ rest),
        length-append value rest,
        length-drop shared key,
      ) in
      let inner : length body < 2 ^ 32 = omega (
        arith,
        length-append a (b ++ (c ++ body)),
        length-append b (c ++ body),
        length-append c body,
        total,
      ) in
      let long : 3 ≤ length (a ++ (b ++ (c ++ body))) = omega (
        arith,
        length-append a (b ++ (c ++ body)),
        length-append b (c ++ body),
        length-append c body,
        encode_varint32-some shared,
        encode_varint32-some n,
        encode_varint32-some (length value),
      ) in
      ap decode_entry split
      ∙ (decode_entry-eq-decode_header (a ++ (b ++ (c ++ body))) long (
            All-append IsByte a (b ++ (c ++ body))
              (encode_varint32-IsByte shared (omega (arith, h.fits))) hb)
          ∙ rw
              (
                read_varint shared (b ++ (c ++ body)) (omega (arith, h.fits)) hb,
                read_varint n (c ++ body) (omega (arith, h.fits)) hc,
                read_varint (length value) body (omega (arith, h.fits)) hbody,
              )
              (check_size-enough shared n (length value) body (omega (arith, size)) inner))
