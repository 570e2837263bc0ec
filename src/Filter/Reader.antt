-- ===== src/Filter/Reader.antt =====
-- The finished filter of a table, and what its reader answers.
use d_lsm.Common.{ℕ, suc, ◌+◌, ◌-◌, ◌*◌, ◌/◌, ◌%◌, ◌^◌, ◌≤◌, ◌<◌, ◌≡◌, refl, ap, ◌∙◌, arith}
use d_lsm.Common.{true, false, inl, inr, Bool-cases, le→ltb, ◌==◌, append-nil}
use d_lsm.Common.{
  All-map, All-member, List, [], ◌∷◌, ◌++◌, All, take, drop, length, length-append, length-take,
}
use d_lsm.Common.{some}
use d_lsm.Coding.{Bytes, byte_at, to_byte, encode_fixed32, decode_fixed32}
use d_lsm.Coding.Fixed.{decode_fixed32-encode_fixed32}
use d_lsm.Filter.{bloom_hash, rotate, line_bit, line_offset}
use d_lsm.Filter.{FullFilterBlockBuilder, total_bits_for_locality, calculate_space}
use d_lsm.Filter.{add_hashes, finish_filter, FullFilterBlockReader, open_filter, key_may_match}
use d_lsm.Filter.Probes.{test_probes-Probed, Probed-append}
use d_lsm.Filter.Bloom.{byte_at-append}
use d_lsm.Filter.Full.{
  Found, add_hashes-Found, take-add_hashes, length-add_hashes, add_each, add_each-Noted,
  add_each-settings,
}
use native.Mathlib.Nat.{mod-eq_of_lt}

-- Without wrap-around, the size is a positive number of lines.
total_bits_lem :
    (t : ℕ)
    → t + 1024 ≤ 2 ^ 32
    → (lines : ℕ) × (0 < lines) × (lines * 512 < 2 ^ 32) × (total_bits_for_locality t ≡ lines * 512)
unfolding total_bits_for_locality
total_bits_lem t h =
    let whole = (t + 64 * 8 - 1) % 2 ^ 32 / 512 in
    elim (Bool-cases (whole % 2 == 0)) [
      | inl even ↦ (whole + 1, omega arith, omega arith, rw even (omega arith))
      | inr odd ↦ (whole, ground (arith, odd), omega arith, rw odd (omega arith))
    ]

calculate_space_lem :
    (bits_per_key n : ℕ)
    → 0 < n
    → n * bits_per_key + 1024 ≤ 2 ^ 32
    → (lines : ℕ) × (0 < lines)
      × (lines * 512 < 2 ^ 32)
      × (calculate_space bits_per_key n ≡ (lines * 512, lines))
unfolding calculate_space
calculate_space_lem bits_per_key n hn h =
    let (lines, positive, fits, total) = total_bits_lem (n * bits_per_key) h in
    let wrap : n * bits_per_key % 2 ^ 32 ≡ n * bits_per_key = mod-eq_of_lt (omega arith) in
    let some_key : (n == 0) ≡ false = ground arith in
    let back : lines * 512 / 512 ≡ lines = omega arith in
    (lines, positive, fits, rw (some_key, wrap, total) (rw back refl))

length-encode_fixed32 : (v : ℕ) → length (encode_fixed32 v) ≡ 4
unfolding encode_fixed32
length-encode_fixed32 v = refl

drop-append_next : (xs ys : Bytes) (y : ℕ) → drop (suc (length xs)) (xs ++ y ∷ ys) ≡ ys
drop-append_next [] ys y = refl
drop-append_next (x ∷ xs) ys y = drop-append_next xs ys y

-- A buffer of whole lines with the two fields of the metadata behind it.
abbrev sealed : Bytes → ℕ → ℕ → Bytes
sealed array probes lines = array ++ to_byte probes ∷ encode_fixed32 lines

open_filter-sealed :
    (array : Bytes) (probes lines : ℕ)
    → 0 < probes
    → probes < 128
    → lines * 64 < 2 ^ 32
    → length array ≡ lines * 64
    → open_filter (sealed array probes lines)
      ≡ some (record {
        filter_data = sealed array probes lines;
        reader_probes = probes;
        reader_lines = lines;
        log2_line = 6;
      })
unfolding open_filter
open_filter-sealed array probes lines h0 h1 hw size =
    let meta = to_byte probes ∷ encode_fixed32 lines in
    let five : length (array ++ meta) - 5 ≡ length array =
      omega (arith, length-append array meta, length-encode_fixed32 lines) in
    let byte : to_byte probes ≡ probes = mod-eq_of_lt (omega arith) in
    let at : byte_at (array ++ meta) (length array) ≡ probes =
      byte_at-append array (encode_fixed32 lines) (to_byte probes) ∙ byte in
    let one_more : length array + 1 ≡ suc (length array) = omega arith in
    let rest : drop (length array + 1) (array ++ meta) ≡ encode_fixed32 lines =
      ap (λ (n : ℕ). drop n (array ++ meta)) one_more
      ∙ drop-append_next array (encode_fixed32 lines) (to_byte probes) in
    let number : decode_fixed32 (encode_fixed32 lines) ≡ lines =
      rw (← append-nil (encode_fixed32 lines))
        (decode_fixed32-encode_fixed32 lines [] (omega arith)) in
    let some_probe : (probes == 0) ≡ false = ground arith in
    let exact : (lines * 64 % 2 ^ 32 == length array) ≡ true =
      ground (arith, size, mod-eq_of_lt hw) in
    rw (five, at, rest) (rw (number, some_probe, le→ltb 127 probes (omega arith), exact) refl)

finish_filter_lem :
    (b : FullFilterBlockBuilder) (memory : Bytes) (lines : ℕ)
    → 0 < lines
    → calculate_space b.bits_per_key (length b.hash_entries) ≡ (lines * 512, lines)
    → finish_filter b memory
      ≡ sealed
          (add_hashes b.num_probes lines b.hash_entries (take (lines * 64) memory))
          b.num_probes
          lines
unfolding finish_filter
finish_filter_lem b memory lines positive space =
    let bytes : lines * 512 / 8 ≡ lines * 64 = omega arith in
    let some_bits : (lines * 512 == 0) ≡ false = ground arith in
    let some_line : (lines == 0) ≡ false = ground arith in
    rw space (
      rw
        (
          some_bits,
          some_line,
          bytes,
          take-add_hashes b.num_probes lines (lines * 64) b.hash_entries memory,
        )
        refl)

key_may_match-Found :
    (array : Bytes) (probes lines : ℕ) (key : Bytes)
    → Found probes lines array (bloom_hash key)
    → key_may_match
        (record {
          filter_data = sealed array probes lines;
          reader_probes = probes;
          reader_lines = lines;
          log2_line = 6;
        })
        key
      ≡ true
unfolding key_may_match
key_may_match-Found array probes lines key found =
    let h = bloom_hash key in
    let meta = to_byte probes ∷ encode_fixed32 lines in
    test_probes-Probed (line_bit 6) (line_offset 6 lines h) (rotate h) probes h (array ++ meta)
      (Probed-append (line_bit 6) (line_offset 6 lines h) (rotate h) probes h array meta found)

-- The reader of a finished filter answers true for every key that was added, whatever the buffer
-- held before, if the filter has a key and its size does not wrap around.
pub key_may_match-finish_filter :
    (b : FullFilterBlockBuilder) (keys : List Bytes) (memory : Bytes)
    → 0 < b.num_probes
    → b.num_probes < 128
    → 0 < length (add_each b keys).hash_entries
    → length (add_each b keys).hash_entries * b.bits_per_key + 1024 ≤ 2 ^ 32
    → (calculate_space b.bits_per_key (length (add_each b keys).hash_entries)).0 / 8 ≤ length memory
    → (r : FullFilterBlockReader) × (open_filter (finish_filter (add_each b keys) memory) ≡ some r)
      × All (λ key. key_may_match r key ≡ true) keys
key_may_match-finish_filter b keys memory h0 h1 hn hs hm =
    let built = add_each b keys in
    let (same_probes, same_bits) = add_each-settings keys b in
    let (lines, positive, fits, space) =
      calculate_space_lem b.bits_per_key (length built.hash_entries) hn hs in
    let total : (calculate_space b.bits_per_key (length built.hash_entries)).0 ≡ lines * 512 =
      ap (λ (p : ℕ × ℕ). p.0) space in
    let start = take (lines * 64) memory in
    let size : length start ≡ lines * 64 =
      length-take (lines * 64) memory (omega (arith, hm, total)) in
    let array = add_hashes built.num_probes lines built.hash_entries start in
    let full : length array ≡ lines * 64 =
      length-add_hashes built.num_probes lines built.hash_entries start ∙ size in
    let all =
      add_hashes-Found built.num_probes lines built.hash_entries start positive
        (omega (arith, fits)) size in
    (
      record {
        filter_data = sealed array built.num_probes lines;
        reader_probes = built.num_probes;
        reader_lines = lines;
        log2_line = 6;
      },
      ap open_filter (finish_filter_lem built memory lines positive (rw same_bits space))
          ∙ open_filter-sealed array built.num_probes lines (omega (arith, h0, same_probes))
              (omega (arith, h1, same_probes)) (omega (arith, fits)) full,
      All-map
          {Q = λ (key : Bytes).
            key_may_match
              (record {
                filter_data = sealed array built.num_probes lines;
                reader_probes = built.num_probes;
                reader_lines = lines;
                log2_line = 6;
              })
              key
            ≡ true}
          (λ key noted. key_may_match-Found array built.num_probes lines key (
            All-member (Found built.num_probes lines array) built.hash_entries (bloom_hash key) all
              noted))
          keys (add_each-Noted keys b),
    )
