-- ===== src/Filter.antt =====
-- util/hash.cc, util/bloom.cc and table/full_filter_block.cc: Bloom filters over the hashes of keys.
pub mod Probes
pub mod Bloom
pub mod Full
pub mod Reader
mod Tests
use d_lsm.Common.{ℕ, zero, suc, ◌+◌, ◌-◌, ◌*◌, ◌/◌, ◌%◌, ◌^◌, Bool, true, false, ◌||◌}
use d_lsm.Common.{List, [], ◌∷◌, ◌++◌, length, take, drop, get_elem?, Option, some, none}
use d_lsm.Common.{bit_and, bit_or, bit_xor, ltb, leb, ◌==◌, if◌then◌else◌}
use d_lsm.Coding.{Bytes, byte_at, decode_fixed32, encode_fixed32, to_byte}

-- `Hash`: the constants, the sign-extension of a char, and the two mixing steps.
abbrev hash_m : ℕ
hash_m = 3332679571

abbrev sign_extend : ℕ → ℕ
sign_extend c = if ltb c 128 then c else 2 ^ 32 - 256 + c

abbrev mix : ℕ → ℕ → ℕ
mix r h = let t = h * hash_m % 2 ^ 32 in bit_xor t (t / 2 ^ r)

-- The last one to three bytes.
unfoldable pub hash_tail : Bytes → ℕ → ℕ
hash_tail (a ∷ []) h = mix 24 ((h + sign_extend a) % 2 ^ 32)
hash_tail (a ∷ b ∷ []) h = mix 24 (((h + sign_extend b * 2 ^ 8) % 2 ^ 32 + sign_extend a) % 2 ^ 32)
hash_tail (a ∷ b ∷ c ∷ []) h =
    mix 24
      (((h + sign_extend c * 2 ^ 16 + sign_extend b * 2 ^ 8) % 2 ^ 32 + sign_extend a) % 2 ^ 32)
hash_tail bytes h = h

-- The loop over words of four bytes, and what follows it.
unfoldable pub hash_loop : Bytes → ℕ → ℕ
hash_loop (a ∷ b ∷ c ∷ d ∷ more) h =
    hash_loop more (mix 16 ((h + decode_fixed32 (a ∷ b ∷ c ∷ d ∷ [])) % 2 ^ 32))
hash_loop tail h = hash_tail tail h

unfoldable pub hash : Bytes → ℕ → ℕ
hash bytes seed = hash_loop bytes (bit_xor seed (length bytes * hash_m % 2 ^ 64) % 2 ^ 32)

-- `BloomHash`
unfoldable pub bloom_hash : Bytes → ℕ
bloom_hash key = hash key 3164544308

-- `(h >> 17) | (h << 15)`
abbrev pub rotate : ℕ → ℕ
rotate h = bit_or (h / 2 ^ 17) (h * 2 ^ 15 % 2 ^ 32)

-- `p[bitpos / 8] |= (1 << (bitpos % 8))` of the bytes from `base` on.
abbrev pub set_byte : Bytes → ℕ → ℕ → Bytes
set_byte [] i bit = []
set_byte (b ∷ bytes) zero bit = to_byte (bit_or b (2 ^ bit)) ∷ bytes
set_byte (b ∷ bytes) (suc i) bit = b ∷ set_byte bytes i bit

unfoldable pub set_bit : Bytes → ℕ → ℕ → Bytes
set_bit bytes base bitpos = set_byte bytes (base + bitpos / 8) (bitpos % 8)

-- `(p[bitpos / 8] & (1 << (bitpos % 8))) == 0`, of the bytes from `base` on.
unfoldable pub is_clear : Bytes → ℕ → ℕ → Bool
is_clear bytes base bitpos = bit_and (byte_at bytes (base + bitpos / 8)) (2 ^ (bitpos % 8)) == 0

-- The loops over the probes of one hash value: `AddHash`, `HashMayMatchPrepared`, and those of
-- `BloomFilterPolicy`. `pos` is the bit of a hash value, counted from the byte at `base`.
module _ (pos : ℕ → ℕ) (base delta : ℕ) where
  unfoldable pub set_probes : ℕ → ℕ → Bytes → Bytes
  set_probes zero h array = array
  set_probes (suc k) h array = set_probes k ((h + delta) % 2 ^ 32) (set_bit array base (pos h))

  unfoldable pub test_probes : ℕ → ℕ → Bytes → Bool
  test_probes zero h array = true
  test_probes (suc k) h array =
      let rest = test_probes k ((h + delta) % 2 ^ 32) array in
      if is_clear array base (pos h) then false else rest

-- `BloomFilterPolicy`: `k_` is between 1 and 30.
pub record BloomFilterPolicy : Type 0 where
  pub bits_per_key : ℕ
  pub k : ℕ

-- The number of bytes of a filter for `n` keys.
unfoldable pub filter_bytes : BloomFilterPolicy → ℕ → ℕ
filter_bytes policy n =
    let bits = n * policy.bits_per_key % 2 ^ 64 in ((if ltb bits 64 then 64 else bits) + 7) / 8

-- The loop over the keys of `CreateFilter`.
unfoldable pub add_keys : BloomFilterPolicy → ℕ → List Bytes → Bytes → Bytes
add_keys policy bits [] array = array
add_keys policy bits (key ∷ keys) array =
    let h = bloom_hash key in
    add_keys policy bits keys (set_probes (λ v. v % bits) 0 (rotate h) policy.k h array)

-- `CreateFilter`: `memory` is what lies behind `*dst` in its buffer. The code does not clear it.
unfoldable pub create_filter : BloomFilterPolicy → List Bytes → Bytes → Bytes → Bytes
create_filter policy keys dst memory =
    let bytes = filter_bytes policy (length keys) in
    dst ++ (add_keys policy (bytes * 8) keys (take bytes memory) ++ to_byte policy.k ∷ [])

-- `BloomFilterPolicy::KeyMayMatch`. A char above 127 becomes a `k` above 30.
unfoldable pub policy_may_match : Bytes → Bytes → Bool
policy_may_match key bloom_filter =
    let len = length bloom_filter in
    let k = byte_at bloom_filter (len - 1) in
    let h = bloom_hash key in
    if ltb len 2
    then false
    else if ltb 30 k
    then true
    else test_probes (λ v. v % ((len - 1) * 8)) 0 (rotate h) k h bloom_filter

-- `CACHE_LINE_SIZE` and its logarithm.
abbrev pub cache_line_size : ℕ
cache_line_size = 64

abbrev pub log2_cache_line : ℕ
log2_cache_line = 6

-- `LegacyBloomImpl`: the offset of the line of a hash value, and its bit within the line.
abbrev pub line_offset : ℕ → ℕ → ℕ → ℕ
line_offset log2_line num_lines h = h % num_lines * 2 ^ log2_line % 2 ^ 32

abbrev pub line_bit : ℕ → ℕ → ℕ
line_bit log2_line h = bit_and h (2 ^ (log2_line + 3) - 1)

unfoldable pub add_hash : ℕ → ℕ → ℕ → Bytes → Bytes
add_hash num_probes num_lines h bytes =
    set_probes (line_bit log2_cache_line) (line_offset log2_cache_line num_lines h) (rotate h)
      num_probes h bytes

-- `FullFilterBlockBuilder`
pub record FullFilterBlockBuilder : Type 0 where
  pub bits_per_key : ℕ
  pub num_probes : ℕ
  pub hash_entries : List ℕ

abbrev last_is : List ℕ → ℕ → Bool
last_is [] hash = false
last_is (h ∷ []) hash = h == hash
last_is (h ∷ h' ∷ entries) hash = last_is (h' ∷ entries) hash

unfoldable pub add_key : FullFilterBlockBuilder → Bytes → FullFilterBlockBuilder
add_key b key = record {
  bits_per_key = b.bits_per_key;
  num_probes = b.num_probes;
  hash_entries =
      if last_is b.hash_entries (bloom_hash key)
      then b.hash_entries
      else b.hash_entries ++ bloom_hash key ∷ [];
}

-- `GetTotalBitsForLocality`
unfoldable pub total_bits_for_locality : ℕ → ℕ
total_bits_for_locality total_bits =
    let num_lines = (total_bits + cache_line_size * 8 - 1) % 2 ^ 32 / (cache_line_size * 8) in
    let odd_lines = if num_lines % 2 == 0 then num_lines + 1 else num_lines in
    odd_lines * (cache_line_size * 8) % 2 ^ 32

-- `CalculateSpace`: `*total_bits` and `*num_lines`. The product of the entries and `bits_per_key_`
-- is one of signed 32-bit words in the source, whose behaviour is undefined from 2^31 on; here it
-- wraps, as it does on the machine.
unfoldable pub calculate_space : ℕ → ℕ → ℕ × ℕ
calculate_space bits_per_key num_entry =
    if num_entry == 0
    then (0, 0)
    else let total_bits = total_bits_for_locality (num_entry * bits_per_key % 2 ^ 32) in
      (total_bits, total_bits / (cache_line_size * 8))

unfoldable pub add_hashes : ℕ → ℕ → List ℕ → Bytes → Bytes
add_hashes num_probes num_lines [] bytes = bytes
add_hashes num_probes num_lines (h ∷ entries) bytes =
    add_hashes num_probes num_lines entries (add_hash num_probes num_lines h bytes)

-- `Finish`, in the buffer `memory` whose old content stays: the new `result`.
unfoldable pub finish_filter : FullFilterBlockBuilder → Bytes → Bytes
finish_filter b memory =
    let (total_bits, num_lines) = calculate_space b.bits_per_key (length b.hash_entries) in
    let written =
      if (total_bits == 0) || (num_lines == 0)
      then memory
      else add_hashes b.num_probes num_lines b.hash_entries memory in
    take (total_bits / 8) written ++ to_byte b.num_probes ∷ encode_fixed32 num_lines

-- `FullFilterBlockReader`
pub record FullFilterBlockReader : Type 0 where
  pub filter_data : Bytes
  pub reader_probes : ℕ
  pub reader_lines : ℕ
  pub log2_line : ℕ

-- The constructor; none is `exit(1)`. A filter of fewer than five bytes, which the code reads out of
-- bounds, counts as corrupt.
unfoldable pub open_filter : Bytes → Option FullFilterBlockReader
open_filter contents =
    let len = length contents - 5 in
    let probes = byte_at contents len in
    let lines = decode_fixed32 (drop (len + 1) contents) in
    if probes == 0
    then none
    else if ltb 127 probes
    then none
    else if lines * cache_line_size % 2 ^ 32 == len
    then some (record {
      filter_data = contents;
      reader_probes = probes;
      reader_lines = lines;
      log2_line = log2_cache_line;
    })
    else if lines == 0
    then none
    else if len % lines == 0
    then some (record {
      filter_data = contents;
      reader_probes = probes;
      reader_lines = lines;
      log2_line = 0;
    })
    else none

-- `FullFilterBlockReader::KeyMayMatch`
unfoldable pub key_may_match : FullFilterBlockReader → Bytes → Bool
key_may_match r key =
    let h = bloom_hash key in
    test_probes (line_bit r.log2_line) (line_offset r.log2_line r.reader_lines h) (rotate h)
      r.reader_probes h r.filter_data
