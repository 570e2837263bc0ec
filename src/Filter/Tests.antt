-- ===== src/Filter/Tests.antt =====
-- The theorems on filters at concrete inputs.
use d_lsm.Common.{◌≡◌, ◌≤◌, arith, refl, List, [], ◌∷◌, All, drop, length, replicate, true, some}
use d_lsm.Coding.{Bytes, decode_fixed32}
use d_lsm.Filter.{
  hash, hash_loop, hash_tail, bloom_hash, BloomFilterPolicy, filter_bytes, create_filter,
  policy_may_match,
}
use d_lsm.Filter.{
  FullFilterBlockBuilder, FullFilterBlockReader, add_key, calculate_space, total_bits_for_locality,
}
use d_lsm.Filter.{finish_filter, open_filter, key_may_match}
use d_lsm.Filter.Bloom.{policy_may_match-create_filter}
use d_lsm.Filter.Full.{add_each}
use d_lsm.Filter.Reader.{key_may_match-finish_filter}

-- The inputs of util/hash_test.cc. The values for two and three bytes are not the ones that the test
-- expects, which are those of bytes without a sign.
hash_of_none : hash [] 3164544308 ≡ 3164544308
unfolding hash hash_loop hash_tail
hash_of_none = refl

hash_of_one : hash (98 ∷ []) 3164544308 ≡ 4011017668
unfolding hash hash_loop hash_tail decode_fixed32
hash_of_one = refl

hash_of_two : hash (195 ∷ 151 ∷ []) 3164544308 ≡ 254518592
unfolding hash hash_loop hash_tail decode_fixed32
hash_of_two = refl

hash_of_three : hash (226 ∷ 153 ∷ 165 ∷ []) 3164544308 ≡ 1392604398
unfolding hash hash_loop hash_tail decode_fixed32
hash_of_three = refl

hash_of_four : hash (225 ∷ 128 ∷ 185 ∷ 50 ∷ []) 3164544308 ≡ 3978388282
unfolding hash hash_loop hash_tail decode_fixed32
hash_of_four = refl

abbrev policy : BloomFilterPolicy
policy = record { bits_per_key = 10; k = 6 }

abbrev two_keys : List Bytes
two_keys = (104 ∷ 105 ∷ []) ∷ (119 ∷ 111 ∷ 114 ∷ 108 ∷ 100 ∷ []) ∷ []

filter_small : filter_bytes policy (length two_keys) ≤ 8
unfolding filter_bytes
filter_small = omega arith

policy_may_match-create_filter_example :
    All
      (λ key.
        policy_may_match key (drop 1 (create_filter policy two_keys (7 ∷ []) (replicate 8 0)))
        ≡ true)
      two_keys
policy_may_match-create_filter_example =
    policy_may_match-create_filter policy two_keys (7 ∷ []) (replicate 8 0) (omega arith)
      (omega arith) filter_small

abbrev builder : FullFilterBlockBuilder
builder = record { bits_per_key = 10; num_probes = 6; hash_entries = [] }

entries : length (add_each builder two_keys).hash_entries ≡ 2
unfolding add_key bloom_hash hash hash_loop hash_tail decode_fixed32
entries = refl

space : (calculate_space 10 2).0 ≡ 512
unfolding calculate_space total_bits_for_locality
space = refl

key_may_match-finish_filter_example :
    (r : FullFilterBlockReader) × (open_filter
        (finish_filter (add_each builder two_keys) (replicate 64 0))
      ≡ some r)
    × All (λ key. key_may_match r key ≡ true) two_keys
key_may_match-finish_filter_example =
    key_may_match-finish_filter builder two_keys (replicate 64 0) (omega arith) (omega arith)
      (omega (arith, entries)) (omega (arith, entries)) (rw (entries, space) (omega arith))
