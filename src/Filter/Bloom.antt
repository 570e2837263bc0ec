-- ===== src/Filter/Bloom.antt =====
-- `BloomFilterPolicy` has no false negatives.
use d_lsm.Common.{ℕ, ◌+◌, ◌-◌, ◌*◌, ◌/◌, ◌%◌, ◌^◌, ◌≤◌, ◌<◌, ◌≡◌, refl, ◌∙◌, arith}
use d_lsm.Common.{true, le→ltb}
use d_lsm.Common.{
  All-map, List, [], ◌∷◌, ◌++◌, All, take, drop, length, length-append, length-take,
  drop-append_self,
}
use d_lsm.Coding.{Bytes, byte_at, to_byte}
use d_lsm.Filter.{bloom_hash, rotate, set_probes, BloomFilterPolicy, filter_bytes}
use d_lsm.Filter.{add_keys, create_filter, policy_may_match}
use d_lsm.Filter.Probes.{Probed, test_probes-Probed, length-set_probes, set_probes-Probed}
use native.Mathlib.Nat.{mod-lt, mod-eq_of_lt}
use d_lsm.Filter.Probes.{Probed-set_probes, Probed-append}

pub byte_at-append : (xs ys : Bytes) (y : ℕ) → byte_at (xs ++ y ∷ ys) (length xs) ≡ y
byte_at-append [] ys y = refl
byte_at-append (x ∷ xs) ys y = byte_at-append xs ys y

module _ (policy : BloomFilterPolicy) (bits : ℕ) where
  -- The probes of a key.
  abbrev Found : Bytes → Bytes → Type 0
  Found array key = let h = bloom_hash key in Probed (λ v. v % bits) 0 (rotate h) policy.k h array

  length-add_keys :
      (keys : List Bytes) (array : Bytes) → length (add_keys policy bits keys array) ≡ length array
  unfolding add_keys
  length-add_keys [] array = refl
  length-add_keys (key ∷ keys) array =
      let h = bloom_hash key in
      length-add_keys keys _ ∙ length-set_probes (λ v. v % bits) 0 (rotate h) policy.k h array

  Found-add_keys :
      (keys : List Bytes) (array key : Bytes)
      → Found array key
      → Found (add_keys policy bits keys array) key
  unfolding add_keys
  Found-add_keys [] array key found = found
  Found-add_keys (other ∷ keys) array key found =
      let h = bloom_hash key in
      let h' = bloom_hash other in
      Found-add_keys keys _ key (
        Probed-set_probes (λ v. v % bits) 0 (rotate h) (λ v. v % bits) 0 (rotate h') policy.k h
          array policy.k h' found)

  add_keys-Found :
      (keys : List Bytes) (array : Bytes)
      → 0 < bits
      → bits ≡ length array * 8
      → All (Found (add_keys policy bits keys array)) keys
  unfolding add_keys
  add_keys-Found [] array hb hl = tt
  add_keys-Found (key ∷ keys) array hb hl =
      let h = bloom_hash key in
      let marked = set_probes (λ v. v % bits) 0 (rotate h) policy.k h array in
      let same = length-set_probes (λ v. v % bits) 0 (rotate h) policy.k h array in
      let fits : (v : ℕ) → 0 + v % bits / 8 < length array = λ v. omega (arith, hl, mod-lt v hb) in
      (
        Found-add_keys keys marked key
            (set_probes-Probed (λ v. v % bits) 0 (rotate h) policy.k h array fits),
        add_keys-Found keys marked hb (omega (arith, hl, same)),
      )

policy_may_match-Found :
    (policy : BloomFilterPolicy) (array key : Bytes)
    → 1 ≤ length array
    → policy.k ≤ 30
    → Found policy (length array * 8) array key
    → policy_may_match key (array ++ to_byte policy.k ∷ []) ≡ true
unfolding policy_may_match
policy_may_match-Found policy array key ha hk found =
    let tail = to_byte policy.k ∷ [] in
    let h = bloom_hash key in
    let size : length (array ++ tail) ≡ length array + 1 = length-append array tail in
    let last : length array + 1 - 1 ≡ length array = omega arith in
    let small : to_byte policy.k ≡ policy.k = mod-eq_of_lt (omega arith) in
    rw (size, last, byte_at-append array [] (to_byte policy.k))
      (rw (le→ltb (length array + 1) 2 (omega arith), small, le→ltb 30 policy.k hk)
        (test_probes-Probed (λ v. v % (length array * 8)) 0 (rotate h) policy.k h
          (array ++ policy.k ∷ [])
          (Probed-append (λ v. v % (length array * 8)) 0 (rotate h) policy.k h array (policy.k ∷ [])
            found)))

-- The filter that `CreateFilter` appends for some keys matches each of them, whatever the buffer
-- held before.
pub policy_may_match-create_filter :
    (policy : BloomFilterPolicy) (keys : List Bytes) (dst memory : Bytes)
    → policy.k ≤ 30
    → length keys * policy.bits_per_key < 2 ^ 64
    → filter_bytes policy (length keys) ≤ length memory
    → All
        (λ key.
          policy_may_match key (drop (length dst) (create_filter policy keys dst memory)) ≡ true)
        keys
unfolding create_filter
policy_may_match-create_filter policy keys dst memory hk hn hm =
    let bytes = filter_bytes policy (length keys) in
    let start = take bytes memory in
    let array = add_keys policy (bytes * 8) keys start in
    let big : 8 ≤ bytes = unfold filter_bytes in ground arith in
    let size : length array ≡ bytes =
      length-add_keys policy (bytes * 8) keys start ∙ length-take bytes memory hm in
    All-map
      {Q = λ (key : Bytes).
        policy_may_match key (drop (length dst) (dst ++ (array ++ to_byte policy.k ∷ []))) ≡ true}
      (λ key found.
        rw (drop-append_self dst (array ++ to_byte policy.k ∷ []))
          (policy_may_match-Found policy array key (omega (arith, size, big)) hk (rw size found)))
      keys
      (add_keys-Found policy (bytes * 8) keys start (omega (arith, big))
        (omega (arith, length-take bytes memory hm)))
