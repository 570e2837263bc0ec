-- ===== src/Cache/Remove.antt =====
-- util/cache.cc: `HandleTable` forgets an entry, and no other.
use d_lsm.Common.{
  ℕ, ◌+◌, ◌-◌, ◌%◌, ◌^◌, ◌≡◌, refl, ap, sym, ◌∙◌, arith, Bool, true, false, ◌==◌, ◌&&◌, Bool-cases,
  if◌then◌else◌,
}
use d_lsm.Common.{Option, none, List, [], ◌∷◌, ◌++◌, inl, inr}
use d_lsm.Coding.{Bytes}
use d_lsm.Cache.{Heap, HandleTable, matches, bucket_of, deref, find_pointer}
use d_lsm.Cache.{table_lookup, table_remove, remove_at}
use d_lsm.Cache.{slice_eq}
use d_lsm.Cache.Chains.{
  slice_eq_refl, slice_eq→eq, cut, deref-find_pointer, matches→eq, find-cut, find-cut_other,
}
use d_lsm.Cache.Chains.{cut-HasDistinctKeys, cut-All}
use d_lsm.Cache.Table.{
  IsConsistent, with_chain, with_chain-IsConsistent, table_lookup-find, rest_of,
}

module _ (heap : Heap) where
  -- What `Remove` makes of it.
  find_pointer-cut :
      (key : Bytes) (hash : ℕ) (chain : List ℕ)
      → (let place = find_pointer heap key hash chain in
          place.0 ++ rest_of place.1 ≡ cut heap key hash chain)
  unfolding find_pointer
  find_pointer-cut key hash [] = refl
  find_pointer-cut key hash (p ∷ chain) = ground (arith, find_pointer-cut key hash chain)

  -- The test of `FindPointer` on two keys.
  abbrev pub same_key : Bytes → ℕ → Bytes → ℕ → Bool
  same_key key hash key' hash' = (hash == hash') && slice_eq key key'

  pub same_key→eq :
      (key : Bytes) (hash : ℕ) (key' : Bytes) (hash' : ℕ)
      → same_key key hash key' hash' ≡ true
      → (key ≡ key') × (hash ≡ hash')
  same_key→eq key hash key' hash' e = ground (arith, slice_eq→eq key key')

  same_key-apart :
      (key : Bytes) (hash : ℕ) (key' : Bytes) (hash' : ℕ)
      → same_key key hash key' hash' ≡ false
      → (p : ℕ) → matches heap key hash p ≡ true
      → matches heap key' hash' p ≡ false
  same_key-apart key hash key' hash' apart p yes_p = elim (Bool-cases (matches heap key' hash' p)) [
    | inl yes_p' ↦
        let (k, h) = matches→eq heap key hash p yes_p in
        let (k', h') = matches→eq heap key' hash' p yes_p' in
        let keys : slice_eq key key' ≡ true = rw (k, k') (slice_eq_refl (heap p).key) in
        let hashes : hash ≡ hash' = h ∙ sym h' in absurd (ground arith)
    | inr no_p ↦ no_p
  ]

  -- What a removal promises of the old table and the result.
  abbrev pub Removed : HandleTable → Bytes → ℕ → HandleTable × Option ℕ → Type 0
  Removed t key hash (t', taken) =
      IsConsistent heap t'
      × (taken ≡ table_lookup heap t key hash)
      × ((key' : Bytes) (hash' : ℕ)
          → table_lookup heap t' key' hash'
            ≡ (if same_key key hash key' hash' then none else table_lookup heap t key' hash'))

  lookup-cut :
      (t : HandleTable) (key : Bytes) (hash elems : ℕ) (key' : Bytes) (hash' : ℕ)
      → IsConsistent heap t
      → (let i = bucket_of hash t.table_length in
          table_lookup heap (with_chain heap t i (cut heap key hash (t.list i)) elems) key' hash'
          ≡ (if same_key key hash key' hash' then none else table_lookup heap t key' hash'))
  lookup-cut t key hash elems key' hash' ok =
      let i = bucket_of hash t.table_length in
      let j = bucket_of hash' t.table_length in
      table_lookup-find heap (with_chain heap t i (cut heap key hash (t.list i)) elems) key' hash'
      ∙ rw (table_lookup-find heap t key' hash') (elim (Bool-cases (same_key key hash key' hash')) [
        | inl same ↦
            let (keys, hashes) = same_key→eq key hash key' hash' same in
            let here : j ≡ i = ap (λ (x : ℕ). bucket_of x t.table_length) (sym hashes) in
            let same_bucket : (j == i) ≡ true = ground arith in
            rw (same, same_bucket, ← keys, ← hashes)
              (find-cut heap key hash (t.list i) (ok.distinct i))
        | inr apart ↦ elim (Bool-cases (j == i)) [
          | inl same_bucket ↦
              let here : i ≡ j = ground arith in
              rw (apart, same_bucket, here)
                (find-cut_other heap key hash key' hash' (t.list j)
                  (same_key-apart key hash key' hash' apart))
          | inr other ↦ rw (apart, other) refl
        ]
      ])

  remove_at_lem :
      (t : HandleTable) (key : Bytes) (hash : ℕ) (before found : List ℕ)
      → IsConsistent heap t
      → (let i = bucket_of hash t.table_length in
          before ++ rest_of found ≡ cut heap key hash (t.list i))
      → deref found ≡ table_lookup heap t key hash
      → Removed t key hash (remove_at t (bucket_of hash t.table_length) before found)
  unfolding remove_at
  remove_at_lem t key hash before [] ok same taken = (
    ok,
    taken,
    λ key' hash'. elim (Bool-cases (same_key key hash key' hash')) [
      | inl yes_same ↦
          let (keys, hashes) = same_key→eq key hash key' hash' yes_same in
          rw (yes_same, ← keys, ← hashes) (sym taken)
      | inr apart ↦ rw apart refl
    ],
  )
  remove_at_lem t key hash before (p ∷ found) ok same taken =
      let i = bucket_of hash t.table_length in
      let elems = (t.elems + (2 ^ 32 - 1)) % 2 ^ 32 in
      rw same (
        with_chain-IsConsistent heap t i (cut heap key hash (t.list i)) elems ok
            (cut-All heap (λ p. bucket_of (heap p).hash t.table_length ≡ i) key hash (t.list i)
              (ok.home i))
            (cut-HasDistinctKeys heap key hash (t.list i) (ok.distinct i)),
        taken,
        λ key' hash'. lookup-cut t key hash elems key' hash' ok,
      )

  -- In a table with each entry in the bucket of its hash and no two entries with the same key, `Remove`
  -- returns the entry that the table had for the key. The new table is such a table, has none for that key
  -- and hash, and what it had for every other.
  pub table_remove_lem :
      (t : HandleTable) (key : Bytes) (hash : ℕ)
      → IsConsistent heap t
      → Removed t key hash (table_remove heap t key hash)
  unfolding table_remove
  table_remove_lem t key hash ok =
      let chain = t.list (bucket_of hash t.table_length) in
      let place = find_pointer heap key hash chain in
      remove_at_lem t key hash place.0 place.1 ok (find_pointer-cut key hash chain)
        (deref-find_pointer heap key hash chain ∙ sym (table_lookup-find heap t key hash))
