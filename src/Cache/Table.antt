-- ===== src/Cache/Table.antt =====
-- util/cache.cc: `HandleTable` is a map from keys to entries, through its resizings.
use d_lsm.Common.{
  ℕ, zero, suc, ◌+◌, ◌-◌, ◌*◌, ◌%◌, ◌^◌, ◌≡◌, ◌≤◌, ◌<◌, refl, ap, sym, ◌∙◌, arith, true, ◌==◌, ltb,
  lt→ltb, le→ltb, Bool-cases, if◌then◌else◌,
}
use d_lsm.Common.{Option, some, none, List, [], ◌∷◌, ◌++◌, All, inl, inr}
use native.Mathlib.Nat.{pow-suc, one-le-pow}
use mathlib.Core.Path.{subst}
use d_lsm.Common.Bits.{bit_and_le}
use d_lsm.Coding.{Bytes}
use d_lsm.Cache.{Heap, HandleTable, matches, set_bucket, bucket_of, deref, find_pointer}
use d_lsm.Cache.{
  table_lookup, table_insert, insert_at, resize, new_table, new_length_loop, move_buckets,
}
use d_lsm.Cache.Chains.{find, put, deref-find_pointer, matches→eq, HasDistinctKeys, find-put}
use d_lsm.Cache.Chains.{put-HasDistinctKeys, put-All}
use d_lsm.Cache.Resize.{IsHome, AreDistinct, move_buckets-AreMoved, set_bucket_lem}

-- What follows the place that was found.
abbrev pub rest_of : List ℕ → List ℕ
rest_of [] = []
rest_of (p ∷ chain) = chain

-- The doubling ends, without wrap-around, at a length that is enough.
new_length_loop_lem :
    (n k elems : ℕ)
    → elems ≤ 2 ^ 31
    → elems ≤ 2 ^ (k + n)
    → (elems ≤ new_length_loop n elems (2 ^ k)) × (0 < new_length_loop n elems (2 ^ k))
unfolding new_length_loop
new_length_loop_lem zero k elems fits enough =
    let same : k ≡ k + 0 = omega arith in
    (subst (λ (x : ℕ). elems ≤ 2 ^ x) (sym same) enough, one-le-pow k 2 (omega arith))
new_length_loop_lem (suc n) k elems fits enough = elim (Bool-cases (ltb (2 ^ k) elems)) [
  | inl yes_less ↦
      let moved : k + suc n ≡ suc k + n = omega arith in
      let same : 2 ^ k * 2 % 2 ^ 32 ≡ 2 ^ suc k = ground (arith, pow-suc 2 k) in
      rw (yes_less, same)
        (new_length_loop_lem n (suc k) elems fits (subst (λ (x : ℕ). elems ≤ 2 ^ x) moved enough))
  | inr not_less ↦ rw not_less (ground arith, one-le-pow k 2 (omega arith))
]

pub bucket_of_lt : (hash length : ℕ) → 0 < length → bucket_of hash length < length
bucket_of_lt hash length pos = omega (arith, bit_and_le hash (length - 1))

module _ (heap : Heap) where
  -- Entries stand in the buckets of their hashes, and no two have the same key.
  pub record IsConsistent (t : HandleTable) : Type 0 where
    pub positive : 0 < t.table_length
    pub home : IsHome heap t.table_length t.list
    pub distinct : AreDistinct heap t.list

  pub table_lookup-find :
      (t : HandleTable) (key : Bytes) (hash : ℕ)
      → table_lookup heap t key hash ≡ find heap key hash (t.list (bucket_of hash t.table_length))
  unfolding table_lookup
  table_lookup-find t key hash = deref-find_pointer heap key hash _

  resize_lem :
      (t : HandleTable)
      → IsConsistent t
      → t.elems ≤ 2 ^ 31
      → IsConsistent (resize heap t)
        × ((resize heap t).elems ≤ (resize heap t).table_length)
        × ((key : Bytes) (hash : ℕ)
            → table_lookup heap (resize heap t) key hash ≡ table_lookup heap t key hash)
  unfolding resize
  resize_lem t h fits =
      let (enough, positive) = new_length_loop_lem 32 2 t.elems fits (omega arith) in
      let length = new_length_loop 32 t.elems 4 in
      let moved =
        move_buckets-AreMoved heap t.table_length length t.table_length 0 t.list (λ i. []) h.home
          h.distinct
          (record {
            found = λ key hash. rw (le→ltb (bucket_of hash t.table_length) 0 (omega arith)) refl;
            distinct = λ i. tt;
            home = λ i. tt;
          }) in
      (
        record { positive = positive; home = moved.home; distinct = moved.distinct },
        enough,
        λ key hash.
            let j = bucket_of hash t.table_length in
            let all : ltb j (0 + t.table_length) ≡ true =
              lt→ltb j (0 + t.table_length)
                (omega (arith, bucket_of_lt hash t.table_length h.positive)) in
            table_lookup-find (resize heap t) key hash
            ∙ moved.found key hash
            ∙ ap (λ b. if b then find heap key hash (t.list j) else none) all
            ∙ sym (table_lookup-find t key hash),
      )

  -- The table with another chain in one bucket.
  abbrev pub with_chain : HandleTable → ℕ → List ℕ → ℕ → HandleTable
  with_chain t i chain elems = record t { list = set_bucket i chain t.list; elems = elems }

  pub with_chain-IsConsistent :
      (t : HandleTable) (i : ℕ) (chain : List ℕ) (elems : ℕ)
      → IsConsistent t
      → All (λ p. bucket_of (heap p).hash t.table_length ≡ i) chain
      → HasDistinctKeys heap chain
      → IsConsistent (with_chain t i chain elems)
  with_chain-IsConsistent t i chain elems h home distinct = record {
    positive = h.positive;
    home =
        set_bucket_lem (λ j. All (λ p. bucket_of (heap p).hash t.table_length ≡ j)) i chain t.list
          home h.home;
    distinct = set_bucket_lem (λ j. HasDistinctKeys heap) i chain t.list distinct h.distinct;
  }

  lookup-put :
      (t : HandleTable) (h elems : ℕ) (key : Bytes) (hash : ℕ)
      → (let i = bucket_of (heap h).hash t.table_length in
          table_lookup heap (with_chain t i (put heap h (t.list i)) elems) key hash
          ≡ (if matches heap key hash h then some h else table_lookup heap t key hash))
  lookup-put t h elems key hash =
      let i = bucket_of (heap h).hash t.table_length in
      let j = bucket_of hash t.table_length in
      let t' = with_chain t i (put heap h (t.list i)) elems in
      table_lookup-find t' key hash
      ∙ rw (table_lookup-find t key hash) (elim (Bool-cases (j == i)) [
        | inl same ↦
            let here : j ≡ i = ground arith in rw (same, here) (find-put heap key hash h (t.list i))
        | inr apart ↦ elim (Bool-cases (matches heap key hash h)) [
          | inl yes_h ↦
              let (same_key, same_hash) = matches→eq heap key hash h yes_h in
              let here : j ≡ i = ap (λ (x : ℕ). bucket_of x t.table_length) same_hash in
              absurd (ground arith)
          | inr no_h ↦ rw (apart, no_h) refl
        ]
      ])

  -- What `Insert` makes of the chain of its bucket.
  find_pointer-put :
      (h : ℕ) (chain : List ℕ)
      → (let place = find_pointer heap (heap h).key (heap h).hash chain in
          place.0 ++ h ∷ rest_of place.1 ≡ put heap h chain)
  unfolding find_pointer
  find_pointer-put h [] = refl
  find_pointer-put h (p ∷ chain) = ground (arith, find_pointer-put h chain)

  -- Besides, there are not more entries than buckets.
  abbrev pub IsTable : HandleTable → Type 0
  IsTable t = IsConsistent t × (t.elems ≤ t.table_length)

  put-IsConsistent :
      (t : HandleTable) (h elems : ℕ)
      → IsConsistent t
      → (let i = bucket_of (heap h).hash t.table_length in
          IsConsistent (with_chain t i (put heap h (t.list i)) elems))
  put-IsConsistent t h elems ok =
      let i = bucket_of (heap h).hash t.table_length in
      with_chain-IsConsistent t i (put heap h (t.list i)) elems ok
        (put-All heap (λ p. bucket_of (heap p).hash t.table_length ≡ i) h (t.list i) refl
          (ok.home i))
        (put-HasDistinctKeys heap h (t.list i) (ok.distinct i))

  -- What an insertion promises of the old table and the result.
  abbrev pub Inserted : HandleTable → ℕ → HandleTable × Option ℕ → Type 0
  Inserted t h (t', old) =
      IsTable t'
      × (old ≡ table_lookup heap t (heap h).key (heap h).hash)
      × ((key : Bytes) (hash : ℕ)
          → table_lookup heap t' key hash
            ≡ (if matches heap key hash h then some h else table_lookup heap t key hash))

  insert_at_lem :
      (t : HandleTable) (h : ℕ) (before found : List ℕ)
      → IsTable t
      → t.elems < 2 ^ 31
      → (let i = bucket_of (heap h).hash t.table_length in
          before ++ h ∷ rest_of found ≡ put heap h (t.list i))
      → deref found ≡ table_lookup heap t (heap h).key (heap h).hash
      → Inserted t h (insert_at heap t h before found)
  unfolding insert_at
  insert_at_lem t h before [] (ok, load) fits same old =
      let i = bucket_of (heap h).hash t.table_length in
      let elems = (t.elems + 1) % 2 ^ 32 in
      let t' = with_chain t i (put heap h (t.list i)) elems in
      let few : elems ≤ 2 ^ 31 = omega arith in
      let t'-ok : IsConsistent t' = put-IsConsistent t h elems ok in
      let (resized, enough, found) = resize_lem t' t'-ok few in
      rw same (elim (Bool-cases (ltb t.table_length elems)) [
        | inl full ↦
            rw full
              ((resized, enough), old, λ key hash. found key hash ∙ lookup-put t h elems key hash)
        | inr room ↦ rw room ((t'-ok, ground arith), old, lookup-put t h elems)
      ])
  insert_at_lem t h before (p ∷ found) (ok, load) fits same old =
      rw same ((put-IsConsistent t h t.elems ok, load), old, lookup-put t h t.elems)

  -- In a table with each entry in the bucket of its hash, no two entries with the same key, and a count
  -- of entries that is below 2^31 and not above the number of buckets, `Insert` returns the entry that the
  -- table had for the key. The new table finds the new entry for its key and hash, and what was found
  -- before for every other; it is such a table again, but for the bound of 2^31, also where `Resize` moves
  -- the entries.
  pub table_insert_lem :
      (t : HandleTable) (h : ℕ)
      → IsTable t
      → t.elems < 2 ^ 31
      → Inserted t h (table_insert heap t h)
  unfolding table_insert
  table_insert_lem t h ok fits =
      let key = (heap h).key in
      let chain = t.list (bucket_of (heap h).hash t.table_length) in
      let place = find_pointer heap key (heap h).hash chain in
      insert_at_lem t h place.0 place.1 ok fits (find_pointer-put h chain) (
        deref-find_pointer heap key (heap h).hash chain
        ∙ sym (table_lookup-find t key (heap h).hash))

  -- An empty table of four buckets is one.
  pub new_table-IsTable : IsTable (new_table heap)
  unfolding new_table resize new_length_loop move_buckets
  new_table-IsTable =
      (record { positive = omega arith; home = λ i. tt; distinct = λ i. tt }, omega arith)
