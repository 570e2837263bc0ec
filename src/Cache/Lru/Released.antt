-- ===== src/Cache/Lru/Released.antt =====
-- util/cache.cc: the heap of a shard, and what its table finds, when entries have left the cache.
use d_lsm.Common.{
  Bool, ◌+◌, ℕ, ◌-◌, ◌≡◌, refl, ap, ◌∙◌, arith, true, false, ◌==◌, Bool-cases, if◌then◌else◌,
}
use d_lsm.Common.{Option, none, List, [], ◌∷◌, inl, inr}
use d_lsm.Coding.{Bytes}
use d_lsm.Cache.{Heap, table_lookup}
use d_lsm.Cache.Remove.{same_key}
use d_lsm.Cache.Lru.{LruCache, set_entry}

-- The charges of some entries together.
abbrev pub charges : Heap → List ℕ → ℕ
charges heap [] = 0
charges heap (p ∷ ps) = (heap p).charge + charges heap ps

-- The heap after an entry has left the cache.
abbrev pub released : ℕ → Heap → Heap
released old heap =
    let h1 = set_entry old (record (heap old) { in_cache = false }) heap in
    set_entry old (record (h1 old) { refs = (h1 old).refs - 1 }) h1

pub released_keys :
    (old : ℕ) (heap : Heap) (p : ℕ)
    → ((released old heap p).key ≡ (heap p).key) × ((released old heap p).hash ≡ (heap p).hash)
released_keys old heap p =
    let self : (old == old) ≡ true = ground arith in
    elim (Bool-cases (p == old)) [
      | inl same ↦ let here : p ≡ old = ground arith in rw (same, self, here) (refl, refl)
      | inr other ↦ rw other (refl, refl)
    ]

pub charges-released :
    (old : ℕ) (heap : Heap) (ps : List ℕ) → charges (released old heap) ps ≡ charges heap ps
charges-released old heap [] = refl
charges-released old heap (p ∷ ps) =
    let self : (old == old) ≡ true = ground arith in
    let same : (released old heap p).charge ≡ (heap p).charge = elim (Bool-cases (p == old)) [
      | inl here ↦ let equal : p ≡ old = ground arith in rw (here, self, equal) refl
      | inr other ↦ rw other refl
    ] in
    rw (charges-released old heap ps) (ap (λ (n : ℕ). n + charges heap ps) same)

pub released_other :
    (old : ℕ) (heap : Heap) (p : ℕ) → (p == old) ≡ false → released old heap p ≡ heap p
released_other old heap p other = rw other refl

-- What is found for a key when these entries have left the table, where `found` was there before.
abbrev pub without_keys : Heap → List ℕ → Bytes → ℕ → Option ℕ → Option ℕ
without_keys heap [] key hash found = found
without_keys heap (p ∷ ps) key hash found =
    let rest = without_keys heap ps key hash found in
    if same_key heap (heap p).key (heap p).hash key hash then none else rest

without_keys-released :
    (old : ℕ) (heap : Heap) (ps : List ℕ) (key : Bytes) (hash : ℕ) (found : Option ℕ)
    → without_keys (released old heap) ps key hash found ≡ without_keys heap ps key hash found
without_keys-released old heap [] key hash found = refl
without_keys-released old heap (p ∷ ps) key hash found =
    let (keys, hashes) = released_keys old heap p in
    ap
      (λ o.
        if same_key heap (released old heap p).key (released old heap p).hash key hash
        then none
        else o)
      (without_keys-released old heap ps key hash found)
    ∙ ap
        (λ k.
          if same_key heap k (released old heap p).hash key hash
          then none
          else without_keys heap ps key hash found)
        keys
    ∙ ap
        (λ n.
          if same_key heap (heap p).key n key hash
          then none
          else without_keys heap ps key hash found)
        hashes

without_keys_if :
    (heap : Heap) (ps : List ℕ) (key : Bytes) (hash : ℕ) (b : Bool) (found : Option ℕ)
    → without_keys heap ps key hash (if b then none else found)
      ≡ (if b then none else without_keys heap ps key hash found)
without_keys_if heap [] key hash b found = refl
without_keys_if heap (p ∷ ps) key hash true found =
    ground (arith, without_keys_if heap ps key hash true found)
without_keys_if heap (p ∷ ps) key hash false found = refl

-- For each key, the second shard finds what the first one does, less what these entries are found by.
abbrev pub Finds : LruCache → List ℕ → LruCache → Type 0
Finds c gone c' =
    (key : Bytes) (hash : ℕ)
    → table_lookup c'.heap c'.table key hash
      ≡ without_keys c.heap gone key hash (table_lookup c.heap c.table key hash)

pub Finds-cons :
    (c c1 c' : LruCache) (old : ℕ) (ps : List ℕ)
    → c1.heap ≡ released old c.heap
    → Finds c (old ∷ []) c1
    → Finds c1 ps c'
    → Finds c (old ∷ ps) c'
Finds-cons c c1 c' old ps heap_eq first later key hash =
    later key hash
    ∙ ap (λ h. without_keys h ps key hash (table_lookup c1.heap c1.table key hash)) heap_eq
    ∙ without_keys-released old c.heap ps key hash (table_lookup c1.heap c1.table key hash)
    ∙ ap (without_keys c.heap ps key hash) (first key hash)
    ∙ without_keys_if c.heap ps key hash
        (same_key c.heap (c.heap old).key (c.heap old).hash key hash)
        (table_lookup c.heap c.table key hash)
