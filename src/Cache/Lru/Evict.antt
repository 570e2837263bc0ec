-- ===== src/Cache/Lru/Evict.antt =====
-- util/cache.cc: the entries that no client uses leave the cache, the oldest first.
use d_lsm.Common.{
  ◌+◌, ◌<◌, take, ltb→lt, ℕ, zero, suc, ◌≡◌, ◌≤◌, refl, ap, sym, ◌∙◌, arith, false, ltb, Bool-cases,
  if◌then◌else◌,
}
use d_lsm.Common.{List, [], ◌∷◌, length, inl, inr, ◌⊎◌, drop}
use mathlib.Core.Path.{subst}
use d_lsm.Cache.{Heap}
use d_lsm.Cache.Lru.{LruCache, erase_key, evict, prune_loop, prune}
use d_lsm.Cache.Lru.Oldest.{IsLru, IsWithout, erase_oldest}
use d_lsm.Cache.Lru.Released.{charges, Finds, Finds-cons, charges-released}

-- Before the last of `k` entries was evicted, what was left was above the capacity.
abbrev pub IsNeeded : LruCache → ℕ → Type 0
IsNeeded c zero = Unit
IsNeeded c (suc j) = c.capacity + charges c.heap (take j c.lru) < c.usage

-- The second shard is the first without its `k` oldest entries, which are not found and whose charges
-- are not counted any more, and these are no more than was needed.
abbrev pub IsEvicted : LruCache → LruCache → ℕ → Type 0
IsEvicted c c' k =
    (c'.lru ≡ drop k c.lru)
    × (c'.usage + charges c.heap (take k c.lru) ≡ c.usage)
    × Finds c (take k c.lru) c'
    × IsNeeded c k
    × ((c'.usage ≤ c'.capacity) ⊎ (c'.lru ≡ []))
    × (c'.capacity ≡ c.capacity)
    × IsLru c'

within_capacity : (c : LruCache) → ltb c.capacity c.usage ≡ false → c.usage ≤ c.capacity
within_capacity c h = ground arith

evict_nil : (n : ℕ) (c : LruCache) → c.lru ≡ [] → evict (suc n) c ≡ c
unfolding evict
evict_nil n c e =
    let round : List ℕ → LruCache = λ l. elim l [
      | [] ↦ c
      | o ∷ l' ↦
          if ltb c.capacity c.usage then evict n (erase_key (c.heap o).key (c.heap o).hash c) else c
    ] in
    ap round e

evict_cons :
    (n : ℕ) (c : LruCache) (old : ℕ) (lru : List ℕ)
    → c.lru ≡ old ∷ lru
    → evict (suc n) c ≡ (
        if ltb c.capacity c.usage
        then evict n (erase_key (c.heap old).key (c.heap old).hash c)
        else c)
unfolding evict
evict_cons n c old lru e =
    let round : List ℕ → LruCache = λ l. elim l [
      | [] ↦ c
      | o ∷ l' ↦
          if ltb c.capacity c.usage then evict n (erase_key (c.heap o).key (c.heap o).hash c) else c
    ] in
    ap round e

no_eviction :
    (c : LruCache) → ((c.usage ≤ c.capacity) ⊎ (c.lru ≡ [])) → IsLru c → (k : ℕ) × IsEvicted c c k
no_eviction c done ok = (0, (refl, omega arith, λ key hash. refl, tt, done, refl, ok))

module _ (c c1 : LruCache) (old : ℕ) (lru : List ℕ) where
  -- The charges of the oldest entries, the first of which was evicted.
  charges-take :
      (k : ℕ)
      → c.lru ≡ old ∷ lru
      → IsWithout c old lru c1
      → charges c.heap (take (suc k) c.lru) ≡ (c.heap old).charge + charges c1.heap (take k c1.lru)
  charges-take k e (lru_eq, capacity_eq, usage_eq, heap_eq, finds, ok) =
      let same : charges c1.heap (take k c1.lru) ≡ charges c.heap (take k lru) =
        ap (λ (h : Heap). charges h (take k c1.lru)) heap_eq
        ∙ charges-released old c.heap (take k c1.lru)
        ∙ ap (λ (l : List ℕ). charges c.heap (take k l)) lru_eq in
      ap (λ (l : List ℕ). charges c.heap (take (suc k) l)) e
      ∙ ap (λ (n : ℕ). (c.heap old).charge + n) (sym same)

  IsNeeded-suc :
      (k : ℕ)
      → c.lru ≡ old ∷ lru
      → c.capacity < c.usage
      → IsWithout c old lru c1
      → IsNeeded c1 k
      → IsNeeded c (suc k)
  IsNeeded-suc zero e over without needed = omega arith
  IsNeeded-suc (suc j) e over without needed =
      let (lru_eq, capacity_eq, usage_eq, heap_eq, finds, ok) = without in
      omega (arith, charges-take j e without, needed, capacity_eq, usage_eq)

  IsEvicted-suc :
      (c' : LruCache) (k : ℕ)
      → c.lru ≡ old ∷ lru
      → c.capacity < c.usage
      → IsWithout c old lru c1
      → IsEvicted c1 c' k
      → IsEvicted c c' (suc k)
  IsEvicted-suc c' k e over without (rest, usage', finds', needed, done, capacity', ok') =
      let (lru_eq, capacity_eq, usage_eq, heap_eq, finds, ok) = without in
      (
        rest ∙ ap (drop k) lru_eq ∙ ap (drop (suc k)) (sym e),
        omega (arith, charges-take k e without, usage', usage_eq),
        subst (λ (l : List ℕ). Finds c l c')
            (ap (λ (l : List ℕ). old ∷ take k l) lru_eq ∙ ap (take (suc k)) (sym e))
            (Finds-cons c c1 c' old (take k c1.lru) heap_eq finds finds'),
        IsNeeded-suc k e over without needed,
        done,
        capacity' ∙ capacity_eq,
        ok',
      )

evict_list :
    (n : ℕ) (c : LruCache) (l : List ℕ)
    → c.lru ≡ l
    → length l ≤ n
    → IsLru c
    → (k : ℕ) × IsEvicted c (evict n c) k
unfolding evict
evict_list zero c [] e fits ok = no_eviction c (inr e) ok
evict_list zero c (old ∷ lru) e fits ok = absurd (omega arith)
evict_list (suc n) c [] e fits ok =
    subst (λ x. (k : ℕ) × IsEvicted c x k) (sym (evict_nil n c e)) (no_eviction c (inr e) ok)
evict_list (suc n) c (old ∷ lru) e fits ok =
    let c1 = erase_key (c.heap old).key (c.heap old).hash c in
    let without = erase_oldest c old lru e ok in
    let (lru_eq, capacity_eq, usage_eq, heap_eq, finds, ok1) = without in
    let (k, evicted) = evict_list n c1 lru lru_eq (omega arith) ok1 in
    elim (Bool-cases (ltb c.capacity c.usage)) [
      | inl over ↦
          let more : c.capacity < c.usage = ltb→lt c.capacity c.usage over in
          subst (λ x. (k' : ℕ) × IsEvicted c x k')
            (sym (evict_cons n c old lru e ∙ ap (λ b. if b then evict n c1 else c) over))
            (suc k, IsEvicted-suc c c1 old lru (evict n c1) k e more without evicted)
      | inr fitting ↦
          subst (λ x. (k' : ℕ) × IsEvicted c x k')
            (sym (evict_cons n c old lru e ∙ ap (λ b. if b then evict n c1 else c) fitting))
            (no_eviction c (inl (within_capacity c fitting)) ok)
    ]

-- In a shard whose table is consistent and finds each entry of the list of unused ones, where it stands
-- once, has one reference and is counted in the usage, the loop of `Insert`, with a round for each entry
-- of that list, evicts some number of entries from the old end of the list, takes their charges off the
-- usage, and keeps the capacity. A lookup finds none of them any more, and for other keys and hashes
-- what it found before. It ends with the usage within the capacity or with an empty list, before
-- the last eviction the usage was above the capacity, and what it leaves is such a shard.
pub evict_lem : (c : LruCache) → IsLru c → (k : ℕ) × IsEvicted c (evict (length c.lru) c) k
evict_lem c ok = evict_list (length c.lru) c c.lru refl (omega arith) ok

prune_list :
    (n : ℕ) (c : LruCache) (l : List ℕ)
    → c.lru ≡ l
    → length l ≤ n
    → IsLru c
    → ((prune_loop n c).lru ≡ []) × IsLru (prune_loop n c)
unfolding prune_loop
prune_list zero c [] e fits ok = (e, ok)
prune_list zero c (old ∷ lru) e fits ok = absurd (omega arith)
prune_list (suc n) c [] e fits ok = rw (prune_loop, e) (e, ok)
prune_list (suc n) c (old ∷ lru) e fits ok =
    let (lru_eq, capacity_eq, usage_eq, heap_eq, finds, ok1) = erase_oldest c old lru e ok in
    rw (prune_loop, e)
      (prune_list n (erase_key (c.heap old).key (c.heap old).hash c) lru lru_eq (omega arith) ok1)

-- `Prune` takes every unused entry out.
prune_lem : (c : LruCache) → IsLru c → ((prune c).lru ≡ []) × IsLru (prune c)
unfolding prune
prune_lem c ok = prune_list (length c.lru) c c.lru refl (omega arith) ok
