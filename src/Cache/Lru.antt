-- ===== src/Cache/Lru.antt =====
-- util/cache.cc: `LRUCache`, one shard of the cache.
-- Its two circular lists are lists of pointers, the oldest first, and `freed` holds the entries that were
-- passed to their deleters and freed.
pub mod Keys
pub mod Released
pub mod Oldest
pub mod Evict
use d_lsm.Common.{ℕ, zero, suc, ◌+◌, ◌-◌, ◌%◌, ◌^◌, Bool, true, false, not, ◌&&◌, ◌==◌, ltb}
use d_lsm.Common.{Option, some, none, List, [], ◌∷◌, ◌++◌, length, if◌then◌else◌}
use d_lsm.Coding.{Bytes}
use d_lsm.Cache.{LruHandle, Heap, HandleTable, table_lookup, table_insert, table_remove}

pub record LruCache : Type 0 where
  pub capacity : ℕ
  pub usage : ℕ
  pub lru : List ℕ
  pub in_use : List ℕ
  pub table : HandleTable
  pub heap : Heap
  pub freed : List ℕ

-- `e->refs = n` and the like.
abbrev pub set_entry : ℕ → LruHandle → Heap → Heap
set_entry e h heap p = if p == e then h else heap p

abbrev pub set_refs : ℕ → ℕ → LruCache → LruCache
set_refs e n c = record c { heap = set_entry e (record (c.heap e) { refs = n }) c.heap }

-- A list without a pointer, which stands in it at most once.
abbrev pub unlink : ℕ → List ℕ → List ℕ
unlink e [] = []
unlink e (p ∷ ps) = let rest = unlink e ps in if p == e then ps else p ∷ rest

-- `LRU_Remove`, from the list where the entry is.
unfoldable pub lru_remove : ℕ → LruCache → LruCache
lru_remove e c = record c { lru = unlink e c.lru; in_use = unlink e c.in_use }

-- `Ref`
unfoldable pub ref : ℕ → LruCache → LruCache
unfolding lru_remove
ref e c =
    let on_lru = ((c.heap e).refs == 1) && (c.heap e).in_cache in
    let moved = lru_remove e c in
    let c' = if on_lru then record moved { in_use = moved.in_use ++ e ∷ [] } else c in
    set_refs e (((c.heap e).refs + 1) % 2 ^ 32) c'

-- `Unref`, of an entry that has a reference.
unfoldable pub unref : ℕ → LruCache → LruCache
unfolding lru_remove
unref e c =
    let refs = (c.heap e).refs - 1 in
    let c' = set_refs e refs c in
    let moved = lru_remove e c' in
    if refs == 0
    then record c' { freed = c.freed ++ e ∷ [] }
    else if (c.heap e).in_cache && (refs == 1)
    then record moved { lru = moved.lru ++ e ∷ [] }
    else c'

-- `Lookup`
unfoldable pub cache_lookup : Bytes → ℕ → LruCache → LruCache × Option ℕ
unfolding ref
cache_lookup key hash c = elim (table_lookup c.heap c.table key hash) [
  | none ↦ (c, none)
  | some e ↦ (ref e c, some e)
]

-- `Release`
unfoldable pub release : ℕ → LruCache → LruCache
unfolding unref
release e c = unref e c

-- `FinishErase`
unfoldable pub finish_erase : Option ℕ → LruCache → LruCache × Bool
unfolding lru_remove unref
finish_erase none c = (c, false)
finish_erase (some e) c =
    let c1 = lru_remove e c in
    let entry = record (c.heap e) { in_cache = false } in
    let usage = (c.usage + (2 ^ 64 - (c.heap e).charge)) % 2 ^ 64 in
    (unref e (record c1 { heap = set_entry e entry c.heap; usage = usage }), true)

-- `FinishErase(table_.Remove(key, hash))`
unfoldable pub erase_key : Bytes → ℕ → LruCache → LruCache
unfolding finish_erase
erase_key key hash c =
    let (table, e) = table_remove c.heap c.table key hash in
    (finish_erase e (record c { table = table })).0

-- The loop of `Insert`, with a bound on its rounds.
unfoldable pub evict : ℕ → LruCache → LruCache
unfolding erase_key
evict zero c = c
evict (suc n) c = elim c.lru [
  | [] ↦ c
  | old ∷ lru ↦
      let rest = evict n (erase_key (c.heap old).key (c.heap old).hash c) in
      if ltb c.capacity c.usage then rest else c
]

-- `Insert` of an entry at the new address `e`.
unfoldable pub cache_insert : ℕ → Bytes → ℕ → ℕ → ℕ → ℕ → LruCache → LruCache
unfolding finish_erase evict
cache_insert e key hash value charge deleter c =
    let cached = ltb 0 c.capacity in
    let entry : LruHandle = record {
      value = value;
      deleter = deleter;
      charge = charge;
      key = key;
      in_cache = cached;
      refs = (if cached then 2 else 1);
      hash = hash;
    } in
    let heap = set_entry e entry c.heap in
    let (table, old) = table_insert heap c.table e in
    let linked =
      (finish_erase old (record c {
        heap = heap;
        in_use = c.in_use ++ e ∷ [];
        usage = (c.usage + charge) % 2 ^ 64;
        table = table;
      })).0 in
    let c' = if cached then linked else record c { heap = heap } in evict (length c'.lru) c'

-- `Erase`
unfoldable pub erase : Bytes → ℕ → LruCache → LruCache
unfolding erase_key
erase key hash c = erase_key key hash c

-- `Prune`, with a bound on the rounds of its loop.
unfoldable pub prune_loop : ℕ → LruCache → LruCache
unfolding erase_key
prune_loop zero c = c
prune_loop (suc n) c = elim c.lru [
  | [] ↦ c
  | e ∷ lru ↦ prune_loop n (erase_key (c.heap e).key (c.heap e).hash c)
]

unfoldable pub prune : LruCache → LruCache
unfolding prune_loop
prune c = prune_loop (length c.lru) c
