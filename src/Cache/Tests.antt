-- ===== src/Cache/Tests.antt =====
-- The hash table and a shard at a concrete heap.
use d_lsm.Common.{ℕ, ◌+◌, ◌*◌, ◌<◌, ◌^◌, arith, [], ◌∷◌, true}
use d_lsm.Cache.{
  Heap, HandleTable, new_table, table_insert, insert_at, find_pointer, table_remove, resize,
  new_length_loop, move_buckets,
}
use d_lsm.Common.{◌∙◌, ◌≡◌, some, refl}
use d_lsm.Cache.{table_lookup}
use d_lsm.Cache.Chains.{matches_self}
use d_lsm.Cache.Table.{IsTable, new_table-IsTable, Inserted, table_insert_lem}
use d_lsm.Cache.Lru.{LruCache, evict}
use d_lsm.Cache.Lru.Evict.{IsEvicted, evict_lem}
use d_lsm.Cache.Lru.Oldest.{IsLru}
use d_lsm.Cache.Remove.{Removed, table_remove_lem}

-- Two entries with keys of one byte, whose hashes fall in one bucket, and then others.
abbrev heap : Heap
heap p = record {
  value = p;
  deleter = 0;
  charge = 1;
  key = p ∷ [];
  in_cache = true;
  refs = 1;
  hash = 5 + p * 4;
}

abbrev one : HandleTable
one = (table_insert heap (new_table heap) 0).0

one-IsTable : IsTable heap one
one-IsTable =
    (table_insert_lem heap (new_table heap) 0 (new_table-IsTable heap)
      (unfold new_table resize in omega arith)).0

one_few : one.elems < 2 ^ 31
unfolding table_insert find_pointer insert_at resize new_table new_length_loop move_buckets
one_few = omega arith

table_insert_lem_example : Inserted heap one 1 (table_insert heap one 1)
table_insert_lem_example = table_insert_lem heap one 1 one-IsTable one_few

table_remove_lem_example : Removed heap one (0 ∷ []) 5 (table_remove heap one (0 ∷ []) 5)
table_remove_lem_example = table_remove_lem heap one (0 ∷ []) 5 one-IsTable.0

abbrev shard : LruCache
shard = record {
  capacity = 1;
  usage = 5;
  lru = 0 ∷ [];
  in_use = [];
  table = one;
  heap = heap;
  freed = [];
}

one_found : table_lookup heap one (0 ∷ []) 5 ≡ some 0
one_found =
    (table_insert_lem heap (new_table heap) 0 (new_table-IsTable heap)
        (unfold new_table resize in omega arith)).2
      (0 ∷ []) 5
    ∙ rw (matches_self heap 0) refl

shard-IsLru : IsLru shard
shard-IsLru = (
  (one-IsTable.0, (record { found = one_found; in_cache = refl; refs = refl }, tt), (tt, tt)),
  omega arith,
)

evict_lem_example : (k : ℕ) × IsEvicted shard (evict 1 shard) k
evict_lem_example = evict_lem shard shard-IsLru
