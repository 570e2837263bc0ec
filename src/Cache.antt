-- ===== src/Cache.antt =====
-- util/cache.cc: the entries of the cache and `HandleTable`, the hash table that finds them.
-- A pointer to an entry is a number, the heap maps it to the entry, and the chain of a bucket, which
-- the entries link by `next_hash`, is the list of its pointers.
pub mod Chains
pub mod Resize
pub mod Table
pub mod Remove
pub mod Lru
mod Tests
use d_lsm.Common.{
  ℕ, zero, suc, ◌+◌, ◌-◌, ◌*◌, ◌%◌, ◌^◌, Bool, true, false, ◌&&◌, ◌==◌, ltb, bit_and,
}
use d_lsm.Common.{Option, some, none, List, [], ◌∷◌, ◌++◌, length, if◌then◌else◌}
use d_lsm.Coding.{Bytes}
use d_lsm.Comparator.{memcmp, is_eq}

-- `LRUHandle`, less its links.
pub record LruHandle : Type 0 where
  pub value : ℕ
  pub deleter : ℕ
  pub charge : ℕ
  pub key : Bytes
  pub in_cache : Bool
  pub refs : ℕ
  pub hash : ℕ

abbrev pub Heap : Type 0
Heap = ℕ → LruHandle

abbrev pub Buckets : Type 0
Buckets = ℕ → List ℕ

pub record HandleTable : Type 0 where
  pub table_length : ℕ
  pub elems : ℕ
  pub list : Buckets

-- `==` of two slices.
unfoldable pub slice_eq : Bytes → Bytes → Bool
slice_eq x y = (length x == length y) && is_eq (memcmp (length x) x y)

-- `list_[i] = chain`
abbrev pub set_bucket : ℕ → List ℕ → Buckets → Buckets
set_bucket i chain list j = if j == i then chain else list j

-- The bucket of a hash in a list of this length, which is not empty: the constructor resizes first.
abbrev pub bucket_of : ℕ → ℕ → ℕ
bucket_of hash length = bit_and hash (length - 1)

-- The pointer that stands at a place.
abbrev pub deref : List ℕ → Option ℕ
deref [] = none
deref (p ∷ chain) = some p

-- `while (new_length < elems_) new_length *= 2`, with a bound on its rounds.
unfoldable pub new_length_loop : ℕ → ℕ → ℕ → ℕ
new_length_loop zero elems new_length = new_length
new_length_loop (suc n) elems new_length =
    let rest = new_length_loop n elems (new_length * 2 % 2 ^ 32) in
    if ltb new_length elems then rest else new_length

unfoldable pub remove_at : HandleTable → ℕ → List ℕ → List ℕ → HandleTable × Option ℕ
remove_at t i before [] = (t, none)
remove_at t i before (p ∷ chain) =
    let elems = (t.elems + (2 ^ 32 - 1)) % 2 ^ 32 in
    (record t { list = set_bucket i (before ++ chain) t.list; elems = elems }, some p)

module _ (heap : Heap) where
  -- `(*ptr)->hash == hash && key == (*ptr)->key()`
  unfoldable pub matches : Bytes → ℕ → ℕ → Bool
  matches key hash p = ((heap p).hash == hash) && slice_eq key (heap p).key

  -- `FindPointer`: the entries before the place that it points to, and those from there on.
  unfoldable pub find_pointer : Bytes → ℕ → List ℕ → List ℕ × List ℕ
  find_pointer key hash [] = ([], [])
  find_pointer key hash (p ∷ chain) =
      let (before, found) = find_pointer key hash chain in
      if matches key hash p then ([], p ∷ chain) else (p ∷ before, found)

  unfoldable pub table_lookup : HandleTable → Bytes → ℕ → Option ℕ
  table_lookup t key hash = deref (find_pointer key hash (t.list (bucket_of hash t.table_length))).1

  -- The loop of `Resize` over a chain, which puts each entry in front of its new bucket.
  unfoldable pub move_chain : ℕ → List ℕ → Buckets → Buckets
  move_chain new_length [] new_list = new_list
  move_chain new_length (h ∷ chain) new_list =
      let i = bucket_of (heap h).hash new_length in
      move_chain new_length chain (set_bucket i (h ∷ new_list i) new_list)

  -- The loop over the `n` buckets from `i` on.
  unfoldable pub move_buckets : ℕ → Buckets → ℕ → ℕ → Buckets → Buckets
  move_buckets new_length list zero i new_list = new_list
  move_buckets new_length list (suc n) i new_list =
      move_buckets new_length list n (i + 1) (move_chain new_length (list i) new_list)

  unfoldable pub resize : HandleTable → HandleTable
  resize t =
      let new_length = new_length_loop 32 t.elems 4 in
      record {
        table_length = new_length;
        elems = t.elems;
        list = move_buckets new_length t.list t.table_length 0 (λ i. []);
      }

  -- The table with an entry put where a place was found.
  unfoldable pub insert_at : HandleTable → ℕ → List ℕ → List ℕ → HandleTable × Option ℕ
  insert_at t h before [] =
      let i = bucket_of (heap h).hash t.table_length in
      let elems = (t.elems + 1) % 2 ^ 32 in
      let t' = record t { list = set_bucket i (before ++ h ∷ []) t.list; elems = elems } in
      (if ltb t.table_length elems then resize t' else t', none)
  insert_at t h before (old ∷ chain) =
      let i = bucket_of (heap h).hash t.table_length in
      (record t { list = set_bucket i (before ++ h ∷ chain) t.list }, some old)

  -- `Insert`, with the entry that was there before.
  unfoldable pub table_insert : HandleTable → ℕ → HandleTable × Option ℕ
  table_insert t h =
      let chain = t.list (bucket_of (heap h).hash t.table_length) in
      let (before, found) = find_pointer (heap h).key (heap h).hash chain in
      insert_at t h before found

  -- `Remove`, with the entry that it took out.
  unfoldable pub table_remove : HandleTable → Bytes → ℕ → HandleTable × Option ℕ
  table_remove t key hash =
      let i = bucket_of hash t.table_length in
      let (before, found) = find_pointer key hash (t.list i) in remove_at t i before found

  -- The constructor.
  unfoldable pub new_table : HandleTable
  new_table = resize (record { table_length = 0; elems = 0; list = λ i. [] })
