-- ===== src/Cache/Lru/Oldest.antt =====
-- util/cache.cc: the oldest of the entries that no client uses leaves the cache.
use d_lsm.Common.{
  ◌+◌, ◌<◌, ◌^◌, ◌%◌, ℕ, ◌-◌, ◌≡◌, ◌≤◌, refl, ap, sym, ◌∙◌, arith, true, false, ◌==◌, Bool-cases,
  if◌then◌else◌,
}
use d_lsm.Common.{Option, some, none, List, [], ◌∷◌, All, inl, inr}
use mathlib.Core.Path.{subst}
use d_lsm.Coding.{Bytes}
use d_lsm.Cache.{Heap, HandleTable, table_lookup, table_remove}
use d_lsm.Cache.Table.{IsConsistent}
use d_lsm.Cache.Remove.{same_key, same_key→eq, table_remove_lem}
use d_lsm.Cache.Lru.{LruCache, lru_remove, unref, finish_erase, erase_key}
use d_lsm.Cache.Lru.Released.{
  charges, released, released_keys, charges-released, released_other, Finds,
}
use d_lsm.Cache.Lru.Keys.{table_lookup_same, IsConsistent-same}

-- The table finds the entry, and no client refers to it.
pub record IsIdle (heap : Heap) (table : HandleTable) (p : ℕ) : Type 0 where
  pub found : table_lookup heap table (heap p).key (heap p).hash ≡ some p
  pub in_cache : (heap p).in_cache ≡ true
  pub refs : (heap p).refs ≡ 1

-- No pointer stands twice in the list.
abbrev pub IsOnce : List ℕ → Type 0
IsOnce [] = Unit
IsOnce (p ∷ ps) = All (λ q. (q == p) ≡ false) ps × IsOnce ps

abbrev pub AreIdle : Heap → HandleTable → List ℕ → Type 0
AreIdle heap table lru = IsConsistent heap table × All (IsIdle heap table) lru × IsOnce lru

-- The usage is a word that counts the charges of these entries.
abbrev pub IsCounted : Heap → List ℕ → ℕ → Type 0
IsCounted heap lru usage = (charges heap lru ≤ usage) × (usage < 2 ^ 64)

-- The entries of the list of a shard are found by its table, unused, and counted.
abbrev pub IsLru : LruCache → Type 0
IsLru c = AreIdle c.heap c.table c.lru × IsCounted c.heap c.lru c.usage

-- The state after the oldest entry has left the lists, and the heap has taken it back.
finish_oldest :
    (c : LruCache) (old : ℕ) (lru : List ℕ)
    → c.lru ≡ old ∷ lru
    → (c.heap old).refs ≡ 1
    → (let c' = (finish_erase (some old) c).0 in
        (c'.lru ≡ lru)
        × (c'.capacity ≡ c.capacity)
        × (c'.table ≡ c.table)
        × (c'.heap ≡ released old c.heap)
        × (c'.usage ≡ (c.usage + (2 ^ 64 - (c.heap old).charge)) % 2 ^ 64))
unfolding finish_erase lru_remove unref
finish_oldest c old lru e one =
    let self : (old == old) ≡ true = ground arith in
    let last : (1 - 1 == 0) ≡ true = ground arith in
    rw (finish_erase, unref, lru_remove, e, self, one) (refl, refl, refl, refl, refl)

IsIdle-others :
    (heap : Heap) (t t' : HandleTable) (old : ℕ) (lru : List ℕ)
    → IsIdle heap t old
    → ((key' : Bytes) (hash' : ℕ)
        → table_lookup heap t' key' hash' ≡ (
            if same_key heap (heap old).key (heap old).hash key' hash'
            then none
            else table_lookup heap t key' hash'))
    → All (IsIdle heap t) lru
    → All (λ q. (q == old) ≡ false) lru
    → All (IsIdle (released old heap) t') lru
IsIdle-others heap t t' old [] idle gone others apart = tt
IsIdle-others heap t t' old (q ∷ lru) idle gone (idle_q, others) (apart_q, apart) =
    let same_heap = released_other old heap q apart_q in
    let other : same_key heap (heap old).key (heap old).hash (heap q).key (heap q).hash ≡ false =
      elim (Bool-cases (same_key heap (heap old).key (heap old).hash (heap q).key (heap q).hash)) [
        | inl same ↦
            let (keys, hashes) = same_key→eq heap _ _ _ _ same in
            let found_q : table_lookup heap t (heap old).key (heap old).hash ≡ some q =
              rw (keys, hashes) idle_q.found in
            absurd (ground (arith, idle.found))
        | inr unlike ↦ unlike
      ] in
    (
      record {
        found = rw same_heap (
            table_lookup_same heap (released old heap) (released_keys old heap) t' (heap q).key
              (heap q).hash
            ∙ gone (heap q).key (heap q).hash
            ∙ rw other idle_q.found);
        in_cache = rw same_heap idle_q.in_cache;
        refs = rw same_heap idle_q.refs;
      },
      IsIdle-others heap t t' old lru idle gone others apart,
    )

-- The second shard is the first without its oldest entry, whose charge is not counted any more.
abbrev pub IsWithout : LruCache → ℕ → List ℕ → LruCache → Type 0
IsWithout c old lru c' =
    (c'.lru ≡ lru)
    × (c'.capacity ≡ c.capacity)
    × (c'.usage + (c.heap old).charge ≡ c.usage)
    × (c'.heap ≡ released old c.heap)
    × Finds c (old ∷ []) c'
    × IsLru c'

pub erase_oldest :
    (c : LruCache) (old : ℕ) (lru : List ℕ)
    → c.lru ≡ old ∷ lru
    → IsLru c
    → IsWithout c old lru (erase_key (c.heap old).key (c.heap old).hash c)
unfolding erase_key
erase_oldest c old lru e ((consistent, idle, once), counted) =
    let (idle_old, idle_rest) : All (IsIdle c.heap c.table) (old ∷ lru) =
      subst (All (IsIdle c.heap c.table)) e idle in
    let (apart, once_rest) : IsOnce (old ∷ lru) = subst IsOnce e once in
    let (fits, word) : IsCounted c.heap (old ∷ lru) c.usage =
      subst (λ (l : List ℕ). IsCounted c.heap l c.usage) e counted in
    let removed = table_remove c.heap c.table (c.heap old).key (c.heap old).hash in
    let (consistent', taken, gone) =
      table_remove_lem c.heap c.table (c.heap old).key (c.heap old).hash consistent in
    let c1 = record c { table = removed.0 } in
    let (lru_eq, capacity_eq, table_eq, heap_eq, usage_eq) =
      finish_oldest c1 old lru e idle_old.refs in
    let c' = (finish_erase (some old) c1).0 in
    let usage' = (c.usage + (2 ^ 64 - (c.heap old).charge)) % 2 ^ 64 in
    let left : usage' + (c.heap old).charge ≡ c.usage = omega (arith, fits, word) in
    let ok : AreIdle (released old c.heap) removed.0 lru = (
      IsConsistent-same c.heap (released old c.heap) (released_keys old c.heap) removed.0
          consistent',
      IsIdle-others c.heap c.table removed.0 old lru idle_old gone idle_rest apart,
      once_rest,
    ) in
    let counted' : IsCounted (released old c.heap) lru usage' =
      (omega (arith, charges-released old c.heap lru, fits, left), omega arith) in
    let result : IsWithout c old lru c' = (
      lru_eq,
      capacity_eq,
      ap (λ (n : ℕ). n + (c.heap old).charge) usage_eq ∙ left,
      heap_eq,
      λ key hash.
          rw (table_eq, heap_eq)
            (table_lookup_same c.heap (released old c.heap) (released_keys old c.heap) removed.0 key
                hash
              ∙ gone key hash),
      rw (lru_eq, table_eq, heap_eq, usage_eq) (ok, counted'),
    ) in
    subst (λ (o : Option ℕ). IsWithout c old lru (finish_erase o c1).0)
      (sym (taken ∙ idle_old.found)) result
