-- ===== src/Cache/Lru/Keys.antt =====
-- util/cache.cc: the table finds the same entries whatever becomes of their references.
use d_lsm.Common.{ℕ, ◌≡◌, refl, sym, ◌∙◌}
use d_lsm.Common.{List, [], ◌∷◌, All}
use d_lsm.Coding.{Bytes}
use d_lsm.Cache.{Heap, HandleTable, matches, bucket_of, table_lookup}
use d_lsm.Cache.Chains.{find, HasDistinctKeys}
use d_lsm.Cache.Table.{IsConsistent, table_lookup-find}

module _ (heap heap' : Heap)
    (same_keys : (p : ℕ) → ((heap' p).key ≡ (heap p).key) × ((heap' p).hash ≡ (heap p).hash)) where
  matches_same : (key : Bytes) (hash p : ℕ) → matches heap' key hash p ≡ matches heap key hash p
  unfolding matches
  matches_same key hash p = rw ((same_keys p).0, (same_keys p).1) refl

  find_same :
      (key : Bytes) (hash : ℕ) (chain : List ℕ)
      → find heap' key hash chain ≡ find heap key hash chain
  find_same key hash [] = refl
  find_same key hash (p ∷ chain) = rw (matches_same key hash p, find_same key hash chain) refl

  pub table_lookup_same :
      (t : HandleTable) (key : Bytes) (hash : ℕ)
      → table_lookup heap' t key hash ≡ table_lookup heap t key hash
  table_lookup_same t key hash =
      table_lookup-find heap' t key hash
      ∙ find_same key hash _
      ∙ sym (table_lookup-find heap t key hash)

  HasDistinctKeys-same : (chain : List ℕ) → HasDistinctKeys heap chain → HasDistinctKeys heap' chain
  HasDistinctKeys-same [] d = tt
  HasDistinctKeys-same (p ∷ chain) (first, d) = (
    rw ((same_keys p).0, (same_keys p).1, find_same (heap p).key (heap p).hash chain) first,
    HasDistinctKeys-same chain d,
  )

  home_same :
      (length i : ℕ) (chain : List ℕ)
      → All (λ p. bucket_of (heap p).hash length ≡ i) chain
      → All (λ p. bucket_of (heap' p).hash length ≡ i) chain
  home_same length i [] home = tt
  home_same length i (p ∷ chain) (here, home) =
      (rw (same_keys p).1 here, home_same length i chain home)

  pub IsConsistent-same : (t : HandleTable) → IsConsistent heap t → IsConsistent heap' t
  IsConsistent-same t ok = record {
    positive = ok.positive;
    home = λ i. home_same t.table_length i (t.list i) (ok.home i);
    distinct = λ i. HasDistinctKeys-same (t.list i) (ok.distinct i);
  }
