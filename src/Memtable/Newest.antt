-- ===== src/Memtable/Newest.antt =====
-- The newest visible version of a key, and where it stands in the order of the entries.
use Prim.Native.Nat.Ordering.{lt, eq, gt}
use d_lsm.Common.{ℕ, ◌≤◌, ◌≡◌, ◌≢◌, refl, sym, ◌∙◌, arith}
use d_lsm.Common.{Option, some, none}
use d_lsm.Common.{List, [], ◌∷◌, All, Any}
use d_lsm.Coding.{Bytes}
use d_lsm.Comparator.{is_lt}
use d_lsm.Comparator.Interface.{Comparator, IsComparator}
use d_lsm.InternalKey.{internal_compare, internal_comparator, internal_key, max_sequence_number}
use d_lsm.InternalKey.Order.{internal_compare-internal_key, by_user_key, newest_first}
use d_lsm.InternalKey.Shorten.{internal_comparator-IsComparator}
use d_lsm.WriteBatch.{Entry}
use d_lsm.Memtable.{Table, Lookup, miss, key_compare, memtable_add}
use d_lsm.Memtable.Sorted.{place, first_not}
use d_lsm.Memtable.Layout.{IsEntry, entry_key}
use d_lsm.Memtable.Check.{answer}

module _ (user : Comparator) where
  -- The contract of the skip list: a new entry is put in its place in the order, and a seek stops at
  -- the first entry that is not below the target.
  pub record IsTable {T : Type 0} (table : Table T) : Type 0 where
    pub contents_empty : table.contents table.empty ≡ []
    pub contents_insert :
        (t : T) (e : Bytes)
        → All (λ x. key_compare user x e ≢ eq) (table.contents t)
        → table.contents (table.insert t e)
          ≡ place (λ x y. is_lt (key_compare user x y)) e (table.contents t)
    pub seek_first :
        (t : T) (target : Bytes)
        → table.seek t target
          ≡ first_not (λ x. is_lt (key_compare user x target)) (table.contents t)

  -- The entries that `Get` at sequence number `s` may return for the key `u`.
  abbrev pub Visible : Bytes → ℕ → Entry → Type 0
  Visible u s e = (user.compare e.key u ≡ eq) × (e.seq ≤ s)

  -- The answer for the newest of the visible entries, or none if there is none.
  abbrev pub IsNewest : Bytes → ℕ → List Entry → Option Entry → Type 0
  IsNewest u s es none = All (λ e. Visible u s e → ⊥) es
  IsNewest u s es (some e) =
      Any (λ d. d ≡ e) es × Visible u s e × All (λ d. Visible u s d → d.seq ≤ e.seq) es

  abbrev pub result : Option Entry → Lookup
  result none = miss
  result (some e) = answer e

  -- No two entries have the same sequence number.
  abbrev pub Distinct : List Entry → Type 0
  Distinct [] = Unit
  Distinct (e ∷ es) = All (λ d. d.seq ≢ e.seq) es × Distinct es

  -- The table after the entries have been added, the last of the list first.
  abbrev pub add_all : {T : Type 0} → Table T → List Entry → T
  add_all table [] = table.empty
  add_all table (e ∷ es) = memtable_add user table (add_all table es) e.seq e.type e.key e.value

module _ (user : Comparator) (laws : IsComparator user) where
  pub icmp_laws : IsComparator (internal_comparator user)
  icmp_laws = internal_comparator-IsComparator user laws

  -- Where an entry stands to the key of a lookup.
  pub entry-lookup_order :
      (e : Entry) (u : Bytes) (s : ℕ)
      → IsEntry e
      → s ≤ max_sequence_number
      → internal_compare user (entry_key e) (internal_key u s 1)
        ≡ by_user_key (user.compare e.key u) (newest_first e.seq e.type s 1)
  entry-lookup_order e u s he hs =
      internal_compare-internal_key user e.key u e.seq e.type s 1 he.seq_fits hs
        (omega (arith, he.type_fits)) (omega arith)

  pub Visible-not_below :
      (d : Entry) (u : Bytes) (s : ℕ)
      → IsEntry d
      → s ≤ max_sequence_number
      → Visible user u s d
      → internal_compare user (entry_key d) (internal_key u s 1) ≢ lt
  Visible-not_below d u s hd hs (same, old) =
      rw (entry-lookup_order d u s hd hs, same) (ground (arith, hd.type_fits))

  pub not_below_visible :
      (e : Entry) (u : Bytes) (s : ℕ)
      → IsEntry e
      → s ≤ max_sequence_number
      → user.compare e.key u ≡ eq
      → internal_compare user (entry_key e) (internal_key u s 1) ≢ lt
      → e.seq ≤ s
  not_below_visible e u s he hs same stop =
      let order : internal_compare user (entry_key e) (internal_key u s 1)
          ≡ newest_first e.seq e.type s 1 =
        rw (entry-lookup_order e u s he hs, same) refl in
      ground (arith, order)

  -- Of two entries of the key, the one that stands first is not older.
  pub first_not_older :
      (e d : Entry) (u : Bytes)
      → IsEntry e
      → IsEntry d
      → user.compare e.key u ≡ eq
      → user.compare d.key u ≡ eq
      → internal_compare user (entry_key e) (entry_key d) ≢ gt
      → d.seq ≤ e.seq
  first_not_older e d u he hd same same' before =
      let keys : user.compare e.key d.key ≡ eq =
        laws.compare_eq_left e.key u d.key same
        ∙ (sym (laws.compare_eq_left d.key u d.key same') ∙ laws.compare_refl d.key) in
      let order : internal_compare user (entry_key e) (entry_key d)
          ≡ newest_first e.seq e.type d.seq d.type =
        internal_compare-internal_key user e.key d.key e.seq e.type d.seq d.type he.seq_fits
          hd.seq_fits (omega (arith, he.type_fits)) (omega (arith, hd.type_fits))
        ∙ rw keys refl in
      ground (arith, order, before)

  -- Behind an entry of a later key there is no entry of the key.
  pub passed_key :
      (e d : Entry) (u : Bytes) (s : ℕ)
      → IsEntry e
      → IsEntry d
      → s ≤ max_sequence_number
      → user.compare e.key u ≢ eq
      → user.compare d.key u ≡ eq
      → internal_compare user (entry_key e) (internal_key u s 1) ≢ lt
      → internal_compare user (entry_key e) (entry_key d) ≡ gt
  passed_key e d u s he hd hs other same stop =
      let order = entry-lookup_order e u s he hs in
      let behind : user.compare e.key d.key ≡ gt =
        laws.compare_eq_right d.key u e.key same ∙ ground (arith, order) in
      internal_compare-internal_key user e.key d.key e.seq e.type d.seq d.type he.seq_fits
        hd.seq_fits (omega (arith, he.type_fits)) (omega (arith, hd.type_fits))
      ∙ rw behind refl

  -- Entries with different sequence numbers have different internal keys.
  pub distinct_keys :
      (d e : Entry)
      → IsEntry d
      → IsEntry e
      → d.seq ≢ e.seq
      → internal_compare user (entry_key d) (entry_key e) ≢ eq
  distinct_keys d e hd he other =
      let order =
        internal_compare-internal_key user d.key e.key d.seq d.type e.seq e.type hd.seq_fits
          he.seq_fits (omega (arith, hd.type_fits)) (omega (arith, he.type_fits)) in
      ground (arith, order, other)
