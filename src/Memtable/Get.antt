-- ===== src/Memtable/Get.antt =====
-- `MemTable::Get` after any calls of `MemTable::Add`.
use Prim.Native.Nat.Ordering.{lt, eq, gt}
use mathlib.Core.Option
use d_lsm.Common.{All-map, All-both, All-member, All-image}
use d_lsm.Common.{ℕ, ◌+◌, ◌^◌, ◌≤◌, ◌<◌, ◌≡◌, ◌≢◌, refl, sym, ap, ◌∙◌, arith, Bool}
use d_lsm.Common.{Option, some, none, inl, inr, Bool-cases, Option-cases, if◌then◌else◌}
use d_lsm.Common.{List, [], ◌∷◌, map, length, All, Any}
use d_lsm.Coding.{Bytes, IsByte}
use d_lsm.Comparator.{is_lt, is_eq}
use d_lsm.Comparator.Interface.{Comparator, IsComparator}
use d_lsm.InternalKey.{
  internal_compare, internal_comparator, internal_key, max_sequence_number, lookup_key,
}
use d_lsm.InternalKey.{lookup_memtable_key}
use d_lsm.InternalKey.Lookup.{lookup_user_key_lem}
use d_lsm.WriteBatch.{Entry}
use d_lsm.Memtable.{Table, miss, key_compare, memtable_add, memtable_get}
use d_lsm.Memtable.Sorted.{
  place, first_not, All-place, All-unplace, Any-unplace, Ordered, Ordered-place,
}
use d_lsm.Memtable.Sorted.{first_not-bound, first_not-none, map-place, first_not-map}
use d_lsm.Memtable.Layout.{IsEntry, entry_key, entry_bytes, slice_at-entry_bytes}
use d_lsm.Memtable.Check.{answer, check_entry-entry_bytes, slice_at-memtable_key}
use d_lsm.Memtable.Newest.{IsTable, Visible, IsNewest, Distinct, result, add_all, icmp_laws}
use d_lsm.Memtable.Newest.{
  Visible-not_below, not_below_visible, first_not_older, passed_key, distinct_keys,
}

module _ (user : Comparator) where
  abbrev entry_less : Entry → Entry → Bool
  entry_less x y = is_lt (internal_compare user (entry_key x) (entry_key y))

  -- The entries in the order of the table.
  abbrev sorted : List Entry → List Entry
  sorted [] = []
  sorted (e ∷ es) = place entry_less e (sorted es)

  abbrev below : Bytes → ℕ → Entry → Bool
  below u s x = is_lt (internal_compare user (entry_key x) (internal_key u s 1))

  All-sorted : (P : Entry → Type 0) (es : List Entry) → All P es → All P (sorted es)
  All-sorted P [] h = tt
  All-sorted P (e ∷ es) (he, h) = All-place P entry_less e (sorted es) he (All-sorted P es h)

  All-unsorted : (P : Entry → Type 0) (es : List Entry) → All P (sorted es) → All P es
  All-unsorted P [] h = tt
  All-unsorted P (e ∷ es) h =
      let (he, rest) = All-unplace P entry_less e (sorted es) h in (he, All-unsorted P es rest)

  Any-unsorted : (P : Entry → Type 0) (es : List Entry) → Any P (sorted es) → Any P es
  Any-unsorted P [] h = h
  Any-unsorted P (e ∷ es) h = elim (Any-unplace P entry_less e (sorted es) h) [
    | inl he ↦ inl he
    | inr rest ↦ inr (Any-unsorted P es rest)
  ]

  key_compare-entry_bytes :
      (x y : Entry)
      → IsEntry x
      → IsEntry y
      → key_compare user (entry_bytes x) (entry_bytes y)
        ≡ internal_compare user (entry_key x) (entry_key y)
  key_compare-entry_bytes x y hx hy =
      unfold key_compare in rw (slice_at-entry_bytes x hx, slice_at-entry_bytes y hy) refl

module _ (user : Comparator) (laws : IsComparator user) where
  Ordered-sorted :
      (es : List Entry)
      → Ordered (internal_comparator user) (icmp_laws user laws) entry_key (sorted user es)
  Ordered-sorted [] = tt
  Ordered-sorted (e ∷ es) =
      Ordered-place (internal_comparator user) (icmp_laws user laws) entry_key e (sorted user es)
        (Ordered-sorted es)

  -- The table holds the added entries in order.
  contents_lem :
      {T : Type 0} (table : Table T)
      → IsTable user table
      → (es : List Entry) → All IsEntry es
      → Distinct user es
      → table.contents (add_all user table es) ≡ map entry_bytes (sorted user es)
  unfolding memtable_add
  contents_lem table contract [] h d = contract.contents_empty
  contents_lem table contract (e ∷ es) (he, h) (de, d) =
      let held = contents_lem table contract es h d in
      let xs = sorted user es in
      let hs = All-sorted user IsEntry es h in
      let fresh : All (λ x. key_compare user x (entry_bytes e) ≢ eq)
          (table.contents (add_all user table es)) =
        rw held (
          All-image entry_bytes (λ (x : Bytes). key_compare user x (entry_bytes e) ≢ eq) xs
            (All-map {Q = λ (x : Entry). key_compare user (entry_bytes x) (entry_bytes e) ≢ eq}
              (λ x both.
                rw (key_compare-entry_bytes user x e both.0 he)
                  (distinct_keys user laws x e both.0 he both.1))
              xs
              (All-both IsEntry (λ (x : Entry). x.seq ≢ e.seq) xs hs
                (All-sorted user (λ (x : Entry). x.seq ≢ e.seq) es de)))) in
      contract.contents_insert (add_all user table es) (entry_bytes e) fresh
      ∙ (rw held (
          sym (
            map-place entry_bytes (entry_less user) (λ x y. is_lt (key_compare user x y)) e xs
              (All-map
                {Q = λ (x : Entry).
                  is_lt (key_compare user (entry_bytes x) (entry_bytes e)) ≡ entry_less user x e}
                (λ x hx. ap is_lt (key_compare-entry_bytes user x e hx he)) xs hs))))

  found_entry :
      (u : Bytes) (s : ℕ) (es : List Entry)
      → All IsEntry es
      → (e : Entry) → first_not (below user u s) (sorted user es) ≡ some e
      → IsEntry e
  found_entry u s es h e found =
      let (there, _, _) =
        first_not-bound (internal_comparator user) (icmp_laws user laws) entry_key
          (internal_key u s 1) (sorted user es) (Ordered-sorted es) e found in
      All-member IsEntry (sorted user es) e (All-sorted user IsEntry es h) there

  -- The first entry that is not below the lookup key answers for the newest visible one.
  IsNewest-at :
      (u : Bytes) (s : ℕ) (es : List Entry)
      → s ≤ max_sequence_number
      → All IsEntry es
      → (e : Entry) → first_not (below user u s) (sorted user es) ≡ some e
      → (r : Option Entry) × IsNewest user u s es r
        × ((if is_eq (user.compare e.key u) then answer e else miss) ≡ result user r)
  IsNewest-at u s es hs h e found =
      let xs = sorted user es in
      let hx = All-sorted user IsEntry es h in
      let (there, stop, behind) =
        first_not-bound (internal_comparator user) (icmp_laws user laws) entry_key
          (internal_key u s 1) xs (Ordered-sorted es) e found in
      let he = found_entry u s es h e found in
      let all =
        All-both IsEntry
          (λ (d : Entry).
            internal_compare user (entry_key d) (internal_key u s 1) ≢ lt
            → internal_compare user (entry_key e) (entry_key d) ≢ gt)
          xs hx behind in
      elim (Bool-cases (is_eq (user.compare e.key u))) [
        | inl hit_key ↦
            let same : user.compare e.key u ≡ eq = ground arith in
            (
              some e,
              (
                Any-unsorted user (λ (d : Entry). d ≡ e) es there,
                (same, not_below_visible user laws e u s he hs same stop),
                All-unsorted user (λ (d : Entry). Visible user u s d → d.seq ≤ e.seq) es
                    (All-map {Q = λ (d : Entry). Visible user u s d → d.seq ≤ e.seq}
                      (λ d (hd, order) seen.
                        first_not_older user laws e d u he hd same seen.0
                          (order (Visible-not_below user laws d u s hd hs seen)))
                      xs all),
              ),
              rw hit_key refl,
            )
        | inr other_key ↦
            let other : user.compare e.key u ≢ eq = λ n. ground arith in
            (
              none,
              All-unsorted user (λ (d : Entry). Visible user u s d → ⊥) es
                  (All-map {Q = λ (d : Entry). Visible user u s d → ⊥}
                    (λ d (hd, order) seen.
                      order (Visible-not_below user laws d u s hd hs seen)
                        (passed_key user laws e d u s he hd hs other seen.0 stop))
                    xs all),
              rw other_key refl,
            )
      ]

  IsNewest-none :
      (u : Bytes) (s : ℕ) (es : List Entry)
      → s ≤ max_sequence_number
      → All IsEntry es
      → first_not (below user u s) (sorted user es) ≡ none
      → IsNewest user u s es none
  IsNewest-none u s es hs h out =
      let xs = sorted user es in
      let under =
        first_not-none (internal_comparator user) (icmp_laws user laws) entry_key
          (internal_key u s 1) xs out in
      All-unsorted user (λ (d : Entry). Visible user u s d → ⊥) es
        (All-map {Q = λ (d : Entry). Visible user u s d → ⊥}
          (λ d (hd, low) seen. Visible-not_below user laws d u s hd hs seen low) xs
          (All-both IsEntry
            (λ (d : Entry). internal_compare user (entry_key d) (internal_key u s 1) ≡ lt) xs
            (All-sorted user IsEntry es h) under))

  seek_lem :
      {T : Type 0} (table : Table T)
      → IsTable user table
      → (es : List Entry) (u : Bytes) (s : ℕ) → All IsEntry es
      → Distinct user es
      → length u + 8 < 2 ^ 32
      → All IsByte u
      → table.seek (add_all user table es) (lookup_memtable_key (lookup_key u s))
        ≡ Option.map entry_bytes (first_not (below user u s) (sorted user es))
  seek_lem table contract es u s h d hu hb =
      let xs = sorted user es in
      let target = lookup_memtable_key (lookup_key u s) in
      contract.seek_first (add_all user table es) target
      ∙ (rw (contents_lem table contract es h d) (
          first_not-map entry_bytes (below user u s) (λ x. is_lt (key_compare user x target)) xs
            (All-map
              {Q = λ (x : Entry).
                is_lt (key_compare user (entry_bytes x) target) ≡ below user u s x}
              (λ x (hx : IsEntry x).
                unfold key_compare in
                rw (slice_at-entry_bytes x hx, slice_at-memtable_key user u s hu hb) refl)
              xs (All-sorted user IsEntry es h))))

  -- After entries with different sequence numbers have been added to a memtable, in any order, `Get`
  -- for a key and a sequence number answers for the entry of that key with the greatest sequence
  -- number up to the given one: it finds the value, or the deletion, and nothing if there is no such
  -- entry. The skip list is assumed to keep its entries in order and to seek to the first that is
  -- not below the target.
  pub memtable_get-add_all :
      {T : Type 0} (table : Table T)
      → IsTable user table
      → (es : List Entry) (u : Bytes) (s : ℕ) → All IsEntry es
      → Distinct user es
      → length u + 8 < 2 ^ 32
      → All IsByte u
      → s ≤ max_sequence_number
      → (r : Option Entry) × IsNewest user u s es r
        × (memtable_get user table (add_all user table es) (lookup_key u s) ≡ result user r)
  unfolding memtable_get
  memtable_get-add_all table contract es u s h d hu hb hs =
      elim (Option-cases (first_not (below user u s) (sorted user es))) [
        | inl out ↦ (
          none,
          IsNewest-none u s es hs h out,
          rw (memtable_get, seek_lem table contract es u s h d hu hb, out) refl,
        )
        | inr (e, found) ↦
            let (r, newest, agrees) = IsNewest-at u s es hs h e found in
            (
              r,
              newest,
              rw (memtable_get, seek_lem table contract es u s h d hu hb, found)
                  (rw lookup_user_key_lem
                    (check_entry-entry_bytes user u e (found_entry u s es h e found) ∙ agrees)),
            )
      ]
