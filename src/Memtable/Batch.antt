-- ===== src/Memtable/Batch.antt =====
-- From a write batch to a lookup: `WriteBatchInternal::InsertInto` and then `MemTable::Get`.
use d_lsm.Common.{ℕ, ◌+◌, ◌^◌, ◌≤◌, ◌<◌, ◌≡◌, ◌≢◌, refl, ap, arith}
use d_lsm.Common.{List, [], ◌∷◌, length, All, Any, All-map, Option, some, none, inl, inr, ◌⊎◌}
use d_lsm.Coding.{Bytes, IsByte}
use d_lsm.Comparator.Interface.{Comparator, IsComparator}
use d_lsm.InternalKey.{lookup_key, max_sequence_number}
use d_lsm.Status.{Status}
use d_lsm.WriteBatch.{Entry, clear, set_sequence, insert_into}
use d_lsm.WriteBatch.Layout.{Op, put_op, delete_op, IsOp, build}
use d_lsm.WriteBatch.Insert.{entry, numbered, insert_into-build}
use d_lsm.Memtable.{Table, memtable_add, memtable_get}
use d_lsm.Memtable.Layout.{IsEntry}
use d_lsm.Memtable.Newest.{IsTable, Visible, IsNewest, Distinct, result, add_all}
use d_lsm.Memtable.Get.{memtable_get-add_all}

-- A list onto whose front another is moved, element by element.
abbrev onto : List Entry → List Entry → List Entry
onto [] acc = acc
onto (e ∷ es) acc = onto es (e ∷ acc)

All-onto : (P : Entry → Type 0) (es acc : List Entry) → All P es → All P acc → All P (onto es acc)
All-onto P [] acc h k = k
All-onto P (e ∷ es) acc (he, h) k = All-onto P es (e ∷ acc) h (he, k)

All-of_onto :
    (P : Entry → Type 0) (es acc : List Entry) → All P (onto es acc) → All P es × All P acc
All-of_onto P [] acc h = (tt, h)
All-of_onto P (e ∷ es) acc h = let (rest, (he, k)) = All-of_onto P es (e ∷ acc) h in ((he, rest), k)

Any-of_onto :
    (P : Entry → Type 0) (es acc : List Entry) → Any P (onto es acc) → Any P es ⊎ Any P acc
Any-of_onto P [] acc h = inr h
Any-of_onto P (e ∷ es) acc h = elim (Any-of_onto P es (e ∷ acc) h) [
  | inl rest ↦ inl (inr rest)
  | inr (inl he) ↦ inl (inl he)
  | inr (inr k) ↦ inr k
]

seq-entry : (q : ℕ) (op : Op) → (entry q op).seq ≡ q
seq-entry q (put_op key value) = refl
seq-entry q (delete_op key) = refl

-- An update that a batch and a memtable entry have room for.
abbrev pub IsUpdate : Op → Type 0
IsUpdate (put_op key value) = IsOp (put_op key value) × (length key + 8 < 2 ^ 32)
IsUpdate (delete_op key) = IsOp (delete_op key) × (length key + 8 < 2 ^ 32)

IsUpdate-IsOp : (op : Op) → IsUpdate op → IsOp op
IsUpdate-IsOp (put_op key value) h = h.0
IsUpdate-IsOp (delete_op key) h = h.0

entry-IsEntry : (q : ℕ) (op : Op) → q ≤ max_sequence_number → IsUpdate op → IsEntry (entry q op)
entry-IsEntry q (put_op key value) hq (((_, bk), (fv, bv)), fk) = record {
  key_fits = fk;
  value_fits = fv;
  key_bytes = bk;
  value_bytes = bv;
  seq_fits = hq;
  type_fits = omega arith;
}
entry-IsEntry q (delete_op key) hq ((_, bk), fk) = record {
  key_fits = fk;
  value_fits = omega arith;
  key_bytes = bk;
  value_bytes = tt;
  seq_fits = hq;
  type_fits = omega arith;
}

numbered-IsEntry :
    (q : ℕ) (ops : List Op)
    → q + length ops ≤ max_sequence_number
    → All IsUpdate ops
    → All IsEntry (numbered q ops)
numbered-IsEntry q [] hq h = tt
numbered-IsEntry q (op ∷ ops) hq (ho, h) =
    (entry-IsEntry q op (omega arith) ho, numbered-IsEntry (q + 1) ops (omega arith) h)

module _ (user : Comparator) where
  -- The calls of `Add` in order.
  abbrev pub add_in_order : {T : Type 0} → Table T → T → List Entry → T
  add_in_order table t [] = t
  add_in_order table t (e ∷ es) =
      add_in_order table (memtable_add user table t e.seq e.type e.key e.value) es

  add_in_order-eq-add_all :
      {T : Type 0} (table : Table T) (es acc : List Entry)
      → add_in_order table (add_all user table acc) es ≡ add_all user table (onto es acc)
  add_in_order-eq-add_all table [] acc = refl
  add_in_order-eq-add_all table (e ∷ es) acc = add_in_order-eq-add_all table es (e ∷ acc)

  Distinct-onto-numbered :
      (q : ℕ) (ops : List Op) (acc : List Entry)
      → All (λ d. d.seq < q) acc
      → Distinct user acc
      → Distinct user (onto (numbered q ops) acc)
  Distinct-onto-numbered q [] acc h d = d
  Distinct-onto-numbered q (op ∷ ops) acc h d =
      Distinct-onto-numbered (q + 1) ops (entry q op ∷ acc)
        (
          omega (arith, seq-entry q op),
          All-map {P = λ d'. d'.seq < q} {Q = λ d'. d'.seq < q + 1}
              (λ d' (below : d'.seq < q). omega (arith, below)) acc h,
        )
        (
          All-map {P = λ d'. d'.seq < q} {Q = λ d'. d'.seq ≢ (entry q op).seq}
              (λ d' (below : d'.seq < q) same. omega (arith, below, same, seq-entry q op)) acc h,
          d,
        )

  IsNewest-of_onto :
      (u : Bytes) (s : ℕ) (es : List Entry) (r : Option Entry)
      → IsNewest user u s (onto es []) r
      → IsNewest user u s es r
  IsNewest-of_onto u s es none h = (All-of_onto (λ e. Visible user u s e → ⊥) es [] h).0
  IsNewest-of_onto u s es (some e) (there, seen, top) = (
    elim (Any-of_onto (λ d. d ≡ e) es [] there) [ inl h ↦ h | inr h ↦ absurd h ],
    seen,
    (All-of_onto (λ d. Visible user u s d → d.seq ≤ e.seq) es [] top).0,
  )

-- After a batch of updates with sequence number `q` has been inserted into an empty memtable, `Get`
-- for a key at sequence number `s` answers for the last update of that key among those with a
-- number up to `s`, the i-th update having the number `q + i`. The skip list is assumed to keep its
-- entries in order and to seek to the first that is not below the target.
pub memtable_get-insert_into :
    (user : Comparator) (laws : IsComparator user) {T : Type 0} (table : Table T)
    → IsTable user table
    → (q : ℕ) (ops : List Op) (u : Bytes) (s : ℕ) → q + length ops ≤ max_sequence_number
    → length ops < 2 ^ 32
    → All IsUpdate ops
    → length u + 8 < 2 ^ 32
    → All IsByte u
    → s ≤ max_sequence_number
    → (r : Option Entry) × IsNewest user u s (numbered q ops) r
      × (memtable_get user table
            (add_in_order user table table.empty
              (insert_into (set_sequence (build clear ops) q) []).1)
            (lookup_key u s)
          ≡ result user r)
memtable_get-insert_into user laws table contract q ops u s hq hn h hu hb hs =
    let es = numbered q ops in
    let added : (insert_into (set_sequence (build clear ops) q) []).1 ≡ es =
      ap (λ (p : Status × List Entry). p.1)
        (insert_into-build q ops [] (omega arith) hn
          (All-map {P = IsUpdate} {Q = IsOp} IsUpdate-IsOp ops h)) in
    let (r, newest, answers) =
      memtable_get-add_all user laws table contract (onto es []) u s
        (All-onto IsEntry es [] (numbered-IsEntry q ops hq h) tt)
        (Distinct-onto-numbered user q ops [] tt tt) hu hb hs in
    (
      r,
      IsNewest-of_onto user u s es r newest,
      rw (added, add_in_order-eq-add_all user table es []) answers,
    )
