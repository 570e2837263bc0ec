-- ===== src/Memtable/Tests.antt =====
-- The theorems on the memtable at concrete inputs, with a table that is a sorted list.
use d_lsm.Common.{ℕ, ◌<◌, ◌≤◌, length, ◌≡◌, arith, List, [], ◌∷◌, All, Option, refl}
use d_lsm.Coding.{Bytes, IsByte}
use d_lsm.Comparator.{is_lt}
use d_lsm.Comparator.Interface.{bytewise_comparator, bytewise_comparator-IsComparator}
use d_lsm.InternalKey.{lookup_key}
use d_lsm.WriteBatch.{Entry, type_value, type_deletion, clear, set_sequence, insert_into}
use d_lsm.WriteBatch.Layout.{put_op, delete_op, Op, build}
use d_lsm.WriteBatch.Insert.{numbered}
use d_lsm.Memtable.Batch.{add_in_order, memtable_get-insert_into}
use d_lsm.Memtable.{Table, memtable_get, key_compare}
use d_lsm.Memtable.Sorted.{place, first_not}
use d_lsm.Memtable.Layout.{IsEntry}
use d_lsm.Memtable.Newest.{IsTable, IsNewest, result, add_all}
use d_lsm.Memtable.Get.{memtable_get-add_all}

abbrev list_table : Table (List Bytes)
list_table = record {
  contents = λ t. t;
  empty = [];
  insert = λ t e. place (λ x y. is_lt (key_compare bytewise_comparator x y)) e t;
  seek = λ t target. first_not (λ x. is_lt (key_compare bytewise_comparator x target)) t;
}

list_table-IsTable : IsTable bytewise_comparator list_table
list_table-IsTable = record {
  contents_empty = refl;
  contents_insert = λ t e h. refl;
  seek_first = λ t target. refl;
}

-- A key is written, deleted and written again, and another key stands behind it.
abbrev history : List Entry
history =
    record { seq = 9; type = type_value; key = 97 ∷ []; value = 3 ∷ [] }
    ∷ record { seq = 7; type = type_deletion; key = 97 ∷ []; value = [] }
    ∷ record { seq = 5; type = type_value; key = 97 ∷ []; value = 1 ∷ 2 ∷ [] }
    ∷ record { seq = 6; type = type_value; key = 98 ∷ []; value = [] }
    ∷ []

IsEntry-fits :
    (q t k : ℕ) (v : Bytes)
    → q < 100
    → t ≤ 1
    → k < 256
    → length v < 100
    → All IsByte v
    → IsEntry (record { seq = q; type = t; key = k ∷ []; value = v })
IsEntry-fits q t k v hq ht hk hv bv = record {
  key_fits = omega arith;
  value_fits = omega arith;
  key_bytes = (hk, tt);
  value_bytes = bv;
  seq_fits = omega arith;
  type_fits = ht;
}

history-IsEntry : All IsEntry history
history-IsEntry = (
  IsEntry-fits 9 1 97 (3 ∷ []) (omega arith) (omega arith) (omega arith) (omega arith)
      (omega arith),
  (
    IsEntry-fits 7 0 97 [] (omega arith) (omega arith) (omega arith) (omega arith) tt,
    (
      IsEntry-fits 5 1 97 (1 ∷ 2 ∷ []) (omega arith) (omega arith) (omega arith) (omega arith)
          (omega arith),
      (IsEntry-fits 6 1 98 [] (omega arith) (omega arith) (omega arith) (omega arith) tt, tt),
    ),
  ),
)

memtable_get-add_all_example :
    (r : Option Entry) × IsNewest bytewise_comparator (97 ∷ []) 8 history r
    × (memtable_get bytewise_comparator list_table
          (add_all bytewise_comparator list_table history)
          (lookup_key (97 ∷ []) 8)
        ≡ result bytewise_comparator r)
memtable_get-add_all_example =
    memtable_get-add_all bytewise_comparator bytewise_comparator-IsComparator list_table
      list_table-IsTable history (97 ∷ []) 8 history-IsEntry (omega arith) (omega arith)
      (omega arith) (omega arith)

-- A key is written and then deleted.
abbrev updates : List Op
updates = put_op (97 ∷ []) (5 ∷ []) ∷ delete_op (97 ∷ []) ∷ []

memtable_get-insert_into_example :
    (r : Option Entry) × IsNewest bytewise_comparator (97 ∷ []) 10 (numbered 10 updates) r
    × (memtable_get bytewise_comparator list_table
          (add_in_order bytewise_comparator list_table list_table.empty
            (insert_into (set_sequence (build clear updates) 10) []).1)
          (lookup_key (97 ∷ []) 10)
        ≡ result bytewise_comparator r)
memtable_get-insert_into_example =
    memtable_get-insert_into bytewise_comparator bytewise_comparator-IsComparator list_table
      list_table-IsTable 10 updates (97 ∷ []) 10 (omega arith) (omega arith)
      (
        (((omega arith, omega arith), (omega arith, omega arith)), omega arith),
        (((omega arith, omega arith), omega arith), tt),
      )
      (omega arith) (omega arith) (omega arith)
