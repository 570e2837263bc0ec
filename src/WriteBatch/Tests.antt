-- ===== src/WriteBatch/Tests.antt =====
-- Concrete runs of write batches, and their theorems at concrete inputs.
use d_lsm.Common.{◌≡◌, ◌≢◌, refl, arith, [], ◌∷◌, ◌++◌, length, List, drop}
use d_lsm.Coding.{Bytes, decode_fixed32}
use d_lsm.Coding.{get_length_prefixed_slice, get_varint32}
use d_lsm.Status.{ok}
use d_lsm.WriteBatch.{
  clear, count, append, set_sequence, iterate, iterate_loop, out_of_fuel, mem_table_inserter,
  Inserter, insert_into,
}
use d_lsm.WriteBatch.Layout.{Op, put_op, delete_op, build}
use d_lsm.WriteBatch.Replay.{run, iterate-build, iterate-append}
use d_lsm.WriteBatch.Robust.{AreRecords, iterate_loop_ends, iterate_accepts}
use d_lsm.WriteBatch.Insert.{numbered, insert_into-build}

abbrev ops : List Op
ops = put_op (97 ∷ []) (98 ∷ 99 ∷ []) ∷ delete_op (97 ∷ []) ∷ []

abbrev empty : Inserter
empty = record { sequence = 5; added = [] }

iterate-build_example :
    iterate mem_table_inserter (build clear ops) empty ≡ (ok, run mem_table_inserter empty ops)
iterate-build_example = iterate-build mem_table_inserter ops empty (omega arith) (omega arith)

iterate-append_example :
    iterate mem_table_inserter (append (build clear ops) (build clear ops)) empty
    ≡ (ok, run mem_table_inserter (run mem_table_inserter empty ops) ops)
iterate-append_example =
    iterate-append mem_table_inserter ops ops empty (omega arith) (omega arith) (omega arith)

-- A header that promises one record, and a record that is cut short.
abbrev broken : Bytes
broken = 0 ∷ 0 ∷ 0 ∷ 0 ∷ 0 ∷ 0 ∷ 0 ∷ 0 ∷ 1 ∷ 0 ∷ 0 ∷ 0 ∷ 1 ∷ 5 ∷ 97 ∷ []

iterate_loop_ends_example :
    iterate_loop mem_table_inserter (length (drop 12 broken)) (drop 12 broken) 0 empty ≢ out_of_fuel
iterate_loop_ends_example = iterate_loop_ends mem_table_inserter broken empty (omega arith)

abbrev one_delete : Bytes
one_delete = 0 ∷ 0 ∷ 0 ∷ 0 ∷ 0 ∷ 0 ∷ 0 ∷ 0 ∷ 1 ∷ 0 ∷ 0 ∷ 0 ∷ 0 ∷ 1 ∷ 97 ∷ []

accepted :
    iterate mem_table_inserter one_delete empty
    ≡ (ok, run mem_table_inserter empty (delete_op (97 ∷ []) ∷ []))
unfolding iterate count get_length_prefixed_slice get_varint32 decode_fixed32
accepted = refl

iterate_accepts_example :
    (us : List Op) × AreRecords (drop 12 one_delete) us
    × (run mem_table_inserter empty (delete_op (97 ∷ []) ∷ []) ≡ run mem_table_inserter empty us)
    × (length us ≡ count one_delete)
iterate_accepts_example =
    iterate_accepts mem_table_inserter one_delete empty
      (run mem_table_inserter empty (delete_op (97 ∷ []) ∷ [])) (omega arith) accepted

insert_into-build_example :
    insert_into (set_sequence (build clear ops) 5) [] ≡ (ok, [] ++ numbered 5 ops)
insert_into-build_example = insert_into-build 5 ops [] (omega arith) (omega arith) (omega arith)
