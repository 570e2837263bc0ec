-- ===== src/WriteBatch/Insert.antt =====
-- `WriteBatchInternal::InsertInto`: the entries that a batch adds to a memtable.
use d_lsm.Common.{ℕ, ◌+◌, ◌^◌, ◌<◌, ◌≡◌, ap, arith, ◌∙◌, append_assoc, append-nil}
use d_lsm.Common.{List, [], ◌∷◌, ◌++◌, length, All}
use d_lsm.Status.{ok}
use d_lsm.WriteBatch.{clear, set_sequence, type_value, type_deletion}
use d_lsm.WriteBatch.{Entry, Inserter, mem_table_inserter, insert_into}
use d_lsm.WriteBatch.Layout.{
  Op, put_op, delete_op, IsOp, build, encode_ops, build-clear, set_sequence-batch, sequence-batch,
}
use d_lsm.WriteBatch.Replay.{run, apply, iterate-batch}
use native.Mathlib.Nat.{mod-eq_of_lt}

abbrev pub entry : ℕ → Op → Entry
entry q (put_op key value) = record { seq = q; type = type_value; key = key; value = value }
entry q (delete_op key) = record { seq = q; type = type_deletion; key = key; value = [] }

-- The updates as memtable entries, numbered from `q` on.
abbrev pub numbered : ℕ → List Op → List Entry
numbered q [] = []
numbered q (op ∷ ops) = entry q op ∷ numbered (q + 1) ops

apply-inserter :
    (q : ℕ) (es : List Entry) (op : Op)
    → q + 1 < 2 ^ 64
    → apply mem_table_inserter (record { sequence = q; added = es }) op
      ≡ record { sequence = q + 1; added = es ++ entry q op ∷ [] }
apply-inserter q es (put_op key value) h = rw (mod-eq_of_lt h)
apply-inserter q es (delete_op key) h = rw (mod-eq_of_lt h)

run-inserter :
    (q : ℕ) (es : List Entry) (ops : List Op)
    → q + length ops < 2 ^ 64
    → (run mem_table_inserter (record { sequence = q; added = es }) ops).added
      ≡ es ++ numbered q ops
run-inserter q es [] h = rw append-nil
run-inserter q es (op ∷ ops) h =
    ap (λ (i : Inserter). (run mem_table_inserter i ops).added)
      (apply-inserter q es op (omega arith))
    ∙ (run-inserter (q + 1) (es ++ entry q op ∷ []) ops (omega arith) ∙ rw append_assoc)

-- A batch with sequence number `q` adds its updates to the memtable in order, the i-th of them
-- with sequence number `q + i`.
pub insert_into-build :
    (q : ℕ) (ops : List Op) (es : List Entry)
    → q + length ops < 2 ^ 64
    → length ops < 2 ^ 32
    → All IsOp ops
    → insert_into (set_sequence (build clear ops) q) es ≡ (ok, es ++ numbered q ops)
unfolding insert_into
insert_into-build q ops es hq hn ho = rw (build-clear ops hn ho) (
    rw (set_sequence-batch, sequence-batch q (length ops) (encode_ops ops) (omega arith))
      (rw (iterate-batch mem_table_inserter q ops (record { sequence = q; added = es }) hn ho)
        (ap (λ (t : List Entry). (ok, t)) (run-inserter q es ops hq))))
