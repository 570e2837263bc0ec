-- ===== src/WriteBatch/Layout.antt =====
-- The layout of a batch: what each operation does to the header and to the records.
use d_lsm.Common.{append-nil, ℕ, ◌+◌, ◌^◌, ◌<◌, ◌≡◌, refl, ap, arith, ◌∙◌, append_assoc}
use d_lsm.Common.{List, [], ◌∷◌, ◌++◌, length, All, drop}
use d_lsm.Coding.{Bytes, IsByte, encode_fixed32, encode_fixed64}
use d_lsm.Coding.Fixed.{decode_fixed32-encode_fixed32, decode_fixed64-encode_fixed64}
use d_lsm.Coding.Slices.{length_prefixed, put_length_prefixed_slice-append}
use d_lsm.WriteBatch.{clear, count, set_count, sequence, set_sequence, put, delete, append}
use d_lsm.WriteBatch.{type_value, type_deletion}
use native.Mathlib.Nat.{mod-eq_of_lt}

-- A batch with this sequence number, count and body.
abbrev pub batch : ℕ → ℕ → Bytes → Bytes
batch seq n body = encode_fixed64 seq ++ (encode_fixed32 n ++ body)

pub clear-eq-batch : clear ≡ batch 0 0 []
unfolding clear encode_fixed64 encode_fixed32
clear-eq-batch = refl

module _ (seq n : ℕ) (body : Bytes) where
  pub sequence-batch : seq < 2 ^ 64 → sequence (batch seq n body) ≡ seq
  unfolding sequence
  sequence-batch h = decode_fixed64-encode_fixed64 seq (encode_fixed32 n ++ body) h

  drop-header : drop 8 (batch seq n body) ≡ encode_fixed32 n ++ body
  unfolding encode_fixed64
  drop-header = refl

  pub drop-batch : drop 12 (batch seq n body) ≡ body
  unfolding encode_fixed64 encode_fixed32
  drop-batch = refl

  pub count-batch : n < 2 ^ 32 → count (batch seq n body) ≡ n
  unfolding count
  count-batch h = rw drop-header (decode_fixed32-encode_fixed32 n body h)

  pub set_count-batch : (m : ℕ) → set_count (batch seq n body) m ≡ batch seq m body
  unfolding set_count encode_fixed64 encode_fixed32
  set_count-batch m = refl

  pub set_sequence-batch : (q : ℕ) → set_sequence (batch seq n body) q ≡ batch q n body
  unfolding set_sequence encode_fixed64
  set_sequence-batch q = refl

  batch-append : (more : Bytes) → batch seq n body ++ more ≡ batch seq n (body ++ more)
  unfolding encode_fixed64 encode_fixed32
  batch-append more = refl

-- An update, and the record that stands for it.
pub data Op : Type 0 where
  put_op : Bytes → Bytes → Op
  delete_op : Bytes → Op

abbrev pub encode_op : Op → Bytes
encode_op (put_op key value) = type_value ∷ (length_prefixed key ++ length_prefixed value)
encode_op (delete_op key) = type_deletion ∷ length_prefixed key

abbrev pub encode_ops : List Op → Bytes
encode_ops [] = []
encode_ops (op ∷ ops) = encode_op op ++ encode_ops ops

-- The keys and values are byte strings that a 32-bit length fits.
abbrev pub IsSlice : Bytes → Type 0
IsSlice s = (length s < 2 ^ 32) × All IsByte s

abbrev pub IsOp : Op → Type 0
IsOp (put_op key value) = IsSlice key × IsSlice value
IsOp (delete_op key) = IsSlice key

pub update : Bytes → Op → Bytes
update b (put_op key value) = put b key value
update b (delete_op key) = delete b key

pub update-batch :
    (seq n : ℕ) (body : Bytes) (op : Op)
    → n + 1 < 2 ^ 32
    → IsOp op
    → update (batch seq n body) op ≡ batch seq (n + 1) (body ++ encode_op op)
unfolding update put delete
update-batch seq n body (put_op key value) hn (hk, hv) =
    rw (count-batch seq n body (omega arith), mod-eq_of_lt hn, set_count-batch, batch-append)
      (rw (put_length_prefixed_slice-append _ key hk.0, batch-append)
        (rw (put_length_prefixed_slice-append _ value hv.0, batch-append)
          (ap (batch seq (n + 1)) (simp append_assoc))))
update-batch seq n body (delete_op key) hn hk =
    rw (count-batch seq n body (omega arith), mod-eq_of_lt hn, set_count-batch, batch-append)
      (rw (put_length_prefixed_slice-append _ key hk.0, batch-append)
        (ap (batch seq (n + 1)) (simp append_assoc)))

pub append-batch :
    (seq n : ℕ) (body : Bytes) (q m : ℕ) (more : Bytes)
    → n + m < 2 ^ 32
    → append (batch seq n body) (batch q m more) ≡ batch seq (n + m) (body ++ more)
unfolding append
append-batch seq n body q m more h =
    rw (count-batch seq n body (omega arith), count-batch q m more (omega arith), drop-batch)
      (rw (mod-eq_of_lt h, set_count-batch) (batch-append seq (n + m) body more))

-- The batch that a list of updates builds.
pub build : Bytes → List Op → Bytes
build b [] = b
build b (op ∷ ops) = build (update b op) ops

pub build-batch :
    (seq n : ℕ) (body : Bytes) (ops : List Op)
    → n + length ops < 2 ^ 32
    → All IsOp ops
    → build (batch seq n body) ops ≡ batch seq (n + length ops) (body ++ encode_ops ops)
unfolding build
build-batch seq n body [] hn h = rw append-nil (ap (λ (k : ℕ). batch seq k body) (omega arith))
build-batch seq n body (op ∷ ops) hn (ho, h) = rw (update-batch seq n body op (omega arith) ho) (
    rw (build-batch seq (n + 1) (body ++ encode_op op) ops (omega arith) h, append_assoc)
      (ap (λ (k : ℕ). batch seq k (body ++ (encode_op op ++ encode_ops ops))) (omega arith)))

pub build-clear :
    (ops : List Op)
    → length ops < 2 ^ 32
    → All IsOp ops
    → build clear ops ≡ batch 0 (length ops) (encode_ops ops)
build-clear ops hn h = rw clear-eq-batch (
    build-batch 0 0 [] ops (omega arith) h
    ∙ ap (λ (k : ℕ). batch 0 k (encode_ops ops)) (omega arith))
