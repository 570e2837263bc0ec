-- ===== src/WriteBatch/Replay.antt =====
-- `Iterate` over a batch that was built by `Put`, `Delete` and `Append` replays its updates.
use d_lsm.Common.{
  le→ltb, ==_iff, ℕ, zero, suc, ◌+◌, ◌^◌, ◌≤◌, ◌<◌, ◌≡◌, refl, ap, arith, ◌∙◌, append_assoc,
}
use d_lsm.Common.{List, [], ◌∷◌, ◌++◌, length, All, All-append, length-append}
use d_lsm.Coding.{Bytes, IsByte, encode_fixed64, encode_fixed32}
use d_lsm.Coding.Varint.{encode_varint32-IsByte}
use d_lsm.Coding.Slices.{length_prefixed, get_length_prefixed_slice_lem}
use d_lsm.Status.{ok}
use d_lsm.WriteBatch.{clear, append}
use d_lsm.WriteBatch.{Handler, done, iterate_loop, iterate}
use d_lsm.WriteBatch.Layout.{
  batch, Op, put_op, delete_op, encode_op, encode_ops, IsSlice, IsOp, build,
}
use d_lsm.WriteBatch.Layout.{build-clear, append-batch, count-batch, drop-batch}

length_prefixed-IsByte : (s : Bytes) → IsSlice s → All IsByte (length_prefixed s)
length_prefixed-IsByte s (short, bytes) =
    All-append IsByte _ s (encode_varint32-IsByte (length s) short) bytes

encode_op-IsByte : (op : Op) → IsOp op → All IsByte (encode_op op)
encode_op-IsByte (put_op k v) (hk, hv) =
    (omega arith, All-append IsByte _ _ (length_prefixed-IsByte k hk) (length_prefixed-IsByte v hv))
encode_op-IsByte (delete_op k) hk = (omega arith, length_prefixed-IsByte k hk)

encode_ops-IsByte : (ops : List Op) → All IsOp ops → All IsByte (encode_ops ops)
encode_ops-IsByte [] h = tt
encode_ops-IsByte (op ∷ ops) (ho, h) =
    All-append IsByte _ _ (encode_op-IsByte op ho) (encode_ops-IsByte ops h)

length-batch : (seq n : ℕ) (body : Bytes) → length (batch seq n body) ≡ length body + 12
unfolding encode_fixed64 encode_fixed32
length-batch seq n body = omega arith

encode_ops_shorter :
    (op : Op) (ops : List Op) → length (encode_ops ops) < length (encode_ops (op ∷ ops))
encode_ops_shorter (put_op k v) ops = rw length-append (omega arith)
encode_ops_shorter (delete_op k) ops = rw length-append (omega arith)

module _ {S : Type 0} (h : Handler S) where
  abbrev pub apply : S → Op → S
  apply s (put_op key value) = h.put s key value
  apply s (delete_op key) = h.delete s key

  abbrev pub run : S → List Op → S
  run s [] = s
  run s (op ∷ ops) = run (apply s op) ops

  run-append : (xs ys : List Op) (s : S) → run s (xs ++ ys) ≡ run (run s xs) ys
  run-append [] ys s = refl
  run-append (x ∷ xs) ys s = run-append xs ys (apply s x)

  iterate_loop-op :
      (fuel : ℕ) (op : Op) (rest : Bytes) (found : ℕ) (s : S)
      → IsOp op
      → All IsByte rest
      → iterate_loop h (suc fuel) (encode_op op ++ rest) found s
        ≡ iterate_loop h fuel rest (found + 1) (apply s op)
  unfolding iterate_loop
  iterate_loop-op fuel (put_op key value) rest found s (hk, hv) hr =
      let hvr = All-append IsByte _ rest (length_prefixed-IsByte value hv) hr in
      rw (append_assoc (length_prefixed key) (length_prefixed value) rest) (
        rw (get_length_prefixed_slice_lem key (length_prefixed value ++ rest) hk.0 hk.1 hvr)
          (rw (get_length_prefixed_slice_lem value rest hv.0 hv.1 hr)))
  iterate_loop-op fuel (delete_op key) rest found s hk hr =
      rw (get_length_prefixed_slice_lem key rest hk.0 hk.1 hr)

  iterate_loop-ops :
      (ops : List Op) (fuel found : ℕ) (s : S)
      → All IsOp ops
      → length (encode_ops ops) ≤ fuel
      → iterate_loop h fuel (encode_ops ops) found s ≡ done (found + length ops) (run s ops)
  iterate_loop-ops [] fuel found s ho hf =
      unfold iterate_loop in ap (λ (n : ℕ). done n s) (omega arith)
  iterate_loop-ops (op ∷ ops) zero found s ho hf = absurd (omega (arith, encode_ops_shorter op ops))
  iterate_loop-ops (op ∷ ops) (suc fuel) found s (ho, hos) hf =
      iterate_loop-op fuel op (encode_ops ops) found s ho (encode_ops-IsByte ops hos)
      ∙ iterate_loop-ops ops fuel (found + 1) (apply s op) hos
          (omega (arith, encode_ops_shorter op ops))
      ∙ ap (λ (n : ℕ). done n (run (apply s op) ops)) (omega arith)

  pub iterate-batch :
      (seq : ℕ) (ops : List Op) (s : S)
      → length ops < 2 ^ 32
      → All IsOp ops
      → iterate h (batch seq (length ops) (encode_ops ops)) s ≡ (ok, run s ops)
  iterate-batch seq ops s hn ho =
      unfold iterate in
      rw (length-batch, le→ltb (length (encode_ops ops) + 12) 12 (omega arith))
        (rw
          (
            drop-batch,
            count-batch seq (length ops) (encode_ops ops) hn,
            iterate_loop-ops ops (length (encode_ops ops)) 0 s ho (omega arith),
          )
          (rw ((==_iff (0 + length ops) (length ops)).1 (omega arith))))

  -- Iterating over a batch calls the handler once for each update, in the order in which they
  -- were put in, and succeeds.
  pub iterate-build :
      (ops : List Op) (s : S)
      → length ops < 2 ^ 32
      → All IsOp ops
      → iterate h (build clear ops) s ≡ (ok, run s ops)
  iterate-build ops s hn ho = rw (build-clear ops hn ho) (iterate-batch 0 ops s hn ho)

  encode_ops-append : (xs ys : List Op) → encode_ops xs ++ encode_ops ys ≡ encode_ops (xs ++ ys)
  encode_ops-append [] ys = refl
  encode_ops-append (x ∷ xs) ys = rw append_assoc (rw (encode_ops-append xs ys))

  -- Iterating over a batch to which another was appended replays the first and then the second.
  pub iterate-append :
      (xs ys : List Op) (s : S)
      → length xs + length ys < 2 ^ 32
      → All IsOp xs
      → All IsOp ys
      → iterate h (append (build clear xs) (build clear ys)) s ≡ (ok, run (run s xs) ys)
  iterate-append xs ys s hn hx hy =
      let joined = All-append IsOp xs ys hx hy in
      rw (build-clear xs (omega arith) hx, build-clear ys (omega arith) hy)
        (rw (append-batch 0 (length xs) (encode_ops xs) 0 (length ys) (encode_ops ys) hn) (
          rw (encode_ops-append xs ys, ← length-append xs ys)
            (iterate-batch 0 (xs ++ ys) s (rw length-append hn) joined
              ∙ ap (λ (t : S). (ok, t)) (run-append xs ys s))))
