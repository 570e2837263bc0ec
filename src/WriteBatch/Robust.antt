-- ===== src/WriteBatch/Robust.antt =====
-- `Iterate` over arbitrary bytes: it ends, and what it accepts is a sequence of updates.
use d_lsm.Common.{some, ℕ, zero, suc, ◌+◌, ◌≤◌, ◌≡◌, refl, arith}
use d_lsm.Common.{
  List, [], ◌∷◌, length, All, All-drop, drop, ltb, ◌==◌, Option-cases, inl, inr, ◌≢◌, Bool-cases,
}
use d_lsm.Coding.{Bytes, IsByte, get_length_prefixed_slice}
use d_lsm.Coding.Slices.{get_length_prefixed_slice_shrinks}
use d_lsm.Status.{ok}
use d_lsm.WriteBatch.{count, type_value, type_deletion}
use d_lsm.WriteBatch.{Handler, Scan, done, failed, out_of_fuel, iterate_loop, finish, iterate}
use d_lsm.WriteBatch.Layout.{Op, put_op, delete_op}
use d_lsm.WriteBatch.Replay.{run}

-- The bytes are the records of these updates: a type, the key, and for a put the value.
abbrev pub AreRecords : Bytes → List Op → Type 0
AreRecords src [] = src ≡ []
AreRecords src (put_op key value ∷ ops) =
    (body : Bytes) × (more : Bytes) × (rest : Bytes) × (src ≡ 1 ∷ body)
    × (get_length_prefixed_slice body ≡ some (key, more))
    × (get_length_prefixed_slice more ≡ some (value, rest))
    × AreRecords rest ops
AreRecords src (delete_op key ∷ ops) =
    (body : Bytes) × (rest : Bytes) × (src ≡ 0 ∷ body)
    × (get_length_prefixed_slice body ≡ some (key, rest))
    × AreRecords rest ops

module _ {S : Type 0} (h : Handler S) where
  -- The scan is what some updates leave; if it is done, its number counts them.
  abbrev Explained : Bytes → ℕ → S → Scan S → Type 0
  Explained src found s (done n s') =
      (ops : List Op) × AreRecords src ops × (s' ≡ run h s ops) × (n ≡ found + length ops)
  Explained src found s (failed message s') = Unit
  Explained src found s out_of_fuel = ⊥

  Explained-put :
      (key value body more rest : Bytes) (found : ℕ) (s : S) (r : Scan S)
      → get_length_prefixed_slice body ≡ some (key, more)
      → get_length_prefixed_slice more ≡ some (value, rest)
      → Explained rest (found + 1) (h.put s key value) r
      → Explained (1 ∷ body) found s r
  Explained-put key value body more rest found s (done n s') read read' (ops, records, e, c) =
      (put_op key value ∷ ops, (body, more, rest, refl, read, read', records), e, omega arith)
  Explained-put key value body more rest found s (failed message s') read read' e = tt
  Explained-put key value body more rest found s out_of_fuel read read' e = e

  Explained-delete :
      (key body rest : Bytes) (found : ℕ) (s : S) (r : Scan S)
      → get_length_prefixed_slice body ≡ some (key, rest)
      → Explained rest (found + 1) (h.delete s key) r
      → Explained (0 ∷ body) found s r
  Explained-delete key body rest found s (done n s') read (ops, records, e, c) =
      (delete_op key ∷ ops, (body, rest, refl, read, records), e, omega arith)
  Explained-delete key body rest found s (failed message s') read e = tt
  Explained-delete key body rest found s out_of_fuel read e = e

  iterate_loop-Explained :
      (fuel : ℕ) (src : Bytes) (found : ℕ) (s : S)
      → All IsByte src
      → length src ≤ fuel
      → Explained src found s (iterate_loop h fuel src found s)
  unfolding iterate_loop
  iterate_loop-Explained fuel [] found s hb hf = ([], refl, refl, omega arith)
  iterate_loop-Explained zero (b ∷ src) found s hb hf = absurd (omega arith)
  iterate_loop-Explained (suc fuel) (b ∷ src) found s (_, hb) hf =
      elim (Bool-cases (b == type_value)) [
        | inl is_put ↦
            let is_one : b ≡ 1 = ground arith in
            rw is_one (elim (Option-cases (get_length_prefixed_slice src)) [
              | inl bad ↦ rw bad tt
              | inr ((key, src'), read) ↦
                  let (short, hb') = get_length_prefixed_slice_shrinks src key src' hb read in
                  rw read (elim (Option-cases (get_length_prefixed_slice src')) [
                    | inl bad ↦ rw bad tt
                    | inr ((value, rest), read') ↦
                        let (short', hb'') =
                          get_length_prefixed_slice_shrinks src' value rest hb' read' in
                        rw read' (
                          Explained-put key value src src' rest found s _ read read' (
                            iterate_loop-Explained fuel rest (found + 1) (h.put s key value) hb''
                              (omega arith)))
                  ])
            ])
        | inr not_put ↦ rw not_put (elim (Bool-cases (b == type_deletion)) [
          | inr unknown ↦ rw unknown tt
          | inl is_delete ↦
              let is_zero : b ≡ 0 = ground arith in
              rw is_zero (elim (Option-cases (get_length_prefixed_slice src)) [
                | inl bad ↦ rw bad tt
                | inr ((key, rest), read) ↦
                    let (short, hb') = get_length_prefixed_slice_shrinks src key rest hb read in
                    rw read (
                      Explained-delete key src rest found s _ read (
                        iterate_loop-Explained fuel rest (found + 1) (h.delete s key) hb'
                          (omega arith)))
              ])
        ])
      ]

  -- The scan that `Iterate` makes of the records of `b`.
  abbrev scan : Bytes → S → Scan S
  scan b s = iterate_loop h (length (drop 12 b)) (drop 12 b) 0 s

  scan-Explained : (b : Bytes) (s : S) → All IsByte b → Explained (drop 12 b) 0 s (scan b s)
  scan-Explained b s hb =
      iterate_loop-Explained (length (drop 12 b)) (drop 12 b) 0 s (All-drop IsByte 12 b hb)
        (omega arith)

  not_out_of_fuel : (src : Bytes) (r : Scan S) (s : S) → Explained src 0 s r → r ≢ out_of_fuel
  not_out_of_fuel src (done n s') s e = λ p. cc
  not_out_of_fuel src (failed m s') s e = λ p. cc
  not_out_of_fuel src out_of_fuel s e = absurd e

  -- On any bytes the loop of `Iterate` ends by one of the code's own exits: the number of bytes
  -- is fuel enough.
  pub iterate_loop_ends :
      (b : Bytes) (s : S)
      → All IsByte b
      → iterate_loop h (length (drop 12 b)) (drop 12 b) 0 s ≢ out_of_fuel
  iterate_loop_ends b s hb = not_out_of_fuel (drop 12 b) (scan b s) s (scan-Explained b s hb)

  finish-ok :
      (src : Bytes) (expected : ℕ) (s s' : S) (r : Scan S)
      → Explained src 0 s r
      → finish expected s r ≡ (ok, s')
      → (ops : List Op) × AreRecords src ops × (s' ≡ run h s ops) × (length ops ≡ expected)
  unfolding finish
  finish-ok src expected s s' (done n t) (ops, records, e, c) p =
      (ops, records, ground arith, ground arith)
  finish-ok src expected s s' (failed m t) e p = absurd (ground arith)
  finish-ok src expected s s' out_of_fuel e p = absurd e

  -- What stands behind the header of a batch of bytes that `Iterate` accepts are the records of a sequence of
  -- updates, as many as its count says, and the handler was called for exactly those, in order.
  pub iterate_accepts :
      (b : Bytes) (s s' : S)
      → All IsByte b
      → iterate h b s ≡ (ok, s')
      → (ops : List Op) × AreRecords (drop 12 b) ops × (s' ≡ run h s ops) × (length ops ≡ count b)
  unfolding iterate
  iterate_accepts b s s' hb p = elim (Bool-cases (ltb (length b) 12)) [
    | inl small ↦ absurd (cc (rw small at p))
    | inr large ↦
        finish-ok (drop 12 b) (count b) s s' (scan b s) (scan-Explained b s hb) (rw large at p)
  ]
