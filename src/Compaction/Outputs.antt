-- ===== src/Compaction/Outputs.antt =====
-- What a compaction writes: the entries that it kept, in files that make a level.
use d_lsm.Common.{ℕ, suc, ◌≡◌, inl, inr, refl, ap, sym, ◌∙◌, arith, Bool, true, false}
use d_lsm.Common.{Option, some, none, Bool-cases, List, [], ◌∷◌, ◌++◌, leb}
use d_lsm.Common.{append_assoc, append-nil, length}
use d_lsm.Coding.{Bytes}
use d_lsm.Status.{Status, is_ok}
use d_lsm.Compaction.{
  KeyValue, KeyState, no_key, kept, CompactionOutput, CompactionState, open_output,
}
use d_lsm.Compaction.{
  finish_output, add_to_output, Surroundings, compaction_loop, finish_compaction,
}
use d_lsm.Compaction.{do_compaction_work}

-- The entries of the outputs, whose last is the first of the list.
abbrev pub written : List CompactionOutput → List KeyValue
written [] = []
written (out ∷ outputs) = written outputs ++ out.entries

abbrev pub taken : Option CompactionOutput → List KeyValue
taken none = []
taken (some out) = out.entries

abbrev entries_of : CompactionState → List KeyValue
entries_of c = written c.outputs ++ taken c.builder

module _ (step : KeyState → Bytes → Bool × KeyState) (file_size : List KeyValue → ℕ)
    (finish_status : List KeyValue → Status) (max : ℕ) (env : Surroundings)
    (no_restart : (n : ℕ) → env.shutting_down n ≡ true → env.shut_at_end ≡ true) where
  entries_of-add_to_output :
      (outputs : List CompactionOutput) (builder : Option CompactionOutput) (n : ℕ)
      (key value : Bytes)
      → entries_of
          (add_to_output file_size finish_status max
            (record { outputs = outputs; builder = builder; next_file_number = n })
            key
            value).1
        ≡ (written outputs ++ taken builder) ++ (key, value) ∷ []
  unfolding add_to_output finish_output open_output
  entries_of-add_to_output outputs none n key value =
      elim (Bool-cases (leb max (file_size ((key, value) ∷ [])))) [
        | inl full ↦ rw full (simp append-nil)
        | inr more ↦ rw more (simp append-nil)
      ]
  entries_of-add_to_output outputs (some out) n key value =
      elim (Bool-cases (leb max (file_size (out.entries ++ (key, value) ∷ [])))) [
        | inl full ↦ rw full (simp (append-nil, append_assoc))
        | inr more ↦ rw more (simp append_assoc)
      ]

  -- Where the loop has gone through its whole input, it has taken the entries that it kept.
  compaction_loop-kept :
      (c : CompactionState) (st : KeyState) (last : Bytes) (input : List KeyValue)
      → env.shut_at_end ≡ false
      → is_ok (compaction_loop step file_size finish_status max env c st last input).0 ≡ true
      → entries_of (compaction_loop step file_size finish_status max env c st last input).1
        ≡ entries_of c ++ kept step st input
  unfolding compaction_loop
  compaction_loop-kept c st last [] on done = sym (append-nil _)
  compaction_loop-kept c st last ((key, value) ∷ input) on done =
      elim (Bool-cases (env.shutting_down (suc (length input)))) [
        | inl shut ↦ absurd (ground (arith, no_restart (suc (length input))))
        | inr up ↦ elim (Bool-cases (step st key).0) [
          | inl drop ↦
              rw (up, drop)
                (compaction_loop-kept c (step st key).1 key input on (rw (up, drop) at done))
          | inr keep ↦
              elim (Bool-cases (is_ok (add_to_output file_size finish_status max c key value).0)) [
                | inl fine ↦
                    rw (up, keep, fine)
                      (compaction_loop-kept
                          (add_to_output file_size finish_status max c key value).1 (step st key).1
                          key input on (rw (up, keep, fine) at done)
                        ∙ ap (λ es. es ++ kept step (step st key).1 input)
                            (entries_of-add_to_output c.outputs c.builder c.next_file_number key
                              value)
                        ∙ append_assoc (entries_of c) ((key, value) ∷ [])
                            (kept step (step st key).1 input))
                | inr failed ↦ absurd (ground arith)
              ]
        ]
      ]

  finish_compaction-written :
      (s : Status) (outputs : List CompactionOutput) (builder : Option CompactionOutput) (n : ℕ)
      (last : Bytes)
      → let c : CompactionState = record {
        outputs = outputs;
        builder = builder;
        next_file_number = n;
      } in
        let done = finish_compaction step file_size finish_status max env (s, c, last) in
        is_ok done.0 ≡ true
        → is_ok s ≡ true
          × (env.shut_at_end ≡ false)
          × (written done.1.outputs ≡ written outputs ++ taken builder)
  unfolding finish_compaction finish_output
  finish_compaction-written s outputs none n last h = elim (Bool-cases (is_ok s)) [
    | inr failed ↦ absurd (ground arith)
    | inl fine ↦ elim (Bool-cases env.shut_at_end) [
      | inl shut ↦ absurd (ground arith)
      | inr on ↦ rw (fine, on) (refl, refl, sym (append-nil _))
    ]
  ]
  finish_compaction-written s outputs (some out) n last h = elim (Bool-cases (is_ok s)) [
    | inr failed ↦ absurd (ground arith)
    | inl fine ↦ elim (Bool-cases env.shut_at_end) [
      | inl shut ↦ absurd (ground arith)
      | inr on ↦ rw (fine, on) (refl, refl, refl)
    ]
  ]

  -- A compaction that succeeds has written the entries that it kept, in their order, over its files.
  -- The flag that asks it to stop is assumed not to be reset.
  pub do_compaction_work-kept :
      (file_number : ℕ) (input : List KeyValue)
      → let done = do_compaction_work step file_size finish_status max env file_number input in
        is_ok done.0 ≡ true → written done.1.outputs ≡ kept step no_key input
  unfolding do_compaction_work
  do_compaction_work-kept file_number input h =
      let start : CompactionState = record {
        outputs = [];
        builder = none;
        next_file_number = file_number;
      } in
      let (s, c, last) =
        compaction_loop step file_size finish_status max env start no_key [] input in
      let (fine, on, same) =
        finish_compaction-written s c.outputs c.builder c.next_file_number last h in
      same ∙ compaction_loop-kept start no_key [] input on fine
