-- ===== src/Compaction/Visible.antt =====
-- What a compaction keeps: the entries that a reader may see.
use d_lsm.Common.{ℕ, ◌≤◌, ◌<◌, ◌≡◌, ◌⊎◌, inl, inr, refl, ap, ◌∙◌, arith, Bool, true, false}
use d_lsm.Common.{Option, some, none, Bool-cases, List, [], ◌∷◌, leb, ◌&&◌, if◌then◌else◌}
use d_lsm.Coding.{Bytes}
use d_lsm.Comparator.Interface.{Comparator, IsComparator}
use d_lsm.InternalKey.{parse_internal_key, ParsedInternalKey, max_sequence_number}
use d_lsm.Compaction.{
  KeyValue, KeyState, no_key, is_eq, same_key, compaction_step, compaction_decision, kept,
}
use d_lsm.Compaction.{Surroundings, do_compaction_work}
use d_lsm.Compaction.Outputs.{written, do_compaction_work-kept}
use d_lsm.Status.{Status, is_ok}

module _ (user : Comparator) (u : Bytes) (s : ℕ) where
  -- Whether a reader of `u` at sequence number `s` sees the entry with this key.
  abbrev pub sees : Option ParsedInternalKey → Bool
  sees none = false
  sees (some ikey) = is_eq (user.compare ikey.user_key u) && leb ikey.sequence s

  -- What the reader finds: the first entry that it sees.
  abbrev pub lookup : List KeyValue → Option KeyValue
  lookup [] = none
  lookup ((key, value) ∷ input) =
      let rest = lookup input in if sees (parse_internal_key key) then some (key, value) else rest

-- The sequence numbers of the keys are in range.
abbrev pub HasSequence : ℕ → Option ParsedInternalKey → Type 0
HasSequence bound none = Unit
HasSequence bound (some ikey) = ikey.sequence ≤ bound

module _ (user : Comparator) (laws : IsComparator user) (snapshot : ℕ) where
  -- No entry for the key that a reader at `s` would see has gone before.
  abbrev pub NotSeen : Bytes → ℕ → KeyState → Type 0
  NotSeen u s st = (same_key user st.current_user_key u ≡ false) ⊎ (s < st.last_sequence_for_key)

  is_eq_swap : (a b : Bytes) → is_eq (user.compare a b) ≡ is_eq (user.compare b a)
  is_eq_swap a b = ground (
    arith,
    laws.compare_swap a b,
    laws.compare_swap_gt a b,
    laws.compare_eq_left a b a,
    laws.compare_refl a,
  )

  -- A key that is another one than `u` makes a current user key that is another one.
  same_key_other :
      (current : Option Bytes) (k u : Bytes)
      → is_eq (user.compare k u) ≡ false
      → same_key user (if same_key user current k then current else some k) u ≡ false
  same_key_other none k u h = rw (is_eq_swap u k) h
  same_key_other (some c) k u h = elim (Bool-cases (is_eq (user.compare k c))) [
    | inl same ↦ rw (same, ← (laws.compare_eq_right k c u (ground arith)), is_eq_swap u k) h
    | inr new ↦ rw (new, is_eq_swap u k) h
  ]

  same_key-eq :
      (current : Option Bytes) (k u : Bytes)
      → is_eq (user.compare k u) ≡ true
      → same_key user current k ≡ same_key user current u
  same_key-eq none k u h = refl
  same_key-eq (some c) k u h = ap is_eq (laws.compare_eq_left k u c (ground arith))

  decision-NotSeen :
      (u : Bytes) (s : ℕ) (st : KeyState) (ikey : ParsedInternalKey)
      → NotSeen u s st
      → sees user u s (some ikey) ≡ false
      → NotSeen u s (compaction_decision user snapshot st (some ikey)).1
  unfolding compaction_decision
  decision-NotSeen u s st ikey h hidden = elim (Bool-cases (is_eq (user.compare ikey.user_key u))) [
    | inl same ↦ inr (ground arith)
    | inr other ↦ inl (same_key_other st.current_user_key ikey.user_key u other)
  ]

  decision-sees :
      (u : Bytes) (s : ℕ) (st : KeyState) (ikey : ParsedInternalKey)
      → snapshot ≤ s
      → snapshot < max_sequence_number
      → NotSeen u s st
      → sees user u s (some ikey) ≡ true
      → (compaction_decision user snapshot st (some ikey)).0 ≡ false
  unfolding compaction_decision
  decision-sees u s st ikey hs hm h seen =
      let same : is_eq (user.compare ikey.user_key u) ≡ true = ground arith in
      rw (same_key-eq st.current_user_key ikey.user_key u same)
        (elim h [ inl new ↦ rw new (ground arith) | inr older ↦ ground arith ])

  lookup-step :
      (u : Bytes) (s : ℕ) (st : KeyState) (key value : Bytes) (input : List KeyValue)
      (rest : KeyState → List KeyValue) (o : Option ParsedInternalKey)
      → snapshot ≤ s
      → snapshot < max_sequence_number
      → NotSeen u s st
      → parse_internal_key key ≡ o
      → ((st' : KeyState) → NotSeen u s st' → lookup user u s (rest st') ≡ lookup user u s input)
      → lookup user u s (
          if (compaction_decision user snapshot st o).0
          then rest (compaction_decision user snapshot st o).1
          else (key, value) ∷ rest (compaction_decision user snapshot st o).1)
        ≡ (if sees user u s o then some (key, value) else lookup user u s input)
  lookup-step u s st key value input rest none hs hm h parsed ih =
      unfold compaction_decision in rw parsed (ih no_key (inl refl))
  lookup-step u s st key value input rest (some ikey) hs hm h parsed ih =
      elim (Bool-cases (sees user u s (some ikey))) [
        | inl seen ↦ rw (seen, decision-sees u s st ikey hs hm h seen, parsed, seen) refl
        | inr hidden ↦
            let next = ih _ (decision-NotSeen u s st ikey h hidden) in
            elim (Bool-cases (compaction_decision user snapshot st (some ikey)).0) [
              | inl drop ↦ rw (drop, hidden) next
              | inr keep ↦ rw (keep, parsed, hidden) next
            ]
      ]

  -- The loop of a compaction keeps what a reader finds, for every key, at each sequence number from the oldest
  -- snapshot on, which is below the greatest number.
  pub lookup-kept :
      (u : Bytes) (s : ℕ) (st : KeyState) (input : List KeyValue)
      → snapshot ≤ s
      → snapshot < max_sequence_number
      → NotSeen u s st
      → lookup user u s (kept (compaction_step user snapshot) st input) ≡ lookup user u s input
  unfolding compaction_step
  lookup-kept u s st [] hs hm h = refl
  lookup-kept u s st ((key, value) ∷ input) hs hm h =
      lookup-step u s st key value input (λ st'. kept (compaction_step user snapshot) st' input)
        (parse_internal_key key) hs hm h refl (λ st' h'. lookup-kept u s st' input hs hm h')

-- A compaction that succeeds leaves to every reader, from the oldest snapshot on, what the reader
-- finds in the input: the first entry for the key that is not newer. The oldest snapshot is assumed
-- to be below the greatest sequence number, and the flag that asks to stop not to be reset.
pub lookup-do_compaction_work :
    (user : Comparator) (laws : IsComparator user) (snapshot : ℕ) (file_size : List KeyValue → ℕ)
    (finish_status : List KeyValue → Status) (max : ℕ) (env : Surroundings) (file_number : ℕ)
    (input : List KeyValue) (u : Bytes) (s : ℕ)
    → ((n : ℕ) → env.shutting_down n ≡ true → env.shut_at_end ≡ true)
    → snapshot ≤ s
    → snapshot < max_sequence_number
    → let (status, c) =
        do_compaction_work
          (compaction_step user snapshot)
          file_size
          finish_status
          max
          env
          file_number
          input in
      is_ok status ≡ true → lookup user u s (written c.outputs) ≡ lookup user u s input
lookup-do_compaction_work user laws snapshot file_size finish_status max env file_number input u s
      no_reset hs hm done =
    ap (lookup user u s) (
      do_compaction_work-kept (compaction_step user snapshot) file_size finish_status max env
        no_reset file_number input done)
    ∙ lookup-kept user laws snapshot u s no_key input hs hm (inl refl)
