-- ===== src/Compaction/NearData.antt =====
-- The compaction on the memory node, against the one on the compute node.
use Prim.Native.Nat.Ordering.{eq}
use d_lsm.Common.{ℕ, ◌≤◌, ◌<◌, ◌≡◌, refl, ap, ◌∙◌, arith, true, false, inl, inr}
use d_lsm.Common.{Option, some, none, Bool-cases, List, [], ◌∷◌, All}
use d_lsm.Coding.{Bytes}
use d_lsm.Comparator.Interface.{Comparator, IsComparator}
use d_lsm.InternalKey.{parse_internal_key, ParsedInternalKey, max_sequence_number}
use d_lsm.Compaction.{
  KeyValue, KeyState, no_key, is_eq, same_key, compaction_step, compaction_decision,
}
use d_lsm.Compaction.{near_data_step, near_data_decision, kept}
use d_lsm.Compaction.Visible.{HasSequence, lookup, sees}

module _ (user : Comparator) (snapshot : ℕ) (below : snapshot < max_sequence_number) where
  -- The locals of the two loops: the sequence number is that of an entry of the current user key.
  abbrev Matches : KeyState → KeyState → Type 0
  Matches near st =
      (near.current_user_key ≡ st.current_user_key)
      × (near.last_sequence_for_key ≡ max_sequence_number)
      × ((k : Bytes)
          → same_key user st.current_user_key k ≡ true
          → st.last_sequence_for_key ≤ snapshot)

  decisions-Matches :
      (near st : KeyState) (o : Option ParsedInternalKey)
      → Matches near st
      → HasSequence snapshot o
      → ((near_data_decision user near o).0 ≡ (compaction_decision user snapshot st o).0)
        × Matches (near_data_decision user near o).1 (compaction_decision user snapshot st o).1
  unfolding near_data_decision compaction_decision
  decisions-Matches near st none h hs = (refl, (refl, refl, λ k same. absurd (ground arith)))
  decisions-Matches near st (some ikey) (current, last, old) hs =
      let alike : same_key user near.current_user_key ikey.user_key
          ≡ same_key user st.current_user_key ikey.user_key =
        ap (λ c. same_key user c ikey.user_key) current in
      elim (Bool-cases (same_key user st.current_user_key ikey.user_key)) [
        | inl same ↦
            rw (alike, same) (ground (arith, old ikey.user_key same), (current, last, λ k h. hs))
        | inr new ↦ rw (alike, new) (ground arith, (refl, last, λ k h. hs))
      ]

  kept-near_data :
      (near st : KeyState) (input : List KeyValue)
      → Matches near st
      → All (λ e. HasSequence snapshot (parse_internal_key e.0)) input
      → kept (near_data_step user) near input ≡ kept (compaction_step user snapshot) st input
  unfolding near_data_step compaction_step
  kept-near_data near st [] h hs = refl
  kept-near_data near st ((key, value) ∷ input) h (hk, hs) =
      let o = parse_internal_key key in
      let (same, next) = decisions-Matches near st o h hk in
      let rest =
        kept-near_data (near_data_decision user near o).1 (compaction_decision user snapshot st o).1
          input next hs in
      elim (Bool-cases (compaction_decision user snapshot st o).0) [
        | inl drop ↦ rw (same, drop) rest
        | inr keep ↦ rw (same, keep) (ap (λ es. (key, value) ∷ es) rest)
      ]

  -- Where no sequence number is above the oldest snapshot, which is below the greatest number, the
  -- compaction on the memory node keeps the entries that the one on the compute node keeps.
  pub near_data_step-eq-compaction_step :
      (input : List KeyValue)
      → All (λ e. HasSequence snapshot (parse_internal_key e.0)) input
      → kept (near_data_step user) no_key input ≡ kept (compaction_step user snapshot) no_key input
  near_data_step-eq-compaction_step input hs =
      kept-near_data no_key no_key input (refl, refl, λ k same. absurd (ground arith)) hs

-- The compaction on the memory node does not know of snapshots: of two entries for a key, the older
-- one is gone, and a reader between their sequence numbers finds nothing.
pub near_data_step_hides :
    (user : Comparator) (u : Bytes) (s : ℕ) (new old : KeyValue) (i j : ParsedInternalKey)
    → IsComparator user
    → parse_internal_key new.0 ≡ some i
    → parse_internal_key old.0 ≡ some j
    → user.compare i.user_key u ≡ eq
    → user.compare j.user_key u ≡ eq
    → s < i.sequence
    → j.sequence ≤ s
    → (lookup user u s (new ∷ old ∷ []) ≡ some old)
      × (lookup user u s (kept (near_data_step user) no_key (new ∷ old ∷ [])) ≡ none)
unfolding near_data_step near_data_decision
near_data_step_hides user u s new old i j laws hi hj iu ju above seen =
    let hidden : sees user u s (some i) ≡ false = ground (arith, iu) in
    let shown : sees user u s (some j) ≡ true = ground (arith, ju) in
    let same : is_eq (user.compare j.user_key i.user_key) ≡ true =
      ap is_eq (laws.compare_eq_right i.user_key u j.user_key iu ∙ ju) in
    (rw (hi, hj, hidden, shown) refl, rw (hi, hj, same, hi, hidden) refl)
