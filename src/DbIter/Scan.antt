-- ===== src/DbIter/Scan.antt =====
-- A scan by `SeekToFirst` and `Next` gives what lookups of the keys give.
use d_lsm.Common.{ℕ, zero, suc, ◌≤◌, ◌≡◌, refl, ap, ◌∙◌, arith, Bool, true, false}
use d_lsm.Common.{some, none, map, length}
use d_lsm.Common.{List, [], ◌∷◌}
use d_lsm.Coding.{Bytes}
use d_lsm.Status.{Status}
use d_lsm.Comparator.Interface.{Comparator}
use d_lsm.InternalKey.{parse_internal_key, extract_user_key}
use d_lsm.Compaction.{KeyValue}
use d_lsm.Iterators.{Cursor, cursor, whole, child_next, child_seek_to_first, forward}
use d_lsm.DbIter.{DbIter, NextChoice, yield, go_on, parse_status, choose_next, find_next_loop}
use d_lsm.DbIter.{find_next_user_entry, move_on, db_next, db_seek_to_first, db_entry}

module _ (user : Comparator) (sequence : ℕ) where
  -- The iterator is read from where it stands, as often as the fuel allows.
  abbrev pub scan : ℕ → DbIter → List (Bytes × Bytes)
  scan zero d = []
  scan (suc fuel) d = elim (db_entry user sequence d) [
    | none ↦ []
    | some e ↦ e ∷ scan fuel (db_next user sequence d)
  ]

  -- The entries that the loop yields, of those ahead.
  unfoldable pub yielded : Bool → Bytes → List KeyValue → List KeyValue
  yielded skipping skip [] = []
  yielded skipping skip (e ∷ ahead) =
      elim (choose_next user sequence skipping skip (parse_internal_key e.0)) [
        | yield ↦ e ∷ yielded true (extract_user_key e.0) ahead
        | go_on skipping' skip' ↦ yielded skipping' skip' ahead
      ]

  abbrev pub user_entry : KeyValue → Bytes × Bytes
  user_entry e = (extract_user_key e.0, e.1)

  -- The iterator after the loop has stopped, in the forward direction.
  abbrev stopped : Bytes → Cursor × Status → DbIter
  stopped value (iter, status) = record {
    iter = iter;
    status = status;
    saved_key = [];
    saved_value = value;
    direction = forward;
    valid = iter.valid;
  }

  db_next-stopped :
      (value : Bytes) (passed : List KeyValue) (e : KeyValue) (ahead : List KeyValue)
      (status : Status)
      → db_next user sequence (stopped value (cursor passed (e ∷ ahead), status))
        ≡ stopped value
            (find_next_loop user sequence true (extract_user_key e.0) status (e ∷ passed) ahead)
  unfolding db_next move_on child_next find_next_user_entry find_next_loop
  db_next-stopped value passed e [] status = refl
  db_next-stopped value passed e (f ∷ ahead) status = refl

  -- What the rest of a scan gives, of the entries ahead.
  Scans : Bytes → ℕ → Bool → Bytes → Status → List KeyValue → List KeyValue → Type 0
  Scans value fuel skipping skip status passed ahead =
      scan fuel (stopped value (find_next_loop user sequence skipping skip status passed ahead))
      ≡ map user_entry (yielded skipping skip ahead)

  scan-choice :
      (value : Bytes) (fuel : ℕ) (status : Status) (passed : List KeyValue) (e : KeyValue)
      (ahead : List KeyValue) (choice : NextChoice)
      → length (e ∷ ahead) ≤ fuel
      → ((n : ℕ) (skipping : Bool) (skip : Bytes)
          → length ahead ≤ n
          → Scans value n skipping skip status (e ∷ passed) ahead)
      → scan fuel (
          stopped value (elim choice [
            | yield ↦ (cursor passed (e ∷ ahead), status)
            | go_on skipping skip ↦
                find_next_loop user sequence skipping skip status (e ∷ passed) ahead
          ]))
        ≡ map user_entry (elim choice [
          | yield ↦ e ∷ yielded true (extract_user_key e.0) ahead
          | go_on skipping skip ↦ yielded skipping skip ahead
        ])
  unfolding Scans
  scan-choice value zero status passed e ahead yield enough ih = absurd (omega arith)
  scan-choice value (suc fuel) status passed e ahead yield enough ih =
      ap (λ es. user_entry e ∷ es)
        (ap (scan fuel) (db_next-stopped value passed e ahead status)
          ∙ ih fuel true (extract_user_key e.0) (omega arith))
  scan-choice value fuel status passed e ahead (go_on skipping skip) enough ih =
      ih fuel skipping skip (omega arith)

  scan-yielded :
      (value : Bytes) (ahead : List KeyValue) (fuel : ℕ) (skipping : Bool) (skip : Bytes)
      (status : Status) (passed : List KeyValue)
      → length ahead ≤ fuel
      → Scans value fuel skipping skip status passed ahead
  unfolding Scans find_next_loop yielded
  scan-yielded value [] zero skipping skip status passed enough = refl
  scan-yielded value [] (suc fuel) skipping skip status passed enough = refl
  scan-yielded value (e ∷ ahead) fuel skipping skip status passed enough =
      scan-choice value fuel (parse_status (parse_internal_key e.0) status) passed e ahead
        (choose_next user sequence skipping skip (parse_internal_key e.0)) enough
        (λ n skipping' skip' h.
          scan-yielded value ahead n skipping' skip' (parse_status (parse_internal_key e.0) status)
            (e ∷ passed) h)

  pub scan-seek_to_first :
      (entries : List KeyValue) (fuel : ℕ) (d : DbIter)
      → whole d.iter ≡ entries
      → length entries ≤ fuel
      → scan fuel (db_seek_to_first user sequence d)
        ≡ map user_entry (yielded false d.saved_key entries)
  unfolding db_seek_to_first child_seek_to_first find_next_user_entry
  scan-seek_to_first [] zero d same enough = unfold yielded in refl
  scan-seek_to_first [] (suc fuel) d same enough = rw same (unfold yielded in refl)
  scan-seek_to_first (e ∷ entries) fuel d same enough =
      rw same
        (unfold Scans in scan-yielded [] (e ∷ entries) fuel false d.saved_key d.status [] enough)
