-- ===== src/DbIter.antt =====
-- db/db_iter.cc: the iterator over user keys, on top of one over internal keys, which is a cursor in
-- the list of its entries. The samples that reads take for the choice of compactions are left out.
pub mod Scan
pub mod Rising
pub mod Yields
mod Tests
use Prim.Native.Nat.{Ordering}
use d_lsm.Common.{ℕ, zero, suc, ◌+◌, Bool, true, false, not, ◌&&◌, Option, some, none, ◌==◌, leb}
use d_lsm.Common.{List, [], ◌∷◌, ◌++◌, if◌then◌else◌}
use d_lsm.Coding.{Bytes}
use d_lsm.Status.{Status, ok, corruption}
use d_lsm.Comparator.{is_lt, is_gt}
use d_lsm.Comparator.Interface.{Comparator}
use d_lsm.InternalKey.{ParsedInternalKey, parse_internal_key, extract_user_key, append_internal_key}
use d_lsm.InternalKey.{internal_comparator, value_type_for_seek}
use d_lsm.WriteBatch.{type_deletion, type_value}
use d_lsm.Compaction.{KeyValue}
use d_lsm.Iterators.{Cursor, cursor, entry_at, whole, child_next, child_prev, child_seek_to_first}
use d_lsm.Iterators.{child_seek_to_last, child_seek, Direction, forward, reverse}

-- The fields of `DBIter` that change.
pub record DbIter : Type 0 where
  pub iter : Cursor
  pub status : Status
  pub saved_key : Bytes
  pub saved_value : Bytes
  pub direction : Direction
  pub valid : Bool

-- What the loop of `FindNextUserEntry` does with an entry: it yields it, or goes on.
pub data NextChoice : Type 0 where
  yield : NextChoice
  go_on : Bool → Bytes → NextChoice

-- `ParseKey`: the status after it.
abbrev pub parse_status : Option ParsedInternalKey → Status → Status
parse_status none status = corruption "corrupted internal key in DBIter"
parse_status (some ikey) status = status

-- The locals of `FindPrevUserEntry`: the type of the last entry that it took, and what it saved.
pub record PrevState : Type 0 where
  pub value_type : ℕ
  pub key : Bytes
  pub value : Bytes

abbrev tail : List KeyValue → List KeyValue
tail [] = []
tail (e ∷ entries) = entries

module _ (user : Comparator) (sequence : ℕ) where
  abbrev pub hidden : Bool → Bytes → Bytes → Bool
  hidden skipping skip user_key = skipping && not (is_gt (user.compare user_key skip))

  unfoldable pub choose_next : Bool → Bytes → Option ParsedInternalKey → NextChoice
  choose_next skipping skip none = go_on skipping skip
  choose_next skipping skip (some ikey) =
      if leb ikey.sequence sequence
      then if ikey.type == type_deletion
        then go_on true ikey.user_key
        else if hidden skipping skip ikey.user_key
        then go_on skipping skip
        else yield
      else go_on skipping skip

  -- The loop of `FindNextUserEntry`, with the cursor behind `passed`: where it stops, and the status.
  unfoldable pub find_next_loop :
      Bool → Bytes → Status → List KeyValue → List KeyValue → Cursor × Status
  find_next_loop skipping skip status passed [] = (cursor passed [], status)
  find_next_loop skipping skip status passed (e ∷ ahead) =
      let o = parse_internal_key e.0 in
      elim (choose_next skipping skip o) [
        | yield ↦ (cursor passed (e ∷ ahead), parse_status o status)
        | go_on skipping' skip' ↦
            find_next_loop skipping' skip' (parse_status o status) (e ∷ passed) ahead
      ]

  unfoldable pub find_next_user_entry : Bool → Bytes → DbIter → DbIter
  find_next_user_entry skipping skip d =
      let (iter, status) = find_next_loop skipping skip d.status d.iter.passed d.iter.ahead in
      record d { iter = iter; status = status; saved_key = []; valid = iter.valid }

  -- What `Next` does when the internal iterator is at its end.
  abbrev pub at_no_entry : DbIter → DbIter
  at_no_entry d = record d { saved_key = []; valid = false }

  -- The internal iterator's move in `Next`, by the direction.
  unfoldable pub move_on : DbIter → DbIter
  move_on d = elim d.direction [
    | reverse ↦ record d {
      direction = forward;
      iter = if d.iter.valid then child_next d.iter else child_seek_to_first d.iter;
    }
    | forward ↦ elim (entry_at d.iter) [
      | none ↦ d
      | some e ↦ record d { saved_key = extract_user_key e.0; iter = child_next d.iter }
    ]
  ]

  unfoldable pub db_next : DbIter → DbIter
  db_next d =
      let d' = move_on d in
      if d'.iter.valid then find_next_user_entry true d'.saved_key d' else at_no_entry d'

  unfoldable pub db_seek : Bytes → DbIter → DbIter
  db_seek target d =
      let saved =
        append_internal_key []
          (record { user_key = target; sequence = sequence; type = value_type_for_seek }) in
      let d' = record d {
        direction = forward;
        saved_value = [];
        saved_key = saved;
        iter = child_seek (internal_comparator user) saved d.iter;
      } in
      if d'.iter.valid
      then find_next_user_entry false d'.saved_key d'
      else record d' { valid = false }

  unfoldable pub db_seek_to_first : DbIter → DbIter
  db_seek_to_first d =
      let d' = record d {
        direction = forward;
        saved_value = [];
        iter = child_seek_to_first d.iter;
      } in
      if d'.iter.valid
      then find_next_user_entry false d'.saved_key d'
      else record d' { valid = false }

  -- One entry of the loop of `FindPrevUserEntry`: it ends the loop, or sets the locals.
  unfoldable pub choose_prev : PrevState → Option ParsedInternalKey → KeyValue → Option PrevState
  choose_prev st none e = some st
  choose_prev st (some ikey) e =
      if leb ikey.sequence sequence
      then if not (st.value_type == type_deletion) && is_lt (user.compare ikey.user_key st.key)
        then none
        else if ikey.type == type_deletion
        then some (record { value_type = ikey.type; key = []; value = [] })
        else some (record { value_type = ikey.type; key = extract_user_key e.0; value = e.1 })
      else some st

  -- The loop of `FindPrevUserEntry`, at the entry `e`.
  unfoldable pub find_prev_loop :
      PrevState → Status → List KeyValue → KeyValue → List KeyValue → Cursor × Status × PrevState
  find_prev_loop st status [] e ahead =
      let o = parse_internal_key e.0 in
      elim (choose_prev st o e) [
        | none ↦ (cursor [] (e ∷ ahead), parse_status o status, st)
        | some st' ↦ (child_prev (cursor [] (e ∷ ahead)), parse_status o status, st')
      ]
  find_prev_loop st status (p ∷ passed) e ahead =
      let o = parse_internal_key e.0 in
      elim (choose_prev st o e) [
        | none ↦ (cursor (p ∷ passed) (e ∷ ahead), parse_status o status, st)
        | some st' ↦ find_prev_loop st' (parse_status o status) passed p (e ∷ ahead)
      ]

  -- After the loop: an entry is found unless the last one was a deletion.
  unfoldable pub end_prev : DbIter → Cursor × Status × PrevState → DbIter
  end_prev d (iter, status, st) =
      if st.value_type == type_deletion
      then record {
        iter = iter;
        status = status;
        saved_key = [];
        saved_value = [];
        direction = forward;
        valid = false;
      }
      else record {
        iter = iter;
        status = status;
        saved_key = st.key;
        saved_value = st.value;
        direction = d.direction;
        valid = true;
      }

  unfoldable pub find_prev_user_entry : DbIter → DbIter
  find_prev_user_entry d =
      let start : PrevState = record {
        value_type = type_deletion;
        key = d.saved_key;
        value = d.saved_value;
      } in
      elim (entry_at d.iter) [
        | none ↦ end_prev d (d.iter, d.status, start)
        | some e ↦ end_prev d (find_prev_loop start d.status d.iter.passed e (tail d.iter.ahead))
      ]

  -- The loop of `Prev` that leaves the entries of the saved key, if it reaches an entry before them.
  unfoldable pub back_over : Bytes → List KeyValue → List KeyValue → Cursor
  back_over key [] ahead = record { passed = []; ahead = ahead; valid = false }
  back_over key (p ∷ passed) ahead =
      let further = back_over key passed (p ∷ ahead) in
      if is_lt (user.compare (extract_user_key p.0) key) then cursor passed (p ∷ ahead) else further

  unfoldable pub db_prev : DbIter → DbIter
  db_prev d = elim d.direction [
    | reverse ↦ find_prev_user_entry d
    | forward ↦ elim (entry_at d.iter) [
      | none ↦ d
      | some e ↦
          let key = extract_user_key e.0 in
          let iter = back_over key d.iter.passed d.iter.ahead in
          if iter.valid
          then find_prev_user_entry (record d { iter = iter; saved_key = key; direction = reverse })
          else record d { iter = iter; saved_key = []; saved_value = []; valid = false }
    ]
  ]

  unfoldable pub db_seek_to_last : DbIter → DbIter
  db_seek_to_last d =
      find_prev_user_entry
        (record d { direction = reverse; saved_value = []; iter = child_seek_to_last d.iter })

  -- `key()` and `value()`
  abbrev pub db_entry : DbIter → Option (Bytes × Bytes)
  db_entry d =
      if d.valid
      then elim d.direction [
        | forward ↦ elim (entry_at d.iter) [
          | none ↦ none
          | some e ↦ some (extract_user_key e.0, e.1)
        ]
        | reverse ↦ some (d.saved_key, d.saved_value)
      ]
      else none
