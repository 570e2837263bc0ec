-- ===== src/Compaction.antt =====
-- The loops of a compaction (db/db_impl.cc, memory_node/memory_node_keeper.cpp) and of a flush
-- (db/memtable_list.cc) over their merged input, which is the list of its keys and values.
-- The size of a table that the builder has taken entries into, and the status of its `Finish`, are
-- parameters.
pub mod Visible
pub mod Outputs
pub mod Level
pub mod NearData
pub mod Ranges
pub mod Flush
mod Tests
use Prim.Native.Nat.Ordering.{eq}
use Prim.Native.Nat.{Ordering}
use d_lsm.Common.{ℕ, zero, suc, ◌+◌, Bool, true, false, not, ◌||◌, Option, some, none}
use d_lsm.Common.{List, [], ◌∷◌, ◌++◌, length, leb, ltb, if◌then◌else◌}
use d_lsm.Coding.{Bytes}
use d_lsm.Status.{Status, ok, is_ok, io_error}
use d_lsm.Comparator.{is_lt}
use d_lsm.Comparator.Interface.{Comparator}
use d_lsm.InternalKey.{parse_internal_key, ParsedInternalKey, max_sequence_number, extract_user_key}
use d_lsm.Versions.{FileMetaData}

-- `input->key()` and `input->value()`
abbrev pub KeyValue : Type 0
KeyValue = Bytes × Bytes

-- The locals of the loop: `current_user_key`, where there is one, and `last_sequence_for_key`.
pub record KeyState : Type 0 where
  pub current_user_key : Option Bytes
  pub last_sequence_for_key : ℕ

abbrev pub no_key : KeyState
no_key = record { current_user_key = none; last_sequence_for_key = max_sequence_number }

abbrev pub is_eq : Ordering → Bool
is_eq eq = true
is_eq _ = false

module _ (user : Comparator) where
  -- Whether there is a current user key, and it is this one.
  abbrev pub same_key : Option Bytes → Bytes → Bool
  same_key none user_key = false
  same_key (some current) user_key = is_eq (user.compare user_key current)

  -- What `ParseInternalKey` gives for the key decides: whether the entry is dropped, and the locals
  -- after it.
  unfoldable pub compaction_decision : ℕ → KeyState → Option ParsedInternalKey → Bool × KeyState
  compaction_decision smallest_snapshot st none = (false, no_key)
  compaction_decision smallest_snapshot st (some ikey) =
      let same = same_key st.current_user_key ikey.user_key in
      let last = if same then st.last_sequence_for_key else max_sequence_number in
      (
        leb last smallest_snapshot,
        record {
          current_user_key = if same then st.current_user_key else some ikey.user_key;
          last_sequence_for_key = ikey.sequence;
        },
      )

  -- The body of the loop of `DBImpl::DoCompactionWork`.
  unfoldable pub compaction_step : ℕ → KeyState → Bytes → Bool × KeyState
  compaction_step smallest_snapshot st key =
      compaction_decision smallest_snapshot st (parse_internal_key key)

  -- The body of the loops on the memory node, which never assign a sequence number but the greatest.
  unfoldable pub near_data_decision : KeyState → Option ParsedInternalKey → Bool × KeyState
  near_data_decision st none = (false, no_key)
  near_data_decision st (some ikey) =
      if same_key st.current_user_key ikey.user_key
      then (true, st)
      else (false, record st { current_user_key = some ikey.user_key })

  unfoldable pub near_data_step : KeyState → Bytes → Bool × KeyState
  near_data_step st key = near_data_decision st (parse_internal_key key)

-- The entries that a loop with this step does not drop.
abbrev pub kept : (KeyState → Bytes → Bool × KeyState) → KeyState → List KeyValue → List KeyValue
kept step st [] = []
kept step st ((key, value) ∷ input) =
    let rest = kept step (step st key).1 input in
    if (step st key).0 then rest else (key, value) ∷ rest

-- An output file: its metadata, and the entries that its builder has taken.
pub record CompactionOutput : Type 0 where
  pub meta : FileMetaData
  pub entries : List KeyValue

-- `compact`: the finished outputs, the last first, the open one, and the next file's number.
pub record CompactionState : Type 0 where
  pub outputs : List CompactionOutput
  pub builder : Option CompactionOutput
  pub next_file_number : ℕ

-- `OpenCompactionOutputFile`, at the first key that the new file takes.
unfoldable pub open_output : CompactionState → Bytes → CompactionOutput
open_output c key = record {
  meta = record {
    number = c.next_file_number;
    file_size = 0;
    smallest = key;
    largest = [];
    under_compaction = false;
  };
  entries = [];
}

module _ (file_size : List KeyValue → ℕ) (finish_status : List KeyValue → Status) where
  -- `FinishCompactionOutputFile`, with the largest key that the caller has set before. `finish_status` is
  -- what it returns: the status of the input, where that is an error and the builder is abandoned, or
  -- else that of the builder's Finish. Both are the environment's, and the file is listed either way.
  unfoldable pub finish_output :
      CompactionState → CompactionOutput → Bytes → Status × CompactionState
  finish_output c out largest = (
    finish_status out.entries,
    record c {
      outputs =
          record out {
            meta = record out.meta { file_size = file_size out.entries; largest = largest };
          }
          ∷ c.outputs;
      builder = none;
    },
  )

  -- An entry that is not dropped: the open file, or a new one, takes it, and is finished if it is
  -- big enough.
  unfoldable pub add_to_output : ℕ → CompactionState → Bytes → Bytes → Status × CompactionState
  add_to_output max_output_file_size c key value =
      let (out, next) : CompactionOutput × ℕ = elim c.builder [
        | none ↦ (open_output c key, c.next_file_number + 1)
        | some out ↦ (out, c.next_file_number)
      ] in
      let added = record out { entries = out.entries ++ (key, value) ∷ [] } in
      let c' = record c { builder = some added; next_file_number = next } in
      if leb max_output_file_size (file_size added.entries)
      then finish_output c' added key
      else (ok, c')

-- What the environment does to a compaction: whether it is shutting down when so many entries are
-- left, and after the loop, and the status of the input.
pub record Surroundings : Type 0 where
  pub shutting_down : ℕ → Bool
  pub shut_at_end : Bool
  pub input_status : Status

module _ (step : KeyState → Bytes → Bool × KeyState) (file_size : List KeyValue → ℕ)
    (finish_status : List KeyValue → Status) (max_output_file_size : ℕ) (env : Surroundings) where
  -- The loop over the input: its status, what it has put out, and the last `key` it has read. The
  -- source keeps that key as a Slice into the input across Next; its bytes stay in place, since the
  -- iterators of two levels keep the block they read last. Here it is the bytes.
  unfoldable pub compaction_loop :
      CompactionState → KeyState → Bytes → List KeyValue → Status × CompactionState × Bytes
  compaction_loop c st last [] = (ok, c, last)
  compaction_loop c st last ((key, value) ∷ input) =
      let dropped = compaction_loop c (step st key).1 key input in
      let added = add_to_output file_size finish_status max_output_file_size c key value in
      let go_on = compaction_loop added.1 (step st key).1 key input in
      if env.shutting_down (suc (length input))
      then (ok, c, last)
      else if (step st key).0
      then dropped
      else if is_ok added.0
      then go_on
      else (added.0, added.1, key)

  -- After the loop: the open file is finished with the last key that was read.
  unfoldable pub finish_compaction : Status × CompactionState × Bytes → Status × CompactionState
  finish_compaction (s, c, last) =
      if not (is_ok s)
      then (s, c)
      else if env.shut_at_end
      then (io_error "Deleting DB during compaction", c)
      else elim c.builder [
        | none ↦ (env.input_status, c)
        | some out ↦
            let (s', c') = finish_output file_size finish_status c out last in
            (if is_ok s' then env.input_status else s', c')
      ]

  unfoldable pub do_compaction_work : ℕ → List KeyValue → Status × CompactionState
  do_compaction_work file_number input = finish_compaction (
      compaction_loop (record { outputs = []; builder = none; next_file_number = file_number })
        no_key [] input)
