-- ===== src/Compaction/Tests.antt =====
-- The theorems on compactions and flushes at concrete inputs.
use d_lsm.Common.{
  ℕ, ◌≡◌, refl, arith, true, false, List, [], ◌∷◌, All, some, none, length, inl, inr,
}
use d_lsm.Coding.{put_fixed64, decode_fixed64, decode_fixed32, encode_fixed64, Bytes}
use d_lsm.Comparator.{slice_compare}
use d_lsm.Comparator.Interface.{bytewise_comparator, bytewise_comparator-IsComparator}
use d_lsm.InternalKey.{internal_key, internal_compare, internal_comparator, extract_user_key, tag}
use d_lsm.InternalKey.{
  append_internal_key, pack_sequence_and_type, parse_internal_key, ParsedInternalKey,
}
use d_lsm.Status.{Status, ok, is_ok}
use d_lsm.Versions.FindFile.{IsLevel}
use d_lsm.Versions.Overlap.{HasTag}
use d_lsm.Compaction.{KeyValue, no_key, kept, compaction_step, near_data_step, Surroundings}
use d_lsm.Compaction.{
  do_compaction_work, compaction_loop, finish_compaction, add_to_output, open_output,
}
use d_lsm.Compaction.{finish_output, compaction_decision}
use d_lsm.Compaction.Visible.{lookup, HasSequence, lookup-do_compaction_work}
use d_lsm.Compaction.Outputs.{written}
use d_lsm.Compaction.Level.{files, Ascending, do_compaction_work-IsLevel}
use d_lsm.Compaction.NearData.{near_data_step-eq-compaction_step, near_data_step_hides}
use d_lsm.Compaction.Ranges.{sub_inputs, sub_ranges, sub_inputs-sub_ranges}
use d_lsm.Compaction.Flush.{build_table, build_table_lem, last_key, HasLongKey}

-- Two values for `a`, and one for `b` and `c`.
abbrev newer : KeyValue
newer = (internal_key (97 ∷ []) 5 1, 1 ∷ [])

abbrev older : KeyValue
older = (internal_key (97 ∷ []) 3 1, 2 ∷ [])

abbrev merged : List KeyValue
merged =
    newer ∷ older ∷ (internal_key (98 ∷ []) 4 1, 3 ∷ []) ∷ (internal_key (99 ∷ []) 2 0, []) ∷ []

-- A table takes two entries, and nothing fails.
abbrev table_size : List KeyValue → ℕ
table_size entries = length entries

abbrev finishes : List KeyValue → Status
finishes entries = ok

abbrev calm : Surroundings
calm = record { shutting_down = λ n. false; shut_at_end = false; input_status = ok }

merged-Ascending : Ascending bytewise_comparator merged
unfolding internal_compare extract_user_key slice_compare internal_key append_internal_key
    put_fixed64 tag decode_fixed64 decode_fixed32 encode_fixed64 pack_sequence_and_type
merged-Ascending = ((refl, (refl, (refl, tt))), ((refl, (refl, tt)), ((refl, tt), (tt, tt))))

merged-HasTag : All (λ e. HasTag e.0) merged
unfolding internal_compare extract_user_key slice_compare internal_key append_internal_key
    put_fixed64 tag decode_fixed64 decode_fixed32 encode_fixed64 pack_sequence_and_type
merged-HasTag = (omega arith, (omega arith, (omega arith, (omega arith, tt))))

succeeds :
    is_ok
      (do_compaction_work
        (compaction_step bytewise_comparator 4)
        table_size
        finishes
        2
        calm
        9
        merged).0
    ≡ true
unfolding do_compaction_work compaction_loop finish_compaction add_to_output open_output
    finish_output compaction_step compaction_decision parse_internal_key internal_key
    append_internal_key put_fixed64 extract_user_key slice_compare tag decode_fixed64 decode_fixed32
    encode_fixed64 pack_sequence_and_type
succeeds = refl

-- Without snapshots the second value for `a` is gone; the first one is found.
lookup-do_compaction_work_example :
    lookup bytewise_comparator (97 ∷ []) 4 (
      written
        (do_compaction_work
          (compaction_step bytewise_comparator 4)
          table_size
          finishes
          2
          calm
          9
          merged).1.outputs)
    ≡ lookup bytewise_comparator (97 ∷ []) 4 merged
lookup-do_compaction_work_example =
    lookup-do_compaction_work bytewise_comparator bytewise_comparator-IsComparator 4 table_size
      finishes 2 calm 9 merged (97 ∷ []) 4 (λ n h. absurd (ground arith)) (omega arith)
      (omega arith) succeeds

do_compaction_work-IsLevel_example : IsLevel bytewise_comparator (
    files
      (do_compaction_work
        (compaction_step bytewise_comparator 4)
        table_size
        finishes
        2
        calm
        9
        merged).1.outputs)
do_compaction_work-IsLevel_example =
    do_compaction_work-IsLevel bytewise_comparator bytewise_comparator-IsComparator
      (compaction_step bytewise_comparator 4) table_size finishes 2 calm 9 merged merged-Ascending

merged-HasSequence : All (λ e. HasSequence 9 (parse_internal_key e.0)) merged
unfolding parse_internal_key internal_key append_internal_key put_fixed64 extract_user_key tag
    decode_fixed64 decode_fixed32 encode_fixed64 pack_sequence_and_type
merged-HasSequence = (omega arith, (omega arith, (omega arith, (omega arith, tt))))

near_data_step-eq-compaction_step_example :
    kept (near_data_step bytewise_comparator) no_key merged
    ≡ kept (compaction_step bytewise_comparator 9) no_key merged
near_data_step-eq-compaction_step_example =
    near_data_step-eq-compaction_step bytewise_comparator 9 (omega arith) merged merged-HasSequence

abbrev parsed : ℕ → ParsedInternalKey
parsed s = record { user_key = 97 ∷ []; sequence = s; type = 1 }

near_data_step_hides_example :
    (lookup bytewise_comparator (97 ∷ []) 4 (newer ∷ older ∷ []) ≡ some older)
    × (lookup bytewise_comparator
          (97 ∷ [])
          4
          (kept (near_data_step bytewise_comparator) no_key (newer ∷ older ∷ []))
        ≡ none)
unfolding slice_compare parse_internal_key internal_key append_internal_key put_fixed64
    extract_user_key tag decode_fixed64 decode_fixed32 encode_fixed64 pack_sequence_and_type
near_data_step_hides_example =
    near_data_step_hides bytewise_comparator (97 ∷ []) 4 newer older (parsed 5) (parsed 3)
      bytewise_comparator-IsComparator refl refl refl refl (omega arith) (omega arith)

sub_inputs-sub_ranges_example :
    sub_inputs bytewise_comparator (sub_ranges none ((97 ∷ []) ∷ (99 ∷ []) ∷ [])) merged ≡ merged
unfolding slice_compare extract_user_key internal_key append_internal_key put_fixed64
sub_inputs-sub_ranges_example =
    sub_inputs-sub_ranges bytewise_comparator bytewise_comparator-IsComparator merged
      ((97 ∷ []) ∷ (99 ∷ []) ∷ []) merged-HasTag merged-Ascending
      (inl refl, refl, inr (inr (inr (inl refl))))

abbrev long_key : Bytes
long_key = 1 ∷ 2 ∷ 3 ∷ 4 ∷ 5 ∷ 6 ∷ 7 ∷ 8 ∷ []

abbrev flushed : List KeyValue
flushed = (internal_key long_key 9 0, []) ∷ []

flushed-HasLongKey :
    All (λ e. HasLongKey (parse_internal_key e.0)) ((internal_key long_key 9 1, 3 ∷ []) ∷ flushed)
unfolding parse_internal_key internal_key append_internal_key put_fixed64 extract_user_key tag
    decode_fixed64 decode_fixed32 encode_fixed64 pack_sequence_and_type
flushed-HasLongKey = ((omega arith, omega arith), ((omega arith, omega arith), tt))

build_table_lem_example :
    build_table
      (internal_comparator bytewise_comparator)
      table_size
      finishes
      4
      ok
      ((internal_key long_key 9 1, 3 ∷ []) ∷ flushed)
    ≡ (
      ok,
      some (record {
        meta = record {
          number = 4;
          file_size = table_size (
              kept
                (near_data_step bytewise_comparator)
                no_key
                ((internal_key long_key 9 1, 3 ∷ []) ∷ flushed));
          smallest = internal_key long_key 9 1;
          largest = last_key (internal_key long_key 9 1) flushed;
          under_compaction = false;
        };
        entries =
            kept
              (near_data_step bytewise_comparator)
              no_key
              ((internal_key long_key 9 1, 3 ∷ []) ∷ flushed);
      }),
    )
build_table_lem_example =
    build_table_lem table_size finishes 4 (internal_key long_key 9 1) (3 ∷ []) flushed
      flushed-HasLongKey
