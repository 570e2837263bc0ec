-- ===== src/DbIter/Tests.antt =====
-- The theorem on scans at concrete inputs.
use d_lsm.Common.{◌≡◌, arith, List, [], ◌∷◌, refl, false}
use d_lsm.Coding.{put_fixed64, decode_fixed64, decode_fixed32, encode_fixed64}
use d_lsm.Comparator.{slice_compare}
use d_lsm.Comparator.Interface.{bytewise_comparator, bytewise_comparator-IsComparator}
use d_lsm.InternalKey.{internal_key, internal_compare, extract_user_key, tag, append_internal_key}
use d_lsm.InternalKey.{pack_sequence_and_type}
use d_lsm.Status.{ok}
use d_lsm.Compaction.{KeyValue}
use d_lsm.Compaction.Visible.{lookup}
use d_lsm.Compaction.Level.{Ascending}
use d_lsm.Iterators.{cursor, forward, whole}
use d_lsm.DbIter.{DbIter, db_seek_to_first}
use d_lsm.DbIter.Scan.{scan}
use d_lsm.DbIter.Rising.{IsRising}
use d_lsm.DbIter.Yields.{find_value, value_of, scan-lookup}

-- `a` has a value that is too new, and an older one; `b` is deleted.
abbrev entries : List KeyValue
entries =
    (internal_key (97 ∷ []) 9 1, 1 ∷ [])
    ∷ (internal_key (97 ∷ []) 5 1, 2 ∷ [])
    ∷ (internal_key (98 ∷ []) 6 0, [])
    ∷ (internal_key (98 ∷ []) 2 1, 3 ∷ [])
    ∷ []

abbrev start : DbIter
start = record {
  iter = cursor [] entries;
  status = ok;
  saved_key = [];
  saved_value = [];
  direction = forward;
  valid = false;
}

entries-Ascending : Ascending bytewise_comparator entries
unfolding internal_compare extract_user_key slice_compare internal_key append_internal_key
    put_fixed64 tag decode_fixed64 decode_fixed32 encode_fixed64 pack_sequence_and_type
entries-Ascending = ((refl, (refl, (refl, tt))), ((refl, (refl, tt)), ((refl, tt), (tt, tt))))

scan-lookup_example :
    IsRising bytewise_comparator
      (scan bytewise_comparator 7 9 (db_seek_to_first bytewise_comparator 7 start))
    × (find_value bytewise_comparator
          (97 ∷ [])
          (scan bytewise_comparator 7 9 (db_seek_to_first bytewise_comparator 7 start))
        ≡ value_of (lookup bytewise_comparator (97 ∷ []) 7 (whole start.iter)))
scan-lookup_example =
    scan-lookup bytewise_comparator bytewise_comparator-IsComparator 7 (97 ∷ []) start 9
      entries-Ascending (omega arith)
