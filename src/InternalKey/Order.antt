-- ===== src/InternalKey/Order.antt =====
-- The order of internal keys: by user key, and then the newest first.
use Prim.Native.Nat.{Ordering, compare}
use Prim.Native.Nat.Ordering.{lt, eq, gt}
use d_lsm.Common.{ℕ, ◌^◌, ◌≤◌, ◌<◌, ◌≡◌, arith, ◌∙◌}
use d_lsm.Common.{◌++◌}
use d_lsm.Coding.{Bytes, encode_fixed64}
use d_lsm.Comparator.Interface.{Comparator}
use d_lsm.InternalKey.{internal_compare, break_tie, internal_key, max_sequence_number}
use d_lsm.InternalKey.Codec.{
  internal_key_lem, tag_fixed64, extract_user_key_fixed64, pack-lt, pack_lem,
}

-- The greater pair of sequence number and type comes first.
abbrev pub newest_first : ℕ → ℕ → ℕ → ℕ → Ordering
newest_first s t q r = elim (compare q s) [ lt ↦ lt | gt ↦ gt | eq ↦ compare r t ]

abbrev pub by_user_key : Ordering → Ordering → Ordering
by_user_key lt _ = lt
by_user_key gt _ = gt
by_user_key eq o = o

module _ (user : Comparator) where
  pub internal_compare-fixed64 :
      (a b : Bytes) (v w : ℕ)
      → v < 2 ^ 64
      → w < 2 ^ 64
      → internal_compare user (a ++ encode_fixed64 v) (b ++ encode_fixed64 w)
        ≡ break_tie (user.compare a b) v w
  unfolding internal_compare
  internal_compare-fixed64 a b v w hv hw = cc (
    extract_user_key_fixed64 a v,
    extract_user_key_fixed64 b w,
    tag_fixed64 a v hv,
    tag_fixed64 b w hw,
  )

  -- Internal keys are ordered by user key, then by decreasing sequence number, then by decreasing
  -- type.
  pub internal_compare-internal_key :
      (a b : Bytes) (s t q r : ℕ)
      → s ≤ max_sequence_number
      → q ≤ max_sequence_number
      → t < 256
      → r < 256
      → internal_compare user (internal_key a s t) (internal_key b q r)
        ≡ by_user_key (user.compare a b) (newest_first s t q r)
  internal_compare-internal_key a b s t q r hs hq ht hr =
      rw (internal_key_lem a s t, internal_key_lem b q r)
        (internal_compare-fixed64 a b _ _ (pack-lt s t hs ht) (pack-lt q r hq hr)
          ∙ rw (pack_lem s t hs ht, pack_lem q r hq hr) (unfold break_tie in ground arith))
