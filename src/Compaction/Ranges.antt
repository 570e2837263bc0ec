-- ===== src/Compaction/Ranges.antt =====
-- Subcompactions (db/db_impl.cc): each range of the input is read by its own loop.
use Prim.Native.Nat.Ordering.{lt, gt, eq}
use d_lsm.Common.{ℕ, ◌≡◌, ◌≢◌, refl, ap, ◌∙◌, arith, Bool, false, not, inl, inr}
use d_lsm.Common.{
  Option, some, none, Bool-cases, List, [], ◌∷◌, ◌++◌, All, Any, append-nil, drop, if◌then◌else◌,
}
use d_lsm.Coding.{Bytes}
use d_lsm.Status.{Status}
use d_lsm.Comparator.{is_lt}
use d_lsm.Comparator.Interface.{Comparator, IsComparator}
use d_lsm.InternalKey.{
  internal_compare, internal_key, extract_user_key, max_sequence_number, value_type_for_seek,
}
use d_lsm.InternalKey.{break_tie, pack_sequence_and_type}
use d_lsm.InternalKey.Codec.{
  pack_lem, pack-lt, internal_key_lem, extract_user_key_fixed64, tag_fixed64,
}
use d_lsm.Versions.Overlap.{HasTag, user_order}
use d_lsm.Compaction.{KeyValue, KeyState, CompactionState, Surroundings, do_compaction_work}
use d_lsm.Compaction.Level.{Ascending}

-- `start` and `end` of the subcompactions that `DoCompactionWorkWithSubcompaction` makes of the
-- boundaries, where there are no more of them than `MaxSubcompaction`.
unfoldable pub sub_ranges : Option Bytes → List Bytes → List (Option Bytes × Option Bytes)
sub_ranges start [] = (start, none) ∷ []
sub_ranges start (bound ∷ bounds) = (start, some bound) ∷ sub_ranges (some bound) bounds

module _ (user : Comparator) where
  -- `input->Seek(target)`, as the iterators promise it.
  unfoldable pub seek_input : Bytes → List KeyValue → List KeyValue
  seek_input target [] = []
  seek_input target (e ∷ input) =
      let rest = seek_input target input in
      if is_lt (internal_compare user e.0 target) then rest else e ∷ input

  -- Where `ProcessKeyValueCompaction` starts: at the first entry, or behind the one it seeks.
  unfoldable pub start_input : Option Bytes → List KeyValue → List KeyValue
  start_input none input = input
  start_input (some start) input =
      drop 1 (seek_input (internal_key start max_sequence_number value_type_for_seek) input)

  -- The check of `end`, after an entry has been handled.
  unfoldable pub at_end : Option Bytes → Bytes → Bool
  at_end none key = false
  at_end (some end) key = not (is_lt (user.compare (extract_user_key key) end))

  -- The entries that the loop handles until the check ends it.
  unfoldable pub until_end : Option Bytes → List KeyValue → List KeyValue
  until_end end [] = []
  until_end end (e ∷ input) =
      let rest = until_end end input in if at_end end e.0 then e ∷ [] else e ∷ rest

  unfoldable pub sub_input : Option Bytes × Option Bytes → List KeyValue → List KeyValue
  sub_input (start, end) input = until_end end (start_input start input)

  -- `ProcessKeyValueCompaction`: the loop of a compaction over the entries of the range.
  unfoldable pub process_key_value_compaction :
      (KeyState → Bytes → Bool × KeyState)
      → (List KeyValue → ℕ)
      → (List KeyValue → Status)
      → ℕ
      → Surroundings
      → ℕ
      → Option Bytes × Option Bytes
      → List KeyValue
      → Status × CompactionState
  process_key_value_compaction step file_size finish_status max env file_number range input =
      do_compaction_work step file_size finish_status max env file_number (sub_input range input)

  -- All entries that the subcompactions handle.
  abbrev pub sub_inputs : List (Option Bytes × Option Bytes) → List KeyValue → List KeyValue
  sub_inputs [] input = []
  sub_inputs (range ∷ ranges) input = sub_input range input ++ sub_inputs ranges input

  -- The input behind the first entry whose user key is not below the boundary.
  abbrev behind : Option Bytes → List KeyValue → List KeyValue
  behind end [] = []
  behind end (e ∷ input) = let rest = behind end input in if at_end end e.0 then input else rest

  until_end-behind :
      (end : Option Bytes) (input : List KeyValue) → until_end end input ++ behind end input ≡ input
  unfolding until_end
  until_end-behind end [] = refl
  until_end-behind end (e ∷ input) = elim (Bool-cases (at_end end e.0)) [
    | inl here ↦ rw here refl
    | inr further ↦ rw further (ap (λ es. e ∷ es) (until_end-behind end input))
  ]

  behind-behind :
      (b c : Option Bytes) (input : List KeyValue)
      → All (λ e. at_end c e.0 ≡ false) (until_end b input)
      → behind c input ≡ behind c (behind b input)
  unfolding until_end
  behind-behind b c [] h = refl
  behind-behind b c (e ∷ input) h = elim (Bool-cases (at_end b e.0)) [
    | inl here ↦ let (low, _) = rw here at h in rw (here, low) refl
    | inr further ↦
        let (low, rest) = rw further at h in rw (further, low) (behind-behind b c input rest)
  ]

  until_end-none : (input : List KeyValue) → until_end none input ≡ input
  unfolding until_end at_end
  until_end-none [] = refl
  until_end-none (e ∷ input) = ap (λ es. e ∷ es) (until_end-none input)

module _ (user : Comparator) (laws : IsComparator user) where
  -- A key stands below the sought one exactly if its user key is below the boundary.
  seek_start :
      (b key : Bytes)
      → HasTag key
      → is_lt (internal_compare user key (internal_key b max_sequence_number value_type_for_seek))
        ≡ is_lt (user.compare (extract_user_key key) b)
  unfolding internal_compare break_tie
  seek_start b key h =
      let packed = pack_sequence_and_type max_sequence_number 1 in
      rw
        (
          internal_key_lem b max_sequence_number 1,
          extract_user_key_fixed64 b packed,
          tag_fixed64 b packed (pack-lt max_sequence_number 1 (omega arith) (omega arith)),
          pack_lem max_sequence_number 1 (omega arith) (omega arith),
        )
        (ground arith)

  start_input-behind :
      (b : Bytes) (input : List KeyValue)
      → All (λ e. HasTag e.0) input
      → start_input user (some b) input ≡ behind user (some b) input
  unfolding start_input seek_input at_end
  start_input-behind b [] h = refl
  start_input-behind b (e ∷ input) (he, h) =
      elim (Bool-cases (is_lt (user.compare (extract_user_key e.0) b))) [
        | inl low ↦ rw (seek_start b e.0 he, low) (start_input-behind b input h)
        | inr high ↦ rw (seek_start b e.0 he, high) refl
      ]

  -- An entry before one with the user key `b` has a user key that is not above `b`.
  not_above :
      (b : Bytes) (e : KeyValue) (input : List KeyValue)
      → All (λ d. internal_compare user e.0 d.0 ≡ lt) input
      → Any (λ d. user.compare (extract_user_key d.0) b ≡ eq) input
      → user.compare (extract_user_key e.0) b ≢ gt
  not_above b e [] h m = elim m [ ]
  not_above b e (d ∷ input) (hd, h) (inl same) =
      rw (← (laws.compare_eq_right (extract_user_key d.0) b (extract_user_key e.0) same))
        (user_order user laws e.0 d.0 (ground arith))
  not_above b e (d ∷ input) (hd, h) (inr m) = not_above b e input h m

  until_end-below :
      (b c : Bytes) (input : List KeyValue)
      → Ascending user input
      → Any (λ d. user.compare (extract_user_key d.0) b ≡ eq) input
      → user.compare b c ≡ lt
      → All (λ e. at_end user (some c) e.0 ≡ false) (until_end user (some b) input)
  unfolding until_end at_end
  until_end-below b c [] ha m below = tt
  until_end-below b c (e ∷ input) (he, ha) m below =
      elim (Bool-cases (is_lt (user.compare (extract_user_key e.0) b))) [
        | inl low ↦
            let later : Any (λ d. user.compare (extract_user_key d.0) b ≡ eq) input = elim m [
              | inl same ↦ absurd (ground arith)
              | inr rest ↦ rest
            ] in
            rw low (
              ground (arith, laws.compare_trans (extract_user_key e.0) b c),
              until_end-below b c input ha later below,
            )
        | inr high ↦
            let same : user.compare (extract_user_key e.0) b ≡ eq = elim m [
              | inl here ↦ here
              | inr later ↦ ground (arith, not_above b e input he later)
            ] in
            rw high (ground (arith, laws.compare_eq_left (extract_user_key e.0) b c same), tt)
      ]

  -- The boundaries ascend, and each is the user key of an entry.
  abbrev pub IsBoundaries : List KeyValue → List Bytes → Type 0
  IsBoundaries input [] = Unit
  IsBoundaries input (b ∷ []) = Any (λ d. user.compare (extract_user_key d.0) b ≡ eq) input
  IsBoundaries input (b ∷ c ∷ bounds) =
      Any (λ d. user.compare (extract_user_key d.0) b ≡ eq) input
      × (user.compare b c ≡ lt)
      × IsBoundaries input (c ∷ bounds)

  sub_inputs-behind :
      (input : List KeyValue) (b : Bytes) (bounds : List Bytes)
      → All (λ e. HasTag e.0) input
      → Ascending user input
      → IsBoundaries input (b ∷ bounds)
      → sub_inputs user (sub_ranges (some b) bounds) input ≡ behind user (some b) input
  unfolding sub_ranges sub_input
  sub_inputs-behind input b [] ht ha h =
      append-nil _ ∙ until_end-none user _ ∙ start_input-behind b input ht
  sub_inputs-behind input b (c ∷ bounds) ht ha (m, below, h) =
      rw
        (
          sub_inputs-behind input c bounds ht ha h,
          start_input-behind b input ht,
          behind-behind user (some b) (some c) input (until_end-below b c input ha m below),
        )
        (until_end-behind user (some c) (behind user (some b) input))

  -- The subcompactions handle every entry of the input once, in order: each starts behind the entry
  -- at which the one before it ends. The keys of the input are assumed to ascend, with tags in range,
  -- and the boundaries to ascend and to be user keys of the input.
  pub sub_inputs-sub_ranges :
      (input : List KeyValue) (bounds : List Bytes)
      → All (λ e. HasTag e.0) input
      → Ascending user input
      → IsBoundaries input bounds
      → sub_inputs user (sub_ranges none bounds) input ≡ input
  unfolding sub_ranges sub_input start_input
  sub_inputs-sub_ranges input [] ht ha h = append-nil _ ∙ until_end-none user input
  sub_inputs-sub_ranges input (b ∷ bounds) ht ha h =
      rw (sub_inputs-behind input b bounds ht ha h) (until_end-behind user (some b) input)
