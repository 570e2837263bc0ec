-- ===== src/Compaction/Flush.antt =====
-- db/memtable_list.cc: `FlushJob::BuildTable`, from the entries of the memtables that are flushed.
use Prim.Native.Nat.Ordering.{eq}
use mathlib.Core.Option
use d_lsm.Common.{ℕ, ◌-◌, ◌≤◌, ◌≡◌, refl, ap, sym, ◌∙◌, arith, false, inl, inr}
use d_lsm.Common.{Option, some, none, Bool-cases, List, [], ◌∷◌, All, length, drop, if◌then◌else◌}
use d_lsm.Common.{take-append-drop}
use d_lsm.Coding.{Bytes, IsByte}
use d_lsm.Status.{Status, ok, is_ok, io_error}
use d_lsm.Comparator.Interface.{Comparator, bytewise_comparator, bytewise_comparator-IsComparator}
use d_lsm.InternalKey.{internal_compare, internal_comparator, parse_internal_key, ParsedInternalKey}
use d_lsm.InternalKey.{extract_user_key, tag}
use d_lsm.Coding.{encode_fixed64, decode_fixed64}
use d_lsm.Coding.Fixed.{encode_fixed64-decode_fixed64}
use d_lsm.Common.{All-drop, length-drop}
use d_lsm.Comparator.{slice_compare}
use d_lsm.Comparator.Interface.{eq_of_slice_compare}
use d_lsm.InternalKey.{break_tie}
use d_lsm.Versions.FindFile.{icmp_laws}
use d_lsm.Compaction.{KeyValue, KeyState, no_key, same_key, CompactionOutput, kept, is_eq}
use d_lsm.Compaction.{near_data_step, near_data_decision}

-- The loop: the entries that the builder takes, and the last `key`, or none at a key that cannot be
-- parsed. Its `user_cmp` is the comparator of internal keys.
module _ (user_cmp : Comparator) where
  unfoldable pub flush_step :
      Option Bytes
      → Option ParsedInternalKey
      → KeyValue
      → (Option Bytes → Option (List KeyValue × Bytes))
      → Option (List KeyValue × Bytes)
  flush_step current none e rest = none
  flush_step current (some ikey) e rest =
      if same_key user_cmp current ikey.user_key
      then rest current
      else Option.map (λ r. (e ∷ r.0, r.1)) (rest (some ikey.user_key))

  unfoldable pub flush_loop : Option Bytes → Bytes → List KeyValue → Option (List KeyValue × Bytes)
  flush_loop current last [] = some ([], last)
  flush_loop current last ((key, value) ∷ input) =
      flush_step current (parse_internal_key key) (key, value)
        (λ current'. flush_loop current' key input)

  -- The whole call, at the status of the input: its own, and the table that it has made, if any.
  unfoldable pub build_table :
      (List KeyValue → ℕ)
      → (List KeyValue → Status)
      → ℕ
      → Status
      → List KeyValue
      → Status × Option CompactionOutput
  build_table file_size finish_status number input_status [] = (input_status, none)
  build_table file_size finish_status number input_status ((key, value) ∷ input) =
      elim (flush_loop none key ((key, value) ∷ input)) [
        | none ↦ (io_error "Corrupt key value detected\n", none)
        | some (entries, largest) ↦ (
          if is_ok input_status then finish_status entries else input_status,
          some (record {
            meta = record {
              number = number;
              file_size = file_size entries;
              smallest = key;
              largest = largest;
              under_compaction = false;
            };
            entries = entries;
          }),
        )
      ]

-- A user key that the comparator of internal keys can be given.
abbrev pub IsLongKey : Bytes → Type 0
IsLongKey key = All IsByte key × (8 ≤ length key)

eq_of_parts :
    (a b : Bytes)
    → IsLongKey a
    → IsLongKey b
    → extract_user_key a ≡ extract_user_key b
    → tag a ≡ tag b
    → a ≡ b
unfolding extract_user_key tag
eq_of_parts a b (ba, la) (bb, lb) users tags =
    let tail_a = tail a ba la in
    let tail_b = tail b bb lb in
    sym (take-append-drop (length a - 8) a)
    ∙ rw (users, ← tail_a, tags, tail_b) (take-append-drop (length b - 8) b)
  where
    tail :
        (k : Bytes)
        → All IsByte k
        → 8 ≤ length k
        → encode_fixed64 (decode_fixed64 (drop (length k - 8) k)) ≡ drop (length k - 8) k
    tail k hb hl =
        encode_fixed64-decode_fixed64 (drop (length k - 8) k) (All-drop IsByte (length k - 8) k hb)
          (omega (arith, length-drop (length k - 8) k))

parts_of_eq :
    (a b : Bytes)
    → internal_compare bytewise_comparator a b ≡ eq
    → (slice_compare (extract_user_key a) (extract_user_key b) ≡ eq) × (tag a ≡ tag b)
unfolding internal_compare break_tie
parts_of_eq a b h = ground arith

-- On user keys of eight bytes at least, the comparator of internal keys finds the same keys equal.
is_eq-internal_compare :
    (a b : Bytes)
    → IsLongKey a
    → IsLongKey b
    → is_eq (internal_compare bytewise_comparator a b) ≡ is_eq (slice_compare a b)
is_eq-internal_compare a b ha hb = elim (Bool-cases (is_eq (slice_compare a b))) [
  | inl same ↦
      let e : a ≡ b = eq_of_slice_compare a b (ground arith) in
      rw (same, e)
        (ap is_eq ((icmp_laws bytewise_comparator bytewise_comparator-IsComparator).compare_refl b))
  | inr other ↦ elim (Bool-cases (is_eq (internal_compare bytewise_comparator a b))) [
    | inr apart ↦ rw (apart, other) refl
    | inl meet ↦
        let (users, tags) = parts_of_eq a b (ground arith) in
        let e : a ≡ b = eq_of_parts a b ha hb (eq_of_slice_compare _ _ users) tags in
        let same : slice_compare a b ≡ eq =
          ap (slice_compare a) (sym e) ∙ bytewise_comparator-IsComparator.compare_refl a in
        absurd (ground (arith, same))
  ]
]

-- The key can be parsed, and has a long user key.
abbrev pub HasLongKey : Option ParsedInternalKey → Type 0
HasLongKey none = ⊥
HasLongKey (some ikey) = IsLongKey ikey.user_key

abbrev pub last_key : Bytes → List KeyValue → Bytes
last_key last [] = last
last_key last ((key, value) ∷ input) = last_key key input

abbrev IsCurrent : Option Bytes → Type 0
IsCurrent none = Unit
IsCurrent (some current) = IsLongKey current

same_key-long :
    (current : Option Bytes) (k : Bytes)
    → IsCurrent current
    → IsLongKey k
    → same_key (internal_comparator bytewise_comparator) current k
      ≡ same_key bytewise_comparator current k
same_key-long none k hc hk = refl
same_key-long (some c) k hc hk = is_eq-internal_compare k c hk hc

abbrev after_key : Option Bytes → KeyState
after_key current = record no_key { current_user_key = current }

flush_step-near_data :
    (current : Option Bytes) (o : Option ParsedInternalKey) (e : KeyValue)
    (rest : Option Bytes → Option (List KeyValue × Bytes)) (others : KeyState → List KeyValue)
    (last : Bytes)
    → IsCurrent current
    → HasLongKey o
    → ((current' : Option Bytes)
        → IsCurrent current'
        → rest current' ≡ some (others (after_key current'), last))
    → flush_step (internal_comparator bytewise_comparator) current o e rest
      ≡ some (
        (let decision = near_data_decision bytewise_comparator (after_key current) o in
            if decision.0 then others decision.1 else e ∷ others decision.1),
        last,
      )
unfolding flush_step near_data_decision
flush_step-near_data current none e rest others last hc hk ih = elim hk [ ]
flush_step-near_data current (some ikey) e rest others last hc hk ih =
    elim (Bool-cases (same_key bytewise_comparator current ikey.user_key)) [
      | inl same ↦ rw (same_key-long current ikey.user_key hc hk, same) (ih current hc)
      | inr new ↦
          rw (same_key-long current ikey.user_key hc hk, new, ih (some ikey.user_key) hk) refl
    ]

flush_loop-near_data :
    (current : Option Bytes) (last : Bytes) (input : List KeyValue)
    → IsCurrent current
    → All (λ e. HasLongKey (parse_internal_key e.0)) input
    → flush_loop (internal_comparator bytewise_comparator) current last input
      ≡ some
          (kept (near_data_step bytewise_comparator) (after_key current) input, last_key last input)
unfolding flush_loop near_data_step
flush_loop-near_data current last [] hc h = refl
flush_loop-near_data current last ((key, value) ∷ input) hc (hk, h) =
    flush_step-near_data current (parse_internal_key key) (key, value)
      (λ current'. flush_loop (internal_comparator bytewise_comparator) current' key input)
      (λ st. kept (near_data_step bytewise_comparator) st input) (last_key key input) hc hk
      (λ current' hc'. flush_loop-near_data current' key input hc' h)

-- With the bytewise comparator, and user keys of eight bytes at least, a flush writes the entries that
-- the compaction on the memory node keeps: the first for each user key. The table's range is from the
-- first key of the input to the last, and the status that of `Finish`, if the input's is OK.
pub build_table_lem :
    (file_size : List KeyValue → ℕ) (finish_status : List KeyValue → Status) (number : ℕ)
    (key value : Bytes) (input : List KeyValue)
    → All (λ e. HasLongKey (parse_internal_key e.0)) ((key, value) ∷ input)
    → let entries = kept (near_data_step bytewise_comparator) no_key ((key, value) ∷ input) in
      build_table
        (internal_comparator bytewise_comparator)
        file_size
        finish_status
        number
        ok
        ((key, value) ∷ input)
      ≡ (
        finish_status entries,
        some (record {
          meta = record {
            number = number;
            file_size = file_size entries;
            smallest = key;
            largest = last_key key input;
            under_compaction = false;
          };
          entries = entries;
        }),
      )
unfolding build_table
build_table_lem file_size finish_status number key value input h =
    rw (flush_loop-near_data none key ((key, value) ∷ input) tt h, build_table) refl
