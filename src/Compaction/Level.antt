-- ===== src/Compaction/Level.antt =====
-- The files that a compaction writes are in order and disjoint.
use Prim.Native.Nat.Ordering.{lt, gt}
use d_lsm.Common.{ℕ, suc, ◌≡◌, ◌≢◌, arith, Bool, inl, inr}
use d_lsm.Common.{Option, some, none, Bool-cases, List, [], ◌∷◌, ◌++◌, All, All-append, leb}
use d_lsm.Common.{length}
use d_lsm.Coding.{Bytes}
use d_lsm.Status.{Status, is_ok}
use d_lsm.Comparator.Interface.{Comparator, IsComparator}
use d_lsm.InternalKey.{internal_compare}
use d_lsm.Versions.{FileMetaData}
use d_lsm.Versions.FindFile.{IsFile, IsLevel, icmp_laws}
use d_lsm.Compaction.{KeyValue, KeyState, no_key, CompactionOutput, CompactionState, open_output}
use d_lsm.Compaction.{
  finish_output, add_to_output, Surroundings, compaction_loop, finish_compaction,
}
use d_lsm.Compaction.{do_compaction_work}

-- The files in the order in which they were finished.
abbrev pub files : List CompactionOutput → List FileMetaData
files [] = []
files (out ∷ outputs) = files outputs ++ out.meta ∷ []

module _ (user : Comparator) where
  -- The input's keys ascend.
  abbrev pub Ascending : List KeyValue → Type 0
  Ascending [] = Unit
  Ascending (e ∷ input) = All (λ d. internal_compare user e.0 d.0 ≡ lt) input × Ascending input

  -- The key stands before all of the input.
  abbrev pub Before : List KeyValue → Bytes → Type 0
  Before input key = All (λ d. internal_compare user key d.0 ≡ lt) input

  -- The open file: it starts behind all others, not behind the last key read, and before the input.
  abbrev IsOpen : List FileMetaData → Bytes → List KeyValue → Option CompactionOutput → Type 0
  IsOpen done last input none = Unit
  IsOpen done last input (some out) =
      All (λ f. internal_compare user f.largest out.meta.smallest ≡ lt) done
      × (internal_compare user out.meta.smallest last ≢ gt)
      × Before input out.meta.smallest

  record IsOrdered (c : CompactionState) (last : Bytes) (input : List KeyValue) : Type 0 where
    pub level : IsLevel user (files c.outputs)
    pub behind : All (λ f. Before input f.largest) (files c.outputs)
    pub open_file : IsOpen (files c.outputs) last input c.builder

module _ (user : Comparator) (laws : IsComparator user) where
  IsLevel-snoc :
      (fs : List FileMetaData) (f : FileMetaData)
      → IsLevel user fs
      → All (λ g. internal_compare user g.largest f.smallest ≡ lt) fs
      → IsFile user f
      → IsLevel user (fs ++ f ∷ [])
  IsLevel-snoc [] f h before hf = (hf, tt, tt)
  IsLevel-snoc (g ∷ fs) f (hg, hs, h) (hb, before) hf =
      (hg, All-append _ fs (f ∷ []) hs (hb, tt), IsLevel-snoc fs f h before hf)

  -- To finish the open file with a largest key that stands before the rest of the input.
  finish_output-IsOrdered :
      (file_size : List KeyValue → ℕ) (finish_status : List KeyValue → Status) (c : CompactionState)
      (out : CompactionOutput) (largest last : Bytes) (input : List KeyValue)
      → IsLevel user (files c.outputs)
      → All (λ f. Before user input f.largest) (files c.outputs)
      → All (λ f. internal_compare user f.largest out.meta.smallest ≡ lt) (files c.outputs)
      → internal_compare user out.meta.smallest largest ≢ gt
      → Before user input largest
      → IsOrdered user (finish_output file_size finish_status c out largest).1 last input
  unfolding finish_output
  finish_output-IsOrdered file_size finish_status c out largest last input level behind hb hf hl =
      record {
        level = IsLevel-snoc (files c.outputs) _ level hb hf;
        behind = All-append _ (files c.outputs) _ behind (hl, tt);
        open_file = tt;
      }

  Before-head :
      (key value : Bytes) (input : List KeyValue) (fs : List FileMetaData)
      → All (λ f. Before user ((key, value) ∷ input) f.largest) fs
      → All (λ f. internal_compare user f.largest key ≡ lt) fs
  Before-head key value input [] h = tt
  Before-head key value input (f ∷ fs) (hf, h) = (hf.0, Before-head key value input fs h)

  Before-tail :
      (key value : Bytes) (input : List KeyValue) (fs : List FileMetaData)
      → All (λ f. Before user ((key, value) ∷ input) f.largest) fs
      → All (λ f. Before user input f.largest) fs
  Before-tail key value input [] h = tt
  Before-tail key value input (f ∷ fs) (hf, h) = (hf.1, Before-tail key value input fs h)

  not_above_self : (key : Bytes) → internal_compare user key key ≢ gt
  not_above_self key = ground (arith, (icmp_laws user laws).compare_refl key)

  add_to_output-IsOrdered :
      (file_size : List KeyValue → ℕ) (finish_status : List KeyValue → Status) (max : ℕ)
      (outputs : List CompactionOutput) (builder : Option CompactionOutput) (n : ℕ)
      (key value last : Bytes) (input : List KeyValue)
      → Ascending user ((key, value) ∷ input)
      → IsOrdered user
          (record { outputs = outputs; builder = builder; next_file_number = n })
          last
          ((key, value) ∷ input)
      → IsOrdered user
          (add_to_output file_size finish_status max
            (record { outputs = outputs; builder = builder; next_file_number = n })
            key
            value).1
          key
          input
  unfolding add_to_output open_output
  add_to_output-IsOrdered file_size finish_status max outputs none n key value last input (hk, ha)
        h =
      elim (Bool-cases (leb max (file_size ((key, value) ∷ [])))) [
        | inl full ↦ rw full (
            finish_output-IsOrdered file_size finish_status _ _ key key input h.level
              (Before-tail key value input (files outputs) h.behind)
              (Before-head key value input (files outputs) h.behind) (not_above_self key) hk)
        | inr more ↦ rw more (record {
          level = h.level;
          behind = Before-tail key value input (files outputs) h.behind;
          open_file =
              (Before-head key value input (files outputs) h.behind, not_above_self key, hk);
        })
      ]
  add_to_output-IsOrdered file_size finish_status max outputs (some out) n key value last input
        (hk, ha) h =
      let (before, reach, (below, rest)) = h.open_file in
      elim (Bool-cases (leb max (file_size (out.entries ++ (key, value) ∷ [])))) [
        | inl full ↦ rw full (
            finish_output-IsOrdered file_size finish_status _ _ key key input h.level
              (Before-tail key value input (files outputs) h.behind) before (ground arith) hk)
        | inr more ↦ rw more (record {
          level = h.level;
          behind = Before-tail key value input (files outputs) h.behind;
          open_file = (before, ground arith, rest);
        })
      ]

  IsOpen-skip :
      (fs : List FileMetaData) (key value last : Bytes) (input : List KeyValue)
      (builder : Option CompactionOutput)
      → IsOpen user fs last ((key, value) ∷ input) builder
      → IsOpen user fs key input builder
  IsOpen-skip fs key value last input none h = tt
  IsOpen-skip fs key value last input (some out) (before, reach, (below, rest)) =
      (before, ground arith, rest)

  skip-IsOrdered :
      (c : CompactionState) (key value last : Bytes) (input : List KeyValue)
      → IsOrdered user c last ((key, value) ∷ input)
      → IsOrdered user c key input
  skip-IsOrdered c key value last input h = record {
    level = h.level;
    behind = Before-tail key value input (files c.outputs) h.behind;
    open_file = IsOpen-skip (files c.outputs) key value last input c.builder h.open_file;
  }

  stop-IsOrdered :
      (c : CompactionState) (last : Bytes) (input : List KeyValue)
      → IsOrdered user c last input
      → IsOrdered user c last []
  stop-IsOrdered c last input h = record {
    level = h.level;
    behind = nothing_left (files c.outputs);
    open_file = open_left c.builder h.open_file;
  }
    where
      nothing_left : (fs : List FileMetaData) → All (λ f. Before user [] f.largest) fs
      nothing_left [] = tt
      nothing_left (f ∷ fs) = (tt, nothing_left fs)

      open_left :
          (builder : Option CompactionOutput)
          → IsOpen user (files c.outputs) last input builder
          → IsOpen user (files c.outputs) last [] builder
      open_left none k = tt
      open_left (some out) k = (k.0, k.1, tt)

module _ (user : Comparator) (laws : IsComparator user) (step : KeyState → Bytes → Bool × KeyState)
    (file_size : List KeyValue → ℕ) (finish_status : List KeyValue → Status) (max : ℕ)
    (env : Surroundings) where
  compaction_loop-IsOrdered :
      (c : CompactionState) (st : KeyState) (last : Bytes) (input : List KeyValue)
      → Ascending user input
      → IsOrdered user c last input
      → let (s, c', last') = compaction_loop step file_size finish_status max env c st last input in
        IsOrdered user c' last' []
  unfolding compaction_loop
  compaction_loop-IsOrdered c st last [] ha h = h
  compaction_loop-IsOrdered c st last ((key, value) ∷ input) ha h =
      let after =
        add_to_output-IsOrdered user laws file_size finish_status max c.outputs c.builder
          c.next_file_number key value last input ha h in
      elim (Bool-cases (env.shutting_down (suc (length input)))) [
        | inl shut ↦ rw shut (stop-IsOrdered user laws c last ((key, value) ∷ input) h)
        | inr up ↦ elim (Bool-cases (step st key).0) [
          | inl drop ↦
              rw (up, drop)
                (compaction_loop-IsOrdered c (step st key).1 key input ha.1
                  (skip-IsOrdered user laws c key value last input h))
          | inr keep ↦
              elim (Bool-cases (is_ok (add_to_output file_size finish_status max c key value).0)) [
                | inl fine ↦
                    rw (up, keep, fine)
                      (compaction_loop-IsOrdered
                        (add_to_output file_size finish_status max c key value).1 (step st key).1
                        key input ha.1 after)
                | inr failed ↦
                    rw (up, keep, failed)
                      (stop-IsOrdered user laws
                        (add_to_output file_size finish_status max c key value).1 key input after)
              ]
        ]
      ]

  finish_compaction-IsLevel :
      (s : Status) (outputs : List CompactionOutput) (builder : Option CompactionOutput) (n : ℕ)
      (last : Bytes)
      → IsOrdered user
          (record { outputs = outputs; builder = builder; next_file_number = n })
          last
          []
      → IsLevel user (
          files
            (finish_compaction step file_size finish_status max env (
              s,
              record { outputs = outputs; builder = builder; next_file_number = n },
              last,
            )).1.outputs)
  unfolding finish_compaction finish_output
  finish_compaction-IsLevel s outputs none n last h = elim (Bool-cases (is_ok s)) [
    | inr failed ↦ rw failed h.level
    | inl fine ↦ elim (Bool-cases env.shut_at_end) [
      | inl shut ↦ rw (fine, shut) h.level
      | inr on ↦ rw (fine, on) h.level
    ]
  ]
  finish_compaction-IsLevel s outputs (some out) n last h = elim (Bool-cases (is_ok s)) [
    | inr failed ↦ rw failed h.level
    | inl fine ↦ elim (Bool-cases env.shut_at_end) [
      | inl shut ↦ rw (fine, shut) h.level
      | inr on ↦
          rw (fine, on)
            (finish_output-IsOrdered user laws file_size finish_status
              (record { outputs = outputs; builder = some out; next_file_number = n }) out last last
              [] h.level h.behind h.open_file.0 h.open_file.1 tt).level
    ]
  ]

  -- Whether or not a compaction succeeds, the files that it has finished are in order and disjoint,
  -- and each has its smallest key not behind its largest. The keys of its input are assumed to
  -- ascend.
  pub do_compaction_work-IsLevel :
      (file_number : ℕ) (input : List KeyValue)
      → Ascending user input
      → IsLevel user (
          files
            (do_compaction_work step file_size finish_status max env file_number input).1.outputs)
  unfolding do_compaction_work
  do_compaction_work-IsLevel file_number input ha =
      let start : CompactionState = record {
        outputs = [];
        builder = none;
        next_file_number = file_number;
      } in
      let (s, c, last) =
        compaction_loop step file_size finish_status max env start no_key [] input in
      finish_compaction-IsLevel s c.outputs c.builder c.next_file_number last (
        compaction_loop-IsOrdered start no_key [] input ha
          (record { level = tt; behind = tt; open_file = tt }))
