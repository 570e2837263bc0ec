-- ===== src/Versions/Inputs.antt =====
-- `GetOverlappingInputs`: the search ends, and what it collects.
use d_lsm.Common.{ℕ, ◌+◌, ◌*◌, ◌≤◌, ◌≡◌}
use d_lsm.Common.{false}
use d_lsm.Common.{List, ◌++◌, length, All, Option}
use d_lsm.Common.{filter}
use d_lsm.Coding.{Bytes}
use d_lsm.Comparator.Interface.{Comparator, IsComparator}
use d_lsm.Versions.{FileMetaData}
use d_lsm.Versions.{inputs_loop}
use d_lsm.Versions.Range.{touches, Contains, Collected, outside}

module _ (user : Comparator) (laws : IsComparator user) (files : List FileMetaData) where
  -- The files before the current one have been sorted out.
  abbrev Scanned :
      ℕ
      → List FileMetaData
      → List FileMetaData
      → Option Bytes
      → Option Bytes
      → List FileMetaData
      → Type 0
  Scanned level before rest b e inputs =
      (files ≡ before ++ rest)
      × (inputs ≡ filter (touches user b e) before)
      × All (λ f. f.under_compaction ≡ false) inputs
      × (level ≡ 0 → All (Contains user b e) inputs)

  -- The loop with this much fuel keeps its promise, from any place.
  abbrev Promise : ℕ → ℕ → Type 0
  Promise fuel level =
      (before rest : List FileMetaData) (b e : Option Bytes) (inputs : List FileMetaData)
      → Scanned level before rest b e inputs
      → length rest + outside user files b e * length files ≤ fuel
      → Collected user level files b e (inputs_loop user fuel level files rest b e inputs)
