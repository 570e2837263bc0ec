-- ===== src/Versions/Output/Pick.antt =====
-- `PickLevelForMemTableOutput`: what it has checked of the levels up to the one that it picks.
use d_lsm.Common.{ℕ, ◌+◌, ◌≤◌, ◌<◌, ◌≡◌, ◌⊎◌}
use d_lsm.Common.{true, false}
use d_lsm.Common.{List, Any, some}
use d_lsm.Coding.{Bytes}
use d_lsm.Comparator.Interface.{Comparator}
use d_lsm.Versions.{FileMetaData}
use d_lsm.Versions.Overlap.{Overlaps}
use d_lsm.Versions.Output.{overlap_in_level, grand_parents_exceed}

module _ (user : Comparator) (max_file_size : ℕ) (levels : ℕ → List FileMetaData) where
  -- What the loop from `level` to `limit` has checked when it picks a level.
  abbrev pub Picked : Bytes → Bytes → ℕ → ℕ → ℕ → Type 0
  Picked smallest largest level limit picked =
      level ≤ picked
      × picked ≤ limit
      × ((l : ℕ)
          → level < l
          → l ≤ picked
          → overlap_in_level user max_file_size levels l smallest largest ≡ false)
      × ((l : ℕ)
          → level ≤ l
          → l < picked
          → grand_parents_exceed user max_file_size levels l smallest largest ≡ false)

  -- Why the loop does not go beyond the level that it picks.
  abbrev pub Stops : Bytes → Bytes → ℕ → ℕ → Type 0
  Stops smallest largest limit picked =
      (picked ≡ limit)
      ⊎ (overlap_in_level user max_file_size levels (picked + 1) smallest largest ≡ true)
      ⊎ (grand_parents_exceed user max_file_size levels picked smallest largest ≡ true)

-- Some file of the level overlaps the range.
abbrev pub OverlapsLevel : Comparator → (ℕ → List FileMetaData) → Bytes → Bytes → ℕ → Type 0
OverlapsLevel user levels smallest largest level =
    Any (Overlaps user (some smallest) (some largest)) (levels level)
