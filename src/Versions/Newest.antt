-- ===== src/Versions/Newest.antt =====
-- The order in which `ForEachOverlapping` takes the files of level 0.
use mathlib.Core.List.{Perm}
use mathlib.Core.List.Perm
use d_lsm.Common.{ℕ, ◌≤◌, arith, Bool-cases, ltb, inl, inr}
use d_lsm.Common.{List, [], ◌∷◌, All, All-map}
use d_lsm.Versions.{FileMetaData, insert_newest, sort_newest_first}

-- Each file's number is at least those of the files after it.
abbrev pub IsNewestFirst : List FileMetaData → Type 0
IsNewestFirst [] = Unit
IsNewestFirst (f ∷ files) = All (λ g. g.number ≤ f.number) files × IsNewestFirst files

insert_newest-Perm :
    (f : FileMetaData) (files : List FileMetaData) → Perm (insert_newest f files) (f ∷ files)
unfolding insert_newest
insert_newest-Perm f [] = Perm.rfl
insert_newest-Perm f (g ∷ files) = elim (Bool-cases (ltb g.number f.number)) [
  | inl newer ↦ rw newer Perm.rfl
  | inr older ↦
      rw older (Perm.trans (Perm.cons g (insert_newest-Perm f files)) (Perm.swap f g files))
]

All-insert_newest :
    (bound : ℕ) (f : FileMetaData) (files : List FileMetaData)
    → f.number ≤ bound
    → All (λ g. g.number ≤ bound) files
    → All (λ g. g.number ≤ bound) (insert_newest f files)
unfolding insert_newest
All-insert_newest bound f [] hf h = (hf, tt)
All-insert_newest bound f (g ∷ files) hf (hg, h) = elim (Bool-cases (ltb g.number f.number)) [
  | inl newer ↦ rw newer (hf, (hg, h))
  | inr older ↦ rw older (hg, All-insert_newest bound f files hf h)
]

insert_newest-IsNewestFirst :
    (f : FileMetaData) (files : List FileMetaData)
    → IsNewestFirst files
    → IsNewestFirst (insert_newest f files)
unfolding insert_newest
insert_newest-IsNewestFirst f [] h = (tt, tt)
insert_newest-IsNewestFirst f (g ∷ files) (hg, h) = elim (Bool-cases (ltb g.number f.number)) [
  | inl newer ↦ rw newer (
    (
      ground arith,
      All-map {P = λ x. x.number ≤ g.number} {Q = λ x. x.number ≤ f.number} (λ x hx. ground arith)
          files hg,
    ),
    (hg, h),
  )
  | inr older ↦
      rw older (
        All-insert_newest g.number f files (ground arith) hg,
        insert_newest-IsNewestFirst f files h,
      )
]

-- The files of level 0 are sorted with the newest first, and none is lost or taken twice.
pub sort_newest_first-IsNewestFirst :
    (files : List FileMetaData)
    → IsNewestFirst (sort_newest_first files) × Perm (sort_newest_first files) files
unfolding sort_newest_first
sort_newest_first-IsNewestFirst [] = (tt, Perm.rfl)
sort_newest_first-IsNewestFirst (f ∷ files) =
    let (order, perm) = sort_newest_first-IsNewestFirst files in
    (
      insert_newest-IsNewestFirst f (sort_newest_first files) order,
      Perm.trans (insert_newest-Perm f (sort_newest_first files)) (Perm.cons f perm),
    )
