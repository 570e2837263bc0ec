-- ===== src/Iterators/Step.antt =====
-- One move forward takes one entry from the children.
use mathlib.Core.List.{Perm, perm_middle}
use mathlib.Core.List.Perm
use Prim.Native.Nat.Ordering.{eq}
use d_lsm.Common.{◌≢◌, ℕ, zero, suc, ◌≡◌, refl, ap, sym, ◌∙◌, arith}
use d_lsm.Common.{some, none, length, length-append}
use d_lsm.Common.{List, [], ◌∷◌, ◌++◌, All, All-append, get_elem?}
use d_lsm.Comparator.Interface.{Comparator}
use d_lsm.Compaction.{KeyValue}
use d_lsm.Iterators.{Cursor, cursor, head?, entry_at, whole, child_next}
use d_lsm.Iterators.{move_child}
use d_lsm.Iterators.Smallest.{IsRising}

-- The entries that the children have not passed.
abbrev pub remaining : List Cursor → List KeyValue
remaining [] = []
remaining (c ∷ children) = c.ahead ++ remaining children

abbrev pub entries_of : List Cursor → List KeyValue
entries_of [] = []
entries_of (c ∷ children) = whole c ++ entries_of children

-- The children are as a move forward leaves them.
abbrev pub IsForward : Cursor → Type 0
IsForward c = entry_at c ≡ head? c.ahead

head_lem :
    (entries : List KeyValue) (e : KeyValue)
    → head? entries ≡ some e
    → (rest : List KeyValue) × (entries ≡ e ∷ rest)
head_lem [] e h = absurd (ground arith)
head_lem (d ∷ rest) e h = (rest, ground arith)

pub head_none : (entries : List KeyValue) → head? entries ≡ none → entries ≡ []
head_none [] h = refl
head_none (d ∷ rest) h = absurd (ground arith)

child_next_lem :
    (c : Cursor) (e : KeyValue) (rest : List KeyValue)
    → c.ahead ≡ e ∷ rest
    → child_next c ≡ cursor (e ∷ c.passed) rest
unfolding child_next
child_next_lem c e rest h =
    ap (λ a. elim a as (λ _. Cursor) [ [] ↦ c | d ∷ ahead ↦ cursor (d ∷ c.passed) ahead ]) h

pub cursor-IsForward : (passed ahead : List KeyValue) → IsForward (cursor passed ahead)
cursor-IsForward passed [] = refl
cursor-IsForward passed (e ∷ ahead) = refl

All-split : (P : KeyValue → Type 0) (xs ys : List KeyValue) → All P (xs ++ ys) → All P xs × All P ys
All-split P [] ys h = (tt, h)
All-split P (x ∷ xs) ys (hx, h) = let (here, there) = All-split P xs ys h in ((hx, here), there)

module _ (comparator : Comparator) where
  -- A child as the forward moves leave it, whose entries ahead ascend.
  unfoldable pub IsReady : Cursor → Type 0
  IsReady c = IsForward c × IsRising comparator c.ahead

  -- The keys of two entries differ.
  abbrev pub Apart : KeyValue → KeyValue → Type 0
  Apart e d = (comparator.compare e.0 d.0 ≢ eq) × (comparator.compare d.0 e.0 ≢ eq)

  -- No two entries have the same key.
  abbrev pub AreApart : List KeyValue → Type 0
  AreApart [] = Unit
  AreApart (e ∷ entries) = All (Apart e) entries × AreApart entries

  AreApart-step :
      (front before after : List KeyValue) (e : KeyValue)
      → ((P : KeyValue → Type 0) → All P before → P e × All P after)
      → (AreApart before → All (Apart e) after × AreApart after)
      → AreApart (front ++ before)
      → All (Apart e) (front ++ after) × AreApart (front ++ after)
  AreApart-step [] before after e keeps step h = step h
  AreApart-step (d ∷ front) before after e keeps step (first, h) =
      let (others, rest) = AreApart-step front before after e keeps step h in
      let (here, there) = All-split (Apart d) front before first in
      let ((one, two), later) = keeps (Apart d) there in
      (((two, one), others), (All-append (Apart d) front after here later, rest))

  pub record IsStep (e : KeyValue) (before after : List Cursor) : Type 1 where
    pub keeps : (P : KeyValue → Type 0) → All P (remaining before) → P e × All P (remaining after)
    pub same : Perm (remaining before) (e ∷ remaining after)
    pub apart :
        AreApart (remaining before) → All (Apart e) (remaining after) × AreApart (remaining after)
    pub fewer : length (remaining before) ≡ suc (length (remaining after))
    pub ready : All IsReady after

  child_next-IsStep :
      (c : Cursor) (children : List Cursor) (e : KeyValue) (rest : List KeyValue)
      → c.ahead ≡ e ∷ rest
      → IsReady c
      → All IsReady children
      → IsStep e (c ∷ children) (child_next c ∷ children)
  unfolding IsReady
  child_next-IsStep c children e rest h (forward_c, rising) ready =
      rw (child_next_lem c e rest h) (record {
        keeps = λ P all_p. simp h at all_p;
        same = simp h (Perm.rfl);
        apart = λ all_apart. simp h at all_apart;
        fewer = simp h refl;
        ready = (
          (
            cursor-IsForward (e ∷ c.passed) rest,
            (let r : IsRising comparator (e ∷ rest) = simp h at rising in r.1),
          ),
          ready,
        );
      })

  pub move_child-IsStep :
      (children : List Cursor) (k : ℕ) (c : Cursor) (e : KeyValue)
      → All IsReady children
      → get_elem? children k ≡ some c
      → entry_at c ≡ some e
      → IsStep e children (move_child child_next k children)
  unfolding move_child IsReady
  move_child-IsStep [] k c e h there is_e = absurd (ground arith)
  move_child-IsStep (d ∷ children) zero c e (hd, h) there is_e =
      let same : d ≡ c = ground arith in
      let is_e' : entry_at d ≡ some e = ap entry_at same ∙ is_e in
      let (rest, split) = head_lem d.ahead e (sym hd.0 ∙ is_e') in
      child_next-IsStep d children e rest split hd h
  move_child-IsStep (d ∷ children) (suc k) c e (hd, h) there is_e =
      let step = move_child-IsStep children k c e h there is_e in
      record {
        keeps = λ P all_p.
            let (here, others) = All-split P d.ahead (remaining children) all_p in
            let (now, later) = step.keeps P others in (now, All-append P d.ahead _ here later);
        apart =
            AreApart-step d.ahead (remaining children)
              (remaining (move_child child_next k children)) e step.keeps step.apart;
        same =
            Perm.trans (Perm.append_left d.ahead step.same)
              (perm_middle d.ahead (remaining (move_child child_next k children)));
        fewer = omega (
          arith,
          step.fewer,
          length-append d.ahead (remaining children),
          length-append d.ahead (remaining (move_child child_next k children)),
        );
        ready = (hd, step.ready);
      }
