-- ===== src/VersionEdit/Regions.antt =====
-- The registered memory of a table goes from one node to another: the loops of `EncodeTo` and
-- `DecodeFrom` over the maps of regions.
use d_lsm.Common.{ℕ, ◌^◌, ◌<◌, ◌≡◌, refl, ap, ◌∙◌, arith}
use d_lsm.Common.{List, [], ◌∷◌, ◌++◌, length, All, All-append, append_assoc, append-nil}
use d_lsm.Coding.{Bytes, IsByte, encode_fixed32, encode_fixed64, get_fixed32, get_fixed64}
use d_lsm.Coding.Fixed.{
  get_fixed64-encode_fixed64, decode_fixed32-encode_fixed32, encode_fixed32-IsByte,
  encode_fixed64-IsByte,
}
use d_lsm.VersionEdit.{
  Mr, MrMap, mr_serialization, encode_mrs, read_or, insert_mr, decode_mr, decode_mrs,
}

pub read_fixed64 :
    (old v : ℕ) (rest : Bytes)
    → v < 2 ^ 64
    → read_or old (encode_fixed64 v ++ rest) (get_fixed64 (encode_fixed64 v ++ rest)) ≡ (v, rest)
read_fixed64 old v rest h = rw (get_fixed64-encode_fixed64 v rest h) refl

pub read_fixed32 :
    (old v : ℕ) (rest : Bytes)
    → v < 2 ^ 32
    → read_or old (encode_fixed32 v ++ rest) (get_fixed32 (encode_fixed32 v ++ rest)) ≡ (v, rest)
unfolding get_fixed32
read_fixed32 old v rest h =
    rw (decode_fixed32-encode_fixed32 v rest h) (unfold encode_fixed32 in ground arith)

-- The numbers of a memory region fit in their types.
pub record IsMr (offset : ℕ) (mr : Mr) : Type 0 where
  pub offset_fits : offset < 2 ^ 32
  pub addr_fits : mr.addr < 2 ^ 64
  pub length_fits : mr.mr_length < 2 ^ 64
  pub lkey_fits : mr.lkey < 2 ^ 32
  pub rkey_fits : mr.rkey < 2 ^ 32

-- It has this context, protection domain and handle.
abbrev pub IsLike : ℕ → ℕ → ℕ → Mr → Type 0
IsLike context pd handle mr = (mr.context ≡ context) × (mr.pd ≡ pd) × (mr.handle ≡ handle)

-- A map of such regions, by ascending offsets.
abbrev pub IsMrs : ℕ → ℕ → ℕ → MrMap → Type 0
IsMrs context pd handle [] = Unit
IsMrs context pd handle ((offset, mr) ∷ mrs) =
    IsMr offset mr
    × IsLike context pd handle mr
    × All (λ m. offset < m.0) mrs
    × IsMrs context pd handle mrs

decode_mr_lem :
    (fresh : Mr) (offset : ℕ) (mr : Mr) (rest : Bytes)
    → IsMr offset mr
    → IsLike fresh.context fresh.pd fresh.handle mr
    → decode_mr fresh (encode_fixed32 offset ++ (mr_serialization mr ++ rest))
      ≡ ((offset, mr), rest)
unfolding decode_mr mr_serialization
decode_mr_lem fresh offset mr rest h (context, pd, handle) =
    simp
      (
        append_assoc,
        read_fixed32 0 offset _ h.offset_fits,
        read_fixed64 fresh.addr mr.addr _ h.addr_fits,
        read_fixed64 fresh.mr_length mr.mr_length _ h.length_fits,
        read_fixed32 fresh.lkey mr.lkey _ h.lkey_fits,
        read_fixed32 fresh.rkey mr.rkey _ h.rkey_fits,
      )
      (ground arith)

insert_mr-append :
    (offset : ℕ) (mr : Mr) (mrs : MrMap)
    → All (λ m. m.0 < offset) mrs
    → insert_mr offset mr mrs ≡ mrs ++ (offset, mr) ∷ []
unfolding insert_mr
insert_mr-append offset mr [] h = refl
insert_mr-append offset mr ((o, m) ∷ mrs) (ho, h) = ground (arith, insert_mr-append offset mr mrs h)

-- Each element that has been read stands before each that follows.
abbrev pub AllBefore {ℓ} : {A : Type ℓ} → (A → A → Type 0) → List A → List A → Type 0
AllBefore R acc [] = Unit
AllBefore R acc (x ∷ xs) = All (λ a. R a x) acc × AllBefore R acc xs

pub AllBefore-append {ℓ} :
    {A : Type ℓ} (R : A → A → Type 0) (acc xs : List A) (y : A)
    → AllBefore R acc xs
    → All (R y) xs
    → AllBefore R (acc ++ y ∷ []) xs
AllBefore-append R acc [] y h k = tt
AllBefore-append R acc (x ∷ xs) y (hx, h) (kx, k) =
    (All-append _ acc _ hx (kx, tt), AllBefore-append R acc xs y h k)

pub AllBefore-nil {ℓ} : {A : Type ℓ} (R : A → A → Type 0) (xs : List A) → AllBefore R [] xs
AllBefore-nil R [] = tt
AllBefore-nil R (x ∷ xs) = (tt, AllBefore-nil R xs)

-- The order of the regions in a map.
abbrev pub Below : ℕ × Mr → ℕ × Mr → Type 0
Below m m' = m.0 < m'.0

pub decode_mrs_lem :
    (fresh : Mr) (acc mrs : MrMap) (rest : Bytes)
    → IsMrs fresh.context fresh.pd fresh.handle mrs
    → AllBefore Below acc mrs
    → decode_mrs (length mrs) fresh acc (encode_mrs mrs ++ rest) ≡ (acc ++ mrs, rest)
unfolding decode_mrs encode_mrs
decode_mrs_lem fresh acc [] rest h before = simp append-nil
decode_mrs_lem fresh acc ((offset, mr) ∷ mrs) rest (hm, like, above, h) (low, before) =
    rw
      (
        append_assoc (encode_fixed32 offset) (mr_serialization mr ++ encode_mrs mrs) rest,
        append_assoc (mr_serialization mr) (encode_mrs mrs) rest,
      )
      (ap (λ d. decode_mrs (length mrs) fresh (insert_mr d.0.0 d.0.1 acc) d.1)
          (decode_mr_lem fresh offset mr (encode_mrs mrs ++ rest) hm like)
        ∙ ap (λ l. decode_mrs (length mrs) fresh l (encode_mrs mrs ++ rest))
            (insert_mr-append offset mr acc low)
        ∙ decode_mrs_lem fresh (acc ++ (offset, mr) ∷ []) mrs rest h
            (AllBefore-append Below acc mrs (offset, mr) before above)
        ∙ ap (λ l. (l, rest)) (append_assoc acc ((offset, mr) ∷ []) mrs))

pub fixed32-IsByte :
    (v : ℕ) (rest : Bytes) → All IsByte rest → All IsByte (encode_fixed32 v ++ rest)
fixed32-IsByte v rest h = All-append IsByte _ rest (encode_fixed32-IsByte v) h

pub fixed64-IsByte :
    (v : ℕ) (rest : Bytes) → All IsByte rest → All IsByte (encode_fixed64 v ++ rest)
fixed64-IsByte v rest h = All-append IsByte _ rest (encode_fixed64-IsByte v) h

pub mrs-IsByte :
    (mrs : MrMap) (rest : Bytes) → All IsByte rest → All IsByte (encode_mrs mrs ++ rest)
unfolding encode_mrs mr_serialization
mrs-IsByte [] rest h = h
mrs-IsByte ((offset, mr) ∷ mrs) rest h = simp append_assoc (
    fixed32-IsByte _ _ (
      fixed64-IsByte _ _
        (fixed64-IsByte _ _ (fixed32-IsByte _ _ (fixed32-IsByte _ _ (mrs-IsByte mrs rest h))))))
