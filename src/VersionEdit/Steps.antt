-- ===== src/VersionEdit/Steps.antt =====
-- One record of an edit goes from `EncodeTo` to `DecodeFrom`.
use Prim.Native.String.{String}
use d_lsm.Common.{ℕ, suc, ◌^◌, ◌<◌, ◌≡◌, refl, ap, ◌∙◌, arith, lt→ltb}
use d_lsm.Common.{Option, some, none, [], ◌++◌, length, All, All-append, append_assoc}
use d_lsm.Coding.{Bytes, IsByte, encode_varint32, encode_varint64, get_varint64}
use d_lsm.Coding.{put_length_prefixed_slice, get_length_prefixed_slice}
use d_lsm.Coding.Slices.{put_length_prefixed_slice-append, get_length_prefixed_slice_lem}
use d_lsm.Coding.Varint.{
  get_varint32-encode_varint32, get_varint64-encode_varint64, encode_varint32-IsByte,
}
use d_lsm.Coding.Varint.{encode_varint64-IsByte}
use d_lsm.VersionEdit.Files.{slice-IsByte}
use d_lsm.VersionEdit.Records.{VersionEdit, encode_number, encode_comparator, get_level}
use d_lsm.VersionEdit.Records.{
  decoded, decode_record, decode_loop, decode_number, decode_comparator,
}

pub varint32-IsByte :
    (v : ℕ) (rest : Bytes) → v < 2 ^ 32 → All IsByte rest → All IsByte (encode_varint32 v ++ rest)
varint32-IsByte v rest h hr = All-append IsByte _ rest (encode_varint32-IsByte v h) hr

pub varint64-IsByte :
    (v : ℕ) (rest : Bytes) → v < 2 ^ 64 → All IsByte rest → All IsByte (encode_varint64 v ++ rest)
varint64-IsByte v rest h hr = All-append IsByte _ rest (encode_varint64-IsByte v h) hr

pub get_slice :
    (value rest : Bytes)
    → length value < 2 ^ 32
    → All IsByte value
    → All IsByte rest
    → get_length_prefixed_slice (put_length_prefixed_slice [] value ++ rest) ≡ some (value, rest)
get_slice value rest h hv hr =
    rw (put_length_prefixed_slice-append [] value h)
      (get_length_prefixed_slice_lem value rest h hv hr)

-- A record that is read takes one from the counter.
pub decode_loop-record :
    (junk left tag : ℕ) (body rest : Bytes) (edit edit' : VersionEdit)
    → tag < 2 ^ 32
    → All IsByte body
    → decode_record junk tag body edit ≡ decoded edit' rest
    → decode_loop junk (suc left) (encode_varint32 tag ++ body) edit
      ≡ decode_loop junk left rest edit'
unfolding decode_loop
decode_loop-record junk left tag body rest edit edit' ht hb e =
    rw (decode_loop, get_varint32-encode_varint32 tag body ht hb, e) refl

-- The counter before a field that may be absent, by what it is behind it.
abbrev pub counter {ℓ} : {A : Type ℓ} → Option A → ℕ → ℕ
counter none left = left
counter (some x) left = suc left

-- A number that is absent or fits.
abbrev pub IsNumber : Option ℕ → Type 0
IsNumber none = Unit
IsNumber (some n) = n < 2 ^ 64

abbrev pub IsComparator : Option Bytes → Type 0
IsComparator none = Unit
IsComparator (some name) = (length name < 2 ^ 32) × All IsByte name

-- A field that is a number. Where it is absent, nothing is written and nothing changes.
pub decode_loop-number :
    (msg : String) (junk left tag : ℕ) (o : Option ℕ) (rest : Bytes) (set : Option ℕ → VersionEdit)
    → tag < 2 ^ 32
    → IsNumber o
    → All IsByte rest
    → ((input : Bytes)
        → decode_record junk tag input (set none)
          ≡ decode_number msg (get_varint64 input) (λ n. set (some n)))
    → decode_loop junk (counter o left) (encode_number tag o ++ rest) (set none)
      ≡ decode_loop junk left rest (set o)
decode_loop-number msg junk left tag none rest set ht h hr e = refl
decode_loop-number msg junk left tag (some n) rest set ht h hr e =
    rw (append_assoc (encode_varint32 tag) (encode_varint64 n) rest) (
      decode_loop-record junk left tag _ rest (set none) (set (some n)) ht
        (varint64-IsByte n rest h hr)
        (e (encode_varint64 n ++ rest)
          ∙ ap (λ r. decode_number msg r (λ m. set (some m)))
              (get_varint64-encode_varint64 n rest h)))

pub decode_loop-comparator :
    (junk left : ℕ) (o : Option Bytes) (rest : Bytes) (set : Option Bytes → VersionEdit)
    → IsComparator o
    → All IsByte rest
    → ((o' : Option Bytes) → set o' ≡ record (set none) { comparator = o' })
    → decode_loop junk (counter o left) (encode_comparator o ++ rest) (set none)
      ≡ decode_loop junk left rest (set o)
decode_loop-comparator junk left none rest set h hr e = refl
decode_loop-comparator junk left (some name) rest set h hr e =
    let (len, bytes) = h in
    rw (append_assoc (encode_varint32 1) (put_length_prefixed_slice [] name) rest) (
      decode_loop-record junk left 1 _ rest (set none) (set (some name)) (omega arith)
        (slice-IsByte name rest len bytes hr)
        (unfold decode_record decode_comparator in
          rw (get_slice name rest len bytes hr, e (some name)) refl))

-- A level that is in range.
pub get_level_lem :
    (level : ℕ) (rest : Bytes)
    → level < 6
    → All IsByte rest
    → get_level (encode_varint32 level ++ rest) ≡ some (level, rest)
unfolding get_level
get_level_lem level rest h hr =
    rw (get_level, get_varint32-encode_varint32 level rest (omega arith) hr, lt→ltb level 6 h) refl
