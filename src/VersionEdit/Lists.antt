-- ===== src/VersionEdit/Lists.antt =====
-- The records of an edit of which there are many go from `EncodeTo` to `DecodeFrom`.
use d_lsm.Common.{ℕ, suc, ◌+◌, ◌^◌, ◌<◌, ◌≡◌, refl, ◌∙◌, arith, true, false}
use d_lsm.Common.{some, List, [], ◌∷◌, ◌++◌, length, All, append_assoc, append-nil}
use d_lsm.Coding.{Bytes, IsByte, encode_varint32, encode_varint64, put_length_prefixed_slice}
use d_lsm.Coding.Varint.{get_varint64-encode_varint64}
use d_lsm.VersionEdit.{RemoteMemTableMetaData, encode_file}
use d_lsm.VersionEdit.Files.{slice-IsByte, IsFile, encode_file-IsByte, decode_file-encode_file}
use d_lsm.VersionEdit.Regions.{AllBefore, AllBefore-append}
use d_lsm.VersionEdit.Records.{VersionEdit, DeletedFile, before, insert_deleted, get_internal_key}
use d_lsm.VersionEdit.Records.{encode_compact_pointers, encode_deleted_files, encode_new_files}
use d_lsm.VersionEdit.Records.{
  decoded, decode_record, decode_loop, decode_compact_pointer, decode_deleted_file, decode_new_file,
}
use d_lsm.VersionEdit.Steps.{
  varint32-IsByte, varint64-IsByte, get_slice, get_level_lem, decode_loop-record,
}

-- The counter before a list of records, by what it is behind them.
abbrev pub counters {ℓ} : {A : Type ℓ} → List A → ℕ → ℕ
counters [] left = left
counters (x ∷ xs) left = suc (counters xs left)

pub counters_lem {ℓ} : {A : Type ℓ} (xs : List A) (left : ℕ) → counters xs left ≡ length xs + left
counters_lem [] left = omega arith
counters_lem (x ∷ xs) left = omega (arith, counters_lem xs left)

abbrev pub IsPointer : ℕ × Bytes → Type 0
IsPointer (level, key) = (level < 6) × (0 < length key) × (length key < 2 ^ 32) × All IsByte key

pub pointers-IsByte :
    (pointers : List (ℕ × Bytes)) (rest : Bytes)
    → All IsPointer pointers
    → All IsByte rest
    → All IsByte (encode_compact_pointers pointers ++ rest)
unfolding encode_compact_pointers
pointers-IsByte [] rest h hr = hr
pointers-IsByte ((level, key) ∷ pointers) rest ((hl, pos, len, bytes), h) hr = simp append_assoc (
    varint32-IsByte 5 _ (omega arith) (
      varint32-IsByte level _ (omega arith)
        (slice-IsByte key _ len bytes (pointers-IsByte pointers rest h hr))))

get_internal_key_lem :
    (key rest : Bytes)
    → 0 < length key
    → length key < 2 ^ 32
    → All IsByte key
    → All IsByte rest
    → get_internal_key (put_length_prefixed_slice [] key ++ rest) ≡ some (key, rest)
unfolding get_internal_key
get_internal_key_lem key rest pos len bytes hr =
    rw (get_internal_key, get_slice key rest len bytes hr) (ground arith)

decode_record-pointer :
    (junk level : ℕ) (key rest : Bytes) (edit : VersionEdit)
    → IsPointer (level, key)
    → All IsByte rest
    → decode_record junk 5
        (encode_varint32 level ++ (put_length_prefixed_slice [] key ++ rest))
        edit
      ≡ decoded (record edit { compact_pointers = edit.compact_pointers ++ (level, key) ∷ [] }) rest
unfolding decode_record decode_compact_pointer
decode_record-pointer junk level key rest edit (hl, pos, len, bytes) hr =
    rw
      (
        get_level_lem level (put_length_prefixed_slice [] key ++ rest) hl
            (slice-IsByte key rest len bytes hr),
        decode_compact_pointer,
        get_internal_key_lem key rest pos len bytes hr,
      )
      refl

pub decode_loop-pointers :
    (junk left : ℕ) (pointers : List (ℕ × Bytes)) (rest : Bytes) (edit : VersionEdit)
    → All IsPointer pointers
    → All IsByte rest
    → decode_loop junk (counters pointers left) (encode_compact_pointers pointers ++ rest) edit
      ≡ decode_loop junk left rest
          (record edit { compact_pointers = edit.compact_pointers ++ pointers })
unfolding encode_compact_pointers
decode_loop-pointers junk left [] rest edit h hr = simp append-nil refl
decode_loop-pointers junk left ((level, key) ∷ pointers) rest edit (hp, h) hr =
    let (hl, pos, len, bytes) = hp in
    let more_bytes = pointers-IsByte pointers rest h hr in
    simp append_assoc (
      decode_loop-record junk (counters pointers left) 5 _ _ edit _ (omega arith)
        (varint32-IsByte level _ (omega arith) (slice-IsByte key _ len bytes more_bytes))
        (decode_record-pointer junk level key _ edit hp more_bytes)
      ∙ decode_loop-pointers junk left pointers rest _ h hr
      ∙ simp append_assoc refl)

abbrev pub IsDeletedFile : DeletedFile → Type 0
IsDeletedFile (level, number, node_id) = (level < 6) × (number < 2 ^ 64) × IsByte node_id

-- The order of the set of deleted files.
abbrev pub Precedes : DeletedFile → DeletedFile → Type 0
Precedes f g = before f g ≡ true

-- The elements of the set stand in its order.
abbrev pub IsAscending : List DeletedFile → Type 0
IsAscending [] = Unit
IsAscending (f ∷ files) = All (Precedes f) files × IsAscending files

insert_deleted-append :
    (f : DeletedFile) (files : List DeletedFile)
    → All (λ g. Precedes g f) files
    → insert_deleted f files ≡ files ++ f ∷ []
unfolding insert_deleted
insert_deleted-append f [] h = refl
insert_deleted-append f (g ∷ files) (hg, h) =
    let not_before : before f g ≡ false = ground arith in
    rw (insert_deleted, not_before, hg, insert_deleted-append f files h) refl

pub deleted_files-IsByte :
    (files : List DeletedFile) (rest : Bytes)
    → All IsDeletedFile files
    → All IsByte rest
    → All IsByte (encode_deleted_files files ++ rest)
unfolding encode_deleted_files
deleted_files-IsByte [] rest h hr = hr
deleted_files-IsByte ((level, number, node_id) ∷ files) rest ((hl, hn, hb), h) hr =
    simp append_assoc (
      varint32-IsByte 6 _ (omega arith) (
        varint32-IsByte level _ (omega arith)
          (varint64-IsByte number _ hn (hb, deleted_files-IsByte files rest h hr))))

decode_record-deleted_file :
    (junk level number node_id : ℕ) (rest : Bytes) (edit : VersionEdit)
    → IsDeletedFile (level, number, node_id)
    → All (λ g. Precedes g (level, number, node_id)) edit.deleted_files
    → All IsByte rest
    → decode_record junk 6
        (encode_varint32 level ++ (encode_varint64 number ++ (node_id ∷ rest)))
        edit
      ≡ decoded
          (record edit { deleted_files = edit.deleted_files ++ (level, number, node_id) ∷ [] })
          rest
unfolding decode_record decode_deleted_file
decode_record-deleted_file junk level number node_id rest edit (hl, hn, hb) above hr =
    rw
      (
        get_level_lem level (encode_varint64 number ++ (node_id ∷ rest)) hl
            (varint64-IsByte number _ hn (hb, hr)),
        decode_deleted_file,
        get_varint64-encode_varint64 number (node_id ∷ rest) hn,
        ← insert_deleted-append (level, number, node_id) edit.deleted_files above,
      )
      refl

pub decode_loop-deleted_files :
    (junk left : ℕ) (files : List DeletedFile) (rest : Bytes) (edit : VersionEdit)
    → All IsDeletedFile files
    → IsAscending files
    → AllBefore Precedes edit.deleted_files files
    → All IsByte rest
    → decode_loop junk (counters files left) (encode_deleted_files files ++ rest) edit
      ≡ decode_loop junk left rest (record edit { deleted_files = edit.deleted_files ++ files })
unfolding encode_deleted_files
decode_loop-deleted_files junk left [] rest edit h ascending above hr = simp append-nil refl
decode_loop-deleted_files junk left ((level, number, node_id) ∷ files) rest edit (hf, h)
      (first, ascending) (low, above) hr =
    let (hl, hn, hb) = hf in
    let more_bytes = deleted_files-IsByte files rest h hr in
    simp append_assoc (
      decode_loop-record junk (counters files left) 6 _ _ edit _ (omega arith)
        (varint32-IsByte level _ (omega arith) (varint64-IsByte number _ hn (hb, more_bytes)))
        (decode_record-deleted_file junk level number node_id _ edit hf low more_bytes)
      ∙ decode_loop-deleted_files junk left files rest _ h ascending
          (AllBefore-append Precedes edit.deleted_files files _ above first) hr
      ∙ simp append_assoc refl)

abbrev pub IsNewFile : ℕ × RemoteMemTableMetaData → Type 0
IsNewFile (level, f) = (level < 6) × IsFile f

pub new_files-IsByte :
    (files : List (ℕ × RemoteMemTableMetaData)) (rest : Bytes)
    → All IsNewFile files
    → All IsByte rest
    → All IsByte (encode_new_files files ++ rest)
unfolding encode_new_files
new_files-IsByte [] rest h hr = hr
new_files-IsByte ((level, f) ∷ files) rest ((hl, hf), h) hr = simp append_assoc (
    varint32-IsByte 7 _ (omega arith) (
      varint32-IsByte level _ (omega arith)
        (encode_file-IsByte f _ hf (new_files-IsByte files rest h hr))))

decode_record-new_file :
    (junk level : ℕ) (f : RemoteMemTableMetaData) (rest : Bytes) (edit : VersionEdit)
    → IsNewFile (level, f)
    → All IsByte rest
    → decode_record junk 7 (encode_varint32 level ++ (encode_file f ++ rest)) edit
      ≡ decoded (record edit { new_files = edit.new_files ++ (level, f) ∷ [] }) rest
unfolding decode_record decode_new_file
decode_record-new_file junk level f rest edit (hl, hf) hr =
    rw
      (
        get_level_lem level (encode_file f ++ rest) hl (encode_file-IsByte f rest hf hr),
        decode_new_file,
        decode_file-encode_file junk f rest hf hr,
      )
      refl

pub decode_loop-new_files :
    (junk left : ℕ) (files : List (ℕ × RemoteMemTableMetaData)) (rest : Bytes) (edit : VersionEdit)
    → All IsNewFile files
    → All IsByte rest
    → decode_loop junk (counters files left) (encode_new_files files ++ rest) edit
      ≡ decode_loop junk left rest (record edit { new_files = edit.new_files ++ files })
unfolding encode_new_files
decode_loop-new_files junk left [] rest edit h hr = simp append-nil refl
decode_loop-new_files junk left ((level, f) ∷ files) rest edit (hf, h) hr =
    let more_bytes = new_files-IsByte files rest h hr in
    simp append_assoc (
      decode_loop-record junk (counters files left) 7 _ _ edit _ (omega arith)
        (varint32-IsByte level _ (omega (arith, hf.0)) (encode_file-IsByte f _ hf.1 more_bytes))
        (decode_record-new_file junk level f _ edit hf more_bytes)
      ∙ decode_loop-new_files junk left files rest _ h hr
      ∙ simp append_assoc refl)
