-- ===== src/VersionEdit/Records.antt =====
-- db/version_edit.cc: `VersionEdit`, a sequence of tagged records.
-- Where `has_x_` is false, `x_` is none.
use Prim.Native.String.{String}
use d_lsm.Common.{ℕ, zero, suc, Bool, ◌&&◌, ◌||◌, ◌==◌, ltb}
use d_lsm.Common.{Option, some, none, List, [], ◌∷◌, ◌++◌, length, drop, if◌then◌else◌}
use d_lsm.Coding.{Bytes, encode_varint32, encode_varint64, get_varint32, get_varint64, byte_at}
use d_lsm.Coding.{put_length_prefixed_slice, get_length_prefixed_slice}
use d_lsm.Status.{Status, ok, corruption}
use d_lsm.Versions.Output.{num_levels}
use d_lsm.VersionEdit.{RemoteMemTableMetaData, encode_file, decode_file}

-- Level, file number and creator node.
abbrev pub DeletedFile : Type 0
DeletedFile = ℕ × ℕ × ℕ

pub record VersionEdit : Type 0 where
  pub comparator : Option Bytes
  pub log_number : Option ℕ
  pub prev_log_number : Option ℕ
  pub next_file_number : Option ℕ
  pub last_sequence : Option ℕ
  pub compact_pointers : List (ℕ × Bytes)
  pub deleted_files : List DeletedFile
  pub new_files : List (ℕ × RemoteMemTableMetaData)

-- `Clear`, which does not clear `compact_pointers_`.
unfoldable pub clear_edit : VersionEdit → VersionEdit
clear_edit edit = record {
  comparator = none;
  log_number = none;
  prev_log_number = none;
  next_file_number = none;
  last_sequence = none;
  compact_pointers = edit.compact_pointers;
  deleted_files = [];
  new_files = [];
}

-- A tag and a number, where there is one.
abbrev pub encode_number : ℕ → Option ℕ → Bytes
encode_number tag none = []
encode_number tag (some n) = encode_varint32 tag ++ encode_varint64 n

abbrev pub encode_comparator : Option Bytes → Bytes
encode_comparator none = []
encode_comparator (some name) = encode_varint32 1 ++ put_length_prefixed_slice [] name

unfoldable pub encode_compact_pointers : List (ℕ × Bytes) → Bytes
encode_compact_pointers [] = []
encode_compact_pointers ((level, key) ∷ pointers) =
    encode_varint32 5
    ++ (encode_varint32 level
        ++ (put_length_prefixed_slice [] key ++ encode_compact_pointers pointers))

unfoldable pub encode_deleted_files : List DeletedFile → Bytes
encode_deleted_files [] = []
encode_deleted_files ((level, number, node_id) ∷ files) =
    encode_varint32 6
    ++ (encode_varint32 level ++ (encode_varint64 number ++ (node_id ∷ encode_deleted_files files)))

unfoldable pub encode_new_files : List (ℕ × RemoteMemTableMetaData) → Bytes
encode_new_files [] = []
encode_new_files ((level, f) ∷ files) =
    encode_varint32 7 ++ (encode_varint32 level ++ (encode_file f ++ encode_new_files files))

-- What `EncodeTo` appends.
unfoldable pub encode_edit : VersionEdit → Bytes
encode_edit edit =
    encode_comparator edit.comparator
    ++ (encode_number 2 edit.log_number
        ++ (encode_number 9 edit.prev_log_number
            ++ (encode_number 3 edit.next_file_number
                ++ (encode_number 4 edit.last_sequence
                    ++ (encode_compact_pointers edit.compact_pointers
                        ++ (encode_deleted_files edit.deleted_files
                            ++ encode_new_files edit.new_files))))))

unfoldable pub get_level : Bytes → Option (ℕ × Bytes)
get_level input = elim (get_varint32 input) [
  | none ↦ none
  | some (level, rest) ↦ if ltb level num_levels then some (level, rest) else none
]

-- `GetInternalKey`: an internal key is not empty.
unfoldable pub get_internal_key : Bytes → Option (Bytes × Bytes)
get_internal_key input = elim (get_length_prefixed_slice input) [
  | none ↦ none
  | some (key, rest) ↦ if length key == 0 then none else some (key, rest)
]

-- The order of the tuples in the set of deleted files.
abbrev pub before : DeletedFile → DeletedFile → Bool
before (level, number, node_id) (level', number', node_id') =
    ltb level level'
    || (level == level' && (ltb number number' || (number == number' && ltb node_id node_id')))

-- `std::set::insert`
unfoldable pub insert_deleted : DeletedFile → List DeletedFile → List DeletedFile
insert_deleted f [] = f ∷ []
insert_deleted f (g ∷ files) =
    let rest = insert_deleted f files in
    if before f g then f ∷ g ∷ files else if before g f then g ∷ rest else g ∷ files

-- What a record's tag makes of the rest: an error's message, or the edit and the input behind it.
pub data Decoded : Type 0 where
  failed : String → Decoded
  decoded : VersionEdit → Bytes → Decoded

abbrev pub decode_number : String → Option (ℕ × Bytes) → (ℕ → VersionEdit) → Decoded
decode_number msg none set = failed msg
decode_number msg (some (n, rest)) set = decoded (set n) rest

unfoldable pub decode_comparator : VersionEdit → Option (Bytes × Bytes) → Decoded
decode_comparator edit none = failed "VersionEdit: comparator name"
decode_comparator edit (some (name, rest)) = decoded (record edit { comparator = some name }) rest

unfoldable pub decode_compact_pointer : VersionEdit → Option (ℕ × Bytes) → Decoded
decode_compact_pointer edit none = failed "VersionEdit: compaction pointer"
decode_compact_pointer edit (some (level, rest)) = elim (get_internal_key rest) [
  | none ↦ failed "VersionEdit: compaction pointer"
  | some (key, rest') ↦
      decoded (record edit { compact_pointers = edit.compact_pointers ++ (level, key) ∷ [] }) rest'
]

unfoldable pub decode_deleted_file : VersionEdit → Option (ℕ × Bytes) → Decoded
decode_deleted_file edit none = failed "VersionEdit: deleted file"
decode_deleted_file edit (some (level, rest)) = elim (get_varint64 rest) [
  | none ↦ failed "VersionEdit: deleted file"
  | some (number, rest') ↦
      decoded
        (record edit {
          deleted_files = insert_deleted (level, number, byte_at rest' 0) edit.deleted_files;
        })
        (drop 1 rest')
]

unfoldable pub decode_new_file : ℕ → VersionEdit → Option (ℕ × Bytes) → Decoded
decode_new_file junk edit none = failed "VersionEdit: new-file entry"
decode_new_file junk edit (some (level, rest)) =
    let (f, rest') = decode_file junk rest in
    decoded (record edit { new_files = edit.new_files ++ (level, f) ∷ [] }) rest'

-- The `switch` on the tag.
unfoldable pub decode_record : ℕ → ℕ → Bytes → VersionEdit → Decoded
decode_record junk tag input edit =
    if tag == 1
    then decode_comparator edit (get_length_prefixed_slice input)
    else if tag == 2
    then decode_number "VersionEdit: log number" (get_varint64 input)
        (λ n. record edit { log_number = some n })
    else if tag == 9
    then decode_number "VersionEdit: previous log number" (get_varint64 input)
        (λ n. record edit { prev_log_number = some n })
    else if tag == 3
    then decode_number "VersionEdit: next file number" (get_varint64 input)
        (λ n. record edit { next_file_number = some n })
    else if tag == 4
    then decode_number "VersionEdit: last sequence number" (get_varint64 input)
        (λ n. record edit { last_sequence = some n })
    else if tag == 5
    then decode_compact_pointer edit (get_level input)
    else if tag == 6
    then decode_deleted_file edit (get_level input)
    else if tag == 7
    then decode_new_file junk edit (get_level input)
    else failed "VersionEdit: unknown tag"

-- How `DecodeFrom` ends: with its status and the edit, or with the process.
pub data DecodeResult : Type 0 where
  finished : Status → VersionEdit → DecodeResult
  process_exit : DecodeResult

-- The loop, with the number of records that the counter still allows.
unfoldable pub decode_loop : ℕ → ℕ → Bytes → VersionEdit → DecodeResult
decode_loop junk zero input edit = process_exit
decode_loop junk (suc left) input edit = elim (get_varint32 input) [
  | none ↦ finished (if length input == 0 then ok else corruption "VersionEdit: invalid tag") edit
  | some (tag, rest) ↦ elim (decode_record junk tag rest edit) [
    | failed msg ↦ if left == 0 then process_exit else finished (corruption msg) edit
    | decoded edit' rest' ↦ decode_loop junk left rest' edit'
  ]
]

-- `VersionEdit::DecodeFrom`; the counter ends the process above 100000.
unfoldable pub decode_edit : ℕ → Bytes → VersionEdit → DecodeResult
decode_edit junk src edit = decode_loop junk 100001 src (clear_edit edit)
