-- ===== src/VersionEdit/RoundTrip.antt =====
-- A whole edit goes from `VersionEdit::EncodeTo` to `VersionEdit::DecodeFrom`.
use d_lsm.Common.{ℕ, suc, ◌+◌, ◌-◌, ◌^◌, ◌≤◌, ◌<◌, ◌≡◌, refl, ap, sym, ◌∙◌, arith}
use d_lsm.Common.{Option, some, none, List, [], ◌++◌, All, append_assoc, append-nil}
use d_lsm.Coding.{get_varint32, Bytes, IsByte, encode_varint32, encode_varint64}
use d_lsm.Status.{ok}
use d_lsm.VersionEdit.Regions.{AllBefore-nil}
use d_lsm.VersionEdit.Records.{
  VersionEdit, clear_edit, encode_number, encode_comparator, encode_edit, decode_edit,
}
use d_lsm.VersionEdit.Records.{encode_compact_pointers, encode_deleted_files, encode_new_files}
use d_lsm.VersionEdit.Records.{finished, decode_loop, decode_record}
use d_lsm.VersionEdit.Steps.{
  counter, IsNumber, IsComparator, varint32-IsByte, varint64-IsByte, decode_loop-number,
  decode_loop-comparator,
}
use d_lsm.VersionEdit.Lists.{
  counters, counters_lem, IsPointer, IsDeletedFile, IsNewFile, IsAscending, Precedes,
}
use d_lsm.VersionEdit.Lists.{pointers-IsByte, deleted_files-IsByte, new_files-IsByte}
use d_lsm.VersionEdit.Lists.{decode_loop-pointers, decode_loop-deleted_files, decode_loop-new_files}

-- The fields of an edit fit in their types.
pub record IsEdit (e : VersionEdit) : Type 0 where
  pub comparator_fits : IsComparator e.comparator
  pub log_number_fits : IsNumber e.log_number
  pub prev_log_number_fits : IsNumber e.prev_log_number
  pub next_file_number_fits : IsNumber e.next_file_number
  pub last_sequence_fits : IsNumber e.last_sequence
  pub compact_pointers_fit : All IsPointer e.compact_pointers
  pub deleted_files_fit : All IsDeletedFile e.deleted_files
  pub deleted_files_ascend : IsAscending e.deleted_files
  pub new_files_fit : All IsNewFile e.new_files

number-IsByte :
    (tag : ℕ) (o : Option ℕ) (rest : Bytes)
    → tag < 2 ^ 32
    → IsNumber o
    → All IsByte rest
    → All IsByte (encode_number tag o ++ rest)
number-IsByte tag none rest ht h hr = hr
number-IsByte tag (some n) rest ht h hr =
    rw (append_assoc (encode_varint32 tag) (encode_varint64 n) rest)
      (varint32-IsByte tag _ ht (varint64-IsByte n rest h hr))

-- The counter before an edit, by what it is behind it.
abbrev pub budget : VersionEdit → ℕ → ℕ
budget e left = counter e.comparator (
    counter e.log_number (
      counter e.prev_log_number (
        counter e.next_file_number (
          counter e.last_sequence
            (counters e.compact_pointers (counters e.deleted_files (counters e.new_files left)))))))

counter-add {ℓ} : {A : Type ℓ} (o : Option A) (a b : ℕ) → counter o (a + b) ≡ counter o a + b
counter-add none a b = refl
counter-add (some x) a b = omega arith

counters-add {ℓ} : {A : Type ℓ} (xs : List A) (a b : ℕ) → counters xs (a + b) ≡ counters xs a + b
counters-add xs a b = omega (arith, counters_lem xs (a + b), counters_lem xs a)

budget-add : (e : VersionEdit) (left : ℕ) → budget e left ≡ budget e 0 + left
budget-add e left =
    let zero_add : 0 + left ≡ left = omega arith in
    ap (budget e) (sym zero_add) ∙ simp (counters-add, counter-add) refl

-- The records of which there are many.
abbrev encode_lists : VersionEdit → Bytes
encode_lists e =
    encode_compact_pointers e.compact_pointers
    ++ (encode_deleted_files e.deleted_files ++ (encode_new_files e.new_files ++ []))

encode_edit-lists :
    (e : VersionEdit)
    → encode_edit e
      ≡ encode_comparator e.comparator
        ++ (encode_number 2 e.log_number
            ++ (encode_number 9 e.prev_log_number
                ++ (encode_number 3 e.next_file_number
                    ++ (encode_number 4 e.last_sequence ++ encode_lists e))))
unfolding encode_edit
encode_edit-lists e = rw (append-nil (encode_new_files e.new_files)) refl

new_files_bytes : (e : VersionEdit) → IsEdit e → All IsByte (encode_new_files e.new_files ++ [])
new_files_bytes e h = new_files-IsByte e.new_files [] h.new_files_fit tt

deleted_files_bytes :
    (e : VersionEdit)
    → IsEdit e
    → All IsByte (encode_deleted_files e.deleted_files ++ (encode_new_files e.new_files ++ []))
deleted_files_bytes e h =
    deleted_files-IsByte e.deleted_files _ h.deleted_files_fit (new_files_bytes e h)

decode_loop-end :
    (junk left : ℕ) (e : VersionEdit) → decode_loop junk (suc left) [] e ≡ finished ok e
unfolding decode_loop get_varint32
decode_loop-end junk left e = refl

decode_loop-lists :
    (junk left : ℕ) (e read : VersionEdit)
    → IsEdit e
    → read.deleted_files ≡ []
    → decode_loop junk
        (counters e.compact_pointers (counters e.deleted_files (counters e.new_files (suc left))))
        (encode_lists e)
        read
      ≡ finished ok (record read {
        compact_pointers = read.compact_pointers ++ e.compact_pointers;
        deleted_files = read.deleted_files ++ e.deleted_files;
        new_files = read.new_files ++ e.new_files;
      })
decode_loop-lists junk left e read h fresh =
    let pointers = record read { compact_pointers = read.compact_pointers ++ e.compact_pointers } in
    let files = record pointers { deleted_files = read.deleted_files ++ e.deleted_files } in
    decode_loop-pointers junk _ e.compact_pointers _ read h.compact_pointers_fit
      (deleted_files_bytes e h)
    ∙ decode_loop-deleted_files junk _ e.deleted_files _ pointers h.deleted_files_fit
        h.deleted_files_ascend (rw fresh (AllBefore-nil Precedes e.deleted_files))
        (new_files_bytes e h)
    ∙ decode_loop-new_files junk (suc left) e.new_files [] files h.new_files_fit tt
    ∙ decode_loop-end junk left _

-- `DecodeFrom` reads from what `EncodeTo` wrote the edit that was written, whatever edit it is called on,
-- for an edit of at most 100000 records whose fields fit in their types, whose levels exist, whose sets and
-- maps are in order, whose compaction pointers are not empty, and whose tables meet the assertions on them:
-- they have keys, regions for data (less than 1000), index and filter, and an existing target node, and
-- their regions share context, domain and handle. Only the compaction pointers that stood there before
-- stay, in front of those read.
pub decode_edit-encode_edit :
    (junk : ℕ) (e old : VersionEdit)
    → IsEdit e
    → budget e 0 ≤ 100000
    → decode_edit junk (encode_edit e) old
      ≡ finished ok (record e { compact_pointers = old.compact_pointers ++ e.compact_pointers })
unfolding decode_edit clear_edit
decode_edit-encode_edit junk e old h few =
    let left = 100000 - budget e 0 in
    let enough : budget e (suc left) ≡ 100001 = omega (arith, budget-add e (suc left)) in
    let lists : All IsByte (encode_lists e) =
      pointers-IsByte e.compact_pointers _ h.compact_pointers_fit (deleted_files_bytes e h) in
    let last = number-IsByte 4 e.last_sequence _ (omega arith) h.last_sequence_fits lists in
    let next = number-IsByte 3 e.next_file_number _ (omega arith) h.next_file_number_fits last in
    let prev = number-IsByte 9 e.prev_log_number _ (omega arith) h.prev_log_number_fits next in
    let log = number-IsByte 2 e.log_number _ (omega arith) h.log_number_fits prev in
    let e0 : Option Bytes → VersionEdit = λ o. record (clear_edit old) { comparator = o } in
    let e1 : Option ℕ → VersionEdit = λ o. record (e0 e.comparator) { log_number = o } in
    let e2 : Option ℕ → VersionEdit = λ o. record (e1 e.log_number) { prev_log_number = o } in
    let e3 : Option ℕ → VersionEdit = λ o. record (e2 e.prev_log_number) { next_file_number = o } in
    let e4 : Option ℕ → VersionEdit = λ o. record (e3 e.next_file_number) { last_sequence = o } in
    ap (λ n. decode_loop junk n (encode_edit e) (clear_edit old)) (sym enough)
    ∙ ap (λ bytes. decode_loop junk (budget e (suc left)) bytes (clear_edit old))
        (encode_edit-lists e)
    ∙ decode_loop-comparator junk _ e.comparator _ e0 h.comparator_fits log (λ o. refl)
    ∙ decode_loop-number "VersionEdit: log number" junk _ 2 e.log_number _ e1 (omega arith)
        h.log_number_fits prev (λ i. unfold decode_record in refl)
    ∙ decode_loop-number "VersionEdit: previous log number" junk _ 9 e.prev_log_number _ e2
        (omega arith) h.prev_log_number_fits next (λ i. unfold decode_record in refl)
    ∙ decode_loop-number "VersionEdit: next file number" junk _ 3 e.next_file_number _ e3
        (omega arith) h.next_file_number_fits last (λ i. unfold decode_record in refl)
    ∙ decode_loop-number "VersionEdit: last sequence number" junk _ 4 e.last_sequence _ e4
        (omega arith) h.last_sequence_fits lists (λ i. unfold decode_record in refl)
    ∙ decode_loop-lists junk left e (e4 e.last_sequence) h refl
