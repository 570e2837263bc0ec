-- ===== src/VersionEdit/Files.antt =====
-- The metadata of a table goes from one node to another and back.
use d_lsm.Common.{ℕ, ◌^◌, ◌<◌, ◌≡◌, refl, arith}
use d_lsm.Common.{[], ◌∷◌, ◌++◌, length, All, All-append, append_assoc}
use d_lsm.Common.{length-append, take-append_self, drop-append_self, le→leb}
use d_lsm.Coding.{Bytes, IsByte, encode_fixed32, encode_fixed64}
use d_lsm.Coding.{put_length_prefixed_slice, encode_varint32}
use d_lsm.Coding.Slices.{put_length_prefixed_slice-append}
use d_lsm.Coding.Varint.{get_varint32-encode_varint32, encode_varint32-IsByte}
use d_lsm.VersionEdit.Regions.{
  read_fixed64, read_fixed32, IsMrs, AllBefore-nil, Below, decode_mrs_lem, fixed32-IsByte,
  fixed64-IsByte, mrs-IsByte,
}
use d_lsm.Versions.Output.{num_levels}
use d_lsm.VersionEdit.{Mr, MrMap, RemoteMemTableMetaData, encode_mrs, encode_file}
use d_lsm.VersionEdit.{read_slice_or, decode_file, first_mr}

read_slice :
    (old value rest : Bytes)
    → length value < 2 ^ 32
    → All IsByte value
    → All IsByte rest
    → read_slice_or old (put_length_prefixed_slice [] value ++ rest) ≡ (value, rest)
unfolding read_slice_or
read_slice old value rest h hv hr =
    rw
      (
        put_length_prefixed_slice-append [] value h,
        append_assoc (encode_varint32 (length value)) value rest,
        read_slice_or,
        get_varint32-encode_varint32 (length value) (value ++ rest) h
            (All-append IsByte value rest hv hr),
        le→leb (length value) (length (value ++ rest)) (omega (arith, length-append value rest)),
        take-append_self value rest,
        drop-append_self value rest,
      )
      refl

-- A map of regions that share what the first of these has.
abbrev pub AreShared : MrMap → MrMap → Type 0
AreShared data_mrs mrs =
    let first = first_mr data_mrs in IsMrs first.context first.pd first.handle mrs

-- A table that is sent: what the assertions of `EncodeTo` and `DecodeFrom` ask, and the fields fit in
-- their types.
pub record IsFile (f : RemoteMemTableMetaData) : Type 0 where
  pub level_exists : f.level < num_levels
  pub number_fits : f.number < 2 ^ 64
  pub file_size_fits : f.file_size < 2 ^ 64
  pub smallest_fits : (0 < length f.smallest) × (length f.smallest < 2 ^ 32)
  pub largest_fits : (0 < length f.largest) × (length f.largest < 2 ^ 32)
  pub smallest_bytes : All IsByte f.smallest
  pub largest_bytes : All IsByte f.largest
  pub creator : IsByte f.creator_node_id
  pub shard_target : f.shard_target_node_id < 36
  pub data_count : (0 < length f.remote_data_mrs) × (length f.remote_data_mrs < 1000)
  pub dataindex_count :
      (0 < length f.remote_dataindex_mrs) × (length f.remote_dataindex_mrs < 2 ^ 64)
  pub dataindex_offsets : All (λ m. 0 < m.0) f.remote_dataindex_mrs
  pub filter_count : (0 < length f.remote_filter_mrs) × (length f.remote_filter_mrs < 2 ^ 64)
  pub context_fits : (first_mr f.remote_data_mrs).context < 2 ^ 64
  pub pd_fits : (first_mr f.remote_data_mrs).pd < 2 ^ 64
  pub handle_fits : (first_mr f.remote_data_mrs).handle < 2 ^ 32
  pub data_mrs : AreShared f.remote_data_mrs f.remote_data_mrs
  pub dataindex_mrs : AreShared f.remote_data_mrs f.remote_dataindex_mrs
  pub filter_mrs : AreShared f.remote_data_mrs f.remote_filter_mrs

pub slice-IsByte :
    (value rest : Bytes)
    → length value < 2 ^ 32
    → All IsByte value
    → All IsByte rest
    → All IsByte (put_length_prefixed_slice [] value ++ rest)
slice-IsByte value rest h hv hr = rw (put_length_prefixed_slice-append [] value h) (
    All-append IsByte _ rest
      (All-append IsByte _ value (encode_varint32-IsByte (length value) h) hv) hr)

-- What follows the keys of a table.
abbrev encode_tail : RemoteMemTableMetaData → Bytes → Bytes
encode_tail f rest =
    let first = first_mr f.remote_data_mrs in
    encode_fixed64 (length f.remote_data_mrs)
    ++ (encode_fixed64 (length f.remote_dataindex_mrs)
        ++ (encode_fixed64 (length f.remote_filter_mrs)
            ++ (encode_fixed64 first.context
                ++ (encode_fixed64 first.pd
                    ++ (encode_fixed32 first.handle
                        ++ (encode_mrs f.remote_data_mrs
                            ++ (encode_mrs f.remote_dataindex_mrs
                                ++ (encode_mrs f.remote_filter_mrs ++ rest))))))))

tail-IsByte :
    (f : RemoteMemTableMetaData) (rest : Bytes) → All IsByte rest → All IsByte (encode_tail f rest)
tail-IsByte f rest h = fixed64-IsByte _ _ (
    fixed64-IsByte _ _ (
      fixed64-IsByte _ _ (
        fixed64-IsByte _ _ (
          fixed64-IsByte _ _ (
            fixed32-IsByte _ _
              (mrs-IsByte _ _ (mrs-IsByte _ _ (mrs-IsByte f.remote_filter_mrs rest h))))))))

-- The encoding of a table, with what stands behind it.
encode_file-append :
    (f : RemoteMemTableMetaData) (rest : Bytes)
    → encode_file f ++ rest
      ≡ encode_fixed64 f.level
        ++ (encode_fixed64 f.number
            ++ (f.creator_node_id
                ∷ f.shard_target_node_id
                ∷ (encode_fixed64 f.file_size
                    ++ (put_length_prefixed_slice [] f.smallest
                        ++ (put_length_prefixed_slice [] f.largest ++ encode_tail f rest)))))
unfolding encode_file
encode_file-append f rest = simp append_assoc refl

pub encode_file-IsByte :
    (f : RemoteMemTableMetaData) (rest : Bytes)
    → IsFile f
    → All IsByte rest
    → All IsByte (encode_file f ++ rest)
encode_file-IsByte f rest h hr = rw (encode_file-append f rest) (
    fixed64-IsByte _ _ (
      fixed64-IsByte _ _ (
        h.creator,
        (
          (omega (arith, h.shard_target)),
          fixed64-IsByte _ _ (
              slice-IsByte _ _ h.smallest_fits.1 h.smallest_bytes
                (slice-IsByte _ _ h.largest_fits.1 h.largest_bytes (tail-IsByte f rest hr))),
        ),
      )))

pub decode_file-encode_file :
    (junk : ℕ) (f : RemoteMemTableMetaData) (rest : Bytes)
    → IsFile f
    → All IsByte rest
    → decode_file junk (encode_file f ++ rest) ≡ (f, rest)
unfolding decode_file
decode_file-encode_file junk f rest h hr =
    let first = first_mr f.remote_data_mrs in
    let tail = encode_tail f rest in
    let fresh : Mr = record {
      context = first.context;
      pd = first.pd;
      addr = 0;
      mr_length = 0;
      handle = first.handle;
      lkey = junk;
      rkey = junk;
    } in
    let filters = encode_mrs f.remote_filter_mrs ++ rest in
    let indexes = encode_mrs f.remote_dataindex_mrs ++ filters in
    simp
      (
        encode_file-append f rest,
        read_fixed64 junk f.level _ (omega (arith, h.level_exists)),
        read_fixed64 junk f.number _ h.number_fits,
        read_fixed64 junk f.file_size _ h.file_size_fits,
        read_slice [] f.smallest _ h.smallest_fits.1 h.smallest_bytes
            (slice-IsByte f.largest tail h.largest_fits.1 h.largest_bytes (tail-IsByte f rest hr)),
        read_slice f.smallest f.largest tail h.largest_fits.1 h.largest_bytes
            (tail-IsByte f rest hr),
        read_fixed64 junk (length f.remote_data_mrs) _ (omega (arith, h.data_count)),
        read_fixed64 junk (length f.remote_dataindex_mrs) _ h.dataindex_count.1,
        read_fixed64 junk (length f.remote_filter_mrs) _ h.filter_count.1,
        read_fixed64 junk first.context _ h.context_fits,
        read_fixed64 junk first.pd _ h.pd_fits,
        read_fixed32 junk first.handle _ h.handle_fits,
        decode_mrs_lem fresh [] f.remote_data_mrs indexes h.data_mrs (AllBefore-nil Below _),
        decode_mrs_lem fresh [] f.remote_dataindex_mrs filters h.dataindex_mrs
            (AllBefore-nil Below _),
        decode_mrs_lem (record fresh { lkey = 0; rkey = 0 }) [] f.remote_filter_mrs rest
            h.filter_mrs (AllBefore-nil Below _),
      )
      refl
