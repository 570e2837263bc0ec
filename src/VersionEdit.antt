-- ===== src/VersionEdit.antt =====
-- db/version_edit.h and db/version_edit.cc: the edits of a version, as compute and memory nodes send
-- them to one another.
-- A map is the list of its keys and values in ascending order, and a set that of its elements.
-- The variables that the code leaves uninitialised, which hold `junk`, keep it where a read fails.
pub mod Records
pub mod Regions
pub mod Files
pub mod Steps
pub mod Lists
pub mod RoundTrip
mod Tests
use Prim.Native.String.{String}
use d_lsm.Common.{ℕ, zero, suc, ◌+◌, ◌%◌, ◌^◌, Bool, true, false, not, ◌&&◌, ◌||◌, ◌==◌, ltb, leb}
use d_lsm.Common.{Option, some, none, List, [], ◌∷◌, ◌++◌, length, take, drop, if◌then◌else◌}
use d_lsm.Coding.{Bytes, encode_fixed32, encode_fixed64, get_fixed32, get_fixed64}
use d_lsm.Coding.{encode_varint32, encode_varint64, get_varint32, get_varint64}
use d_lsm.Coding.{put_length_prefixed_slice, get_length_prefixed_slice, byte_at}
use d_lsm.Status.{Status, ok, corruption}
use d_lsm.Versions.Output.{num_levels}

-- `ibv_mr`: a registered memory region.
pub record Mr : Type 0 where
  pub context : ℕ
  pub pd : ℕ
  pub addr : ℕ
  pub mr_length : ℕ
  pub handle : ℕ
  pub lkey : ℕ
  pub rkey : ℕ

-- A table's memory regions by their offset in the file.
abbrev pub MrMap : Type 0
MrMap = List (ℕ × Mr)

-- The fields of `RemoteMemTableMetaData` that are sent.
pub record RemoteMemTableMetaData : Type 0 where
  pub level : ℕ
  pub number : ℕ
  pub creator_node_id : ℕ
  pub shard_target_node_id : ℕ
  pub file_size : ℕ
  pub smallest : Bytes
  pub largest : Bytes
  pub remote_data_mrs : MrMap
  pub remote_dataindex_mrs : MrMap
  pub remote_filter_mrs : MrMap

unfoldable pub mr_serialization : Mr → Bytes
mr_serialization mr =
    encode_fixed64 mr.addr
    ++ (encode_fixed64 mr.mr_length ++ (encode_fixed32 mr.lkey ++ encode_fixed32 mr.rkey))

-- The loop over a map of regions.
unfoldable pub encode_mrs : MrMap → Bytes
encode_mrs [] = []
encode_mrs ((offset, mr) ∷ mrs) = encode_fixed32 offset ++ (mr_serialization mr ++ encode_mrs mrs)

-- `remote_data_mrs.begin()->second`. Of an empty map the code must not take it, and the value for it here
-- stands for nothing: a table that is sent has a region of data at least.
abbrev pub first_mr : MrMap → Mr
first_mr [] = record {
  context = 0;
  pd = 0;
  addr = 0;
  mr_length = 0;
  handle = 0;
  lkey = 0;
  rkey = 0;
}
first_mr ((offset, mr) ∷ mrs) = mr

-- What `RemoteMemTableMetaData::EncodeTo` appends.
unfoldable pub encode_file : RemoteMemTableMetaData → Bytes
encode_file f =
    let first = first_mr f.remote_data_mrs in
    encode_fixed64 f.level
    ++ (encode_fixed64 f.number
        ++ (f.creator_node_id
            ∷ f.shard_target_node_id
            ∷ (encode_fixed64 f.file_size
                ++ (put_length_prefixed_slice [] f.smallest
                    ++ (put_length_prefixed_slice [] f.largest
                        ++ (encode_fixed64 (length f.remote_data_mrs)
                            ++ (encode_fixed64 (length f.remote_dataindex_mrs)
                                ++ (encode_fixed64 (length f.remote_filter_mrs)
                                    ++ (encode_fixed64 first.context
                                        ++ (encode_fixed64 first.pd
                                            ++ (encode_fixed32 first.handle
                                                ++ (encode_mrs f.remote_data_mrs
                                                    ++ (encode_mrs f.remote_dataindex_mrs
                                                        ++ encode_mrs
                                                            f.remote_filter_mrs)))))))))))))

-- A read whose result the code does not check: the variable keeps its value where it fails.
abbrev pub read_or {ℓ} : {A : Type ℓ} → A → Bytes → Option (A × Bytes) → A × Bytes
read_or old src none = (old, src)
read_or old src (some r) = r

-- `GetLengthPrefixedSlice`, whose result the code does not check. If the slice is too long, its length
-- has been read all the same.
unfoldable pub read_slice_or : Bytes → Bytes → Bytes × Bytes
read_slice_or old src = elim (get_varint32 src) [
  | none ↦ (old, src)
  | some (len, rest) ↦ if leb len (length rest) then (take len rest, drop len rest) else (old, rest)
]

-- `std::map::insert`, which does nothing if the key is there.
unfoldable pub insert_mr : ℕ → Mr → MrMap → MrMap
insert_mr offset mr [] = (offset, mr) ∷ []
insert_mr offset mr ((o, m) ∷ mrs) =
    let rest = insert_mr offset mr mrs in
    if ltb offset o
    then (offset, mr) ∷ (o, m) ∷ mrs
    else if offset == o
    then (o, m) ∷ mrs
    else (o, m) ∷ rest

-- One round of the loops that read regions; `fresh` is the region with what all regions share.
unfoldable pub decode_mr : Mr → Bytes → (ℕ × Mr) × Bytes
decode_mr fresh src =
    let (offset, src1) = read_or 0 src (get_fixed32 src) in
    let (addr, src2) = read_or fresh.addr src1 (get_fixed64 src1) in
    let (len, src3) = read_or fresh.mr_length src2 (get_fixed64 src2) in
    let (lkey, src4) = read_or fresh.lkey src3 (get_fixed32 src3) in
    let (rkey, src5) = read_or fresh.rkey src4 (get_fixed32 src4) in
    ((offset, record fresh { addr = addr; mr_length = len; lkey = lkey; rkey = rkey }), src5)

unfoldable pub decode_mrs : ℕ → Mr → MrMap → Bytes → MrMap × Bytes
decode_mrs zero fresh mrs src = (mrs, src)
decode_mrs (suc n) fresh mrs src =
    let ((offset, mr), rest) = decode_mr fresh src in
    decode_mrs n fresh (insert_mr offset mr mrs) rest

-- `RemoteMemTableMetaData::DecodeFrom`, of a new object without regions. What its assertions ask is not
-- tested here; it is part of what a table must meet that is sent.
unfoldable pub decode_file : ℕ → Bytes → RemoteMemTableMetaData × Bytes
decode_file junk src =
    let (level, src1) = read_or junk src (get_fixed64 src) in
    let (number, src2) = read_or junk src1 (get_fixed64 src1) in
    let src3 = drop 2 src2 in
    let (file_size, src4) = read_or junk src3 (get_fixed64 src3) in
    let (smallest, src5) = read_slice_or [] src4 in
    let (largest, src6) = read_slice_or smallest src5 in
    let (data_num, src7) = read_or junk src6 (get_fixed64 src6) in
    let (dataindex_num, src8) = read_or junk src7 (get_fixed64 src7) in
    let (filter_num, src9) = read_or junk src8 (get_fixed64 src8) in
    let (context, src10) = read_or junk src9 (get_fixed64 src9) in
    let (pd, src11) = read_or junk src10 (get_fixed64 src10) in
    let (handle, src12) = read_or junk src11 (get_fixed32 src11) in
    let fresh : Mr = record {
      context = context;
      pd = pd;
      addr = 0;
      mr_length = 0;
      handle = handle;
      lkey = junk;
      rkey = junk;
    } in
    let (data_mrs, src13) = decode_mrs data_num fresh [] src12 in
    let (dataindex_mrs, src14) = decode_mrs dataindex_num fresh [] src13 in
    let (filter_mrs, src15) =
      decode_mrs filter_num (record fresh { lkey = 0; rkey = 0 }) [] src14 in
    (
      record {
        level = level;
        number = number;
        creator_node_id = byte_at src2 0;
        shard_target_node_id = byte_at src2 1;
        file_size = file_size;
        smallest = smallest;
        largest = largest;
        remote_data_mrs = data_mrs;
        remote_dataindex_mrs = dataindex_mrs;
        remote_filter_mrs = filter_mrs;
      },
      src15,
    )
