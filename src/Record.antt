-- ===== src/Record.antt =====
-- src/rpc/rpc_record.h and rpc_record.c: the records of an RPC call.
-- Buffers of `size` bytes are lists of that length; `size_t` has 64 bits.
pub mod RoundTrip
pub mod Prefix
pub mod Call
use c_trpc.Base.{
  ℕ, zero, suc, ◌+◌, ◌-◌, ◌*◌, ◌/◌, ◌%◌, ◌^◌, List, [], ◌∷◌, length, set, drop, replicate, bit_and,
  Option, none, some, Bool, true, false, not, ◌&&◌, ◌||◌, ltb, leb, ◌==◌, if◌then◌else◌,
}
use c_trpc.Status.{
  Status, ok, again, err_invalid, err_bad_magic, err_bad_version, err_bad_type, err_bad_flags,
  err_bad_length, err_state, err_unsupported, is_ok,
}
use c_trpc.Endian.{get_le16, get_le32, get_le64, put_le16, put_le32, put_le64}
use c_trpc.Wire.{copy_at, starts_with}

-- `struct tr_rpc_record_header`. The kind is the number that the wire carries.
pub record RecordHeader : Type 0 where
  pub kind : ℕ
  pub service_id : ℕ
  pub method_id : ℕ
  pub codec_id : ℕ
  pub compression : ℕ
  pub encoded_size : ℕ
  pub decoded_size : ℕ
  pub metadata_size : ℕ
  pub status : ℕ
  pub remaining_timeout_ns : ℕ

-- `enum tr_rpc_record_kind`.
abbrev pub kind_open : ℕ
kind_open = 1

abbrev pub kind_initial_metadata : ℕ
kind_initial_metadata = 2

abbrev pub kind_message : ℕ
kind_message = 3

abbrev pub kind_half_close : ℕ
kind_half_close = 4

abbrev pub kind_final_status : ℕ
kind_final_status = 5

abbrev pub record_version : ℕ
record_version = 2

abbrev pub record_header_size : ℕ
record_header_size = 48

abbrev pub metadata_max_bytes : ℕ
metadata_max_bytes = 512

abbrev pub status_count : ℕ
status_count = 17

-- `struct tr_rpc_record_limits`.
pub record Limits : Type 0 where
  pub max_encoded_size : ℕ
  pub max_decoded_size : ℕ
  pub max_metadata_size : ℕ
  pub accepted_compression : ℕ

-- `struct tr_rpc_record_view`: a borrowed pointer is the input from that place on.
pub record View : Type 0 where
  pub header : RecordHeader
  pub metadata : Option (List ℕ)
  pub body : Option (List ℕ)

-- `tr_rpc_record_kind_valid`.
abbrev pub kind_valid : ℕ → Bool
kind_valid kind = leb kind_open kind && leb kind kind_final_status

-- `tr_rpc_record_limits_valid`: the accepted set has NONE (bit 0) and no bit but ZSTD (bit 1).
unfoldable pub limits_valid : Limits → Bool
limits_valid limits =
    leb limits.max_metadata_size metadata_max_bytes
    && (not (bit_and limits.accepted_compression 1 == 0)
        && bit_and limits.accepted_compression (2 ^ 32 - 1 - 3) == 0)

-- The branch of `tr_rpc_record_validate` for a kind other than MESSAGE.
unfoldable pub validate_control : RecordHeader → Status
validate_control h =
    if not (h.codec_id == 0)
      || (not (h.compression == 0) || (not (h.encoded_size == 0) || not (h.decoded_size == 0)))
    then err_bad_flags
    else if h.kind == kind_half_close && not (h.metadata_size == 0)
    then err_bad_flags
    else if h.kind == kind_final_status && leb status_count h.status
    then err_bad_type
    else ok

-- The branch of `tr_rpc_record_validate` for a MESSAGE.
unfoldable pub validate_message : RecordHeader → Limits → Status
validate_message h limits =
    if not (h.metadata_size == 0)
    then err_bad_flags
    else if h.codec_id == 0
    then err_bad_type
    else if ltb 1 h.compression || bit_and limits.accepted_compression (2 ^ h.compression) == 0
    then err_unsupported
    else if (h.compression == 0 && not (h.encoded_size == h.decoded_size))
        || (not (h.compression == 0) && h.encoded_size == 0)
    then err_bad_length
    else ok

-- What `tr_rpc_record_validate` stores in `*total`.
abbrev pub record_total : RecordHeader → ℕ
record_total h = record_header_size + h.metadata_size + h.encoded_size

-- `tr_rpc_record_validate`; the size is what it stores in `*total` when it answers OK.
unfoldable pub validate : RecordHeader → Limits → Status
unfolding validate_control validate_message
validate h limits =
    if not (limits_valid limits)
    then err_invalid
    else if not (kind_valid h.kind)
    then err_bad_type
    else if ltb limits.max_metadata_size h.metadata_size
        || (ltb limits.max_encoded_size h.encoded_size
            || ltb limits.max_decoded_size h.decoded_size)
    then err_bad_length
    else if ltb (2 ^ 64 - 1 - (record_header_size + h.metadata_size)) h.encoded_size
    then err_bad_length
    else if not (h.kind == kind_open)
        && (not (h.service_id == 0)
            || (not (h.method_id == 0) || not (h.remaining_timeout_ns == 0)))
    then err_bad_flags
    else if not (h.kind == kind_final_status) && not (h.status == 0)
    then err_bad_flags
    else if not (h.kind == kind_message)
    then validate_control h
    else validate_message h limits

-- `"TRPC"`, as `tr_rpc_record_encode_header` begins and `tr_rpc_record_decode_header` compares.
abbrev pub record_magic : List ℕ
record_magic = b'T' ∷ b'R' ∷ b'P' ∷ b'C' ∷ []

-- The bytes that `tr_rpc_record_encode_header` puts together.
unfoldable pub header_bytes : RecordHeader → List ℕ
unfolding put_le16 put_le32 put_le64
header_bytes header =
    let bytes = copy_at (replicate 48 0) 0 record_magic in
    let bytes = put_le16 bytes 4 record_version in
    let bytes = put_le16 bytes 6 header.kind in
    let bytes = put_le32 bytes 8 header.service_id in
    let bytes = put_le32 bytes 12 header.method_id in
    let bytes = put_le32 bytes 16 header.codec_id in
    let bytes = put_le32 bytes 20 header.compression in
    let bytes = put_le32 bytes 24 header.encoded_size in
    let bytes = put_le32 bytes 28 header.decoded_size in
    let bytes = put_le32 bytes 32 header.metadata_size in
    let bytes = put_le32 bytes 36 header.status in put_le64 bytes 40 header.remaining_timeout_ns

-- `tr_rpc_record_encode_header` into a buffer of some capacity: its status, and the buffer.
unfoldable pub encode_header : List ℕ → RecordHeader → Limits → Status × List ℕ
encode_header out header limits =
    let ret = validate header limits in
    if not (is_ok ret)
    then (ret, out)
    else if ltb (length out) record_header_size
    then (err_bad_length, out)
    else (ok, copy_at out 0 (header_bytes header))

-- The fields that `tr_rpc_record_decode_header` reads from a complete header.
unfoldable pub header_fields : List ℕ → RecordHeader
header_fields bytes = record {
  kind = get_le16 (drop 6 bytes);
  service_id = get_le32 (drop 8 bytes);
  method_id = get_le32 (drop 12 bytes);
  codec_id = get_le32 (drop 16 bytes);
  compression = get_le32 (drop 20 bytes);
  encoded_size = get_le32 (drop 24 bytes);
  decoded_size = get_le32 (drop 28 bytes);
  metadata_size = get_le32 (drop 32 bytes);
  status = get_le32 (drop 36 bytes);
  remaining_timeout_ns = get_le64 (drop 40 bytes);
}

-- `tr_rpc_record_decode_header`: its status, and on OK the header and the size of the record.
unfoldable pub decode_header : List ℕ → Limits → Status × Option (RecordHeader × ℕ)
decode_header bytes limits =
    if not (limits_valid limits)
    then (err_invalid, none)
    else if ltb (length bytes) 4
    then (again, none)
    else if not (starts_with bytes record_magic)
    then (err_bad_magic, none)
    else if ltb (length bytes) 6
    then (again, none)
    else if not (get_le16 (drop 4 bytes) == record_version)
    then (err_bad_version, none)
    else if ltb (length bytes) 8
    then (again, none)
    else if not (kind_valid (get_le16 (drop 6 bytes)))
    then (err_bad_type, none)
    else if ltb (length bytes) record_header_size
    then (again, none)
    else let h = header_fields bytes in
      let ret = validate h limits in
      if not (is_ok ret) then (ret, none) else (ok, some (h, record_total h))

-- What `tr_rpc_record_decode` does with the answer of `tr_rpc_record_decode_header`.
unfoldable pub decode_body :
    List ℕ → Status × Option (RecordHeader × ℕ) → Status × Option (View × ℕ)
decode_body bytes (ret, none) = (ret, none)
decode_body bytes (ret, some (h, total)) = if ltb (length bytes) total then (again, none) else (
  ok,
  some (
    record {
      header = h;
      metadata = if h.metadata_size == 0 then none else some (drop record_header_size bytes);
      body =
          if h.encoded_size == 0
          then none
          else some (drop (record_header_size + h.metadata_size) bytes);
    },
    total,
  ),
)

-- `tr_rpc_record_decode`: on OK the view and the bytes consumed.
unfoldable pub decode : List ℕ → Limits → Status × Option (View × ℕ)
decode bytes limits = decode_body bytes (decode_header bytes limits)
