-- ===== src/Wire.antt =====
-- src/transport/protocol/wire.h and wire.c: the 40-byte header of a transport frame.
pub mod RoundTrip
pub mod Accepts
use c_trpc.Base.{
  ℕ, zero, suc, ◌+◌, ◌-◌, ◌*◌, ◌/◌, ◌%◌, ◌^◌, List, [], ◌∷◌, get_or, set, take, drop, replicate,
  bit_and, Bool, true, false, not, ◌&&◌, ◌||◌, ltb, ◌==◌, if◌then◌else◌,
}
use c_trpc.Status.{
  Status, ok, err_invalid, err_nomem, err_bad_magic, err_bad_version, err_bad_type, err_bad_flags,
  err_bad_length, err_header_crc, err_reserved, err_state, err_sys, err_closed, err_timeout, ℤ,
  ◌==ℤ◌, neg_of_ℕ, code,
}
use c_trpc.Endian.{get_le16, get_le32, get_le64, put_le16, put_le32, put_le64}
use c_trpc.Crc.{crc32c}

-- `struct tr_frame_header`.
pub record FrameHeader : Type 0 where
  pub version : ℕ
  pub type : ℕ
  pub flags : ℕ
  pub stream_id : ℕ
  pub message_id : ℕ
  pub payload_len : ℕ
  pub payload_crc32c : ℕ
  pub header_crc32c : ℕ
  pub reserved : ℕ

-- `memset(header, 0, sizeof(*header))`.
abbrev pub zero_header : FrameHeader
zero_header = record {
  version = 0;
  type = 0;
  flags = 0;
  stream_id = 0;
  message_id = 0;
  payload_len = 0;
  payload_crc32c = 0;
  header_crc32c = 0;
  reserved = 0;
}

abbrev pub header_size : ℕ
header_size = 40

abbrev pub default_max_payload : ℕ
default_max_payload = 1024 * 1024

-- `TR_FRAME_F_KNOWN_MASK`.
abbrev pub known_mask : ℕ
known_mask = 7

-- `enum tr_frame_type`, as far as the checks name its constants.
abbrev pub frame_stream_reset : ℕ
frame_stream_reset = 14

abbrev pub frame_stream_refused : ℕ
frame_stream_refused = 15

-- `tr_magic`: "TRP1".
abbrev pub magic : List ℕ
magic = b'T' ∷ b'R' ∷ b'P' ∷ b'1' ∷ []

-- `memcmp(a, b, n) == 0`, on as many bytes as the second list has.
abbrev pub starts_with : List ℕ → List ℕ → Bool
starts_with p [] = true
starts_with [] (m ∷ ms) = false
starts_with (b ∷ p) (m ∷ ms) = b == m && starts_with p ms

-- `memcpy(p + off, bytes, n)`.
abbrev pub copy_at : List ℕ → ℕ → List ℕ → List ℕ
copy_at p off [] = p
copy_at p off (b ∷ bs) = copy_at (set p off b) (suc off) bs

-- `tr_frame_type_valid`: the cases of the switch.
unfoldable pub frame_type_valid : ℕ → Bool
frame_type_valid t =
    t == 1
    || (t == 2
        || (t == 3
            || (t == 4
                || (t == 5
                    || (t == 6
                        || (t == 7
                            || (t == 8
                                || (t == 9
                                    || (t == 10
                                        || (t == 11
                                            || (t == 12
                                                || (t == 13 || (t == 14 || t == 15)))))))))))))

-- `tr_wire_stream_reset_status_valid`.
unfoldable pub stream_reset_status_valid : ℤ → Bool
unfolding code
stream_reset_status_valid status =
    status ==ℤ code err_closed
    || (status ==ℤ code err_timeout
        || (status ==ℤ code err_nomem || (status ==ℤ code err_state || status ==ℤ code err_sys)))

-- `tr_header_crc`: the sum of the header with its own field set to zero.
unfoldable pub header_crc : List ℕ → ℕ
header_crc raw = crc32c (copy_at (take 40 raw) 32 (0 ∷ 0 ∷ 0 ∷ 0 ∷ []))

-- `tr_wire_header_encode`, up to the checksum.
unfoldable pub encode_fields : FrameHeader → List ℕ
unfolding put_le16 put_le32 put_le64
encode_fields header =
    let out = copy_at (replicate 40 0) 0 magic in
    let out = put_le16 out 4 header.version in
    let out = put_le16 out 6 header.type in
    let out = put_le32 out 8 header.flags in
    let out = put_le32 out 12 header.stream_id in
    let out = put_le64 out 16 header.message_id in
    let out = put_le32 out 24 header.payload_len in
    let out = put_le32 out 28 header.payload_crc32c in
    let out = put_le32 out 32 0 in put_le32 out 36 header.reserved

-- `tr_wire_header_encode`.
unfoldable pub encode : FrameHeader → List ℕ
unfolding encode_fields
encode header = let out = encode_fields header in put_le32 out 32 (header_crc out)

-- `tr_wire_header_decode`.
unfoldable pub decode : List ℕ → FrameHeader
decode raw = record {
  version = get_le16 (drop 4 raw);
  type = get_le16 (drop 6 raw);
  flags = get_le32 (drop 8 raw);
  stream_id = get_le32 (drop 12 raw);
  message_id = get_le64 (drop 16 raw);
  payload_len = get_le32 (drop 24 raw);
  payload_crc32c = get_le32 (drop 28 raw);
  header_crc32c = get_le32 (drop 32 raw);
  reserved = get_le32 (drop 36 raw);
}

-- The last checks of `tr_wire_header_validate`, on a RESET or REFUSED frame.
unfoldable pub validate_reset : FrameHeader → Status
validate_reset header =
    if not (header.flags == 0)
    then err_bad_flags
    else if not (header.payload_len == 0)
    then err_bad_length
    else if header.stream_id == 0
        || (ltb (2 ^ 31 - 1) header.message_id
            || not (stream_reset_status_valid (neg_of_ℕ header.message_id)))
    then err_invalid
    else if header.type == frame_stream_refused && not (header.message_id == 2)
    then err_invalid
    else ok

-- `limits && limits->max_payload_len ? limits->max_payload_len : DEFAULT`; no limits are 0.
abbrev pub max_payload : ℕ → ℕ
max_payload limit = if limit == 0 then default_max_payload else limit

-- `tr_wire_header_validate`; `~TR_FRAME_F_KNOWN_MASK` is a 32-bit complement.
unfoldable pub validate : List ℕ → FrameHeader → ℕ → Status
validate raw header limit =
    if not (starts_with raw magic)
    then err_bad_magic
    else if not (header_crc raw == header.header_crc32c)
    then err_header_crc
    else if not (header.version == 1)
    then err_bad_version
    else if not (frame_type_valid header.type)
    then err_bad_type
    else if not (bit_and header.flags (2 ^ 32 - 1 - known_mask) == 0)
    then err_bad_flags
    else if not (header.reserved == 0)
    then err_reserved
    else if ltb (max_payload limit) header.payload_len
    then err_bad_length
    else if header.type == frame_stream_reset || header.type == frame_stream_refused
    then validate_reset header
    else ok
