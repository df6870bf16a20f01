-- ===== src/Wire/RoundTrip.antt =====
-- What a header's encoding is, and that decoding gives the header back.
use c_trpc.Base.{ℕ, ◌^◌, ◌<◌, ◌≡◌, refl, true, length, drop, arith, All}
use c_trpc.Endian.RoundTrip.{get_le16-bytes, get_le32-word, get_le64-bytes}
use c_trpc.Crc.Laws.{crc32c_width}
use c_trpc.Wire.{
  FrameHeader, encode_fields, encode, decode, header_crc, starts_with, magic, header_size,
}

-- The fields of a header fit the widths that the structure declares.
pub record IsHeader (h : FrameHeader) : Type 0 where
  pub version_fits : h.version < 2 ^ 16
  pub type_fits : h.type < 2 ^ 16
  pub flags_fit : h.flags < 2 ^ 32
  pub stream_id_fits : h.stream_id < 2 ^ 32
  pub message_id_fits : h.message_id < 2 ^ 64
  pub payload_len_fits : h.payload_len < 2 ^ 32
  pub payload_crc32c_fits : h.payload_crc32c < 2 ^ 32
  pub reserved_fits : h.reserved < 2 ^ 32

-- The checksum that `encode` stores.
unfoldable pub sum_of : FrameHeader → ℕ
sum_of h = header_crc (encode_fields h)

sum_of_width : (h : FrameHeader) → sum_of h < 2 ^ 32
unfolding sum_of header_crc
sum_of_width h = crc32c_width _

-- Decoding an encoded header whose fields fit their widths gives every field back, and the checksum
-- that was stored.
pub decode-encode :
    (h : FrameHeader) → IsHeader h → decode (encode h) ≡ record h { header_crc32c = sum_of h }
unfolding decode encode sum_of
decode-encode h v = λ i. record {
  version = get_le16-bytes h.version (drop 6 (encode h)) v.version_fits i;
  type = get_le16-bytes h.type (drop 8 (encode h)) v.type_fits i;
  flags = get_le32-word h.flags (drop 12 (encode h)) v.flags_fit i;
  stream_id = get_le32-word h.stream_id (drop 16 (encode h)) v.stream_id_fits i;
  message_id = get_le64-bytes h.message_id (drop 24 (encode h)) v.message_id_fits i;
  payload_len = get_le32-word h.payload_len (drop 28 (encode h)) v.payload_len_fits i;
  payload_crc32c = get_le32-word h.payload_crc32c (drop 32 (encode h)) v.payload_crc32c_fits i;
  header_crc32c = get_le32-word (sum_of h) (drop 36 (encode h)) (sum_of_width h) i;
  reserved = get_le32-word h.reserved (drop 40 (encode h)) v.reserved_fits i;
}

-- Summing the finished header gives the same as summing it before its checksum was stored.
pub header_crc-encode : (h : FrameHeader) → header_crc (encode h) ≡ sum_of h
unfolding header_crc encode sum_of
header_crc-encode h = refl

pub encode-magic : (h : FrameHeader) → starts_with (encode h) magic ≡ true
unfolding encode
encode-magic h = refl

pub length-encode : (h : FrameHeader) → length (encode h) ≡ header_size
unfolding encode
length-encode h = refl

pub encode-IsByte : (h : FrameHeader) → All (λ b. b < 256) (encode h)
unfolding encode
encode-IsByte h = omega arith
