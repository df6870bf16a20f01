-- ===== src/Route/RoundTrip.antt =====
-- What a preface's encoding is, and that decoding gives the preface back.
use c_trpc.Base.{ℕ, ◌^◌, ◌<◌, ◌≡◌, refl, true, length, drop}
use c_trpc.Endian.RoundTrip.{get_le16-bytes, get_le32-word, get_le64-bytes}
use c_trpc.Crc.Laws.{crc32c_width}
use c_trpc.Wire.{starts_with}
use c_trpc.Route.{Preface, encode_fields, encode, decode, header_crc, route_magic, preface_size}

-- The fields of a preface fit the widths that the structure declares.
pub record IsPreface (h : Preface) : Type 0 where
  pub version_fits : h.version < 2 ^ 16
  pub role_fits : h.role < 2 ^ 16
  pub flags_fit : h.flags < 2 ^ 32
  pub owner_shard_id_fits : h.owner_shard_id < 2 ^ 32
  pub pipeline_id_fits : h.pipeline_id < 2 ^ 64
  pub epoch_fits : h.epoch < 2 ^ 64
  pub member_index_fits : h.member_index < 2 ^ 32
  pub member_generation_fits : h.member_generation < 2 ^ 32
  pub reserved_fits : h.reserved < 2 ^ 32

-- The checksum that `encode` stores.
unfoldable pub sum_of : Preface → ℕ
sum_of h = header_crc (encode_fields h)

sum_of_width : (h : Preface) → sum_of h < 2 ^ 32
unfolding sum_of header_crc
sum_of_width h = crc32c_width _

-- Decoding an encoded preface whose fields fit their widths gives every field back, and the checksum
-- that was stored.
pub decode-encode_route :
    (h : Preface) → IsPreface h → decode (encode h) ≡ record h { header_crc32c = sum_of h }
unfolding decode encode sum_of
decode-encode_route h v = λ i. record {
  version = get_le16-bytes h.version (drop 6 (encode h)) v.version_fits i;
  role = get_le16-bytes h.role (drop 8 (encode h)) v.role_fits i;
  flags = get_le32-word h.flags (drop 12 (encode h)) v.flags_fit i;
  owner_shard_id = get_le32-word h.owner_shard_id (drop 16 (encode h)) v.owner_shard_id_fits i;
  pipeline_id = get_le64-bytes h.pipeline_id (drop 24 (encode h)) v.pipeline_id_fits i;
  epoch = get_le64-bytes h.epoch (drop 32 (encode h)) v.epoch_fits i;
  member_index = get_le32-word h.member_index (drop 36 (encode h)) v.member_index_fits i;
  member_generation =
      get_le32-word h.member_generation (drop 40 (encode h)) v.member_generation_fits i;
  header_crc32c = get_le32-word (sum_of h) (drop 44 (encode h)) (sum_of_width h) i;
  reserved = get_le32-word h.reserved (drop 48 (encode h)) v.reserved_fits i;
}

pub header_crc-encode : (h : Preface) → header_crc (encode h) ≡ sum_of h
unfolding header_crc encode sum_of
header_crc-encode h = refl

pub starts_with-encode : (h : Preface) → starts_with (encode h) route_magic ≡ true
unfolding encode
starts_with-encode h = refl

pub length-encode : (h : Preface) → length (encode h) ≡ preface_size
unfolding encode
length-encode h = refl
