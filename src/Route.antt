-- ===== src/Route.antt =====
-- src/group/pipeline_route_internal.h and pipeline_route.c: the preface that routes a connection
-- to a member of a pipeline, before any frame.
pub mod RoundTrip
pub mod Accepts
pub mod Feed
use c_trpc.Base.{
  ℕ, zero, suc, ◌+◌, ◌-◌, ◌*◌, ◌/◌, ◌%◌, ◌^◌, min, List, [], ◌∷◌, length, set, take, drop,
  replicate, bit_and, Option, none, some, Bool, true, false, not, ◌&&◌, ◌||◌, ◌==◌, if◌then◌else◌,
}
use c_trpc.Status.{
  Status, ok, err_invalid, err_bad_magic, err_bad_version, err_bad_type, err_bad_flags,
  err_header_crc, err_reserved, err_state, is_ok,
}
use c_trpc.Endian.{get_le16, get_le32, get_le64, put_le16, put_le32, put_le64}
use c_trpc.Crc.{crc32c}
use c_trpc.Wire.{copy_at, starts_with}

-- `struct tr_pipeline_route_preface`.
pub record Preface : Type 0 where
  pub version : ℕ
  pub role : ℕ
  pub flags : ℕ
  pub owner_shard_id : ℕ
  pub pipeline_id : ℕ
  pub epoch : ℕ
  pub member_index : ℕ
  pub member_generation : ℕ
  pub header_crc32c : ℕ
  pub reserved : ℕ

abbrev pub preface_size : ℕ
preface_size = 48

-- `enum tr_pipeline_route_role`.
abbrev pub role_control : ℕ
role_control = 1

abbrev pub role_data : ℕ
role_data = 2

-- `TR_PIPELINE_ROUTE_MEMBER_CONTROL`.
abbrev pub member_control : ℕ
member_control = 2 ^ 32 - 1

-- `tr_pipeline_route_magic`.
abbrev pub route_magic : List ℕ
route_magic = b'T' ∷ b'R' ∷ b'R' ∷ b'1' ∷ []

-- `tr_pipeline_route_header_crc`.
unfoldable pub header_crc : List ℕ → ℕ
header_crc raw = crc32c (copy_at (take 48 raw) 40 (0 ∷ 0 ∷ 0 ∷ 0 ∷ []))

-- `tr_pipeline_route_preface_encode`, up to the checksum.
unfoldable pub encode_fields : Preface → List ℕ
unfolding put_le16 put_le32 put_le64
encode_fields preface =
    let out = copy_at (replicate 48 0) 0 route_magic in
    let out = put_le16 out 4 preface.version in
    let out = put_le16 out 6 preface.role in
    let out = put_le32 out 8 preface.flags in
    let out = put_le32 out 12 preface.owner_shard_id in
    let out = put_le64 out 16 preface.pipeline_id in
    let out = put_le64 out 24 preface.epoch in
    let out = put_le32 out 32 preface.member_index in
    let out = put_le32 out 36 preface.member_generation in
    let out = put_le32 out 40 0 in put_le32 out 44 preface.reserved

-- `tr_pipeline_route_preface_encode`.
unfoldable pub encode : Preface → List ℕ
unfolding encode_fields
encode preface = let out = encode_fields preface in put_le32 out 40 (header_crc out)

-- `tr_pipeline_route_preface_decode`.
unfoldable pub decode : List ℕ → Preface
decode raw = record {
  version = get_le16 (drop 4 raw);
  role = get_le16 (drop 6 raw);
  flags = get_le32 (drop 8 raw);
  owner_shard_id = get_le32 (drop 12 raw);
  pipeline_id = get_le64 (drop 16 raw);
  epoch = get_le64 (drop 24 raw);
  member_index = get_le32 (drop 32 raw);
  member_generation = get_le32 (drop 36 raw);
  header_crc32c = get_le32 (drop 40 raw);
  reserved = get_le32 (drop 44 raw);
}

-- `tr_pipeline_route_preface_validate_fields`; no flag is known.
unfoldable pub validate_fields : Preface → Status
validate_fields preface =
    if not (preface.version == 1)
    then err_bad_version
    else if not (preface.role == role_control) && not (preface.role == role_data)
    then err_bad_type
    else if not (bit_and preface.flags (2 ^ 32 - 1) == 0)
    then err_bad_flags
    else if not (preface.reserved == 0)
    then err_reserved
    else if preface.pipeline_id == 0
        || (preface.epoch == 0
            || (preface.owner_shard_id == 2 ^ 32 - 1 || preface.member_generation == 0))
    then err_invalid
    else if preface.role == role_control
    then (if not (preface.member_index == member_control) then err_invalid else ok)
    else if preface.member_index == member_control
    then err_invalid
    else ok

-- `tr_pipeline_route_preface_validate`.
unfoldable pub validate : List ℕ → Preface → Status
validate raw preface =
    if not (starts_with raw route_magic)
    then err_bad_magic
    else if not (header_crc raw == preface.header_crc32c)
    then err_header_crc
    else validate_fields preface

-- `struct tr_pipeline_route_parser`.
pub record RouteParser : Type 0 where
  pub raw : List ℕ
  pub have : ℕ
  pub done : Bool

-- `tr_pipeline_route_parser_init`.
unfoldable pub init : RouteParser
init = record { raw = replicate 48 0; have = 0; done = false }

-- What a feed answers: its status, the bytes consumed, the preface when it is ready, the parser.
abbrev pub Fed : Type 0
Fed = Status × ℕ × Option Preface × RouteParser

-- The decision of `tr_pipeline_route_parser_feed` on a complete preface.
unfoldable pub decide : ℕ → RouteParser → Fed
decide consumed parser =
    let decoded = decode parser.raw in
    let ret = validate parser.raw decoded in
    let parser' = record parser { done = true } in
    if not (is_ok ret)
    then (ret, consumed, none, parser')
    else (ok, consumed, some decoded, parser')

-- `tr_pipeline_route_parser_feed`.
unfoldable pub feed : RouteParser → List ℕ → Fed
feed parser bytes =
    if parser.done
    then (err_state, 0, none, parser)
    else let consumed = min (length bytes) (preface_size - parser.have) in
      let parser' = record parser {
        raw = copy_at parser.raw parser.have (take consumed bytes);
        have = parser.have + consumed;
      } in
      if not (parser'.have == preface_size)
      then (ok, consumed, none, parser')
      else decide consumed parser'
