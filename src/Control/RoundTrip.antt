-- ===== src/Control/RoundTrip.antt =====
-- What is decoded from an encoded control message, and the route that an offer names.
use c_trpc.Base.{
  ◌^◌, ◌<◌, ◌≡◌, ◌≢◌, refl, length, drop, none, some, true, false, not, ◌==◌, ◌||◌, if_true,
  if_false, arith, ◌∙◌,
}
use c_trpc.Status.{ok, err_invalid}
use c_trpc.Endian.RoundTrip.{get_le16-bytes, get_le32-word, get_le64-bytes}
use c_trpc.Wire.{starts_with}
use c_trpc.Route
use c_trpc.Route.{Preface, role_data, validate}
use c_trpc.Route.RoundTrip.{IsPreface}
use c_trpc.Route.Accepts.{IsRoute, validate-encode-IsRoute_iff}
use c_trpc.Control.{
  Message, fields_valid, message_bytes, message_fields, check_fields, encode, decode, data_route,
  data_offer, control_magic, message_size,
}

-- The fields of a message fit the widths that the structure declares.
pub record IsMessage (m : Message) : Type 0 where
  pub version_fits : m.version < 2 ^ 16
  pub type_fits : m.type < 2 ^ 16
  pub flags_fit : m.flags < 2 ^ 32
  pub owner_shard_id_fits : m.owner_shard_id < 2 ^ 32
  pub pipeline_id_fits : m.pipeline_id < 2 ^ 64
  pub epoch_fits : m.epoch < 2 ^ 64
  pub stream_id_fits : m.stream_id < 2 ^ 32
  pub data_index_fits : m.data_index < 2 ^ 32
  pub data_generation_fits : m.data_generation < 2 ^ 32
  pub reserved_fits : m.reserved < 2 ^ 32

message_fields-message_bytes : (m : Message) → IsMessage m → message_fields (message_bytes m) ≡ m
unfolding message_fields message_bytes
message_fields-message_bytes m v = λ i. record {
  version = get_le16-bytes m.version (drop 6 (message_bytes m)) v.version_fits i;
  type = get_le16-bytes m.type (drop 8 (message_bytes m)) v.type_fits i;
  flags = get_le32-word m.flags (drop 12 (message_bytes m)) v.flags_fit i;
  owner_shard_id =
      get_le32-word m.owner_shard_id (drop 16 (message_bytes m)) v.owner_shard_id_fits i;
  pipeline_id = get_le64-bytes m.pipeline_id (drop 24 (message_bytes m)) v.pipeline_id_fits i;
  epoch = get_le64-bytes m.epoch (drop 32 (message_bytes m)) v.epoch_fits i;
  stream_id = get_le32-word m.stream_id (drop 36 (message_bytes m)) v.stream_id_fits i;
  data_index = get_le32-word m.data_index (drop 40 (message_bytes m)) v.data_index_fits i;
  data_generation =
      get_le32-word m.data_generation (drop 44 (message_bytes m)) v.data_generation_fits i;
  reserved = get_le32-word m.reserved (drop 48 (message_bytes m)) v.reserved_fits i;
}

length-message_bytes : (m : Message) → length (message_bytes m) ≡ message_size
unfolding message_bytes
length-message_bytes m = refl

starts_with-message_bytes : (m : Message) → starts_with (message_bytes m) control_magic ≡ true
unfolding message_bytes
starts_with-message_bytes m = refl

decode-message_bytes :
    (m : Message) → IsMessage m → decode (message_bytes m) ≡ (check_fields m, some m)
unfolding decode
decode-message_bytes m v =
    if_false (not (length (message_bytes m) == message_size)) _ _
      (ground (arith, length-message_bytes m))
    ∙ if_false (not (starts_with (message_bytes m) control_magic)) _ _
        (ground (arith, starts_with-message_bytes m))
    ∙ rw (message_fields-message_bytes m v) refl

check_fields-fields_valid : (m : Message) → fields_valid m ≡ true → check_fields m ≡ ok
unfolding check_fields fields_valid
check_fields-fields_valid m h = ground arith

check_fields_refuses : (m : Message) → fields_valid m ≡ false → check_fields m ≢ ok
unfolding check_fields
check_fields_refuses m h = ground arith

-- A message whose fields fit their widths is encoded and decoded back, with OK, when its fields are valid; otherwise
-- `encode` writes nothing, and the receiver of those bytes would not accept them either.
pub decode-encode_message :
    (m : Message)
    → IsMessage m
    → (fields_valid m ≡ true
        → (encode m ≡ (ok, some (message_bytes m))) × (decode (message_bytes m) ≡ (ok, some m)))
      × (fields_valid m ≡ false
          → (encode m ≡ (err_invalid, none)) × ((decode (message_bytes m)).0 ≢ ok))
unfolding encode
decode-encode_message m v = (
  (λ h. (
    if_false (not (fields_valid m)) _ _ (ground arith),
    rw (decode-message_bytes m v) (rw (check_fields-fields_valid m h) refl),
  )),
  (λ h. (
    if_true (not (fields_valid m)) _ _ (ground arith),
    rw (decode-message_bytes m v) (check_fields_refuses m h),
  )),
)

-- The route that an offer names.
abbrev pub route_of : Message → Preface
route_of m = record {
  version = 1;
  role = role_data;
  flags = 0;
  owner_shard_id = m.owner_shard_id;
  pipeline_id = m.pipeline_id;
  epoch = m.epoch;
  member_index = m.data_index;
  member_generation = m.data_generation;
  header_crc32c = 0;
  reserved = 0;
}

offered-IsRoute : (m : Message) → fields_valid m ≡ true → IsRoute (route_of m)
unfolding fields_valid
offered-IsRoute m h = ground arith

offered-IsPreface : (m : Message) → IsMessage m → IsPreface (route_of m)
offered-IsPreface m v = ground (arith, v)

-- A valid offer whose fields fit their widths gives a route, whose encoded preface the listener accepts. Any other message
-- gives none.
pub data_route-accepted :
    (m : Message)
    → IsMessage m
    → (m.type ≡ data_offer
        → fields_valid m ≡ true
        → (data_route m ≡ (ok, some (route_of m)))
          × (validate (Route.encode (route_of m)) (Route.decode (Route.encode (route_of m))) ≡ ok))
      × (m.type ≢ data_offer → data_route m ≡ (err_invalid, none))
      × (fields_valid m ≡ false → data_route m ≡ (err_invalid, none))
unfolding data_route
data_route-accepted m v = (
  (λ t h. (
    if_false (not (m.type == data_offer) || not (fields_valid m)) _ _ (ground arith),
    (validate-encode-IsRoute_iff (route_of m) (offered-IsPreface m v)).1 (offered-IsRoute m h),
  )),
  (λ t. if_true (not (m.type == data_offer) || not (fields_valid m)) _ _ (ground arith)),
  (λ h. if_true (not (m.type == data_offer) || not (fields_valid m)) _ _ (ground arith)),
)
