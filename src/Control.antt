-- ===== src/Control.antt =====
-- src/group/pipeline_control_wire_internal.h and pipeline_control_wire.c: the fixed
-- messages by which the two ends of a pipeline offer, cancel and hand over a data member.
pub mod RoundTrip
use c_trpc.Base.{
  ℕ, ◌+◌, ◌-◌, ◌*◌, ◌/◌, ◌%◌, ◌^◌, List, [], ◌∷◌, length, set, drop, replicate, Option, none, some,
  Bool, true, false, not, ◌&&◌, ◌||◌, ◌==◌, if◌then◌else◌,
}
use c_trpc.Status.{
  Status, ok, err_invalid, err_bad_length, err_bad_magic, err_bad_version, err_bad_type,
  err_bad_flags, err_reserved,
}
use c_trpc.Endian.{get_le16, get_le32, get_le64, put_le16, put_le32, put_le64}
use c_trpc.Wire.{copy_at, starts_with}
use c_trpc.Route.{Preface, role_data}

-- `TR_PIPELINE_CONTROL_WIRE_SIZE`.
abbrev pub message_size : ℕ
message_size = 48

-- `enum tr_pipeline_control_wire_type`.
abbrev pub data_offer : ℕ
data_offer = 1

abbrev pub data_cancel : ℕ
data_cancel = 2

abbrev pub transfer_ready : ℕ
transfer_ready = 3

-- `struct tr_pipeline_control_wire_message`.
pub record Message : Type 0 where
  pub version : ℕ
  pub type : ℕ
  pub flags : ℕ
  pub owner_shard_id : ℕ
  pub pipeline_id : ℕ
  pub epoch : ℕ
  pub stream_id : ℕ
  pub data_index : ℕ
  pub data_generation : ℕ
  pub reserved : ℕ

-- `tr_pipeline_control_wire_magic`.
abbrev pub control_magic : List ℕ
control_magic = b'T' ∷ b'R' ∷ b'C' ∷ b'1' ∷ []

-- `tr_pipeline_control_wire_type_valid`.
abbrev pub type_valid : ℕ → Bool
type_valid type = type == data_offer || (type == data_cancel || type == transfer_ready)

-- `tr_pipeline_control_wire_fields_valid`.
unfoldable pub fields_valid : Message → Bool
fields_valid message =
    if not (message.version == 1)
      || (not (type_valid message.type)
          || (not (message.flags == 0)
              || (message.owner_shard_id == 2 ^ 32 - 1
                  || (message.pipeline_id == 0
                      || (message.epoch == 0
                          || (message.data_index == 2 ^ 32 - 1
                              || (message.data_generation == 0 || not (message.reserved == 0))))))))
    then false
    else if message.type == transfer_ready
    then not (message.stream_id == 0)
    else message.stream_id == 0

-- The bytes that `tr_pipeline_control_wire_encode` writes for a valid message.
unfoldable pub message_bytes : Message → List ℕ
unfolding put_le16 put_le32 put_le64
message_bytes message =
    let out = copy_at (replicate 48 0) 0 control_magic in
    let out = put_le16 out 4 message.version in
    let out = put_le16 out 6 message.type in
    let out = put_le32 out 8 message.flags in
    let out = put_le32 out 12 message.owner_shard_id in
    let out = put_le64 out 16 message.pipeline_id in
    let out = put_le64 out 24 message.epoch in
    let out = put_le32 out 32 message.stream_id in
    let out = put_le32 out 36 message.data_index in
    let out = put_le32 out 40 message.data_generation in put_le32 out 44 message.reserved

-- `tr_pipeline_control_wire_encode`: the status, and the bytes if it writes them.
unfoldable pub encode : Message → Status × Option (List ℕ)
encode message =
    if not (fields_valid message) then (err_invalid, none) else (ok, some (message_bytes message))

-- The fields as `tr_pipeline_control_wire_decode` reads them.
unfoldable pub message_fields : List ℕ → Message
message_fields bytes = record {
  version = get_le16 (drop 4 bytes);
  type = get_le16 (drop 6 bytes);
  flags = get_le32 (drop 8 bytes);
  owner_shard_id = get_le32 (drop 12 bytes);
  pipeline_id = get_le64 (drop 16 bytes);
  epoch = get_le64 (drop 24 bytes);
  stream_id = get_le32 (drop 32 bytes);
  data_index = get_le32 (drop 36 bytes);
  data_generation = get_le32 (drop 40 bytes);
  reserved = get_le32 (drop 44 bytes);
}

-- The tests of `tr_pipeline_control_wire_decode` on the fields.
unfoldable pub check_fields : Message → Status
check_fields message =
    if not (message.version == 1)
    then err_bad_version
    else if not (type_valid message.type)
    then err_bad_type
    else if not (message.flags == 0)
    then err_bad_flags
    else if not (message.reserved == 0)
    then err_reserved
    else if not (fields_valid message)
    then err_invalid
    else ok

-- `tr_pipeline_control_wire_decode`: the status, and the message if it is written.
unfoldable pub decode : List ℕ → Status × Option Message
decode bytes =
    if not (length bytes == message_size)
    then (err_bad_length, none)
    else if not (starts_with bytes control_magic)
    then (err_bad_magic, none)
    else (check_fields (message_fields bytes), some (message_fields bytes))

-- `tr_pipeline_control_wire_data_route`.
unfoldable pub data_route : Message → Status × Option Preface
data_route message =
    if not (message.type == data_offer) || not (fields_valid message)
    then (err_invalid, none)
    else (
      ok,
      some (record {
        version = 1;
        role = role_data;
        flags = 0;
        owner_shard_id = message.owner_shard_id;
        pipeline_id = message.pipeline_id;
        epoch = message.epoch;
        member_index = message.data_index;
        member_generation = message.data_generation;
        header_crc32c = 0;
        reserved = 0;
      }),
    )
