-- ===== src/Record/RoundTrip.antt =====
-- A record that a peer has encoded is decoded back.
use c_trpc.Base.{
  ℕ, ◌^◌, ◌<◌, ◌≡◌, refl, true, List, ◌++◌, length, drop, length-append, drop-append, arith, Option,
  none, some, ◌==◌, if◌then◌else◌,
}
use c_trpc.Status.{ok}
use c_trpc.Endian.{get_le16}
use c_trpc.Endian.RoundTrip.{get_le16-bytes, get_le32-word, get_le64-bytes}
use c_trpc.Record.{
  RecordHeader, Limits, limits_valid, kind_valid, validate, header_bytes, header_fields,
  decode_header, decode_body, decode, record_total,
}

-- The fields of a header fit the widths that the wire gives them.
pub record IsRecordHeader (h : RecordHeader) : Type 0 where
  pub kind_fits : h.kind < 2 ^ 16
  pub service_id_fits : h.service_id < 2 ^ 32
  pub method_id_fits : h.method_id < 2 ^ 32
  pub codec_id_fits : h.codec_id < 2 ^ 32
  pub compression_fits : h.compression < 2 ^ 32
  pub encoded_size_fits : h.encoded_size < 2 ^ 32
  pub decoded_size_fits : h.decoded_size < 2 ^ 32
  pub metadata_size_fits : h.metadata_size < 2 ^ 32
  pub status_fits : h.status < 2 ^ 32
  pub remaining_timeout_ns_fits : h.remaining_timeout_ns < 2 ^ 64

-- The fields are read back from the bytes, whatever follows them.
pub header_fields-header_bytes :
    (h : RecordHeader) (rest : List ℕ)
    → IsRecordHeader h
    → header_fields (header_bytes h ++ rest) ≡ h
unfolding header_fields header_bytes
header_fields-header_bytes h rest v = λ i. record {
  kind = get_le16-bytes h.kind (drop 8 (header_bytes h) ++ rest) v.kind_fits i;
  service_id = get_le32-word h.service_id (drop 12 (header_bytes h) ++ rest) v.service_id_fits i;
  method_id = get_le32-word h.method_id (drop 16 (header_bytes h) ++ rest) v.method_id_fits i;
  codec_id = get_le32-word h.codec_id (drop 20 (header_bytes h) ++ rest) v.codec_id_fits i;
  compression = get_le32-word h.compression (drop 24 (header_bytes h) ++ rest) v.compression_fits i;
  encoded_size =
      get_le32-word h.encoded_size (drop 28 (header_bytes h) ++ rest) v.encoded_size_fits i;
  decoded_size =
      get_le32-word h.decoded_size (drop 32 (header_bytes h) ++ rest) v.decoded_size_fits i;
  metadata_size =
      get_le32-word h.metadata_size (drop 36 (header_bytes h) ++ rest) v.metadata_size_fits i;
  status = get_le32-word h.status (drop 40 (header_bytes h) ++ rest) v.status_fits i;
  remaining_timeout_ns =
      get_le64-bytes h.remaining_timeout_ns (drop 48 (header_bytes h) ++ rest)
        v.remaining_timeout_ns_fits i;
}

pub length-header_bytes : (h : RecordHeader) → length (header_bytes h) ≡ 48
unfolding header_bytes
length-header_bytes h = refl

-- An accepted header has accepted limits and a known kind.
pub validate_parts :
    (h : RecordHeader) (limits : Limits)
    → validate h limits ≡ ok
    → (limits_valid limits ≡ true) × (kind_valid h.kind ≡ true)
unfolding validate
validate_parts h limits e = ground arith

-- A header that validates is decoded back from its bytes, whatever follows them.
pub decode_header-header_bytes :
    (h : RecordHeader) (limits : Limits) (rest : List ℕ)
    → IsRecordHeader h
    → validate h limits ≡ ok
    → decode_header (header_bytes h ++ rest) limits ≡ (ok, some (h, record_total h))
unfolding decode_header header_bytes get_le16
decode_header-header_bytes h limits rest v e = ground (
  arith,
  validate_parts h limits e,
  header_fields-header_bytes h rest v,
  get_le16-bytes h.kind (drop 8 (header_bytes h) ++ rest) v.kind_fits,
)

-- A borrowed part of the input: none when it is empty.
abbrev pub borrowed : ℕ → List ℕ → Option (List ℕ)
borrowed size from = if size == 0 then none else some from

-- A whole record that validates, with whatever follows it: the header comes back, its metadata and its body are
-- the input from their places on, and exactly the record is consumed.
pub decode-record :
    (h : RecordHeader) (limits : Limits) (metadata body rest : List ℕ)
    → IsRecordHeader h
    → validate h limits ≡ ok
    → length metadata ≡ h.metadata_size
    → length body ≡ h.encoded_size
    → decode (header_bytes h ++ (metadata ++ (body ++ rest))) limits ≡ (
      ok,
      some (
        record {
          header = h;
          metadata = borrowed h.metadata_size (metadata ++ (body ++ rest));
          body = borrowed h.encoded_size (body ++ rest);
        },
        length (header_bytes h ++ (metadata ++ body)),
      ),
    )
unfolding decode decode_body
decode-record h limits metadata body rest v e nm nb =
    rw (decode_header-header_bytes h limits (metadata ++ (body ++ rest)) v e) (
      ground (
        arith,
        length-header_bytes h,
        length-append metadata body,
        length-append metadata (body ++ rest),
        length-append body rest,
        length-append (header_bytes h) (metadata ++ body),
        length-append (header_bytes h) (metadata ++ (body ++ rest)),
        drop-append (header_bytes h) (metadata ++ (body ++ rest)) 48 h.metadata_size,
        drop-append (header_bytes h) (metadata ++ (body ++ rest)) 48 0,
        drop-append metadata (body ++ rest) h.metadata_size 0,
      ))
