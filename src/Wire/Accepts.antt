-- ===== src/Wire/Accepts.antt =====
-- Exactly which headers the receiver accepts.
use c_trpc.Base.{ℕ, ◌-◌, ◌*◌, ◌/◌, ◌^◌, ◌≤◌, ◌<◌, ◌≡◌, ◌≢◌, ◌⊎◌, ◌↔◌, true, bit_and, List, arith}
use c_trpc.Status.{ok, neg_of_ℕ}
use c_trpc.Base.Bits.{bit_and_ones, bit_and_low}
use c_trpc.Wire.{
  FrameHeader, encode, decode, header_crc, starts_with, magic, max_payload, frame_type_valid,
  stream_reset_status_valid, validate_reset, validate, known_mask,
}
use c_trpc.Wire.RoundTrip.{IsHeader, sum_of, decode-encode, header_crc-encode, encode-magic}

abbrev pub IsReset : FrameHeader → Type 0
IsReset h = (h.type ≡ 14) ⊎ (h.type ≡ 15)

-- The reasons that a RESET frame may carry, as positive numbers: no memory, bad state, system error,
-- closed, timed out.
abbrev pub IsReason : ℕ → Type 0
IsReason m = (m ≡ 2) ⊎ (m ≡ 11) ⊎ (m ≡ 12) ⊎ (m ≡ 13) ⊎ (m ≡ 16)

-- A RESET or REFUSED frame is bare, names a stream and a reason; REFUSED has one reason only.
pub record IsBareReset (h : FrameHeader) : Type 0 where
  pub no_flags : h.flags ≡ 0
  pub no_payload : h.payload_len ≡ 0
  pub names_stream : h.stream_id ≢ 0
  pub reason : IsReason h.message_id
  pub refused_reason : h.type ≡ 15 → h.message_id ≡ 2

-- What the wire format asks of the fields of a header, apart from magic and checksum.
pub record IsWellFormed (limit : ℕ) (h : FrameHeader) : Type 0 where
  pub version_one : h.version ≡ 1
  pub known_type : (1 ≤ h.type) × (h.type ≤ 15)
  pub known_flags : h.flags < 8
  pub nothing_reserved : h.reserved ≡ 0
  pub payload_bounded : h.payload_len ≤ max_payload limit
  pub reset_bare : IsReset h → IsBareReset h

frame_type_valid_iff : (t : ℕ) → (frame_type_valid t ≡ true) ↔ ((1 ≤ t) × (t ≤ 15))
unfolding frame_type_valid
frame_type_valid_iff t = (λ h. ground arith, λ h. ground arith)

reset_status_iff : (m : ℕ) → (stream_reset_status_valid (neg_of_ℕ m) ≡ true) ↔ IsReason m
unfolding stream_reset_status_valid
reset_status_iff m = (λ h. ground arith, λ h. ground arith)

unknown_flags : (f : ℕ) → f < 2 ^ 32 → bit_and f (2 ^ 32 - 1 - known_mask) ≡ f / 8 * 8
unknown_flags f h = omega (
  arith,
  bit_and_low f 0xffff_fff8,
  bit_and_low (f / 2) 0x7fff_fffc,
  bit_and_low (f / 2 / 2) 0x3fff_fffe,
  bit_and_ones 29 (f / 2 / 2 / 2),
)

validate_reset_iff :
    (h : FrameHeader) → IsReset h → h.message_id < 2 ^ 64 → (validate_reset h ≡ ok) ↔ IsBareReset h
unfolding validate_reset
validate_reset_iff h r m = (
  λ e. ground (arith, reset_status_iff h.message_id),
  λ b. ground (arith, reset_status_iff h.message_id),
)

-- The receiver accepts a header whose fields fit their widths exactly when the magic and the checksum
-- of its bytes are right and its fields are well formed.
pub validate_iff :
    (raw : List ℕ) (h : FrameHeader) (limit : ℕ)
    → IsHeader h
    → (validate raw h limit ≡ ok)
      ↔ ((starts_with raw magic ≡ true) × (header_crc raw ≡ h.header_crc32c) × IsWellFormed limit h)
unfolding validate
validate_iff raw h limit v = (
  λ e.
      ground (
        arith,
        frame_type_valid_iff h.type,
        unknown_flags h.flags v.flags_fit,
        validate_reset_iff h,
      ),
  λ b.
      ground (
        arith,
        frame_type_valid_iff h.type,
        unknown_flags h.flags v.flags_fit,
        validate_reset_iff h,
      ),
)

-- A header whose fields fit their widths is accepted after it was encoded exactly when its fields are
-- well formed.
pub validate-encode_iff :
    (h : FrameHeader) (limit : ℕ)
    → IsHeader h
    → (validate (encode h) (decode (encode h)) limit ≡ ok) ↔ IsWellFormed limit h
validate-encode_iff h limit v = rw (decode-encode h v) (
  (λ e. ground (arith, (received.0 e).2)),
  (λ w. received.1 (encode-magic h, header_crc-encode h, ground arith)),
)
  where
    stored : FrameHeader
    stored = record h { header_crc32c = sum_of h }

    received : (validate (encode h) stored limit ≡ ok) ↔ (
        (starts_with (encode h) magic ≡ true)
        × (header_crc (encode h) ≡ sum_of h)
        × IsWellFormed limit stored)
    received = validate_iff (encode h) stored limit (ground arith)
