-- ===== src/Tests/Frames.antt =====
-- Checksums, headers and frames on concrete inputs.
use c_trpc.Base.{
  ℕ, ◌≤◌, ◌<◌, ◌≡◌, refl, true, false, List, [], ◌∷◌, length, take, drop, replicate, arith, Option,
  none, some, All, concat, bit_xor, ◌↔◌,
}
use c_trpc.Status.{ok, frame_ready}
use c_trpc.Crc.{crc32c, update_portable, update, begin, finish, crc_bits, crc_byte}
use c_trpc.Crc.Table.{crc32c_table}
use c_trpc.Crc.Laws.{crc32c_width}
use c_trpc.Crc.Polynomial.{update_polynomial, update_portable-polynomial}
use c_trpc.Crc.Sse.{Instructions, select_backend, select_backend-crc32c}
use c_trpc.Crc.Pieces.{crc32c_polynomial, update_chunks, update_chunks-polynomial}
use c_trpc.Wire.{FrameHeader, encode, decode, validate, header_crc, starts_with, magic}
use c_trpc.Wire.RoundTrip.{IsHeader, sum_of, decode-encode}
use c_trpc.Wire.Accepts.{IsWellFormed, validate_iff, validate-encode_iff}
use c_trpc.Pool.{Memory, acquire, check_out, take_first, buffer_at}
use c_trpc.Parser.{in_header, init, receive_all}
use c_trpc.Parser.Header.{IsChunk}
use c_trpc.Parser.Chunks.{received, parse_frame}

abbrev nine : List ℕ
nine = b'1' ∷ b'2' ∷ b'3' ∷ b'4' ∷ b'5' ∷ b'6' ∷ b'7' ∷ b'8' ∷ b'9' ∷ []

-- The check value of CRC-32C.
crc32c-nine : crc32c nine ≡ 0xe306_9283
unfolding crc32c finish update update_portable crc_byte begin crc32c_table
crc32c-nine = refl

update_portable-polynomial_example : update_portable begin nine ≡ update_polynomial begin nine
update_portable-polynomial_example = update_portable-polynomial begin nine (omega arith)

-- A processor whose instructions do what the manual says.
abbrev processor : Instructions
processor = record {
  crc32_u8 = λ state w. crc_bits 8 (bit_xor state w);
  crc32_u16 = λ state w. crc_bits 16 (bit_xor state w);
  crc32_u32 = λ state w. crc_bits 32 (bit_xor state w);
  crc32_u64 = λ state w. crc_bits 64 (bit_xor state w);
  steps_u8 = λ state w. refl;
  steps_u16 = λ state w. refl;
  steps_u32 = λ state w. refl;
  steps_u64 = λ state w. refl;
}

select_backend-crc32c_example :
    finish (update (select_backend processor true) begin nine) ≡ crc32c nine
select_backend-crc32c_example = select_backend-crc32c processor true nine (omega arith)

-- A piece that the loop of eight bytes takes a word of, an empty one, and one of three bytes.
abbrev pieces : List (List ℕ)
pieces = nine ∷ [] ∷ (10 ∷ 20 ∷ 30 ∷ []) ∷ []

update_chunks-polynomial_example :
    (update_chunks (select_backend processor true) 5 pieces ≡ update_polynomial 5 (concat pieces))
    × (finish (update_chunks (select_backend processor true) begin pieces)
        ≡ crc32c_polynomial (concat pieces))
    × (crc32c (concat pieces) ≡ crc32c_polynomial (concat pieces))
update_chunks-polynomial_example = update_chunks-polynomial processor true 5 pieces (omega arith)

abbrev payload : List ℕ
payload = 7 ∷ 8 ∷ 9 ∷ []

-- A frame of type 1 with three bytes of payload.
abbrev small : FrameHeader
small = record {
  version = 1;
  type = 1;
  flags = 5;
  stream_id = 4;
  message_id = 77;
  payload_len = 3;
  payload_crc32c = crc32c payload;
  header_crc32c = 0;
  reserved = 0;
}

small-IsHeader : IsHeader small
small-IsHeader = record {
  version_fits = omega arith;
  type_fits = omega arith;
  flags_fit = omega arith;
  stream_id_fits = omega arith;
  message_id_fits = omega arith;
  payload_len_fits = omega arith;
  payload_crc32c_fits = crc32c_width payload;
  reserved_fits = omega arith;
}

small-IsWellFormed : IsWellFormed 0 small
small-IsWellFormed = ground arith

decode-encode_example : decode (encode small) ≡ record small { header_crc32c = sum_of small }
decode-encode_example = decode-encode small small-IsHeader

validate-encode_iff_example :
    (validate (encode small) (decode (encode small)) 0 ≡ ok) ↔ IsWellFormed 0 small
validate-encode_iff_example = validate-encode_iff small 0 small-IsHeader

validate_iff_example : (validate (encode small) small 0 ≡ ok) ↔ (
    (starts_with (encode small) magic ≡ true)
    × (header_crc (encode small) ≡ small.header_crc32c)
    × IsWellFormed 0 small)
validate_iff_example = validate_iff (encode small) small 0 small-IsHeader

-- A pool of one buffer with room for four bytes.
abbrev before : Memory
before = record {
  pool = record {
    buffers = record { bytes = replicate 4 0; capacity = 4; len = 0; checked_out = false } ∷ [];
    fixed = true;
    free_list = 0 ∷ [];
    buffer_count = 1;
    buffer_size = 4;
    free_count = 1;
    peak_in_use = 0;
    exhausted_events = 0;
    closed = false;
    memory_budget = none;
  };
  family = record {
    root = record { limit_bytes = 0; current_bytes = 0; peak_bytes = 0; rejection_events = 0 };
    children = [];
  };
}

abbrev no_storage : ℕ → Option (List ℕ)
no_storage n = none

abbrev after : Memory
after = (acquire no_storage before 3).2

got : acquire no_storage before 3 ≡ (ok, some 0, after)
unfolding acquire take_first check_out
got = refl

inside : 0 < length after.buffers
unfolding acquire take_first check_out
inside = omega arith

room : 3 ≤ length (buffer_at after.pool 0).bytes
unfolding acquire take_first check_out
room = omega arith

header_cut : concat (take 7 (encode small) ∷ drop 7 (encode small) ∷ []) ≡ encode small
unfolding encode
header_cut = refl

header_chunks : All IsChunk (take 7 (encode small) ∷ drop 7 (encode small) ∷ [])
unfolding encode
header_chunks = omega arith

payload_chunks : All IsChunk ((7 ∷ []) ∷ (8 ∷ 9 ∷ []) ∷ [])
payload_chunks = omega arith

parse_frame_example :
    let a =
      receive_all no_storage
        (init 0)
        before
        (take 7 (encode small) ∷ drop 7 (encode small) ∷ (7 ∷ []) ∷ (8 ∷ 9 ∷ []) ∷ []) in
    (a.0 ≡ frame_ready)
    × (a.1 ≡ some (record { header = received small; payload = some 0 }))
    × (a.2.state ≡ in_header)
    × (a.2.header_have ≡ 0)
    × (take 3 (buffer_at (a.3).pool 0).bytes ≡ payload)
parse_frame_example =
    parse_frame no_storage 0 small small-IsHeader small-IsWellFormed before after 0 got inside room
      (take 7 (encode small)) (7 ∷ []) (drop 7 (encode small) ∷ []) ((8 ∷ 9 ∷ []) ∷ [])
      header_chunks payload_chunks header_cut refl refl
