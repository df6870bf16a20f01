-- ===== src/Parser.antt =====
-- src/transport/protocol/parser.c and frame.c: the incremental parser of a connection.
-- The caller writes received bytes where `tr_parser_write_ptr` says and reports how many.
pub mod Copy
pub mod Header
pub mod Payload
pub mod Chunks
use c_trpc.Base.{
  ℕ, zero, suc, ◌+◌, ◌-◌, ◌%◌, ◌^◌, List, [], ◌∷◌, length, take, drop, set, replicate, Option, none,
  some, Bool, true, false, not, ◌&&◌, ◌||◌, ltb, ◌==◌, if◌then◌else◌,
}
use c_trpc.Status.{Status, ok, again, frame_ready, err_invalid, err_state, err_payload_crc, is_ok}
use c_trpc.Crc.{crc32c, begin, update, update_portable, finish}
use c_trpc.Wire.{FrameHeader, zero_header, max_payload, copy_at, decode, validate, header_size}
use c_trpc.Pool.{Buffer, Pool, Memory, buffer_at, acquire, release_buffer}

-- `enum tr_parser_state`.
pub data ParserState : Type 0 where
  in_header wait_payload_buffer in_payload : ParserState

-- `struct tr_parser`, but for the pool, which each call is given. `payload` is a descriptor.
pub record Parser : Type 0 where
  pub state : ParserState
  pub header_buf : List ℕ
  pub header_have : ℕ
  pub header : FrameHeader
  pub payload : Option ℕ
  pub payload_have : ℕ
  pub payload_crc_state : ℕ
  pub max_payload_len : ℕ

-- `struct tr_frame`.
pub record Frame : Type 0 where
  pub header : FrameHeader
  pub payload : Option ℕ

-- What a call answers: its status, the frame that it hands over, and the new state.
abbrev pub Answer : Type 0
Answer = Status × Option Frame × Parser × Memory

-- `tr_parser_clear_current`.
unfoldable pub clear_current : Parser → Parser
clear_current p = record p {
  state = in_header;
  header_have = 0;
  header = zero_header;
  payload = none;
  payload_have = 0;
  payload_crc_state = begin;
}

-- `tr_parser_init`; a limit of 0, or none, means the default.
unfoldable pub init : ℕ → Parser
unfolding clear_current
init limit = clear_current (record {
  state = in_header;
  header_buf = replicate 40 0;
  header_have = 0;
  header = zero_header;
  payload = none;
  payload_have = 0;
  payload_crc_state = 0;
  max_payload_len = max_payload limit;
})

abbrev pub release_option : Pool → Option ℕ → Pool
release_option pool none = pool
release_option pool (some slot) = release_buffer pool slot

-- `tr_parser_reset`.
unfoldable pub reset : Parser → Memory → Parser × Memory
reset p m = (clear_current p, record m { pool = release_option m.pool p.payload })

-- The label `fail` of `tr_parser_produce`.
unfoldable pub fail : Status → Parser → Memory → Answer
unfolding reset
fail ret p m = let (p', m') = reset p m in (ret, none, p', m')

-- `tr_parser_emit_empty`, and the jump to `fail` on its error.
unfoldable pub emit_empty : Parser → Memory → Answer
emit_empty p m =
    if not (p.header.payload_crc32c == crc32c [])
    then fail err_payload_crc p m
    else (frame_ready, some (record { header = p.header; payload = none }), clear_current p, m)

-- `parser->payload->len = …` of the payload buffer.
abbrev pub set_len : Memory → ℕ → ℕ → Memory
set_len m slot n = record m {
  pool = record (m.pool) {
    buffers = set m.buffers slot (record (buffer_at m.pool slot) { len = n });
  };
}

-- The branch of `tr_parser_produce` for the last byte of a payload.
unfoldable pub finish_payload : Parser → Memory → Answer
finish_payload p m =
    if not (finish p.payload_crc_state == p.header.payload_crc32c)
    then fail err_payload_crc p m
    else (frame_ready, some (record { header = p.header; payload = p.payload }), clear_current p, m)

-- The branch of `tr_parser_produce` for payload bytes.
unfoldable pub produce_payload : Parser → Memory → ℕ → ℕ → Answer
produce_payload p m slot produced =
    let new_data = take produced (drop p.payload_have (buffer_at m.pool slot).bytes) in
    let p' = record p {
      payload_crc_state = update update_portable p.payload_crc_state new_data;
      payload_have = p.payload_have + produced;
    } in
    let m' = set_len m slot p'.payload_have in
    if not (p'.payload_have == p.header.payload_len)
    then (ok, none, p', m')
    else finish_payload p' m'

-- `tr_parser_write_len`.
unfoldable pub write_len : Parser → ℕ
write_len p = elim p.state [
  | in_header ↦ header_size - p.header_have
  | in_payload ↦ elim p.payload [ none ↦ 0 | some slot ↦ p.header.payload_len - p.payload_have ]
  | wait_payload_buffer ↦ 0
]

-- Bytes written into the storage of a buffer from an offset on.
abbrev pub store_bytes : Memory → ℕ → ℕ → List ℕ → Memory
store_bytes m slot off bytes = record m {
  pool = record (m.pool) {
    buffers = set m.buffers slot (record (buffer_at m.pool slot) {
      bytes = copy_at (buffer_at m.pool slot).bytes off bytes;
    });
  };
}

-- The caller's `recv`: bytes are written from `tr_parser_write_ptr` on.
unfoldable pub fill : Parser → Memory → List ℕ → Parser × Memory
fill p m bytes = elim p.state [
  | in_header ↦ (record p { header_buf = copy_at p.header_buf p.header_have bytes }, m)
  | in_payload ↦ elim p.payload [
    | none ↦ (p, m)
    | some slot ↦ (p, store_bytes m slot p.payload_have bytes)
  ]
  | wait_payload_buffer ↦ (p, m)
]

module _ (realloc : ℕ → Option (List ℕ)) where
  -- `tr_parser_prepare` once a payload buffer is wanted, by the answer of the pool.
  unfoldable pub prepared : Parser → Status × Option ℕ × Memory → Status × Parser × Memory
  prepared p (ret, buffer, m) =
      if is_ok ret
      then (
        ok,
        record p {
          state = in_payload;
          payload = buffer;
          payload_have = 0;
          payload_crc_state = begin;
        },
        m,
      )
      else (ret, record p { payload = buffer }, m)

  -- `tr_parser_prepare`.
  unfoldable pub prepare : Parser → Memory → Status × Parser × Memory
  prepare p m = elim p.state [
    | wait_payload_buffer ↦ prepared p (acquire realloc m p.header.payload_len)
    | _ ↦ (ok, p, m)
  ]

  -- What `tr_parser_produce` does with the answer of `tr_parser_prepare`.
  unfoldable pub after_prepare : Status × Parser × Memory → Answer
  after_prepare (again, p, m) = (again, none, p, m)
  after_prepare (ok, p, m) = (ok, none, p, m)
  after_prepare (ret, p, m) = fail ret p m

  -- What `tr_parser_produce` does with a complete header whose validation gave a status.
  unfoldable pub after_validate : Status → Parser → Memory → Answer
  after_validate ret p m =
      if not (is_ok ret)
      then fail ret p m
      else if p.header.payload_len == 0
      then emit_empty p m
      else after_prepare (prepare (record p { state = wait_payload_buffer }) m)

  -- The branch of `tr_parser_produce` for the last byte of a header.
  unfoldable pub finish_header : Parser → Memory → Answer
  finish_header p m =
      let header = decode p.header_buf in
      after_validate (validate p.header_buf header p.max_payload_len) (record p { header = header })
        m

  -- The branch of `tr_parser_produce` for header bytes.
  unfoldable pub produce_header : Parser → Memory → ℕ → Answer
  produce_header p m produced =
      let p' = record p { header_have = p.header_have + produced } in
      if not (p'.header_have == header_size) then (ok, none, p', m) else finish_header p' m

  -- `tr_parser_produce`.
  unfoldable pub produce : Parser → Memory → ℕ → Answer
  produce p m produced =
      if produced == 0 || ltb (write_len p) produced
      then (err_invalid, none, p, m)
      else elim p.state [
        | in_header ↦ produce_header p m produced
        | in_payload ↦ elim p.payload [
          | none ↦ (err_state, none, p, m)
          | some slot ↦ produce_payload p m slot produced
        ]
        | wait_payload_buffer ↦ (err_state, none, p, m)
      ]

  -- One round of the caller: receive a chunk, report its length.
  unfoldable pub receive : Parser → Memory → List ℕ → Answer
  receive p m chunk = let (p', m') = fill p m chunk in produce p' m' (length chunk)

  -- Rounds until a chunk is answered by anything but "go on".
  unfoldable pub receive_all : Parser → Memory → List (List ℕ) → Answer
  receive_all p m [] = (ok, none, p, m)
  receive_all p m (c ∷ cs) =
      let a = receive p m c in let rest = receive_all a.2 a.3 cs in if is_ok a.0 then rest else a
