-- ===== src/Parser/Chunks.antt =====
-- A frame that a peer has encoded is parsed back, however the connection cuts its bytes.
use c_trpc.Base.{
  ℕ, ◌+◌, ◌≤◌, ◌<◌, ◌≡◌, ◌≢◌, refl, ap, ◌∙◌, List, [], ◌∷◌, ◌++◌, length, take, All, Option, none,
  some, arith, concat, length-append,
}
use c_trpc.Status.{ok, frame_ready}
use c_trpc.Crc.{crc32c, begin, finish}
use c_trpc.Crc.Laws.{update-portable_lem}
use c_trpc.Wire.{FrameHeader, encode, decode, validate, max_payload}
use c_trpc.Wire.RoundTrip.{IsHeader, sum_of, decode-encode, length-encode}
use c_trpc.Wire.Accepts.{IsWellFormed, validate-encode_iff}
use c_trpc.Pool.{Memory, buffer_at, acquire}
use c_trpc.Parser.Header.{IsChunk, IsReading, follow, receive_header_chunks, stored_all_whole}
use c_trpc.Parser.Payload.{
  IsFilling, counted_all, written_all, receive_payload_chunks, counted_all_whole,
  written_all_prefix,
}
use c_trpc.Parser.{
  Parser, in_header, in_payload, init, clear_current, finish_header, after_validate, after_prepare,
  prepare, prepared, emit_empty, finish_payload, receive_all,
}

-- The header as the receiver gets it: with its own checksum filled in.
abbrev pub received : FrameHeader → FrameHeader
received h = record h { header_crc32c = sum_of h }

-- The parser with the 40 bytes of a header in its buffer.
abbrev full_header : ℕ → FrameHeader → Parser
full_header limit h = record (init limit) { header_buf = encode h; header_have = 40 }

-- The parser once a buffer waits for the payload.
abbrev awaiting : ℕ → FrameHeader → ℕ → Parser
awaiting limit h slot = record (full_header limit h) {
  state = in_payload;
  header = received h;
  payload = some slot;
  payload_have = 0;
  payload_crc_state = begin;
}

IsWellFormed-max_payload :
    (limit : ℕ) (h : FrameHeader) → IsWellFormed limit h → IsWellFormed (max_payload limit) h
IsWellFormed-max_payload limit h w = ground arith

init_fields : (limit : ℕ) → record {
  limit_kept : (init limit).max_payload_len ≡ max_payload limit;
  empty : (init limit).header_have ≡ 0;
  reading : IsReading (init limit);
}
unfolding init
init_fields limit = record {
  limit_kept = refl;
  empty = refl;
  reading = record { in_state = refl; room = refl };
}

module _ (realloc : ℕ → Option (List ℕ)) (limit : ℕ) (h : FrameHeader) (v : IsHeader h)
    (w : IsWellFormed limit h) where
  accepted : validate (encode h) (decode (encode h)) (init limit).max_payload_len ≡ ok
  accepted =
      rw (init_fields limit).limit_kept
        ((validate-encode_iff h (max_payload limit) v).1 (IsWellFormed-max_payload limit h w))

  -- A complete header of a frame with a payload, when the pool has a buffer.
  header_with_payload :
      (m m1 : Memory) (slot : ℕ)
      → h.payload_len ≢ 0
      → acquire realloc m h.payload_len ≡ (ok, some slot, m1)
      → finish_header realloc (full_header limit h) m ≡ (ok, none, awaiting limit h slot, m1)
  unfolding finish_header after_validate prepare prepared after_prepare
  header_with_payload m m1 slot some_payload got = ground (arith, accepted, decode-encode h v)

  -- A complete header of a frame without a payload is the frame.
  header_alone :
      (m : Memory)
      → h.payload_len ≡ 0
      → h.payload_crc32c ≡ crc32c []
      → finish_header realloc (full_header limit h) m ≡ (
        frame_ready,
        some (record { header = received h; payload = none }),
        clear_current (record (full_header limit h) { header = received h }),
        m,
      )
  unfolding finish_header after_validate emit_empty
  header_alone m no_payload sum = ground (arith, accepted, decode-encode h v)

  -- From a fresh parser, the header in any pieces.
  header_pieces :
      (m : Memory) (c : List ℕ) (cs more : List (List ℕ))
      → All IsChunk (c ∷ cs)
      → concat (c ∷ cs) ≡ encode h
      → receive_all realloc (init limit) m ((c ∷ cs) ++ more)
        ≡ follow realloc (finish_header realloc (full_header limit h) m) more
  header_pieces m c cs more ne e =
      receive_header_chunks realloc m (init limit) c cs more fields.reading ne
        (omega (arith, forty, fields.empty))
      ∙ ap (λ p. follow realloc (finish_header realloc p m) more)
          (stored_all_whole (init limit) (c ∷ cs) fields.empty fields.reading forty
            ∙ ap (λ l. record (init limit) { header_buf = l; header_have = 40 }) e)
    where
      fields : record {
        limit_kept : (init limit).max_payload_len ≡ max_payload limit;
        empty : (init limit).header_have ≡ 0;
        reading : IsReading (init limit);
      }
      fields = init_fields limit

      forty : length (concat (c ∷ cs)) ≡ 40
      forty = ap length e ∙ length-encode h

  -- A whole payload with the right checksum is handed over in its buffer.
  payload_accepted :
      (p : Parser) (m : Memory) (slot : ℕ)
      → finish p.payload_crc_state ≡ p.header.payload_crc32c
      → p.payload ≡ some slot
      → finish_payload p m ≡ (
        frame_ready,
        some (record { header = p.header; payload = some slot }),
        clear_current p,
        m,
      )
  unfolding finish_payload
  payload_accepted p m slot sum buffer = ground arith

  module _ (m m1 : Memory) (slot : ℕ) (got : acquire realloc m h.payload_len ≡ (ok, some slot, m1))
      (inside : slot < length m1.buffers)
      (room : h.payload_len ≤ length (buffer_at m1.pool slot).bytes) where
    awaiting-IsFilling : IsFilling slot (awaiting limit h slot) m1
    awaiting-IsFilling = record { in_state = refl; buffer = refl; inside = inside; room = room }

    payload_pieces :
        (c : List ℕ) (cs : List (List ℕ))
        → All IsChunk (c ∷ cs)
        → length (concat (c ∷ cs)) ≡ h.payload_len
        → crc32c (concat (c ∷ cs)) ≡ h.payload_crc32c
        → receive_all realloc (awaiting limit h slot) m1 (c ∷ cs) ≡ (
          frame_ready,
          some (record { header = received h; payload = some slot }),
          clear_current (counted_all realloc slot (awaiting limit h slot) (c ∷ cs)),
          written_all realloc slot m1 0 (c ∷ cs),
        )
    unfolding crc32c
    payload_pieces c cs ne e sum =
        receive_payload_chunks realloc slot (awaiting limit h slot) m1 c cs awaiting-IsFilling ne
          (omega arith)
        ∙ ground (
          arith,
          counted_all_whole realloc slot (awaiting limit h slot) (c ∷ cs),
          update-portable_lem begin (concat (c ∷ cs)),
          payload_accepted (counted_all realloc slot (awaiting limit h slot) (c ∷ cs))
              (written_all realloc slot m1 0 (c ∷ cs)) slot,
        )

  -- A frame with a well-formed header, and a payload that is not empty and has the length and the checksum that
  -- the header names, is sent as its encoded header and its payload. If the pool answers OK with a buffer that has
  -- room for the payload, a fresh parser that receives both in any non-empty pieces, with a cut between
  -- them, answers with the frame: its header, and the buffer, which begins with the payload. The
  -- parser is then ready for the next header.
  pub parse_frame :
      (m m1 : Memory) (slot : ℕ)
      → acquire realloc m h.payload_len ≡ (ok, some slot, m1)
      → slot < length m1.buffers
      → h.payload_len ≤ length (buffer_at m1.pool slot).bytes
      → (c d : List ℕ) (cs ds : List (List ℕ)) → All IsChunk (c ∷ cs)
      → All IsChunk (d ∷ ds)
      → concat (c ∷ cs) ≡ encode h
      → length (concat (d ∷ ds)) ≡ h.payload_len
      → crc32c (concat (d ∷ ds)) ≡ h.payload_crc32c
      → let a = receive_all realloc (init limit) m ((c ∷ cs) ++ (d ∷ ds)) in
        (a.0 ≡ frame_ready)
        × (a.1 ≡ some (record { header = received h; payload = some slot }))
        × (a.2.state ≡ in_header)
        × (a.2.header_have ≡ 0)
        × (take h.payload_len (buffer_at (a.3).pool slot).bytes ≡ concat (d ∷ ds))
  unfolding clear_current
  parse_frame m m1 slot got inside room c d cs ds nec ned ec n sum =
      rw whole (refl, refl, refl, refl, kept)
    where
      kept :
          take h.payload_len (buffer_at (written_all realloc slot m1 0 (d ∷ ds)).pool slot).bytes
          ≡ concat (d ∷ ds)
      kept =
          ap (λ k. take k (buffer_at (written_all realloc slot m1 0 (d ∷ ds)).pool slot).bytes)
            (let e : h.payload_len ≡ 0 + length (concat (d ∷ ds)) = omega arith in e)
          ∙ written_all_prefix realloc slot m1 0 (d ∷ ds) inside (omega arith)

      some_payload : h.payload_len ≢ 0
      some_payload = ground (arith, n, ned.0, length-append d (concat ds))

      whole : receive_all realloc (init limit) m ((c ∷ cs) ++ (d ∷ ds)) ≡ (
        frame_ready,
        some (record { header = received h; payload = some slot }),
        clear_current (counted_all realloc slot (awaiting limit h slot) (d ∷ ds)),
        written_all realloc slot m1 0 (d ∷ ds),
      )
      whole =
          header_pieces m c cs (d ∷ ds) nec ec
          ∙ ap (λ a. follow realloc a (d ∷ ds)) (header_with_payload m m1 slot some_payload got)
          ∙ payload_pieces m m1 slot got inside room d ds ned n sum
