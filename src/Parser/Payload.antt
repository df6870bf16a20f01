-- ===== src/Parser/Payload.antt =====
-- The payload of a frame, received in pieces into a buffer of the pool.
use c_trpc.Base.{
  ℕ, ◌+◌, ◌≤◌, ◌<◌, ◌≡◌, ap, sym, ◌∙◌, List, [], ◌∷◌, ◌++◌, length, length-append, length-set, take,
  get_or-set_self, All, Option, none, some, arith, concat, ◌==◌, if◌then◌else◌, false,
}
use mathlib.Core.List.{append_assoc, append-nil}
use c_trpc.Status.{ok, is_ok}
use c_trpc.Crc.{update_portable}
use c_trpc.Crc.Laws.{update-portable_lem, update_portable-append, update_portable-nil}
use c_trpc.Wire.{copy_at}
use c_trpc.Pool.{Buffer, Memory, buffer_at, no_buffer}
use c_trpc.Parser.Copy.{length-copy_at, take-copy_at, take-drop-copy_at}
use c_trpc.Parser.Header.{IsChunk, receive_all-cons}
use c_trpc.Parser.{
  Parser, in_payload, write_len, fill, produce_payload, finish_payload, produce, receive,
  receive_all, set_len, store_bytes, fail,
}

-- The pool after a chunk of payload: the bytes are stored, and counted.
abbrev pub written : Memory → ℕ → ℕ → List ℕ → Memory
written m slot have c = set_len (store_bytes m slot have c) slot (have + length c)

-- The parser after a chunk of payload that does not complete it.
abbrev pub counted : Parser → List ℕ → Parser
counted p c = record p {
  payload_crc_state = update_portable p.payload_crc_state c;
  payload_have = p.payload_have + length c;
}

pub record IsFilling (slot : ℕ) (p : Parser) (m : Memory) : Type 0 where
  pub in_state : p.state ≡ in_payload
  pub buffer : p.payload ≡ some slot
  pub inside : slot < length m.buffers
  pub room : p.header.payload_len ≤ length (buffer_at m.pool slot).bytes

module _ (realloc : ℕ → Option (List ℕ)) (slot : ℕ) where
  receive_payload :
      (p : Parser) (m : Memory) (c : List ℕ)
      → IsFilling slot p m
      → IsChunk c
      → p.payload_have + length c ≤ p.header.payload_len
      → receive realloc p m c ≡ (
          if p.payload_have + length c == p.header.payload_len
          then finish_payload (counted p c) (written m slot p.payload_have c)
          else (ok, none, counted p c, written m slot p.payload_have c))
  unfolding receive produce fill write_len produce_payload
  receive_payload p m c v ne h = ground (
    arith,
    update-portable_lem p.payload_crc_state c,
    get_or-set_self m.buffers slot
        (record (buffer_at m.pool slot) {
          bytes = copy_at (buffer_at m.pool slot).bytes p.payload_have c;
        })
        no_buffer v.inside,
    take-drop-copy_at (buffer_at m.pool slot).bytes p.payload_have c,
  )

  stored_at :
      (m : Memory) (off : ℕ) (c : List ℕ)
      → slot < length m.buffers
      → buffer_at (store_bytes m slot off c).pool slot
        ≡ record (buffer_at m.pool slot) { bytes = copy_at (buffer_at m.pool slot).bytes off c }
  stored_at m off c h = get_or-set_self m.buffers slot _ no_buffer h

  set_len_at :
      (m : Memory) (n : ℕ)
      → slot < length m.buffers
      → buffer_at (set_len m slot n).pool slot ≡ record (buffer_at m.pool slot) { len = n }
  set_len_at m n h = get_or-set_self m.buffers slot _ no_buffer h

  written_at :
      (m : Memory) (have : ℕ) (c : List ℕ)
      → slot < length m.buffers
      → buffer_at (written m slot have c).pool slot ≡ record (buffer_at m.pool slot) {
        bytes = copy_at (buffer_at m.pool slot).bytes have c;
        len = have + length c;
      }
  written_at m have c h =
      set_len_at (store_bytes m slot have c) (have + length c) (
        omega (
          arith,
          length-set m.buffers slot (record (buffer_at m.pool slot) {
            bytes = copy_at (buffer_at m.pool slot).bytes have c;
          }),
        ))
      ∙ ap (λ (b : Buffer). record b { len = have + length c }) (stored_at m have c h)

  length-written :
      (m : Memory) (have : ℕ) (c : List ℕ)
      → length (written m slot have c).buffers ≡ length m.buffers
  length-written m have c = length-set _ slot _ ∙ length-set m.buffers slot _

  written-IsFilling :
      (p : Parser) (m : Memory) (c : List ℕ)
      → IsFilling slot p m
      → IsFilling slot (counted p c) (written m slot p.payload_have c)
  written-IsFilling p m c v = record {
    in_state = v.in_state;
    buffer = v.buffer;
    inside = omega (arith, length-written m p.payload_have c, v.inside);
    room = omega (
      arith,
      ap (λ (b : Buffer). length b.bytes) (written_at m p.payload_have c v.inside),
      length-copy_at (buffer_at m.pool slot).bytes p.payload_have c,
      v.room,
    );
  }

  abbrev pub counted_all : Parser → List (List ℕ) → Parser
  counted_all p [] = p
  counted_all p (c ∷ cs) = counted_all (counted p c) cs

  abbrev pub written_all : Memory → ℕ → List (List ℕ) → Memory
  written_all m have [] = m
  written_all m have (c ∷ cs) = written_all (written m slot have c) (have + length c) cs

  receive_more :
      (p : Parser) (m : Memory) (c : List ℕ) (cs : List (List ℕ))
      → IsFilling slot p m
      → IsChunk c
      → p.payload_have + length c < p.header.payload_len
      → receive_all realloc p m (c ∷ cs)
        ≡ receive_all realloc (counted p c) (written m slot p.payload_have c) cs
  receive_more p m c cs v ne h = rw receive_all-cons (ground (arith, receive_payload p m c v ne))

  -- The end of a payload is never "go on".
  finish_payload_stops : (p : Parser) (m : Memory) → is_ok (finish_payload p m).0 ≡ false
  unfolding finish_payload fail
  finish_payload_stops p m = ground arith

  receive_end :
      (p : Parser) (m : Memory) (c : List ℕ)
      → IsFilling slot p m
      → IsChunk c
      → p.payload_have + length c ≡ p.header.payload_len
      → receive_all realloc p m (c ∷ [])
        ≡ finish_payload (counted p c) (written m slot p.payload_have c)
  receive_end p m c v ne h = rw receive_all-cons (
      ground (
        arith,
        receive_payload p m c v ne,
        finish_payload_stops (counted p c) (written m slot p.payload_have c),
      ))

  -- However a payload is cut, the parser ends by judging it whole.
  pub receive_payload_chunks :
      (p : Parser) (m : Memory) (c : List ℕ) (cs : List (List ℕ))
      → IsFilling slot p m
      → All IsChunk (c ∷ cs)
      → p.payload_have + length (concat (c ∷ cs)) ≡ p.header.payload_len
      → receive_all realloc p m (c ∷ cs)
        ≡ finish_payload (counted_all p (c ∷ cs)) (written_all m p.payload_have (c ∷ cs))
  receive_payload_chunks p m c [] v ne h =
      receive_end p m c v ne.0 (omega (arith, ap length (append-nil c)))
  receive_payload_chunks p m c (d ∷ ds) v ne h =
      receive_more p m c (d ∷ ds) v ne.0
        (omega (arith, length-append c (d ++ concat ds), length-append d (concat ds), ne.1.0))
      ∙ receive_payload_chunks (counted p c) (written m slot p.payload_have c) d ds
          (written-IsFilling p m c v) ne.1 (omega (arith, length-append c (d ++ concat ds)))

  -- The checksum register has then seen the whole payload, and nothing else of the parser changed.
  pub counted_all_whole :
      (p : Parser) (cs : List (List ℕ))
      → counted_all p cs ≡ record p {
        payload_crc_state = update_portable p.payload_crc_state (concat cs);
        payload_have = p.payload_have + length (concat cs);
      }
  counted_all_whole p [] = ground (arith, update_portable-nil p.payload_crc_state)
  counted_all_whole p (c ∷ cs) = ground (
    arith,
    counted_all_whole (counted p c) cs,
    update_portable-append p.payload_crc_state c (concat cs),
    length-append c (concat cs),
  )

  -- The buffer holds the bytes that it held before, and then the pieces put together.
  pub written_all_prefix :
      (m : Memory) (have : ℕ) (cs : List (List ℕ))
      → slot < length m.buffers
      → have + length (concat cs) ≤ length (buffer_at m.pool slot).bytes
      → take (have + length (concat cs)) (buffer_at (written_all m have cs).pool slot).bytes
        ≡ take have (buffer_at m.pool slot).bytes ++ concat cs
  written_all_prefix m have [] v h =
      ap (λ k. take k (buffer_at m.pool slot).bytes) (omega arith)
      ∙ sym (append-nil (take have (buffer_at m.pool slot).bytes))
  written_all_prefix m have (c ∷ cs) v h =
      let old = (buffer_at m.pool slot).bytes in
      let now = ap (λ (b : Buffer). b.bytes) (written_at m have c v) in
      let split = length-append c (concat cs) in
      ap
        (λ k.
          take k
            (buffer_at (written_all (written m slot have c) (have + length c) cs).pool slot).bytes)
        (let e : have + length (c ++ concat cs) ≡ have + length c + length (concat cs) =
            omega (arith, split) in
          e)
      ∙ written_all_prefix (written m slot have c) (have + length c) cs
          (omega (arith, length-written m have c))
          (omega (arith, split, ap length now, length-copy_at old have c))
      ∙ ap (λ l. take (have + length c) l ++ concat cs) now
      ∙ ap (λ l. l ++ concat cs) (take-copy_at old have c (omega (arith, split)))
      ∙ append_assoc (take have old) c (concat cs)
