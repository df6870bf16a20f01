-- ===== src/Parser/Header.antt =====
-- The header of a frame, received in pieces.
use c_trpc.Base.{
  ℕ, ◌+◌, ◌≤◌, ◌<◌, ◌≡◌, refl, ap, sym, ◌∙◌, List, [], ◌∷◌, ◌++◌, length, length-append, take, All,
  Option, none, arith, concat, ◌==◌, if◌then◌else◌,
}
use mathlib.Core.List.{append_assoc, append-nil}
use c_trpc.Status.{ok, is_ok}
use c_trpc.Wire.{copy_at}
use c_trpc.Pool.{Memory}
use c_trpc.Parser.Copy.{length-copy_at, take-copy_at, take-all}
use c_trpc.Parser.{
  Parser, in_header, Answer, write_len, fill, produce_header, finish_header, produce, receive,
  receive_all,
}

-- A chunk of received bytes is not empty.
abbrev pub IsChunk : List ℕ → Type 0
IsChunk c = 0 < length c

-- The parser after bytes of a header that is not complete yet.
abbrev pub stored : Parser → List ℕ → Parser
stored p c = record p {
  header_buf = copy_at p.header_buf p.header_have c;
  header_have = p.header_have + length c;
}

abbrev pub stored_all : Parser → List (List ℕ) → Parser
stored_all p [] = p
stored_all p (c ∷ cs) = stored_all (stored p c) cs

pub record IsReading (p : Parser) : Type 0 where
  pub in_state : p.state ≡ in_header
  pub room : length p.header_buf ≡ 40

module _ (realloc : ℕ → Option (List ℕ)) where
  -- Goes on with the remaining chunks if an answer says so.
  abbrev pub follow : Answer → List (List ℕ) → Answer
  follow a cs = let rest = receive_all realloc a.2 a.3 cs in if is_ok a.0 then rest else a

  pub receive_all-cons :
      (p : Parser) (m : Memory) (c : List ℕ) (cs : List (List ℕ))
      → receive_all realloc p m (c ∷ cs) ≡ follow (receive realloc p m c) cs
  unfolding receive_all
  receive_all-cons p m c cs = refl

module _ (realloc : ℕ → Option (List ℕ)) (m : Memory) where
  receive_header :
      (p : Parser) (c : List ℕ)
      → IsReading p
      → IsChunk c
      → p.header_have + length c ≤ 40
      → receive realloc p m c ≡ (
          if p.header_have + length c == 40
          then finish_header realloc (stored p c) m
          else (ok, none, stored p c, m))
  unfolding receive produce fill write_len produce_header
  receive_header p c v ne h = ground arith

  receive_part :
      (p : Parser) (c : List ℕ) (cs : List (List ℕ))
      → IsReading p
      → IsChunk c
      → p.header_have + length c < 40
      → receive_all realloc p m (c ∷ cs) ≡ receive_all realloc (stored p c) m cs
  receive_part p c cs v ne h = rw receive_all-cons (ground (arith, receive_header p c v ne))

  receive_last :
      (p : Parser) (c : List ℕ) (cs : List (List ℕ))
      → IsReading p
      → IsChunk c
      → p.header_have + length c ≡ 40
      → receive_all realloc p m (c ∷ cs) ≡ follow realloc (finish_header realloc (stored p c) m) cs
  receive_last p c cs v ne h = rw receive_all-cons (ground (arith, receive_header p c v ne))

  -- However a header is cut, the parser ends by judging it whole, and goes on from there.
  pub receive_header_chunks :
      (p : Parser) (c : List ℕ) (cs more : List (List ℕ))
      → IsReading p
      → All IsChunk (c ∷ cs)
      → p.header_have + length (concat (c ∷ cs)) ≡ 40
      → receive_all realloc p m ((c ∷ cs) ++ more)
        ≡ follow realloc (finish_header realloc (stored_all p (c ∷ cs)) m) more
  receive_header_chunks p c [] more v ne h =
      receive_last p c more v ne.0 (omega (arith, ap length (append-nil c)))
  receive_header_chunks p c (d ∷ ds) more v ne h =
      receive_part p c (d ∷ (ds ++ more)) v ne.0
        (omega (arith, length-append c (d ++ concat ds), length-append d (concat ds), ne.1.0))
      ∙ receive_header_chunks (stored p c) d ds more
          (record {
            in_state = v.in_state;
            room = length-copy_at p.header_buf p.header_have c ∙ v.room;
          })
          ne.1 (omega (arith, length-append c (d ++ concat ds)))

length-stored_all :
    (p : Parser) (cs : List (List ℕ)) → length (stored_all p cs).header_buf ≡ length p.header_buf
length-stored_all p [] = refl
length-stored_all p (c ∷ cs) =
    length-stored_all (stored p c) cs ∙ length-copy_at p.header_buf p.header_have c

-- The header buffer holds what it held before, and then the pieces put together.
stored_all_prefix :
    (p : Parser) (cs : List (List ℕ))
    → p.header_have + length (concat cs) ≤ length p.header_buf
    → take (p.header_have + length (concat cs)) (stored_all p cs).header_buf
      ≡ take p.header_have p.header_buf ++ concat cs
stored_all_prefix p [] h =
    ap (λ k. take k p.header_buf) (omega arith) ∙ sym (append-nil (take p.header_have p.header_buf))
stored_all_prefix p (c ∷ cs) h =
    ap (λ k. take k (stored_all (stored p c) cs).header_buf)
      (let e : p.header_have + length (c ++ concat cs)
            ≡ p.header_have + length c + length (concat cs) =
          omega (arith, length-append c (concat cs)) in
        e)
    ∙ stored_all_prefix (stored p c) cs
        (omega (arith, length-append c (concat cs), length-copy_at p.header_buf p.header_have c))
    ∙ ap (λ l. l ++ concat cs)
        (take-copy_at p.header_buf p.header_have c (omega (arith, length-append c (concat cs))))
    ∙ append_assoc (take p.header_have p.header_buf) c (concat cs)

stored_all_fields :
    (p : Parser) (cs : List (List ℕ))
    → stored_all p cs ≡ record p {
      header_buf = (stored_all p cs).header_buf;
      header_have = p.header_have + length (concat cs);
    }
stored_all_fields p [] = λ i. record p { header_have = same i }
  where
    same : p.header_have ≡ p.header_have + 0
    same = omega arith
stored_all_fields p (c ∷ cs) = stored_all_fields (stored p c) cs ∙ λ i. record p {
  header_buf = (stored_all (stored p c) cs).header_buf;
  header_have = sum i;
}
  where
    sum : p.header_have + length c + length (concat cs) ≡ p.header_have + length (c ++ concat cs)
    sum = omega (arith, length-append c (concat cs))

-- From an empty buffer, 40 bytes in pieces fill it.
pub stored_all_whole :
    (p : Parser) (cs : List (List ℕ))
    → p.header_have ≡ 0
    → IsReading p
    → length (concat cs) ≡ 40
    → stored_all p cs ≡ record p { header_buf = concat cs; header_have = 40 }
stored_all_whole p cs none_yet v n =
    stored_all_fields p cs ∙ λ i. record p { header_buf = whole i; header_have = full i }
  where
    full : p.header_have + length (concat cs) ≡ 40
    full = omega arith

    nothing : take p.header_have p.header_buf ≡ []
    nothing = rw none_yet

    whole : (stored_all p cs).header_buf ≡ concat cs
    whole =
        sym
          (take-all (stored_all p cs).header_buf 40 (omega (arith, length-stored_all p cs, v.room)))
        ∙ ap (λ k. take k (stored_all p cs).header_buf) (sym full)
        ∙ stored_all_prefix p cs (omega (arith, v.room))
        ∙ ap (λ l. l ++ concat cs) nothing
