-- ===== src/Route/Feed.antt =====
-- A preface that arrives in pieces.
use c_trpc.Base.{
  ℕ, ◌+◌, ◌≤◌, ◌<◌, ◌≡◌, refl, ap, sym, ◌∙◌, List, [], ◌∷◌, ◌++◌, length, length-append, take,
  take-append, concat, true, false, none, some, arith,
}
use mathlib.Core.List.{append_assoc, append-nil}
use c_trpc.Status.{ok}
use c_trpc.Wire.{copy_at}
use c_trpc.Parser.Copy.{length-copy_at, take-copy_at, take-all}
use c_trpc.Route.{Preface, RouteParser, encode, decode, validate, init, decide, feed}
use c_trpc.Route.RoundTrip.{IsPreface, sum_of, decode-encode_route, length-encode}
use c_trpc.Route.Accepts.{IsRoute, validate-encode-IsRoute_iff}

-- A parser that has stored some first bytes and waits for more.
record IsReading (pre : List ℕ) (p : RouteParser) : Type 0 where
  sized : length p.raw ≡ 48
  counted : p.have ≡ length pre
  stored : take (length pre) p.raw ≡ pre
  open_still : p.done ≡ false

-- The parser with more bytes stored.
abbrev stored_more : RouteParser → List ℕ → RouteParser
stored_more p c = record p { raw = copy_at p.raw p.have c; have = p.have + length c }

stored_more_prefix :
    (pre c : List ℕ) (p : RouteParser)
    → IsReading pre p
    → length pre + length c ≤ 48
    → take (length (pre ++ c)) (copy_at p.raw p.have c) ≡ pre ++ c
stored_more_prefix pre c p v h =
    ap (λ k. take (length (pre ++ c)) (copy_at p.raw k c)) v.counted
    ∙ ap (λ k. take k (copy_at p.raw (length pre) c)) (length-append pre c)
    ∙ take-copy_at p.raw (length pre) c (omega (arith, v.sized))
    ∙ ap (λ l. l ++ c) v.stored

feed_short :
    (pre c : List ℕ) (p : RouteParser)
    → IsReading pre p
    → length pre + length c < 48
    → feed p c ≡ (ok, length c, none, stored_more p c)
unfolding feed
feed_short pre c p v h = ground (arith, v, take-all c (length c) refl)

feed_short-IsReading :
    (pre c : List ℕ) (p : RouteParser)
    → IsReading pre p
    → length pre + length c < 48
    → IsReading (pre ++ c) (feed p c).3
feed_short-IsReading pre c p v h = rw (feed_short pre c p v h) (record {
  sized = length-copy_at p.raw p.have c ∙ v.sized;
  counted = omega (arith, v.counted, length-append pre c);
  stored = stored_more_prefix pre c p v (omega arith);
  open_still = v.open_still;
})

feed_last :
    (pre c rest : List ℕ) (p : RouteParser)
    → IsReading pre p
    → length pre + length c ≡ 48
    → feed p (c ++ rest) ≡ decide (length c) (stored_more p c)
unfolding feed
feed_last pre c rest p v h =
    ground (arith, v, length-append c rest, take-append c rest (length c) refl)

-- The connection's pieces before the last one.
unfoldable pub feed_each : RouteParser → List (List ℕ) → RouteParser
feed_each p [] = p
feed_each p (c ∷ cs) = feed_each (feed p c).3 cs

feed_each-IsReading :
    (pre : List ℕ) (cs : List (List ℕ)) (p : RouteParser)
    → IsReading pre p
    → length pre + length (concat cs) < 48
    → IsReading (pre ++ concat cs) (feed_each p cs)
unfolding feed_each
feed_each-IsReading pre [] p v h = rw (append-nil pre) v
feed_each-IsReading pre (c ∷ cs) p v h = rw (sym (append_assoc pre c (concat cs))) (
    feed_each-IsReading (pre ++ c) cs (feed p c).3
      (feed_short-IsReading pre c p v (omega (arith, length-append c (concat cs))))
      (omega (arith, length-append pre c, length-append c (concat cs))))

init-IsReading : IsReading [] init
unfolding init
init-IsReading = record { sized = refl; counted = refl; stored = refl; open_still = refl }

decide_route :
    (n : ℕ) (p : RouteParser) (h : Preface)
    → IsPreface h
    → IsRoute h
    → p.raw ≡ encode h
    → decide n p ≡ (ok, n, some (record h { header_crc32c = sum_of h }), record p { done = true })
unfolding decide
decide_route n p h v r e = ground (
  arith,
  ap (λ l. validate l (decode l)) e ∙ (validate-encode-IsRoute_iff h v).1 r,
  ap decode e ∙ decode-encode_route h v,
)

-- The encoded preface of a route, received in any pieces of which the last is not empty: the last piece, with whatever follows it
-- on the connection, makes the preface ready, and exactly the rest of the preface is consumed of it.
pub feed_pieces :
    (h : Preface) (cs : List (List ℕ)) (last rest : List ℕ)
    → IsPreface h
    → IsRoute h
    → 1 ≤ length last
    → concat cs ++ last ≡ encode h
    → let a = feed (feed_each init cs) (last ++ rest) in
      (a.0 ≡ ok)
      × (a.1 ≡ length last)
      × (a.2 ≡ some (record h { header_crc32c = sum_of h }))
      × ((a.3).done ≡ true)
feed_pieces h cs last rest v r ne e =
    rw (feed_last (concat cs) last rest (feed_each init cs) reading (omega (arith, whole)))
      (rw decided (refl, refl, refl, refl))
  where
    whole : length (concat cs) + length last ≡ 48
    whole = sym (length-append (concat cs) last) ∙ ap length e ∙ length-encode h

    reading : IsReading (concat cs) (feed_each init cs)
    reading = feed_each-IsReading [] cs init init-IsReading (omega (arith, whole, ne))

    complete : copy_at (feed_each init cs).raw (feed_each init cs).have last ≡ encode h
    complete =
        sym (
          take-all (copy_at (feed_each init cs).raw (feed_each init cs).have last)
            (length (concat cs ++ last))
            (length-append (concat cs) last
              ∙ whole
              ∙ sym (
                  length-copy_at (feed_each init cs).raw (feed_each init cs).have last
                  ∙ reading.sized)))
        ∙ stored_more_prefix (concat cs) last (feed_each init cs) reading (omega (arith, whole))
        ∙ e

    decided : decide (length last) (stored_more (feed_each init cs) last) ≡ (
      ok,
      length last,
      some (record h { header_crc32c = sum_of h }),
      record (stored_more (feed_each init cs) last) { done = true },
    )
    decided = decide_route (length last) (stored_more (feed_each init cs) last) h v r complete
