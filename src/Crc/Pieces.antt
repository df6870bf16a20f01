-- ===== src/Crc/Pieces.antt =====
-- A message of src/crc32c.c whose checksum is taken piece by piece, as docs/crc32c.md describes it.
use c_trpc.Base.{
  ℕ, ◌≡◌, refl, sym, ap, ◌∙◌, List, [], ◌∷◌, ◌++◌, All, concat, bit_xor, Bool, true, false,
}
use c_trpc.Crc.{update, begin, finish, crc32c}
use c_trpc.Crc.Laws.{update-portable_lem}
use c_trpc.Crc.Polynomial.{IsByte, update_polynomial, update_portable-polynomial}
use c_trpc.Crc.Sse.{Instructions, select_backend, update_sse42-poly, poly-append}

-- A caller of `tr_crc32c_update` with one piece after another.
unfoldable pub update_chunks : (ℕ → List ℕ → ℕ) → ℕ → List (List ℕ) → ℕ
update_chunks backend state [] = state
update_chunks backend state (c ∷ cs) = update_chunks backend (update backend state c) cs

All-append : (xs ys : List ℕ) → All IsByte xs → All IsByte ys → All IsByte (xs ++ ys)
All-append [] ys hx hy = hy
All-append (x ∷ xs) ys (h, hx) hy = (h, All-append xs ys hx hy)

All-concat : (cs : List (List ℕ)) → All (All IsByte) cs → All IsByte (concat cs)
All-concat [] h = tt
All-concat (c ∷ cs) (h, hs) = All-append c (concat cs) h (All-concat cs hs)

-- One call of the selected routine, from any state.
select_backend-poly :
    (cpu : Instructions) (available : Bool) (state : ℕ) (bytes : List ℕ)
    → All IsByte bytes
    → update (select_backend cpu available) state bytes ≡ update_polynomial state bytes
unfolding update select_backend
select_backend-poly cpu available state [] h = unfold update_polynomial in refl
select_backend-poly cpu true state (b ∷ rest) h = update_sse42-poly cpu state (b ∷ rest) h
select_backend-poly cpu false state (b ∷ rest) h = update_portable-polynomial state (b ∷ rest) h

module _ (cpu : Instructions) (available : Bool) where
  chunks_poly :
      (state : ℕ) (cs : List (List ℕ))
      → All (All IsByte) cs
      → update_chunks (select_backend cpu available) state cs ≡ update_polynomial state (concat cs)
  unfolding update_chunks
  chunks_poly state [] h = unfold update_polynomial in refl
  chunks_poly state (c ∷ cs) (h, hs) =
      ap (λ s. update_chunks (select_backend cpu available) s cs)
        (select_backend-poly cpu available state c h)
      ∙ chunks_poly (update_polynomial state c) cs hs
      ∙ sym (poly-append state c (concat cs))

-- CRC-32C as docs/crc32c.md defines it: the division by the polynomial from the initial state 0xffffffff,
-- inverted once at the end.
abbrev pub crc32c_polynomial : List ℕ → ℕ
crc32c_polynomial bytes = bit_xor (update_polynomial 0xffffffff bytes) 0xffffffff

whole_poly : (bytes : List ℕ) → All IsByte bytes → crc32c bytes ≡ crc32c_polynomial bytes
unfolding crc32c finish begin
whole_poly bytes h =
    ap (λ s. bit_xor s 0xffffffff)
      (update-portable_lem 0xffffffff bytes ∙ update_portable-polynomial 0xffffffff bytes h)

finished_poly :
    (s : ℕ) (bytes : List ℕ)
    → s ≡ update_polynomial begin bytes
    → finish s ≡ crc32c_polynomial bytes
unfolding finish begin
finished_poly s bytes e = ap (λ s. bit_xor s 0xffffffff) e

-- Whichever routine the processor check selects, and however a sequence of bytes is cut into pieces, empty ones
-- included: updating with one piece after another, from any state, divides the whole sequence by the polynomial; from
-- the initial state the finished sum, and the portable checksum of the whole, are the CRC-32C of the whole. The
-- processor's instructions do what its manual says.
pub update_chunks-polynomial :
    (cpu : Instructions) (available : Bool) (state : ℕ) (cs : List (List ℕ))
    → All (All IsByte) cs
    → (update_chunks (select_backend cpu available) state cs ≡ update_polynomial state (concat cs))
      × (finish (update_chunks (select_backend cpu available) begin cs)
          ≡ crc32c_polynomial (concat cs))
      × (crc32c (concat cs) ≡ crc32c_polynomial (concat cs))
update_chunks-polynomial cpu available state cs h = (
  chunks_poly cpu available state cs h,
  finished_poly (update_chunks (select_backend cpu available) begin cs) (concat cs)
      (chunks_poly cpu available begin cs h),
  whole_poly (concat cs) (All-concat cs h),
)
