-- ===== src/Crc/Sse.antt =====
-- The SSE4.2 routine of src/crc32c.c, over the processor's CRC32 instructions.
use c_trpc.Base.{
  ℕ, ◌*◌, ◌<◌, ◌≡◌, refl, sym, ap, ◌∙◌, List, [], ◌∷◌, ◌++◌, All, length, bit_xor, Bool, true,
  false, if◌then◌else◌, arith,
}
use c_trpc.Endian.{get_le16, get_le32, get_le64}
use c_trpc.Endian.RoundTrip.{get_le16-eq, get_le32-eq, get_le64-eq}
use c_trpc.Crc.Polynomial.{
  IsByte, le_value, update_polynomial, crc_bits_word, update_portable-polynomial,
}
use c_trpc.Crc.{update_portable, update, begin, finish, crc32c, crc_bits}

-- `_mm_crc32_u8`, `_u16`, `_u32` and `_u64` of the compiler, and what the processor's manual says
-- of them: the register takes as many steps of the polynomial as the operand has bits.
pub record Instructions : Type 0 where
  pub crc32_u8 : ℕ → ℕ → ℕ
  pub crc32_u16 : ℕ → ℕ → ℕ
  pub crc32_u32 : ℕ → ℕ → ℕ
  pub crc32_u64 : ℕ → ℕ → ℕ
  pub steps_u8 : (state w : ℕ) → crc32_u8 state w ≡ crc_bits 8 (bit_xor state w)
  pub steps_u16 : (state w : ℕ) → crc32_u16 state w ≡ crc_bits 16 (bit_xor state w)
  pub steps_u32 : (state w : ℕ) → crc32_u32 state w ≡ crc_bits 32 (bit_xor state w)
  pub steps_u64 : (state w : ℕ) → crc32_u64 state w ≡ crc_bits 64 (bit_xor state w)

module _ (cpu : Instructions) where
  -- The rest of fewer than two bytes, of fewer than four, and of fewer than eight.
  unfoldable pub tail_u8 : ℕ → List ℕ → ℕ
  tail_u8 state [] = state
  tail_u8 state (b ∷ rest) = cpu.crc32_u8 state b

  unfoldable pub tail_u16 : ℕ → List ℕ → ℕ
  unfolding tail_u8
  tail_u16 state (a ∷ b ∷ rest) = tail_u8 (cpu.crc32_u16 state (get_le16 (a ∷ b ∷ rest))) rest
  tail_u16 state [] = tail_u8 state []
  tail_u16 state (a ∷ []) = tail_u8 state (a ∷ [])

  unfoldable pub tail_u32 : ℕ → List ℕ → ℕ
  unfolding tail_u16
  tail_u32 state (a ∷ b ∷ c ∷ d ∷ rest) =
      tail_u16 (cpu.crc32_u32 state (get_le32 (a ∷ b ∷ c ∷ d ∷ rest))) rest
  tail_u32 state short = tail_u16 state short

  -- `tr_crc32c_update_sse42`: the loop of eight bytes, then the rest. A word is loaded by `memcpy`
  -- on a little-endian processor.
  unfoldable pub update_sse42 : ℕ → List ℕ → ℕ
  unfolding tail_u32
  update_sse42 state (a ∷ b ∷ c ∷ d ∷ e ∷ f ∷ g ∷ h ∷ rest) =
      update_sse42 (cpu.crc32_u64 state (get_le64 (a ∷ b ∷ c ∷ d ∷ e ∷ f ∷ g ∷ h ∷ rest))) rest
  update_sse42 state short = tail_u32 state short

  -- `tr_crc32c_select_backend`.
  unfoldable pub select_backend : Bool → ℕ → List ℕ → ℕ
  select_backend available = if available then update_sse42 else update_portable

pub poly-append :
    (state : ℕ) (xs ys : List ℕ)
    → update_polynomial state (xs ++ ys) ≡ update_polynomial (update_polynomial state xs) ys
unfolding update_polynomial
poly-append state [] ys = refl
poly-append state (x ∷ xs) ys = poly-append (crc_bits 8 (bit_xor state x)) xs ys

-- A word's bits are eight for each of its bytes.
word_steps :
    (state w n : ℕ) (bytes : List ℕ)
    → All IsByte bytes
    → w ≡ le_value bytes
    → n ≡ 8 * length bytes
    → crc_bits n (bit_xor state w) ≡ update_polynomial state bytes
word_steps state w n bytes hs e k = rw (e, k) (crc_bits_word state bytes hs)

module _ (cpu : Instructions) where
  step_u8 : (state a : ℕ) → a < 256 → cpu.crc32_u8 state a ≡ update_polynomial state (a ∷ [])
  step_u8 state a ha =
      cpu.steps_u8 state a ∙ word_steps state a 8 (a ∷ []) (ha, tt) (omega arith) (omega arith)

  step_u16 :
      (state a b : ℕ) (rest : List ℕ)
      → a < 256
      → b < 256
      → cpu.crc32_u16 state (get_le16 (a ∷ b ∷ rest)) ≡ update_polynomial state (a ∷ b ∷ [])
  step_u16 state a b rest ha hb =
      cpu.steps_u16 state (get_le16 (a ∷ b ∷ rest))
      ∙ word_steps state _ 16 (a ∷ b ∷ []) (ha, (hb, tt)) (omega (arith, get_le16-eq a b rest ha))
          (omega arith)

  step_u32 :
      (state a b c d : ℕ) (rest : List ℕ)
      → All IsByte (a ∷ b ∷ c ∷ d ∷ [])
      → cpu.crc32_u32 state (get_le32 (a ∷ b ∷ c ∷ d ∷ rest))
        ≡ update_polynomial state (a ∷ b ∷ c ∷ d ∷ [])
  step_u32 state a b c d rest hs =
      cpu.steps_u32 state (get_le32 (a ∷ b ∷ c ∷ d ∷ rest))
      ∙ word_steps state _ 32 (a ∷ b ∷ c ∷ d ∷ []) hs
          (omega (arith, get_le32-eq a b c d rest hs.0 hs.1.0 hs.1.1.0)) (omega arith)

  step_u64 :
      (state a b c d e f g h : ℕ) (rest : List ℕ)
      → All IsByte (a ∷ b ∷ c ∷ d ∷ e ∷ f ∷ g ∷ h ∷ [])
      → cpu.crc32_u64 state (get_le64 (a ∷ b ∷ c ∷ d ∷ e ∷ f ∷ g ∷ h ∷ rest))
        ≡ update_polynomial state (a ∷ b ∷ c ∷ d ∷ e ∷ f ∷ g ∷ h ∷ [])
  step_u64 state a b c d e f g h rest (ha, (hb, (hc, (hd, (he, (hf, (hg, (hh, _)))))))) =
      let low = get_le32-eq a b c d (e ∷ f ∷ g ∷ h ∷ rest) ha hb hc in
      cpu.steps_u64 state (get_le64 (a ∷ b ∷ c ∷ d ∷ e ∷ f ∷ g ∷ h ∷ rest))
      ∙ word_steps state _ 64 (a ∷ b ∷ c ∷ d ∷ e ∷ f ∷ g ∷ h ∷ [])
          (ha, (hb, (hc, (hd, (he, (hf, (hg, (hh, tt))))))))
          (omega (arith, low, get_le64-eq a b c d e f g h rest (omega (arith, low)) he hf hg))
          (omega arith)

  tail_u8-poly :
      (state : ℕ) (bytes : List ℕ)
      → All IsByte bytes
      → length bytes < 2
      → tail_u8 cpu state bytes ≡ update_polynomial state bytes
  unfolding tail_u8
  tail_u8-poly state [] hs n = unfold update_polynomial in refl
  tail_u8-poly state (a ∷ []) hs n = step_u8 state a hs.0
  tail_u8-poly state (a ∷ b ∷ rest) hs n = absurd (omega arith)

  tail_u16-poly :
      (state : ℕ) (bytes : List ℕ)
      → All IsByte bytes
      → length bytes < 4
      → tail_u16 cpu state bytes ≡ update_polynomial state bytes
  unfolding tail_u16
  tail_u16-poly state [] hs n = tail_u8-poly state [] hs (omega arith)
  tail_u16-poly state (a ∷ []) hs n = tail_u8-poly state (a ∷ []) hs (omega arith)
  tail_u16-poly state (a ∷ b ∷ rest) (ha, (hb, hs)) n =
      ap (λ s. tail_u8 cpu s rest) (step_u16 state a b rest ha hb)
      ∙ tail_u8-poly (update_polynomial state (a ∷ b ∷ [])) rest hs (omega arith)
      ∙ sym (poly-append state (a ∷ b ∷ []) rest)

  tail_u32-poly :
      (state : ℕ) (bytes : List ℕ)
      → All IsByte bytes
      → length bytes < 8
      → tail_u32 cpu state bytes ≡ update_polynomial state bytes
  unfolding tail_u32
  tail_u32-poly state (a ∷ b ∷ c ∷ d ∷ rest) (ha, (hb, (hc, (hd, hs)))) n =
      ap (λ s. tail_u16 cpu s rest) (step_u32 state a b c d rest (ha, (hb, (hc, (hd, tt)))))
      ∙ tail_u16-poly (update_polynomial state (a ∷ b ∷ c ∷ d ∷ [])) rest hs (omega arith)
      ∙ sym (poly-append state (a ∷ b ∷ c ∷ d ∷ []) rest)
  tail_u32-poly state short hs n = tail_u16-poly state short hs (omega arith)

  pub update_sse42-poly :
      (state : ℕ) (bytes : List ℕ)
      → All IsByte bytes
      → update_sse42 cpu state bytes ≡ update_polynomial state bytes
  unfolding update_sse42
  update_sse42-poly state (a ∷ b ∷ c ∷ d ∷ e ∷ f ∷ g ∷ h ∷ rest)
        (ha, (hb, (hc, (hd, (he, (hf, (hg, (hh, hs)))))))) =
      let word : List ℕ = a ∷ b ∷ c ∷ d ∷ e ∷ f ∷ g ∷ h ∷ [] in
      ap (λ s. update_sse42 cpu s rest)
        (step_u64 state a b c d e f g h rest (ha, (hb, (hc, (hd, (he, (hf, (hg, (hh, tt)))))))))
      ∙ update_sse42-poly (update_polynomial state word) rest hs
      ∙ sym (poly-append state word rest)
  update_sse42-poly state short hs = tail_u32-poly state short hs (omega arith)

  -- Whichever routine the processor check selects, the checksum of a byte sequence is the same.
  pub select_backend-crc32c :
      (available : Bool) (bytes : List ℕ)
      → All IsByte bytes
      → finish (update (select_backend cpu available) begin bytes) ≡ crc32c bytes
  unfolding select_backend crc32c update
  select_backend-crc32c false bytes hs = refl
  select_backend-crc32c true [] hs = refl
  select_backend-crc32c true (b ∷ rest) hs =
      ap finish (
        update_sse42-poly begin (b ∷ rest) hs
        ∙ sym (update_portable-polynomial begin (b ∷ rest) hs))
