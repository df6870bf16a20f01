-- ===== src/Crc/Polynomial.antt =====
-- The table-driven routine computes the remainder by the polynomial, bit by bit.
use c_trpc.Base.{
  ℕ, zero, suc, ◌+◌, ◌*◌, ◌/◌, ◌%◌, ◌^◌, ◌<◌, ◌≡◌, refl, sym, ap, ◌∙◌, List, [], ◌∷◌, All, length,
  get_or, bit_and, bit_xor, ◌==◌, if◌then◌else◌, Bool-cases, inl, inr, arith,
}
use native.Mathlib.Nat.{pow-suc}
use c_trpc.Base.Bits.{bit_and_ones}
use c_trpc.Base.Bits.Xor.{
  bit_xor-zero, bit_xor_self, bit_xor_comm, bit_xor_assoc, bit_xor_split, bit_xor_shifted,
  bit_xor_middle, bit_xor_high,
}
use c_trpc.Crc.Table.{crc32c_table}
use c_trpc.Crc.Laws.{table_is_polynomial}
use c_trpc.Crc.{crc_byte, update_portable, crc_step, crc_bits}

-- What one step subtracts: the polynomial, if the digit shifted out is one.
abbrev feedback : ℕ → ℕ
feedback d = if d == 1 then 0x82f63b78 else 0

feedback_add : (a b : ℕ) → feedback ((a + b) % 2) ≡ bit_xor (feedback (a % 2)) (feedback (b % 2))
feedback_add a b = elim (Bool-cases (a % 2 == 1)) [
  | inl p ↦ elim (Bool-cases (b % 2 == 1)) [
    | inl q ↦ ground (arith, bit_xor_self 0x82f63b78)
    | inr q ↦ ground (arith, bit_xor-zero 0x82f63b78)
  ]
  | inr p ↦ elim (Bool-cases (b % 2 == 1)) [ inl q ↦ ground arith | inr q ↦ ground arith ]
]

-- A step, and so any number of steps, respects the exclusive or.
crc_step-bit_xor : (a b : ℕ) → crc_step (bit_xor a b) ≡ bit_xor (crc_step a) (crc_step b)
unfolding crc_step
crc_step-bit_xor a b =
    let (high, low) = bit_xor_split a b in
    rw (high, low)
      (ap (bit_xor (bit_xor (a / 2) (b / 2))) (feedback_add a b)
        ∙ bit_xor_middle (a / 2) (b / 2) (feedback (a % 2)) (feedback (b % 2)))

crc_bits-bit_xor : (n a b : ℕ) → crc_bits n (bit_xor a b) ≡ bit_xor (crc_bits n a) (crc_bits n b)
unfolding crc_bits
crc_bits-bit_xor zero a b = refl
crc_bits-bit_xor (suc n) a b = rw crc_step-bit_xor (crc_bits-bit_xor n (crc_step a) (crc_step b))

crc_step_double : (q : ℕ) → crc_step (2 * q) ≡ q
unfolding crc_step
crc_step_double q = ground (arith, bit_xor-zero (2 * q / 2))

crc_bits-shifted : (n q : ℕ) → crc_bits n (q * 2 ^ n) ≡ q
unfolding crc_bits
crc_bits-shifted zero q = omega arith
crc_bits-shifted (suc n) q =
    ap (λ t. crc_bits n (crc_step t)) (omega (arith, ap (λ (t : ℕ). q * t) (pow-suc 2 n)))
    ∙ ap (crc_bits n) (crc_step_double (q * 2 ^ n))
    ∙ crc_bits-shifted n q

-- After `n` steps, what stood above bit `n` has moved down unchanged.
crc_bits_split :
    (n lo hi : ℕ) → lo < 2 ^ n → crc_bits n (lo + hi * 2 ^ n) ≡ bit_xor (crc_bits n lo) hi
crc_bits_split n lo hi h =
    ap (crc_bits n) (sym (bit_xor_shifted n lo hi h))
    ∙ crc_bits-bit_xor n lo (hi * 2 ^ n)
    ∙ ap (bit_xor (crc_bits n lo)) (crc_bits-shifted n hi)

-- The lookup of a byte's entry does the work of eight steps.
crc_byte_lem : (state b : ℕ) → b < 256 → crc_byte state b ≡ crc_bits 8 (bit_xor state b)
unfolding crc_byte
crc_byte_lem state b h =
    let x = bit_xor state b in
    bit_xor_comm (state / 2 ^ 8) (get_or crc32c_table (bit_and x 0xff) 0)
    ∙ rw (bit_and_ones 8 x, table_is_polynomial (x % 256) (omega arith))
        (ap (bit_xor (crc_bits 8 (x % 256))) (sym (bit_xor_high 8 state b h))
          ∙ sym (crc_bits_split 8 (x % 256) (x / 256) (omega arith))
          ∙ ap (crc_bits 8) (omega arith))

-- The checksum register by definition: for each byte, eight steps of the polynomial.
unfoldable pub update_polynomial : ℕ → List ℕ → ℕ
update_polynomial state [] = state
update_polynomial state (b ∷ rest) = update_polynomial (crc_bits 8 (bit_xor state b)) rest

abbrev pub IsByte : ℕ → Type 0
IsByte b = b < 256

-- On bytes the portable routine is the division by the polynomial, from any state of the register.
pub update_portable-polynomial :
    (state : ℕ) (bytes : List ℕ)
    → All IsByte bytes
    → update_portable state bytes ≡ update_polynomial state bytes
unfolding update_portable update_polynomial
update_portable-polynomial state [] h = refl
update_portable-polynomial state (b ∷ rest) (h, hs) =
    rw (crc_byte_lem state b h) (update_portable-polynomial (crc_bits 8 (bit_xor state b)) rest hs)

crc_bits-zero : (x : ℕ) → crc_bits 0 x ≡ x
unfolding crc_bits
crc_bits-zero x = refl

crc_bits-suc : (n x : ℕ) → crc_bits (suc n) x ≡ crc_bits n (crc_step x)
unfolding crc_bits
crc_bits-suc n x = refl

crc_bits-add : (m n x : ℕ) → crc_bits (m + n) x ≡ crc_bits n (crc_bits m x)
crc_bits-add zero n x = rw (crc_bits-zero x) (ap (λ k. crc_bits k x) (omega arith))
crc_bits-add (suc m) n x =
    ap (λ k. crc_bits k x) (let e : suc m + n ≡ suc (m + n) = omega arith in e)
    ∙ crc_bits-suc (m + n) x
    ∙ crc_bits-add m n (crc_step x)
    ∙ ap (crc_bits n) (sym (crc_bits-suc m x))

-- The number that bytes spell, the lowest first.
abbrev pub le_value : List ℕ → ℕ
le_value [] = 0
le_value (b ∷ rest) = b + le_value rest * 256

bit_xor_word :
    (state b w : ℕ)
    → b < 256
    → crc_bits 8 (bit_xor state (b + w * 256)) ≡ bit_xor (crc_bits 8 (bit_xor state b)) w
bit_xor_word state b w h =
    ap (λ t. crc_bits 8 (bit_xor state t)) (sym (bit_xor_shifted 8 b w h))
    ∙ ap (crc_bits 8) (sym (bit_xor_assoc state b (w * 256)))
    ∙ crc_bits-bit_xor 8 (bit_xor state b) (w * 256)
    ∙ ap (bit_xor (crc_bits 8 (bit_xor state b))) (crc_bits-shifted 8 w)

-- A whole word at once: as many steps as it has bits.
pub crc_bits_word :
    (state : ℕ) (bytes : List ℕ)
    → All IsByte bytes
    → crc_bits (8 * length bytes) (bit_xor state (le_value bytes)) ≡ update_polynomial state bytes
unfolding update_polynomial
crc_bits_word state [] h = crc_bits-zero (bit_xor state 0) ∙ bit_xor-zero state
crc_bits_word state (b ∷ rest) (h, hs) =
    ap (λ k. crc_bits k (bit_xor state (b + le_value rest * 256)))
      (let e : 8 * suc (length rest) ≡ 8 + 8 * length rest = omega arith in e)
    ∙ crc_bits-add 8 (8 * length rest) (bit_xor state (b + le_value rest * 256))
    ∙ ap (crc_bits (8 * length rest)) (bit_xor_word state b (le_value rest) h)
    ∙ crc_bits_word (crc_bits 8 (bit_xor state b)) rest hs
