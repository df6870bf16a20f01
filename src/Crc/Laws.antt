-- ===== src/Crc/Laws.antt =====
-- What the checksum promises: the table is the polynomial's, and a sum is a 32-bit word.
use c_trpc.Base.{
  ℕ, zero, suc, ◌/◌, ◌^◌, ◌<◌, ◌≡◌, refl, List, [], ◌∷◌, ◌++◌, get_or, bit_and, bit_xor, Bool, true,
  ◌&&◌, ◌==◌, ltb, ==_iff, ltb→lt, arith,
}
use c_trpc.Base.Bits.{bit_xor_width, bit_and_ones}
use c_trpc.Crc.Table.{crc32c_table}
use c_trpc.Crc.{crc_byte, update_portable, begin, update, finish, crc32c, crc_step, crc_bits}

-- A test of every number below a bound.
every_below : ℕ → (ℕ → Bool) → Bool
every_below zero p = true
every_below (suc n) p = p n && every_below n p

every_below_at : (n : ℕ) (p : ℕ → Bool) (x : ℕ) → every_below n p ≡ true → x < n → p x ≡ true
unfolding every_below
every_below_at zero p x h lt = absurd (omega arith)
every_below_at (suc n) p x h lt = ground (arith, every_below_at n p x)

table_check : every_below 256 (λ i. get_or crc32c_table i 0 == crc_bits 8 i) ≡ true
unfolding every_below crc32c_table crc_bits crc_step
table_check = refl

-- Entry `i` of the table is what the comment above it says: eight steps of the polynomial from `i`.
pub table_is_polynomial : (i : ℕ) → i < 256 → get_or crc32c_table i 0 ≡ crc_bits 8 i
table_is_polynomial i h = (==_iff _ _).0 (every_below_at 256 _ i table_check h)

table_width_check : every_below 256 (λ i. ltb (get_or crc32c_table i 0) (2 ^ 32)) ≡ true
unfolding every_below crc32c_table
table_width_check = refl

table_width : (i : ℕ) → i < 256 → get_or crc32c_table i 0 < 2 ^ 32
table_width i h = ltb→lt _ _ (every_below_at 256 _ i table_width_check h)

crc_byte_width : (state b : ℕ) → state < 2 ^ 32 → crc_byte state b < 2 ^ 32
unfolding crc_byte
crc_byte_width state b h =
    let i = bit_and (bit_xor state b) 0xff in
    bit_xor_width 32 (state / 2 ^ 8) (get_or crc32c_table i 0) (omega arith)
      (table_width i (omega (arith, bit_and_ones 8 (bit_xor state b))))

pub update_portable_width :
    (state : ℕ) (bytes : List ℕ) → state < 2 ^ 32 → update_portable state bytes < 2 ^ 32
unfolding update_portable
update_portable_width state [] h = h
update_portable_width state (b ∷ rest) h =
    update_portable_width (crc_byte state b) rest (crc_byte_width state b h)

pub update_portable-nil : (state : ℕ) → update_portable state [] ≡ state
unfolding update_portable
update_portable-nil state = refl

-- The portable routine takes a message in two pieces as it takes it whole.
pub update_portable-append :
    (state : ℕ) (xs ys : List ℕ)
    → update_portable state (xs ++ ys) ≡ update_portable (update_portable state xs) ys
unfolding update_portable
update_portable-append state [] ys = refl
update_portable-append state (x ∷ xs) ys = update_portable-append (crc_byte state x) xs ys

pub update-portable_lem :
    (state : ℕ) (bytes : List ℕ) → update update_portable state bytes ≡ update_portable state bytes
unfolding update update_portable
update-portable_lem state [] = refl
update-portable_lem state (b ∷ rest) = refl

-- The checksum of a message is a 32-bit word.
pub crc32c_width : (bytes : List ℕ) → crc32c bytes < 2 ^ 32
unfolding crc32c finish begin
crc32c_width bytes =
    bit_xor_width 32 (update update_portable 0xffffffff bytes) 0xffffffff
      (omega (
        arith,
        update-portable_lem 0xffffffff bytes,
        update_portable_width 0xffffffff bytes (omega arith),
      ))
      (omega arith)
