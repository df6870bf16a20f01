-- ===== src/Crc.antt =====
-- src/crc32c.c: the CRC32C of a byte sequence, by table and by the SSE4.2 instructions.
pub mod Table
pub mod Laws
pub mod Polynomial
pub mod Sse
pub mod Pieces
use Table.{crc32c_table}
use c_trpc.Base.{
  ℕ, zero, suc, ◌+◌, ◌-◌, ◌/◌, ◌%◌, ◌^◌, ◌≡◌, List, [], ◌∷◌, get_or, bit_and, bit_xor, Bool,
  if◌then◌else◌, ◌==◌,
}

-- The body of the loop of `tr_crc32c_update_portable`.
unfoldable pub crc_byte : ℕ → ℕ → ℕ
crc_byte state b = bit_xor (state / 2 ^ 8) (get_or crc32c_table (bit_and (bit_xor state b) 0xff) 0)

-- `tr_crc32c_update_portable`.
unfoldable pub update_portable : ℕ → List ℕ → ℕ
update_portable state [] = state
update_portable state (b ∷ rest) = update_portable (crc_byte state b) rest

-- `tr_crc32c_begin`.
unfoldable pub begin : ℕ
begin = 0xffffffff

-- `tr_crc32c_update`, with the routine that `tr_crc32c_select_backend` has chosen.
unfoldable pub update : (ℕ → List ℕ → ℕ) → ℕ → List ℕ → ℕ
update backend state [] = state
update backend state (b ∷ rest) = backend state (b ∷ rest)

-- `tr_crc32c_finish`.
unfoldable pub finish : ℕ → ℕ
finish state = bit_xor state 0xffffffff

-- `tr_crc32c` over the portable routine; module Sse has the other.
unfoldable pub crc32c : List ℕ → ℕ
crc32c bytes = finish (update update_portable begin bytes)

-- One step of the reflected polynomial, as the comment on the table writes it.
unfoldable pub crc_step : ℕ → ℕ
crc_step crc = bit_xor (crc / 2) (if crc % 2 == 1 then 0x82f63b78 else 0)

-- A number of such steps; an entry of the table takes eight.
unfoldable pub crc_bits : ℕ → ℕ → ℕ
crc_bits zero crc = crc
crc_bits (suc n) crc = crc_bits n (crc_step crc)
