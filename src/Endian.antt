-- ===== src/Endian.antt =====
-- src/endian.h: little-endian words at a place of a byte buffer.
-- A pointer into a buffer is the buffer from that place on (`drop`), a write names its offset.
pub mod RoundTrip
use c_trpc.Base.{ℕ, ◌+◌, ◌*◌, ◌/◌, ◌%◌, ◌^◌, List, get_or, set, bit_or}

-- `p[i]` of `const uint8_t *p`.
abbrev pub byte_at : List ℕ → ℕ → ℕ
byte_at p i = get_or p i 0

-- `(uint8_t)(v >> k)`.
abbrev pub byte_of : ℕ → ℕ → ℕ
byte_of v k = v / 2 ^ k % 256

unfoldable pub get_le16 : List ℕ → ℕ
get_le16 p = bit_or (byte_at p 0) (byte_at p 1 * 2 ^ 8)

unfoldable pub get_le32 : List ℕ → ℕ
get_le32 p =
    bit_or (bit_or (bit_or (byte_at p 0) (byte_at p 1 * 2 ^ 8)) (byte_at p 2 * 2 ^ 16))
      (byte_at p 3 * 2 ^ 24)

unfoldable pub get_le64 : List ℕ → ℕ
get_le64 p =
    bit_or
      (bit_or (bit_or (bit_or (get_le32 p) (byte_at p 4 * 2 ^ 32)) (byte_at p 5 * 2 ^ 40))
        (byte_at p 6 * 2 ^ 48))
      (byte_at p 7 * 2 ^ 56)

unfoldable pub put_le16 : List ℕ → ℕ → ℕ → List ℕ
put_le16 p off v = set (set p off (v % 256)) (off + 1) (byte_of v 8)

unfoldable pub put_le32 : List ℕ → ℕ → ℕ → List ℕ
put_le32 p off v =
    set (set (set (set p off (v % 256)) (off + 1) (byte_of v 8)) (off + 2) (byte_of v 16)) (off + 3)
      (byte_of v 24)

unfoldable pub put_le64 : List ℕ → ℕ → ℕ → List ℕ
put_le64 p off v =
    set
      (set (set (set (put_le32 p off v) (off + 4) (byte_of v 32)) (off + 5) (byte_of v 40))
        (off + 6) (byte_of v 48))
      (off + 7) (byte_of v 56)
