-- ===== src/Endian/RoundTrip.antt =====
-- A word that is written at a place of a buffer is read back there.
use c_trpc.Base.{
  ℕ, zero, suc, ◌+◌, ◌*◌, ◌/◌, ◌%◌, ◌^◌, ◌≤◌, ◌<◌, ◌≡◌, List, [], ◌∷◌, length, drop, arith,
}
use native.Mathlib.Numerals.{towards_suc}
use c_trpc.Base.Bits.{bit_or_shifted}
use c_trpc.Endian.{byte_of, get_le16, get_le32, get_le64, put_le16, put_le32, put_le64}

-- The word that two bytes spell.
pub get_le16-eq : (a b : ℕ) (rest : List ℕ) → a < 256 → get_le16 (a ∷ b ∷ rest) ≡ a + b * 2 ^ 8
unfolding get_le16
get_le16-eq a b rest h = bit_or_shifted 8 a b h

pub get_le16-bytes :
    (v : ℕ) (rest : List ℕ) → v < 2 ^ 16 → get_le16 (v % 256 ∷ byte_of v 8 ∷ rest) ≡ v
unfolding get_le16
get_le16-bytes v rest h = omega (arith, bit_or_shifted 8 (v % 256) (byte_of v 8) (omega arith))

-- The word that four bytes spell.
pub get_le32-eq :
    (a b c d : ℕ) (rest : List ℕ)
    → a < 256
    → b < 256
    → c < 256
    → get_le32 (a ∷ b ∷ c ∷ d ∷ rest) ≡ a + b * 2 ^ 8 + c * 2 ^ 16 + d * 2 ^ 24
unfolding get_le32
get_le32-eq a b c d rest ha hb hc = ground (
  arith,
  bit_or_shifted 8 a b,
  bit_or_shifted 16 (a + b * 2 ^ 8) c,
  bit_or_shifted 24 (a + b * 2 ^ 8 + c * 2 ^ 16) d,
)

pub get_le32-bytes :
    (v : ℕ) (rest : List ℕ)
    → get_le32 (v % 256 ∷ byte_of v 8 ∷ byte_of v 16 ∷ byte_of v 24 ∷ rest) ≡ v % 2 ^ 32
get_le32-bytes v rest = omega (
  arith,
  get_le32-eq (v % 256) (byte_of v 8) (byte_of v 16) (byte_of v 24) rest (omega arith) (omega arith)
      (omega arith),
)

pub get_le32-word :
    (v : ℕ) (rest : List ℕ)
    → v < 2 ^ 32
    → get_le32 (v % 256 ∷ byte_of v 8 ∷ byte_of v 16 ∷ byte_of v 24 ∷ rest) ≡ v
get_le32-word v rest h = omega (arith, get_le32-bytes v rest)

high_half : (v : ℕ) → v < 2 ^ 64 → v ≡ v % 2 ^ 32 + v / 2 ^ 32 * 2 ^ 32
high_half v h = omega arith

high_bytes :
    (w : ℕ)
    → w < 2 ^ 32
    → w ≡ w % 256 + byte_of w 8 * 2 ^ 8 + byte_of w 16 * 2 ^ 16 + byte_of w 24 * 2 ^ 24
high_bytes w h = omega arith

byte_of_high : (v : ℕ) → record {
  fourth : byte_of v 32 ≡ v / 2 ^ 32 % 256;
  fifth : byte_of v 40 ≡ byte_of (v / 2 ^ 32) 8;
  sixth : byte_of v 48 ≡ byte_of (v / 2 ^ 32) 16;
  seventh : byte_of v 56 ≡ byte_of (v / 2 ^ 32) 24;
}
byte_of_high v = omega arith

pub get_le64-eq :
    (a b c d e f g h : ℕ) (rest : List ℕ)
    → let lo = get_le32 (a ∷ b ∷ c ∷ d ∷ e ∷ f ∷ g ∷ h ∷ rest) in
      lo < 2 ^ 32
      → e < 256
      → f < 256
      → g < 256
      → get_le64 (a ∷ b ∷ c ∷ d ∷ e ∷ f ∷ g ∷ h ∷ rest)
        ≡ lo + e * 2 ^ 32 + f * 2 ^ 40 + g * 2 ^ 48 + h * 2 ^ 56
unfolding get_le64
get_le64-eq a b c d e f g h rest hl he hf hg =
    let lo = get_le32 (a ∷ b ∷ c ∷ d ∷ e ∷ f ∷ g ∷ h ∷ rest) in
    ground (
      arith,
      bit_or_shifted 32 lo e,
      bit_or_shifted 40 (lo + e * 2 ^ 32) f,
      bit_or_shifted 48 (lo + e * 2 ^ 32 + f * 2 ^ 40) g,
      bit_or_shifted 56 (lo + e * 2 ^ 32 + f * 2 ^ 40 + g * 2 ^ 48) h,
    )

pub get_le64-bytes :
    (v : ℕ) (rest : List ℕ)
    → v < 2 ^ 64
    → get_le64 (
        v % 256
        ∷ byte_of v 8
        ∷ byte_of v 16
        ∷ byte_of v 24
        ∷ byte_of v 32
        ∷ byte_of v 40
        ∷ byte_of v 48
        ∷ byte_of v 56
        ∷ rest)
      ≡ v
get_le64-bytes v rest h = omega (
  arith,
  get_le64-eq (v % 256) (byte_of v 8) (byte_of v 16) (byte_of v 24) (byte_of v 32) (byte_of v 40)
      (byte_of v 48) (byte_of v 56) rest
      (omega (
        arith,
        get_le32-bytes v (byte_of v 32 ∷ byte_of v 40 ∷ byte_of v 48 ∷ byte_of v 56 ∷ rest),
      ))
      (omega arith) (omega arith) (omega arith),
  get_le32-bytes v (byte_of v 32 ∷ byte_of v 40 ∷ byte_of v 48 ∷ byte_of v 56 ∷ rest),
  high_half v h,
  high_bytes (v / 2 ^ 32) (omega arith),
  byte_of_high v,
)

-- A word stored past the first byte of a buffer leaves that byte and is stored in the rest.
module _ (x : ℕ) (p : List ℕ) (off v : ℕ) where
  put_le16-cons : put_le16 (x ∷ p) (suc off) v ≡ x ∷ put_le16 p off v
  unfolding put_le16
  put_le16-cons = simp towards_suc

  put_le32-cons : put_le32 (x ∷ p) (suc off) v ≡ x ∷ put_le32 p off v
  unfolding put_le32
  put_le32-cons = simp towards_suc

  put_le64-cons : put_le64 (x ∷ p) (suc off) v ≡ x ∷ put_le64 p off v
  unfolding put_le64 put_le32
  put_le64-cons = simp towards_suc

-- A 16-bit word written within a buffer is read back at its offset.
pub get_le16-put_le16 :
    (p : List ℕ) (off v : ℕ)
    → off + 2 ≤ length p
    → v < 2 ^ 16
    → get_le16 (drop off (put_le16 p off v)) ≡ v
unfolding put_le16
get_le16-put_le16 [] zero v h k = absurd (omega arith)
get_le16-put_le16 (a ∷ []) zero v h k = absurd (omega arith)
get_le16-put_le16 (a ∷ b ∷ p) zero v h k = get_le16-bytes v p k
get_le16-put_le16 [] (suc off) v h k = absurd (omega arith)
get_le16-put_le16 (x ∷ p) (suc off) v h k =
    rw put_le16-cons (get_le16-put_le16 p off v (omega arith) k)

-- A 32-bit word written within a buffer is read back at its offset.
pub get_le32-put_le32 :
    (p : List ℕ) (off v : ℕ)
    → off + 4 ≤ length p
    → v < 2 ^ 32
    → get_le32 (drop off (put_le32 p off v)) ≡ v
unfolding put_le32
get_le32-put_le32 [] zero v h k = absurd (omega arith)
get_le32-put_le32 (a ∷ []) zero v h k = absurd (omega arith)
get_le32-put_le32 (a ∷ b ∷ []) zero v h k = absurd (omega arith)
get_le32-put_le32 (a ∷ b ∷ c ∷ []) zero v h k = absurd (omega arith)
get_le32-put_le32 (a ∷ b ∷ c ∷ d ∷ p) zero v h k = omega (arith, get_le32-bytes v p)
get_le32-put_le32 [] (suc off) v h k = absurd (omega arith)
get_le32-put_le32 (x ∷ p) (suc off) v h k =
    rw put_le32-cons (get_le32-put_le32 p off v (omega arith) k)

-- A word of 64 bits written at an offset within a buffer is read back there.
pub get_le64-put_le64 :
    (p : List ℕ) (off v : ℕ)
    → off + 8 ≤ length p
    → v < 2 ^ 64
    → get_le64 (drop off (put_le64 p off v)) ≡ v
unfolding put_le64 put_le32
get_le64-put_le64 [] zero v h k = absurd (omega arith)
get_le64-put_le64 (a ∷ []) zero v h k = absurd (omega arith)
get_le64-put_le64 (a ∷ b ∷ []) zero v h k = absurd (omega arith)
get_le64-put_le64 (a ∷ b ∷ c ∷ []) zero v h k = absurd (omega arith)
get_le64-put_le64 (a ∷ b ∷ c ∷ d ∷ []) zero v h k = absurd (omega arith)
get_le64-put_le64 (a ∷ b ∷ c ∷ d ∷ e ∷ []) zero v h k = absurd (omega arith)
get_le64-put_le64 (a ∷ b ∷ c ∷ d ∷ e ∷ f ∷ []) zero v h k = absurd (omega arith)
get_le64-put_le64 (a ∷ b ∷ c ∷ d ∷ e ∷ f ∷ g ∷ []) zero v h k = absurd (omega arith)
get_le64-put_le64 (a ∷ b ∷ c ∷ d ∷ e ∷ f ∷ g ∷ h ∷ p) zero v le k = get_le64-bytes v p k
get_le64-put_le64 [] (suc off) v h k = absurd (omega arith)
get_le64-put_le64 (x ∷ p) (suc off) v h k =
    rw put_le64-cons (get_le64-put_le64 p off v (omega arith) k)
