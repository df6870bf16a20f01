-- ===== src/Base/Bits.antt =====
-- Bitwise operations on words of any width: the laws that the codecs and the checksum need.
pub mod Xor
use Prim.Native.Nat.{
  ℕ, zero, suc, ◌+◌, ◌-◌, ◌*◌, ◌/◌, ◌%◌, ◌^◌, ◌≤◌, ◌<◌, min, max, bit_and, bit_or, bit_xor, digits,
  bitwise, bit_and-bitwise, bit_or-bitwise, bit_xor-bitwise, differ,
}
use mathlib.Core.Path.{◌≡◌, refl, ap}
use native.Mathlib.Nat.{pow-suc, one-le-pow}
use native.Mathlib.Omega.{arith}

-- A digit-wise operation gives the same on any fuel that the number fits.
module _ (rest : ℕ → ℕ) (op : ℕ → ℕ → ℕ) where
  digits_on :
      (fuel other a b : ℕ)
      → a ≤ fuel
      → a ≤ other
      → digits rest op fuel a b ≡ digits rest op other a b
  digits_on zero zero zero b h k = refl
  digits_on zero (suc other) zero b h k = refl
  digits_on (suc fuel) zero zero b h k = refl
  digits_on (suc fuel) (suc other) zero b h k = refl
  digits_on zero other (suc a) b h k = absurd (omega arith)
  digits_on (suc fuel) zero (suc a) b h k = absurd (omega arith)
  digits_on (suc fuel) (suc other) (suc a) b h k =
      ap (λ t. t * 2 + op (suc a % 2) (b % 2))
        (digits_on fuel other (suc a / 2) (b / 2) (omega arith) (omega arith))

  -- So the lowest digit can be split off.
  bitwise_low :
      (a b : ℕ)
      → bitwise rest op (suc a) b ≡ bitwise rest op (suc a / 2) (b / 2) * 2 + op (suc a % 2) (b % 2)
  bitwise_low a b =
      ap (λ t. t * 2 + op (suc a % 2) (b % 2))
        (digits_on a (suc a / 2) (suc a / 2) (b / 2) (omega arith) (omega arith))

bit_or_low : (a b : ℕ) → bit_or a b ≡ bit_or (a / 2) (b / 2) * 2 + max (a % 2) (b % 2)
bit_or_low zero b = rw (bit_or-bitwise, bit_or-bitwise) (omega arith)
bit_or_low (suc a) b = simp bit_or-bitwise (bitwise_low _ max a b)

pub bit_and_low : (a b : ℕ) → bit_and a b ≡ bit_and (a / 2) (b / 2) * 2 + min (a % 2) (b % 2)
bit_and_low zero b = rw (bit_and-bitwise, bit_and-bitwise) (omega arith)
bit_and_low (suc a) b = simp bit_and-bitwise (bitwise_low _ min a b)

pub bit_xor_low : (a b : ℕ) → bit_xor a b ≡ bit_xor (a / 2) (b / 2) * 2 + differ (a % 2) (b % 2)
bit_xor_low zero b = omega (arith, bit_xor-bitwise 0 b, bit_xor-bitwise 0 (b / 2))
bit_xor_low (suc a) b = simp bit_xor-bitwise (bitwise_low _ differ a b)

pub differ_bit : (a b : ℕ) → a < 2 → b < 2 → differ a b < 2
differ_bit zero b h g = g
differ_bit (suc zero) zero h g = omega arith
differ_bit (suc zero) (suc zero) h g = omega arith
differ_bit (suc zero) (suc (suc b)) h g = absurd (omega arith)
differ_bit (suc (suc a)) b h g = absurd (omega arith)

bit_and-zero : (fuel a : ℕ) → a ≤ fuel → bit_and a 0 ≡ 0
bit_and-zero fuel zero h = bit_and-bitwise 0 0
bit_and-zero zero (suc a) h = absurd (omega arith)
bit_and-zero (suc fuel) (suc a) h =
    omega (arith, bit_and_low (suc a) 0, bit_and-zero fuel (suc a / 2) (omega arith))

-- `lo | (hi << k)` is a sum when `lo` fits below bit `k`.
pub bit_or_shifted : (k lo hi : ℕ) → lo < 2 ^ k → bit_or lo (hi * 2 ^ k) ≡ lo + hi * 2 ^ k
bit_or_shifted zero zero hi h = omega (arith, bit_or-bitwise 0 (hi * 1))
bit_or_shifted zero (suc lo) hi h = absurd (omega arith)
bit_or_shifted (suc k) lo hi h = ground (
  arith,
  bit_or_low lo (hi * 2 ^ suc k),
  ap (λ (t : ℕ). hi * t) (pow-suc 2 k),
  pow-suc 2 k,
  bit_or_shifted k (lo / 2) hi,
)

-- A bitwise difference stays within the width of its operands.
pub bit_xor_width : (k a b : ℕ) → a < 2 ^ k → b < 2 ^ k → bit_xor a b < 2 ^ k
bit_xor_width zero zero zero h g = omega arith
bit_xor_width zero (suc a) b h g = absurd (omega arith)
bit_xor_width zero zero (suc b) h g = absurd (omega arith)
bit_xor_width (suc k) a b h g = ground (
  arith,
  bit_xor_low a b,
  pow-suc 2 k,
  bit_xor_width k (a / 2) (b / 2),
  differ_bit (a % 2) (b % 2),
)

-- The ones below bit `k` keep the low part of a word and drop the rest.
bit_and_low_part : (k hi lo : ℕ) → lo < 2 ^ k → bit_and (lo + hi * 2 ^ k) (2 ^ k - 1) ≡ lo
bit_and_low_part zero hi lo h = omega (arith, bit_and-zero (lo + hi) (lo + hi * 1) (omega arith))
bit_and_low_part (suc k) hi lo h = ground (
  arith,
  bit_and_low (lo + hi * 2 ^ suc k) (2 ^ suc k - 1),
  ap (λ (t : ℕ). hi * t) (pow-suc 2 k),
  pow-suc 2 k,
  one-le-pow k 2,
  bit_and_low_part k hi (lo / 2),
)

-- A mask of `k` low bits is the remainder by `2 ^ k`.
pub bit_and_ones : (k a : ℕ) → bit_and a (2 ^ k - 1) ≡ a % 2 ^ k
bit_and_ones k a = ground (arith, one-le-pow k 2, bit_and_low_part k (a / 2 ^ k) (a % 2 ^ k))
