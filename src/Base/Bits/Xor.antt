-- ===== src/Base/Bits/Xor.antt =====
-- The exclusive or of words as a group in which every word is its own inverse.
use Prim.Native.Nat.{ℕ, zero, suc, ◌+◌, ◌*◌, ◌/◌, ◌%◌, ◌^◌, ◌≤◌, ◌<◌, bit_xor, differ}
use mathlib.Core.Path.{◌≡◌, refl, ap, sym, ◌∙◌}
use native.Mathlib.Nat.{pow-suc, div-div-eq-div-mul, mul_comm}
use native.Mathlib.Omega.{arith}
use c_trpc.Base.Bits.{bit_xor_low}

differ_comm : (a b : ℕ) → a < 2 → b < 2 → differ a b ≡ differ b a
differ_comm zero zero h g = refl
differ_comm zero (suc zero) h g = refl
differ_comm (suc zero) zero h g = refl
differ_comm (suc zero) (suc zero) h g = refl
differ_comm (suc (suc a)) b h g = absurd (omega arith)
differ_comm zero (suc (suc b)) h g = absurd (omega arith)
differ_comm (suc zero) (suc (suc b)) h g = absurd (omega arith)

-- On binary digits the difference is the sum without its carry.
differ_digits : (a b : ℕ) → a < 2 → b < 2 → differ a b ≡ (a + b) % 2
differ_digits zero zero h g = refl
differ_digits zero (suc zero) h g = refl
differ_digits (suc zero) zero h g = refl
differ_digits (suc zero) (suc zero) h g = refl
differ_digits (suc (suc a)) b h g = absurd (omega arith)
differ_digits zero (suc (suc b)) h g = absurd (omega arith)
differ_digits (suc zero) (suc (suc b)) h g = absurd (omega arith)

-- So a word splits into its lowest digit and the rest.
pub bit_xor_split :
    (a b : ℕ) → (bit_xor a b / 2 ≡ bit_xor (a / 2) (b / 2)) × (bit_xor a b % 2 ≡ (a + b) % 2)
bit_xor_split a b =
    omega (arith, bit_xor_low a b, differ_digits (a % 2) (b % 2) (omega arith) (omega arith))

-- Words with the same lowest digit and the same rest are equal.
eq_of_split : (a b : ℕ) → a / 2 ≡ b / 2 → a % 2 ≡ b % 2 → a ≡ b
eq_of_split a b h g = omega arith

bit_xor_zero_fuel : (fuel a : ℕ) → a ≤ fuel → (bit_xor a 0 ≡ a) × (bit_xor a a ≡ 0)
bit_xor_zero_fuel fuel zero h = (refl, refl)
bit_xor_zero_fuel zero (suc a) h = absurd (omega arith)
bit_xor_zero_fuel (suc fuel) (suc a) h = omega (
  arith,
  bit_xor_split (suc a) 0,
  bit_xor_split (suc a) (suc a),
  bit_xor_zero_fuel fuel (suc a / 2) (omega arith),
)

pub bit_xor-zero : (a : ℕ) → bit_xor a 0 ≡ a
bit_xor-zero a = (bit_xor_zero_fuel a a (omega arith)).0

pub bit_xor_self : (a : ℕ) → bit_xor a a ≡ 0
bit_xor_self a = (bit_xor_zero_fuel a a (omega arith)).1

comm_fuel : (fuel a b : ℕ) → a ≤ fuel → b ≤ fuel → bit_xor a b ≡ bit_xor b a
comm_fuel zero zero zero h g = refl
comm_fuel zero zero (suc b) h g = absurd (omega arith)
comm_fuel zero (suc a) b h g = absurd (omega arith)
comm_fuel (suc fuel) a b h g = omega (
  arith,
  bit_xor_split a b,
  bit_xor_split b a,
  comm_fuel fuel (a / 2) (b / 2) (omega arith) (omega arith),
)

pub bit_xor_comm : (a b : ℕ) → bit_xor a b ≡ bit_xor b a
bit_xor_comm a b = comm_fuel (a + b) a b (omega arith) (omega arith)

assoc_fuel :
    (fuel a b c : ℕ)
    → a ≤ fuel
    → b ≤ fuel
    → c ≤ fuel
    → bit_xor (bit_xor a b) c ≡ bit_xor a (bit_xor b c)
assoc_fuel zero zero zero zero h g k = refl
assoc_fuel zero zero zero (suc c) h g k = absurd (omega arith)
assoc_fuel zero zero (suc b) c h g k = absurd (omega arith)
assoc_fuel zero (suc a) b c h g k = absurd (omega arith)
assoc_fuel (suc fuel) a b c h g k = ground (
  arith,
  bit_xor_split a b,
  bit_xor_split b c,
  bit_xor_split (bit_xor a b) c,
  bit_xor_split a (bit_xor b c),
  assoc_fuel fuel (a / 2) (b / 2) (c / 2),
)

pub bit_xor_assoc : (a b c : ℕ) → bit_xor (bit_xor a b) c ≡ bit_xor a (bit_xor b c)
bit_xor_assoc a b c = assoc_fuel (a + b + c) a b c (omega arith) (omega arith) (omega arith)

-- Disjoint fields differ everywhere: their exclusive or is their sum.
pub bit_xor_shifted : (k lo hi : ℕ) → lo < 2 ^ k → bit_xor lo (hi * 2 ^ k) ≡ lo + hi * 2 ^ k
bit_xor_shifted zero zero hi h = omega (arith, bit_xor_comm 0 (hi * 1), bit_xor-zero (hi * 1))
bit_xor_shifted zero (suc lo) hi h = absurd (omega arith)
bit_xor_shifted (suc k) lo hi h = ground (
  arith,
  bit_xor_split lo (hi * 2 ^ suc k),
  ap (λ (t : ℕ). hi * t) (pow-suc 2 k),
  pow-suc 2 k,
  bit_xor_shifted k (lo / 2) hi,
)

-- Four words in two pairs may be paired the other way.
pub bit_xor_middle :
    (a b c d : ℕ) → bit_xor (bit_xor a b) (bit_xor c d) ≡ bit_xor (bit_xor a c) (bit_xor b d)
bit_xor_middle a b c d = cc (
  bit_xor_assoc a b (bit_xor c d),
  bit_xor_assoc a c (bit_xor b d),
  bit_xor_assoc b c d,
  bit_xor_assoc c b d,
  bit_xor_comm b c,
)

halve_first : (x k : ℕ) → x / 2 ^ suc k ≡ x / 2 / 2 ^ k
halve_first x k =
    sym (rw pow-suc (div-div-eq-div-mul x 2 (2 ^ k) ∙ ap (λ t. x / t) (mul_comm 2 (2 ^ k))))

-- A word that fits below bit `k` does not reach what stands above it.
pub bit_xor_high : (k a b : ℕ) → b < 2 ^ k → bit_xor a b / 2 ^ k ≡ a / 2 ^ k
bit_xor_high zero a zero h = omega (arith, bit_xor-zero a)
bit_xor_high zero a (suc b) h = absurd (omega arith)
bit_xor_high (suc k) a b h = ground (
  arith,
  halve_first (bit_xor a b) k,
  halve_first a k,
  bit_xor_split a b,
  pow-suc 2 k,
  bit_xor_high k (a / 2) (b / 2),
)
