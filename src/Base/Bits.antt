-- ===== src/Base/Bits.antt =====
-- Masks and disjoint fields as arithmetic: what `&` with a block of ones and `|` of fields that do
-- not overlap compute to, at every width.
use Prim.Native.Nat.{
  ℕ, zero, suc, ◌+◌, ◌-◌, ◌*◌, ◌/◌, ◌%◌, ◌^◌, ◌≤◌, ◌<◌, min, max, digits, bitwise, bit_and, bit_or,
  bit_and-bitwise, bit_or-bitwise,
}
use mathlib.Core.Path.{◌≡◌, refl, ap}
use native.Mathlib.Nat.{pow-suc, one-le-pow}
use native.Mathlib.Omega.{arith}

-- Any fuel that reaches the first operand gives the same digits.
module _ (z : ℕ → ℕ) (f : ℕ → ℕ → ℕ) where
  enough_digits : (a m n b : ℕ) → a ≤ m → a ≤ n → digits z f m a b ≡ digits z f n a b
  enough_digits zero zero zero b p q = refl
  enough_digits zero zero (suc n) b p q = refl
  enough_digits zero (suc m) zero b p q = refl
  enough_digits zero (suc m) (suc n) b p q = refl
  enough_digits (suc a) zero n b p q = absurd (omega arith)
  enough_digits (suc a) (suc m) zero b p q = absurd (omega arith)
  enough_digits (suc a) (suc m) (suc n) b p q =
      ap (λ (d : ℕ). d * 2 + f (suc a % 2) (b % 2))
        (enough_digits (suc a / 2) m n (b / 2) (omega arith) (omega arith))

  lowest_digit :
      (a b : ℕ)
      → bitwise z f (suc a) b ≡ bitwise z f (suc a / 2) (b / 2) * 2 + f (suc a % 2) (b % 2)
  lowest_digit a b =
      ap (λ (d : ℕ). d * 2 + f (suc a % 2) (b % 2))
        (enough_digits (suc a / 2) a (suc a / 2) (b / 2) (omega arith) (omega arith))

bit_or_lowest : (a b : ℕ) → bit_or a b ≡ bit_or (a / 2) (b / 2) * 2 + max (a % 2) (b % 2)
bit_or_lowest zero b = omega (arith, bit_or-bitwise 0 b, bit_or-bitwise 0 (b / 2))
bit_or_lowest (suc a) b = omega (
  arith,
  bit_or-bitwise (suc a) b,
  bit_or-bitwise (suc a / 2) (b / 2),
  lowest_digit (λ y. y) max a b,
)

bit_and_lowest : (a b : ℕ) → bit_and a b ≡ bit_and (a / 2) (b / 2) * 2 + min (a % 2) (b % 2)
bit_and_lowest zero b = omega (arith, bit_and-bitwise 0 b, bit_and-bitwise 0 (b / 2))
bit_and_lowest (suc a) b = omega (
  arith,
  bit_and-bitwise (suc a) b,
  bit_and-bitwise (suc a / 2) (b / 2),
  lowest_digit (λ y. 0) min a b,
)

bit_or_nothing : (n a : ℕ) → a ≤ n → bit_or a 0 ≡ a
bit_or_nothing n zero h = refl
bit_or_nothing zero (suc a) h = absurd (omega arith)
bit_or_nothing (suc n) (suc a) h =
    omega (arith, bit_or_lowest (suc a) 0, bit_or_nothing n (suc a / 2) (omega arith))

bit_and_nothing : (n a : ℕ) → a ≤ n → bit_and a 0 ≡ 0
bit_and_nothing n zero h = refl
bit_and_nothing zero (suc a) h = absurd (omega arith)
bit_and_nothing (suc n) (suc a) h =
    omega (arith, bit_and_lowest (suc a) 0, bit_and_nothing n (suc a / 2) (omega arith))

doubled_pow : (q k : ℕ) → q * 2 ^ suc k ≡ 2 * (q * 2 ^ k)
doubled_pow q k = omega (arith, ap (λ (t : ℕ). q * t) (pow-suc 2 k))

-- `(q << k) | r`, where `r` has at most `k` digits.
pub or_disjoint : (k q r : ℕ) → r < 2 ^ k → bit_or (q * 2 ^ k) r ≡ q * 2 ^ k + r
or_disjoint zero q r h = ground (arith, bit_or_nothing q q)
or_disjoint (suc k) q r h =
    ground (
      arith,
      doubled_pow q k,
      bit_or_lowest (q * 2 ^ suc k) r,
      or_disjoint k q (r / 2) (omega arith),
    )

and_low_split : (k q r : ℕ) → r < 2 ^ k → bit_and (q * 2 ^ k + r) (2 ^ k - 1) ≡ r
and_low_split zero q r h = ground (arith, bit_and_nothing (q * 2 ^ 0 + r) (q * 2 ^ 0 + r))
and_low_split (suc k) q r h = ground (
  arith,
  doubled_pow q k,
  pow-suc 2 k,
  bit_and_lowest (q * 2 ^ suc k + r) (2 ^ suc k - 1),
  and_low_split k q (r / 2) (omega arith),
)

and_block_split :
    (k q r m : ℕ) → r < 2 ^ k → bit_and (q * 2 ^ k + r) (m * 2 ^ k) ≡ bit_and q m * 2 ^ k
and_block_split zero q r m h = ground arith
and_block_split (suc k) q r m h = ground (
  arith,
  doubled_pow q k,
  doubled_pow m k,
  doubled_pow (bit_and q m) k,
  bit_and_lowest (q * 2 ^ suc k + r) (m * 2 ^ suc k),
  and_block_split k q (r / 2) m (omega arith),
)

-- `a & (2^k - 1)`.
pub and_low : (k a : ℕ) → bit_and a (2 ^ k - 1) ≡ a % 2 ^ k
and_low k a = ground (arith, one-le-pow k 2, and_low_split k (a / 2 ^ k) (a % 2 ^ k))

-- `a & (m << k)`.
pub and_block : (k a m : ℕ) → bit_and a (m * 2 ^ k) ≡ bit_and (a / 2 ^ k) m * 2 ^ k
and_block k a m = ground (arith, one-le-pow k 2, and_block_split k (a / 2 ^ k) (a % 2 ^ k) m)
