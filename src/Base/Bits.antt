-- ===== src/Base/Bits.antt =====
-- `bit_or` of a shifted number and one that fits below the shift is their sum.
use Prim.Native.Nat.{
  ℕ, zero, suc, ◌+◌, ◌*◌, ◌/◌, ◌%◌, ◌≤◌, ◌<◌, max, bit_or, digits, bit_or-bitwise,
}
use mathlib.Core.Path.{◌≡◌, refl}
use native.Mathlib.Omega.{arith}

abbrev or_digits : ℕ → ℕ → ℕ → ℕ
or_digits = digits (λ b. b) max

or_digits_fuel : (n m a b : ℕ) → a ≤ n → a ≤ m → or_digits n a b ≡ or_digits m a b
or_digits_fuel zero zero a b p q = refl
or_digits_fuel zero (suc m) zero b p q = refl
or_digits_fuel zero (suc m) (suc a) b p q = absurd (omega arith)
or_digits_fuel (suc n) zero zero b p q = refl
or_digits_fuel (suc n) zero (suc a) b p q = absurd (omega arith)
or_digits_fuel (suc n) (suc m) zero b p q = refl
or_digits_fuel (suc n) (suc m) (suc a) b p q =
    omega (arith, or_digits_fuel n m (suc a / 2) (b / 2) (omega arith) (omega arith))

zero-bit_or : (b : ℕ) → bit_or 0 b ≡ b
zero-bit_or b = bit_or-bitwise 0 b

bit_or_step : (a b : ℕ) → bit_or a b ≡ bit_or (a / 2) (b / 2) * 2 + max (a % 2) (b % 2)
bit_or_step zero b = omega (arith, zero-bit_or b, zero-bit_or (b / 2))
bit_or_step (suc a) b = omega (
  arith,
  bit_or-bitwise (suc a) b,
  bit_or-bitwise (suc a / 2) (b / 2),
  or_digits_fuel a (suc a / 2) (suc a / 2) (b / 2) (omega arith) (omega arith),
)

bit_or-zero_fuel : (n a : ℕ) → a ≤ n → bit_or a 0 ≡ a
bit_or-zero_fuel n zero h = refl
bit_or-zero_fuel zero (suc a) h = absurd (omega arith)
bit_or-zero_fuel (suc n) (suc a) h =
    omega (arith, bit_or_step (suc a) 0, bit_or-zero_fuel n (suc a / 2) (omega arith))

-- `q << k`.
abbrev pub shl : ℕ → ℕ → ℕ
shl zero q = q
shl (suc k) q = 2 * shl k q

bit_or-shl_sum : (k q r : ℕ) → r < shl k 1 → bit_or (shl k q) r ≡ shl k q + r
bit_or-shl_sum zero q zero h = omega (arith, bit_or-zero_fuel q q (omega arith))
bit_or-shl_sum zero q (suc r) h = absurd (omega arith)
bit_or-shl_sum (suc k) q r h =
    let half : (2 * shl k q) / 2 ≡ shl k q = omega arith in
    let low : bit_or ((2 * shl k q) / 2) (r / 2) ≡ shl k q + r / 2 =
      rw half (bit_or-shl_sum k q (r / 2) (omega arith)) in
    omega (arith, bit_or_step (2 * shl k q) r, low)

pub bit_or_byte : (q r : ℕ) → r < 256 → bit_or (q * 256) r ≡ q * 256 + r
bit_or_byte q r h =
    let e : shl 8 q ≡ q * 256 = omega arith in rw e at (bit_or-shl_sum 8 q r (omega arith))

pub bit_or_word : (q r : ℕ) → r < 65536 → bit_or (q * 65536) r ≡ q * 65536 + r
bit_or_word q r h =
    let e : shl 16 q ≡ q * 65536 = omega arith in rw e at (bit_or-shl_sum 16 q r (omega arith))
