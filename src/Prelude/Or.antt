-- ===== src/Prelude/Or.antt =====
-- The inclusive or of the binary digits with a number whose `k` low digits are all one.
use Prim.Native.Nat.{
  ℕ, zero, suc, ◌+◌, ◌-◌, ◌*◌, ◌/◌, ◌%◌, ◌^◌, ◌≤◌, ◌<◌, max, bit_or, digits, bit_or-bitwise,
}
use mathlib.Core.Path.{◌≡◌, refl, ◌∙◌}
use native.Mathlib.Nat.{pow-suc}
use native.Mathlib.Omega.{arith}
use tamer.Prelude.Bits.{pow-pos}

abbrev or_upto : ℕ → ℕ → ℕ → ℕ
or_upto n a b = digits (λ b. b) max n a b

or_upto_fuel : (n m a b : ℕ) → a ≤ n → a ≤ m → or_upto n a b ≡ or_upto m a b
or_upto_fuel zero zero a b hn hm = refl
or_upto_fuel zero (suc m) zero b hn hm = refl
or_upto_fuel zero (suc m) (suc a) b hn hm = absurd (omega arith)
or_upto_fuel (suc n) zero zero b hn hm = refl
or_upto_fuel (suc n) zero (suc a) b hn hm = absurd (omega arith)
or_upto_fuel (suc n) (suc m) zero b hn hm = refl
or_upto_fuel (suc n) (suc m) (suc a) b hn hm =
    omega (arith, or_upto_fuel n m (suc a / 2) (b / 2) (omega arith) (omega arith))

pub zero-bit_or : (b : ℕ) → bit_or 0 b ≡ b
zero-bit_or b = bit_or-bitwise 0 b

pub bit_or-halves : (a b : ℕ) → bit_or a b ≡ bit_or (a / 2) (b / 2) * 2 + max (a % 2) (b % 2)
bit_or-halves zero b = omega (arith, zero-bit_or b, zero-bit_or (b / 2))
bit_or-halves (suc a) b = omega (
  arith,
  bit_or-bitwise (suc a) b,
  bit_or-bitwise (suc a / 2) (b / 2),
  or_upto_fuel a (suc a / 2) (suc a / 2) (b / 2) (omega arith) (omega arith),
)

bit_or-zero_upto : (n a : ℕ) → a ≤ n → bit_or a 0 ≡ a
bit_or-zero_upto n zero h = zero-bit_or 0
bit_or-zero_upto zero (suc a) h = absurd (omega arith)
bit_or-zero_upto (suc n) (suc a) h =
    omega (arith, bit_or-halves (suc a) 0, bit_or-zero_upto n (suc a / 2) (omega arith))

halve : (a p : ℕ) → 0 < p → a / 2 / p ≡ a / (p * 2)
halve a p h = grind arith

ones_step :
    (a p : ℕ)
    → 0 < p
    → bit_or (a / 2) (p - 1) ≡ a / 2 / p * p + (p - 1)
    → bit_or a (p * 2 - 1) ≡ a / (p * 2) * (p * 2) + (p * 2 - 1)
ones_step a p h ih =
    let half : (p * 2 - 1) / 2 ≡ p - 1 = omega arith in
    let step = bit_or-halves a (p * 2 - 1) in
    let q = halve a p h in
    let twice : a / (p * 2) * (p * 2) ≡ (a / (p * 2) * p) * 2 = grind arith in
    omega (arith, rw half at step, rw q at ih)

-- `a | (2 ^ k - 1)` is the last number of the block of `2 ^ k` that `a` is in.
pub bit_or-ones : (k a : ℕ) → bit_or a (2 ^ k - 1) ≡ a / 2 ^ k * 2 ^ k + (2 ^ k - 1)
bit_or-ones zero a = omega (arith, bit_or-zero_upto a a (omega arith))
bit_or-ones (suc k) a = rw (pow-suc 2 k) (ones_step a (2 ^ k) (pow-pos k) (bit_or-ones k (a / 2)))

or_low_step :
    (a b p : ℕ) → bit_or (a * p) (b / 2) ≡ a * p + b / 2 → bit_or (a * (p * 2)) b ≡ a * (p * 2) + b
or_low_step a b p ih =
    let double : a * (p * 2) ≡ a * p * 2 = grind arith in
    let half : a * p * 2 / 2 ≡ a * p = omega arith in
    let step = bit_or-halves (a * p * 2) b in rw double (omega (arith, rw half at step, ih))

-- The or of a number with `k` zeros at its end and one of `k` digits.
pub bit_or-low : (k a b : ℕ) → b < 2 ^ k → bit_or (a * 2 ^ k) b ≡ a * 2 ^ k + b
bit_or-low zero a b h =
    let z : b ≡ 0 = omega arith in
    rw z (bit_or-zero_upto (a * 2 ^ 0) (a * 2 ^ 0) (omega arith) ∙ omega arith)
bit_or-low (suc k) a b h =
    rw (pow-suc 2 k) (or_low_step a b (2 ^ k) (bit_or-low k a (b / 2) (omega (arith, pow-suc 2 k))))
