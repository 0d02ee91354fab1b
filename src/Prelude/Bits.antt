-- ===== src/Prelude/Bits.antt =====
-- `x & (2 ^ k - 1)` is the remainder by `2 ^ k`: the laws of `bit_and` that the ring buffers need.
use Prim.Native.Nat.{
  ℕ, zero, suc, ◌+◌, ◌-◌, ◌*◌, ◌/◌, ◌%◌, ◌^◌, ◌≤◌, ◌<◌, min, bit_and, digits, bit_and-bitwise,
}
use mathlib.Core.Path.{◌≡◌, refl, sym, ap, ◌∙◌}
use native.Mathlib.Nat.{pow-suc}
use native.Mathlib.Omega.{arith}

abbrev and_upto : ℕ → ℕ → ℕ → ℕ
and_upto n a b = digits (λ _. zero) min n a b

-- Any fuel that reaches the number gives the same digits.
and_upto_fuel : (n m a b : ℕ) → a ≤ n → a ≤ m → and_upto n a b ≡ and_upto m a b
and_upto_fuel zero zero a b hn hm = refl
and_upto_fuel zero (suc m) zero b hn hm = refl
and_upto_fuel zero (suc m) (suc a) b hn hm = absurd (omega arith)
and_upto_fuel (suc n) zero zero b hn hm = refl
and_upto_fuel (suc n) zero (suc a) b hn hm = absurd (omega arith)
and_upto_fuel (suc n) (suc m) zero b hn hm = refl
and_upto_fuel (suc n) (suc m) (suc a) b hn hm =
    omega (arith, and_upto_fuel n m (suc a / 2) (b / 2) (omega arith) (omega arith))

zero-bit_and : (b : ℕ) → bit_and 0 b ≡ 0
zero-bit_and b = bit_and-bitwise 0 b

pub bit_and-halves : (a b : ℕ) → bit_and a b ≡ bit_and (a / 2) (b / 2) * 2 + min (a % 2) (b % 2)
bit_and-halves zero b = omega (arith, zero-bit_and b, zero-bit_and (b / 2))
bit_and-halves (suc a) b = omega (
  arith,
  bit_and-bitwise (suc a) b,
  bit_and-bitwise (suc a / 2) (b / 2),
  and_upto_fuel a (suc a / 2) (suc a / 2) (b / 2) (omega arith) (omega arith),
)

bit_and-zero_upto : (n a : ℕ) → a ≤ n → bit_and a 0 ≡ 0
bit_and-zero_upto n zero h = refl
bit_and-zero_upto zero (suc a) h = absurd (omega arith)
bit_and-zero_upto (suc n) (suc a) h =
    omega (arith, bit_and-halves (suc a) 0, bit_and-zero_upto n (suc a / 2) (omega arith))

double_mod : (a p : ℕ) → 0 < p → a / 2 % p * 2 + a % 2 ≡ a % (p * 2)
double_mod a p h = grind arith

pub pow-pos : (k : ℕ) → 0 < 2 ^ k
pow-pos zero = omega arith
pow-pos (suc k) = rw (pow-suc 2 k) (omega (arith, pow-pos k))

mask_step :
    (a p : ℕ) → 0 < p → bit_and (a / 2) (p - 1) ≡ a / 2 % p → bit_and a (p * 2 - 1) ≡ a % (p * 2)
mask_step a p h ih =
    let half : (p * 2 - 1) / 2 ≡ p - 1 = omega arith in
    let step = bit_and-halves a (p * 2 - 1) in omega (arith, double_mod a p h, rw half at step)

-- A mask of `k` ones keeps the `k` low bits.
pub bit_and-mask : (k a : ℕ) → bit_and a (2 ^ k - 1) ≡ a % 2 ^ k
bit_and-mask zero a = omega (arith, bit_and-zero_upto a a (omega arith))
bit_and-mask (suc k) a = rw (pow-suc 2 k) (mask_step a (2 ^ k) (pow-pos k) (bit_and-mask k (a / 2)))

and_doubled : (a n : ℕ) → bit_and a (n * 2) ≡ bit_and (a / 2) n * 2
and_doubled a n =
    let half : n * 2 / 2 ≡ n = omega arith in
    let step = bit_and-halves a (n * 2) in omega (arith, rw half at step)

-- A mask with `k` zeros at its end keeps the digits from `k` on.
pub bit_and-high : (k a m : ℕ) → bit_and a (m * 2 ^ k) ≡ bit_and (a / 2 ^ k) m * 2 ^ k
bit_and-high zero a m =
    let mask : m * 2 ^ 0 ≡ m = omega arith in
    let all : a / 2 ^ 0 ≡ a = omega arith in
    ap (bit_and a) mask ∙ ap (λ k. bit_and k m) (sym all) ∙ omega arith
bit_and-high (suc k) a m =
    let p = 2 ^ k in
    let mask : m * (p * 2) ≡ m * p * 2 = grind arith in
    let quotient : a / 2 / p ≡ a / (p * 2) = half_quotient a p (pow-pos k) in
    let ih = bit_and-high k (a / 2) m in
    rw (pow-suc 2 k) (
      ap (bit_and a) mask
      ∙ and_doubled a (m * p)
      ∙ ap (λ n. n * 2) ih
      ∙ ap (λ q. bit_and q m * p * 2) quotient
      ∙ regroup (bit_and (a / (p * 2)) m) p)
  where
    half_quotient : (a p : ℕ) → 0 < p → a / 2 / p ≡ a / (p * 2)
    half_quotient a p h = grind arith

    regroup : (x p : ℕ) → x * p * 2 ≡ x * (p * 2)
    regroup x p = grind arith
