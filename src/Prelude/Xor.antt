-- ===== src/Prelude/Xor.antt =====
-- The exclusive or of the binary digits: its law by digits, that it undoes itself, and that it works on
-- the two parts of a number apart.
use Prim.Native.Nat.{
  ℕ, zero, suc, ◌+◌, ◌*◌, ◌/◌, ◌%◌, ◌≤◌, ◌<◌, bit_xor, differ, digits, bit_xor-bitwise,
}
use mathlib.Core.Path.{◌≡◌, refl}
use native.Mathlib.Omega.{arith}

abbrev xor_upto : ℕ → ℕ → ℕ → ℕ
xor_upto n a b = digits (λ b. b) differ n a b

xor_upto_fuel : (n m a b : ℕ) → a ≤ n → a ≤ m → xor_upto n a b ≡ xor_upto m a b
xor_upto_fuel zero zero a b hn hm = refl
xor_upto_fuel zero (suc m) zero b hn hm = refl
xor_upto_fuel zero (suc m) (suc a) b hn hm = absurd (omega arith)
xor_upto_fuel (suc n) zero zero b hn hm = refl
xor_upto_fuel (suc n) zero (suc a) b hn hm = absurd (omega arith)
xor_upto_fuel (suc n) (suc m) zero b hn hm = refl
xor_upto_fuel (suc n) (suc m) (suc a) b hn hm =
    omega (arith, xor_upto_fuel n m (suc a / 2) (b / 2) (omega arith) (omega arith))

pub zero-bit_xor : (b : ℕ) → bit_xor 0 b ≡ b
zero-bit_xor b = bit_xor-bitwise 0 b

differ_digits : (d e : ℕ) → d < 2 → e < 2 → differ d e ≡ (d + e) % 2
differ_digits zero zero hd he = refl
differ_digits zero (suc zero) hd he = refl
differ_digits (suc zero) zero hd he = refl
differ_digits (suc zero) (suc zero) hd he = refl
differ_digits zero (suc (suc e)) hd he = absurd (omega arith)
differ_digits (suc zero) (suc (suc e)) hd he = absurd (omega arith)
differ_digits (suc (suc d)) e hd he = absurd (omega arith)

pub bit_xor-halves : (a b : ℕ) → bit_xor a b ≡ bit_xor (a / 2) (b / 2) * 2 + (a % 2 + b % 2) % 2
bit_xor-halves zero b = omega (arith, zero-bit_xor b, zero-bit_xor (b / 2))
bit_xor-halves (suc a) b = omega (
  arith,
  bit_xor-bitwise (suc a) b,
  bit_xor-bitwise (suc a / 2) (b / 2),
  differ_digits (suc a % 2) (b % 2) (omega arith) (omega arith),
  xor_upto_fuel a (suc a / 2) (suc a / 2) (b / 2) (omega arith) (omega arith),
)

bit_xor-twice_upto : (n a m : ℕ) → a ≤ n → m ≤ n → bit_xor (bit_xor a m) m ≡ a
bit_xor-twice_upto zero a m ha hm =
    let za : a ≡ 0 = omega arith in let zm : m ≡ 0 = omega arith in rw (za, zm) refl
bit_xor-twice_upto (suc n) a m ha hm =
    let once = bit_xor-halves a m in
    let half : bit_xor a m / 2 ≡ bit_xor (a / 2) (m / 2) = omega arith in
    let twice = bit_xor-halves (bit_xor a m) m in
    omega
      (arith, bit_xor-twice_upto n (a / 2) (m / 2) (omega arith) (omega arith), rw half at twice)

pub bit_xor-twice : (a m : ℕ) → bit_xor (bit_xor a m) m ≡ a
bit_xor-twice a m = bit_xor-twice_upto (a + m) a m (omega arith) (omega arith)

-- A low part below `p` and a high part from `p` on stay apart.
unfoldable pub Apart : ℕ → Type 0
Apart p =
    (a b x y : ℕ)
    → a < p
    → b < p
    → (bit_xor (a + p * x) (b + p * y) ≡ bit_xor a b + p * bit_xor x y) × (bit_xor a b < p)

Apart-one : Apart 1
unfolding Apart
Apart-one a b x y ha hb =
    let za : a ≡ 0 = omega arith in
    let zb : b ≡ 0 = omega arith in
    let x1 : 0 + 1 * x ≡ x = omega arith in
    let y1 : 0 + 1 * y ≡ y = omega arith in
    rw (za, zb, x1, y1) (omega (arith, zero-bit_xor 0), omega (arith, zero-bit_xor 0))

halve : (p a x : ℕ) → ((a + p * 2 * x) / 2 ≡ a / 2 + p * x) × ((a + p * 2 * x) % 2 ≡ a % 2)
halve p a x = grind arith

Apart-double : (p : ℕ) → Apart p → Apart (p * 2)
unfolding Apart
Apart-double p ih a b x y ha hb =
    let (e, l) = ih (a / 2) (b / 2) x y (omega arith) (omega arith) in
    let (ax, am) = halve p a x in
    let (bx, bm) = halve p b y in
    let whole = bit_xor-halves (a + p * 2 * x) (b + p * 2 * y) in
    let low = bit_xor-halves a b in
    let split : p * 2 * bit_xor x y ≡ (p * bit_xor x y) * 2 = grind arith in
    (omega (arith, rw (ax, bx, am, bm) at whole), omega arith)

pub bit_xor-bytes : Apart 256
bit_xor-bytes = let d = Apart-double in d 128 (d 64 (d 32 (d 16 (d 8 (d 4 (d 2 (d 1 Apart-one)))))))
