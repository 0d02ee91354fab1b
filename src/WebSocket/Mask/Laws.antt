-- ===== src/WebSocket/Mask/Laws.antt =====
-- `do_mask` word by word is the byte by byte rule of RFC 6455, section 5.3.
use tamer.Prelude.{
  ℕ, zero, suc, ◌+◌, ◌*◌, ◌%◌, ◌<◌, ◌≡◌, refl, sym, ap₂, ◌∙◌, List, [], ◌∷◌, ◌++◌, arith, bit_and,
  length, ap,
}
use tamer.Prelude.Xor.{bit_xor-bytes, bit_xor-twice, Apart}
use tamer.Prelude.Bits.{bit_and-mask}
use tamer.WebSocket.Utf8.Encoding.{AllBytes}
use tamer.WebSocket.Mask.{Mask, load, store_bytes, word, byte_at, mask_bytes, mask_words, do_mask}
use Prim.Native.Nat.{bit_xor}

pub record IsMask (m : Mask) : Type 0 where
  pub b0 : m.c0 < 256
  pub b1 : m.c1 < 256
  pub b2 : m.c2 < 256
  pub b3 : m.c3 < 256

-- byte `i` goes with the byte `i mod 4` of the key
unfoldable pub masked : Mask → ℕ → List ℕ → List ℕ
masked m i [] = []
masked m i (x ∷ xs) = bit_xor x (byte_at m (i % 4)) ∷ masked m (i + 1) xs

bytes_masked : (m : Mask) (i : ℕ) (xs : List ℕ) → mask_bytes m i xs ≡ masked m i xs
unfolding mask_bytes masked
bytes_masked m i [] = refl
bytes_masked m i (x ∷ xs) =
    let low : bit_and i 3 ≡ i % 4 = bit_and-mask 2 i in rw (low, bytes_masked m (i + 1) xs) refl

-- The exclusive or of two words is that of their bytes.
words :
    (m : Mask) (a b c d : ℕ)
    → IsMask m
    → a < 256
    → b < 256
    → c < 256
    → d < 256
    → store_bytes (bit_xor (load a b c d) (word m))
      ≡ bit_xor a m.c0 ∷ bit_xor b m.c1 ∷ bit_xor c m.c2 ∷ bit_xor d m.c3 ∷ []
unfolding Apart
words m a b c d v ha hb hc hd =
    let (e0, l0) =
      bit_xor-bytes a m.c0 (b + 256 * (c + 256 * d)) (m.c1 + 256 * (m.c2 + 256 * m.c3)) ha v.b0 in
    let (e1, l1) = bit_xor-bytes b m.c1 (c + 256 * d) (m.c2 + 256 * m.c3) hb v.b1 in
    let (e2, l2) = bit_xor-bytes c m.c2 d m.c3 hc v.b2 in
    let (e3, l3) = bit_xor-bytes d m.c3 0 0 hd v.b3 in ground arith

masked_four :
    (m : Mask) (i a b c d : ℕ) (xs : List ℕ)
    → i % 4 ≡ 0
    → masked m i (a ∷ b ∷ c ∷ d ∷ xs)
      ≡ bit_xor a m.c0 ∷ bit_xor b m.c1 ∷ bit_xor c m.c2 ∷ bit_xor d m.c3 ∷ masked m (i + 4) xs
unfolding masked
masked_four m i a b c d xs e =
    let e1 : (i + 1) % 4 ≡ 1 = omega arith in
    let e2 : (i + 1 + 1) % 4 ≡ 2 = omega arith in
    let e3 : (i + 1 + 1 + 1) % 4 ≡ 3 = omega arith in
    let e4 : i + 1 + 1 + 1 + 1 ≡ i + 4 = omega arith in rw (e, e1, e2, e3, e4) refl

words_masked :
    (m : Mask) (i : ℕ) (xs : List ℕ)
    → IsMask m
    → AllBytes xs
    → i % 4 ≡ 0
    → mask_words m i xs ≡ masked m i xs
unfolding mask_words
words_masked m i [] v h e = bytes_masked m i []
words_masked m i (a ∷ []) v h e = bytes_masked m i (a ∷ [])
words_masked m i (a ∷ b ∷ []) v h e = bytes_masked m i (a ∷ b ∷ [])
words_masked m i (a ∷ b ∷ c ∷ []) v h e = bytes_masked m i (a ∷ b ∷ c ∷ [])
words_masked m i (a ∷ b ∷ c ∷ d ∷ xs) v (ha, (hb, (hc, (hd, h)))) e =
    let rest = words_masked m (i + 4) xs v h (omega arith) in
    ap₂ (λ s t. s ++ t) (words m a b c d v ha hb hc hd) rest ∙ sym (masked_four m i a b c d xs e)

-- Every byte of the payload is masked with the key byte at its index modulo 4.
pub do_mask_lem : (xs : List ℕ) (m : Mask) → IsMask m → AllBytes xs → do_mask xs m ≡ masked m 0 xs
unfolding do_mask
do_mask_lem xs m v h = words_masked m 0 xs v h refl

byte_at_bound : (m : Mask) (k : ℕ) → IsMask m → byte_at m k < 256
byte_at_bound m zero v = v.b0
byte_at_bound m (suc zero) v = v.b1
byte_at_bound m (suc (suc zero)) v = v.b2
byte_at_bound m (suc (suc (suc k))) v = v.b3

xor_byte : (a b : ℕ) → a < 256 → b < 256 → bit_xor a b < 256
unfolding Apart
xor_byte a b ha hb = (bit_xor-bytes a b 0 0 ha hb).1

masked-AllBytes :
    (m : Mask) (i : ℕ) (xs : List ℕ) → IsMask m → AllBytes xs → AllBytes (masked m i xs)
unfolding masked
masked-AllBytes m i [] v h = tt
masked-AllBytes m i (x ∷ xs) v (b, h) =
    (xor_byte x _ b (byte_at_bound m (i % 4) v), masked-AllBytes m (i + 1) xs v h)

masked_twice : (m : Mask) (i : ℕ) (xs : List ℕ) → masked m i (masked m i xs) ≡ xs
unfolding masked
masked_twice m i [] = refl
masked_twice m i (x ∷ xs) = rw (bit_xor-twice x (byte_at m (i % 4)), masked_twice m (i + 1) xs) refl

-- Masking twice with one key gives the payload back.
pub do_mask_twice :
    (xs : List ℕ) (m : Mask) → IsMask m → AllBytes xs → do_mask (do_mask xs m) m ≡ xs
do_mask_twice xs m v h =
    let once = do_mask_lem xs m v h in
    rw once (do_mask_lem (masked m 0 xs) m v (masked-AllBytes m 0 xs v h) ∙ masked_twice m 0 xs)

length-masked : (m : Mask) (i : ℕ) (xs : List ℕ) → length (masked m i xs) ≡ length xs
unfolding masked
length-masked m i [] = refl
length-masked m i (x ∷ xs) = omega (arith, length-masked m (i + 1) xs)

-- Masking keeps the length.
pub length-do_mask :
    (xs : List ℕ) (m : Mask) → IsMask m → AllBytes xs → length (do_mask xs m) ≡ length xs
length-do_mask xs m v h = ap length (do_mask_lem xs m v h) ∙ length-masked m 0 xs
