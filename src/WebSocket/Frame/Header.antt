-- ===== src/WebSocket/Frame/Header.antt =====
-- The header that `send` writes is the one that `receive_any` reads.
use tamer.Prelude.{
  ℕ, zero, suc, ◌+◌, ◌*◌, ◌/◌, ◌%◌, ◌<◌, ◌≡◌, refl, ap, ◌∙◌, Bool, true, false, List, [], ◌∷◌, ◌++◌,
  if◌then◌else◌, bit_and, length, take, drop, arith, if_intro, length-append,
}
use Prim.Native.Nat.{bit_or}
use tamer.Prelude.Bits.{bit_and-mask, bit_and-high}
use tamer.Prelude.Or.{bit_or-low, zero-bit_or}
use tamer.WebSocket.Mask.{Mask}
use tamer.WebSocket.Frame.{Message, expected_length}
use tamer.WebSocket.Send.{
  first_byte, short_length, second_byte, long_length, mask_bytes_of, plain_header,
}

-- The bits of a byte that the tests read, as arithmetic.
pub low7 : (a : ℕ) → bit_and a 127 ≡ a % 128
low7 a = bit_and-mask 7 a

pub low4 : (a : ℕ) → bit_and a 0x0F ≡ a % 16
low4 a = bit_and-mask 4 a

pub low3 : (a : ℕ) → bit_and a 0x07 ≡ a % 8
low3 a = bit_and-mask 3 a

pub bit7 : (a : ℕ) → bit_and a 128 ≡ a / 128 % 2 * 128
bit7 a = bit_and-high 7 a 1 ∙ ap (λ k. k * 128) (bit_and-mask 1 (a / 128))

pub bits4 : (a : ℕ) → bit_and a 0x70 ≡ a / 16 % 8 * 16
bits4 a = bit_and-high 4 a 7 ∙ ap (λ k. k * 16) (bit_and-mask 3 (a / 16))

pub bit3 : (a : ℕ) → bit_and a 8 ≡ a / 8 % 2 * 8
bit3 a = bit_and-high 3 a 1 ∙ ap (λ k. k * 8) (bit_and-mask 1 (a / 8))

pub first_byte_lem :
    (m : Message) → m.opcode < 16 → first_byte m ≡ (if m.incomplete then 0 else 128) + m.opcode
first_byte_lem m h =
    if_intro (λ k. bit_or k m.opcode ≡ k + m.opcode) m.incomplete 0 128
      (λ i. zero-bit_or m.opcode ∙ omega arith) (λ i. bit_or-low 7 1 m.opcode (omega arith))

pub short_length-lt : (l : ℕ) → short_length l < 128
short_length-lt l = ground arith

pub second_byte_lem :
    (response : Bool) (l : ℕ)
    → second_byte response l ≡ (if response then 128 else 0) + short_length l
second_byte_lem true l = bit_or-low 7 1 (short_length l) (short_length-lt l)
second_byte_lem false l = zero-bit_or (short_length l) ∙ omega arith

-- The whole header of a frame.
abbrev pub key_bytes : Bool → Mask → List ℕ
key_bytes true k = mask_bytes_of k
key_bytes false k = []

abbrev pub header : Bool → Mask → Message → List ℕ
header response k m = plain_header response m ++ key_bytes response k

expected_second :
    (response : Bool) (l : ℕ)
    → expected_length (second_byte response l)
      ≡ 2 + length (long_length l) + (if response then 4 else 0)
unfolding expected_length
expected_second true l = ground (arith, low7 (second_byte true l), second_byte_lem true l)
expected_second false l = ground (arith, low7 (second_byte false l), second_byte_lem false l)

length-key_bytes :
    (response : Bool) (k : Mask) → length (key_bytes response k) ≡ (if response then 4 else 0)
length-key_bytes true k = refl
length-key_bytes false k = refl

pub length-header :
    (response : Bool) (k : Mask) (m : Message)
    → length (header response k m) ≡ expected_length (second_byte response (length m.body))
unfolding plain_header
length-header response k m = omega (
  arith,
  expected_second response (length m.body),
  length-key_bytes response k,
  length-append {0} (long_length (length m.body)) (key_bytes response k),
)

pub take_exact : (xs ys : List ℕ) (n : ℕ) → n ≡ length xs → take n (xs ++ ys) ≡ xs
take_exact [] ys n h = rw h refl
take_exact (x ∷ xs) ys zero h = absurd (omega arith)
take_exact (x ∷ xs) ys (suc n) h = ap (λ t. x ∷ t) (take_exact xs ys n (omega arith))

pub drop_exact : (xs ys : List ℕ) (n : ℕ) → n ≡ length xs → drop n (xs ++ ys) ≡ ys
drop_exact [] ys n h = rw h refl
drop_exact (x ∷ xs) ys zero h = absurd (omega arith)
drop_exact (x ∷ xs) ys (suc n) h = drop_exact xs ys n (omega arith)
