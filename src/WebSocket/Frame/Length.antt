-- ===== src/WebSocket/Frame/Length.antt =====
-- The length and the mask that `receive_any` takes from a header that `send` writes.
use tamer.Prelude.{
  ℕ, zero, suc, ◌+◌, ◌-◌, ◌*◌, ◌/◌, ◌%◌, ◌^◌, ◌<◌, ◌≡◌, refl, ap, ◌∙◌, inl, inr, Bool, true, List,
  [], ◌∷◌, ◌++◌, ltb, leb, length, arith, Bool-cases, length-append,
}
use Prim.Native.Nat.{bit_or}
use tamer.Prelude.Or.{bit_or-low}
use tamer.WebSocket.Mask.{Mask}
use tamer.WebSocket.Frame.{Message, byte, payload_length, header_mask, expected_length}
use tamer.WebSocket.Frame.Header.{key_bytes, header, length-header}
use tamer.WebSocket.Frame.Check.{second_length}
use tamer.WebSocket.Send.{plain_header, first_byte, second_byte, long_length, mask_bytes_of}

-- One more byte below those that are there.
join48 : (l : ℕ) → bit_or (l / 2 ^ 56 * 2 ^ 56) (l / 2 ^ 48 % 256 * 2 ^ 48) ≡ l / 2 ^ 48 * 2 ^ 48
join48 l = bit_or-low 56 (l / 2 ^ 56) (l / 2 ^ 48 % 256 * 2 ^ 48) (omega arith) ∙ omega arith

join40 : (l : ℕ) → bit_or (l / 2 ^ 48 * 2 ^ 48) (l / 2 ^ 40 % 256 * 2 ^ 40) ≡ l / 2 ^ 40 * 2 ^ 40
join40 l = bit_or-low 48 (l / 2 ^ 48) (l / 2 ^ 40 % 256 * 2 ^ 40) (omega arith) ∙ omega arith

join32 : (l : ℕ) → bit_or (l / 2 ^ 40 * 2 ^ 40) (l / 2 ^ 32 % 256 * 2 ^ 32) ≡ l / 2 ^ 32 * 2 ^ 32
join32 l = bit_or-low 40 (l / 2 ^ 40) (l / 2 ^ 32 % 256 * 2 ^ 32) (omega arith) ∙ omega arith

join24 : (l : ℕ) → bit_or (l / 2 ^ 32 * 2 ^ 32) (l / 2 ^ 24 % 256 * 2 ^ 24) ≡ l / 2 ^ 24 * 2 ^ 24
join24 l = bit_or-low 32 (l / 2 ^ 32) (l / 2 ^ 24 % 256 * 2 ^ 24) (omega arith) ∙ omega arith

join16 : (l : ℕ) → bit_or (l / 2 ^ 24 * 2 ^ 24) (l / 2 ^ 16 % 256 * 2 ^ 16) ≡ l / 2 ^ 16 * 2 ^ 16
join16 l = bit_or-low 24 (l / 2 ^ 24) (l / 2 ^ 16 % 256 * 2 ^ 16) (omega arith) ∙ omega arith

join8 : (l : ℕ) → bit_or (l / 2 ^ 16 * 2 ^ 16) (l / 2 ^ 8 % 256 * 2 ^ 8) ≡ l / 2 ^ 8 * 2 ^ 8
join8 l = bit_or-low 16 (l / 2 ^ 16) (l / 2 ^ 8 % 256 * 2 ^ 8) (omega arith) ∙ omega arith

join0 : (l : ℕ) → bit_or (l / 2 ^ 8 * 2 ^ 8) (l % 256) ≡ l
join0 l = bit_or-low 8 (l / 2 ^ 8) (l % 256) (omega arith) ∙ omega arith

all_bytes :
    (l : ℕ)
    → l < 2 ^ 64
    → bit_or
        (bit_or
          (bit_or
            (bit_or
              (bit_or
                (bit_or
                  (bit_or (l / 2 ^ 56 % 256 * 2 ^ 56) (l / 2 ^ 48 % 256 * 2 ^ 48))
                  (l / 2 ^ 40 % 256 * 2 ^ 40))
                (l / 2 ^ 32 % 256 * 2 ^ 32))
              (l / 2 ^ 24 % 256 * 2 ^ 24))
            (l / 2 ^ 16 % 256 * 2 ^ 16))
          (l / 2 ^ 8 % 256 * 2 ^ 8))
        (l % 256)
      ≡ l
all_bytes l b =
    let top : l / 2 ^ 56 % 256 ≡ l / 2 ^ 56 = omega arith in
    rw top (
      rw (join48 l)
        (rw (join40 l) (rw (join32 l) (rw (join24 l) (rw (join16 l) (rw (join8 l) (join0 l)))))))

payload_of :
    (response : Bool) (l h0 : ℕ) (t : List ℕ)
    → l < 2 ^ 64
    → payload_length (h0 ∷ second_byte response l ∷ (long_length l ++ t)) ≡ l
unfolding payload_length
payload_of response l h0 t b = elim (Bool-cases (ltb l 126)) [
  | inl e ↦ rw (second_length response l) (rw e (ground arith))
  | inr e ↦ elim (Bool-cases (leb l 65535)) [
    | inl f ↦ rw (second_length response l) (rw e (rw f (join0 l)))
    | inr f ↦ rw (second_length response l) (rw e (rw f (all_bytes l b)))
  ]
]

-- The length of the body.
pub header-payload_length :
    (response : Bool) (k : Mask) (m : Message)
    → length m.body < 2 ^ 64
    → payload_length (header response k m) ≡ length m.body
unfolding header plain_header
header-payload_length response k m b =
    payload_of response (length m.body) (first_byte m) (key_bytes response k) b

byte_behind : (xs ys : List ℕ) (n i : ℕ) → n ≡ length xs + i → byte (xs ++ ys) n ≡ byte ys i
byte_behind [] ys n i h = let same : n ≡ i = omega arith in ap (λ j. byte ys j) same
byte_behind (x ∷ xs) ys zero i h = absurd (omega arith)
byte_behind (x ∷ xs) ys (suc n) i h = byte_behind xs ys n i (omega arith)

mask_behind :
    (k : Mask) (xs : List ℕ) (n : ℕ)
    → n ≡ length xs
    → record {
      c0 = byte (xs ++ mask_bytes_of k) n;
      c1 = byte (xs ++ mask_bytes_of k) (n + 1);
      c2 = byte (xs ++ mask_bytes_of k) (n + 2);
      c3 = byte (xs ++ mask_bytes_of k) (n + 3);
    }
      ≡ k
mask_behind k xs n h = rw (byte_behind xs (mask_bytes_of k) n 0 (omega arith)) (
    rw (byte_behind xs (mask_bytes_of k) (n + 1) 1 (omega arith)) (
      rw (byte_behind xs (mask_bytes_of k) (n + 2) 2 (omega arith))
        (rw (byte_behind xs (mask_bytes_of k) (n + 3) 3 (omega arith)) refl)))

-- The mask of the client.
pub header-header_mask : (k : Mask) (m : Message) → header_mask (header true k m) ≡ k
unfolding header_mask header plain_header
header-header_mask k m =
    mask_behind k (plain_header true m) (expected_length (second_byte true (length m.body)) - 4) (
      omega
        (arith, length-header true k m, length-append {0} (plain_header true m) (mask_bytes_of k)))
