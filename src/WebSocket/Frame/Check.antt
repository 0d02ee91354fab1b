-- ===== src/WebSocket/Frame/Check.antt =====
-- The tests of `receive_any` on a header that `send` writes.
use tamer.Prelude.{
  ℕ, ◌+◌, ◌*◌, ◌/◌, ◌%◌, ◌≤◌, ◌<◌, ◌≡◌, ◌≢◌, refl, ◌⊎◌, inl, inr, Bool, true, false, not, ◌||◌,
  List, ◌∷◌, none, ltb, ◌==◌, if◌then◌else◌, bit_and, length, arith,
}
use tamer.WebSocket.Frame.{Message, expected_length, check_header}
use tamer.WebSocket.Frame.Header.{
  low7, low4, low3, bit7, bits4, bit3, first_byte_lem, second_byte_lem, short_length-lt,
}
use tamer.WebSocket.Send.{first_byte, short_length, second_byte}

-- A control frame is whole and short; a message of several frames has its opcode in the first.
unfoldable pub Fits : Message → ℕ → Type 0
Fits m opened =
    (8 ≤ m.opcode × m.opcode ≤ 10 × m.incomplete ≡ false × length m.body ≤ 125)
    ⊎ ((m.opcode ≡ 0 × opened ≢ 0) ⊎ (1 ≤ m.opcode × m.opcode ≤ 2 × opened ≡ 0))

check_passes :
    (response : Bool) (h0 h1 : ℕ) (t : List ℕ) (opened : ℕ)
    → 2 + length t ≡ expected_length h1
    → (bit_and h1 128 == 0) ≡ response
    → bit_and h0 0x70 ≡ 0
    → bit_and h0 0x07 < 3
    → (if not (bit_and h0 0x08 == 0)
        then bit_and h0 0x80 == 0 || ltb 125 (bit_and h1 0x7F)
        else if not (opened == 0)
        then not (bit_and h0 0x07 == 0)
        else bit_and h0 0x07 == 0)
      ≡ false
    → check_header response false (h0 ∷ h1 ∷ t) opened ≡ none
unfolding check_header
check_passes true h0 h1 t opened e c r n f = ground arith
check_passes false h0 h1 t opened e c r n f = ground arith

pub opcode-lt : (m : Message) (opened : ℕ) → Fits m opened → m.opcode < 16
unfolding Fits
opcode-lt m opened (inl f) = omega arith
opcode-lt m opened (inr (inl f)) = omega arith
opcode-lt m opened (inr (inr f)) = omega arith

final_bit :
    (i : Bool) → (◌≡◌ {A = ℕ} (if i then 0 else 128) 0) ⊎ (◌≡◌ {A = ℕ} (if i then 0 else 128) 128)
final_bit true = inl refl
final_bit false = inr refl

-- What the tests see of the first byte.
pub first-Control :
    (m : Message) → m.opcode < 16 → bit_and (first_byte m) 0x08 ≡ m.opcode / 8 % 2 * 8
first-Control m h = omega (arith, bit3 (first_byte m), first_byte_lem m h, final_bit m.incomplete)

pub first_final :
    (m : Message) → m.opcode < 16 → bit_and (first_byte m) 0x80 ≡ (if m.incomplete then 0 else 128)
first_final m h = omega (arith, bit7 (first_byte m), first_byte_lem m h, final_bit m.incomplete)

pub first_opcode : (m : Message) → m.opcode < 16 → bit_and (first_byte m) 0x0F ≡ m.opcode
first_opcode m h = omega (arith, low4 (first_byte m), first_byte_lem m h, final_bit m.incomplete)

first_kind : (m : Message) → m.opcode < 16 → bit_and (first_byte m) 0x07 ≡ m.opcode % 8
first_kind m h = omega (arith, low3 (first_byte m), first_byte_lem m h, final_bit m.incomplete)

first_reserved : (m : Message) → m.opcode < 16 → bit_and (first_byte m) 0x70 ≡ 0
first_reserved m h = omega (arith, bits4 (first_byte m), first_byte_lem m h, final_bit m.incomplete)

pub second_mask :
    (response : Bool) (l : ℕ) → bit_and (second_byte response l) 128 ≡ (if response then 128 else 0)
second_mask true l =
    omega (arith, bit7 (second_byte true l), second_byte_lem true l, short_length-lt l)
second_mask false l =
    omega (arith, bit7 (second_byte false l), second_byte_lem false l, short_length-lt l)

pub second_length :
    (response : Bool) (l : ℕ) → bit_and (second_byte response l) 127 ≡ short_length l
second_length true l =
    omega (arith, low7 (second_byte true l), second_byte_lem true l, short_length-lt l)
second_length false l =
    omega (arith, low7 (second_byte false l), second_byte_lem false l, short_length-lt l)

no_mask : (response : Bool) (l : ℕ) → (bit_and (second_byte response l) 128 == 0) ≡ not response
no_mask true l = ground (arith, second_mask true l)
no_mask false l = ground (arith, second_mask false l)

obeys :
    (m : Message) (opened : ℕ)
    → Fits m opened
    → (if not (m.opcode / 8 % 2 * 8 == 0)
        then (if m.incomplete then 0 else 128) == 0 || ltb 125 (short_length (length m.body))
        else if not (opened == 0)
        then not (m.opcode % 8 == 0)
        else m.opcode % 8 == 0)
      ≡ false
unfolding Fits
obeys m opened (inl f) = ground arith
obeys m opened (inr (inl f)) = ground arith
obeys m opened (inr (inr f)) = ground arith

kind : (m : Message) (opened : ℕ) → Fits m opened → m.opcode % 8 < 3
unfolding Fits
kind m opened (inl f) = omega arith
kind m opened (inr (inl f)) = omega arith
kind m opened (inr (inr f)) = omega arith

-- A frame that keeps the rules passes the tests of a receiver of the other kind.
pub sent-Check :
    (response : Bool) (m : Message) (opened : ℕ) (t : List ℕ)
    → Fits m opened
    → 2 + length t ≡ expected_length (second_byte response (length m.body))
    → check_header
        (not response)
        false
        (first_byte m ∷ second_byte response (length m.body) ∷ t)
        opened
      ≡ none
sent-Check response m opened t fits e =
    let h = opcode-lt m opened fits in
    check_passes (not response) (first_byte m) (second_byte response (length m.body)) t opened e
      (no_mask response (length m.body)) (first_reserved m h)
      (omega (arith, first_kind m h, kind m opened fits))
      (rw (first-Control m h) (
        rw (first_final m h) (
          rw (first_kind m h) (rw (second_length response (length m.body)) (obeys m opened fits)))))
