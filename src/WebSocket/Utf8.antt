-- ===== src/WebSocket/Utf8.antt =====
-- `validate_utf8` of tamer/websocket.tcc.
pub mod Bytes
pub mod Encoding
pub mod Decoding
pub mod Resume
use tamer.Prelude.{
  ℕ, zero, suc, ◌-◌, Bool, true, false, not, ◌&&◌, ◌||◌, List, [], ◌∷◌, Option, none, some, ltb,
  leb, ◌==◌, if◌then◌else◌, bit_and,
}

-- `(ch & 0xC0) != 0x80`, negated
abbrev pub is_continuation : ℕ → Bool
is_continuation ch = bit_and ch 0xC0 == 0x80

-- The first loop, with the bytes in front of `cur` nearest first, and those from `cur` on.
unfoldable pub back : List ℕ → List ℕ → List ℕ × List ℕ
back [] rest = ([], rest)
back (c ∷ front) rest =
    let further = back front (c ∷ rest) in if is_continuation c then further else (front, c ∷ rest)

-- `!=` on `bool`
abbrev pub differ : Bool → Bool → Bool
differ true b = not b
differ false b = b

-- The long condition; `prev` is `cur[-1]`, which is read only where `state` is not 0.
unfoldable pub bad : ℕ → ℕ → ℕ → Bool
bad state prev ch =
    differ (state == 0) (not (is_continuation ch))
    || ch == 0xC0
    || ch == 0xC1
    || leb 0xF5 ch
    || (state == 2 && ltb ch 0xA0 && prev == 0xE0)
    || (state == 2 && leb 0xA0 ch && prev == 0xED)
    || (state == 3 && ltb ch 0x90 && prev == 0xF0)
    || (state == 3 && leb 0x90 ch && prev == 0xF4)

unfoldable pub next_state : ℕ → ℕ → ℕ
next_state state ch =
    if leb 0xF0 ch then 3 else if leb 0xE0 ch then 2 else if leb 0xC0 ch then 1 else state - 1

-- The body of the second loop; `none` is `return false`.
unfoldable pub step : ℕ → ℕ → ℕ → Option ℕ
unfolding bad next_state
step state prev ch =
    if state == 0 && leb ch 127
    then some state
    else if bad state prev ch
    then none
    else some (next_state state ch)

unfoldable pub scan : ℕ → ℕ → List ℕ → Option ℕ
scan state prev [] = some state
scan state prev (ch ∷ rest) = elim (step state prev ch) [
  | none ↦ none
  | some state' ↦ scan state' ch rest
]

-- the byte in front of `cur`
abbrev pub last_of : List ℕ → ℕ
last_of [] = 0
last_of (c ∷ front) = c

unfoldable pub validate_utf8 : List ℕ → List ℕ → Bool → Bool
unfolding back scan
validate_utf8 front rest complete =
    elim (scan 0 (last_of (back front rest).0) (back front rest).1) [
      | none ↦ false
      | some state ↦ state == 0 || not complete
    ]
