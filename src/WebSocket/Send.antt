-- ===== src/WebSocket/Send.antt =====
-- `send` and `close` of `websocket_parser` in tamer/websocket.tcc: the bytes that they write.
use tamer.Prelude.{
  ℕ, ◌/◌, ◌%◌, ◌^◌, Bool, true, false, not, ◌&&◌, List, [], ◌∷◌, ◌++◌, Option, none, some, ltb, leb,
  ◌==◌, if◌then◌else◌, bit_and, length,
}
use Prim.Native.Nat.{bit_or}
use tamer.WebSocket.Mask.{Mask, do_mask}
use tamer.WebSocket.Frame.{Message, no_message, Parser}

-- The first two bytes.
abbrev pub first_byte : Message → ℕ
first_byte m = bit_or (if m.incomplete then 0 else 0x80) m.opcode

abbrev pub short_length : ℕ → ℕ
short_length l = if ltb l 126 then l else if leb l 65535 then 126 else 127

abbrev pub second_byte : Bool → ℕ → ℕ
second_byte response l = bit_or (if response then 0x80 else 0) (short_length l)

-- The rest of the length.
abbrev pub long_length : ℕ → List ℕ
long_length l =
    if ltb l 126
    then []
    else if leb l 65535
    then (l / 2 ^ 8) ∷ (l % 256) ∷ []
    else (l / 2 ^ 56 % 256)
      ∷ (l / 2 ^ 48 % 256)
      ∷ (l / 2 ^ 40 % 256)
      ∷ (l / 2 ^ 32 % 256)
      ∷ (l / 2 ^ 24 % 256)
      ∷ (l / 2 ^ 16 % 256)
      ∷ (l / 2 ^ 8 % 256)
      ∷ (l % 256)
      ∷ []

abbrev pub mask_bytes_of : Mask → List ℕ
mask_bytes_of k = k.c0 ∷ k.c1 ∷ k.c2 ∷ k.c3 ∷ []

unfoldable pub plain_header : Bool → Message → List ℕ
plain_header response m =
    first_byte m ∷ second_byte response (length m.body) ∷ long_length (length m.body)

-- `random` is what `read_random_bytes` gives, `none` if it fails; the result is `none` for the failed assertion.
unfoldable pub send : Option Mask → Parser → Message → Option (Parser × List ℕ)
unfolding plain_header
send random p m =
    let q = record p { closed = if m.opcode == 8 then bit_or p.closed 2 else p.closed } in
    if bit_and p.closed 2 == 0
    then some (
      q,
      if p.response
          then elim random [
            | none ↦ []
            | some k ↦ plain_header true m ++ (mask_bytes_of k ++ do_mask m.body k)
          ]
          else plain_header false m ++ m.body,
    )
    else none

-- The message of `close`.
abbrev pub close_message : ℕ → List ℕ → Message
close_message code reason = record {
  error = 0;
  incomplete = false;
  opcode = 8;
  body =
      if not (code == 0) && not (code == 1005) then (code / 2 ^ 8) ∷ (code % 256) ∷ reason else [];
}

unfoldable pub close : Option Mask → Parser → ℕ → List ℕ → Option (Parser × List ℕ)
unfolding send
close random p code reason =
    if bit_and p.closed 2 == 0 then send random p (close_message code reason) else some (p, [])

-- `websocket_message` and `websocket_parser`, seen from outside
unfoldable pub is_ok : Message → Bool
is_ok m = m.error == 0

unfoldable pub is_text : Message → Bool
is_text m = m.opcode == 1

unfoldable pub is_binary : Message → Bool
is_binary m = m.opcode == 2

unfoldable pub set_error : Message → ℕ → Message
set_error m e = record m { error = e % 2 ^ 8 }

unfoldable pub set_opcode : Message → ℕ → Message
set_opcode m o = record m { opcode = o % 2 ^ 4 }

unfoldable pub text : Message → List ℕ → Message
text m s = record m { opcode = 1; body = s }

unfoldable pub binary : Message → List ℕ → Message
binary m s = record m { opcode = 2; body = s }

unfoldable pub is_open : Parser → Bool
is_open p = p.closed == 0

unfoldable pub send_text : Option Mask → Parser → List ℕ → Option (Parser × List ℕ)
unfolding send text
send_text random p s = send random p (text no_message s)

unfoldable pub send_binary : Option Mask → Parser → List ℕ → Option (Parser × List ℕ)
unfolding send binary
send_binary random p s = send random p (binary no_message s)
