-- ===== src/WebSocket/Frame.antt =====
-- `websocket_message` and `websocket_parser` of tamer/websocket.hh and tamer/websocket.tcc: how a frame is
-- written and how it is read. Time is not part of it: a descriptor is the bytes that will come from it.
pub mod Header
pub mod Check
pub mod Length
pub mod Reading
pub mod RoundTrip
pub mod Overrun
use tamer.Prelude.{
  ℕ, zero, suc, ◌+◌, ◌-◌, ◌*◌, ◌/◌, ◌%◌, ◌^◌, Bool, true, false, not, ◌&&◌, ◌||◌, List, [], ◌∷◌,
  ◌++◌, Option, none, some, ltb, leb, ◌==◌, if◌then◌else◌, bit_and, length, get_or, take, drop,
}
use Prim.Native.Nat.{bit_or}
use tamer.WebSocket.Mask.{Mask, do_mask}
use tamer.WebSocket.Utf8.{validate_utf8, differ}

-- `websocket_message`; `incomplete_` is 0 or 1.
pub record Message : Type 0 where
  pub error : ℕ
  pub incomplete : Bool
  pub opcode : ℕ
  pub body : List ℕ

-- the constructor, and `clear`
abbrev pub no_message : Message
no_message = record { error = 0; incomplete = false; opcode = 0; body = [] }

-- `response` is `type_ == HTTP_RESPONSE`, which a client has.
pub record Parser : Type 0 where
  pub response : Bool
  pub closed : ℕ
  pub close_code : ℕ
  pub close_reason : List ℕ

abbrev pub new_parser : Bool → Parser
new_parser response = record { response = response; closed = 0; close_code = 0; close_reason = [] }

-- The bytes that come, and whether the descriptor fails behind them.
pub record Input : Type 0 where
  pub bytes : List ℕ
  pub broken : Bool

-- Whether `read` of `n` bytes fails.
abbrev pub read_fails : ℕ → Input → Bool
read_fails n i = i.broken && ltb (length i.bytes) n

unfoldable pub expected_length : ℕ → ℕ
expected_length header1 =
    2
    + (if bit_and header1 127 == 126 then 2 else 0)
    + (if bit_and header1 127 == 127 then 8 else 0)
    + (if leb 128 header1 then 4 else 0)

abbrev pub byte : List ℕ → ℕ → ℕ
byte h i = get_or h i 0

-- The header as far as it comes, whether a read failed, and what comes behind it.
unfoldable pub read_header : Input → List ℕ × Bool × Input
read_header i =
    let two = take 2 i.bytes in
    let rest = drop 2 i.bytes in
    let more = expected_length (byte two 1) - 2 in
    if not (read_fails 2 i) && length two == 2 && leb 126 (byte two 1)
    then (
      two ++ take more rest,
      i.broken && ltb (length rest) more,
      record i { bytes = drop more rest },
    )
    else (two, read_fails 2 i, record i { bytes = rest })

-- The codes of http_parser.h that `receive_any` gives, negated.
pub data Failure : Type 0 where
  invalid_eof_state : Failure
  closed_connection : Failure
  invalid_header_token : Failure
  invalid_fragment : Failure
  invalid_content_length : Failure
  strict : Failure

-- The tests behind the header; `opcode` is that of the message that is not complete yet, or 0.
unfoldable pub check_header : Bool → Bool → List ℕ → ℕ → Option Failure
check_header response failed h opcode =
    let h0 = byte h 0 in
    let h1 = byte h 1 in
    if failed || (not (length h == 0) && not (length h == expected_length h1))
    then some invalid_eof_state
    else if length h == 0
    then some closed_connection
    else if differ response (bit_and h1 128 == 0)
        || not (bit_and h0 0x70 == 0)
        || leb 3 (bit_and h0 0x07)
    then some invalid_header_token
    else if (if not (bit_and h0 0x08 == 0)
        then bit_and h0 0x80 == 0 || ltb 125 (bit_and h1 0x7F)
        else if not (opcode == 0)
        then not (bit_and h0 0x07 == 0)
        else bit_and h0 0x07 == 0)
    then some invalid_fragment
    else none

-- `sz`, by shifts and ors
unfoldable pub payload_length : List ℕ → ℕ
payload_length h =
    let sz = bit_and (byte h 1) 127 in
    if sz == 126
    then bit_or (byte h 2 * 2 ^ 8) (byte h 3)
    else if sz == 127
    then bit_or
        (bit_or
          (bit_or
            (bit_or
              (bit_or (bit_or (bit_or (byte h 2 * 2 ^ 56) (byte h 3 * 2 ^ 48)) (byte h 4 * 2 ^ 40))
                (byte h 5 * 2 ^ 32))
              (byte h 6 * 2 ^ 24))
            (byte h 7 * 2 ^ 16))
          (byte h 8 * 2 ^ 8))
        (byte h 9)
    else sz

-- `memcpy(&mask, &header[expected_length(header[1]) - 4], 4)`
unfoldable pub header_mask : List ℕ → Mask
header_mask h =
    let at = expected_length (byte h 1) - 4 in
    record { c0 = byte h at; c1 = byte h (at + 1); c2 = byte h (at + 2); c3 = byte h (at + 3) }

-- What `done` gets; `overrun` is a read past the end of the body, behind which nothing is defined.
pub data Outcome : Type 0 where
  received : ℕ → Outcome
  failed : Failure → Outcome
  overrun : Outcome

-- The state behind `receive_any`; `closing` is the code with which it calls `close`, if it does.
pub record Step : Type 0 where
  pub outcome : Outcome
  pub parser : Parser
  pub ctrl : Message
  pub message : Message
  pub input : Input
  pub closing : Option ℕ

-- The message that the frame adds to, with its new opcode and `incomplete`.
unfoldable pub start_message : List ℕ → Message → Message
start_message h message =
    let h0 = byte h 0 in
    let m = if bit_and h0 0x08 == 0 then message else no_message in
    record {
      error = m.error;
      incomplete = bit_and h0 0x80 == 0;
      opcode = if bit_and h0 0x0F == 0 then m.opcode else bit_and h0 0x0F;
      body = m.body;
    }

-- The message with the payload, and where the new part begins.
abbrev pub with_body : Message → List ℕ → Message
with_body m body = record {
  error = m.error;
  incomplete = m.incomplete;
  opcode = m.opcode;
  body = body;
}

-- Which of the two messages was changed.
abbrev pub place : List ℕ → Step → Message → Step
place h s m = record {
  outcome = s.outcome;
  parser = s.parser;
  ctrl = if bit_and (byte h 0) 0x08 == 0 then s.ctrl else m;
  message = if bit_and (byte h 0) 0x08 == 0 then m else s.message;
  input = s.input;
  closing = s.closing;
}

-- The payload behind the mask.
unfoldable pub unmasked : List ℕ → List ℕ → List ℕ
unmasked h payload =
    if not (bit_and (byte h 1) 0x80 == 0) && ltb 0 (length payload)
    then do_mask payload (header_mask h)
    else payload

abbrev pub reversed : List ℕ → List ℕ → List ℕ
reversed [] acc = acc
reversed (x ∷ xs) acc = reversed xs (x ∷ acc)

-- From the payload on; `s` is what is there already.
unfoldable pub receive_payload : List ℕ → Message → Input → Step → Step
receive_payload h m i s =
    let sz = payload_length h in
    let body = unmasked h (take sz i.bytes) in
    let short = ltb (length i.bytes) sz in
    let t = record s { input = record i { bytes = drop sz i.bytes } } in
    if short
    then place h (record t { outcome = failed invalid_eof_state; closing = some 1002 })
        (with_body m (m.body ++ take sz i.bytes))
    else if m.opcode == 1
        && not (validate_utf8 (reversed m.body []) body (not (bit_and (byte h 0) 0x80 == 0)))
    then place h (record t { outcome = failed strict; closing = some 1007 })
        (with_body m (m.body ++ body))
    else place h
        (record t {
          outcome = received (if not (bit_and (byte h 0) 0x80 == 0) then m.opcode else 0);
          closing = none;
        })
        (with_body m (m.body ++ body))

-- The connection is over.
abbrev pub hang_up : Parser → Parser
hang_up p = record p { closed = 3; close_code = if p.closed == 0 then 1006 else p.close_code }

abbrev pub is_end : Failure → Bool
is_end closed_connection = true
is_end invalid_eof_state = false
is_end invalid_header_token = false
is_end invalid_fragment = false
is_end invalid_content_length = false
is_end strict = false

-- `sz += offset`, in 64 bits
unfoldable pub total_length : List ℕ → Message → ℕ
total_length h m = (length m.body + payload_length h) % 2 ^ 64

-- `cap`, in 64 bits
unfoldable pub padded : ℕ → ℕ
padded sz = (sz + (if sz % 8 == 0 then 0 else 8 - sz % 8)) % 2 ^ 64

-- `fits` says whether a string has the first length and at least the second capacity behind `reserve` and
-- `resize`. A length that has wrapped is below that of the body, which `resize` cuts off, and the payload is
-- read behind what is left.
unfoldable pub receive_any : (ℕ → ℕ → Bool) → Parser → Input → Message → Message → Step
unfolding read_header check_header start_message total_length padded
receive_any fits p i ctrl message =
    let h = (read_header i).0 in
    let rest = (read_header i).2 in
    let m = start_message h message in
    let sz = total_length h m in
    let s : Step = record {
      outcome = failed invalid_content_length;
      parser = p;
      ctrl = ctrl;
      message = message;
      input = rest;
      closing = some 1009;
    } in
    elim (check_header p.response (read_header i).1 h message.opcode) [
      | some f ↦ record s {
        outcome = failed f;
        parser = if is_end f then hang_up p else p;
        closing = if is_end f then none else some 1002;
      }
      | none ↦
          if not (fits sz (padded sz))
          then place h s (with_body m [])
          else if ltb sz (length m.body)
          then place h (record s { outcome = overrun; closing = none })
              (with_body m (take sz m.body))
          else receive_payload h m rest s
    ]
