-- ===== src/WebSocket/Frame/RoundTrip.antt =====
-- A frame that `send` writes is what `receive_any` of the other side takes.
use tamer.Prelude.{
  ℕ, ◌+◌, ◌*◌, ◌/◌, ◌%◌, ◌^◌, ◌<◌, ◌≡◌, refl, sym, ap, ◌∙◌, inl, inr, Bool, true, false, not, List,
  [], ◌∷◌, ◌++◌, Option, none, some, ltb, leb, ◌==◌, if◌then◌else◌, bit_and, length, arith,
  Bool-cases, if_intro,
}
use mathlib.Core.List.{append_assoc, append-nil}
use tamer.WebSocket.Mask.{Mask, do_mask}
use tamer.WebSocket.Mask.Laws.{IsMask, do_mask_twice, length-do_mask}
use tamer.WebSocket.Utf8.Encoding.{AllBytes}
use tamer.WebSocket.Utf8.{validate_utf8}
use tamer.WebSocket.Frame.{
  Message, no_message, Parser, Input, Step, failed, received, invalid_content_length, byte,
  expected_length, read_header, check_header, start_message, receive_any, padded, unmasked,
  reversed, with_body, place,
}
use tamer.WebSocket.Frame.Header.{key_bytes, header, length-header, second_byte_lem}
use tamer.WebSocket.Frame.Check.{
  Fits, opcode-lt, first-Control, first_final, first_opcode, second_mask, sent-Check,
}
use tamer.WebSocket.Frame.Length.{header-payload_length, header-header_mask}
use tamer.WebSocket.Send.{first_byte, second_byte, long_length, plain_header, send}
use tamer.WebSocket.Frame.Reading.{read_whole, receive_passed, payload_taken}

nothing_behind :
    (response : Bool) (k : Mask) (l : ℕ)
    → leb 126 (second_byte response l) ≡ false
    → long_length l ++ key_bytes response k ≡ []
nothing_behind true k l h = absurd (ground (arith, h, second_byte_lem true l))
nothing_behind false k l h =
    let short : ltb l 126 ≡ true = ground (arith, h, second_byte_lem false l) in rw short refl

header_long :
    (response : Bool) (k : Mask) (m : Message)
    → 2 + length (long_length (length m.body) ++ key_bytes response k)
      ≡ expected_length (second_byte response (length m.body))
unfolding header plain_header
header_long response k m = omega (arith, length-header response k m)

sent-read_header :
    (response : Bool) (k : Mask) (m : Message) (rest : List ℕ) (broken : Bool)
    → read_header (record { bytes = header response k m ++ rest; broken = broken })
      ≡ (header response k m, false, record { bytes = rest; broken = broken })
unfolding header plain_header
sent-read_header response k m rest broken =
    read_whole (first_byte m) (second_byte response (length m.body))
      (long_length (length m.body) ++ key_bytes response k) rest broken (header_long response k m)
      (nothing_behind response k (length m.body))

-- The body as it is on the wire.
abbrev pub wire_body : Bool → Mask → List ℕ → List ℕ
wire_body true k body = do_mask body k
wire_body false k body = body

-- The message that a frame adds to, and the message behind it.
abbrev pub is_data : Message → Bool
is_data m = ltb m.opcode 8

abbrev pub begun : Message → Message → Message
begun m message =
    let old = if is_data m then message else no_message in
    record {
      error = old.error;
      incomplete = m.incomplete;
      opcode = if m.opcode == 0 then old.opcode else m.opcode;
      body = old.body;
    }

abbrev pub grown : Message → Message → Message
grown m message = with_body (begun m message) ((begun m message).body ++ m.body)

length-wire_body :
    (response : Bool) (k : Mask) (body : List ℕ)
    → IsMask k
    → AllBytes body
    → length (wire_body response k body) ≡ length body
length-wire_body true k body v b = length-do_mask body k v b
length-wire_body false k body v b = refl

data_bit : (m : Message) → m.opcode < 16 → (m.opcode / 8 % 2 * 8 == 0) ≡ is_data m
data_bit m h = elim (Bool-cases (is_data m)) [
  | inl d ↦ rw d (ground arith)
  | inr d ↦ rw d (ground arith)
]

zero_unless : (i : Bool) → ((if i then 0 else 128) == 0) ≡ i
zero_unless true = refl
zero_unless false = refl

no_payload : (xs : List ℕ) → (ltb 0 (length xs)) ≡ false → xs ≡ []
no_payload [] h = refl
no_payload (x ∷ xs) h = absurd (ground (arith, h))

sent-unmasked :
    (response : Bool) (k : Mask) (m : Message)
    → IsMask k
    → AllBytes m.body
    → unmasked (header response k m) (wire_body response k m.body) ≡ m.body
unfolding header plain_header unmasked
sent-unmasked true k m v b = rw (second_mask true (length m.body)) (
    rw (header-header_mask k m) (
      if_intro (λ xs. xs ≡ m.body) (ltb 0 (length (do_mask m.body k)))
        (do_mask (do_mask m.body k) k) (do_mask m.body k) (λ p. do_mask_twice m.body k v b)
        (λ p.
          no_payload (do_mask m.body k) p
          ∙ sym (no_payload m.body (ground (arith, p, length-do_mask m.body k v b))))))
sent-unmasked false k m v b = rw (second_mask false (length m.body)) refl

sent-start_message :
    (response : Bool) (k : Mask) (m message : Message)
    → Fits m message.opcode
    → start_message (header response k m) message ≡ begun m message
unfolding header plain_header start_message
sent-start_message response k m message f =
    let h = opcode-lt m message.opcode f in
    rw (first-Control m h) (
      rw (first_final m h)
        (rw (first_opcode m h) (rw (data_bit m h) (rw (zero_unless m.incomplete) refl))))

-- What the other side has of the frame: the message it adds to, and whether `done` gets its opcode.
abbrev pub delivered : Message → Message → Message → Parser → Input → Step
delivered m ctrl message q rest = record {
  outcome = received (if not m.incomplete then (grown m message).opcode else 0);
  parser = q;
  ctrl = if is_data m then ctrl else grown m message;
  message = if is_data m then grown m message else message;
  input = rest;
  closing = none;
}

header-delivered :
    (response : Bool) (k : Mask) (m ctrl message : Message) (q : Parser) (rest : Input)
    → Fits m message.opcode
    → place
        (header response k m)
        (record {
          outcome = received (
              if not (bit_and (byte (header response k m) 0) 0x80 == 0)
              then (grown m message).opcode
              else 0);
          parser = q;
          ctrl = ctrl;
          message = message;
          input = rest;
          closing = none;
        })
        (grown m message)
      ≡ delivered m ctrl message q rest
unfolding header plain_header
header-delivered response k m ctrl message q rest f =
    let h = opcode-lt m message.opcode f in
    rw (first-Control m h)
      (rw (first_final m h) (rw (data_bit m h) (rw (zero_unless m.incomplete) refl)))

header-check_header :
    (response : Bool) (k : Mask) (m message : Message)
    → Fits m message.opcode
    → check_header (not response) false (header response k m) message.opcode ≡ none
unfolding header plain_header
header-check_header response k m message f =
    sent-Check response m message.opcode (long_length (length m.body) ++ key_bytes response k) f
      (header_long response k m)

header_final :
    (response : Bool) (k : Mask) (m : Message)
    → m.opcode < 16
    → (bit_and (byte (header response k m) 0) 0x80 == 0) ≡ m.incomplete
unfolding header plain_header
header_final response k m h = rw (first_final m h) (zero_unless m.incomplete)

receive_header :
    (accepts : ℕ → ℕ → Bool) (response : Bool) (k : Mask) (q : Parser) (m : Message) (rest : List ℕ)
    (broken : Bool) (ctrl message : Message)
    → q.response ≡ not response
    → Fits m message.opcode
    → IsMask k
    → AllBytes m.body
    → length (begun m message).body + length m.body < 2 ^ 64
    → accepts
        (length (begun m message).body + length m.body)
        (padded (length (begun m message).body + length m.body))
      ≡ true
    → ((begun m message).opcode ≡ 1
        → validate_utf8 (reversed (begun m message).body []) m.body (not m.incomplete) ≡ true)
    → receive_any accepts q
        (record {
          bytes = header response k m ++ (wire_body response k m.body ++ rest);
          broken = broken;
        })
        ctrl
        message
      ≡ delivered m ctrl message q (record { bytes = rest; broken = broken })
receive_header accepts response k q m rest broken ctrl message r f v b l a u =
    let h = header response k m in
    let wire = wire_body response k m.body in
    let start = sent-start_message response k m message f in
    let len = header-payload_length response k m (omega (arith, l)) in
    receive_passed accepts q (record { bytes = h ++ (wire ++ rest); broken = broken })
      (record { bytes = wire ++ rest; broken = broken }) ctrl message h
      (sent-read_header response k m (wire ++ rest) broken)
      (rw r (header-check_header response k m message f)) (rw (start, len) l) (rw (start, len) a)
    ∙ (rw start (
        payload_taken h wire m.body rest broken (begun m message)
          (record {
            outcome = failed invalid_content_length;
            parser = q;
            ctrl = ctrl;
            message = message;
            input = record { bytes = wire ++ rest; broken = broken };
            closing = some 1009;
          })
          (len ∙ sym (length-wire_body response k m.body v b)) (sent-unmasked response k m v b)
          (rw (header_final response k m (opcode-lt m message.opcode f)) u)))
    ∙ header-delivered response k m ctrl message q (record { bytes = rest; broken = broken }) f

abbrev frame_of : Option (Parser × List ℕ) → List ℕ
frame_of none = []
frame_of (some (p, frame)) = frame

-- What `send` writes where it can.
sent_bytes :
    (k : Mask) (p : Parser) (m : Message)
    → bit_and p.closed 2 == 0 ≡ true
    → frame_of (send (some k) p m) ≡ header p.response k m ++ wire_body p.response k m.body
unfolding send header
sent_bytes k p m h = elim (Bool-cases p.response) [
  | inl r ↦
      rw r (rw h (sym (append_assoc (plain_header true m) (key_bytes true k) (do_mask m.body k))))
  | inr r ↦ rw r (rw h (ap (λ t. t ++ m.body) (sym (append-nil (plain_header false m)))))
]

send-frame_of :
    (k : Mask) (p p' : Parser) (m : Message) (frame : List ℕ)
    → send (some k) p m ≡ some (p', frame)
    → frame ≡ header p.response k m ++ wire_body p.response k m.body
unfolding send
send-frame_of k p p' m frame sent = elim (Bool-cases (bit_and p.closed 2 == 0)) [
  | inl h ↦ sym (ap frame_of sent) ∙ sent_bytes k p m h
  | inr h ↦ absurd (grind (arith, h, sent))
]

-- A frame that `send` writes for one kind of side is taken by `receive_any` of the other kind: the message
-- that it adds to has its bytes behind those that it had, with its opcode unless it is 0, and `done` gets the
-- opcode, or 0 where more frames follow; nothing of what comes behind is taken. The message keeps the rules of
-- RFC 6455 on opcodes, fragments and the length of control frames, it is below 2 ^ 64 bytes together with what
-- is there and fits in a string, and text is UTF-8.
pub send-receive_any :
    (accepts : ℕ → ℕ → Bool) (k : Mask) (p p' q : Parser) (m : Message) (frame rest : List ℕ)
    (broken : Bool) (ctrl message : Message)
    → send (some k) p m ≡ some (p', frame)
    → q.response ≡ not p.response
    → Fits m message.opcode
    → IsMask k
    → AllBytes m.body
    → length (begun m message).body + length m.body < 2 ^ 64
    → accepts
        (length (begun m message).body + length m.body)
        (padded (length (begun m message).body + length m.body))
      ≡ true
    → ((begun m message).opcode ≡ 1
        → validate_utf8 (reversed (begun m message).body []) m.body (not m.incomplete) ≡ true)
    → receive_any accepts q (record { bytes = frame ++ rest; broken = broken }) ctrl message
      ≡ delivered m ctrl message q (record { bytes = rest; broken = broken })
send-receive_any accepts k p p' q m frame rest broken ctrl message sent r f v b l a u =
    rw (send-frame_of k p p' m frame sent) (
      rw (append_assoc (header p.response k m) (wire_body p.response k m.body) rest)
        (receive_header accepts p.response k q m rest broken ctrl message r f v b l a u))
