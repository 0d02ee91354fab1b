-- ===== src/WebSocket/Frame/Reading.antt =====
-- What `receive_any` does with a frame that comes whole.
use tamer.Prelude.{
  ℕ, suc, ◌+◌, ◌-◌, ◌≤◌, ◌≡◌, refl, inl, inr, Bool, true, false, not, ◌&&◌, List, [], ◌∷◌, ◌++◌,
  none, some, ltb, leb, ◌==◌, if◌then◌else◌, bit_and, length, arith, Bool-cases, length-append,
  take, ◌^◌, ◌<◌,
}
use tamer.WebSocket.Utf8.{validate_utf8}
use tamer.WebSocket.Frame.{
  Message, Parser, Input, Step, failed, received, invalid_content_length, byte, expected_length,
  read_header, check_header, payload_length, start_message, receive_payload, total_length, padded,
  overrun, receive_any, unmasked, reversed, with_body, place,
}
use tamer.WebSocket.Frame.Header.{take_exact, drop_exact}

not_short : (b : Bool) (n k : ℕ) → k ≤ n → (b && ltb n k) ≡ false
not_short true n k h = ground arith
not_short false n k h = refl

-- The header as far as `read_header` reads it.
pub read_whole :
    (h0 h1 : ℕ) (t rest : List ℕ) (broken : Bool)
    → 2 + length t ≡ expected_length h1
    → (leb 126 h1 ≡ false → t ≡ [])
    → read_header (record { bytes = h0 ∷ h1 ∷ (t ++ rest); broken = broken })
      ≡ (h0 ∷ h1 ∷ t, false, record { bytes = rest; broken = broken })
unfolding read_header
read_whole h0 h1 t rest broken e short =
    let more : expected_length h1 - 2 ≡ length t = omega arith in
    elim (Bool-cases (leb 126 h1)) [
      | inl long ↦
          rw (not_short broken (suc (suc (length (t ++ rest)))) 2 (omega arith), read_header)
            (rw long (
              rw more (
                rw (take_exact t rest (length t) refl) (
                  rw (drop_exact t rest (length t) refl) (
                    rw
                      (not_short broken (length (t ++ rest)) (length t)
                        (omega (arith, length-append {0} t rest)))
                      refl)))))
      | inr s ↦
          rw (not_short broken (suc (suc (length (t ++ rest)))) 2 (omega arith), read_header)
            (rw s (rw (short s) refl))
    ]

pub total_small :
    (h : List ℕ) (m : Message)
    → length m.body + payload_length h < 2 ^ 64
    → total_length h m ≡ length m.body + payload_length h
unfolding total_length
total_small h m few = omega arith

-- A header that comes whole and passes, and a length that the body can take.
pub receive_passed :
    (accepts : ℕ → ℕ → Bool) (p : Parser) (i rest : Input) (ctrl message : Message) (h : List ℕ)
    → read_header i ≡ (h, false, rest)
    → check_header p.response false h message.opcode ≡ none
    → length (start_message h message).body + payload_length h < 2 ^ 64
    → accepts
        (length (start_message h message).body + payload_length h)
        (padded (length (start_message h message).body + payload_length h))
      ≡ true
    → receive_any accepts p i ctrl message
      ≡ receive_payload h (start_message h message) rest (record {
        outcome = failed invalid_content_length;
        parser = p;
        ctrl = ctrl;
        message = message;
        input = rest;
        closing = some 1009;
      })
unfolding receive_any
receive_passed accepts p i rest ctrl message h e c few a =
    let m = start_message h message in
    let not_less : ltb (length m.body + payload_length h) (length m.body) ≡ false = ground arith in
    rw (e, receive_any) (rw c (rw e (rw (total_small h m few) (rw a (rw not_less refl)))))

-- A header that comes whole and passes, and a length that wraps below that of the body.
pub receive_wrapped :
    (accepts : ℕ → ℕ → Bool) (p : Parser) (i rest : Input) (ctrl message : Message) (h : List ℕ)
    → read_header i ≡ (h, false, rest)
    → check_header p.response false h message.opcode ≡ none
    → ltb (total_length h (start_message h message)) (length (start_message h message).body) ≡ true
    → accepts
        (total_length h (start_message h message))
        (padded (total_length h (start_message h message)))
      ≡ true
    → receive_any accepts p i ctrl message
      ≡ place h
          (record {
            outcome = overrun;
            parser = p;
            ctrl = ctrl;
            message = message;
            input = rest;
            closing = none;
          })
          (with_body
            (start_message h message)
            (take (total_length h (start_message h message)) (start_message h message).body))
unfolding receive_any
receive_wrapped accepts p i rest ctrl message h e c less a =
    rw (e, receive_any) (rw c (rw e (rw a (rw less refl))))

excused : (o : ℕ) (b : Bool) → (o ≡ 1 → b ≡ true) → (o == 1 && not b) ≡ false
excused o true h = ground arith
excused o false h = ground arith

-- A payload that comes whole, and is UTF-8 where it has to be.
pub payload_taken :
    (h wire body rest : List ℕ) (broken : Bool) (m : Message) (s : Step)
    → payload_length h ≡ length wire
    → unmasked h wire ≡ body
    → (m.opcode ≡ 1
        → validate_utf8 (reversed m.body []) body (not (bit_and (byte h 0) 0x80 == 0)) ≡ true)
    → receive_payload h m (record { bytes = wire ++ rest; broken = broken }) s
      ≡ place h
          (record {
            outcome = received (if not (bit_and (byte h 0) 0x80 == 0) then m.opcode else 0);
            parser = s.parser;
            ctrl = s.ctrl;
            message = s.message;
            input = record { bytes = rest; broken = broken };
            closing = none;
          })
          (with_body m (m.body ++ body))
unfolding receive_payload
payload_taken h wire body rest broken m s n u v =
    let whole : ltb (length (wire ++ rest)) (length wire) ≡ false =
      ground (arith, length-append {0} wire rest) in
    let fine : (m.opcode == 1
          && not (validate_utf8 (reversed m.body []) body (not (bit_and (byte h 0) 0x80 == 0))))
        ≡ false =
      excused m.opcode
        (validate_utf8 (reversed m.body []) body (not (bit_and (byte h 0) 0x80 == 0))) v in
    rw (n, receive_payload)
      (rw whole (
        rw (take_exact wire rest (length wire) refl)
          (rw (drop_exact wire rest (length wire) refl) (rw u (rw fine refl)))))
