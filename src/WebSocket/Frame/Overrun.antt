-- ===== src/WebSocket/Frame/Overrun.antt =====
-- The 64-bit sum of the length of a fragment and that of what is there already.
use tamer.Prelude.{
  ℕ, ◌+◌, ◌^◌, ◌≤◌, ◌<◌, ◌≡◌, ◌↔◌, sym, ap, ◌∙◌, inl, inr, Bool, true, false, List, none, some, ltb,
  length, arith, Bool-cases,
}
use tamer.WebSocket.Frame.{
  Message, Parser, Input, Step, Outcome, received, failed, overrun, invalid_content_length,
  read_header, check_header, payload_length, start_message, total_length, padded, receive_payload,
  receive_any,
}
use tamer.WebSocket.Frame.Reading.{total_small, receive_passed, receive_wrapped}

abbrev is_overrun : Outcome → Bool
is_overrun (received n) = false
is_overrun (failed f) = false
is_overrun overrun = true

payload_read :
    (h : List ℕ) (m : Message) (i : Input) (s : Step)
    → is_overrun (receive_payload h m i s).outcome ≡ false
unfolding receive_payload
payload_read h m i s = ground arith

-- Behind the header.
abbrev pending : Parser → Input → Message → Message → Step
pending p rest ctrl message = record {
  outcome = failed invalid_content_length;
  parser = p;
  ctrl = ctrl;
  message = message;
  input = rest;
  closing = some 1009;
}

total_wraps :
    (h : List ℕ) (m : Message)
    → length m.body < 2 ^ 64
    → payload_length h < 2 ^ 64
    → 2 ^ 64 ≤ length m.body + payload_length h
    → ltb (total_length h m) (length m.body) ≡ true
unfolding total_length
total_wraps h m b l wraps = ground arith

-- Where the header of a frame comes whole and passes the tests, and the body takes the length that is computed,
-- the payload is read past the end of the body exactly if the bytes that are there and the length of the
-- payload, both below 2 ^ 64, are 2 ^ 64 or more together.
pub receive_any-overrun :
    (accepts : ℕ → ℕ → Bool) (p : Parser) (i rest : Input) (ctrl message : Message) (h : List ℕ)
    → read_header i ≡ (h, false, rest)
    → check_header p.response false h message.opcode ≡ none
    → length (start_message h message).body < 2 ^ 64
    → payload_length h < 2 ^ 64
    → accepts
        (total_length h (start_message h message))
        (padded (total_length h (start_message h message)))
      ≡ true
    → ((receive_any accepts p i ctrl message).outcome ≡ overrun)
      ↔ (2 ^ 64 ≤ length (start_message h message).body + payload_length h)
receive_any-overrun accepts p i rest ctrl message h e c b l a =
    let m = start_message h message in
    elim (Bool-cases (ltb (length m.body + payload_length h) (2 ^ 64))) [
      | inl few ↦
          let small : length m.body + payload_length h < 2 ^ 64 = ground (arith, few) in
          let fits = sym (ap (λ n. accepts n (padded n)) (total_small h m small)) ∙ a in
          let done =
            ap (λ (s : Step). is_overrun s.outcome)
              (receive_passed accepts p i rest ctrl message h e c small fits)
            ∙ payload_read h m rest (pending p rest ctrl message) in
          (
            (λ o. absurd (ground (arith, ap is_overrun o, done))),
            λ big. absurd (omega (arith, big, small)),
          )
      | inr wraps ↦
          let big : 2 ^ 64 ≤ length m.body + payload_length h = ground (arith, wraps) in
          (
            (λ o. big),
            λ o.
                ap (λ (s : Step). s.outcome)
                  (receive_wrapped accepts p i rest ctrl message h e c (total_wraps h m b l big) a),
          )
    ]
