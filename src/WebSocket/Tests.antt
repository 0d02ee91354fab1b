-- ===== src/WebSocket/Tests.antt =====
-- The euro sign, whole and in two fragments, and a payload of five bytes under a key.
use tamer.Prelude.{
  ℕ, ◌-◌, ◌^◌, none, ◌≡◌, ◌↔◌, refl, true, false, List, [], ◌∷◌, ◌++◌, some, inr, arith,
}
use tamer.WebSocket.Frame.{
  Message, no_message, new_parser, receive_any, Input, read_header, expected_length, check_header,
  payload_length, start_message, overrun,
}
use tamer.WebSocket.Frame.Check.{Fits}
use tamer.WebSocket.Frame.RoundTrip.{delivered, send-receive_any}
use tamer.WebSocket.Frame.Overrun.{receive_any-overrun}
use tamer.WebSocket.Send.{send, plain_header}
use tamer.WebSocket.Utf8.{validate_utf8, back, scan, step}
use tamer.WebSocket.Utf8.Encoding.{AllScalar, encode_all}
use tamer.WebSocket.Utf8.Decoding.{validate_utf8_lem}
use tamer.WebSocket.Utf8.Resume.{onto, validate_utf8_resumed}
use tamer.WebSocket.Mask.{Mask, mask_bytes, mask_words, do_mask}
use tamer.WebSocket.Mask.Laws.{IsMask, masked, do_mask_lem}

abbrev euro : List ℕ
euro = 0xE2 ∷ 0x82 ∷ 0xAC ∷ []

validate_utf8_lem_example :
    (validate_utf8 [] euro true ≡ true) ↔ ((cs : List ℕ) × AllScalar cs × (euro ≡ encode_all cs))
validate_utf8_lem_example = validate_utf8_lem euro (omega arith, (omega arith, (omega arith, tt)))

euro_front : validate_utf8 [] (onto (0x82 ∷ 0xE2 ∷ []) []) false ≡ true
unfolding validate_utf8 onto back scan step
euro_front = refl

-- an encoded surrogate is refused
surrogate : validate_utf8 [] (0xED ∷ 0xA0 ∷ 0x80 ∷ []) false ≡ false
unfolding validate_utf8 back scan step
surrogate = refl

validate_utf8_resumed_example :
    validate_utf8 (0x82 ∷ 0xE2 ∷ []) (0xAC ∷ []) true
    ≡ validate_utf8 [] (onto (0x82 ∷ 0xE2 ∷ []) (0xAC ∷ [])) true
validate_utf8_resumed_example = validate_utf8_resumed (0x82 ∷ 0xE2 ∷ []) (0xAC ∷ []) true euro_front

abbrev hello : List ℕ
hello = 0x48 ∷ 0x65 ∷ 0x6C ∷ 0x6C ∷ 0x6F ∷ []

-- the key of RFC 6455, section 5.7
abbrev key : Mask
key = record { c0 = 0x37; c1 = 0xFA; c2 = 0x21; c3 = 0x3D }

key-IsMask : IsMask key
key-IsMask = record { b0 = omega arith; b1 = omega arith; b2 = omega arith; b3 = omega arith }

rfc_example : do_mask hello key ≡ 0x7F ∷ 0x9F ∷ 0x4D ∷ 0x51 ∷ 0x58 ∷ []
unfolding do_mask mask_words mask_bytes
rfc_example = refl

do_mask_lem_example : do_mask hello key ≡ masked key 0 hello
do_mask_lem_example =
    do_mask_lem hello key key-IsMask
      (omega arith, (omega arith, (omega arith, (omega arith, (omega arith, tt)))))

-- the masked frame of RFC 6455, section 5.7, from a client
abbrev hello_text : Message
hello_text = record { error = 0; incomplete = false; opcode = 1; body = hello }

abbrev hello_frame : List ℕ
hello_frame = 0x81 ∷ 0x85 ∷ 0x37 ∷ 0xFA ∷ 0x21 ∷ 0x3D ∷ 0x7F ∷ 0x9F ∷ 0x4D ∷ 0x51 ∷ 0x58 ∷ []

hello_sent : send (some key) (new_parser true) hello_text ≡ some (new_parser true, hello_frame)
unfolding send plain_header do_mask mask_words mask_bytes
hello_sent = refl

hello_valid : validate_utf8 [] hello true ≡ true
unfolding validate_utf8 back scan step
hello_valid = refl

hello-Fits : Fits hello_text 0
unfolding Fits
hello-Fits = inr (inr (omega arith, omega arith, refl))

send-receive_any_example :
    receive_any
      (λ n cap. true)
      (new_parser false)
      (record { bytes = hello_frame ++ (0x88 ∷ []); broken = false })
      no_message
      no_message
    ≡ delivered hello_text no_message no_message
        (new_parser false)
        (record { bytes = 0x88 ∷ []; broken = false })
send-receive_any_example =
    send-receive_any (λ n cap. true) key (new_parser true) (new_parser true) (new_parser false)
      hello_text hello_frame (0x88 ∷ []) false no_message no_message hello_sent refl hello-Fits
      key-IsMask (omega arith, (omega arith, (omega arith, (omega arith, (omega arith, tt)))))
      (omega arith) refl (λ o. hello_valid)

-- A first fragment of one byte, and a last one that says that 2 ^ 64 - 1 bytes follow.
abbrev long_header : List ℕ
long_header = 0x80 ∷ 0x7F ∷ 0xFF ∷ 0xFF ∷ 0xFF ∷ 0xFF ∷ 0xFF ∷ 0xFF ∷ 0xFF ∷ 0xFF ∷ []

abbrev one_byte : Message
one_byte = record { error = 0; incomplete = true; opcode = 2; body = 7 ∷ [] }

abbrev flood : Input
flood = record { bytes = long_header ++ hello; broken = false }

flood_header : read_header flood ≡ (long_header, false, record { bytes = hello; broken = false })
unfolding read_header expected_length
flood_header = refl

flood_passes : check_header true false long_header 2 ≡ none
unfolding check_header expected_length
flood_passes = refl

flood_length : payload_length long_header ≡ 2 ^ 64 - 1
unfolding payload_length
flood_length = refl

flood_body : (start_message long_header one_byte).body ≡ 7 ∷ []
unfolding start_message
flood_body = refl

-- the payload is read behind a body that is empty then
flood_overruns :
    (receive_any (λ n cap. true) (new_parser true) flood no_message one_byte).outcome ≡ overrun
flood_overruns =
    (receive_any-overrun (λ n cap. true) (new_parser true) flood
        (record { bytes = hello; broken = false }) no_message one_byte long_header flood_header
        flood_passes (rw flood_body (omega arith)) (rw flood_length (omega arith)) refl).1
      (rw flood_body (rw flood_length (omega arith)))
