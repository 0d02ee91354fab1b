-- ===== src/WebSocket/Utf8/Encoding.antt =====
-- What the scan accepts are the texts of UTF-8: sequences of encoded scalar values.
use tamer.Prelude.{
  ℕ, suc, ◌+◌, ◌/◌, ◌%◌, ◌≤◌, ◌<◌, ◌≡◌, refl, ◌∙◌, ◌⊎◌, inl, inr, List, [], ◌∷◌, some, arith, ltb,
  if◌then◌else◌, Bool-cases, tests,
}
use tamer.WebSocket.Utf8.{step, scan}
use tamer.WebSocket.Utf8.Bytes.{step_ascii, step_lead2, step_lead3, step_lead4, Narrow, step_cont}

abbrev pub AllBytes : List ℕ → Type 0
AllBytes [] = Unit
AllBytes (b ∷ bs) = (b < 256) × AllBytes bs

-- A code point that is not a surrogate.
abbrev pub IsScalar : ℕ → Type 0
IsScalar c = (c < 0xD800) ⊎ ((0xE000 ≤ c) × (c < 0x110000))

abbrev pub AllScalar : List ℕ → Type 0
AllScalar [] = Unit
AllScalar (c ∷ cs) = IsScalar c × AllScalar cs

abbrev tail_byte : ℕ → ℕ
tail_byte c = 128 + c % 64

-- RFC 3629, section 3, in front of the bytes `rest`
unfoldable pub encode : ℕ → List ℕ → List ℕ
encode c rest =
    if ltb c 0x80
    then c ∷ rest
    else if ltb c 0x800
    then (0xC0 + c / 64) ∷ tail_byte c ∷ rest
    else if ltb c 0x10000
    then (0xE0 + c / 4096) ∷ tail_byte (c / 64) ∷ tail_byte c ∷ rest
    else (0xF0 + c / 262144) ∷ tail_byte (c / 4096) ∷ tail_byte (c / 64) ∷ tail_byte c ∷ rest

unfoldable pub encode_all : List ℕ → List ℕ
encode_all [] = []
encode_all (c ∷ cs) = encode c (encode_all cs)

pub scan-step :
    (state prev ch : ℕ) (rest : List ℕ) {t : ℕ}
    → step state prev ch ≡ some t
    → scan state prev (ch ∷ rest) ≡ scan t ch rest
unfolding scan
scan-step state prev ch rest e = ground arith

Skips : ℕ → ℕ → List ℕ → List ℕ → Type 0
Skips state prev bs rest = (last : ℕ) × (scan state prev bs ≡ scan 0 last rest)

abbrev pub IsTail : ℕ → Type 0
IsTail b = (128 ≤ b) × (b < 192)

skip_one : (prev a : ℕ) (rest : List ℕ) → a < 128 → Skips 0 prev (a ∷ rest) rest
unfolding Skips
skip_one prev a rest h = (a, scan-step 0 prev a rest (step_ascii prev a h))

skip_tail :
    (s prev b : ℕ) (bs rest : List ℕ)
    → IsTail b
    → Narrow (suc s) prev b
    → Skips s b bs rest
    → Skips (suc s) prev (b ∷ bs) rest
unfolding Skips
skip_tail s prev b bs rest (lo, hi) n (last, e) =
    (last, scan-step (suc s) prev b bs (step_cont s prev b lo hi n) ∙ e)

skip_none : (prev : ℕ) (rest : List ℕ) → Skips 0 prev rest rest
unfolding Skips
skip_none prev rest = (prev, refl)

skip_two :
    (prev a b : ℕ) (rest : List ℕ)
    → 0xC2 ≤ a
    → a < 0xE0
    → IsTail b
    → Skips 0 prev (a ∷ b ∷ rest) rest
unfolding Skips
skip_two prev a b rest lo hi tb =
    let (last, e) = skip_tail 0 a b rest rest tb (ground arith) (skip_none b rest) in
    (last, scan-step 0 prev a (b ∷ rest) (step_lead2 prev a lo hi) ∙ e)

skip_three :
    (prev a b c : ℕ) (rest : List ℕ)
    → 0xE0 ≤ a
    → a < 0xF0
    → IsTail b
    → IsTail c
    → Narrow 2 a b
    → Skips 0 prev (a ∷ b ∷ c ∷ rest) rest
unfolding Skips
skip_three prev a b c rest lo hi tb tc n =
    let last_two = skip_tail 0 b c rest rest tc (ground arith) (skip_none c rest) in
    let (last, e) = skip_tail 1 a b (c ∷ rest) rest tb n last_two in
    (last, scan-step 0 prev a (b ∷ c ∷ rest) (step_lead3 prev a lo hi) ∙ e)

skip_four :
    (prev a b c d : ℕ) (rest : List ℕ)
    → 0xF0 ≤ a
    → a < 0xF5
    → IsTail b
    → IsTail c
    → IsTail d
    → Narrow 3 a b
    → Skips 0 prev (a ∷ b ∷ c ∷ d ∷ rest) rest
unfolding Skips
skip_four prev a b c d rest lo hi tb tc td n =
    let last_two = skip_tail 0 c d rest rest td (ground arith) (skip_none d rest) in
    let last_three = skip_tail 1 b c (d ∷ rest) rest tc (ground arith) last_two in
    let (last, e) = skip_tail 2 a b (c ∷ d ∷ rest) rest tb n last_three in
    (last, scan-step 0 prev a (b ∷ c ∷ d ∷ rest) (step_lead4 prev a lo hi) ∙ e)

-- The scan passes every encoded scalar value.
scan-encode : (c prev : ℕ) (rest : List ℕ) → IsScalar c → Skips 0 prev (encode c rest) rest
unfolding encode
scan-encode c prev rest v = elim (Bool-cases (ltb c 0x80)) [
  | inl one ↦ rw one (skip_one prev c rest (omega (tests)))
  | inr n1 ↦ elim (Bool-cases (ltb c 0x800)) [
    | inl two ↦ rw (n1, two) (skip_two prev _ _ rest (ground arith) (ground arith) (ground arith))
    | inr n2 ↦ elim (Bool-cases (ltb c 0x10000)) [
      | inl three ↦
          rw (n1, n2, three)
            (skip_three prev _ _ _ rest (ground arith) (ground arith) (ground arith) (ground arith)
              (ground arith))
      | inr n3 ↦
          rw (n1, n2, n3)
            (skip_four prev _ _ _ _ rest (ground arith) (ground arith) (ground arith) (ground arith)
              (ground arith) (ground arith))
    ]
  ]
]

pub encode_all_accepted :
    (cs : List ℕ) (prev : ℕ) → AllScalar cs → scan 0 prev (encode_all cs) ≡ some 0
unfolding encode_all scan Skips
encode_all_accepted [] prev v = refl
encode_all_accepted (c ∷ cs) prev v =
    let (last, e) = scan-encode c prev (encode_all cs) v.0 in e ∙ encode_all_accepted cs last v.1
