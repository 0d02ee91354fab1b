-- ===== src/WebSocket/Utf8/Decoding.antt =====
-- What `validate_utf8` accepts as a whole is a text of UTF-8, and nothing else.
use tamer.Prelude.{
  ℕ, zero, suc, ◌+◌, ◌-◌, ◌*◌, ◌/◌, ◌%◌, ◌≤◌, ◌<◌, ◌≡◌, ◌↔◌, refl, sym, ap, subst, ◌∙◌, inl, inr,
  true, List, [], ◌∷◌, some, arith, Option-cases,
}
use tamer.WebSocket.Utf8.{step, scan, validate_utf8}
use tamer.WebSocket.Utf8.Bytes.{Narrow, step_start, step_inside}
use tamer.WebSocket.Utf8.Encoding.{
  AllBytes, IsScalar, AllScalar, IsTail, encode, encode_all, encode_all_accepted,
}

encode_two :
    (a b : ℕ) (rest : List ℕ)
    → 0xC2 ≤ a
    → a < 0xE0
    → IsTail b
    → (c : ℕ) × IsScalar c × (encode c rest ≡ a ∷ b ∷ rest)
unfolding encode
encode_two a b rest lo hi tb =
    let c = (a - 0xC0) * 64 + (b - 128) in
    let lead : 0xC0 + c / 64 ≡ a = omega arith in
    let tail : 128 + c % 64 ≡ b = omega arith in (c, ground arith, ground arith)

encode_three :
    (a b d : ℕ) (rest : List ℕ)
    → 0xE0 ≤ a
    → a < 0xF0
    → IsTail b
    → IsTail d
    → Narrow 2 a b
    → (c : ℕ) × IsScalar c × (encode c rest ≡ a ∷ b ∷ d ∷ rest)
unfolding encode
encode_three a b d rest lo hi tb td n =
    let c = (a - 0xE0) * 4096 + (b - 128) * 64 + (d - 128) in
    let lead : 0xE0 + c / 4096 ≡ a = omega arith in
    let mid : 128 + (c / 64) % 64 ≡ b = omega arith in
    let tail : 128 + c % 64 ≡ d = omega arith in (c, ground arith, ground arith)

encode_four :
    (a b d e : ℕ) (rest : List ℕ)
    → 0xF0 ≤ a
    → a < 0xF5
    → IsTail b
    → IsTail d
    → IsTail e
    → Narrow 3 a b
    → (c : ℕ) × IsScalar c × (encode c rest ≡ a ∷ b ∷ d ∷ e ∷ rest)
unfolding encode
encode_four a b d e rest lo hi tb td te n =
    let c = (a - 0xF0) * 262144 + (b - 128) * 4096 + (d - 128) * 64 + (e - 128) in
    let lead : 0xF0 + c / 262144 ≡ a = omega arith in
    let upper : 128 + (c / 4096) % 64 ≡ b = omega arith in
    let mid : 128 + (c / 64) % 64 ≡ d = omega arith in
    let tail : 128 + c % 64 ≡ e = omega arith in (c, ground arith, ground arith)

-- What is left to read in a state, behind the byte `prev`: the rest of a character, and whole ones.
Left : ℕ → ℕ → List ℕ → Type 0
Left zero prev bs = (cs : List ℕ) × AllScalar cs × (bs ≡ encode_all cs)
Left (suc s) prev bs =
    (b : ℕ) × (rest : List ℕ) × (bs ≡ b ∷ rest) × IsTail b × Narrow (suc s) prev b × Left s b rest

Left-one : (prev a : ℕ) (bs : List ℕ) → a < 128 → Left 0 a bs → Left 0 prev (a ∷ bs)
unfolding Left encode_all encode
Left-one prev a bs h (cs, v, e) = (a ∷ cs, (ground arith, v), ground arith)

Left-two : (prev a : ℕ) (bs : List ℕ) → 0xC2 ≤ a → a < 0xE0 → Left 1 a bs → Left 0 prev (a ∷ bs)
unfolding Left encode_all
Left-two prev a bs lo hi (b, r, e, tb, n, (cs, v, f)) =
    let (c, w, g) = encode_two a b (encode_all cs) lo hi tb in
    (c ∷ cs, (w, v), ap (λ t. a ∷ t) (e ∙ ap (λ t. b ∷ t) f) ∙ sym g)

Left-three : (prev a : ℕ) (bs : List ℕ) → 0xE0 ≤ a → a < 0xF0 → Left 2 a bs → Left 0 prev (a ∷ bs)
unfolding Left encode_all
Left-three prev a bs lo hi (b, r, e, tb, n, (d, q, e', td, n', (cs, v, f))) =
    let (c, w, g) = encode_three a b d (encode_all cs) lo hi tb td n in
    (c ∷ cs, (w, v), ap (λ t. a ∷ t) (e ∙ ap (λ t. b ∷ t) (e' ∙ ap (λ t. d ∷ t) f)) ∙ sym g)

Left-four : (prev a : ℕ) (bs : List ℕ) → 0xF0 ≤ a → a < 0xF5 → Left 3 a bs → Left 0 prev (a ∷ bs)
unfolding Left encode_all
Left-four prev a bs lo hi (b, r, e, tb, n, (d, q, e', td, n', (x, p, e'', tx, n'', (cs, v, f)))) =
    let (c, w, g) = encode_four a b d x (encode_all cs) lo hi tb td tx n in
    (
      c ∷ cs,
      (w, v),
      ap (λ t. a ∷ t) (e ∙ ap (λ t. b ∷ t) (e' ∙ ap (λ t. d ∷ t) (e'' ∙ ap (λ t. x ∷ t) f)))
          ∙ sym g,
    )

pub scan-cons :
    (s prev ch : ℕ) (rest : List ℕ) {t : ℕ}
    → scan s prev (ch ∷ rest) ≡ some t
    → (u : ℕ) × (step s prev ch ≡ some u) × (scan u ch rest ≡ some t)
unfolding scan
scan-cons s prev ch rest e = elim (Option-cases (step s prev ch)) [
  | inl stuck ↦ absurd (ground arith)
  | inr (u, going) ↦ (u, going, ground arith)
]

scan-Left : (s prev : ℕ) (bs : List ℕ) → AllBytes bs → scan s prev bs ≡ some 0 → Left s prev bs
unfolding Left encode_all scan
scan-Left zero prev [] v e = ([], tt, refl)
scan-Left (suc s) prev [] v e = absurd (ground arith)
scan-Left zero prev (ch ∷ rest) v e =
    let (u, p, q) = scan-cons 0 prev ch rest e in
    let l = scan-Left u ch rest v.1 q in
    elim (step_start prev ch v.0 p) [
      | inl (z, h) ↦ Left-one prev ch rest h (subst (λ k. Left k ch rest) z l)
      | inr (inl (z, lo, hi)) ↦ Left-two prev ch rest lo hi (subst (λ k. Left k ch rest) z l)
      | inr (inr (inl (z, lo, hi))) ↦
          Left-three prev ch rest lo hi (subst (λ k. Left k ch rest) z l)
      | inr (inr (inr (z, lo, hi))) ↦ Left-four prev ch rest lo hi (subst (λ k. Left k ch rest) z l)
    ]
scan-Left (suc s) prev (ch ∷ rest) v e =
    let (u, p, q) = scan-cons (suc s) prev ch rest e in
    let l = scan-Left u ch rest v.1 q in
    let (z, lo, hi, n) = step_inside s prev ch v.0 p in
    (ch, rest, refl, (lo, hi), n, subst (λ k. Left k ch rest) z l)

validate-scan : (bs : List ℕ) → (validate_utf8 [] bs true ≡ true) ↔ (scan 0 0 bs ≡ some 0)
unfolding validate_utf8
validate-scan bs = elim (Option-cases (scan 0 0 bs)) [
  | inl stuck ↦ (λ e. ground arith, λ e. ground arith)
  | inr (u, going) ↦ (λ e. ground arith, λ e. ground arith)
]

-- A complete message passes `validate_utf8` exactly if it is the UTF-8 encoding of a sequence of
-- Unicode scalar values.
pub validate_utf8_lem :
    (bs : List ℕ)
    → AllBytes bs
    → (validate_utf8 [] bs true ≡ true) ↔ ((cs : List ℕ) × AllScalar cs × (bs ≡ encode_all cs))
validate_utf8_lem bs v = (
  λ e. unfold Left in scan-Left 0 0 bs v ((validate-scan bs).0 e),
  λ (cs, w, e).
      (validate-scan bs).1 (subst (λ t. scan 0 0 t ≡ some 0) (sym e) (encode_all_accepted cs 0 w)),
)
