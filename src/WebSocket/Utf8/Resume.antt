-- ===== src/WebSocket/Utf8/Resume.antt =====
-- A message in fragments: `validate_utf8` sees the bytes of a new fragment, and backs up over those it
-- has accepted.
use tamer.Prelude.{
  ℕ, ◌≡◌, refl, sym, ap, ◌∙◌, inl, inr, Bool, true, false, List, [], ◌∷◌, Option, none, some, arith,
  Option-cases, Bool-cases,
}
use tamer.WebSocket.Utf8.{is_continuation, last_of, step, scan, back, validate_utf8}
use tamer.WebSocket.Utf8.Decoding.{scan-cons}

-- The whole text: `front`, nearest byte first, and then `rest`.
unfoldable pub onto : List ℕ → List ℕ → List ℕ
onto [] rest = rest
onto (c ∷ front) rest = onto front (c ∷ rest)

after : List ℕ → Option ℕ
after front = scan 0 0 (onto front [])

resume : Option ℕ → ℕ → List ℕ → Option ℕ
resume none prev rest = none
resume (some t) prev rest = scan t prev rest

resume-one :
    (o : Option ℕ) (prev c : ℕ) (rest : List ℕ)
    → resume o prev (c ∷ rest) ≡ resume (resume o prev (c ∷ [])) c rest
unfolding resume scan
resume-one none prev c rest = refl
resume-one (some t) prev c rest = elim (Option-cases (step t prev c)) [
  | inl stuck ↦ ground arith
  | inr (u, going) ↦ ground arith
]

scan-onto :
    (front rest : List ℕ) → scan 0 0 (onto front rest) ≡ resume (after front) (last_of front) rest
unfolding onto after resume scan
scan-onto [] rest = refl
scan-onto (c ∷ front) rest =
    scan-onto front (c ∷ rest)
    ∙ resume-one (after front) (last_of front) c rest
    ∙ ap (λ o. resume o c rest) (sym (scan-onto front (c ∷ [])))

-- The state in front of an accepted byte.
after-cons :
    (c : ℕ) (front : List ℕ) {s : ℕ}
    → after (c ∷ front) ≡ some s
    → (t : ℕ) × (after front ≡ some t) × (step t (last_of front) c ≡ some s)
unfolding onto after resume scan
after-cons c front {s} e = elim (Option-cases (after front)) [
  | inl stuck ↦ absurd (ground (arith, scan-onto front (c ∷ [])))
  | inr (t, going) ↦
      let same : scan t (last_of front) (c ∷ []) ≡ some s =
        ground (arith, scan-onto front (c ∷ [])) in
      let (u, p, q) = scan-cons t (last_of front) c [] same in (t, going, p ∙ q)
]

-- A byte that is no continuation passes in state 0 only.
lead_state : (t prev c : ℕ) {s : ℕ} → is_continuation c ≡ false → step t prev c ≡ some s → t ≡ 0
unfolding step
lead_state t prev c n e = ground arith

scan-back :
    (front rest : List ℕ) {s : ℕ}
    → after front ≡ some s
    → scan 0 0 (onto front rest) ≡ scan 0 (last_of (back front rest).0) (back front rest).1
unfolding back onto resume
scan-back [] rest e = refl
scan-back (c ∷ front) rest e =
    let (t, p, q) = after-cons c front e in
    let further = scan-back front (c ∷ rest) p in
    elim (Bool-cases (is_continuation c)) [
      | inl cont ↦ rw cont further
      | inr lead ↦
          let zero_state = lead_state t (last_of front) c lead q in
          rw lead (
            scan-onto front (c ∷ rest)
            ∙ ap (λ o. resume o (last_of front) (c ∷ rest)) (p ∙ ap (λ k. some k) zero_state))
    ]

accepted : (bs : List ℕ) → validate_utf8 [] bs false ≡ true → (s : ℕ) × (scan 0 0 bs ≡ some s)
unfolding validate_utf8
accepted bs e = elim (Option-cases (scan 0 0 bs)) [
  | inl stuck ↦ absurd (ground arith)
  | inr (u, going) ↦ (u, going)
]

-- If the bytes in front of a fragment were accepted as the start of a text, then the check of the
-- fragment gives what a check of the whole text from its first byte gives.
pub validate_utf8_resumed :
    (front rest : List ℕ) (complete : Bool)
    → validate_utf8 [] (onto front []) false ≡ true
    → validate_utf8 front rest complete ≡ validate_utf8 [] (onto front rest) complete
unfolding validate_utf8 after
validate_utf8_resumed front rest complete e =
    let (s, going) = accepted (onto front []) e in
    let same = scan-back front rest going in ground arith
