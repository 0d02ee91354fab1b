-- ===== src/WebSocket/Utf8/Bytes.antt =====
-- The bit tests of `validate_utf8` as ranges of the byte.
use tamer.Prelude.{
  ℕ, zero, suc, ◌≤◌, ◌<◌, ◌≡◌, refl, ◌⊎◌, Bool, true, not, ◌&&◌, some, arith, ltb, leb,
}
use tamer.WebSocket.Utf8.{is_continuation, differ, step}

-- `p` holds of every number below `n`
every : ℕ → (ℕ → Bool) → Bool
every zero p = true
every (suc n) p = every n p && p n

every_lem : (n : ℕ) (p : ℕ → Bool) (x : ℕ) → every n p ≡ true → x < n → p x ≡ true
unfolding every
every_lem zero p x h lt = absurd (omega arith)
every_lem (suc n) p x h lt = ground (arith, every_lem n p x)

cont_agrees : ℕ → Bool
cont_agrees ch = not (differ (is_continuation ch) (leb 128 ch && ltb ch 192))

table : every 256 cont_agrees ≡ true
unfolding every cont_agrees
table = refl

pub is_continuation_range : (ch : ℕ) → ch < 256 → is_continuation ch ≡ (leb 128 ch && ltb ch 192)
unfolding cont_agrees
is_continuation_range ch h = let e = every_lem 256 cont_agrees ch table h in ground arith

pub step_ascii : (prev ch : ℕ) → ch < 128 → step 0 prev ch ≡ some 0
unfolding step
step_ascii prev ch h = ground arith

pub step_lead2 : (prev ch : ℕ) → 0xC2 ≤ ch → ch < 0xE0 → step 0 prev ch ≡ some 1
unfolding step
step_lead2 prev ch lo hi = ground (arith, is_continuation_range ch)

pub step_lead3 : (prev ch : ℕ) → 0xE0 ≤ ch → ch < 0xF0 → step 0 prev ch ≡ some 2
unfolding step
step_lead3 prev ch lo hi = ground (arith, is_continuation_range ch)

pub step_lead4 : (prev ch : ℕ) → 0xF0 ≤ ch → ch < 0xF5 → step 0 prev ch ≡ some 3
unfolding step
step_lead4 prev ch lo hi = ground (arith, is_continuation_range ch)

-- What the byte behind a lead byte may be, in the state that the lead byte sets.
abbrev pub Narrow : ℕ → ℕ → ℕ → Type 0
Narrow state prev ch =
    (state ≡ 2 → prev ≡ 0xE0 → 0xA0 ≤ ch)
    × (state ≡ 2 → prev ≡ 0xED → ch < 0xA0)
    × (state ≡ 3 → prev ≡ 0xF0 → 0x90 ≤ ch)
    × (state ≡ 3 → prev ≡ 0xF4 → ch < 0x90)

pub step_cont :
    (s prev ch : ℕ) → 128 ≤ ch → ch < 192 → Narrow (suc s) prev ch → step (suc s) prev ch ≡ some s
unfolding step
step_cont s prev ch lo hi n = ground (arith, is_continuation_range ch)

-- The four ways in which a byte passes at the start of a character.
pub step_start :
    (prev ch : ℕ) {s : ℕ}
    → ch < 256
    → step 0 prev ch ≡ some s
    → ((s ≡ 0) × (ch < 128))
      ⊎ ((s ≡ 1) × (0xC2 ≤ ch) × (ch < 0xE0))
      ⊎ ((s ≡ 2) × (0xE0 ≤ ch) × (ch < 0xF0))
      ⊎ ((s ≡ 3) × (0xF0 ≤ ch) × (ch < 0xF5))
unfolding step
step_start prev ch h e = ground (arith, is_continuation_range ch)

pub step_inside :
    (s prev ch : ℕ) {t : ℕ}
    → ch < 256
    → step (suc s) prev ch ≡ some t
    → (t ≡ s) × (128 ≤ ch) × (ch < 192) × Narrow (suc s) prev ch
unfolding step
step_inside s prev ch h e = ground (arith, is_continuation_range ch)
