-- ===== src/AsapSet/Window.antt =====
-- The slots of a ring read in order, and what a write does to them.
use native.Mathlib.Nat.{
  mod-add-mod, mod-lt, mod-eq_of_lt, mod-eq-sub-mod, add-zero, add-suc, pow-suc,
  add-mul-mod_self_right, mod-add-div',
}
use native.Mathlib.Decide.{dec_lt}
use tamer.Prelude.{
  ℕ, zero, suc, ◌+◌, ◌-◌, ◌*◌, ◌/◌, ◌%◌, ◌^◌, ◌≤◌, ◌<◌, ◌≡◌, refl, ap, ap₂, sym, ◌∙◌, ◌≢◌, List, [],
  ◌∷◌, ◌++◌, arith, bit_and, add32, store,
}
use tamer.Prelude.Bits.{bit_and-mask}

-- `n` slots from counter `h` on, in a ring of `c` slots
abbrev pub window : (ℕ → ℕ) → ℕ → ℕ → ℕ → List ℕ
window ses c h zero = []
window ses c h (suc n) = ses (h % c) ∷ window ses c (h + 1) n

-- the same with the code's counters, which wrap, and its mask
abbrev pub slots : (ℕ → ℕ) → ℕ → ℕ → ℕ → List ℕ
slots ses mask h zero = []
slots ses mask h (suc n) = ses (bit_and h mask) ∷ slots ses mask (add32 h 1) n

window-mod : (ses : ℕ → ℕ) (c n h h' : ℕ) → h % c ≡ h' % c → window ses c h n ≡ window ses c h' n
window-mod ses c zero h h' e = refl
window-mod ses c (suc n) h h' e = ap₂ ◌∷◌ (ap ses e) (
    window-mod ses c n (h + 1) (h' + 1)
      (sym (mod-add-mod h c 1) ∙ ap (λ t. (t + 1) % c) e ∙ mod-add-mod h' c 1))

-- `2^32` is a multiple of every smaller power of two.
pow-add : (m k : ℕ) → 2 ^ (m + k) ≡ 2 ^ m * 2 ^ k
pow-add m zero = rw add-zero (omega arith)
pow-add m (suc k) = rw (add-suc m k, pow-suc 2 (m + k), pow-suc 2 k, pow-add m k) (omega arith)

mod_of_multiple : (h q c : ℕ) → h % (q * c) % c ≡ h % c
mod_of_multiple h q c =
    sym (add-mul-mod_self_right (h % (q * c)) (h / (q * c) * q) c)
    ∙ ap (λ t. t % c) (omega (arith, mod-add-div' h (q * c)))

pub wrap-mod : (k h : ℕ) → k < 32 → h % 2 ^ 32 % 2 ^ k ≡ h % 2 ^ k
wrap-mod k h b =
    let whole : 32 - k + k ≡ 32 = omega arith in
    let split : 2 ^ 32 ≡ 2 ^ (32 - k) * 2 ^ k = ap (λ t. 2 ^ t) (sym whole) ∙ pow-add (32 - k) k in
    ap (λ t. h % t % 2 ^ k) split ∙ mod_of_multiple h (2 ^ (32 - k)) (2 ^ k)

pub slots-window :
    (ses : ℕ → ℕ) (k n h : ℕ) → k < 32 → slots ses (2 ^ k - 1) h n ≡ window ses (2 ^ k) h n
slots-window ses k zero h b = refl
slots-window ses k (suc n) h b = ap₂ ◌∷◌ (ap ses (bit_and-mask k h)) (
    slots-window ses k n (add32 h 1) b
    ∙ window-mod ses (2 ^ k) n (add32 h 1) (h + 1) (wrap-mod k (h + 1) b))

-- The window grows at its end.
pub window-snoc :
    (ses : ℕ → ℕ) (c h n : ℕ)
    → window ses c h (suc n) ≡ window ses c h n ++ (ses ((h + n) % c) ∷ [])
window-snoc ses c h zero = ap (λ t. ses (t % c) ∷ []) (omega arith)
window-snoc ses c h (suc n) = ap (◌∷◌ (ses (h % c))) (
    window-snoc ses c (h + 1) n
    ∙ ap (λ t. window ses c (h + 1) n ++ (ses (t % c) ∷ [])) (omega arith))

mod_shift : (r d c : ℕ) → r < c → 0 < d → d < c → r ≢ (r + d) % c
mod_shift r d c small lo hi e = elim (dec_lt (r + d) c) [
  | yes h ↦ omega (arith, mod-eq_of_lt h)
  | no out ↦ omega (
    arith,
    mod-eq-sub-mod {n = r + d} {m = c} (omega arith),
    mod-eq_of_lt {n = r + d - c} {m = c} (omega arith),
  )
]

-- Two counters less than a ring apart name different slots.
mod_apart : (h d c : ℕ) → 0 < d → d < c → h % c ≢ (h + d) % c
mod_apart h d c lo hi e =
    mod_shift (h % c) d c (mod-lt h (omega arith)) lo hi (e ∙ sym (mod-add-mod h c d))

-- A write at a counter past the window leaves it alone, up to a whole ring away.
pub window-store :
    (ses : ℕ → ℕ) (c h n d v : ℕ)
    → n ≤ d
    → d < c
    → window (store ses ((h + d) % c) v) c h n ≡ window ses c h n
window-store ses c h zero d v le lt = refl
window-store ses c h (suc n) d v le lt =
    let shifted : h + 1 + (d - 1) ≡ h + d = omega arith in
    ap₂ ◌∷◌ (ground (arith, mod_apart h d c))
      (rw shifted at (window-store ses c (h + 1) n (d - 1) v (omega arith) (omega arith)))
