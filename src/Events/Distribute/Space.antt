-- ===== src/Events/Distribute/Space.antt =====
-- The array of a distributed event has room for each child that is added.
use tamer.Prelude.{
  ℕ, zero, suc, ◌+◌, ◌-◌, ◌*◌, ◌/◌, ◌%◌, ◌^◌, ◌≤◌, ◌<◌, ◌≡◌, refl, sym, ap, ◌∙◌, Bool, true, false,
  List, [], ◌∷◌, ◌++◌, some, ◌==◌, if◌then◌else◌, ltb, bit_and, length, arith, Bool-cases, inl, inr,
  length-append,
}
use native.Mathlib.Nat.{pow-suc}
use mathlib.Core.List.{append_assoc, append-nil}
use tamer.Prelude.Bits.{bit_and-halves, bit_and-mask, pow-pos}
use tamer.Events.Typed.{Handle}
use tamer.Events.Distribute.{Distribute, new_distribute, grow, full, add, add_all}

-- `n & n`
self_upto : (fuel n : ℕ) → n ≤ fuel → bit_and n n ≡ n
self_upto zero n h = let z : n ≡ 0 = omega arith in rw z refl
self_upto (suc fuel) n h = elim (Bool-cases (n == 0)) [
  | inl e ↦ let z : n ≡ 0 = ground arith in rw z refl
  | inr e ↦ ground (arith, bit_and-halves n n, self_upto fuel (n / 2) (ground arith))
]

double : (n k : ℕ) → n % 2 == 0 ≡ true → n / 2 ≡ 2 ^ k → n ≡ 2 ^ suc k
double n k h e = rw (pow-suc 2 k) (ground arith)

-- `n & (n - 1)` is 0 for powers of two alone.
power_upto : (fuel n : ℕ) → n ≤ fuel → 0 < n → bit_and n (n - 1) ≡ 0 → (k : ℕ) × (n ≡ 2 ^ k)
power_upto zero n h p e = absurd (omega arith)
power_upto (suc fuel) n h p e = elim (Bool-cases (n == 1)) [
  | inl one ↦ (0, ground arith)
  | inr more ↦ elim (Bool-cases (n % 2 == 0)) [
    | inl even ↦
        let half : (n - 1) / 2 ≡ n / 2 - 1 = ground arith in
        let step = bit_and-halves n (n - 1) in
        let (k, q) =
          power_upto fuel (n / 2) (ground arith) (ground arith) (ground (arith, rw half at step)) in
        (suc k, double n k even q)
    | inr odd ↦
        let half : (n - 1) / 2 ≡ n / 2 = ground arith in
        let step = bit_and-halves n (n - 1) in
        absurd (ground (arith, rw half at step, self_upto n (n / 2) (ground arith)))
  ]
]

-- The array has a power of two of places, at least two, and the children fit.
pub record Roomy (d : Distribute) : Type 0 where
  pub power : (k : ℕ) × (d.space ≡ 2 ^ suc k)
  pub fits : length d.es ≤ d.space

self_mod : (n : ℕ) → 0 < n → n % n ≡ 0
self_mod n h = grind arith

power_masked : (k : ℕ) → bit_and (2 ^ k) (2 ^ k - 1) ≡ 0
power_masked k = bit_and-mask k (2 ^ k) ∙ self_mod (2 ^ k) (pow-pos k)

power-full : (k : ℕ) → full (2 ^ suc k) ≡ true
unfolding full
power-full k = ground (arith, power_masked (suc k), pow-suc 2 k, pow-pos k)

full_power : (n : ℕ) → full n ≡ true → (k : ℕ) × (n ≡ 2 ^ k) × (2 ≤ n)
unfolding full
full_power n h =
    let (k, e) = power_upto n n (omega arith) (ground (arith, h)) (ground (arith, h)) in
    (k, e, ground (arith, h))

not_full : (n s k : ℕ) → n ≤ s → s ≡ 2 ^ suc k → full n ≡ false → ltb n s ≡ true
not_full n s k h e f = elim (Bool-cases (ltb n s)) [
  | inl b ↦ b
  | inr b ↦
      let same : n ≡ 2 ^ suc k = ground (arith, b) in
      let yes_full : full n ≡ true = ap full same ∙ power-full k in
      absurd (ground (arith, f, yes_full))
]

counted :
    (a b c : ℕ) (shared : Bool)
    → b ≡ (if shared then a + 1 else a) + c
    → b ≡ a + ((if shared then 1 else 0) + c)
counted a b c true h = omega arith
counted a b c false h = omega arith

-- One more child: there is room for it.
abbrev more : Distribute → Handle → Bool → Distribute
more d e shared = record {
  es = d.es ++ (e ∷ []);
  space = if full (length d.es) then length d.es * 2 else d.space;
  outstanding = if shared then d.outstanding + 1 else d.outstanding;
  vs = d.vs;
}

add_lem :
    (d : Distribute) (e : Handle) (shared : Bool)
    → Roomy d
    → (add d e shared ≡ some (more d e shared)) × Roomy (more d e shared)
unfolding add grow
add_lem d e shared r =
    let len = length-append {0} d.es (e ∷ []) in
    elim (Bool-cases (full (length d.es))) [
      | inl f ↦
          let (k, eq, two) = full_power (length d.es) f in
          let room : ltb (length d.es) (length d.es * 2) ≡ true = ground arith in
          (
            rw f (rw room refl),
            record {
              power = rw f (k, ap (λ n. n * 2) eq ∙ sym (pow-suc 2 k));
              fits = rw f (omega (arith, len));
            },
          )
      | inr f ↦
          let (k, eq) = r.power in
          let room = not_full (length d.es) d.space k r.fits eq f in
          (
            rw f (rw room refl),
            record { power = rw f (k, eq); fits = rw f (ground (arith, room, len)) },
          )
    ]

pub start-Roomy : (vs : List ℕ) → Roomy (new_distribute vs)
start-Roomy vs = record { power = (0, refl); fits = omega arith }

abbrev pub handles : List (Handle × Bool) → List Handle
handles [] = []
handles ((e, shared) ∷ es) = e ∷ handles es

abbrev pub count_shared : List (Handle × Bool) → ℕ
count_shared [] = 0
count_shared ((e, shared) ∷ es) = (if shared then 1 else 0) + count_shared es

add_all-Roomy :
    (d : Distribute) (es : List (Handle × Bool))
    → Roomy d
    → (n : Distribute) × (add_all d es ≡ some n)
      × (n.es ≡ d.es ++ handles es)
      × (n.outstanding ≡ d.outstanding + count_shared es)
unfolding add_all
add_all-Roomy d [] r = (d, refl, sym (append-nil d.es), omega arith)
add_all-Roomy d ((e, shared) ∷ es) r =
    let (eq, s) = add_lem d e shared r in
    let (n, run, all, count) = add_all-Roomy (more d e shared) es s in
    (
      n,
      rw (eq, add_all) run,
      all ∙ append_assoc d.es (e ∷ []) (handles es),
      counted d.outstanding n.outstanding (count_shared es) shared count,
    )

-- Any number of children can be added to a distributed event one after another, and none is written past the end
-- of its array, which grows; they stand there in their order, and `outstanding` is how many of them had more
-- than one reference.
pub add_all_lem :
    (vs : List ℕ) (es : List (Handle × Bool))
    → (n : Distribute) × (add_all (new_distribute vs) es ≡ some n)
      × (n.es ≡ handles es)
      × (n.outstanding ≡ count_shared es)
add_all_lem vs es =
    let (n, run, all, count) = add_all-Roomy (new_distribute vs) es (start-Roomy vs) in
    (n, run, all, omega arith)
