-- ===== src/Refs/Pointers.antt =====
-- A program with any number of pointer variables: every count is the number of variables that point to
-- the object, and an object is there as long as one does.
use tamer.Prelude.{
  ℕ, zero, suc, ◌+◌, ◌^◌, ◌≤◌, ◌<◌, ◌≡◌, refl, ap, ◌∙◌, ◌⊎◌, inl, inr, List, [], ◌∷◌, ◌++◌, Option,
  none, some, arith, length, set, length-set,
}
use tamer.Refs.{
  Memory, at, remove, exchange, Op, make, copy, move, assign, swap, destroy, watch, copy_passive,
  move_passive, assign_passive, swap_passive, destroy_passive,
}
use tamer.Refs.Balance.{hit, Balanced}

-- How many variables point to the object.
abbrev pub pointers : ℕ → List (Option ℕ) → ℕ
pointers t [] = 0
pointers t (p ∷ ps) = hit t p + pointers t ps

pub pointers-append :
    (t : ℕ) (ps : List (Option ℕ)) (p : Option ℕ)
    → pointers t (ps ++ (p ∷ [])) ≡ pointers t ps + hit t p
pointers-append t [] p = omega arith
pointers-append t (q ∷ ps) p = omega (arith, pointers-append t ps p)

pub pointers-set :
    (t : ℕ) (ps : List (Option ℕ)) (i : ℕ) (p : Option ℕ)
    → i < length ps
    → pointers t (set ps i p) + hit t (at ps i) ≡ pointers t ps + hit t p
pointers-set t [] i p h = absurd (omega arith)
pointers-set t (q ∷ ps) zero p h = omega arith
pointers-set t (q ∷ ps) (suc i) p h = omega (arith, pointers-set t ps i p (omega arith))

pub pointers-remove :
    (t : ℕ) (ps : List (Option ℕ)) (i : ℕ)
    → i < length ps
    → pointers t (remove ps i) + hit t (at ps i) ≡ pointers t ps
unfolding remove
pointers-remove t [] i h = absurd (omega arith)
pointers-remove t (q ∷ ps) zero h = omega arith
pointers-remove t (q ∷ ps) (suc i) h = omega (arith, pointers-remove t ps i (omega arith))

pub hit_le : (t : ℕ) (p : Option ℕ) → hit t p ≤ 1
hit_le t none = omega arith
hit_le t (some u) = ground arith

pub pointers_le : (t : ℕ) (ps : List (Option ℕ)) → pointers t ps ≤ length ps
pointers_le t [] = omega arith
pointers_le t (p ∷ ps) = omega (arith, hit_le t p, pointers_le t ps)

pub at_counted :
    (t : ℕ) (ps : List (Option ℕ)) (i : ℕ) → i < length ps → hit t (at ps i) ≤ pointers t ps
at_counted t [] i h = absurd (omega arith)
at_counted t (p ∷ ps) zero h = omega arith
at_counted t (p ∷ ps) (suc i) h = omega (arith, at_counted t ps i (omega arith))

pub at_held :
    (t : ℕ) (ps : List (Option ℕ)) (i : ℕ) → i < length ps → at ps i ≡ some t → 0 < pointers t ps
at_held t ps i h e =
    let one : hit t (at ps i) ≡ 1 = ap (hit t) e ∙ ground arith in
    omega (arith, at_counted t ps i h)

at-set :
    (ps : List (Option ℕ)) (i j : ℕ) (p : Option ℕ)
    → (at (set ps i p) j ≡ p) ⊎ (at (set ps i p) j ≡ at ps j)
at-set [] i j p = inr refl
at-set (q ∷ ps) zero zero p = inl refl
at-set (q ∷ ps) zero (suc j) p = inr refl
at-set (q ∷ ps) (suc i) zero p = inr refl
at-set (q ∷ ps) (suc i) (suc j) p = at-set ps i j p

pub at-exchange : (ps : List (Option ℕ)) (i j : ℕ) → at (set ps i (at ps j)) j ≡ at ps j
at-exchange ps i j = elim (at-set ps i j (at ps j)) [ inl e ↦ e | inr e ↦ e ]

pub pointers-exchange :
    (t : ℕ) (ps : List (Option ℕ)) (i j : ℕ)
    → i < length ps
    → j < length ps
    → pointers t (exchange ps i j) ≡ pointers t ps
pointers-exchange t ps i j h k =
    let first = pointers-set t ps i (at ps j) h in
    let qs = set ps i (at ps j) in
    let second = pointers-set t qs j (at ps i) (omega (arith, length-set ps i (at ps j))) in
    let same : hit t (at qs j) ≡ hit t (at ps j) = ap (hit t) (at-exchange ps i j) in
    omega (arith, first, second, same)

-- Every count is the number of variables that point to the object, and there is room in the counters.
pub record IsValid (m : Memory) : Type 0 where
  pub balanced : Balanced m.objs (λ t. pointers t m.refs) (λ t. pointers t m.passive)

pub record Room (m : Memory) : Type 0 where
  pub refs_room : length m.refs + 2 < 2 ^ 32
  pub passive_room : length m.passive + 2 < 2 ^ 32

-- The variables exist, and the object of `make` is new.
abbrev pub Applies : Memory → Op → Type 0
Applies m (make t) = m.objs t ≡ none
Applies m (copy i) = i < length m.refs
Applies m (move i) = i < length m.refs
Applies m (assign i j) = (i < length m.refs) × (j < length m.refs)
Applies m (swap i j) = (i < length m.refs) × (j < length m.refs)
Applies m (destroy i) = i < length m.refs
Applies m (watch i) = i < length m.refs
Applies m (copy_passive i) = i < length m.passive
Applies m (move_passive i) = i < length m.passive
Applies m (assign_passive i j) = (i < length m.passive) × (j < length m.passive)
Applies m (swap_passive i j) = (i < length m.passive) × (j < length m.passive)
Applies m (destroy_passive i) = i < length m.passive
