-- ===== src/Channel/Canceled.antt =====
-- Events that are canceled while they wait: no value goes to one of them.
use tamer.Prelude.{
  ℕ, zero, ◌≡◌, refl, sym, ap, ◌∙◌, Bool, true, List, [], ◌∷◌, ◌++◌, Option, none, some, arith,
  Bool-cases, inl, inr,
}
use mathlib.Core.List.{append_assoc, append-nil}
use tamer.Channel.{Channel, initial, skip_empty, push_back, pop_front}
use tamer.Channel.Fifo.{Op, push, pop}

-- What is left starts with an event that is not empty.
abbrev Starts : (ℕ → Bool) → List ℕ → Type 0
Starts live [] = Unit
Starts live (e ∷ es) = live e ≡ true

skip_empty-Starts : (live : ℕ → Bool) (es : List ℕ) → Starts live (skip_empty live es)
unfolding skip_empty
skip_empty-Starts live [] = tt
skip_empty-Starts live (e ∷ es) = elim (Bool-cases (live e)) [
  | inl l ↦ rw l l
  | inr d ↦ rw d (skip_empty-Starts live es)
]

module _ {ℓ} {A : Type ℓ} where
  abbrev pub apply_timed : (ℕ → Bool) → Channel A → Op A → Option (ℕ × A) × Channel A
  apply_timed live c (push x) = push_back live c x
  apply_timed live c (pop e) = pop_front c e

  -- Whether the event was not empty, and its value.
  abbrev pub delivery : (ℕ → Bool) → Option (ℕ × A) → List (Bool × A) → List (Bool × A)
  delivery live none rest = rest
  delivery live (some (e, x)) rest = (live e, x) ∷ rest

  -- Each operation stands with the events that are not empty when it is called.
  unfoldable pub run_timed : Channel A → List ((ℕ → Bool) × Op A) → List (Bool × A) × Channel A
  run_timed c [] = ([], c)
  run_timed c ((live, o) ∷ os) =
      let rest = run_timed (apply_timed live c o).1 os in
      (delivery live (apply_timed live c o).0 rest.0, rest.1)

  abbrev pub pushed_timed : List ((ℕ → Bool) × Op A) → List A
  pushed_timed [] = []
  pushed_timed ((live, push x) ∷ os) = x ∷ pushed_timed os
  pushed_timed ((live, pop e) ∷ os) = pushed_timed os

  -- An event is not empty when `pop_front` gets it.
  abbrev pub PopsLive : List ((ℕ → Bool) × Op A) → Type 0
  PopsLive [] = Unit
  PopsLive ((live, push x) ∷ os) = PopsLive os
  PopsLive ((live, pop e) ∷ os) = (live e ≡ true) × PopsLive os

  abbrev pub Delivered : List (Bool × A) → Type 0
  Delivered [] = Unit
  Delivered ((b, x) ∷ ds) = (b ≡ true) × Delivered ds

  abbrev pub values : List (Bool × A) → List A
  values [] = []
  values ((b, x) ∷ ds) = x ∷ values ds

  -- Values wait, or events do.
  abbrev Idle : List A → List ℕ → Type 0
  Idle [] es = Unit
  Idle (x ∷ xs) [] = Unit
  Idle (x ∷ xs) (e ∷ es) = zero ≡ 1

  Idle-nil : (xs : List A) → Idle xs []
  Idle-nil [] = tt
  Idle-nil (x ∷ xs) = tt

  Idle-tail : (x : A) (xs : List A) (es : List ℕ) → Idle (x ∷ xs) es → Idle xs es
  Idle-tail x xs [] i = Idle-nil xs
  Idle-tail x xs (e ∷ es) i = absurd (omega (arith, i))

  -- What one operation does: `more` is pushed by it.
  abbrev Step : (ℕ → Bool) → Channel A → List A → Option (ℕ × A) × Channel A → Type ℓ
  Step live c more r =
      (values (delivery live r.0 []) ++ r.1.q ≡ c.q ++ more)
      × Delivered (delivery live r.0 [])
      × Idle r.1.q r.1.waitq

  push_to :
      (live : ℕ → Bool) (q : List A) (x : A) (es rest : List ℕ)
      → Idle q es
      → skip_empty live es ≡ rest
      → Starts live rest
      → Step live
          (record { q = q; waitq = es })
          (x ∷ [])
          (elim rest [
            | [] ↦ (none, record { q = q ++ (x ∷ []); waitq = [] })
            | e ∷ es ↦ (some (e, x), record { q = q; waitq = es })
          ])
  unfolding skip_empty
  push_to live q x es [] i s l = (refl, tt, Idle-nil (q ++ (x ∷ [])))
  push_to live [] x es (e ∷ more) i s l = (refl, (l, tt), tt)
  push_to live (y ∷ q) x [] (e ∷ more) i s l = absurd (grind (arith, s))
  push_to live (y ∷ q) x (d ∷ es) (e ∷ more) i s l = absurd (omega (arith, i))

  push-Step :
      (live : ℕ → Bool) (c : Channel A) (x : A)
      → Idle c.q c.waitq
      → Step live c (x ∷ []) (push_back live c x)
  unfolding push_back
  push-Step live c x i =
      push_to live c.q x c.waitq (skip_empty live c.waitq) i refl (skip_empty-Starts live c.waitq)

  pop-Step :
      (live : ℕ → Bool) (q : List A) (es : List ℕ) (e : ℕ)
      → Idle q es
      → live e ≡ true
      → Step live (record { q = q; waitq = es }) [] (pop_front (record { q = q; waitq = es }) e)
  unfolding pop_front
  pop-Step live [] es e i l = (refl, tt, tt)
  pop-Step live (x ∷ xs) es e i l = (sym (append-nil (x ∷ xs)), (l, tt), Idle-tail x xs es i)

  values-delivery :
      (live : ℕ → Bool) (d : Option (ℕ × A)) (rest : List (Bool × A))
      → values (delivery live d rest) ≡ values (delivery live d []) ++ values rest
  values-delivery live none rest = refl
  values-delivery live (some (e, x)) rest = refl

  Delivered-delivery :
      (live : ℕ → Bool) (d : Option (ℕ × A)) (rest : List (Bool × A))
      → Delivered (delivery live d [])
      → Delivered rest
      → Delivered (delivery live d rest)
  Delivered-delivery live none rest a b = b
  Delivered-delivery live (some (e, x)) rest a b = (a.0, b)

  -- One operation in front of others.
  abbrev Ran : Channel A → List A → List (Bool × A) × Channel A → Type ℓ
  Ran c xs r = (values r.0 ++ r.1.q ≡ c.q ++ xs) × Delivered r.0

  Step-Ran :
      (live : ℕ → Bool) (c : Channel A) (more xs : List A) (one : Option (ℕ × A) × Channel A)
      (rest : List (Bool × A) × Channel A)
      → Step live c more one
      → Ran one.1 xs rest
      → Ran c (more ++ xs) (delivery live one.0 rest.0, rest.1)
  Step-Ran live c more xs one rest s r = (
    ap (λ vs. vs ++ rest.1.q) (values-delivery live one.0 rest.0)
        ∙ append_assoc (values (delivery live one.0 [])) (values rest.0) rest.1.q
        ∙ ap (λ vs. values (delivery live one.0 []) ++ vs) r.0
        ∙ sym (append_assoc (values (delivery live one.0 [])) one.1.q xs)
        ∙ ap (λ vs. vs ++ xs) s.0
        ∙ append_assoc c.q more xs,
    Delivered-delivery live one.0 rest.0 s.1 r.1,
  )

  run-Ran :
      (os : List ((ℕ → Bool) × Op A)) (c : Channel A)
      → Idle c.q c.waitq
      → PopsLive os
      → Ran c (pushed_timed os) (run_timed c os)
  unfolding run_timed
  run-Ran [] c i p = (sym (append-nil c.q), tt)
  run-Ran ((live, push x) ∷ os) c i p =
      let s = push-Step live c x i in
      Step-Ran live c (x ∷ []) (pushed_timed os) (push_back live c x)
        (run_timed (push_back live c x).1 os) s (run-Ran os (push_back live c x).1 s.2 p)
  run-Ran ((live, pop e) ∷ os) c i p =
      let s = pop-Step live c.q c.waitq e i p.0 in
      Step-Ran live c [] (pushed_timed os) (pop_front c e) (run_timed (pop_front c e).1 os) s
        (run-Ran os (pop_front c e).1 s.2 p.1)

  -- Whatever events are canceled while they wait, on a channel that starts empty, with `push_back` and `pop_front`: no
  -- value is lost, for the values that are delivered, in their order, and those that are left behind them are those
  -- that were pushed; and each is delivered to an event that is not empty then. An event is not empty when
  -- `pop_front` gets it.
  pub run_timed_lem :
      (os : List ((ℕ → Bool) × Op A))
      → PopsLive os
      → (values (run_timed initial os).0 ++ (run_timed initial os).1.q ≡ pushed_timed os)
        × Delivered (run_timed initial os).0
  run_timed_lem os p = run-Ran os initial tt p
