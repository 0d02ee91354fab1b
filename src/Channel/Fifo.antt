-- ===== src/Channel/Fifo.antt =====
-- Pushes at the back and pops at the front: the n-th event gets the n-th value.
use tamer.Prelude.{
  ℕ, ◌≡◌, refl, sym, ap, subst, ◌∙◌, Bool, true, List, [], ◌∷◌, ◌++◌, Option, none, some, map,
  arith,
}
use mathlib.Core.List.{append_assoc, append-nil}
use tamer.Channel.{Channel, initial, skip_empty, push_back, pop_front}

pub data Op {ℓ} (A : Type ℓ) : Type ℓ where
  push : A → Op A
  pop : ℕ → Op A

abbrev pub AllLive : (ℕ → Bool) → List ℕ → Type 0
AllLive live [] = Unit
AllLive live (e ∷ es) = (live e ≡ true) × AllLive live es

AllLive-append :
    (live : ℕ → Bool) (es : List ℕ) (e : ℕ)
    → AllLive live es
    → live e ≡ true
    → AllLive live (es ++ (e ∷ []))
AllLive-append live [] e v l = (l, tt)
AllLive-append live (x ∷ es) e v l = (v.0, AllLive-append live es e v.1 l)

skip-live :
    (live : ℕ → Bool) (e : ℕ) (es : List ℕ) → live e ≡ true → skip_empty live (e ∷ es) ≡ e ∷ es
unfolding skip_empty
skip-live live e es l = ground arith

module _ {ℓ} {A : Type ℓ} where
  -- what is triggered, in order
  abbrev pub with_first : Option (ℕ × A) → List (ℕ × A) → List (ℕ × A)
  with_first none rest = rest
  with_first (some d) rest = d ∷ rest

  abbrev pub apply : (ℕ → Bool) → Channel A → Op A → Option (ℕ × A) × Channel A
  apply live c (push x) = push_back live c x
  apply live c (pop e) = pop_front c e

  unfoldable pub run : (ℕ → Bool) → Channel A → List (Op A) → List (ℕ × A) × Channel A
  run live c [] = ([], c)
  run live c (o ∷ os) =
      let rest = run live (apply live c o).1 os in (with_first (apply live c o).0 rest.0, rest.1)

  abbrev pub pushed : List (Op A) → List A
  pushed [] = []
  pushed (push x ∷ os) = x ∷ pushed os
  pushed (pop e ∷ os) = pushed os

  abbrev pub popped : List (Op A) → List ℕ
  popped [] = []
  popped (push x ∷ os) = popped os
  popped (pop e ∷ os) = e ∷ popped os

  abbrev values : List (ℕ × A) → List A
  values ds = map (λ d. d.1) ds

  abbrev events : List (ℕ × A) → List ℕ
  events ds = map (λ d. d.0) ds

  -- values wait, or events do, or neither
  abbrev pub Idle : List A → List ℕ → Type 0
  Idle [] es = Unit
  Idle (x ∷ xs) [] = Unit
  Idle (x ∷ xs) (e ∷ es) = ⊥

  Idle-nil : (xs : List A) → Idle xs []
  Idle-nil [] = tt
  Idle-nil (x ∷ xs) = tt

  abbrev Matches : List (ℕ × A) × Channel A → List A → List ℕ → Type ℓ
  Matches r xs es = (values r.0 ++ r.1.q ≡ xs) × (events r.0 ++ r.1.waitq ≡ es)

  abbrev at : List A → List ℕ → Channel A
  at xs es = record { q = xs; waitq = es }

  push-waiting :
      (live : ℕ → Bool) (e : ℕ) (es : List ℕ) (x : A)
      → live e ≡ true
      → push_back live (at [] (e ∷ es)) x ≡ (some (e, x), at [] es)
  unfolding push_back
  push-waiting live e es x l = rw (skip-live live e es l, push_back) refl

  run-Matches :
      (live : ℕ → Bool) (xs : List A) (es : List ℕ) (os : List (Op A))
      → Idle xs es
      → AllLive live es
      → AllLive live (popped os)
      → Matches (run live (at xs es) os) (xs ++ pushed os) (es ++ popped os)
  unfolding run push_back pop_front skip_empty
  run-Matches live xs es [] i v w = (sym (append-nil xs), sym (append-nil es))
  run-Matches live xs [] (push x ∷ os) i v w =
      let rest = run-Matches live (xs ++ (x ∷ [])) [] os (Idle-nil (xs ++ (x ∷ []))) tt w in
      (rest.0 ∙ append_assoc xs (x ∷ []) (pushed os), rest.1)
  run-Matches live [] (e ∷ es) (push x ∷ os) i (l, v) w =
      let rest = run-Matches live [] es os tt v w in
      subst
        (λ r.
          Matches (with_first r.0 (run live r.1 os).0, (run live r.1 os).1) (x ∷ pushed os)
            (e ∷ es ++ popped os))
        (sym (push-waiting live e es x l)) (ap (λ t. x ∷ t) rest.0, ap (λ t. e ∷ t) rest.1)
  run-Matches live (y ∷ xs) (e ∷ es) (push x ∷ os) i v w = elim i [ ]
  run-Matches live [] es (pop e ∷ os) i v (l, w) =
      let rest = run-Matches live [] (es ++ (e ∷ [])) os tt (AllLive-append live es e v l) w in
      (rest.0, rest.1 ∙ append_assoc es (e ∷ []) (popped os))
  run-Matches live (x ∷ xs) [] (pop e ∷ os) i v (l, w) =
      let rest = run-Matches live xs [] os (Idle-nil xs) tt w in
      (ap (λ t. x ∷ t) rest.0, ap (λ t. e ∷ t) rest.1)
  run-Matches live (x ∷ xs) (y ∷ es) (pop e ∷ os) i v w = elim i [ ]

  -- From a new channel, by any pushes at the back and pops at the front of events that are all live: the
  -- triggered events, and behind them those that wait, are the popped ones in order; their values, and
  -- behind them those that wait, are the pushed ones in order.
  pub run-fifo :
      (live : ℕ → Bool) (os : List (Op A))
      → AllLive live (popped os)
      → (map (λ d. d.1) (run live initial os).0 ++ (run live initial os).1.q ≡ pushed os)
        × (map (λ d. d.0) (run live initial os).0 ++ (run live initial os).1.waitq ≡ popped os)
  run-fifo live os w = run-Matches live [] [] os tt tt w
