-- ===== src/Channel.antt =====
-- `channel` of tamer/channel.hh: a deque of values, and one of events that wait for values. An event is
-- a number, and `live` tells which events are not empty.
pub mod Fifo
pub mod Canceled
mod Tests
use tamer.Prelude.{
  ℕ, zero, suc, Bool, true, false, List, [], ◌∷◌, ◌++◌, Option, none, some, if◌then◌else◌,
}

pub record Channel {ℓ} (A : Type ℓ) : Type ℓ where
  pub q : List A
  pub waitq : List ℕ

-- `while (!waitq_.empty() && !waitq_.front()) waitq_.pop_front();`
unfoldable pub skip_empty : (ℕ → Bool) → List ℕ → List ℕ
skip_empty live [] = []
skip_empty live (e ∷ es) = let rest = skip_empty live es in if live e then e ∷ es else rest

module _ {ℓ} {A : Type ℓ} where
  abbrev pub initial : Channel A
  initial = record { q = []; waitq = [] }

  -- Each operation gives the event that is triggered, if any, with its value.
  unfoldable pub push_front : (ℕ → Bool) → Channel A → A → Option (ℕ × A) × Channel A
  push_front live c x = elim (skip_empty live c.waitq) [
    | [] ↦ (none, record { q = x ∷ c.q; waitq = [] })
    | e ∷ es ↦ (some (e, x), record { q = c.q; waitq = es })
  ]

  unfoldable pub push_back : (ℕ → Bool) → Channel A → A → Option (ℕ × A) × Channel A
  push_back live c x = elim (skip_empty live c.waitq) [
    | [] ↦ (none, record { q = c.q ++ (x ∷ []); waitq = [] })
    | e ∷ es ↦ (some (e, x), record { q = c.q; waitq = es })
  ]

  unfoldable pub pop_front : Channel A → ℕ → Option (ℕ × A) × Channel A
  pop_front c e = elim c.q [
    | [] ↦ (none, record { q = []; waitq = c.waitq ++ (e ∷ []) })
    | x ∷ xs ↦ (some (e, x), record { q = xs; waitq = c.waitq })
  ]

  -- The last value, and those in front of it.
  unfoldable pub split_last : A → List A → List A × A
  split_last x [] = ([], x)
  split_last x (y ∷ ys) = (x ∷ (split_last y ys).0, (split_last y ys).1)

  unfoldable pub pop_back : Channel A → ℕ → Option (ℕ × A) × Channel A
  unfolding split_last
  pop_back c e = elim c.q [
    | [] ↦ (none, record { q = []; waitq = c.waitq ++ (e ∷ []) })
    | x ∷ xs ↦ (some (e, (split_last x xs).1), record { q = (split_last x xs).0; waitq = c.waitq })
  ]
