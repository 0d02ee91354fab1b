-- ===== src/Timers/Total.antt =====
-- How many slots hold a record with some property: the contents of the set, whatever their order.
use native.Mathlib.Decide.{dec_lt}
use tamer.Prelude.{ℕ, zero, suc, ◌+◌, ◌≤◌, ◌<◌, ◌≡◌, refl, ap, Bool, arith, store}
use tamer.Timers.{Trec, of_bool, swap}

module _ (p : Trec → Bool) where
  unfoldable pub total : ℕ → (ℕ → Trec) → ℕ
  total zero ts = 0
  total (suc n) ts = total n ts + of_bool (p (ts n))

  total-store_outside :
      (n : ℕ) (ts : ℕ → Trec) (i : ℕ) (t : Trec) → n ≤ i → total n (store ts i t) ≡ total n ts
  unfolding total
  total-store_outside zero ts i t h = refl
  total-store_outside (suc n) ts i t h = ground (arith, total-store_outside n ts i t)

  pub total-store :
      (n : ℕ) (ts : ℕ → Trec) (i : ℕ) (t : Trec)
      → i < n
      → total n (store ts i t) + of_bool (p (ts i)) ≡ total n ts + of_bool (p t)
  unfolding total
  total-store zero ts i t h = elim h [ ]
  total-store (suc n) ts i t h = elim (dec_lt i n) [
    | yes lt ↦ ground (arith, total-store n ts i t lt)
    | no ge ↦ ground (arith, total-store_outside n ts i t)
  ]

  -- An exchange of two slots in use keeps the contents.
  pub total-swap :
      (n : ℕ) (ts : ℕ → Trec) (i j : ℕ) → i < n → j < n → total n (swap ts i j) ≡ total n ts
  total-swap n ts i j hi hj =
      ground (arith, total-store n (store ts i (ts j)) j (ts i) hj, total-store n ts i (ts j) hi)

  -- A write at the end adds one record.
  pub total-push :
      (n : ℕ) (ts : ℕ → Trec) (t : Trec) → total (suc n) (store ts n t) ≡ total n ts + of_bool (p t)
  unfolding total
  total-push n ts t = ground (arith, total-store_outside n ts n t)

  pub total_eq :
      (n : ℕ) (ts us : ℕ → Trec) → ((i : ℕ) → i < n → ts i ≡ us i) → total n ts ≡ total n us
  unfolding total
  total_eq zero ts us h = refl
  total_eq (suc n) ts us h = omega (
    arith,
    total_eq n ts us (λ i lt. h i (omega arith)),
    ap (λ t. of_bool (p t)) (h n (omega arith)),
  )

pub total-zero : (p : Trec → Bool) (ts : ℕ → Trec) → total p 0 ts ≡ 0
unfolding total
total-zero p ts = refl

pub total-le : (p : Trec → Bool) (n : ℕ) (ts : ℕ → Trec) → total p n ts ≤ n
unfolding total
total-le p zero ts = omega arith
total-le p (suc n) ts = ground (arith, total-le p n ts)

pub total-suc :
    (p : Trec → Bool) (n : ℕ) (ts : ℕ → Trec)
    → total p (suc n) ts ≡ total p n ts + of_bool (p (ts n))
unfolding total
total-suc p n ts = refl
