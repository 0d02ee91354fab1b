-- ===== src/Closures/Slots.antt =====
-- The chains that the slots form.
use tamer.Prelude.{
  ℕ, zero, suc, ◌+◌, ◌-◌, ◌≤◌, ◌<◌, ◌≡◌, refl, sym, subst, true, false, List, [], ◌∷◌, ◌++◌, arith,
  ◌==◌, if◌then◌else◌, store, has, has_differ, Distinct, has-append, range,
}
use tamer.Closures.{Slot}

-- The links from `head` on go through these slots, and end.
abbrev pub Chain : (ℕ → Slot) → ℕ → List ℕ → Type 0
Chain cs head [] = head ≡ 0
Chain cs head (i ∷ is') = (head ≡ i) × (0 < i) × Chain cs (cs i).next is'

abbrev pub Ends : List ℕ → ℕ → Type 0
Ends [] t = Unit
Ends (x ∷ []) t = x ≡ t
Ends (x ∷ y ∷ xs) t = Ends (y ∷ xs) t

pub Chain-store :
    (cs : ℕ → Slot) (j : ℕ) (v : Slot) (head : ℕ) (is' : List ℕ)
    → has j is' ≡ false
    → Chain cs head is'
    → Chain (store cs j v) head is'
Chain-store cs j v head [] h c = c
Chain-store cs j v head (i ∷ is') h (e, p, c) =
    let same : store cs j v i ≡ cs i = ground arith in
    (
      e,
      p,
      subst (λ (s : Slot). Chain (store cs j v) s.next is') (sym same)
          (Chain-store cs j v (cs i).next is' (ground arith) c),
    )

pub Ends-has : (xs : List ℕ) (x t : ℕ) → Ends (x ∷ xs) t → has t (x ∷ xs) ≡ true
Ends-has [] x t e = ground (arith, e)
Ends-has (y ∷ xs) x t e = ground (arith, Ends-has xs y t e)

-- A slot that is tied to the end.
pub Chain-snoc :
    (cs : ℕ → Slot) (head x t i : ℕ) (xs : List ℕ)
    → Chain cs head (x ∷ xs)
    → Ends (x ∷ xs) t
    → Distinct (x ∷ xs)
    → has i (x ∷ xs) ≡ false
    → (cs i).next ≡ 0
    → 0 < i
    → Chain (store cs t (record { c = (cs t).c; next = i })) head (x ∷ (xs ++ (i ∷ [])))
Chain-snoc cs head x t i [] (e, p, c) ends d h z pos = (e, p, (ground arith, pos, ground arith))
Chain-snoc cs head x t i (y ∷ xs) (e, p, c) ends d h z pos =
    let other = has_differ x t (y ∷ xs) d.0 (Ends-has xs y t ends) in
    let same : store cs t (record { c = (cs t).c; next = i }) x ≡ cs x = ground arith in
    (
      e,
      p,
      subst
          (λ (s : Slot).
            Chain (store cs t (record { c = (cs t).c; next = i })) s.next (y ∷ (xs ++ (i ∷ []))))
          (sym same) (Chain-snoc cs (cs x).next y t i xs c ends d.1 (ground arith) z pos),
    )

pub Ends-snoc : (xs : List ℕ) (i : ℕ) → Ends (xs ++ (i ∷ [])) i
Ends-snoc [] i = refl
Ends-snoc (x ∷ []) i = refl
Ends-snoc (x ∷ y ∷ xs) i = Ends-snoc (y ∷ xs) i

pub Distinct-snoc :
    (xs : List ℕ) (i : ℕ) → Distinct xs → has i xs ≡ false → Distinct (xs ++ (i ∷ []))
Distinct-snoc [] i d h = (refl, tt)
Distinct-snoc (x ∷ xs) i d h =
    (ground (arith, has-append x xs (i ∷ [])), Distinct-snoc xs i d.1 (ground arith))

-- The chain through new slots.
pub range-Chain :
    (cs : ℕ → Slot) (a n m : ℕ)
    → 0 < a
    → a + n ≡ m
    → ((i : ℕ) → a ≤ i → i < m → (cs i).next ≡ (if i == m - 1 then 0 else i + 1))
    → Chain cs (if n == 0 then 0 else a) (range a n)
range-Chain cs a zero m pos e f = refl
range-Chain cs a (suc n) m pos e f =
    let rest =
      range-Chain cs (a + 1) n m (omega arith) (omega arith) (λ i lo hi. f i (omega arith) hi) in
    (ground arith, pos, subst (λ k. Chain cs k (range (a + 1) n)) (ground (arith, f a)) rest)
