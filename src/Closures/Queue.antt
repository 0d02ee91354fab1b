-- ===== src/Closures/Queue.antt =====
-- The slots of `simple_driver` are free, queued or held by a closure that is blocked, and the queue is first
-- in, first out.
use tamer.Prelude.{
  ℕ, ◌<◌, ◌≡◌, refl, ap, subst, ◌∙◌, true, false, List, [], ◌∷◌, Option, none, some, arith, has,
  Distinct,
}
use tamer.Closures.{Slot, SimpleDriver, is_none}
use tamer.Closures.Slots.{Chain, Ends}

abbrev pub IsIdle : ℕ → List ℕ → List ℕ → Type 0
IsIdle i free queue = (has i free ≡ false) × (has i queue ≡ false)

-- The free slots and the queued ones.
pub record IsValid (d : SimpleDriver) (free queue : List ℕ) : Type 0 where
  pub room : 1 < d.ccap
  pub free_chain : Chain d.cs d.cfree free
  pub queue_chain : Chain d.cs d.cunblocked queue
  pub ends : Ends queue d.cunblocked_tail
  pub free_distinct : Distinct free
  pub queue_distinct : Distinct queue
  pub apart : (i : ℕ) → has i free ≡ true → has i queue ≡ false
  pub free_in : (i : ℕ) → has i free ≡ true → (0 < i) × (i < d.ccap)
  pub queue_in : (i : ℕ) → has i queue ≡ true → (i < d.ccap) × (is_none (d.cs i).c ≡ false)
  pub idle : (i : ℕ) → 0 < i → i < d.ccap → IsIdle i free queue → (d.cs i).next ≡ 0

-- The closure holds a slot and is not queued.
pub record Held (d : SimpleDriver) (free queue : List ℕ) (c : ℕ) : Type 0 where
  pub some_slot : 0 < d.index c
  pub slot_in : d.index c < d.ccap
  pub apart : IsIdle (d.index c) free queue
  pub holds : (d.cs (d.index c)).c ≡ some c

abbrev pub with_closure : Option ℕ → List ℕ → List ℕ
with_closure none cs = cs
with_closure (some c) cs = c ∷ cs

-- The closures of these slots.
abbrev pub closures : (ℕ → Slot) → List ℕ → List ℕ
closures cs [] = []
closures cs (i ∷ is') = with_closure (cs i).c (closures cs is')

pub closures-ext :
    (cs ds : ℕ → Slot) (is' : List ℕ)
    → ((i : ℕ) → has i is' ≡ true → (cs i).c ≡ (ds i).c)
    → closures cs is' ≡ closures ds is'
closures-ext cs ds [] same = refl
closures-ext cs ds (i ∷ is') same =
    ap (λ o. with_closure o (closures cs is')) (same i (ground arith))
    ∙ ap (with_closure (ds i).c) (closures-ext cs ds is' (λ j h. same j (ground arith)))

pub Chain-ext :
    (cs ds : ℕ → Slot) (head : ℕ) (is' : List ℕ)
    → ((i : ℕ) → has i is' ≡ true → (cs i).next ≡ (ds i).next)
    → Chain cs head is'
    → Chain ds head is'
Chain-ext cs ds head [] same c = c
Chain-ext cs ds head (i ∷ is') same (e, p, c) = (
  e,
  p,
  subst (λ k. Chain ds k is') (same i (ground arith))
      (Chain-ext cs ds (cs i).next is' (λ j h. same j (ground arith)) c),
)
