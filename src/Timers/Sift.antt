-- ===== src/Timers/Sift.antt =====
-- The three sift loops end in a heap of the same records.
use mathlib.Core.Path.{fun_ext}
use native.Mathlib.Decide.{ℕ_discrete}
use tamer.Prelude.{
  ℕ, zero, suc, ◌+◌, ◌-◌, ◌/◌, ◌^◌, ◌≤◌, ◌<◌, ◌≡◌, refl, sym, ◌∙◌, subst, Bool, true, false, ◌⊎◌,
  inl, inr, ◌≢◌, arith, ltb, ◌==◌, Bool-cases, ==_iff, ne→not,
}
use tamer.Timers.{
  Trec, before, swap, sift_up, sift_down, raise, smallest_child, smallest_of, heap_parent,
  heap_first_child, heap_last_child,
}
use tamer.Timers.Rank.{rank, InWindow, before-rank}
use tamer.Timers.Order.{
  IsHeap, Rising, Sinking, Rising-IsHeap, Rising-swap, Sinking-IsHeap, Sinking-swap,
}
use tamer.Timers.Total.{total, total-swap}

-- What the comparison of `n` children from `t` on finds, starting from `s`.
record IsLeast (r : ℕ → ℕ) (s t n v : ℕ) : Type 0 where
  le_start : r v ≤ r s
  le_children : (i : ℕ) → t ≤ i → i < t + n → r v ≤ r i
  found : (v ≡ s) ⊎ ((t ≤ v) × (v < t + n) × (r v < r s))

module _ (base : ℕ) where
  abbrev pub ranks : (ℕ → Trec) → ℕ → ℕ
  ranks ts i = rank base (ts i)

  abbrev pub AllIn : ℕ → (ℕ → Trec) → Type 0
  AllIn n ts = (i : ℕ) → i < n → InWindow base (ts i)

  -- `us` is a heap of the first `n` records of `ts`.
  pub record IsHeapOf (n : ℕ) (ts us : ℕ → Trec) : Type 0 where
    pub heap : IsHeap (ranks us) n
    pub window : AllIn n us
    pub same : (p : Trec → Bool) → total p n us ≡ total p n ts

  pub ranks-swap : (ts : ℕ → Trec) (i j : ℕ) → ranks (swap ts i j) ≡ swap (ranks ts) i j
  ranks-swap ts i j = fun_ext λ k. ground arith

  pub AllIn-swap :
      (n : ℕ) (ts : ℕ → Trec) (i j : ℕ) → i < n → j < n → AllIn n ts → AllIn n (swap ts i j)
  AllIn-swap n ts i j hi hj w k hk = ground (arith, w i hi, w j hj, w k hk)

  IsHeapOf-swap :
      {n : ℕ} {us : ℕ → Trec} (ts : ℕ → Trec) (i j : ℕ)
      → i < n
      → j < n
      → IsHeapOf n (swap ts i j) us
      → IsHeapOf n ts us
  IsHeapOf-swap {n} ts i j hi hj h = record {
    heap = h.heap;
    window = h.window;
    same = λ p. h.same p ∙ total-swap p n ts i j hi hj;
  }

  module _ (base_small : base < 2 ^ 32) where
    before-ranks :
        (n : ℕ) (ts : ℕ → Trec) (i j : ℕ)
        → AllIn n ts
        → i < n
        → j < n
        → before (ts i) (ts j) ≡ ltb (ranks ts i) (ranks ts j)
    before-ranks n ts i j w hi hj = before-rank base (ts i) (ts j) base_small (w i hi) (w j hj)

    pub lt_of_before :
        (n : ℕ) (ts : ℕ → Trec) (i j : ℕ)
        → AllIn n ts
        → i < n
        → j < n
        → before (ts i) (ts j) ≡ true
        → ranks ts i < ranks ts j
    lt_of_before n ts i j w hi hj e = ground (arith, before-ranks n ts i j w hi hj)

    pub le_of_not-before :
        (n : ℕ) (ts : ℕ → Trec) (i j : ℕ)
        → AllIn n ts
        → i < n
        → j < n
        → before (ts i) (ts j) ≡ false
        → ranks ts j ≤ ranks ts i
    le_of_not-before n ts i j w hi hj e = ground (arith, before-ranks n ts i j w hi hj)

    pub not-before_of_le :
        (n : ℕ) (ts : ℕ → Trec) (i j : ℕ)
        → AllIn n ts
        → i < n
        → j < n
        → ranks ts j ≤ ranks ts i
        → before (ts i) (ts j) ≡ false
    not-before_of_le n ts i j w hi hj e = ground (arith, before-ranks n ts i j w hi hj)

    up_step :
        (ts : ℕ → Trec) (pos n p : ℕ)
        → p ≡ pos / 4
        → 0 < pos
        → pos < n
        → AllIn n ts
        → before (ts pos) (ts p) ≡ true
        → Rising (ranks ts) n pos
        → Rising (ranks (swap ts pos p)) n p
    up_step ts pos n p e lo hi w less u =
        let lt = lt_of_before n ts pos p w hi (omega arith) less in
        subst (λ q. Rising q n p) (sym (ranks-swap ts pos p))
          (rw e (Rising-swap (ranks ts) n pos u lo hi (rw e at lt)))

    up_stop :
        (ts : ℕ → Trec) (pos n p : ℕ)
        → p ≡ pos / 4
        → pos < n
        → AllIn n ts
        → before (ts pos) (ts p) ≡ false
        → Rising (ranks ts) n pos
        → IsHeapOf n ts ts
    up_stop ts pos n p e hi w more u = record {
      heap =
          Rising-IsHeap (ranks ts) n pos u
            (λ _. rw e at (le_of_not-before n ts pos p w hi (omega arith) more));
      window = w;
      same = λ q. refl;
    }

    up_top :
        (ts : ℕ → Trec) (pos n : ℕ)
        → pos ≡ 0
        → AllIn n ts
        → Rising (ranks ts) n pos
        → IsHeapOf n ts ts
    up_top ts pos n e w u = record {
      heap = Rising-IsHeap (ranks ts) n pos u (λ h. absurd (omega arith));
      window = w;
      same = λ q. refl;
    }

    pub sift_up_lem :
        (fuel : ℕ) (ts : ℕ → Trec) (pos n : ℕ)
        → pos ≤ fuel
        → pos < n
        → AllIn n ts
        → Rising (ranks ts) n pos
        → IsHeapOf n ts (sift_up fuel ts pos)
    unfolding sift_up
    sift_up_lem zero ts pos n b lt w u = up_top ts pos n (omega arith) w u
    sift_up_lem (suc fuel) ts pos n b lt w u =
        let p = heap_parent pos in
        let parent : p ≡ pos / 4 = omega arith in
        elim (Bool-cases (pos == 0)) [
          | inl top ↦ rw top (up_top ts pos n (ground arith) w u)
          | inr inner ↦ elim (Bool-cases (before (ts pos) (ts p))) [
            | inl less ↦
                rw (inner, less)
                  (IsHeapOf-swap ts pos p lt (omega arith) (
                    sift_up_lem fuel (swap ts pos p) p n (ground arith) (omega arith)
                      (AllIn-swap n ts pos p lt (omega arith) w)
                      (up_step ts pos n p parent (ground arith) lt w less u)))
            | inr stay ↦ rw (inner, stay) (up_stop ts pos n p parent lt w stay u)
          ]
        ]

    sift_up_top : (fuel : ℕ) (ts : ℕ → Trec) (pos : ℕ) → pos ≡ 0 → sift_up fuel ts pos ≡ ts
    unfolding sift_up
    sift_up_top zero ts pos e = refl
    sift_up_top (suc fuel) ts pos e = ground arith

    sift_up_stay :
        (fuel : ℕ) (ts : ℕ → Trec) (pos : ℕ)
        → before (ts pos) (ts (heap_parent pos)) ≡ false
        → sift_up fuel ts pos ≡ ts
    unfolding sift_up
    sift_up_stay zero ts pos e = refl
    sift_up_stay (suc fuel) ts pos e = ground arith

    -- `raise` is `sift_up` where the first exchange is known to be due.
    pub raise-sift_up :
        (fuel : ℕ) (ts : ℕ → Trec) (pos : ℕ)
        → pos ≢ 0
        → pos ≤ fuel
        → before (ts pos) (ts (heap_parent pos)) ≡ true
        → raise fuel ts pos ≡ sift_up fuel ts pos
    unfolding raise sift_up
    raise-sift_up zero ts pos ne b less = absurd (omega arith)
    raise-sift_up (suc fuel) ts pos ne b less =
        let p = heap_parent pos in
        let moved = swap ts pos p in
        elim (ℕ_discrete p 0) [
          | yes top ↦ ground (arith, sift_up_top fuel moved p top)
          | no inner ↦ elim (Bool-cases (before (moved p) (moved (heap_parent p)))) [
            | inl again ↦ ground (arith, raise-sift_up fuel moved p inner (omega arith) again)
            | inr stop ↦ ground (arith, sift_up_stay fuel moved p stop)
          ]
        ]

    IsLeast-step :
        (ts : ℕ → Trec) (n t s u v : ℕ)
        → ((before (ts t) (ts s) ≡ true) × (u ≡ t) × (ranks ts t < ranks ts s))
          ⊎ ((u ≡ s) × (ranks ts s ≤ ranks ts t))
        → IsLeast (ranks ts) u (t + 1) n v
        → IsLeast (ranks ts) s t (suc n) v
    IsLeast-step ts n t s u v (inl (_, e, lt)) h = record {
      le_start = ground (arith, h.le_start);
      le_children = λ i lo hi. ground (arith, h.le_children i, h.le_start);
      found = ground (arith, h.found, h.le_start);
    }
    IsLeast-step ts n t s u v (inr (e, le)) h = record {
      le_start = ground (arith, h.le_start);
      le_children = λ i lo hi. ground (arith, h.le_children i, h.le_start);
      found = ground (arith, h.found);
    }

    smallest_child_lem :
        (n : ℕ) (ts : ℕ → Trec) (t s m : ℕ)
        → AllIn m ts
        → (n ≡ 0) ⊎ (t + n ≤ m)
        → s < m
        → IsLeast (ranks ts) s t n (smallest_child ts n t s)
    unfolding smallest_child
    smallest_child_lem zero ts t s m w b lt = record {
      le_start = omega arith;
      le_children = λ i lo hi. absurd (omega arith);
      found = inl refl;
    }
    smallest_child_lem (suc n) ts t s m w b lt = elim (Bool-cases (before (ts t) (ts s))) [
      | inl less ↦ rw less (
          IsLeast-step ts n t s t _
            (inl (less, refl, lt_of_before m ts t s w (omega arith) lt less))
            (smallest_child_lem n ts (t + 1) t m w (inr (omega arith)) (omega arith)))
      | inr more ↦ rw more (
          IsLeast-step ts n t s s _ (inr (refl, le_of_not-before m ts t s w (omega arith) lt more))
            (smallest_child_lem n ts (t + 1) s m w (inr (omega arith)) lt))
    ]

    -- The children of `pos` are the slots whose parent it is.
    child_range :
        (n pos i : ℕ)
        → 0 < i
        → i < n
        → i / 4 ≡ pos
        → (heap_first_child pos ≤ i)
          × (i < heap_first_child pos + (heap_last_child n pos - heap_first_child pos))
    child_range n pos i lo hi e = ground arith

    range_child :
        (n pos v : ℕ)
        → heap_first_child pos ≤ v
        → v < heap_first_child pos + (heap_last_child n pos - heap_first_child pos)
        → (0 < v) × (v < n) × (v / 4 ≡ pos)
    range_child n pos v lo hi = ground arith

    range_small :
        (n pos : ℕ)
        → (heap_last_child n pos - heap_first_child pos ≡ 0)
          ⊎ (heap_first_child pos + (heap_last_child n pos - heap_first_child pos) ≤ n)
    range_small n pos = ground arith

    smallest_of_lem :
        (n : ℕ) (ts : ℕ → Trec) (pos : ℕ)
        → AllIn n ts
        → pos < n
        → ((i : ℕ) → 0 < i → i < n → i / 4 ≡ pos → ranks ts (smallest_of n ts pos) ≤ ranks ts i)
          × ((smallest_of n ts pos ≡ pos)
              ⊎ ((0 < smallest_of n ts pos)
                  × (smallest_of n ts pos < n)
                  × (smallest_of n ts pos / 4 ≡ pos)
                  × (ranks ts (smallest_of n ts pos) < ranks ts pos)))
    smallest_of_lem n ts pos w lt =
        let l =
          smallest_child_lem (heap_last_child n pos - heap_first_child pos) ts
            (heap_first_child pos) pos n w (range_small n pos) lt in
        (
          λ i lo hi e. let (a, b) = child_range n pos i lo hi e in l.le_children i a b,
          elim l.found [
            | inl e ↦ inl e
            | inr (a, b, c) ↦
                let (x, y, z) = range_child n pos (smallest_of n ts pos) a b in inr (x, y, z, c)
          ],
        )

    pub sift_down_lem :
        (fuel n : ℕ) (ts : ℕ → Trec) (pos : ℕ)
        → n ≤ pos + fuel
        → pos < n
        → AllIn n ts
        → Sinking (ranks ts) n pos
        → IsHeapOf n ts (sift_down fuel n ts pos)
    unfolding sift_down
    sift_down_lem zero n ts pos b lt w d = absurd (omega arith)
    sift_down_lem (suc fuel) n ts pos b lt w d =
        let v = smallest_of n ts pos in
        let (least, found) = smallest_of_lem n ts pos w lt in
        elim (ℕ_discrete v pos) [
          | yes stop ↦ rw ((==_iff v pos).1 stop) (record {
            heap = Sinking-IsHeap (ranks ts) n pos d (λ i lo hi e. rw stop at (least i lo hi e));
            window = w;
            same = λ p. refl;
          })
          | no down ↦ elim found [
            | inl e ↦ absurd (down e)
            | inr (lo, hi, child, less) ↦ rw (ne→not v pos down) (
                IsHeapOf-swap ts pos v lt hi (
                  sift_down_lem fuel n (swap ts pos v) v (omega arith) hi
                    (AllIn-swap n ts pos v lt hi w)
                    (subst (λ q. Sinking q n v) (sym (ranks-swap ts pos v))
                      (Sinking-swap (ranks ts) n pos v d lo hi child less least))))
          ]
        ]
