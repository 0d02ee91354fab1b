-- ===== src/Timers/Cull.antt =====
-- Removing timers: `hard_cull`, `pop_trigger` and `cull` keep the heap and lose nothing else.
use native.Mathlib.Decide.{ℕ_discrete}
use tamer.Prelude.{
  ℕ, zero, suc, ◌+◌, ◌-◌, ◌/◌, ◌%◌, ◌^◌, ◌≤◌, ◌<◌, ◌≡◌, refl, sym, ◌∙◌, ap, subst, Bool, true,
  false, not, ◌&&◌, ◌||◌, ◌⊎◌, inl, inr, ◌≢◌, List, [], ◌∷◌, some, arith, ◌==◌, Bool-cases, ==_iff,
  if_true, if_false, ne→not, sub32,
}
use tamer.Timers.{
  Trec, TimerSet, Effect, trigger, clean, of_bool, before, swap, heap_parent, sift_down, raise,
  remove_slot, hard_cull, pop_trigger, cull, initial,
}
use tamer.Timers.Order.{IsHeap, swap_last-Sinking, swap_last-Rising, root-le}
use tamer.Timers.Total.{total, total-swap, total-zero, total-le, total-suc}
use tamer.Timers.Sift.{
  ranks, AllIn, IsHeapOf, ranks-swap, AllIn-swap, lt_of_before, le_of_not-before, not-before_of_le,
  sift_up_lem, sift_down_lem, raise-sift_up,
}

abbrev pub is_foreground : Trec → Bool
is_foreground t = t.order % 2 == 1

-- `base` is an insertion counter at or before that of every timer in the set.
pub record IsValid (base : ℕ) (s : TimerSet) : Type 0 where
  pub few : s.nts < 2 ^ 30
  pub even : s.order % 2 ≡ 0
  pub heap : IsHeap (ranks base s.ts) s.nts
  pub window : AllIn base s.nts s.ts
  pub foreground : s.nfg ≡ total is_foreground s.nts s.ts

pub initial-IsValid : (base : ℕ) → IsValid base initial
initial-IsValid base = record {
  few = omega arith;
  even = refl;
  heap = λ i lo hi. absurd (omega arith);
  window = λ i hi. absurd (omega arith);
  foreground = sym (total-zero is_foreground initial.ts);
}

-- The array after `swap(ts_[nts_], ts_[pos])`: the removed record stands at the end.
swap_end :
    (p : Trec → Bool) (n : ℕ) (ts : ℕ → Trec) (pos : ℕ)
    → pos < suc n
    → total p n (swap ts n pos) + of_bool (p (ts pos)) ≡ total p (suc n) ts
swap_end p n ts pos lt =
    ground (arith, total-swap p (suc n) ts n pos, total-suc p n (swap ts n pos))

-- What a set keeps when the event of slot `pos` leaves it.
pub record Leaves (base : ℕ) (s : TimerSet) (pos : ℕ) (u : TimerSet) : Type 0 where
  pub valid : IsValid base u
  pub fewer : u.nts + 1 ≡ s.nts
  pub same : (p : Trec → Bool) → total p u.nts u.ts + of_bool (p (s.ts pos)) ≡ total p s.nts s.ts
  pub kept : u.order ≡ s.order

-- Every event of the list went out by `clean`, and was no longer active.
abbrev pub AllDead : (ℕ → Bool) → List Effect → Type 0
AllDead is_empty [] = Unit
AllDead is_empty (clean e ∷ es) = (is_empty e ≡ true) × AllDead is_empty es
AllDead is_empty (trigger e ∷ es) = ⊥

abbrev pub tally : (ℕ → Bool) → List Effect → ℕ
tally q [] = 0
tally q (clean e ∷ es) = of_bool (q e) + tally q es
tally q (trigger e ∷ es) = of_bool (q e) + tally q es

-- From `s` to `u` the events of the list went, and no other.
pub record Culls (base : ℕ) (is_empty : ℕ → Bool) (s : TimerSet) (es : List Effect) (u : TimerSet)
    : Type 0 where
  pub valid : IsValid base u
  pub dead : AllDead is_empty es
  pub same :
      (q : ℕ → Bool) → total (λ t. q t.se) u.nts u.ts + tally q es ≡ total (λ t. q t.se) s.nts s.ts

module _ (base : ℕ) (base_small : base < 2 ^ 32) where
  swap-AllIn :
      (n : ℕ) (ts : ℕ → Trec) (pos : ℕ)
      → pos < suc n
      → AllIn base (suc n) ts
      → AllIn base n (swap ts n pos)
  swap-AllIn n ts pos lt w i hi =
      AllIn-swap base (suc n) ts n pos (omega arith) lt w i (omega arith)

  sink_part :
      (n : ℕ) (ts : ℕ → Trec) (pos : ℕ)
      → pos < n
      → IsHeap (ranks base ts) (suc n)
      → AllIn base (suc n) ts
      → (0 < pos → ranks base (swap ts n pos) (pos / 4) ≤ ranks base (swap ts n pos) pos)
      → IsHeapOf base n (swap ts n pos) (sift_down n n (swap ts n pos) pos)
  sink_part n ts pos lt h w up =
      let e = ranks-swap base ts n pos in
      sift_down_lem base base_small n n (swap ts n pos) pos (omega arith) lt
        (swap-AllIn n ts pos (omega arith) w)
        (rw e (
          swap_last-Sinking (ranks base ts) n pos h lt
            (λ p. subst (λ q. q (pos / 4) ≤ q pos) e (up p))))

  stays_below :
      (n : ℕ) (ts : ℕ → Trec) (pos : ℕ)
      → pos < suc n
      → n ≢ pos
      → AllIn base (suc n) ts
      → (pos == 0 || not (before (swap ts n pos pos) (swap ts n pos (heap_parent pos)))) ≡ true
      → 0 < pos
      → ranks base (swap ts n pos) (pos / 4) ≤ ranks base (swap ts n pos) pos
  stays_below n ts pos lt ne w down lo =
      let parent : heap_parent pos ≡ pos / 4 = omega arith in
      let more : before (swap ts n pos pos) (swap ts n pos (heap_parent pos)) ≡ false =
        ground arith in
      let le : ranks base (swap ts n pos) (heap_parent pos) ≤ ranks base (swap ts n pos) pos =
        le_of_not-before base base_small n (swap ts n pos) pos (heap_parent pos)
          (swap-AllIn n ts pos lt w) (omega arith) (omega arith) more in
      subst (λ i. ranks base (swap ts n pos) i ≤ ranks base (swap ts n pos) pos) parent le

  raise_part :
      (n : ℕ) (ts : ℕ → Trec) (pos : ℕ)
      → pos < n
      → pos ≢ 0
      → IsHeap (ranks base ts) (suc n)
      → AllIn base (suc n) ts
      → before (swap ts n pos pos) (swap ts n pos (heap_parent pos)) ≡ true
      → IsHeapOf base n (swap ts n pos) (raise pos (swap ts n pos) pos)
  raise_part n ts pos lt ne h w less =
      let e = ranks-swap base ts n pos in
      let w' = swap-AllIn n ts pos (omega arith) w in
      let parent : heap_parent pos ≡ pos / 4 = omega arith in
      let below : ranks base (swap ts n pos) pos < ranks base (swap ts n pos) (heap_parent pos) =
        lt_of_before base base_small n (swap ts n pos) pos (heap_parent pos) w' lt (omega arith)
          less in
      rw (raise-sift_up base base_small pos (swap ts n pos) pos ne (omega arith) less) (
        sift_up_lem base base_small pos (swap ts n pos) pos n (omega arith) lt w' (
          rw e (
            swap_last-Rising (ranks base ts) n pos h lt (omega arith)
              (subst (λ q. q pos < q (pos / 4)) e (rw parent at below)))))

  -- `remove_slot` takes the record of slot `pos` out, and nothing else.
  record Removed (s : TimerSet) (n pos : ℕ) (u : TimerSet) : Type 0 where
    fewer : u.nts ≡ n
    counted : u.nfg ≡ sub32 s.nfg ((s.ts pos).order % 2)
    kept : u.order ≡ s.order
    heap : IsHeap (ranks base u.ts) n
    window : AllIn base n u.ts
    same : (p : Trec → Bool) → total p n u.ts + of_bool (p (s.ts pos)) ≡ total p (suc n) s.ts

  Removed-sifted :
      (s : TimerSet) (n pos : ℕ) (us : ℕ → Trec)
      → pos < suc n
      → IsHeapOf base n (swap s.ts n pos) us
      → Removed s n pos (record s { ts = us; nts = n; nfg = sub32 s.nfg ((s.ts pos).order % 2) })
  Removed-sifted s n pos us lt h = record {
    fewer = refl;
    counted = refl;
    kept = refl;
    heap = h.heap;
    window = h.window;
    same = λ p. omega (arith, h.same p, swap_end p n s.ts pos lt);
  }

  Removed-last :
      (s : TimerSet) (n pos : ℕ)
      → n ≡ pos
      → IsHeap (ranks base s.ts) (suc n)
      → AllIn base (suc n) s.ts
      → Removed s n pos (record s { nts = n; nfg = sub32 s.nfg ((s.ts pos).order % 2) })
  Removed-last s n pos e h w = record {
    fewer = refl;
    counted = refl;
    kept = refl;
    heap = λ i lo hi. h i lo (omega arith);
    window = λ i hi. w i (omega arith);
    same = λ p. rw (← e) (sym (total-suc p n s.ts));
  }

  remove_slot_lem :
      (s : TimerSet) (n pos : ℕ)
      → pos < suc n
      → IsHeap (ranks base s.ts) (suc n)
      → AllIn base (suc n) s.ts
      → Removed s n pos (remove_slot s n pos)
  unfolding remove_slot
  remove_slot_lem s n pos lt h w =
      let ts = swap s.ts n pos in
      let goes_down = pos == 0 || not (before (ts pos) (ts (heap_parent pos))) in
      elim (ℕ_discrete n pos) [
        | yes last ↦
            subst (Removed s n pos) (sym (if_true (n == pos) _ _ ((==_iff n pos).1 last)))
              (Removed-last s n pos last h w)
        | no inner ↦ elim (Bool-cases goes_down) [
          | inl down ↦
              subst (Removed s n pos)
                (sym (if_false (n == pos) _ _ (ne→not n pos inner) ∙ if_true goes_down _ _ down))
                (Removed-sifted s n pos _ lt
                  (sink_part n s.ts pos (omega arith) h w (stays_below n s.ts pos lt inner w down)))
          | inr up ↦
              subst (Removed s n pos)
                (sym (if_false (n == pos) _ _ (ne→not n pos inner) ∙ if_false goes_down _ _ up))
                (Removed-sifted s n pos _ lt
                  (raise_part n s.ts pos (omega arith) (ground arith) h w (ground arith)))
        ]
      ]

  Removed-IsValid :
      (s : TimerSet) (n pos : ℕ) (u : TimerSet)
      → IsValid base s
      → s.nts ≡ suc n
      → pos < suc n
      → Removed s n pos u
      → IsValid base u
  Removed-IsValid s n pos u v e lt r = record {
    few = omega (arith, r.fewer, v.few);
    even = ground (arith, r.kept, v.even);
    heap = rw r.fewer r.heap;
    window = rw r.fewer r.window;
    foreground =
        rw (r.fewer, r.counted)
          (ground
            (arith, r.same is_foreground, v.foreground, total-le is_foreground n u.ts, v.few));
  }

  Leaves-slot :
      (s : TimerSet) (n pos : ℕ)
      → IsValid base s
      → s.nts ≡ suc n
      → pos < s.nts
      → Leaves base s pos (remove_slot s (s.nts - 1) pos)
  Leaves-slot s n pos v e lt =
      let less : s.nts - 1 ≡ n = omega arith in
      let r = remove_slot_lem s n pos (omega arith) (rw e at v.heap) (rw e at v.window) in
      rw less (record {
        valid = Removed-IsValid s n pos _ v e (omega arith) r;
        fewer = omega (arith, r.fewer);
        same = λ p.
            ap (λ m. total p m (remove_slot s n pos).ts + of_bool (p (s.ts pos))) r.fewer
            ∙ r.same p
            ∙ ap (λ m. total p m s.ts) (sym e);
        kept = r.kept;
      })

  -- `hard_cull` of a slot in use drops the event of that slot.
  pub hard_cull_heap :
      (s : TimerSet) (pos : ℕ)
      → IsValid base s
      → pos < s.nts
      → (u : TimerSet) × (hard_cull s pos ≡ some (clean (s.ts pos).se, u)) × Leaves base s pos u
  unfolding hard_cull
  hard_cull_heap s pos v lt = (
    remove_slot s (s.nts - 1) pos,
    ground (arith, v.few),
    Leaves-slot s (s.nts - 1) pos v (omega arith) lt,
  )

  -- `pop_trigger` triggers the event of the root, which no timer in the set comes before.
  pub pop_trigger_least :
      (s : TimerSet)
      → IsValid base s
      → s.nts ≢ 0
      → (u : TimerSet) × (pop_trigger s ≡ some (trigger (s.ts 0).se, u))
        × Leaves base s 0 u
        × ((i : ℕ) → i < s.nts → before (s.ts i) (s.ts 0) ≡ false)
  unfolding pop_trigger hard_cull
  pop_trigger_least s v ne = (
    remove_slot s (s.nts - 1) 0,
    ground arith,
    Leaves-slot s (s.nts - 1) 0 v (omega arith) (omega arith),
    λ i lt.
        not-before_of_le base base_small s.nts s.ts i 0 v.window lt (omega arith)
          (root-le (ranks base s.ts) s.nts i i v.heap lt (omega arith)),
  )

  pub Culls-step :
      (is_empty : ℕ → Bool) (s t u : TimerSet) (pos : ℕ) (es : List Effect)
      → is_empty (s.ts pos).se ≡ true
      → Leaves base s pos t
      → Culls base is_empty t es u
      → Culls base is_empty s (clean (s.ts pos).se ∷ es) u
  Culls-step is_empty s t u pos es gone l c = record {
    valid = c.valid;
    dead = (gone, c.dead);
    same = λ q. omega (arith, c.same q, l.same (λ t. q t.se));
  }

  pub Culls-none :
      (is_empty : ℕ → Bool) (s : TimerSet) → IsValid base s → Culls base is_empty s [] s
  Culls-none is_empty s v = record { valid = v; dead = tt; same = λ q. omega arith }

  -- `cull` ends when the root is active or the set is empty; it drops dead timers only.
  pub cull_heap :
      (fuel : ℕ) (is_empty : ℕ → Bool) (s : TimerSet)
      → IsValid base s
      → s.nts < fuel
      → (es : List Effect) × (u : TimerSet) × (cull fuel is_empty s ≡ some (es, u))
        × Culls base is_empty s es u
        × ((u.nts ≡ 0) ⊎ (is_empty (u.ts 0).se ≡ false))
  unfolding cull
  cull_heap zero is_empty s v lt = elim lt [ ]
  cull_heap (suc fuel) is_empty s v lt =
      elim (Bool-cases (not (s.nts == 0) && is_empty (s.ts 0).se)) [
        | inl more ↦
            let (t, step, l) = hard_cull_heap s 0 v (ground arith) in
            let (es, u, run, c, end) = cull_heap fuel is_empty t l.valid (omega (arith, l.fewer)) in
            (
              clean (s.ts 0).se ∷ es,
              u,
              ground arith,
              Culls-step is_empty s t u 0 es (ground arith) l c,
              end,
            )
        | inr done ↦ ([], s, ground arith, Culls-none is_empty s v, ground arith)
      ]
