-- ===== src/Driver/Loop/Due.antt =====
-- The loops of a pass over the timers that are due and over the events for the next pass.
use tamer.Prelude.{
  ℕ, zero, suc, ◌+◌, ◌^◌, ◌<◌, ◌≡◌, refl, sym, ap, ◌∙◌, inl, inr, Bool, true, false, not, ◌&&◌,
  List, [], ◌∷◌, none, some, arith, ◌==◌, Bool-cases, length, add32,
}
use tamer.AsapSet
use tamer.AsapSet.{AsapSet}
use tamer.AsapSet.Window.{slots}
use tamer.AsapSet.Fifo
use tamer.AsapSet.Fifo.{count, contents, pop_fifo}
use tamer.Timers.{Trec, TimerSet, of_bool, before}
use tamer.Timers.Total.{total}
use tamer.Timers.Cull
use tamer.Timers.Cull.{Leaves, pop_trigger_least}
use tamer.Driver.Loop.{Timeval, time_of, later, fire_timers, fire_asap}

abbrev pub AllFalse : (Trec → Bool) → List Trec → Type 0
AllFalse p [] = Unit
AllFalse p (t ∷ ts) = (p t ≡ false) × AllFalse p ts

-- No timer comes before one that is ahead of it in the list.
abbrev pub InOrder : List Trec → Type 0
InOrder [] = Unit
InOrder (t ∷ ts) = AllFalse (λ u. before u t) ts × InOrder ts

abbrev pub tally : (Trec → Bool) → List Trec → ℕ
tally p [] = 0
tally p (t ∷ ts) = of_bool (p t) + tally p ts

AllFalse-tally : (p : Trec → Bool) (ts : List Trec) → tally p ts ≡ 0 → AllFalse p ts
AllFalse-tally p [] h = tt
AllFalse-tally p (t ∷ ts) h = (ground arith, AllFalse-tally p ts (ground arith))

pub total_none :
    (p : Trec → Bool) (n : ℕ) (ts : ℕ → Trec)
    → ((i : ℕ) → i < n → p (ts i) ≡ false)
    → total p n ts ≡ 0
unfolding total
total_none p zero ts h = refl
total_none p (suc n) ts h =
    let rest = total_none p n ts (λ i lt. h i (omega arith)) in ground (arith, h n (omega arith))

-- From `s` to `u` the timers of the list were triggered, in order, and no other left.
pub record Fired (base : ℕ) (recent : Timeval) (s : TimerSet) (ts : List Trec) (u : TimerSet)
    : Type 0 where
  pub valid : Cull.IsValid base u
  pub due : AllFalse (λ t. later (time_of t) recent) ts
  pub order : InOrder ts
  pub left : (i : ℕ) → i < u.nts → later (time_of (u.ts i)) recent ≡ true
  pub same : (p : Trec → Bool) → total p u.nts u.ts + tally p ts ≡ total p s.nts s.ts

-- A timer that does not come before one that is later than `recent` is itself later.
pub later-before :
    (x y : Trec) (recent : Timeval)
    → before y x ≡ false
    → later (time_of x) recent ≡ true
    → later (time_of y) recent ≡ true
unfolding before later
later-before x y recent b l = ground arith

module _ (base : ℕ) (base_small : base < 2 ^ 32) (recent : Timeval) where
  Fired-none :
      (s : TimerSet)
      → Cull.IsValid base s
      → not (s.nts == 0) && not (later (time_of (s.ts 0)) recent) ≡ false
      → Fired base recent s [] s
  Fired-none s v stop = record {
    valid = v;
    due = tt;
    order = tt;
    left = λ i lt.
        let (u, e, l, least) = pop_trigger_least base base_small s v (λ z. omega arith) in
        later-before (s.ts 0) (s.ts i) recent (least i lt) (ground arith);
    same = λ p. omega arith;
  }

  Fired-step :
      (s t u : TimerSet) (ts : List Trec)
      → later (time_of (s.ts 0)) recent ≡ false
      → ((i : ℕ) → i < s.nts → before (s.ts i) (s.ts 0) ≡ false)
      → Leaves base s 0 t
      → Fired base recent t ts u
      → Fired base recent s (s.ts 0 ∷ ts) u
  Fired-step s t u ts due least l f = record {
    valid = f.valid;
    due = (due, f.due);
    order = (
      AllFalse-tally (λ x. before x (s.ts 0)) ts
          (omega (
            arith,
            f.same (λ x. before x (s.ts 0)),
            l.same (λ x. before x (s.ts 0)),
            total_none (λ x. before x (s.ts 0)) s.nts s.ts least,
          )),
      f.order,
    );
    left = f.left;
    same = λ p. omega (arith, f.same p, l.same p);
  }

  -- On a valid set, with more fuel than there are timers, the loop over the timers that are due ends. It
  -- triggers due timers only, none before one that comes before it, each as often as it leaves the set;
  -- no timer that is left is due, and the set is valid.
  pub fire_timers_lem :
      (fuel : ℕ) (s : TimerSet)
      → Cull.IsValid base s
      → s.nts < fuel
      → (ts : List Trec) × (u : TimerSet) × (fire_timers fuel recent s ≡ some (ts, u))
        × Fired base recent s ts u
  unfolding fire_timers
  fire_timers_lem zero s v lt = elim lt [ ]
  fire_timers_lem (suc fuel) s v lt =
      elim (Bool-cases (not (s.nts == 0) && not (later (time_of (s.ts 0)) recent))) [
        | inl more ↦
            let (t, popped, l, least) = pop_trigger_least base base_small s v (λ z. ground arith) in
            let (ts, u, run, f) = fire_timers_lem fuel t l.valid (omega (arith, l.fewer)) in
            (
              s.ts 0 ∷ ts,
              u,
              ground (arith, popped, run),
              Fired-step s t u ts (ground arith) least l f,
            )
        | inr stop ↦ ([], s, ground arith, Fired-none s v stop)
      ]

length-slots : (ses : ℕ → ℕ) (mask head n : ℕ) → length (slots ses mask head n) ≡ n
length-slots ses mask head zero = refl
length-slots ses mask head (suc n) = ap suc (length-slots ses mask (add32 head 1) n)

pop_none : (a : AsapSet) → AsapSet.empty a ≡ true → AsapSet.pop_trigger a ≡ none
unfolding AsapSet.empty AsapSet.pop_trigger
pop_none a e = ground arith

none_pop : (a : AsapSet) → AsapSet.pop_trigger a ≡ none → AsapSet.empty a ≡ true
unfolding AsapSet.empty AsapSet.pop_trigger
none_pop a e = ground arith

fewer : (a b : AsapSet) (se : ℕ) → contents a ≡ se ∷ contents b → count a ≡ suc (count b)
fewer a b se e =
    sym (length-slots a.ses a.capmask a.head (count a))
    ∙ ap length e
    ∙ ap suc (length-slots b.ses b.capmask b.head (count b))

-- With more fuel than there are events, the loop over the ring ends: it triggers every event of the ring
-- once, in the order in which they were pushed, and the ring is empty and valid.
pub fire_asap_lem :
    (fuel : ℕ) (a : AsapSet)
    → Fifo.IsValid a
    → count a < fuel
    → (b : AsapSet) × (fire_asap fuel a ≡ some (contents a, b)) × (contents b ≡ []) × Fifo.IsValid b
unfolding fire_asap
fire_asap_lem zero a v lt = elim lt [ ]
fire_asap_lem (suc fuel) a v lt = elim (pop_fifo a v) [
  | inl (stop, empty_ring) ↦ (a, ground (arith, none_pop a stop), empty_ring, v)
  | inr (se, b, popped, split, w) ↦
      let more : AsapSet.empty a ≡ false = ground (arith, pop_none a) in
      let (c, run, done, x) = fire_asap_lem fuel b w (omega (arith, fewer a b se split)) in
      (c, ground (arith, more, popped, run, split), done, x)
]
