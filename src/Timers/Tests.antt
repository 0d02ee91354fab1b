-- ===== src/Timers/Tests.antt =====
-- The timer heap at concrete inputs.
use tamer.Prelude.{
  ℕ, ◌+◌, ◌<◌, ◌≡◌, refl, Bool, true, false, List, some, arith, ◌==◌, if◌then◌else◌,
}
use tamer.Timers.{Trec, TimerSet, Effect, trigger, before, of_bool, pop_trigger, push}
use tamer.Timers.Rank.{rank}
use tamer.Timers.Total.{total}
use tamer.Timers.Cull.{IsValid, Leaves, AllDead, tally, pop_trigger_least}
use tamer.Timers.Push.{push_heap}

abbrev early : Trec
early = record { sec = 1; usec = 0; order = 3; se = 10 }

abbrev late : Trec
late = record { sec = 2; usec = 0; order = 4; se = 11 }

-- a foreground timer before a background one
abbrev two : TimerSet
two = record {
  ts = λ i. if i == 0 then early else late;
  nts = 2;
  nfg = 1;
  rand = 8173;
  tcap = 31;
  order = 4;
}

two-IsValid : IsValid 0 two
unfolding rank total
two-IsValid = record {
  few = omega arith;
  even = refl;
  heap = λ i lo hi. ground arith;
  window = λ i hi. ground arith;
  foreground = refl;
}

-- two timers at one time: the one pushed first comes first, also when the counter wraps
ties :
    before
      (record { sec = 1; usec = 0; order = 4294967295; se = 0 })
      (record { sec = 1; usec = 0; order = 1; se = 1 })
    ≡ true
unfolding before
ties = refl

pop_trigger_least_example :
    (u : TimerSet) × (pop_trigger two ≡ some (trigger 10, u))
    × Leaves 0 two 0 u
    × ((i : ℕ) → i < 2 → before (two.ts i) early ≡ false)
pop_trigger_least_example = pop_trigger_least 0 (omega arith) two two-IsValid (λ e. omega arith)

push_heap_example :
    (es : List Effect) × (u : TimerSet) × (push (λ _. false) two 0 5 12 false ≡ some (es, u))
    × IsValid 0 u
    × AllDead (λ _. false) es
    × ((q : ℕ → Bool)
        → total (λ t. q t.se) u.nts u.ts + tally q es
          ≡ total (λ t. q t.se) 2 two.ts + of_bool (q 12))
push_heap_example =
    push_heap 0 (omega arith) (λ _. false) two 0 5 12 false two-IsValid
      (record { few = omega arith; usec_small = omega arith; near = omega arith }) refl
