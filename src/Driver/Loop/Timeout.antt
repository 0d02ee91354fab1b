-- ===== src/Driver/Loop/Timeout.antt =====
-- How long the loop waits.
use tamer.Prelude.{
  ℕ, ◌+◌, ◌-◌, ◌*◌, ◌/◌, ◌^◌, ◌≤◌, ◌<◌, ◌≡◌, ◌≢◌, ap, ◌∙◌, true, false, ◌&&◌, some, arith, ◌==◌,
}
use tamer.Prelude.Int.{pos, negsuc}
use tamer.AsapSet
use tamer.AsapSet.{AsapSet}
use tamer.Timers.{TimerSet}
use tamer.Driver.Loop.{Timeval, time_of, later, timersub, to_int, Around, no_more, block}

-- The loop waits for a timer: nothing is ready, the first timer is later than `tnow`, something counts.
pub record Waits (asap : AsapSet) (timers : TimerSet) (r : Around) (tnow : Timeval) : Type 0 where
  pub no_asap : AsapSet.empty asap ≡ true
  pub no_signal : r.sig_any_active ≡ false
  pub no_closure : r.unblocked ≡ false
  pub some_timer : timers.nts ≢ 0
  pub not_due : later (time_of (timers.ts 0)) tnow ≡ true
  pub counts : timers.nfg == 0 && no_more r ≡ false
  pub real_time : r.time_virtual ≡ false
  pub usec_small : (timers.ts 0).usec < 1000000
  pub now_usec_small : tnow.usec < 1000000

abbrev pub micros : Timeval → ℕ
micros t = t.sec * 1000000 + t.usec

-- The time that `poll` is given, before it is stored in an `int`.
abbrev millis : TimerSet → Timeval → ℕ
millis timers tnow =
    let to = timersub (time_of (timers.ts 0)) tnow in to.sec * 1000 + (to.usec + 250) / 1000

block-Waits :
    (asap : AsapSet) (timers : TimerSet) (r : Around) (tnow : Timeval)
    → Waits asap timers r tnow
    → block asap timers r tnow ≡ some (to_int (millis timers tnow))
unfolding block
block-Waits asap timers r tnow w =
    ground
      (arith, w.no_asap, w.no_signal, w.no_closure, w.some_timer, w.not_due, w.counts, w.real_time)

millis_near :
    (timers : TimerSet) (tnow : Timeval)
    → later (time_of (timers.ts 0)) tnow ≡ true
    → (timers.ts 0).usec < 1000000
    → tnow.usec < 1000000
    → (millis timers tnow * 1000 + micros tnow ≤ micros (time_of (timers.ts 0)) + 250)
      × (micros (time_of (timers.ts 0)) < millis timers tnow * 1000 + micros tnow + 750)
unfolding later timersub
millis_near timers tnow l u v = ground arith

to_int_small : (n : ℕ) → n < 2 ^ 31 → to_int n ≡ pos n
unfolding to_int
to_int_small n h = ground arith

to_int_large : (n : ℕ) → 2 ^ 31 ≤ n → n < 2 ^ 32 → to_int n ≡ negsuc (2 ^ 32 - 1 - n)
unfolding to_int
to_int_large n lo hi = ground arith

-- If the first timer is less than 2147483 seconds ahead, the loop waits for a number of milliseconds
-- that ends less than 750 microseconds before the timer and at most 250 behind it.
pub block_near :
    (asap : AsapSet) (timers : TimerSet) (r : Around) (tnow : Timeval)
    → Waits asap timers r tnow
    → micros (time_of (timers.ts 0)) < micros tnow + 2147483000000
    → (n : ℕ) × (block asap timers r tnow ≡ some (pos n))
      × (n * 1000 + micros tnow ≤ micros (time_of (timers.ts 0)) + 250)
      × (micros (time_of (timers.ts 0)) < n * 1000 + micros tnow + 750)
block_near asap timers r tnow w near =
    let (lo, hi) = millis_near timers tnow w.not_due w.usec_small w.now_usec_small in
    (
      millis timers tnow,
      block-Waits asap timers r tnow w
          ∙ ap (λ k. some k) (to_int_small (millis timers tnow) (omega arith)),
      lo,
      hi,
    )

-- If the first timer is from 2147484 to 4294966 seconds ahead, the number of milliseconds that the loop
-- gives to `poll` is negative, which is how `poll` is told to wait for ever.
pub block_overflow :
    (asap : AsapSet) (timers : TimerSet) (r : Around) (tnow : Timeval)
    → Waits asap timers r tnow
    → micros tnow + 2147484000000 ≤ micros (time_of (timers.ts 0))
    → micros (time_of (timers.ts 0)) < micros tnow + 4294967000000
    → (n : ℕ) × (block asap timers r tnow ≡ some (negsuc n))
block_overflow asap timers r tnow w far near =
    let (lo, hi) = millis_near timers tnow w.not_due w.usec_small w.now_usec_small in
    (
      2 ^ 32 - 1 - millis timers tnow,
      block-Waits asap timers r tnow w
          ∙ ap (λ k. some k) (to_int_large (millis timers tnow) (omega arith) (omega arith)),
    )
