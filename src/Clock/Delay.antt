-- ===== src/Clock/Delay.antt =====
-- Times in microseconds: virtual time goes on by one at each `now`, and a timer is set at the recent time
-- plus its delay.
use tamer.Prelude.{ℕ, zero, suc, ◌+◌, ◌*◌, ◌/◌, ◌%◌, ◌<◌, ◌≡◌, ◌≢◌, refl, arith}
use tamer.Prelude.Int.{pos}
use tamer.Driver.Loop.{Timeval}
use tamer.Driver.Loop.Timeout.{micros}
use tamer.Clock.{
  time_normal, time_virtual, Clock, tick, now, get_recent, set_time_type, timeradd, Request, asap,
  time, at_delay, at_delay_sec, at_delay_msec, at_delay_usec,
}

-- In virtual time each `now` is one microsecond later than the one before, and its microseconds are below
-- a million.
pub now_virtual :
    (tod : Timeval) (c : Clock)
    → c.time_type ≡ time_virtual
    → c.recent.usec < 1000000
    → (micros (now tod c).recent ≡ micros c.recent + 1)
      × ((now tod c).recent.usec < 1000000)
      × ((now tod c).time_type ≡ time_virtual)
unfolding now tick
now_virtual tod c v h = ground (arith, v)

-- Virtual time goes on where it was left: leaving it and coming back gives the time at which it was left.
pub set_time_type_back :
    (c : Clock) (tod : Timeval)
    → c.time_type ≡ time_virtual
    → (set_time_type time_virtual (now tod (set_time_type time_normal c))).recent ≡ c.recent
unfolding set_time_type now
set_time_type_back c tod v = ground (arith, v)

timeradd-micros :
    (x y : Timeval)
    → x.usec < 1000000
    → y.usec < 1000000
    → (micros (timeradd x y) ≡ micros x + micros y) × ((timeradd x y).usec < 1000000)
unfolding timeradd
timeradd-micros x y hx hy = ground arith

-- A timer that is `n` microseconds behind the recent time.
pub record At (n : ℕ) (r t : Timeval) : Type 0 where
  pub later_by : micros t ≡ micros r + n
  pub usec_small : t.usec < 1000000

abbrev pub Sets : Request → ℕ → Timeval → Type 0
Sets asap n r = n ≡ 0
Sets (time t) n r = (n ≢ 0) × At n r t

sec-Sets :
    (tod : Timeval) (c : Clock) (d : ℕ)
    → (get_recent tod c).recent.usec < 1000000
    → Sets (at_delay_sec tod c (pos d)) (d * 1000000) (get_recent tod c).recent
unfolding at_delay_sec
sec-Sets tod c zero h = refl
sec-Sets tod c (suc d) h = (omega arith, record { later_by = omega arith; usec_small = h })

msec-Sets :
    (tod : Timeval) (c : Clock) (d : ℕ)
    → (get_recent tod c).recent.usec < 1000000
    → Sets (at_delay_msec tod c (pos d)) (d * 1000) (get_recent tod c).recent
unfolding at_delay_msec at_delay
msec-Sets tod c zero h = refl
msec-Sets tod c (suc d) h =
    let (sum, small) =
      timeradd-micros (record { sec = suc d / 1000; usec = suc d % 1000 * 1000 })
        (get_recent tod c).recent (omega arith) h in
    (omega arith, record { later_by = omega (arith, sum); usec_small = small })

usec-Sets :
    (tod : Timeval) (c : Clock) (d : ℕ)
    → (get_recent tod c).recent.usec < 1000000
    → Sets (at_delay_usec tod c (pos d)) d (get_recent tod c).recent
unfolding at_delay_usec at_delay
usec-Sets tod c zero h = refl
usec-Sets tod c (suc d) h =
    let (sum, small) =
      timeradd-micros (record { sec = suc d / 1000000; usec = suc d % 1000000 })
        (get_recent tod c).recent (omega arith) h in
    (omega arith, record { later_by = omega (arith, sum); usec_small = small })

-- Where a delay of `d` seconds, milliseconds or microseconds puts an event: into the next pass if `d` is
-- 0, and otherwise behind the recent time by that delay in microseconds.
pub at_delay_lem :
    (tod : Timeval) (c : Clock) (d : ℕ)
    → (get_recent tod c).recent.usec < 1000000
    → Sets (at_delay_sec tod c (pos d)) (d * 1000000) (get_recent tod c).recent
      × Sets (at_delay_msec tod c (pos d)) (d * 1000) (get_recent tod c).recent
      × Sets (at_delay_usec tod c (pos d)) d (get_recent tod c).recent
at_delay_lem tod c d h = (sec-Sets tod c d h, msec-Sets tod c d h, usec-Sets tod c d h)
