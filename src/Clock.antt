-- ===== src/Clock.antt =====
-- The time of tamer/dinternal.cc, tamer/driver.hh and tamer/xdriver.hh: `now`, `recent`, virtual time, and
-- the times at which the `at_delay` functions set their timers. `tod` is what `gettimeofday` gives.
pub mod Delay
use tamer.Prelude.{
  ℕ, zero, suc, ◌+◌, ◌-◌, ◌*◌, ◌/◌, ◌%◌, ◌^◌, Bool, true, false, not, ◌&&◌, ◌||◌, Option, none,
  some, ltb, leb, ◌==◌, if◌then◌else◌,
}
use tamer.Prelude.Int.{ℤ, pos, negsuc}
use tamer.Driver.Loop.{Timeval}

pub data TimeType : Type 0 where
  time_normal : TimeType
  time_virtual : TimeType

pub record Clock : Type 0 where
  pub recent : Timeval
  pub need_recent : Bool
  pub time_type : TimeType
  pub virtual_offset : Timeval

abbrev pub initial : Clock
initial = record {
  recent = record { sec = 0; usec = 0 };
  need_recent = true;
  time_type = time_normal;
  virtual_offset = record { sec = 1000000000; usec = 0 };
}

-- `++recent.tv_usec`, with the carry
unfoldable pub tick : Timeval → Timeval
tick t = record {
  sec = if t.usec + 1 == 1000000 then t.sec + 1 else t.sec;
  usec = if t.usec + 1 == 1000000 then 0 else t.usec + 1;
}

-- `now`; its result is the new `recent`
unfoldable pub now : Timeval → Clock → Clock
unfolding tick
now tod c = elim c.time_type [
  | time_normal ↦ record c { recent = tod; need_recent = false }
  | time_virtual ↦ record c { recent = tick c.recent; need_recent = false }
]

-- `recent()`
unfoldable pub get_recent : Timeval → Clock → Clock
unfolding now
get_recent tod c = if c.need_recent then now tod c else c

-- `set_recent`
abbrev pub set_recent : Clock → Clock
set_recent c = record c { need_recent = true }

unfoldable pub set_time_type : TimeType → Clock → Clock
set_time_type time_normal c = elim c.time_type [
  | time_normal ↦ c
  | time_virtual ↦ record c {
    virtual_offset = c.recent;
    time_type = time_normal;
    need_recent = true;
  }
]
set_time_type time_virtual c = elim c.time_type [
  | time_normal ↦ record c {
    time_type = time_virtual;
    need_recent = true;
    recent = c.virtual_offset;
  }
  | time_virtual ↦ c
]

-- `timeradd`
unfoldable pub timeradd : Timeval → Timeval → Timeval
timeradd x y = record {
  sec = if leb 1000000 (x.usec + y.usec) then x.sec + y.sec + 1 else x.sec + y.sec;
  usec = if leb 1000000 (x.usec + y.usec) then x.usec + y.usec - 1000000 else x.usec + y.usec;
}

-- Where the event goes: to the next pass, or to a timer.
pub data Request : Type 0 where
  asap : Request
  time : Timeval → Request

unfoldable pub at_delay : Clock → Timeval → Request
unfolding timeradd
at_delay c delay = time (timeradd delay c.recent)

-- The argument is an `int`. `recent()` is called where a time is needed.
unfoldable pub at_delay_sec : Timeval → Clock → ℤ → Request
unfolding get_recent
at_delay_sec tod c (pos zero) = asap
at_delay_sec tod c (pos (suc n)) =
    let r = (get_recent tod c).recent in time (record { sec = r.sec + suc n; usec = r.usec })
at_delay_sec tod c (negsuc n) = asap

unfoldable pub at_delay_msec : Timeval → Clock → ℤ → Request
unfolding get_recent at_delay
at_delay_msec tod c (pos zero) = asap
at_delay_msec tod c (pos (suc n)) =
    at_delay (get_recent tod c) (record { sec = suc n / 1000; usec = suc n % 1000 * 1000 })
at_delay_msec tod c (negsuc n) = asap

unfoldable pub at_delay_usec : Timeval → Clock → ℤ → Request
unfolding get_recent at_delay
at_delay_usec tod c (pos zero) = asap
at_delay_usec tod c (pos (suc n)) =
    at_delay (get_recent tod c) (record { sec = suc n / 1000000; usec = suc n % 1000000 })
at_delay_usec tod c (negsuc n) = asap
