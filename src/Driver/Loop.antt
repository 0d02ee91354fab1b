-- ===== src/Driver/Loop.antt =====
-- What `driver_tamer::loop` of tamer/dtamer.cc decides in a pass, and how it goes through the timers and
-- the events for the next pass. The closures that run in between are steps of the program.
pub mod Timeout
pub mod Due
pub mod Ends
use tamer.Prelude.{
  ℕ, zero, suc, ◌+◌, ◌-◌, ◌*◌, ◌/◌, ◌%◌, ◌^◌, Bool, true, false, not, ◌&&◌, ◌||◌, List, [], ◌∷◌,
  Option, none, some, ltb, leb, ◌==◌, if◌then◌else◌,
}
use tamer.Prelude.Int.{ℤ, pos, negsuc}
use tamer.AsapSet
use tamer.AsapSet.{AsapSet}
use tamer.Timers
use tamer.Timers.{Trec, TimerSet, of_bool}

-- `timeval`, not negative
pub record Timeval : Type 0 where
  pub sec : ℕ
  pub usec : ℕ

abbrev pub time_of : Trec → Timeval
time_of t = record { sec = t.sec; usec = t.usec }

-- `timercmp(&x, &y, >)`
unfoldable pub later : Timeval → Timeval → Bool
later x y = if x.sec == y.sec then ltb y.usec x.usec else ltb y.sec x.sec

-- `timersub(&x, &y, &to)` for `x` later than `y`
unfoldable pub timersub : Timeval → Timeval → Timeval
timersub x y = record {
  sec = if ltb x.usec y.usec then x.sec - y.sec - 1 else x.sec - y.sec;
  usec = if ltb x.usec y.usec then x.usec + 1000000 - y.usec else x.usec - y.usec;
}

-- A number of type `long` stored in an `int` of 32 bits.
unfoldable pub to_int : ℕ → ℤ
to_int n = if ltb (n % 2 ^ 32) (2 ^ 31) then pos (n % 2 ^ 32) else negsuc (2 ^ 32 - 1 - n % 2 ^ 32)

-- What else the decision reads: whether a signal came, whether a closure is unblocked, the number of
-- descriptors, whether one is the pipe for signals, the signals that count, and virtual time.
pub record Around : Type 0 where
  pub sig_any_active : Bool
  pub unblocked : Bool
  pub npfds : ℕ
  pub sig_pipe : Bool
  pub sig_nforeground : ℕ
  pub time_virtual : Bool

abbrev no_more : Around → Bool
no_more r = leb r.npfds (of_bool r.sig_pipe) && r.sig_nforeground == 0

-- `blockms`, behind `timers_.cull()`; `none` is the `return` of the loop before it waits
unfoldable pub block : AsapSet → TimerSet → Around → Timeval → Option ℤ
unfolding AsapSet.empty later timersub to_int
block asap timers r tnow =
    let expiry = time_of (timers.ts 0) in
    let to = timersub expiry tnow in
    if not (AsapSet.empty asap) || r.sig_any_active || r.unblocked
    then some (pos 0)
    else if not (timers.nts == 0)
    then if not (later expiry tnow)
      then some (pos 0)
      else if timers.nfg == 0 && no_more r
      then none
      else if r.time_virtual
      then some (pos 0)
      else some (to_int (to.sec * 1000 + (to.usec + 250) / 1000))
    else if no_more r
    then none
    else some (negsuc 0)

pub data LoopFlags : Type 0 where
  loop_forever : LoopFlags
  loop_once : LoopFlags

-- `loop_state_` behind the entry of `loop`, and behind `break_loop`
unfoldable pub enter : LoopFlags → Bool → Bool
enter loop_forever state = true
enter loop_once state = state

abbrev pub break_loop : Bool → Bool
break_loop state = false

-- Whether another pass follows the one with this `blockms`; `state` is `loop_state_` at the end of the pass.
unfoldable pub goes_on : Option ℤ → Bool → Bool
goes_on none state = false
goes_on (some blockms) state = state

-- A pass: what it decides on, and whether something that it runs calls `break_loop`.
pub record Pass : Type 0 where
  pub asap : AsapSet
  pub timers : TimerSet
  pub around : Around
  pub tnow : Timeval
  pub broken : Bool

-- How many of the passes that the program would make are made.
unfoldable pub passes : Bool → List Pass → ℕ
unfolding block goes_on
passes state [] = 0
passes state (p ∷ ps) =
    let left = if p.broken then break_loop state else state in
    let rest = passes left ps in
    if goes_on (block p.asap p.timers p.around p.tnow) left then suc rest else 1

unfoldable pub loop : LoopFlags → Bool → List Pass → ℕ
unfolding enter passes
loop flags state ps = passes (enter flags state) ps

-- The loop over the timers that are due: the records whose events it triggers, and the set that is left;
-- `none` if the fuel runs out, or an assertion fails.
unfoldable pub fire_timers : ℕ → Timeval → TimerSet → Option (List Trec × TimerSet)
fire_timers zero recent s = none
fire_timers (suc fuel) recent s = elim (not (s.nts == 0) && not (later (time_of (s.ts 0)) recent)) [
  | Bool.false ↦ some ([], s)
  | Bool.true ↦ elim (Timers.pop_trigger s) [
    | none ↦ none
    | some (e, t) ↦ elim (fire_timers fuel recent t) [
      | none ↦ none
      | some (fired, u) ↦ some (s.ts 0 ∷ fired, u)
    ]
  ]
]

-- `while (!asap_.empty()) asap_.pop_trigger();`, and the same for `preblock_`
unfoldable pub fire_asap : ℕ → AsapSet → Option (List ℕ × AsapSet)
unfolding AsapSet.empty
fire_asap zero a = none
fire_asap (suc fuel) a = elim (AsapSet.empty a) [
  | Bool.true ↦ some ([], a)
  | Bool.false ↦ elim (AsapSet.pop_trigger a) [
    | none ↦ none
    | some (e, b) ↦ elim (fire_asap fuel b) [ none ↦ none | some (fired, c) ↦ some (e ∷ fired, c) ]
  ]
]

-- `next_wake`; `none` is the time -1
unfoldable pub next_wake : AsapSet → TimerSet → Around → Option Timeval
unfolding AsapSet.empty
next_wake asap timers r =
    if not (AsapSet.empty asap) || r.sig_any_active || r.unblocked
    then some (record { sec = 0; usec = 0 })
    else if timers.nts == 0
    then none
    else some (time_of (timers.ts 0))
