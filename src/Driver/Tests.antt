-- ===== src/Driver/Tests.antt =====
-- The driver at concrete inputs.
use tamer.Prelude.{
  ℕ, Bool, ◌+◌, ◌*◌, ◌≤◌, ◌<◌, ◌≡◌, refl, false, List, [], ◌∷◌, some, arith, ◌==◌, if◌then◌else◌,
}
use tamer.Prelude.Int.{pos, negsuc}
use tamer.AsapSet
use tamer.AsapSet.{AsapSet}
use tamer.Timers.{Trec, TimerSet}
use tamer.Timers.Rank.{rank}
use tamer.Timers.Total.{total}
use tamer.Timers.Cull
use tamer.Driver.PollFds
use tamer.Driver.PollFds.{PollFds, PollFd, events, set_events}
use tamer.Driver.PollFds.Laws
use tamer.Driver.PollFds.Laws.{set_events_lem, initial-IsValid}
use tamer.Driver.FdSet.{FdSet, no_events}
use tamer.Driver.FdSet.Changes.{Pending}
use tamer.Driver.FdSet.Expand
use tamer.Driver.FdSet.Expand.{Expanded, expand_lem}
use tamer.Driver.Interest.{Flags, read, at_fd, kill_fd, poll_events, update_fds}
use tamer.Driver.Interest.Sync.{Sync}
use tamer.Driver.Interest.Update.{Updated, update_fds_lem}
use tamer.Driver.Interest.Kill.{Sets, at_fd_lem, kill_fd_lem}
use tamer.Driver.Loop.{Pass, Timeval, later, Around, block, fire_timers}
use tamer.Driver.Loop.Timeout.{Waits, block_near, block_overflow}
use tamer.Driver.Loop.Ends.{Ends}
use tamer.Driver.Loop.Due.{Fired, fire_timers_lem}

-- descriptor 3 is watched
abbrev one_watched : PollFds
one_watched = record {
  pfds = λ _. record { fd = 3; events = 1 };
  fdmap = λ g. if g == 3 then 1 else 0;
  npfds = 1;
  pfdcap = 1;
  nfdmap = 256;
}

one_watched-IsValid : Laws.IsValid one_watched
one_watched-IsValid = record {
  slot = λ i h. (omega arith, omega arith, λ e. omega arith);
  mapped = λ g h ne. ground arith;
  room = omega arith;
  some_room = omega arith;
}

-- both arrays grow
set_events_grows :
    ((set_events one_watched 300 4).pfdcap ≡ 2) × ((set_events one_watched 300 4).nfdmap ≡ 4096)
unfolding set_events PollFds.add PollFds.grow_pfds PollFds.grow_map
set_events_grows = (refl, refl)

set_events_lem_example :
    Laws.IsValid (set_events one_watched 300 4)
    × ((g : ℕ)
        → events (set_events one_watched 300 4) g ≡ (if g == 300 then 4 else events one_watched g))
set_events_lem_example = set_events_lem one_watched 300 4 one_watched-IsValid

-- event 7 waits to read from descriptor 1, which has changed
abbrev changed : FdSet
changed = record {
  e = λ g. record { read = if g == 1 then 7 ∷ [] else []; write = []; shutdown = [] };
  next = λ _. 0;
  nfds = 4;
  fdcap = 256;
  changedfd1 = 2;
}

abbrev changes : List ℕ
changes = 1 ∷ []

changed-Pending : Pending changed changes
changed-Pending = record { pops = (refl, refl); unlinked = λ g h. refl; below = (omega arith, tt) }

changed-IsValid : Expand.IsValid changed
changed-IsValid = record { room = omega arith; blocks = refl; fresh = λ g h. ground arith }

abbrev poll_flags : Flags
poll_flags = record { pollin = 1; pollout = 4; pollrdhup = 0x2000 }

changed-Sync : Sync poll_flags changed PollFds.initial (1 ∷ [])
unfolding events poll_events
changed-Sync = record {
  pending = changed-Pending;
  set_valid = changed-IsValid;
  poll_valid = initial-IsValid;
  synced = λ g h o. ground arith;
}

update_fds_lem_example :
    (t : FdSet) × (q : PollFds) × (update_fds 2 poll_flags changed PollFds.initial ≡ some (t, q))
    × Updated poll_flags changed t q
update_fds_lem_example =
    update_fds_lem 2 poll_flags changed PollFds.initial (1 ∷ []) changed-Sync (omega arith)

at_fd_lem_example :
    (t : FdSet) × (at_fd changed 1 read 8 ≡ some t)
    × Sets poll_flags changed PollFds.initial 1
        (record { read = 7 ∷ 8 ∷ []; write = []; shutdown = [] })
        t
at_fd_lem_example = at_fd_lem poll_flags changed PollFds.initial (1 ∷ []) 1 read 8 changed-Sync

kill_fd_lem_example :
    (t : FdSet) × (kill_fd changed 1 ≡ some (7 ∷ [], t))
    × Sets poll_flags changed PollFds.initial 1 no_events t
kill_fd_lem_example =
    kill_fd_lem poll_flags changed PollFds.initial (1 ∷ []) 1 changed-Sync (omega arith)

-- one foreground timer, `sec` seconds behind the start
abbrev timer_at : ℕ → TimerSet
timer_at sec = record {
  ts = λ _. record { sec = sec; usec = 500; order = 1; se = 9 };
  nts = 1;
  nfg = 1;
  rand = 8173;
  tcap = 31;
  order = 2;
}

timer-IsValid : (sec : ℕ) → Cull.IsValid 0 (timer_at sec)
unfolding rank total
timer-IsValid sec = record {
  few = omega arith;
  even = refl;
  heap = λ i lo hi. absurd (omega arith);
  window = λ i hi. ground arith;
  foreground = refl;
}

abbrev alone : Around
alone = record {
  sig_any_active = false;
  unblocked = false;
  npfds = 0;
  sig_pipe = false;
  sig_nforeground = 0;
  time_virtual = false;
}

abbrev start : Timeval
start = record { sec = 0; usec = 100 }

timer-Waits : (sec : ℕ) → 0 < sec → Waits AsapSet.initial (timer_at sec) alone start
unfolding AsapSet.empty later
timer-Waits sec h = record {
  no_asap = refl;
  no_signal = refl;
  no_closure = refl;
  some_timer = λ e. omega arith;
  not_due = ground arith;
  counts = refl;
  real_time = refl;
  usec_small = omega arith;
  now_usec_small = omega arith;
}

block_near_example :
    (n : ℕ) × (block AsapSet.initial (timer_at 2) alone start ≡ some (pos n))
    × (n * 1000 + 100 ≤ 2000500 + 250)
    × (2000500 < n * 1000 + 100 + 750)
block_near_example =
    block_near AsapSet.initial (timer_at 2) alone start (timer-Waits 2 (omega arith)) (omega arith)

block_overflow_example :
    (n : ℕ) × (block AsapSet.initial (timer_at 3000000) alone start ≡ some (negsuc n))
block_overflow_example =
    block_overflow AsapSet.initial (timer_at 3000000) alone start
      (timer-Waits 3000000 (omega arith)) (omega arith) (omega arith)

-- A pass with a foreground timer, and one that is broken.
abbrev pass : Bool → Pass
pass broken = record {
  asap = AsapSet.initial;
  timers = timer_at 2;
  around = alone;
  tnow = start;
  broken = broken;
}

fire_timers_lem_example :
    (ts : List Trec) × (u : TimerSet) × (fire_timers 2 (record { sec = 2; usec = 500 }) (timer_at 2)
      ≡ some (ts, u))
    × Fired 0 (record { sec = 2; usec = 500 }) (timer_at 2) ts u
fire_timers_lem_example =
    fire_timers_lem 0 (omega arith) (record { sec = 2; usec = 500 }) 2 (timer_at 2)
      (timer-IsValid 2) (omega arith)
