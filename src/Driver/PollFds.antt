-- ===== src/Driver/PollFds.antt =====
-- `xpollfds` of tamer/dtamer.cc: the array that `poll` reads, and the map from a descriptor to its slot.
pub mod Laws
use tamer.Prelude.{
  ℕ, zero, suc, ◌+◌, ◌-◌, ◌*◌, ◌^◌, Bool, true, false, not, ◌&&◌, ◌||◌, ltb, leb, ◌==◌,
  if◌then◌else◌, store,
}
use Prim.Native.Nat.{bit_or}

-- `pollfd`; `revents` is written by `poll` and read behind it only. A descriptor is not negative, and
-- `events` is 0 or a set of flags.
pub record PollFd : Type 0 where
  pub fd : ℕ
  pub events : ℕ

pub record PollFds : Type 0 where
  pub pfds : ℕ → PollFd
  pub fdmap : ℕ → ℕ
  pub npfds : ℕ
  pub pfdcap : ℕ
  pub nfdmap : ℕ

abbrev pub initial : PollFds
initial = record {
  pfds = λ _. record { fd = 0; events = 0 };
  fdmap = λ _. 0;
  npfds = 0;
  pfdcap = 64;
  nfdmap = 256;
}

unfoldable pub events : PollFds → ℕ → ℕ
events p fd = if leb p.nfdmap fd || p.fdmap fd == 0 then 0 else (p.pfds (p.fdmap fd - 1)).events

-- The new map in `set_events`, with `memcpy` and `memset`.
unfoldable pub grow_map : PollFds → ℕ → PollFds
grow_map p fd =
    let newn = bit_or fd 0xFFF + 1 in
    let full = leb p.nfdmap fd in
    record p {
      fdmap = λ i. if full && leb p.nfdmap i then 0 else p.fdmap i;
      nfdmap = if full then newn else p.nfdmap;
    }

unfoldable pub grow_pfds : PollFds → PollFds
grow_pfds p = record p { pfdcap = if p.npfds == p.pfdcap then p.pfdcap * 2 else p.pfdcap }

unfoldable pub add : PollFds → ℕ → ℕ → PollFds
add p fd events = record p {
  pfds = store p.pfds p.npfds (record { fd = fd; events = events });
  fdmap = store p.fdmap fd (p.npfds + 1);
  npfds = p.npfds + 1;
}

-- The end of `set_events`: the last slot takes the place of the slot `fdidx`.
unfoldable pub remove : PollFds → ℕ → PollFds
remove p fd =
    let fdidx = p.fdmap fd - 1 in
    let n = p.npfds - 1 in
    let fdmap = store p.fdmap fd 0 in
    let last = p.pfds n in
    record p {
      pfds = if fdidx == n then p.pfds else store p.pfds fdidx last;
      fdmap = if fdidx == n then fdmap else store fdmap last.fd (fdidx + 1);
      npfds = n;
    }

unfoldable pub replace : PollFds → ℕ → ℕ → PollFds
replace p fd events =
    let fdidx = p.fdmap fd - 1 in
    record p { pfds = store p.pfds fdidx (record { fd = (p.pfds fdidx).fd; events = events }) }

unfoldable pub set_events : PollFds → ℕ → ℕ → PollFds
set_events p fd events =
    if leb p.nfdmap fd || p.fdmap fd == 0
    then if events == 0 then p else add (grow_pfds (grow_map p fd)) fd events
    else if not (events == 0)
    then replace p fd events
    else remove p fd
