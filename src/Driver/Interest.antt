-- ===== src/Driver/Interest.antt =====
-- The descriptors of `driver_tamer` in tamer/dtamer.cc: who waits for them, and what is asked of `poll`.
-- The flags come from <poll.h>.
pub mod Sync
pub mod Update
pub mod Kill
use tamer.Prelude.{
  ℕ, zero, suc, ◌+◌, ◌-◌, ◌≤◌, ◌<◌, Bool, true, false, not, ◌&&◌, ◌||◌, List, [], ◌∷◌, ◌++◌, Option,
  none, some, ltb, leb, ◌==◌, if◌then◌else◌, store, length,
}
use Prim.Native.Nat.{bit_or}
use tamer.Driver.PollFds
use tamer.Driver.PollFds.{PollFds}
use tamer.Driver.FdSet
use tamer.Driver.FdSet.{Fd, FdSet, is_nil}

pub record Flags : Type 0 where
  pub pollin : ℕ
  pub pollout : ℕ
  pub pollrdhup : ℕ

pub data Action : Type 0 where
  read : Action
  write : Action
  shutdown : Action

abbrev pub actions : List Action
actions = read ∷ write ∷ shutdown ∷ []

-- `x.e[action]`
abbrev pub waiting : Fd → Action → List ℕ
waiting x read = x.read
waiting x write = x.write
waiting x shutdown = x.shutdown

abbrev pub with_waiting : Fd → Action → List ℕ → Fd
with_waiting x read es = record x { read = es }
with_waiting x write es = record x { write = es }
with_waiting x shutdown es = record x { shutdown = es }

unfoldable pub set_waiting : FdSet → ℕ → Action → List ℕ → FdSet
set_waiting s fd action es = record s { e = store s.e fd (with_waiting (s.e fd) action es) }

-- `fd_disinterest`, which every event that `at_fd` registers calls when it is triggered
unfoldable pub fd_disinterest : ℕ → FdSet → ℕ → Option FdSet
fd_disinterest zero s fd = some s
fd_disinterest (suc n) s fd = elim (FdSet.push_change s fd) [
  | none ↦ none
  | some t ↦ fd_disinterest n t fd
]

-- `x.e[action].trigger(v)`: the events that are triggered, and the set with their hooks run
unfoldable pub trigger : FdSet → ℕ → Action → Option (List ℕ × FdSet)
unfolding set_waiting fd_disinterest
trigger s fd action =
    let es = waiting (s.e fd) action in
    elim (fd_disinterest (length es) (set_waiting s fd action []) fd) [
      | none ↦ none
      | some t ↦ some (es, t)
    ]

-- `at_fd` for an event that is not empty and one of the three actions; otherwise it does nothing
unfoldable pub at_fd : FdSet → ℕ → Action → ℕ → Option FdSet
unfolding set_waiting
at_fd s fd action e =
    let t = FdSet.expand s fd in
    FdSet.push_change (set_waiting t fd action (waiting (t.e fd) action ++ (e ∷ []))) fd

unfoldable pub kill_loop : List Action → FdSet → ℕ → Option (List ℕ × FdSet)
unfolding trigger
kill_loop [] s fd = some ([], s)
kill_loop (action ∷ as') s fd = elim (trigger s fd action) [
  | none ↦ none
  | some (es, t) ↦ elim (kill_loop as' t fd) [ none ↦ none | some (more, u) ↦ some (es ++ more, u) ]
]

-- `kill_fd`; every event gets the value -ECANCELED
unfoldable pub kill_fd : FdSet → ℕ → Option (List ℕ × FdSet)
unfolding kill_loop
kill_fd s fd =
    if ltb fd s.nfds
    then elim (kill_loop actions s fd) [
      | none ↦ none
      | some (es, t) ↦ elim (FdSet.push_change t fd) [ none ↦ none | some u ↦ some (es, u) ]
    ]
    else some ([], s)

unfoldable pub poll_events : Flags → Fd → ℕ
poll_events f x =
    bit_or
      (bit_or (if is_nil x.read then 0 else bit_or f.pollin f.pollrdhup)
        (if is_nil x.write then 0 else f.pollout))
      (if is_nil x.shutdown then 0 else f.pollrdhup)

-- `update_fds`; `none` if the fuel runs out
unfoldable pub update_fds : ℕ → Flags → FdSet → PollFds → Option (FdSet × PollFds)
update_fds zero f s p = none
update_fds (suc fuel) f s p = elim (FdSet.pop_change s) [
  | none ↦ some (s, p)
  | some (fd, t) ↦
      let new_events = poll_events f (t.e fd) in
      update_fds fuel f t
        (if PollFds.events p fd == new_events then p else PollFds.set_events p fd new_events)
]
