-- ===== src/Driver/FdSet.antt =====
-- `driver_fdset` and `driver_fd` of tamer/dinternal.hh: for each descriptor the events that wait for it,
-- and the list of descriptors whose events have changed.
pub mod Changes
pub mod Expand
use tamer.Prelude.{
  ℕ, zero, suc, ◌+◌, ◌-◌, ◌*◌, ◌/◌, ◌%◌, ◌≤◌, ◌^◌, Bool, true, false, not, ◌&&◌, ◌||◌, List, [],
  ◌∷◌, ◌++◌, Option, none, some, ltb, leb, ◌==◌, if◌then◌else◌, store,
}
use Prim.Native.Nat.{bit_or}

-- `driver_fd`: `e[0]` waits to read, `e[1]` to write, `e[2]` for a shutdown. An `event<int>` that collects
-- several events is the list of them, empty if there is none.
pub record Fd : Type 0 where
  pub read : List ℕ
  pub write : List ℕ
  pub shutdown : List ℕ

-- `next` is `next_changedfd1` of each descriptor; only those below `nfds` exist. The blocks behind
-- `fdblk_` are one array.
pub record FdSet : Type 0 where
  pub e : ℕ → Fd
  pub next : ℕ → ℕ
  pub nfds : ℕ
  pub fdcap : ℕ
  pub changedfd1 : ℕ

abbrev pub no_events : Fd
no_events = record { read = []; write = []; shutdown = [] }

abbrev pub fdblksiz : ℕ
fdblksiz = 256

abbrev pub initial : FdSet
initial = record { e = λ _. no_events; next = λ _. 0; nfds = 0; fdcap = fdblksiz; changedfd1 = 0 }

abbrev pub is_nil : List ℕ → Bool
is_nil [] = true
is_nil (x ∷ xs) = false

-- `driver_fd::empty`
abbrev pub empty : Fd → Bool
empty x = is_nil x.read && is_nil x.write && is_nil x.shutdown

-- The block of a descriptor, and its place in the block, as in `at`.
abbrev pub place : ℕ → ℕ × ℕ
place fd = (fd / fdblksiz, fd % fdblksiz)

-- The loop of `hard_expand` that makes new descriptors; as many rounds as are missing.
unfoldable pub make_fds : ℕ → FdSet → FdSet
make_fds zero s = s
make_fds (suc n) s =
    make_fds n
      (record s { e = store s.e s.nfds no_events; next = store s.next s.nfds 0; nfds = s.nfds + 1 })

unfoldable pub hard_expand : FdSet → ℕ → FdSet
unfolding make_fds
hard_expand s need_fd = make_fds (need_fd + 1 - s.nfds) (record s {
  fdcap = if leb s.fdcap need_fd then bit_or need_fd (fdblksiz - 1) + 1 else s.fdcap;
})

unfoldable pub expand : FdSet → ℕ → FdSet
unfolding hard_expand
expand s need_fd = if leb s.nfds need_fd then hard_expand s need_fd else s

abbrev pub has_change : FdSet → Bool
has_change s = not (s.changedfd1 == 0)

-- `none` is a failed assertion.
unfoldable pub push_change : FdSet → ℕ → Option FdSet
push_change s fd =
    if ltb fd s.nfds
    then some (record s {
      next = if s.next fd == 0 then store s.next fd s.changedfd1 else s.next;
      changedfd1 = if s.next fd == 0 then fd + 1 else s.changedfd1;
    })
    else none

-- `none` is the result -1.
unfoldable pub pop_change : FdSet → Option (ℕ × FdSet)
pop_change s = elim s.changedfd1 [
  | zero ↦ none
  | suc fd ↦ some (fd, record s { changedfd1 = s.next fd; next = store s.next fd 0 })
]
