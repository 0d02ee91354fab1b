-- ===== src/Fd/Locks.antt =====
-- The locks of an `fdref`: `acquire_read`, `release_read`, `acquire_write`, `release_write`, `read`, `write` and the destructor
-- of tamer/fd.hh, on the two `mutex` objects of its `fdimp`, which are those of Mutex.
pub mod Alone
pub mod Unowned
mod Tests
use tamer.Prelude.{ℕ, Bool, true, false, List, [], ◌∷◌, Option, none, some, if◌then◌else◌}
use tamer.Prelude.Int.{ℤ}
use tamer.Mutex
use tamer.Mutex.{Mutex, Reply, granted, quiet}
use tamer.Fd.{Impl, fdnum}

-- `imp` is whether `imp_` is not null; the flags are `read_locked` and `write_locked`.
pub record FdRef : Type 0 where
  pub imp : Bool
  pub reading : Bool
  pub writing : Bool

-- `rlock_` and `wlock_` of the `fdimp`
pub record Locks : Type 0 where
  pub rlock : Mutex
  pub wlock : Mutex

-- The arguments are those of `Mutex.acquire`: the `wait` object of the call, and whether `done` is not empty.
pub data RefOp : Type 0 where
  acquire_read : ℕ → Bool → RefOp
  release_read : RefOp
  acquire_write : ℕ → Bool → RefOp
  release_write : RefOp

abbrev pub new_fdref : Bool → FdRef
new_fdref imp = record { imp = imp; reading = false; writing = false }

-- What a release of one of the locks leaves; `none` is the assertion of the mutex.
abbrev pub with_rlock : Locks → Option Mutex → Option Locks
with_rlock l none = none
with_rlock l (some m) = some (record l { rlock = m })

abbrev pub with_wlock : Locks → Option Mutex → Option Locks
with_wlock l none = none
with_wlock l (some m) = some (record l { wlock = m })

abbrev pub behind : FdRef → Option Locks → Option (FdRef × Locks × Reply)
behind r none = none
behind r (some l) = some (r, l, quiet)

-- The flags, the locks, and what `done` gets at once; `none` is a failed assertion, here or in the mutex. The
-- flag is set whether or not the lock is granted.
unfoldable pub step : FdRef → Locks → RefOp → Option (FdRef × Locks × Reply)
unfolding Mutex.acquire Mutex.release
step r l (acquire_read id live) =
    let (reply, m) = Mutex.acquire l.rlock id false live in
    if r.reading
    then none
    else if r.imp
    then some (record r { reading = true }, record l { rlock = m }, reply)
    else some (record r { reading = true }, l, granted)
step r l release_read =
    let off = record r { reading = false } in
    if r.reading
    then behind off (if r.imp then with_rlock l (Mutex.release l.rlock) else some l)
    else none
step r l (acquire_write id live) =
    let (reply, m) = Mutex.acquire l.wlock id false live in
    if r.writing
    then none
    else if r.imp
    then some (record r { writing = true }, record l { wlock = m }, reply)
    else some (record r { writing = true }, l, granted)
step r l release_write =
    let off = record r { writing = false } in
    if r.writing
    then behind off (if r.imp then with_wlock l (Mutex.release l.wlock) else some l)
    else none

-- `~fdref`, as far as it has to do with the locks
unfoldable pub release_all : FdRef → Locks → Option Locks
unfolding Mutex.release
release_all r l =
    let read_done =
      if r.imp
      then (if r.reading then with_rlock l (Mutex.release l.rlock) else some l)
      else some l in
    elim read_done [
      | none ↦ none
      | some k ↦
          if r.imp
          then (if r.writing then with_wlock k (Mutex.release k.wlock) else some k)
          else some k
    ]

-- The descriptor that `read` and `write` go to, or `EBADF`.
unfoldable pub read_target : FdRef → Option Impl → Option (Option ℤ)
read_target r i = if r.reading then some (fdnum i) else none

unfoldable pub write_target : FdRef → Option Impl → Option (Option ℤ)
write_target r i = if r.writing then some (fdnum i) else none

-- The whole life of an `fdref` that no one else shares the locks with: the locks at its end, and what each
-- operation gave at once.
unfoldable pub life : FdRef → Locks → List RefOp → Option (Locks × List Reply)
unfolding step release_all
life r l [] = elim (release_all r l) [ none ↦ none | some k ↦ some (k, []) ]
life r l (op ∷ ops) = elim (step r l op) [
  | none ↦ none
  | some (n, k, reply) ↦ elim (life n k ops) [
    | none ↦ none
    | some (end, replies) ↦ some (end, reply ∷ replies)
  ]
]
