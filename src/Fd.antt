-- ===== src/Fd.antt =====
-- `fd`, `fdimp` and `fdref` of tamer/fd.hh and tamer/fd.tcc: handles to descriptors, which share an `fdimp` and close
-- its descriptor when the last strong one goes. An `fdimp` is a number. The events that `close` triggers
-- are calls in a list; what they do to the handles comes behind the operation that triggers them.
pub mod Closing
pub mod Balance
pub mod Adopting
pub mod Handles
pub mod Lifetime
pub mod Locks
mod Tests
use tamer.Prelude.{
  ℕ, zero, suc, ◌+◌, ◌-◌, ◌*◌, ◌^◌, Bool, true, false, not, ◌&&◌, ◌||◌, List, [], ◌∷◌, ◌++◌, Option,
  none, some, ltb, leb, ◌==◌, if◌then◌else◌, store, add32, sub32, set,
}
use tamer.Prelude.Int.{ℤ, pos, negsuc}
use tamer.Refs.{at, remove}

abbrev pub is_neg : ℤ → Bool
is_neg (pos n) = false
is_neg (negsuc n) = true

abbrev pub same_ℤ : ℤ → ℤ → Bool
same_ℤ (pos n) (pos m) = n == m
same_ℤ (negsuc n) (negsuc m) = n == m
same_ℤ (pos n) (negsuc m) = false
same_ℤ (negsuc n) (pos m) = false

-- `-EBADF`, on Linux
abbrev pub ebadf : ℤ
ebadf = negsuc 8

-- `fdimp`, less its locks
pub record Impl : Type 0 where
  pub fde : ℤ
  pub fdv : ℤ
  pub ref_count : ℕ
  pub weak_count : ℕ

unfoldable pub new_impl : ℤ → Impl
new_impl fd = record {
  fde = if is_neg fd then fd else pos 0;
  fdv = fd;
  ref_count = 1;
  weak_count = 0;
}

-- What is done outside, the newest first: a descriptor is handed over to an `fdimp`, `::close`, `kill_fd` and
-- the trigger of `_at_close`.
pub data Call : Type 0 where
  adopt : ℕ → ℤ → Call
  os_close : ℕ → ℤ → Call
  kill_fd : ℕ → ℤ → Call
  at_close : ℕ → Call

-- Whether there is a main driver, and what `::close` gives: 0, or the negative error code.
pub record Outside : Type 0 where
  pub main : Bool
  pub result : List Call → ℤ → ℤ

-- `fdimp::close`; what it does outside
unfoldable pub calls_of_close : Outside → ℕ → ℤ → List Call → List Call
calls_of_close o t fd tr =
    at_close t ∷ (if o.main then kill_fd t fd ∷ os_close t fd ∷ tr else os_close t fd ∷ tr)

abbrev pub current : Impl → ℤ
current i = if is_neg i.fde then i.fde else i.fdv

unfoldable pub close : Outside → ℕ → ℤ → Impl → List Call → Impl × List Call
unfolding calls_of_close
close o t leave i tr =
    let left = if is_neg leave then leave else ebadf in
    let my_fd = current i in
    let marked = if not (is_neg my_fd) || not (same_ℤ left ebadf) then left else i.fde in
    let x = o.result tr my_fd in
    if is_neg my_fd then (record i { fde = marked }, tr) else (
      record i { fde = if is_neg x && same_ℤ marked ebadf then x else marked },
      calls_of_close o t my_fd tr,
    )

-- what `close` returns
unfoldable pub close_result : Outside → ℕ → ℤ → Impl → List Call → ℤ
unfolding close
close_result o t leave i tr = current ((close o t leave i tr).0)

-- the object, unless `delete this`
abbrev pub kept : Impl → Option Impl
kept i = if i.ref_count == 0 && i.weak_count == 0 then none else some i

unfoldable pub ref : Impl → List Call → Option Impl × List Call
ref i tr = (some (record i { ref_count = add32 i.ref_count 1 }), tr)

unfoldable pub weak_ref : Impl → List Call → Option Impl × List Call
weak_ref i tr = (some (record i { weak_count = add32 i.weak_count 1 }), tr)

unfoldable pub deref : Outside → ℕ → Impl → List Call → Option Impl × List Call
unfolding close
deref o t i tr =
    let less = record i { ref_count = sub32 i.ref_count 1 } in
    let closed = close o t ebadf less tr in
    if less.ref_count == 0 then (kept closed.0, closed.1) else (kept less, tr)

unfoldable pub weak_deref : Impl → List Call → Option Impl × List Call
weak_deref i tr = (kept (record i { weak_count = sub32 i.weak_count 1 }), tr)

unfoldable pub closing : Outside → ℕ → ℤ → Impl → List Call → Option Impl × List Call
unfolding close
closing o t leave i tr = let c = close o t leave i tr in (some c.0, c.1)

pub record World : Type 0 where
  pub impls : ℕ → Option Impl
  pub trace : List Call

-- What a handle does to its `fdimp`; `none` is an access to one that is gone.
unfoldable pub on :
    World → Option ℕ → (ℕ → Impl → List Call → Option Impl × List Call) → Option World
on w none f = some w
on w (some t) f = elim (w.impls t) [
  | none ↦ none
  | some i ↦ some (record { impls = store w.impls t (f t i w.trace).0; trace = (f t i w.trace).1 })
]

-- The handles of a program: `fd` and strong `fdref` variables, and weak `fdref` variables.
pub record Memory : Type 0 where
  pub world : World
  pub strong : List (Option ℕ)
  pub weak : List (Option ℕ)

-- `make` and `close_fd` take a number that no `fdimp` had. A `copy` is `fd(f)`, `fdref(f)` or `fdref(f, strong)`.
pub data Op : Type 0 where
  make : ℕ → ℤ → Op
  copy : ℕ → Op
  move : ℕ → Op
  assign : ℕ → ℕ → Op
  assign_move : ℕ → ℕ → Op
  destroy : ℕ → Op
  watch : ℕ → Op
  watch_move : ℕ → Op
  destroy_weak : ℕ → Op
  close_fd : ℕ → ℤ → ℕ → Op
  close_weak : ℕ → ℤ → Op

unfoldable pub with_world : Option World → (World → Option Memory) → Option Memory
with_world none k = none
with_world (some w) k = k w

-- `new fdimp(fd)`
abbrev pub adopted : World → ℕ → ℤ → World
adopted w t fd = record {
  impls = store w.impls t (some (new_impl fd));
  trace = if is_neg fd then w.trace else adopt t fd ∷ w.trace;
}

-- `close` on a handle without an `fdimp`: an error other than `-EBADF` gets a new one.
abbrev pub is_null : Option ℕ → Bool
is_null none = true
is_null (some t) = false

unfoldable pub close_empty : Memory → ℕ → ℤ → ℕ → Memory
close_empty m i leave t =
    if is_neg leave && not (same_ℤ leave ebadf)
    then record m { world = adopted m.world t leave; strong = set m.strong i (some t) }
    else m

-- `fd(int)`
abbrev pub fd_new : Outside → Memory → ℕ → ℤ → Option Memory
fd_new o m t fd =
    if same_ℤ fd ebadf
    then some (record m { strong = m.strong ++ (none ∷ []) })
    else some (record m { world = adopted m.world t fd; strong = m.strong ++ (some t ∷ []) })

-- `fd(const fd&)`, `fdref(const fd&)` and `fdref(f, strong)`
abbrev pub fd_copy : Outside → Memory → ℕ → Option Memory
fd_copy o m i =
    with_world (on m.world (at m.strong i) (λ t. ref))
      (λ w. some (record m { world = w; strong = m.strong ++ (at m.strong i ∷ []) }))

-- `fd(fd&&)` and `fdref(fd&&)`
abbrev pub fd_move : Outside → Memory → ℕ → Option Memory
fd_move o m i = some (record m { strong = set m.strong i none ++ (at m.strong i ∷ []) })

-- `operator=(const fd&)`
abbrev pub fd_assign : Outside → Memory → ℕ → ℕ → Option Memory
fd_assign o m i j = with_world (on m.world (at m.strong j) (λ t. ref)) (λ v.
    with_world (on v (at m.strong i) (deref o))
      (λ w. some (record m { world = w; strong = set m.strong i (at m.strong j) })))

-- `operator=(fd&&)`
abbrev pub fd_assign_move : Outside → Memory → ℕ → ℕ → Option Memory
fd_assign_move o m i j =
    with_world (on m.world (at m.strong i) (deref o))
      (λ w. some (record m { world = w; strong = set (set m.strong i (at m.strong j)) j none }))

-- `~fd`, and `~fdref` of a strong one
abbrev pub fd_destroy : Outside → Memory → ℕ → Option Memory
fd_destroy o m i =
    with_world (on m.world (at m.strong i) (deref o))
      (λ w. some (record m { world = w; strong = remove m.strong i }))

-- `fdref(f, weak)`
abbrev pub fdref_watch : Outside → Memory → ℕ → Option Memory
fdref_watch o m i =
    with_world (on m.world (at m.strong i) (λ t. weak_ref))
      (λ w. some (record m { world = w; weak = m.weak ++ (at m.strong i ∷ []) }))

-- `fdref(fd&&, weak)`
abbrev pub fdref_watch_move : Outside → Memory → ℕ → Option Memory
fdref_watch_move o m i = with_world (on m.world (at m.strong i) (λ t. weak_ref)) (λ v.
    with_world (on v (at m.strong i) (deref o)) (λ w. some (record m {
      world = w;
      strong = set m.strong i none;
      weak = m.weak ++ (at m.strong i ∷ []);
    })))

-- `~fdref` of a weak one
abbrev pub fdref_destroy_weak : Outside → Memory → ℕ → Option Memory
fdref_destroy_weak o m i =
    with_world (on m.world (at m.weak i) (λ t. weak_deref))
      (λ w. some (record m { world = w; weak = remove m.weak i }))

-- `fd::close`
abbrev pub fd_close : Outside → Memory → ℕ → ℤ → ℕ → Option Memory
fd_close o m i leave t = with_world (on m.world (at m.strong i) (λ t. closing o t leave)) (λ w.
    some (if is_null (at m.strong i) then close_empty m i leave t else record m { world = w }))

-- `fdref::close` of a weak one
abbrev pub fdref_close : Outside → Memory → ℕ → ℤ → Option Memory
fdref_close o m i leave =
    with_world (on m.world (at m.weak i) (λ t. closing o t leave))
      (λ w. some (record m { world = w }))

unfoldable pub apply : Outside → Memory → Op → Option Memory
unfolding on with_world remove ref weak_ref deref weak_deref closing
apply o m (make t fd) = fd_new o m t fd
apply o m (copy i) = fd_copy o m i
apply o m (move i) = fd_move o m i
apply o m (assign i j) = fd_assign o m i j
apply o m (assign_move i j) = fd_assign_move o m i j
apply o m (destroy i) = fd_destroy o m i
apply o m (watch i) = fdref_watch o m i
apply o m (watch_move i) = fdref_watch_move o m i
apply o m (destroy_weak i) = fdref_destroy_weak o m i
apply o m (close_fd i leave t) = fd_close o m i leave t
apply o m (close_weak i leave) = fdref_close o m i leave

-- `valid`, `error`, `fdnum` and `recent_fdnum` of the `fdimp` of a handle; `none` is the failed assertion.
unfoldable pub valid : Option Impl → Bool
valid none = false
valid (some i) = not (is_neg i.fde)

unfoldable pub error : Option Impl → ℤ
error none = ebadf
error (some i) = i.fde

unfoldable pub fdnum : Option Impl → Option ℤ
fdnum none = none
fdnum (some i) = if is_neg i.fde then none else some i.fdv

unfoldable pub recent_fdnum : Option Impl → ℤ
recent_fdnum none = ebadf
recent_fdnum (some i) = i.fdv
