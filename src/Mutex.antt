-- ===== src/Mutex.antt =====
-- `mutex` of tamer/lock.hh and tamer/lock.tcc. A call of `acquire` that has to wait is a closure,
-- which runs on when its rendezvous `r` has a ready event; the moments at which closures run on and
-- `done` events are canceled are steps that the driver and the program choose.
pub mod Inv
pub mod Held
pub mod Order
mod Tests
use tamer.Prelude.{
  ℕ, zero, suc, Bool, true, false, not, ◌&&◌, List, [], ◌∷◌, ◌++◌, Option, none, some, ◌==◌,
  if◌then◌else◌,
}
use tamer.Prelude.Int.{ℤ, pos, negsuc, ◌+ℤ◌}

-- The parameter `int shared`: `true` is 1, `false` is -1.
abbrev pub amount : Bool → ℤ
amount true = pos 1
amount false = negsuc 0

-- A waiting call: its `wait` object and the variables of its closure. The list `wait_` is in the order
-- of the `next` pointers.
pub record Wait : Type 0 where
  pub id : ℕ  -- the address of `w`
  pub shared : Bool
  pub live : Bool  -- `done` is not empty
  pub armed : Bool  -- `w.e` is not empty
  pub ready : Bool  -- `r` has a ready event, so the closure is unblocked

pub record Mutex : Type 0 where
  pub locked : ℤ
  pub waits : List Wait

abbrev pub initial : Mutex
initial = record { locked = pos 0; waits = [] }

-- `shared > 0 ? locked_ != -1 : locked_ == 0`
abbrev pub available : Bool → ℤ → Bool
available true (negsuc zero) = false
available true _ = true
available false (pos zero) = true
available false _ = false

-- What a step does to `done`: `granted` triggers it with the lock held.
pub data Reply : Type 0 where
  granted : Reply
  quiet : Reply

abbrev no_waits : List Wait → Bool
no_waits [] = true
no_waits (w ∷ ws) = false

-- `acquire(shared, done)` up to its first `twait`
unfoldable pub acquire : Mutex → ℕ → Bool → Bool → Reply × Mutex
acquire m id shared live =
    if not live
    then (quiet, m)
    else if no_waits m.waits && available shared m.locked
    then (granted, record m { locked = m.locked +ℤ amount shared })
    else (
      quiet,
      record m {
        waits =
            m.waits
            ++ (record { id = id; shared = shared; live = true; armed = true; ready = false } ∷ []);
      },
    )

-- `e.trigger()` on the event of the first waiting call; an empty event stays as it is
abbrev pub wake_first : List Wait → List Wait
wake_first [] = []
wake_first (w ∷ ws) = (if w.armed then record w { armed = false; ready = true } else w) ∷ ws

unfoldable pub wake : Mutex → Mutex
wake m = record m { waits = wake_first m.waits }

-- `none` is a failed assertion.
unfoldable pub release : Mutex → Option Mutex
unfolding wake
release m = elim m.locked [
  | negsuc zero ↦ some (wake (record m { locked = negsuc 0 +ℤ pos 1 }))
  | _ ↦ none
]

unfoldable pub release_shared : Mutex → Option Mutex
unfolding wake
release_shared m = elim m.locked [
  | pos (suc n) ↦ some (wake (record m { locked = pos (suc n) +ℤ negsuc 0 }))
  | pos zero ↦ none
  | negsuc zero ↦ none
  | negsuc (suc n) ↦ some (wake (record m { locked = negsuc (suc n) +ℤ negsuc 0 }))
]

unfoldable pub find : ℕ → List Wait → Option Wait
find id [] = none
find id (w ∷ ws) = if w.id == id then some w else find id ws

-- `*w.pprev = w.next` and what follows it
unfoldable pub remove : ℕ → List Wait → List Wait
remove id [] = []
remove id (w ∷ ws) = if w.id == id then ws else w ∷ remove id ws

unfoldable pub update : ℕ → (Wait → Wait) → List Wait → List Wait
update id f [] = []
update id f (w ∷ ws) = if w.id == id then f w ∷ ws else w ∷ update id f ws

-- The end of `acquire`, behind its loop: `shared` is the variable, which a canceled call has set to 1.
unfoldable pub finish : Mutex → ℕ → Bool → Mutex
unfolding wake
finish m id shared =
    let left = record m { waits = remove id m.waits } in if shared then wake left else left

-- The body of the loop behind `twait(r)`, for the call `w`, and what follows the loop.
unfoldable pub run_on : Mutex → ℕ → Wait → Reply × Mutex
unfolding finish update
run_on m id w =
    if not w.live
    then (quiet, finish m id true)
    else if available w.shared m.locked
    then (granted, finish (record m { locked = m.locked +ℤ amount w.shared }) id w.shared)
    else (
      quiet,
      record m { waits = update id (λ v. record v { armed = true; ready = false }) m.waits },
    )

-- A closure runs on; `none` if the call does not wait or is not unblocked.
unfoldable pub resume : Mutex → ℕ → Option (Reply × Mutex)
unfolding find
resume m id = elim (find id m.waits) [
  | none ↦ none
  | some w ↦ if w.ready then some (run_on m id w) else none
]

-- The program triggers or drops `done` while the call waits: its `at_trigger` event makes `r` ready.
unfoldable pub cancel : Mutex → ℕ → Mutex
cancel m id = record m { waits = update id (λ v. record v { live = false; ready = true }) m.waits }
