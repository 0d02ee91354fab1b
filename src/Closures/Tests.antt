-- ===== src/Closures/Tests.antt =====
-- Closures at concrete inputs.
use tamer.Prelude.{
  ℕ, ◌≡◌, refl, subst, ◌⊎◌, inr, false, [], none, some, arith, ◌==◌, if◌then◌else◌, range,
}
use tamer.Closures.{SimpleDriver, initial, add, make_unblocked, pop_unblocked}
use tamer.Closures.Queue.{Held, closures}
use tamer.Closures.Adding.{Added, add_lem, initial-IsValid}
use tamer.Closures.Running.{Queued, Popped, make_unblocked_lem, pop_unblocked_lem}
use tamer.Closures.Blocking.{Target, loop, Program, block, unblock}
use tamer.Closures.Blocking.Laws.{IsValid, Resumes, Blocks, unblock_lem, block-Blocks}

-- closure 5 holds a slot
abbrev one_driver : SimpleDriver
one_driver = add initial 5

initial_small : initial.ccap ≡ 64
unfolding initial
initial_small = refl

one_ccap : one_driver.ccap ≡ 64
unfolding initial add
one_ccap = refl

one-Added : Added initial one_driver (range 1 63) [] 5
one-Added = add_lem initial 5 (range 1 63) [] initial-IsValid (omega (arith, initial_small))

-- and waits for the driver, blocked on rendezvous 2
abbrev one_blocked : Program
one_blocked = record {
  driver = one_driver;
  closure = λ c. record { block_position = 3; blocked_driver = if c == 5 then some loop else none };
  blocked_closure = λ r. if r == 2 then some 5 else none;
  ran = [];
}

only_five : (c : ℕ) → (one_blocked.closure c).blocked_driver ≡ some loop → 5 ≡ c
only_five c b = ground (arith, b)

one_blocked-IsValid : IsValid one_blocked
one_blocked-IsValid = record {
  free_slots = one-Added.free';
  queue = [];
  slots = one-Added.valid;
  held =
      λ c b. inr (subst (λ x. Held one_driver one-Added.free' [] x) (only_five c b) one-Added.held);
}

-- closure 5 is to run on
abbrev ready_driver : SimpleDriver
ready_driver = make_unblocked one_driver 5

ready-Queued : Queued one_driver ready_driver one-Added.free' [] 5
ready-Queued =
    make_unblocked_lem one_driver 5 one-Added.free' [] one-Added.valid (omega (arith, one_ccap))
      (inr one-Added.held)

pop_unblocked_lem_example :
    ((pop_unblocked 1 ready_driver ≡ some (none, ready_driver))
      × (closures ready_driver.cs ready-Queued.queue' ≡ []))
    ⊎ ((c : ℕ) × (e : SimpleDriver) × (pop_unblocked 1 ready_driver ≡ some (some c, e))
        × Popped ready_driver ready-Queued.free' ready-Queued.queue' c e)
pop_unblocked_lem_example =
    pop_unblocked_lem 1 ready_driver ready-Queued.free' ready-Queued.queue' ready-Queued.valid
      (omega arith)

unblock_lem_example :
    Resumes one_blocked one_blocked-IsValid 5 (unblock one_blocked 2)
    × (unblock (unblock one_blocked 2) 2 ≡ unblock one_blocked 2)
unblock_lem_example =
    unblock_lem one_blocked 2 5 one_blocked-IsValid (omega (arith, one_ccap)) refl refl

block-Blocks_example :
    ((t : Target) × ((one_blocked.closure 6).blocked_driver ≡ some t)
      × (block false one_blocked 9 6 1 ≡ none))
    ⊎ (((one_blocked.closure 6).blocked_driver ≡ none)
        × ((q : Program) × (block false one_blocked 9 6 1 ≡ some q)
            × Blocks one_blocked one_blocked-IsValid 9 6 1 q))
block-Blocks_example =
    block-Blocks false one_blocked 9 6 1 one_blocked-IsValid (omega (arith, one_ccap))
