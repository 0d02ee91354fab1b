-- ===== src/Events/Tests.antt =====
-- Events at concrete inputs.
use tamer.Prelude.{
  ℕ, ◌<◌, length, take, ◌≡◌, refl, true, [], ◌∷◌, none, some, arith, ◌==◌, if◌then◌else◌, has,
  Distinct, Option, if_intro, zero, suc,
}
use tamer.Closures.{initial}
use tamer.Closures.Blocking.{loop, unblock}
use tamer.Events.{Event, Kind, gather, explicit, World, trigger_each, join_each}
use tamer.Events.Waiting.{IsValid}
use tamer.Events.Clear.{remove_waiting}
use tamer.Events.Clear.Laws.{Removed, remove_waiting_lem}
use tamer.Events.Explicit.{Waits, joined_in_order}
use tamer.Events.Typed.{Handle, Memory, no_event, values_at, trigger}
use tamer.Events.Typed.Once.{trigger_once}
use tamer.Events.Gather.{NoHooks, trigger_each_lem}

-- events 1 and 2 wait on rendezvous 4, which blocks closure 5
abbrev event_at : ℕ → Event
event_at x = record { rendezvous = some 4; rid = x; hook = none; refcount = 1 }

abbrev two_events : ℕ → Option Event
two_events zero = none
two_events (suc zero) = some (event_at 1)
two_events (suc (suc zero)) = some (event_at 2)
two_events (suc (suc (suc x))) = none

abbrev waiting_on : Kind → World
waiting_on kind = record {
  events = two_events;
  rendezvous = λ r. record { kind = kind; waiting = if r == 4 then 2 ∷ 1 ∷ [] else []; ready = [] };
  program = record {
    driver = initial;
    closure =
        λ c. record { block_position = 1; blocked_driver = if c == 5 then some loop else none };
    blocked_closure = λ r. if r == 4 then some 5 else none;
    ran = [];
  };
  calls = [];
}

abbrev two_waiting : World
two_waiting = waiting_on gather

two_waiting_listed :
    (x r : ℕ)
    → has x (two_waiting.rendezvous r).waiting ≡ true
    → (e : Event) × (two_events x ≡ some e) × (e.rendezvous ≡ some r)
two_waiting_listed zero r h = absurd (ground arith)
two_waiting_listed (suc zero) r h = (event_at 1, refl, ground (arith, h))
two_waiting_listed (suc (suc zero)) r h = (event_at 2, refl, ground (arith, h))
two_waiting_listed (suc (suc (suc x))) r h = absurd (ground arith)

two_waiting-NoHooks : NoHooks two_waiting 4
two_waiting-NoHooks zero e h there = absurd (ground arith)
two_waiting-NoHooks (suc zero) e h there = ground (arith, there)
two_waiting-NoHooks (suc (suc zero)) e h there = ground (arith, there)
two_waiting-NoHooks (suc (suc (suc x))) e h there = absurd (ground arith)

two_waiting-IsValid : IsValid two_waiting
two_waiting-IsValid = record {
  listed = λ x r h. two_waiting_listed x r h;
  distinct = λ r. if_intro Distinct (r == 4) (2 ∷ 1 ∷ []) [] (λ h. (refl, (refl, tt))) (λ h. tt);
}

trigger_each_lem_example :
    (u : World) × (trigger_each 1 (1 ∷ 2 ∷ []) true two_waiting ≡ some u)
    × ((u.rendezvous 4).waiting ≡ [])
    × (u.program ≡ unblock two_waiting.program 4)
    × IsValid u
    × ((n : ℕ)
        → n < length {A = ℕ} (1 ∷ 2 ∷ [])
        → (b : World) × (trigger_each 1 (take n (1 ∷ 2 ∷ [])) true two_waiting ≡ some b)
          × (b.program ≡ two_waiting.program))
trigger_each_lem_example =
    trigger_each_lem 1 true 4 (omega arith) two_waiting 1 (2 ∷ []) two_waiting-IsValid refl
      (refl, (refl, tt)) (λ y. ground arith) two_waiting-NoHooks

two_Waits : (x : ℕ) → has x (2 ∷ 1 ∷ []) ≡ true → Waits (waiting_on explicit) 4 (λ y. y) x
two_Waits zero h = absurd (ground arith)
two_Waits (suc zero) h = record {
  event = event_at 1;
  there = refl;
  on = refl;
  rid = refl;
  plain = refl;
}
two_Waits (suc (suc zero)) h = record {
  event = event_at 2;
  there = refl;
  on = refl;
  rid = refl;
  plain = refl;
}
two_Waits (suc (suc (suc x))) h = absurd (ground arith)

joined_in_order_example :
    (u v : World) × (trigger_each 1 (2 ∷ 1 ∷ []) true (waiting_on explicit) ≡ some u)
    × (join_each 3 u 4 ≡ some (2 ∷ 1 ∷ [], v))
    × ((v.rendezvous 4).ready ≡ [])
joined_in_order_example =
    joined_in_order 4 (λ y. y) 1 3 true (waiting_on explicit) (2 ∷ 1 ∷ []) refl refl
      (refl, (refl, tt)) two_Waits (omega arith) (omega arith)

remove_waiting_lem_example :
    (u : World) × (remove_waiting 1 two_waiting 4 ≡ some u) × Removed two_waiting 4 u
remove_waiting_lem_example =
    remove_waiting_lem 1 two_waiting 4 two_waiting-IsValid two_waiting-NoHooks

-- event 1 with two handles: one for the slots 7 and 8, the other for slot 9
abbrev shared_event : Event
shared_event = record { rendezvous = some 4; rid = 1; hook = none; refcount = 2 }

abbrev shared_memory : Memory ℕ
shared_memory = record {
  world = record {
    events = λ x. if x == 1 then some shared_event else none;
    rendezvous = two_waiting.rendezvous;
    program = two_waiting.program;
    calls = [];
  };
  values = λ s. 0;
}

abbrev first_handle : Handle
first_handle = record { se = some 1; slots = 7 ∷ 8 ∷ [] }

abbrev other_handle : Handle
other_handle = record { se = some 1; slots = 9 ∷ [] }

trigger_once_example :
    (n : Memory ℕ) × (trigger 1 first_handle (70 ∷ 80 ∷ []) shared_memory
      ≡ some (no_event (7 ∷ 8 ∷ []), n))
    × (values_at n.values (7 ∷ 8 ∷ []) ≡ 70 ∷ 80 ∷ [])
    × (trigger 1 other_handle (90 ∷ []) n ≡ some (other_handle, n))
trigger_once_example =
    trigger_once 0 shared_memory first_handle other_handle 1 4 shared_event (70 ∷ 80 ∷ []) (90 ∷ [])
      refl refl refl refl refl (omega arith) (refl, (refl, tt)) refl
