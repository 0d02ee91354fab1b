-- ===== src/Events.antt =====
-- `simple_event`, `abstract_rendezvous`, `explicit_rendezvous` and the joins of tamer/xbase.hh, tamer/xbase.cc and
-- tamer/rendezvous.hh: events that wait on a rendezvous, and what triggering one of them does. Events and
-- rendezvous are numbers; the linked lists of a rendezvous are lists.
pub mod Waiting
pub mod Gather
pub mod Explicit
pub mod Clear
pub mod Typed
pub mod Distribute
mod Tests
use tamer.Prelude.{
  sub32, ℕ, zero, suc, ◌+◌, ◌-◌, Bool, true, false, not, ◌&&◌, ◌||◌, List, [], ◌∷◌, ◌++◌, Option,
  none, some, ◌==◌, if◌then◌else◌, store, has,
}
use tamer.Closures.Blocking.{Program, unblock}

-- `at_trigger_f_` and `at_trigger_arg_`: an event to trigger, by `trigger_hook`, or another function
pub data Hook : Type 0 where
  trigger_hook : ℕ → Hook
  function : ℕ → Hook

pub record Event : Type 0 where
  pub rendezvous : Option ℕ
  pub rid : ℕ
  pub hook : Option Hook
  pub refcount : ℕ

-- `rendezvous_type`; distribution is by a function as well.
pub data Kind : Type 0 where
  gather : Kind
  explicit : Kind
  functional : Kind

-- `waiting` has the newest event first, `ready` the oldest.
pub record Rendezvous : Type 0 where
  pub kind : Kind
  pub waiting : List ℕ
  pub ready : List ℕ

-- A call of a function that is not part of the events: the hook of an event, or the function of a rendezvous
-- with the event and `values`.
pub data Call : Type 0 where
  hooked : ℕ → Call
  notified : ℕ → ℕ → Bool → Call

-- An event that was deleted is gone.
pub record World : Type 0 where
  pub events : ℕ → Option Event
  pub rendezvous : ℕ → Rendezvous
  pub program : Program
  pub calls : List Call

abbrev pub is_nil : List ℕ → Bool
is_nil [] = true
is_nil (x ∷ xs) = false

-- A node taken out of its list.
unfoldable pub delete : ℕ → List ℕ → List ℕ
delete x [] = []
delete x (y ∷ ys) = if x == y then ys else y ∷ delete x ys

-- the constructor, for a number that no event has
unfoldable pub make_event : World → ℕ → ℕ → ℕ → World
make_event w x r rid =
    let rv = w.rendezvous r in
    record w {
      events =
          store w.events x
            (some (record { rendezvous = some r; rid = rid; hook = none; refcount = 1 }));
      rendezvous =
          store w.rendezvous r
            (record { kind = rv.kind; waiting = x ∷ rv.waiting; ready = rv.ready });
    }

-- The event leaves the waiting ones of its rendezvous, which acts on it.
unfoldable pub notify : World → ℕ → ℕ → Bool → World
unfolding delete
notify w x r values =
    let rv = w.rendezvous r in
    let left = delete x rv.waiting in
    elim rv.kind [
      | gather ↦ record w {
        rendezvous =
            store w.rendezvous r (record { kind = gather; waiting = left; ready = rv.ready });
        program = if is_nil left then unblock w.program r else w.program;
      }
      | explicit ↦ record w {
        rendezvous =
            store w.rendezvous r
              (record { kind = explicit; waiting = left; ready = rv.ready ++ (x ∷ []) });
        program = unblock w.program r;
      }
      | functional ↦ record w {
        rendezvous =
            store w.rendezvous r (record { kind = functional; waiting = left; ready = rv.ready });
        calls = w.calls ++ (notified r x values ∷ []);
      }
    ]

-- The reference that an explicit rendezvous takes for its ready events.
abbrev pub taken : Kind → ℕ
taken gather = 0
taken explicit = 1
taken functional = 0

abbrev pub taken_by : World → Option ℕ → ℕ
taken_by w none = 0
taken_by w (some r) = taken (w.rendezvous r).kind

-- The event behind its trigger, which gives back a reference if there is one.
unfoldable pub spent : World → Event → Event
spent w e = record {
  rendezvous = none;
  rid = e.rid;
  hook = e.hook;
  refcount =
      if e.refcount == 0 then taken_by w e.rendezvous else e.refcount + taken_by w e.rendezvous - 1;
}

abbrev pub notify_all : World → ℕ → Option ℕ → Bool → World
notify_all w x none values = w
notify_all w x (some r) values = notify w x r values

-- The hook is read only if the event was not empty.
abbrev pub hook_of : Option ℕ → Option Hook → Option Hook
hook_of none h = none
hook_of (some r) h = h

abbrev pub delete_all : List ℕ → World → World
delete_all xs w = record w { events = λ y. if has y xs then none else w.events y }

-- `simple_trigger`, with the events that it deletes at its end; `none` if the fuel runs out, or if an event is
-- touched that is gone.
unfoldable pub trigger_loop : ℕ → ℕ → Bool → List ℕ → World → Option World
unfolding notify spent
trigger_loop zero x values gone w = none
trigger_loop (suc fuel) x values gone w = elim (w.events x) [
  | none ↦ none
  | some e ↦
      let more = if (spent w e).refcount == 0 then x ∷ gone else gone in
      let v = notify_all w x e.rendezvous values in
      let u : World = record {
        events = store w.events x (some (spent w e));
        rendezvous = v.rendezvous;
        program = v.program;
        calls = v.calls;
      } in
      elim (hook_of e.rendezvous e.hook) [
        | none ↦ some (delete_all more u)
        | some (function f) ↦
            some (delete_all more (record u { calls = u.calls ++ (hooked f ∷ []) }))
        | some (trigger_hook y) ↦ trigger_loop fuel y false more u
      ]
]

unfoldable pub simple_trigger : ℕ → ℕ → Bool → World → Option World
unfolding trigger_loop
simple_trigger fuel x values w = trigger_loop fuel x values [] w

-- A caller that triggers events one after another.
unfoldable pub trigger_each : ℕ → List ℕ → Bool → World → Option World
unfolding simple_trigger
trigger_each fuel [] values w = some w
trigger_each fuel (x ∷ xs) values w = elim (simple_trigger fuel x values w) [
  | none ↦ none
  | some u ↦ trigger_each fuel xs values u
]

unfoldable pub unuse_clean : World → ℕ → Option World
unuse_clean w x = elim (w.events x) [
  | none ↦ none
  | some e ↦
      let left : Event = record {
        rendezvous = e.rendezvous;
        rid = e.rid;
        hook = e.hook;
        refcount = sub32 e.refcount 1;
      } in
      some (record w {
        events = store w.events x (if sub32 e.refcount 1 == 0 then none else some left);
      })
]

-- `pop_ready`, where `x` is the first event that is ready and `xs` are the others: its `rid`
unfoldable pub pop_ready : World → ℕ → ℕ → List ℕ → Option (ℕ × World)
unfolding unuse_clean
pop_ready w r x xs = elim (w.events x) [
  | none ↦ none
  | some e ↦
      let rv = w.rendezvous r in
      elim (unuse_clean
        (record w {
          rendezvous =
              store w.rendezvous r (record { kind = rv.kind; waiting = rv.waiting; ready = xs });
        })
        x) [ none ↦ none | some u ↦ some (e.rid, u) ]
]

-- `join`; nothing if no event is ready
unfoldable pub join : World → ℕ → Option (Option ℕ × World)
unfolding pop_ready
join w r = elim (w.rendezvous r).ready [
  | [] ↦ some (none, w)
  | x ∷ xs ↦ elim (pop_ready w r x xs) [ none ↦ none | some (rid, u) ↦ some (some rid, u) ]
]

-- A caller that joins as long as an event is ready; `none` if the fuel runs out.
unfoldable pub join_each : ℕ → World → ℕ → Option (List ℕ × World)
unfolding join
join_each zero w r = none
join_each (suc fuel) w r = elim (join w r) [
  | none ↦ none
  | some (none, u) ↦ some ([], u)
  | some (some rid, u) ↦ elim (join_each fuel u r) [
    | none ↦ none
    | some (rids, v) ↦ some (rid ∷ rids, v)
  ]
]
