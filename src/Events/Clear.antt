-- ===== src/Events/Clear.antt =====
-- `clear` of the rendezvous in tamer/xbase.cc and tamer/rendezvous.hh, and `unuse`: events that are dropped.
pub mod Laws
use tamer.Prelude.{
  sub32, ℕ, zero, suc, ◌+◌, ◌-◌, Bool, true, false, not, ◌&&◌, ◌||◌, List, [], ◌∷◌, ◌++◌, Option,
  none, some, ◌==◌, if◌then◌else◌, store, has,
}
use tamer.Events.{
  Event, Hook, trigger_hook, function, Rendezvous, Call, hooked, World, is_nil, simple_trigger,
  unuse_clean,
}

unfoldable pub unuse_trigger : ℕ → World → ℕ → Option World
unuse_trigger fuel w x = elim (w.events x) [
  | none ↦ none
  | some e ↦ elim e.rendezvous [
    | some r ↦ simple_trigger fuel x false w
    | none ↦ some (record w { events = store w.events x none })
  ]
]

unfoldable pub unuse : ℕ → World → ℕ → Option World
unuse fuel w x = elim (w.events x) [
  | none ↦ none
  | some e ↦
      let kept : World = record {
        events = store w.events x (
            some (record {
              rendezvous = e.rendezvous;
              rid = e.rid;
              hook = e.hook;
              refcount = sub32 e.refcount 1;
            }));
        rendezvous = w.rendezvous;
        program = w.program;
        calls = w.calls;
      } in
      if sub32 e.refcount 1 == 0 then unuse_trigger fuel kept x else some kept
]

abbrev pub emptied : Option Event → Option Event
emptied none = none
emptied (some e) =
    some (record { rendezvous = none; rid = e.rid; hook = e.hook; refcount = e.refcount })

-- The first loop of `hard_remove_waiting`.
unfoldable pub empty_all : List ℕ → World → World
empty_all [] w = w
empty_all (x ∷ xs) w = empty_all xs (record w { events = store w.events x (emptied (w.events x)) })

abbrev pub hook_at : Option Event → Option Hook
hook_at none = none
hook_at (some e) = e.hook

-- The second loop, which calls the hooks.
unfoldable pub run_hooks : ℕ → List ℕ → World → Option World
run_hooks fuel [] w = some w
run_hooks fuel (x ∷ xs) w = elim (hook_at (w.events x)) [
  | none ↦ run_hooks fuel xs w
  | some (function f) ↦ run_hooks fuel xs (record w { calls = w.calls ++ (hooked f ∷ []) })
  | some (trigger_hook y) ↦ elim (simple_trigger fuel y false w) [
    | none ↦ none
    | some u ↦ run_hooks fuel xs u
  ]
]

unfoldable pub hard_remove_waiting : ℕ → World → ℕ → Option World
hard_remove_waiting fuel w r =
    let xs = (w.rendezvous r).waiting in
    elim (run_hooks fuel xs (empty_all xs w)) [
      | none ↦ none
      | some u ↦ some (record u {
        rendezvous =
            store u.rendezvous r (record {
              kind = (u.rendezvous r).kind;
              waiting = [];
              ready = (u.rendezvous r).ready;
            });
      })
    ]

unfoldable pub remove_waiting : ℕ → World → ℕ → Option World
remove_waiting fuel w r =
    if is_nil (w.rendezvous r).waiting then some w else hard_remove_waiting fuel w r

unfoldable pub drop_ready : List ℕ → World → Option World
drop_ready [] w = some w
drop_ready (x ∷ xs) w = elim (unuse_clean w x) [ none ↦ none | some u ↦ drop_ready xs u ]

unfoldable pub remove_ready : World → ℕ → Option World
remove_ready w r = elim (drop_ready (w.rendezvous r).ready w) [
  | none ↦ none
  | some u ↦ some (record u {
    rendezvous =
        store u.rendezvous r
          (record { kind = (u.rendezvous r).kind; waiting = (u.rendezvous r).waiting; ready = [] });
  })
]

-- `clear` of a rendezvous; that of a gather rendezvous is `remove_waiting` alone.
unfoldable pub clear : ℕ → World → ℕ → Option World
clear fuel w r = elim (remove_waiting fuel w r) [ none ↦ none | some u ↦ remove_ready u r ]

abbrev pub has_ready : World → ℕ → Bool
has_ready w r = not (is_nil (w.rendezvous r).ready)

abbrev pub has_waiting : World → ℕ → Bool
has_waiting w r = not (is_nil (w.rendezvous r).waiting)

abbrev pub has_events : World → ℕ → Bool
has_events w r = has_ready w r || has_waiting w r
