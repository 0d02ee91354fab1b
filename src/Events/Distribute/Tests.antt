-- ===== src/Events/Distribute/Tests.antt =====
-- A distributed event with the two events of the test of gather rendezvous, and arrays of three children.
use tamer.Prelude.{ℕ, inr, ◌≡◌, refl, true, false, Bool, List, [], ◌∷◌, some, none, has}
use tamer.Closures.{initial}
use tamer.Events.{Event, explicit}
use tamer.Events.Typed.{Handle, Memory}
use tamer.Events.Distribute.{Distribute, new_distribute, add_all, hook}
use tamer.Events.Distribute.Space.{handles, count_shared, add_all_lem}
use tamer.Events.Distribute.Children.{Over, Waits, emptied, hook_lem}

abbrev child : ℕ → Handle
child x = record { se = some x; slots = x ∷ [] }

abbrev three : List (Handle × Bool)
three = (child 1, false) ∷ (child 2, true) ∷ (child 3, false) ∷ []

add_all_lem_example :
    (n : Distribute) × (add_all (new_distribute []) three ≡ some n)
    × (n.es ≡ handles three)
    × (n.outstanding ≡ count_shared three)
add_all_lem_example = add_all_lem [] three

abbrev waiting : ℕ → Event
waiting x = record { rendezvous = some 4; rid = x; hook = none; refcount = 1 }

abbrev memory : Memory ℕ
memory = record {
  world = record {
    events = λ x. some (waiting x);
    rendezvous = λ r. record { kind = explicit; waiting = 2 ∷ 1 ∷ []; ready = [] };
    program = record {
      driver = initial;
      closure = λ c. record { block_position = 1; blocked_driver = none };
      blocked_closure = λ r. none;
      ran = [];
    };
    calls = [];
  };
  values = λ s. s;
}

abbrev two : Distribute
two = record { es = child 1 ∷ child 2 ∷ []; space = 2; outstanding = 0; vs = 9 ∷ [] }

child-Waits : (x : ℕ) → Waits memory.world (child x) x
child-Waits x = record { same = refl; event = (waiting x, refl, refl, 4, refl, inr refl) }

hook_lem_example :
    (n : Memory ℕ) × (hook 1 7 true false two memory
      ≡ some (record two { es = emptied two.es }, n, true))
    × ((x : ℕ) → has x (1 ∷ 2 ∷ []) ≡ true → Over (n.world.events x))
    × ((y : ℕ) → has y (1 ∷ 2 ∷ []) ≡ false → n.world.events y ≡ memory.world.events y)
    × (n.world.calls ≡ memory.world.calls)
hook_lem_example =
    hook_lem 0 7 true two memory (1 ∷ 2 ∷ []) (child-Waits 1, (child-Waits 2, tt))
      (refl, (refl, tt))
